-- ===== src/Connect/Disconnect.antt =====
-- Disconnecting a block (CBlock::DisconnectBlock in src/servilo/main.cpp). The undo information that
-- is read from the disk is an argument.
use primmonero.Base.{
  ℕ, zero, suc, ◌+◌, ◌%◌, ◌^◌, Bool, true, false, not, ◌&&◌, Option, none, some, List, [], ◌∷◌,
  ◌==◌, if◌then◌else◌, length,
}
use primmonero.Base.Int.{ℤ, pos, negsuc}
use primmonero.Script.{bytes_eq}
use primmonero.Coins.{TxOut, null_out, Coins, TxInUndo, is_available, is_pruned, set_at}
use primmonero.Coins.View.{
  CoinsView, Cache, fetch_coins, set_coins, have_coins, get_best_block, set_best_block,
}
use primmonero.Transaction.{TxIn, Transaction, new_coins, empty_coins}
use primmonero.Connect.{get_coins}

unfoldable pub int_eq : ℤ → ℤ → Bool
int_eq (pos a) (pos b) = a == b
int_eq (pos a) (negsuc b) = false
int_eq (negsuc a) (pos b) = false
int_eq (negsuc a) (negsuc b) = a == b

unfoldable pub bool_eq : Bool → Bool → Bool
bool_eq true b = b
bool_eq false b = not b

-- CTxOut's operator==, on vectors of outputs.
unfoldable pub outs_eq : List TxOut → List TxOut → Bool
outs_eq [] [] = true
outs_eq [] (p ∷ ps) = false
outs_eq (o ∷ os) [] = false
outs_eq (o ∷ os) (p ∷ ps) = (int_eq o.value p.value && bytes_eq o.script p.script) && outs_eq os ps

-- CCoins' operator==.
unfoldable pub coins_eq : Coins → Coins → Bool
coins_eq a b =
    bool_eq a.coin_base b.coin_base
    && (a.height == b.height)
    && int_eq a.version b.version
    && outs_eq a.vout b.vout

-- `vout.resize(size)` where the vector has fewer elements, else nothing.
unfoldable pub grow : List TxOut → ℕ → List TxOut
grow os zero = os
grow [] (suc size) = null_out ∷ grow [] size
grow (o ∷ os) (suc size) = o ∷ grow os size

abbrev pub or_empty : Option Coins → Coins
or_empty none = empty_coins
or_empty (some c) = c

-- The entry that the undo information is put back in, and whether it was as expected.
unfoldable pub reopened : Coins → TxInUndo → Bool × Coins
reopened c undo =
    if not (undo.height == 0)
    then (
      is_pruned c,
      record empty_coins {
        coin_base = undo.coin_base;
        height = undo.height;
        version = undo.version;
      },
    )
    else (not (is_pruned c), c)

-- The output goes back. `out.n + 1` is of 32 bits; the assignment past the end is nothing here.
unfoldable pub put_back : Coins → ℕ → TxOut → Coins
put_back c n out = record c { vout = set_at (grow c.vout ((n + 1) % 2 ^ 32)) n out }

-- How DisconnectBlock ends: on a failed assertion, with an error, or with fClean and the view.
pub data Outcome (S : Type 0) : Type 0 where
  aborted : Outcome S
  failed : Outcome S
  done : Bool → Cache S → Outcome S

-- A negative version is not in the database: it is taken from the block.
unfoldable pub with_version : Coins → Coins → Coins
with_version outs block = elim (block.version) [
  | pos n ↦ outs
  | negsuc n ↦ record outs { version = negsuc n }
]

abbrev pub is_block : Option ℕ → ℕ → Bool
is_block none b = false
is_block (some a) b = a == b

module _ (v : CoinsView) where
  -- One round of the loop over the inputs. A cache's SetCoins never fails.
  unfoldable pub restore_input : Bool → Cache (v.State) → TxIn → TxInUndo → Outcome (v.State)
  restore_input clean s i undo =
      let (found, s1) = fetch_coins v s i.prevout.hash in
      let (as_expected, c) = reopened (or_empty found) undo in
      let clean' = clean && as_expected && not (is_available c i.prevout.n) in
      let (stored, s2) = set_coins v s1 i.prevout.hash (put_back c i.prevout.n undo.txout) in
      if stored then done clean' s2 else failed

  -- The loop goes from the last input to the first.
  unfoldable pub restore_inputs :
      Bool → Cache (v.State) → List TxIn → List TxInUndo → Outcome (v.State)
  restore_inputs clean s [] [] = done clean s
  restore_inputs clean s [] (u ∷ us) = failed
  restore_inputs clean s (i ∷ is) [] = failed
  restore_inputs clean s (i ∷ is) (u ∷ us) = elim (restore_inputs clean s is us) [
    | aborted ↦ aborted
    | failed ↦ failed
    | done clean' s' ↦ restore_input clean' s' i u
  ]

  -- The outputs of a transaction are looked at, compared and removed.
  unfoldable pub remove_outputs : Bool → Cache (v.State) → Transaction → ℕ → ℕ → Outcome (v.State)
  remove_outputs clean s tx height hash =
      let (have, s1) = have_coins v s hash in
      let s2 = if have then s1 else (set_coins v s1 hash empty_coins).1 in
      elim (get_coins v s2 hash) [
        | none ↦ aborted
        | some (outs, s3) ↦
            done
              (clean
                && have
                && coins_eq (with_version outs (new_coins tx height)) (new_coins tx height))
              (set_coins v s3 hash empty_coins).1
      ]

  -- The round of a transaction that is not the first of the block.
  unfoldable pub disconnect_tx :
      Bool → Cache (v.State) → Transaction → ℕ → ℕ → List TxInUndo → Outcome (v.State)
  disconnect_tx clean s tx height hash undos = elim (remove_outputs clean s tx height hash) [
    | aborted ↦ aborted
    | failed ↦ failed
    | done clean' s' ↦
        if length undos == length tx.vin then restore_inputs clean' s' tx.vin undos else failed
  ]

  module _ (hash_of : Transaction → ℕ) where
    -- The transactions after the first, from the last one on.
    unfoldable pub disconnect_txs :
        Cache (v.State) → ℕ → List Transaction → List (List TxInUndo) → Outcome (v.State)
    disconnect_txs s height [] [] = done true s
    disconnect_txs s height [] (u ∷ us) = failed
    disconnect_txs s height (tx ∷ txs) [] = failed
    disconnect_txs s height (tx ∷ txs) (u ∷ us) = elim (disconnect_txs s height txs us) [
      | aborted ↦ aborted
      | failed ↦ failed
      | done clean s' ↦ disconnect_tx clean s' tx height (hash_of tx) u
    ]

    -- DisconnectBlock of block `block` at `height` behind `prev`, with pfClean given.
    unfoldable pub disconnect_block :
        Cache (v.State)
        → ℕ
        → Option ℕ
        → ℕ
        → List Transaction
        → List (List TxInUndo)
        → Outcome (v.State)
    disconnect_block s block prev height txs undos =
        let (best, s1) = get_best_block v s in
        if not (is_block best block) then aborted else elim txs [
          | [] ↦ failed
          | tx ∷ rest ↦
              if not (length undos == length rest)
              then failed
              else elim (disconnect_txs s1 height rest undos) [
                | aborted ↦ aborted
                | failed ↦ failed
                | done clean s2 ↦ elim (remove_outputs clean s2 tx height (hash_of tx)) [
                  | aborted ↦ aborted
                  | failed ↦ failed
                  | done clean' s3 ↦ done clean' (set_best_block v s3 prev).1
                ]
              ]
        ]
