-- ===== src/Connect/Block.antt =====
-- CBlock::ConnectBlock (src/servilo/main.cpp) behind CheckBlock: what it does with the coin database.
-- The writes to the block index, the undo file and the transaction index are left out: the undo
-- information is given as a result.
use primmonero.Base.{
  ℕ, ◌+◌, Bool, true, false, not, ◌&&◌, ◌||◌, Option, none, some, List, [], ◌∷◌, ltb, leb, ◌==◌,
  if◌then◌else◌,
}
use primmonero.Base.Int.{ℤ, pos, ◌+ℤ◌, ◌-ℤ◌, ltb_ℤ, int64}
use primmonero.Work.{get_block_value}
use primmonero.Script.CryptoOps.{Context}
use primmonero.Coins.{TxInUndo, is_pruned}
use primmonero.Coins.View.{CoinsView, Cache, have_coins, get_best_block, set_best_block}
use primmonero.Transaction.{Transaction, is_coin_base}
use primmonero.Target.{cent}
use primmonero.Transaction.Check.{get_value_out}
use primmonero.Transaction.Fee.{get_legacy_sig_op_count, get_min_fee, gmf_block}
use primmonero.Connect.{get_coins, update_coins}
use primmonero.Connect.CheckInputs.{
  Step, aborted, rejected, passed, have_inputs, get_value_in, get_p2sh_sig_op_count, check_inputs,
}

-- MAX_BLOCK_SIZE / 50.
abbrev pub max_block_sigops : ℕ
max_block_sigops = 20_000

-- MIN_TX_FEE.
abbrev pub min_tx_fee_of_block : ℕ
min_tx_fee_of_block = cent

-- What the loop over the transactions adds up.
pub record Totals : Type 0 where
  pub sig_ops : ℕ
  pub value_in : ℤ
  pub value_out : ℤ
  pub fees : ℤ

abbrev pub no_totals : Totals
no_totals = record { sig_ops = 0; value_in = pos 0; value_out = pos 0; fees = pos 0 }

-- The block: its number in the index, its header's bits and time, its height and its own hash, which
-- is not there while it is being made.
pub record BlockInfo : Type 0 where
  pub index : ℕ
  pub prev : Option ℕ
  pub height : ℕ
  pub bits : ℕ
  pub time : ℕ
  pub hash : Option ℕ

-- The settings and the tables that the code consults: GetHash of a transaction, the heights of the
-- blocks of the index, the base fees, the least chain length of a target, the checkpoints' estimate,
-- what a script's evaluation is given, and the hash of the genesis block.
pub record Settings : Type 0 where
  pub hash_of : Transaction → ℕ
  pub height_of : ℕ → ℕ
  pub min_tx_fee : ℕ
  pub min_relay_tx_fee : ℕ
  pub min_length : ℕ
  pub total_blocks_estimate : ℕ
  pub context : Bool → Transaction → ℕ → Context

-- nBIP16SwitchTime.
abbrev pub is_p2sh_time : ℕ → Bool
is_p2sh_time time = leb 1_333_238_400 time

abbrev is_hash : Option ℕ → ℕ → Bool
is_hash none h = false
is_hash (some a) h = a == h

abbrev is_none : Option ℕ → Bool
is_none none = true
is_none (some a) = false

-- fEnforceBIP30: not at two blocks of another chain.
unfoldable pub enforces_bip30 : BlockInfo → Bool
enforces_bip30 b =
    is_none b.hash
    || not (
        (b.height == 91842
          && is_hash b.hash 0x00000000000a4d0a398161ffc163c503763b1f4360639393e0e4c8e300e0caec)
        || (b.height == 91880
            && is_hash b.hash 0x00000000000743f190a18c5577a3c2d2a1f610ae9601ac046a38084ccb7cd721))

abbrev pub same_block : Option ℕ → Option ℕ → Bool
same_block none none = true
same_block none (some b) = false
same_block (some a) none = false
same_block (some a) (some b) = a == b

module _ (v : CoinsView) (settings : Settings) where
  -- No transaction of the block takes the hash of another that has unspent outputs.
  unfoldable pub check_overwrite : Cache (v.State) → List Transaction → Step (Cache (v.State))
  check_overwrite s [] = passed s
  check_overwrite s (tx ∷ txs) =
      let (have, s1) = have_coins v s (settings.hash_of tx) in
      elim have [
        | false ↦ check_overwrite s1 txs
        | true ↦ elim (get_coins v s1 (settings.hash_of tx)) [
          | none ↦ aborted
          | some (c, s2) ↦ elim (is_pruned c) [
            | true ↦ check_overwrite s2 txs
            | false ↦ rejected 100
          ]
        ]
      ]

  -- The signature operations of a transaction's inputs that pay to script hashes, if they count.
  unfoldable pub count_p2sh : Bool → Cache (v.State) → ℕ → Transaction → Step (ℕ × Cache (v.State))
  count_p2sh p2sh s sig_ops tx = elim p2sh [
    | false ↦ passed (sig_ops, s)
    | true ↦ elim (get_p2sh_sig_op_count v s tx) [
      | aborted ↦ aborted
      | rejected score ↦ rejected score
      | passed (count, s') ↦
          if ltb max_block_sigops (sig_ops + count)
          then rejected 100
          else passed (sig_ops + count, s')
    ]
  ]

  -- The amounts of a transaction that is not a coinbase, and CheckInputs.
  unfoldable pub check_spending :
      Bool → Bool → Cache (v.State) → Totals → Transaction → Step (Totals × Cache (v.State))
  check_spending p2sh script_checks s totals tx = elim (get_value_in v s tx) [
    | aborted ↦ aborted
    | rejected score ↦ rejected score
    | passed (value_in, s1) ↦ elim (get_value_out tx) [
      | none ↦ aborted
      | some value_out ↦
          elim (check_inputs v settings.context p2sh false settings.height_of settings.min_tx_fee
            settings.min_relay_tx_fee script_checks s1 tx) [
              | aborted ↦ aborted
              | rejected score ↦ rejected score
              | passed s2 ↦ passed (
                record totals {
                  value_in = int64 (totals.value_in +ℤ value_in);
                  value_out = int64 (totals.value_out +ℤ value_out);
                  fees = int64 (totals.fees +ℤ (value_in -ℤ value_out));
                },
                s2,
              )
            ]
    ]
  ]

  -- One round of the loop up to UpdateCoins.
  unfoldable pub check_tx :
      Bool → Bool → Cache (v.State) → Totals → Transaction → Step (Totals × Cache (v.State))
  check_tx p2sh script_checks s totals tx =
      let sig_ops = totals.sig_ops + get_legacy_sig_op_count tx in
      if ltb max_block_sigops sig_ops
      then rejected 100
      else if is_coin_base tx
      then (elim (get_value_out tx) [
        | none ↦ aborted
        | some value_out ↦ passed (
          record totals { sig_ops = sig_ops; value_out = int64 (totals.value_out +ℤ value_out) },
          s,
        )
      ])
      else elim (have_inputs v s tx) [
        | aborted ↦ aborted
        | rejected score ↦ rejected score
        | passed (have, s1) ↦ elim have [
          | false ↦ rejected 100
          | true ↦ elim (count_p2sh p2sh s1 sig_ops tx) [
            | aborted ↦ aborted
            | rejected score ↦ rejected score
            | passed (count, s2) ↦
                check_spending p2sh script_checks s2 (record totals { sig_ops = count }) tx
          ]
        ]
      ]

  -- The loop: the totals, the undo information of all but coinbases, and the view.
  unfoldable pub connect_txs :
      Bool
      → Bool
      → ℕ
      → Cache (v.State)
      → Totals
      → List Transaction
      → Step (Totals × List (List TxInUndo) × Cache (v.State))
  connect_txs p2sh script_checks height s totals [] = passed (totals, [], s)
  connect_txs p2sh script_checks height s totals (tx ∷ txs) =
      elim (check_tx p2sh script_checks s totals tx) [
        | aborted ↦ aborted
        | rejected score ↦ rejected score
        | passed (totals', s1) ↦ elim (update_coins v s1 tx height (settings.hash_of tx)) [
          | none ↦ aborted
          | some (undo, s2) ↦ elim (connect_txs p2sh script_checks height s2 totals' txs) [
            | aborted ↦ aborted
            | rejected score ↦ rejected score
            | passed (totals'', undos, s3) ↦
                passed (totals'', if is_coin_base tx then undos else undo ∷ undos, s3)
          ]
        ]
      ]

  -- The coinbase takes no more than the block's value.
  unfoldable pub check_reward : BlockInfo → ℤ → List Transaction → Step Bool
  check_reward b fees [] = aborted
  check_reward b fees (tx ∷ txs) = elim (get_value_out tx) [
    | none ↦ aborted
    | some value_out ↦ elim (get_block_value settings.min_length b.bits fees) [
      | none ↦ aborted
      | some value ↦
          if ltb_ℤ
            (int64 (
              value
              -ℤ pos
                  (get_min_fee settings.min_tx_fee settings.min_relay_tx_fee tx 1 false gmf_block)
              +ℤ pos min_tx_fee_of_block))
            value_out
          then rejected 100
          else passed true
    ]
  ]

  abbrev pub overwrite_checked :
      BlockInfo → Cache (v.State) → List Transaction → Step (Cache (v.State))
  overwrite_checked b s txs = elim (enforces_bip30 b) [
    | true ↦ check_overwrite s txs
    | false ↦ passed s
  ]

  -- ConnectBlock of a block that is not the genesis block, behind CheckBlock; with `just_check`, the
  -- best block stays.
  unfoldable pub connect_block :
      Bool
      → Cache (v.State)
      → BlockInfo
      → List Transaction
      → Step (List (List TxInUndo) × Cache (v.State))
  connect_block just_check s b txs =
      let (best, s1) = get_best_block v s in
      elim (same_block best b.prev) [
        | false ↦ aborted
        | true ↦ elim (overwrite_checked b s1 txs) [
          | aborted ↦ aborted
          | rejected score ↦ rejected score
          | passed s2 ↦
              elim (connect_txs (is_p2sh_time b.time) (leb settings.total_blocks_estimate b.height)
                b.height s2 no_totals txs) [
                  | aborted ↦ aborted
                  | rejected score ↦ rejected score
                  | passed (totals, undos, s3) ↦ elim (check_reward b totals.fees txs) [
                    | aborted ↦ aborted
                    | rejected score ↦ rejected score
                    | passed _ ↦ elim just_check [
                      | true ↦ passed (undos, s3)
                      | false ↦ passed (undos, (set_best_block v s3 (some b.index)).1)
                    ]
                  ]
                ]
        ]
      ]
