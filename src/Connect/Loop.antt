-- ===== src/Connect/Loop.antt =====
-- The loop of ConnectBlock (src/servilo/main.cpp) against that of DisconnectBlock.
use primmonero.Base.{
  ℕ, suc, ◌≡◌, ◌≢◌, refl, ap, ◌∙◌, Bool, true, false, some, List, [], ◌∷◌, All, All-both, length,
  ◌==◌, if◌then◌else◌, Option-cases, inl, inr,
}
use mathlib.Core.Path.{subst}
use primmonero.Coins.{TxInUndo}
use primmonero.Coins.View.{CoinsView, Cache}
use primmonero.Coins.View.Refinement.{Abstraction, IsSource}
use primmonero.Transaction.{Transaction, is_coin_base}
use primmonero.Connect.{update_coins}
use primmonero.Connect.Disconnect.{disconnect_tx, disconnect_txs}
use primmonero.Connect.Views.{Entries, is_gone, AreSound, Represents}
use primmonero.Connect.Inputs.{IsSmall, IsUndone}
use primmonero.Connect.Outputs.{AreOutputs, IsTaken, update_coins_step}
use primmonero.Connect.CheckInputs.{passed, Step-cases}
use primmonero.Connect.Block.{Totals, Settings, check_tx, connect_txs}
use primmonero.Connect.Kept.{check_tx_step}

-- A transaction that is not a coinbase, as CheckBlock leaves it.
abbrev pub IsSpending : Transaction → Type 0
IsSpending tx = (is_coin_base tx ≡ false) × All IsSmall tx.vin × AreOutputs tx.vout

-- No two transactions have the same hash.
unfoldable pub HaveOwnHashes : (Transaction → ℕ) → List Transaction → Type 0
HaveOwnHashes hash_of [] = Unit {0}
HaveOwnHashes hash_of (tx ∷ txs) =
    All (λ other. (hash_of other == hash_of tx) ≡ false) txs × HaveOwnHashes hash_of txs

-- A block's transactions: a coinbase and others that are none.
unfoldable pub AreBlock : (Transaction → ℕ) → List Transaction → Type 0
AreBlock hash_of [] = ⊥
AreBlock hash_of (tx ∷ txs) =
    (is_coin_base tx ≡ true)
    × AreOutputs tx.vout
    × All IsSpending txs
    × HaveOwnHashes hash_of (tx ∷ txs)

module _ (v : CoinsView) (a : Abstraction v) (laws : IsSource v a) (settings : Settings) where
  unfoldable pub AreGone : Entries → List Transaction → Type 0
  AreGone f txs = All (λ tx. is_gone (f (settings.hash_of tx)) ≡ true) txs

  pub still_gone :
      (f f' : Entries) (hash : ℕ) (txs : List Transaction)
      → ((j : ℕ) → (j == hash) ≡ false → is_gone (f j) ≡ true → f' j ≡ f j)
      → All (λ other. (settings.hash_of other == hash) ≡ false) txs
      → AreGone f txs
      → AreGone f' txs
  unfolding AreGone
  still_gone f f' hash txs kept others gone =
      All-both (λ tx other was. ap is_gone (kept (settings.hash_of tx) other was) ∙ was) txs others
        gone

  -- Entries after which the transactions can be undone.
  unfoldable pub AreConnected :
      Entries → ℕ → ℕ → List Transaction → List (List TxInUndo) → Cache (v.State) → Type 0
  AreConnected f block height txs undos s' =
      (f' : Entries) × Represents v a laws f' (some block) s'
      × (length undos ≡ length txs)
      × IsUndone v a laws f f' (λ t. disconnect_txs v settings.hash_of t height txs undos)

  IsConnected : Entries → ℕ → ℕ → Transaction → List TxInUndo → Cache (v.State) → Type 0
  IsConnected f block height tx undo s' =
      (f' : Entries) × Represents v a laws f' (some block) s'
      × IsTaken v a laws f f' (settings.hash_of tx)
      × IsUndone v a laws f f' (λ t. disconnect_tx v true t tx height (settings.hash_of tx) undo)

  none_connected :
      (f : Entries) (block height : ℕ) (s : Cache (v.State))
      → Represents v a laws f (some block) s
      → AreConnected f block height [] [] s
  unfolding disconnect_txs AreConnected
  none_connected f block height s shows =
      (f, shows, refl, λ g b t shows_g alike. (t, g, refl, shows_g, alike))

  all_connected :
      (f f1 : Entries) (block height : ℕ) (tx : Transaction) (undo : List TxInUndo)
      (txs : List Transaction) (undos : List (List TxInUndo)) (s' : Cache (v.State))
      → IsUndone v a laws f f1 (λ t. disconnect_tx v true t tx height (settings.hash_of tx) undo)
      → AreConnected f1 block height txs undos s'
      → AreConnected f block height (tx ∷ txs) (undo ∷ undos) s'
  unfolding disconnect_txs AreConnected
  all_connected f f1 block height tx undo txs undos s' undone1 (f2, shows, size, undone2) = (
    f2,
    shows,
    ap suc size,
    λ g b t shows_g alike.
        let (t1, g1, run1, shows_g1, alike1) = undone2 g b t shows_g alike in
        let (t2, g2, run2, shows_g2, alike2) = undone1 g1 b t1 shows_g1 alike1 in
        (t2, g2, rw (disconnect_txs, run1) run2, shows_g2, alike2),
  )

  tx-IsConnected :
      (p2sh script_checks : Bool) (height : ℕ) (f : Entries) (block : ℕ) (s : Cache (v.State))
      (totals : Totals) (tx : Transaction) (totals' : Totals) (s1 : Cache (v.State))
      (undo : List TxInUndo) (s2 : Cache (v.State))
      → Represents v a laws f (some block) s
      → AreSound f
      → height ≢ 0
      → IsSpending tx
      → is_gone (f (settings.hash_of tx)) ≡ true
      → check_tx v settings p2sh script_checks s totals tx ≡ passed (totals', s1)
      → update_coins v s1 tx height (settings.hash_of tx) ≡ some (undo, s2)
      → IsConnected f block height tx undo s2
  unfolding IsConnected
  tx-IsConnected p2sh script_checks height f block s totals tx totals' s1 undo s2 shows sound high
        (other, small, outs) gone fine updated_all =
      update_coins_step v a laws f (some block) s1 tx height (settings.hash_of tx) undo s2
        (check_tx_step v a laws settings p2sh script_checks f block s totals tx totals' s1 shows
          fine)
        sound other small outs high gone updated_all

  rest_connected :
      (f : Entries) (block height : ℕ) (tx : Transaction) (undo : List TxInUndo)
      (s2 : Cache (v.State)) (txs : List Transaction) (undos : List (List TxInUndo))
      (s3 : Cache (v.State))
      → IsConnected f block height tx undo s2
      → ((f1 : Entries)
          → Represents v a laws f1 (some block) s2
          → IsTaken v a laws f f1 (settings.hash_of tx)
          → AreConnected f1 block height txs undos s3)
      → AreConnected f block height (tx ∷ txs) (undo ∷ undos) s3
  unfolding IsConnected
  rest_connected f block height tx undo s2 txs undos s3 (f1, shows1, taken, undone1) rest_of =
      all_connected f f1 block height tx undo txs undos s3 undone1 (rest_of f1 shows1 taken)

  -- The loop's parts, when it passes.
  pub connect_txs_parts :
      (p2sh script_checks : Bool) (height : ℕ) (s : Cache (v.State)) (totals : Totals)
      (tx : Transaction) (txs : List Transaction) (totals' : Totals) (undos : List (List TxInUndo))
      (s' : Cache (v.State))
      → connect_txs v settings p2sh script_checks height s totals (tx ∷ txs)
        ≡ passed (totals', undos, s')
      → (totals1 : Totals) × (s1 : Cache (v.State)) × (undo : List TxInUndo) × (s2 : Cache
          (v.State))
        × (undos' : List (List TxInUndo)) × (check_tx v settings p2sh script_checks s totals tx
            ≡ passed (totals1, s1))
        × (update_coins v s1 tx height (settings.hash_of tx) ≡ some (undo, s2))
        × (connect_txs v settings p2sh script_checks height s2 totals1 txs
            ≡ passed (totals', undos', s'))
        × ((if is_coin_base tx then undos' else undo ∷ undos') ≡ undos)
  unfolding connect_txs
  connect_txs_parts p2sh script_checks height s totals tx txs totals' undos s' e =
      elim (Step-cases (check_tx v settings p2sh script_checks s totals tx)) [
        | inr (inl fails) ↦ cc (rw (connect_txs, fails) at e)
        | inr (inr (score, fails)) ↦ cc (rw (connect_txs, fails) at e)
        | inl ((totals1, s1), fine) ↦
            elim (Option-cases (update_coins v s1 tx height (settings.hash_of tx))) [
              | inl fails ↦ cc (rw (connect_txs, fine, fails) at e)
              | inr ((undo, s2), updated_all) ↦
                  elim (Step-cases
                    (connect_txs v settings p2sh script_checks height s2 totals1 txs)) [
                      | inr (inl fails) ↦ cc (rw (connect_txs, fine, updated_all, fails) at e)
                      | inr (inr (score, fails)) ↦
                          cc (rw (connect_txs, fine, updated_all, fails) at e)
                      | inl ((totals2, undos', s3), rest) ↦
                          let q = rw (connect_txs, fine, updated_all, rest) at e in
                          let all_totals : totals2 ≡ totals' = cc in
                          let same : s3 ≡ s' = cc in
                          (
                            totals1,
                            s1,
                            undo,
                            s2,
                            undos',
                            fine,
                            updated_all,
                            rest ∙ (λ i. passed (all_totals i, undos', same i)),
                            cc,
                          )
                    ]
            ]
      ]

  pub connect_txs_step :
      (p2sh script_checks : Bool) (height : ℕ) (f : Entries) (block : ℕ) (s : Cache (v.State))
      (totals : Totals) (txs : List Transaction) (totals' : Totals) (undos : List (List TxInUndo))
      (s' : Cache (v.State))
      → Represents v a laws f (some block) s
      → AreSound f
      → height ≢ 0
      → All IsSpending txs
      → HaveOwnHashes settings.hash_of txs
      → AreGone f txs
      → connect_txs v settings p2sh script_checks height s totals txs ≡ passed (totals', undos, s')
      → AreConnected f block height txs undos s'
  unfolding connect_txs HaveOwnHashes AreGone
  connect_txs_step p2sh script_checks height f block s totals [] totals' undos s' shows sound high
        spending own gone e =
      let same : s ≡ s' = cc in
      let no_undo : [] ≡ undos = cc in
      subst (AreConnected f block height [] undos) same (
        subst (λ us. AreConnected f block height [] us s) no_undo
          (none_connected f block height s shows))
  connect_txs_step p2sh script_checks height f block s totals (tx ∷ txs) totals' undos s' shows
        sound high spending own gone e =
      let (totals1, s1, undo, s2, undos', fine, updated_all, rest, us) =
        connect_txs_parts p2sh script_checks height s totals tx txs totals' undos s' e in
      subst (λ us. AreConnected f block height (tx ∷ txs) us s') (rw (spending.0.0) at us)
        (rest_connected f block height tx undo s2 txs undos' s'
          (tx-IsConnected p2sh script_checks height f block s totals tx totals1 s1 undo s2 shows
            sound high spending.0 gone.0 fine updated_all)
          (λ f1 shows1 taken.
            connect_txs_step p2sh script_checks height f1 block s2 totals1 txs totals' undos' s'
              shows1 taken.0 high spending.1 own.1
              (still_gone f f1 (settings.hash_of tx) txs taken.1 own.0 gone.1) rest))
