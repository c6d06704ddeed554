-- ===== src/Connect/Undone.antt =====
-- A block that was connected is disconnected cleanly, back to the entries before it.
use primmonero.Base.{
  ℕ, ◌≡◌, ◌≢◌, refl, sym, ap, ◌∙◌, Bool, true, false, Option, none, some, List, [], ◌∷◌, length,
  leb, ◌==◌, ==_iff, Bool-cases, inl, inr,
}
use mathlib.Core.Path.{subst}
use primmonero.Coins.{TxInUndo}
use primmonero.Coins.Store.{==_refl}
use primmonero.Coins.View.{CoinsView, Cache, get_best_block, set_best_block}
use primmonero.Coins.View.Refinement.{Abstraction, IsSource}
use primmonero.Transaction.{Transaction}
use primmonero.Connect.Disconnect.{done, disconnect_txs, remove_outputs, disconnect_block}
use primmonero.Connect.Views.{
  Entries, Alike, AreSound, Represents, get_best_block_step, set_best_block_step,
}
use primmonero.Connect.Inputs.{IsUndone}
use primmonero.Connect.Outputs.{update_coin_base_step}
use primmonero.Connect.CheckInputs.{passed, Step-cases}
use primmonero.Connect.Block.{
  Totals, no_totals, BlockInfo, Settings, is_p2sh_time, enforces_bip30, check_overwrite,
  connect_txs, check_reward, same_block, connect_block,
}
use primmonero.Connect.Kept.{check_overwrite_step, check_tx_step}
use primmonero.Connect.Loop.{
  AreBlock, HaveOwnHashes, AreGone, still_gone, AreConnected, connect_txs_parts, connect_txs_step,
}

module _ (v : CoinsView) (a : Abstraction v) (laws : IsSource v a) (settings : Settings) where
  same_block_lem : (x y : Option ℕ) → same_block x y ≡ true → y ≡ x
  same_block_lem none none e = refl
  same_block_lem none (some b) e = cc
  same_block_lem (some x) none e = cc
  same_block_lem (some x) (some y) e = ap some (sym ((==_iff x y).0 e))

  connect_block_parts :
      (s : Cache (v.State)) (b : BlockInfo) (txs : List Transaction) (undos : List (List TxInUndo))
      (s' : Cache (v.State))
      → enforces_bip30 b ≡ true
      → connect_block v settings false s b txs ≡ passed (undos, s')
      → (s2 : Cache (v.State)) × (totals : Totals) × (s3 : Cache (v.State)) × (b.prev
          ≡ (get_best_block v s).0)
        × (check_overwrite v settings (get_best_block v s).1 txs ≡ passed s2)
        × (connect_txs v settings
              (is_p2sh_time b.time)
              (leb settings.total_blocks_estimate b.height)
              b.height
              s2
              no_totals
              txs
            ≡ passed (totals, undos, s3))
        × ((set_best_block v s3 (some b.index)).1 ≡ s')
  unfolding connect_block
  connect_block_parts s b txs undos s' bip30 e =
      elim (Bool-cases (same_block (get_best_block v s).0 b.prev)) [
        | inr differs ↦ cc (rw (connect_block, differs) at e)
        | inl same ↦ elim (Step-cases (check_overwrite v settings (get_best_block v s).1 txs)) [
          | inr (inl fails) ↦ cc (rw (connect_block, same, bip30, fails) at e)
          | inr (inr (score, fails)) ↦ cc (rw (connect_block, same, bip30, fails) at e)
          | inl (s2, free) ↦
              elim (Step-cases (
                connect_txs v settings (is_p2sh_time b.time)
                  (leb settings.total_blocks_estimate b.height) b.height s2 no_totals txs)) [
                    | inr (inl fails) ↦ cc (rw (connect_block, same, bip30, free, fails) at e)
                    | inr (inr (score, fails)) ↦
                        cc (rw (connect_block, same, bip30, free, fails) at e)
                    | inl ((totals, undos', s3), connected) ↦
                        elim (Step-cases (check_reward v settings b totals.fees txs)) [
                          | inr (inl fails) ↦
                              cc (rw (connect_block, same, bip30, free, connected, fails) at e)
                          | inr (inr (score, fails)) ↦
                              cc (rw (connect_block, same, bip30, free, connected, fails) at e)
                          | inl (ok, paid) ↦
                              let q = rw (connect_block, same, bip30, free, connected, paid) at e in
                              let us : undos' ≡ undos = cc in
                              let last : (set_best_block v s3 (some b.index)).1 ≡ s' = cc in
                              (
                                s2,
                                totals,
                                s3,
                                same_block_lem (get_best_block v s).0 b.prev same,
                                free,
                                connected ∙ (λ i. passed (totals, us i, s3)),
                                last,
                              )
                        ]
                  ]
        ]
      ]

  -- What disconnecting the block leads to, from a cache that shows it.
  pub IsBlockUndone :
      Entries → ℕ → BlockInfo → List Transaction → List (List TxInUndo) → Entries → Type 0
  IsBlockUndone f prev b txs undos f' =
      (g : Entries) (t : Cache (v.State))
      → Represents v a laws g (some b.index) t
      → Alike g f'
      → (t' : Cache (v.State)) × (g' : Entries) × (disconnect_block v settings.hash_of t b.index
            (some prev) b.height txs undos
          ≡ done true t')
        × Represents v a laws g' (some prev) t'
        × Alike g' f

  block_undone :
      (f f1 f2 : Entries) (prev : ℕ) (b : BlockInfo) (tx : Transaction) (txs : List Transaction)
      (undos : List (List TxInUndo))
      → length undos ≡ length txs
      → IsUndone v a laws f f1 (λ t. remove_outputs v true t tx b.height (settings.hash_of tx))
      → IsUndone v a laws f1 f2 (λ t. disconnect_txs v settings.hash_of t b.height txs undos)
      → IsBlockUndone f prev b (tx ∷ txs) undos f2
  unfolding IsBlockUndone disconnect_block
  block_undone f f1 f2 prev b tx txs undos size undone1 undone2 g t shows alike =
      let (best, shows0) = get_best_block_step v a laws g (some b.index) t shows in
      let t0 = (get_best_block v t).1 in
      let (t1, g1, run1, shows1, alike1) = undone2 g (some b.index) t0 shows0 alike in
      let (t2, g2, run2, shows2, alike2) = undone1 g1 (some b.index) t1 shows1 alike1 in
      let sizes : (length undos == length txs) ≡ true =
        (==_iff (length undos) (length txs)).1 size in
      (
        (set_best_block v t2 (some prev)).1,
        g2,
        rw (disconnect_block, best, ==_refl b.index, sizes, run1, run2) refl,
        set_best_block_step v a laws g2 (some b.index) t2 prev shows2,
        alike2,
      )

  block_connected :
      (f : Entries) (prev : ℕ) (b : BlockInfo) (s : Cache (v.State)) (p2sh script_checks : Bool)
      (tx : Transaction) (txs : List Transaction) (totals : Totals) (undos : List (List TxInUndo))
      (s3 : Cache (v.State))
      → Represents v a laws f (some prev) s
      → AreSound f
      → b.height ≢ 0
      → AreBlock settings.hash_of (tx ∷ txs)
      → AreGone v a laws settings f (tx ∷ txs)
      → connect_txs v settings p2sh script_checks b.height s no_totals (tx ∷ txs)
        ≡ passed (totals, undos, s3)
      → (f' : Entries) × Represents v a laws f' (some prev) s3
        × IsBlockUndone f prev b (tx ∷ txs) undos f'
  unfolding AreBlock HaveOwnHashes AreGone AreConnected
  block_connected f prev b s p2sh script_checks tx txs totals undos s3 shows sound high
        (base, outs, spending, own) gone e =
      let (totals1, s1, undo, s2, undos', fine, updated_all, rest, us) =
        connect_txs_parts v a laws settings p2sh script_checks b.height s no_totals tx txs totals
          undos s3 e in
      let shows1 =
        check_tx_step v a laws settings p2sh script_checks f prev s no_totals tx totals1 s1 shows
          fine in
      let (f1, shows2, taken, undone1) =
        update_coin_base_step v a laws f (some prev) s1 tx b.height (settings.hash_of tx) undo s2
          shows1 sound base outs high gone.0 updated_all in
      let (f2, shows3, size, undone2) =
        connect_txs_step v a laws settings p2sh script_checks b.height f1 prev s2 totals1 txs totals
          undos' s3 shows2 taken.0 high spending own.1
          (still_gone v a laws settings f f1 (settings.hash_of tx) txs taken.1 own.0 gone.1) rest in
      (
        f2,
        shows3,
        subst (λ us. IsBlockUndone f prev b (tx ∷ txs) us f2) (rw base at us)
            (block_undone f f1 f2 prev b tx txs undos' size undone1 undone2),
      )

  -- When ConnectBlock, with BIP30 enforced, passes a block of a coinbase and other transactions whose
  -- hashes differ, whose outputs are there and not null and whose inputs' positions are below
  -- 2 ^ 32 - 1, above height 0, on a cache over a view whose reads keep their promise and whose
  -- entries are sound, then the cache shows the block as its best, and DisconnectBlock with the undo
  -- information that was kept, from the cache or any other that shows entries alike, ends cleanly
  -- with the block before as the best and with the entries as they were, but for those with no output
  -- left.
  pub connect_block-disconnect_block :
      (f : Entries) (prev : ℕ) (b : BlockInfo) (txs : List Transaction) (s : Cache (v.State))
      (undos : List (List TxInUndo)) (s' : Cache (v.State))
      → Represents v a laws f (some prev) s
      → AreSound f
      → b.height ≢ 0
      → enforces_bip30 b ≡ true
      → AreBlock settings.hash_of txs
      → connect_block v settings false s b txs ≡ passed (undos, s')
      → (b.prev ≡ some prev)
        × (f' : Entries) × Represents v a laws f' (some b.index) s'
        × IsBlockUndone f prev b txs undos f'
  unfolding AreBlock AreGone
  connect_block-disconnect_block f prev b [] s undos s' shows sound high bip30 block e =
      absurd block
  connect_block-disconnect_block f prev b (tx ∷ txs) s undos s' shows sound high bip30 block e =
      let (s2, totals, s3, same, free, connected, last) =
        connect_block_parts s b (tx ∷ txs) undos s' bip30 e in
      let (best, shows1) = get_best_block_step v a laws f (some prev) s shows in
      let (shows2, gone) =
        check_overwrite_step v a laws settings f (some prev) (get_best_block v s).1 (tx ∷ txs) s2
          shows1 free in
      let (f', shows3, undone) =
        block_connected f prev b s2 (is_p2sh_time b.time)
          (leb settings.total_blocks_estimate b.height) tx txs totals undos s3 shows2 sound high
          block gone connected in
      (
        same ∙ best,
        f',
        subst (Represents v a laws f' (some b.index)) last
            (set_best_block_step v a laws f' (some prev) s3 b.index shows3),
        undone,
      )
