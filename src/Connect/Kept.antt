-- ===== src/Connect/Kept.antt =====
-- The checks of ConnectBlock leave the entries that the cache shows as they are.
use primmonero.Base.{
  ℕ, ◌+◌, ◌≡◌, refl, sym, ap, ◌∙◌, Bool, true, false, Option, none, some, List, [], ◌∷◌, All, ltb,
  Bool-cases, Option-cases, inl, inr,
}
use mathlib.Core.Path.{subst}
use primmonero.Base.Int.{ℤ, pos, ◌+ℤ◌, int64}
use primmonero.Coins.{TxOut, Coins, is_available, is_pruned}
use primmonero.Coins.View.{CoinsView, Cache, is_some, have_coins}
use primmonero.Coins.View.Refinement.{Abstraction, IsSource}
use primmonero.Transaction.{TxIn, Transaction, is_coin_base}
use primmonero.Transaction.Check.{get_value_out}
use primmonero.Transaction.Fee.{get_legacy_sig_op_count}
use primmonero.Connect.{get_coins}
use primmonero.Connect.Views.{Entries, is_gone, Represents, have_coins_step}
use primmonero.Connect.Inputs.{get_coins_step}
use primmonero.Connect.CheckInputs.{
  passed, Step-cases, get_output_for, sum_inputs, get_value_in, sum_p2sh, get_p2sh_sig_op_count,
  have_inputs, check_inputs,
}
use primmonero.Connect.Values.{have_inputs_step}
use primmonero.Connect.Spendable.{check_inputs-IsSpendable}
use primmonero.Connect.Block.{
  Totals, Settings, max_block_sigops, check_overwrite, count_p2sh, check_spending, check_tx,
}

module _ (v : CoinsView) (a : Abstraction v) (laws : IsSource v a) where
  get_output_for_step :
      (f : Entries) (b : Option ℕ) (s : Cache (v.State)) (i : TxIn) (o : TxOut)
      (s' : Cache (v.State))
      → Represents v a laws f b s
      → get_output_for v s i ≡ passed (o, s')
      → Represents v a laws f b s'
  unfolding get_output_for
  get_output_for_step f b s i o s' shows e = elim (Option-cases (get_coins v s i.prevout.hash)) [
    | inl missing ↦ cc (rw (get_output_for, missing) at e)
    | inr ((c, s1), found) ↦
        let shows1 = (get_coins_step v a laws f b s i.prevout.hash c s1 shows found).1 in
        elim (Bool-cases (is_available c i.prevout.n)) [
          | inr gone ↦ cc (rw (get_output_for, found, gone) at e)
          | inl there ↦
              let q = rw (get_output_for, found, there) at e in
              let same : s1 ≡ s' = cc in subst (Represents v a laws f b) same shows1
        ]
  ]

  sum_inputs_step :
      (f : Entries) (b : Option ℕ) (s : Cache (v.State)) (total : ℤ) (is : List TxIn) (value : ℤ)
      (s' : Cache (v.State))
      → Represents v a laws f b s
      → sum_inputs v s total is ≡ passed (value, s')
      → Represents v a laws f b s'
  unfolding sum_inputs
  sum_inputs_step f b s total [] value s' shows e =
      let same : s ≡ s' = cc in subst (Represents v a laws f b) same shows
  sum_inputs_step f b s total (i ∷ is) value s' shows e = elim (Step-cases (get_output_for v s i)) [
    | inr (inl fails) ↦ cc (rw (sum_inputs, fails) at e)
    | inr (inr (score, fails)) ↦ cc (rw (sum_inputs, fails) at e)
    | inl ((o, s1), found) ↦
        sum_inputs_step f b s1 (int64 (total +ℤ o.value)) is value s'
          (get_output_for_step f b s i o s1 shows found) (rw (sum_inputs, found) at e)
  ]

  get_value_in_step :
      (f : Entries) (b : Option ℕ) (s : Cache (v.State)) (tx : Transaction) (value : ℤ)
      (s' : Cache (v.State))
      → is_coin_base tx ≡ false
      → Represents v a laws f b s
      → get_value_in v s tx ≡ passed (value, s')
      → Represents v a laws f b s'
  unfolding get_value_in
  get_value_in_step f b s tx value s' base shows e =
      sum_inputs_step f b s (pos 0) tx.vin value s' shows (rw (get_value_in, base) at e)

  sum_p2sh_step :
      (f : Entries) (b : Option ℕ) (s : Cache (v.State)) (count : ℕ) (is : List TxIn) (total : ℕ)
      (s' : Cache (v.State))
      → Represents v a laws f b s
      → sum_p2sh v s count is ≡ passed (total, s')
      → Represents v a laws f b s'
  unfolding sum_p2sh
  sum_p2sh_step f b s count [] total s' shows e =
      let same : s ≡ s' = cc in subst (Represents v a laws f b) same shows
  sum_p2sh_step f b s count (i ∷ is) total s' shows e = elim (Step-cases (get_output_for v s i)) [
    | inr (inl fails) ↦ cc (rw (sum_p2sh, fails) at e)
    | inr (inr (score, fails)) ↦ cc (rw (sum_p2sh, fails) at e)
    | inl ((o, s1), found) ↦
        sum_p2sh_step f b s1 _ is total s' (get_output_for_step f b s i o s1 shows found)
          (rw (sum_p2sh, found) at e)
  ]

  -- No hash of the block's transactions has unspent outputs.
  pub check_overwrite_step :
      (settings : Settings) (f : Entries) (b : Option ℕ) (s : Cache (v.State))
      (txs : List Transaction) (s' : Cache (v.State))
      → Represents v a laws f b s
      → check_overwrite v settings s txs ≡ passed s'
      → Represents v a laws f b s' × All (λ tx. is_gone (f (settings.hash_of tx)) ≡ true) txs
  unfolding check_overwrite
  check_overwrite_step settings f b s [] s' shows e =
      let same : s ≡ s' = cc in (subst (Represents v a laws f b) same shows, tt)
  check_overwrite_step settings f b s (tx ∷ txs) s' shows e =
      let (have, shows1) = have_coins_step v a laws f b s (settings.hash_of tx) shows in
      let s1 = (have_coins v s (settings.hash_of tx)).1 in
      elim (Bool-cases ((have_coins v s (settings.hash_of tx)).0)) [
        | inr missing ↦
            let (shows', rest) =
              check_overwrite_step settings f b s1 txs s' shows1
                (rw (check_overwrite, missing) at e) in
            (shows', (none_there (f (settings.hash_of tx)) (sym have ∙ missing), rest))
        | inl there ↦ elim (Option-cases (get_coins v s1 (settings.hash_of tx))) [
          | inl fails ↦ cc (rw (check_overwrite, there, fails) at e)
          | inr ((c, s2), found) ↦
              let (entry, shows2) =
                get_coins_step v a laws f b s1 (settings.hash_of tx) c s2 shows1 found in
              elim (Bool-cases (is_pruned c)) [
                | inr left ↦ cc (rw (check_overwrite, there, found, left) at e)
                | inl pruned ↦
                    let (shows', rest) =
                      check_overwrite_step settings f b s2 txs s' shows2
                        (rw (check_overwrite, there, found, pruned) at e) in
                    (shows', (ap is_gone entry ∙ pruned, rest))
              ]
        ]
      ]
    where
      none_there : (o : Option Coins) → is_some o ≡ false → is_gone o ≡ true
      none_there none q = refl
      none_there (some c) q = cc

  count_p2sh_step :
      (settings : Settings) (p2sh : Bool) (f : Entries) (b : Option ℕ) (s : Cache (v.State))
      (sig_ops : ℕ) (tx : Transaction) (count : ℕ) (s' : Cache (v.State))
      → is_coin_base tx ≡ false
      → Represents v a laws f b s
      → count_p2sh v settings p2sh s sig_ops tx ≡ passed (count, s')
      → Represents v a laws f b s'
  unfolding count_p2sh get_p2sh_sig_op_count
  count_p2sh_step settings false f b s sig_ops tx count s' base shows e =
      let same : s ≡ s' = cc in subst (Represents v a laws f b) same shows
  count_p2sh_step settings true f b s sig_ops tx count s' base shows e =
      elim (Step-cases (sum_p2sh v s 0 tx.vin)) [
        | inr (inl fails) ↦ cc (rw (count_p2sh, get_p2sh_sig_op_count, base, fails) at e)
        | inr (inr (score, fails)) ↦ cc (rw (count_p2sh, get_p2sh_sig_op_count, base, fails) at e)
        | inl ((n, s1), summed) ↦
            let shows1 = sum_p2sh_step f b s 0 tx.vin n s1 shows summed in
            elim (Bool-cases (ltb max_block_sigops (sig_ops + n))) [
              | inl over ↦ cc (rw (count_p2sh, get_p2sh_sig_op_count, base, summed, over) at e)
              | inr fits ↦
                  let q = rw (count_p2sh, get_p2sh_sig_op_count, base, summed, fits) at e in
                  let same : s1 ≡ s' = cc in subst (Represents v a laws f b) same shows1
            ]
      ]

  check_spending_step :
      (settings : Settings) (p2sh script_checks : Bool) (f : Entries) (block : ℕ)
      (s : Cache (v.State)) (totals : Totals) (tx : Transaction) (totals' : Totals)
      (s' : Cache (v.State))
      → is_coin_base tx ≡ false
      → Represents v a laws f (some block) s
      → check_spending v settings p2sh script_checks s totals tx ≡ passed (totals', s')
      → Represents v a laws f (some block) s'
  unfolding check_spending
  check_spending_step settings p2sh script_checks f block s totals tx totals' s' base shows e =
      elim (Step-cases (get_value_in v s tx)) [
        | inr (inl fails) ↦ cc (rw (check_spending, fails) at e)
        | inr (inr (score, fails)) ↦ cc (rw (check_spending, fails) at e)
        | inl ((value_in, s1), brought) ↦
            let shows1 = get_value_in_step f (some block) s tx value_in s1 base shows brought in
            elim (Option-cases (get_value_out tx)) [
              | inl thrown ↦ cc (rw (check_spending, brought, thrown) at e)
              | inr (value_out, out) ↦
                  elim (Step-cases (
                    check_inputs v settings.context p2sh false settings.height_of
                      settings.min_tx_fee settings.min_relay_tx_fee script_checks s1 tx)) [
                        | inr (inl fails) ↦ cc (rw (check_spending, brought, out, fails) at e)
                        | inr (inr (score, fails)) ↦
                            cc (rw (check_spending, brought, out, fails) at e)
                        | inl (s2, fine) ↦
                            let q = rw (check_spending, brought, out, fine) at e in
                            let same : s2 ≡ s' = cc in
                            let shows2 =
                              (check_inputs-IsSpendable v a laws settings.context p2sh false
                                settings.height_of settings.min_tx_fee settings.min_relay_tx_fee
                                script_checks f block s1 tx s2 base shows1 fine).0 in
                            subst (Represents v a laws f (some block)) same shows2
                      ]
            ]
      ]

  pub check_tx_step :
      (settings : Settings) (p2sh script_checks : Bool) (f : Entries) (block : ℕ)
      (s : Cache (v.State)) (totals : Totals) (tx : Transaction) (totals' : Totals)
      (s' : Cache (v.State))
      → Represents v a laws f (some block) s
      → check_tx v settings p2sh script_checks s totals tx ≡ passed (totals', s')
      → Represents v a laws f (some block) s'
  unfolding check_tx
  check_tx_step settings p2sh script_checks f block s totals tx totals' s' shows e =
      elim (Bool-cases (ltb max_block_sigops (totals.sig_ops + get_legacy_sig_op_count tx))) [
        | inl over ↦ cc (rw (check_tx, over) at e)
        | inr fits ↦ elim (Bool-cases (is_coin_base tx)) [
          | inl base ↦ elim (Option-cases (get_value_out tx)) [
            | inl thrown ↦ cc (rw (check_tx, fits, base, thrown) at e)
            | inr (value_out, out) ↦
                let q = rw (check_tx, fits, base, out) at e in
                let same : s ≡ s' = cc in subst (Represents v a laws f (some block)) same shows
          ]
          | inr base ↦ elim (Step-cases (have_inputs v s tx)) [
            | inr (inl fails) ↦ cc (rw (check_tx, fits, base, fails) at e)
            | inr (inr (score, fails)) ↦ cc (rw (check_tx, fits, base, fails) at e)
            | inl ((false, s1), held) ↦ cc (rw (check_tx, fits, base, held) at e)
            | inl ((true, s1), held) ↦
                let shows1 = (have_inputs_step v a laws f (some block) s tx s1 base shows held).0 in
                let sig_ops = totals.sig_ops + get_legacy_sig_op_count tx in
                elim (Step-cases (count_p2sh v settings p2sh s1 sig_ops tx)) [
                  | inr (inl fails) ↦ cc (rw (check_tx, fits, base, held, fails) at e)
                  | inr (inr (score, fails)) ↦ cc (rw (check_tx, fits, base, held, fails) at e)
                  | inl ((count, s2), counted) ↦
                      check_spending_step settings p2sh script_checks f block s2
                        (record totals { sig_ops = count }) tx totals' s' base
                        (count_p2sh_step settings p2sh f (some block) s1 sig_ops tx count s2 base
                          shows1 counted)
                        (rw (check_tx, fits, base, held, counted) at e)
                ]
          ]
        ]
      ]
