-- ===== src/Connect/Spendable.antt =====
-- What a transaction that CheckInputs passes may spend, and what it leaves as a fee.
use primmonero.Base.{
  ℕ, ◌+◌, ◌≤◌, ◌≡◌, sym, ap, ◌∙◌, Bool, true, false, not, Option, some, List, [], ◌∷◌, All,
  All-both, if◌then◌else◌, get_or, Bool-cases, Option-cases, inl, inr, arith,
}
use mathlib.Core.Path.{subst}
use primmonero.Base.Int.{ℤ, pos, ◌-ℤ◌, ltb_ℤ}
use primmonero.Script.CryptoOps.{Context}
use primmonero.Coins.{null_out, Coins, is_available}
use primmonero.Coins.View.{CoinsView, Cache, get_best_block}
use primmonero.Coins.View.Refinement.{Abstraction, IsSource}
use primmonero.Transaction.{TxIn, Transaction, is_coin_base}
use primmonero.Transaction.Check.{max_money, money_range, get_value_out}
use primmonero.Transaction.Fee.{get_min_fee, gmf_block}
use primmonero.Connect.{get_coins}
use primmonero.Connect.Views.{Entries, Represents, get_best_block_step}
use primmonero.Connect.Inputs.{get_coins_step}
use primmonero.Connect.CheckInputs.{
  rejected, passed, Step-cases, check_amounts, coinbase_maturity, have_inputs, check_values,
  script_check, check_scripts, check_fee, check_inputs,
}
use primmonero.Connect.Values.{
  IsThere, IsMature, values_of, in_range, have_inputs_step, check_values_step,
}

-- The output that an input spends is there, and its coinbase is old enough at that height.
abbrev pub IsSpendable : Entries → ℕ → TxIn → Type 0
IsSpendable f height i =
    (c : Coins) × (f i.prevout.hash ≡ some c)
    × (is_available c i.prevout.n ≡ true)
    × (c.coin_base ≡ true → c.height + coinbase_maturity ≤ height)

spendable :
    (f : Entries) (height : ℕ) (i : TxIn)
    → IsThere f i
    → IsMature f height i
    → IsSpendable f height i
spendable f height i (c, entry, there) (d, entry', mature) =
    let same : d ≡ c = cc in
    (
      c,
      entry,
      there,
      subst (λ x. x.coin_base ≡ true → x.height + coinbase_maturity ≤ height) same mature,
    )

module _ (v : CoinsView) (a : Abstraction v) (laws : IsSource v a) where
  abbrev pub HasFee : ℕ → ℕ → Transaction → ℕ → Type 0
  HasFee min_tx_fee min_relay_tx_fee tx value_in =
      (value_out : ℤ) × (fee : ℕ) × (get_value_out tx ≡ some value_out)
      × (pos value_in -ℤ value_out ≡ pos fee)
      × (get_min_fee min_tx_fee min_relay_tx_fee tx 1 false gmf_block ≤ fee)
      × (fee ≤ max_money)

  module _ (context : Bool → Transaction → ℕ → Context) (p2sh strict : Bool) where
    check_fee_step :
        (min_tx_fee min_relay_tx_fee : ℕ) (tx : Transaction) (value_in : ℕ) (fee : ℤ)
        → check_fee v context p2sh strict min_tx_fee min_relay_tx_fee tx (pos value_in) ≡ passed fee
        → HasFee min_tx_fee min_relay_tx_fee tx value_in
    unfolding check_fee
    check_fee_step min_tx_fee min_relay_tx_fee tx value_in fee e =
        elim (Option-cases (get_value_out tx)) [
          | inl thrown ↦ cc (rw (check_fee, thrown) at e)
          | inr (value_out, out) ↦
              let (range, bound) =
                ranges (pos value_in) value_out
                  (get_min_fee min_tx_fee min_relay_tx_fee tx 1 false gmf_block) fee
                  (rw (check_fee, out) at e) in
              let (n, is_n, le) = in_range (pos value_in -ℤ value_out) range in
              (value_out, n, out, is_n, at_least (pos value_in -ℤ value_out) n _ is_n bound, le)
        ]
      where
        ranges :
            (i o : ℤ) (least : ℕ) (fee : ℤ)
            → (if ltb_ℤ i o
                then rejected 100
                else if ltb_ℤ (i -ℤ o) (pos 0)
                then rejected 100
                else if ltb_ℤ (i -ℤ o) (pos least)
                then rejected 100
                else if not (money_range (i -ℤ o))
                then rejected 100
                else passed (i -ℤ o))
              ≡ passed fee
            → (money_range (i -ℤ o) ≡ true) × (ltb_ℤ (i -ℤ o) (pos least) ≡ false)
        ranges i o least fee h = ground (arith, h)

        at_least : (z : ℤ) (n least : ℕ) → z ≡ pos n → ltb_ℤ z (pos least) ≡ false → least ≤ n
        at_least z n least is_n h =
            let h' = subst (λ z. ltb_ℤ z (pos least) ≡ false) is_n h in ground (arith, h')

    check_scripts_step :
        (f : Entries) (b : Option ℕ) (s : Cache (v.State)) (tx : Transaction) (n : ℕ)
        (is : List TxIn) (s' : Cache (v.State))
        → Represents v a laws f b s
        → check_scripts v context p2sh strict s tx n is ≡ passed s'
        → Represents v a laws f b s'
    unfolding check_scripts
    check_scripts_step f b s tx n [] s' shows e =
        let same : s ≡ s' = cc in subst (Represents v a laws f b) same shows
    check_scripts_step f b s tx n (i ∷ is) s' shows e =
        elim (Option-cases (get_coins v s i.prevout.hash)) [
          | inl missing ↦ cc (rw (check_scripts, missing) at e)
          | inr ((c, s1), found) ↦
              let shows1 = (get_coins_step v a laws f b s i.prevout.hash c s1 shows found).1 in
              elim (Step-cases (
                script_check v context p2sh strict tx n i
                  (get_or c.vout i.prevout.n null_out).script)) [
                    | inl (ok, fine) ↦
                        check_scripts_step f b s1 tx (n + 1) is s' shows1
                          (rw (check_scripts, found, fine) at e)
                    | inr (inl fails) ↦ cc (rw (check_scripts, found, fails) at e)
                    | inr (inr (score, fails)) ↦ cc (rw (check_scripts, found, fails) at e)
                  ]
        ]

    check_amounts_step :
        (height_of : ℕ → ℕ) (min_tx_fee min_relay_tx_fee : ℕ) (script_checks : Bool) (f : Entries)
        (block : ℕ) (s : Cache (v.State)) (tx : Transaction) (s' : Cache (v.State))
        → Represents v a laws f (some block) s
        → check_amounts v context p2sh strict height_of min_tx_fee min_relay_tx_fee script_checks s
            tx
          ≡ passed s'
        → Represents v a laws f (some block) s'
          × All (IsMature f (height_of block + 1)) tx.vin
          × HasFee min_tx_fee min_relay_tx_fee tx (values_of f tx.vin)
    unfolding check_amounts
    check_amounts_step height_of min_tx_fee min_relay_tx_fee script_checks f block s tx s' shows e =
        let (best, shows1) = get_best_block_step v a laws f (some block) s shows in
        let s1 = (get_best_block v s).1 in
        elim (Step-cases (check_values v (height_of block + 1) s1 (pos 0) tx.vin)) [
          | inr (inl fails) ↦ cc (rw (check_amounts, best, fails) at e)
          | inr (inr (score, fails)) ↦ cc (rw (check_amounts, best, fails) at e)
          | inl ((value_in, s2), values) ↦
              let (shows2, mature, sum) =
                check_values_step v a laws (height_of block + 1) f (some block) s1 0 tx.vin value_in
                  s2 shows1 values in
              elim (Step-cases
                (check_fee v context p2sh strict min_tx_fee min_relay_tx_fee tx value_in)) [
                  | inr (inl fails) ↦ cc (rw (check_amounts, best, values, fails) at e)
                  | inr (inr (score, fails)) ↦ cc (rw (check_amounts, best, values, fails) at e)
                  | inl (fee, paid) ↦
                      let total : value_in ≡ pos (values_of f tx.vin) =
                        sum ∙ ap pos (omega arith) in
                      let has_fee =
                        check_fee_step min_tx_fee min_relay_tx_fee tx (values_of f tx.vin) fee (
                          ap (check_fee v context p2sh strict min_tx_fee min_relay_tx_fee tx)
                            (sym total)
                          ∙ paid) in
                      elim (Bool-cases script_checks) [
                        | inl checked ↦ (
                          check_scripts_step f (some block) s2 tx 0 tx.vin s' shows2
                              (rw (check_amounts, best, values, paid, checked) at e),
                          mature,
                          has_fee,
                        )
                        | inr unchecked ↦
                            let q = rw (check_amounts, best, values, paid, unchecked) at e in
                            let same : s2 ≡ s' = cc in
                            (
                              subst (Represents v a laws f (some block)) same shows2,
                              mature,
                              has_fee,
                            )
                      ]
                ]
        ]

    -- A transaction, not a coinbase, that CheckInputs passes against a cache over a view whose reads
    -- keep their promise spends outputs that are there and, from coinbases, old enough at the height
    -- after the best block's; its fee is a number of MoneyRange, at least the one that is asked for;
    -- and the cache shows the same entries afterwards.
    pub check_inputs-IsSpendable :
        (height_of : ℕ → ℕ) (min_tx_fee min_relay_tx_fee : ℕ) (script_checks : Bool) (f : Entries)
        (block : ℕ) (s : Cache (v.State)) (tx : Transaction) (s' : Cache (v.State))
        → is_coin_base tx ≡ false
        → Represents v a laws f (some block) s
        → check_inputs v context p2sh strict height_of min_tx_fee min_relay_tx_fee script_checks s
            tx
          ≡ passed s'
        → Represents v a laws f (some block) s'
          × All (IsSpendable f (height_of block + 1)) tx.vin
          × HasFee min_tx_fee min_relay_tx_fee tx (values_of f tx.vin)
    unfolding check_inputs
    check_inputs-IsSpendable height_of min_tx_fee min_relay_tx_fee script_checks f block s tx s'
          base shows e =
        elim (Step-cases (have_inputs v s tx)) [
          | inr (inl fails) ↦ cc (rw (check_inputs, base, fails) at e)
          | inr (inr (score, fails)) ↦ cc (rw (check_inputs, base, fails) at e)
          | inl ((true, s1), held) ↦
              let (shows1, there) =
                have_inputs_step v a laws f (some block) s tx s1 base shows held in
              let (shows', mature, has_fee) =
                check_amounts_step height_of min_tx_fee min_relay_tx_fee script_checks f block s1 tx
                  s' shows1 (rw (check_inputs, base, held) at e) in
              (shows', All-both (spendable f (height_of block + 1)) tx.vin there mature, has_fee)
          | inl ((false, s1), held) ↦ cc (rw (check_inputs, base, held) at e)
        ]
