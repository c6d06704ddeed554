-- ===== src/Connect/Values.antt =====
-- The loops of HaveInputs and CheckInputs (src/servilo/main.cpp) over the inputs of a transaction.
use primmonero.Base.{
  ℕ, ◌+◌, ◌≤◌, ◌≡◌, refl, sym, ap, ◌∙◌, Bool, true, false, not, ◌&&◌, Option, none, some, List, [],
  ◌∷◌, All, ltb, get_or, Bool-cases, Option-cases, inl, inr, arith,
}
use mathlib.Core.Path.{subst}
use primmonero.Base.Int.{ℤ, pos, negsuc, ◌+ℤ◌, ltb_ℤ, pos_part}
use primmonero.Coins.{null_out, Coins, is_available}
use primmonero.Coins.View.{CoinsView, Cache, have_coins}
use primmonero.Coins.View.Refinement.{Abstraction, IsSource}
use primmonero.Transaction.{TxIn, Transaction, is_coin_base}
use primmonero.Transaction.Check.{max_money, money_range}
use primmonero.Transaction.Parts.{sum_is}
use primmonero.Connect.{get_coins}
use primmonero.Connect.Views.{Entries, Represents, have_coins_step}
use primmonero.Connect.Inputs.{get_coins_step}
use primmonero.Connect.CheckInputs.{
  passed, coinbase_maturity, have_hashes, have_outputs, have_inputs, check_values,
}

abbrev pub IsThere : Entries → TxIn → Type 0
IsThere f i = (c : Coins) × (f i.prevout.hash ≡ some c) × (is_available c i.prevout.n ≡ true)

abbrev pub IsMature : Entries → ℕ → TxIn → Type 0
IsMature f height i =
    (c : Coins) × (f i.prevout.hash ≡ some c)
    × (c.coin_base ≡ true → c.height + coinbase_maturity ≤ height)

-- The amount that an input brings.
abbrev pub input_value : Option Coins → ℕ → ℕ
input_value none n = 0
input_value (some c) n = pos_part (get_or c.vout n null_out).value

pub values_of : Entries → List TxIn → ℕ
values_of f [] = 0
values_of f (i ∷ is) = input_value (f i.prevout.hash) i.prevout.n + values_of f is

pub in_range : (z : ℤ) → money_range z ≡ true → (n : ℕ) × (z ≡ pos n) × (n ≤ max_money)
unfolding money_range
in_range (pos n) e = (n, refl, ground (arith, e))
in_range (negsuc n) e = cc (e, too_low n)
  where
    too_low :
        (n : ℕ) → (not (ltb_ℤ (negsuc n) (pos 0)) && not (ltb_ℤ (pos max_money) (negsuc n))) ≡ false
    too_low n = ground arith

both : (a b : Bool) → (a && b) ≡ true → (a ≡ true) × (b ≡ true)
both true b e = (refl, e)
both false b e = cc

young : (base : Bool) (a b : ℕ) → (base && ltb a b) ≡ false → base ≡ true → b ≤ a
young true a b e base = ground (arith, e)
young false a b e base = cc

abbrev worth : Coins → TxIn → ℤ
worth c i = (get_or c.vout i.prevout.n null_out).value

module _ (v : CoinsView) (a : Abstraction v) (laws : IsSource v a) where
  have_hashes_step :
      (f : Entries) (b : Option ℕ) (s : Cache (v.State)) (is : List TxIn)
      → Represents v a laws f b s
      → Represents v a laws f b (have_hashes v s is).1
  unfolding have_hashes
  have_hashes_step f b s [] shows = shows
  have_hashes_step f b s (i ∷ is) shows =
      let shows' = (have_coins_step v a laws f b s i.prevout.hash shows).1 in
      elim (Bool-cases ((have_coins v s i.prevout.hash).0)) [
        | inl have ↦
            rw (have_hashes, have)
              (have_hashes_step f b (have_coins v s i.prevout.hash).1 is shows')
        | inr missing ↦ rw (have_hashes, missing) shows'
      ]

  have_outputs_step :
      (f : Entries) (b : Option ℕ) (s : Cache (v.State)) (is : List TxIn) (s' : Cache (v.State))
      → Represents v a laws f b s
      → have_outputs v s is ≡ passed (true, s')
      → Represents v a laws f b s' × All (IsThere f) is
  unfolding have_outputs
  have_outputs_step f b s [] s' shows e =
      let same : s ≡ s' = cc in (subst (Represents v a laws f b) same shows, tt)
  have_outputs_step f b s (i ∷ is) s' shows e = elim (Option-cases (get_coins v s i.prevout.hash)) [
    | inl missing ↦ cc (rw (have_outputs, missing) at e)
    | inr ((c, s1), found) ↦
        let (entry, shows1) = get_coins_step v a laws f b s i.prevout.hash c s1 shows found in
        elim (Bool-cases (is_available c i.prevout.n)) [
          | inr gone ↦ cc (rw (have_outputs, found, gone) at e)
          | inl there ↦
              let (shows', rest) =
                have_outputs_step f b s1 is s' shows1 (rw (have_outputs, found, there) at e) in
              (shows', ((c, entry, there), rest))
        ]
  ]

  pub have_inputs_step :
      (f : Entries) (b : Option ℕ) (s : Cache (v.State)) (tx : Transaction) (s' : Cache (v.State))
      → is_coin_base tx ≡ false
      → Represents v a laws f b s
      → have_inputs v s tx ≡ passed (true, s')
      → Represents v a laws f b s' × All (IsThere f) tx.vin
  unfolding have_inputs
  have_inputs_step f b s tx s' base shows e =
      let shows1 = have_hashes_step f b s tx.vin shows in
      elim (Bool-cases ((have_hashes v s tx.vin).0)) [
        | inl have ↦
            have_outputs_step f b (have_hashes v s tx.vin).1 tx.vin s' shows1
              (rw (have_inputs, base, have) at e)
        | inr missing ↦ let q = rw (have_inputs, base, missing) at e in cc
      ]

  pub check_values_step :
      (height : ℕ) (f : Entries) (b : Option ℕ) (s : Cache (v.State)) (total : ℕ) (is : List TxIn)
      (value : ℤ) (s' : Cache (v.State))
      → Represents v a laws f b s
      → check_values v height s (pos total) is ≡ passed (value, s')
      → Represents v a laws f b s'
        × All (IsMature f height) is
        × (value ≡ pos (total + values_of f is))
  unfolding check_values values_of
  check_values_step height f b s total [] value s' shows e =
      let same : s ≡ s' = cc in
      let sum : pos total ≡ value = cc in
      (subst (Represents v a laws f b) same shows, tt, sym sum ∙ ap pos (omega arith))
  check_values_step height f b s total (i ∷ is) value s' shows e =
      elim (Option-cases (get_coins v s i.prevout.hash)) [
        | inl missing ↦ cc (rw (check_values, missing) at e)
        | inr ((c, s1), found) ↦
            let (entry, shows1) = get_coins_step v a laws f b s i.prevout.hash c s1 shows found in
            elim (Bool-cases (c.coin_base && ltb height (c.height + coinbase_maturity))) [
              | inl early ↦ cc (rw (check_values, found, early) at e)
              | inr old ↦
                  elim (Bool-cases
                    (money_range (worth c i) && money_range (pos total +ℤ worth c i))) [
                      | inr out ↦ cc (rw (check_values, found, old, out) at e)
                      | inl fits ↦
                          let (x, is_x, le) =
                            in_range (worth c i) (both (money_range (worth c i)) _ fits).0 in
                          let sum : pos total +ℤ worth c i ≡ pos (total + x) =
                            ap (λ z. pos total +ℤ z) is_x ∙ sum_is total x in
                          let go_on = rw (check_values, found, old, fits) at e in
                          let (shows', mature, value_is) =
                            check_values_step height f b s1 (total + x) is value s' shows1 (
                              subst (λ z. check_values v height s1 z is ≡ passed (value, s')) sum
                                go_on) in
                          let brought : input_value (f i.prevout.hash) i.prevout.n ≡ x =
                            ap (λ o. input_value o i.prevout.n) entry ∙ ap pos_part is_x in
                          (
                            shows',
                            (
                              (
                                c,
                                entry,
                                young c.coin_base height (c.height + coinbase_maturity) old,
                              ),
                              mature,
                            ),
                            value_is ∙ ap pos (omega (arith, brought)),
                          )
                    ]
            ]
      ]
  -- The fee is what the inputs bring less what the outputs take: a number of MoneyRange that is no
  -- less than the fee asked for.
