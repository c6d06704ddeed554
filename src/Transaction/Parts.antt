-- ===== src/Transaction/Parts.antt =====
-- The parts of CheckTransaction (src/servilo/main.cpp), each against what it looks for.
use primmonero.Base.{
  ℕ, ◌+◌, ◌≤◌, ◌≡◌, ◌≢◌, ◌↔◌, refl, sym, ap, ◌∙◌, Bool, true, false, ◌||◌, List, [], ◌∷◌, All,
  length, ltb, if◌then◌else◌, Bool-cases, inl, inr, arith, All-map, All-both,
}
use primmonero.Base.Int.{ℤ, pos, negsuc, ◌+ℤ◌, ◌≤ℤ◌, ltb_ℤ, pos_part}
use mathlib.Core.Path.{subst}
use primmonero.Coins.{TxOut}
use primmonero.Transaction.{OutPoint, null_out_point, is_null_out_point, TxIn, only_null}
use primmonero.Transaction.Check.{
  max_money, min_txout_amount, money_range, Verdict, accepted, refused, check_outputs, out_point_eq,
  contains, check_duplicates, check_prevouts, check_coin_base_script, and_then, check_not_empty,
}

-- An output's amount is from MIN_TXOUT_AMOUNT to MAX_MONEY.
abbrev pub IsAmount : TxOut → Type 0
IsAmount o = (pos min_txout_amount ≤ℤ o.value) × (o.value ≤ℤ pos max_money)

unfoldable pub total_of : List TxOut → ℕ
total_of [] = 0
total_of (o ∷ os) = pos_part o.value + total_of os

-- No two inputs spend the same output.
pub AreDistinct : List TxIn → Type 0
AreDistinct [] = Unit {0}
AreDistinct (i ∷ is) = All (λ j. j.prevout ≢ i.prevout) is × AreDistinct is

abbrev pub HasScript : TxIn → Type 0
HasScript i = (2 ≤ length i.script_sig) × (length i.script_sig ≤ 100)

pub amount_is : (v : ℤ) → ltb_ℤ v (pos min_txout_amount) ≡ false → (x : ℕ) × (v ≡ pos x)
amount_is (pos x) e = (x, refl)
amount_is (negsuc x) e = ground arith

pub sum_is : (t x : ℕ) → pos t +ℤ pos x ≡ pos (t + x)
unfolding ◌+ℤ◌
sum_is t x = ground arith

pub money_range_iff : (t : ℕ) → (money_range (pos t) ≡ true) ↔ (t ≤ max_money)
unfolding money_range
money_range_iff t = ground arith

pub check_outputs_sound :
    (t : ℕ) (os : List TxOut)
    → t ≤ max_money
    → check_outputs (pos t) os ≡ accepted
    → All IsAmount os × (t + total_of os ≤ max_money)
unfolding check_outputs total_of
check_outputs_sound t [] h e = (tt, omega arith)
check_outputs_sound t (o ∷ os) h e = elim (Bool-cases (ltb_ℤ o.value (pos min_txout_amount))) [
  | inl low ↦ cc (rw (check_outputs, low) at e)
  | inr above ↦ elim (Bool-cases (ltb_ℤ (pos max_money) o.value)) [
    | inl high ↦ cc (rw (check_outputs, above, high) at e)
    | inr below ↦ elim (Bool-cases (money_range (pos t +ℤ o.value))) [
      | inr over ↦ cc (rw (check_outputs, above, below, over) at e)
      | inl fits ↦
          let (x, is_x) = amount_is o.value above in
          let sum : pos t +ℤ o.value ≡ pos (t + x) = ap (λ v. pos t +ℤ v) is_x ∙ sum_is t x in
          let small = (money_range_iff (t + x)).0 (ap money_range (sym sum) ∙ fits) in
          let rest = rw (check_outputs, above, below, fits, sum) at e in
          let (amounts, total) = check_outputs_sound (t + x) os small rest in
          let value : pos_part o.value ≡ x = ap pos_part is_x in
          (((ground (arith, above), ground (arith, below)), amounts), omega arith)
    ]
  ]
]

pub check_outputs_complete :
    (t : ℕ) (os : List TxOut)
    → All IsAmount os
    → t + total_of os ≤ max_money
    → check_outputs (pos t) os ≡ accepted
unfolding check_outputs total_of
check_outputs_complete t [] amounts h = refl
check_outputs_complete t (o ∷ os) amounts h =
    let above : ltb_ℤ o.value (pos min_txout_amount) ≡ false = ground (arith, amounts.0.0) in
    let below : ltb_ℤ (pos max_money) o.value ≡ false = ground (arith, amounts.0.1) in
    let (x, is_x) = amount_is o.value above in
    let value : pos_part o.value ≡ x = ap pos_part is_x in
    let sum : pos t +ℤ o.value ≡ pos (t + x) = ap (λ v. pos t +ℤ v) is_x ∙ sum_is t x in
    let small : t + x ≤ max_money = omega arith in
    let fits = ap money_range sum ∙ (money_range_iff (t + x)).1 small in
    rw (check_outputs, above, below, fits)
      (subst (λ z. check_outputs z os ≡ accepted) (sym sum)
        (check_outputs_complete (t + x) os amounts.1 (omega arith)))

out_point_eq_iff : (p q : OutPoint) → (out_point_eq p q ≡ true) ↔ (p ≡ q)
out_point_eq_iff p q = (
  λ e. λ i. record { hash = (parts e).0 i; n = (parts e).1 i },
  λ e. subst (λ x. out_point_eq p x ≡ true) e (ground arith),
)
  where
    parts : out_point_eq p q ≡ true → (p.hash ≡ q.hash) × (p.n ≡ q.n)
    parts e = ground (arith, e)

or_false : (a b : Bool) → (a || b) ≡ false → (a ≡ false) × (b ≡ false)
or_false true b e = cc
or_false false b e = (refl, e)

pub check_duplicates_sound :
    (seen : List OutPoint) (is : List TxIn)
    → check_duplicates seen is ≡ accepted
    → All (λ i. contains seen i.prevout ≡ false) is × AreDistinct is
unfolding check_duplicates contains AreDistinct
check_duplicates_sound seen [] e = (tt, tt)
check_duplicates_sound seen (i ∷ is) e = elim (Bool-cases (contains seen i.prevout)) [
  | inl double ↦ cc (rw (check_duplicates, double) at e)
  | inr fresh ↦
      let (apart, distinct) =
        check_duplicates_sound (i.prevout ∷ seen) is (rw (check_duplicates, fresh) at e) in
      (
        (
          fresh,
          All-map
              (λ j q. (or_false (out_point_eq j.prevout i.prevout) (contains seen j.prevout) q).1)
              is apart,
        ),
        (
          All-map
              (λ j q same.
                let equal = (out_point_eq_iff j.prevout i.prevout).1 same in
                cc (
                  equal,
                  (or_false (out_point_eq j.prevout i.prevout) (contains seen j.prevout) q).0,
                ))
              is apart,
          distinct,
        ),
      )
]

pub check_duplicates_complete :
    (seen : List OutPoint) (is : List TxIn)
    → All (λ i. contains seen i.prevout ≡ false) is
    → AreDistinct is
    → check_duplicates seen is ≡ accepted
unfolding check_duplicates contains AreDistinct
check_duplicates_complete seen [] fresh distinct = refl
check_duplicates_complete seen (i ∷ is) fresh distinct =
    rw (check_duplicates, fresh.0)
      (check_duplicates_complete (i.prevout ∷ seen) is
        (All-both {A = TxIn}
          {R = λ j. (out_point_eq j.prevout i.prevout || contains seen j.prevout) ≡ false}
          (λ j q other. rw (unequal j.prevout i.prevout other) q) is fresh.1 distinct.0)
        distinct.1)
  where
    unequal : (p q : OutPoint) → p ≢ q → out_point_eq p q ≡ false
    unequal p q other = elim (Bool-cases (out_point_eq p q)) [
      | inl same ↦ absurd (other ((out_point_eq_iff p q).0 same))
      | inr apart ↦ apart
    ]

null_iff : (p : OutPoint) → (is_null_out_point p ≡ true) ↔ (p ≡ null_out_point)
null_iff p = out_point_eq_iff p null_out_point

pub check_prevouts_sound :
    (is : List TxIn) → check_prevouts is ≡ accepted → All (λ i. i.prevout ≢ null_out_point) is
unfolding check_prevouts
check_prevouts_sound [] e = tt
check_prevouts_sound (i ∷ is) e = elim (Bool-cases (is_null_out_point i.prevout)) [
  | inl null ↦ cc (rw (check_prevouts, null) at e)
  | inr full ↦ (
    λ same. cc ((null_iff i.prevout).1 same, full),
    check_prevouts_sound is (rw (check_prevouts, full) at e),
  )
]

pub check_prevouts_complete :
    (is : List TxIn) → All (λ i. i.prevout ≢ null_out_point) is → check_prevouts is ≡ accepted
unfolding check_prevouts
check_prevouts_complete [] all = refl
check_prevouts_complete (i ∷ is) all = elim (Bool-cases (is_null_out_point i.prevout)) [
  | inl null ↦ absurd (all.0 ((null_iff i.prevout).0 null))
  | inr full ↦ rw (check_prevouts, full) (check_prevouts_complete is all.1)
]

pub script_iff :
    (is : List TxIn)
    → only_null is ≡ true
    → (check_coin_base_script is ≡ accepted) ↔ All HasScript is
unfolding check_coin_base_script only_null
script_iff [] e = cc
script_iff (i ∷ []) e = (λ h. (range h, tt), λ all. ground (arith, all.0))
  where
    range :
        (if ltb (length i.script_sig) 2 || ltb 100 (length i.script_sig)
            then refused 100
            else accepted)
          ≡ accepted
        → HasScript i
    range h = ground (arith, h)
script_iff (i ∷ j ∷ is) e = cc

pub and_then_parts : (a b : Verdict) → and_then a b ≡ accepted → (a ≡ accepted) × (b ≡ accepted)
and_then_parts accepted b e = (refl, e)
and_then_parts (refused score) b e = cc

pub not_empty_iff {ℓ} : {A : Type ℓ} (xs : List A) → (check_not_empty xs ≡ accepted) ↔ (xs ≢ [])
not_empty_iff [] = (λ e. cc, λ some_in. absurd (some_in refl))
not_empty_iff (x ∷ xs) = (λ e same. cc, λ some_in. refl)

pub none_seen : (is : List TxIn) → All (λ i. contains [] i.prevout ≡ false) is
unfolding contains
none_seen [] = tt
none_seen (i ∷ is) = (refl, none_seen is)

pub at_least : (os : List TxOut) → os ≢ [] → All IsAmount os → min_txout_amount ≤ total_of os
unfolding total_of
at_least [] some_out amounts = absurd (some_out refl)
at_least (o ∷ os) some_out amounts = ground (arith, amounts.0.0)
