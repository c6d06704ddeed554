-- ===== src/Work/Transition.antt =====
-- EstimateWorkTransition as an average.
use primmonero.Base.{
  ℕ, ap, ◌∙◌, ◌-◌, ◌+◌, ◌*◌, ◌/◌, ◌%◌, ◌^◌, ◌≤◌, ◌<◌, ◌≡◌, ltb, if◌then◌else◌, Bool-cases, inl, inr,
  arith,
}
use native.Mathlib.Nat.{
  le-div_iff_mul-le, div-le_of_le-mul, mod-eq_of_lt, mul-le-mul_right, mul-le-mul,
}
use primmonero.Target.{fractional_unit, target_get_length}
use primmonero.Target.Fields.{IsU32, target_set_length_lem}
use primmonero.Target.Difficulty.{
  target_get_fractional_difficulty_bounds, target_get_fractional_difficulty_lem,
}
use primmonero.Work.{set_length_of_zero, transition_weight, estimate_work_transition}

set_length_of_zero_lem : (len : ℕ) → len < 255 → set_length_of_zero len ≡ len * fractional_unit
unfolding set_length_of_zero
set_length_of_zero_lem len h =
    rw (set_length_of_zero, target_set_length_lem len 0 (omega arith) h) (omega arith)

-- A weighted mean of two numbers between bounds is between them.
mean_between :
    (low high a b w v : ℕ)
    → 0 < v
    → low ≤ a
    → a ≤ high
    → low ≤ b
    → b ≤ high
    → (low ≤ (a * w + v * b) / (w + v)) × ((a * w + v * b) / (w + v) ≤ high)
mean_between low high a b w v pos la ha lb hb =
    let p : low * w ≤ a * w = mul-le-mul_right w la in
    let q : low * v ≤ b * v = mul-le-mul_right v lb in
    let r : a * w ≤ high * w = mul-le-mul_right w ha in
    let t : b * v ≤ high * v = mul-le-mul_right v hb in
    (
      (le-div_iff_mul-le (omega arith)).1 (omega (arith, p, q)),
      div-le_of_le-mul (w + v) (omega (arith, r, t)),
    )

weight_bound : (bits : ℕ) → transition_weight bits ≤ 499 * 2 ^ 24
unfolding transition_weight
weight_bound bits = omega (arith, target_get_fractional_difficulty_bounds bits)

product_bound : (a w : ℕ) → a ≤ 100 * 2 ^ 24 → w ≤ 499 * 2 ^ 24 → a * w ≤ 49900 * 2 ^ 48
product_bound a w h k =
    let p : a * w ≤ 100 * 2 ^ 24 * (499 * 2 ^ 24) = mul-le-mul h k in omega (arith, p)

exact_longer :
    (a w b : ℕ)
    → a ≤ 100 * 2 ^ 24
    → w ≤ 499 * 2 ^ 24
    → b ≤ 100 * 2 ^ 24
    → (a * w % 2 ^ 64 + 2 * b) % 2 ^ 64 / ((w + 2) % 2 ^ 64) % 2 ^ 32 ≡ (a * w + 2 * b) / (w + 2)
exact_longer a w b ha hw hb =
    let whole : (a * w % 2 ^ 64 + 2 * b) % 2 ^ 64 ≡ a * w + 2 * b =
      omega (arith, product_bound a w ha hw) in
    let divisor : (w + 2) % 2 ^ 64 ≡ w + 2 = omega arith in
    let (_, small) =
      mean_between 0 (100 * 2 ^ 24) a b w 2 (omega arith) (omega arith) ha (omega arith) hb in
    rw (whole, divisor) (mod-eq_of_lt (omega (arith, small)))

exact_shorter :
    (a b : ℕ)
    → a ≤ 100 * 2 ^ 24
    → b ≤ 100 * 2 ^ 24
    → (499 * a + 2 * b) % 2 ^ 64 / 501 % 2 ^ 32 ≡ (a * 499 + 2 * b) / (499 + 2)
exact_shorter a b ha hb = omega arith

-- The target that the estimate is drawn to: the floor of a longer chain, and the ceiling else.
abbrev pub edge : ℕ → ℕ → ℕ
edge bits chain_length =
    if ltb (target_get_length bits) (target_get_length chain_length)
    then target_get_length bits * fractional_unit
    else (target_get_length bits + 1) * fractional_unit

-- The weight of the old estimate against 2 for the edge: 499 times the fractional difficulty in units
-- of 2 ^ 32 when the chain is longer, and 499 else.
abbrev pub old_weight : ℕ → ℕ → ℕ
old_weight bits chain_length =
    if ltb (target_get_length bits) (target_get_length chain_length)
    then 499 * (2 ^ 56 / (2 ^ 24 - bits % 2 ^ 24)) / 2 ^ 32
    else 499

transition_weight_lem :
    (bits : ℕ)
    → bits % 2 ^ 24 < 2 ^ 24 - 1
    → transition_weight bits ≡ 499 * (2 ^ 56 / (2 ^ 24 - bits % 2 ^ 24)) / 2 ^ 32
unfolding transition_weight
transition_weight_lem bits h =
    let at_most : 2 ^ 56 / (2 ^ 24 - bits % 2 ^ 24) ≤ 2 ^ 55 =
      div-le_of_le-mul (2 ^ 24 - bits % 2 ^ 24) (omega (arith, h)) in
    let difficulty = target_get_fractional_difficulty_lem bits in
    ap (λ (d : ℕ). 499 * d % 2 ^ 64 / 2 ^ 32) difficulty
    ∙ ap (λ (p : ℕ). p / 2 ^ 32) (mod-eq_of_lt (omega (arith, at_most)))

estimate_work_transition-mean :
    (transition bits chain_length : ℕ)
    → IsU32 bits
    → target_get_length bits < 99
    → bits % 2 ^ 24 < 2 ^ 24 - 1
    → transition ≤ 100 * fractional_unit
    → estimate_work_transition transition bits chain_length
      ≡ (transition * old_weight bits chain_length + 2 * edge bits chain_length)
        / (old_weight bits chain_length + 2)
unfolding estimate_work_transition
estimate_work_transition-mean transition bits chain_length h short inner small =
    let floor = set_length_of_zero_lem (target_get_length bits) (omega arith) in
    let ceiling = set_length_of_zero_lem (target_get_length bits + 1) (omega arith) in
    elim (Bool-cases (ltb (target_get_length bits) (target_get_length chain_length))) [
      | inl longer ↦
          rw (estimate_work_transition, longer, floor)
            (exact_longer transition (transition_weight bits)
                (target_get_length bits * fractional_unit) small (weight_bound bits) (omega arith)
              ∙ ap
                  (λ (w : ℕ).
                    (transition * w + 2 * (target_get_length bits * fractional_unit)) / (w + 2))
                  (transition_weight_lem bits inner))
      | inr shorter ↦
          rw (estimate_work_transition, shorter, ceiling)
            (exact_shorter transition ((target_get_length bits + 1) * fractional_unit) small
              (omega arith))
    ]

-- For targets below length 99 whose fraction is not the greatest, and an old estimate of at most
-- length 100, the new estimate is the weighted mean of the old one and an edge, rounded down, without
-- overflow. After a longer chain the edge is the length of the bits, and the weights are 499 times
-- the fractional difficulty in units of 2 ^ 32, against 2; otherwise it is the next length, and they
-- are 499 against 2. The new estimate lies between any bounds that the old one and the edge lie
-- between.
pub estimate_work_transition_bounds :
    (low high transition bits chain_length : ℕ)
    → IsU32 bits
    → target_get_length bits < 99
    → bits % 2 ^ 24 < 2 ^ 24 - 1
    → transition ≤ 100 * fractional_unit
    → low ≤ transition
    → transition ≤ high
    → low ≤ edge bits chain_length
    → edge bits chain_length ≤ high
    → (estimate_work_transition transition bits chain_length
        ≡ (transition * old_weight bits chain_length + 2 * edge bits chain_length)
          / (old_weight bits chain_length + 2))
      × (low ≤ estimate_work_transition transition bits chain_length)
      × (estimate_work_transition transition bits chain_length ≤ high)
estimate_work_transition_bounds low high transition bits chain_length h short inner small lt th le
      eh =
    let mean = estimate_work_transition-mean transition bits chain_length h short inner small in
    let (above, below) =
      mean_between low high transition (edge bits chain_length) (old_weight bits chain_length) 2
        (omega arith) lt th le eh in
    (mean, omega (arith, mean, above), omega (arith, mean, below))
