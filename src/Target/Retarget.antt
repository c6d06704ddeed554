-- ===== src/Target/Retarget.antt =====
-- TargetGetNext on every branch: what it returns, and how far the length can move.
use primmonero.Base.{
  ℕ, ◌+◌, ◌-◌, ◌*◌, ◌/◌, ◌^◌, ◌≤◌, ◌<◌, ◌≡◌, ◌≢◌, ◌⊎◌, inl, inr, ap, ◌&&◌, some, ltb, ◌==◌,
  if◌then◌else◌, arith,
}
use primmonero.Base.Int.{ℤ, ℤ-discrete, pos, negsuc, ◌*ℤ◌, pos_part, neg_part, quot_ℤ}
use primmonero.Target.{
  fractional_unit, target_get_length, target_get_fractional_difficulty, target_increment_length,
  fractional_difficulty_max, fractional_difficulty_min, fractional_difficulty_threshold,
  difficulty_factor, difficulty_divisor, clamp_difficulty, quotient, next_difficulty, step_length,
  next, throws, finish_next, target_get_next,
}
use primmonero.Target.Fields.{
  IsU32, target_get_length_lem, target_increment_length_lem, target_decrement_length_lem,
}
use primmonero.Target.Difficulty.{
  complement, complement_bounds, target_set_fractional_difficulty_lem,
}

-- The bits that a new difficulty leads to, in arithmetic.
unfoldable pub stepped : ℕ → ℕ → ℕ → ℕ
stepped min_length d bits =
    if ltb fractional_difficulty_threshold d
    then (bits / fractional_unit + 1) * fractional_unit
    else if d == fractional_difficulty_min && ltb min_length (bits / fractional_unit)
    then (bits / fractional_unit - 1) * fractional_unit + (fractional_unit - 2 ^ 16)
    else bits / fractional_unit * fractional_unit + (fractional_unit - complement d)

pub clamp_difficulty_bounds :
    (v : ℤ)
    → (fractional_difficulty_min ≤ clamp_difficulty v)
      × (clamp_difficulty v ≤ fractional_difficulty_max)
unfolding clamp_difficulty
clamp_difficulty_bounds (pos n) = ground arith
clamp_difficulty_bounds (negsuc n) = ground arith

finish_next-set :
    (d bits : ℕ)
    → IsU32 bits
    → fractional_difficulty_min ≤ d
    → d ≤ fractional_difficulty_max
    → finish_next (d, bits)
      ≡ next (bits / fractional_unit * fractional_unit + (fractional_unit - complement d))
unfolding finish_next
finish_next-set d bits h low high =
    rw (target_set_fractional_difficulty_lem d bits h low high, finish_next)

pub finish_next-step_length :
    (min_length d bits : ℕ)
    → IsU32 bits
    → bits / fractional_unit < 255
    → fractional_difficulty_min ≤ d
    → d ≤ fractional_difficulty_max
    → finish_next (step_length min_length d bits) ≡ next (stepped min_length d bits)
unfolding step_length stepped
finish_next-step_length min_length d bits h short low high = ground (
  arith,
  target_get_length_lem bits h,
  finish_next-set d bits h low high,
  target_increment_length_lem bits,
  finish_next-set fractional_difficulty_min (target_increment_length bits),
  target_decrement_length_lem min_length bits h,
  finish_next-set fractional_difficulty_threshold (bits - fractional_unit),
)

pub stepped_bounds :
    (min_length d bits : ℕ)
    → min_length ≤ bits / fractional_unit
    → bits / fractional_unit < 255
    → fractional_difficulty_min ≤ d
    → d ≤ fractional_difficulty_max
    → IsU32 (stepped min_length d bits)
      × (min_length ≤ stepped min_length d bits / fractional_unit)
      × (stepped min_length d bits / fractional_unit ≤ bits / fractional_unit + 1)
      × (bits / fractional_unit ≤ stepped min_length d bits / fractional_unit + 1)
unfolding stepped
stepped_bounds min_length d bits deep short low high = ground (arith, complement_bounds d low high)

pub next_difficulty-some :
    (d : ℕ) (interval spacing actual : ℤ)
    → difficulty_divisor interval spacing actual ≢ pos 0
    → next_difficulty d interval spacing actual
      ≡ some (
          clamp_difficulty (
            quot_ℤ
              (pos d *ℤ difficulty_factor interval spacing)
              (difficulty_divisor interval spacing actual)))
unfolding next_difficulty quotient
next_difficulty-some d interval spacing actual h =
    ground (arith, nonzero (difficulty_divisor interval spacing actual) h)
  where
    nonzero : (v : ℤ) → v ≢ pos 0 → pos_part v + neg_part v ≢ 0
    nonzero (pos n) g = λ e. g (ap pos (omega arith))
    nonzero (negsuc n) g = omega arith

-- The clamped difficulty that TargetGetNext works with.
abbrev pub moved_difficulty : ℕ → ℤ → ℤ → ℤ → ℕ
moved_difficulty bits interval spacing actual = clamp_difficulty (
    quot_ℤ (pos (target_get_fractional_difficulty bits) *ℤ difficulty_factor interval spacing)
      (difficulty_divisor interval spacing actual))

pub target_get_next-stepped :
    (min_length bits : ℕ) (interval spacing actual : ℤ)
    → IsU32 bits
    → bits / fractional_unit < 255
    → difficulty_divisor interval spacing actual ≢ pos 0
    → target_get_next min_length bits interval spacing actual
      ≡ next (stepped min_length (moved_difficulty bits interval spacing actual) bits)
unfolding target_get_next
target_get_next-stepped min_length bits interval spacing actual h short nonzero =
    rw
      (
        next_difficulty-some (target_get_fractional_difficulty bits) interval spacing actual
            nonzero,
        target_get_next,
      )
      (finish_next-step_length min_length d bits h short in_range.0 in_range.1)
  where
    d : ℕ
    d = moved_difficulty bits interval spacing actual

    in_range : (fractional_difficulty_min ≤ d) × (d ≤ fractional_difficulty_max)
    in_range = clamp_difficulty_bounds _

-- For a target whose length is in range (at least the minimal length, below 255) and any interval,
-- spacing and actual spacing, whose products wrap as int64, the new bits exist unless the divisor is
-- zero. They keep the minimal length, and their length differs from the old one by one at most. On a
-- zero divisor the step throws.
pub target_get_next_bounds :
    (min_length bits : ℕ) (interval spacing actual : ℤ)
    → IsU32 bits
    → min_length ≤ target_get_length bits
    → target_get_length bits < 255
    → ((difficulty_divisor interval spacing actual ≢ pos 0)
        × (b : ℕ) × (target_get_next min_length bits interval spacing actual ≡ next b)
        × (IsU32 b)
        × (min_length ≤ target_get_length b)
        × (target_get_length b ≤ target_get_length bits + 1)
        × (target_get_length bits ≤ target_get_length b + 1))
      ⊎ ((difficulty_divisor interval spacing actual ≡ pos 0)
          × (target_get_next min_length bits interval spacing actual ≡ throws))
target_get_next_bounds min_length bits interval spacing actual h deep short =
    elim (ℤ-discrete (difficulty_divisor interval spacing actual) (pos 0)) [
      | yes zero ↦ inr (
        zero,
        unfold target_get_next next_difficulty quotient in
            rw (zero, target_get_next, next_difficulty, quotient),
      )
      | no nonzero ↦ inl (
        nonzero,
        b,
        target_get_next-stepped min_length bits interval spacing actual h (omega (arith, len))
            nonzero,
        keeps.0,
        omega (arith, len, keeps.0, keeps.1, target_get_length_lem b keeps.0),
        omega (arith, len, keeps.2, target_get_length_lem b keeps.0),
        omega (arith, len, keeps.3, target_get_length_lem b keeps.0),
      )
    ]
  where
    len : target_get_length bits ≡ bits / fractional_unit
    len = target_get_length_lem bits h

    d : ℕ
    d = moved_difficulty bits interval spacing actual

    b : ℕ
    b = stepped min_length d bits

    in_range : (fractional_difficulty_min ≤ d) × (d ≤ fractional_difficulty_max)
    in_range = clamp_difficulty_bounds _

    keeps :
        IsU32 b
        × (min_length ≤ b / fractional_unit)
        × (b / fractional_unit ≤ bits / fractional_unit + 1)
        × (bits / fractional_unit ≤ b / fractional_unit + 1)
    keeps =
        stepped_bounds min_length d bits (omega (arith, len)) (omega (arith, len)) in_range.0
          in_range.1
