-- ===== src/Target/Difficulty.antt =====
-- The fraction of a target and its fractional difficulty, 2 ^ 56 / (2 ^ 24 - fraction).
use primmonero.Base.{
  ℕ, ◌+◌, ◌-◌, ◌*◌, ◌/◌, ◌%◌, ◌≤◌, ◌<◌, ◌≡◌, sym, ap, ◌∙◌, none, some, arith, ◌⊎◌, inl, inr,
}
use native.Mathlib.Decide.{dec_lt}
use native.Mathlib.Nat.{
  div-mul-le_self, lt-div-mul-add, le-div_iff_mul-le, div-eq_of_lt-le, div-le_of_le-mul, mul_comm,
}
use primmonero.Target.{
  fractional_unit, target_get_length, target_get_fractional_difficulty,
  target_set_fractional_difficulty, fractional_difficulty_max, fractional_difficulty_min,
}
use primmonero.Target.Fields.{
  IsU32, length_bits, join_bits, target_get_length_lem, target_get_fractional_lem,
}

-- The complement of a fraction, 1 to 2 ^ 24.
pub target_get_fractional_difficulty_lem :
    (bits : ℕ)
    → target_get_fractional_difficulty bits
      ≡ fractional_difficulty_max / (fractional_unit - bits % fractional_unit)
unfolding target_get_fractional_difficulty
target_get_fractional_difficulty_lem bits = rw (target_get_fractional_lem bits)

-- The complement that a difficulty stands for.
abbrev pub complement : ℕ → ℕ
complement d = fractional_difficulty_max / d

pub complement_bounds :
    (d : ℕ)
    → fractional_difficulty_min ≤ d
    → d ≤ fractional_difficulty_max
    → (1 ≤ complement d) × (complement d ≤ fractional_unit)
complement_bounds d low high = (
  (le-div_iff_mul-le {x = 1} {y = fractional_difficulty_max} (omega arith)).1 (omega arith),
  div-le_of_le-mul d (omega arith),
)

pub target_set_fractional_difficulty_lem :
    (d bits : ℕ)
    → IsU32 bits
    → fractional_difficulty_min ≤ d
    → d ≤ fractional_difficulty_max
    → target_set_fractional_difficulty d bits
      ≡ some (bits / fractional_unit * fractional_unit + (fractional_unit - complement d))
unfolding target_set_fractional_difficulty
target_set_fractional_difficulty_lem d bits h low high = ground (
  arith,
  complement_bounds d low high,
  length_bits bits h,
  join_bits (bits / fractional_unit) (fractional_unit - complement d),
)

-- Two whole divisions of 2 ^ 56 give a complement back, since it is far below the root of 2 ^ 56.
pub complement-complement : (c : ℕ) → 0 < c → c ≤ fractional_unit → complement (complement c) ≡ c
complement-complement c pos small =
    div-eq_of_lt-le d (rw mul_comm (div-mul-le_self fractional_difficulty_max c))
      (omega (arith, lt-div-mul-add {a = fractional_difficulty_max} pos, large))
  where
    d : ℕ
    d = complement c

    large : fractional_difficulty_min ≤ d
    large = (le-div_iff_mul-le pos).1 (omega arith)

pub target_get_fractional_difficulty_bounds :
    (bits : ℕ)
    → (fractional_difficulty_min ≤ target_get_fractional_difficulty bits)
      × (target_get_fractional_difficulty bits ≤ fractional_difficulty_max)
target_get_fractional_difficulty_bounds bits =
    rw target_get_fractional_difficulty_lem
      ((le-div_iff_mul-le pos).1 (omega arith), div-le_of_le-mul c (omega arith))
  where
    c : ℕ
    c = fractional_unit - bits % fractional_unit

    pos : 0 < c
    pos = omega arith

-- Setting the difficulty that a target has leaves the target as it is.
target_set_fractional_difficulty-get :
    (bits : ℕ)
    → IsU32 bits
    → target_set_fractional_difficulty (target_get_fractional_difficulty bits) bits ≡ some bits
target_set_fractional_difficulty-get bits h =
    target_set_fractional_difficulty_lem d bits h bounds.0 bounds.1 ∙ ap some same
  where
    d : ℕ
    d = target_get_fractional_difficulty bits

    bounds : (fractional_difficulty_min ≤ d) × (d ≤ fractional_difficulty_max)
    bounds = target_get_fractional_difficulty_bounds bits

    back : complement d ≡ fractional_unit - bits % fractional_unit
    back =
        ap complement (target_get_fractional_difficulty_lem bits)
        ∙ complement-complement (fractional_unit - bits % fractional_unit) (omega arith)
            (omega arith)

    same : bits / fractional_unit * fractional_unit + (fractional_unit - complement d) ≡ bits
    same = omega (arith, back)

-- A difficulty from 2 ^ 32 to 2 ^ 56 can be set on every target: the length stays, and the
-- difficulty that the result reads back is not below the one that was set. Any lower difficulty is
-- refused.
pub target_set_fractional_difficulty_fields :
    (d bits : ℕ)
    → IsU32 bits
    → d ≤ fractional_difficulty_max
    → ((fractional_difficulty_min ≤ d)
        × (b : ℕ) × (target_set_fractional_difficulty d bits ≡ some b)
        × (IsU32 b)
        × (target_get_length b ≡ target_get_length bits)
        × (d ≤ target_get_fractional_difficulty b))
      ⊎ ((d < fractional_difficulty_min) × (target_set_fractional_difficulty d bits ≡ none))
target_set_fractional_difficulty_fields d bits h high = elim (dec_lt d fractional_difficulty_min) [
  | yes below ↦ inr (below, unfold target_set_fractional_difficulty in ground arith)
  | no enough ↦ inl (within (omega arith))
]
  where
    b : ℕ
    b = bits / fractional_unit * fractional_unit + (fractional_unit - complement d)

    reads_back :
        1 ≤ complement d → complement d ≤ fractional_unit → d ≤ target_get_fractional_difficulty b
    reads_back lo hi =
        rw target_get_fractional_difficulty_lem ((le-div_iff_mul-le (omega arith)).1 fits)
      where
        same : fractional_unit - b % fractional_unit ≡ complement d
        same = omega arith

        fits : d * (fractional_unit - b % fractional_unit) ≤ fractional_difficulty_max
        fits = rw same (rw mul_comm (div-mul-le_self fractional_difficulty_max d))

    within :
        (low : fractional_difficulty_min ≤ d)
        → (fractional_difficulty_min ≤ d)
          × (b : ℕ) × (target_set_fractional_difficulty d bits ≡ some b)
          × (IsU32 b)
          × (target_get_length b ≡ target_get_length bits)
          × (d ≤ target_get_fractional_difficulty b)
    within low =
        let (lo, hi) = complement_bounds d low high in
        (
          low,
          b,
          target_set_fractional_difficulty_lem d bits h low high,
          omega arith,
          target_get_length_lem b (omega arith)
              ∙ (omega arith ∙ sym (target_get_length_lem bits h)),
          reads_back lo hi,
        )
