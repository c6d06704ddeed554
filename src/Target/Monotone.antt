-- ===== src/Target/Monotone.antt =====
-- How the next target depends on the spacing of the last two blocks.
use primmonero.Base.{
  ℕ, zero, suc, ◌+◌, ◌-◌, ◌*◌, ◌/◌, ◌%◌, ◌^◌, ◌≤◌, ◌<◌, ◌≡◌, refl, sym, ap, ◌∙◌, arith, ◌⊎◌,
}
use native.Mathlib.Nat.{div-mul-le_self, le-div_iff_mul-le, mul-div_left}
use primmonero.Base.Int.{ℤ, pos, ◌+ℤ◌, ◌-ℤ◌, ◌*ℤ◌, int64, int64-within}
use primmonero.Target.{
  fractional_unit, target_get_length, target_get_fractional, target_get_fractional_difficulty,
  fractional_difficulty_max, fractional_difficulty_min, fractional_difficulty_threshold,
  difficulty_factor, difficulty_divisor, clamp_difficulty, next, target_get_next,
}
use primmonero.Target.Fields.{IsU32, target_get_length_lem, target_get_fractional_lem}
use primmonero.Target.Difficulty.{
  complement, complement-complement, target_get_fractional_difficulty_lem,
  target_get_fractional_difficulty_bounds,
}
use primmonero.Target.Retarget.{stepped, moved_difficulty, target_get_next-stepped}

-- Whole division falls as its divisor grows.
div_antitone : (a p q : ℕ) → 0 < p → p ≤ q → a / q ≤ a / p
div_antitone a p q pos_p le =
    (le-div_iff_mul-le pos_p).1 (bound (a / q) p q le (div-mul-le_self a q))
  where
    bound : (t p q : ℕ) → p ≤ q → t * q ≤ a → t * p ≤ a
    bound t p q le h = grind arith

pos-mul : (m n : ℕ) → pos m *ℤ pos n ≡ pos (m * n)
unfolding ◌*ℤ◌
pos-mul m n = ground arith

pos-add : (m n : ℕ) → pos m +ℤ pos n ≡ pos (m + n)
unfolding ◌+ℤ◌
pos-add m n = ground arith

difficulty_factor-pos :
    (interval spacing : ℕ)
    → (interval + 1) * spacing < 2 ^ 63
    → difficulty_factor (pos interval) (pos spacing) ≡ pos ((interval + 1) * spacing)
unfolding difficulty_factor
difficulty_factor-pos interval spacing fits =
    rw (pos-add interval 1, pos-mul (interval + 1) spacing)
      (int64-within ((interval + 1) * spacing) fits)

-- The moved difficulty over a positive divisor, as a whole division.
moved_difficulty-pos :
    (bits interval spacing n : ℕ) (actual : ℤ)
    → (interval + 1) * spacing < 2 ^ 63
    → difficulty_divisor (pos interval) (pos spacing) actual ≡ pos n
    → moved_difficulty bits (pos interval) (pos spacing) actual
      ≡ clamp_difficulty
          (pos (target_get_fractional_difficulty bits * ((interval + 1) * spacing) / n))
moved_difficulty-pos bits interval spacing n actual fits e = rw (
  e,
  difficulty_factor-pos interval spacing fits,
  pos-mul (target_get_fractional_difficulty bits),
)

-- The divisor before it is an int64.
abbrev pub exact_divisor : ℕ → ℕ → ℤ → ℤ
exact_divisor interval spacing actual = (pos interval -ℤ pos 1) *ℤ pos spacing +ℤ actual +ℤ actual

difficulty_divisor-exact :
    (interval spacing n : ℕ) (actual : ℤ)
    → exact_divisor interval spacing actual ≡ pos n
    → n < 2 ^ 63
    → difficulty_divisor (pos interval) (pos spacing) actual ≡ pos n
unfolding difficulty_divisor
difficulty_divisor-exact interval spacing n actual e fits = ap int64 e ∙ int64-within n fits

-- At the target spacing the divisor is the factor.
exact_divisor_steady :
    (interval spacing : ℕ)
    → exact_divisor interval spacing (pos spacing) ≡ pos ((interval + 1) * spacing)
exact_divisor_steady zero zero = unfold ◌+ℤ◌ ◌-ℤ◌ ◌*ℤ◌ in refl
exact_divisor_steady zero (suc s) = unfold ◌+ℤ◌ ◌-ℤ◌ ◌*ℤ◌ in ground arith
exact_divisor_steady (suc k) s =
    rw (pred_of_suc k, pos-mul k s, pos-add (k * s) s, pos-add (k * s + s) s) (ap pos (omega arith))
  where
    pred_of_suc : (n : ℕ) → pos (suc n) -ℤ pos 1 ≡ pos n
    pred_of_suc n = unfold ◌-ℤ◌ in ground arith

clamp_difficulty-within :
    (n : ℕ)
    → fractional_difficulty_min ≤ n
    → n ≤ fractional_difficulty_max
    → clamp_difficulty (pos n) ≡ n
unfolding clamp_difficulty
clamp_difficulty-within n low high = ground arith

-- The difficulty of a fraction that is neither zero nor in the top 2 ^ 16 values.
difficulty_of_fraction :
    (f : ℕ)
    → f ≤ fractional_unit - 2 ^ 16
    → (complement (fractional_unit - f) ≤ fractional_difficulty_threshold)
      × (0 < f → fractional_difficulty_min < complement (fractional_unit - f))
difficulty_of_fraction f top = (
  div_antitone fractional_difficulty_max (2 ^ 16) (fractional_unit - f) (omega arith) (omega arith),
  λ some_fraction. (le-div_iff_mul-le (omega arith)).1 (omega arith),
)

stepped_steady :
    (min_length bits : ℕ)
    → IsU32 bits
    → bits % fractional_unit ≤ fractional_unit - 2 ^ 16
    → (0 < bits % fractional_unit) ⊎ (bits / fractional_unit ≤ min_length)
    → stepped min_length (complement (fractional_unit - bits % fractional_unit)) bits ≡ bits
unfolding stepped
stepped_steady min_length bits h top inner = ground (
  arith,
  difficulty_of_fraction (bits % fractional_unit) top,
  complement-complement (fractional_unit - bits % fractional_unit),
)

-- As long as the factor fits an int64, blocks that come at the target spacing leave the target as it
-- is, unless its fraction is among the top 2 ^ 16 values or is zero above the minimal length.
pub target_get_next_steady :
    (min_length bits interval spacing : ℕ)
    → IsU32 bits
    → target_get_length bits < 255
    → 0 < spacing
    → (interval + 1) * spacing < 2 ^ 63
    → target_get_fractional bits ≤ fractional_unit - 2 ^ 16
    → (0 < target_get_fractional bits) ⊎ (target_get_length bits ≤ min_length)
    → target_get_next min_length bits (pos interval) (pos spacing) (pos spacing) ≡ next bits
target_get_next_steady min_length bits interval spacing h short ticking fits top inner =
    target_get_next-stepped min_length bits (pos interval) (pos spacing) (pos spacing) h
      (omega (arith, len)) (λ z. absurd_zero (sym divisor ∙ z))
    ∙ ap next (
        ap (λ (t : ℕ). stepped min_length t bits) same
        ∙ stepped_steady min_length bits h (rw frac at top) (rw (len, frac) at inner))
  where
    factor_pos : 0 < (interval + 1) * spacing
    factor_pos = omega arith

    absurd_zero : pos ((interval + 1) * spacing) ≡ pos 0 → ⊥
    absurd_zero z = absurd (ground (arith, z, factor_pos))

    divisor :
        difficulty_divisor (pos interval) (pos spacing) (pos spacing)
        ≡ pos ((interval + 1) * spacing)
    divisor =
        difficulty_divisor-exact interval spacing ((interval + 1) * spacing) (pos spacing)
          (exact_divisor_steady interval spacing) fits

    len : target_get_length bits ≡ bits / fractional_unit
    len = target_get_length_lem bits h

    frac : target_get_fractional bits ≡ bits % fractional_unit
    frac = target_get_fractional_lem bits

    same :
        moved_difficulty bits (pos interval) (pos spacing) (pos spacing)
        ≡ complement (fractional_unit - bits % fractional_unit)
    same =
        moved_difficulty-pos bits interval spacing ((interval + 1) * spacing) (pos spacing) fits
          divisor
        ∙ ap (λ (t : ℕ). clamp_difficulty (pos t))
            (mul-div_left (target_get_fractional_difficulty bits) factor_pos)
        ∙ clamp_difficulty-within (target_get_fractional_difficulty bits)
            (target_get_fractional_difficulty_bounds bits).0
            (target_get_fractional_difficulty_bounds bits).1
        ∙ target_get_fractional_difficulty_lem bits
