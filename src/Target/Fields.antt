-- ===== src/Target/Fields.antt =====
-- The two fields of the target as arithmetic, and the operations that write them.
use primmonero.Base.{
  ℕ, ◌+◌, ◌-◌, ◌*◌, ◌/◌, ◌%◌, ◌≤◌, ◌<◌, ◌≡◌, refl, sym, ap, ◌∙◌, bit_and, bit_or, none, some, arith,
  ◌⊎◌, inl, inr,
}
use primmonero.Base.Bits.{
  bit_and-ones, bit_and-high, bit_and-low, bit_or-disjoint, bit_or-disjoint_low,
}
use native.Mathlib.Decide.{dec_lt}
use primmonero.Target.{
  fractional_unit, u32_mod, target_fractional_mask, target_length_mask, target_get_length,
  target_set_length, target_increment_length, target_decrement_length, target_get_fractional,
  target_from_int,
}

abbrev pub IsU32 : ℕ → Type 0
IsU32 bits = bits < u32_mod

-- The bits with the length `len` and the fraction `f`.
split_fields : (bits : ℕ) → bits ≡ bits / fractional_unit * fractional_unit + bits % fractional_unit
split_fields bits = omega arith

pub fraction_bits : (bits : ℕ) → bit_and bits target_fractional_mask ≡ bits % fractional_unit
fraction_bits bits =
    ap (λ (b : ℕ). bit_and b target_fractional_mask) (split_fields bits)
    ∙ bit_and-low 24 (bits / fractional_unit) (bits % fractional_unit) (omega arith)

pub length_bits :
    (bits : ℕ)
    → IsU32 bits
    → bit_and bits target_length_mask ≡ bits / fractional_unit * fractional_unit
length_bits bits h =
    ap (λ (b : ℕ). bit_and b target_length_mask) (split_fields bits)
    ∙ bit_and-high 24 (bits / fractional_unit) 255 (bits % fractional_unit) (omega arith)
        (bit_and-ones 8 (bits / fractional_unit) (omega arith))

pub join_bits :
    (len f : ℕ) → f < fractional_unit → bit_or (len * fractional_unit) f ≡ len * fractional_unit + f
join_bits len f h = bit_or-disjoint 24 len f h

pub target_get_length_lem :
    (bits : ℕ) → IsU32 bits → target_get_length bits ≡ bits / fractional_unit
unfolding target_get_length
target_get_length_lem bits h = omega (arith, length_bits bits h)

pub target_get_fractional_lem : (bits : ℕ) → target_get_fractional bits ≡ bits % fractional_unit
unfolding target_get_fractional
target_get_fractional_lem bits = fraction_bits bits

pub target_set_length_lem :
    (len bits : ℕ)
    → IsU32 bits
    → len < 255
    → target_set_length len bits ≡ some (len * fractional_unit + bits % fractional_unit)
unfolding target_set_length
target_set_length_lem len bits h small =
    ground (arith, fraction_bits bits, bit_or-disjoint_low 24 len (bits % fractional_unit))

-- Setting a length below 255 succeeds, and then reads back that length and the old fraction; a
-- longer one is refused.
pub target_set_length_fields :
    (len bits : ℕ)
    → IsU32 bits
    → ((len < 255)
        × (b : ℕ) × (target_set_length len bits ≡ some b)
        × (IsU32 b)
        × (target_get_length b ≡ len)
        × (target_get_fractional b ≡ target_get_fractional bits))
      ⊎ ((255 ≤ len) × (target_set_length len bits ≡ none))
target_set_length_fields len bits h = elim (dec_lt len 255) [
  | yes small ↦
      let b : ℕ = len * fractional_unit + bits % fractional_unit in
      inl (
        small,
        b,
        target_set_length_lem len bits h small,
        omega arith,
        target_get_length_lem b (omega arith) ∙ omega arith,
        target_get_fractional_lem b ∙ (omega arith ∙ sym (target_get_fractional_lem bits)),
      )
  | no large ↦ inr (omega arith, unfold target_set_length in ground arith)
]

-- The length goes up by one, wrapping from 255 to 0, and the fraction stays.
pub target_increment_length_lem :
    (bits : ℕ) → target_increment_length bits ≡ (bits + fractional_unit) % u32_mod
unfolding target_increment_length
target_increment_length_lem bits = refl

pub target_decrement_length_lem :
    (min_length bits : ℕ)
    → IsU32 bits
    → min_length < bits / fractional_unit
    → target_decrement_length min_length bits ≡ bits - fractional_unit
unfolding target_decrement_length
target_decrement_length_lem min_length bits h deep = ground (arith, target_get_length_lem bits h)

pub target_from_int_lem : (len : ℕ) → target_from_int len ≡ len * fractional_unit % u32_mod
unfolding target_from_int
target_from_int_lem len = refl
