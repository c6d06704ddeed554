-- ===== src/Target/Subsidy.antt =====
-- TargetGetMint: the value minted at a target.
use primmonero.Base.{ℕ, ◌*◌, ◌/◌, ◌%◌, ◌≤◌, ◌<◌, ◌≡◌, arith, ◌⊎◌, inl, inr}
use native.Mathlib.Decide.{dec_lt}
use native.Mathlib.Nat.{div-mul-le_self, le-div_iff_mul-le, div-le_of_le-mul}
use primmonero.Target.{
  fractional_unit, cent, mint_limit, target_get_length, minted, refused, target_get_mint,
}
use primmonero.Target.Fields.{IsU32, target_get_length_lem}

-- One round `(bnMint << nFractionalBits) / nBits`.
abbrev scaled : ℕ → ℕ → ℕ
scaled bits v = v * fractional_unit / bits

scaled_mono : (a b v w : ℕ) → 0 < a → a ≤ b → v ≤ w → scaled b v ≤ scaled a w
scaled_mono a b v w pos_a le h =
    (le-div_iff_mul-le pos_a).1 (bound (scaled b v) (div-mul-le_self (v * fractional_unit) b))
  where
    bound : (t : ℕ) → t * b ≤ v * fractional_unit → t * a ≤ w * fractional_unit
    bound t g = grind arith

scaled-le : (bits v : ℕ) → fractional_unit ≤ bits → scaled bits v ≤ v
scaled-le bits v h = div-le_of_le-mul bits (grind arith)

abbrev mint_value : ℕ → ℕ
mint_value bits = scaled bits (scaled bits mint_limit) / cent * cent

mint_value-le : (bits : ℕ) → fractional_unit ≤ bits → mint_value bits ≤ mint_limit
mint_value-le bits h =
    omega (arith, scaled-le bits (scaled bits mint_limit) h, scaled-le bits mint_limit h)

target_get_mint-minted :
    (min_length bits : ℕ)
    → IsU32 bits
    → 0 < min_length
    → min_length ≤ bits / fractional_unit
    → target_get_mint min_length bits ≡ minted (mint_value bits)
unfolding target_get_mint
target_get_mint-minted min_length bits h pos_min long =
    ground (arith, target_get_length_lem bits h, mint_value-le bits)

-- A target of at least the minimal length, which is positive, mints a whole number of cents up to
-- 999 coins: the check against the limit never fails. A shorter target is refused.
pub target_get_mint_value :
    (min_length bits : ℕ)
    → IsU32 bits
    → 0 < min_length
    → ((min_length ≤ target_get_length bits)
        × (v : ℕ) × (target_get_mint min_length bits ≡ minted v)
        × (v % cent ≡ 0)
        × (v ≤ mint_limit))
      ⊎ ((target_get_length bits < min_length) × (target_get_mint min_length bits ≡ refused))
target_get_mint_value min_length bits h pos_min =
    elim (dec_lt (target_get_length bits) min_length) [
      | yes below ↦ inr (below, unfold target_get_mint in ground arith)
      | no enough ↦ inl (
        omega arith,
        mint_value bits,
        target_get_mint-minted min_length bits h pos_min (long (omega arith)),
        omega arith,
        mint_value-le bits (omega (arith, long (omega arith))),
      )
    ]
  where
    long : min_length ≤ target_get_length bits → min_length ≤ bits / fractional_unit
    long g = omega (arith, target_get_length_lem bits h)

-- A harder target never mints more.
pub target_get_mint_antitone :
    (min_length easy hard : ℕ)
    → IsU32 hard
    → 0 < min_length
    → min_length ≤ target_get_length easy
    → easy ≤ hard
    → (v w : ℕ) × (target_get_mint min_length easy ≡ minted v)
      × (target_get_mint min_length hard ≡ minted w)
      × (w ≤ v)
target_get_mint_antitone min_length easy hard h pos_min long le = (
  mint_value easy,
  mint_value hard,
  target_get_mint-minted min_length easy (omega arith) pos_min reach,
  target_get_mint-minted min_length hard h pos_min (omega (arith, reach)),
  omega (
    arith,
    scaled_mono easy hard _ _ pos_easy le
        (scaled_mono easy hard mint_limit mint_limit pos_easy le (omega arith)),
  ),
)
  where
    reach : min_length ≤ easy / fractional_unit
    reach = omega (arith, target_get_length_lem easy (omega arith))

    pos_easy : 0 < easy
    pos_easy = omega (arith, reach)
