-- ===== src/Coins/Format/Mask.antt =====
-- The mask of the outputs that are left, as CCoins writes and reads it (src/servilo/main.h).
use primmonero.Base.{
  ℕ, zero, suc, ◌+◌, ◌*◌, ◌/◌, ◌%◌, ◌^◌, bit_and, bit_or, ◌<◌, ◌≡◌, refl, ap, ◌∙◌, Bool, true,
  false, not, inl, inr, List, [], ◌∷◌, ◌++◌, ◌==◌, if◌then◌else◌, take, drop, Bool-cases, arith,
}
use native.Mathlib.Nat.{pow-suc}
use primmonero.Base.Bits.{bit_and-one, bit_and_digit, bit_or-disjoint_low}
use primmonero.Serialize.{ok}
use primmonero.Coins.{TxOut, is_null, all_null}
use primmonero.Coins.Format.{Bytes, avail_loop, write_mask, avail_bits, read_mask}

-- The number whose binary digits say which outputs are left, the first lowest.
mask_value : List TxOut → ℕ
mask_value [] = 0
mask_value (o ∷ os) = (if is_null o then 0 else 1) + 2 * mask_value os

power : (i : ℕ) → 2 ^ (i + 1) ≡ 2 * 2 ^ i
power i = let step : i + 1 ≡ suc i = omega arith in rw step (omega (arith, pow-suc 2 i))

shift_zero : (i avail v : ℕ) → avail + 2 ^ (i + 1) * v ≡ avail + 2 ^ i * (0 + 2 * v)
shift_zero i avail v = rw (power i) (omega arith)

shift_one : (i avail v : ℕ) → (2 ^ i + avail) + 2 ^ (i + 1) * v ≡ avail + 2 ^ i * (1 + 2 * v)
shift_one i avail v = rw (power i) (omega arith)

avail_loop_lem :
    (os : List TxOut) (i avail : ℕ)
    → avail < 2 ^ i
    → avail_loop i os avail ≡ avail + 2 ^ i * mask_value os
unfolding avail_loop mask_value
avail_loop_lem [] i avail h = omega arith
avail_loop_lem (o ∷ os) i avail h = elim (Bool-cases (is_null o)) [
  | inl empty ↦
      rw (avail_loop, empty, mask_value)
        (avail_loop_lem os (i + 1) avail (omega (arith, h, power i))
          ∙ shift_zero i avail (mask_value os))
  | inr full ↦
      let one : 1 * 2 ^ i ≡ 2 ^ i = omega arith in
      let set : bit_or avail (2 ^ i) ≡ 2 ^ i + avail =
        rw one at (bit_or-disjoint_low i 1 avail h) in
      rw (avail_loop, full, set, mask_value)
        (avail_loop_lem os (i + 1) (2 ^ i + avail) (omega (arith, h, power i))
          ∙ shift_one i avail (mask_value os))
]

bit_and-power : (v p : ℕ) → bit_and v (2 ^ (p + 1)) ≡ bit_and (v / 2) (2 ^ p) * 2
bit_and-power v p =
    let half : 2 ^ (p + 1) / 2 ≡ 2 ^ p = omega (arith, power p) in
    let even : 2 ^ (p + 1) % 2 ≡ 0 = omega (arith, power p) in
    bit_and_digit v (2 ^ (p + 1)) ∙ (rw (half, even) (omega arith))

avail_bits-half : (count p v : ℕ) → avail_bits count (p + 1) v ≡ avail_bits count p (v / 2)
unfolding avail_bits
avail_bits-half zero p v = refl
avail_bits-half (suc count) p v =
    let head : (bit_and v (2 ^ (p + 1)) == 0) ≡ (bit_and (v / 2) (2 ^ p) == 0) =
      ground (arith, bit_and-power v p) in
    rw (avail_bits, head, avail_bits-half count (p + 1) v) refl

-- The availability of the first outputs, with nothing available past the end.
unfoldable pub bits_of : ℕ → List TxOut → List Bool
bits_of zero os = []
bits_of (suc n) [] = false ∷ bits_of n []
bits_of (suc n) (o ∷ os) = not (is_null o) ∷ bits_of n os

avail_bits-empty : (n : ℕ) → avail_bits n 0 0 ≡ bits_of n []
unfolding avail_bits bits_of
avail_bits-empty zero = refl
avail_bits-empty (suc n) = ap (λ bs. false ∷ bs) (avail_bits-half n 0 0 ∙ avail_bits-empty n)

avail_bits-mask_value :
    (n : ℕ) (os : List TxOut) → avail_bits n 0 (mask_value (take n os)) ≡ bits_of n os
unfolding avail_bits mask_value bits_of
avail_bits-mask_value zero os = refl
avail_bits-mask_value (suc n) [] =
    ap (λ bs. false ∷ bs) (avail_bits-half n 0 0 ∙ avail_bits-empty n)
avail_bits-mask_value (suc n) (o ∷ os) =
    let v = (if is_null o then 0 else 1) + 2 * mask_value (take n os) in
    let head : not (bit_and v 1 == 0) ≡ not (is_null o) = ground (arith, bit_and-one v) in
    let tail : v / 2 ≡ mask_value (take n os) = ground arith in
    rw (head, avail_bits-half n 0 v, tail, avail_bits-mask_value n os) refl

mask_value-zero : (os : List TxOut) → (mask_value os == 0) ≡ all_null os
unfolding mask_value all_null
mask_value-zero [] = refl
mask_value-zero (o ∷ os) = ground (arith, mask_value-zero os)

-- The byte of eight outputs.
byte_zero : (os : List TxOut) → (avail_loop 0 (take 8 os) 0 == 0) ≡ all_null (take 8 os)
byte_zero os =
    let value : avail_loop 0 (take 8 os) 0 ≡ mask_value (take 8 os) =
      omega (arith, avail_loop_lem (take 8 os) 0 0 (omega arith)) in
    rw value (mask_value-zero (take 8 os))

byte_bits : (os : List TxOut) → avail_bits 8 0 (avail_loop 0 (take 8 os) 0) ≡ bits_of 8 os
byte_bits os =
    let value : avail_loop 0 (take 8 os) 0 ≡ mask_value (take 8 os) =
      omega (arith, avail_loop_lem (take 8 os) 0 0 (omega arith)) in
    rw value (avail_bits-mask_value 8 os)

-- The first bytes of the mask: the number of those that are not zero, whether the last one is not
-- zero (as long as there is one), their bits, and the outputs behind them.
unfoldable pub nonzero : ℕ → List TxOut → ℕ
nonzero zero os = 0
nonzero (suc size) os = (if all_null (take 8 os) then 0 else 1) + nonzero size (drop 8 os)

unfoldable pub IsTight : ℕ → List TxOut → Type 0
IsTight zero os = Unit
IsTight (suc size) os = (0 < nonzero (suc size) os) × IsTight size (drop 8 os)

unfoldable pub blocks : ℕ → List TxOut → List Bool
blocks zero os = []
blocks (suc size) os = bits_of 8 os ++ blocks size (drop 8 os)

unfoldable pub behind : ℕ → List TxOut → List TxOut
behind zero os = os
behind (suc size) os = behind size (drop 8 os)

read_zero :
    (code avail : ℕ) (bytes rest : Bytes) (bits : List Bool)
    → (avail == 0) ≡ true
    → read_mask (suc code) bytes ≡ ok (bits, rest)
    → read_mask (suc code) (avail ∷ bytes) ≡ ok (avail_bits 8 0 avail ++ bits, rest)
unfolding read_mask
read_zero code avail bytes rest bits zero_byte back = rw (read_mask, zero_byte) (rw back refl)

read_nonzero :
    (code avail : ℕ) (bytes rest : Bytes) (bits : List Bool)
    → (avail == 0) ≡ false
    → read_mask code bytes ≡ ok (bits, rest)
    → read_mask (suc code) (avail ∷ bytes) ≡ ok (avail_bits 8 0 avail ++ bits, rest)
unfolding read_mask
read_nonzero code avail bytes rest bits full_byte back = rw (read_mask, full_byte) (rw back refl)

positive_suc : (n : ℕ) → 0 < n → (m : ℕ) × (n ≡ suc m)
positive_suc zero h = absurd (omega (arith, h))
positive_suc (suc m) h = (m, refl)

-- A mask whose last byte is not zero is read back.
pub read_mask-write_mask :
    (size : ℕ) (os : List TxOut) (rest : Bytes)
    → IsTight size os
    → read_mask (nonzero size os) (write_mask size os ++ rest) ≡ ok (blocks size os, rest)
unfolding write_mask nonzero blocks IsTight read_mask
read_mask-write_mask zero os rest tight = refl
read_mask-write_mask (suc size) os rest (positive, tight) =
    elim (Bool-cases (all_null (take 8 os))) [
      | inl empty ↦
          let left : 0 + nonzero size (drop 8 os) ≡ nonzero size (drop 8 os) = omega arith in
          let (code, more) =
            positive_suc (nonzero size (drop 8 os)) (rw (nonzero, empty, left) at positive) in
          let back = read_mask-write_mask size (drop 8 os) rest tight in
          rw (empty, left, more)
            (read_zero code (avail_loop 0 (take 8 os) 0) _ rest (blocks size (drop 8 os))
                (byte_zero os ∙ empty) (rw more at back)
              ∙ ap (λ bits. ok (bits ++ blocks size (drop 8 os), rest)) (byte_bits os))
      | inr full ↦
          let next : 1 + nonzero size (drop 8 os) ≡ suc (nonzero size (drop 8 os)) = omega arith in
          rw (full, next)
            (read_nonzero (nonzero size (drop 8 os)) (avail_loop 0 (take 8 os) 0) _ rest
                (blocks size (drop 8 os)) (byte_zero os ∙ full)
                (read_mask-write_mask size (drop 8 os) rest tight)
              ∙ ap (λ bits. ok (bits ++ blocks size (drop 8 os), rest)) (byte_bits os))
    ]
