-- ===== src/Coins/Format/Size.antt =====
-- The size of the mask (CCoins::CalcMaskSize, src/servilo/main.h): it ends with a byte that is not
-- zero, and the outputs behind it are null.
use primmonero.Base.{
  ℕ, zero, suc, ◌+◌, ◌-◌, ◌≤◌, ◌<◌, ◌≡◌, refl, sym, true, false, inl, inr, List, [], ◌∷◌, length,
  take, drop, Bool-cases, arith,
}
use mathlib.Core.Path.{subst}
use primmonero.Coins.{TxOut, is_null, all_null}
use primmonero.Coins.Format.{mask_size_loop, calc_mask_size}
use primmonero.Coins.Format.Mask.{nonzero, IsTight, behind}

pub length-drop : (n : ℕ) (os : List TxOut) → length (drop n os) ≡ length os - n
length-drop zero os = omega arith
length-drop (suc n) [] = omega arith
length-drop (suc n) (o ∷ os) = omega (arith, length-drop n os)

pub all_null-take-drop :
    (n : ℕ) (os : List TxOut)
    → all_null (take n os) ≡ true
    → all_null (drop n os) ≡ true
    → all_null os ≡ true
unfolding all_null
all_null-take-drop zero os t d = d
all_null-take-drop (suc n) [] t d = refl
all_null-take-drop (suc n) (o ∷ os) t d = elim (Bool-cases (is_null o)) [
  | inl empty ↦ rw (all_null, empty) (all_null-take-drop n os (rw (all_null, empty) at t) d)
  | inr full ↦ cc (rw (all_null, full) at t)
]

-- What the loop gives from byte `b` on.
abbrev IsMask : ℕ → List TxOut → ℕ → ℕ → ℕ × ℕ → Type 0
IsMask b os last count (last', count') =
    (size : ℕ) × IsTight size os
    × (all_null (behind size os) ≡ true)
    × ((size ≡ 0 → last' ≡ last) × (0 < size → last' ≡ b + size))
    × (count' ≡ count + nonzero size os)

after_null :
    (b : ℕ) (os : List TxOut) (last count : ℕ) (r : ℕ × ℕ)
    → all_null (take 8 os) ≡ true
    → IsMask (b + 1) (drop 8 os) last count r
    → IsMask b os last count r
unfolding nonzero IsTight behind
after_null b os last count r empty (zero, tight, null, (same, moved), counted) = (
  zero,
  tt,
  all_null-take-drop 8 os empty null,
  (λ _. same refl, λ h. absurd (omega (arith, h))),
  counted,
)
after_null b os last count r empty (suc size, tight, null, (same, moved), counted) = (
  suc (suc size),
  (rw empty (omega (arith, tight.0)), tight),
  null,
  (λ h. absurd (omega (arith, h)), λ _. omega (arith, moved (omega arith))),
  rw empty (omega (arith, counted)),
)

after_full :
    (b : ℕ) (os : List TxOut) (last count : ℕ) (r : ℕ × ℕ)
    → all_null (take 8 os) ≡ false
    → IsMask (b + 1) (drop 8 os) (b + 1) (count + 1) r
    → IsMask b os last count r
unfolding nonzero IsTight behind
after_full b os last count r full (zero, tight, null, (same, moved), counted) = (
  suc zero,
  (rw full (omega arith), tight),
  null,
  (λ h. absurd (omega (arith, h)), λ _. omega (arith, same refl)),
  rw full (omega (arith, counted)),
)
after_full b os last count r full (suc size, tight, null, (same, moved), counted) = (
  suc (suc size),
  (rw full (omega arith), tight),
  null,
  (λ h. absurd (omega (arith, h)), λ _. omega (arith, moved (omega arith))),
  rw full (omega (arith, counted)),
)

no_bytes : (b last count : ℕ) → IsMask b [] last count (last, count)
unfolding all_null nonzero IsTight behind
no_bytes b last count = (0, tt, refl, (λ _. refl, λ h. absurd (omega (arith, h))), omega arith)

mask_size_loop_lem :
    (fuel b : ℕ) (os : List TxOut) (last count : ℕ)
    → length os ≤ fuel
    → IsMask b os last count (mask_size_loop fuel b os last count)
unfolding mask_size_loop all_null nonzero IsTight behind
mask_size_loop_lem zero b [] last count h = no_bytes b last count
mask_size_loop_lem (suc fuel) b [] last count h = no_bytes b last count
mask_size_loop_lem zero b (o ∷ os) last count h = absurd (omega (arith, h))
mask_size_loop_lem (suc fuel) b (o ∷ os) last count h =
    elim (Bool-cases (all_null (take 8 (o ∷ os)))) [
      | inl empty ↦
          rw (mask_size_loop, empty)
            (after_null b (o ∷ os) last count _ empty (
              mask_size_loop_lem fuel (b + 1) (drop 8 (o ∷ os)) last count
                (omega (arith, h, length-drop 7 os))))
      | inr full ↦
          rw (mask_size_loop, full)
            (after_full b (o ∷ os) last count _ full (
              mask_size_loop_lem fuel (b + 1) (drop 8 (o ∷ os)) (b + 1) (count + 1)
                (omega (arith, h, length-drop 7 os))))
    ]

abbrev IsMaskOf : List TxOut → ℕ → ℕ → Type 0
IsMaskOf os size count =
    IsTight size os × (all_null (behind size os) ≡ true) × (count ≡ nonzero size os)

from_start : (os : List TxOut) (r : ℕ × ℕ) → IsMask 0 os 0 0 r → IsMaskOf os r.0 r.1
from_start os r (zero, tight, null, (same, moved), counted) =
    subst (λ n. IsMaskOf os n r.1) (sym (same refl)) (tight, null, omega (arith, counted))
from_start os r (suc size, tight, null, (same, moved), counted) =
    let e : r.0 ≡ suc size = omega (arith, moved (omega arith)) in
    subst (λ n. IsMaskOf os n r.1) (sym e) (tight, null, omega (arith, counted))

pub calc_mask_size_lem :
    (vout : List TxOut)
    → IsTight (calc_mask_size vout).0 (drop 2 vout)
      × (all_null (behind (calc_mask_size vout).0 (drop 2 vout)) ≡ true)
      × ((calc_mask_size vout).1 ≡ nonzero (calc_mask_size vout).0 (drop 2 vout))
unfolding calc_mask_size
calc_mask_size_lem vout =
    from_start (drop 2 vout) _
      (mask_size_loop_lem (length vout) 0 (drop 2 vout) 0 0 (omega (arith, length-drop 2 vout)))

-- There are at most as many bytes that are not zero as outputs.
pub nonzero-bound : (size : ℕ) (os : List TxOut) → nonzero size os ≤ length os
unfolding nonzero all_null
nonzero-bound zero os = omega arith
nonzero-bound (suc size) [] = omega (arith, nonzero-bound size [])
nonzero-bound (suc size) (o ∷ os) =
    let rest = nonzero-bound size (drop 7 os) in
    let size_rest = length-drop 7 os in
    elim (Bool-cases (all_null (take 8 (o ∷ os)))) [
      | inl empty ↦ rw (nonzero, empty) (omega (arith, rest, size_rest))
      | inr full ↦ rw (nonzero, full) (omega (arith, rest, size_rest))
    ]
