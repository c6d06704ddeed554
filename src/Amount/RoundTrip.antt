-- ===== src/Amount/RoundTrip.antt =====
-- The two directions of the amount compression undo one another.
use primmonero.Base.{
  ℕ, zero, suc, ◌+◌, ◌-◌, ◌*◌, ◌/◌, ◌%◌, ◌≤◌, ◌<◌, ◌≡◌, ◌≢◌, refl, sym, ◌∙◌, ltb, if◌then◌else◌,
  some, Bool-cases, inl, inr, ◌==◌, arith,
}
use native.Mathlib.Nat.{zero-add}
use primmonero.Amount.{
  u64_mod, strip_zeros, pack_amount, compress_amount, scale_up, unpack_amount, decompress_amount,
}

-- `n` with `e` zeros put behind it.
times_ten : ℕ → ℕ → ℕ
times_ten zero n = n
times_ten (suc e) n = times_ten e (n * 10)

times_ten-mul : (e n : ℕ) → times_ten e (n * 10) ≡ times_ten e n * 10
unfolding times_ten
times_ten-mul zero n = refl
times_ten-mul (suc e) n = times_ten-mul e (n * 10)

le-times_ten : (e n : ℕ) → n ≤ times_ten e n
unfolding times_ten
le-times_ten zero n = omega arith
le-times_ten (suc e) n = omega (arith, le-times_ten e (n * 10))

-- Digits that the loop leaves: no zero at the end, unless nine are gone.
abbrev IsStripped : ℕ → ℕ → Type 0
IsStripped m e = (0 < m) × (e ≤ 9) × (e < 9 → m % 10 ≢ 0)

strip_zeros-IsStripped :
    (fuel n e : ℕ)
    → 9 < fuel + e
    → e ≤ 9
    → 0 < n
    → IsStripped (strip_zeros fuel n e).0 (strip_zeros fuel n e).1
unfolding strip_zeros
strip_zeros-IsStripped zero n e enough h pos = absurd (omega arith)
strip_zeros-IsStripped (suc fuel) n e enough h pos =
    ground (arith, strip_zeros-IsStripped fuel (n / 10) (e + 1))

times_ten-suc : (e n : ℕ) → times_ten (e + 1) n ≡ times_ten e (n * 10)
unfolding times_ten
times_ten-suc e n = let next : e + 1 ≡ suc e = omega arith in rw next

strip_zeros-times_ten :
    (fuel n e : ℕ) → times_ten (strip_zeros fuel n e).1 (strip_zeros fuel n e).0 ≡ times_ten e n
unfolding strip_zeros
strip_zeros-times_ten zero n e = refl
strip_zeros-times_ten (suc fuel) n e =
    ground (arith, strip_zeros-times_ten fuel (n / 10) (e + 1), times_ten-suc e (n / 10))

-- The loop takes off exactly the zeros that were put on.
strip_zeros_exact :
    (k fuel m e : ℕ)
    → k < fuel
    → IsStripped m (e + k)
    → strip_zeros fuel (times_ten k m) e ≡ (m, e + k)
unfolding strip_zeros times_ten
strip_zeros_exact k zero m e enough s = absurd (omega arith)
strip_zeros_exact zero (suc fuel) m e enough s = ground arith
strip_zeros_exact (suc k) (suc fuel) m e enough s =
    ground (arith, times_ten-mul k m, strip_zeros_exact k fuel m (e + 1))

scale_up-times_ten : (e n : ℕ) → times_ten e n < u64_mod → scale_up n e ≡ times_ten e n
unfolding scale_up times_ten
scale_up-times_ten zero n h = refl
scale_up-times_ten (suc e) n h =
    ground (arith, scale_up-times_ten e (n * 10), le-times_ten e (n * 10))

-- The code of the digits `m` with `e` zeros, when nothing wraps.
code : ℕ → ℕ → ℕ
code m e = if ltb e 9 then 1 + (m / 10 * 9 + m % 10 - 1) * 10 + e else 1 + (m - 1) * 10 + 9

pack_amount-code : (m e : ℕ) → IsStripped m e → m ≤ u64_mod / 10 → pack_amount m e ≡ some (code m e)
unfolding pack_amount code
pack_amount-code m e s h = ground arith

code-parts :
    (m e : ℕ)
    → IsStripped m e
    → (0 < code m e)
      × ((code m e - 1) % 10 ≡ e)
      × (m < u64_mod → unpack_amount ((code m e - 1) / 10) e ≡ m)
unfolding code unpack_amount
code-parts m e s = ground arith

decompress_amount-code :
    (m e : ℕ)
    → IsStripped m e
    → times_ten e m < u64_mod
    → decompress_amount (code m e) ≡ times_ten e m
unfolding decompress_amount
decompress_amount-code m e s h =
    ground (arith, code-parts m e s, le-times_ten e m, scale_up-times_ten e m)

-- Every amount up to a tenth of 2 ^ 64, which MAX_MONEY is, compresses without a failed assertion,
-- and decompressing the code gives the amount back.
pub decompress_amount-compress_amount :
    (n : ℕ) → n ≤ u64_mod / 10 → (x : ℕ) × (compress_amount n ≡ some x) × (decompress_amount x ≡ n)
decompress_amount-compress_amount zero h =
    (0, unfold compress_amount in refl, unfold decompress_amount in refl)
decompress_amount-compress_amount (suc n) h = (
  code m e,
  unfold compress_amount in ground (arith, pack_amount-code m e stripped small),
  decompress_amount-code m e stripped (omega (arith, whole)) ∙ whole,
)
  where
    m : ℕ
    m = (strip_zeros 10 (suc n) 0).0

    e : ℕ
    e = (strip_zeros 10 (suc n) 0).1

    stripped : IsStripped m e
    stripped = strip_zeros-IsStripped 10 (suc n) 0 (omega arith) (omega arith) (omega arith)

    whole : times_ten e m ≡ suc n
    whole = strip_zeros-times_ten 10 (suc n) 0 ∙ (unfold times_ten in refl)

    small : m ≤ u64_mod / 10
    small = omega (arith, le-times_ten e m, whole)

-- Every positive code is that of stripped digits and their number of zeros.
digits_of : ℕ → ℕ → ℕ
digits_of y e = if ltb e 9 then y / 9 * 10 + (y % 9 + 1) else y + 1

digits_of-IsStripped : (y e : ℕ) → e < 10 → IsStripped (digits_of y e) e
unfolding digits_of
digits_of-IsStripped y e h = ground arith

code-digits_of : (y e : ℕ) → e < 10 → code (digits_of y e) e ≡ 1 + y * 10 + e
unfolding code digits_of
code-digits_of y e h = ground arith

digits_of_bound : (y e : ℕ) → digits_of y e ≤ 2 * y + 1
unfolding digits_of
digits_of_bound y e = ground arith

times_ten_mono : (e k n : ℕ) → e ≤ k → times_ten e n ≤ times_ten k n
unfolding times_ten
times_ten_mono zero k n h = le-times_ten k n
times_ten_mono (suc e) zero n h = absurd (omega arith)
times_ten_mono (suc e) (suc k) n h = times_ten_mono e k (n * 10) (omega arith)

times_ten_nine : (n : ℕ) → times_ten 9 n ≡ n * 1_000_000_000
unfolding times_ten
times_ten_nine n = omega arith

compress_amount-times_ten :
    (m e : ℕ)
    → IsStripped m e
    → m ≤ u64_mod / 10
    → compress_amount (times_ten e m) ≡ some (code m e)
unfolding compress_amount
compress_amount-times_ten m e s h = ground (
  arith,
  strip_zeros_exact e 10 m 0 (omega arith) (rw zero-add s),
  pack_amount-code m e s h,
  le-times_ten e m,
)

-- The codes up to 10 ^ 9 stand for different amounts: compressing what a code decompresses to
-- gives the code back.
pub compress_amount-decompress_amount :
    (x : ℕ) → x ≤ 1_000_000_000 → compress_amount (decompress_amount x) ≡ some x
compress_amount-decompress_amount zero h = unfold decompress_amount compress_amount in refl
compress_amount-decompress_amount (suc x) h = rw (sym same) (
    rw (decompress_amount-code m e stripped fits)
      (compress_amount-times_ten m e stripped (omega (arith, digits_of_bound (x / 10) e))))
  where
    e : ℕ
    e = x % 10

    m : ℕ
    m = digits_of (x / 10) e

    stripped : IsStripped m e
    stripped = digits_of-IsStripped (x / 10) e (omega arith)

    same : code m e ≡ suc x
    same = code-digits_of (x / 10) e (omega arith) ∙ omega arith

    fits : times_ten e m < u64_mod
    fits =
        omega (arith, times_ten_mono e 9 m stripped.1, times_ten_nine m, digits_of_bound (x / 10) e)

pack_amount-bound : (n e x : ℕ) → pack_amount n e ≡ some x → x < u64_mod
unfolding pack_amount
pack_amount-bound n e x h = ground arith

-- A code is an unsigned number of 64 bits.
pub compress_amount-bound : (n x : ℕ) → compress_amount n ≡ some x → x < u64_mod
unfolding compress_amount
compress_amount-bound n x h = elim (Bool-cases (n == 0)) [
  | inl nought ↦ ground (arith, rw (compress_amount, nought) at h)
  | inr positive ↦
      pack_amount-bound (strip_zeros 10 n 0).0 (strip_zeros 10 n 0).1 x
        (rw (compress_amount, positive) at h)
]
