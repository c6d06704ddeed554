-- ===== src/Serialize/VarInt.antt =====
-- Writing and reading of variable-length integers.
pub mod Unique
use primmonero.Base.{
  ℕ, zero, suc, ◌+◌, ◌-◌, ◌*◌, ◌/◌, ◌%◌, ◌^◌, ◌≤◌, ◌<◌, ◌≡◌, refl, ap, sym, ◌∙◌, some, List, [],
  ◌∷◌, ◌++◌, append_assoc, bit_and, bit_or, leb, if◌then◌else◌, length, length-append, All, arith,
}
use primmonero.Base.Bits.{
  bit_and-low, bit_and-high, bit_and-ones, bit_or-disjoint_low, bit_or-disjoint, bit_or-zero,
}
use native.Mathlib.Nat.{pow-suc, pow-le-pow_right, one-le-pow, le_trans, mod-eq_of_lt}
use native.Mathlib.Decide.{dec_lt}
use native.Mathlib.Numerals.{add-one, towards_suc}
use primmonero.Serialize.{
  ok, fill_tmp, write_var_int, read_var_int_loop, read_var_int, size_of_var_int_loop,
  get_size_of_var_int,
}

abbrev pub IsByte : ℕ → Type 0
IsByte b = b < 256

low_seven : (n : ℕ) → bit_and n 0x7f ≡ n % 128
low_seven n = ap (λ (t : ℕ). bit_and t 0x7f) split ∙ bit_and-low 7 (n / 128) (n % 128) (omega arith)
  where
    split : n ≡ n / 128 * 2 ^ 7 + n % 128
    split = omega arith

set_top : (l : ℕ) → l < 128 → bit_or l 0x80 ≡ l + 128
set_top l h = bit_or-disjoint_low 7 1 l h ∙ omega arith

top_bit : (b : ℕ) → b < 256 → bit_and b 0x80 ≡ b / 128 * 128
top_bit b h =
    ap (λ (t : ℕ). bit_and t 0x80) split
    ∙ bit_and-high 7 (b / 128) 1 (b % 128) (omega arith) (bit_and-ones 1 (b / 128) (omega arith))
  where
    split : b ≡ b / 128 * 2 ^ 7 + b % 128
    split = omega arith

-- The bytes of a number below 128 ^ (k + 1), each marked as followed by another.
pub digits : ℕ → ℕ → List ℕ
digits zero n = (n + 128) ∷ []
digits (suc k) n =
    let more = digits k (n / 128 - 1) in
    if leb n 127 then (n + 128) ∷ [] else more ++ (n % 128 + 128) ∷ []

fill_tmp-digits :
    (k n len : ℕ) (tmp : List ℕ)
    → n < 128 ^ suc k
    → fill_tmp (suc k) n (suc len) tmp ≡ some (digits k n ++ tmp)
unfolding fill_tmp digits
fill_tmp-digits zero n len tmp h = ground (arith, low_seven n, set_top (n % 128))
fill_tmp-digits (suc k) n len tmp h = ground (
  arith,
  low_seven n,
  set_top (n % 128),
  pow-suc 128 (suc k),
  add-one (suc len),
  fill_tmp-digits k (n / 128 - 1) (suc len) ((n % 128 + 128) ∷ tmp),
  append_assoc (digits k (n / 128 - 1)) ((n % 128 + 128) ∷ []) tmp,
)

-- The whole encoding: marked digits, and a last byte with no mark.
pub encoding : ℕ → ℕ → List ℕ
encoding k n = if leb n 127 then n ∷ [] else digits k (n / 128 - 1) ++ n % 128 ∷ []

pub fill_tmp-encoding :
    (k n : ℕ) → n < 128 ^ suc (suc k) → fill_tmp (suc (suc k)) n 0 [] ≡ some (encoding k n)
unfolding fill_tmp encoding
fill_tmp-encoding k n h = ground (
  arith,
  low_seven n,
  bit_or-zero (n % 128),
  pow-suc 128 (suc k),
  fill_tmp-digits k (n / 128 - 1) 0 (n % 128 ∷ []),
)

-- One round of the reader, on a marked byte and on a last one.
join_digit :
    (width n d : ℕ)
    → d < 128
    → n * 128 + d < 2 ^ width
    → bit_or (n * 2 ^ 7 % 2 ^ width) d ≡ n * 128 + d
join_digit width n d small fits =
    let stays : n * 2 ^ 7 % 2 ^ width ≡ n * 2 ^ 7 = mod-eq_of_lt (omega arith) in
    rw stays (bit_or-disjoint 7 n d small)

read_marked :
    (width b n : ℕ) (bytes : List ℕ)
    → 128 ≤ b
    → b < 256
    → n * 128 + b % 128 + 1 < 2 ^ width
    → read_var_int_loop width (b ∷ bytes) n ≡ read_var_int_loop width bytes (n * 128 + b % 128 + 1)
unfolding read_var_int_loop
read_marked width b n bytes marked byte fits =
    let stays : (n * 128 + b % 128 + 1) % 2 ^ width ≡ n * 128 + b % 128 + 1 = mod-eq_of_lt fits in
    ground (arith, low_seven b, top_bit b, join_digit width n (b % 128), stays)

read_last :
    (width b n : ℕ) (bytes : List ℕ)
    → b < 128
    → n * 128 + b < 2 ^ width
    → read_var_int_loop width (b ∷ bytes) n ≡ ok (n * 128 + b, bytes)
unfolding read_var_int_loop
read_last width b n bytes last fits =
    ground (arith, low_seven b, top_bit b, join_digit width n (b % 128))

-- Reading marked digits from 0 leaves one more than the number that they stand for.
read_digits :
    (width k n : ℕ) (rest : List ℕ)
    → n < 128 ^ suc k
    → n + 1 < 2 ^ width
    → read_var_int_loop width (digits k n ++ rest) 0 ≡ read_var_int_loop width rest (n + 1)
unfolding digits
read_digits width zero n rest h fits = ground (arith, read_marked width (n + 128) 0 rest)
read_digits width (suc k) n rest h fits = ground (
  arith,
  pow-suc 128 (suc k),
  read_marked width (n + 128) 0 rest,
  append_assoc (digits k (n / 128 - 1)) ((n % 128 + 128) ∷ []) rest,
  read_digits width k (n / 128 - 1) ((n % 128 + 128) ∷ rest),
  read_marked width (n % 128 + 128) (n / 128 - 1 + 1) rest,
)

read-encoding :
    (width k n : ℕ) (rest : List ℕ)
    → n < 128 ^ suc (suc k)
    → n < 2 ^ width
    → read_var_int_loop width (encoding k n ++ rest) 0 ≡ ok (n, rest)
unfolding encoding
read-encoding width k n rest h fits = ground (
  arith,
  pow-suc 128 (suc k),
  read_last width n 0 rest,
  append_assoc (digits k (n / 128 - 1)) (n % 128 ∷ []) rest,
  read_digits width k (n / 128 - 1) (n % 128 ∷ rest),
  read_last width (n % 128) (n / 128 - 1 + 1) rest,
)

-- Seven bits go into each byte.
two_pow_seven : (s : ℕ) → 2 ^ (s + 7) ≡ 128 * 2 ^ s
two_pow_seven s = simp towards_suc (omega arith)

room_suffices : (m w : ℕ) → w ≤ 7 * m → 2 ^ w ≤ 128 ^ m
room_suffices zero w h = let nought : w ≡ 0 = omega arith in rw nought (omega arith)
room_suffices (suc m) w h = elim (dec_lt w 7) [
  | yes small ↦
      let seven : 2 ^ w ≤ 2 ^ 7 =
        pow-le-pow_right {n = 2} (omega arith) {i = w} {j = 7} (omega arith) in
      omega (arith, seven, one-le-pow m 128, pow-suc 128 m)
  | no large ↦
      let split : w ≡ (w - 7) + 7 = omega arith in
      rw split
        (omega (arith, two_pow_seven (w - 7), room_suffices m (w - 7) (omega arith), pow-suc 128 m))
]

size_loop-digits :
    (fuel k n count : ℕ)
    → n < fuel
    → n < 128 ^ suc k
    → size_of_var_int_loop fuel n count ≡ count + length (digits k n)
unfolding size_of_var_int_loop digits
size_loop-digits zero k n count h g = absurd (omega arith)
size_loop-digits (suc fuel) zero n count h g = ground arith
size_loop-digits (suc fuel) (suc k) n count h g = ground (
  arith,
  pow-suc 128 (suc k),
  length-append (digits k (n / 128 - 1)) ((n % 128 + 128) ∷ []),
  size_loop-digits fuel k (n / 128 - 1) (count + 1),
)

get_size-encoding :
    (k n : ℕ) → n < 128 ^ suc (suc k) → get_size_of_var_int n ≡ length (encoding k n)
unfolding get_size_of_var_int encoding size_of_var_int_loop
get_size-encoding k n h = ground (
  arith,
  add-one n,
  pow-suc 128 (suc k),
  length-append (digits k (n / 128 - 1)) (n % 128 ∷ []),
  size_loop-digits n k (n / 128 - 1) 1,
)

-- A number of an unsigned type of eight bits or more is written within the array `tmp`, in as many
-- bytes as GetSizeOfVarInt says, and is read back, whatever bytes follow.
pub read_var_int-write_var_int :
    (width n : ℕ) (rest : List ℕ)
    → 8 ≤ width
    → n < 2 ^ width
    → (bytes : List ℕ) × (write_var_int width n ≡ some bytes)
      × (read_var_int width (bytes ++ rest) ≡ ok (n, rest))
      × (length bytes ≡ get_size_of_var_int n)
unfolding write_var_int read_var_int
read_var_int-write_var_int width n rest wide h = (
  encoding k n,
  ap (λ (r : ℕ). fill_tmp r n 0 []) room ∙ fill_tmp-encoding k n fits,
  read-encoding width k n rest fits h,
  sym (get_size-encoding k n fits),
)
  where
    k : ℕ
    k = (width + 6) / 7 - 2

    room : (width + 6) / 7 ≡ suc (suc k)
    room = omega arith

    fits : n < 128 ^ suc (suc k)
    fits = le_trans h (rw (sym room) (room_suffices ((width + 6) / 7) width (omega arith)))

-- A few of the numbers that one byte holds.
pub read_var_int-below_six :
    (b : ℕ) (rest : List ℕ) → b < 6 → read_var_int 32 (b ∷ rest) ≡ ok (b, rest)
unfolding read_var_int read_var_int_loop
read_var_int-below_six zero rest h = refl
read_var_int-below_six (suc zero) rest h = refl
read_var_int-below_six (suc (suc zero)) rest h = refl
read_var_int-below_six (suc (suc (suc zero))) rest h = refl
read_var_int-below_six (suc (suc (suc (suc zero)))) rest h = refl
read_var_int-below_six (suc (suc (suc (suc (suc zero))))) rest h = refl
read_var_int-below_six (suc (suc (suc (suc (suc (suc b)))))) rest h = absurd (omega (arith, h))
