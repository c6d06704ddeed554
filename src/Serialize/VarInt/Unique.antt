-- ===== src/Serialize/VarInt/Unique.antt =====
-- The bytes that ReadVarInt reads are those that WriteVarInt writes.
use primmonero.Base.{
  ℕ, zero, suc, ◌+◌, ◌-◌, ◌*◌, ◌/◌, ◌%◌, ◌^◌, ◌≤◌, ◌<◌, ◌≡◌, ap, sym, ◌∙◌, some, List, [], ◌∷◌,
  ◌++◌, append_assoc, bit_and, bit_or, length, All, arith,
}
use native.Mathlib.Nat.{pow-suc, one-le-pow, le_trans}
use native.Mathlib.Decide.{dec_lt}
use native.Mathlib.Numerals.{add-one}
use primmonero.Serialize.{ok, fill_tmp, write_var_int, read_var_int_loop, read_var_int}
use primmonero.Serialize.VarInt.{
  IsByte, digits, encoding, fill_tmp-encoding, read_marked, read_last, two_pow_seven, room_suffices,
}

-- Digits do not depend on the room beyond what the number takes.
digits-more_room : (k n : ℕ) → n < 128 ^ suc k → digits (suc k) n ≡ digits k n
unfolding digits
digits-more_room zero n h = ground arith
digits-more_room (suc k) n h = ground (
  arith,
  pow-suc 128 (suc k),
  digits-more_room k (n / 128 - 1) (omega (arith, pow-suc 128 (suc k))),
)

encoding-more_room : (k n : ℕ) → n < 128 ^ suc (suc k) → encoding (suc k) n ≡ encoding k n
unfolding encoding
encoding-more_room k n h = ground (arith, pow-suc 128 (suc k), digits-more_room k (n / 128 - 1))

-- What has been read when the accumulator is `n`.
taken : ℕ → ℕ → List ℕ
taken k zero = []
taken k (suc n) = digits k n

taken-marked :
    (k n b : ℕ)
    → 128 ≤ b
    → b < 256
    → n * 128 + b % 128 < 128 ^ suc (suc k)
    → taken (suc k) (n * 128 + b % 128 + 1) ≡ taken (suc k) n ++ b ∷ []
unfolding taken digits
taken-marked k zero b marked byte fits = ground (arith, add-one (0 * 128 + b % 128))
taken-marked k (suc n) b marked byte fits = ground (
  arith,
  add-one (suc n * 128 + b % 128),
  pow-suc 128 (suc k),
  digits-more_room k n (omega (arith, pow-suc 128 (suc k))),
)

taken-last : (k n b : ℕ) → b < 128 → encoding k (n * 128 + b) ≡ taken k n ++ b ∷ []
unfolding taken encoding
taken-last k zero b last = ground arith
taken-last k (suc n) b last = ground arith

-- The most that the accumulator can be after so many more bytes.
grow : ℕ → ℕ → ℕ
grow zero n = n
grow (suc c) n = grow c (n * 128 + 128)

grow_mono : (c m n : ℕ) → m ≤ n → grow c m ≤ grow c n
unfolding grow
grow_mono zero m n h = h
grow_mono (suc c) m n h = grow_mono c (m * 128 + 128) (n * 128 + 128) (omega arith)

le-grow : (c n : ℕ) → n ≤ grow c n
unfolding grow
le-grow zero n = omega arith
le-grow (suc c) n = omega (arith, le-grow c (n * 128 + 128))

grow_bound : (c n : ℕ) → grow c n + 2 ≤ (n + 2) * 128 ^ c
unfolding grow
grow_bound zero n = omega arith
grow_bound (suc c) n =
    omega
      (arith, grow_bound c (n * 128 + 128), ap (λ (t : ℕ). n * t) (pow-suc 128 c), pow-suc 128 c)

bits_suffice : (c w : ℕ) → 7 * c + 1 ≤ w → 2 * 128 ^ c ≤ 2 ^ w
bits_suffice zero w h =
    let split : w ≡ suc (w - 1) = omega arith in
    rw split (omega (arith, pow-suc 2 (w - 1), one-le-pow (w - 1) 2))
bits_suffice (suc c) w h =
    let split : w ≡ (w - 7) + 7 = omega arith in
    rw split
      (omega (arith, two_pow_seven (w - 7), bits_suffice c (w - 7) (omega arith), pow-suc 128 c))

length-read_loop :
    (width : ℕ) (bytes rest : List ℕ) (n v : ℕ)
    → read_var_int_loop width bytes n ≡ ok (v, rest)
    → length rest < length bytes
unfolding read_var_int_loop
length-read_loop width [] rest n v e = cc
length-read_loop width (b ∷ bytes) rest n v e = ground (
  arith,
  length-read_loop width bytes rest
      ((bit_or (n * 2 ^ 7 % 2 ^ width) (bit_and b 0x7f) + 1) % 2 ^ width) v,
)

-- The reader, when no accumulator wraps, has taken the one encoding of what it returns.
read_loop-taken :
    (width k c : ℕ) (bytes rest : List ℕ) (n v : ℕ)
    → All IsByte bytes
    → length bytes ≤ length rest + c
    → grow c n < 2 ^ width
    → 2 ^ width ≤ 128 ^ suc (suc k)
    → read_var_int_loop width bytes n ≡ ok (v, rest)
    → (taken (suc k) n ++ bytes ≡ encoding (suc k) v ++ rest) × (v < 2 ^ width)
unfolding grow
read_loop-taken width k c [] rest n v byte few fits wide e =
    absurd (unfold read_var_int_loop in cc e)
read_loop-taken width k zero (b ∷ bytes) rest n v (byte, others) few fits wide e =
    absurd (omega (arith, length-read_loop width (b ∷ bytes) rest n v e))
read_loop-taken width k (suc c) (b ∷ bytes) rest n v (byte, others) few fits wide e =
    elim (dec_lt b 128) [
      | yes last ↦
          let one : read_var_int_loop width (b ∷ bytes) n ≡ ok (n * 128 + b, bytes) =
            read_last width b n bytes last (omega (arith, le-grow c (n * 128 + 128), fits)) in
          ground (
            arith,
            one,
            e,
            taken-last (suc k) n b last,
            append_assoc (taken (suc k) n) (b ∷ []) bytes,
            le-grow c (n * 128 + 128),
          )
      | no marked ↦
          let below : n * 128 + b % 128 + 1 < 2 ^ width =
            omega (arith, le-grow c (n * 128 + 128), fits) in
          let one : read_var_int_loop width (b ∷ bytes) n
              ≡ read_var_int_loop width bytes (n * 128 + b % 128 + 1) =
            read_marked width b n bytes (omega arith) byte below in
          let (more, small) =
            read_loop-taken width k c bytes rest (n * 128 + b % 128 + 1) v others (omega arith)
              (omega
                (arith, grow_mono c (n * 128 + b % 128 + 1) (n * 128 + 128) (omega arith), fits))
              wide (sym one ∙ e) in
          (
            ground (arith, more, taken-marked k n b, append_assoc (taken (suc k) n) (b ∷ []) bytes),
            small,
          )
    ]

-- Every number has one encoding: bytes that are read as a number, too few to wrap it, are those
-- that the number is written in.
pub write_var_int-read_var_int :
    (width : ℕ) (bytes rest : List ℕ) (n : ℕ)
    → All IsByte bytes
    → 8 ≤ width
    → 7 * length bytes + 1 ≤ width + 7 * length rest
    → read_var_int width bytes ≡ ok (n, rest)
    → (written : List ℕ) × (write_var_int width n ≡ some written) × (written ++ rest ≡ bytes)
unfolding write_var_int read_var_int taken
write_var_int-read_var_int width bytes rest n are_bytes wide few e = (
  encoding k n,
  ap (λ (r : ℕ). fill_tmp r n 0 []) room ∙ fill_tmp-encoding k n (le_trans seen.1 fits),
  sym (seen.0 ∙ ap (λ (l : List ℕ). l ++ rest) (encoding-more_room k n (le_trans seen.1 fits))),
)
  where
    c : ℕ
    c = length bytes - length rest

    k : ℕ
    k = (width + 6) / 7 - 2

    room : (width + 6) / 7 ≡ suc (suc k)
    room = omega arith

    fits : 2 ^ width ≤ 128 ^ suc (suc k)
    fits = rw (sym room) (room_suffices ((width + 6) / 7) width (omega arith))

    whole : grow c 0 < 2 ^ width
    whole = omega (arith, grow_bound c 0, bits_suffice c width (omega arith))

    seen : (bytes ≡ encoding (suc k) n ++ rest) × (n < 2 ^ width)
    seen = read_loop-taken width k c bytes rest 0 n are_bytes (omega arith) whole fits e
