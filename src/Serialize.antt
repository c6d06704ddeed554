-- ===== src/Serialize.antt =====
-- The integer formats of src/servilo/serialize.h. A stream is the list of the bytes still to be
-- read, and what is written is a list of bytes. A read past the end throws in CDataStream::read
-- (src/servilo/serialize.h), and ReadCompactSize throws on a size over MAX_SIZE: both are values of
-- `Failure` here. Integers lie in memory with the low byte first, as on the processors that the
-- program is built for.
pub mod CompactSize
pub mod VarInt
pub mod Stream
mod Runs
use primmonero.Base.{
  ℕ, zero, suc, ◌+◌, ◌-◌, ◌*◌, ◌/◌, ◌%◌, ◌^◌, bit_and, bit_or, Bool, true, false, ◌&&◌, Option,
  none, some, List, [], ◌∷◌, ◌++◌, ltb, leb, ◌==◌, if◌then◌else◌, ◌≡◌, refl, ◌⊎◌, inl, inr,
}

pub data Failure : Type 0 where
  end_of_data : Failure
  size_too_large : Failure

pub data Result {ℓ} (A : Type ℓ) : Type ℓ where
  ok : A → Result A
  err : Failure → Result A

infixl 5 ◌>>=◌
abbrev pub ◌>>=◌ {ℓ κ} : {A : Type ℓ} {B : Type κ} → Result A → (A → Result B) → Result B
ok a >>= f = f a
err e >>= f = err e

-- A bind that succeeds has a first part that did.
pub >>=-eq-ok {ℓ κ} :
    {A : Type ℓ} {B : Type κ} (r : Result A) (f : A → Result B) {b : B}
    → (r >>= f) ≡ ok b
    → (a : A) × (r ≡ ok a) × (f a ≡ ok b)
>>=-eq-ok (ok a) f h = (a, refl, h)
>>=-eq-ok (err e) f h = cc

pub Result-cases {ℓ} :
    {A : Type ℓ} (r : Result A) → ((a : A) × (r ≡ ok a)) ⊎ ((e : Failure) × (r ≡ err e))
Result-cases (ok a) = inl (a, refl)
Result-cases (err e) = inr (e, refl)

-- WRITEDATA and READDATA of an unsigned integer of so many bytes.
unfoldable pub write_data : ℕ → ℕ → List ℕ
write_data zero n = []
write_data (suc width) n = n % 256 ∷ write_data width (n / 256)

pub read_data : ℕ → List ℕ → Result (ℕ × List ℕ)
read_data zero bytes = ok (0, bytes)
read_data (suc width) [] = err end_of_data
read_data (suc width) (b ∷ bytes) = do
  (high, rest) ← read_data width bytes
  ok (b + high * 256, rest)

abbrev pub max_size : ℕ
max_size = 0x0200_0000

unfoldable pub get_size_of_compact_size : ℕ → ℕ
get_size_of_compact_size size =
    if ltb size 253
    then 1
    else if leb size 0xffff
    then 1 + 2
    else if leb size 0xffff_ffff
    then 1 + 4
    else 1 + 8

pub write_compact_size : ℕ → List ℕ
write_compact_size size =
    if ltb size 253
    then write_data 1 size
    else if leb size 0xffff
    then write_data 1 253 ++ write_data 2 size
    else if leb size 0xffff_ffff
    then write_data 1 254 ++ write_data 4 size
    else write_data 1 255 ++ write_data 8 size

-- The size that follows the first byte, and the check of the limit.
read_size_after : ℕ × List ℕ → Result (ℕ × List ℕ)
read_size_after (first, bytes) =
    if ltb first 253
    then ok (first, bytes)
    else if first == 253
    then read_data 2 bytes
    else if first == 254
    then read_data 4 bytes
    else read_data 8 bytes

check_size : ℕ × List ℕ → Result (ℕ × List ℕ)
check_size (size, bytes) = if ltb max_size size then err size_too_large else ok (size, bytes)

pub read_compact_size : List ℕ → Result (ℕ × List ℕ)
read_compact_size bytes = do
  first ← read_data 1 bytes
  size ← read_size_after first
  check_size size

-- The loop of WriteVarInt. The list holds tmp[len - 1] down to tmp[0], the order in which the
-- second loop writes them, and `room` is what is left of the array: `none` is a write past its end.
pub fill_tmp : ℕ → ℕ → ℕ → List ℕ → Option (List ℕ)
fill_tmp zero n len tmp = none
fill_tmp (suc room) n len tmp =
    let tmp' : List ℕ = bit_or (bit_and n 0x7f) (if len == 0 then 0x00 else 0x80) ∷ tmp in
    elim (leb n 0x7f) [ true ↦ some tmp' | false ↦ fill_tmp room (n / 2 ^ 7 - 1) (len + 1) tmp' ]

-- WriteVarInt for an unsigned type of `width` bits: tmp has (sizeof(n) * 8 + 6) / 7 elements.
pub write_var_int : ℕ → ℕ → Option (List ℕ)
write_var_int width n = fill_tmp ((width + 6) / 7) n 0 []

-- The loop of ReadVarInt at a type of `width` bits.
pub read_var_int_loop : ℕ → List ℕ → ℕ → Result (ℕ × List ℕ)
read_var_int_loop width [] n = err end_of_data
read_var_int_loop width (b ∷ bytes) n =
    let n' : ℕ = bit_or (n * 2 ^ 7 % 2 ^ width) (bit_and b 0x7f) in
    elim (bit_and b 0x80 == 0) [
      | true ↦ ok (n', bytes)
      | false ↦ read_var_int_loop width bytes ((n' + 1) % 2 ^ width)
    ]

pub read_var_int : ℕ → List ℕ → Result (ℕ × List ℕ)
read_var_int width bytes = read_var_int_loop width bytes 0

-- The loop of GetSizeOfVarInt on fuel; the number falls in each round, so `n + 1` rounds are enough.
pub size_of_var_int_loop : ℕ → ℕ → ℕ → ℕ
size_of_var_int_loop zero n count = count
size_of_var_int_loop (suc fuel) n count = elim (leb n 0x7f) [
  | true ↦ count + 1
  | false ↦ size_of_var_int_loop fuel (n / 2 ^ 7 - 1) (count + 1)
]

pub get_size_of_var_int : ℕ → ℕ
get_size_of_var_int n = size_of_var_int_loop (n + 1) n 0
