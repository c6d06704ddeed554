-- ===== src/Serialize/Runs.antt =====
-- Runs of the formats, the examples in the comments of src/servilo/serialize.h among them.
use primmonero.Base.{
  ℕ, ◌^◌, ◌≤◌, ◌<◌, ◌≡◌, ◌⊎◌, inl, inr, refl, Bool, true, false, List, [], ◌∷◌, ◌++◌, some, length,
  arith, ◌==◌, if◌then◌else◌,
}
use primmonero.Serialize.{
  Result, ◌>>=◌, ok, err, end_of_data, size_too_large, max_size, write_data, write_compact_size,
  read_compact_size, fill_tmp, write_var_int, read_var_int_loop, read_var_int, get_size_of_var_int,
}
use primmonero.Serialize.CompactSize.{read_compact_size-write_compact_size}
use primmonero.Serialize.VarInt.{read_var_int-write_var_int}
use primmonero.Serialize.VarInt.Unique.{write_var_int-read_var_int}
use primmonero.Serialize.Stream.{read_elements, read_vector}
use primmonero.Serialize.Stream.RoundTrip.{read_vector-elements}

var_int_256 : write_var_int 32 256 ≡ some (0x81 ∷ 0x00 ∷ [])
unfolding write_var_int fill_tmp
var_int_256 = refl

-- The comment in src/servilo/serialize.h has 0xFD as the second of these bytes.
var_int_65535 : write_var_int 32 65535 ≡ some (0x82 ∷ 0xfe ∷ 0x7f ∷ [])
unfolding write_var_int fill_tmp
var_int_65535 = refl

var_int_as_documented : read_var_int 32 (0x82 ∷ 0xfd ∷ 0x7f ∷ []) ≡ ok (65407, [])
unfolding read_var_int read_var_int_loop
var_int_as_documented = refl

var_int_2_32 : write_var_int 64 (2 ^ 32) ≡ some (0x8e ∷ 0xfe ∷ 0xfe ∷ 0xff ∷ 0x00 ∷ [])
unfolding write_var_int fill_tmp
var_int_2_32 = refl

reads_256 : read_var_int 32 (0x81 ∷ 0x00 ∷ 7 ∷ []) ≡ ok (256, 7 ∷ [])
unfolding read_var_int read_var_int_loop
reads_256 = refl

compact_515 : write_compact_size 515 ≡ 253 ∷ 3 ∷ 2 ∷ []
unfolding write_compact_size write_data
compact_515 = refl

reads_515 : read_compact_size (253 ∷ 3 ∷ 2 ∷ 9 ∷ []) ≡ ok (515, 9 ∷ [])
unfolding write_compact_size write_data
reads_515 = elim (read_compact_size-write_compact_size 515 (9 ∷ []) (omega arith)) [
  | inl (_, e) ↦ e
  | inr (over, _) ↦ absurd (omega arith)
]

read_compact_size-write_compact_size_example :
    ((515 ≤ max_size) × (read_compact_size (write_compact_size 515 ++ 9 ∷ []) ≡ ok (515, 9 ∷ [])))
    ⊎ ((max_size < 515)
        × (read_compact_size (write_compact_size 515 ++ 9 ∷ []) ≡ err size_too_large))
read_compact_size-write_compact_size_example =
    read_compact_size-write_compact_size 515 (9 ∷ []) (omega arith)

read_var_int-write_var_int_example :
    (bytes : List ℕ) × (write_var_int 32 65535 ≡ some bytes)
    × (read_var_int 32 (bytes ++ 7 ∷ []) ≡ ok (65535, 7 ∷ []))
    × (length bytes ≡ get_size_of_var_int 65535)
read_var_int-write_var_int_example =
    read_var_int-write_var_int 32 65535 (7 ∷ []) (omega arith) (omega arith)

write_var_int-read_var_int_example :
    (written : List ℕ) × (write_var_int 32 256 ≡ some written)
    × (written ++ (7 ∷ []) ≡ 0x81 ∷ 0x00 ∷ 7 ∷ [])
write_var_int-read_var_int_example =
    write_var_int-read_var_int 32 (0x81 ∷ 0x00 ∷ 7 ∷ []) (7 ∷ []) 256 (omega arith) (omega arith)
      (omega arith) reads_256

-- Flags, one to a byte.
write_flag : Bool → List ℕ
write_flag true = 1 ∷ []
write_flag false = 0 ∷ []

read_flag : List ℕ → Result (Bool × List ℕ)
read_flag [] = err end_of_data
read_flag (b ∷ bytes) = ok (if b == 0 then false else true, bytes)

read_flag-write_flag : (f : Bool) (rest : List ℕ) → read_flag (write_flag f ++ rest) ≡ ok (f, rest)
unfolding read_flag write_flag
read_flag-write_flag true rest = refl
read_flag-write_flag false rest = refl

read_vector-elements_example :
    read_vector read_flag 2 (3 ∷ 1 ∷ 0 ∷ 1 ∷ [])
    ≡ (do (size, left) ← read_compact_size (3 ∷ 1 ∷ 0 ∷ 1 ∷ []); read_elements read_flag size left)
read_vector-elements_example = read_vector-elements read_flag 2 (3 ∷ 1 ∷ 0 ∷ 1 ∷ []) (omega arith)
