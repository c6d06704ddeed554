-- ===== src/Serialize/CompactSize.antt =====
-- Writing and reading of compact sizes.
use primmonero.Base.{
  ℕ, zero, suc, ◌+◌, ◌/◌, ◌^◌, ◌≤◌, ◌<◌, ◌≡◌, ◌⊎◌, inl, inr, refl, ap, ◌∙◌, List, [], ◌∷◌, ◌++◌,
  append_assoc, length, length-append, arith,
}
use native.Mathlib.Decide.{dec_le}
use native.Mathlib.Nat.{pow-suc}
use primmonero.Serialize.{
  ok, >>=-eq-ok, err, size_too_large, write_data, read_data, max_size, get_size_of_compact_size,
  write_compact_size, read_size_after, check_size, read_compact_size,
}

pub length-write_data : (width n : ℕ) → length (write_data width n) ≡ width
unfolding write_data
length-write_data zero n = refl
length-write_data (suc width) n = ap suc (length-write_data width (n / 256))

pub read_data-write_data :
    (width n : ℕ) (rest : List ℕ)
    → n < 256 ^ width
    → read_data width (write_data width n ++ rest) ≡ ok (n, rest)
unfolding write_data read_data
read_data-write_data zero n rest h = ground arith
read_data-write_data (suc width) n rest h =
    ground (arith, read_data-write_data width (n / 256) rest, pow-suc 256 width)

-- What is written reads back as the same first byte and the same size.
read_marker :
    (mark width n : ℕ) (rest : List ℕ)
    → mark < 256
    → n < 256 ^ width
    → read_data 1 ((write_data 1 mark ++ write_data width n) ++ rest)
      ≡ ok (mark, write_data width n ++ rest)
read_marker mark width n rest h fits =
    rw (append_assoc (write_data 1 mark)) (read_data-write_data 1 mark _ h)

read_size-write :
    (size : ℕ) (rest : List ℕ)
    → size < 2 ^ 64
    → read_compact_size (write_compact_size size ++ rest) ≡ check_size (size, rest)
unfolding read_compact_size write_compact_size read_size_after
read_size-write size rest h = ground (
  arith,
  read_data-write_data 1 size rest,
  read_marker 253 2 size rest,
  read_marker 254 4 size rest,
  read_marker 255 8 size rest,
  read_data-write_data 2 size rest,
  read_data-write_data 4 size rest,
  read_data-write_data 8 size rest,
)

-- A size that was written is read back up to MAX_SIZE, whatever bytes follow it; any larger uint64
-- is written, but refused by the reader.
pub read_compact_size-write_compact_size :
    (size : ℕ) (rest : List ℕ)
    → size < 2 ^ 64
    → ((size ≤ max_size) × (read_compact_size (write_compact_size size ++ rest) ≡ ok (size, rest)))
      ⊎ ((max_size < size)
          × (read_compact_size (write_compact_size size ++ rest) ≡ err size_too_large))
read_compact_size-write_compact_size size rest h = elim (dec_le size max_size) [
  | yes fits ↦ inl (fits, read_size-write size rest h ∙ (unfold check_size in ground arith))
  | no over ↦ inr (omega arith, read_size-write size rest h ∙ (unfold check_size in ground arith))
]

-- GetSizeOfCompactSize is the number of bytes that WriteCompactSize writes: 1, 3, 5 or 9.
pub length-write_compact_size :
    (size : ℕ) → length (write_compact_size size) ≡ get_size_of_compact_size size
unfolding write_compact_size get_size_of_compact_size
length-write_compact_size size = ground (
  arith,
  length-write_data 1 size,
  length-append (write_data 1 253) (write_data 2 size),
  length-append (write_data 1 254) (write_data 4 size),
  length-append (write_data 1 255) (write_data 8 size),
  length-write_data 1 253,
  length-write_data 1 254,
  length-write_data 1 255,
  length-write_data 2 size,
  length-write_data 4 size,
  length-write_data 8 size,
)

pub length-read_data :
    (width : ℕ) (bytes rest : List ℕ) (n : ℕ)
    → read_data width bytes ≡ ok (n, rest)
    → length bytes ≡ length rest + width
unfolding read_data
length-read_data zero bytes rest n e = ground arith
length-read_data (suc width) [] rest n e = cc
length-read_data (suc width) (b ∷ bytes) rest n e =
    let ((high, left), e1, e2) = >>=-eq-ok (read_data width bytes) _ e in
    ground (arith, e2, length-read_data width bytes left high e1)

length-read_size_after :
    (first : ℕ) (bytes rest : List ℕ) (size : ℕ)
    → read_size_after (first, bytes) ≡ ok (size, rest)
    → length rest ≤ length bytes
unfolding read_size_after
length-read_size_after first bytes rest size e = ground (
  arith,
  length-read_data 2 bytes rest size,
  length-read_data 4 bytes rest size,
  length-read_data 8 bytes rest size,
)

check_size-ok :
    (size n : ℕ) (bytes rest : List ℕ)
    → check_size (size, bytes) ≡ ok (n, rest)
    → (n ≤ max_size) × (length rest ≡ length bytes)
unfolding check_size
check_size-ok size n bytes rest e = ground arith

-- Whatever the input holds, a size that is accepted is at most MAX_SIZE, and a byte at least is
-- taken.
pub read_compact_size_bound :
    (bytes rest : List ℕ) (size : ℕ)
    → read_compact_size bytes ≡ ok (size, rest)
    → (size ≤ max_size) × (length rest < length bytes)
unfolding read_compact_size
read_compact_size_bound bytes rest size e =
    let ((first, left), e1, f1) = >>=-eq-ok (read_data 1 bytes) _ e in
    let ((size', left'), e2, f2) = >>=-eq-ok (read_size_after (first, left)) _ f1 in
    let (small, same) = check_size-ok size' size left' rest f2 in
    (
      small,
      omega (
        arith,
        same,
        length-read_data 1 bytes left first e1,
        length-read_size_after first left left' size' e2,
      ),
    )
