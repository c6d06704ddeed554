-- ===== src/Serialize/Stream.antt =====
-- Strings and vectors behind their compact sizes (src/servilo/serialize.h).
pub mod RoundTrip
use primmonero.Base.{
  ℕ, zero, suc, ◌+◌, ◌-◌, ◌*◌, ◌^◌, ◌≤◌, ◌<◌, ◌≡◌, refl, ap, sym, ◌∙◌, Bool, true, false, List, [],
  ◌∷◌, ◌++◌, append_assoc, append-nil, ltb, if◌then◌else◌, length, take, drop, min, Bool-cases, inl,
  inr, arith,
}
use native.Mathlib.Numerals.{add-one}
use primmonero.Serialize.{
  Result, ok, err, end_of_data, ◌>>=◌, >>=-eq-ok, max_size, write_compact_size, read_compact_size,
}
use primmonero.Serialize.CompactSize.{read_compact_size-write_compact_size, read_compact_size_bound}

-- CDataStream::read of `size` bytes, which throws where the stream holds fewer.
pub read_bytes : ℕ → List ℕ → Result (List ℕ × List ℕ)
read_bytes size bytes =
    if ltb (length bytes) size then err end_of_data else ok (take size bytes, drop size bytes)

unfoldable pub write_string : List ℕ → List ℕ
write_string str = write_compact_size (length str) ++ str

pub read_string : List ℕ → Result (List ℕ × List ℕ)
read_string bytes = do (size, left) ← read_compact_size bytes; read_bytes size left

-- A vector of elements that have their own formats. `block` is the number of elements that one
-- round of the outer loop makes room for, 5000000 / sizeof(T).
module _ {A : Type 0} (write_element : A → List ℕ) where
  unfoldable pub write_elements : List A → List ℕ
  write_elements [] = []
  write_elements (a ∷ v) = write_element a ++ write_elements v

  unfoldable pub write_vector : List A → List ℕ
  write_vector v = write_compact_size (length v) ++ write_elements v

module _ {A : Type 0} (read_element : List ℕ → Result (A × List ℕ)) where
  -- The inner loop `for (; i < nMid; i++)`, over the elements that are left.
  pub read_elements : ℕ → List ℕ → Result (List A × List ℕ)
  read_elements zero bytes = ok ([], bytes)
  read_elements (suc count) bytes = do
    (a, left) ← read_element bytes
    (v, rest) ← read_elements count left
    ok (a ∷ v, rest)

  -- The outer loop `while (nMid < nSize)`, with `i` equal to `mid` at its head. On fuel: each round
  -- moves `mid` on when `block` is positive.
  pub read_blocks : ℕ → ℕ → ℕ → ℕ → List ℕ → Result (List A × List ℕ)
  read_blocks zero block size mid bytes = ok ([], bytes)
  read_blocks (suc fuel) block size mid bytes = elim (ltb mid size) [
    | true ↦
        (let mid' : ℕ = if ltb size (mid + block) then size else mid + block in
          do
            (v, left) ← read_elements (mid' - mid) bytes
            (w, rest) ← read_blocks fuel block size mid' left
            ok (v ++ w, rest))
    | false ↦ ok ([], bytes)
  ]

  pub read_vector : ℕ → List ℕ → Result (List A × List ℕ)
  read_vector block bytes = do
    (size, left) ← read_compact_size bytes
    read_blocks size block size 0 left
