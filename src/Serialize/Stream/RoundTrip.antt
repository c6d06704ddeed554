-- ===== src/Serialize/Stream/RoundTrip.antt =====
-- Strings and vectors are read back as they were written.
use primmonero.Base.{
  take-append, drop-append, ℕ, zero, suc, ◌+◌, ◌-◌, ◌≤◌, ◌<◌, ◌≡◌, refl, ap, sym, ◌∙◌, List, [],
  ◌∷◌, ◌++◌, append_assoc, ltb, if◌then◌else◌, length, length-append, All, Bool-cases, inl, inr,
  arith,
}
use mathlib.Core.Path.{fun_ext}
use primmonero.Serialize.{
  Result, Result-cases, ok, ◌>>=◌, max_size, write_compact_size, read_compact_size,
}
use primmonero.Serialize.CompactSize.{read_compact_size-write_compact_size}
use primmonero.Serialize.Stream.{
  read_bytes, write_string, read_string, write_elements, write_vector, read_elements, read_blocks,
  read_vector,
}

pub read_compact_size-fits :
    (size : ℕ) (rest : List ℕ)
    → size ≤ max_size
    → read_compact_size (write_compact_size size ++ rest) ≡ ok (size, rest)
read_compact_size-fits size rest h =
    elim (read_compact_size-write_compact_size size rest (omega arith)) [
      | inl (_, e) ↦ e
      | inr (over, _) ↦ absurd (omega arith)
    ]

pub read_bytes-append :
    (bytes rest : List ℕ) → read_bytes (length bytes) (bytes ++ rest) ≡ ok (bytes, rest)
unfolding read_bytes
read_bytes-append bytes rest =
    ground (arith, length-append bytes rest, take-append bytes rest, drop-append bytes rest)

-- A string of at most MAX_SIZE bytes is read back, and what follows it is left.
pub read_string-write_string :
    (str rest : List ℕ)
    → length str ≤ max_size
    → read_string (write_string str ++ rest) ≡ ok (str, rest)
unfolding read_string write_string read_bytes
read_string-write_string str rest h = ground (
  arith,
  append_assoc (write_compact_size (length str)) str rest,
  read_compact_size-fits (length str) (str ++ rest) h,
  length-append str rest,
  take-append str rest,
  drop-append str rest,
)

module _ {A : Type 0} (read_element : List ℕ → Result (A × List ℕ)) where
  read_elements-add :
      (m n : ℕ) (bytes : List ℕ)
      → read_elements read_element (m + n) bytes ≡ (do
        (v, left) ← read_elements read_element m bytes
        (w, rest) ← read_elements read_element n left
        ok (v ++ w, rest))
  unfolding read_elements
  read_elements-add zero n bytes =
      let same : 0 + n ≡ n = omega arith in
      rw same (elim (Result-cases (read_elements read_element n bytes)) [
        | inl (p, q) ↦ rw q
        | inr (e, q) ↦ rw q
      ])
  read_elements-add (suc m) n bytes =
      let same : suc m + n ≡ suc (m + n) = omega arith in
      elim (Result-cases (read_element bytes)) [
        | inr (e, q) ↦ rw same (rw q)
        | inl ((a, left), q) ↦ rw same (
            rw q (
              rw (read_elements-add m n left)
                (elim (Result-cases (read_elements read_element m left)) [
                  | inr (e, q') ↦ rw q'
                  | inl ((v, more), q') ↦
                      rw q' (elim (Result-cases (read_elements read_element n more)) [
                        | inr (e, q'') ↦ rw q''
                        | inl (p, q'') ↦ rw q''
                      ])
                ])))
      ]

  read_none : (bytes : List ℕ) → read_elements read_element 0 bytes ≡ ok ([], bytes)
  unfolding read_elements
  read_none bytes = refl

  read_blocks-elements :
      (fuel block size mid : ℕ) (bytes : List ℕ)
      → 0 < block
      → size - mid ≤ fuel
      → read_blocks read_element fuel block size mid bytes
        ≡ read_elements read_element (size - mid) bytes
  unfolding read_blocks
  read_blocks-elements zero block size mid bytes pos enough =
      let none_left : size - mid ≡ 0 = omega arith in rw none_left (sym (read_none bytes))
  read_blocks-elements (suc fuel) block size mid bytes pos enough =
      elim (Bool-cases (ltb mid size)) [
        | inr done ↦
            let none_left : size - mid ≡ 0 = ground (arith, done) in
            rw (done, read_blocks, none_left) (sym (read_none bytes))
        | inl more ↦
            rw (more, read_blocks)
              (rounds (λ next left. read_blocks-elements fuel block size next left pos)
                (if ltb size (mid + block) then size else mid + block) (ground arith)
                (ground arith))
      ]
    where
      rounds :
          ((next : ℕ) (left : List ℕ)
            → size - next ≤ fuel
            → read_blocks read_element fuel block size next left
              ≡ read_elements read_element (size - next) left)
          → (next : ℕ) → mid < next
          → next ≤ size
          → (do
            (v, left) ← read_elements read_element (next - mid) bytes
            (w, rest) ← read_blocks read_element fuel block size next left
            ok (v ++ w, rest))
            ≡ read_elements read_element (size - mid) bytes
      rounds rest_of next ahead inside =
          let split : size - mid ≡ (next - mid) + (size - next) = omega arith in
          rw (split, read_elements-add (next - mid) (size - next) bytes)
            (ap (◌>>=◌ (read_elements read_element (next - mid) bytes)) (
              fun_ext λ p.
                ap (λ (r : Result (List A × List ℕ)). r >>= λ q. ok (p.0 ++ q.0, q.1))
                  (rest_of next p.1 (omega arith))))

  -- The two nested loops of a vector's reader, whose blocks are not empty, read as many elements as
  -- the compact size says and stop at the first failure, wherever the blocks end.
  pub read_vector-elements :
      (block : ℕ) (bytes : List ℕ)
      → 0 < block
      → read_vector read_element block bytes
        ≡ (do (size, left) ← read_compact_size bytes; read_elements read_element size left)
  unfolding read_vector
  read_vector-elements block bytes pos = ap (◌>>=◌ (read_compact_size bytes)) (
      fun_ext λ p.
        let all : p.0 - 0 ≡ p.0 = omega arith in
        read_blocks-elements p.0 block p.0 0 p.1 pos (omega arith)
        ∙ ap (λ (count : ℕ). read_elements read_element count p.1) all)

module _ {A : Type 0} (P : A → Type 0) (write_element : A → List ℕ)
    (read_element : List ℕ → Result (A × List ℕ))
    (back : (a : A) (rest : List ℕ)
      → P a
      → read_element (write_element a ++ rest) ≡ ok (a, rest)) where
  read_elements-write :
      (v : List A) (rest : List ℕ)
      → All P v
      → read_elements read_element (length v) (write_elements write_element v ++ rest)
        ≡ ok (v, rest)
  unfolding read_elements write_elements
  read_elements-write [] rest all = refl
  read_elements-write (a ∷ v) rest all =
      rw (append_assoc (write_element a), back a _ all.0, read_elements-write v rest all.1)

  -- A vector of elements of a kind that is read back.
  pub read_vector-write_checked :
      (block : ℕ) (v : List A) (rest : List ℕ)
      → 0 < block
      → length v ≤ max_size
      → All P v
      → read_vector read_element block (write_vector write_element v ++ rest) ≡ ok (v, rest)
  unfolding write_vector
  read_vector-write_checked block v rest pos small all =
      read_vector-elements read_element block (write_vector write_element v ++ rest) pos
      ∙ rw
          (
            append_assoc (write_compact_size (length v)),
            read_compact_size-fits (length v) (write_elements write_element v ++ rest) small,
          )
          (read_elements-write v rest all)

module _ {A : Type 0} (write_element : A → List ℕ) (read_element : List ℕ → Result (A × List ℕ))
    (back : (a : A) (rest : List ℕ) → read_element (write_element a ++ rest) ≡ ok (a, rest)) where
  -- A vector of at most MAX_SIZE elements is read back, and what follows it is left, when each
  -- element is.
  pub read_vector-write_vector :
      (block : ℕ) (v : List A) (rest : List ℕ)
      → 0 < block
      → length v ≤ max_size
      → read_vector read_element block (write_vector write_element v ++ rest) ≡ ok (v, rest)
  read_vector-write_vector block v rest pos small =
      read_vector-write_checked (λ a. Unit {0}) write_element read_element
        (λ a after any. back a after) block v rest pos small (all_unit v)
    where
      all_unit : (v : List A) → All (λ a. Unit {0}) v
      all_unit [] = tt
      all_unit (a ∷ v) = (tt, all_unit v)
