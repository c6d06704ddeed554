-- ===== src/PartialMerkleTree/Soundness.antt =====
-- What an accepted tree proves, whoever made it.
use primmonero.Base.{
  ℕ, zero, suc, ◌+◌, ◌*◌, ◌/◌, ◌^◌, ◌≤◌, ◌<◌, ◌≡◌, ◌≢◌, refl, ap, sym, ◌∙◌, Bool, true, false, List,
  [], ◌∷◌, ◌++◌, All, ltb, leb, ◌==◌, if◌then◌else◌, Bool-cases, inl, inr, ◌⊎◌, length, get_or,
  arith,
}
use mathlib.Core.Path.{subst}
use primmonero.PartialMerkleTree.{
  calc_hash, tree_height, Tree, Cursor, take_hash, traverse_and_extract, max_transactions,
  check_traversal, extract_matches,
}
use primmonero.PartialMerkleTree.Height.{InTree, left_child, right_child, tree_height_bounds}
use primmonero.PartialMerkleTree.Emitted.{hash_of, hash_of_node}
use primmonero.PartialMerkleTree.Steps.{
  extracted, past_bit, extracted-leaf, extracted-closed, extracted-paired, extracted-single,
}

module _ {A : Type 0} (P : A → Type 0) where
  All-append : (xs ys : List A) → All P xs → All P ys → All P (xs ++ ys)
  All-append [] ys h k = k
  All-append (x ∷ xs) ys h k = (h.0, All-append xs ys h.1 k)

-- The five ways that a node is read.
module _ {H : Type 0} (combine : H → H → H) (null : H) (t : Tree H) where
  data Reading (h pos : ℕ) (c : Cursor H) : Type 0 where
    exhausted : (extracted combine null t (suc h) pos c).1.bad ≡ true → Reading h pos c
    stored :
        extracted combine null t (suc h) pos c
          ≡ take_hash combine null t false (past_bit combine null t c)
        → Reading h pos c
    joined :
        ltb ((pos * 2 + 1) * 2 ^ h) t.total ≡ true
        → extracted combine null t (suc h) pos c ≡ (
            let (left, c1) = extracted combine null t h (pos * 2) (past_bit combine null t c) in
            let (right, c2) = extracted combine null t h (pos * 2 + 1) c1 in
            (combine left right, c2))
        → Reading h pos c
    doubled :
        ltb ((pos * 2 + 1) * 2 ^ h) t.total ≡ false
        → extracted combine null t (suc h) pos c ≡ (
            let (left, c1) = extracted combine null t h (pos * 2) (past_bit combine null t c) in
            (combine left left, c1))
        → Reading h pos c

  reading : (h pos : ℕ) (c : Cursor H) → InTree t.total (suc h) pos → Reading h pos c
  reading h pos c place = elim (Bool-cases (leb (length t.bits) c.bits_used)) [
    | inl over ↦ exhausted (unfold traverse_and_extract in rw over)
    | inr inside ↦
        let more : c.bits_used < length t.bits = ground (arith, inside) in
        elim (Bool-cases (get_or t.bits c.bits_used false)) [
          | inr clear ↦ stored (extracted-closed combine null t h pos c (clear, more))
          | inl set_bit ↦ elim (Bool-cases (ltb ((pos * 2 + 1) * 2 ^ h) t.total)) [
            | inl two ↦
                joined two (extracted-paired combine null t h pos c (set_bit, more) place two)
            | inr one ↦
                doubled one (extracted-single combine null t h pos c (set_bit, more) place one)
          ]
        ]
  ]

  reading_leaf :
      (pos : ℕ) (c : Cursor H)
      → ((extracted combine null t zero pos c).1.bad ≡ true)
        ⊎ ((m : Bool) × (extracted combine null t zero pos c
              ≡ take_hash combine null t m (past_bit combine null t c)))
  reading_leaf pos c = elim (Bool-cases (leb (length t.bits) c.bits_used)) [
    | inl over ↦ inl (unfold traverse_and_extract in rw over)
    | inr inside ↦ inr (
      get_or t.bits c.bits_used false,
      extracted-leaf combine null t pos c _ (refl, ground (arith, inside)),
    )
  ]

  take_hash-bad :
      (m : Bool) (c : Cursor H) → (take_hash combine null t m c).1.bad ≡ false → c.bad ≡ false
  unfolding take_hash
  take_hash-bad m c e = elim (Bool-cases (leb (length t.hashes) c.hashes_used)) [
    | inl over ↦ cc (rw over at e)
    | inr inside ↦ rw inside at e
  ]

  -- Once it is set, fBad stays set.
  extracted-bad :
      (h pos : ℕ) (c : Cursor H)
      → InTree t.total h pos
      → (extracted combine null t h pos c).1.bad ≡ false
      → c.bad ≡ false
  extracted-bad zero pos c place e = elim (reading_leaf pos c) [
    | inl b ↦ cc
    | inr (m, s) ↦ take_hash-bad m (past_bit combine null t c) (rw s at e)
  ]
  extracted-bad (suc h) pos c place e = elim (reading h pos c place) [
    | exhausted b ↦ cc
    | stored s ↦ take_hash-bad false (past_bit combine null t c) (rw s at e)
    | joined two s ↦
        extracted-bad h (pos * 2) (past_bit combine null t c) (left_child place)
          (extracted-bad h (pos * 2 + 1) _ (right_child place (ground (arith, two))) (rw s at e))
    | doubled one s ↦
        extracted-bad h (pos * 2) (past_bit combine null t c) (left_child place) (rw s at e)
  ]

-- Joined hashes that are equal were joined of equal hashes: no collisions.
abbrev pub IsInjective : {H : Type 0} → (H → H → H) → Type 0
IsInjective {H} combine = (a b c d : H) → combine a b ≡ combine c d → (a ≡ c) × (b ≡ d)

module _ {H : Type 0} (combine : H → H → H) (null undef : H) (txids : List H)
    (injective : IsInjective combine) (t : Tree H) (total : t.total ≡ length txids) where
  -- An id of the block.
  abbrev pub IsTxid : H → Type 0
  IsTxid x = (i : ℕ) × (i < length txids) × (get_or txids i undef ≡ x)

  abbrev real_hash : ℕ → ℕ → H
  real_hash h pos = hash_of combine undef txids [] h pos

  real_paired :
      (h pos : ℕ)
      → InTree (length txids) (suc h) pos
      → ltb ((pos * 2 + 1) * 2 ^ h) t.total ≡ true
      → real_hash (suc h) pos ≡ combine (real_hash h (pos * 2)) (real_hash h (pos * 2 + 1))
  real_paired h pos place two = hash_of_node combine undef txids [] place ∙ (rw (sym total, two))

  real_single :
      (h pos : ℕ)
      → InTree (length txids) (suc h) pos
      → ltb ((pos * 2 + 1) * 2 ^ h) t.total ≡ false
      → real_hash (suc h) pos ≡ combine (real_hash h (pos * 2)) (real_hash h (pos * 2))
  real_single h pos place one = hash_of_node combine undef txids [] place ∙ (rw (sym total, one))

  take_leaf :
      (m : Bool) (pos : ℕ) (c : Cursor H)
      → pos < length txids
      → (take_hash combine null t m c).1.bad ≡ false
      → (take_hash combine null t m c).0 ≡ get_or txids pos undef
      → All IsTxid c.matched
      → All IsTxid (take_hash combine null t m c).1.matched
  unfolding take_hash
  take_leaf m pos c inside good same known =
      elim (Bool-cases (leb (length t.hashes) c.hashes_used)) [
        | inl over ↦ absurd (cc (rw over at good))
        | inr held ↦ rw held (add m (rw held at same))
      ]
    where
      add :
          (m : Bool)
          → get_or t.hashes c.hashes_used null ≡ get_or txids pos undef
          → All IsTxid
              (if m then c.matched ++ get_or t.hashes c.hashes_used null ∷ [] else c.matched)
      add true e = All-append IsTxid c.matched _ known ((pos, inside, sym e), tt)
      add false e = known

  take_unmarked :
      (c : Cursor H)
      → All IsTxid c.matched
      → All IsTxid (take_hash combine null t false c).1.matched
  unfolding take_hash
  take_unmarked c known = elim (Bool-cases (leb (length t.hashes) c.hashes_used)) [
    | inl over ↦ rw over known
    | inr held ↦ rw held known
  ]

  -- A node that is read without a fault, with the hash that the block gives it, adds ids of the
  -- block only.
  sound_node :
      (h pos : ℕ) (c : Cursor H)
      → InTree (length txids) h pos
      → (extracted combine null t h pos c).1.bad ≡ false
      → (extracted combine null t h pos c).0 ≡ real_hash h pos
      → All IsTxid c.matched
      → All IsTxid (extracted combine null t h pos c).1.matched
  sound_node zero pos c place good same known = elim (reading_leaf combine null t pos c) [
    | inl b ↦ absurd (cc)
    | inr (m, s) ↦ rw s (
        take_leaf m pos (past_bit combine null t c) (omega (arith, place.inside)) (rw s at good)
          (unfold calc_hash in rw s at same) known)
  ]
  sound_node (suc h) pos c place good same known =
      elim (reading combine null t h pos c (rw total place)) [
        | exhausted b ↦ absurd (cc)
        | stored s ↦ rw s (take_unmarked (past_bit combine null t c) known)
        | joined two s ↦
            let (eq_left, eq_right) =
              injective _ _ _ _ (sym (ap (λ r. r.0) s) ∙ same ∙ real_paired h pos place two) in
            let ok_right = rw s at good in
            let right_place = right_child place (ground (arith, two, total)) in
            let ok_left =
              extracted-bad combine null t h (pos * 2 + 1) _ (rw total right_place) ok_right in
            rw s (
              sound_node h (pos * 2 + 1) _ right_place ok_right eq_right (
                sound_node h (pos * 2) (past_bit combine null t c) (left_child place) ok_left
                  eq_left known))
        | doubled one s ↦
            let (eq_left, _) =
              injective _ _ _ _ (sym (ap (λ r. r.0) s) ∙ same ∙ real_single h pos place one) in
            rw s (
              sound_node h (pos * 2) (past_bit combine null t c) (left_child place) (rw s at good)
                eq_left known)
      ]

  refused :
      {P : Type 0} (root : H) (early found : List H)
      → ◌≡◌ {A = H × List H} (null, early) (root, found)
      → root ≢ null
      → P
  refused root early found e valid = absurd (valid (sym (ap (λ r. r.0) e)))

  check_traversal-passed :
      (r : H × Cursor H) (root : H) (found : List H)
      → check_traversal combine null t r ≡ (root, found)
      → root ≢ null
      → (r.1.bad ≡ false) × (r.0 ≡ root) × (r.1.matched ≡ found)
  unfolding check_traversal
  check_traversal-passed (hash, c) root found e valid = elim (Bool-cases c.bad) [
    | inl b ↦ refused root c.matched found (rw b at e) valid
    | inr good ↦ elim (Bool-cases ((c.bits_used + 7) / 8 == (length t.bits + 7) / 8)) [
      | inr less ↦ refused root c.matched found (rw (good, less) at e) valid
      | inl bits ↦ elim (Bool-cases (c.hashes_used == length t.hashes)) [
        | inr less ↦ refused root c.matched found (rw (good, bits, less) at e) valid
        | inl hashes ↦
            let passed : ◌≡◌ {A = H × List H} (hash, c.matched) (root, found) =
              rw (good, bits, hashes) at e in
            (good, ap (λ r. r.0) passed, ap (λ r. r.1) passed)
      ]
    ]
  ]

  traversed :
      (found : List H)
      → 0 < length txids
      → real_hash (tree_height (length txids)) 0 ≢ null
      → length txids ≤ 2 ^ 16
      → check_traversal combine null t (
          extracted combine null t
            (tree_height t.total)
            0
            (record { bits_used = 0; hashes_used = 0; matched = []; bad = t.bad }))
        ≡ (real_hash (tree_height (length txids)) 0, found)
      → All IsTxid found
  traversed found some_leaf valid few e =
      let root = real_hash (tree_height (length txids)) 0 in
      let start : Cursor H = record { bits_used = 0; hashes_used = 0; matched = []; bad = t.bad } in
      let e2 =
        subst
          (λ h. check_traversal combine null t (extracted combine null t h 0 start) ≡ (root, found))
          (ap tree_height total) e in
      let (good, same, all) =
        check_traversal-passed (extracted combine null t (tree_height (length txids)) 0 start) root
          found e2 valid in
      subst (λ l. All IsTxid l) all
        (sound_node (tree_height (length txids)) 0 start
          (record {
            few = few;
            low = (tree_height_bounds (length txids) few).0;
            inside = omega (arith, some_leaf);
          })
          good same tt)

  -- With a hash that has no collisions, whatever bits and hashes a peer sends with the number of the
  -- block's transactions: if the extraction returns the block's Merkle root, and that is not the
  -- null hash, every id that it matched is an id of the block.
  pub extract_matches_sound :
      (found : List H)
      → 0 < length txids
      → real_hash (tree_height (length txids)) 0 ≢ null
      → extract_matches combine null t ≡ (real_hash (tree_height (length txids)) 0, found)
      → All IsTxid found
  unfolding extract_matches
  extract_matches_sound found some_leaf valid e = elim (Bool-cases (t.total == 0)) [
    | inl no_leaf ↦ refused _ [] found (rw no_leaf at e) valid
    | inr f1 ↦ elim (Bool-cases (ltb max_transactions t.total)) [
      | inl f2 ↦ refused _ [] found (rw (f1, f2) at e) valid
      | inr few ↦ elim (Bool-cases (ltb t.total (length t.hashes))) [
        | inl f3 ↦ refused _ [] found (rw (f1, few, f3) at e) valid
        | inr f3 ↦ elim (Bool-cases (ltb (length t.bits) (length t.hashes))) [
          | inl f4 ↦ refused _ [] found (rw (f1, few, f3, f4) at e) valid
          | inr f4 ↦
              traversed found some_leaf valid (ground (arith, few, total))
                (rw (f1, few, f3, f4) at e)
        ]
      ]
    ]
  ]
