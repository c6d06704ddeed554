-- ===== src/PartialMerkleTree/Emitted.antt =====
-- What TraverseAndBuild writes for one node, apart from what is there already.
use primmonero.Base.{
  ℕ, zero, suc, ◌+◌, ◌*◌, ◌^◌, ◌≤◌, ◌≡◌, refl, ap, ◌∙◌, Bool, true, false, not, List, [], ◌∷◌, ◌++◌,
  append_assoc, length-append, ltb, if◌then◌else◌, Bool-cases, inl, inr, length, arith,
}
use native.Mathlib.Nat.{pow-suc}
use primmonero.PartialMerkleTree.{parent_of_match, calc_hash, traverse_and_build}
use primmonero.PartialMerkleTree.Height.{
  InTree, left_child, right_child, right_test, u32-left, u32-right, two_halves, power_bound,
}

Pair_path : {A B : Type 0} {a a' : A} {b b' : B} → a ≡ a' → b ≡ b' → ◌≡◌ {A = A × B} (a, b) (a', b')
Pair_path p q = λ i. (p i, q i)

module _ {H : Type 0} (combine : H → H → H) (undef : H) (txids : List H) (marks : List Bool) where
  abbrev pub parent : ℕ → ℕ → Bool
  parent h pos = parent_of_match false (length txids) h pos marks

  abbrev pub hash_of : ℕ → ℕ → H
  hash_of h pos = calc_hash combine undef (length txids) h pos txids

  unfoldable pub node_bits : ℕ → ℕ → List Bool
  node_bits zero pos = parent zero pos ∷ []
  node_bits (suc h) pos =
      let left = node_bits h (pos * 2) in
      let right = node_bits h (pos * 2 + 1) in
      parent (suc h) pos
      ∷ (if not (parent (suc h) pos)
          then []
          else if ltb ((pos * 2 + 1) * 2 ^ h) (length txids)
          then left ++ right
          else left)

  unfoldable pub node_hashes : ℕ → ℕ → List H
  node_hashes zero pos = hash_of zero pos ∷ []
  node_hashes (suc h) pos =
      let left = node_hashes h (pos * 2) in
      let right = node_hashes h (pos * 2 + 1) in
      if not (parent (suc h) pos)
      then hash_of (suc h) pos ∷ []
      else if ltb ((pos * 2 + 1) * 2 ^ h) (length txids)
      then left ++ right
      else left

  -- The hash of an inner node, where nothing wraps.
  pub hash_of_node :
      {h pos : ℕ}
      → InTree (length txids) (suc h) pos
      → hash_of (suc h) pos ≡ (
          if ltb ((pos * 2 + 1) * 2 ^ h) (length txids)
          then combine (hash_of h (pos * 2)) (hash_of h (pos * 2 + 1))
          else combine (hash_of h (pos * 2)) (hash_of h (pos * 2)))
  unfolding calc_hash
  hash_of_node {h} {pos} t = rw (right_test t, u32-left t, u32-right t) (ground arith)

  -- The three kinds of inner node: with no match below, with two children, with one.
  pub data Kind (h pos : ℕ) : Type 0 where
    closed : parent (suc h) pos ≡ false → Kind h pos
    paired :
        parent (suc h) pos ≡ true
        → ltb ((pos * 2 + 1) * 2 ^ h) (length txids) ≡ true
        → InTree (length txids) h (pos * 2 + 1)
        → Kind h pos
    single :
        parent (suc h) pos ≡ true → ltb ((pos * 2 + 1) * 2 ^ h) (length txids) ≡ false → Kind h pos

  pub kind : {h pos : ℕ} → InTree (length txids) (suc h) pos → Kind h pos
  kind {h} {pos} t = elim (Bool-cases (parent (suc h) pos)) [
    | inr none_below ↦ closed none_below
    | inl some_below ↦ elim (Bool-cases (ltb ((pos * 2 + 1) * 2 ^ h) (length txids))) [
      | inl more ↦ paired some_below more (right_child t (ground (arith, more)))
      | inr alone ↦ single some_below alone
    ]
  ]

  -- What is written for each kind.
  pub node-closed :
      (h pos : ℕ)
      → parent (suc h) pos ≡ false
      → (node_bits (suc h) pos ≡ false ∷ []) × (node_hashes (suc h) pos ≡ hash_of (suc h) pos ∷ [])
  unfolding node_bits node_hashes
  node-closed h pos e = (rw e, rw e)

  pub node-paired :
      (h pos : ℕ)
      → parent (suc h) pos ≡ true
      → ltb ((pos * 2 + 1) * 2 ^ h) (length txids) ≡ true
      → (node_bits (suc h) pos ≡ true ∷ (node_bits h (pos * 2) ++ node_bits h (pos * 2 + 1)))
        × (node_hashes (suc h) pos ≡ node_hashes h (pos * 2) ++ node_hashes h (pos * 2 + 1))
  unfolding node_bits node_hashes
  node-paired h pos e more = (rw (e, more), rw (e, more))

  pub node-single :
      (h pos : ℕ)
      → parent (suc h) pos ≡ true
      → ltb ((pos * 2 + 1) * 2 ^ h) (length txids) ≡ false
      → (node_bits (suc h) pos ≡ true ∷ node_bits h (pos * 2))
        × (node_hashes (suc h) pos ≡ node_hashes h (pos * 2))
  unfolding node_bits node_hashes
  node-single h pos e alone = (rw (e, alone), rw (e, alone))

  abbrev built : ℕ → ℕ → List Bool × List H → List Bool × List H
  built h pos = traverse_and_build combine undef false (length txids) h pos txids marks

  pub traverse_and_build-emitted :
      (h pos : ℕ) (bits : List Bool) (hashes : List H)
      → InTree (length txids) h pos
      → built h pos (bits, hashes) ≡ (bits ++ node_bits h pos, hashes ++ node_hashes h pos)
  unfolding traverse_and_build
  traverse_and_build-emitted zero pos bits hashes t = unfold node_bits node_hashes in refl
  traverse_and_build-emitted (suc h) pos bits hashes t =
      rw (right_test t, u32-left t, u32-right t)
        (elim (kind t) [
          | closed e ↦ rw (e, (node-closed h pos e).0, (node-closed h pos e).1)
          | paired e more right ↦
              rw (e, more, (node-paired h pos e more).0, (node-paired h pos e more).1)
                (ap (built h (pos * 2 + 1)) (
                    traverse_and_build-emitted h (pos * 2) (bits ++ true ∷ []) hashes
                      (left_child t))
                  ∙ traverse_and_build-emitted h (pos * 2 + 1)
                      ((bits ++ true ∷ []) ++ node_bits h (pos * 2))
                      (hashes ++ node_hashes h (pos * 2)) right
                  ∙ Pair_path
                      (append_assoc (bits ++ true ∷ []) (node_bits h (pos * 2))
                          (node_bits h (pos * 2 + 1))
                        ∙ append_assoc bits (true ∷ [])
                            (node_bits h (pos * 2) ++ node_bits h (pos * 2 + 1)))
                      (append_assoc hashes (node_hashes h (pos * 2)) (node_hashes h (pos * 2 + 1))))
          | single e alone ↦
              rw (e, alone, (node-single h pos e alone).0, (node-single h pos e alone).1)
                (traverse_and_build-emitted h (pos * 2) (bits ++ true ∷ []) hashes (left_child t)
                  ∙ Pair_path (append_assoc bits (true ∷ []) (node_bits h (pos * 2))) refl)
        ])

  -- A node writes a bit at least for each hash, and a hash at most for each of its leaves.
  pub emitted_sizes :
      (h pos : ℕ)
      → InTree (length txids) h pos
      → (length (node_hashes h pos) ≤ length (node_bits h pos))
        × (length (node_hashes h pos) + pos * 2 ^ h ≤ length txids)
        × (length (node_hashes h pos) ≤ 2 ^ h)
  emitted_sizes zero pos t = unfold node_bits node_hashes in omega (arith, t.inside)
  emitted_sizes (suc h) pos t = elim (kind t) [
    | closed e ↦
        rw ((node-closed h pos e).0, (node-closed h pos e).1)
          (omega (arith, t.inside, power_bound (suc h) t.low))
    | paired e more right ↦
        rw
          (
            (node-paired h pos e more).0,
            (node-paired h pos e more).1,
            length-append (node_bits h (pos * 2)),
            length-append (node_hashes h (pos * 2)),
          )
          (omega (
            arith,
            t.inside,
            two_halves h pos,
            pow-suc 2 h,
            emitted_sizes h (pos * 2) (left_child t),
            emitted_sizes h (pos * 2 + 1) right,
          ))
    | single e alone ↦
        rw ((node-single h pos e alone).0, (node-single h pos e alone).1)
          (omega (
            arith,
            t.inside,
            two_halves h pos,
            pow-suc 2 h,
            emitted_sizes h (pos * 2) (left_child t),
          ))
  ]
