-- ===== src/PartialMerkleTree/Nodes.antt =====
-- A node that was written is read back, by induction on its height.
use primmonero.Base.{
  ℕ, zero, suc, ◌+◌, ◌*◌, ◌^◌, ◌<◌, ◌≡◌, refl, ap, sym, ◌∙◌, Bool, true, false, List, [], ◌∷◌, ◌++◌,
  append_assoc, append-nil, length-append, ltb, leb, if◌then◌else◌, Bool-cases, inl, inr, length,
  get_or, arith,
}
use mathlib.Core.Path.{subst}
use native.Mathlib.Nat.{pow-suc}
use primmonero.PartialMerkleTree.{
  u32, parent_of_match, match_loop, calc_hash, Tree, Cursor, take_hash, traverse_and_extract,
}
use primmonero.PartialMerkleTree.Height.{InTree, pos-le, left_child, two_halves}
use primmonero.PartialMerkleTree.Leaves.{
  leaf, select, select-add, select-beyond, parent_of_match-select, marked,
}
use primmonero.PartialMerkleTree.Emitted.{
  parent, hash_of, node_bits, node_hashes, hash_of_node, closed, paired, single, kind, node-closed,
  node-paired, node-single,
}
use primmonero.PartialMerkleTree.Cursors.{IsAt, IsAt-front, IsAt-back, IsAt-head}
use primmonero.PartialMerkleTree.Steps.{
  past_bit, extracted-leaf, extracted-closed, extracted-paired, extracted-single,
}

push_if {ℓ} :
    {A : Type ℓ} (m : Bool) (xs : List A) (x : A)
    → (if m then xs ++ x ∷ [] else xs) ≡ xs ++ (if m then x ∷ [] else [])
push_if true xs x = refl
push_if false xs x = sym (append-nil xs)

one_round :
    (pos total : ℕ) (marks : List Bool)
    → pos < total
    → match_loop false 1 pos (pos + 1) total marks false ≡ get_or marks pos false
unfolding match_loop
one_round pos total marks inside = ground arith

module _ {H : Type 0} (combine : H → H → H) (null undef : H) (txids : List H)
    (marks : List Bool) where
  -- A node that is read back as it was written.
  pub record Extracted (h pos : ℕ) (c : Cursor H) (r : H × Cursor H) : Type 0 where
    pub hash : r.0 ≡ hash_of combine undef txids marks h pos
    pub bits : (r.1).bits_used ≡ c.bits_used + length (node_bits combine undef txids marks h pos)
    pub hashes :
        (r.1).hashes_used ≡ c.hashes_used + length (node_hashes combine undef txids marks h pos)
    pub matched : (r.1).matched ≡ c.matched ++ select undef txids marks (pos * 2 ^ h) (2 ^ h)
    pub bad : (r.1).bad ≡ c.bad

  parent_of_leaf :
      (pos : ℕ)
      → InTree (length txids) zero pos
      → parent combine undef txids marks zero pos ≡ get_or marks pos false
  unfolding parent_of_match
  parent_of_leaf pos t =
      let first : u32 (pos * 2 ^ 0) ≡ pos = omega (arith, pos-le t) in
      let last : u32 ((pos + 1) * 2 ^ 0) ≡ pos + 1 = omega (arith, pos-le t) in
      rw (first, last) (one_round pos (length txids) marks (omega (arith, t.inside)))

  -- A mark on a leaf is its bit.
  leaf-parent :
      (pos : ℕ)
      → InTree (length txids) zero pos
      → (if parent combine undef txids marks zero pos then get_or txids pos undef ∷ [] else [])
        ≡ select undef txids marks (pos * 2 ^ 0) (2 ^ 0)
  unfolding select leaf
  leaf-parent pos t =
      let same : pos * 2 ^ 0 ≡ pos = omega arith in
      let inside : ltb pos (length txids) ≡ true = ground (arith, t.inside) in
      rw (parent_of_leaf pos t, same, inside)
        (elim (Bool-cases (get_or marks pos false)) [
          | inl marked ↦ rw marked
          | inr plain ↦ rw plain
        ])

  take_hash-at :
      (t : Tree H) (m : Bool) (c : Cursor H) (x : H)
      → IsAt t.hashes c.hashes_used (x ∷ [])
      → (take_hash combine null t m c ≡ (
        x,
        record c {
          hashes_used = c.hashes_used + 1;
          matched = if m then c.matched ++ x ∷ [] else c.matched;
        },
      ))
  unfolding take_hash
  take_hash-at t m c x at_hash =
      let (e, inside) = IsAt-head x [] null at_hash in
      let more : leb (length t.hashes) c.hashes_used ≡ false = ground (arith, inside) in
      rw (more, e)

  read_leaf :
      (t : Tree H) (pos : ℕ) (c : Cursor H)
      → InTree (length txids) zero pos
      → IsAt t.bits c.bits_used (node_bits combine undef txids marks zero pos)
      → IsAt t.hashes c.hashes_used (node_hashes combine undef txids marks zero pos)
      → Extracted zero pos c (traverse_and_extract combine null t zero pos c)
  unfolding node_bits node_hashes
  read_leaf t pos c place at_bits at_hashes =
      rw
        (
          extracted-leaf combine null t pos c mark (IsAt-head mark [] false at_bits),
          take_hash-at t mark (past_bit combine null t c)
              (hash_of combine undef txids marks zero pos) at_hashes,
        )
        (record {
          hash = refl;
          bits = refl;
          hashes = refl;
          matched =
              push_if mark c.matched (hash_of combine undef txids marks zero pos)
              ∙ ap (◌++◌ c.matched) (unfold calc_hash in leaf-parent pos place);
          bad = refl;
        })
    where
      mark : Bool
      mark = parent combine undef txids marks zero pos

  read_closed :
      (t : Tree H) (h pos : ℕ) (c : Cursor H)
      → InTree (length txids) (suc h) pos
      → parent combine undef txids marks (suc h) pos ≡ false
      → IsAt t.bits c.bits_used (false ∷ [])
      → IsAt t.hashes c.hashes_used (hash_of combine undef txids marks (suc h) pos ∷ [])
      → Extracted (suc h) pos c (traverse_and_extract combine null t (suc h) pos c)
  read_closed t h pos c place closed_node at_bits at_hashes =
      rw
        (
          extracted-closed combine null t h pos c (IsAt-head false [] false at_bits),
          take_hash-at t false (past_bit combine null t c)
              (hash_of combine undef txids marks (suc h) pos) at_hashes,
        )
        (record {
          hash = refl;
          bits = rw (node-closed combine undef txids marks h pos closed_node).0;
          hashes = rw (node-closed combine undef txids marks h pos closed_node).1;
          matched =
              rw (parent_of_match-select undef txids marks place closed_node)
                (sym (append-nil c.matched));
          bad = refl;
        })

  -- The leaves below a node are those below its children.
  select-halves :
      (h pos : ℕ)
      → select undef txids marks (pos * 2 ^ suc h) (2 ^ suc h)
        ≡ select undef txids marks (pos * 2 * 2 ^ h) (2 ^ h)
          ++ select undef txids marks ((pos * 2 + 1) * 2 ^ h) (2 ^ h)
  select-halves h pos =
      let count : 2 ^ suc h ≡ 2 ^ h + 2 ^ h = omega (arith, pow-suc 2 h) in
      let next : (pos * 2 + 1) * 2 ^ h ≡ pos * 2 * 2 ^ h + 2 ^ h = omega arith in
      rw (two_halves h pos, count, next)
        (select-add undef txids marks (pos * 2 * 2 ^ h) (2 ^ h) (2 ^ h))

  -- What the induction gives for a child.
  abbrev ReadsAt : Tree H → ℕ → ℕ → Type 0
  ReadsAt t h pos =
      (d : Cursor H)
      → IsAt t.bits d.bits_used (node_bits combine undef txids marks h pos)
      → IsAt t.hashes d.hashes_used (node_hashes combine undef txids marks h pos)
      → Extracted h pos d (traverse_and_extract combine null t h pos d)

  read_single :
      (t : Tree H) (h pos : ℕ) (c : Cursor H)
      → t.total ≡ length txids
      → InTree (length txids) (suc h) pos
      → parent combine undef txids marks (suc h) pos ≡ true
      → ltb ((pos * 2 + 1) * 2 ^ h) (length txids) ≡ false
      → IsAt t.bits c.bits_used (true ∷ node_bits combine undef txids marks h (pos * 2))
      → IsAt t.hashes c.hashes_used (node_hashes combine undef txids marks h (pos * 2))
      → ReadsAt t h (pos * 2)
      → Extracted (suc h) pos c (traverse_and_extract combine null t (suc h) pos c)
  read_single t h pos c total place e alone at_bits at_hashes left =
      rw
        (extracted-single combine null t h pos c (IsAt-head true _ false at_bits) (rw total place)
          (rw total alone))
        (record {
          hash = rw (l.hash) (sym (hash_of_node combine undef txids marks place ∙ (rw alone)));
          bits =
              omega
                (arith, l.bits, ap length (node-single combine undef txids marks h pos e alone).0);
          hashes =
              omega (
                arith,
                l.hashes,
                ap length (node-single combine undef txids marks h pos e alone).1,
              );
          matched =
              l.matched
              ∙ ap (◌++◌ c.matched) (
                  sym (
                    select-halves h pos
                    ∙ ap (◌++◌ (select undef txids marks (pos * 2 * 2 ^ h) (2 ^ h))) (
                        select-beyond undef txids marks ((pos * 2 + 1) * 2 ^ h) (2 ^ h)
                          (ground (arith, alone)))
                    ∙ append-nil (select undef txids marks (pos * 2 * 2 ^ h) (2 ^ h))));
          bad = l.bad;
        })
    where
      l :
          Extracted h
            (pos * 2)
            (past_bit combine null t c)
            (traverse_and_extract combine null t h (pos * 2) (past_bit combine null t c))
      l = left (past_bit combine null t c) (IsAt-back (true ∷ []) _ at_bits) at_hashes

  read_paired :
      (t : Tree H) (h pos : ℕ) (c : Cursor H)
      → t.total ≡ length txids
      → InTree (length txids) (suc h) pos
      → parent combine undef txids marks (suc h) pos ≡ true
      → ltb ((pos * 2 + 1) * 2 ^ h) (length txids) ≡ true
      → IsAt t.bits c.bits_used (
          true
          ∷ (node_bits combine undef txids marks h (pos * 2)
              ++ node_bits combine undef txids marks h (pos * 2 + 1)))
      → IsAt t.hashes c.hashes_used (
          node_hashes combine undef txids marks h (pos * 2)
          ++ node_hashes combine undef txids marks h (pos * 2 + 1))
      → ReadsAt t h (pos * 2)
      → ReadsAt t h (pos * 2 + 1)
      → Extracted (suc h) pos c (traverse_and_extract combine null t (suc h) pos c)
  read_paired t h pos c total place e more at_bits at_hashes left right =
      rw
        (extracted-paired combine null t h pos c (IsAt-head true _ false at_bits) (rw total place)
          (rw total more))
        (record {
          hash =
              rw (l.hash, r.hash) (sym (hash_of_node combine undef txids marks place ∙ (rw more)));
          bits = omega (
            arith,
            l.bits,
            r.bits,
            ap length (node-paired combine undef txids marks h pos e more).0,
            length-append bits_left (node_bits combine undef txids marks h (pos * 2 + 1)),
          );
          hashes = omega (
            arith,
            l.hashes,
            r.hashes,
            ap length (node-paired combine undef txids marks h pos e more).1,
            length-append hashes_left (node_hashes combine undef txids marks h (pos * 2 + 1)),
          );
          matched =
              r.matched
              ∙ ap (λ (m : List H). m ++ select undef txids marks ((pos * 2 + 1) * 2 ^ h) (2 ^ h))
                  l.matched
              ∙ append_assoc c.matched _ _
              ∙ ap (◌++◌ c.matched) (sym (select-halves h pos));
          bad = r.bad ∙ l.bad;
        })
    where
      bits_left : List Bool
      bits_left = node_bits combine undef txids marks h (pos * 2)

      hashes_left : List H
      hashes_left = node_hashes combine undef txids marks h (pos * 2)

      at_left : H × Cursor H
      at_left = traverse_and_extract combine null t h (pos * 2) (past_bit combine null t c)

      below :
          IsAt t.bits
            (c.bits_used + 1)
            (bits_left ++ node_bits combine undef txids marks h (pos * 2 + 1))
      below = IsAt-back (true ∷ []) _ at_bits

      l : Extracted h (pos * 2) (past_bit combine null t c) at_left
      l =
          left (past_bit combine null t c) (IsAt-front bits_left _ below)
            (IsAt-front hashes_left _ at_hashes)

      r :
          Extracted h
            (pos * 2 + 1)
            at_left.1
            (traverse_and_extract combine null t h (pos * 2 + 1) at_left.1)
      r =
          right at_left.1
            (subst (λ u. IsAt t.bits u (node_bits combine undef txids marks h (pos * 2 + 1)))
              (sym l.bits) (IsAt-back bits_left _ below))
            (subst (λ u. IsAt t.hashes u (node_hashes combine undef txids marks h (pos * 2 + 1)))
              (sym l.hashes) (IsAt-back hashes_left _ at_hashes))

  pub read_node :
      (t : Tree H) (h pos : ℕ) (c : Cursor H)
      → t.total ≡ length txids
      → InTree (length txids) h pos
      → IsAt t.bits c.bits_used (node_bits combine undef txids marks h pos)
      → IsAt t.hashes c.hashes_used (node_hashes combine undef txids marks h pos)
      → Extracted h pos c (traverse_and_extract combine null t h pos c)
  read_node t zero pos c total place at_bits at_hashes = read_leaf t pos c place at_bits at_hashes
  read_node t (suc h) pos c total place at_bits at_hashes =
      elim (kind combine undef txids marks place) [
        | closed e ↦
            let (bits, hashes) = node-closed combine undef txids marks h pos e in
            read_closed t h pos c place e (rw bits at at_bits) (rw hashes at at_hashes)
        | paired e more right ↦
            let (bits, hashes) = node-paired combine undef txids marks h pos e more in
            read_paired t h pos c total place e more (rw bits at at_bits) (rw hashes at at_hashes)
              (λ d. read_node t h (pos * 2) d total (left_child place))
              (λ d. read_node t h (pos * 2 + 1) d total right)
        | single e alone ↦
            let (bits, hashes) = node-single combine undef txids marks h pos e alone in
            read_single t h pos c total place e alone (rw bits at at_bits) (rw hashes at at_hashes)
              (λ d. read_node t h (pos * 2) d total (left_child place))
      ]
