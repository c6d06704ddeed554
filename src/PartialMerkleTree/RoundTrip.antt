-- ===== src/PartialMerkleTree/RoundTrip.antt =====
-- What is built from a block's transaction ids is extracted again.
use primmonero.Base.{
  Pair_path, ℕ, ◌+◌, ◌-◌, ◌*◌, ◌/◌, ◌^◌, ◌≤◌, ◌<◌, ◌≡◌, refl, ◌∙◌, Bool, true, false, List, [],
  append-nil, ltb, ◌==◌, length, arith,
}
use native.Mathlib.Nat.{zero-add}
use primmonero.PartialMerkleTree.{
  tree_height, Tree, Cursor, build, traverse_and_extract, max_transactions, check_traversal,
  extract_matches,
}
use primmonero.PartialMerkleTree.Height.{InTree, tree_height_bounds}
use primmonero.PartialMerkleTree.Leaves.{select, select-add, select-beyond, marked, select-marked}
use primmonero.PartialMerkleTree.Emitted.{
  hash_of, node_bits, node_hashes, emitted_sizes, traverse_and_build-emitted,
}
use primmonero.PartialMerkleTree.Cursors.{IsAt-whole}
use primmonero.PartialMerkleTree.Marks.{build-inside}
use primmonero.PartialMerkleTree.Nodes.{Extracted, read_node}

module _ {H : Type 0} (combine : H → H → H) (null undef : H) (txids : List H)
    (marks : List Bool) where
  -- The Merkle root: the hash of the node that all leaves are below.
  abbrev pub root : H
  root = hash_of combine undef txids marks (tree_height (length txids)) 0

  whole_tree :
      0 < length txids
      → length txids ≤ 2 ^ 16
      → InTree (length txids) (tree_height (length txids)) 0
  whole_tree some_leaf few = record {
    few = few;
    low = (tree_height_bounds (length txids) few).0;
    inside = omega (arith, some_leaf);
  }

  build-emitted :
      InTree (length txids) (tree_height (length txids)) 0
      → build combine undef false txids marks ≡ record {
        total = length txids;
        bits = node_bits combine undef txids marks (tree_height (length txids)) 0;
        hashes = node_hashes combine undef txids marks (tree_height (length txids)) 0;
        bad = false;
      }
  unfolding build
  build-emitted place = rw (
      traverse_and_build-emitted combine undef txids marks (tree_height (length txids)) 0 [] []
        place)

  check_traversal-passes :
      (t : Tree H) (r : H × Cursor H)
      → (r.1).bad ≡ false
      → (r.1).bits_used ≡ length t.bits
      → (r.1).hashes_used ≡ length t.hashes
      → check_traversal combine null t r ≡ (r.0, (r.1).matched)
  unfolding check_traversal
  check_traversal-passes t (hash, c) good bits hashes =
      let same_bytes : ((c.bits_used + 7) / 8 == (length t.bits + 7) / 8) ≡ true =
        ground (arith, bits) in
      let same_count : (c.hashes_used == length t.hashes) ≡ true = ground (arith, hashes) in
      rw (good, same_bytes, same_count)

  abbrev start : Cursor H
  start = record { bits_used = 0; hashes_used = 0; matched = []; bad = false }

  select-root :
      length txids ≤ 2 ^ 16
      → select undef txids marks
          (0 * 2 ^ tree_height (length txids))
          (2 ^ tree_height (length txids))
        ≡ marked txids marks
  select-root few =
      let first : 0 * 2 ^ tree_height (length txids) ≡ 0 = omega arith in
      let all : 2 ^ tree_height (length txids)
          ≡ length txids + (2 ^ tree_height (length txids) - length txids) =
        omega (arith, (tree_height_bounds (length txids) few).1) in
      rw
        (
          first,
          all,
          select-add undef txids marks 0 (length txids)
              (2 ^ tree_height (length txids) - length txids),
          select-beyond undef txids marks (0 + length txids)
              (2 ^ tree_height (length txids) - length txids) (omega arith),
        )
        (append-nil _ ∙ select-marked undef txids marks)

  -- For a block of at least one transaction, and at most as many as the extraction allows, the tree
  -- that is built from the ids and a mask with a bit for each of them is accepted: the extraction
  -- returns the block's Merkle root and exactly the masked ids in their order.
  pub extract_matches-build :
      (undef_match : Bool)
      → 0 < length txids
      → length txids ≤ max_transactions
      → length marks ≡ length txids
      → extract_matches combine null (build combine undef undef_match txids marks)
        ≡ (root, marked txids marks)
  unfolding extract_matches
  extract_matches-build undef_match some_leaf few each =
      rw
        (
          build-inside combine undef undef_match txids marks (omega (arith, each)),
          build-emitted place,
        )
        (rw (some, fits, hashes_fit, bits_fit)
          (check_traversal-passes tree (traverse_and_extract combine null tree height 0 start)
              read.bad (read.bits ∙ zero-add _) (read.hashes ∙ zero-add _)
            ∙ Pair_path read.hash (read.matched ∙ select-root small)))
    where
      small : length txids ≤ 2 ^ 16
      small = omega arith

      height : ℕ
      height = tree_height (length txids)

      place : InTree (length txids) height 0
      place = whole_tree some_leaf small

      tree : Tree H
      tree = record {
        total = length txids;
        bits = node_bits combine undef txids marks height 0;
        hashes = node_hashes combine undef txids marks height 0;
        bad = false;
      }

      read :
          Extracted combine null undef txids marks height 0 start
            (traverse_and_extract combine null tree height 0 start)
      read =
          read_node combine null undef txids marks tree height 0 start refl place
            (IsAt-whole tree.bits) (IsAt-whole tree.hashes)

      sizes :
          (length tree.hashes ≤ length tree.bits)
          × (length tree.hashes + 0 * 2 ^ height ≤ length txids)
          × (length tree.hashes ≤ 2 ^ height)
      sizes = emitted_sizes combine undef txids marks height 0 place

      some : (length txids == 0) ≡ false
      some = ground arith

      fits : ltb max_transactions (length txids) ≡ false
      fits = ground arith

      hashes_fit : ltb (length txids) (length tree.hashes) ≡ false
      hashes_fit = ground (arith, sizes)

      bits_fit : ltb (length tree.bits) (length tree.hashes) ≡ false
      bits_fit = ground (arith, sizes)
