-- ===== src/PartialMerkleTree.antt =====
-- CPartialMerkleTree (src/servilo/main.h and main.cpp): the part of a block's Merkle tree that
-- proves some of its transactions. The hash of two joined hashes is the argument `combine`, the
-- zero hash is `null`, and `undef` stands for what a read past the end of a vector gives, which C++
-- leaves undefined. A vector of bits or hashes is a list; `unsigned int` values wrap by `u32`.
pub mod Height
pub mod Leaves
pub mod Emitted
pub mod Cursors
pub mod Steps
pub mod Nodes
pub mod Marks
pub mod RoundTrip
pub mod Soundness
mod Runs
use primmonero.Base.{
  ℕ, zero, suc, ◌+◌, ◌-◌, ◌*◌, ◌/◌, ◌%◌, ◌^◌, Bool, true, false, not, ◌&&◌, ◌||◌, List, [], ◌∷◌,
  ◌++◌, ltb, leb, ◌==◌, if◌then◌else◌, length, get_or,
}

abbrev pub u32 : ℕ → ℕ
u32 n = n % 2 ^ 32

-- `total` is nTransactions.
pub calc_tree_width : ℕ → ℕ → ℕ
calc_tree_width total height = u32 (total + 2 ^ height + (2 ^ 32 - 1)) / 2 ^ height

-- The loop `while (CalcTreeWidth(nHeight) > 1) nHeight++`, on fuel.
pub find_height : ℕ → ℕ → ℕ → ℕ
find_height zero total height = height
find_height (suc fuel) total height = elim (ltb 1 (calc_tree_width total height)) [
  | true ↦ find_height fuel total (height + 1)
  | false ↦ height
]

-- A tree of 2 ^ 31 transactions has height 31.
pub tree_height : ℕ → ℕ
tree_height total = find_height 32 total 0

-- The loop over the leaves below a node: `for (p = pos << height; p < (pos+1) << height && p <
-- nTransactions; p++) fParentOfMatch |= vMatch[p]`, on fuel. `undef` stands for a vMatch[p] past the
-- vector's end.
pub match_loop : Bool → ℕ → ℕ → ℕ → ℕ → List Bool → Bool → Bool
match_loop undef zero p stop total marks found = found
match_loop undef (suc fuel) p stop total marks found = elim (ltb p stop && ltb p total) [
  | true ↦ match_loop undef fuel (p + 1) stop total marks (found || get_or marks p undef)
  | false ↦ found
]

-- At most 2 ^ height leaves lie below a node.
pub parent_of_match : Bool → ℕ → ℕ → ℕ → List Bool → Bool
parent_of_match undef total height pos marks =
    match_loop undef (2 ^ height) (u32 (pos * 2 ^ height)) (u32 ((pos + 1) * 2 ^ height)) total
      marks false

-- The fields vBits, vHash and fBad, and nTransactions.
pub record Tree (H : Type 0) : Type 0 where
  pub total : ℕ
  pub bits : List Bool
  pub hashes : List H
  pub bad : Bool

-- What TraverseAndExtract changes through its references: nBitsUsed, nHashUsed, vMatch and fBad.
pub record Cursor (H : Type 0) : Type 0 where
  pub bits_used : ℕ
  pub hashes_used : ℕ
  pub matched : List H
  pub bad : Bool

module _ {H : Type 0} (combine : H → H → H) (undef : H) where
  pub calc_hash : ℕ → ℕ → ℕ → List H → H
  calc_hash total zero pos txids = get_or txids pos undef
  calc_hash total (suc height) pos txids =
      let left = calc_hash total height (u32 (pos * 2)) txids in
      let other = calc_hash total height (u32 (pos * 2 + 1)) txids in
      combine left (if ltb (u32 (pos * 2 + 1)) (calc_tree_width total height) then other else left)

module _ {H : Type 0} (combine : H → H → H) (undef : H) (undef_match : Bool) where
  -- The bits and the hashes grow at their ends.
  pub traverse_and_build : ℕ → ℕ → ℕ → List H → List Bool → List Bool × List H → List Bool × List H
  traverse_and_build total zero pos txids marks (bits, hashes) = (
    bits ++ parent_of_match undef_match total zero pos marks ∷ [],
    hashes ++ calc_hash combine undef total zero pos txids ∷ [],
  )
  traverse_and_build total (suc height) pos txids marks (bits, hashes) =
      let parent = parent_of_match undef_match total (suc height) pos marks in
      let here = bits ++ parent ∷ [] in
      let left = traverse_and_build total height (u32 (pos * 2)) txids marks (here, hashes) in
      let both = traverse_and_build total height (u32 (pos * 2 + 1)) txids marks left in
      if not parent
      then (here, hashes ++ calc_hash combine undef total (suc height) pos txids ∷ [])
      else if ltb (u32 (pos * 2 + 1)) (calc_tree_width total height)
      then both
      else left

  -- The constructor from the transaction ids and the mask.
  pub build : List H → List Bool → Tree H
  build txids marks =
      let total = length txids in
      let (bits, hashes) = traverse_and_build total (tree_height total) 0 txids marks ([], []) in
      record { total = total; bits = bits; hashes = hashes; bad = false }

-- MAX_BLOCK_SIZE / 60.
abbrev pub max_transactions : ℕ
max_transactions = 1_000_000 / 60

module _ {H : Type 0} (combine : H → H → H) (null : H) where
  -- The stored hash of a node that is not descended into.
  pub take_hash : Tree H → Bool → Cursor H → H × Cursor H
  take_hash t leaf_match c =
      if leb (length t.hashes) c.hashes_used
      then (null, record c { bad = true })
      else (let hash = get_or t.hashes c.hashes_used null in
          (
            hash,
            record c {
              hashes_used = c.hashes_used + 1;
              matched = if leaf_match then c.matched ++ hash ∷ [] else c.matched;
            },
          ))

  pub traverse_and_extract : Tree H → ℕ → ℕ → Cursor H → H × Cursor H
  traverse_and_extract t zero pos c =
      if leb (length t.bits) c.bits_used
      then (null, record c { bad = true })
      else take_hash t (get_or t.bits c.bits_used false) (record c { bits_used = c.bits_used + 1 })
  traverse_and_extract t (suc height) pos c =
      let parent = get_or t.bits c.bits_used false in
      let here : Cursor H = record c { bits_used = c.bits_used + 1 } in
      let (left, c1) = traverse_and_extract t height (u32 (pos * 2)) here in
      let (right, c2) = traverse_and_extract t height (u32 (pos * 2 + 1)) c1 in
      if leb (length t.bits) c.bits_used
      then (null, record c { bad = true })
      else if not parent
      then take_hash t false here
      else if ltb (u32 (pos * 2 + 1)) (calc_tree_width t.total height)
      then (combine left right, c2)
      else (combine left left, c1)

  -- The tests after the traversal.
  pub check_traversal : Tree H → H × Cursor H → H × List H
  check_traversal t (root, c) =
      if c.bad
      then (null, c.matched)
      else if not ((c.bits_used + 7) / 8 == (length t.bits + 7) / 8)
      then (null, c.matched)
      else if not (c.hashes_used == length t.hashes)
      then (null, c.matched)
      else (root, c.matched)

  -- The root, and the matches that are left in vMatch.
  pub extract_matches : Tree H → H × List H
  extract_matches t =
      if t.total == 0
      then (null, [])
      else if ltb max_transactions t.total
      then (null, [])
      else if ltb t.total (length t.hashes)
      then (null, [])
      else if ltb (length t.bits) (length t.hashes)
      then (null, [])
      else (let start : Cursor H = record {
        bits_used = 0;
        hashes_used = 0;
        matched = [];
        bad = t.bad;
      } in
          check_traversal t (traverse_and_extract t (tree_height t.total) 0 start))
