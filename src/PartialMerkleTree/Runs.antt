-- ===== src/PartialMerkleTree/Runs.antt =====
-- Runs of partial Merkle trees over hashes that are written out as terms.
use primmonero.Base.{
  ℕ, ◌<◌, ◌≡◌, ◌≢◌, refl, Bool, true, false, List, [], ◌∷◌, All, length, get_or, arith,
}
use primmonero.PartialMerkleTree.{
  Tree, tree_height, find_height, calc_tree_width, match_loop, parent_of_match, calc_hash,
  traverse_and_build, build, take_hash, traverse_and_extract, check_traversal, extract_matches,
}
use primmonero.PartialMerkleTree.RoundTrip.{extract_matches-build}
use primmonero.PartialMerkleTree.Soundness.{extract_matches_sound, IsInjective}

data Hash : Type 0 where
  zero_hash : Hash
  leaf : ℕ → Hash
  join : Hash → Hash → Hash

join-IsInjective : IsInjective join
join-IsInjective a b c d e = (cc, cc)

abbrev three : List Hash
three = leaf 5 ∷ leaf 6 ∷ leaf 7 ∷ []

abbrev last_only : List Bool
last_only = false ∷ false ∷ true ∷ []

-- Three ids, of which the last is marked: the left half is one hash.
abbrev proof : Tree Hash
proof = record {
  total = 3;
  bits = true ∷ false ∷ true ∷ true ∷ [];
  hashes = join (leaf 5) (leaf 6) ∷ leaf 7 ∷ [];
  bad = false;
}

abbrev root : Hash
root = join (join (leaf 5) (leaf 6)) (join (leaf 7) (leaf 7))

build-three : build join zero_hash true three last_only ≡ proof
unfolding build traverse_and_build calc_hash parent_of_match match_loop tree_height find_height
    calc_tree_width
build-three = refl

extract_three : extract_matches join zero_hash proof ≡ (root, leaf 7 ∷ [])
unfolding extract_matches check_traversal traverse_and_extract take_hash tree_height find_height
    calc_tree_width
extract_three = refl

-- A hash too many is refused.
extract_unused_hash :
    extract_matches join zero_hash
      (record proof { hashes = join (leaf 5) (leaf 6) ∷ leaf 7 ∷ leaf 7 ∷ [] })
    ≡ (zero_hash, leaf 7 ∷ [])
unfolding extract_matches check_traversal traverse_and_extract take_hash tree_height find_height
    calc_tree_width
extract_unused_hash = refl

extract_matches-build_example :
    extract_matches join zero_hash (build join zero_hash true three last_only) ≡ (root, leaf 7 ∷ [])
unfolding calc_hash tree_height find_height calc_tree_width
extract_matches-build_example =
    extract_matches-build join zero_hash zero_hash three last_only true (omega arith) (omega arith)
      refl

root_valid : root ≢ zero_hash
root_valid e = cc

extract_matches_sound_example :
    All (λ x. (i : ℕ) × (i < length three) × (get_or three i zero_hash ≡ x)) (leaf 7 ∷ [])
unfolding tree_height find_height calc_tree_width extract_matches check_traversal
    traverse_and_extract take_hash calc_hash
extract_matches_sound_example =
    extract_matches_sound join zero_hash zero_hash three join-IsInjective proof refl (leaf 7 ∷ [])
      (omega arith) root_valid extract_three
