-- ===== src/PartialMerkleTree/Marks.antt =====
-- With a mark for each transaction, TraverseAndBuild reads none past the end of vMatch.
use primmonero.Base.{
  ℕ, zero, suc, ◌+◌, ◌*◌, ◌≤◌, ◌<◌, ◌≡◌, refl, Bool, false, ◌&&◌, ◌||◌, List, [], ◌∷◌, ◌++◌, ltb,
  length, get_or, Bool-cases, inl, inr, arith,
}
use primmonero.PartialMerkleTree.{
  u32, match_loop, parent_of_match, traverse_and_build, build, tree_height,
}

get_or-inside :
    (marks : List Bool) (p : ℕ) (b : Bool)
    → p < length marks
    → get_or marks p b ≡ get_or marks p false
get_or-inside [] p b h = absurd (omega (arith, h))
get_or-inside (m ∷ marks) zero b h = refl
get_or-inside (m ∷ marks) (suc p) b h = get_or-inside marks p b (omega (arith, h))

match_loop-inside :
    (b : Bool) (fuel p stop total : ℕ) (marks : List Bool) (found : Bool)
    → total ≤ length marks
    → match_loop b fuel p stop total marks found ≡ match_loop false fuel p stop total marks found
unfolding match_loop
match_loop-inside b zero p stop total marks found enough = refl
match_loop-inside b (suc fuel) p stop total marks found enough =
    elim (Bool-cases (ltb p stop && ltb p total)) [
      | inr done ↦ rw (match_loop, done) refl
      | inl more ↦
          rw (match_loop, more, get_or-inside marks p b (ground (arith, more, enough)))
            (match_loop-inside b fuel (p + 1) stop total marks (found || get_or marks p false)
              enough)
    ]

parent_of_match-inside :
    (b : Bool) (total height pos : ℕ) (marks : List Bool)
    → total ≤ length marks
    → parent_of_match b total height pos marks ≡ parent_of_match false total height pos marks
unfolding parent_of_match
parent_of_match-inside b total height pos marks enough =
    match_loop-inside b _ _ _ total marks false enough

module _ {H : Type 0} (combine : H → H → H) (undef : H) (b : Bool) where
  traverse_and_build-inside :
      (total height pos : ℕ) (txids : List H) (marks : List Bool) (acc : List Bool × List H)
      → total ≤ length marks
      → traverse_and_build combine undef b total height pos txids marks acc
        ≡ traverse_and_build combine undef false total height pos txids marks acc
  unfolding traverse_and_build
  traverse_and_build-inside total zero pos txids marks (bits, hashes) enough =
      rw (parent_of_match-inside b total zero pos marks enough) refl
  traverse_and_build-inside total (suc height) pos txids marks (bits, hashes) enough =
      let here = bits ++ parent_of_match false total (suc height) pos marks ∷ [] in
      let left =
        traverse_and_build combine undef false total height (u32 (pos * 2)) txids marks
          (here, hashes) in
      rw
        (
          parent_of_match-inside b total (suc height) pos marks enough,
          traverse_and_build-inside total height (u32 (pos * 2)) txids marks (here, hashes) enough,
          traverse_and_build-inside total height (u32 (pos * 2 + 1)) txids marks left enough,
        )
        refl

  pub build-inside :
      (txids : List H) (marks : List Bool)
      → length txids ≤ length marks
      → build combine undef b txids marks ≡ build combine undef false txids marks
  unfolding build
  build-inside txids marks enough =
      rw
        (traverse_and_build-inside (length txids) (tree_height (length txids)) 0 txids marks
          ([], []) enough)
        refl
