-- ===== src/PartialMerkleTree/Leaves.antt =====
-- The leaves below a node, and which of them are marked.
use primmonero.Base.{
  ℕ, zero, suc, ◌+◌, ◌-◌, ◌*◌, ◌^◌, ◌≤◌, ◌≡◌, refl, ap, sym, ◌∙◌, Bool, true, false, ◌&&◌, List, [],
  ◌∷◌, ◌++◌, append_assoc, ltb, if◌then◌else◌, Bool-cases, inl, inr, length, get_or, arith,
}
use mathlib.Core.Path.{ap₂}
use primmonero.PartialMerkleTree.{u32, match_loop, parent_of_match}
use primmonero.PartialMerkleTree.Height.{InTree, power_bound}

match_loop-found :
    (fuel p stop total : ℕ) (marks : List Bool)
    → match_loop false fuel p stop total marks true ≡ true
unfolding match_loop
match_loop-found zero p stop total marks = refl
match_loop-found (suc fuel) p stop total marks =
    ground (arith, match_loop-found fuel (p + 1) stop total marks)

module _ {H : Type 0} (undef : H) (txids : List H) (marks : List Bool) where
  -- The leaf at `p`, if it is there and marked.
  unfoldable pub leaf : ℕ → List H
  leaf p = if ltb p (length txids) && get_or marks p false then get_or txids p undef ∷ [] else []

  -- The marked leaves among `count`, from `p` on.
  unfoldable pub select : ℕ → ℕ → List H
  select p zero = []
  select p (suc count) = leaf p ++ select (p + 1) count

  pub select-add : (p m n : ℕ) → select p (m + n) ≡ select p m ++ select (p + m) n
  unfolding select
  select-add p zero n =
      let a : 0 + n ≡ n = omega arith in let b : p + 0 ≡ p = omega arith in rw (a, b)
  select-add p (suc m) n =
      let a : suc m + n ≡ suc (m + n) = omega arith in
      let b : p + suc m ≡ p + 1 + m = omega arith in
      rw (a, b) (ap (◌++◌ (leaf p)) (select-add (p + 1) m n) ∙ sym (append_assoc (leaf p) _ _))

  pub select-beyond : (p count : ℕ) → length txids ≤ p → select p count ≡ []
  unfolding select leaf
  select-beyond p zero h = refl
  select-beyond p (suc count) h = ground (arith, select-beyond (p + 1) count (omega arith))

  -- The loop finds a mark unless none of the leaves is marked.
  match_loop-select :
      (fuel p stop : ℕ)
      → stop ≤ p + fuel
      → match_loop false fuel p stop (length txids) marks false ≡ false
      → select p (stop - p) ≡ []
  unfolding match_loop select leaf
  match_loop-select zero p stop enough e =
      let none_left : stop - p ≡ 0 = omega arith in rw none_left
  match_loop-select (suc fuel) p stop enough e = elim (Bool-cases (ltb p stop)) [
    | inr done ↦ let none_left : stop - p ≡ 0 = ground (arith, done) in rw none_left
    | inl more ↦
        let split : stop - p ≡ suc (stop - (p + 1)) = ground (arith, more) in
        rw split (
          ground (
            arith,
            more,
            e,
            match_loop-found fuel (p + 1) stop (length txids) marks,
            match_loop-select fuel (p + 1) stop,
            select-beyond (p + 1) (stop - (p + 1)),
          ))
  ]

  -- A node that is not marked as a parent has no marked leaf below it.
  pub parent_of_match-select :
      {h pos : ℕ}
      → InTree (length txids) h pos
      → parent_of_match false (length txids) h pos marks ≡ false
      → select (pos * 2 ^ h) (2 ^ h) ≡ []
  unfolding parent_of_match
  parent_of_match-select {h} {pos} t e =
      rw count at (match_loop-select (2 ^ h) p (p + 2 ^ h) (omega arith) (rw (first, last) at e))
    where
      p : ℕ
      p = pos * 2 ^ h

      count : p + 2 ^ h - p ≡ 2 ^ h
      count = omega arith

      first : u32 (pos * 2 ^ h) ≡ p
      first = omega (arith, t.inside, t.few)

      last : u32 ((pos + 1) * 2 ^ h) ≡ p + 2 ^ h
      last = omega (arith, t.inside, t.few, power_bound h t.low)

-- The transaction ids whose mark is set, in the order of the block. Missing marks are not set.
abbrev pub marked {ℓ} : {A : Type ℓ} → List A → List Bool → List A
marked [] marks = []
marked (x ∷ xs) [] = []
marked (x ∷ xs) (true ∷ marks) = x ∷ marked xs marks
marked (x ∷ xs) (false ∷ marks) = marked xs marks

module _ {H : Type 0} (undef : H) where
  select-tail :
      (x : H) (xs : List H) (m : Bool) (marks : List Bool) (p n : ℕ)
      → select undef (x ∷ xs) (m ∷ marks) (suc p) n ≡ select undef xs marks p n
  unfolding select
  select-tail x xs m marks p zero = refl
  select-tail x xs m marks p (suc n) =
      let next : suc p + 1 ≡ suc (p + 1) = omega arith in
      rw next (
        ap₂ (λ (a b : List H). a ++ b) (leaf-tail x xs m marks p)
          (select-tail x xs m marks (p + 1) n))
    where
      leaf-tail :
          (x : H) (xs : List H) (m : Bool) (marks : List Bool) (p : ℕ)
          → leaf undef (x ∷ xs) (m ∷ marks) (suc p) ≡ leaf undef xs marks p
      leaf-tail x xs m marks p =
          unfold leaf in
          (let same : ltb (suc p) (suc (length xs)) ≡ ltb p (length xs) = ground arith in rw same)

  select-no_marks : (xs : List H) (p n : ℕ) → select undef xs [] p n ≡ []
  unfolding select leaf
  select-no_marks xs p zero = refl
  select-no_marks xs p (suc n) = elim (Bool-cases (ltb p (length xs))) [
    | inl inside ↦ rw inside (select-no_marks xs (p + 1) n)
    | inr beyond ↦ rw beyond (select-no_marks xs (p + 1) n)
  ]

  first_inside : (n : ℕ) → ltb 0 (suc n) ≡ true
  first_inside n = ground arith

  pub select-marked :
      (xs : List H) (marks : List Bool) → select undef xs marks 0 (length xs) ≡ marked xs marks
  unfolding select leaf
  select-marked [] marks = refl
  select-marked (x ∷ xs) [] = select-no_marks (x ∷ xs) 0 (suc (length xs))
  select-marked (x ∷ xs) (true ∷ marks) =
      rw (first_inside (length xs))
        (ap (◌∷◌ x) (select-tail x xs true marks 0 (length xs) ∙ select-marked xs marks))
  select-marked (x ∷ xs) (false ∷ marks) =
      rw (first_inside (length xs))
        (select-tail x xs false marks 0 (length xs) ∙ select-marked xs marks)
