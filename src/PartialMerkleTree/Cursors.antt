-- ===== src/PartialMerkleTree/Cursors.antt =====
-- Reading a part of a list at an offset.
use primmonero.Base.{
  ℕ, ◌+◌, ◌<◌, ◌≡◌, refl, ap, sym, ◌∙◌, List, [], ◌∷◌, ◌++◌, append_assoc, append-nil, length,
  length-append, get_or, arith,
}

-- `part` stands in `whole` from `used` on.
pub record IsAt {A : Type 0} (whole : List A) (used : ℕ) (part : List A) : Type 0 where
  pub before : List A
  pub after : List A
  pub split : whole ≡ before ++ (part ++ after)
  pub place : length before ≡ used

module _ {A : Type 0} where
  pub IsAt-whole : (whole : List A) → IsAt whole 0 whole
  IsAt-whole whole = record {
    before = [];
    after = [];
    split = sym (append-nil whole);
    place = refl;
  }

  pub IsAt-front :
      {whole : List A} {used : ℕ} (xs ys : List A) → IsAt whole used (xs ++ ys) → IsAt whole used xs
  IsAt-front xs ys p = record {
    before = p.before;
    after = ys ++ p.after;
    split = p.split ∙ ap (◌++◌ p.before) (append_assoc xs ys p.after);
    place = p.place;
  }

  pub IsAt-back :
      {whole : List A} {used : ℕ} (xs ys : List A)
      → IsAt whole used (xs ++ ys)
      → IsAt whole (used + length xs) ys
  IsAt-back xs ys p = record {
    before = p.before ++ xs;
    after = p.after;
    split =
        p.split
        ∙ ap (◌++◌ p.before) (append_assoc xs ys p.after)
        ∙ sym (append_assoc p.before xs (ys ++ p.after));
    place = length-append p.before xs ∙ ap (λ (t : ℕ). t + length xs) p.place;
  }

  get_or-middle :
      (before : List A) (x : A) (after : List A) (d : A)
      → (get_or (before ++ x ∷ after) (length before) d ≡ x)
        × (length before < length (before ++ x ∷ after))
  get_or-middle [] x after d = (refl, omega arith)
  get_or-middle (b ∷ before) x after d =
      let (here, inside) = get_or-middle before x after d in (here, omega arith)

  pub IsAt-head :
      {whole : List A} {used : ℕ} (x : A) (xs : List A) (d : A)
      → IsAt whole used (x ∷ xs)
      → (get_or whole used d ≡ x) × (used < length whole)
  IsAt-head x xs d p = rw (p.split, sym p.place) (get_or-middle p.before x (xs ++ p.after) d)
