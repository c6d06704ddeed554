-- ===== src/Coins/Cleanup.antt =====
-- What Cleanup takes away.
use primmonero.Base.{
  ◌↔◌, ℕ, zero, suc, ◌≡◌, refl, sym, ap, ◌∙◌, Bool, true, false, not, ◌&&◌, List, [], ◌∷◌, ◌++◌,
  ltb, length, get_or, Bool-cases, inl, inr, arith,
}
use mathlib.Core.List.{reverse, reverse-cons, reverse-reverse}
use primmonero.Coins.{
  TxOut, null_out, is_null, Coins, pop_nulls, cleanup, is_available, all_null, is_pruned,
}

-- Cleanup from the front: an output goes when it is null and all after it are.
unfoldable pub trim : List TxOut → List TxOut
trim [] = []
trim (o ∷ os) = elim (is_null o && all_null os) [ true ↦ [] | false ↦ o ∷ trim os ]

pub trim-null : (os : List TxOut) → all_null os ≡ true → trim os ≡ []
unfolding trim all_null
trim-null [] e = refl
trim-null (o ∷ os) e = let all : (is_null o && all_null os) ≡ true = e in rw (trim, all) refl

and_swap : (a b c : Bool) → (a && (b && c)) ≡ (b && (a && c))
and_swap true true c = refl
and_swap true false c = refl
and_swap false true c = refl
and_swap false false c = refl

all_null-append :
    (os : List TxOut) (o : TxOut) → all_null (os ++ o ∷ []) ≡ (is_null o && all_null os)
unfolding all_null
all_null-append [] o = refl
all_null-append (x ∷ os) o =
    ap (λ b. is_null x && b) (all_null-append os o) ∙ and_swap (is_null x) (is_null o) (all_null os)

trim-append-null : (os : List TxOut) (o : TxOut) → is_null o ≡ true → trim (os ++ o ∷ []) ≡ trim os
unfolding trim all_null
trim-append-null [] o e = rw (trim, e) refl
trim-append-null (x ∷ os) o e = elim (Bool-cases (is_null x && all_null os)) [
  | inl all ↦ rw (trim, all_null-append os o, e, all) refl
  | inr some_left ↦ rw (trim, all_null-append os o, e, some_left, trim-append-null os o e) refl
]

trim-append : (os : List TxOut) (o : TxOut) → is_null o ≡ false → trim (os ++ o ∷ []) ≡ os ++ o ∷ []
unfolding trim all_null
trim-append [] o e = rw (trim, e) refl
trim-append (x ∷ os) o e = elim (Bool-cases (is_null x)) [
  | inl empty ↦ rw (trim, all_null-append os o, e, empty, trim-append os o e) refl
  | inr full ↦ rw (trim, full, trim-append os o e) refl
]

pop_nulls-trim : (ys : List TxOut) → reverse (pop_nulls ys) ≡ trim (reverse ys)
unfolding pop_nulls trim
pop_nulls-trim [] = refl
pop_nulls-trim (o ∷ ys) = elim (Bool-cases (is_null o)) [
  | inl empty ↦
      rw (pop_nulls, empty, reverse-cons o ys, trim-append-null (reverse ys) o empty)
        (pop_nulls-trim ys)
  | inr full ↦ rw (pop_nulls, full, reverse-cons o ys, trim-append (reverse ys) o full) refl
]

pub vout-cleanup : (c : Coins) → (cleanup c).vout ≡ trim c.vout
unfolding cleanup
vout-cleanup c = pop_nulls-trim (reverse c.vout) ∙ ap trim (reverse-reverse c.vout)

-- A position past the end counts as null.
pub is_available_lem :
    (c : Coins) (n : ℕ) → is_available c n ≡ not (is_null (get_or c.vout n null_out))
unfolding is_available
is_available_lem c n = within c.vout n
  where
    within :
        (os : List TxOut) (n : ℕ)
        → (ltb n (length os) && not (is_null (get_or os n null_out)))
          ≡ not (is_null (get_or os n null_out))
    within [] n = ground arith
    within (o ∷ os) zero = ground arith
    within (o ∷ os) (suc n) = ground (arith, within os n)

pub null_parts : (a b : Bool) → (a && b) ≡ true → (a ≡ true) × (b ≡ true)
null_parts true true e = (refl, refl)
null_parts true false e = cc
null_parts false b e = cc

pub all_null-get_or :
    (os : List TxOut) (n : ℕ) → all_null os ≡ true → is_null (get_or os n null_out) ≡ true
unfolding all_null
all_null-get_or [] n e = refl
all_null-get_or (o ∷ os) zero e = (null_parts (is_null o) (all_null os) e).0
all_null-get_or (o ∷ os) (suc n) e = all_null-get_or os n (null_parts (is_null o) (all_null os) e).1

get_or-trim :
    (os : List TxOut) (n : ℕ)
    → is_null (get_or (trim os) n null_out) ≡ is_null (get_or os n null_out)
unfolding trim
get_or-trim [] n = refl
get_or-trim (o ∷ os) n = elim (Bool-cases (is_null o && all_null os)) [
  | inl all ↦ rw (trim, all) (sym (all_null-get_or (o ∷ os) n (unfold all_null in all)))
  | inr some_left ↦ rw (trim, some_left) (kept (get_or-trim os) n)
]
  where
    kept :
        ((m : ℕ) → is_null (get_or (trim os) m null_out) ≡ is_null (get_or os m null_out))
        → (n : ℕ) → is_null (get_or (o ∷ trim os) n null_out) ≡ is_null (get_or (o ∷ os) n null_out)
    kept rest zero = refl
    kept rest (suc n) = rest n

-- Cleanup changes no output's availability.
pub is_available-cleanup : (c : Coins) (n : ℕ) → is_available (cleanup c) n ≡ is_available c n
is_available-cleanup c n =
    is_available_lem (cleanup c) n
    ∙ (rw (vout-cleanup c) (ap not (get_or-trim c.vout n)) ∙ sym (is_available_lem c n))

pub trim-empty : (os : List TxOut) → trim os ≡ [] → all_null os ≡ true
unfolding trim all_null
trim-empty [] e = refl
trim-empty (o ∷ os) e = elim (Bool-cases (is_null o && all_null os)) [
  | inl all ↦ all
  | inr some_left ↦ cc (rw (trim, some_left) at e)
]

pub all_null-trim : (os : List TxOut) → all_null (trim os) ≡ all_null os
unfolding trim all_null
all_null-trim [] = refl
all_null-trim (o ∷ os) = elim (Bool-cases (is_null o && all_null os)) [
  | inl all ↦ rw (trim, all) refl
  | inr some_left ↦ rw (trim, some_left, all_null-trim os) some_left
]

pub trim-trim : (os : List TxOut) → trim (trim os) ≡ trim os
unfolding trim
trim-trim [] = refl
trim-trim (o ∷ os) = elim (Bool-cases (is_null o && all_null os)) [
  | inl all ↦ rw (trim, all) refl
  | inr some_left ↦ rw (trim, some_left) (rw (trim, all_null-trim os, some_left, trim-trim os) refl)
]

-- A cleanup leaves no output exactly when the entry was pruned, and a second cleanup changes nothing.
pub cleanup-is_pruned :
    (c : Coins)
    → (((cleanup c).vout ≡ []) ↔ (is_pruned c ≡ true)) × (cleanup (cleanup c) ≡ cleanup c)
unfolding is_pruned cleanup
cleanup-is_pruned c = (
  (λ e. trim-empty c.vout (sym (vout-cleanup c) ∙ e), λ e. vout-cleanup c ∙ trim-null c.vout e),
  λ i. record { coin_base = c.coin_base; vout = same i; height = c.height; version = c.version },
)
  where
    same : (cleanup (cleanup c)).vout ≡ (cleanup c).vout
    same =
        vout-cleanup (cleanup c)
        ∙ (ap trim (vout-cleanup c) ∙ (trim-trim c.vout ∙ sym (vout-cleanup c)))
