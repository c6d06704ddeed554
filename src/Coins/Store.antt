-- ===== src/Coins/Store.antt =====
-- The std::map from transaction hashes to entries (CCoinsViewCache::cacheCoins in
-- src/servilo/main.h): an association list in which no key comes twice. Nothing depends on its order.
use primmonero.Base.{
  ℕ, ◌≡◌, refl, true, Option, none, some, List, [], ◌∷◌, ◌==◌, if◌then◌else◌, Bool-cases, inl, inr,
  arith, ==_iff,
}
use primmonero.Coins.{Coins}

abbrev pub Store : Type 0
Store = List (ℕ × Coins)

unfoldable pub lookup : Store → ℕ → Option Coins
lookup [] j = none
lookup ((k, c) ∷ m) j = if j == k then some c else lookup m j

-- The assignment `map[k] = c`.
unfoldable pub insert : Store → ℕ → Coins → Store
insert [] k c = (k, c) ∷ []
insert ((j, d) ∷ m) k c = let rest = insert m k c in if k == j then (j, c) ∷ m else (j, d) ∷ rest

-- The loop of CCoinsViewCache::BatchWrite: each entry of `m` into `onto`.
pub insert_all : Store → Store → Store
insert_all [] onto = onto
insert_all ((k, c) ∷ m) onto = insert_all m (insert onto k c)

-- No key comes twice.
unfoldable pub IsUnique : Store → Type 0
IsUnique [] = Unit {0}
IsUnique ((k, c) ∷ m) = (lookup m k ≡ none) × IsUnique m

-- The first answer there is.
abbrev pub or_else : Option Coins → Option Coins → Option Coins
or_else (some c) o = some c
or_else none o = o

pub ==_refl : (k : ℕ) → (k == k) ≡ true
==_refl k = (==_iff k k).1 refl

-- A map with one entry changed.
abbrev pub updated : (ℕ → Option Coins) → ℕ → Coins → ℕ → Option Coins
updated f k c j = if j == k then some c else f j

pub lookup-insert :
    (m : Store) (k : ℕ) (c : Coins) (j : ℕ)
    → lookup (insert m k c) j ≡ (if j == k then some c else lookup m j)
unfolding lookup insert
lookup-insert [] k c j = refl
lookup-insert ((i, d) ∷ m) k c j = elim (Bool-cases (k == i)) [
  | inl same ↦
      rw (same, (==_iff k i).0 same)
        (elim (Bool-cases (j == i)) [ inl here ↦ rw here refl | inr there ↦ rw there refl ])
  | inr other ↦ ground (arith, lookup-insert m k c j)
]

pub insert-IsUnique : (m : Store) (k : ℕ) (c : Coins) → IsUnique m → IsUnique (insert m k c)
unfolding lookup insert IsUnique
insert-IsUnique [] k c u = (refl, tt)
insert-IsUnique ((i, d) ∷ m) k c u = elim (Bool-cases (k == i)) [
  | inl same ↦ rw same u
  | inr other ↦ rw other (ground (arith, lookup-insert m k c i, u.0), insert-IsUnique m k c u.1)
]

pub lookup-insert_all :
    (m onto : Store)
    → IsUnique m
    → (j : ℕ) → lookup (insert_all m onto) j ≡ or_else (lookup m j) (lookup onto j)
unfolding lookup insert_all IsUnique
lookup-insert_all [] onto u j = refl
lookup-insert_all ((k, c) ∷ m) onto u j =
    rw (lookup-insert_all m (insert onto k c) u.1 j, lookup-insert onto k c j)
      (elim (Bool-cases (j == k)) [
        | inl same ↦ rw (same, (==_iff j k).0 same, u.0) refl
        | inr other ↦ rw other refl
      ])

pub insert_all-IsUnique : (m onto : Store) → IsUnique onto → IsUnique (insert_all m onto)
unfolding insert_all
insert_all-IsUnique [] onto u = u
insert_all-IsUnique ((k, c) ∷ m) onto u =
    insert_all-IsUnique m (insert onto k c) (insert-IsUnique onto k c u)
