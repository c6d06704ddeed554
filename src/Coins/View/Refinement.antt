-- ===== src/Coins/View/Refinement.antt =====
-- The abstract view: a function from hashes to entries and a best block. What a view's operations
-- promise of it, and that a cache over a view whose reads keep the promise keeps all of it.
use primmonero.Base.{
  ℕ, ◌≡◌, refl, sym, ap, ◌∙◌, true, false, Option, none, some, ◌==◌, Bool-cases, Option-cases, inl,
  inr, ==_iff,
}
use primmonero.Coins.{Coins}
use primmonero.Coins.Store.{
  Store, lookup, IsUnique, or_else, updated, lookup-insert, insert-IsUnique, lookup-insert_all,
  insert_all-IsUnique,
}
use primmonero.Coins.View.{
  CoinsView, Cache, is_some, cache_view, fetch_coins, set_coins, have_coins, get_best_block,
  set_best_block, batch_write,
}

-- A block that is there before another.
abbrev pub best_of : Option ℕ → Option ℕ → Option ℕ
best_of (some b) o = some b
best_of none o = o

-- What a state of a view stands for, and which states are valid.
pub record Abstraction (v : CoinsView) : Type 1 where
  pub IsValid : v.State → Type 0
  pub coins : v.State → ℕ → Option Coins
  pub best : v.State → Option ℕ

-- A valid state that stands for these entries and this block.
abbrev pub Shows :
    {v : CoinsView} → Abstraction v → (ℕ → Option Coins) → Option ℕ → v.State → Type 0
Shows a f b s = a.IsValid s × ((j : ℕ) → a.coins s j ≡ f j) × (a.best s ≡ b)

-- The promise of the reads, which is what a cache asks of the view below it. The lowest view,
-- CCoinsViewDB (src/servilo/txdb.cpp), erases pruned entries when it is written to: its writes are
-- not asked for anything.
pub record IsSource (v : CoinsView) (a : Abstraction v) : Type 0 where
  pub get_coins_lem :
      (s : v.State) (j : ℕ)
      → a.IsValid s
      → ((v.get_coins s j).0 ≡ a.coins s j) × Shows a (a.coins s) (a.best s) (v.get_coins s j).1
  pub get_best_block_lem :
      (s : v.State)
      → a.IsValid s
      → ((v.get_best_block s).0 ≡ a.best s) × Shows a (a.coins s) (a.best s) (v.get_best_block s).1

-- The whole promise. A BatchWrite into a cache with no block makes it forget its own, so that only one
-- with a block is promised anything. A BatchWrite that fails changes nothing.
pub record IsView (v : CoinsView) (a : Abstraction v) : Type 0 where
  pub get_coins_lem :
      (s : v.State) (j : ℕ)
      → a.IsValid s
      → ((v.get_coins s j).0 ≡ a.coins s j) × Shows a (a.coins s) (a.best s) (v.get_coins s j).1
  pub set_coins_lem :
      (s : v.State) (k : ℕ) (c : Coins)
      → a.IsValid s
      → ((v.set_coins s k c).0 ≡ true)
        × Shows a (updated (a.coins s) k c) (a.best s) (v.set_coins s k c).1
  pub have_coins_lem :
      (s : v.State) (j : ℕ)
      → a.IsValid s
      → ((v.have_coins s j).0 ≡ is_some (a.coins s j))
        × Shows a (a.coins s) (a.best s) (v.have_coins s j).1
  pub get_best_block_lem :
      (s : v.State)
      → a.IsValid s
      → ((v.get_best_block s).0 ≡ a.best s) × Shows a (a.coins s) (a.best s) (v.get_best_block s).1
  pub set_best_block_lem :
      (s : v.State) (b : ℕ)
      → a.IsValid s
      → ((v.set_best_block s (some b)).0 ≡ true)
        × Shows a (a.coins s) (some b) (v.set_best_block s (some b)).1
  pub batch_write_lem :
      (s : v.State) (m : Store) (b : ℕ)
      → a.IsValid s
      → IsUnique m
      → ((v.batch_write s m (some b)).0 ≡ true
          → Shows a
              (λ j. or_else (lookup m j) (a.coins s j))
              (some b)
              (v.batch_write s m (some b)).1)
        × ((v.batch_write s m (some b)).0 ≡ false
            → Shows a (a.coins s) (a.best s) (v.batch_write s m (some b)).1)

best_of_self : (b : Option ℕ) → best_of b b ≡ b
best_of_self none = refl
best_of_self (some b) = refl

module _ (v : CoinsView) (a : Abstraction v) where
  abbrev pub cache_abstraction : Abstraction (cache_view v)
  cache_abstraction = record {
    IsValid = λ s. a.IsValid s.base × IsUnique s.cache;
    coins = λ s j. or_else (lookup s.cache j) (a.coins s.base j);
    best = λ s. best_of s.tip (a.best s.base);
  }

module _ (v : CoinsView) (a : Abstraction v) (laws : IsSource v a) where
  abbrev CacheIsValid : Cache (v.State) → Type 0
  CacheIsValid s = (cache_abstraction v a).IsValid s

  abbrev cache_coins : Cache (v.State) → ℕ → Option Coins
  cache_coins s j = (cache_abstraction v a).coins s j

  abbrev cache_best : Cache (v.State) → Option ℕ
  cache_best s = (cache_abstraction v a).best s

  abbrev CacheShows : (ℕ → Option Coins) → Option ℕ → Cache (v.State) → Type 0
  CacheShows f b s = Shows (cache_abstraction v a) f b s

  fetch_coins_lem :
      (s : Cache (v.State)) (j : ℕ)
      → CacheIsValid s
      → ((fetch_coins v s j).0 ≡ cache_coins s j)
        × CacheShows (cache_coins s) (cache_best s) (fetch_coins v s j).1
  unfolding fetch_coins
  fetch_coins_lem s j valid = elim (Option-cases (lookup s.cache j)) [
    | inr (c, e) ↦ rw (fetch_coins, e) (refl, (valid, λ i. refl, refl))
    | inl e ↦
        let (found, shows) = laws.get_coins_lem s.base j valid.0 in
        let (valid', same, best') = shows in
        elim (Option-cases ((v.get_coins s.base j).0)) [
          | inl none_there ↦
              rw (fetch_coins, e, none_there)
                (
                  sym none_there ∙ found,
                  (
                    (valid', valid.1),
                    λ i. ap (or_else (lookup s.cache i)) (same i),
                    ap (best_of s.tip) best',
                  ),
                )
          | inr (c, there) ↦
              rw (fetch_coins, e, there)
                (
                  sym there ∙ found,
                  (
                    (valid', insert-IsUnique s.cache j c valid.1),
                    λ i. rw (lookup-insert s.cache j c i) (elim (Bool-cases (i == j)) [
                      | inl here ↦ rw (here, (==_iff i j).0 here, e) (sym there ∙ found)
                      | inr other ↦ rw other (ap (or_else (lookup s.cache i)) (same i))
                    ]),
                    ap (best_of s.tip) best',
                  ),
                )
        ]
  ]

  set_coins_lem :
      (s : Cache (v.State)) (k : ℕ) (c : Coins)
      → CacheIsValid s
      → ((set_coins v s k c).0 ≡ true)
        × CacheShows (updated (cache_coins s) k c) (cache_best s) (set_coins v s k c).1
  unfolding set_coins
  set_coins_lem s k c valid = (
    refl,
    (
      (valid.0, insert-IsUnique s.cache k c valid.1),
      λ j.
          rw (lookup-insert s.cache k c j)
            (elim (Bool-cases (j == k)) [ inl same ↦ rw same refl | inr other ↦ rw other refl ]),
      refl,
    ),
  )

  have_coins_lem :
      (s : Cache (v.State)) (j : ℕ)
      → CacheIsValid s
      → ((have_coins v s j).0 ≡ is_some (cache_coins s j))
        × CacheShows (cache_coins s) (cache_best s) (have_coins v s j).1
  unfolding have_coins
  have_coins_lem s j valid =
      let (found, shows) = fetch_coins_lem s j valid in (ap is_some found, shows)

  get_best_block_lem :
      (s : Cache (v.State))
      → CacheIsValid s
      → ((get_best_block v s).0 ≡ cache_best s)
        × CacheShows (cache_coins s) (cache_best s) (get_best_block v s).1
  unfolding get_best_block
  get_best_block_lem s valid = elim (Option-cases s.tip) [
    | inr (b, e) ↦ rw (get_best_block, e) (refl, (valid, λ i. refl, rw e refl))
    | inl e ↦
        let (found, shows) = laws.get_best_block_lem s.base valid.0 in
        let (valid', same, best') = shows in
        rw (get_best_block, e)
          (
            found,
            (
              (valid', valid.1),
              λ i. ap (or_else (lookup s.cache i)) (same i),
              ap (λ o. best_of o (a.best (v.get_best_block s.base).1)) found
                  ∙ (ap (best_of (a.best s.base)) best' ∙ best_of_self (a.best s.base)),
            ),
          )
  ]

  set_best_block_lem :
      (s : Cache (v.State)) (b : ℕ)
      → CacheIsValid s
      → ((set_best_block v s (some b)).0 ≡ true)
        × CacheShows (cache_coins s) (some b) (set_best_block v s (some b)).1
  unfolding set_best_block
  set_best_block_lem s b valid = (refl, (valid, λ j. refl, refl))

  or_else_assoc : (a b c : Option Coins) → or_else (or_else a b) c ≡ or_else a (or_else b c)
  or_else_assoc none b c = refl
  or_else_assoc (some a) b c = refl

  batch_write_lem :
      (s : Cache (v.State)) (m : Store) (b : ℕ)
      → CacheIsValid s
      → IsUnique m
      → ((batch_write v s m (some b)).0 ≡ true
          → CacheShows
              (λ j. or_else (lookup m j) (cache_coins s j))
              (some b)
              (batch_write v s m (some b)).1)
        × ((batch_write v s m (some b)).0 ≡ false
            → CacheShows (cache_coins s) (cache_best s) (batch_write v s m (some b)).1)
  unfolding batch_write
  batch_write_lem s m b valid u = (
    λ e. (
      (valid.0, insert_all-IsUnique m s.cache valid.1),
      λ j.
          ap (λ o. or_else o (a.coins s.base j)) (lookup-insert_all m s.cache u j)
          ∙ or_else_assoc (lookup m j) (lookup s.cache j) (a.coins s.base j),
      refl,
    ),
    λ e. cc,
  )

  -- A cache over a view whose reads keep their promise keeps the whole promise: its operations do to
  -- the entries and the best block that it stands for what the promise says.
  pub cache-IsView : IsView (cache_view v) (cache_abstraction v a)
  cache-IsView = record {
    get_coins_lem = fetch_coins_lem;
    set_coins_lem = set_coins_lem;
    have_coins_lem = have_coins_lem;
    get_best_block_lem = get_best_block_lem;
    set_best_block_lem = set_best_block_lem;
    batch_write_lem = batch_write_lem;
  }
