-- ===== src/Coins/View.antt =====
-- The views on the coin database (CCoinsView and CCoinsViewCache in src/servilo/main.h and
-- src/servilo/main.cpp): what a view does, and a cache over another view.
pub mod Refinement
pub mod Flush
pub mod Memory
mod Runs
use primmonero.Base.{ℕ, Bool, true, false, Option, none, some, List, [], ◌∷◌, length}
use primmonero.Coins.{Coins}
use primmonero.Coins.Store.{Store, lookup, insert, insert_all}

-- CCoinsView. A block is a number, and `none` is NULL. A method that may change the view gives the
-- view after it; GetStats is left out.
pub record CoinsView : Type 1 where
  pub State : Type 0
  pub get_coins : State → ℕ → Option Coins × State
  pub set_coins : State → ℕ → Coins → Bool × State
  pub have_coins : State → ℕ → Bool × State
  pub get_best_block : State → Option ℕ × State
  pub set_best_block : State → Option ℕ → Bool × State
  pub batch_write : State → Store → Option ℕ → Bool × State

-- CCoinsViewCache: `cache` is cacheCoins and `tip` is pindexTip.
pub record Cache (S : Type 0) : Type 0 where
  pub base : S
  pub cache : Store
  pub tip : Option ℕ

abbrev pub new_cache : {S : Type 0} → S → Cache S
new_cache s = record { base = s; cache = []; tip = none }

abbrev pub is_some : Option Coins → Bool
is_some none = false
is_some (some c) = true

module _ (v : CoinsView) where
  -- Both GetCoins into a value and FetchCoins, which keep what the base view has.
  unfoldable pub fetch_coins : Cache (v.State) → ℕ → Option Coins × Cache (v.State)
  fetch_coins s j = elim (lookup s.cache j) [
    | some c ↦ (some c, s)
    | none ↦
        let (found, base') = v.get_coins s.base j in
        elim found [
          | none ↦ (none, record s { base = base' })
          | some c ↦ (some c, record s { base = base'; cache = insert s.cache j c })
        ]
  ]

  unfoldable pub set_coins : Cache (v.State) → ℕ → Coins → Bool × Cache (v.State)
  set_coins s j c = (true, record s { cache = insert s.cache j c })

  unfoldable pub have_coins : Cache (v.State) → ℕ → Bool × Cache (v.State)
  have_coins s j = let (found, s') = fetch_coins s j in (is_some found, s')

  unfoldable pub get_best_block : Cache (v.State) → Option ℕ × Cache (v.State)
  get_best_block s = elim (s.tip) [
    | some b ↦ (some b, s)
    | none ↦
        let (best, base') = v.get_best_block s.base in (best, record s { base = base'; tip = best })
  ]

  unfoldable pub set_best_block : Cache (v.State) → Option ℕ → Bool × Cache (v.State)
  set_best_block s b = (true, record s { tip = b })

  pub batch_write : Cache (v.State) → Store → Option ℕ → Bool × Cache (v.State)
  batch_write s m b = (true, record s { cache = insert_all m s.cache; tip = b })

  pub flush : Cache (v.State) → Bool × Cache (v.State)
  flush s =
      let (ok, base') = v.batch_write s.base s.cache s.tip in
      (ok, record s { base = base'; cache = elim ok [ true ↦ [] | false ↦ s.cache ] })

  pub get_cache_size : Cache (v.State) → ℕ
  get_cache_size s = length s.cache

  -- The cache as a view of its own.
  abbrev pub cache_view : CoinsView
  cache_view = record {
    State = Cache (v.State);
    get_coins = fetch_coins;
    set_coins = set_coins;
    have_coins = have_coins;
    get_best_block = get_best_block;
    set_best_block = set_best_block;
    batch_write = batch_write;
  }
