-- ===== src/Coins/View/Flush.antt =====
-- Flushing a cache (CCoinsViewCache::Flush in src/servilo/main.cpp) into the cache below it.
use primmonero.Base.{ℕ, ◌≡◌, refl, sym, ap, ◌∙◌, true, some, []}
use primmonero.Coins.Store.{lookup, IsUnique}
use primmonero.Coins.View.{CoinsView, Cache, cache_view, batch_write, flush}
use primmonero.Coins.View.Refinement.{
  Abstraction, Shows, IsSource, IsView, cache_abstraction, cache-IsView,
}

module _ (v : CoinsView) (a : Abstraction v) where
  -- The abstraction of a cache over a cache.
  abbrev pub upper_abstraction : Abstraction (cache_view (cache_view v))
  upper_abstraction = cache_abstraction (cache_view v) (cache_abstraction v a)

module _ (v : CoinsView) (a : Abstraction v) (laws : IsView v a) where
  -- A flush into a view that keeps its promise.
  flush-IsView :
      (s : Cache (v.State)) (b : ℕ)
      → (cache_abstraction v a).IsValid s
      → s.tip ≡ some b
      → (v.batch_write s.base s.cache s.tip).0 ≡ true
      → ((flush v s).0 ≡ true)
        × Shows (cache_abstraction v a) ((cache_abstraction v a).coins s) (some b) (flush v s).1
        × Shows a ((cache_abstraction v a).coins s) (some b) (flush v s).1.base
        × ((flush v s).1.cache ≡ [])
  unfolding flush IsUnique lookup
  flush-IsView s b valid e ok =
      let written = ap (λ t. (v.batch_write s.base s.cache t).0) (sym e) ∙ ok in
      let (valid', same, best') =
        (laws.batch_write_lem s.base s.cache b valid.0 valid.1).0 written in
      rw (e, written) (refl, ((valid', tt), same, refl), (valid', same, best'), refl)

module _ (v : CoinsView) (a : Abstraction v) (laws : IsSource v a) where
  -- A flush of a valid cache over a cache, the upper one with a block, succeeds, over any view whose
  -- reads keep their promise: the upper cache still shows its entries and its block, the lower cache
  -- shows the same ones, and the upper cache is empty.
  pub flush_lem :
      (s : Cache (Cache (v.State))) (b : ℕ)
      → (upper_abstraction v a).IsValid s
      → s.tip ≡ some b
      → ((flush (cache_view v) s).0 ≡ true)
        × Shows
            (upper_abstraction v a)
            ((upper_abstraction v a).coins s)
            (some b)
            (flush (cache_view v) s).1
        × Shows
            (cache_abstraction v a)
            ((upper_abstraction v a).coins s)
            (some b)
            (flush (cache_view v) s).1.base
        × ((flush (cache_view v) s).1.cache ≡ [])
  flush_lem s b valid e =
      flush-IsView (cache_view v) (cache_abstraction v a) (cache-IsView v a laws) s b valid e
        (unfold batch_write in refl)
