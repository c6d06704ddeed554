-- ===== src/Coins/View/Runs.antt =====
-- Runs of the cache over a view that is a map in memory.
use primmonero.Base.{ℕ, ◌≡◌, refl, true, false, Option, some, [], ◌∷◌}
use primmonero.Base.Int.{pos}
use primmonero.Coins.{Coins}
use primmonero.Coins.Store.{Store, lookup, insert, IsUnique}
use primmonero.Coins.View.{Cache, cache_view, fetch_coins, flush}
use primmonero.Coins.View.Memory.{memory, memory_abstraction, memory_IsSource}
use primmonero.Coins.View.Refinement.{Shows, IsView, cache_abstraction, cache-IsView}
use primmonero.Coins.View.Flush.{upper_abstraction, flush_lem}

abbrev spent_entry : Coins
spent_entry = record { coin_base = false; vout = []; height = 7; version = pos 1 }

abbrev filled : Cache (Store × Option ℕ)
filled = record {
  base = ((5, spent_entry) ∷ [], some 1);
  cache = (6, spent_entry) ∷ [];
  tip = some 2;
}

fetch-filled :
    fetch_coins memory filled 5
    ≡ (some spent_entry, record filled { cache = (6, spent_entry) ∷ (5, spent_entry) ∷ [] })
unfolding fetch_coins lookup insert
fetch-filled = refl

cache-IsView_example : IsView (cache_view memory) (cache_abstraction memory memory_abstraction)
cache-IsView_example = cache-IsView memory memory_abstraction memory_IsSource

-- A cache over that cache, which spends the entry below.
abbrev over_filled : Cache (Cache (Store × Option ℕ))
over_filled = record {
  base = filled;
  cache = (5, record spent_entry { height = 8 }) ∷ (9, spent_entry) ∷ [];
  tip = some 3;
}

over_filled_is_valid : (upper_abstraction memory memory_abstraction).IsValid over_filled
unfolding IsUnique lookup
over_filled_is_valid = (((refl, tt), (refl, tt)), (refl, (refl, tt)))

flush_lem_example :
    ((flush (cache_view memory) over_filled).0 ≡ true)
    × Shows
        (upper_abstraction memory memory_abstraction)
        ((upper_abstraction memory memory_abstraction).coins over_filled)
        (some 3)
        (flush (cache_view memory) over_filled).1
    × Shows
        (cache_abstraction memory memory_abstraction)
        ((upper_abstraction memory memory_abstraction).coins over_filled)
        (some 3)
        (flush (cache_view memory) over_filled).1.base
    × ((flush (cache_view memory) over_filled).1.cache ≡ [])
flush_lem_example =
    flush_lem memory memory_abstraction memory_IsSource over_filled 3 over_filled_is_valid refl
