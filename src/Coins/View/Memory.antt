-- ===== src/Coins/View/Memory.antt =====
-- A view that is a map in memory, under which the runs of this library start.
use primmonero.Base.{ℕ, refl, true, Option}
use primmonero.Coins.Store.{Store, lookup, insert, insert_all, IsUnique}
use primmonero.Coins.View.{CoinsView, is_some}
use primmonero.Coins.View.Refinement.{Abstraction, IsSource}

abbrev pub memory : CoinsView
memory = record {
  State = Store × Option ℕ;
  get_coins = λ s j. (lookup s.0 j, s);
  set_coins = λ s k c. (true, (insert s.0 k c, s.1));
  have_coins = λ s j. (is_some (lookup s.0 j), s);
  get_best_block = λ s. (s.1, s);
  set_best_block = λ s b. (true, (s.0, b));
  batch_write = λ s m b. (true, (insert_all m s.0, b));
}

abbrev pub memory_abstraction : Abstraction memory
memory_abstraction = record {
  IsValid = λ s. IsUnique s.0;
  coins = λ s j. lookup s.0 j;
  best = λ s. s.1;
}

pub memory_IsSource : IsSource memory memory_abstraction
memory_IsSource = record {
  get_coins_lem = λ s j valid. (refl, (valid, λ i. refl, refl));
  get_best_block_lem = λ s valid. (refl, (valid, λ i. refl, refl));
}
