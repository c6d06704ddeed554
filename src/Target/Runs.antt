-- ===== src/Target/Runs.antt =====
-- Runs of the target code at the lengths and the spacing of the main network.
use primmonero.Base.{ℕ, ◌+◌, ◌%◌, ◌≤◌, ◌<◌, ◌≡◌, ◌≢◌, ◌⊎◌, inl, refl, arith}
use primmonero.Base.Int.{pos, negsuc, ◌+ℤ◌, ◌-ℤ◌, ◌*ℤ◌, int64}
use primmonero.Target.{
  target_get_length, target_get_fractional, target_get_fractional_difficulty,
  target_set_fractional_difficulty, target_get_mint, minted, refused, cent, mint_limit,
  difficulty_divisor, difficulty_factor, next_difficulty, quotient, clamp_difficulty, step_length,
  finish_next, target_get_next, next, throws, target_increment_length, target_decrement_length,
}
use primmonero.Target.Fields.{IsU32}
use primmonero.Target.Retarget.{target_get_next_bounds}
use primmonero.Target.Monotone.{target_get_next_steady}
use primmonero.Target.Subsidy.{target_get_mint_value}

-- Length 7 and a quarter.
abbrev bits : ℕ
bits = 0x0740_0000

-- One week in blocks of one minute.
abbrev interval : ℕ
interval = 10080

mint_at_seven : target_get_mint 6 0x0700_0000 ≡ minted 2_038_000_000
unfolding target_get_mint target_get_length
mint_at_seven = refl

steps_up : target_get_next 6 0x07ff_ffff (pos interval) (pos 60) (pos 60) ≡ next 0x0800_0000
unfolding target_get_next next_difficulty quotient clamp_difficulty difficulty_factor
    difficulty_divisor int64 ◌+ℤ◌ ◌-ℤ◌ ◌*ℤ◌ step_length finish_next target_get_fractional_difficulty
    target_get_fractional target_increment_length target_set_fractional_difficulty target_get_length
steps_up = refl

-- At a whole length even the target spacing steps down.
steps_down : target_get_next 6 0x0700_0000 (pos interval) (pos 60) (pos 60) ≡ next 0x06ff_0000
unfolding target_get_next next_difficulty quotient clamp_difficulty difficulty_factor
    difficulty_divisor int64 ◌+ℤ◌ ◌-ℤ◌ ◌*ℤ◌ step_length finish_next target_get_fractional_difficulty
    target_get_fractional target_decrement_length target_set_fractional_difficulty target_get_length
steps_down = refl

divides_by_zero : target_get_next 6 bits (pos interval) (pos 60) (negsuc 302_369) ≡ throws
unfolding target_get_next next_difficulty quotient difficulty_factor difficulty_divisor int64 ◌+ℤ◌
    ◌-ℤ◌ ◌*ℤ◌
divides_by_zero = refl

target_get_next_bounds_example :
    ((difficulty_divisor (pos interval) (pos 60) (negsuc 99) ≢ pos 0)
      × (b : ℕ) × (target_get_next 6 bits (pos interval) (pos 60) (negsuc 99) ≡ next b)
      × (IsU32 b)
      × (6 ≤ target_get_length b)
      × (target_get_length b ≤ target_get_length bits + 1)
      × (target_get_length bits ≤ target_get_length b + 1))
    ⊎ ((difficulty_divisor (pos interval) (pos 60) (negsuc 99) ≡ pos 0)
        × (target_get_next 6 bits (pos interval) (pos 60) (negsuc 99) ≡ throws))
unfolding target_get_length
target_get_next_bounds_example =
    target_get_next_bounds 6 bits (pos interval) (pos 60) (negsuc 99) (omega arith) (omega arith)
      (omega arith)

target_get_next_steady_example : target_get_next 6 bits (pos interval) (pos 60) (pos 60) ≡ next bits
unfolding target_get_length target_get_fractional
target_get_next_steady_example =
    target_get_next_steady 6 bits interval 60 (omega arith) (omega arith) (omega arith)
      (omega arith) (omega arith) (inl (omega arith))

target_get_mint_value_example :
    ((6 ≤ target_get_length bits)
      × (v : ℕ) × (target_get_mint 6 bits ≡ minted v)
      × (v % cent ≡ 0)
      × (v ≤ mint_limit))
    ⊎ ((target_get_length bits < 6) × (target_get_mint 6 bits ≡ refused))
target_get_mint_value_example = target_get_mint_value 6 bits (omega arith) (omega arith)
