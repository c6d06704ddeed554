-- ===== src/Work/Runs.antt =====
-- Runs of the required work on a chain of four blocks.
use primmonero.Base.{ℕ, ◌+◌, ◌-◌, ◌*◌, ◌/◌, ◌%◌, ◌^◌, ◌≤◌, ◌<◌, ◌≡◌, refl, some, [], ◌∷◌, arith}
use primmonero.Base.Int.{pos, ◌+ℤ◌, ◌-ℤ◌, ◌*ℤ◌, int64}
use primmonero.Target.{
  cent, mint_limit, target_get_length, target_get_next, next_difficulty, quotient, clamp_difficulty,
  difficulty_factor, difficulty_divisor, finish_next, step_length, target_set_fractional_difficulty,
  target_get_fractional_difficulty, target_get_fractional, target_decrement_length,
  target_increment_length,
}
use primmonero.Work.{BlockIndex, target_of_length, work_of, get_next_work_required, get_block_value}
use primmonero.Work.{estimate_work_transition}
use primmonero.Work.Transition.{estimate_work_transition_bounds}
use primmonero.Work.Chain.{Follows, root, extend, Follows-bounds, Follows-get_block_value}

abbrev genesis : BlockIndex
genesis = record { time = 1_373_064_429; bits = 6 * 2 ^ 24 }

abbrev first_block : BlockIndex
first_block = record { time = 1_373_064_500; bits = 7 * 2 ^ 24 }

abbrev second_block : BlockIndex
second_block = record { time = 1_373_064_560; bits = 7 * 2 ^ 24 }

-- A minute later at a fraction of zero, the target steps down to the length before.
abbrev third_block : BlockIndex
third_block = record { time = 1_373_064_620; bits = 7 * 2 ^ 24 - 2 ^ 16 }

chain-Follows : Follows 6 7 (third_block ∷ second_block ∷ first_block ∷ genesis ∷ [])
unfolding get_next_work_required work_of target_of_length target_get_next next_difficulty quotient
    clamp_difficulty difficulty_factor difficulty_divisor int64 finish_next step_length
    target_set_fractional_difficulty target_get_fractional_difficulty target_get_fractional
    target_decrement_length target_increment_length target_get_length ◌+ℤ◌ ◌-ℤ◌ ◌*ℤ◌
chain-Follows =
    extend third_block _
      (extend second_block _ (extend first_block _ (extend genesis _ root refl) refl) refl) refl

Follows-bounds_example :
    (third_block.bits < 2 ^ 32)
    × (6 ≤ target_get_length third_block.bits)
    × (target_get_length third_block.bits ≤ 7 + 3)
Follows-bounds_example =
    Follows-bounds 6 7 third_block (second_block ∷ first_block ∷ genesis ∷ []) (omega arith)
      (omega arith) chain-Follows

Follows-get_block_value_example :
    (v : ℕ) × (get_block_value 6 third_block.bits (pos 1000) ≡ some (int64 (pos (v + 1000))))
    × (v % cent ≡ 0)
    × (v ≤ mint_limit)
Follows-get_block_value_example =
    Follows-get_block_value 6 7 1000 third_block (second_block ∷ first_block ∷ genesis ∷ [])
      (omega arith) (omega arith) (omega arith) chain-Follows

-- An estimate of 7.5 at bits of 7.5, after a chain of length 8, falls towards 7.
estimate_work_transition_bounds_example :
    (estimate_work_transition (7 * 2 ^ 24 + 2 ^ 23) (7 * 2 ^ 24 + 2 ^ 23) (8 * 2 ^ 24)
      ≡ ((7 * 2 ^ 24 + 2 ^ 23) * 998 + 2 * (7 * 2 ^ 24)) / 1000)
    × (7 * 2 ^ 24
        ≤ estimate_work_transition (7 * 2 ^ 24 + 2 ^ 23) (7 * 2 ^ 24 + 2 ^ 23) (8 * 2 ^ 24))
    × (estimate_work_transition (7 * 2 ^ 24 + 2 ^ 23) (7 * 2 ^ 24 + 2 ^ 23) (8 * 2 ^ 24)
        ≤ 7 * 2 ^ 24 + 2 ^ 23)
unfolding target_get_length
estimate_work_transition_bounds_example =
    estimate_work_transition_bounds (7 * 2 ^ 24) (7 * 2 ^ 24 + 2 ^ 23) (7 * 2 ^ 24 + 2 ^ 23)
      (7 * 2 ^ 24 + 2 ^ 23) (8 * 2 ^ 24) (omega arith) (omega arith) (omega arith) (omega arith)
      (omega arith) (omega arith) (omega arith) (omega arith)
