-- ===== src/Work.antt =====
-- The required work of the next block, and the value of a block (src/servilo/main.cpp),
-- and the work transition (src/servilo/prime.cpp). A chain of
-- CBlockIndex is the list of its blocks from the tip back along `pprev`. The globals
-- nTargetMinLength and nTargetInitialLength are arguments.
pub mod Chain
pub mod Transition
mod Runs
use primmonero.Base.{
  ltb, if◌then◌else◌, ◌+◌, ℕ, ◌*◌, ◌/◌, ◌%◌, ◌^◌, Option, none, some, List, [], ◌∷◌,
}
use primmonero.Base.Int.{ℤ, pos, ◌+ℤ◌, ◌-ℤ◌, int64}
use primmonero.Target.{
  fractional_unit, Retargeted, next, fails, throws, minted, refused, thrown, target_set_length,
  target_get_length, target_get_fractional_difficulty, target_get_mint, target_get_next,
}

-- The fields nTime and nBits of CBlockIndex.
pub record BlockIndex : Type 0 where
  pub time : ℕ
  pub bits : ℕ

-- nTargetTimespan and nTargetSpacing, in seconds.
abbrev pub target_timespan : ℕ
target_timespan = 7 * 24 * 60 * 60

abbrev pub target_spacing : ℕ
target_spacing = 60

-- TargetGetLimit and TargetGetInitial, at the length that each takes from its global.
pub target_of_length : ℕ → ℕ
target_of_length len = len * fractional_unit % 2 ^ 32

-- `return error(...)` is the number 0; an exception is `none`.
pub work_of : Retargeted → Option ℕ
work_of (next b) = some b
work_of fails = some 0
work_of throws = none

pub get_next_work_required : ℕ → ℕ → List BlockIndex → Option ℕ
get_next_work_required min_length initial [] = some (target_of_length min_length)
get_next_work_required min_length initial (p ∷ []) = some (target_of_length initial)
get_next_work_required min_length initial (p ∷ q ∷ []) = some (target_of_length initial)
get_next_work_required min_length initial (p ∷ q ∷ r ∷ chain) = work_of (
    target_get_next min_length p.bits (pos (target_timespan / target_spacing)) (pos target_spacing)
      (pos p.time -ℤ pos q.time))

-- A failed TargetSetLength leaves nBase as it is.
pub compute_min_work : ℕ → ℕ → ℕ
compute_min_work min_length base = elim (target_set_length min_length base) [
  | none ↦ base
  | some b ↦ b
]

-- A refused target has the subsidy 0; an exception is `none`.
unfoldable pub get_block_value : ℕ → ℕ → ℤ → Option ℤ
get_block_value min_length bits fees = elim (target_get_mint min_length bits) [
  | minted n ↦ some (int64 (pos n +ℤ fees))
  | refused ↦ some (int64 (pos 0 +ℤ fees))
  | thrown ↦ none
]

set_length_of_zero : ℕ → ℕ
set_length_of_zero len = elim (target_set_length len 0) [ none ↦ 0 | some b ↦ b ]

-- The factor `((nInterval - 1) * nFractionalDifficulty) >> 32` of EstimateWorkTransition, at an
-- interval of 500.
transition_weight : ℕ → ℕ
transition_weight bits = 499 * target_get_fractional_difficulty bits % 2 ^ 64 / 2 ^ 32

-- EstimateWorkTransition; the int64 and uint64 operands are multiplied as uint64.
pub estimate_work_transition : ℕ → ℕ → ℕ → ℕ
estimate_work_transition transition bits chain_length =
    let ceiling = set_length_of_zero (target_get_length bits + 1) in
    let floor = set_length_of_zero (target_get_length bits) in
    let weight = transition_weight bits in
    if ltb (target_get_length bits) (target_get_length chain_length)
    then (transition * weight % 2 ^ 64 + 2 * floor) % 2 ^ 64 / ((weight + 2) % 2 ^ 64) % 2 ^ 32
    else (499 * transition + 2 * ceiling) % 2 ^ 64 / 501 % 2 ^ 32
