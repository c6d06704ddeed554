-- ===== src/Target.antt =====
-- The proof-of-work target of src/servilo/prime.cpp (constants in src/servilo/prime.h): 32 bits,
-- 8 for the length of a prime chain and 24 for a fraction of it. An `unsigned int` is a native
-- number below 2 ^ 32. The global `nTargetMinLength`, which LoadBlockIndex sets for the test
-- network, is the argument `min_length`. A function that returns false is an `Option`.
pub mod Fields
pub mod Difficulty
pub mod Retarget
pub mod Monotone
pub mod Subsidy
mod Runs
use primmonero.Base.{
  ℕ, ◌+◌, ◌-◌, ◌*◌, ◌/◌, ◌%◌, ◌^◌, bit_and, bit_or, Bool, true, false, ◌&&◌, Option, none, some,
  ltb, leb, ◌==◌, if◌then◌else◌,
}
use primmonero.Base.Int.{ℤ, pos, ◌+ℤ◌, ◌-ℤ◌, ◌*ℤ◌, ltb_ℤ, quot_ℤ, pos_part, neg_part, int64}

-- nFractionalBits is 24.
abbrev pub fractional_unit : ℕ
fractional_unit = 2 ^ 24

abbrev pub u32_mod : ℕ
u32_mod = 2 ^ 32

abbrev pub target_fractional_mask : ℕ
target_fractional_mask = 2 ^ 24 - 1

abbrev pub target_length_mask : ℕ
target_length_mask = 2 ^ 32 - 1 - target_fractional_mask

abbrev pub fractional_difficulty_max : ℕ
fractional_difficulty_max = 2 ^ 56

abbrev pub fractional_difficulty_min : ℕ
fractional_difficulty_min = 2 ^ 32

abbrev pub fractional_difficulty_threshold : ℕ
fractional_difficulty_threshold = 2 ^ 40

-- TargetFromInt. TargetGetLimit and TargetGetInitial are this at the two global lengths.
unfoldable pub target_from_int : ℕ → ℕ
target_from_int len = len * fractional_unit % u32_mod

unfoldable pub target_get_length : ℕ → ℕ
target_get_length bits = bit_and bits target_length_mask / fractional_unit

pub target_set_length : ℕ → ℕ → Option ℕ
target_set_length len bits =
    if leb 0xff len
    then none
    else some (bit_or (bit_and bits target_fractional_mask) (len * fractional_unit % u32_mod))

unfoldable pub target_increment_length : ℕ → ℕ
target_increment_length bits = (bits + fractional_unit) % u32_mod

unfoldable pub target_decrement_length : ℕ → ℕ → ℕ
target_decrement_length min_length bits =
    if ltb min_length (target_get_length bits)
    then (bits + u32_mod - fractional_unit) % u32_mod
    else bits

unfoldable pub target_get_fractional : ℕ → ℕ
target_get_fractional bits = bit_and bits target_fractional_mask

unfoldable pub target_get_fractional_difficulty : ℕ → ℕ
target_get_fractional_difficulty bits =
    fractional_difficulty_max / (fractional_unit - target_get_fractional bits)

unfoldable pub target_set_fractional_difficulty : ℕ → ℕ → Option ℕ
target_set_fractional_difficulty difficulty bits =
    if ltb difficulty fractional_difficulty_min
    then none
    else (let fraction = fractional_difficulty_max / difficulty in
        if ltb fractional_unit fraction
        then none
        else some (bit_or (bit_and bits target_length_mask) (fractional_unit - fraction)))

-- COIN and CENT of src/servilo/util.h, and the static nMintLimit.
abbrev pub cent : ℕ
cent = 1_000_000

abbrev pub mint_limit : ℕ
mint_limit = 999 * 100_000_000

-- The outcome of TargetGetMint: a value, false with the value reset to 0, or the exception of a
-- division by zero in CBigNum.
pub data Mint : Type 0 where
  minted : ℕ → Mint
  refused : Mint
  thrown : Mint

unfoldable pub target_get_mint : ℕ → ℕ → Mint
target_get_mint min_length bits =
    if ltb (target_get_length bits) min_length
    then refused
    else if bits == 0
    then thrown
    else (let once = mint_limit * fractional_unit / bits in
        let twice = once * fractional_unit / bits in
        let mint = twice / cent * cent % 2 ^ 64 in
        if ltb mint_limit mint then refused else minted mint)

-- The new difficulty of TargetGetNext: the exponential moving step over CBigNum, which throws on a
-- division by zero (`none`), and the two clamps. The factor and the divisor are int64, and wrap.
unfoldable pub difficulty_factor : ℤ → ℤ → ℤ
difficulty_factor interval spacing = int64 ((interval +ℤ pos 1) *ℤ spacing)

unfoldable pub difficulty_divisor : ℤ → ℤ → ℤ → ℤ
difficulty_divisor interval spacing actual =
    int64 ((interval -ℤ pos 1) *ℤ spacing +ℤ actual +ℤ actual)

unfoldable pub clamp_difficulty : ℤ → ℕ
clamp_difficulty v =
    let capped : ℤ =
      if ltb_ℤ (pos fractional_difficulty_max) v then pos fractional_difficulty_max else v in
    let raised : ℤ =
      if ltb_ℤ capped (pos fractional_difficulty_min)
      then pos fractional_difficulty_min
      else capped in
    pos_part raised % 2 ^ 64

unfoldable pub quotient : ℤ → ℤ → Option ℤ
quotient a b = if pos_part b + neg_part b == 0 then none else some (quot_ℤ a b)

unfoldable pub next_difficulty : ℕ → ℤ → ℤ → ℤ → Option ℕ
next_difficulty difficulty interval spacing actual =
    elim (quotient (pos difficulty *ℤ difficulty_factor interval spacing)
      (difficulty_divisor interval spacing actual)) [
        | none ↦ none
        | some v ↦ some (clamp_difficulty v)
      ]

-- The step of the length in TargetGetNext: the new difficulty, and the new bits.
unfoldable pub step_length : ℕ → ℕ → ℕ → ℕ × ℕ
step_length min_length difficulty bits =
    if ltb fractional_difficulty_threshold difficulty
    then (fractional_difficulty_min, target_increment_length bits)
    else if difficulty == fractional_difficulty_min && ltb min_length (target_get_length bits)
    then (fractional_difficulty_threshold, target_decrement_length min_length bits)
    else (difficulty, bits)

-- TargetGetNext: the new bits, false, or the exception.
pub data Retargeted : Type 0 where
  next : ℕ → Retargeted
  fails : Retargeted
  throws : Retargeted

unfoldable pub finish_next : ℕ × ℕ → Retargeted
finish_next (difficulty, bits) = elim (target_set_fractional_difficulty difficulty bits) [
  | none ↦ fails
  | some b ↦ next b
]

unfoldable pub target_get_next : ℕ → ℕ → ℤ → ℤ → ℤ → Retargeted
target_get_next min_length bits interval spacing actual =
    elim (next_difficulty (target_get_fractional_difficulty bits) interval spacing actual) [
      | none ↦ throws
      | some d ↦ finish_next (step_length min_length d bits)
    ]
