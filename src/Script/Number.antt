-- ===== src/Script/Number.antt =====
-- Numbers and truth values on the stack (src/servilo/script.cpp), and the bytes of a CBigNum
-- (src/servilo/bignum.h). BN_mpi2bn and BN_bn2mpi of OpenSSL are fields of `BigNums`.
use primmonero.Base.{
  suc, ◌-◌, ◌/◌, ◌%◌, ◌^◌, Bool, false, not, ◌&&◌, Option, none, some, [], ◌∷◌, ltb, leb, ◌==◌,
  if◌then◌else◌, length, drop,
}
use primmonero.Base.Int.{ℤ, pos, negsuc}
use primmonero.Script.{Bytes}
use mathlib.Core.List.{reverse}

-- The sign and magnitude format with a size of four bytes in front.
pub record BigNums : Type 0 where
  pub from_mpi : Bytes → ℤ
  pub to_mpi : ℤ → Bytes

-- INT_MAX and INT_MIN are where a larger number ends.
unfoldable pub get_int : ℤ → ℤ
get_int (pos n) = if ltb (2 ^ 31 - 1) n then pos (2 ^ 31 - 1) else pos n
get_int (negsuc n) = if ltb (2 ^ 31 - 1) (suc n) then negsuc (2 ^ 31 - 1) else negsuc n

unfoldable pub cast_to_bool : Bytes → Bool
cast_to_bool [] = false
cast_to_bool (b ∷ bs) =
    let rest = cast_to_bool bs in if b == 0 then rest else not (length bs == 0 && b == 0x80)

abbrev pub vch_false : Bytes
vch_false = []

abbrev pub vch_true : Bytes
vch_true = 1 ∷ []

abbrev pub vch_of_bool : Bool → Bytes
vch_of_bool b = if b then vch_true else vch_false

-- `bn = (bn1 == bn2)`: the number of a truth value.
abbrev pub num_of_bool : Bool → ℤ
num_of_bool b = if b then pos 1 else pos 0

module _ (big : BigNums) where
  unfoldable pub set_vch : Bytes → ℤ
  set_vch vch =
      let size = length vch in
      big.from_mpi
        (size / 2 ^ 24 % 256 ∷ size / 2 ^ 16 % 256 ∷ size / 2 ^ 8 % 256 ∷ size % 256 ∷ reverse vch)

  unfoldable pub get_vch : ℤ → Bytes
  get_vch n = let mpi = big.to_mpi n in if leb (length mpi) 4 then [] else reverse (drop 4 mpi)

  -- CastToBigNum; `none` is the exception.
  unfoldable pub cast_to_big_num : Bytes → Option ℤ
  cast_to_big_num vch = if ltb 4 (length vch) then none else some (set_vch (get_vch (set_vch vch)))
