-- ===== src/Coins.antt =====
-- CCoins (src/servilo/main.h): the outputs of a transaction in the coin database, and what spending
-- one of them does. An amount is an integer, a script is its bytes, and a height is not negative.
pub mod Cleanup
pub mod Spend
pub mod Format
pub mod Store
pub mod View
mod Runs
use primmonero.Base.{
  ℕ, zero, suc, Bool, true, false, not, ◌&&◌, Option, none, some, List, [], ◌∷◌, ltb, if◌then◌else◌,
  length, get_or,
}
use primmonero.Base.Int.{ℤ, pos, negsuc}
use mathlib.Core.List.{reverse}

pub record TxOut : Type 0 where
  pub value : ℤ
  pub script : List ℕ

-- CTxOut::SetNull and CTxOut::IsNull.
abbrev pub null_out : TxOut
null_out = record { value = negsuc 0; script = [] }

abbrev pub is_minus_one : ℤ → Bool
is_minus_one (pos n) = false
is_minus_one (negsuc zero) = true
is_minus_one (negsuc (suc n)) = false

abbrev pub is_null : TxOut → Bool
is_null o = is_minus_one o.value

pub record Coins : Type 0 where
  pub coin_base : Bool
  pub vout : List TxOut
  pub height : ℕ
  pub version : ℤ

-- CTxInUndo.
pub record TxInUndo : Type 0 where
  pub txout : TxOut
  pub coin_base : Bool
  pub height : ℕ
  pub version : ℤ

-- The loop of CCoins::Cleanup on the vector from its back on.
unfoldable pub pop_nulls : List TxOut → List TxOut
pop_nulls [] = []
pop_nulls (o ∷ os) = elim (is_null o) [ true ↦ pop_nulls os | false ↦ o ∷ os ]

unfoldable pub cleanup : Coins → Coins
cleanup c = record c { vout = reverse (pop_nulls (reverse c.vout)) }

unfoldable pub is_available : Coins → ℕ → Bool
is_available c n = ltb n (length c.vout) && not (is_null (get_or c.vout n null_out))

unfoldable pub all_null : List TxOut → Bool
all_null [] = true
all_null (o ∷ os) = is_null o && all_null os

unfoldable pub is_pruned : Coins → Bool
is_pruned c = all_null c.vout

-- The assignment `vout[n] = o`.
unfoldable pub set_at : List TxOut → ℕ → TxOut → List TxOut
set_at [] n o = []
set_at (x ∷ xs) zero o = o ∷ xs
set_at (x ∷ xs) (suc n) o = x ∷ set_at xs n o

-- The last unspent output takes the rest of the entry into the undo information.
unfoldable pub keep_last : Coins → TxInUndo → TxInUndo
keep_last c undo = elim (c.vout) [
  | [] ↦ record undo { height = c.height; coin_base = c.coin_base; version = c.version }
  | o ∷ os ↦ undo
]

-- CCoins::Spend at output `n`; `none` is the result false.
unfoldable pub spend : Coins → ℕ → Option (Coins × TxInUndo)
spend c n =
    if not (ltb n (length c.vout))
    then none
    else if is_null (get_or c.vout n null_out)
    then none
    else (let undo : TxInUndo = record {
      txout = get_or c.vout n null_out;
      coin_base = false;
      height = 0;
      version = pos 0;
    } in
        let c' = cleanup (record c { vout = set_at c.vout n null_out }) in
        some (c', keep_last c' undo))
