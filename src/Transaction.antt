-- ===== src/Transaction.antt =====
-- Transactions (COutPoint, CTxIn and CTransaction in src/servilo/main.h). A hash is a number, a
-- script is its bytes, and an output is the one of the coin database.
pub mod Format
pub mod Check
pub mod Parts
pub mod Accepted
pub mod Fee
mod Runs
use primmonero.Base.{
  ℕ, zero, suc, Bool, true, false, ◌&&◌, List, [], ◌∷◌, ◌==◌, ◌-◌, ◌^◌, length, get_or,
}
use primmonero.Base.Int.{ℤ, pos}
use primmonero.Coins.{TxOut, Coins}

pub record OutPoint : Type 0 where
  pub hash : ℕ
  pub n : ℕ

-- COutPoint::SetNull and COutPoint::IsNull.
abbrev pub null_out_point : OutPoint
null_out_point = record { hash = 0; n = 0xffff_ffff }

abbrev pub is_null_out_point : OutPoint → Bool
is_null_out_point p = p.hash == 0 && p.n == 0xffff_ffff

pub record TxIn : Type 0 where
  pub prevout : OutPoint
  pub script_sig : List ℕ
  pub sequence : ℕ

pub record Transaction : Type 0 where
  pub version : ℤ
  pub vin : List TxIn
  pub vout : List TxOut
  pub lock_time : ℕ

-- The inputs of a coinbase: one with a null outpoint.
unfoldable pub only_null : List TxIn → Bool
only_null [] = false
only_null (i ∷ []) = is_null_out_point i.prevout
only_null (i ∷ j ∷ is) = false

unfoldable pub is_coin_base : Transaction → Bool
is_coin_base tx = only_null tx.vin

-- CCoins(tx, nHeight) and CCoins().
abbrev pub new_coins : Transaction → ℕ → Coins
new_coins tx height = record {
  coin_base = is_coin_base tx;
  vout = tx.vout;
  height = height;
  version = tx.version;
}

abbrev pub empty_coins : Coins
empty_coins = record { coin_base = false; vout = []; height = 0; version = pos 0 }
