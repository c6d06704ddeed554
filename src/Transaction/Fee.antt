-- ===== src/Transaction/Fee.antt =====
-- The fee that a transaction has to pay (CTransaction::GetMinFee in src/servilo/main.cpp) and the
-- signature operations that it counts (GetLegacySigOpCount). The two base fees are settings of the
-- program: parameters here.
pub mod Bounds
use primmonero.Base.{
  ℕ, ◌∙◌, ◌≢◌, All, ◌+◌, ◌-◌, ◌*◌, ◌/◌, ◌%◌, ◌^◌, ◌≤◌, ◌<◌, ◌≡◌, refl, ◌⊎◌, Bool, true, false, not,
  ◌&&◌, List, [], ◌∷◌, ltb, leb, ◌==◌, if◌then◌else◌, Bool-cases, inl, inr, arith,
}
use mathlib.Core.Path.{subst}
use native.Mathlib.Nat.{le-div_iff_mul-le, div-le_self}
use primmonero.Base.Int.{ℤ, pos, ltb_ℤ, ◌≤ℤ◌, ◌+ℤ◌, +ℤ_parts}
use primmonero.Coins.{TxOut}
use primmonero.Script.SigOps.{get_sig_op_count}
use primmonero.Transaction.{TxIn, Transaction}
use primmonero.Transaction.Format.{get_serialize_size}
use primmonero.Target.{cent}
use primmonero.Transaction.Check.{max_money}

pub data GetMinFeeMode : Type 0 where
  gmf_block : GetMinFeeMode
  gmf_relay : GetMinFeeMode
  gmf_send : GetMinFeeMode

abbrev pub is_relay : GetMinFeeMode → Bool
is_relay gmf_block = false
is_relay gmf_relay = true
is_relay gmf_send = false

abbrev pub is_send : GetMinFeeMode → Bool
is_send gmf_block = false
is_send gmf_relay = false
is_send gmf_send = true

abbrev pub max_block_size_gen : ℕ
max_block_size_gen = 500_000

abbrev pub default_block_priority_size : ℕ
default_block_priority_size = 30_000

-- An int64 is its bit pattern, below 2 ^ 64; a negative one is above `max_money`.
abbrev pub int64_mod : ℕ
int64_mod = 2 ^ 64

-- The comparison of two int64.
abbrev pub signed_ltb : ℕ → ℕ → Bool
signed_ltb a b = ltb ((a + 2 ^ 63) % int64_mod) ((b + 2 ^ 63) % int64_mod)

-- The loop that asks for the base fee when an output is less than CENT.
unfoldable pub fee_of_outputs : ℕ → ℕ → List TxOut → ℕ
fee_of_outputs base fee [] = fee
fee_of_outputs base fee (o ∷ os) =
    fee_of_outputs base (if ltb_ℤ o.value (pos cent) then base else fee) os

-- The free area for small transactions.
unfoldable pub free_fee : GetMinFeeMode → Bool → ℕ → ℕ → ℕ
free_fee mode allow_free bytes fee =
    if allow_free && ltb bytes (if is_send mode then 1000 else default_block_priority_size - 1000)
    then 0
    else fee

abbrev pub limited : ℕ → ℕ
limited fee = if ltb max_money fee then max_money else fee

-- The price near the end of the block; `new_size` is nNewBlockSize.
unfoldable pub raised_fee : ℕ → ℕ → ℕ → ℕ
raised_fee block_size new_size fee =
    if not (block_size == 1) && leb (max_block_size_gen / 2) new_size
    then (if leb max_block_size_gen new_size
        then max_money
        else limited (fee * (max_block_size_gen / (max_block_size_gen - new_size)) % int64_mod))
    else limited fee

module _ (min_tx_fee min_relay_tx_fee : ℕ) where
  abbrev pub base_fee : GetMinFeeMode → ℕ
  base_fee mode = if is_relay mode then min_relay_tx_fee else min_tx_fee

  -- The fee before the block's size counts.
  unfoldable pub asked_fee : Transaction → Bool → GetMinFeeMode → ℕ
  asked_fee tx allow_free mode =
      let bytes = get_serialize_size tx in
      let base = base_fee mode in
      let fee = free_fee mode allow_free bytes ((1 + bytes / 1000) * base % int64_mod) in
      if signed_ltb fee base && is_send mode then fee_of_outputs base fee tx.vout else fee

  unfoldable pub get_min_fee : Transaction → ℕ → Bool → GetMinFeeMode → ℕ
  get_min_fee tx block_size allow_free mode =
      raised_fee block_size ((block_size + get_serialize_size tx) % 2 ^ 32)
        (asked_fee tx allow_free mode)

-- GetLegacySigOpCount.
unfoldable pub sig_ops_of_inputs : List TxIn → ℕ
sig_ops_of_inputs [] = 0
sig_ops_of_inputs (i ∷ is) = get_sig_op_count false i.script_sig + sig_ops_of_inputs is

unfoldable pub sig_ops_of_outputs : List TxOut → ℕ
sig_ops_of_outputs [] = 0
sig_ops_of_outputs (o ∷ os) = get_sig_op_count false o.script + sig_ops_of_outputs os

unfoldable pub get_legacy_sig_op_count : Transaction → ℕ
get_legacy_sig_op_count tx = sig_ops_of_inputs tx.vin + sig_ops_of_outputs tx.vout
