-- ===== src/Connect/Runs.antt =====
-- A run of a block: connected, and disconnected again.
use primmonero.Base.{
  ℕ, ◌*◌, ◌^◌, ◌≡◌, refl, true, false, Option, none, some, List, [], ◌∷◌, ◌==◌, All, Bool-cases,
  inl, inr, arith,
}
use mathlib.Core.Path.{subst}
use primmonero.Base.Int.{pos, ◌+ℤ◌, ◌-ℤ◌, int64}
use primmonero.Target.{target_get_length, target_get_mint}
use primmonero.Work.{get_block_value}
use primmonero.Serialize.{get_size_of_compact_size}
use primmonero.Script.{get_op, operand_size, number_of}
use primmonero.Script.CryptoOps.{Context}
use primmonero.Script.SigOps.{get_sig_op_count, sig_op_loop, sig_ops_of}
use primmonero.Coins.{
  TxOut, null_out, Coins, TxInUndo, is_pruned, is_available, cleanup, pop_nulls, set_at, keep_last,
  spend, all_null,
}
use primmonero.Coins.Cleanup.{trim}
use primmonero.Coins.Store.{Store, lookup, insert, IsUnique}
use primmonero.Coins.View.{
  Cache, fetch_coins, set_coins, have_coins, get_best_block, set_best_block,
}
use primmonero.Coins.View.Memory.{memory, memory_abstraction, memory_IsSource}
use primmonero.Coins.View.Refinement.{cache_abstraction}
use primmonero.Transaction.{null_out_point, Transaction, is_coin_base, only_null}
use primmonero.Transaction.Format.{get_serialize_size, tx_ins_size, tx_outs_size, script_size}
use primmonero.Transaction.Check.{get_value_out, add_values, money_range}
use primmonero.Transaction.Fee.{
  get_min_fee, asked_fee, free_fee, fee_of_outputs, raised_fee, get_legacy_sig_op_count,
  sig_ops_of_inputs, sig_ops_of_outputs,
}
use primmonero.Connect.{get_coins, spend_input, spend_inputs, update_coins}
use primmonero.Connect.Restore.{IsSound}
use primmonero.Connect.Views.{Entries, Represents, AreSound}
use primmonero.Connect.CheckInputs.{
  passed, have_hashes, have_outputs, have_inputs, get_output_for, sum_inputs, get_value_in,
  check_values, check_fee, check_amounts, check_inputs,
}
use primmonero.Connect.Block.{
  BlockInfo, Settings, enforces_bip30, check_overwrite, count_p2sh, check_spending, check_tx,
  connect_txs, check_reward, connect_block,
}
use primmonero.Connect.Values.{values_of}
use primmonero.Connect.Spendable.{IsSpendable, HasFee, check_inputs-IsSpendable}
use primmonero.Connect.Loop.{HaveOwnHashes, AreBlock}
use primmonero.Connect.Undone.{IsBlockUndone, connect_block-disconnect_block}

abbrev no_context : Context
no_context = record {
  big = record { from_mpi = λ v. pos 0; to_mpi = λ z. [] };
  ripemd160 = λ v. v;
  sha1 = λ v. v;
  sha256 = λ v. v;
  hash160 = λ v. v;
  hash256 = λ v. v;
  check_sig = λ sig key code. false;
  strict = false;
}

-- A transaction's hash is its lock time here.
abbrev settings : Settings
settings = record {
  hash_of = λ tx. tx.lock_time;
  height_of = λ b. b;
  min_tx_fee = 1_000_000;
  min_relay_tx_fee = 1_000_000;
  min_length = 6;
  total_blocks_estimate = 1000;
  context = λ strict tx n. no_context;
}

abbrev out : ℕ → TxOut
out n = record { value = pos n; script = 0x51 ∷ [] }

abbrev entry : Coins
entry = record {
  coin_base = false;
  vout = out 300_000_000 ∷ out 50_000_000 ∷ [];
  height = 3;
  version = pos 1;
}

abbrev before_block : Cache (Store × Option ℕ)
before_block = record { base = ((5, entry) ∷ [], some 7); cache = []; tip = none }

abbrev coinbase : Transaction
coinbase = record {
  version = pos 1;
  vin = record { prevout = null_out_point; script_sig = 1 ∷ 2 ∷ []; sequence = 0xffff_ffff } ∷ [];
  vout = out 1_000_000_000 ∷ [];
  lock_time = 11;
}

abbrev spender : Transaction
spender = record {
  version = pos 1;
  vin =
      record { prevout = record { hash = 5; n = 0 }; script_sig = []; sequence = 0xffff_ffff } ∷ [];
  vout = out 299_000_000 ∷ [];
  lock_time = 12;
}

abbrev block : BlockInfo
block = record {
  index = 8;
  prev = some 7;
  height = 8;
  bits = 7 * 2 ^ 24;
  time = 1_000_000_000;
  hash = none;
}

abbrev undos : List (List TxInUndo)
undos =
    (record { txout = out 300_000_000; coin_base = false; height = 0; version = pos 0 } ∷ []) ∷ []

abbrev connected : Cache (Store × Option ℕ)
connected = record before_block {
  cache =
      (11, record { coin_base = true; vout = coinbase.vout; height = 8; version = pos 1 })
      ∷ (5, record entry { vout = null_out ∷ out 50_000_000 ∷ [] })
      ∷ (12, record { coin_base = false; vout = spender.vout; height = 8; version = pos 1 })
      ∷ [];
  tip = some 8;
}

connect_block_run :
    connect_block memory settings false before_block block (coinbase ∷ spender ∷ [])
    ≡ passed (undos, connected)
unfolding connect_block check_overwrite count_p2sh check_spending check_tx connect_txs check_reward
    have_hashes have_outputs have_inputs get_output_for sum_inputs get_value_in check_values
    check_fee check_amounts check_inputs get_coins spend_input spend_inputs update_coins get_min_fee
    asked_fee get_op operand_size number_of target_get_mint target_get_length raised_fee free_fee
    fee_of_outputs get_serialize_size tx_ins_size tx_outs_size script_size get_size_of_compact_size
    pop_nulls get_block_value get_legacy_sig_op_count sig_ops_of_inputs sig_ops_of_outputs
    get_value_out add_values money_range is_coin_base only_null fetch_coins set_coins have_coins
    get_best_block set_best_block lookup insert is_pruned is_available cleanup set_at keep_last
    spend all_null enforces_bip30 get_sig_op_count sig_op_loop sig_ops_of int64 ◌+ℤ◌ ◌-ℤ◌
connect_block_run = refl

abbrev entries : Entries
entries = (cache_abstraction memory memory_abstraction).coins before_block

before_shows : Represents memory memory_abstraction memory_IsSource entries (some 7) before_block
unfolding IsUnique lookup
before_shows = (((refl, tt), tt), λ j. refl, refl)

entries-AreSound : AreSound entries
unfolding lookup trim all_null
entries-AreSound j c e left = elim (Bool-cases (j == 5)) [
  | inl same ↦
      let q = rw same at e in
      let is_entry : entry ≡ c = cc in
      subst IsSound is_entry (refl, ((λ n. cc), ((λ n. cc), tt)), λ z. absurd (omega arith))
  | inr other ↦ cc (rw other at e)
]

block_is_one : AreBlock settings.hash_of (coinbase ∷ spender ∷ [])
unfolding AreBlock HaveOwnHashes is_coin_base only_null
block_is_one = (
  refl,
  ((λ e. cc), (refl, tt)),
  ((refl, (omega arith, tt), ((λ e. cc), (refl, tt))), tt),
  ((refl, tt), (tt, tt)),
)

block_bip30 : enforces_bip30 block ≡ true
unfolding enforces_bip30
block_bip30 = refl

connect_block-disconnect_block_example :
    (block.prev ≡ some 7)
    × (f' : Entries) × Represents memory memory_abstraction memory_IsSource f' (some 8) connected
    × IsBlockUndone memory memory_abstraction memory_IsSource settings entries 7 block
        (coinbase ∷ spender ∷ [])
        undos
        f'
connect_block-disconnect_block_example =
    connect_block-disconnect_block memory memory_abstraction memory_IsSource settings entries 7
      block (coinbase ∷ spender ∷ []) before_block undos connected before_shows entries-AreSound
      (λ e. absurd (omega arith)) block_bip30 block_is_one connect_block_run

check_inputs_run :
    check_inputs memory settings.context false false settings.height_of 1_000_000 1_000_000 false
      before_block spender
    ≡ passed (record before_block { cache = (5, entry) ∷ []; tip = some 7 })
unfolding have_hashes have_outputs have_inputs check_values check_fee check_amounts check_inputs
    get_coins get_min_fee asked_fee raised_fee free_fee fee_of_outputs get_serialize_size
    tx_ins_size tx_outs_size script_size get_size_of_compact_size get_value_out add_values
    money_range is_coin_base only_null fetch_coins have_coins get_best_block lookup insert
    is_available int64 ◌+ℤ◌ ◌-ℤ◌
check_inputs_run = refl

spender_is_none : is_coin_base spender ≡ false
unfolding is_coin_base only_null
spender_is_none = refl

check_inputs-IsSpendable_example :
    Represents memory memory_abstraction memory_IsSource entries
      (some 7)
      (record before_block { cache = (5, entry) ∷ []; tip = some 7 })
    × All (IsSpendable entries 8) spender.vin
    × HasFee memory memory_abstraction memory_IsSource 1_000_000 1_000_000 spender
        (values_of entries spender.vin)
check_inputs-IsSpendable_example =
    check_inputs-IsSpendable memory memory_abstraction memory_IsSource settings.context false false
      settings.height_of 1_000_000 1_000_000 false entries 7 before_block spender
      (record before_block { cache = (5, entry) ∷ []; tip = some 7 }) spender_is_none before_shows
      check_inputs_run
