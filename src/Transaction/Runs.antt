-- ===== src/Transaction/Runs.antt =====
-- Runs of transactions' checks, fees and formats.
use primmonero.Base.{
  ℕ, true, ◌%◌, ◌^◌, length, ◌≤◌, ◌≡◌, ◌↔◌, refl, false, some, [], ◌∷◌, ◌++◌, arith,
}
use primmonero.Base.Int.{pos, ◌+ℤ◌}
use primmonero.Serialize.{ok, get_size_of_compact_size}
use primmonero.Coins.{TxOut}
use primmonero.Transaction.{TxIn, Transaction, is_coin_base, only_null}
use primmonero.Transaction.Format.{
  write_transaction, read_transaction, get_serialize_size, tx_ins_size, tx_outs_size, script_size,
}
use primmonero.Transaction.Format.RoundTrip.{
  read_transaction-write_transaction, length-write_transaction,
}
use primmonero.Transaction.Check.{
  accepted, refused, check_outputs, contains, check_duplicates, check_prevouts, check_transaction,
  money_range, get_value_out, max_money, min_txout_amount,
}
use primmonero.Transaction.Parts.{total_of}
use primmonero.Transaction.Accepted.{
  IsAcceptable, check_transaction-IsAcceptable, get_value_out-check_transaction,
}
use primmonero.Transaction.Fee.{
  get_min_fee, asked_fee, raised_fee, free_fee, fee_of_outputs, gmf_relay, gmf_send,
}
use primmonero.Transaction.Fee.Bounds.{IsFeeFor, IsRaised, get_min_fee-bounds}

abbrev out : ℕ → TxOut
out n = record { value = pos n; script = 0x51 ∷ [] }

abbrev spending : ℕ → TxIn
spending n = record {
  prevout = record { hash = 5; n = n };
  script_sig = 1 ∷ 2 ∷ [];
  sequence = 0xffff_ffff;
}

abbrev payment : Transaction
payment = record {
  version = pos 1;
  vin = spending 0 ∷ spending 3 ∷ [];
  vout = out 2_000_000 ∷ out 70_000_000 ∷ [];
  lock_time = 0;
}

payment_accepted : check_transaction payment ≡ accepted
unfolding check_transaction check_outputs contains check_duplicates check_prevouts money_range
    is_coin_base only_null get_serialize_size tx_ins_size tx_outs_size script_size
    get_size_of_compact_size ◌+ℤ◌
payment_accepted = refl

double_refused :
    check_transaction (record payment { vin = spending 3 ∷ spending 3 ∷ [] }) ≡ refused 100
unfolding check_transaction check_outputs contains check_duplicates check_prevouts money_range
    is_coin_base only_null get_serialize_size tx_ins_size tx_outs_size script_size
    get_size_of_compact_size ◌+ℤ◌
double_refused = refl

check_transaction-IsAcceptable_example :
    (check_transaction payment ≡ accepted) ↔ IsAcceptable payment
check_transaction-IsAcceptable_example = check_transaction-IsAcceptable payment

get_value_out-check_transaction_example :
    (get_value_out payment ≡ some (pos (total_of payment.vout)))
    × (min_txout_amount ≤ total_of payment.vout)
    × (total_of payment.vout ≤ max_money)
get_value_out-check_transaction_example = get_value_out-check_transaction payment payment_accepted

read_transaction-write_transaction_example :
    read_transaction 78125 156250 (write_transaction payment ++ 7 ∷ []) ≡ ok (payment, 7 ∷ [])
read_transaction-write_transaction_example =
    read_transaction-write_transaction 78125 156250 payment (7 ∷ []) (omega arith) (omega arith) (
      omega arith,
      omega arith,
      (
        ((omega arith, omega arith), omega arith, omega arith),
        (((omega arith, omega arith), omega arith, omega arith), tt),
      ),
      omega arith,
      ((omega arith, omega arith), ((omega arith, omega arith), tt)),
      omega arith,
    )

length-write_transaction_example :
    get_serialize_size payment ≡ length (write_transaction payment) % 2 ^ 32
length-write_transaction_example = length-write_transaction payment

get_min_fee-bounds_example :
    (get_min_fee 1_000_000 1_000_000 payment 300_000 false gmf_send ≤ max_money)
    × IsFeeFor 1_000_000 1_000_000 payment false gmf_send
        (IsRaised (get_min_fee 1_000_000 1_000_000 payment 300_000 false gmf_send))
unfolding get_serialize_size tx_ins_size tx_outs_size script_size get_size_of_compact_size
get_min_fee-bounds_example =
    get_min_fee-bounds 1_000_000 1_000_000 payment 300_000 false gmf_send (omega arith)

abbrev dusty : Transaction
dusty = record payment { vout = out 900_000 ∷ [] }

-- A small payment is sent for nothing, or for the base fee when an output is below CENT.
sent_for_nothing : get_min_fee 1_000_000 1_000_000 payment 1000 true gmf_send ≡ 0
unfolding get_min_fee asked_fee raised_fee free_fee fee_of_outputs get_serialize_size tx_ins_size
    tx_outs_size script_size get_size_of_compact_size
sent_for_nothing = refl

sent_with_dust : get_min_fee 1_000_000 1_000_000 dusty 1000 true gmf_send ≡ 1_000_000
unfolding get_min_fee asked_fee raised_fee free_fee fee_of_outputs get_serialize_size tx_ins_size
    tx_outs_size script_size get_size_of_compact_size
sent_with_dust = refl

-- Three quarters full, the price doubles.
relayed_in_full_block : get_min_fee 1_000_000 1_000_000 payment 300_000 false gmf_relay ≡ 2_000_000
unfolding get_min_fee asked_fee raised_fee free_fee fee_of_outputs get_serialize_size tx_ins_size
    tx_outs_size script_size get_size_of_compact_size
relayed_in_full_block = refl
