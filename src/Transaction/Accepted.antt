-- ===== src/Transaction/Accepted.antt =====
-- Which transactions CheckTransaction accepts, in terms of what they hold.
use primmonero.Base.{
  ℕ, ◌+◌, ◌%◌, ◌^◌, length, ◌≤◌, ◌≡◌, ◌≢◌, ◌↔◌, sym, ap, ◌∙◌, true, false, some, List, [], ◌∷◌, All,
  ltb, if◌then◌else◌, Bool-cases, inl, inr, arith,
}
use primmonero.Base.Int.{pos, ◌+ℤ◌, ltb_ℤ, pos_part}
use mathlib.Core.Path.{subst}
use primmonero.Coins.{TxOut}
use primmonero.Transaction.{null_out_point, Transaction, is_coin_base}
use primmonero.Transaction.Format.{write_transaction, get_serialize_size}
use primmonero.Transaction.Format.RoundTrip.{length-write_transaction}
use primmonero.Transaction.Check.{
  max_money, min_txout_amount, max_block_size, money_range, Verdict, accepted, refused,
  check_outputs, check_duplicates, check_prevouts, check_coin_base_script, check_not_empty,
  check_transaction, add_values, get_value_out,
}
use primmonero.Transaction.Parts.{
  IsAmount, total_of, AreDistinct, HasScript, sum_is, money_range_iff, amount_is,
  check_outputs_sound, check_outputs_complete, check_duplicates_sound, check_duplicates_complete,
  check_prevouts_sound, check_prevouts_complete, script_iff, and_then_parts, not_empty_iff,
  none_seen, at_least,
}

pub record IsAcceptable (tx : Transaction) : Type 0 where
  pub has_inputs : tx.vin ≢ []
  pub has_outputs : tx.vout ≢ []
  pub size : length (write_transaction tx) % 2 ^ 32 ≤ max_block_size
  pub amounts : All IsAmount tx.vout
  pub total : total_of tx.vout ≤ max_money
  pub distinct : AreDistinct tx.vin
  pub script : is_coin_base tx ≡ true → All HasScript tx.vin
  pub prevouts : is_coin_base tx ≡ false → All (λ i. i.prevout ≢ null_out_point) tx.vin

abbrev last : Transaction → Verdict
last tx = if is_coin_base tx then check_coin_base_script tx.vin else check_prevouts tx.vin

abbrev sized : Transaction → Verdict
sized tx = if ltb max_block_size (get_serialize_size tx) then refused 100 else accepted

size_iff :
    (tx : Transaction)
    → (sized tx ≡ accepted) ↔ (length (write_transaction tx) % 2 ^ 32 ≤ max_block_size)
size_iff tx = (
  λ e. ground (arith, length-write_transaction tx, e),
  λ h. ground (arith, length-write_transaction tx, h),
)

IsAcceptable-sound : (tx : Transaction) → check_transaction tx ≡ accepted → IsAcceptable tx
unfolding check_transaction is_coin_base
IsAcceptable-sound tx e =
    let (ins, e1) = and_then_parts (check_not_empty tx.vin) _ e in
    let (outs, e2) = and_then_parts (check_not_empty tx.vout) _ e1 in
    let (small, e3) = and_then_parts (sized tx) _ e2 in
    let (amounts, e4) = and_then_parts (check_outputs (pos 0) tx.vout) _ e3 in
    let (single, e5) = and_then_parts (check_duplicates [] tx.vin) (last tx) e4 in
    let (each, total) = check_outputs_sound 0 tx.vout (omega arith) amounts in
    record {
      has_inputs = (not_empty_iff tx.vin).0 ins;
      has_outputs = (not_empty_iff tx.vout).0 outs;
      size = (size_iff tx).0 small;
      amounts = each;
      total = omega (arith, total);
      distinct = (check_duplicates_sound [] tx.vin single).1;
      script = λ base. (script_iff tx.vin base).0 (rw base at e5);
      prevouts = λ base. check_prevouts_sound tx.vin (rw base at e5);
    }

IsAcceptable-complete : (tx : Transaction) → IsAcceptable tx → check_transaction tx ≡ accepted
unfolding check_transaction is_coin_base
IsAcceptable-complete tx fine =
    rw
      (
        check_transaction,
        (not_empty_iff tx.vin).1 fine.has_inputs,
        (not_empty_iff tx.vout).1 fine.has_outputs,
        (size_iff tx).1 fine.size,
        check_outputs_complete 0 tx.vout fine.amounts (omega (arith, fine.total)),
        check_duplicates_complete [] tx.vin (none_seen tx.vin) fine.distinct,
      )
      (elim (Bool-cases (is_coin_base tx)) [
        | inl base ↦ rw base ((script_iff tx.vin base).1 (fine.script base))
        | inr other ↦ rw other (check_prevouts_complete tx.vin (fine.prevouts other))
      ])

-- CheckTransaction accepts a transaction exactly when it has inputs and outputs, the number of bytes
-- that it is written in is, modulo 2 ^ 32, at most MAX_BLOCK_SIZE, each of its outputs has an amount
-- from MIN_TXOUT_AMOUNT to MAX_MONEY and all together have at most MAX_MONEY, no two inputs spend the
-- same output, and, for a coinbase, the script has 2 to 100 bytes and, for any other, no input's
-- outpoint is null.
pub check_transaction-IsAcceptable :
    (tx : Transaction) → (check_transaction tx ≡ accepted) ↔ IsAcceptable tx
check_transaction-IsAcceptable tx = (IsAcceptable-sound tx, IsAcceptable-complete tx)

add_values_all :
    (t : ℕ) (os : List TxOut)
    → All IsAmount os
    → t + total_of os ≤ max_money
    → add_values (pos t) os ≡ some (pos (t + total_of os))
unfolding add_values total_of
add_values_all t [] amounts h = ap some (ap pos (omega arith))
add_values_all t (o ∷ os) amounts h =
    let above : ltb_ℤ o.value (pos min_txout_amount) ≡ false = ground (arith, amounts.0.0) in
    let (x, is_x) = amount_is o.value above in
    let value : pos_part o.value ≡ x = ap pos_part is_x in
    let sum : pos t +ℤ o.value ≡ pos (t + x) = ap (λ v. pos t +ℤ v) is_x ∙ sum_is t x in
    let small : t + x ≤ max_money = omega arith in
    let alone : x ≤ max_money = omega arith in
    let one = ap money_range is_x ∙ (money_range_iff x).1 alone in
    let fits = ap money_range sum ∙ (money_range_iff (t + x)).1 small in
    rw (add_values, one, fits)
      (subst (λ z. add_values z os ≡ some (pos (t + (pos_part o.value + total_of os)))) (sym sum)
        (add_values_all (t + x) os amounts.1 (omega arith) ∙ ap some (ap pos (omega arith))))

-- GetValueOut of a transaction that CheckTransaction accepts does not throw: it gives the sum of the
-- outputs, which is at most MAX_MONEY and at least MIN_TXOUT_AMOUNT.
pub get_value_out-check_transaction :
    (tx : Transaction)
    → check_transaction tx ≡ accepted
    → (get_value_out tx ≡ some (pos (total_of tx.vout)))
      × (min_txout_amount ≤ total_of tx.vout)
      × (total_of tx.vout ≤ max_money)
unfolding get_value_out
get_value_out-check_transaction tx e =
    let fine = (check_transaction-IsAcceptable tx).0 e in
    (
      add_values_all 0 tx.vout fine.amounts (omega (arith, fine.total))
          ∙ ap some (ap pos (omega arith)),
      at_least tx.vout fine.has_outputs fine.amounts,
      fine.total,
    )
