-- ===== src/Transaction/Check.antt =====
-- The checks of a transaction that need no other (CTransaction::CheckTransaction in
-- src/servilo/main.cpp, GetValueOut and MoneyRange in src/servilo/main.h). Sums of amounts do not
-- wrap here: in the source they stay below 2 ^ 63 as long as the checks before them hold.
use primmonero.Base.{
  ℕ, Bool, true, false, not, ◌&&◌, ◌||◌, Option, none, some, List, [], ◌∷◌, ltb, ◌==◌,
  if◌then◌else◌, length,
}
use primmonero.Base.Int.{ℤ, pos, ◌+ℤ◌, ltb_ℤ}
use primmonero.Target.{cent}
use primmonero.Coins.{TxOut}
use primmonero.Transaction.{OutPoint, is_null_out_point, TxIn, Transaction, is_coin_base}
use primmonero.Transaction.Format.{get_serialize_size}

-- 2000000000u * COIN.
abbrev pub max_money : ℕ
max_money = 200_000_000_000_000_000

abbrev pub min_txout_amount : ℕ
min_txout_amount = cent

abbrev pub max_block_size : ℕ
max_block_size = 1_000_000

unfoldable pub money_range : ℤ → Bool
money_range v = not (ltb_ℤ v (pos 0)) && not (ltb_ℤ (pos max_money) v)

-- The score is the one given to CValidationState::DoS.
pub data Verdict : Type 0 where
  accepted : Verdict
  refused : ℕ → Verdict

unfoldable pub check_outputs : ℤ → List TxOut → Verdict
check_outputs total [] = accepted
check_outputs total (o ∷ os) = elim (ltb_ℤ o.value (pos min_txout_amount)) [
  | true ↦ refused 100
  | false ↦ elim (ltb_ℤ (pos max_money) o.value) [
    | true ↦ refused 100
    | false ↦ elim (money_range (total +ℤ o.value)) [
      | true ↦ check_outputs (total +ℤ o.value) os
      | false ↦ refused 100
    ]
  ]
]

abbrev pub out_point_eq : OutPoint → OutPoint → Bool
out_point_eq p q = p.hash == q.hash && p.n == q.n

unfoldable pub contains : List OutPoint → OutPoint → Bool
contains [] p = false
contains (q ∷ seen) p = out_point_eq p q || contains seen p

-- The loop over the set of outpoints.
unfoldable pub check_duplicates : List OutPoint → List TxIn → Verdict
check_duplicates seen [] = accepted
check_duplicates seen (i ∷ is) = elim (contains seen i.prevout) [
  | true ↦ refused 100
  | false ↦ check_duplicates (i.prevout ∷ seen) is
]

unfoldable pub check_prevouts : List TxIn → Verdict
check_prevouts [] = accepted
check_prevouts (i ∷ is) = elim (is_null_out_point i.prevout) [
  | true ↦ refused 10
  | false ↦ check_prevouts is
]

-- The script of the first input, which there is.
unfoldable pub check_coin_base_script : List TxIn → Verdict
check_coin_base_script [] = accepted
check_coin_base_script (i ∷ is) =
    if ltb (length i.script_sig) 2 || ltb 100 (length i.script_sig) then refused 100 else accepted

-- One check after another.
abbrev pub and_then : Verdict → Verdict → Verdict
and_then accepted w = w
and_then (refused score) w = refused score

abbrev pub check_not_empty {ℓ} : {A : Type ℓ} → List A → Verdict
check_not_empty [] = refused 10
check_not_empty (x ∷ xs) = accepted

unfoldable pub check_transaction : Transaction → Verdict
check_transaction tx = and_then (check_not_empty tx.vin) (
    and_then (check_not_empty tx.vout) (
      and_then (if ltb max_block_size (get_serialize_size tx) then refused 100 else accepted) (
        and_then (check_outputs (pos 0) tx.vout) (
          and_then (check_duplicates [] tx.vin)
            (if is_coin_base tx then check_coin_base_script tx.vin else check_prevouts tx.vin)))))

-- The loop of CTransaction::GetValueOut; `none` is the exception.
unfoldable pub add_values : ℤ → List TxOut → Option ℤ
add_values total [] = some total
add_values total (o ∷ os) = elim (money_range o.value && money_range (total +ℤ o.value)) [
  | true ↦ add_values (total +ℤ o.value) os
  | false ↦ none
]

unfoldable pub get_value_out : Transaction → Option ℤ
get_value_out tx = add_values (pos 0) tx.vout
