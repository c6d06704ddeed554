-- ===== src/Script/Runs.antt =====
-- Runs of scripts. Hashes are the first 20 bytes here, a signature is good when it is the key, and
-- numbers have one byte.
use primmonero.Base.{
  ◌↔◌, ℕ, Bool, ◌+◌, ◌≤◌, ◌≡◌, refl, true, false, ◌&&◌, none, some, [], ◌∷◌, ◌++◌, if◌then◌else◌,
  ◌==◌, take, get_or, arith,
}
use primmonero.Base.Int.{ℤ, pos, negsuc, ◌+ℤ◌, ◌-ℤ◌}
use primmonero.Script.{
  Bytes, bytes_eq, operand_size, get_op, push_data, find_and_delete, find_and_delete_loop,
  erase_front, starts_with,
}
use primmonero.Script.Push.{push_opcode, get_op-push_data}
use primmonero.Script.Number.{BigNums, get_int, cast_to_bool, set_vch, get_vch, cast_to_big_num}
use primmonero.Script.Opcode.{op_of, op_table, is_disabled}
use primmonero.Script.StackOps.{stack_step, do_drop, do_equal}
use primmonero.Script.NumberOps.{do_binary, apply_binary, after_binary}
use primmonero.Script.Machine.{start, all_true, on_stack, do_if}
use primmonero.Script.CryptoOps.{
  Context, match_sigs, check_one, do_checkmultisig, check_multisig, check_keys, count_up_to,
  delete_all, after_check,
}
use primmonero.Script.Eval.{
  step, admit, execute, switch, check_size, eval_loop, eval_script, evaluates_true, verify_script,
}
use primmonero.Script.Multisig.{Matching, match_sigs_iff}
use primmonero.Script.Termination.{eval_loop-enough}
use primmonero.Script.Limits.{here, next, Reach-limits}
use primmonero.Script.Standard.{pay_to_pub_key_hash, pay_to_script_hash, push_all}
use primmonero.Script.Steps.{machine, pushed}
use primmonero.Script.PayTo.{verify_script-pay_to_pub_key_hash}
use primmonero.Script.Assertion.{verify_script-total}
use primmonero.Script.SigOps.{
  sig_ops_of, sig_op_loop, get_sig_op_count, get_sig_op_count_of,
  get_sig_op_count-pay_to_script_hash,
}
use primmonero.Script.Solver.{tx_multisig, solver, is_standard, set_multisig}
use primmonero.Script.Solver.Solved.{solver-set_multisig}
use primmonero.Script.ScriptHash.{verify_script-pay_to_script_hash}

abbrev zeros : Bytes
zeros = 0 ∷ 0 ∷ 0 ∷ 0 ∷ 0 ∷ 0 ∷ 0 ∷ 0 ∷ 0 ∷ 0 ∷ 0 ∷ 0 ∷ 0 ∷ 0 ∷ 0 ∷ 0 ∷ 0 ∷ 0 ∷ 0 ∷ 0 ∷ []

abbrev twenty : Bytes → Bytes
twenty v = take 20 (v ++ zeros)

abbrev mpi_of : ℤ → Bytes
mpi_of (pos n) = if n == 0 then 0 ∷ 0 ∷ 0 ∷ 0 ∷ [] else 0 ∷ 0 ∷ 0 ∷ 1 ∷ n ∷ []
mpi_of (negsuc n) = 0 ∷ 0 ∷ 0 ∷ 1 ∷ (129 + n) ∷ []

abbrev one_byte_nums : BigNums
one_byte_nums = record { from_mpi = λ v. pos (get_or v 4 0); to_mpi = mpi_of }

abbrev context : Context
context = record {
  big = one_byte_nums;
  ripemd160 = twenty;
  sha1 = twenty;
  sha256 = twenty;
  hash160 = twenty;
  hash256 = twenty;
  check_sig = λ sig key code. bytes_eq sig key;
  strict = false;
}

abbrev key : Bytes
key = 2 ∷ 7 ∷ 5 ∷ []

abbrev redeem : Bytes
redeem = 0x75 ∷ 0x51 ∷ []

-- 2 3 ADD 5 EQUAL.
sum_runs : eval_script context [] (0x52 ∷ 0x53 ∷ 0x93 ∷ 0x55 ∷ 0x87 ∷ []) ≡ some ((1 ∷ []) ∷ [])
unfolding eval_script eval_loop start step get_op admit is_disabled execute all_true switch op_of
    op_table on_stack check_size get_vch do_binary apply_binary after_binary cast_to_big_num set_vch
    ◌+ℤ◌ ◌-ℤ◌ stack_step do_equal
sum_runs = refl

-- An IF without its ENDIF.
unbalanced : eval_script context [] (0x51 ∷ 0x63 ∷ 0x51 ∷ []) ≡ none
unfolding eval_script eval_loop start step get_op admit is_disabled execute all_true switch op_of
    op_table on_stack check_size get_vch do_if ◌-ℤ◌ cast_to_bool
unbalanced = refl

-- Of three keys, the first and the third sign.
multisig_runs :
    eval_script context
      ((1 ∷ []) ∷ (3 ∷ []) ∷ [] ∷ [])
      (0x52 ∷ 1 ∷ 3 ∷ 1 ∷ 2 ∷ 1 ∷ 1 ∷ 0x53 ∷ 0xae ∷ [])
    ≡ some ((1 ∷ []) ∷ [])
unfolding eval_script eval_loop start step get_op admit is_disabled execute all_true switch op_of
    op_table on_stack check_size operand_size get_vch ◌-ℤ◌ do_checkmultisig check_multisig
    check_keys cast_to_big_num set_vch get_int count_up_to delete_all match_sigs check_one
    after_check find_and_delete find_and_delete_loop erase_front starts_with push_data
multisig_runs = refl

get_op-push_data_example :
    (get_op (push_data key ++ redeem) ≡ some (push_opcode key, key, redeem))
    × (push_opcode key ≤ 0x4e)
get_op-push_data_example = get_op-push_data key redeem (omega arith)

match_sigs_iff_example :
    (match_sigs bytes_eq ((1 ∷ []) ∷ (3 ∷ []) ∷ []) ((1 ∷ []) ∷ (2 ∷ []) ∷ (3 ∷ []) ∷ []) ≡ true)
    ↔ Matching bytes_eq ((1 ∷ []) ∷ (3 ∷ []) ∷ []) ((1 ∷ []) ∷ (2 ∷ []) ∷ (3 ∷ []) ∷ [])
match_sigs_iff_example =
    match_sigs_iff bytes_eq ((1 ∷ []) ∷ (3 ∷ []) ∷ []) ((1 ∷ []) ∷ (2 ∷ []) ∷ (3 ∷ []) ∷ [])

eval_loop-enough_example :
    eval_loop context 9 (machine redeem redeem (key ∷ []) 0)
    ≡ eval_loop context 2 (machine redeem redeem (key ∷ []) 0)
eval_loop-enough_example =
    eval_loop-enough context 9 (machine redeem redeem (key ∷ []) 0) (omega arith)

Reach-limits_example : (1 ≤ 201) × (1 + 0 ≤ 1000) × (0 ≤ 2)
unfolding step get_op admit is_disabled execute all_true switch op_of op_table on_stack check_size
    get_vch ◌-ℤ◌ stack_step do_drop
Reach-limits_example =
    Reach-limits context (machine redeem redeem (key ∷ []) 0) (machine [] redeem ((1 ∷ []) ∷ []) 1)
      (next _ (machine (0x51 ∷ []) redeem [] 1) _ refl
        (next _ (machine [] redeem ((1 ∷ []) ∷ []) 1) _ refl (here _)))
      (omega arith) (omega arith)

verify_script-pay_to_pub_key_hash_example :
    verify_script context true (push_all (key ∷ key ∷ [])) (pay_to_pub_key_hash (twenty key))
    ≡ some (
        bytes_eq (twenty key) (twenty key)
        && check_one context
            (find_and_delete (push_data key) (pay_to_pub_key_hash (twenty key))).1
            key
            key)
verify_script-pay_to_pub_key_hash_example =
    verify_script-pay_to_pub_key_hash context (twenty key) key key (omega arith) true (omega arith)
      (omega arith)

verify_script-pay_to_script_hash_example :
    verify_script context true
      (push_all ((key ∷ []) ++ redeem ∷ []))
      (pay_to_script_hash (twenty redeem))
    ≡ some (
        bytes_eq (twenty redeem) (twenty redeem)
        && evaluates_true context (pushed (key ∷ []) []) redeem)
unfolding push_all push_data
verify_script-pay_to_script_hash_example =
    verify_script-pay_to_script_hash context (twenty redeem) redeem (key ∷ []) (omega arith)
      (omega arith, (omega arith, tt)) (omega arith) (omega arith)

-- OP_2, two keys, OP_2 OP_CHECKMULTISIG.
abbrev two_of_two : Bytes
two_of_two = 0x52 ∷ 1 ∷ 1 ∷ 1 ∷ 2 ∷ 0x52 ∷ 0xae ∷ []

accurate_count : get_sig_op_count true two_of_two ≡ 2
unfolding get_sig_op_count sig_op_loop sig_ops_of get_op operand_size
accurate_count = refl

get_sig_op_count-pay_to_script_hash_example :
    get_sig_op_count_of
      (pay_to_script_hash (twenty two_of_two))
      (push_all ((key ∷ []) ++ two_of_two ∷ []))
    ≡ get_sig_op_count true two_of_two
unfolding push_all push_data
get_sig_op_count-pay_to_script_hash_example =
    get_sig_op_count-pay_to_script_hash (twenty two_of_two) two_of_two (key ∷ []) refl
      (omega arith, (omega arith, tt)) (omega arith)

verify_script-total_example :
    (b : Bool) × (verify_script context true [] (pay_to_script_hash (twenty redeem)) ≡ some b)
verify_script-total_example =
    verify_script-total context true [] (pay_to_script_hash (twenty redeem))

abbrev thirty_three : ℕ → Bytes
thirty_three b = 2 ∷ b ∷ 0 ∷ 0 ∷ 0 ∷ 0 ∷ 0 ∷ 0 ∷ 0 ∷ 0 ∷ 0 ∷ 0 ∷ 0 ∷ zeros

solver-set_multisig_example :
    (script : Bytes) × (set_multisig 1 (thirty_three 8 ∷ thirty_three 9 ∷ []) ≡ some script)
    × (solver script ≡ record {
      found = true;
      type = tx_multisig;
      solutions = (1 ∷ []) ∷ thirty_three 8 ∷ thirty_three 9 ∷ (2 ∷ []) ∷ [];
    })
    × (is_standard script ≡ true)
solver-set_multisig_example =
    solver-set_multisig 1 (thirty_three 8 ∷ thirty_three 9 ∷ []) (omega arith) (omega arith)
      (omega arith) ((omega arith, omega arith), ((omega arith, omega arith), tt))
