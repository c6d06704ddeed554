-- ===== src/Script/ScriptHash.antt =====
-- VerifyScript on scripts that pay to the hash of a script.
use primmonero.Base.{
  ℕ, zero, suc, ◌+◌, ◌^◌, ◌≤◌, ◌<◌, ◌≡◌, refl, ap, ◌∙◌, true, false, ◌&&◌, some, List, [], ◌∷◌,
  ◌++◌, ltb, length, length-append, get_or, arith,
}
use mathlib.Core.Path.{subst}
use primmonero.Script.{
  Bytes, bytes_eq, get_op, push_data, is_pay_to_script_hash, is_push_only_loop, is_push_only,
}
use primmonero.Script.Push.{push_opcode, get_op-push_data, length-push_data, fits_word}
use primmonero.Script.Opcode.{op_of, op_table, is_disabled}
use primmonero.Script.Number.{vch_of_bool}
use primmonero.Script.Machine.{Stack, start, on_stack}
use primmonero.Script.StackOps.{stack_step, do_equal}
use primmonero.Script.CryptoOps.{Context, apply_hash, do_hash}
use primmonero.Script.Eval.{
  max_script_element_size, switch, check_size, step, top_is_true, evaluates_true, verify_script,
}
use primmonero.Script.Limits.{here, next}
use primmonero.Script.Termination.{get_op-shorter}
use primmonero.Script.Standard.{pay_to_script_hash, push_all}
use primmonero.Script.Steps.{
  machine, AreSmall, pushed, step-push, step-switch, eval_script-reached, eval_script-push_all,
}
use primmonero.Script.PayTo.{cast-vch_of_bool, verify_script-p2sh}

push_only_next :
    (fuel opcode : ℕ) (code value rest : Bytes)
    → get_op code ≡ some (opcode, value, rest)
    → opcode ≤ 0x4e
    → is_push_only_loop (suc fuel) code ≡ is_push_only_loop fuel rest
unfolding is_push_only_loop get_op
push_only_next fuel opcode [] value rest e h = cc
push_only_next fuel opcode (c ∷ code) value rest e h =
    let low : ltb 0x60 opcode ≡ false = ground arith in rw (is_push_only_loop, e, low) refl

push_only_loop-push_all :
    (values : List Bytes) (fuel : ℕ)
    → length (push_all values) < 2 ^ 32
    → length (push_all values) ≤ fuel
    → is_push_only_loop fuel (push_all values) ≡ true
unfolding push_all is_push_only_loop
push_only_loop-push_all [] fuel few h = refl
push_only_loop-push_all (v ∷ values) zero few h =
    let (read, low) = get_op-push_data v (push_all values) (fits_word v (push_all values) few) in
    absurd (
      omega (
        arith,
        get_op-shorter (push_data v ++ push_all values) v (push_all values) (push_opcode v) read,
        h,
      ))
push_only_loop-push_all (v ∷ values) (suc fuel) few h =
    let (read, low) = get_op-push_data v (push_all values) (fits_word v (push_all values) few) in
    let fewer : length (push_all values) < 2 ^ 32 =
      omega (arith, length-append (push_data v) (push_all values), few) in
    push_only_next fuel (push_opcode v) (push_data v ++ push_all values) v (push_all values) read
      low
    ∙ push_only_loop-push_all values fuel fewer (
        omega (
          arith,
          get_op-shorter (push_data v ++ push_all values) v (push_all values) (push_opcode v) read,
          h,
        ))

is_push_only-push_all :
    (values : List Bytes)
    → length (push_all values) < 2 ^ 32
    → is_push_only (push_all values) ≡ true
unfolding is_push_only
is_push_only-push_all values few =
    push_only_loop-push_all values (length (push_all values)) few (omega arith)

get_or-append : (xs : Bytes) (y : ℕ) → get_or (xs ++ y ∷ []) (length xs) 0 ≡ y
get_or-append [] y = refl
get_or-append (x ∷ xs) y = get_or-append xs y

pub is_pay_to_script_hash-pay :
    (hash : Bytes) → length hash ≡ 20 → is_pay_to_script_hash (pay_to_script_hash hash) ≡ true
unfolding is_pay_to_script_hash pay_to_script_hash push_data
is_pay_to_script_hash-pay hash h =
    let size : length (hash ++ 0x87 ∷ []) ≡ 21 = omega (arith, length-append hash (0x87 ∷ []), h) in
    let last : get_or (hash ++ 0x87 ∷ []) 20 0 ≡ 0x87 =
      subst (λ n. get_or (hash ++ 0x87 ∷ []) n 0 ≡ 0x87) h (get_or-append hash 0x87) in
    rw (h, size, last) refl

pushed-append :
    (values : List Bytes) (v : Bytes) (s : Stack)
    → pushed (values ++ v ∷ []) s ≡ v ∷ pushed values s
pushed-append [] v s = refl
pushed-append (x ∷ values) v s = pushed-append values v (x ∷ s)

length-pushed :
    (values : List Bytes) (s : Stack) → length (pushed values s) ≡ length values + length s
length-pushed [] s = omega arith
length-pushed (v ∷ values) s = omega (arith, length-pushed values (v ∷ s))

module _ (ctx : Context) (hash redeem : Bytes) (s : Stack)
    (small : length hash ≤ max_script_element_size) (room : length s < 999) where
  abbrev script : Bytes
  script = 0xa9 ∷ push_data hash ++ (0x87 ∷ [])

  hashed :
      step ctx (machine script script (redeem ∷ s) 0)
      ≡ some (machine (push_data hash ++ (0x87 ∷ [])) script (ctx.hash160 redeem ∷ s) 1)
  unfolding is_disabled switch op_of op_table on_stack do_hash apply_hash check_size
  hashed =
      let fits : ltb 1000 (suc (length s) + 0) ≡ false = ground (arith, room) in
      step-switch ctx 0xa9 (push_data hash ++ (0x87 ∷ [])) script (redeem ∷ s) 0 (omega arith) refl
        (omega arith)
      ∙ (rw fits refl)

  compared :
      step ctx (machine (0x87 ∷ []) script (hash ∷ ctx.hash160 redeem ∷ s) 1)
      ≡ some (machine [] script (vch_of_bool (bytes_eq (ctx.hash160 redeem) hash) ∷ s) 2)
  unfolding is_disabled switch op_of op_table on_stack stack_step do_equal check_size
  compared =
      let fits : ltb 1000 (suc (length s) + 0) ≡ false = ground (arith, room) in
      step-switch ctx 0x87 [] script (hash ∷ ctx.hash160 redeem ∷ s) 1 (omega arith) refl
        (omega arith)
      ∙ (rw fits refl)

  evaluates :
      evaluates_true ctx (redeem ∷ s) (pay_to_script_hash hash) ≡ bytes_eq (ctx.hash160 redeem) hash
  unfolding evaluates_true top_is_true start pay_to_script_hash
  evaluates =
      let short : length script ≤ 10000 =
        omega (arith, length-append (push_data hash) (0x87 ∷ []), length-push_data hash) in
      let run =
        eval_script-reached ctx (redeem ∷ s) (vch_of_bool (bytes_eq (ctx.hash160 redeem) hash) ∷ s)
          script script 2 short
          (next _ _ _ hashed (
            next _ _ _
              (step-push ctx hash (0x87 ∷ []) script (ctx.hash160 redeem ∷ s) 1 small (omega arith)
                (omega (arith, room)))
              (next _ _ _ compared (here _)))) in
      rw (evaluates_true, run) (cast-vch_of_bool (bytes_eq (ctx.hash160 redeem) hash))

-- A script that pushes values and then a script satisfies a script that pays to the hash of a
-- script exactly when the pushed script has that hash and leaves a true value when it runs on the
-- values. Every value has at most 520 bytes, there are at most 998 of them, and the pushes have at
-- most 10000 bytes.
pub verify_script-pay_to_script_hash :
    (ctx : Context) (hash redeem : Bytes) (values : List Bytes)
    → length hash ≡ 20
    → AreSmall (values ++ redeem ∷ [])
    → length values < 999
    → length (push_all (values ++ redeem ∷ [])) ≤ 10000
    → verify_script ctx true (push_all (values ++ redeem ∷ [])) (pay_to_script_hash hash)
      ≡ some (bytes_eq (ctx.hash160 redeem) hash && evaluates_true ctx (pushed values []) redeem)
verify_script-pay_to_script_hash ctx hash redeem values size small few short =
    let count : length (values ++ redeem ∷ []) + 0 ≤ 1000 =
      omega (arith, length-append values (redeem ∷ []), few) in
    let run = eval_script-push_all ctx (values ++ redeem ∷ []) [] small count short in
    let room : length (pushed values []) < 999 = omega (arith, length-pushed values [], few) in
    verify_script-p2sh ctx (push_all (values ++ redeem ∷ [])) (pay_to_script_hash hash) redeem
      (pushed values []) _ (run ∙ ap some (pushed-append values redeem []))
      (evaluates ctx hash redeem (pushed values []) (omega (arith, size)) room)
      (is_pay_to_script_hash-pay hash size)
      (is_push_only-push_all (values ++ redeem ∷ []) (omega (arith, short)))
