-- ===== src/Script/PayTo.antt =====
-- VerifyScript on the standard scripts that pay to a hash.
use primmonero.Base.{
  ◌≤◌, ◌≡◌, refl, ◌∙◌, Bool, true, false, ◌&&◌, none, some, [], ◌∷◌, ◌++◌, if◌then◌else◌, length,
  length-append, Bool-cases, inl, inr, arith,
}
use primmonero.Script.{
  Bytes, bytes_eq, push_data, find_and_delete, is_pay_to_script_hash, is_push_only,
}
use primmonero.Script.Push.{length-push_data}
use primmonero.Script.Opcode.{op_of, op_table, is_disabled}
use primmonero.Script.Number.{cast_to_bool, vch_of_bool}
use primmonero.Script.Machine.{Stack, Machine, start, on_stack}
use primmonero.Script.StackOps.{stack_step, do_dup, do_equal}
use primmonero.Script.CryptoOps.{Context, apply_hash, do_hash, check_one, do_checksig, after_check}
use primmonero.Script.Eval.{
  max_script_element_size, switch, check_size, step, eval_script, top_is_true, evaluates_true,
  verify_p2sh, verify_script,
}
use primmonero.Script.Limits.{Reach, here, next}
use primmonero.Script.Standard.{pay_to_pub_key_hash, push_all}
use primmonero.Script.Steps.{
  machine, step-push, step-switch, eval_script-reached, eval_script-failed, eval_script-push_all,
}

pub cast-vch_of_bool : (b : Bool) → cast_to_bool (vch_of_bool b) ≡ b
unfolding cast_to_bool
cast-vch_of_bool true = refl
cast-vch_of_bool false = refl

module _ (ctx : Context) where
  -- The result on a script that does not pay to the hash of a script.
  verify_script-plain :
      (p2sh : Bool) (sig key : Bytes) (stack : Stack) (b : Bool)
      → eval_script ctx [] sig ≡ some stack
      → evaluates_true ctx stack key ≡ b
      → (p2sh && is_pay_to_script_hash key) ≡ false
      → verify_script ctx p2sh sig key ≡ some b
  unfolding verify_script
  verify_script-plain p2sh sig key stack true run value plain =
      rw (verify_script, run, value, plain) refl
  verify_script-plain p2sh sig key stack false run value plain = rw (verify_script, run, value) refl

  -- The result on a script that pays to the hash of a script.
  pub verify_script-p2sh :
      (sig key redeem : Bytes) (s : Stack) (b : Bool)
      → eval_script ctx [] sig ≡ some (redeem ∷ s)
      → evaluates_true ctx (redeem ∷ s) key ≡ b
      → is_pay_to_script_hash key ≡ true
      → is_push_only sig ≡ true
      → verify_script ctx true sig key ≡ some (b && evaluates_true ctx s redeem)
  unfolding verify_script verify_p2sh
  verify_script-p2sh sig key redeem s true run value p2sh pushes =
      rw (verify_script, run, value, p2sh, verify_p2sh, pushes) refl
  verify_script-p2sh sig key redeem s false run value p2sh pushes =
      rw (verify_script, run, value) refl

module _ (ctx : Context) (hash sig key : Bytes)
    (small : length hash ≤ max_script_element_size) where
  abbrev script : Bytes
  script = 0x76 ∷ 0xa9 ∷ push_data hash ++ (0x88 ∷ 0xac ∷ [])

  dup :
      step ctx (machine script script (key ∷ sig ∷ []) 0)
      ≡ some (machine (0xa9 ∷ push_data hash ++ (0x88 ∷ 0xac ∷ [])) script (key ∷ key ∷ sig ∷ []) 1)
  unfolding is_disabled switch op_of op_table on_stack stack_step do_dup check_size
  dup =
      step-switch ctx 0x76 (0xa9 ∷ push_data hash ++ (0x88 ∷ 0xac ∷ [])) script (key ∷ sig ∷ []) 0
        (omega arith) refl (omega arith)

  hashed :
      step ctx
        (machine (0xa9 ∷ push_data hash ++ (0x88 ∷ 0xac ∷ [])) script (key ∷ key ∷ sig ∷ []) 1)
      ≡ some (
          machine
            (push_data hash ++ (0x88 ∷ 0xac ∷ []))
            script
            (ctx.hash160 key ∷ key ∷ sig ∷ [])
            2)
  unfolding is_disabled switch op_of op_table on_stack do_hash apply_hash check_size
  hashed =
      step-switch ctx 0xa9 (push_data hash ++ (0x88 ∷ 0xac ∷ [])) script (key ∷ key ∷ sig ∷ []) 1
        (omega arith) refl (omega arith)

  -- The state before OP_EQUALVERIFY.
  at_equal :
      Reach ctx
        (start (key ∷ sig ∷ []) script)
        (machine (0x88 ∷ 0xac ∷ []) script (hash ∷ ctx.hash160 key ∷ key ∷ sig ∷ []) 2)
  unfolding start
  at_equal = next _ _ _ dup (
      next _ _ _ hashed (
        next _ _ _
          (step-push ctx hash (0x88 ∷ 0xac ∷ []) script _ 2 small (omega arith) (omega arith))
          (here _)))

  equal_step :
      (b : Bool)
      → bytes_eq (ctx.hash160 key) hash ≡ b
      → step ctx (machine (0x88 ∷ 0xac ∷ []) script (hash ∷ ctx.hash160 key ∷ key ∷ sig ∷ []) 2)
        ≡ (if b then some (machine (0xac ∷ []) script (key ∷ sig ∷ []) 3) else none)
  unfolding is_disabled switch op_of op_table on_stack stack_step do_equal check_size
  equal_step true e =
      step-switch ctx 0x88 (0xac ∷ []) script (hash ∷ ctx.hash160 key ∷ key ∷ sig ∷ []) 2
        (omega arith) refl (omega arith)
      ∙ (rw e refl)
  equal_step false e =
      step-switch ctx 0x88 (0xac ∷ []) script (hash ∷ ctx.hash160 key ∷ key ∷ sig ∷ []) 2
        (omega arith) refl (omega arith)
      ∙ (rw e refl)

  abbrev signed : Bool
  signed = check_one ctx (find_and_delete (push_data sig) script).1 sig key

  sig_step :
      step ctx (machine (0xac ∷ []) script (key ∷ sig ∷ []) 3)
      ≡ some (machine [] script (vch_of_bool signed ∷ []) 4)
  unfolding is_disabled switch op_of op_table on_stack do_checksig after_check check_size
  sig_step = step-switch ctx 0xac [] script (key ∷ sig ∷ []) 3 (omega arith) refl (omega arith)

  Reach-trans : (a b c : Machine) → Reach ctx a b → Reach ctx b c → Reach ctx a c
  Reach-trans a b c (here _) r = r
  Reach-trans a b c (next _ m _ e q) r = next a m c e (Reach-trans m b c q r)

  evaluates :
      length script ≤ 10000
      → evaluates_true ctx (key ∷ sig ∷ []) script ≡ (bytes_eq (ctx.hash160 key) hash && signed)
  unfolding evaluates_true top_is_true
  evaluates short = elim (Bool-cases (bytes_eq (ctx.hash160 key) hash)) [
    | inl same ↦
        let run =
          eval_script-reached ctx (key ∷ sig ∷ []) (vch_of_bool signed ∷ []) script script 4 short (
            Reach-trans _ _ _ at_equal
              (next _ _ _ (equal_step true same) (next _ _ _ sig_step (here _)))) in
        rw (evaluates_true, run, same) (cast-vch_of_bool signed)
    | inr differ ↦
        let stop =
          eval_script-failed ctx (key ∷ sig ∷ []) script _ 0x88 (0xac ∷ []) at_equal refl
            (equal_step false differ) in
        rw (evaluates_true, stop, differ) refl
  ]

  not_script_hash : (p2sh : Bool) → (p2sh && is_pay_to_script_hash script) ≡ false
  unfolding is_pay_to_script_hash
  not_script_hash p2sh = ground arith

  -- A script that pushes a signature and a key satisfies a script that pays to the hash of a key
  -- exactly when the key has that hash and the signature is one of the key for that script, from
  -- which pushes of the signature are deleted. The three have at most 520 bytes.
  pub verify_script-pay_to_pub_key_hash :
      (p2sh : Bool)
      → length sig ≤ max_script_element_size
      → length key ≤ max_script_element_size
      → verify_script ctx p2sh (push_all (sig ∷ key ∷ [])) (pay_to_pub_key_hash hash)
        ≡ some (
            bytes_eq (ctx.hash160 key) hash
            && check_one ctx (find_and_delete (push_data sig) (pay_to_pub_key_hash hash)).1 sig key)
  unfolding pay_to_pub_key_hash push_all
  verify_script-pay_to_pub_key_hash p2sh small_sig small_key =
      let sizes : length (push_all (sig ∷ key ∷ [])) ≤ 10000 = omega (
        arith,
        length-append (push_data sig) (push_all (key ∷ [])),
        length-append (push_data key) [],
        length-push_data sig,
        length-push_data key,
      ) in
      let short : length script ≤ 10000 =
        omega (arith, length-append (push_data hash) (0x88 ∷ 0xac ∷ []), length-push_data hash) in
      let run =
        eval_script-push_all ctx (sig ∷ key ∷ []) [] (small_sig, (small_key, tt)) (omega arith)
          sizes in
      verify_script-plain ctx p2sh (push_all (sig ∷ key ∷ [])) script (key ∷ sig ∷ []) _ run
        (evaluates short) (not_script_hash p2sh)
