-- ===== src/Script/Assertion.antt =====
-- The assertion of VerifyScript (src/servilo/script.cpp) that the copy of the stack is not empty.
use primmonero.Base.{
  ◌≡◌, refl, sym, ap, ◌∙◌, Bool, true, false, ◌&&◌, none, some, [], ◌∷◌, Bool-cases, Option-cases,
  inl, inr, list_cases, arith,
}
use primmonero.Script.{Bytes, is_pay_to_script_hash, is_push_only}
use primmonero.Script.Opcode.{op_of, op_table, is_disabled}
use primmonero.Script.Machine.{Stack, start, on_stack}
use primmonero.Script.CryptoOps.{Context, do_hash}
use primmonero.Script.Eval.{switch, step, eval_script, evaluates_true, verify_p2sh, verify_script}
use primmonero.Script.Limits.{here}
use primmonero.Script.Steps.{machine, step-switch, eval_script-failed}

first_opcode :
    (script : Bytes) → is_pay_to_script_hash script ≡ true → (rest : Bytes) × (script ≡ 0xa9 ∷ rest)
unfolding is_pay_to_script_hash
first_opcode [] e = ground arith
first_opcode (c ∷ rest) e = let same : c ≡ 0xa9 = ground arith in (rest, ap (λ x. x ∷ rest) same)

module _ (ctx : Context) where
  -- OP_HASH160 finds nothing on an empty stack.
  hash_fails : (rest begin : Bytes) → step ctx (machine (0xa9 ∷ rest) begin [] 0) ≡ none
  unfolding is_disabled switch op_of op_table on_stack do_hash
  hash_fails rest begin = step-switch ctx 0xa9 rest begin [] 0 (omega arith) refl (omega arith)

  empty_fails :
      (script : Bytes) → is_pay_to_script_hash script ≡ true → evaluates_true ctx [] script ≡ false
  unfolding evaluates_true start
  empty_fails script e =
      let (rest, shape) = first_opcode script e in
      let stop =
        eval_script-failed ctx [] script (start [] script) 0xa9 rest (here _) shape
          (rw shape (hash_fails rest (0xa9 ∷ rest))) in
      rw (evaluates_true, stop) refl

  verify_p2sh-total :
      (sig : Bytes) (x : Bytes) (s : Stack) → (b : Bool) × (verify_p2sh ctx sig (x ∷ s) ≡ some b)
  unfolding verify_p2sh
  verify_p2sh-total sig x s = elim (Bool-cases (is_push_only sig)) [
    | inl pushes ↦ (evaluates_true ctx s x, rw (verify_p2sh, pushes) refl)
    | inr other ↦ (false, rw (verify_p2sh, other) refl)
  ]

  -- VerifyScript gives a result for every pair of scripts: its assertion never fails.
  pub verify_script-total :
      (p2sh : Bool) (sig key : Bytes) → (b : Bool) × (verify_script ctx p2sh sig key ≡ some b)
  unfolding verify_script
  verify_script-total p2sh sig key = elim (Option-cases (eval_script ctx [] sig)) [
    | inl fails ↦ (false, rw (verify_script, fails) refl)
    | inr (stack, run) ↦ elim (Bool-cases (evaluates_true ctx stack key)) [
      | inr untrue ↦ (false, rw (verify_script, run, untrue) refl)
      | inl truth ↦ elim (Bool-cases (p2sh && is_pay_to_script_hash key)) [
        | inr plain ↦ (true, rw (verify_script, run, truth, plain) refl)
        | inl hashed ↦ elim (list_cases stack) [
          | inl empty ↦
              let is_hash : is_pay_to_script_hash key ≡ true = ground (arith, hashed) in
              cc (sym (empty_fails key is_hash) ∙ (rw empty at truth))
          | inr (x, s, full) ↦
              let (b, done) = verify_p2sh-total sig x s in
              (b, rw (verify_script, run, truth, hashed, full) done)
        ]
      ]
    ]
  ]
