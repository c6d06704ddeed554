-- ===== src/Script/Eval.antt =====
-- EvalScript and VerifyScript of src/servilo/script.cpp.
use primmonero.Base.{
  ℕ, zero, suc, ◌+◌, Bool, true, false, not, ◌&&◌, ◌||◌, Option, none, some, [], ◌∷◌, ltb, leb,
  if◌then◌else◌, length, ◌>>=◌,
}
use primmonero.Base.Int.{pos, ◌-ℤ◌}
use primmonero.Script.{Bytes, get_op, is_push_only, is_pay_to_script_hash}
use primmonero.Script.Opcode.{
  Op, small, op_nop, op_if, op_notif, op_else, op_endif, op_verify, op_return, op_toaltstack,
  op_fromaltstack, stack_op, unary, binary, op_within, hash, op_codeseparator, checksig,
  checkmultisig, other, op_of, is_disabled,
}
use primmonero.Script.Number.{get_vch, cast_to_bool}
use primmonero.Script.Machine.{
  Stack, Machine, start, all_true, on_stack, do_if, do_else, do_endif, do_verify, do_to_alt_stack,
  do_from_alt_stack,
}
use primmonero.Script.StackOps.{stack_step}
use primmonero.Script.NumberOps.{do_unary, do_binary, do_within}
use primmonero.Script.CryptoOps.{Context, do_hash, do_checksig, do_checkmultisig}

abbrev pub max_script_element_size : ℕ
max_script_element_size = 520

module _ (ctx : Context) where
  -- The switch.
  unfoldable pub switch : Op → Machine → Option Machine
  switch (small opcode) m = on_stack (some (get_vch ctx.big (pos opcode -ℤ pos 0x50) ∷ m.stack)) m
  switch op_nop m = some m
  switch op_if m = do_if false m
  switch op_notif m = do_if true m
  switch op_else m = do_else m
  switch op_endif m = do_endif m
  switch op_verify m = on_stack (do_verify m.stack) m
  switch op_return m = none
  switch op_toaltstack m = do_to_alt_stack m
  switch op_fromaltstack m = do_from_alt_stack m
  switch (stack_op op) m = on_stack (stack_step ctx.big op m.stack) m
  switch (unary op) m = on_stack (do_unary ctx.big op m.stack) m
  switch (binary op) m = on_stack (do_binary ctx.big op m.stack) m
  switch op_within m = on_stack (do_within ctx.big m.stack) m
  switch (hash op) m = on_stack (do_hash ctx op m.stack) m
  switch op_codeseparator m = some (record m { begin_code_hash = m.code })
  switch (checksig verify) m = on_stack (do_checksig ctx verify m.begin_code_hash m.stack) m
  switch (checkmultisig verify) m = do_checkmultisig ctx verify m
  switch other m = none

  -- An instruction that has been read: a push, a case of the switch, or one that is not executed.
  unfoldable pub execute : ℕ → Bytes → Machine → Option Machine
  execute opcode value m =
      let executing = all_true m.exec in
      if executing && leb opcode 0x4e
      then on_stack (some (value ∷ m.stack)) m
      else if executing || (leb 0x63 opcode && leb opcode 0x68)
      then switch (op_of opcode) m
      else some m

  unfoldable pub check_size : Machine → Option Machine
  check_size m = if ltb 1000 (length m.stack + length m.alt_stack) then none else some m

  -- The limits on the operand and on the number of opcodes, and the disabled opcodes.
  unfoldable pub admit : ℕ → Bytes → Bytes → Machine → Option Machine
  admit opcode value rest m =
      let count = if ltb 0x60 opcode then m.op_count + 1 else m.op_count in
      if ltb max_script_element_size (length value)
      then none
      else if ltb 0x60 opcode && ltb 201 count
      then none
      else if is_disabled opcode
      then none
      else some (record m { code = rest; op_count = count })

  -- One round of the loop.
  unfoldable pub step : Machine → Option Machine
  step m = do
    (opcode, value, rest) ← get_op m.code
    m1 ← admit opcode value rest m
    m2 ← execute opcode value m1
    check_size m2

  -- The loop `while (pc < pend)`, on fuel: each instruction takes a byte at least.
  unfoldable pub eval_loop : ℕ → Machine → Option Machine
  eval_loop zero m = elim (m.code) [ [] ↦ some m | c ∷ code ↦ none ]
  eval_loop (suc fuel) m = elim (m.code) [ [] ↦ some m | c ∷ code ↦ step m >>= eval_loop fuel ]

  -- The stack that is left, or false.
  unfoldable pub eval_script : Stack → Bytes → Option Stack
  eval_script stack script = if ltb 10000 (length script) then none else (do
    m ← eval_loop (length script) (start stack script)
    elim (m.exec) [ [] ↦ some m.stack | b ∷ bs ↦ none ])

  -- The truth value on top of the stack.
  unfoldable pub top_is_true : Stack → Bool
  top_is_true [] = false
  top_is_true (x ∷ s) = cast_to_bool x

  unfoldable pub evaluates_true : Stack → Bytes → Bool
  evaluates_true stack script = elim (eval_script stack script) [
    | none ↦ false
    | some s ↦ top_is_true s
  ]

  -- The validation of a script hash: the last item that was pushed is the script. The assertion that
  -- there is one is `none`.
  unfoldable pub verify_p2sh : Bytes → Stack → Option Bool
  verify_p2sh script_sig stack_copy =
      if not (is_push_only script_sig)
      then some false
      else elim stack_copy [ [] ↦ none | script ∷ s ↦ some (evaluates_true s script) ]

  -- VerifyScript; `p2sh` is the flag SCRIPT_VERIFY_P2SH.
  unfoldable pub verify_script : Bool → Bytes → Bytes → Option Bool
  verify_script p2sh script_sig script_pub_key = elim (eval_script [] script_sig) [
    | none ↦ some false
    | some stack ↦
        if not (evaluates_true stack script_pub_key)
        then some false
        else if p2sh && is_pay_to_script_hash script_pub_key
        then verify_p2sh script_sig stack
        else some true
  ]
