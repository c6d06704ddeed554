-- ===== src/Script/Steps.antt =====
-- Single rounds of the loop outside of any OP_IF, and runs of pushes.
use primmonero.Base.{
  ℕ, suc, ◌+◌, ◌^◌, length-append, ◌≤◌, ◌<◌, ◌≡◌, refl, ap, true, false, none, some, List, [], ◌∷◌,
  ◌++◌, All, append_assoc, append-nil, ltb, leb, length, Bool-cases, inl, inr, arith, ◌>>=◌,
}
use primmonero.Script.{Bytes, get_op, push_data}
use primmonero.Script.Opcode.{op_of, is_disabled}
use primmonero.Script.Push.{push_opcode, get_op-push_data}
use primmonero.Script.Machine.{Stack, Machine, start, all_true, on_stack}
use primmonero.Script.CryptoOps.{Context}
use primmonero.Script.Eval.{
  max_script_element_size, switch, execute, check_size, admit, step, eval_loop, eval_script,
}
use mathlib.Core.Path.{subst}
use primmonero.Script.Termination.{loop_next}
use primmonero.Script.Limits.{Reach, here, next, Reach-eval_loop}
use primmonero.Script.Standard.{push_all}

-- A machine outside of any OP_IF with nothing on its alternate stack.
abbrev pub machine : Bytes → Bytes → Stack → ℕ → Machine
machine code begin s n = record {
  code = code;
  begin_code_hash = begin;
  stack = s;
  alt_stack = [];
  exec = [];
  op_count = n;
}

-- Values that a push may hold.
abbrev pub AreSmall : List Bytes → Type 0
AreSmall = All (λ v. length v ≤ max_script_element_size)

-- The stack after pushes.
abbrev pub pushed : List Bytes → Stack → Stack
pushed [] s = s
pushed (v ∷ values) s = pushed values (v ∷ s)

enabled : (opcode : ℕ) → opcode ≤ 0x4e → is_disabled opcode ≡ false
unfolding is_disabled
enabled opcode h = ground arith

module _ (ctx : Context) where
  pub step-push :
      (b rest begin : Bytes) (s : Stack) (n : ℕ)
      → length b ≤ max_script_element_size
      → length rest < 2 ^ 31
      → length s < 1000
      → step ctx (machine (push_data b ++ rest) begin s n) ≡ some (machine rest begin (b ∷ s) n)
  unfolding step admit execute all_true on_stack check_size
  step-push b rest begin s n small few room =
      let (read, low) = get_op-push_data b rest (omega (arith, small, few)) in
      let small_b : ltb max_script_element_size (length b) ≡ false = ground (arith, small) in
      let uncounted : ltb 0x60 (push_opcode b) ≡ false = ground (arith, low) in
      let is_push : leb (push_opcode b) 0x4e ≡ true = ground (arith, low) in
      let fits : ltb 1000 (suc (length s) + 0) ≡ false = ground (arith, room) in
      rw
        (
          step,
          read,
          admit,
          small_b,
          uncounted,
          enabled (push_opcode b) low,
          execute,
          is_push,
          on_stack,
          check_size,
          fits,
        )
        refl

  -- An opcode that is executed.
  pub step-switch :
      (opcode : ℕ) (rest begin : Bytes) (s : Stack) (n : ℕ)
      → 0x60 < opcode
      → is_disabled opcode ≡ false
      → n < 201
      → step ctx (machine (opcode ∷ rest) begin s n)
        ≡ (switch ctx (op_of opcode) (machine rest begin s (n + 1)) >>= check_size ctx)
  unfolding step get_op admit execute all_true
  step-switch opcode rest begin s n high on room =
      let operand : leb opcode 0x4e ≡ false = ground (arith, high) in
      let counted : ltb 0x60 opcode ≡ true = ground (arith, high) in
      let few : ltb 201 (n + 1) ≡ false = ground (arith, room) in
      rw (step, get_op, operand, admit, counted, few, on, execute, operand) refl

  -- A run of pushes.
  Reach-push_all :
      (values : List Bytes) (rest begin : Bytes) (s : Stack) (n : ℕ)
      → AreSmall values
      → length (push_all values ++ rest) < 2 ^ 31
      → length values + length s ≤ 1000
      → Reach ctx
          (machine (push_all values ++ rest) begin s n)
          (machine rest begin (pushed values s) n)
  unfolding push_all
  Reach-push_all [] rest begin s n small few room = here _
  Reach-push_all (v ∷ values) rest begin s n small few room =
      let whole = append_assoc (push_data v) (push_all values) rest in
      let fewer : length (push_all values ++ rest) < 2 ^ 31 =
        omega
          (arith, ap length whole, length-append (push_data v) (push_all values ++ rest), few) in
      next _ (machine (push_all values ++ rest) begin (v ∷ s) n) _
        (rw whole (step-push v (push_all values ++ rest) begin s n small.0 fewer (omega arith)))
        (Reach-push_all values rest begin (v ∷ s) n small.1 fewer (omega arith))

  -- The result of a script whose machine reaches the end of the code outside of any OP_IF.
  pub eval_script-reached :
      (s t : Stack) (script begin : Bytes) (n : ℕ)
      → length script ≤ 10000
      → Reach ctx (start s script) (machine [] begin t n)
      → eval_script ctx s script ≡ some t
  unfolding eval_script start eval_loop
  eval_script-reached s t script begin n short r =
      let fits : ltb 10000 (length script) ≡ false = ground (arith, short) in
      let run = Reach-eval_loop ctx (start s script) (machine [] begin t n) r in
      rw (eval_script, fits, run) refl

  -- The result of a script whose machine reaches an instruction that fails.
  pub eval_script-failed :
      (s : Stack) (script : Bytes) (m : Machine) (c : ℕ) (code : Bytes)
      → Reach ctx (start s script) m
      → m.code ≡ c ∷ code
      → step ctx m ≡ none
      → eval_script ctx s script ≡ none
  unfolding eval_script start
  eval_script-failed s script m c code r more e = elim (Bool-cases (ltb 10000 (length script))) [
    | inl long ↦ rw (eval_script, long) refl
    | inr fits ↦
        let run = Reach-eval_loop ctx (start s script) m r in
        let stop = loop_next ctx (length code) m c code more in
        let size : length m.code ≡ suc (length code) = ap length more in
        rw (eval_script, fits, run, size, stop, e) refl
  ]

  -- Pushing values runs to their stack.
  pub eval_script-push_all :
      (values : List Bytes) (s : Stack)
      → AreSmall values
      → length values + length s ≤ 1000
      → length (push_all values) ≤ 10000
      → eval_script ctx s (push_all values) ≡ some (pushed values s)
  unfolding start
  eval_script-push_all values s small room short =
      eval_script-reached s (pushed values s) (push_all values) (push_all values) 0 short (
        subst
          (λ c.
            Reach ctx (machine c (push_all values) s 0)
              (machine [] (push_all values) (pushed values s) 0))
          (append-nil (push_all values))
          (Reach-push_all values [] (push_all values) s 0 small
            (omega (arith, ap length (append-nil (push_all values)), short)) room))
