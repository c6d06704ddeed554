-- ===== src/Script/Limits.antt =====
-- The machines that EvalScript goes through, and what bounds them.
use primmonero.Base.{
  ℕ, zero, suc, ◌+◌, ◌≤◌, ◌≡◌, refl, sym, ap, ◌∙◌, some, [], ◌∷◌, ltb, length, Bool-cases,
  list_cases, >>=-eq-some, inl, inr, arith,
}
use mathlib.Core.Path.{subst}
use primmonero.Script.{Bytes, get_op}
use primmonero.Script.Machine.{Stack, Machine, start}
use primmonero.Script.CryptoOps.{Context}
use primmonero.Script.Eval.{step, eval_loop, eval_script}
use primmonero.Script.Termination.{step-bounds, loop_next, loop_end, eval_loop-enough}

-- The rounds of the loop, as a relation.
pub data Reach (ctx : Context) : Machine → Machine → Type 0 where
  here : (m : Machine) → Reach ctx m m
  next : (m m1 m2 : Machine) → step ctx m ≡ some m1 → Reach ctx m1 m2 → Reach ctx m m2

module _ (ctx : Context) where
  -- From a stack within the limit, every machine that the loop reaches has at most 1000 elements on
  -- its two stacks, has counted at most 201 opcodes, and has no more code than the one before.
  pub Reach-limits :
      (m m' : Machine)
      → Reach ctx m m'
      → m.op_count ≤ 201
      → length m.stack + length m.alt_stack ≤ 1000
      → (m'.op_count ≤ 201)
        × (length m'.stack + length m'.alt_stack ≤ 1000)
        × (length m'.code ≤ length m.code)
  Reach-limits m m' (here _) counted sized = (counted, sized, omega arith)
  Reach-limits m m' (next _ m1 _ e r) counted sized =
      let (shorter, count, size) = step-bounds ctx m m1 e in
      let (counted', sized', short) = Reach-limits m1 m' r (count counted) size in
      (counted', sized', omega arith)

  step-code :
      (m m1 : Machine) → step ctx m ≡ some m1 → (c : ℕ) × (code : Bytes) × (m.code ≡ c ∷ code)
  unfolding step get_op
  step-code m m1 e = elim (list_cases m.code) [
    | inl empty ↦ let (r, e1, _) = >>=-eq-some (get_op m.code) _ e in cc (rw empty at e1)
    | inr found ↦ found
  ]

  -- The loop goes on from every machine that it reaches.
  pub Reach-eval_loop :
      (m m' : Machine)
      → Reach ctx m m'
      → eval_loop ctx (length m.code) m ≡ eval_loop ctx (length m'.code) m'
  Reach-eval_loop m m' (here _) = refl
  Reach-eval_loop m m' (next _ m1 _ e r) =
      let (c, code, full) = step-code m m1 e in
      let (shorter, _, _) = step-bounds ctx m m1 e in
      let size : length m.code ≡ suc (length code) = ap length full in
      ap (λ (k : ℕ). eval_loop ctx k m) size
      ∙ (loop_next ctx (length code) m c code full
          ∙ (rw e (
              eval_loop-enough ctx (length code) m1 (omega (arith, size))
              ∙ Reach-eval_loop m1 m' r)))

  ended :
      (fuel : ℕ) (m m' : Machine)
      → m.code ≡ []
      → eval_loop ctx fuel m ≡ some m'
      → (Reach ctx m m') × (m'.code ≡ [])
  ended fuel m m' empty e =
      let same : m ≡ m' = (let f : some m ≡ some m' = sym (loop_end ctx fuel m empty) ∙ e in cc) in
      subst (λ x. (Reach ctx m x) × (x.code ≡ [])) same (here m, empty)

  reached :
      (fuel : ℕ) (m m' : Machine)
      → length m.code ≤ fuel
      → eval_loop ctx fuel m ≡ some m'
      → (Reach ctx m m') × (m'.code ≡ [])
  reached zero m m' h e = elim (list_cases m.code) [
    | inl empty ↦ ended zero m m' empty e
    | inr (c, code, full) ↦ absurd (omega (arith, ap length full))
  ]
  reached (suc fuel) m m' h e = elim (list_cases m.code) [
    | inl empty ↦ ended (suc fuel) m m' empty e
    | inr (c, code, full) ↦
        let (m1, e1, e2) =
          >>=-eq-some (step ctx m) (eval_loop ctx fuel)
            (sym (loop_next ctx fuel m c code full) ∙ e) in
        let (shorter, _, _) = step-bounds ctx m m1 e1 in
        let (r, done) = reached fuel m1 m' (omega arith) e2 in (next m m1 m' e1 r, done)
  ]

  -- A script that succeeds has at most 10000 bytes, and leaves at most 1000 elements if it is given
  -- no more.
  pub eval_script-bounds :
      (stack : Stack) (script : Bytes) (result : Stack)
      → length stack ≤ 1000
      → eval_script ctx stack script ≡ some result
      → (length script ≤ 10000) × (length result ≤ 1000)
  unfolding eval_script start
  eval_script-bounds stack script result small e = elim (Bool-cases (ltb 10000 (length script))) [
    | inl long ↦ cc (rw (eval_script, long) at e)
    | inr fits ↦
        let (m, run, f) =
          >>=-eq-some (eval_loop ctx (length script) (start stack script)) _
            (rw (eval_script, fits) at e) in
        let (r, _) = reached (length script) (start stack script) m (omega arith) run in
        let (_, size, _) =
          Reach-limits (start stack script) m r (omega arith) (omega (arith, small)) in
        elim (list_cases m.exec) [
          | inr (b, bs, left) ↦ cc (rw left at f)
          | inl closed ↦
              let same : m.stack ≡ result = cc (rw closed at f) in
              (ground (arith, fits), omega (arith, size, ap length same))
        ]
  ]
