-- ===== src/Script/Termination.antt =====
-- Each round of the loop shortens the code, so that the fuel of EvalScript is enough.
use primmonero.Base.{
  ℕ, zero, suc, ◌+◌, ◌%◌, ◌^◌, ◌≤◌, ◌<◌, ◌≡◌, refl, sym, ap, ◌∙◌, Bool, true, false, ◌&&◌, ◌||◌,
  Option, none, some, [], ◌∷◌, ltb, leb, if◌then◌else◌, length, drop, Bool-cases, Option-cases,
  list_cases, >>=-eq-some, inl, inr, arith, ◌>>=◌,
}
use mathlib.Core.Path.{subst}
use primmonero.Script.{Bytes, operand_size, get_op}
use primmonero.Script.Opcode.{
  Op, small, op_nop, op_if, op_notif, op_else, op_endif, op_verify, op_return, op_toaltstack,
  op_fromaltstack, stack_op, unary, binary, op_within, hash, op_codeseparator, checksig,
  checkmultisig, other, op_of, is_disabled,
}
use primmonero.Script.Machine.{
  Stack, Machine, all_true, on_stack, do_if, do_else, do_endif, do_to_alt_stack, do_from_alt_stack,
}
use primmonero.Script.Number.{get_int, cast_to_big_num}
use primmonero.Script.CryptoOps.{Context, do_checkmultisig, check_multisig, count_up_to}
use primmonero.Script.Eval.{
  max_script_element_size, switch, execute, check_size, admit, step, eval_loop,
}

length-drop : (n : ℕ) (xs : Bytes) → length (drop n xs) ≤ length xs
length-drop zero xs = omega arith
length-drop (suc n) [] = omega arith
length-drop (suc n) (x ∷ xs) = omega (arith, length-drop n xs)

operand_size-shorter :
    (opcode size : ℕ) (code rest : Bytes)
    → operand_size opcode code ≡ some (size, rest)
    → length rest ≤ length code
unfolding operand_size
operand_size-shorter opcode size code rest e =
    ground (arith, length-drop 1 code, length-drop 2 code, length-drop 4 code)

pub get_op-shorter :
    (code value rest : Bytes) (opcode : ℕ)
    → get_op code ≡ some (opcode, value, rest)
    → length rest < length code
unfolding get_op
get_op-shorter [] value rest opcode e = cc
get_op-shorter (c ∷ code) value rest opcode e = elim (Bool-cases (leb c 0x4e)) [
  | inr high ↦ ground (arith, rw (get_op, high) at e)
  | inl low ↦
      let ((size, code'), e1, e2) = >>=-eq-some (operand_size c code) _ (rw (get_op, low) at e) in
      elim (Bool-cases (ltb (length code' % 2 ^ 32) size)) [
        | inl over ↦ cc (rw over at e2)
        | inr fits ↦
            let same : drop size code' ≡ rest = cc (rw fits at e2) in
            omega (
              arith,
              operand_size-shorter c size code code' e1,
              length-drop size code',
              ap length same,
            )
      ]
]

-- What an instruction leaves as it is.
pub record IsFramed (m m' : Machine) : Type 0 where
  pub same_code : m'.code ≡ m.code
  pub counted : m.op_count ≤ 201 → m'.op_count ≤ 201

unchanged : (m : Machine) → IsFramed m m
unchanged m = record { same_code = refl; counted = λ h. h }

-- A machine that differs from `m` in neither field.
framed :
    (m n m' : Machine) → IsFramed m n → ◌≡◌ {A = Option Machine} (some n) (some m') → IsFramed m m'
framed m n m' f e = subst (λ x. IsFramed m x) (let same : n ≡ m' = cc in same) f

on_stack-IsFramed : (s : Option Stack) (m m' : Machine) → on_stack s m ≡ some m' → IsFramed m m'
unfolding on_stack
on_stack-IsFramed none m m' e = cc
on_stack-IsFramed (some s) m m' e = framed m _ m' (record { same_code = refl; counted = λ h. h }) e

do_if-IsFramed : (negated : Bool) (m m' : Machine) → do_if negated m ≡ some m' → IsFramed m m'
unfolding do_if
do_if-IsFramed negated m m' e = elim (Bool-cases (all_true m.exec)) [
  | inr idle ↦ framed m _ m' (record { same_code = refl; counted = λ h. h }) (rw (do_if, idle) at e)
  | inl running ↦ elim (list_cases m.stack) [
    | inl empty ↦ cc (rw (do_if, running, empty) at e)
    | inr (top, s, full) ↦
        framed m _ m' (record { same_code = refl; counted = λ h. h })
          (rw (do_if, running, full) at e)
  ]
]

do_else-IsFramed : (m m' : Machine) → do_else m ≡ some m' → IsFramed m m'
unfolding do_else
do_else-IsFramed m m' e = elim (list_cases m.exec) [
  | inl empty ↦ cc (rw (do_else, empty) at e)
  | inr (b, bs, full) ↦
      framed m _ m' (record { same_code = refl; counted = λ h. h }) (rw (do_else, full) at e)
]

do_endif-IsFramed : (m m' : Machine) → do_endif m ≡ some m' → IsFramed m m'
unfolding do_endif
do_endif-IsFramed m m' e = elim (list_cases m.exec) [
  | inl empty ↦ cc (rw (do_endif, empty) at e)
  | inr (b, bs, full) ↦
      framed m _ m' (record { same_code = refl; counted = λ h. h }) (rw (do_endif, full) at e)
]

do_to_alt_stack-IsFramed : (m m' : Machine) → do_to_alt_stack m ≡ some m' → IsFramed m m'
unfolding do_to_alt_stack
do_to_alt_stack-IsFramed m m' e = elim (list_cases m.stack) [
  | inl empty ↦ cc (rw (do_to_alt_stack, empty) at e)
  | inr (b, bs, full) ↦
      framed m _ m' (record { same_code = refl; counted = λ h. h })
        (rw (do_to_alt_stack, full) at e)
]

do_from_alt_stack-IsFramed : (m m' : Machine) → do_from_alt_stack m ≡ some m' → IsFramed m m'
unfolding do_from_alt_stack
do_from_alt_stack-IsFramed m m' e = elim (list_cases m.alt_stack) [
  | inl empty ↦ cc (rw (do_from_alt_stack, empty) at e)
  | inr (b, bs, full) ↦
      framed m _ m' (record { same_code = refl; counted = λ h. h })
        (rw (do_from_alt_stack, full) at e)
]

module _ (ctx : Context) where
  do_checkmultisig-IsFramed :
      (verify : Bool) (m m' : Machine) → do_checkmultisig ctx verify m ≡ some m' → IsFramed m m'
  unfolding do_checkmultisig check_multisig
  do_checkmultisig-IsFramed verify m m' e = elim (list_cases m.stack) [
    | inl empty ↦ cc (rw (do_checkmultisig, empty) at e)
    | inr (number, s, full) ↦
        let (n, _, e1) =
          >>=-eq-some (cast_to_big_num ctx.big number) _ (rw (do_checkmultisig, full) at e) in
        let (keys_count, _, e2) = >>=-eq-some (count_up_to 20 (get_int n)) _ e1 in
        let (s', e3, e4) = >>=-eq-some (check_multisig ctx verify m keys_count s) _ e2 in
        elim (Bool-cases (ltb 201 (m.op_count + keys_count))) [
          | inl over ↦ cc (rw (check_multisig, over) at e3)
          | inr under ↦
              framed m _ m' (record { same_code = refl; counted = λ h. ground (arith, under) }) e4
        ]
  ]

  switch-IsFramed : (op : Op) (m m' : Machine) → switch ctx op m ≡ some m' → IsFramed m m'
  unfolding switch
  switch-IsFramed (small opcode) m m' e = on_stack-IsFramed _ m m' e
  switch-IsFramed op_nop m m' e = framed m m m' (unchanged m) e
  switch-IsFramed op_if m m' e = do_if-IsFramed false m m' e
  switch-IsFramed op_notif m m' e = do_if-IsFramed true m m' e
  switch-IsFramed op_else m m' e = do_else-IsFramed m m' e
  switch-IsFramed op_endif m m' e = do_endif-IsFramed m m' e
  switch-IsFramed op_verify m m' e = on_stack-IsFramed _ m m' e
  switch-IsFramed op_return m m' e = cc
  switch-IsFramed op_toaltstack m m' e = do_to_alt_stack-IsFramed m m' e
  switch-IsFramed op_fromaltstack m m' e = do_from_alt_stack-IsFramed m m' e
  switch-IsFramed (stack_op op) m m' e = on_stack-IsFramed _ m m' e
  switch-IsFramed (unary op) m m' e = on_stack-IsFramed _ m m' e
  switch-IsFramed (binary op) m m' e = on_stack-IsFramed _ m m' e
  switch-IsFramed op_within m m' e = on_stack-IsFramed _ m m' e
  switch-IsFramed (hash op) m m' e = on_stack-IsFramed _ m m' e
  switch-IsFramed op_codeseparator m m' e =
      framed m _ m' (record { same_code = refl; counted = λ h. h }) e
  switch-IsFramed (checksig verify) m m' e = on_stack-IsFramed _ m m' e
  switch-IsFramed (checkmultisig verify) m m' e = do_checkmultisig-IsFramed verify m m' e
  switch-IsFramed other m m' e = cc

  execute-IsFramed :
      (opcode : ℕ) (value : Bytes) (m m' : Machine)
      → execute ctx opcode value m ≡ some m'
      → IsFramed m m'
  unfolding execute
  execute-IsFramed opcode value m m' e = elim (Bool-cases (all_true m.exec && leb opcode 0x4e)) [
    | inl push ↦ on_stack-IsFramed _ m m' (rw (execute, push) at e)
    | inr f1 ↦ elim (Bool-cases (all_true m.exec || (leb 0x63 opcode && leb opcode 0x68))) [
      | inl on ↦ switch-IsFramed (op_of opcode) m m' (rw (execute, f1, on) at e)
      | inr off ↦ framed m m m' (unchanged m) (rw (execute, f1, off) at e)
    ]
  ]

  admit-counted :
      (opcode : ℕ) (value rest : Bytes) (m m' : Machine)
      → admit ctx opcode value rest m ≡ some m'
      → (m'.code ≡ rest) × (m.op_count ≤ 201 → m'.op_count ≤ 201)
  unfolding admit
  admit-counted opcode value rest m m' e =
      let count : ℕ = if ltb 0x60 opcode then m.op_count + 1 else m.op_count in
      let n : Machine = record m { code = rest; op_count = count } in
      elim (Bool-cases (ltb max_script_element_size (length value))) [
        | inl large ↦ cc (rw (admit, large) at e)
        | inr fits ↦ elim (Bool-cases (ltb 0x60 opcode && ltb 201 count)) [
          | inl many ↦ cc (rw (admit, fits, many) at e)
          | inr few ↦ elim (Bool-cases (is_disabled opcode)) [
            | inl off ↦ cc (rw (admit, fits, few, off) at e)
            | inr on ↦
                let same : n ≡ m' = cc (rw (admit, fits, few, on) at e) in
                subst (λ x. (x.code ≡ rest) × (m.op_count ≤ 201 → x.op_count ≤ 201)) same
                  (refl, λ h. ground (arith, few))
          ]
        ]
      ]

  -- One round: the code gets shorter, and the limits hold after it.
  pub step-bounds :
      (m m' : Machine)
      → step ctx m ≡ some m'
      → (length m'.code < length m.code)
        × (m.op_count ≤ 201 → m'.op_count ≤ 201)
        × (length m'.stack + length m'.alt_stack ≤ 1000)
  unfolding step check_size
  step-bounds m m' e =
      let ((opcode, value, rest), e1, f1) = >>=-eq-some (get_op m.code) _ e in
      let (m1, e2, f2) = >>=-eq-some (admit ctx opcode value rest m) _ f1 in
      let (m2, e3, f3) = >>=-eq-some (execute ctx opcode value m1) _ f2 in
      let (same, count1) = admit-counted opcode value rest m m1 e2 in
      let frame = execute-IsFramed opcode value m1 m2 e3 in
      elim (Bool-cases (ltb 1000 (length m2.stack + length m2.alt_stack))) [
        | inl over ↦ cc (rw over at f3)
        | inr under ↦
            let last : m2 ≡ m' = cc (rw under at f3) in
            subst
              (λ x.
                (length x.code < length m.code)
                × (m.op_count ≤ 201 → x.op_count ≤ 201)
                × (length x.stack + length x.alt_stack ≤ 1000))
              last
              (
                omega (
                  arith,
                  ap length frame.same_code,
                  ap length same,
                  get_op-shorter m.code value rest opcode e1,
                ),
                λ h. frame.counted (count1 h),
                ground (arith, under),
              )
      ]

  pub loop_next :
      (fuel : ℕ) (m : Machine) (c : ℕ) (code : Bytes)
      → m.code ≡ c ∷ code
      → eval_loop ctx (suc fuel) m ≡ (step ctx m >>= eval_loop ctx fuel)
  unfolding eval_loop
  loop_next fuel m c code e =
      elim (m.code)
          as (λ (xs : Bytes).
            xs ≡ c ∷ code
            → (elim xs [ [] ↦ some m | c ∷ code ↦ step ctx m >>= eval_loop ctx fuel ])
              ≡ (step ctx m >>= eval_loop ctx fuel)) [ [] ↦ λ e. cc | d ∷ ds ↦ λ e. refl ]
        e

  pub loop_end : (fuel : ℕ) (m : Machine) → m.code ≡ [] → eval_loop ctx fuel m ≡ some m
  unfolding eval_loop
  loop_end zero m e =
      elim (m.code)
          as (λ (xs : Bytes).
            xs ≡ []
            → ◌≡◌ {A = Option Machine} (elim xs [ [] ↦ some m | c ∷ code ↦ none ]) (some m)) [
              | [] ↦ λ e. refl
              | d ∷ ds ↦ λ e. cc
            ]
        e
  loop_end (suc fuel) m e =
      elim (m.code)
          as (λ (xs : Bytes).
            xs ≡ []
            → ◌≡◌ {A = Option Machine}
                (elim xs [ [] ↦ some m | c ∷ code ↦ step ctx m >>= eval_loop ctx fuel ]) (some m)) [
                  | [] ↦ λ e. refl
                  | d ∷ ds ↦ λ e. cc
                ]
        e

  loop_zero :
      (m : Machine) (c : ℕ) (code : Bytes)
      → m.code ≡ c ∷ code
      → length m.code ≤ 0
      → {P : Type 0} → P
  loop_zero m c code full h = absurd (omega (arith, ap length full))

  any_fuel :
      (a b : ℕ) (m : Machine)
      → length m.code ≤ a
      → length m.code ≤ b
      → eval_loop ctx a m ≡ eval_loop ctx b m
  any_fuel zero b m ha hb = elim (list_cases m.code) [
    | inl empty ↦ loop_end 0 m empty ∙ sym (loop_end b m empty)
    | inr (c, code, full) ↦ loop_zero m c code full ha
  ]
  any_fuel (suc a) zero m ha hb = elim (list_cases m.code) [
    | inl empty ↦ loop_end (suc a) m empty ∙ sym (loop_end 0 m empty)
    | inr (c, code, full) ↦ loop_zero m c code full hb
  ]
  any_fuel (suc a) (suc b) m ha hb = elim (list_cases m.code) [
    | inl empty ↦ loop_end (suc a) m empty ∙ sym (loop_end (suc b) m empty)
    | inr (c, code, full) ↦
        loop_next a m c code full
        ∙ (elim (Option-cases (step ctx m)) [
          | inl stop ↦ rw stop refl
          | inr (m', go) ↦
              let (shorter, _, _) = step-bounds m m' go in
              rw go (any_fuel a b m' (omega arith) (omega arith))
        ]
            ∙ sym (loop_next b m c code full))
  ]

  -- With any fuel of a unit for each byte of the code or more, the loop gives the same.
  pub eval_loop-enough :
      (fuel : ℕ) (m : Machine)
      → length m.code ≤ fuel
      → eval_loop ctx fuel m ≡ eval_loop ctx (length m.code) m
  eval_loop-enough fuel m h = any_fuel fuel (length m.code) m h (omega arith)
