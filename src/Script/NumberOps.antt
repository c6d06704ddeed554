-- ===== src/Script/NumberOps.antt =====
-- The numeric opcodes of EvalScript (src/servilo/script.cpp), from OP_1ADD to OP_WITHIN.
use primmonero.Base.{
  Bool, false, not, ◌&&◌, ◌||◌, Option, none, some, [], ◌∷◌, ◌==◌, if◌then◌else◌, ◌>>=◌,
}
use primmonero.Base.Int.{ℤ, pos, negsuc, ◌+ℤ◌, ◌-ℤ◌, ltb_ℤ}
use primmonero.Script.{Bytes}
use primmonero.Script.Opcode.{
  UnaryOp, op_1add, op_1sub, op_negate, op_abs, op_not, op_0notequal, BinaryOp, op_add, op_sub,
  op_booland, op_boolor, op_numequal, op_numequalverify, op_numnotequal, op_lessthan,
  op_greaterthan, op_lessthanorequal, op_greaterthanorequal, op_min, op_max,
}
use primmonero.Script.Number.{
  BigNums, get_vch, cast_to_bool, cast_to_big_num, vch_of_bool, num_of_bool,
}
use primmonero.Script.Machine.{Stack}

abbrev pub eq_ℤ : ℤ → ℤ → Bool
eq_ℤ (pos a) (pos b) = a == b
eq_ℤ (negsuc a) (negsuc b) = a == b
eq_ℤ a b = false

abbrev pub is_zero : ℤ → Bool
is_zero n = eq_ℤ n (pos 0)

unfoldable pub apply_unary : UnaryOp → ℤ → ℤ
apply_unary op_1add n = n +ℤ pos 1
apply_unary op_1sub n = n -ℤ pos 1
apply_unary op_negate n = pos 0 -ℤ n
apply_unary op_abs n = if ltb_ℤ n (pos 0) then pos 0 -ℤ n else n
apply_unary op_not n = num_of_bool (is_zero n)
apply_unary op_0notequal n = num_of_bool (not (is_zero n))

unfoldable pub apply_binary : BinaryOp → ℤ → ℤ → ℤ
apply_binary op_add a b = a +ℤ b
apply_binary op_sub a b = a -ℤ b
apply_binary op_booland a b = num_of_bool (not (is_zero a) && not (is_zero b))
apply_binary op_boolor a b = num_of_bool (not (is_zero a) || not (is_zero b))
apply_binary op_numequal a b = num_of_bool (eq_ℤ a b)
apply_binary op_numequalverify a b = num_of_bool (eq_ℤ a b)
apply_binary op_numnotequal a b = num_of_bool (not (eq_ℤ a b))
apply_binary op_lessthan a b = num_of_bool (ltb_ℤ a b)
apply_binary op_greaterthan a b = num_of_bool (ltb_ℤ b a)
apply_binary op_lessthanorequal a b = num_of_bool (not (ltb_ℤ b a))
apply_binary op_greaterthanorequal a b = num_of_bool (not (ltb_ℤ a b))
apply_binary op_min a b = if ltb_ℤ a b then a else b
apply_binary op_max a b = if ltb_ℤ b a then a else b

-- OP_NUMEQUALVERIFY takes its result away again, and fails on a false one.
unfoldable pub after_binary : BinaryOp → Bytes → Stack → Option Stack
after_binary op_numequalverify result s = if cast_to_bool result then some s else none
after_binary op result s = some (result ∷ s)

module _ (big : BigNums) where
  unfoldable pub do_unary : UnaryOp → Stack → Option Stack
  do_unary op [] = none
  do_unary op (x ∷ s) = do n ← cast_to_big_num big x; some (get_vch big (apply_unary op n) ∷ s)

  unfoldable pub do_binary : BinaryOp → Stack → Option Stack
  do_binary op (x2 ∷ x1 ∷ s) = do
    n1 ← cast_to_big_num big x1
    n2 ← cast_to_big_num big x2
    after_binary op (get_vch big (apply_binary op n1 n2)) s
  do_binary op _ = none

  unfoldable pub do_within : Stack → Option Stack
  do_within (x3 ∷ x2 ∷ x1 ∷ s) = do
    n1 ← cast_to_big_num big x1
    n2 ← cast_to_big_num big x2
    n3 ← cast_to_big_num big x3
    some (vch_of_bool (not (ltb_ℤ n1 n2) && ltb_ℤ n1 n3) ∷ s)
  do_within _ = none
