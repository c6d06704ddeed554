-- ===== src/Script/StackOps.antt =====
-- The stack opcodes of EvalScript (src/servilo/script.cpp), from OP_2DROP to OP_EQUALVERIFY. The
-- comments of the source write a stack with its top last; here it is first.
use primmonero.Base.{
  ℕ, zero, suc, Bool, true, false, Option, none, some, [], ◌∷◌, leb, if◌then◌else◌, length, get_or,
}
use primmonero.Base.Int.{ℤ, pos, negsuc}
use primmonero.Script.{bytes_eq}
use primmonero.Script.Opcode.{
  StackOp, op_2drop, op_2dup, op_3dup, op_2over, op_2rot, op_2swap, op_ifdup, op_depth, op_drop,
  op_dup, op_nip, op_over, op_pick, op_roll, op_rot, op_swap, op_tuck, op_size, op_equal,
  op_equalverify,
}
use primmonero.Script.Number.{BigNums, get_int, get_vch, cast_to_bool, cast_to_big_num, vch_of_bool}
use primmonero.Script.Machine.{Stack}

unfoldable pub do_2drop : Stack → Option Stack
do_2drop (x2 ∷ x1 ∷ s) = some s
do_2drop _ = none

unfoldable pub do_2dup : Stack → Option Stack
do_2dup (x2 ∷ x1 ∷ s) = some (x2 ∷ x1 ∷ x2 ∷ x1 ∷ s)
do_2dup _ = none

unfoldable pub do_3dup : Stack → Option Stack
do_3dup (x3 ∷ x2 ∷ x1 ∷ s) = some (x3 ∷ x2 ∷ x1 ∷ x3 ∷ x2 ∷ x1 ∷ s)
do_3dup _ = none

unfoldable pub do_2over : Stack → Option Stack
do_2over (x4 ∷ x3 ∷ x2 ∷ x1 ∷ s) = some (x2 ∷ x1 ∷ x4 ∷ x3 ∷ x2 ∷ x1 ∷ s)
do_2over _ = none

unfoldable pub do_2rot : Stack → Option Stack
do_2rot (x6 ∷ x5 ∷ x4 ∷ x3 ∷ x2 ∷ x1 ∷ s) = some (x2 ∷ x1 ∷ x6 ∷ x5 ∷ x4 ∷ x3 ∷ s)
do_2rot _ = none

unfoldable pub do_2swap : Stack → Option Stack
do_2swap (x4 ∷ x3 ∷ x2 ∷ x1 ∷ s) = some (x2 ∷ x1 ∷ x4 ∷ x3 ∷ s)
do_2swap _ = none

unfoldable pub do_ifdup : Stack → Option Stack
do_ifdup (x ∷ s) = some (if cast_to_bool x then x ∷ x ∷ s else x ∷ s)
do_ifdup [] = none

unfoldable pub do_drop : Stack → Option Stack
do_drop (x ∷ s) = some s
do_drop [] = none

unfoldable pub do_dup : Stack → Option Stack
do_dup (x ∷ s) = some (x ∷ x ∷ s)
do_dup [] = none

unfoldable pub do_nip : Stack → Option Stack
do_nip (x2 ∷ x1 ∷ s) = some (x2 ∷ s)
do_nip _ = none

unfoldable pub do_over : Stack → Option Stack
do_over (x2 ∷ x1 ∷ s) = some (x1 ∷ x2 ∷ x1 ∷ s)
do_over _ = none

unfoldable pub do_rot : Stack → Option Stack
do_rot (x3 ∷ x2 ∷ x1 ∷ s) = some (x1 ∷ x3 ∷ x2 ∷ s)
do_rot _ = none

unfoldable pub do_swap : Stack → Option Stack
do_swap (x2 ∷ x1 ∷ s) = some (x1 ∷ x2 ∷ s)
do_swap _ = none

unfoldable pub do_tuck : Stack → Option Stack
do_tuck (x2 ∷ x1 ∷ s) = some (x2 ∷ x1 ∷ x2 ∷ s)
do_tuck _ = none

-- `stack.erase` at a distance from the top.
unfoldable pub erase_at : ℕ → Stack → Stack
erase_at n [] = []
erase_at zero (x ∷ s) = s
erase_at (suc n) (x ∷ s) = x ∷ erase_at n s

-- OP_PICK and OP_ROLL, when the number on top has been taken: a negative one fails.
unfoldable pub pick_at : Bool → ℤ → Stack → Option Stack
pick_at roll (negsuc n) s = none
pick_at roll (pos n) s =
    if leb (length s) n then none else some (get_or s n [] ∷ (if roll then erase_at n s else s))

-- OP_EQUAL, and OP_EQUALVERIFY with `verify`.
unfoldable pub do_equal : Bool → Stack → Option Stack
do_equal verify (x2 ∷ x1 ∷ s) =
    let equal = bytes_eq x1 x2 in
    if verify then (if equal then some s else none) else some (vch_of_bool equal ∷ s)
do_equal verify _ = none

module _ (big : BigNums) where
  unfoldable pub do_depth : Stack → Option Stack
  do_depth s = some (get_vch big (pos (length s)) ∷ s)

  unfoldable pub do_size : Stack → Option Stack
  do_size (x ∷ s) = some (get_vch big (pos (length x)) ∷ x ∷ s)
  do_size [] = none

  unfoldable pub do_pick : Bool → Stack → Option Stack
  do_pick roll (x ∷ y ∷ s) = elim (cast_to_big_num big x) [
    | none ↦ none
    | some n ↦ pick_at roll (get_int n) (y ∷ s)
  ]
  do_pick roll _ = none

  unfoldable pub stack_step : StackOp → Stack → Option Stack
  stack_step op_2drop s = do_2drop s
  stack_step op_2dup s = do_2dup s
  stack_step op_3dup s = do_3dup s
  stack_step op_2over s = do_2over s
  stack_step op_2rot s = do_2rot s
  stack_step op_2swap s = do_2swap s
  stack_step op_ifdup s = do_ifdup s
  stack_step op_depth s = do_depth s
  stack_step op_drop s = do_drop s
  stack_step op_dup s = do_dup s
  stack_step op_nip s = do_nip s
  stack_step op_over s = do_over s
  stack_step op_pick s = do_pick false s
  stack_step op_roll s = do_pick true s
  stack_step op_rot s = do_rot s
  stack_step op_swap s = do_swap s
  stack_step op_tuck s = do_tuck s
  stack_step op_size s = do_size s
  stack_step op_equal s = do_equal false s
  stack_step op_equalverify s = do_equal true s
