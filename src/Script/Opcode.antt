-- ===== src/Script/Opcode.antt =====
-- The opcodes (enum opcodetype of src/servilo/script.h) as the switch of EvalScript
-- (src/servilo/script.cpp) tells them apart. Opcodes that one case of the switch shares are one
-- constructor with an argument; those that fall to its default are `other`.
use primmonero.Base.{
  ℕ, ◌-◌, Bool, true, false, ◌&&◌, ◌||◌, List, [], ◌∷◌, ltb, leb, ◌==◌, if◌then◌else◌, get_or,
}

pub data StackOp : Type 0 where
  op_2drop op_2dup op_3dup op_2over op_2rot op_2swap op_ifdup op_depth op_drop op_dup op_nip
        op_over :
      StackOp
  op_pick op_roll op_rot op_swap op_tuck op_size op_equal op_equalverify : StackOp

pub data UnaryOp : Type 0 where
  op_1add op_1sub op_negate op_abs op_not op_0notequal : UnaryOp

pub data BinaryOp : Type 0 where
  op_add op_sub op_booland op_boolor op_numequal op_numequalverify op_numnotequal : BinaryOp
  op_lessthan op_greaterthan op_lessthanorequal op_greaterthanorequal op_min op_max : BinaryOp

pub data HashOp : Type 0 where
  op_ripemd160 op_sha1 op_sha256 op_hash160 op_hash256 : HashOp

-- `small` has the opcode; `checksig` and `checkmultisig` say whether they are the VERIFY form.
pub data Op : Type 0 where
  small : ℕ → Op
  op_nop op_if op_notif op_else op_endif op_verify op_return op_toaltstack op_fromaltstack : Op
  stack_op : StackOp → Op
  unary : UnaryOp → Op
  binary : BinaryOp → Op
  op_within : Op
  hash : HashOp → Op
  op_codeseparator : Op
  checksig checkmultisig : Bool → Op
  other : Op

-- The opcodes from OP_NOP (0x61) to OP_CHECKMULTISIGVERIFY (0xaf) in their order.
unfoldable pub op_table : List Op
op_table =
    op_nop
    ∷ other
    ∷ op_if
    ∷ op_notif
    ∷ other
    ∷ other
    ∷ op_else
    ∷ op_endif
    ∷ op_verify
    ∷ op_return
    ∷ op_toaltstack
    ∷ op_fromaltstack
    ∷ stack_op op_2drop
    ∷ stack_op op_2dup
    ∷ stack_op op_3dup
    ∷ stack_op op_2over
    ∷ stack_op op_2rot
    ∷ stack_op op_2swap
    ∷ stack_op op_ifdup
    ∷ stack_op op_depth
    ∷ stack_op op_drop
    ∷ stack_op op_dup
    ∷ stack_op op_nip
    ∷ stack_op op_over
    ∷ stack_op op_pick
    ∷ stack_op op_roll
    ∷ stack_op op_rot
    ∷ stack_op op_swap
    ∷ stack_op op_tuck
    ∷ other
    ∷ other
    ∷ other
    ∷ other
    ∷ stack_op op_size
    ∷ other
    ∷ other
    ∷ other
    ∷ other
    ∷ stack_op op_equal
    ∷ stack_op op_equalverify
    ∷ other
    ∷ other
    ∷ unary op_1add
    ∷ unary op_1sub
    ∷ other
    ∷ other
    ∷ unary op_negate
    ∷ unary op_abs
    ∷ unary op_not
    ∷ unary op_0notequal
    ∷ binary op_add
    ∷ binary op_sub
    ∷ other
    ∷ other
    ∷ other
    ∷ other
    ∷ other
    ∷ binary op_booland
    ∷ binary op_boolor
    ∷ binary op_numequal
    ∷ binary op_numequalverify
    ∷ binary op_numnotequal
    ∷ binary op_lessthan
    ∷ binary op_greaterthan
    ∷ binary op_lessthanorequal
    ∷ binary op_greaterthanorequal
    ∷ binary op_min
    ∷ binary op_max
    ∷ op_within
    ∷ hash op_ripemd160
    ∷ hash op_sha1
    ∷ hash op_sha256
    ∷ hash op_hash160
    ∷ hash op_hash256
    ∷ op_codeseparator
    ∷ checksig false
    ∷ checksig true
    ∷ checkmultisig false
    ∷ checkmultisig true
    ∷ []

unfoldable pub op_of : ℕ → Op
op_of opcode =
    if opcode == 0x4f
    then small opcode
    else if leb 0x51 opcode && leb opcode 0x60
    then small opcode
    else if leb 0xb0 opcode && leb opcode 0xb9
    then op_nop
    else if ltb opcode 0x61
    then other
    else get_or op_table (opcode - 0x61) other

-- CAT to RIGHT, INVERT to XOR, 2MUL, 2DIV, and MUL to RSHIFT.
unfoldable pub is_disabled : ℕ → Bool
is_disabled opcode =
    opcode == 0x7e
    || opcode == 0x7f
    || opcode == 0x80
    || opcode == 0x81
    || opcode == 0x83
    || opcode == 0x84
    || opcode == 0x85
    || opcode == 0x86
    || opcode == 0x8d
    || opcode == 0x8e
    || opcode == 0x95
    || opcode == 0x96
    || opcode == 0x97
    || opcode == 0x98
    || opcode == 0x99
