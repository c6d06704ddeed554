-- ===== src/Script.antt =====
-- CScript of src/servilo/script.h: the bytes of a script, reading its next instruction, and writing
-- instructions. An iterator into a script is the list of the bytes from it to the end. An opcode
-- is its byte.
pub mod Opcode
pub mod Number
pub mod Canonical
pub mod Machine
pub mod StackOps
pub mod NumberOps
pub mod CryptoOps
pub mod Eval
pub mod Push
pub mod Multisig
pub mod Termination
pub mod Limits
pub mod Standard
pub mod Steps
pub mod PayTo
pub mod ScriptHash
pub mod Assertion
pub mod SigOps
pub mod Solver
pub mod Compressor
mod Runs
use primmonero.Base.{
  ℕ, zero, suc, ◌+◌, ◌-◌, ◌*◌, ◌/◌, ◌%◌, ◌^◌, Bool, true, false, not, ◌&&◌, ◌||◌, Option, none,
  some, List, [], ◌∷◌, ◌++◌, ltb, leb, ◌==◌, if◌then◌else◌, length, get_or, take, drop, ◌>>=◌,
}
use primmonero.Serialize.{write_data}

abbrev pub Bytes : Type 0
Bytes = List ℕ

abbrev pub bytes_eq : Bytes → Bytes → Bool
bytes_eq [] [] = true
bytes_eq [] (b ∷ y) = false
bytes_eq (a ∷ x) [] = false
bytes_eq (a ∷ x) (b ∷ y) = a == b && bytes_eq x y

-- An unsigned integer in memory, the low byte first.
unfoldable pub number_of : Bytes → ℕ
number_of [] = 0
number_of (b ∷ bs) = b + number_of bs * 256

-- The size of the immediate operand and what follows it, from the opcode and the bytes behind it.
unfoldable pub operand_size : ℕ → Bytes → Option (ℕ × Bytes)
operand_size opcode code =
    if ltb opcode 0x4c
    then some (opcode, code)
    else if opcode == 0x4c
    then (if ltb (length code) 1 then none else some (number_of (take 1 code), drop 1 code))
    else if opcode == 0x4d
    then (if ltb (length code) 2 then none else some (number_of (take 2 code), drop 2 code))
    else (if ltb (length code) 4 then none else some (number_of (take 4 code), drop 4 code))

-- GetOp2: the opcode, the operand (empty when there is none) and the code that follows.
unfoldable pub get_op : Bytes → Option (ℕ × Bytes × Bytes)
get_op [] = none
get_op (opcode ∷ code) =
    if leb opcode 0x4e
    then (do
      (size, code') ← operand_size opcode code
      if ltb (length code' % 2 ^ 32) size
          then none
          else some (opcode, take size code', drop size code'))
    else some (opcode, [], code)

-- operator<< of a vector of bytes: the instruction that pushes them.
pub push_data : Bytes → Bytes
push_data b =
    if ltb (length b) 0x4c
    then length b ∷ b
    else if leb (length b) 0xff
    then 0x4c ∷ length b ∷ b
    else if leb (length b) 0xffff
    then 0x4d ∷ write_data 2 (length b) ++ b
    else 0x4e ∷ write_data 4 (length b) ++ b

-- Small integers. A failed assertion is `none`.
pub decode_op_n : ℕ → Option ℕ
decode_op_n opcode =
    if opcode == 0
    then some 0
    else if leb 0x51 opcode && leb opcode 0x60
    then some (opcode - 0x50)
    else none

pub encode_op_n : ℕ → Option ℕ
encode_op_n n = if not (leb n 16) then none else if n == 0 then some 0 else some (0x51 + n - 1)

-- `memcmp` at the front of the code.
pub starts_with : Bytes → Bytes → Bool
starts_with [] code = true
starts_with (b ∷ bs) [] = false
starts_with (b ∷ bs) (c ∷ cs) = b == c && starts_with bs cs

-- The inner loop of FindAndDelete: what was found, and the code that is left. On fuel: each round
-- removes a byte at least.
pub erase_front : ℕ → Bytes → Bytes → ℕ × Bytes
erase_front zero b code = (0, code)
erase_front (suc fuel) b code =
    let (n, rest) = erase_front fuel b (drop (length b) code) in
    if starts_with b code then (n + 1, rest) else (0, code)

-- The outer loop, on fuel: the code that was passed over stays before what is left of the rest.
pub find_and_delete_loop : ℕ → Bytes → Bytes → ℕ × Bytes
find_and_delete_loop zero b code = (0, code)
find_and_delete_loop (suc fuel) b code =
    let (n, left) = erase_front (length code) b code in
    elim (get_op left) [
      | none ↦ (n, left)
      | some (opcode, value, rest) ↦
          (let (m, after) = find_and_delete_loop fuel b rest in
            (n + m, take (length left - length rest) left ++ after))
    ]

pub find_and_delete : Bytes → Bytes → ℕ × Bytes
find_and_delete b code =
    if length b == 0 then (0, code) else find_and_delete_loop (length code + 1) b code

-- IsPushOnly, on fuel: each instruction takes a byte at least.
pub is_push_only_loop : ℕ → Bytes → Bool
is_push_only_loop fuel [] = true
is_push_only_loop zero (c ∷ code) = false
is_push_only_loop (suc fuel) (c ∷ code) = elim (get_op (c ∷ code)) [
  | none ↦ false
  | some (opcode, value, rest) ↦ elim (ltb 0x60 opcode) [
    | true ↦ false
    | false ↦ is_push_only_loop fuel rest
  ]
]

pub is_push_only : Bytes → Bool
is_push_only code = is_push_only_loop (length code) code

pub is_pay_to_script_hash : Bytes → Bool
is_pay_to_script_hash code =
    length code == 23
    && get_or code 0 0 == 0xa9
    && get_or code 1 0 == 0x14
    && get_or code 22 0 == 0x87
