-- ===== src/Script/Push.antt =====
-- Reading an instruction back that pushes bytes.
use primmonero.Base.{
  ℕ, zero, suc, ◌+◌, ◌/◌, ◌%◌, ◌^◌, ◌≤◌, ◌<◌, ◌≡◌, refl, true, false, some, ◌∷◌, ◌++◌, append_assoc,
  ltb, leb, if◌then◌else◌, length, length-append, take-append, drop-append, Bool-cases, inl, inr,
  arith,
}
use native.Mathlib.Nat.{pow-suc}
use primmonero.Serialize.{write_data}
use primmonero.Script.{Bytes, number_of, operand_size, get_op, push_data}

number_of-write_data : (w n : ℕ) → n < 256 ^ w → number_of (write_data w n) ≡ n
unfolding number_of write_data
number_of-write_data zero n h = omega arith
number_of-write_data (suc w) n h =
    omega (arith, pow-suc 256 w, number_of-write_data w (n / 256) (omega (arith, pow-suc 256 w)))

-- The opcode that pushes so many bytes.
pub push_opcode : Bytes → ℕ
push_opcode b =
    if ltb (length b) 0x4c
    then length b
    else if leb (length b) 0xff
    then 0x4c
    else if leb (length b) 0xffff
    then 0x4d
    else 0x4e

get_op-operand :
    (opcode : ℕ) (code b rest : Bytes)
    → opcode ≤ 0x4e
    → length b + length rest < 2 ^ 32
    → operand_size opcode code ≡ some (length b, b ++ rest)
    → get_op (opcode ∷ code) ≡ some (opcode, b, rest)
unfolding get_op
get_op-operand opcode code b rest h few e =
    let low : leb opcode 0x4e ≡ true = ground arith in
    let fits : ltb (length (b ++ rest) % 2 ^ 32) (length b) ≡ false =
      ground (arith, length-append b rest, few) in
    rw (get_op, low, e, fits, take-append b rest, drop-append b rest) refl

operand_size-direct :
    (opcode : ℕ) (code : Bytes) → opcode < 0x4c → operand_size opcode code ≡ some (opcode, code)
unfolding operand_size
operand_size-direct opcode code h = ground arith

operand_size-1 : (n : ℕ) (code : Bytes) → operand_size 0x4c (n ∷ code) ≡ some (n, code)
unfolding operand_size number_of
operand_size-1 n code = ground arith

operand_size-2 :
    (n : ℕ) (code : Bytes)
    → n < 2 ^ 16
    → operand_size 0x4d (write_data 2 n ++ code) ≡ some (n, code)
unfolding operand_size write_data number_of
operand_size-2 n code h = ground arith

operand_size-4 :
    (n : ℕ) (code : Bytes)
    → n < 2 ^ 32
    → operand_size 0x4e (write_data 4 n ++ code) ≡ some (n, code)
unfolding operand_size write_data number_of
operand_size-4 n code h = ground arith

-- What push_data writes is read as one push of the same bytes, with what follows them left, as long
-- as both together are fewer than 2 ^ 32 bytes.
pub get_op-push_data :
    (b rest : Bytes)
    → length b + length rest < 2 ^ 32
    → (get_op (push_data b ++ rest) ≡ some (push_opcode b, b, rest)) × (push_opcode b ≤ 0x4e)
unfolding push_data push_opcode
get_op-push_data b rest h = elim (Bool-cases (ltb (length b) 0x4c)) [
  | inl tiny ↦ rw tiny (
    get_op-operand (length b) (b ++ rest) b rest (ground (arith, tiny)) h
        (operand_size-direct (length b) (b ++ rest) (ground (arith, tiny))),
    ground (arith, tiny),
  )
  | inr f1 ↦ elim (Bool-cases (leb (length b) 0xff)) [
    | inl byte ↦
        rw (f1, byte)
          (
            get_op-operand 0x4c (length b ∷ b ++ rest) b rest (omega arith) h
                (operand_size-1 (length b) (b ++ rest)),
            omega arith,
          )
    | inr f2 ↦ elim (Bool-cases (leb (length b) 0xffff)) [
      | inl two ↦
          rw (f1, f2, two, append_assoc (write_data 2 (length b)) b rest)
            (
              get_op-operand 0x4d (write_data 2 (length b) ++ (b ++ rest)) b rest (omega arith) h
                  (operand_size-2 (length b) (b ++ rest) (ground (arith, two))),
              omega arith,
            )
      | inr f3 ↦
          rw (f1, f2, f3, append_assoc (write_data 4 (length b)) b rest)
            (
              get_op-operand 0x4e (write_data 4 (length b) ++ (b ++ rest)) b rest (omega arith) h
                  (operand_size-4 (length b) (b ++ rest) (omega (arith, h))),
              omega arith,
            )
    ]
  ]
]

pub length-push_data : (b : Bytes) → length (push_data b) ≤ length b + 5
unfolding push_data write_data
length-push_data b =
    ground
      (arith, length-append (write_data 2 (length b)) b, length-append (write_data 4 (length b)) b)

pub length-push_data_least : (b : Bytes) → length b ≤ length (push_data b)
unfolding push_data write_data
length-push_data_least b =
    ground
      (arith, length-append (write_data 2 (length b)) b, length-append (write_data 4 (length b)) b)

-- The bytes and what follows them are not more than what is written.
pub fits_word :
    (b rest : Bytes) → length (push_data b ++ rest) < 2 ^ 32 → length b + length rest < 2 ^ 32
fits_word b rest h = omega (arith, length-append (push_data b) rest, length-push_data_least b, h)
