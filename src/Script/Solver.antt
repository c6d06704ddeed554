-- ===== src/Script/Solver.antt =====
-- Solver on a script, ScriptSigArgsExpected, IsStandard and SetMultisig (src/servilo/script.cpp).
pub mod Solved
use primmonero.Base.{
  ℕ, zero, suc, ◌+◌, ◌-◌, Bool, true, false, not, ◌&&◌, ◌||◌, Option, none, some, List, [], ◌∷◌,
  ◌++◌, ltb, leb, ◌==◌, if◌then◌else◌, length, get_or, take, drop, ◌>>=◌,
}
use primmonero.Base.Int.{ℤ, pos, negsuc}
use primmonero.Script.{
  Bytes, bytes_eq, get_op, push_data, decode_op_n, encode_op_n, is_pay_to_script_hash,
}
use primmonero.Script.Standard.{push_all}

-- txnouttype.
pub data OutType : Type 0 where
  tx_nonstandard tx_pubkey tx_pubkeyhash tx_scripthash tx_multisig : OutType

-- The result of Solver, and what it leaves in its two reference parameters.
pub record Solution : Type 0 where
  pub found : Bool
  pub type : OutType
  pub solutions : List Bytes

-- The templates, in the order of the map. 0xfa is OP_SMALLINTEGER, 0xfb OP_PUBKEYS, 0xfd
-- OP_PUBKEYHASH and 0xfe OP_PUBKEY.
abbrev pub pubkey_template : Bytes
pubkey_template = 0xfe ∷ 0xac ∷ []

abbrev pub pubkeyhash_template : Bytes
pubkeyhash_template = 0x76 ∷ 0xa9 ∷ 0xfd ∷ 0x88 ∷ 0xac ∷ []

abbrev pub multisig_template : Bytes
multisig_template = 0xfa ∷ 0xfb ∷ 0xfa ∷ 0xae ∷ []

abbrev pub is_key_size : Bytes → Bool
is_key_size v = leb 33 (length v) && leb (length v) 120

-- The loop at OP_PUBKEYS, on fuel: the instruction that has been read, the code behind it and the
-- solutions. Where GetOp fails, it leaves OP_INVALIDOPCODE and no value; what the code is then does
-- not matter, as the next element of the template does not match.
pub take_keys : ℕ → ℕ → Bytes → Bytes → List Bytes → ℕ × Bytes × Bytes × List Bytes
take_keys zero opcode value code sols = (opcode, value, code, sols)
take_keys (suc fuel) opcode value code sols = elim (is_key_size value) [
  | false ↦ (opcode, value, code, sols)
  | true ↦ elim (get_op code) [
    | none ↦ (0xff, [], [], sols ++ value ∷ [])
    | some (opcode', value', code') ↦ take_keys fuel opcode' value' code' (sols ++ value ∷ [])
  ]
]

-- An instruction of the script against one of the template.
pub match_op : ℕ → Bytes → ℕ → Bytes → List Bytes → Option (List Bytes)
match_op opcode2 value2 opcode value sols =
    if opcode2 == 0xfe
    then (if is_key_size value then some (sols ++ value ∷ []) else none)
    else if opcode2 == 0xfd
    then (if length value == 20 then some (sols ++ value ∷ []) else none)
    else if opcode2 == 0xfa
    then elim (decode_op_n opcode) [ none ↦ none | some n ↦ some (sols ++ (n ∷ []) ∷ []) ]
    else if opcode == opcode2 && bytes_eq value value2
    then some sols
    else none

-- An instruction that has been read against an element of the template: the rest of both, and the
-- solutions. `fuel` bounds the keys; `none` is a break out of the loop.
pub match_element :
    ℕ → ℕ × Bytes × Bytes → ℕ × Bytes × Bytes → List Bytes → Option (Bytes × Bytes × List Bytes)
match_element fuel (opcode, value, rest) (opcode2, value2, rest2) sols = elim (opcode2 == 0xfb) [
  | true ↦
      (let (opcode', value', rest', sols') = take_keys fuel opcode value rest sols in
        elim (get_op rest2) [
          | none ↦ none
          | some (opcode3, value3, rest3) ↦ elim (match_op opcode3 value3 opcode' value' sols') [
            | none ↦ none
            | some found ↦ some (rest', rest3, found)
          ]
        ])
  | false ↦ elim (match_op opcode2 value2 opcode value sols) [
    | none ↦ none
    | some found ↦ some (rest, rest2, found)
  ]
]

-- The comparison with a template, on fuel: each round takes a byte of the template at least.
pub scan : ℕ → Bytes → Bytes → List Bytes → Option (List Bytes)
scan fuel [] [] sols = some sols
scan fuel (c ∷ code) [] sols = none
scan fuel [] (t ∷ template) sols = none
scan zero (c ∷ code) (t ∷ template) sols = none
scan (suc fuel) (c ∷ code) (t ∷ template) sols = elim (get_op (c ∷ code)) [
  | none ↦ none
  | some first ↦ elim (get_op (t ∷ template)) [
    | none ↦ none
    | some second ↦ elim (match_element (length (c ∷ code)) first second sols) [
      | none ↦ none
      | some (rest, rest2, found) ↦ scan fuel rest rest2 found
    ]
  ]
]

abbrev pub scan_template : Bytes → Bytes → Option (List Bytes)
scan_template code template = scan (length template) code template []

-- The first byte of a solution.
abbrev pub first_byte : Bytes → ℕ
first_byte v = get_or v 0 0

abbrev pub last_solution : List Bytes → Bytes
last_solution sols = get_or sols (length sols - 1) []

-- The additional checks of TX_MULTISIG.
pub is_multisig : List Bytes → Bool
is_multisig sols =
    let m = first_byte (get_or sols 0 []) in
    let n = first_byte (last_solution sols) in
    not (ltb m 1 || ltb n 1 || ltb n m || not (length sols - 2 == n))

pub solver : Bytes → Solution
solver script =
    if is_pay_to_script_hash script
    then record { found = true; type = tx_scripthash; solutions = take 20 (drop 2 script) ∷ [] }
    else elim (scan_template script pubkey_template) [
      | some sols ↦ record { found = true; type = tx_pubkey; solutions = sols }
      | none ↦ elim (scan_template script pubkeyhash_template) [
        | some sols ↦ record { found = true; type = tx_pubkeyhash; solutions = sols }
        | none ↦ elim (scan_template script multisig_template) [
          | some sols ↦ record { found = is_multisig sols; type = tx_multisig; solutions = sols }
          | none ↦ record { found = false; type = tx_nonstandard; solutions = [] }
        ]
      ]
    ]

pub script_sig_args_expected : OutType → List Bytes → ℤ
script_sig_args_expected tx_nonstandard sols = negsuc 0
script_sig_args_expected tx_pubkey sols = pos 1
script_sig_args_expected tx_pubkeyhash sols = pos 2
script_sig_args_expected tx_multisig sols =
    if ltb (length sols) 1 || ltb (length (get_or sols 0 [])) 1
    then negsuc 0
    else pos (first_byte (get_or sols 0 []) + 1)
script_sig_args_expected tx_scripthash sols = pos 1

pub is_standard : Bytes → Bool
is_standard script =
    let s = solver script in
    if not s.found then false else elim (s.type) [
      | tx_multisig ↦
          (let m = first_byte (get_or s.solutions 0 []) in
            let n = first_byte (last_solution s.solutions) in
            not (ltb n 1 || ltb 3 n) && not (ltb m 1 || ltb n m))
      | tx_nonstandard ↦ false
      | tx_pubkey ↦ true
      | tx_pubkeyhash ↦ true
      | tx_scripthash ↦ true
    ]

-- CScript::SetMultisig, with the keys as their bytes; none is the failed assertion of EncodeOP_N.
pub set_multisig : ℕ → List Bytes → Option Bytes
set_multisig required keys = do
  m ← encode_op_n required
  n ← encode_op_n (length keys)
  some (m ∷ push_all keys ++ (n ∷ 0xae ∷ []))
