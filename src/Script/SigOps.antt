-- ===== src/Script/SigOps.antt =====
-- The count of signature operations (src/servilo/script.cpp).
use primmonero.Base.{
  ℕ, zero, suc, ◌+◌, ◌-◌, ◌*◌, ◌^◌, ◌≤◌, ◌<◌, length-append, ◌≡◌, refl, ◌∙◌, Bool, true, false, not,
  ◌&&◌, ◌||◌, Option, none, some, List, [], ◌∷◌, ◌++◌, ltb, leb, ◌==◌, if◌then◌else◌, length,
  Option-cases, inl, inr, arith,
}
use primmonero.Script.{Bytes, get_op, push_data, is_pay_to_script_hash}
use primmonero.Script.Push.{push_opcode, get_op-push_data, fits_word}
use primmonero.Script.Termination.{get_op-shorter}
use primmonero.Script.Standard.{pay_to_script_hash, push_all}
use primmonero.Script.Steps.{AreSmall}
use primmonero.Script.ScriptHash.{is_pay_to_script_hash-pay}

-- What one opcode counts, and whether the number of keys before a CHECKMULTISIG is taken.
unfoldable pub sig_ops_of : Bool → ℕ → ℕ → ℕ
sig_ops_of accurate last opcode =
    if opcode == 0xac || opcode == 0xad
    then 1
    else if opcode == 0xae || opcode == 0xaf
    then (if accurate && leb 0x51 last && leb last 0x60 then last - 0x50 else 20)
    else 0

-- GetSigOpCount(bool), on fuel: each instruction takes a byte at least.
unfoldable pub sig_op_loop : ℕ → Bool → ℕ → Bytes → ℕ
sig_op_loop zero accurate last code = 0
sig_op_loop (suc fuel) accurate last code = elim (get_op code) [
  | none ↦ 0
  | some (opcode, value, rest) ↦
      sig_ops_of accurate last opcode + sig_op_loop fuel accurate opcode rest
]

unfoldable pub get_sig_op_count : Bool → Bytes → ℕ
get_sig_op_count accurate code = sig_op_loop (length code) accurate 0xff code

-- The last value that is pushed; none when the script has more than pushes.
pub last_push : ℕ → Bytes → Bytes → Option Bytes
last_push fuel [] pushed = some pushed
last_push zero (c ∷ code) pushed = none
last_push (suc fuel) (c ∷ code) pushed = elim (get_op (c ∷ code)) [
  | none ↦ none
  | some (opcode, value, rest) ↦ elim (ltb 0x60 opcode) [
    | true ↦ none
    | false ↦ last_push fuel rest value
  ]
]

-- GetSigOpCount(const CScript&): `script` is that of the output, `sig` that of the input.
pub get_sig_op_count_of : Bytes → Bytes → ℕ
get_sig_op_count_of script sig =
    if not (is_pay_to_script_hash script)
    then get_sig_op_count true script
    else elim (last_push (length sig) sig []) [
      | none ↦ 0
      | some subscript ↦ get_sig_op_count true subscript
    ]

sig_ops_of-bound :
    (last opcode : ℕ)
    → (sig_ops_of true last opcode ≤ sig_ops_of false last opcode)
      × (sig_ops_of false last opcode ≤ 20)
unfolding sig_ops_of
sig_ops_of-bound last opcode = ground arith

sig_ops_of-last : (a b opcode : ℕ) → sig_ops_of false a opcode ≡ sig_ops_of false b opcode
unfolding sig_ops_of
sig_ops_of-last a b opcode = ground arith

sig_op_loop-bounds :
    (fuel last : ℕ) (code : Bytes)
    → (sig_op_loop fuel true last code ≤ sig_op_loop fuel false last code)
      × (sig_op_loop fuel false last code ≤ 20 * length code)
unfolding sig_op_loop
sig_op_loop-bounds zero last code = (omega arith, omega arith)
sig_op_loop-bounds (suc fuel) last code = elim (Option-cases (get_op code)) [
  | inl ends ↦ rw (sig_op_loop, ends) (omega arith, omega arith)
  | inr ((opcode, value, rest), more) ↦
      let (one, twenty) = sig_ops_of-bound last opcode in
      let (less, size) = sig_op_loop-bounds fuel opcode rest in
      let shorter = get_op-shorter code value rest opcode more in
      rw (sig_op_loop, more) (omega (arith, one, less), omega (arith, twenty, size, shorter))
]

-- Counting with the numbers of keys never gives more than counting 20 for each CHECKMULTISIG, and
-- that gives at most 20 for each byte of the script.
pub get_sig_op_count-bounds :
    (code : Bytes)
    → (get_sig_op_count true code ≤ get_sig_op_count false code)
      × (get_sig_op_count false code ≤ 20 * length code)
unfolding get_sig_op_count
get_sig_op_count-bounds code = sig_op_loop-bounds (length code) 0xff code

last_push-next :
    (fuel opcode : ℕ) (code value rest pushed : Bytes)
    → get_op code ≡ some (opcode, value, rest)
    → opcode ≤ 0x4e
    → last_push (suc fuel) code pushed ≡ last_push fuel rest value
unfolding last_push get_op
last_push-next fuel opcode [] value rest pushed e h = cc
last_push-next fuel opcode (c ∷ code) value rest pushed e h =
    let low : ltb 0x60 opcode ≡ false = ground (arith, h) in rw (last_push, e, low) refl

last_push-push_data :
    (v rest pushed : Bytes) (fuel : ℕ)
    → length v ≤ 520
    → length (push_data v ++ rest) < 2 ^ 32
    → length (push_data v ++ rest) ≤ fuel
    → (fuel' : ℕ) × (length rest ≤ fuel')
      × (last_push fuel (push_data v ++ rest) pushed ≡ last_push fuel' rest v)
last_push-push_data v rest pushed zero small few h =
    let (read, low) = get_op-push_data v rest (fits_word v rest few) in
    absurd (omega (arith, get_op-shorter (push_data v ++ rest) v rest (push_opcode v) read, h))
last_push-push_data v rest pushed (suc fuel) small few h =
    let (read, low) = get_op-push_data v rest (fits_word v rest few) in
    (
      fuel,
      omega (arith, get_op-shorter (push_data v ++ rest) v rest (push_opcode v) read, h),
      last_push-next fuel (push_opcode v) (push_data v ++ rest) v rest pushed read low,
    )

last_push-push_all :
    (values : List Bytes) (redeem : Bytes) (fuel : ℕ) (pushed : Bytes)
    → AreSmall (values ++ redeem ∷ [])
    → length (push_all (values ++ redeem ∷ [])) < 2 ^ 32
    → length (push_all (values ++ redeem ∷ [])) ≤ fuel
    → last_push fuel (push_all (values ++ redeem ∷ [])) pushed ≡ some redeem
unfolding push_all last_push
last_push-push_all [] redeem fuel pushed small few h =
    let (fuel', enough, e) = last_push-push_data redeem [] pushed fuel small.0 few h in e
last_push-push_all (v ∷ values) redeem fuel pushed small few h =
    let (fuel', enough, e) =
      last_push-push_data v (push_all (values ++ redeem ∷ [])) pushed fuel small.0 few h in
    let fewer : length (push_all (values ++ redeem ∷ [])) < 2 ^ 32 =
      omega (arith, length-append (push_data v) (push_all (values ++ redeem ∷ [])), few) in
    e ∙ last_push-push_all values redeem fuel' v small.1 fewer enough

-- The operations of an input that spends an output which pays to the hash of a script are those of
-- the script that it pushes last. Every value has at most 520 bytes, and the pushes have fewer than
-- 2 ^ 32 bytes together.
pub get_sig_op_count-pay_to_script_hash :
    (hash redeem : Bytes) (values : List Bytes)
    → length hash ≡ 20
    → AreSmall (values ++ redeem ∷ [])
    → length (push_all (values ++ redeem ∷ [])) < 2 ^ 32
    → get_sig_op_count_of (pay_to_script_hash hash) (push_all (values ++ redeem ∷ []))
      ≡ get_sig_op_count true redeem
unfolding get_sig_op_count_of
get_sig_op_count-pay_to_script_hash hash redeem values size small few =
    let sig = push_all (values ++ redeem ∷ []) in
    rw
      (
        get_sig_op_count_of,
        is_pay_to_script_hash-pay hash size,
        last_push-push_all values redeem (length sig) [] small few (omega arith),
      )
      refl
