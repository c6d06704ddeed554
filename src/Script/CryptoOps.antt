-- ===== src/Script/CryptoOps.antt =====
-- The opcodes of hashes and signatures in EvalScript (src/servilo/script.cpp).
use primmonero.Base.{
  ℕ, ◌+◌, Bool, true, false, not, ◌&&◌, ◌||◌, Option, none, some, List, [], ◌∷◌, ltb, leb,
  if◌then◌else◌, length, take, drop, ◌>>=◌,
}
use primmonero.Base.Int.{ℤ, pos, negsuc}
use primmonero.Script.{Bytes, push_data, find_and_delete}
use primmonero.Script.Opcode.{HashOp, op_ripemd160, op_sha1, op_sha256, op_hash160, op_hash256}
use primmonero.Script.Number.{BigNums, get_int, cast_to_big_num, vch_of_bool}
use primmonero.Script.Canonical.{is_canonical_pub_key, is_canonical_signature}
use primmonero.Script.Machine.{Stack, Machine}

-- What an evaluation is given: OpenSSL's numbers and hashes, CheckSig for the transaction, input and
-- hash type of the call (a signature, a key and the code that is signed), and whether the flags
-- have SCRIPT_VERIFY_STRICTENC.
pub record Context : Type 0 where
  pub big : BigNums
  pub ripemd160 : Bytes → Bytes
  pub sha1 : Bytes → Bytes
  pub sha256 : Bytes → Bytes
  pub hash160 : Bytes → Bytes
  pub hash256 : Bytes → Bytes
  pub check_sig : Bytes → Bytes → Bytes → Bool
  pub strict : Bool

-- The matching of signatures with keys: each key is tried on the first signature that is left, and
-- the loop fails when more signatures are left than keys.
unfoldable pub match_sigs : (Bytes → Bytes → Bool) → List Bytes → List Bytes → Bool
match_sigs check [] keys = true
match_sigs check (sig ∷ sigs) [] = false
match_sigs check (sig ∷ sigs) (key ∷ keys) =
    let left = if check sig key then sigs else sig ∷ sigs in
    let rest = match_sigs check left keys in if ltb (length keys) (length left) then false else rest

-- The script without the signatures, each deleted in turn.
unfoldable pub delete_all : List Bytes → Bytes → Bytes
delete_all [] code = code
delete_all (sig ∷ sigs) code = delete_all sigs (find_and_delete (push_data sig) code).1

-- The form with VERIFY takes its result away again, and fails on a false one.
unfoldable pub after_check : Bool → Bool → Stack → Option Stack
after_check verify success s =
    if verify then (if success then some s else none) else some (vch_of_bool success ∷ s)

-- A number that is at least zero and at most `limit`.
unfoldable pub count_up_to : ℕ → ℤ → Option ℕ
count_up_to limit (negsuc n) = none
count_up_to limit (pos n) = if ltb limit n then none else some n

module _ (ctx : Context) where
  unfoldable pub apply_hash : HashOp → Bytes → Bytes
  apply_hash op_ripemd160 vch = ctx.ripemd160 vch
  apply_hash op_sha1 vch = ctx.sha1 vch
  apply_hash op_sha256 vch = ctx.sha256 vch
  apply_hash op_hash160 vch = ctx.hash160 vch
  apply_hash op_hash256 vch = ctx.hash256 vch

  unfoldable pub do_hash : HashOp → Stack → Option Stack
  do_hash op [] = none
  do_hash op (x ∷ s) = some (apply_hash op x ∷ s)

  -- The encodings are checked first when they are strict.
  unfoldable pub check_one : Bytes → Bytes → Bytes → Bool
  check_one code sig key =
      (not ctx.strict || (is_canonical_signature sig && is_canonical_pub_key key))
      && ctx.check_sig sig key code

  unfoldable pub do_checksig : Bool → Bytes → Stack → Option Stack
  do_checksig verify begin (key ∷ sig ∷ s) =
      after_check verify (check_one (find_and_delete (push_data sig) begin).1 sig key) s
  do_checksig verify begin _ = none

  -- The signatures, when the keys are known: `s` is the stack below the keys. One element more than
  -- the signatures is taken.
  unfoldable pub check_keys : Bool → Bytes → List Bytes → Stack → Option Stack
  check_keys verify begin keys [] = none
  check_keys verify begin keys (number ∷ s) = do
    n ← cast_to_big_num ctx.big number
    sigs_count ← count_up_to (length keys) (get_int n)
    let sigs = take sigs_count s
    let code = delete_all sigs begin
    if leb (length s) sigs_count
        then none
        else after_check verify (match_sigs (check_one code) sigs keys) (drop (sigs_count + 1) s)

  -- The keys, when their number is known: `s` is the stack below it.
  unfoldable pub check_multisig : Bool → Machine → ℕ → Stack → Option Stack
  check_multisig verify m keys_count s =
      if ltb 201 (m.op_count + keys_count)
      then none
      else if leb (length s) keys_count
      then none
      else check_keys verify m.begin_code_hash (take keys_count s) (drop keys_count s)

  unfoldable pub do_checkmultisig : Bool → Machine → Option Machine
  do_checkmultisig verify m = elim (m.stack) [
    | [] ↦ none
    | number ∷ s ↦ do
      n ← cast_to_big_num ctx.big number
      keys_count ← count_up_to 20 (get_int n)
      s' ← check_multisig verify m keys_count s
      some (record m { stack = s'; op_count = m.op_count + keys_count })
  ]
