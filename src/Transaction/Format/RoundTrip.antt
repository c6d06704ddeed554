-- ===== src/Transaction/Format/RoundTrip.antt =====
-- Transactions are read back as they were written, and take the bytes that GetSerializeSize says.
use primmonero.Base.{
  ℕ, zero, suc, ◌+◌, ◌-◌, ◌%◌, ◌^◌, ◌≤◌, ◌<◌, ◌≡◌, refl, sym, ap, ◌∙◌, List, [], ◌∷◌, ◌++◌,
  append_assoc, ◌==◌, length, length-append, take, drop, All, min, Bool-cases, inl, inr, arith,
  ==_iff,
}
use primmonero.Base.Int.{ℤ, pos, negsuc}
use primmonero.Serialize.{ok, ◌>>=◌, max_size, write_data, write_compact_size}
use primmonero.Serialize.CompactSize.{
  read_data-write_data, length-write_data, length-write_compact_size,
}
use primmonero.Serialize.Stream.{read_bytes, write_string, write_elements, write_vector}
use primmonero.Serialize.Stream.RoundTrip.{
  read_bytes-append, read_compact_size-fits, read_vector-write_checked,
}
use primmonero.Coins.{TxOut}
use primmonero.Coins.Format.{unsigned, signed}
use primmonero.Transaction.{OutPoint, TxIn, Transaction}
use primmonero.Transaction.Format.{
  read_chunks, read_script, write_out_point, read_out_point, write_tx_in, read_tx_in, write_tx_out,
  read_tx_out, write_transaction, read_transaction, script_size, tx_ins_size, tx_outs_size,
  get_serialize_size,
}

length_zero : (xs : List ℕ) → length xs ≡ 0 → xs ≡ []
length_zero [] e = refl
length_zero (x ∷ xs) e = absurd (omega arith)

length-take : (n : ℕ) (xs : List ℕ) → n ≤ length xs → length (take n xs) ≡ n
length-take zero xs h = refl
length-take (suc n) [] h = absurd (omega arith)
length-take (suc n) (x ∷ xs) h = ap suc (length-take n xs (omega arith))

take-drop : (n : ℕ) (xs : List ℕ) → take n xs ++ drop n xs ≡ xs
take-drop zero xs = refl
take-drop (suc n) [] = refl
take-drop (suc n) (x ∷ xs) = ap (◌∷◌ x) (take-drop n xs)

length-drop : (n : ℕ) (xs : List ℕ) → length (drop n xs) ≡ length xs - n
length-drop zero xs = omega arith
length-drop (suc n) [] = omega arith
length-drop (suc n) (x ∷ xs) = omega (arith, length-drop n xs)

read_part :
    (m : ℕ) (script rest : List ℕ)
    → m ≤ length script
    → read_bytes m (script ++ rest) ≡ ok (take m script, drop m script ++ rest)
read_part m script rest h =
    ap (read_bytes m) (
      ap (λ x. x ++ rest) (sym (take-drop m script))
      ∙ append_assoc (take m script) (drop m script) rest)
    ∙ (ap (λ k. read_bytes k (take m script ++ (drop m script ++ rest)))
          (sym (length-take m script h))
        ∙ read_bytes-append (take m script) (drop m script ++ rest))

-- The chunks of a script are together the script.
read_chunks-append :
    (fuel : ℕ) (script rest : List ℕ)
    → length script ≤ fuel
    → read_chunks fuel (length script) (script ++ rest) ≡ ok (script, rest)
unfolding read_chunks
read_chunks-append zero script rest enough = rw (length_zero script (omega arith)) refl
read_chunks-append (suc fuel) script rest enough = elim (Bool-cases (length script == 0)) [
  | inl empty ↦
      rw (read_chunks, empty, length_zero script ((==_iff (length script) 0).0 empty)) refl
  | inr more ↦
      rw (read_chunks, more)
        (chunk (λ part. read_chunks-append fuel part rest) (min (length script) 5_000_000)
          (ground arith) (omega arith))
]
  where
    chunk :
        ((part : List ℕ)
          → length part ≤ fuel
          → read_chunks fuel (length part) (part ++ rest) ≡ ok (part, rest))
        → (m : ℕ) → 1 ≤ m
        → m ≤ length script
        → ◌>>=◌ {B = List ℕ × List ℕ} (read_bytes m (script ++ rest)) (λ x.
          ◌>>=◌ {B = List ℕ × List ℕ}
            (read_chunks fuel (length script - m) x.1)
            (λ y. ok (x.0 ++ y.0, y.1)))
          ≡ ok (script, rest)
    chunk rest_of m some_read inside =
        let size = length-drop m script in
        let enough' : length (drop m script) ≤ fuel = omega arith in
        rw (read_part m script rest inside)
          (rw (sym size, rest_of (drop m script) enough', take-drop m script) refl)

read_script-write :
    (script rest : List ℕ)
    → length script ≤ max_size
    → read_script (write_string script ++ rest) ≡ ok (script, rest)
unfolding read_script write_string
read_script-write script rest h =
    rw
      (
        append_assoc (write_compact_size (length script)),
        read_compact_size-fits (length script) (script ++ rest) h,
      )
      (read_chunks-append (length script) script rest (omega arith))

-- What the format has room for.
abbrev pub IsOutPoint : OutPoint → Type 0
IsOutPoint p = (p.hash < 256 ^ 32) × (p.n < 256 ^ 4)

abbrev pub IsTxIn : TxIn → Type 0
IsTxIn i = IsOutPoint i.prevout × (length i.script_sig ≤ max_size) × (i.sequence < 256 ^ 4)

-- An integer of `width` bits.
abbrev pub IsInt : ℕ → ℤ → Type 0
IsInt width (pos n) = n < 2 ^ (width - 1)
IsInt width (negsuc n) = n < 2 ^ (width - 1)

abbrev pub IsTxOut : TxOut → Type 0
IsTxOut o = IsInt 64 o.value × (length o.script ≤ max_size)

abbrev pub IsTransaction : Transaction → Type 0
IsTransaction tx =
    IsInt 32 tx.version
    × (length tx.vin ≤ max_size)
    × All IsTxIn tx.vin
    × (length tx.vout ≤ max_size)
    × All IsTxOut tx.vout
    × (tx.lock_time < 256 ^ 4)

signed-unsigned_64 :
    (z : ℤ) → IsInt 64 z → (unsigned 64 z < 256 ^ 8) × (signed 64 (unsigned 64 z) ≡ z)
signed-unsigned_64 (pos n) h = ground arith
signed-unsigned_64 (negsuc n) h = ground arith

signed-unsigned_32 :
    (z : ℤ) → IsInt 32 z → (unsigned 32 z < 256 ^ 4) × (signed 32 (unsigned 32 z) ≡ z)
signed-unsigned_32 (pos n) h = ground arith
signed-unsigned_32 (negsuc n) h = ground arith

read_out_point-write :
    (p : OutPoint) (rest : List ℕ)
    → IsOutPoint p
    → read_out_point (write_out_point p ++ rest) ≡ ok (p, rest)
unfolding read_out_point write_out_point
read_out_point-write p rest (hash, n) =
    rw
      (
        append_assoc (write_data 32 p.hash),
        read_data-write_data 32 p.hash (write_data 4 p.n ++ rest) hash,
        read_data-write_data 4 p.n rest n,
      )
      refl

read_tx_in-write :
    (i : TxIn) (rest : List ℕ) → IsTxIn i → read_tx_in (write_tx_in i ++ rest) ≡ ok (i, rest)
unfolding read_tx_in write_tx_in
read_tx_in-write i rest (prevout, script, sequence) =
    rw
      (
        append_assoc (write_out_point i.prevout),
        append_assoc (write_string i.script_sig),
        read_out_point-write i.prevout _ prevout,
        read_script-write i.script_sig _ script,
        read_data-write_data 4 i.sequence rest sequence,
      )
      refl

read_tx_out-write :
    (o : TxOut) (rest : List ℕ) → IsTxOut o → read_tx_out (write_tx_out o ++ rest) ≡ ok (o, rest)
unfolding read_tx_out write_tx_out
read_tx_out-write o rest (value, script) =
    let (fits, back) = signed-unsigned_64 o.value value in
    rw
      (
        append_assoc (write_data 8 (unsigned 64 o.value)),
        read_data-write_data 8 (unsigned 64 o.value) (write_string o.script ++ rest) fits,
        read_script-write o.script rest script,
        back,
      )
      refl

-- A transaction whose fields fit the format, with vectors and scripts of at most MAX_SIZE, is read
-- back, and what follows it is left, wherever the vectors' blocks, which are not empty, end.
pub read_transaction-write_transaction :
    (in_block out_block : ℕ) (tx : Transaction) (rest : List ℕ)
    → 0 < in_block
    → 0 < out_block
    → IsTransaction tx
    → read_transaction in_block out_block (write_transaction tx ++ rest) ≡ ok (tx, rest)
unfolding read_transaction write_transaction
read_transaction-write_transaction in_block out_block tx rest some_in some_out fits =
    let (version, ins, each_in, outs, each_out, lock) = fits in
    let (fits_version, back) = signed-unsigned_32 tx.version version in
    rw
      (
        append_assoc (write_data 4 (unsigned 32 tx.version)),
        append_assoc (write_vector write_tx_in tx.vin),
        append_assoc (write_vector write_tx_out tx.vout),
        read_data-write_data 4 (unsigned 32 tx.version) _ fits_version,
        read_vector-write_checked IsTxIn write_tx_in read_tx_in read_tx_in-write in_block tx.vin _
            some_in ins each_in,
        read_vector-write_checked IsTxOut write_tx_out read_tx_out read_tx_out-write out_block
            tx.vout _ some_out outs each_out,
        read_data-write_data 4 tx.lock_time rest lock,
        back,
      )
      refl

length-write_string : (script : List ℕ) → length (write_string script) % 2 ^ 32 ≡ script_size script
unfolding write_string script_size
length-write_string script = omega (
  arith,
  length-append (write_compact_size (length script)) script,
  length-write_compact_size (length script),
)

length-write_tx_in :
    (i : TxIn) → length (write_tx_in i) % 2 ^ 32 ≡ (36 + script_size i.script_sig + 4) % 2 ^ 32
unfolding write_tx_in write_out_point
length-write_tx_in i = omega (
  arith,
  length-append (write_data 32 i.prevout.hash ++ write_data 4 i.prevout.n)
      (write_string i.script_sig ++ write_data 4 i.sequence),
  length-append (write_data 32 i.prevout.hash) (write_data 4 i.prevout.n),
  length-append (write_string i.script_sig) (write_data 4 i.sequence),
  length-write_data 32 i.prevout.hash,
  length-write_data 4 i.prevout.n,
  length-write_string i.script_sig,
  length-write_data 4 i.sequence,
)

length-tx_ins : (is : List TxIn) → length (write_elements write_tx_in is) % 2 ^ 32 ≡ tx_ins_size is
unfolding write_elements tx_ins_size
length-tx_ins [] = refl
length-tx_ins (i ∷ is) = omega (
  arith,
  length-append (write_tx_in i) (write_elements write_tx_in is),
  length-write_tx_in i,
  length-tx_ins is,
)

length-tx_outs :
    (os : List TxOut) → length (write_elements write_tx_out os) % 2 ^ 32 ≡ tx_outs_size os
unfolding write_elements tx_outs_size write_tx_out
length-tx_outs [] = refl
length-tx_outs (o ∷ os) = omega (
  arith,
  length-append (write_data 8 (unsigned 64 o.value) ++ write_string o.script)
      (write_elements write_tx_out os),
  length-append (write_data 8 (unsigned 64 o.value)) (write_string o.script),
  length-write_data 8 (unsigned 64 o.value),
  length-write_string o.script,
  length-tx_outs os,
)

-- GetSerializeSize, an `unsigned int`, is the number of bytes that are written modulo 2 ^ 32.
pub length-write_transaction :
    (tx : Transaction) → get_serialize_size tx ≡ length (write_transaction tx) % 2 ^ 32
unfolding write_transaction get_serialize_size write_vector
length-write_transaction tx =
    let ins = write_compact_size (length tx.vin) ++ write_elements write_tx_in tx.vin in
    let outs = write_compact_size (length tx.vout) ++ write_elements write_tx_out tx.vout in
    omega (
      arith,
      length-append (write_data 4 (unsigned 32 tx.version))
          (ins ++ (outs ++ write_data 4 tx.lock_time)),
      length-append ins (outs ++ write_data 4 tx.lock_time),
      length-append outs (write_data 4 tx.lock_time),
      length-append (write_compact_size (length tx.vin)) (write_elements write_tx_in tx.vin),
      length-append (write_compact_size (length tx.vout)) (write_elements write_tx_out tx.vout),
      length-write_compact_size (length tx.vin),
      length-write_compact_size (length tx.vout),
      length-write_data 4 (unsigned 32 tx.version),
      length-write_data 4 tx.lock_time,
      length-tx_ins tx.vin,
      length-tx_outs tx.vout,
    )
