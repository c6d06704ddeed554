-- ===== src/Coins/Format/Undo.antt =====
-- Outputs and undo information are read back as they were written.
use primmonero.Base.{
  ℕ, ◌+◌, ◌*◌, ◌/◌, ◌%◌, ◌^◌, bit_and, ◌≤◌, ◌<◌, ◌≡◌, refl, sym, Bool, true, false, not, inl, inr,
  some, [], ◌++◌, append_assoc, ltb, ◌==◌, if◌then◌else◌, length, Bool-cases, arith,
}
use primmonero.Base.Bits.{bit_and-one}
use primmonero.Base.Int.{pos}
use primmonero.Amount.RoundTrip.{decompress_amount-compress_amount, compress_amount-bound}
use primmonero.Serialize.{ok}
use primmonero.Serialize.VarInt.{read_var_int-write_var_int}
use primmonero.Script.Compressor.{Curve}
use primmonero.Script.Compressor.RoundTrip.{IsPointCodec, unserialize-serialize}
use primmonero.Coins.{TxOut, TxInUndo}
use primmonero.Coins.Format.{
  Bytes, write_int, read_int, serialize_tx_out, unserialize_tx_out, serialize_undo, read_version,
  unserialize_undo,
}

-- An output whose amount is within the compression's range, with a script within its sizes.
abbrev pub IsStored : TxOut → Type 0
IsStored o = (v : ℕ) × (o.value ≡ pos v) × (v ≤ 2 ^ 64 / 10) × (length o.script + 6 < 2 ^ 32)

pub read_int-write_int :
    (n : ℕ) (rest : Bytes)
    → n < 2 ^ 31
    → (bytes : Bytes) × (write_int (pos n) ≡ some bytes)
      × (read_int (bytes ++ rest) ≡ ok (pos n, rest))
unfolding write_int read_int
read_int-write_int n rest h =
    let (bytes, made, back, _) =
      read_var_int-write_var_int 32 n rest (omega arith) (omega (arith, h)) in
    let low : ltb n (2 ^ 31) ≡ true = ground (arith, h) in
    (bytes, made, rw (read_int, back) (rw low refl))

module _ (curve : Curve) (law : IsPointCodec curve) where
  pub unserialize_tx_out_lem :
      (o before : TxOut) (rest : Bytes)
      → IsStored o
      → (bytes : Bytes) × (serialize_tx_out curve o ≡ some bytes)
        × (unserialize_tx_out curve before (bytes ++ rest) ≡ ok (o, rest))
  unfolding serialize_tx_out unserialize_tx_out
  unserialize_tx_out_lem o before rest (v, value, small, short) =
      let (x, code, amount) = decompress_amount-compress_amount v small in
      let (script, made, back, _) =
        unserialize-serialize curve law o.script before.script rest short in
      let (size, made_x, back_x, _) =
        read_var_int-write_var_int 64 x (script ++ rest) (omega arith)
          (compress_amount-bound v x code) in
      let low : ltb v (2 ^ 63) ≡ true = ground (arith, small) in
      (
        size ++ script,
        rw (serialize_tx_out, value, code, made_x, made) refl,
        rw (append_assoc size script rest, unserialize_tx_out, back_x)
            (rw back (
              rw (amount, low)
                (λ i. ok (record { value = sym value i; script = o.script }, rest)))),
      )

  version_part :
      (undo before : TxInUndo) (rest : Bytes) (version : ℕ)
      → undo.version ≡ pos version
      → version < 2 ^ 31
      → ((undo.height ≡ 0) → before.version ≡ undo.version)
      → (bytes : Bytes) × ((if ltb 0 undo.height then write_int undo.version else some [])
          ≡ some bytes)
        × (read_version before undo.height (bytes ++ rest) ≡ ok (undo.version, rest))
  unfolding read_version
  version_part undo before rest version same small kept = elim (Bool-cases (ltb 0 undo.height)) [
    | inl positive ↦
        let (bytes, made, back) = read_int-write_int version rest small in
        (bytes, rw (positive, same) made, rw (read_version, positive, same) back)
    | inr nought ↦
        ([], rw nought refl, rw (read_version, nought, kept (ground (arith, nought))) refl)
  ]

  flag :
      (b : Bool) (h code : ℕ)
      → h * 2 + (if b then 1 else 0) ≡ code
      → (not (bit_and code 1 == 0) ≡ b) × (code / 2 ≡ h) × (code < h * 2 + 2)
  flag true h code e =
      let low : bit_and code 1 ≡ 1 = omega (arith, bit_and-one code) in
      (rw low refl, omega arith, omega arith)
  flag false h code e =
      let low : bit_and code 1 ≡ 0 = omega (arith, bit_and-one code) in
      (rw low refl, omega arith, omega arith)

  -- With a curve whose octets are those of its points: undo information with a height below
  -- 2 ^ 31, a version that is not negative, and an output with an amount up to a tenth of
  -- 2 ^ 64 and a script within its sizes is read back as it was written, whatever follows, if at
  -- height zero, where no version is written, the version that was there before is the same.
  pub unserialize_undo-serialize_undo :
      (undo before : TxInUndo) (rest : Bytes) (version : ℕ)
      → IsStored undo.txout
      → undo.height < 2 ^ 31
      → undo.version ≡ pos version
      → version < 2 ^ 31
      → ((undo.height ≡ 0) → before.version ≡ undo.version)
      → (bytes : Bytes) × (serialize_undo curve undo ≡ some bytes)
        × (unserialize_undo curve before (bytes ++ rest) ≡ ok (undo, rest))
  unfolding serialize_undo unserialize_undo
  unserialize_undo-serialize_undo undo before rest version stored high same small kept =
      let code = undo.height * 2 + (if undo.coin_base then 1 else 0) in
      let (bit, half, below) = flag undo.coin_base undo.height code refl in
      let (out, made_o, back_o) = unserialize_tx_out_lem undo.txout before.txout rest stored in
      let (ver, made_v, back_v) = version_part undo before (out ++ rest) version same small kept in
      let (head, made_c, back_c, _) =
        read_var_int-write_var_int 32 code (ver ++ (out ++ rest)) (omega arith)
          (omega (arith, below, high)) in
      let fits : code % 2 ^ 32 ≡ code = omega (arith, below, high) in
      (
        head ++ (ver ++ out),
        rw (serialize_undo, fits, made_c, made_v, made_o) refl,
        rw
            (
              append_assoc head (ver ++ out) rest,
              append_assoc ver out rest,
              unserialize_undo,
              back_c,
            )
            (rw (half, back_v)
              (rw back_o (λ i. ok (
                record {
                  txout = undo.txout;
                  coin_base = bit i;
                  height = undo.height;
                  version = undo.version;
                },
                rest,
              )))),
      )
