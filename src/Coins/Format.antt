-- ===== src/Coins/Format.antt =====
-- The formats of the coin database (src/servilo/main.h): CTxOutCompressor, CTxInUndo and CCoins.
-- What is written is `none` when an assertion fails or WriteVarInt writes past its array.
mod Runs
pub mod Mask
pub mod Undo
pub mod Size
pub mod Outputs
pub mod RoundTrip
use primmonero.Base.{
  ℕ, zero, suc, ◌+◌, ◌-◌, ◌*◌, ◌/◌, ◌%◌, ◌^◌, bit_and, bit_or, Bool, true, false, not, ◌&&◌, ◌||◌,
  Option, none, some, List, [], ◌∷◌, ◌++◌, ltb, leb, ◌==◌, if◌then◌else◌, length, take, drop,
  get_or,
}
use primmonero.Base.Int.{ℤ, pos, negsuc}
use primmonero.Amount.{compress_amount, decompress_amount}
use primmonero.Serialize.{Result, ok, err, end_of_data, ◌>>=◌, write_var_int, read_var_int}
use primmonero.Script.Compressor.{Curve, serialize, unserialize}
use primmonero.Coins.{TxOut, null_out, is_null, Coins, TxInUndo, all_null, cleanup}

abbrev pub Bytes : Type 0
Bytes = List ℕ

-- One write after another.
abbrev pub join : Option Bytes → Option Bytes → Option Bytes
join none b = none
join (some a) none = none
join (some a) (some b) = some (a ++ b)

-- A signed integer of `width` bits as an unsigned one, and back.
abbrev pub unsigned : ℕ → ℤ → ℕ
unsigned width (pos n) = n
unsigned width (negsuc n) = 2 ^ width - 1 - n

abbrev pub signed : ℕ → ℕ → ℤ
signed width n = if ltb n (2 ^ (width - 1)) then pos n else negsuc (2 ^ width - 1 - n)

-- WriteVarInt of an `int`: for a negative one, the loop ends after the low seven bits.
pub write_int : ℤ → Option Bytes
write_int (pos n) = write_var_int 32 n
write_int (negsuc n) = some ((127 - n % 128) ∷ [])

pub read_int : Bytes → Result (ℤ × Bytes)
read_int bytes = do (n, rest) ← read_var_int 32 bytes; ok (signed 32 n, rest)

-- The version, which is only there behind a positive height.
pub read_version : TxInUndo → ℕ → Bytes → Result (ℤ × Bytes)
read_version before height bytes =
    if ltb 0 height then read_int bytes else ok (before.version, bytes)

module _ (curve : Curve) where
  pub serialize_tx_out : TxOut → Option Bytes
  serialize_tx_out o = elim (compress_amount (unsigned 64 o.value)) [
    | none ↦ none
    | some x ↦ join (write_var_int 64 x) (serialize curve o.script)
  ]

  pub unserialize_tx_out : TxOut → Bytes → Result (TxOut × Bytes)
  unserialize_tx_out before bytes = do
    (x, rest) ← read_var_int 64 bytes
    (script, rest') ← unserialize curve before.script rest
    ok (record { value = signed 64 (decompress_amount x); script = script }, rest')

  -- CTxInUndo.
  pub serialize_undo : TxInUndo → Option Bytes
  serialize_undo undo =
      join (write_var_int 32 ((undo.height * 2 + (if undo.coin_base then 1 else 0)) % 2 ^ 32)) (
        join (if ltb 0 undo.height then write_int undo.version else some [])
          (serialize_tx_out undo.txout))

  pub unserialize_undo : TxInUndo → Bytes → Result (TxInUndo × Bytes)
  unserialize_undo before bytes = do
    (code, rest) ← read_var_int 32 bytes
    (version, rest1) ← read_version before (code / 2) rest
    (txout, rest2) ← unserialize_tx_out before.txout rest1
    ok (
      record {
        txout = txout;
        coin_base = not (bit_and code 1 == 0);
        height = code / 2;
        version = version;
      },
      rest2,
    )

-- The loop of CCoins::CalcMaskSize: `os` are the outputs from 2+b*8 on. On fuel: each round takes an
-- output at least. The last byte that is used, and the number of bytes that are not zero.
pub mask_size_loop : ℕ → ℕ → List TxOut → ℕ → ℕ → ℕ × ℕ
mask_size_loop zero b os last count = (last, count)
mask_size_loop (suc fuel) b [] last count = (last, count)
mask_size_loop (suc fuel) b (o ∷ os) last count = elim (all_null (take 8 (o ∷ os))) [
  | true ↦ mask_size_loop fuel (b + 1) (drop 8 (o ∷ os)) last count
  | false ↦ mask_size_loop fuel (b + 1) (drop 8 (o ∷ os)) (b + 1) (count + 1)
]

pub calc_mask_size : List TxOut → ℕ × ℕ
calc_mask_size vout = mask_size_loop (length vout) 0 (drop 2 vout) 0 0

-- A byte of the mask: bit `i` is set where an output is not null.
pub avail_loop : ℕ → List TxOut → ℕ → ℕ
avail_loop i [] avail = avail
avail_loop i (o ∷ os) avail =
    avail_loop (i + 1) os (if is_null o then avail else bit_or avail (2 ^ i))

pub write_mask : ℕ → List TxOut → Bytes
write_mask zero os = []
write_mask (suc size) os = avail_loop 0 (take 8 os) 0 ∷ write_mask size (drop 8 os)

-- The bits of a byte of the mask, from bit `p` on.
pub avail_bits : ℕ → ℕ → ℕ → List Bool
avail_bits zero p avail = []
avail_bits (suc count) p avail = not (bit_and avail (2 ^ p) == 0) ∷ avail_bits count (p + 1) avail

-- The loop `while (nMaskCode > 0)`.
pub read_mask : ℕ → Bytes → Result (List Bool × Bytes)
read_mask zero bytes = ok ([], bytes)
read_mask (suc code) [] = err end_of_data
read_mask (suc code) (avail ∷ bytes) = elim (avail == 0) [
  | true ↦ (do (bits, rest) ← read_mask (suc code) bytes; ok (avail_bits 8 0 avail ++ bits, rest))
  | false ↦ (do (bits, rest) ← read_mask code bytes; ok (avail_bits 8 0 avail ++ bits, rest))
]

abbrev pub first : List TxOut → Bool
first vout = not (is_null (get_or vout 0 null_out))

abbrev pub second : List TxOut → Bool
second vout = not (is_null (get_or vout 1 null_out))

abbrev pub header_code : Bool → Bool → Bool → ℕ → ℕ
header_code coin_base f s mask_code =
    8 * (mask_code - (if f || s then 0 else 1))
    + (if coin_base then 1 else 0)
    + (if f then 2 else 0)
    + (if s then 4 else 0)

module _ (curve : Curve) where
  pub serialize_outs : List TxOut → Option Bytes
  serialize_outs [] = some []
  serialize_outs (o ∷ os) =
      if is_null o then serialize_outs os else join (serialize_tx_out curve o) (serialize_outs os)

  pub unserialize_outs : List Bool → Bytes → Result (List TxOut × Bytes)
  unserialize_outs [] bytes = ok ([], bytes)
  unserialize_outs (true ∷ avail) bytes = do
    (o, rest) ← unserialize_tx_out curve null_out bytes
    (os, rest') ← unserialize_outs avail rest
    ok (o ∷ os, rest')
  unserialize_outs (false ∷ avail) bytes = do
    (os, rest) ← unserialize_outs avail bytes
    ok (null_out ∷ os, rest)

  -- CCoins::Serialize.
  pub serialize_coins : Coins → Option Bytes
  serialize_coins c =
      let (mask_size, mask_code) = calc_mask_size c.vout in
      if not (first c.vout || second c.vout || ltb 0 mask_code)
      then none
      else join (write_int c.version) (
          join
            (write_var_int 32
              (header_code c.coin_base (first c.vout) (second c.vout) mask_code % 2 ^ 32))
            (join (some (write_mask mask_size (drop 2 c.vout)))
              (join (serialize_outs c.vout) (write_int (pos c.height)))))

  -- CCoins::Unserialize. A height from 2 ^ 31 on, which the source would take for a negative one, is
  -- kept as it is.
  pub unserialize_coins : Bytes → Result (Coins × Bytes)
  unserialize_coins bytes = do
    (version, rest1) ← read_int bytes
    (code, rest2) ← read_var_int 32 rest1
    (mask, rest3) ← read_mask (code / 8 + (if bit_and code 6 == 0 then 1 else 0)) rest2
    (vout, rest4) ←
        unserialize_outs (not (bit_and code 2 == 0) ∷ not (bit_and code 4 == 0) ∷ mask) rest3
    (height, rest5) ← read_var_int 32 rest4
    ok (
      cleanup (record {
        coin_base = not (bit_and code 1 == 0);
        vout = vout;
        height = height;
        version = version;
      }),
      rest5,
    )
