-- ===== src/Transaction/Format.antt =====
-- The network format of transactions (IMPLEMENT_SERIALIZE of COutPoint, CTxIn, CTxOut and
-- CTransaction in src/servilo/main.h), with the vectors of bytes of src/servilo/serialize.h.
pub mod RoundTrip
use primmonero.Base.{
  ℕ, zero, suc, ◌+◌, ◌-◌, ◌*◌, ◌%◌, ◌^◌, Bool, true, false, List, [], ◌∷◌, ◌++◌, ◌==◌, length, min,
}
use primmonero.Serialize.{
  Result, ok, err, ◌>>=◌, write_data, read_data, get_size_of_compact_size, read_compact_size,
}
use primmonero.Serialize.Stream.{read_bytes, write_string, write_vector, read_vector}
use primmonero.Coins.{TxOut}
use primmonero.Coins.Format.{unsigned, signed}
use primmonero.Transaction.{OutPoint, TxIn, Transaction}

-- The loop of a byte vector's Unserialize: blocks of at most 5000000 bytes, so that `size` rounds are
-- enough.
pub read_chunks : ℕ → ℕ → List ℕ → Result (List ℕ × List ℕ)
read_chunks zero size bytes = ok ([], bytes)
read_chunks (suc fuel) size bytes = elim (size == 0) [
  | true ↦ ok ([], bytes)
  | false ↦ (do
    (v, left) ← read_bytes (min size 5_000_000) bytes
    (w, rest) ← read_chunks fuel (size - min size 5_000_000) left
    ok (v ++ w, rest))
]

pub read_script : List ℕ → Result (List ℕ × List ℕ)
read_script bytes = do (size, left) ← read_compact_size bytes; read_chunks size size left

pub write_out_point : OutPoint → List ℕ
write_out_point p = write_data 32 p.hash ++ write_data 4 p.n

pub read_out_point : List ℕ → Result (OutPoint × List ℕ)
read_out_point bytes = do
  (hash, left) ← read_data 32 bytes
  (n, rest) ← read_data 4 left
  ok (record { hash = hash; n = n }, rest)

pub write_tx_in : TxIn → List ℕ
write_tx_in i = write_out_point i.prevout ++ (write_string i.script_sig ++ write_data 4 i.sequence)

pub read_tx_in : List ℕ → Result (TxIn × List ℕ)
read_tx_in bytes = do
  (prevout, left) ← read_out_point bytes
  (script, left') ← read_script left
  (sequence, rest) ← read_data 4 left'
  ok (record { prevout = prevout; script_sig = script; sequence = sequence }, rest)

pub write_tx_out : TxOut → List ℕ
write_tx_out o = write_data 8 (unsigned 64 o.value) ++ write_string o.script

pub read_tx_out : List ℕ → Result (TxOut × List ℕ)
read_tx_out bytes = do
  (value, left) ← read_data 8 bytes
  (script, rest) ← read_script left
  ok (record { value = signed 64 value; script = script }, rest)

pub write_transaction : Transaction → List ℕ
write_transaction tx =
    write_data 4 (unsigned 32 tx.version)
    ++ (write_vector write_tx_in tx.vin
        ++ (write_vector write_tx_out tx.vout ++ write_data 4 tx.lock_time))

-- `in_block` and `out_block` are the elements that a vector makes room for at a time.
module _ (in_block out_block : ℕ) where
  pub read_transaction : List ℕ → Result (Transaction × List ℕ)
  read_transaction bytes = do
    (version, left) ← read_data 4 bytes
    (vin, left1) ← read_vector read_tx_in in_block left
    (vout, left2) ← read_vector read_tx_out out_block left1
    (lock_time, rest) ← read_data 4 left2
    ok (record { version = signed 32 version; vin = vin; vout = vout; lock_time = lock_time }, rest)

-- GetSerializeSize of a byte vector, and of each of the parts: an `unsigned int` that wraps.
unfoldable pub script_size : List ℕ → ℕ
script_size script = (get_size_of_compact_size (length script) + length script) % 2 ^ 32

unfoldable pub tx_ins_size : List TxIn → ℕ
tx_ins_size [] = 0
tx_ins_size (i ∷ is) = (36 + script_size i.script_sig + 4 + tx_ins_size is) % 2 ^ 32

unfoldable pub tx_outs_size : List TxOut → ℕ
tx_outs_size [] = 0
tx_outs_size (o ∷ os) = (8 + script_size o.script + tx_outs_size os) % 2 ^ 32

unfoldable pub get_serialize_size : Transaction → ℕ
get_serialize_size tx =
    (4
      + (get_size_of_compact_size (length tx.vin) + tx_ins_size tx.vin)
      + (get_size_of_compact_size (length tx.vout) + tx_outs_size tx.vout)
      + 4)
    % 2 ^ 32
