-- ===== src/Script/Compressor.antt =====
-- CScriptCompressor of src/servilo/script.h and script.cpp: the short encodings of the common
-- scripts, with the part of CKey (src/servilo/key.cpp) that they use.
pub mod Shapes
pub mod RoundTrip
use primmonero.Base.{
  ℕ, zero, suc, ◌+◌, ◌-◌, ◌%◌, ◌^◌, bit_and, bit_or, Bool, true, false, ◌&&◌, ◌||◌, Option, none,
  some, List, [], ◌∷◌, ◌++◌, ltb, leb, ◌==◌, if◌then◌else◌, length, get_or, take, drop,
}
use primmonero.Script.{Bytes}
use primmonero.Serialize.{
  Failure, Result, ok, err, ◌>>=◌, write_var_int, read_var_int, get_size_of_var_int,
}
use primmonero.Serialize.Stream.{read_bytes}

abbrev pub at : Bytes → ℕ → ℕ
at b i = get_or b i 0

-- The points of OpenSSL's curve: o2i_ECPublicKey, which also finds the form of the octets (true
-- when compressed), and i2o_ECPublicKey for a form.
pub record Curve : Type 1 where
  pub Point : Type 0
  pub from_octets : Bytes → Option (Point × Bool)
  pub to_octets : Bool → Point → Bytes

module _ (curve : Curve) where
  -- The key of OpenSSL in a CKey: its point and its conversion form.
  pub record Key : Type 0 where
    pub point : curve.Point
    pub compressed : Bool

  pub set_pub_key : Bytes → Option Key
  set_pub_key octets = elim (curve.from_octets octets) [
    | none ↦ none
    | some (p, form) ↦
        some (record { point = p; compressed = if length octets == 33 then true else form })
  ]

  pub set_compressed_pub_key : Bool → Key → Key
  set_compressed_pub_key form key = record key { compressed = form }

  pub get_pub_key : Key → Bytes
  get_pub_key key = curve.to_octets key.compressed key.point

-- The hash that a script pays to, for each of the two forms.
pub is_to_key_id : Bytes → Option Bytes
is_to_key_id script =
    if length script == 25
      && at script 0 == 0x76
      && at script 1 == 0xa9
      && at script 2 == 20
      && at script 23 == 0x88
      && at script 24 == 0xac
    then some (take 20 (drop 3 script))
    else none

pub is_to_script_id : Bytes → Option Bytes
is_to_script_id script =
    if length script == 23 && at script 0 == 0xa9 && at script 1 == 20 && at script 22 == 0x87
    then some (take 20 (drop 2 script))
    else none

pub get_special_size : ℕ → ℕ
get_special_size size =
    if size == 0 || size == 1
    then 20
    else if size == 2 || size == 3 || size == 4 || size == 5
    then 32
    else 0

abbrev pub special_scripts : ℕ
special_scripts = 6

-- The first byte of the encoding of a key, and its 32 bytes.
pub compress_pub_key : Bytes → Option Bytes
compress_pub_key key =
    if at key 0 == 0x02 || at key 0 == 0x03
    then some (at key 0 ∷ take 32 (drop 1 key))
    else if at key 0 == 0x04
    then some (bit_or 0x04 (bit_and (at key 64) 0x01) ∷ take 32 (drop 1 key))
    else none

module _ (curve : Curve) where
  -- The key that a script pays to. An uncompressed one has to be a point of the curve.
  pub is_to_pub_key : Bytes → Option Bytes
  is_to_pub_key script =
      if length script == 35
        && at script 0 == 33
        && at script 34 == 0xac
        && (at script 1 == 0x02 || at script 1 == 0x03)
      then some (take 33 (drop 1 script))
      else if length script == 67
          && at script 0 == 65
          && at script 66 == 0xac
          && at script 1 == 0x04
      then elim (set_pub_key curve (take 65 (drop 1 script))) [
        | none ↦ none
        | some key ↦ some (take 65 (drop 1 script))
      ]
      else none

  -- The encoding, or none when the script is not special.
  pub compress : Bytes → Option Bytes
  compress script = elim (is_to_key_id script) [
    | some hash ↦ some (0x00 ∷ hash)
    | none ↦ elim (is_to_script_id script) [
      | some hash ↦ some (0x01 ∷ hash)
      | none ↦ elim (is_to_pub_key script) [ some key ↦ compress_pub_key key | none ↦ none ]
    ]
  ]

  -- The script of a key that its coordinate and the parity of the other one give.
  pub decompress_pub_key : ℕ → Bytes → Option Bytes
  decompress_pub_key size vch = elim (set_pub_key curve ((size - 2) ∷ take 32 vch)) [
    | none ↦ none
    | some key ↦
        some
          (65 ∷ take 65 (get_pub_key curve (set_compressed_pub_key curve false key)) ++ (0xac ∷ []))
  ]

  -- The script, or none when it is left as it was.
  pub decompress : ℕ → Bytes → Option Bytes
  decompress size vch =
      if size == 0x00
      then some (0x76 ∷ 0xa9 ∷ 20 ∷ take 20 vch ++ (0x88 ∷ 0xac ∷ []))
      else if size == 0x01
      then some (0xa9 ∷ 20 ∷ take 20 vch ++ (0x87 ∷ []))
      else if size == 0x02 || size == 0x03
      then some (33 ∷ size ∷ take 32 vch ++ (0xac ∷ []))
      else if size == 0x04 || size == 0x05
      then decompress_pub_key size vch
      else none

  pub get_serialize_size : Bytes → ℕ
  get_serialize_size script = elim (compress script) [
    | some out ↦ length out
    | none ↦ length script + get_size_of_var_int ((length script + special_scripts) % 2 ^ 32)
  ]

  -- `none` is a write past the end of the array in WriteVarInt.
  pub serialize : Bytes → Option Bytes
  serialize script = elim (compress script) [
    | some out ↦ some out
    | none ↦ elim (write_var_int 32 ((length script + special_scripts) % 2 ^ 32)) [
      | none ↦ none
      | some size ↦ some (size ++ script)
    ]
  ]

  -- What follows the size.
  pub unserialize_body : Bytes → ℕ × Bytes → Result (Bytes × Bytes)
  unserialize_body before (size, rest) =
      if ltb size special_scripts
      then (do
        (vch, rest') ← read_bytes (get_special_size size) rest
        ok (elim (decompress size vch) [ none ↦ before | some script ↦ script ], rest'))
      else read_bytes (size - special_scripts) rest

  -- The script that is read and the rest of the stream; `before` is the script that was there.
  pub unserialize : Bytes → Bytes → Result (Bytes × Bytes)
  unserialize before bytes = read_var_int 32 bytes >>= unserialize_body before
