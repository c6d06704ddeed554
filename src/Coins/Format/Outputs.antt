-- ===== src/Coins/Format/Outputs.antt =====
-- The outputs behind the mask of a CCoins (src/servilo/main.h).
use primmonero.Base.{
  ℕ, zero, suc, ◌≡◌, refl, sym, ap, ◌∙◌, Bool, true, false, not, ◌&&◌, ◌⊎◌, inl, inr, some, List,
  [], ◌∷◌, ◌++◌, append_assoc, drop, All, Bool-cases,
}
use primmonero.Serialize.{ok}
use primmonero.Script.Compressor.{Curve}
use primmonero.Script.Compressor.RoundTrip.{IsPointCodec}
use primmonero.Coins.{TxOut, null_out, is_null, all_null}
use primmonero.Coins.Cleanup.{trim, trim-null, trim-empty, all_null-trim}
use primmonero.Coins.Format.{Bytes, unserialize_tx_out, serialize_outs, unserialize_outs}
use primmonero.Coins.Format.Undo.{IsStored, unserialize_tx_out_lem}
use primmonero.Coins.Format.Mask.{bits_of, blocks, behind}

-- An output that is spent or can be written.
abbrev pub IsOutput : TxOut → Type 0
IsOutput o = (o ≡ null_out) ⊎ IsStored o

-- The bits tell which outputs are left, and null outputs follow them, or bits that are not set.
pub Covers : List Bool → List TxOut → Type 0
Covers [] os = all_null os ≡ true
Covers (b ∷ bits) [] = (b ≡ false) × Covers bits []
Covers (b ∷ bits) (o ∷ os) = (b ≡ not (is_null o)) × Covers bits os

drop-nil : (n : ℕ) → ◌≡◌ {A = List TxOut} (drop n []) []
drop-nil zero = refl
drop-nil (suc n) = refl

pub Covers-bits_of :
    (n : ℕ) (os : List TxOut) (bits : List Bool)
    → Covers bits (drop n os)
    → Covers (bits_of n os ++ bits) os
unfolding Covers bits_of
Covers-bits_of zero os bits c = c
Covers-bits_of (suc n) [] bits c = (refl, Covers-bits_of n [] bits (rw (drop-nil n) c))
Covers-bits_of (suc n) (o ∷ os) bits c = (refl, Covers-bits_of n os bits c)

pub Covers-blocks :
    (size : ℕ) (os : List TxOut) → all_null (behind size os) ≡ true → Covers (blocks size os) os
unfolding Covers blocks behind
Covers-blocks zero os null = null
Covers-blocks (suc size) os null =
    Covers-bits_of 8 os (blocks size (drop 8 os)) (Covers-blocks size (drop 8 os) null)

trim-keep : (o : TxOut) (xs : List TxOut) → all_null (o ∷ xs) ≡ false → trim (o ∷ xs) ≡ o ∷ trim xs
unfolding trim all_null
trim-keep o xs e = let kept : (is_null o && all_null xs) ≡ false = e in rw (trim, kept) refl

trim-tail : (o : TxOut) (xs ys : List TxOut) → trim xs ≡ trim ys → trim (o ∷ xs) ≡ trim (o ∷ ys)
unfolding all_null
trim-tail o xs ys e =
    let same : all_null xs ≡ all_null ys =
      sym (all_null-trim xs) ∙ (ap all_null e ∙ all_null-trim ys) in
    let whole : all_null (o ∷ xs) ≡ all_null (o ∷ ys) = ap (λ b. is_null o && b) same in
    elim (Bool-cases (all_null (o ∷ ys))) [
      | inl null ↦ trim-null (o ∷ xs) (whole ∙ null) ∙ sym (trim-null (o ∷ ys) null)
      | inr kept ↦ trim-keep o xs (whole ∙ kept) ∙ (ap (◌∷◌ o) e ∙ sym (trim-keep o ys kept))
    ]

trim-null_out : (xs : List TxOut) → trim xs ≡ [] → trim (null_out ∷ xs) ≡ []
unfolding all_null
trim-null_out xs e = trim-null (null_out ∷ xs) (trim-empty xs e)

module _ (curve : Curve) (law : IsPointCodec curve) where
  serialize_outs-null : (os : List TxOut) → all_null os ≡ true → serialize_outs curve os ≡ some []
  unfolding serialize_outs all_null
  serialize_outs-null [] e = refl
  serialize_outs-null (o ∷ os) e = elim (Bool-cases (is_null o)) [
    | inl null ↦ rw (serialize_outs, null) (serialize_outs-null os (rw (all_null, null) at e))
    | inr full ↦ cc (rw (all_null, full) at e)
  ]

  read_spent :
      (bits : List Bool) (bytes rest : Bytes) (read : List TxOut)
      → unserialize_outs curve bits bytes ≡ ok (read, rest)
      → unserialize_outs curve (false ∷ bits) bytes ≡ ok (null_out ∷ read, rest)
  unfolding unserialize_outs
  read_spent bits bytes rest read back = rw (unserialize_outs, back) refl

  read_left :
      (bits : List Bool) (o : TxOut) (bytes rest rest' : Bytes) (read : List TxOut)
      → unserialize_tx_out curve null_out bytes ≡ ok (o, rest')
      → unserialize_outs curve bits rest' ≡ ok (read, rest)
      → unserialize_outs curve (true ∷ bits) bytes ≡ ok (o ∷ read, rest)
  unfolding unserialize_outs
  read_left bits o bytes rest rest' read one back = rw (unserialize_outs, one) (rw back refl)

  stored-full : (o : TxOut) → IsStored o → is_null o ≡ false
  stored-full o (v, value, _, _) = rw value refl

  -- What is read has the same outputs, up to null ones at the end.
  pub unserialize_outs_lem :
      (bits : List Bool) (os : List TxOut) (rest : Bytes)
      → All IsOutput os
      → Covers bits os
      → (bytes : Bytes) × (read : List TxOut) × (serialize_outs curve os ≡ some bytes)
        × (unserialize_outs curve bits (bytes ++ rest) ≡ ok (read, rest))
        × (trim read ≡ trim os)
  unfolding Covers serialize_outs unserialize_outs trim
  unserialize_outs_lem [] os rest stored null =
      ([], [], serialize_outs-null os null, refl, sym (trim-null os null))
  unserialize_outs_lem (b ∷ bits) [] rest stored (unset, c) =
      let (bytes, read, made, back, same) = unserialize_outs_lem bits [] rest stored c in
      (
        bytes,
        null_out ∷ read,
        made,
        rw unset (read_spent bits (bytes ++ rest) rest read back),
        trim-null_out read same,
      )
  unserialize_outs_lem (b ∷ bits) (o ∷ os) rest (inl null, stored) (bit, c) =
      let (bytes, read, made, back, same) = unserialize_outs_lem bits os rest stored c in
      let empty : is_null o ≡ true = ap is_null null in
      let unset : b ≡ false = rw empty at bit in
      (
        bytes,
        null_out ∷ read,
        rw (serialize_outs, empty) made,
        rw unset (read_spent bits (bytes ++ rest) rest read back),
        trim-tail null_out read os same ∙ ap (λ x. trim (x ∷ os)) (sym null),
      )
  unserialize_outs_lem (b ∷ bits) (o ∷ os) rest (inr whole, stored) (bit, c) =
      let (bytes, read, made, back, same) = unserialize_outs_lem bits os rest stored c in
      let full = stored-full o whole in
      let set : b ≡ true = rw full at bit in
      let (out, made_o, back_o) =
        unserialize_tx_out_lem curve law o null_out (bytes ++ rest) whole in
      (
        out ++ bytes,
        o ∷ read,
        rw (serialize_outs, full, made_o, made) refl,
        rw (set, append_assoc out bytes rest)
            (read_left bits o (out ++ (bytes ++ rest)) rest (bytes ++ rest) read back_o back),
        trim-tail o read os same,
      )
