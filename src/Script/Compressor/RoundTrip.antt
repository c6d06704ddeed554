-- ===== src/Script/Compressor/RoundTrip.antt =====
-- Scripts are read back as the compressor wrote them.
use primmonero.Base.{
  ℕ, zero, suc, ◌+◌, ◌-◌, ◌%◌, ◌^◌, bit_and, bit_or, ◌<◌, ◌≡◌, refl, sym, ap, ◌∙◌, Bool, true,
  false, ◌⊎◌, inl, inr, some, [], ◌∷◌, ◌++◌, append_assoc, length-append, ltb, length, take, drop,
  Option-cases, arith,
}
use mathlib.Core.Path.{subst}
use primmonero.Base.Bits.{bit_and-one}
use primmonero.Script.{Bytes}
use primmonero.Serialize.{ok}
use primmonero.Serialize.VarInt.{read_var_int-write_var_int, read_var_int-below_six}
use primmonero.Serialize.Stream.{read_bytes}
use primmonero.Serialize.Stream.RoundTrip.{read_bytes-append}
use primmonero.Script.Compressor.{
  at, Curve, Key, set_pub_key, set_compressed_pub_key, get_pub_key, is_to_key_id, is_to_script_id,
  is_to_pub_key, get_special_size, special_scripts, compress_pub_key, compress, decompress_pub_key,
  decompress, get_serialize_size, serialize, unserialize_body, unserialize,
}
use primmonero.Script.Compressor.Shapes.{
  length-take, is_to_key_id-form, is_to_script_id-form, is_to_pub_key-form,
}

-- The octets of a point: its uncompressed ones are a 4 and the two coordinates, and a point that has
-- them is also the one of its first coordinate behind 2 or 3, the parity of the second.
abbrev pub IsPointCodec : Curve → Type 0
IsPointCodec curve =
    (x y : Bytes) (p : curve.Point) (form : Bool)
    → length x ≡ 32
    → length y ≡ 32
    → curve.from_octets (4 ∷ x ++ y) ≡ some (p, form)
    → (form' : Bool) × (curve.from_octets ((2 + at y 31 % 2) ∷ x) ≡ some (p, form'))
      × (curve.to_octets false p ≡ 4 ∷ x ++ y)

at-drop : (n i m : ℕ) (xs : Bytes) → n + i ≡ m → at (drop n xs) i ≡ at xs m
at-drop zero i m xs h = ap (at xs) (omega (arith, h))
at-drop (suc n) i m [] h = refl
at-drop (suc n) i zero (x ∷ xs) h = absurd (omega (arith, h))
at-drop (suc n) i (suc m) (x ∷ xs) h = at-drop n i m xs (omega (arith, h))

take-drop : (n : ℕ) (xs : Bytes) → take n xs ++ drop n xs ≡ xs
take-drop zero xs = refl
take-drop (suc n) [] = refl
take-drop (suc n) (x ∷ xs) = ap (◌∷◌ x) (take-drop n xs)

length-drop : (n m : ℕ) (xs : Bytes) → length xs ≡ n + m → length (drop n xs) ≡ m
length-drop zero m xs h = omega (arith, h)
length-drop (suc n) m [] h = absurd (omega (arith, h))
length-drop (suc n) m (x ∷ xs) h = length-drop n m xs (omega (arith, h))

take-all : (n : ℕ) (xs : Bytes) → length xs ≡ n → take n xs ≡ xs
take-all zero [] h = refl
take-all zero (x ∷ xs) h = absurd (omega (arith, h))
take-all (suc n) [] h = refl
take-all (suc n) (x ∷ xs) h = ap (◌∷◌ x) (take-all n xs (omega (arith, h)))

leq_one : (n : ℕ) → n < 2 → (n ≡ 0) ⊎ (n ≡ 1)
leq_one n h = ground (arith, h)

parity_byte : (n : ℕ) → bit_or 4 (bit_and n 1) ≡ 4 + n % 2
parity_byte n =
    let low = bit_and-one n in
    elim (leq_one (n % 2) (omega arith)) [ inl e ↦ rw (low, e) refl | inr e ↦ rw (low, e) refl ]

-- What an encoding that was made has.
abbrev IsEncoding : Curve → Bytes → Bytes → Type 0
IsEncoding curve script out =
    (size : ℕ) × (vch : Bytes) × (out ≡ size ∷ vch)
    × (size < 6)
    × (length vch ≡ get_special_size size)
    × (decompress curve size vch ≡ some script)

-- A compressed key.
short_key :
    (curve : Curve) (key : Bytes) (b : ℕ)
    → (b ≡ 2) ⊎ (b ≡ 3)
    → length key ≡ 33
    → at key 0 ≡ b
    → (vch : Bytes) × (compress_pub_key key ≡ some (b ∷ vch)) × (length vch ≡ 32) × (key ≡ b ∷ vch)
unfolding compress_pub_key
short_key curve [] b which size head = absurd (omega (arith, size))
short_key curve (k ∷ vch) b which size head =
    let whole : take 32 vch ≡ vch = take-all 32 vch (omega (arith, size)) in
    elim which [
      | inl e ↦ (vch, rw (whole, head, e) refl, omega (arith, size), ap (λ x. x ∷ vch) head)
      | inr e ↦ (vch, rw (whole, head, e) refl, omega (arith, size), ap (λ x. x ∷ vch) head)
    ]

decompress_short :
    (curve : Curve) (b : ℕ) (vch : Bytes)
    → (b ≡ 2) ⊎ (b ≡ 3)
    → length vch ≡ 32
    → decompress curve b vch ≡ some (33 ∷ b ∷ vch ++ (0xac ∷ []))
unfolding decompress
decompress_short curve b vch which size =
    let whole : take 32 vch ≡ vch = take-all 32 vch size in
    elim which [ inl e ↦ rw (e, whole) refl | inr e ↦ rw (e, whole) refl ]

module _ (curve : Curve) (law : IsPointCodec curve) where
  -- An uncompressed key: its coordinates, and what decompression makes of the first.
  decompress_long :
      (x y : Bytes) (k : Key curve) (b : ℕ)
      → length x ≡ 32
      → length y ≡ 32
      → set_pub_key curve (4 ∷ x ++ y) ≡ some k
      → (b ≡ 0) ⊎ (b ≡ 1)
      → at y 31 % 2 ≡ b
      → decompress curve (4 + b) x ≡ some (65 ∷ (4 ∷ x ++ y) ++ (0xac ∷ []))
  unfolding decompress decompress_pub_key set_pub_key set_compressed_pub_key get_pub_key
  decompress_long x y k b size_x size_y good which parity =
      elim (Option-cases (curve.from_octets (4 ∷ x ++ y))) [
        | inl bad ↦ cc (rw (set_pub_key, bad) at good)
        | inr ((p, form), found) ↦
            let (form', packed, octets) = law x y p form size_x size_y found in
            let whole : take 32 x ≡ x = take-all 32 x size_x in
            let all : take 64 (x ++ y) ≡ x ++ y =
              take-all 64 (x ++ y) (omega (arith, length-append x y, size_x, size_y)) in
            elim which [
              | inl e ↦
                  let packed' : curve.from_octets (2 ∷ x) ≡ some (p, form') =
                    rw (parity, e) at packed in
                  rw (e, decompress, decompress_pub_key, set_pub_key, whole, packed', octets, all)
                    refl
              | inr e ↦
                  let packed' : curve.from_octets (3 ∷ x) ≡ some (p, form') =
                    rw (parity, e) at packed in
                  rw (e, decompress, decompress_pub_key, set_pub_key, whole, packed', octets, all)
                    refl
            ]
      ]

  long_key :
      (key : Bytes) (k : Key curve)
      → length key ≡ 65
      → at key 0 ≡ 4
      → set_pub_key curve key ≡ some k
      → (b : ℕ) × ((b ≡ 0) ⊎ (b ≡ 1))
        × (x : Bytes) × (length x ≡ 32)
        × (compress_pub_key key ≡ some ((4 + b) ∷ x))
        × (decompress curve (4 + b) x ≡ some (65 ∷ key ++ (0xac ∷ [])))
  unfolding compress_pub_key
  long_key [] k size head good = absurd (omega (arith, size))
  long_key (c ∷ t) k size head good =
      let x = take 32 t in
      let y = drop 32 t in
      let b = at t 63 % 2 in
      let which = leq_one b (omega arith) in
      let key : (c ∷ t) ≡ 4 ∷ x ++ y = rw (take-drop 32 t) (ap (λ z. z ∷ t) head) in
      let parity : at y 31 % 2 ≡ b = ap (λ z. z % 2) (at-drop 32 31 63 t (omega arith)) in
      let size_x = length-take 32 t (omega (arith, size)) in
      let size_y = length-drop 32 32 t (omega (arith, size)) in
      (
        b,
        which,
        x,
        size_x,
        rw (head, parity_byte (at t 63)) refl,
        subst (λ z. decompress curve (4 + b) x ≡ some (65 ∷ z ++ (0xac ∷ []))) (sym key)
            (decompress_long x y k b size_x size_y (rw key at good) which parity),
      )

  special_short : (b : ℕ) → (b ≡ 2) ⊎ (b ≡ 3) → (b < 6) × (get_special_size b ≡ 32)
  unfolding get_special_size
  special_short b which = ground (arith, which)

  special_long : (b : ℕ) → (b ≡ 0) ⊎ (b ≡ 1) → (4 + b < 6) × (get_special_size (4 + b) ≡ 32)
  unfolding get_special_size
  special_long b which = ground (arith, which)

  key-IsEncoding :
      (script key out : Bytes)
      → is_to_pub_key curve script ≡ some key
      → compress_pub_key key ≡ some out
      → IsEncoding curve script out
  key-IsEncoding script key out found e = elim (is_to_pub_key-form curve script key found) [
    | inl (size, form, first) ↦
        let (vch, made, len, whole) = short_key curve key (at key 0) first size refl in
        let (low, special) = special_short (at key 0) first in
        (
          at key 0,
          vch,
          cc,
          low,
          len ∙ sym special,
          decompress_short curve (at key 0) vch first len
              ∙ ap some (ap (λ z. 33 ∷ z ++ (0xac ∷ [])) (sym whole) ∙ sym form),
        )
    | inr (size, form, first, k, good) ↦
        let (b, which, x, len, made, back) = long_key key k size first good in
        let (low, special) = special_long b which in
        (4 + b, x, cc, low, len ∙ sym special, back ∙ ap some (sym form))
  ]

  -- What the compressor writes is special, and decompresses to the script.
  decompress-compress :
      (script out : Bytes) → compress curve script ≡ some out → IsEncoding curve script out
  unfolding compress decompress get_special_size
  decompress-compress script out e = elim (Option-cases (is_to_key_id script)) [
    | inr (hash, found) ↦
        let (form, size) = is_to_key_id-form script hash found in
        (
          0,
          hash,
          cc (rw (compress, found) at e),
          omega arith,
          size,
          rw (take-all 20 hash size, form) refl,
        )
    | inl n1 ↦ elim (Option-cases (is_to_script_id script)) [
      | inr (hash, found) ↦
          let (form, size) = is_to_script_id-form script hash found in
          (
            1,
            hash,
            cc (rw (compress, n1, found) at e),
            omega arith,
            size,
            rw (take-all 20 hash size, form) refl,
          )
      | inl n2 ↦ elim (Option-cases (is_to_pub_key curve script)) [
        | inl n3 ↦ cc (rw (compress, n1, n2, n3) at e)
        | inr (key, found) ↦ key-IsEncoding script key out found (rw (compress, n1, n2, found) at e)
      ]
    ]
  ]

  special_read :
      (script before out rest : Bytes)
      → IsEncoding curve script out
      → unserialize curve before (out ++ rest) ≡ ok (script, rest)
  unfolding unserialize unserialize_body
  special_read script before out rest (size, vch, made, low, len, back) =
      let is_special : ltb size special_scripts ≡ true = ground (arith, low) in
      let part : read_bytes (get_special_size size) (vch ++ rest) ≡ ok (vch, rest) =
        rw (sym len) (read_bytes-append vch rest) in
      rw (made, unserialize, read_var_int-below_six size (vch ++ rest) low)
        (rw (unserialize_body, is_special, part, back) refl)

  -- With a curve whose octets are those of its points, a script of fewer than 2 ^ 32 - 6 bytes is
  -- written in as many bytes as GetSerializeSize says, and read back, whatever script was there
  -- before and whatever follows in the stream.
  pub unserialize-serialize :
      (script before rest : Bytes)
      → length script + 6 < 2 ^ 32
      → (bytes : Bytes) × (serialize curve script ≡ some bytes)
        × (unserialize curve before (bytes ++ rest) ≡ ok (script, rest))
        × (length bytes ≡ get_serialize_size curve script)
  unfolding serialize unserialize unserialize_body get_serialize_size
  unserialize-serialize script before rest h = elim (Option-cases (compress curve script)) [
    | inr (out, e) ↦ (
      out,
      rw (serialize, e) refl,
      special_read script before out rest (decompress-compress script out e),
      rw (get_serialize_size, e) refl,
    )
    | inl e ↦
        let (size, made, back, count) =
          read_var_int-write_var_int 32 (length script + 6) (script ++ rest) (omega arith) h in
        let same : (length script + 6) % 2 ^ 32 ≡ length script + 6 = omega (arith, h) in
        let plain : ltb (length script + 6) special_scripts ≡ false = ground arith in
        let rest_size : (length script + 6) - special_scripts ≡ length script = omega arith in
        (
          size ++ script,
          rw (serialize, e, same, made) refl,
          rw (append_assoc size script rest, unserialize, back)
              (rw (unserialize_body, plain, rest_size) (read_bytes-append script rest)),
          rw (get_serialize_size, e, same) (omega (arith, length-append size script, count)),
        )
  ]
