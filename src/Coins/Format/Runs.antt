-- ===== src/Coins/Format/Runs.antt =====
-- Runs of the formats, over a curve of one point, the generator of secp256k1.
use primmonero.Base.{
  ◌≡◌, ◌==◌, refl, sym, ap, ◌∙◌, Bool, true, false, ◌&&◌, none, some, [], ◌∷◌, ◌++◌, inl, inr, take,
  drop, take-append, drop-append, if◌then◌else◌, length, Bool-cases, arith,
}
use primmonero.Base.Int.{pos}
use primmonero.Serialize.{ok}
use primmonero.Script.{bytes_eq}
use primmonero.Script.Compressor.{Curve, serialize, unserialize, get_serialize_size}
use primmonero.Script.Compressor.RoundTrip.{IsPointCodec, unserialize-serialize}
use primmonero.Coins.{TxOut, null_out, Coins, TxInUndo, is_pruned, all_null, cleanup}
use primmonero.Coins.Format.{
  Bytes, serialize_undo, unserialize_undo, serialize_coins, unserialize_coins, calc_mask_size,
  mask_size_loop,
}
use primmonero.Coins.Format.Undo.{unserialize_undo-serialize_undo}
use primmonero.Coins.Format.RoundTrip.{unserialize_coins-serialize_coins}

abbrev generator_x : Bytes
generator_x =
    0x79 ∷ 0xbe ∷ 0x66 ∷ 0x7e ∷ 0xf9 ∷ 0xdc ∷ 0xbb ∷ 0xac ∷ 0x55 ∷ 0xa0 ∷ 0x62 ∷ 0x95 ∷ 0xce ∷ 0x87
    ∷ 0x0b ∷ 0x07 ∷ 0x02 ∷ 0x9b ∷ 0xfc ∷ 0xdb ∷ 0x2d ∷ 0xce ∷ 0x28 ∷ 0xd9 ∷ 0x59 ∷ 0xf2 ∷ 0x81
    ∷ 0x5b ∷ 0x16 ∷ 0xf8 ∷ 0x17 ∷ 0x98 ∷ []

abbrev generator_y : Bytes
generator_y =
    0x48 ∷ 0x3a ∷ 0xda ∷ 0x77 ∷ 0x26 ∷ 0xa3 ∷ 0xc4 ∷ 0x65 ∷ 0x5d ∷ 0xa4 ∷ 0xfb ∷ 0xfc ∷ 0x0e ∷ 0x11
    ∷ 0x08 ∷ 0xa8 ∷ 0xfd ∷ 0x17 ∷ 0xb4 ∷ 0x48 ∷ 0xa6 ∷ 0x85 ∷ 0x54 ∷ 0x19 ∷ 0x9c ∷ 0x47 ∷ 0xd0
    ∷ 0x8f ∷ 0xfb ∷ 0x10 ∷ 0xd4 ∷ 0xb8 ∷ []

abbrev generator_octets : Bytes
generator_octets = 4 ∷ generator_x ++ generator_y

abbrev generator : Curve
generator = record {
  Point = Unit;
  from_octets = λ octets.
      if bytes_eq octets generator_octets
      then some (tt, false)
      else if bytes_eq octets (2 ∷ generator_x)
      then some (tt, true)
      else none;
  to_octets = λ compressed p. if compressed then 2 ∷ generator_x else generator_octets;
}

both : (a b : Bool) → (a && b) ≡ true → (a ≡ true) × (b ≡ true)
both true b e = (refl, e)
both false b e = cc

bytes_eq-true : (a b : Bytes) → bytes_eq a b ≡ true → a ≡ b
bytes_eq-true [] [] e = refl
bytes_eq-true [] (y ∷ b) e = cc
bytes_eq-true (x ∷ a) [] e = cc
bytes_eq-true (x ∷ a) (y ∷ b) e =
    let (head, tail) = both (x == y) (bytes_eq a b) e in
    let same : x ≡ y = ground (arith, head) in rw same (ap (◌∷◌ y) (bytes_eq-true a b tail))

generator-IsPointCodec : IsPointCodec generator
generator-IsPointCodec x y p form size_x size_y found =
    elim (Bool-cases (bytes_eq (4 ∷ x ++ y) generator_octets)) [
      | inl same ↦
          let whole : 4 ∷ x ++ y ≡ generator_octets =
            bytes_eq-true (4 ∷ x ++ y) generator_octets same in
          let tail : x ++ y ≡ generator_x ++ generator_y = ap (drop 1) whole in
          let ex : x ≡ generator_x =
            sym (take-append x y) ∙ (ap (λ n. take n (x ++ y)) size_x ∙ ap (take 32) tail) in
          let ey : y ≡ generator_y =
            sym (drop-append x y) ∙ (ap (λ n. drop n (x ++ y)) size_x ∙ ap (drop 32) tail) in
          rw (ex, ey) (true, refl, refl)
      | inr differ ↦ cc (rw differ at found)
    ]

-- A script that pays to the generator.
abbrev pay_to_generator : Bytes
pay_to_generator = 65 ∷ generator_octets ++ (0xac ∷ [])

unserialize-serialize_example :
    (bytes : Bytes) × (serialize generator pay_to_generator ≡ some bytes)
    × (unserialize generator [] (bytes ++ 7 ∷ []) ≡ ok (pay_to_generator, 7 ∷ []))
    × (length bytes ≡ get_serialize_size generator pay_to_generator)
unserialize-serialize_example =
    unserialize-serialize generator generator-IsPointCodec pay_to_generator [] (7 ∷ [])
      (omega arith)

abbrev coin : TxOut
coin = record { value = pos 100_000_000; script = pay_to_generator }

abbrev empty_undo : TxInUndo
empty_undo = record { txout = null_out; coin_base = false; height = 0; version = pos 0 }

abbrev undo : TxInUndo
undo = record { txout = coin; coin_base = true; height = 203_998; version = pos 1 }

unserialize_undo-serialize_undo_example :
    (bytes : Bytes) × (serialize_undo generator undo ≡ some bytes)
    × (unserialize_undo generator empty_undo (bytes ++ []) ≡ ok (undo, []))
unserialize_undo-serialize_undo_example =
    unserialize_undo-serialize_undo generator generator-IsPointCodec undo empty_undo [] 1
      (100_000_000, refl, omega arith, omega arith) (omega arith) refl (omega arith)
      (λ h. absurd (omega (arith, h)))

abbrev coins : Coins
coins = record {
  coin_base = false;
  vout = null_out ∷ null_out ∷ null_out ∷ null_out ∷ coin ∷ null_out ∷ [];
  height = 203_998;
  version = pos 1;
}

-- One byte of the mask, which is not zero.
mask_coins : calc_mask_size coins.vout ≡ (1, 1)
unfolding calc_mask_size mask_size_loop all_null
mask_coins = refl

unserialize_coins-serialize_coins_example :
    (bytes : Bytes) × (serialize_coins generator coins ≡ some bytes)
    × (unserialize_coins generator (bytes ++ []) ≡ ok (cleanup coins, []))
unfolding is_pruned all_null
unserialize_coins-serialize_coins_example =
    unserialize_coins-serialize_coins generator generator-IsPointCodec coins [] 1 refl
      (
        inl refl,
        (
          inl refl,
          (
            inl refl,
            (inl refl, (inr (100_000_000, refl, omega arith, omega arith), (inl refl, tt))),
          ),
        ),
      )
      (omega arith) (omega arith) refl (omega arith)
