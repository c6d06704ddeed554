-- ===== src/Script/Compressor/Shapes.antt =====
-- The scripts that the compressor finds to be special have one form each.
use primmonero.Base.{
  ℕ, zero, suc, ◌+◌, ◌≤◌, ◌≡◌, refl, sym, ap, ◌∙◌, Bool, true, ◌&&◌, ◌||◌, ◌⊎◌, inl, inr, some, [],
  ◌∷◌, ◌++◌, ◌==◌, length, take, Bool-cases, Option-cases, arith,
}
use primmonero.Script.{Bytes}
use primmonero.Script.Compressor.{
  at, Curve, is_to_key_id, is_to_script_id, is_to_pub_key, Key, set_pub_key,
}

tail_one : (n : ℕ) (xs : Bytes) → length xs ≡ n + 1 → xs ≡ take n xs ++ (at xs n ∷ [])
tail_one n [] h = absurd (omega (arith, h))
tail_one zero (x ∷ []) h = refl
tail_one zero (x ∷ y ∷ xs) h = absurd (omega (arith, h))
tail_one (suc n) (x ∷ xs) h = ap (◌∷◌ x) (tail_one n xs (omega (arith, h)))

tail_two :
    (n : ℕ) (xs : Bytes) → length xs ≡ n + 2 → xs ≡ take n xs ++ (at xs n ∷ at xs (suc n) ∷ [])
tail_two n [] h = absurd (omega (arith, h))
tail_two zero (x ∷ []) h = absurd (omega (arith, h))
tail_two zero (x ∷ y ∷ []) h = refl
tail_two zero (x ∷ y ∷ z ∷ xs) h = absurd (omega (arith, h))
tail_two (suc n) (x ∷ xs) h = ap (◌∷◌ x) (tail_two n xs (omega (arith, h)))

pub length-take : (n : ℕ) (xs : Bytes) → n ≤ length xs → length (take n xs) ≡ n
length-take zero xs h = refl
length-take (suc n) [] h = absurd (omega (arith, h))
length-take (suc n) (x ∷ xs) h = ap suc (length-take n xs (omega (arith, h)))

-- A script that pays to the hash of a key.
pub is_to_key_id-form :
    (script hash : Bytes)
    → is_to_key_id script ≡ some hash
    → (script ≡ 0x76 ∷ 0xa9 ∷ 20 ∷ hash ++ (0x88 ∷ 0xac ∷ [])) × (length hash ≡ 20)
unfolding is_to_key_id
is_to_key_id-form [] hash e = ground arith
is_to_key_id-form (a ∷ []) hash e = ground arith
is_to_key_id-form (a ∷ b ∷ []) hash e = ground arith
is_to_key_id-form (a ∷ b ∷ c ∷ rest) hash e =
    let shape : (length rest ≡ 22)
        × (a ≡ 0x76)
        × (b ≡ 0xa9)
        × (c ≡ 20)
        × (at rest 20 ≡ 0x88)
        × (at rest 21 ≡ 0xac)
        × (take 20 rest ≡ hash) =
      ground arith in
    let (size, ea, eb, ec, ey, ez, eh) = shape in
    let parts : rest ≡ hash ++ (0x88 ∷ 0xac ∷ []) =
      rw (sym ey, sym ez, sym eh) (tail_two 20 rest (omega (arith, size))) in
    (
      rw (ea, eb, ec) (ap (λ r. 0x76 ∷ 0xa9 ∷ 20 ∷ r) parts),
      rw (sym eh) (length-take 20 rest (omega (arith, size))),
    )

-- A script that pays to the hash of a script.
pub is_to_script_id-form :
    (script hash : Bytes)
    → is_to_script_id script ≡ some hash
    → (script ≡ 0xa9 ∷ 20 ∷ hash ++ (0x87 ∷ [])) × (length hash ≡ 20)
unfolding is_to_script_id
is_to_script_id-form [] hash e = ground arith
is_to_script_id-form (a ∷ []) hash e = ground arith
is_to_script_id-form (a ∷ b ∷ rest) hash e =
    let shape : (length rest ≡ 21)
        × (a ≡ 0xa9)
        × (b ≡ 20)
        × (at rest 20 ≡ 0x87)
        × (take 20 rest ≡ hash) =
      ground arith in
    let (size, ea, eb, ey, eh) = shape in
    let parts : rest ≡ hash ++ (0x87 ∷ []) =
      rw (sym ey, sym eh) (tail_one 20 rest (omega (arith, size))) in
    (
      rw (ea, eb) (ap (λ r. 0xa9 ∷ 20 ∷ r) parts),
      rw (sym eh) (length-take 20 rest (omega (arith, size))),
    )

at-take : (n : ℕ) (xs : Bytes) → at (take (suc n) xs) 0 ≡ at xs 0
at-take n [] = refl
at-take n (x ∷ xs) = refl

-- The two tests, on the first byte and the others.
abbrev short_form : ℕ → Bytes → Bool
short_form a rest =
    suc (length rest) == 35
    && a == 33
    && at rest 33 == 0xac
    && (at rest 0 == 0x02 || at rest 0 == 0x03)

abbrev long_form : ℕ → Bytes → Bool
long_form a rest = suc (length rest) == 67 && a == 65 && at rest 65 == 0xac && at rest 0 == 0x04

short_form-true :
    (a : ℕ) (rest : Bytes)
    → short_form a rest ≡ true
    → (length rest ≡ 34) × (a ≡ 33) × (at rest 33 ≡ 0xac) × ((at rest 0 ≡ 2) ⊎ (at rest 0 ≡ 3))
short_form-true a rest e = ground arith

long_form-true :
    (a : ℕ) (rest : Bytes)
    → long_form a rest ≡ true
    → (length rest ≡ 66) × (a ≡ 65) × (at rest 65 ≡ 0xac) × (at rest 0 ≡ 4)
long_form-true a rest e = ground arith

-- A script that pays to a key: a compressed key, or an uncompressed one that is a point.
pub is_to_pub_key-form :
    (curve : Curve) (script key : Bytes)
    → is_to_pub_key curve script ≡ some key
    → ((length key ≡ 33) × (script ≡ 33 ∷ key ++ (0xac ∷ [])) × ((at key 0 ≡ 2) ⊎ (at key 0 ≡ 3)))
      ⊎ ((length key ≡ 65)
          × (script ≡ 65 ∷ key ++ (0xac ∷ []))
          × (at key 0 ≡ 4)
          × (k : Key curve) × (set_pub_key curve key ≡ some k))
unfolding is_to_pub_key
is_to_pub_key-form curve [] key e = ground arith
is_to_pub_key-form curve (a ∷ rest) key e = elim (Bool-cases (short_form a rest)) [
  | inl t ↦
      let (size, ea, ey, first) = short_form-true a rest t in
      let ek : take 33 rest ≡ key = cc (rw (is_to_pub_key, t) at e) in
      let parts : rest ≡ key ++ (0xac ∷ []) =
        rw (sym ey, sym ek) (tail_one 33 rest (omega (arith, size))) in
      let head : at key 0 ≡ at rest 0 = rw (sym ek) (at-take 32 rest) in
      inl (
        rw (sym ek) (length-take 33 rest (omega (arith, size))),
        rw ea (ap (λ r. 33 ∷ r) parts),
        rw head first,
      )
  | inr f ↦ elim (Bool-cases (long_form a rest)) [
    | inr f' ↦ cc (rw (is_to_pub_key, f, f') at e)
    | inl t ↦
        let (size, ea, ey, first) = long_form-true a rest t in
        elim (Option-cases (set_pub_key curve (take 65 rest))) [
          | inl bad ↦ cc (rw (is_to_pub_key, f, t, bad) at e)
          | inr (k, good) ↦
              let ek : take 65 rest ≡ key = cc (rw (is_to_pub_key, f, t, good) at e) in
              let parts : rest ≡ key ++ (0xac ∷ []) =
                rw (sym ey, sym ek) (tail_one 65 rest (omega (arith, size))) in
              let head : at key 0 ≡ at rest 0 = rw (sym ek) (at-take 64 rest) in
              inr (
                rw (sym ek) (length-take 65 rest (omega (arith, size))),
                rw ea (ap (λ r. 65 ∷ r) parts),
                head ∙ first,
                k,
                rw (sym ek) good,
              )
        ]
  ]
]
