-- ===== src/Coins/Format/RoundTrip.antt =====
-- An entry of the coin database is read back as it was written.
use primmonero.Base.{
  ℕ, zero, suc, ◌+◌, ◌-◌, ◌*◌, ◌/◌, ◌%◌, ◌^◌, bit_and, ◌≤◌, ◌<◌, ◌≡◌, refl, sym, ap, ◌∙◌, Bool,
  true, false, not, ◌||◌, inl, inr, some, List, [], ◌∷◌, ◌++◌, append_assoc, ltb, ◌==◌,
  if◌then◌else◌, length, take, drop, All, Bool-cases, arith,
}
use mathlib.Core.Path.{subst}
use primmonero.Base.Int.{ℤ, pos}
use primmonero.Base.Bits.{bit_and_fields, bit_and-zero}
use primmonero.Serialize.{ok, write_var_int, read_var_int}
use primmonero.Serialize.VarInt.{read_var_int-write_var_int}
use primmonero.Script.Compressor.{Curve}
use primmonero.Script.Compressor.RoundTrip.{IsPointCodec}
use primmonero.Coins.{TxOut, Coins, all_null, cleanup, is_pruned}
use primmonero.Coins.Cleanup.{trim, vout-cleanup}
use primmonero.Coins.Format.{
  Bytes, write_int, read_int, calc_mask_size, write_mask, read_mask, first, second, header_code,
  serialize_outs, unserialize_outs, serialize_coins, unserialize_coins,
}
use primmonero.Coins.Format.Undo.{read_int-write_int}
use primmonero.Coins.Format.Mask.{bits_of, nonzero, IsTight, blocks, behind, read_mask-write_mask}
use primmonero.Coins.Format.Size.{
  length-drop, all_null-take-drop, calc_mask_size_lem, nonzero-bound,
}
use primmonero.Coins.Format.Outputs.{
  IsOutput, Covers, Covers-bits_of, Covers-blocks, unserialize_outs_lem,
}

-- The low three bits of the header code.
low_bits : (n k m : ℕ) → k < 8 → m < 8 → bit_and (8 * n + k) m ≡ bit_and k m
low_bits n k m hk hm =
    let left : n * 2 ^ 3 + k ≡ 8 * n + k = omega arith in
    let right : 0 * 2 ^ 3 + m ≡ m = omega arith in
    rw (sym left) (
      subst (λ z. bit_and (n * 2 ^ 3 + k) z ≡ bit_and k m) right
        (omega (arith, bit_and_fields 3 n 0 k m hk hm, bit_and-zero n)))

-- A header code is read back.
abbrev IsHeader : Bool → Bool → Bool → ℕ → ℕ → Type 0
IsHeader coin_base f s mask_code code =
    (not (bit_and code 1 == 0) ≡ coin_base)
    × (not (bit_and code 2 == 0) ≡ f)
    × (not (bit_and code 4 == 0) ≡ s)
    × (code / 8 + (if bit_and code 6 == 0 then 1 else 0) ≡ mask_code)
    × (code ≤ 8 * mask_code + 7)

IsHeader-low :
    (n k mask_code : ℕ) (coin_base f s : Bool)
    → k < 8
    → not (bit_and k 1 == 0) ≡ coin_base
    → not (bit_and k 2 == 0) ≡ f
    → not (bit_and k 4 == 0) ≡ s
    → n + (if bit_and k 6 == 0 then 1 else 0) ≡ mask_code
    → IsHeader coin_base f s mask_code (8 * n + k)
IsHeader-low n k mask_code coin_base f s hk e1 e2 e4 e8 =
    let grows : n ≤ mask_code = ground (arith, e8) in
    let whole : (8 * n + k) / 8 ≡ n = omega (arith, hk) in
    (
      rw (low_bits n k 1 hk (omega arith)) e1,
      rw (low_bits n k 2 hk (omega arith)) e2,
      rw (low_bits n k 4 hk (omega arith)) e4,
      rw (low_bits n k 6 hk (omega arith), whole) e8,
      omega (arith, grows, hk),
    )

header_code_lem :
    (coin_base f s : Bool) (mask_code : ℕ)
    → (f || s || ltb 0 mask_code) ≡ true
    → IsHeader coin_base f s mask_code (header_code coin_base f s mask_code)
header_code_lem true true true n h =
    subst (IsHeader true true true n) (omega arith)
      (IsHeader-low n 7 n true true true (omega arith) refl refl refl (omega arith))
header_code_lem true true false n h =
    subst (IsHeader true true false n) (omega arith)
      (IsHeader-low n 3 n true true false (omega arith) refl refl refl (omega arith))
header_code_lem true false true n h =
    subst (IsHeader true false true n) (omega arith)
      (IsHeader-low n 5 n true false true (omega arith) refl refl refl (omega arith))
header_code_lem true false false n h =
    let some_byte : 0 < n = ground (arith, h) in
    subst (IsHeader true false false n) (omega arith) (
      IsHeader-low (n - 1) 1 n true false false (omega arith) refl refl refl
        (omega (arith, some_byte)))
header_code_lem false true true n h =
    subst (IsHeader false true true n) (omega arith)
      (IsHeader-low n 6 n false true true (omega arith) refl refl refl (omega arith))
header_code_lem false true false n h =
    subst (IsHeader false true false n) (omega arith)
      (IsHeader-low n 2 n false true false (omega arith) refl refl refl (omega arith))
header_code_lem false false true n h =
    subst (IsHeader false false true n) (omega arith)
      (IsHeader-low n 4 n false false true (omega arith) refl refl refl (omega arith))
header_code_lem false false false n h =
    let some_byte : 0 < n = ground (arith, h) in
    subst (IsHeader false false false n) (omega arith) (
      IsHeader-low (n - 1) 0 n false false false (omega arith) refl refl refl
        (omega (arith, some_byte)))

tight_empty : (size : ℕ) (os : List TxOut) → IsTight size os → nonzero size os ≡ 0 → size ≡ 0
unfolding IsTight
tight_empty zero os tight h = refl
tight_empty (suc size) os tight h = absurd (omega (arith, tight.0, h))

first_two :
    (vout : List TxOut) → first vout ≡ false → second vout ≡ false → all_null (take 2 vout) ≡ true
unfolding all_null
first_two [] f s = refl
first_two (x ∷ []) f s = ground (arith, f)
first_two (x ∷ y ∷ vout) f s = ground (arith, f, s)

-- An entry that has an output left passes the assertion.
some_left :
    (vout : List TxOut)
    → all_null vout ≡ false
    → (first vout || second vout || ltb 0 (calc_mask_size vout).1) ≡ true
unfolding behind
some_left vout e =
    let (tight, null, counted) = calc_mask_size_lem vout in
    elim (Bool-cases (first vout)) [
      | inl f ↦ rw f refl
      | inr f ↦ elim (Bool-cases (second vout)) [
        | inl s ↦ rw (f, s) refl
        | inr s ↦ elim (Bool-cases (ltb 0 (calc_mask_size vout).1)) [
          | inl m ↦ rw (f, s, m) refl
          | inr m ↦
              let no_byte : (calc_mask_size vout).0 ≡ 0 =
                tight_empty _ _ tight (ground (arith, m, counted)) in
              let rest : all_null (drop 2 vout) ≡ true =
                subst (λ n. all_null (behind n (drop 2 vout)) ≡ true) no_byte null in
              cc (all_null-take-drop 2 vout (first_two vout f s) rest, e)
        ]
      ]
    ]

two_bits :
    (vout : List TxOut) (bits : List Bool)
    → bits_of 2 vout ++ bits ≡ first vout ∷ second vout ∷ bits
unfolding bits_of
two_bits [] bits = refl
two_bits (x ∷ []) bits = refl
two_bits (x ∷ y ∷ vout) bits = refl

outputs_covered :
    (vout : List TxOut)
    → Covers (first vout ∷ second vout ∷ blocks (calc_mask_size vout).0 (drop 2 vout)) vout
outputs_covered vout =
    let (tight, null, counted) = calc_mask_size_lem vout in
    subst (λ bits. Covers bits vout) (two_bits vout _)
      (Covers-bits_of 2 vout _ (Covers-blocks (calc_mask_size vout).0 (drop 2 vout) null))

cleanup-trim :
    (c d : Coins)
    → trim c.vout ≡ trim d.vout
    → c.coin_base ≡ d.coin_base
    → c.height ≡ d.height
    → c.version ≡ d.version
    → cleanup c ≡ cleanup d
unfolding cleanup
cleanup-trim c d same b h v =
    let vouts = vout-cleanup c ∙ (same ∙ sym (vout-cleanup d)) in
    λ i. record { coin_base = b i; vout = vouts i; height = h i; version = v i }

five :
    (a b c d e rest : Bytes)
    → (a ++ (b ++ (c ++ (d ++ e)))) ++ rest ≡ a ++ (b ++ (c ++ (d ++ (e ++ rest))))
five a b c d e rest =
    rw
      (
        append_assoc a (b ++ (c ++ (d ++ e))) rest,
        append_assoc b (c ++ (d ++ e)) rest,
        append_assoc c (d ++ e) rest,
        append_assoc d e rest,
      )
      refl

module _ (curve : Curve) (law : IsPointCodec curve) where
  -- The reads one after another.
  read_coins :
      (cb f s : Bool) (mask_code code h : ℕ) (v : ℤ) (mask : List Bool) (read : List TxOut)
      (r0 r1 r2 r3 r4 r5 : Bytes)
      → IsHeader cb f s mask_code code
      → read_int r0 ≡ ok (v, r1)
      → read_var_int 32 r1 ≡ ok (code, r2)
      → read_mask mask_code r2 ≡ ok (mask, r3)
      → unserialize_outs curve (f ∷ s ∷ mask) r3 ≡ ok (read, r4)
      → read_var_int 32 r4 ≡ ok (h, r5)
      → unserialize_coins curve r0
        ≡ ok (cleanup (record { coin_base = cb; vout = read; height = h; version = v }), r5)
  unfolding unserialize_coins
  read_coins cb f s mask_code code h v mask read r0 r1 r2 r3 r4 r5 (e1, e2, e4, e8, _) q0 q1 q2 q3
        q4 =
      rw (unserialize_coins, q0) (rw q1 (rw (e8, q2) (rw (e2, e4, q3) (rw q4 (rw e1 refl)))))

  -- The writes one after another.
  write_coins :
      (c : Coins) (version : ℕ) (ver head outs hgt : Bytes)
      → (first c.vout || second c.vout || ltb 0 (calc_mask_size c.vout).1) ≡ true
      → c.version ≡ pos version
      → write_int (pos version) ≡ some ver
      → write_var_int 32 (
          header_code c.coin_base (first c.vout) (second c.vout) (calc_mask_size c.vout).1 % 2 ^ 32)
        ≡ some head
      → serialize_outs curve c.vout ≡ some outs
      → write_var_int 32 c.height ≡ some hgt
      → serialize_coins curve c
        ≡ some (
            ver
            ++ (head ++ (write_mask (calc_mask_size c.vout).0 (drop 2 c.vout) ++ (outs ++ hgt))))
  unfolding serialize_coins write_int
  write_coins c version ver head outs hgt passes same v h o g =
      rw (serialize_coins, passes, same, v, h, o, g) refl

  -- With a curve whose octets are those of its points: an entry that is not pruned, of fewer than
  -- 2 ^ 28 outputs, each null or with an amount up to a tenth of 2 ^ 64 and a script within its
  -- sizes, with a height below 2 ^ 31 and a version that is not negative, is written without a
  -- failed assertion, and read back cleaned up, whatever follows.
  pub unserialize_coins-serialize_coins :
      (c : Coins) (rest : Bytes) (version : ℕ)
      → is_pruned c ≡ false
      → All IsOutput c.vout
      → length c.vout < 2 ^ 28
      → c.height < 2 ^ 31
      → c.version ≡ pos version
      → version < 2 ^ 31
      → (bytes : Bytes) × (serialize_coins curve c ≡ some bytes)
        × (unserialize_coins curve (bytes ++ rest) ≡ ok (cleanup c, rest))
  unfolding is_pruned write_int
  unserialize_coins-serialize_coins c rest version left stored few high same small =
      let size = (calc_mask_size c.vout).0 in
      let mask_code = (calc_mask_size c.vout).1 in
      let mask = write_mask size (drop 2 c.vout) in
      let (tight, null, counted) = calc_mask_size_lem c.vout in
      let passes = some_left c.vout left in
      let header = header_code_lem c.coin_base (first c.vout) (second c.vout) mask_code passes in
      let code = header_code c.coin_base (first c.vout) (second c.vout) mask_code in
      let fits : code < 2 ^ 32 =
        omega (
          arith,
          header.4,
          counted,
          nonzero-bound size (drop 2 c.vout),
          length-drop 2 c.vout,
          few,
        ) in
      let wraps : code % 2 ^ 32 ≡ code = omega (arith, fits) in
      let (hgt, made_h, back_h, _) =
        read_var_int-write_var_int 32 c.height rest (omega arith) (omega (arith, high)) in
      let (outs, read, made_o, back_o, trimmed) =
        unserialize_outs_lem curve law _ c.vout (hgt ++ rest) stored (outputs_covered c.vout) in
      let back_m =
        subst
          (λ n.
            read_mask n (mask ++ (outs ++ (hgt ++ rest)))
            ≡ ok (blocks size (drop 2 c.vout), outs ++ (hgt ++ rest)))
          (sym counted) (read_mask-write_mask size (drop 2 c.vout) (outs ++ (hgt ++ rest)) tight) in
      let (head, made_c, back_c, _) =
        read_var_int-write_var_int 32 code (mask ++ (outs ++ (hgt ++ rest))) (omega arith) fits in
      let (ver, made_v, back_v) =
        read_int-write_int version (head ++ (mask ++ (outs ++ (hgt ++ rest)))) small in
      (
        ver ++ (head ++ (mask ++ (outs ++ hgt))),
        write_coins c version ver head outs hgt passes same made_v
            (ap (write_var_int 32) wraps ∙ made_c) made_o made_h,
        ap (unserialize_coins curve) (five ver head mask outs hgt rest)
            ∙ (read_coins c.coin_base (first c.vout) (second c.vout) mask_code code c.height
                  (pos version) _ read _ _ _ _ _ rest header back_v back_c back_m back_o back_h
                ∙ ap (λ x. ok (x, rest)) (cleanup-trim _ c trimmed refl refl (sym same))),
      )
