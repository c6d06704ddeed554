-- ===== src/Prime/Chains.antt =====
-- The chain tests against the numbers of a chain.
use primmonero.Base.{
  ℕ, zero, suc, ◌+◌, ◌-◌, ◌*◌, ◌/◌, ◌%◌, ◌^◌, ◌≤◌, ◌<◌, ◌≡◌, refl, sym, ap, ◌∙◌, bit_and, bit_or,
  Bool, true, false, none, some, ltb, leb, ltb→lt, ◌==◌, if◌then◌else◌, Bool-cases, inl, inr, arith,
  min,
}
use native.Mathlib.Nat.{pow-suc}
use primmonero.Target.{
  fractional_unit, target_length_mask, target_get_length, target_increment_length,
}
use primmonero.Target.Fields.{
  IsU32, length_bits, join_bits, target_get_length_lem, target_increment_length_lem,
  target_from_int_lem,
}
use primmonero.Prime.{
  Lengths, failed_length, next_in_chain, bi_twin_length, meets, fermat_probable_primality_test,
  euler_lagrange_lifchitz_primality_test, passed_test, chain_test, chain_loop,
  probable_cunningham_chain_test, probable_prime_chain_test,
}

-- Number `i` of the chain that begins with `n`.
abbrev pub member : Bool → ℕ → ℕ → ℕ
member true n i = (n + 1) * 2 ^ i - 1
member false n i = (n - 1) * 2 ^ i + 1

member-next :
    (first_kind : Bool) (n i : ℕ)
    → 0 < n
    → member first_kind (next_in_chain first_kind n) i ≡ member first_kind n (suc i)
unfolding next_in_chain
member-next true n i h =
    let p = pow-suc 2 i in
    ap (λ (x : ℕ). x - 1)
      (let e : (n + n + 1 + 1) * 2 ^ i ≡ (n + 1) * (2 ^ i * 2) = omega arith in e ∙ (rw p refl))
member-next false n i h =
    let p = pow-suc 2 i in
    ap (λ (x : ℕ). x + 1)
      (let e : (n + n - 1 - 1) * 2 ^ i ≡ (n - 1) * (2 ^ i * 2) =
          (let d : n + n - 1 - 1 ≡ (n - 1) * 2 = omega arith in rw d (omega arith)) in
        e ∙ (rw p refl))

next-pos : (first_kind : Bool) (n : ℕ) → 0 < n → 0 < next_in_chain first_kind n
unfolding next_in_chain
next-pos true n h = omega arith
next-pos false n h = omega arith

first_member : (first_kind : Bool) (n : ℕ) → 0 < n → n ≡ member first_kind n 0
first_member true n h = omega arith
first_member false n h = omega arith

-- A failed test keeps the length and sets the fraction, or changes nothing.
failed_length_fields :
    (n r len : ℕ)
    → IsU32 len
    → ((failed_length n r len).0 ≡ false)
      × (IsU32 (failed_length n r len).1)
      × (target_get_length (failed_length n r len).1 ≡ target_get_length len)
unfolding failed_length
failed_length_fields n r len h =
    let f : ℕ = (n - r) * fractional_unit / n % 2 ^ 32 in
    elim (Bool-cases (leb fractional_unit f)) [
      | inl large ↦ rw large (refl, h, refl)
      | inr small ↦
          let below : f < fractional_unit = ground (arith, small) in
          let value : bit_or (bit_and len target_length_mask) f
              ≡ len / fractional_unit * fractional_unit + f =
            ap (λ (x : ℕ). bit_or x f) (length_bits len h)
            ∙ join_bits (len / fractional_unit) f below in
          rw (small, value)
            (
              refl,
              omega arith,
              target_get_length_lem _ (omega arith)
                  ∙ (omega arith ∙ sym (target_get_length_lem len h)),
            )
    ]

-- What a test does to the length that it is given.
record Tested (passed : Bool) (len : ℕ) (r : Bool × ℕ) : Type 0 where
  result : r.0 ≡ passed
  kept : passed ≡ true → r.1 ≡ len
  range : IsU32 r.1
  length_field : target_get_length r.1 ≡ target_get_length len

Tested-pass : (len : ℕ) → IsU32 len → Tested true len (true, len)
Tested-pass len h = record { result = refl; kept = λ _. refl; range = h; length_field = refl }

Tested-fail : (n r len : ℕ) → IsU32 len → Tested false len (failed_length n r len)
Tested-fail n r len h =
    let (fails, range, same) = failed_length_fields n r len h in
    record { result = fails; kept = λ e. cc; range = range; length_field = same }

module _ (mod_exp : ℕ → ℕ → ℕ → ℕ) where
  abbrev fermat_passes : ℕ → Bool
  fermat_passes n = mod_exp 2 (n - 1) n == 1

  fermat-Tested :
      (n len : ℕ)
      → IsU32 len
      → Tested (fermat_passes n) len (fermat_probable_primality_test mod_exp n len)
  unfolding fermat_probable_primality_test
  fermat-Tested n len h = elim (Bool-cases (fermat_passes n)) [
    | inl good ↦ rw good (Tested-pass len h)
    | inr bad ↦ rw bad (Tested-fail n _ len h)
  ]

  abbrev euler_passes : Bool → ℕ → Bool
  euler_passes first_kind n = elim (passed_test first_kind n (mod_exp 2 ((n - 1) / 2) n)) [
    | some true ↦ true
    | _ ↦ false
  ]

  euler-Tested :
      (first_kind : Bool) (n len : ℕ)
      → IsU32 len
      → Tested
          (euler_passes first_kind n)
          len
          (euler_lagrange_lifchitz_primality_test mod_exp n first_kind len)
  unfolding euler_lagrange_lifchitz_primality_test
  euler-Tested first_kind n len h =
      let r = mod_exp 2 ((n - 1) / 2) n in
      elim (passed_test first_kind n (mod_exp 2 ((n - 1) / 2) n))
        as (λ p.
          Tested (elim p [ some true ↦ true | _ ↦ false ]) len
            (elim p [
              | none ↦ (false, len)
              | some true ↦ (true, len)
              | some false ↦ failed_length n (r * r % n) len
            ])) [
              | none ↦ record { result = refl; kept = λ e. cc; range = h; length_field = refl }
              | some true ↦ Tested-pass len h
              | some false ↦ Tested-fail n _ len h
            ]

  abbrev test_passes : Bool → Bool → ℕ → Bool
  test_passes first_kind fermat n = if fermat then fermat_passes n else euler_passes first_kind n

  chain-Tested :
      (first_kind fermat : Bool) (n len : ℕ)
      → IsU32 len
      → Tested (test_passes first_kind fermat n) len (chain_test mod_exp first_kind fermat n len)
  unfolding chain_test
  chain-Tested first_kind true n len h = fermat-Tested n len h
  chain-Tested first_kind false n len h = euler-Tested first_kind n len h

  loop_step :
      (fuel : ℕ) (first_kind fermat : Bool) (n len : ℕ)
      → let (passed, len') =
          chain_test mod_exp first_kind fermat
            (next_in_chain first_kind n)
            (target_increment_length len) in
        ((passed ≡ false → chain_loop mod_exp (suc fuel) first_kind fermat n len ≡ some len')
          × (passed ≡ true
              → chain_loop mod_exp (suc fuel) first_kind fermat n len
                ≡ chain_loop mod_exp fuel first_kind fermat (next_in_chain first_kind n) len'))
  unfolding chain_loop chain_test
  loop_step fuel first_kind fermat n len =
      (λ e. rw (chain_loop, e) refl, λ e. rw (chain_loop, e) refl)

  increment_fields :
      (len : ℕ)
      → IsU32 len
      → (IsU32 (target_increment_length len))
        × (target_get_length (target_increment_length len) ≡ (len / fractional_unit + 1) % 256)
  increment_fields len h =
      let value = target_increment_length_lem len in
      (
        omega (arith, value),
        target_get_length_lem (target_increment_length len) (omega (arith, value))
            ∙ omega (arith, value),
      )

  -- The loop from a number `n` of a chain, of which `k` more pass.
  loop_length :
      (k fuel : ℕ) (first_kind fermat : Bool) (n len : ℕ)
      → 0 < n
      → IsU32 len
      → ((i : ℕ) → i < k → test_passes first_kind fermat (member first_kind n (suc i)) ≡ true)
      → test_passes first_kind fermat (member first_kind n (suc k)) ≡ false
      → k < fuel
      → (len' : ℕ) × (chain_loop mod_exp fuel first_kind fermat n len ≡ some len')
        × (IsU32 len')
        × (target_get_length len' ≡ (len / fractional_unit + k + 1) % 256)
  loop_length k zero first_kind fermat n len pos h good bad enough = absurd (omega arith)
  loop_length zero (suc fuel) first_kind fermat n len pos h good bad enough =
      let n' = next_in_chain first_kind n in
      let (up_small, up) = increment_fields len h in
      let t = chain-Tested first_kind fermat n' (target_increment_length len) up_small in
      let same : n' ≡ member first_kind n 1 =
        (first_member first_kind n' (next-pos first_kind n pos)) ∙ member-next first_kind n 0 pos in
      (
        _,
        (loop_step fuel first_kind fermat n len).0
            (t.result ∙ (ap (test_passes first_kind fermat) same ∙ bad)),
        t.range,
        t.length_field ∙ (up ∙ omega arith),
      )
  loop_length (suc k) (suc fuel) first_kind fermat n len pos h good bad enough =
      let n' = next_in_chain first_kind n in
      let (up_small, up) = increment_fields len h in
      let t = chain-Tested first_kind fermat n' (target_increment_length len) up_small in
      let same : n' ≡ member first_kind n 1 =
        (first_member first_kind n' (next-pos first_kind n pos)) ∙ member-next first_kind n 0 pos in
      let passed = ap (test_passes first_kind fermat) same ∙ good 0 (omega arith) in
      let next_len = (chain_test mod_exp first_kind fermat n' (target_increment_length len)).1 in
      let (len', run, range, result) =
        loop_length k fuel first_kind fermat n' next_len (next-pos first_kind n pos) t.range
          (λ i l.
            ap (test_passes first_kind fermat) (member-next first_kind n (suc i) pos)
            ∙ good (suc i) (omega arith))
          (ap (test_passes first_kind fermat) (member-next first_kind n (suc k) pos) ∙ bad)
          (omega arith) in
      (
        len',
        (loop_step fuel first_kind fermat n len).1 (t.result ∙ passed) ∙ run,
        range,
        result ∙ omega (arith, t.length_field, up, target_get_length_lem next_len t.range),
      )

  -- Whether number `i` of a chain passes its test: the first number has the Fermat test.
  abbrev pub passes : Bool → Bool → ℕ → ℕ → Bool
  passes first_kind fermat n zero = (fermat_probable_primality_test mod_exp n 0).0
  passes first_kind fermat n (suc i) =
      (chain_test mod_exp first_kind fermat (member first_kind n (suc i)) 0).0

  passes_lem :
      (first_kind fermat : Bool) (n i : ℕ)
      → passes first_kind fermat n (suc i)
        ≡ test_passes first_kind fermat (member first_kind n (suc i))
  passes_lem first_kind fermat n i =
      (chain-Tested first_kind fermat (member first_kind n (suc i)) 0 (omega arith)).result

  started :
      (fuel n : ℕ) (first_kind fermat : Bool) (len : ℕ)
      → (fermat_probable_primality_test mod_exp n 0).0 ≡ true
      → (fermat_probable_primality_test mod_exp n 0).1 ≡ 0
      → chain_loop mod_exp fuel first_kind fermat n 0 ≡ some len
      → probable_cunningham_chain_test mod_exp fuel n first_kind fermat
        ≡ some (leb 2 (target_get_length len), len)
  unfolding probable_cunningham_chain_test
  started fuel n first_kind fermat len first start run =
      rw (probable_cunningham_chain_test, first, start, run) refl

  -- When the numbers of a chain from a positive `n` on pass their tests up to number `count`, which
  -- fails, and `count` is below 256, the test ends within `count` rounds of its loop: it is positive
  -- from two numbers on, and the length that it reports has `count` in its length field.
  pub probable_cunningham_chain_test_length :
      (fuel count n : ℕ) (first_kind fermat : Bool)
      → 0 < n
      → count < 256
      → count ≤ fuel
      → ((i : ℕ) → i < count → passes first_kind fermat n i ≡ true)
      → passes first_kind fermat n count ≡ false
      → (len : ℕ) × (probable_cunningham_chain_test mod_exp fuel n first_kind fermat
          ≡ some (leb 2 count, len))
        × (IsU32 len)
        × (target_get_length len ≡ count)
  unfolding probable_cunningham_chain_test
  probable_cunningham_chain_test_length fuel zero n first_kind fermat pos small enough good bad =
      let t = fermat-Tested n 0 (omega arith) in
      let fails : (fermat_probable_primality_test mod_exp n 0).0 ≡ false = bad in
      (
        _,
        rw (probable_cunningham_chain_test, fails) refl,
        t.range,
        t.length_field ∙ target_get_length_lem 0 (omega arith) ∙ omega arith,
      )
  probable_cunningham_chain_test_length fuel (suc k) n first_kind fermat pos small enough good bad =
      let t = fermat-Tested n 0 (omega arith) in
      let first : (fermat_probable_primality_test mod_exp n 0).0 ≡ true = good 0 (omega arith) in
      let start : (fermat_probable_primality_test mod_exp n 0).1 ≡ 0 =
        t.kept (sym t.result ∙ first) in
      let (len, run, range, length) =
        loop_length k fuel first_kind fermat n 0 pos (omega arith)
          (λ i l. sym (passes_lem first_kind fermat n i) ∙ good (suc i) (omega arith))
          (sym (passes_lem first_kind fermat n k) ∙ bad) (omega arith) in
      let value : target_get_length len ≡ suc k = length ∙ omega arith in
      (
        len,
        started fuel n first_kind fermat len first start run
            ∙ ap (λ (c : ℕ). some (leb 2 c, len)) value,
        range,
        value,
      )

-- The length of the BiTwin chain of two lengths.
bi_twin_length_field :
    (first second c d : ℕ)
    → IsU32 first
    → IsU32 second
    → target_get_length first ≡ c
    → target_get_length second ≡ d
    → c < 128
    → d < 128
    → target_get_length (bi_twin_length first second) ≡ min (2 * c) (2 * d + 1)
unfolding bi_twin_length
bi_twin_length_field first second c d hf hs is_c is_d sc sd =
    let a : target_get_length first ≡ first / fractional_unit = target_get_length_lem first hf in
    let b : target_get_length second ≡ second / fractional_unit = target_get_length_lem second hs in
    elim (Bool-cases (ltb (target_get_length second) (target_get_length first))) [
      | inl longer ↦ rw longer (
          target_get_length_lem _ (omega arith)
          ∙ omega (
            arith,
            a,
            b,
            target_from_int_lem (target_get_length second + 1),
            ltb→lt (target_get_length second) (target_get_length first) longer,
          ))
      | inr shorter ↦
          let le : target_get_length first ≤ target_get_length second = ground (arith, shorter) in
          rw shorter (
            target_get_length_lem _ (omega arith)
            ∙ omega (arith, a, b, target_from_int_lem (target_get_length first)))
    ]

module _ (mod_exp : ℕ → ℕ → ℕ → ℕ) where
  both_run :
      (fuel origin bits : ℕ) (fermat : Bool) (p q : Bool) (a b : ℕ)
      → probable_cunningham_chain_test mod_exp fuel (origin - 1) true fermat ≡ some (p, a)
      → probable_cunningham_chain_test mod_exp fuel (origin + 1) false fermat ≡ some (q, b)
      → (let l : Lengths = record { first = a; second = b; twin = bi_twin_length a b } in
          probable_prime_chain_test mod_exp fuel origin bits fermat ≡ some (meets bits l, l))
  unfolding probable_prime_chain_test
  both_run fuel origin bits fermat p q a b run_a run_b =
      rw (probable_prime_chain_test, run_a, run_b) refl

  -- When the chain of the first kind from `origin - 1` has `first` numbers that pass, and that of
  -- the second kind from `origin + 1` has `second`, both below 128, the test ends within as many
  -- rounds and reports these lengths, and for the BiTwin chain the smaller of twice `first` and
  -- twice `second` plus one; its result is whether one of the three reaches the bits.
  pub probable_prime_chain_test_lengths :
      (fuel first second origin bits : ℕ) (fermat : Bool)
      → 1 < origin
      → first < 128
      → second < 128
      → first ≤ fuel
      → second ≤ fuel
      → ((i : ℕ) → i < first → passes mod_exp true fermat (origin - 1) i ≡ true)
      → passes mod_exp true fermat (origin - 1) first ≡ false
      → ((i : ℕ) → i < second → passes mod_exp false fermat (origin + 1) i ≡ true)
      → passes mod_exp false fermat (origin + 1) second ≡ false
      → (l : Lengths) × (probable_prime_chain_test mod_exp fuel origin bits fermat
          ≡ some (meets bits l, l))
        × (target_get_length l.first ≡ first)
        × (target_get_length l.second ≡ second)
        × (target_get_length l.twin ≡ min (2 * first) (2 * second + 1))
  probable_prime_chain_test_lengths fuel first second origin bits fermat h small1 small2 enough1
        enough2 good1 bad1 good2 bad2 =
      let (a, run_a, range_a, is_a) =
        probable_cunningham_chain_test_length mod_exp fuel first (origin - 1) true fermat
          (omega arith) (omega arith) enough1 good1 bad1 in
      let (b, run_b, range_b, is_b) =
        probable_cunningham_chain_test_length mod_exp fuel second (origin + 1) false fermat
          (omega arith) (omega arith) enough2 good2 bad2 in
      (
        record { first = a; second = b; twin = bi_twin_length a b },
        both_run fuel origin bits fermat (leb 2 first) (leb 2 second) a b run_a run_b,
        is_a,
        is_b,
        bi_twin_length_field a b first second range_a range_b is_a is_b small1 small2,
      )
