-- ===== src/Prime/Accepted.antt =====
-- What the acceptance of a proof of work shows.
use primmonero.Base.{
  Pair_path, ℕ, ◌+◌, ◌/◌, ◌%◌, ◌≤◌, ◌<◌, ◌≡◌, ◌≢◌, refl, sym, ap, ◌∙◌, Bool, true, false, not, ◌&&◌,
  ◌||◌, some, ltb, ◌==◌, Bool-cases, Option-cases, >>=-eq-some, ◌-◌, inl, inr, arith,
}
use mathlib.Core.Path.{subst}
use primmonero.Base.Int.{ℤ, pos, negsuc, ◌*ℤ◌, ltb_ℤ, pos_part}
use primmonero.Target.{target_get_length}
use primmonero.Prime.{
  ChainType, cunningham1, cunningham2, bi_twin, Lengths, accepted, rejected, length_assert,
  header_limit, prime_min, prime_max, bi_twin_length, meets, select_longest,
  probable_cunningham_chain_test, probable_prime_chain_test, check_normalized, check_chains,
  check_prime_proof_of_work,
}

-- The length of a chain of a type.
abbrev pub length_of : Lengths → ChainType → ℕ
length_of l cunningham1 = l.first
length_of l cunningham2 = l.second
length_of l bi_twin = l.twin

-- A chain type and a length that are those of a longest chain.
record Longest (l : Lengths) (s : ChainType × ℕ) : Type 0 where
  chosen : s.1 ≡ length_of l s.0
  over_first : l.first ≤ s.1
  over_second : l.second ≤ s.1
  over_twin : l.twin ≤ s.1

select_longest_lem : (l : Lengths) → Longest l (select_longest l)
unfolding select_longest
select_longest_lem l = elim (Bool-cases (ltb l.first l.second)) [
  | inl second ↦ elim (Bool-cases (ltb l.second l.twin)) [
    | inl twin ↦
        rw (second, twin)
          (record {
            chosen = refl;
            over_first = ground (arith, second, twin);
            over_second = ground (arith, second, twin);
            over_twin = ground arith;
          })
    | inr twin ↦
        rw (second, twin)
          (record {
            chosen = refl;
            over_first = ground (arith, second, twin);
            over_second = ground arith;
            over_twin = ground (arith, second, twin);
          })
  ]
  | inr second ↦ elim (Bool-cases (ltb l.first l.twin)) [
    | inl twin ↦
        rw (second, twin)
          (record {
            chosen = refl;
            over_first = ground (arith, second, twin);
            over_second = ground (arith, second, twin);
            over_twin = ground arith;
          })
    | inr twin ↦
        rw (second, twin)
          (record {
            chosen = refl;
            over_first = ground arith;
            over_second = ground (arith, second, twin);
            over_twin = ground (arith, second, twin);
          })
  ]
]

meets-Longest :
    (bits : ℕ) (l : Lengths) (s : ChainType × ℕ) → Longest l s → meets bits l ≡ true → bits ≤ s.1
unfolding meets
meets-Longest bits l s best m = ground (arith, m, best.over_first, best.over_second, best.over_twin)

module _ (mod_exp : ℕ → ℕ → ℕ → ℕ) where
  normalized_accepted :
      (fuel bits : ℕ) (multiplier : ℤ) (origin : ℕ) (l : Lengths) (kind : ChainType) (len : ℕ)
      → check_normalized mod_exp fuel bits multiplier origin l ≡ accepted kind len
      → select_longest l ≡ (kind, len)
  unfolding check_normalized
  normalized_accepted fuel bits multiplier origin l kind len e =
      elim (Bool-cases (pos_part multiplier % 2 == 0 && origin % 4 == 0)) [
        | inr odd ↦ outcome (rw odd at e)
        | inl even ↦
            elim (Option-cases (probable_prime_chain_test mod_exp fuel (origin / 2) bits false)) [
              | inl lost ↦ cc (rw (even, lost) at e)
              | inr ((met, x), run) ↦
                  elim (Bool-cases (
                    met
                    && (ltb (select_longest l).1 x.first
                        || ltb (select_longest l).1 x.second
                        || ltb (select_longest l).1 x.twin))) [
                          | inl longer ↦ cc (rw (even, run, longer) at e)
                          | inr best ↦ outcome (rw (even, run, best) at e)
                        ]
            ]
      ]
    where
      outcome :
          accepted (select_longest l).0 (select_longest l).1 ≡ accepted kind len
          → select_longest l ≡ (kind, len)
      outcome same = Pair_path (cc) (cc)

  Lengths_path : (l f : Lengths) → l.first ≡ f.first → l.second ≡ f.second → l.twin ≡ f.twin → f ≡ l
  Lengths_path l f p q r = λ i. record { first = sym p i; second = sym q i; twin = sym r i }

  chains_accepted :
      (fuel bits : ℕ) (multiplier : ℤ) (origin : ℕ) (kind : ChainType) (len : ℕ)
      → check_chains mod_exp fuel bits multiplier origin ≡ accepted kind len
      → (l : Lengths) × (probable_prime_chain_test mod_exp fuel origin bits false ≡ some (true, l))
        × (probable_prime_chain_test mod_exp fuel origin bits true ≡ some (true, l))
        × (select_longest l ≡ (kind, len))
  unfolding check_chains
  chains_accepted fuel bits multiplier origin kind len e =
      elim (Option-cases (probable_prime_chain_test mod_exp fuel origin bits false)) [
        | inl lost ↦ cc (rw (check_chains, lost) at e)
        | inr ((false, l), run) ↦ cc (rw (check_chains, run) at e)
        | inr ((true, l), run) ↦
            elim (Bool-cases (ltb l.first bits && ltb l.second bits && ltb l.twin bits)) [
              | inl low ↦ cc (rw (check_chains, run, low) at e)
              | inr high ↦
                  elim (Option-cases (probable_prime_chain_test mod_exp fuel origin bits true)) [
                    | inl lost ↦ cc (rw (check_chains, run, high, lost) at e)
                    | inr ((false, f), run2) ↦ cc (rw (check_chains, run, high, run2) at e)
                    | inr ((true, f), run2) ↦
                        elim (Bool-cases (
                          not (l.first == f.first)
                          || not (l.second == f.second)
                          || not (l.twin == f.twin))) [
                            | inl other ↦ cc (rw (check_chains, run, high, run2, other) at e)
                            | inr same ↦ (
                              l,
                              run,
                              run2
                                  ∙ ap (λ (x : Lengths). some (true, x))
                                      (Lengths_path l f (ground (arith, same))
                                        (ground (arith, same)) (ground (arith, same))),
                              normalized_accepted fuel bits multiplier origin l kind len
                                  (rw (check_chains, run, high, run2, same) at e),
                            )
                          ]
                  ]
            ]
      ]

  test_meets :
      (fuel bits origin : ℕ) (fermat m : Bool) (l : Lengths)
      → probable_prime_chain_test mod_exp fuel origin bits fermat ≡ some (m, l)
      → m ≡ meets bits l
  unfolding probable_prime_chain_test
  test_meets fuel bits origin fermat m l e =
      let ((p, first), _, e2) =
        >>=-eq-some (probable_cunningham_chain_test mod_exp fuel (origin - 1) true fermat) _ e in
      let ((q, second), _, e3) =
        >>=-eq-some (probable_cunningham_chain_test mod_exp fuel (origin + 1) false fermat) _ e2 in
      let found : Lengths = record {
        first = first;
        second = second;
        twin = bi_twin_length first second;
      } in
      let same_m : meets bits found ≡ m = cc in
      let same_l : found ≡ l = cc in sym same_m ∙ ap (meets bits) same_l

  bound_tests :
      (origin : ℤ) (low high : ℕ)
      → 0 < low
      → ltb_ℤ origin (pos low) ≡ false
      → ltb_ℤ (pos high) origin ≡ false
      → (origin ≡ pos (pos_part origin)) × (low ≤ pos_part origin) × (pos_part origin ≤ high)
  bound_tests (pos n) low high some_low a b = (refl, ground (arith, a), ground (arith, b))
  bound_tests (negsuc n) low high some_low a b = absurd (ground (arith, a))

  prime_min-pos : 0 < prime_min
  unfolding prime_min
  prime_min-pos = omega arith

  -- What an accepted proof of work has: the target is in range, the header hash is not under its
  -- limit, the multiplier times the hash is a chain's origin within the limits, the three lengths
  -- are found by the tests of both kinds, and the type and length that are returned are those of a
  -- longest of the three chains, which is not below the bits.
  pub check_prime_proof_of_work-accepted :
      (fuel min_length hash bits : ℕ) (multiplier : ℤ) (kind : ChainType) (len : ℕ)
      → check_prime_proof_of_work mod_exp fuel min_length hash bits multiplier ≡ accepted kind len
      → (min_length ≤ target_get_length bits)
        × (target_get_length bits ≤ 99)
        × (header_limit ≤ hash)
        × (origin : ℕ) × (pos hash *ℤ multiplier ≡ pos origin)
        × (prime_min ≤ origin)
        × (origin ≤ prime_max)
        × (l : Lengths) × (probable_prime_chain_test mod_exp fuel origin bits false
            ≡ some (true, l))
        × (probable_prime_chain_test mod_exp fuel origin bits true ≡ some (true, l))
        × (len ≡ length_of l kind)
        × (bits ≤ len)
        × (l.first ≤ len)
        × (l.second ≤ len)
        × (l.twin ≤ len)
  unfolding check_prime_proof_of_work
  check_prime_proof_of_work-accepted fuel min_length hash bits multiplier kind len e =
      elim (Bool-cases
        (ltb (target_get_length bits) min_length || ltb 99 (target_get_length bits))) [
          | inl outside ↦ cc (rw (check_prime_proof_of_work, outside) at e)
          | inr inside ↦ elim (Bool-cases (ltb hash header_limit)) [
            | inl under ↦ cc (rw (check_prime_proof_of_work, inside, under) at e)
            | inr over ↦ elim (Bool-cases (ltb_ℤ (pos hash *ℤ multiplier) (pos prime_min))) [
              | inl small ↦ cc (rw (check_prime_proof_of_work, inside, over, small) at e)
              | inr low ↦ elim (Bool-cases (ltb_ℤ (pos prime_max) (pos hash *ℤ multiplier))) [
                | inl big ↦ cc (rw (check_prime_proof_of_work, inside, over, low, big) at e)
                | inr high ↦
                    let (whole, above, below) =
                      bound_tests (pos hash *ℤ multiplier) prime_min prime_max prime_min-pos low
                        high in
                    let (l, run, run_fermat, s) =
                      chains_accepted fuel bits multiplier (pos_part (pos hash *ℤ multiplier)) kind
                        len (rw (check_prime_proof_of_work, inside, over, low, high) at e) in
                    let best = subst (λ x. Longest l x) s (select_longest_lem l) in
                    (
                      ground (arith, inside),
                      ground (arith, inside),
                      ground (arith, over),
                      pos_part (pos hash *ℤ multiplier),
                      whole,
                      above,
                      below,
                      l,
                      run,
                      run_fermat,
                      best.chosen,
                      meets-Longest bits l (kind, len) best
                          (sym (
                            test_meets fuel bits (pos_part (pos hash *ℤ multiplier)) false true l
                              run)),
                      best.over_first,
                      best.over_second,
                      best.over_twin,
                    )
              ]
            ]
          ]
        ]

  normalized_reason :
      (fuel bits : ℕ) (multiplier : ℤ) (origin : ℕ) (l : Lengths)
      → check_normalized mod_exp fuel bits multiplier origin l ≢ rejected length_assert
  unfolding check_normalized
  normalized_reason fuel bits multiplier origin l e =
      elim (Bool-cases (pos_part multiplier % 2 == 0 && origin % 4 == 0)) [
        | inr odd ↦ cc (rw odd at e)
        | inl even ↦
            elim (Option-cases (probable_prime_chain_test mod_exp fuel (origin / 2) bits false)) [
              | inl lost ↦ cc (rw (even, lost) at e)
              | inr ((met, x), run) ↦
                  elim (Bool-cases (
                    met
                    && (ltb (select_longest l).1 x.first
                        || ltb (select_longest l).1 x.second
                        || ltb (select_longest l).1 x.twin))) [
                          | inl longer ↦ cc (rw (even, run, longer) at e)
                          | inr best ↦ cc (rw (even, run, best) at e)
                        ]
            ]
      ]

  chains_reason :
      (fuel bits : ℕ) (multiplier : ℤ) (origin : ℕ)
      → check_chains mod_exp fuel bits multiplier origin ≢ rejected length_assert
  unfolding check_chains meets
  chains_reason fuel bits multiplier origin e =
      elim (Option-cases (probable_prime_chain_test mod_exp fuel origin bits false)) [
        | inl lost ↦ cc (rw (check_chains, lost) at e)
        | inr ((false, l), run) ↦ cc (rw (check_chains, run) at e)
        | inr ((true, l), run) ↦
            elim (Bool-cases (ltb l.first bits && ltb l.second bits && ltb l.twin bits)) [
              | inl low ↦
                  (let m = test_meets fuel bits origin false true l run in ground (arith, low, m))
              | inr high ↦
                  elim (Option-cases (probable_prime_chain_test mod_exp fuel origin bits true)) [
                    | inl lost ↦ cc (rw (check_chains, run, high, lost) at e)
                    | inr ((false, f), run2) ↦ cc (rw (check_chains, run, high, run2) at e)
                    | inr ((true, f), run2) ↦
                        elim (Bool-cases (
                          not (l.first == f.first)
                          || not (l.second == f.second)
                          || not (l.twin == f.twin))) [
                            | inl other ↦ cc (rw (check_chains, run, high, run2, other) at e)
                            | inr same ↦
                                normalized_reason fuel bits multiplier origin l
                                  (rw (check_chains, run, high, run2, same) at e)
                          ]
                  ]
            ]
      ]

  -- The check of the three lengths against the bits after a passed chain test never fires.
  pub check_prime_proof_of_work-length_assert :
      (fuel min_length hash bits : ℕ) (multiplier : ℤ)
      → check_prime_proof_of_work mod_exp fuel min_length hash bits multiplier
        ≢ rejected length_assert
  unfolding check_prime_proof_of_work
  check_prime_proof_of_work-length_assert fuel min_length hash bits multiplier e =
      elim (Bool-cases
        (ltb (target_get_length bits) min_length || ltb 99 (target_get_length bits))) [
          | inl outside ↦ cc (rw (check_prime_proof_of_work, outside) at e)
          | inr inside ↦ elim (Bool-cases (ltb hash header_limit)) [
            | inl under ↦ cc (rw (check_prime_proof_of_work, inside, under) at e)
            | inr over ↦ elim (Bool-cases (ltb_ℤ (pos hash *ℤ multiplier) (pos prime_min))) [
              | inl small ↦ cc (rw (check_prime_proof_of_work, inside, over, small) at e)
              | inr low ↦ elim (Bool-cases (ltb_ℤ (pos prime_max) (pos hash *ℤ multiplier))) [
                | inl big ↦ cc (rw (check_prime_proof_of_work, inside, over, low, big) at e)
                | inr high ↦
                    chains_reason fuel bits multiplier (pos_part (pos hash *ℤ multiplier))
                      (rw (check_prime_proof_of_work, inside, over, low, high) at e)
              ]
            ]
          ]
        ]
