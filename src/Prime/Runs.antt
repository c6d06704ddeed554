-- ===== src/Prime/Runs.antt =====
-- Runs of the prime chain tests, with modular powers by repeated squaring.
use primmonero.Base.{
  ℕ, zero, suc, ◌+◌, ◌*◌, ◌/◌, ◌%◌, ◌^◌, ◌≤◌, ◌<◌, ◌≡◌, refl, true, false, some, ◌==◌,
  if◌then◌else◌, arith,
}
use primmonero.Base.Int.{pos, ◌*ℤ◌}
use primmonero.Target.{fractional_unit, target_get_length, target_from_int, target_increment_length}
use primmonero.Prime.{
  bi_twin, Lengths, accepted, rejected, prime_too_small, header_limit, prime_min, prime_max,
  failed_length, passed_test, next_in_chain, bi_twin_length, meets, select_longest,
  fermat_probable_primality_test, euler_lagrange_lifchitz_primality_test, chain_test, chain_loop,
  probable_cunningham_chain_test, probable_prime_chain_test, check_normalized, check_chains,
  check_prime_proof_of_work,
}
use primmonero.Prime.Chains.{
  passes, probable_cunningham_chain_test_length, probable_prime_chain_test_lengths,
}
use primmonero.Prime.Accepted.{length_of, check_prime_proof_of_work-accepted}

-- The power of `base` to an exponent of at most `width` bits, times `done`, modulo `modulus`.
power_loop : ℕ → ℕ → ℕ → ℕ → ℕ → ℕ
power_loop zero done base exponent modulus = done % modulus
power_loop (suc width) done base exponent modulus =
    power_loop width (if exponent % 2 == 1 then done * base % modulus else done)
      (base * base % modulus) (exponent / 2) modulus

abbrev mod_power : ℕ → ℕ → ℕ → ℕ
mod_power base exponent modulus = power_loop 264 1 base exponent modulus

abbrev big_hash : ℕ
big_hash = 2 ^ 255 + 1270

-- The BiTwin chain of length 2 around the hash, at a target of 2.
accepts :
    check_prime_proof_of_work mod_power 4 2 big_hash (2 * fractional_unit) (pos 1)
    ≡ accepted bi_twin 37531008
unfolding power_loop check_prime_proof_of_work check_chains check_normalized
    probable_prime_chain_test probable_cunningham_chain_test chain_loop chain_test
    fermat_probable_primality_test euler_lagrange_lifchitz_primality_test passed_test failed_length
    next_in_chain bi_twin_length meets select_longest header_limit prime_min prime_max
    target_get_length target_from_int target_increment_length ◌*ℤ◌
accepts = refl

rejects :
    check_prime_proof_of_work mod_power 4 2 big_hash (2 * fractional_unit) (pos 0)
    ≡ rejected prime_too_small
unfolding power_loop check_prime_proof_of_work check_chains check_normalized
    probable_prime_chain_test probable_cunningham_chain_test chain_loop chain_test
    fermat_probable_primality_test euler_lagrange_lifchitz_primality_test passed_test failed_length
    next_in_chain bi_twin_length meets select_longest header_limit prime_min prime_max
    target_get_length target_from_int target_increment_length ◌*ℤ◌
rejects = refl

check_prime_proof_of_work-accepted_example :
    (2 ≤ target_get_length (2 * fractional_unit))
    × (target_get_length (2 * fractional_unit) ≤ 99)
    × (header_limit ≤ big_hash)
    × (origin : ℕ) × (pos big_hash *ℤ pos 1 ≡ pos origin)
    × (prime_min ≤ origin)
    × (origin ≤ prime_max)
    × (l : Lengths) × (probable_prime_chain_test mod_power 4 origin (2 * fractional_unit) false
        ≡ some (true, l))
    × (probable_prime_chain_test mod_power 4 origin (2 * fractional_unit) true ≡ some (true, l))
    × (37531008 ≡ length_of l bi_twin)
    × (2 * fractional_unit ≤ 37531008)
    × (l.first ≤ 37531008)
    × (l.second ≤ 37531008)
    × (l.twin ≤ 37531008)
check_prime_proof_of_work-accepted_example =
    check_prime_proof_of_work-accepted mod_power 4 2 big_hash (2 * fractional_unit) (pos 1) bi_twin
      37531008 accepts

-- 5, 11, 23, 47 are primes, and 7, 13; 95 and 25 are not.
first_kind_passes : (i : ℕ) → i < 4 → passes mod_power true false 5 i ≡ true
unfolding power_loop fermat_probable_primality_test chain_test
    euler_lagrange_lifchitz_primality_test passed_test failed_length
first_kind_passes zero h = refl
first_kind_passes (suc zero) h = refl
first_kind_passes (suc (suc zero)) h = refl
first_kind_passes (suc (suc (suc zero))) h = refl
first_kind_passes (suc (suc (suc (suc i)))) h = absurd (omega arith)

second_kind_passes : (i : ℕ) → i < 2 → passes mod_power false false 7 i ≡ true
unfolding power_loop fermat_probable_primality_test chain_test
    euler_lagrange_lifchitz_primality_test passed_test failed_length
second_kind_passes zero h = refl
second_kind_passes (suc zero) h = refl
second_kind_passes (suc (suc i)) h = absurd (omega arith)

first_kind_fails : passes mod_power true false 5 4 ≡ false
unfolding power_loop fermat_probable_primality_test chain_test
    euler_lagrange_lifchitz_primality_test passed_test failed_length
first_kind_fails = refl

second_kind_fails : passes mod_power false false 7 2 ≡ false
unfolding power_loop fermat_probable_primality_test chain_test
    euler_lagrange_lifchitz_primality_test passed_test failed_length
second_kind_fails = refl

probable_cunningham_chain_test_length_example :
    (len : ℕ) × (probable_cunningham_chain_test mod_power 4 5 true false ≡ some (true, len))
    × (len < 2 ^ 32)
    × (target_get_length len ≡ 4)
probable_cunningham_chain_test_length_example =
    probable_cunningham_chain_test_length mod_power 4 4 5 true false (omega arith) (omega arith)
      (omega arith) first_kind_passes first_kind_fails

probable_prime_chain_test_lengths_example :
    (l : Lengths) × (probable_prime_chain_test mod_power 4 6 (3 * fractional_unit) false
      ≡ some (meets (3 * fractional_unit) l, l))
    × (target_get_length l.first ≡ 4)
    × (target_get_length l.second ≡ 2)
    × (target_get_length l.twin ≡ 5)
probable_prime_chain_test_lengths_example =
    probable_prime_chain_test_lengths mod_power 4 4 2 6 (3 * fractional_unit) false (omega arith)
      (omega arith) (omega arith) (omega arith) (omega arith) first_kind_passes first_kind_fails
      second_kind_passes second_kind_fails
