-- ===== src/Prime.antt =====
-- The prime chain proof of work of src/servilo/prime.cpp. Modular powers are OpenSSL's BN_mod_exp,
-- the argument `mod_exp` (base, exponent, modulus). A CBigNum is a native number where the code has
-- made sure that it is positive, and a ℤ before. `nLength` goes in and out as a value. An error with
-- a message is a value of `Reason`.
pub mod Chains
pub mod Accepted
mod Runs
use primmonero.Base.{
  ℕ, zero, suc, ◌+◌, ◌-◌, ◌*◌, ◌/◌, ◌%◌, ◌^◌, bit_and, bit_or, Bool, true, false, not, ◌&&◌, ◌||◌,
  Option, none, some, ltb, leb, ◌==◌, if◌then◌else◌, ◌>>=◌,
}
use primmonero.Base.Int.{ℤ, pos, ◌*ℤ◌, ltb_ℤ, pos_part}
use primmonero.Target.{
  fractional_unit, target_length_mask, target_from_int, target_get_length, target_increment_length,
}

-- The enumeration of the chain types.
pub data ChainType : Type 0 where
  cunningham1 : ChainType
  cunningham2 : ChainType
  bi_twin : ChainType

-- The lengths of the three chains.
pub record Lengths : Type 0 where
  pub first : ℕ
  pub second : ℕ
  pub twin : ℕ

pub data Reason : Type 0 where
  invalid_target : Reason
  hash_under_limit : Reason
  prime_too_small : Reason
  prime_too_big : Reason
  failed_chain_test : Reason
  length_assert : Reason
  failed_fermat_test : Reason
  failed_double_check : Reason
  not_normalized : Reason

-- `endless` is a run that has no fuel left.
pub data Verdict : Type 0 where
  accepted : ChainType → ℕ → Verdict
  rejected : Reason → Verdict
  endless : Verdict

-- hashBlockHeaderLimit, bnPrimeMin and bnPrimeMax.
pub header_limit : ℕ
header_limit = 2 ^ 255

pub prime_min : ℕ
prime_min = 2 ^ 255

pub prime_max : ℕ
prime_max = 2 ^ 2000 - 1

-- The end of both tests for a number that failed with remainder `r`; `getuint` truncates.
pub failed_length : ℕ → ℕ → ℕ → Bool × ℕ
failed_length n r len =
    let fraction = (n - r) * fractional_unit / n % 2 ^ 32 in
    if leb fractional_unit fraction
    then (false, len)
    else (false, bit_or (bit_and len target_length_mask) fraction)

-- fPassedTest, and `none` where n has another remainder.
pub passed_test : Bool → ℕ → ℕ → Option Bool
passed_test first_kind n r =
    if first_kind && n % 8 == 7
    then some (r == 1)
    else if first_kind && n % 8 == 3
    then some (r + 1 == n)
    else if not first_kind && n % 8 == 5
    then some (r + 1 == n)
    else if not first_kind && n % 8 == 1
    then some (r == 1)
    else none

pub next_in_chain : Bool → ℕ → ℕ
next_in_chain first_kind n = if first_kind then n + n + 1 else n + n - 1

pub bi_twin_length : ℕ → ℕ → ℕ
bi_twin_length first second =
    if ltb (target_get_length second) (target_get_length first)
    then (second + target_from_int (target_get_length second + 1)) % 2 ^ 32
    else (first + target_from_int (target_get_length first)) % 2 ^ 32

pub meets : ℕ → Lengths → Bool
meets bits l = leb bits l.first || leb bits l.second || leb bits l.twin

-- The longest of the three chains.
pub select_longest : Lengths → ChainType × ℕ
select_longest l =
    let (kind, len) : ChainType × ℕ =
      if ltb l.first l.second then (cunningham2, l.second) else (cunningham1, l.first) in
    if ltb len l.twin then (bi_twin, l.twin) else (kind, len)

module _ (mod_exp : ℕ → ℕ → ℕ → ℕ) where
  pub fermat_probable_primality_test : ℕ → ℕ → Bool × ℕ
  fermat_probable_primality_test n len =
      let r = mod_exp 2 (n - 1) n in if r == 1 then (true, len) else failed_length n r len

  pub euler_lagrange_lifchitz_primality_test : ℕ → Bool → ℕ → Bool × ℕ
  euler_lagrange_lifchitz_primality_test n first_kind len =
      let r = mod_exp 2 ((n - 1) / 2) n in
      elim (passed_test first_kind n r) [
        | none ↦ (false, len)
        | some true ↦ (true, len)
        | some false ↦ failed_length n (r * r % n) len
      ]

  -- The test of a number that is not the first of its chain.
  pub chain_test : Bool → Bool → ℕ → ℕ → Bool × ℕ
  chain_test first_kind fermat n len =
      if fermat
      then fermat_probable_primality_test n len
      else euler_lagrange_lifchitz_primality_test n first_kind len

  -- The loop `while (true)`, on fuel: it ends at the first number that fails.
  pub chain_loop : ℕ → Bool → Bool → ℕ → ℕ → Option ℕ
  chain_loop zero first_kind fermat n len = none
  chain_loop (suc fuel) first_kind fermat n len =
      let n' = next_in_chain first_kind n in
      let (passed, len') = chain_test first_kind fermat n' (target_increment_length len) in
      elim passed [ true ↦ chain_loop fuel first_kind fermat n' len' | false ↦ some len' ]

  -- The Boolean result and nProbableChainLength.
  pub probable_cunningham_chain_test : ℕ → ℕ → Bool → Bool → Option (Bool × ℕ)
  probable_cunningham_chain_test fuel n first_kind fermat =
      let (passed, len) = fermat_probable_primality_test n 0 in
      elim passed [
        | false ↦ some (false, len)
        | true ↦ do
          len' ← chain_loop fuel first_kind fermat n len
          some (leb 2 (target_get_length len'), len')
      ]

  pub probable_prime_chain_test : ℕ → ℕ → ℕ → Bool → Option (Bool × Lengths)
  probable_prime_chain_test fuel origin bits fermat = do
    (_, first) ← probable_cunningham_chain_test fuel (origin - 1) true fermat
    (_, second) ← probable_cunningham_chain_test fuel (origin + 1) false fermat
    let lengths : Lengths = record {
      first = first;
      second = second;
      twin = bi_twin_length first second;
    }
    some (meets bits lengths, lengths)

  -- The last part of CheckPrimeProofOfWork: the longest chain, and the halved multiplier.
  pub check_normalized : ℕ → ℕ → ℤ → ℕ → Lengths → Verdict
  check_normalized fuel bits multiplier origin l =
      let (kind, len) = select_longest l in
      if pos_part multiplier % 2 == 0 && origin % 4 == 0
      then elim (probable_prime_chain_test fuel (origin / 2) bits false) [
        | none ↦ endless
        | some (met, extended) ↦
            if met && (ltb len extended.first || ltb len extended.second || ltb len extended.twin)
            then rejected not_normalized
            else accepted kind len
      ]
      else accepted kind len

  -- The chain test, and the double check with Fermat tests only.
  pub check_chains : ℕ → ℕ → ℤ → ℕ → Verdict
  check_chains fuel bits multiplier origin =
      elim (probable_prime_chain_test fuel origin bits false) [
        | none ↦ endless
        | some (met, l) ↦
            if not met
            then rejected failed_chain_test
            else if ltb l.first bits && ltb l.second bits && ltb l.twin bits
            then rejected length_assert
            else elim (probable_prime_chain_test fuel origin bits true) [
              | none ↦ endless
              | some (met_fermat, f) ↦
                  if not met_fermat
                  then rejected failed_fermat_test
                  else if not (l.first == f.first)
                      || not (l.second == f.second)
                      || not (l.twin == f.twin)
                  then rejected failed_double_check
                  else check_normalized fuel bits multiplier origin l
            ]
      ]

  pub check_prime_proof_of_work : ℕ → ℕ → ℕ → ℕ → ℤ → Verdict
  check_prime_proof_of_work fuel min_length hash bits multiplier =
      if ltb (target_get_length bits) min_length || ltb 99 (target_get_length bits)
      then rejected invalid_target
      else if ltb hash header_limit
      then rejected hash_under_limit
      else (let origin = pos hash *ℤ multiplier in
          if ltb_ℤ origin (pos prime_min)
          then rejected prime_too_small
          else if ltb_ℤ (pos prime_max) origin
          then rejected prime_too_big
          else check_chains fuel bits multiplier (pos_part origin))
