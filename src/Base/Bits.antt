-- ===== src/Base/Bits.antt =====
-- The masks and joins that the program writes with `&` and `|`, as arithmetic at every width.
use Prim.Native.Nat.{
  ℕ, zero, suc, ◌+◌, ◌-◌, ◌*◌, ◌/◌, ◌%◌, ◌^◌, ◌≤◌, ◌<◌, min, max, bit_and, bit_or, digits,
  bit_and-bitwise, bit_or-bitwise,
}
use mathlib.Core.Path.{◌≡◌, refl, ap}
use native.Mathlib.Omega.{arith}
use native.Mathlib.Nat.{pow-suc, one-le-pow}

-- The digit recursion does not depend on its fuel, once that is as large as the number.
module _ (z : ℕ → ℕ) (f : ℕ → ℕ → ℕ) where
  digits-any_fuel :
      (small big a b : ℕ) → a ≤ small → a ≤ big → digits z f small a b ≡ digits z f big a b
  digits-any_fuel zero zero a b p q = refl
  digits-any_fuel zero (suc big) zero b p q = refl
  digits-any_fuel zero (suc big) (suc a) b p q = absurd (omega arith)
  digits-any_fuel (suc small) zero zero b p q = refl
  digits-any_fuel (suc small) zero (suc a) b p q = absurd (omega arith)
  digits-any_fuel (suc small) (suc big) zero b p q = refl
  digits-any_fuel (suc small) (suc big) (suc a) b p q =
      rw (digits-any_fuel small big (suc a / 2) (b / 2) (omega arith) (omega arith))

-- One binary digit of `&`, and one of `|`.
pub bit_and_digit : (a b : ℕ) → bit_and a b ≡ bit_and (a / 2) (b / 2) * 2 + min (a % 2) (b % 2)
bit_and_digit zero b = simp bit_and-bitwise (omega arith)
bit_and_digit (suc a) b = simp bit_and-bitwise (
    omega (
      arith,
      digits-any_fuel (λ y. 0) min a (suc a / 2) (suc a / 2) (b / 2) (omega arith) (omega arith),
    ))

pub bit_or_digit : (a b : ℕ) → bit_or a b ≡ bit_or (a / 2) (b / 2) * 2 + max (a % 2) (b % 2)
bit_or_digit zero b = simp bit_or-bitwise (omega arith)
bit_or_digit (suc a) b = simp bit_or-bitwise (
    omega (
      arith,
      digits-any_fuel (λ y. y) max a (suc a / 2) (suc a / 2) (b / 2) (omega arith) (omega arith),
    ))

bit_and-zero_below : (bound a : ℕ) → a ≤ bound → bit_and a 0 ≡ 0
bit_and-zero_below bound zero h = refl
bit_and-zero_below zero (suc a) h = absurd (omega arith)
bit_and-zero_below (suc bound) (suc a) h =
    omega (arith, bit_and_digit (suc a) 0, bit_and-zero_below bound (suc a / 2) (omega arith))

pub bit_and-zero : (a : ℕ) → bit_and a 0 ≡ 0
bit_and-zero a = bit_and-zero_below a a (omega arith)

bit_or-zero_below : (bound a : ℕ) → a ≤ bound → bit_or a 0 ≡ a
bit_or-zero_below bound zero h = refl
bit_or-zero_below zero (suc a) h = absurd (omega arith)
bit_or-zero_below (suc bound) (suc a) h =
    omega (arith, bit_or_digit (suc a) 0, bit_or-zero_below bound (suc a / 2) (omega arith))

pub bit_or-zero : (a : ℕ) → bit_or a 0 ≡ a
bit_or-zero a = bit_or-zero_below a a (omega arith)

double_power : (h k : ℕ) → h * 2 ^ suc k ≡ 2 * (h * 2 ^ k)
double_power h k = omega (arith, ap (λ (t : ℕ). h * t) (pow-suc 2 k))

-- A field above bit `k` and one below it are joined by `|` into their sum.
pub bit_or-disjoint : (k h l : ℕ) → l < 2 ^ k → bit_or (h * 2 ^ k) l ≡ h * 2 ^ k + l
bit_or-disjoint zero h l fits = ground (arith, bit_or-zero h)
bit_or-disjoint (suc k) h l fits = ground (
  arith,
  bit_or_digit (h * 2 ^ suc k) l,
  double_power h k,
  bit_or-disjoint k h (l / 2) (omega arith),
)

-- `&` acts on the low fields and on the high fields apart.
pub bit_and_fields :
    (k g h l m : ℕ)
    → l < 2 ^ k
    → m < 2 ^ k
    → bit_and (g * 2 ^ k + l) (h * 2 ^ k + m) ≡ bit_and g h * 2 ^ k + bit_and l m
bit_and_fields zero g h l m p q = ground (arith, bit_and-zero l)
bit_and_fields (suc k) g h l m p q = ground (
  arith,
  bit_and_digit (g * 2 ^ suc k + l) (h * 2 ^ suc k + m),
  bit_and_digit l m,
  double_power g k,
  double_power h k,
  double_power (bit_and g h) k,
  bit_and_fields k g h (l / 2) (m / 2) (omega arith) (omega arith),
)

-- A mask of `k` ones keeps the low `k` bits.
pub bit_and-ones : (k a : ℕ) → a < 2 ^ k → bit_and a (2 ^ k - 1) ≡ a
bit_and-ones zero a h = ground (arith, bit_and-zero a)
bit_and-ones (suc k) a h = ground (
  arith,
  bit_and_digit a (2 ^ suc k - 1),
  pow-suc 2 k,
  one-le-pow k 2,
  bit_and-ones k (a / 2) (omega arith),
)

-- A mask of the high bits, from bit `k` on, keeps those bits.
pub bit_and-high :
    (k g h l : ℕ) → l < 2 ^ k → bit_and g h ≡ g → bit_and (g * 2 ^ k + l) (h * 2 ^ k) ≡ g * 2 ^ k
bit_and-high k g h l fits keeps =
    ground (arith, one-le-pow k 2, bit_and_fields k g h l 0 fits, bit_and-zero l)

-- A mask of `k` ones keeps the low field, whatever stands above it.
pub bit_and-low : (k g l : ℕ) → l < 2 ^ k → bit_and (g * 2 ^ k + l) (2 ^ k - 1) ≡ l
bit_and-low k g l fits =
    ground
      (arith, one-le-pow k 2, bit_and_fields k g 0 l (2 ^ k - 1), bit_and-zero g, bit_and-ones k l)

zero-bit_or : (b : ℕ) → bit_or 0 b ≡ b
zero-bit_or b = simp bit_or-bitwise

-- `bit_or-disjoint` with the low field first.
pub bit_or-disjoint_low : (k h l : ℕ) → l < 2 ^ k → bit_or l (h * 2 ^ k) ≡ h * 2 ^ k + l
bit_or-disjoint_low zero h l fits =
    let nought : l ≡ 0 = omega arith in rw nought (omega (arith, zero-bit_or (h * 1)))
bit_or-disjoint_low (suc k) h l fits = ground (
  arith,
  bit_or_digit l (h * 2 ^ suc k),
  double_power h k,
  bit_or-disjoint_low k h (l / 2) (omega arith),
)

pub bit_and-one : (n : ℕ) → bit_and n 1 ≡ n % 2
bit_and-one n = omega (arith, bit_and_digit n 1, bit_and-zero (n / 2))
