-- ===== src/Amount.antt =====
-- CTxOutCompressor::CompressAmount and DecompressAmount (src/servilo/main.cpp): the compact form
-- in which the coin database keeps amounts. A uint64 is a native number, and each step that can
-- wrap is taken modulo 2 ^ 64.
pub mod RoundTrip
mod Runs
use primmonero.Base.{
  ℕ, zero, suc, ◌+◌, ◌-◌, ◌*◌, ◌/◌, ◌%◌, ◌^◌, Bool, true, false, ◌&&◌, Option, none, some, ltb, leb,
  ◌==◌, if◌then◌else◌,
}

abbrev pub u64_mod : ℕ
u64_mod = 2 ^ 64

-- The loop `while (((n % 10) == 0) && e < 9)`, which returns `n` and `e` as it leaves them.
-- The test `e < 9` bounds the rounds, so that the fuel of `compress_amount` never runs out.
pub strip_zeros : ℕ → ℕ → ℕ → ℕ × ℕ
strip_zeros zero n e = (n, e)
strip_zeros (suc fuel) n e = elim (n % 10 == 0 && ltb e 9) [
  | true ↦ strip_zeros fuel (n / 10) (e + 1)
  | false ↦ (n, e)
]

-- What follows the loop: `int d = n % 10; assert(d >= 1 && d <= 9); n /= 10;` and the two ways to
-- put the parts together. A failed assertion is `none`.
pub pack_amount : ℕ → ℕ → Option ℕ
pack_amount n e =
    if ltb e 9
    then (if leb 1 (n % 10) && leb (n % 10) 9
        then some ((1 + ((n / 10 * 9 + n % 10 + u64_mod - 1) % u64_mod) * 10 + e) % u64_mod)
        else none)
    else some ((1 + ((n + u64_mod - 1) % u64_mod) * 10 + 9) % u64_mod)

pub compress_amount : ℕ → Option ℕ
compress_amount n = if n == 0 then some 0 else (let (m, e) = strip_zeros 10 n 0 in pack_amount m e)

-- The loop `while (e) { n *= 10; e--; }`.
pub scale_up : ℕ → ℕ → ℕ
scale_up n zero = n
scale_up n (suc e) = scale_up (n * 10 % u64_mod) e

-- The digits without their zeros, from `x` after `x /= 10`.
pub unpack_amount : ℕ → ℕ → ℕ
unpack_amount x e = if ltb e 9 then (x / 9 * 10 + (x % 9 + 1)) % u64_mod else (x + 1) % u64_mod

pub decompress_amount : ℕ → ℕ
decompress_amount x =
    if x == 0 then 0 else (let e = (x - 1) % 10 in scale_up (unpack_amount ((x - 1) / 10) e) e)
