-- ===== src/Amount/Runs.antt =====
-- Runs of the amount compression, the pairs of src/servilo/test/compress_tests.cpp among them.
use primmonero.Base.{ℕ, ◌*◌, ◌≡◌, refl, some, arith}
use primmonero.Amount.{
  strip_zeros, pack_amount, compress_amount, scale_up, unpack_amount, decompress_amount,
}
use primmonero.Amount.RoundTrip.{
  decompress_amount-compress_amount, compress_amount-decompress_amount,
}

abbrev cent : ℕ
cent = 1_000_000

abbrev max_money : ℕ
max_money = 2_000_000_000 * 100_000_000

compress_cent : compress_amount cent ≡ some 0x7
unfolding compress_amount strip_zeros pack_amount
compress_cent = refl

compress_coin : compress_amount 100_000_000 ≡ some 0x9
unfolding compress_amount strip_zeros pack_amount
compress_coin = refl

decompress_all_coins : decompress_amount 0x1406f40 ≡ 21_000_000 * 100_000_000
unfolding decompress_amount scale_up unpack_amount
decompress_all_coins = refl

decompress_amount-compress_amount_example :
    (x : ℕ) × (compress_amount max_money ≡ some x) × (decompress_amount x ≡ max_money)
decompress_amount-compress_amount_example =
    decompress_amount-compress_amount max_money (omega arith)

compress_amount-decompress_amount_example :
    compress_amount (decompress_amount 0x1406f40) ≡ some 0x1406f40
compress_amount-decompress_amount_example =
    compress_amount-decompress_amount 0x1406f40 (omega arith)
