-- ===== src/Http/Decimal/Tests.antt =====
-- Runs of the number writers, and their theorems at inputs.
use cornet.Base.{ℕ, ◌<◌, ◌≤◌, ◌≡◌, ◌⊎◌, refl, List, [], ◌∷◌, ◌++◌, length, All, codes, arith}
use cornet.Http.Decimal.{
  digit_pairs, hex_digits, last_digits, pairs_loop, write_u64, hex_loop, write_chunk_size,
}
use cornet.Http.Decimal.RoundTrip.{
  read_from, IsDigit, StartsNonzero, read_hex, IsHexDigit, write_u64-IsDecimal,
  write_chunk_size-reads,
}

write_u64_sizes : write_u64 18446744073709551615 ≡ codes "18446744073709551615"
unfolding write_u64 pairs_loop last_digits digit_pairs
write_u64_sizes = refl

write_u64_odd : write_u64 40507 ≡ codes "40507"
unfolding write_u64 pairs_loop last_digits digit_pairs
write_u64_odd = refl

write_chunk_size_run : write_chunk_size 500 ≡ codes "1f4" ++ (13 ∷ 10 ∷ [])
unfolding write_chunk_size hex_loop hex_digits
write_chunk_size_run = refl

write_u64-IsDecimal_example :
    (read_from 0 (write_u64 4096) ≡ 4096)
    × All IsDigit (write_u64 4096)
    × (0 < length (write_u64 4096))
    × (length (write_u64 4096) ≤ 20)
    × ((◌≡◌ {A = ℕ} 4096 0) ⊎ StartsNonzero (write_u64 4096))
write_u64-IsDecimal_example = write_u64-IsDecimal 4096 (omega arith)

write_chunk_size-reads_example :
    (text : List ℕ) × (write_chunk_size 500 ≡ text ++ (13 ∷ 10 ∷ []))
    × (read_hex 0 text ≡ 500)
    × All IsHexDigit text
    × (0 < length text)
    × (length text ≤ 16)
    × ((◌≡◌ {A = ℕ} 500 0) ⊎ StartsNonzero text)
write_chunk_size-reads_example = write_chunk_size-reads 500 (omega arith)
