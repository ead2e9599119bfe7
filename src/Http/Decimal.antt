-- ===== src/Http/Decimal.antt =====
-- src/http/common/serializer.cc: numbers as text, `write_u64` and `write_chunk_size`. The scratch buffer
-- that is filled from its end is the list of what has been written so far.
pub mod RoundTrip
mod Tests
use cornet.Base.{
  ℕ, zero, suc, ◌+◌, ◌*◌, ◌/◌, ◌%◌, bit_and, if◌then◌else◌, ltb, leb, ◌==◌, List, [], ◌∷◌, ◌++◌,
  codes, get_or,
}

unfoldable pub digit_pairs : List ℕ
digit_pairs =
    codes
      "00010203040506070809101112131415161718192021222324252627282930313233343536373839404142434445464748495051525354555657585960616263646566676869707172737475767778798081828384858687888990919293949596979899"

pub hex_digits : List ℕ
hex_digits = codes "0123456789abcdef"

-- What is left below 100.
unfoldable pub last_digits : ℕ → List ℕ → List ℕ
last_digits v tmp =
    if leb 10 v
    then get_or digit_pairs (v * 2) 0 ∷ get_or digit_pairs (v * 2 + 1) 0 ∷ tmp
    else (b'0' + v) ∷ tmp

-- The loop by two digits, on fuel for its rounds.
unfoldable pub pairs_loop : ℕ → ℕ → List ℕ → List ℕ
pairs_loop zero v tmp = last_digits v tmp
pairs_loop (suc fuel) v tmp =
    let rest =
      pairs_loop fuel (v / 100)
        (get_or digit_pairs (v % 100 * 2) 0 ∷ get_or digit_pairs (v % 100 * 2 + 1) 0 ∷ tmp) in
    if leb 100 v then rest else last_digits v tmp

-- Nine rounds are enough for 64 bits.
unfoldable pub write_u64 : ℕ → List ℕ
write_u64 v = if v == 0 then b'0' ∷ [] else pairs_loop 9 v []

pub hex_loop : ℕ → ℕ → List ℕ → List ℕ
hex_loop zero v tmp = tmp
hex_loop (suc fuel) v tmp =
    let rest = hex_loop fuel (v / 16) (get_or hex_digits (bit_and v 0xF) 0 ∷ tmp) in
    if v == 0 then tmp else rest

-- Sixteen rounds are enough for 64 bits.
pub write_chunk_size : ℕ → List ℕ
write_chunk_size v = (if v == 0 then b'0' ∷ [] else hex_loop 16 v []) ++ (13 ∷ 10 ∷ [])
