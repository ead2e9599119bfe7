-- ===== src/WebSocket/Sha1.antt =====
-- src/websocket/common/handshake.cc: `sha1_t`, on 32-bit words. `block` holds the first `used_` bytes.
pub mod Stream
mod Tests
use cornet.Base.{
  ℕ, zero, suc, ◌+◌, ◌-◌, ◌*◌, ◌/◌, ◌%◌, ◌^◌, bit_and, bit_or, bit_xor, if◌then◌else◌, ltb, leb,
  ◌==◌, List, [], ◌∷◌, ◌++◌, length, get_or, take, drop,
}

-- `h_`, and the working variables of a compression.
pub record Words : Type 0 where
  pub a : ℕ
  pub b : ℕ
  pub c : ℕ
  pub d : ℕ
  pub e : ℕ

abbrev pub words : ℕ → ℕ → ℕ → ℕ → ℕ → Words
words a b c d e = record { a = a; b = b; c = c; d = d; e = e }

pub record Sha1 : Type 0 where
  pub h : Words
  pub block : List ℕ
  pub total : ℕ

unfoldable pub fresh : Sha1
fresh = record {
  h = words 0x67452301 0xEFCDAB89 0x98BADCFE 0x10325476 0xC3D2E1F0;
  block = [];
  total = 0;
}

-- `v << n | v >> (32 - n)` in 32 bits.
unfoldable pub rol : ℕ → ℕ → ℕ
rol v n = bit_or (v * 2 ^ n % 2 ^ 32) (v / 2 ^ (32 - n))

-- The first sixteen words, the last one first.
unfoldable pub load_words : List ℕ → List ℕ → List ℕ
load_words (b0 ∷ b1 ∷ b2 ∷ b3 ∷ rest) ws =
    load_words rest (bit_or (bit_or (bit_or (b0 * 2 ^ 24) (b1 * 2 ^ 16)) (b2 * 2 ^ 8)) b3 ∷ ws)
load_words _ ws = ws

-- The words after them, the last one first: `w[i - 3]` stands at 2.
unfoldable pub schedule : ℕ → List ℕ → List ℕ
schedule zero ws = ws
schedule (suc n) ws = schedule n (
    rol
      (bit_xor (bit_xor (bit_xor (get_or ws 2 0) (get_or ws 7 0)) (get_or ws 13 0))
        (get_or ws 15 0))
      1
    ∷ ws)

unfoldable pub mix : ℕ → Words → ℕ
mix i v =
    if ltb i 20
    then bit_or (bit_and v.b v.c) (bit_and (2 ^ 32 - 1 - v.b) v.d)
    else if ltb i 40
    then bit_xor (bit_xor v.b v.c) v.d
    else if ltb i 60
    then bit_or (bit_or (bit_and v.b v.c) (bit_and v.b v.d)) (bit_and v.c v.d)
    else bit_xor (bit_xor v.b v.c) v.d

unfoldable pub constant : ℕ → ℕ
constant i =
    if ltb i 20
    then 0x5A827999
    else if ltb i 40
    then 0x6ED9EBA1
    else if ltb i 60
    then 0x8F1BBCDC
    else 0xCA62C1D6

unfoldable pub round : ℕ → ℕ → Words → Words
round i w v = words ((rol v.a 5 + mix i v + v.e + constant i + w) % 2 ^ 32) v.a (rol v.b 30) v.c v.d

-- The rounds over the words, of which the last is the first of the list.
unfoldable pub rounds : List ℕ → Words → Words
rounds [] v = v
rounds (w ∷ ws) v = round (length ws) w (rounds ws v)

unfoldable pub add_words : Words → Words → Words
add_words x y =
    words ((x.a + y.a) % 2 ^ 32) ((x.b + y.b) % 2 ^ 32) ((x.c + y.c) % 2 ^ 32)
      ((x.d + y.d) % 2 ^ 32) ((x.e + y.e) % 2 ^ 32)

unfoldable pub compress : Words → List ℕ → Words
compress h block = add_words h (rounds (schedule 64 (load_words block [])) h)

-- The end of a round of `update`: a full block is compressed.
unfoldable pub flush : Sha1 → Sha1
flush s = if length s.block == 64 then record s { h = compress s.h s.block; block = [] } else s

unfoldable pub absorb : Sha1 → List ℕ → Sha1
absorb s chunk = flush (record s { block = s.block ++ chunk })

unfoldable pub room : Sha1 → List ℕ → ℕ
room s bytes =
    if ltb (64 - length s.block) (length bytes) then 64 - length s.block else length bytes

-- The loop of `update`, on fuel for its rounds.
unfoldable pub update_loop : ℕ → Sha1 → List ℕ → Sha1
update_loop fuel s [] = s
update_loop zero s (x ∷ bytes) = s
update_loop (suc fuel) s (x ∷ bytes) =
    update_loop fuel (absorb s (take (room s (x ∷ bytes)) (x ∷ bytes)))
      (drop (room s (x ∷ bytes)) (x ∷ bytes))

-- A round takes at least one byte, so the number of bytes is fuel enough.
unfoldable pub update : Sha1 → List ℕ → Sha1
update s bytes =
    update_loop (length bytes) (record s { total = (s.total + length bytes) % 2 ^ 64 }) bytes

unfoldable pub zeros : ℕ → List ℕ
zeros zero = []
zeros (suc n) = 0 ∷ zeros n

-- The `n` low bytes of a number, the highest first.
unfoldable pub big_endian : ℕ → ℕ → List ℕ
big_endian zero v = []
big_endian (suc n) v = v / 2 ^ (8 * n) % 256 ∷ big_endian n v

unfoldable pub padding : ℕ → ℕ
padding used = if leb used 56 then 56 - used else 64 + 56 - used

-- The last blocks: 0x80, zeros, and the length in bits as it was before them.
unfoldable pub pad : Sha1 → Sha1
pad s =
    let marked = update s (0x80 ∷ []) in
    update (update marked (zeros (padding (length marked.block))))
      (big_endian 8 (s.total * 8 % 2 ^ 64))

unfoldable pub digest_of : Words → List ℕ
digest_of h =
    big_endian 4 h.a
    ++ (big_endian 4 h.b ++ (big_endian 4 h.c ++ (big_endian 4 h.d ++ big_endian 4 h.e)))

unfoldable pub final : Sha1 → List ℕ
final s = digest_of (pad s).h
