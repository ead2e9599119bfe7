-- ===== src/WebSocket/Base64.antt =====
-- src/websocket/common/handshake.cc: base64_encode and base64_decode.
pub mod RoundTrip
mod Tests
use cornet.Base.{
  ℕ, zero, suc, ◌+◌, ◌-◌, ◌*◌, ◌/◌, ◌%◌, ◌^◌, bit_and, bit_or, if◌then◌else◌, ltb, leb, ◌==◌, Bool,
  true, false, not, ◌&&◌, ◌||◌, Option, none, some, List, [], ◌∷◌, ◌++◌, length, codes, get_or,
}

unfoldable pub alphabet : List ℕ
alphabet = codes "ABCDEFGHIJKLMNOPQRSTUVWXYZabcdefghijklmnopqrstuvwxyz0123456789+/"

unfoldable pub letter : ℕ → ℕ
letter i = get_or alphabet i 0

-- The word of a group of bytes; what is not there is 0.
unfoldable pub word_of : ℕ → ℕ → ℕ → ℕ
word_of a b c = bit_or (bit_or (a * 2 ^ 16) (b * 2 ^ 8)) c

-- The characters at `out`, as many as the count that is returned. This is the code for a text of
-- fewer than 2 ^ 32 characters, which is 3 * 2 ^ 30 - 3 bytes at most; behind that `i` and `o` wrap.
unfoldable pub base64_encode : List ℕ → List ℕ
base64_encode [] = []
base64_encode (a ∷ []) =
    letter (word_of a 0 0 / 2 ^ 18)
    ∷ letter (bit_and (word_of a 0 0 / 2 ^ 12) 0x3F)
    ∷ b'='
    ∷ b'='
    ∷ []
base64_encode (a ∷ b ∷ []) =
    letter (word_of a b 0 / 2 ^ 18)
    ∷ letter (bit_and (word_of a b 0 / 2 ^ 12) 0x3F)
    ∷ letter (bit_and (word_of a b 0 / 2 ^ 6) 0x3F)
    ∷ b'='
    ∷ []
base64_encode (a ∷ b ∷ c ∷ rest) =
    letter (word_of a b c / 2 ^ 18)
    ∷ letter (bit_and (word_of a b c / 2 ^ 12) 0x3F)
    ∷ letter (bit_and (word_of a b c / 2 ^ 6) 0x3F)
    ∷ letter (bit_and (word_of a b c) 0x3F)
    ∷ base64_encode rest

-- `none` is -1.
pub val : ℕ → Option ℕ
val c =
    if leb b'A' c && leb c b'Z'
    then some (c - b'A')
    else if leb b'a' c && leb c b'z'
    then some (26 + (c - b'a'))
    else if leb b'0' c && leb c b'9'
    then some (52 + (c - b'0'))
    else if c == b'+'
    then some 62
    else if c == b'/'
    then some 63
    else if c == b'='
    then some 0
    else none

-- The test of character `j` of a group for its padding: the padding so far, or the refusal.
pub pad_after : Bool → ℕ → ℕ → ℕ → Option ℕ
pad_after last j pad c =
    if c == b'='
    then (if not last || ltb j 2 then none else some (pad + 1))
    else if ltb 0 pad
    then none
    else some pad

-- The characters of a group: its values and the padding.
pub group_loop : Bool → ℕ → ℕ → List ℕ → Option (List ℕ × ℕ)
group_loop last j pad [] = some ([], pad)
group_loop last j pad (c ∷ cs) = elim (pad_after last j pad c) [
  | none ↦ none
  | some pad2 ↦ elim (val c) [
    | none ↦ none
    | some v ↦ elim (group_loop last (j + 1) pad2 cs) [
      | none ↦ none
      | some (vs, p) ↦ some (v ∷ vs, p)
    ]
  ]
]

pub joined_word : List ℕ → ℕ
joined_word vs =
    bit_or
      (bit_or (bit_or (get_or vs 0 0 * 2 ^ 18) (get_or vs 1 0 * 2 ^ 12)) (get_or vs 2 0 * 2 ^ 6))
      (get_or vs 3 0)

-- The bytes of a group's word, as many as the padding leaves.
pub bytes_of : ℕ → ℕ → List ℕ
bytes_of word pad =
    if pad == 0
    then word / 2 ^ 16 % 256 ∷ word / 2 ^ 8 % 256 ∷ word % 256 ∷ []
    else if pad == 1
    then word / 2 ^ 16 % 256 ∷ word / 2 ^ 8 % 256 ∷ []
    else word / 2 ^ 16 % 256 ∷ []

-- What a group adds to the bytes written, with the tests of padding and capacity.
pub group_end : ℕ → List ℕ → Option (List ℕ × ℕ) → Option (List ℕ)
group_end cap out none = none
group_end cap out (some (vs, pad)) =
    if ltb 2 pad || ltb cap ((length out + (3 - pad)) % 0x100000000)
    then none
    else some (out ++ bytes_of (joined_word vs) pad)

pub is_last : List ℕ → Bool
is_last [] = true
is_last (c ∷ cs) = false

pub decode_loop : ℕ → List ℕ → List ℕ → Option (List ℕ)
decode_loop cap out [] = some out
decode_loop cap out (c0 ∷ c1 ∷ c2 ∷ c3 ∷ rest) =
    elim (group_end cap out (group_loop (is_last rest) 0 0 (c0 ∷ c1 ∷ c2 ∷ c3 ∷ []))) [
      | none ↦ none
      | some out2 ↦ decode_loop cap out2 rest
    ]
decode_loop cap out _ = none

-- The bytes written, where it returns true.
pub base64_decode : List ℕ → ℕ → Option (List ℕ)
base64_decode text cap =
    if length text == 0 || not (length text % 4 == 0) then none else decode_loop cap [] text
