-- ===== src/WebSocket/Base64/RoundTrip.antt =====
-- What is encoded decodes to itself.
use cornet.Base.{
  ℕ, ◌+◌, ◌-◌, ◌*◌, ◌/◌, ◌%◌, ◌^◌, ◌<◌, ◌≤◌, ◌≡◌, refl, sym, ap, ap₂, ◌∙◌, bit_and, bit_or, ◌==◌,
  ==_iff, &&_iff, ge→ltb, Bool, true, false, not, ◌&&◌, ◌||◌, Option, none, some, List, [], ◌∷◌,
  ◌++◌, append_assoc, append-nil, length, length-append, All, IsByte, arith,
}
use cornet.Base.Bits.{bit_or_fields, bit_and_mask}
use cornet.Base.Tables.{throughout, throughout_at}
use cornet.WebSocket.Base64.{
  alphabet, letter, word_of, base64_encode, val, pad_after, group_loop, joined_word, bytes_of,
  group_end, is_last, decode_loop, base64_decode,
}

abbrev good_letter : ℕ → Bool
good_letter i = elim (val (letter i)) [ none ↦ false | some v ↦ v == i && not (letter i == b'=') ]

letter_table : throughout 64 good_letter ≡ true
unfolding throughout val letter alphabet
letter_table = refl

good_letter-val :
    (i c : ℕ) (v : Option ℕ)
    → elim v [ none ↦ false | some w ↦ w == i && not (c == b'=') ] ≡ true
    → (v ≡ some i) × ((c == b'=') ≡ false)
good_letter-val i c none e = absurd (cc e)
good_letter-val i c (some w) e = ground (arith, &&_iff (w == i) (not (c == b'=')))

letter-val : (i : ℕ) → i < 64 → (val (letter i) ≡ some i) × ((letter i == b'=') ≡ false)
letter-val i h =
    good_letter-val i (letter i) (val (letter i)) (throughout_at 64 i good_letter letter_table h)

abbrev with_first : ℕ → Option (List ℕ × ℕ) → Option (List ℕ × ℕ)
with_first v r = elim r [ none ↦ none | some (vs, p) ↦ some (v ∷ vs, p) ]

group_loop-letter :
    (last : Bool) (j i : ℕ) (cs : List ℕ)
    → i < 64
    → group_loop last j 0 (letter i ∷ cs) ≡ with_first i (group_loop last (j + 1) 0 cs)
unfolding group_loop pad_after
group_loop-letter last j i cs h =
    let (value, letter_not_pad) = letter-val i h in
    let padded : pad_after last j 0 (letter i) ≡ some 0 = rw (letter_not_pad, pad_after) refl in
    rw (padded, group_loop, value) refl

abbrev sextets : ℕ → ℕ → ℕ → ℕ → List ℕ
sextets i0 i1 i2 i3 = i0 ∷ i1 ∷ i2 ∷ i3 ∷ []

group_loop-full :
    (last : Bool) (i0 i1 i2 i3 : ℕ)
    → i0 < 64
    → i1 < 64
    → i2 < 64
    → i3 < 64
    → group_loop last 0 0 (letter i0 ∷ letter i1 ∷ letter i2 ∷ letter i3 ∷ [])
      ≡ some (sextets i0 i1 i2 i3, 0)
unfolding group_loop
group_loop-full last i0 i1 i2 i3 h0 h1 h2 h3 = simp (
  group_loop-letter last 0 i0 (letter i1 ∷ letter i2 ∷ letter i3 ∷ []) h0,
  group_loop-letter last 1 i1 (letter i2 ∷ letter i3 ∷ []) h1,
  group_loop-letter last 2 i2 (letter i3 ∷ []) h2,
  group_loop-letter last 3 i3 [] h3,
)

group_loop-one_pad :
    (i0 i1 i2 : ℕ)
    → i0 < 64
    → i1 < 64
    → i2 < 64
    → group_loop true 0 0 (letter i0 ∷ letter i1 ∷ letter i2 ∷ b'=' ∷ [])
      ≡ some (sextets i0 i1 i2 0, 1)
unfolding group_loop pad_after val
group_loop-one_pad i0 i1 i2 h0 h1 h2 = simp (
  group_loop-letter true 0 i0 (letter i1 ∷ letter i2 ∷ b'=' ∷ []) h0,
  group_loop-letter true 1 i1 (letter i2 ∷ b'=' ∷ []) h1,
  group_loop-letter true 2 i2 (b'=' ∷ []) h2,
)

group_loop-two_pads :
    (i0 i1 : ℕ)
    → i0 < 64
    → i1 < 64
    → group_loop true 0 0 (letter i0 ∷ letter i1 ∷ b'=' ∷ b'=' ∷ []) ≡ some (sextets i0 i1 0 0, 2)
unfolding group_loop pad_after val
group_loop-two_pads i0 i1 h0 h1 = simp (
  group_loop-letter true 0 i0 (letter i1 ∷ b'=' ∷ b'=' ∷ []) h0,
  group_loop-letter true 1 i1 (b'=' ∷ b'=' ∷ []) h1,
)

word_of-sum : (a b c : ℕ) → b < 256 → c < 256 → word_of a b c ≡ a * 65536 + b * 256 + c
unfolding word_of
word_of-sum a b c hb hc =
    let top : bit_or (a * 2 ^ 16) (b * 2 ^ 8) ≡ (a * 256 + b) * 2 ^ 8 =
      bit_or_fields 16 a (b * 2 ^ 8) (omega arith) ∙ omega arith in
    rw top (bit_or_fields 8 (a * 256 + b) c (omega arith) ∙ omega arith)

joined_word-sum :
    (i0 i1 i2 i3 : ℕ)
    → i1 < 64
    → i2 < 64
    → i3 < 64
    → joined_word (sextets i0 i1 i2 i3) ≡ i0 * 262144 + i1 * 4096 + i2 * 64 + i3
unfolding joined_word
joined_word-sum i0 i1 i2 i3 h1 h2 h3 =
    let top : bit_or (i0 * 2 ^ 18) (i1 * 2 ^ 12) ≡ (i0 * 64 + i1) * 2 ^ 12 =
      bit_or_fields 18 i0 (i1 * 2 ^ 12) (omega arith) ∙ omega arith in
    let next_top : bit_or ((i0 * 64 + i1) * 2 ^ 12) (i2 * 2 ^ 6)
        ≡ ((i0 * 64 + i1) * 64 + i2) * 2 ^ 6 =
      bit_or_fields 12 (i0 * 64 + i1) (i2 * 2 ^ 6) (omega arith) ∙ omega arith in
    rw (top, next_top) (bit_or_fields 6 ((i0 * 64 + i1) * 64 + i2) i3 (omega arith) ∙ omega arith)

group_end-fits :
    (cap : ℕ) (out vs : List ℕ) (pad : ℕ)
    → pad ≤ 2
    → cap < 2 ^ 32
    → length out + (3 - pad) ≤ cap
    → group_end cap out (some (vs, pad)) ≡ some (out ++ bytes_of (joined_word vs) pad)
unfolding group_end
group_end-fits cap out vs pad h k l =
    let small : (length out + (3 - pad)) % 0x100000000 ≡ length out + (3 - pad) = omega arith in
    rw (small, ge→ltb 2 pad h, ge→ltb cap (length out + (3 - pad)) l, ◌||◌) refl

-- The six bits at a place of a word.
sextet : (x : ℕ) → bit_and x 0x3F ≡ x % 64
sextet x = bit_and_mask 6 x

sextet-lt : (x : ℕ) → bit_and x 0x3F < 64
sextet-lt x = omega (arith, sextet x)

module _ (w : ℕ) (small : w < 2 ^ 24) where
  rejoin-full :
      joined_word (
        sextets
          (w / 2 ^ 18)
          (bit_and (w / 2 ^ 12) 0x3F)
          (bit_and (w / 2 ^ 6) 0x3F)
          (bit_and w 0x3F))
      ≡ w
  rejoin-full =
      rw (sextet (w / 2 ^ 12), sextet (w / 2 ^ 6), sextet w)
        (joined_word-sum (w / 2 ^ 18) (w / 2 ^ 12 % 64) (w / 2 ^ 6 % 64) (w % 64) (omega arith)
            (omega arith) (omega arith)
          ∙ omega arith)

  rejoin-one_pad :
      joined_word (sextets (w / 2 ^ 18) (bit_and (w / 2 ^ 12) 0x3F) (bit_and (w / 2 ^ 6) 0x3F) 0)
      ≡ w / 64 * 64
  rejoin-one_pad =
      rw (sextet (w / 2 ^ 12), sextet (w / 2 ^ 6))
        (joined_word-sum (w / 2 ^ 18) (w / 2 ^ 12 % 64) (w / 2 ^ 6 % 64) 0 (omega arith)
            (omega arith) (omega arith)
          ∙ omega arith)

  rejoin-two_pads :
      joined_word (sextets (w / 2 ^ 18) (bit_and (w / 2 ^ 12) 0x3F) 0 0) ≡ w / 4096 * 4096
  rejoin-two_pads = rw (sextet (w / 2 ^ 12)) (
      joined_word-sum (w / 2 ^ 18) (w / 2 ^ 12 % 64) 0 0 (omega arith) (omega arith) (omega arith)
      ∙ omega arith)

module _ (cap : ℕ) (out : List ℕ) (wide : cap < 2 ^ 32) (a b c : ℕ) (ha : a < 256) (hb : b < 256)
    (hc : c < 256) where
  three_bytes :
      (last : Bool)
      → length out + 3 ≤ cap
      → group_end cap out (
          group_loop last 0 0 (
            letter (word_of a b c / 2 ^ 18)
            ∷ letter (bit_and (word_of a b c / 2 ^ 12) 0x3F)
            ∷ letter (bit_and (word_of a b c / 2 ^ 6) 0x3F)
            ∷ letter (bit_and (word_of a b c) 0x3F)
            ∷ []))
        ≡ some (out ++ (a ∷ b ∷ c ∷ []))
  unfolding bytes_of
  three_bytes last fits =
      let w : ℕ = word_of a b c in
      let sum : word_of a b c ≡ a * 65536 + b * 256 + c = word_of-sum a b c hb hc in
      ap (group_end cap out) (
        group_loop-full last (w / 2 ^ 18) (bit_and (w / 2 ^ 12) 0x3F) (bit_and (w / 2 ^ 6) 0x3F)
          (bit_and w 0x3F) (omega arith) (sextet-lt (w / 2 ^ 12)) (sextet-lt (w / 2 ^ 6))
          (sextet-lt w))
      ∙ group_end-fits cap out
          (sextets (w / 2 ^ 18) (bit_and (w / 2 ^ 12) 0x3F) (bit_and (w / 2 ^ 6) 0x3F)
            (bit_and w 0x3F))
          0 (omega arith) wide fits
      ∙ rw (rejoin-full w (omega arith), sum)
          (ap (λ t. some (out ++ t))
            (ap₂ ◌∷◌ (omega arith) (ap₂ ◌∷◌ (omega arith) (ap₂ ◌∷◌ (omega arith) refl))))

module _ (cap : ℕ) (out : List ℕ) (wide : cap < 2 ^ 32) (a : ℕ) (ha : a < 256) where
  two_bytes :
      (b : ℕ)
      → b < 256
      → length out + 2 ≤ cap
      → group_end cap out (
          group_loop true 0 0 (
            letter (word_of a b 0 / 2 ^ 18)
            ∷ letter (bit_and (word_of a b 0 / 2 ^ 12) 0x3F)
            ∷ letter (bit_and (word_of a b 0 / 2 ^ 6) 0x3F)
            ∷ b'='
            ∷ []))
        ≡ some (out ++ (a ∷ b ∷ []))
  unfolding bytes_of
  two_bytes b hb fits =
      let w : ℕ = word_of a b 0 in
      let sum : word_of a b 0 ≡ a * 65536 + b * 256 + 0 = word_of-sum a b 0 hb (omega arith) in
      ap (group_end cap out) (
        group_loop-one_pad (w / 2 ^ 18) (bit_and (w / 2 ^ 12) 0x3F) (bit_and (w / 2 ^ 6) 0x3F)
          (omega arith) (sextet-lt (w / 2 ^ 12)) (sextet-lt (w / 2 ^ 6)))
      ∙ group_end-fits cap out
          (sextets (w / 2 ^ 18) (bit_and (w / 2 ^ 12) 0x3F) (bit_and (w / 2 ^ 6) 0x3F) 0) 1
          (omega arith) wide fits
      ∙ rw (rejoin-one_pad w (omega arith), sum)
          (ap (λ t. some (out ++ t)) (ap₂ ◌∷◌ (omega arith) (ap₂ ◌∷◌ (omega arith) refl)))

  one_byte :
      length out + 1 ≤ cap
      → group_end cap out (
          group_loop true 0 0 (
            letter (word_of a 0 0 / 2 ^ 18)
            ∷ letter (bit_and (word_of a 0 0 / 2 ^ 12) 0x3F)
            ∷ b'='
            ∷ b'='
            ∷ []))
        ≡ some (out ++ (a ∷ []))
  unfolding bytes_of
  one_byte fits =
      let w : ℕ = word_of a 0 0 in
      let sum : word_of a 0 0 ≡ a * 65536 + 0 * 256 + 0 =
        word_of-sum a 0 0 (omega arith) (omega arith) in
      ap (group_end cap out) (
        group_loop-two_pads (w / 2 ^ 18) (bit_and (w / 2 ^ 12) 0x3F) (omega arith)
          (sextet-lt (w / 2 ^ 12)))
      ∙ group_end-fits cap out (sextets (w / 2 ^ 18) (bit_and (w / 2 ^ 12) 0x3F) 0 0) 2
          (omega arith) wide fits
      ∙ rw (rejoin-two_pads w (omega arith), sum)
          (ap (λ t. some (out ++ t)) (ap₂ ◌∷◌ (omega arith) refl))

decode_loop-encode :
    (cap : ℕ) (out bs : List ℕ)
    → cap < 2 ^ 32
    → All IsByte bs
    → length out + length bs ≤ cap
    → decode_loop cap out (base64_encode bs) ≡ some (out ++ bs)
unfolding decode_loop base64_encode is_last
decode_loop-encode cap out [] w all fits = ap some (sym (append-nil out))
decode_loop-encode cap out (a ∷ []) w (ha, all) fits =
    rw (one_byte cap out w a ha fits, decode_loop) refl
decode_loop-encode cap out (a ∷ b ∷ []) w (ha, (hb, all)) fits =
    rw (two_bytes cap out w a ha b hb fits, decode_loop) refl
decode_loop-encode cap out (a ∷ b ∷ c ∷ rest) w (ha, (hb, (hc, all))) fits =
    let longer = length-append out (a ∷ b ∷ c ∷ []) in
    rw
      (
        three_bytes cap out w a b c ha hb hc (is_last (base64_encode rest)) (omega arith),
        decode_loop,
      )
      (decode_loop-encode cap (out ++ (a ∷ b ∷ c ∷ [])) rest w all (omega arith)
        ∙ ap some (append_assoc out (a ∷ b ∷ c ∷ []) rest))

-- The length of the text, padding included.
pub length-base64_encode : (bs : List ℕ) → length (base64_encode bs) ≡ (length bs + 2) / 3 * 4
unfolding base64_encode
length-base64_encode [] = omega arith
length-base64_encode (a ∷ []) = omega arith
length-base64_encode (a ∷ b ∷ []) = omega arith
length-base64_encode (a ∷ b ∷ c ∷ rest) = omega (arith, length-base64_encode rest)

-- Bytes that are encoded decode to themselves, where there is at least one, the output has room for them,
-- and the text is shorter than 2 ^ 32 characters, so that its 32-bit count does not wrap.
pub base64_decode-base64_encode :
    (bs : List ℕ) (cap : ℕ)
    → All IsByte bs
    → 0 < length bs
    → (length bs + 2) / 3 * 4 < 2 ^ 32
    → length bs ≤ cap
    → cap < 2 ^ 32
    → base64_decode (base64_encode bs) cap ≡ some bs
unfolding base64_decode
base64_decode-base64_encode bs cap all some_bytes small fits w =
    let l = length-base64_encode bs in
    let busy : (length (base64_encode bs) == 0) ≡ false = ground (arith, l) in
    let whole : (length (base64_encode bs) % 4 == 0) ≡ true =
      (==_iff (length (base64_encode bs) % 4) 0).1 (omega arith) in
    rw (busy, whole, ◌||◌) (decode_loop-encode cap [] bs w all (omega arith))
