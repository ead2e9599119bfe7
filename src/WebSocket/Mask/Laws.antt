-- ===== src/WebSocket/Mask/Laws.antt =====
-- `apply_mask` against the rule of RFC 6455 section 5.3, byte `j` xor key byte `j % 4`.
use cornet.Base.{
  ℕ, suc, ◌+◌, ◌*◌, ◌/◌, ◌%◌, ◌^◌, ◌<◌, ◌≡◌, refl, ap, ap₂, ◌∙◌, sym, inl, inr, Bool-cases, bit_and,
  bit_xor, ◌==◌, ==_iff, bytes-append, List, [], ◌∷◌, ◌++◌, All, IsByte, length, arith,
}
use cornet.Base.Bits.{bit_and_mask, bit_xor_fields, bit_xor-lt, bit_xor_twice}
use cornet.WebSocket.Mask.{mask_byte, mask_tail, mask_word, mask_body, mask_head, apply_mask}

-- The rule: each byte is combined with the key byte of its payload position.
abbrev pub mask_spec : ℕ → ℕ → List ℕ → List ℕ
mask_spec key pos [] = []
mask_spec key pos (x ∷ xs) =
    bit_xor x (key / 2 ^ (pos % 4 * 8) % 2 ^ 8) ∷ mask_spec key (pos + 1) xs

-- Positions that agree modulo 4 are masked alike.
mask_spec_mod :
    (key p q : ℕ) (xs : List ℕ) → p % 4 ≡ q % 4 → mask_spec key p xs ≡ mask_spec key q xs
mask_spec_mod key p q [] h = refl
mask_spec_mod key p q (x ∷ xs) h =
    ap₂ ◌∷◌ (ap (λ r. bit_xor x (key / 2 ^ (r * 8) % 2 ^ 8)) h)
      (mask_spec_mod key (p + 1) (q + 1) xs (omega arith))

-- A byte at a time off the low end of a word.
bit_xor_split :
    (w k x y r t : ℕ)
    → w ≡ x * 256 + r
    → k ≡ y * 256 + t
    → r < 256
    → t < 256
    → bit_xor w k ≡ bit_xor x y * 256 + bit_xor r t
bit_xor_split w k x y r t p q hr ht = ap₂ bit_xor p q ∙ bit_xor_fields 8 x r y t hr ht

-- A word at a key boundary is masked as its four bytes.
mask_word-eq :
    (key a b c d : ℕ)
    → key < 2 ^ 32
    → IsByte a
    → IsByte b
    → IsByte c
    → IsByte d
    → mask_word key a b c d
      ≡ mask_byte key 0 a ∷ mask_byte key 8 b ∷ mask_byte key 16 c ∷ mask_byte key 24 d ∷ []
mask_word-eq key a b c d h ha hb hc hd =
    let k0 = key / 2 ^ 0 % 256 in
    let k1 = key / 2 ^ 8 % 256 in
    let k2 = key / 2 ^ 16 % 256 in
    let k3 = key / 2 ^ 24 % 256 in
    let low =
      bit_xor_split (a + b * 2 ^ 8 + c * 2 ^ 16 + d * 2 ^ 24) key (b + c * 256 + d * 65536)
        (key / 256) a k0 (omega arith) (omega arith) ha (omega arith) in
    let mid =
      bit_xor_split (b + c * 256 + d * 65536) (key / 256) (c + d * 256) (key / 65536) b k1
        (omega arith) (omega arith) hb (omega arith) in
    let high =
      bit_xor_split (c + d * 256) (key / 65536) d k3 c k2 (omega arith) (omega arith) hc
        (omega arith) in
    let f0 = bit_xor-lt 8 a k0 ha (omega arith) in
    let f1 = bit_xor-lt 8 b k1 hb (omega arith) in
    let f2 = bit_xor-lt 8 c k2 hc (omega arith) in
    let f3 = bit_xor-lt 8 d k3 hd (omega arith) in
    ap₂ ◌∷◌ (omega arith)
      (ap₂ ◌∷◌ (omega arith) (ap₂ ◌∷◌ (omega arith) (ap₂ ◌∷◌ (omega arith) refl)))

mask_tail-eq :
    (key t : ℕ) (xs : List ℕ) → t + length xs < 5 → mask_tail key t xs ≡ mask_spec key t xs
unfolding mask_tail
mask_tail-eq key t [] h = refl
mask_tail-eq key t (x ∷ xs) h =
    ap₂ ◌∷◌ (ap (λ r. bit_xor x (key / 2 ^ (r * 8) % 2 ^ 8)) (omega arith))
      (mask_tail-eq key (t + 1) xs (omega arith))

mask_body-eq :
    (key : ℕ) (xs : List ℕ) → key < 2 ^ 32 → All IsByte xs → mask_body key xs ≡ mask_spec key 0 xs
unfolding mask_body
mask_body-eq key (a ∷ b ∷ c ∷ d ∷ xs) h bytes =
    ap₂ ◌++◌ (mask_word-eq key a b c d h bytes.0 bytes.1.0 bytes.1.1.0 bytes.1.1.1.0)
      (mask_body-eq key xs h bytes.1.1.1.1 ∙ mask_spec_mod key 0 4 xs refl)
mask_body-eq key xs h bytes = mask_tail-eq key 0 xs (omega arith)

mask_head-eq :
    (key pos : ℕ) (xs : List ℕ)
    → key < 2 ^ 32
    → All IsByte xs
    → mask_head key pos xs ≡ mask_spec key pos xs
unfolding mask_head
mask_head-eq key pos [] h bytes = mask_body-eq key [] h tt
mask_head-eq key pos (x ∷ xs) h bytes = elim (Bool-cases (bit_and pos 3 == 0)) [
  | inl e ↦ rw e (
      mask_body-eq key (x ∷ xs) h bytes
      ∙ mask_spec_mod key 0 pos (x ∷ xs) (omega (arith, (==_iff _ 0).0 e, bit_and_mask 2 pos)))
  | inr e ↦ rw e (
      ap₂ ◌∷◌ (ap (λ r. bit_xor x (key / 2 ^ (r * 8) % 2 ^ 8)) (bit_and_mask 2 pos)) (
        mask_head-eq key ((pos + 1) % 2 ^ 64) xs h bytes.1
        ∙ mask_spec_mod key ((pos + 1) % 2 ^ 64) (pos + 1) xs (omega arith)))
]

-- However the payload lies to the key's boundaries, and whatever the offset, `apply_mask` combines
-- every byte of the payload with the key byte of its position modulo 4.
pub apply_mask-eq-mask_spec :
    (key : ℕ) (payload : List ℕ) (offset : ℕ)
    → key < 2 ^ 32
    → All IsByte payload
    → apply_mask key payload offset ≡ mask_spec key offset payload
unfolding apply_mask
apply_mask-eq-mask_spec key payload offset h bytes = mask_head-eq key offset payload h bytes

mask_spec-IsByte : (key pos : ℕ) (xs : List ℕ) → All IsByte xs → All IsByte (mask_spec key pos xs)
mask_spec-IsByte key pos [] bytes = tt
mask_spec-IsByte key pos (x ∷ xs) bytes = (
  bit_xor-lt 8 x (key / 2 ^ (pos % 4 * 8) % 2 ^ 8) bytes.0 (omega arith),
  mask_spec-IsByte key (pos + 1) xs bytes.1,
)

mask_spec_twice :
    (key pos : ℕ) (xs : List ℕ) → All IsByte xs → mask_spec key pos (mask_spec key pos xs) ≡ xs
mask_spec_twice key pos [] bytes = refl
mask_spec_twice key pos (x ∷ xs) bytes =
    ap₂ ◌∷◌ (bit_xor_twice 8 x (key / 2 ^ (pos % 4 * 8) % 2 ^ 8) bytes.0 (omega arith))
      (mask_spec_twice key (pos + 1) xs bytes.1)

mask_spec-append :
    (key pos : ℕ) (xs ys : List ℕ)
    → mask_spec key pos (xs ++ ys) ≡ mask_spec key pos xs ++ mask_spec key (pos + length xs) ys
mask_spec-append key pos [] ys = mask_spec_mod key pos (pos + 0) ys (omega arith)
mask_spec-append key pos (x ∷ xs) ys = ap (◌∷◌ (bit_xor x (key / 2 ^ (pos % 4 * 8) % 2 ^ 8))) (
    mask_spec-append key (pos + 1) xs ys
    ∙ ap (λ t. mask_spec key (pos + 1) xs ++ t)
        (mask_spec_mod key (pos + 1 + length xs) (pos + suc (length xs)) ys (omega arith)))

-- Unmasking with the key and offset that a payload was masked with gives the payload back.
pub apply_mask-apply_mask :
    (key : ℕ) (payload : List ℕ) (offset : ℕ)
    → key < 2 ^ 32
    → All IsByte payload
    → apply_mask key (apply_mask key payload offset) offset ≡ payload
apply_mask-apply_mask key payload offset h bytes =
    rw (apply_mask-eq-mask_spec key payload offset h bytes) (
      apply_mask-eq-mask_spec key (mask_spec key offset payload) offset h
        (mask_spec-IsByte key offset payload bytes)
      ∙ mask_spec_twice key offset payload bytes)

-- A payload masked in two runs, the second at the offset where the first ends, is masked as a whole.
pub apply_mask-append :
    (key : ℕ) (xs ys : List ℕ) (offset : ℕ)
    → key < 2 ^ 32
    → All IsByte xs
    → All IsByte ys
    → apply_mask key xs offset ++ apply_mask key ys (offset + length xs)
      ≡ apply_mask key (xs ++ ys) offset
apply_mask-append key xs ys offset h hx hy =
    rw
      (
        apply_mask-eq-mask_spec key xs offset h hx,
        apply_mask-eq-mask_spec key ys (offset + length xs) h hy,
        apply_mask-eq-mask_spec key (xs ++ ys) offset h (bytes-append xs ys hx hy),
      )
      (sym (mask_spec-append key offset xs ys))
