-- ===== src/WebSocket/Mask.antt =====
-- src/websocket/common/frame.cc, `apply_mask`: the payload mask, applied in place byte by byte up to
-- a key boundary, then word by word, then byte by byte. The list is `data[i .. len)`.
pub mod Laws
mod Tests
use cornet.Base.{
  ℕ, zero, suc, ◌+◌, ◌*◌, ◌/◌, ◌%◌, ◌^◌, bit_and, bit_xor, if◌then◌else◌, ◌==◌, List, [], ◌∷◌, ◌++◌,
}
use cornet.WebSocket.Frame.{le32}

-- `data[i] ^= char(key >> shift)`
abbrev pub mask_byte : ℕ → ℕ → ℕ → ℕ
mask_byte key shift x = bit_xor x (key / 2 ^ shift % 2 ^ 8)

-- The last loop, `t` rounds in.
pub mask_tail : ℕ → ℕ → List ℕ → List ℕ
mask_tail key t [] = []
mask_tail key t (x ∷ xs) = mask_byte key (t * 8) x ∷ mask_tail key (t + 1) xs

-- `memcpy(&v, p, 4); v ^= key; memcpy(p, &v, 4)` on a little-endian host.
abbrev pub mask_word : ℕ → ℕ → ℕ → ℕ → ℕ → List ℕ
mask_word key a b c d = le32 (bit_xor (a + b * 2 ^ 8 + c * 2 ^ 16 + d * 2 ^ 24) key)

-- The loop over whole words, then the last loop.
pub mask_body : ℕ → List ℕ → List ℕ
mask_body key (a ∷ b ∷ c ∷ d ∷ xs) = mask_word key a b c d ++ mask_body key xs
mask_body key xs = mask_tail key 0 xs

-- The first loop at payload position `pos`, a `uint64_t`, then the others.
pub mask_head : ℕ → ℕ → List ℕ → List ℕ
mask_head key pos [] = mask_body key []
mask_head key pos (x ∷ xs) =
    let rest = mask_head key ((pos + 1) % 2 ^ 64) xs in
    if bit_and pos 3 == 0
    then mask_body key (x ∷ xs)
    else mask_byte key (bit_and pos 3 * 8) x ∷ rest

unfoldable pub apply_mask : ℕ → List ℕ → ℕ → List ℕ
unfolding mask_head mask_body mask_tail
apply_mask key payload offset = mask_head key offset payload
