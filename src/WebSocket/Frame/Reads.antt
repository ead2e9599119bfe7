-- ===== src/WebSocket/Frame/Reads.antt =====
-- The reads of the header parser on a window whose bytes are given.
use cornet.Base.{ℕ, ◌+◌, ◌*◌, ◌/◌, ◌%◌, ◌^◌, ◌<◌, ◌≡◌, ap, bit_or, List, [], ◌∷◌, ◌++◌, ◌∙◌, arith}
use cornet.Base.Bits.{bit_or_fields}
use cornet.WebSocket.Frame.{Parsed, read_be, put_be}

-- One round of the loop over a length's bytes appends a base-256 digit.
shift_in : (v b : ℕ) → v < 2 ^ 56 → b < 256 → bit_or (v * 2 ^ 8 % 2 ^ 64) b ≡ v * 256 + b
shift_in v b h g =
    let e : v * 2 ^ 8 % 2 ^ 64 ≡ v * 2 ^ 8 = omega arith in rw e (bit_or_fields 8 v b g)

-- Eight bytes as a number, most significant first.
abbrev pub be64 : ℕ → ℕ → ℕ → ℕ → ℕ → ℕ → ℕ → ℕ → ℕ
be64 a b c d e f g h =
    ((((((a * 256 + b) * 256 + c) * 256 + d) * 256 + e) * 256 + f) * 256 + g) * 256 + h

pub read_be-be64 :
    (x y a b c d e f g h : ℕ) (rest : List ℕ) (k : ℕ → Parsed)
    → a < 256
    → b < 256
    → c < 256
    → d < 256
    → e < 256
    → f < 256
    → g < 256
    → h < 256
    → read_be 8 (x ∷ y ∷ a ∷ b ∷ c ∷ d ∷ e ∷ f ∷ g ∷ h ∷ rest) 2 0 k ≡ k (be64 a b c d e f g h)
unfolding read_be
read_be-be64 x y a b c d e f g h rest k ha hb hc hd he hf hg hh =
    let v1 = 0 * 256 + a in
    let v2 = v1 * 256 + b in
    let v3 = v2 * 256 + c in
    let v4 = v3 * 256 + d in
    let v5 = v4 * 256 + e in
    let v6 = v5 * 256 + f in
    let v7 = v6 * 256 + g in
    rw
      (
        shift_in 0 a (omega arith) ha,
        shift_in v1 b (omega arith) hb,
        shift_in v2 c (omega arith) hc,
        shift_in v3 d (omega arith) hd,
        shift_in v4 e (omega arith) he,
        shift_in v5 f (omega arith) hf,
        shift_in v6 g (omega arith) hg,
        shift_in v7 h (omega arith) hh,
      )
      (ap k (omega arith))

-- The base-256 digits of a 64-bit length, most significant first.
abbrev pub digits64 : ℕ → List ℕ
digits64 v =
    (v / 2 ^ 56 % 256)
    ∷ (v / 2 ^ 48 % 256)
    ∷ (v / 2 ^ 40 % 256)
    ∷ (v / 2 ^ 32 % 256)
    ∷ (v / 2 ^ 24 % 256)
    ∷ (v / 2 ^ 16 % 256)
    ∷ (v / 2 ^ 8 % 256)
    ∷ (v % 256)
    ∷ []

-- The eight bytes that the writer stores are the digits of the length.
pub put_be-eq : (v : ℕ) → v < 2 ^ 63 → put_be 8 0 v ≡ digits64 v
unfolding put_be
put_be-eq v h = ground arith

pub be64-digits :
    (v : ℕ)
    → v < 2 ^ 63
    → be64
        (v / 2 ^ 56 % 256)
        (v / 2 ^ 48 % 256)
        (v / 2 ^ 40 % 256)
        (v / 2 ^ 32 % 256)
        (v / 2 ^ 24 % 256)
        (v / 2 ^ 16 % 256)
        (v / 2 ^ 8 % 256)
        (v % 256)
      ≡ v
be64-digits v h = omega arith

pub read_be-digits64 :
    (x y v : ℕ) (rest : List ℕ) (k : ℕ → Parsed)
    → v < 2 ^ 63
    → read_be 8 (x ∷ y ∷ (digits64 v ++ rest)) 2 0 k ≡ k v
read_be-digits64 x y v rest k h =
    read_be-be64 x y (v / 2 ^ 56 % 256) (v / 2 ^ 48 % 256) (v / 2 ^ 40 % 256) (v / 2 ^ 32 % 256)
      (v / 2 ^ 24 % 256) (v / 2 ^ 16 % 256) (v / 2 ^ 8 % 256) (v % 256) rest k (omega arith)
      (omega arith) (omega arith) (omega arith) (omega arith) (omega arith) (omega arith)
      (omega arith)
    ∙ ap k (be64-digits v h)

pub digits-be64 :
    (a b c d e f g h : ℕ)
    → a < 256
    → b < 256
    → c < 256
    → d < 256
    → e < 256
    → f < 256
    → g < 256
    → h < 256
    → put_be 8 0 (be64 a b c d e f g h) ≡ a ∷ b ∷ c ∷ d ∷ e ∷ f ∷ g ∷ h ∷ []
unfolding put_be
digits-be64 a b c d e f g h ha hb hc hd he hf hg hh = ground arith
