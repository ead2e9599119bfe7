-- ===== src/WebSocket/Frame/Accepts.antt =====
-- What the header parser guarantees of every window: it reads nothing outside it, and every frame
-- that it accepts keeps the rules of RFC 6455.
use cornet.Base.{
  ℕ, zero, suc, ◌+◌, ◌*◌, ◌^◌, ◌<◌, ◌≤◌, ◌≡◌, inl, inr, refl, ◌∙◌, bit_or, bit_and, Bool, true,
  false, not, Option, none, some, List, [], ◌∷◌, ◌&&◌, arith, ltb, leb, ◌==◌, if◌then◌else◌, length,
  ==_iff, All, Bool-cases, IsByte, get_or,
}
use cornet.Base.Bits.{bit_or_fields, bit_and_mask}
use cornet.Base.Tables.{throughout, throughout_at}
use cornet.WebSocket.Protocol.{
  Opcode, opcode_value, opcode_is_control, Role, WebSocketError, is_server, is_client,
}
use cornet.WebSocket.Frame.{
  Parsed, need_more, error, frame, fault, Frame, parse_header, parse_opcode, parse_rules,
  parse_length, parse_key, opcode_of, max_control_payload, with_byte, read_be, read_le32,
}

-- A result that is no fault, and whose frame, if it is one, has the property.
abbrev pub Returns : (Frame → Type 0) → Parsed → Type 0
Returns P need_more = Unit
Returns P (frame f) = P f
Returns P (error e) = Unit
Returns P fault = ⊥

-- The bytes that an accepted header takes: the shortest form of its length, and the key.
abbrev pub header_size : ℕ → Bool → ℕ
header_size len masked =
    (if leb len max_control_payload then 2 else if leb len 0xFFFF then 4 else 10)
    + (if masked then 4 else 0)

-- What the first byte of a frame is: FIN, no reserved bit, and the opcode.
abbrev pub first_byte : Bool → Opcode → ℕ
first_byte fin op = (if fin then 128 else 0) + opcode_value op

pub record IsAccepted (role : Role) (w : List ℕ) (f : Frame) : Type 0 where
  pub first : get_or w 0 0 ≡ first_byte f.fin f.opcode
  pub masking : f.masked ≡ is_server role
  pub control :
      opcode_is_control f.opcode ≡ true → (f.fin ≡ true) × (f.payload_len ≤ max_control_payload)
  pub len_fits : f.payload_len < 2 ^ 63
  pub key_fits : f.mask_key < 2 ^ 32
  pub minimal : f.header_len ≡ header_size f.payload_len f.masked
  pub inside : f.header_len ≤ length w

-- Running on behind a test, and behind a read.
module _ (P : Frame → Type 0) where
  unless-Returns :
      (b : Bool) (e : WebSocketError) (r : Parsed)
      → (b ≡ false → Returns P r)
      → Returns P (if b then error e else r)
  unless-Returns true e r h = tt
  unless-Returns false e r h = h refl

  enough-Returns :
      (n : ℕ) (w : List ℕ) (r : Parsed)
      → (n ≤ length w → Returns P r)
      → Returns P (if ltb (length w) n then need_more else r)
  enough-Returns n w r h = elim (Bool-cases (ltb (length w) n)) [
    | inl e ↦ rw e tt
    | inr e ↦ rw e (h (ground arith))
  ]

  with_byte-Returns :
      (w : List ℕ) (i : ℕ) (k : ℕ → Parsed)
      → All IsByte w
      → i < length w
      → ((b : ℕ) → b < 256 → Returns P (k b))
      → Returns P (with_byte w i k)
  with_byte-Returns [] i k bytes h g = absurd (omega arith)
  with_byte-Returns (x ∷ w) zero k bytes h g = g x bytes.0
  with_byte-Returns (x ∷ w) (suc i) k bytes h g = with_byte-Returns w i k bytes.1 (omega arith) g

  first-Returns :
      (w : List ℕ) (k : ℕ → Parsed)
      → All IsByte w
      → 1 ≤ length w
      → ((b : ℕ) → b < 256 → get_or w 0 0 ≡ b → Returns P (k b))
      → Returns P (with_byte w 0 k)
  first-Returns [] k bytes h g = absurd (omega arith)
  first-Returns (x ∷ w) k bytes h g = g x bytes.0 refl

  read_be-Returns :
      (n : ℕ) (w : List ℕ) (i v : ℕ) (k : ℕ → Parsed)
      → All IsByte w
      → i + n ≤ length w
      → ((b : ℕ) → Returns P (k b))
      → Returns P (read_be n w i v k)
  unfolding read_be
  read_be-Returns zero w i v k bytes h g = g v
  read_be-Returns (suc n) w i v k bytes h g =
      with_byte-Returns w i _ bytes (omega arith)
        λ b _. read_be-Returns n w (i + 1) _ k bytes (omega arith) g

  read_le32-Returns :
      (w : List ℕ) (i : ℕ) (k : ℕ → Parsed)
      → All IsByte w
      → i + 4 ≤ length w
      → ((b : ℕ) → b < 2 ^ 32 → Returns P (k b))
      → Returns P (read_le32 w i k)
  read_le32-Returns w i k bytes h g = with_byte-Returns w i _ bytes (omega arith) λ a ha.
      with_byte-Returns w (i + 1) _ bytes (omega arith) λ b hb.
        with_byte-Returns w (i + 2) _ bytes (omega arith)
          λ c hc. with_byte-Returns w (i + 3) _ bytes (omega arith) λ d hd. g _ (omega arith)

-- The stages, last first.
module _ (role : Role) (w : List ℕ) (bytes : All IsByte w) (fin : Bool) (op : Opcode)
    (first : get_or w 0 0 ≡ first_byte fin op) where
  abbrev Control : ℕ → Type 0
  Control len = opcode_is_control op ≡ true → (fin ≡ true) × (len ≤ max_control_payload)

  parse_key-Returns :
      (masked : Bool) (off len : ℕ)
      → masked ≡ is_server role
      → Control len
      → len < 2 ^ 63
      → off + (if masked then 4 else 0) ≡ header_size len masked
      → off ≤ length w
      → Returns (IsAccepted role w) (parse_key w fin op masked off len)
  unfolding parse_key
  parse_key-Returns true off len masking control fits minimal inside =
      enough-Returns (IsAccepted role w) (off + 4) w _ λ h.
        read_le32-Returns (IsAccepted role w) w off
          (λ key. frame (record {
            fin = fin;
            opcode = op;
            payload_len = len;
            masked = true;
            mask_key = key;
            header_len = off + 4;
          }))
          bytes h
          (λ key hk. record {
            first = first;
            masking = masking;
            control = control;
            len_fits = fits;
            key_fits = hk;
            minimal = minimal;
            inside = h;
          })
  parse_key-Returns false off len masking control fits minimal inside = record {
    first = first;
    masking = masking;
    control = control;
    len_fits = fits;
    key_fits = omega arith;
    minimal = omega arith;
    inside = inside;
  }

  module _ (masked : Bool) (masking : masked ≡ is_server role) where
    -- The two-byte length.
    parse_medium-Returns :
        (v : ℕ)
        → Control 126
        → v < 2 ^ 16
        → max_control_payload < v
        → 4 ≤ length w
        → Returns (IsAccepted role w) (parse_key w fin op masked 4 v)
    parse_medium-Returns v control small large h =
        parse_key-Returns masked 4 v masking (λ c. absurd (omega (arith, (control c).1)))
          (omega arith) (ground arith) h

    parse_long-Returns :
        (v : ℕ)
        → Control 127
        → v < 2 ^ 63
        → 0xFFFF < v
        → 10 ≤ length w
        → Returns (IsAccepted role w) (parse_key w fin op masked 10 v)
    parse_long-Returns v control small large h =
        parse_key-Returns masked 10 v masking (λ c. absurd (omega (arith, (control c).1))) small
          (ground arith) h

    parse_length-Returns :
        (len : ℕ)
        → len < 128
        → Control len
        → 2 ≤ length w
        → Returns (IsAccepted role w) (parse_length w fin op masked len)
    unfolding parse_length
    parse_length-Returns len small control two = elim (Bool-cases (len == 126)) [
      | inl e ↦ rw e (
          enough-Returns P 4 w _ λ h. with_byte-Returns P w 2 _ bytes (omega arith) λ hi hhi.
            with_byte-Returns P w 3 _ bytes (omega arith) λ lo hlo.
              let v = bit_or (hi * 2 ^ 8) lo in
              let sum : v ≡ hi * 256 + lo = bit_or_fields 8 hi lo hlo in
              unless-Returns P (leb v max_control_payload) WebSocketError.non_canonical_length
                (parse_key w fin op masked 4 v)
                λ g.
                  parse_medium-Returns v (rw ((==_iff len 126).0 e) at control) (omega arith)
                    (ground arith) h)
      | inr e ↦ rw e (elim (Bool-cases (len == 127)) [
        | inl g ↦ rw g (
            enough-Returns P 10 w _ λ h. read_be-Returns P 8 w 2 0 _ bytes h λ v.
              let next = parse_key w fin op masked 10 v in
              let wide = WebSocketError.non_canonical_length in
              unless-Returns P (ltb 0x7FFF_FFFF_FFFF_FFFF v) wide
                (if leb v 0xFFFF then error wide else next)
                λ small. unless-Returns P (leb v 0xFFFF) wide next λ large.
                  parse_long-Returns v (rw ((==_iff len 127).0 g) at control) (ground arith)
                    (ground arith) h)
        | inr g ↦
            rw g (parse_key-Returns masked 2 len masking control (omega arith) (ground arith) two)
      ])
    ]
      where
        P : Frame → Type 0
        P = IsAccepted role w

parse_rules-Returns :
    (role : Role) (w : List ℕ)
    → All IsByte w
    → (fin : Bool) (op : Opcode) (masked : Bool) (len : ℕ) → get_or w 0 0 ≡ first_byte fin op
    → len < 128
    → 2 ≤ length w
    → Returns (IsAccepted role w) (parse_rules role w fin op masked len)
unfolding parse_rules
parse_rules-Returns role w bytes fin op masked len first small two =
    unless-Returns P (is_server role && not masked) _ _ λ a.
      unless-Returns P (is_client role && masked) _ _ λ b.
        unless-Returns P (opcode_is_control op && not fin) _ _ λ c.
          unless-Returns P (opcode_is_control op && ltb max_control_payload len) _ _ λ d.
            parse_length-Returns role w bytes fin op first masked (ground arith) len small
              (ground arith) two
  where
    P : Frame → Type 0
    P = IsAccepted role w

parse_opcode-Returns :
    (role : Role) (w : List ℕ)
    → All IsByte w
    → (fin masked : Bool) (len : ℕ) (o : Option Opcode)
    → ((op : Opcode) → o ≡ some op → get_or w 0 0 ≡ first_byte fin op)
    → len < 128
    → 2 ≤ length w
    → Returns (IsAccepted role w) (parse_opcode role w fin masked len o)
unfolding parse_opcode
parse_opcode-Returns role w bytes fin masked len none first small two = tt
parse_opcode-Returns role w bytes fin masked len (some op) first small two =
    parse_rules-Returns role w bytes fin op masked len (first op refl) small two

-- Whether byte `b` is the first byte of its FIN bit and its opcode, if it has one of the known opcodes
-- and no reserved bit.
good_first : ℕ → Bool
good_first b =
    if bit_and b 0x70 == 0
    then elim (opcode_of (bit_and b 0x0F)) [
      | none ↦ true
      | some op ↦ b == first_byte (not (bit_and b 0x80 == 0)) op
    ]
    else true

first_table : throughout 256 good_first ≡ true
unfolding throughout good_first
first_table = refl

good_first-first_byte :
    (b : ℕ)
    → b < 256
    → (not (bit_and b 0x70 == 0)) ≡ false
    → (op : Opcode) → opcode_of (bit_and b 0x0F) ≡ some op
    → b ≡ first_byte (not (bit_and b 0x80 == 0)) op
unfolding good_first
good_first-first_byte b h clear op e =
    let zero_bits : (bit_and b 0x70 == 0) ≡ true = ground arith in
    (==_iff b (first_byte (not (bit_and b 0x80 == 0)) op)).0
      (rw (zero_bits, e) at (throughout_at 256 b good_first first_table h))

-- Parsing any window of bytes reads no byte outside it; and a frame that it returns has the FIN bit and the
-- opcode of the first byte, whose reserved bits are 0, is masked exactly if the parser is a server's, is whole
-- and short if it is a control frame, has a length below 2 ^ 63 and a key below 2 ^ 32, and has a header
-- of the shortest form for its length, which lies inside the window.
pub parse_header-Returns :
    (role : Role) (w : List ℕ) → All IsByte w → Returns (IsAccepted role w) (parse_header role w)
unfolding parse_header
parse_header-Returns role w bytes = enough-Returns P 2 w _ λ h.
    first-Returns P w _ bytes (omega arith) λ b0 h0 e0.
      with_byte-Returns P w 1 _ bytes (omega arith) λ b1 h1.
        let fin = not (bit_and b0 0x80 == 0) in
        let masked = not (bit_and b1 0x80 == 0) in
        let op = opcode_of (bit_and b0 0x0F) in
        unless-Returns P (not (bit_and b0 0x70 == 0)) WebSocketError.reserved_bits
          (parse_opcode role w fin masked (bit_and b1 0x7F) op)
          λ g.
            parse_opcode-Returns role w bytes fin masked (bit_and b1 0x7F) op
              (λ o e. e0 ∙ good_first-first_byte b0 h0 g o e) (omega (arith, bit_and_mask 7 b1)) h
  where
    P : Frame → Type 0
    P = IsAccepted role w
