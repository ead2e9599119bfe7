-- ===== src/WebSocket/Frame/Stages.antt =====
-- Each stage of the header parser on a window whose first two bytes are given.
use cornet.Base.{
  ℕ, ◌+◌, ◌*◌, ◌/◌, ◌%◌, ◌^◌, ◌<◌, ◌≤◌, ◌≡◌, bit_and, Bool, true, not, List, [], ◌∷◌, ◌++◌, arith,
  leb, ◌==◌, if◌then◌else◌, length,
}
use cornet.Base.Bits.{bit_or_fields, bit_and_mask, bit_and_top, bit_and_middle}
use cornet.WebSocket.Frame.Reads.{digits64, read_be-digits64}
use cornet.WebSocket.Protocol.{Opcode, opcode_is_control, Role, is_server, WebSocketError}
use cornet.WebSocket.Frame.{
  Parsed, frame, error, Frame, parse_header, parse_opcode, parse_rules, parse_length, parse_key,
  opcode_of, le32, max_control_payload,
}

-- The fields of the first two bytes, and the stages that follow, in plain arithmetic.
abbrev pub parse_two : Role → List ℕ → ℕ → ℕ → Parsed
parse_two role window b0 b1 =
    if not (b0 / 16 % 8 == 0)
    then error WebSocketError.reserved_bits
    else parse_opcode role window (leb 128 b0) (leb 128 b1) (b1 % 128) (opcode_of (b0 % 16))

top_bit : (b : ℕ) → b < 256 → not (bit_and b 0x80 == 0) ≡ leb 128 b
top_bit b h = rw (bit_and_top b h) (ground arith)

middle_bits : (b : ℕ) → b < 256 → not (bit_and b 0x70 == 0) ≡ not (b / 16 % 8 == 0)
middle_bits b h = rw (bit_and_middle b h) (ground arith)

pub parse_header-two :
    (role : Role) (b0 b1 : ℕ) (rest : List ℕ)
    → b0 < 256
    → b1 < 256
    → parse_header role (b0 ∷ b1 ∷ rest) ≡ parse_two role (b0 ∷ b1 ∷ rest) b0 b1
unfolding parse_header
parse_header-two role b0 b1 rest h g =
    rw (middle_bits b0 h, top_bit b0 h, top_bit b1 g, bit_and_mask 4 b0, bit_and_mask 7 b1)
      (ground arith)

-- The rules that a header must keep before its length is read.
pub record KeepsRules (role : Role) (fin : Bool) (op : Opcode) (masked : Bool) (len : ℕ)
    : Type 0 where
  pub masking : masked ≡ is_server role
  pub control : opcode_is_control op ≡ true → (fin ≡ true) × (len ≤ max_control_payload)

pub parse_rules-KeepsRules :
    (role : Role) (window : List ℕ) (fin : Bool) (op : Opcode) (masked : Bool) (len : ℕ)
    → KeepsRules role fin op masked len
    → parse_rules role window fin op masked len ≡ parse_length window fin op masked len
unfolding parse_rules
parse_rules-KeepsRules Role.server window fin op masked len h = ground arith
parse_rules-KeepsRules Role.client window fin op masked len h = ground arith

-- The three length forms on a window that holds the whole length.
module _ (fin : Bool) (op : Opcode) (masked : Bool) (len x y : ℕ) (tail : List ℕ) where
  pub parse_length_short :
      len < 126
      → parse_length (x ∷ y ∷ tail) fin op masked len ≡ parse_key (x ∷ y ∷ tail) fin op masked 2 len
  unfolding parse_length
  parse_length_short h = ground arith

  pub parse_length_medium :
      max_control_payload < len
      → len ≤ 0xFFFF
      → let window = x ∷ y ∷ (len / 2 ^ 8 % 2 ^ 8) ∷ (len % 2 ^ 8) ∷ tail in
        parse_length window fin op masked 126 ≡ parse_key window fin op masked 4 len
  unfolding parse_length
  parse_length_medium h g =
      ground (arith, bit_or_fields 8 (len / 2 ^ 8 % 2 ^ 8) (len % 2 ^ 8) (omega arith))

  pub parse_length_long :
      0xFFFF < len
      → len < 2 ^ 63
      → let window = x ∷ y ∷ (digits64 len ++ tail) in
        parse_length window fin op masked 127 ≡ parse_key window fin op masked 10 len
  unfolding parse_length
  parse_length_long h g = rw (read_be-digits64 x y len tail _ g) (ground arith)

-- Reading the key back from the four bytes that hold it.
le32-value :
    (key : ℕ)
    → key < 2 ^ 32
    → key % 2 ^ 8
        + key / 2 ^ 8 % 2 ^ 8 * 2 ^ 8
        + key / 2 ^ 16 % 2 ^ 8 * 2 ^ 16
        + key / 2 ^ 24 % 2 ^ 8 * 2 ^ 24
      ≡ key
le32-value key h = omega arith

-- What the writer puts behind the length: the key, unless it is 0.
abbrev pub key_bytes : ℕ → List ℕ
key_bytes key = if key == 0 then [] else le32 key

abbrev pub masked_by : ℕ → Bool
masked_by key = not (key == 0)

abbrev pub header_frame : Bool → Opcode → ℕ → ℕ → List ℕ → Frame
header_frame fin op len key header = record {
  fin = fin;
  opcode = op;
  payload_len = len;
  masked = masked_by key;
  mask_key = key;
  header_len = length header;
}

module _ (fin : Bool) (op : Opcode) (len key : ℕ) (h : key < 2 ^ 32) (rest : List ℕ) where
  pub parse_key_two :
      (x y : ℕ)
      → parse_key (x ∷ y ∷ (key_bytes key ++ rest)) fin op (masked_by key) 2 len
        ≡ frame (header_frame fin op len key (x ∷ y ∷ key_bytes key))
  unfolding parse_key
  parse_key_two x y = ground (arith, le32-value key h)

  pub parse_key_four :
      (x y z w : ℕ)
      → parse_key (x ∷ y ∷ z ∷ w ∷ (key_bytes key ++ rest)) fin op (masked_by key) 4 len
        ≡ frame (header_frame fin op len key (x ∷ y ∷ z ∷ w ∷ key_bytes key))
  unfolding parse_key
  parse_key_four x y z w = ground (arith, le32-value key h)

  pub parse_key_ten :
      (x y a b c d e f g i : ℕ)
      → parse_key
          (x ∷ y ∷ a ∷ b ∷ c ∷ d ∷ e ∷ f ∷ g ∷ i ∷ (key_bytes key ++ rest))
          fin
          op
          (masked_by key)
          10
          len
        ≡ frame
            (header_frame fin op len key (x ∷ y ∷ a ∷ b ∷ c ∷ d ∷ e ∷ f ∷ g ∷ i ∷ key_bytes key))
  unfolding parse_key
  parse_key_ten x y a b c d e f g i = ground (arith, le32-value key h)
