-- ===== src/WebSocket/Frame/RoundTrip.antt =====
-- The header parser reads back what the header writer writes.
use cornet.Base.{
  ℕ, ◌+◌, ◌/◌, ◌%◌, ◌^◌, ◌<◌, ◌≤◌, ◌≡◌, ◌≢◌, inl, inr, refl, ◌∙◌, bit_or, Bool, true, false, not,
  List, ◌∷◌, ◌++◌, arith, ◌==◌, if◌then◌else◌, le_or_lt, length,
}
use cornet.Base.Bits.{bit_or_fields}
use cornet.WebSocket.Protocol.{Opcode, opcode_is_control, opcode_value, Role, is_server}
use cornet.WebSocket.Frame.{
  Parsed, frame, parse_header, parse_opcode, parse_rules, parse_length, max_control_payload,
  write_frame_header,
}
use cornet.WebSocket.Frame.Reads.{put_be-eq, digits64}
use cornet.WebSocket.Frame.Stages.{
  parse_two, parse_header-two, KeepsRules, parse_rules-KeepsRules, key_bytes, masked_by,
  header_frame, parse_key_two, parse_key_four, parse_key_ten, parse_length_short,
  parse_length_medium, parse_length_long,
}

-- The key that a peer of this role's parser sends: never 0 to a server, always 0 to a client.
abbrev pub KeyFits : Role → ℕ → Type 0
KeyFits Role.server key = key ≢ 0
KeyFits Role.client key = key ≡ 0

-- A header that RFC 6455 lets a peer send to the given role.
pub record IsSendable (role : Role) (fin : Bool) (op : Opcode) (len key : ℕ) : Type 0 where
  pub len_fits : len < 2 ^ 63
  pub key_fits : key < 2 ^ 32
  pub key_role : KeyFits role key
  pub control : opcode_is_control op ≡ true → (fin ≡ true) × (len ≤ max_control_payload)

-- The two header bytes as sums.
pub first_byte :
    (fin : Bool) (op : Opcode)
    → bit_or (if fin then 0x80 else 0x00) (opcode_value op)
      ≡ (if fin then 0x80 else 0x00) + opcode_value op
first_byte true Opcode.continue = refl
first_byte true Opcode.text = refl
first_byte true Opcode.binary = refl
first_byte true Opcode.close = refl
first_byte true Opcode.ping = refl
first_byte true Opcode.pong = refl
first_byte false Opcode.continue = refl
first_byte false _ = refl

abbrev pub mask_bit : ℕ → ℕ
mask_bit key = if key == 0 then 0x00 else 0x80

pub second_byte : (key l : ℕ) → l < 128 → bit_or (mask_bit key) l ≡ mask_bit key + l
second_byte key l h = ground (arith, bit_or_fields 7 0 l h, bit_or_fields 7 1 l h)

-- The parser's view of the first two bytes that the writer writes.
parse_two_lem :
    (role : Role) (fin : Bool) (op : Opcode) (key l : ℕ) (window : List ℕ)
    → l < 128
    → parse_two role window ((if fin then 0x80 else 0x00) + opcode_value op) (mask_bit key + l)
      ≡ parse_rules role window fin op (masked_by key) l
unfolding parse_opcode
parse_two_lem role fin Opcode.continue key l window h = ground arith
parse_two_lem role fin Opcode.text key l window h = ground arith
parse_two_lem role fin Opcode.binary key l window h = ground arith
parse_two_lem role fin Opcode.close key l window h = ground arith
parse_two_lem role fin _ key l window h = ground arith

-- The three forms that the writer chooses between.
module _ (fin : Bool) (op : Opcode) (len key : ℕ) where
  abbrev pub b0 : ℕ
  b0 = bit_or (if fin then 0x80 else 0x00) (opcode_value op)

  abbrev pub b1 : ℕ → ℕ
  b1 l = bit_or (mask_bit key) l

  pub write_short :
      len ≤ max_control_payload → write_frame_header fin op len key ≡ b0 ∷ b1 len ∷ key_bytes key
  unfolding write_frame_header
  write_short h = let e : len % 2 ^ 8 ≡ len = omega arith in ground arith

  pub write_medium :
      max_control_payload < len
      → len ≤ 0xFFFF
      → write_frame_header fin op len key
        ≡ b0 ∷ b1 126 ∷ (len / 2 ^ 8 % 2 ^ 8) ∷ (len % 2 ^ 8) ∷ key_bytes key
  unfolding write_frame_header
  write_medium h g = ground arith

  pub write_long :
      0xFFFF < len
      → len < 2 ^ 63
      → write_frame_header fin op len key ≡ b0 ∷ b1 127 ∷ (digits64 len ++ key_bytes key)
  unfolding write_frame_header
  write_long h g = ground (arith, put_be-eq len g)

module _ {role : Role} {fin : Bool} {op : Opcode} {len key : ℕ} (s : IsSendable role fin op len key)
    (rest : List ℕ) where
  rules_kept :
      (l : ℕ)
      → (opcode_is_control op ≡ true → l ≤ max_control_payload)
      → KeepsRules role fin op (masked_by key) l
  rules_kept l h = record {
    masking = masking role s.key_role;
    control = λ c. ((s.control c).0, h c);
  }
    where
      masking : (r : Role) → KeyFits r key → masked_by key ≡ is_server r
      masking Role.server k = ground arith
      masking Role.client k = ground arith

  pub start :
      (l : ℕ) (tail : List ℕ)
      → l < 128
      → (opcode_is_control op ≡ true → l ≤ max_control_payload)
      → parse_header role (b0 fin op len key ∷ b1 fin op len key l ∷ tail)
        ≡ parse_length (b0 fin op len key ∷ b1 fin op len key l ∷ tail) fin op (masked_by key) l
  start l tail h c =
      rw (first_byte fin op, second_byte key l h)
        (parse_header-two role _ _ tail (ground arith) (ground arith)
          ∙ parse_two_lem role fin op key l _ h
          ∙ parse_rules-KeepsRules role _ fin op (masked_by key) l (rules_kept l c))

  -- What the parser is to return.
  abbrev sent : List ℕ → Parsed
  sent header = frame (header_frame fin op len key header)

  read_short :
      len ≤ max_control_payload
      → parse_header role (b0 fin op len key ∷ b1 fin op len key len ∷ (key_bytes key ++ rest))
        ≡ sent (b0 fin op len key ∷ b1 fin op len key len ∷ key_bytes key)
  read_short h =
      start len (key_bytes key ++ rest) (omega arith) (λ _. h)
      ∙ parse_length_short fin op (masked_by key) len _ _ (key_bytes key ++ rest) (omega arith)
      ∙ parse_key_two fin op len key s.key_fits rest _ _

  read_medium :
      max_control_payload < len
      → len ≤ 0xFFFF
      → parse_header role (
          b0 fin op len key
          ∷ b1 fin op len key 126
          ∷ (len / 2 ^ 8 % 2 ^ 8)
          ∷ (len % 2 ^ 8)
          ∷ (key_bytes key ++ rest))
        ≡ sent (
            b0 fin op len key
            ∷ b1 fin op len key 126
            ∷ (len / 2 ^ 8 % 2 ^ 8)
            ∷ (len % 2 ^ 8)
            ∷ key_bytes key)
  read_medium h g =
      start 126 _ (omega arith) (λ c. absurd (omega (arith, (s.control c).1)))
      ∙ parse_length_medium fin op (masked_by key) len _ _ (key_bytes key ++ rest) h g
      ∙ parse_key_four fin op len key s.key_fits rest _ _ _ _

  read_long :
      0xFFFF < len
      → parse_header role
          (b0 fin op len key ∷ b1 fin op len key 127 ∷ (digits64 len ++ (key_bytes key ++ rest)))
        ≡ sent (b0 fin op len key ∷ b1 fin op len key 127 ∷ (digits64 len ++ key_bytes key))
  read_long h =
      start 127 _ (omega arith) (λ c. absurd (omega (arith, (s.control c).1)))
      ∙ parse_length_long fin op (masked_by key) len _ _ (key_bytes key ++ rest) h s.len_fits
      ∙ parse_key_ten fin op len key s.key_fits rest _ _ _ _ _ _ _ _ _ _

  -- The parser of either role, given the header that `write_frame_header` writes for a frame that
  -- may be sent to that role, with anything behind it, returns that frame: the same flag, opcode,
  -- length and key, and the number of bytes that were written as the header's length.
  pub parse_header-write_frame_header :
      parse_header role (write_frame_header fin op len key ++ rest)
      ≡ frame (record {
        fin = fin;
        opcode = op;
        payload_len = len;
        masked = not (key == 0);
        mask_key = key;
        header_len = length (write_frame_header fin op len key);
      })
  parse_header-write_frame_header = elim (le_or_lt len max_control_payload) [
    | inl h ↦ rw (write_short fin op len key h) (read_short h)
    | inr h ↦ elim (le_or_lt len 0xFFFF) [
      | inl g ↦ rw (write_medium fin op len key h g) (read_medium h g)
      | inr g ↦ rw (write_long fin op len key g s.len_fits) (read_long g)
    ]
  ]
