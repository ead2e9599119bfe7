-- ===== src/WebSocket/Frame.antt =====
-- src/websocket/common/frame.cc: the frame header parser and writer. Bytes are numbers below 256,
-- and a window is the list of the bytes that have arrived.
mod Reads
mod Stages
pub mod RoundTrip
pub mod Accepts
pub mod Incremental
mod Tests
use cornet.Base.{
  ℕ, zero, suc, ◌+◌, ◌-◌, ◌*◌, ◌/◌, ◌%◌, ◌^◌, bit_and, bit_or, Bool, not, ◌&&◌, if◌then◌else◌, ltb,
  leb, ◌==◌, Option, none, some, List, [], ◌∷◌, ◌++◌, length, get_elem?,
}
use cornet.WebSocket.Protocol.{
  Opcode, opcode_value, opcode_is_control, Role, is_server, is_client, WebSocketError,
}

abbrev pub max_control_payload : ℕ
max_control_payload = 125

-- `frame_t`
pub record Frame : Type 0 where
  pub fin : Bool
  pub opcode : Opcode
  pub payload_len : ℕ
  pub masked : Bool
  pub mask_key : ℕ
  pub header_len : ℕ

-- What `parse` returns: `result_t`, with the frame it fills and the error it records. `fault` is a
-- read outside the window, which C++ leaves undefined.
pub data Parsed : Type 0 where
  need_more : Parsed
  frame : Frame → Parsed
  error : WebSocketError → Parsed
  fault : Parsed

-- Reading the byte at an index, and the loop over `n` bytes that shifts them into a `uint64_t`.
abbrev pub with_byte : List ℕ → ℕ → (ℕ → Parsed) → Parsed
with_byte window i k = elim (get_elem? window i) [ none ↦ fault | some b ↦ k b ]

pub read_be : ℕ → List ℕ → ℕ → ℕ → (ℕ → Parsed) → Parsed
read_be zero window i v k = k v
read_be (suc n) window i v k =
    with_byte window i λ b. read_be n window (i + 1) (bit_or (v * 2 ^ 8 % 2 ^ 64) b) k

-- `memcpy(&mask_key, p, 4)` on a little-endian host.
abbrev pub read_le32 : List ℕ → ℕ → (ℕ → Parsed) → Parsed
read_le32 window i k = with_byte window i λ a. with_byte window (i + 1) λ b.
    with_byte window (i + 2)
      λ c. with_byte window (i + 3) λ d. k (a + b * 2 ^ 8 + c * 2 ^ 16 + d * 2 ^ 24)

-- The switch on the opcode value; `none` is its default branch.
abbrev pub opcode_of : ℕ → Option Opcode
opcode_of v =
    if v == 0x0
    then some Opcode.continue
    else if v == 0x1
    then some Opcode.text
    else if v == 0x2
    then some Opcode.binary
    else if v == 0x8
    then some Opcode.close
    else if v == 0x9
    then some Opcode.ping
    else if v == 0xA
    then some Opcode.pong
    else none

-- The mask key and the result, once the length is known to be `len` and to end at `off`.
pub parse_key : List ℕ → Bool → Opcode → Bool → ℕ → ℕ → Parsed
parse_key window fin op masked off len =
    if masked
    then (if ltb (length window) (off + 4)
        then need_more
        else read_le32 window off λ key. frame (record {
          fin = fin;
          opcode = op;
          payload_len = len;
          masked = masked;
          mask_key = key;
          header_len = off + 4;
        }))
    else frame (record {
      fin = fin;
      opcode = op;
      payload_len = len;
      masked = masked;
      mask_key = 0;
      header_len = off;
    })

-- The extended length forms.
pub parse_length : List ℕ → Bool → Opcode → Bool → ℕ → Parsed
parse_length window fin op masked len =
    if len == 126
    then (if ltb (length window) 4
        then need_more
        else with_byte window 2 λ hi. with_byte window 3 λ lo.
          let v = bit_or (hi * 2 ^ 8) lo in
          if leb v max_control_payload
          then error WebSocketError.non_canonical_length
          else parse_key window fin op masked 4 v)
    else if len == 127
    then (if ltb (length window) 10
        then need_more
        else read_be 8 window 2 0 λ v.
          if ltb 0x7FFF_FFFF_FFFF_FFFF v
          then error WebSocketError.non_canonical_length
          else if leb v 0xFFFF
          then error WebSocketError.non_canonical_length
          else parse_key window fin op masked 10 v)
    else parse_key window fin op masked 2 len

-- The masking rule of the role and the shape of control frames, then the length.
pub parse_rules : Role → List ℕ → Bool → Opcode → Bool → ℕ → Parsed
parse_rules role window fin op masked len =
    if is_server role && not masked
    then error WebSocketError.unmasked_frame
    else if is_client role && masked
    then error WebSocketError.masked_frame
    else if opcode_is_control op && not fin
    then error WebSocketError.fragmented_control
    else if opcode_is_control op && ltb max_control_payload len
    then error WebSocketError.control_too_large
    else parse_length window fin op masked len

-- The switch on the opcode.
pub parse_opcode : Role → List ℕ → Bool → Bool → ℕ → Option Opcode → Parsed
parse_opcode role window fin masked len none = error WebSocketError.invalid_opcode
parse_opcode role window fin masked len (some op) = parse_rules role window fin op masked len

-- The body of `frame_decoder_t::parse` behind its check of a recorded error.
unfoldable pub parse_header : Role → List ℕ → Parsed
unfolding parse_opcode parse_rules parse_length parse_key read_be
parse_header role window =
    if ltb (length window) 2
    then need_more
    else with_byte window 0 λ b0. with_byte window 1 λ b1.
      if not (bit_and b0 0x70 == 0)
      then error WebSocketError.reserved_bits
      else parse_opcode role window (not (bit_and b0 0x80 == 0)) (not (bit_and b1 0x80 == 0))
          (bit_and b1 0x7F) (opcode_of (bit_and b0 0x0F))

-- `frame_decoder_t`: its role and the error that it keeps.
pub record FrameDecoder : Type 0 where
  pub role : Role
  pub err : Option WebSocketError

-- What `parse` leaves in `err_`.
abbrev pub record_error : FrameDecoder → Parsed → FrameDecoder
record_error d (error e) = record d { err = some e }
record_error d _ = d

unfoldable pub parse : FrameDecoder → List ℕ → Parsed × FrameDecoder
parse d window = elim d.err [
  | some e ↦ (error e, d)
  | none ↦ (parse_header d.role window, record_error d (parse_header d.role window))
]

-- The stores `out[2 + i] = char(payload_len >> (56 - 8 * i))` from `i` on, `n` of them.
pub put_be : ℕ → ℕ → ℕ → List ℕ
put_be zero i len = []
put_be (suc n) i len = (len / 2 ^ (56 - 8 * i) % 2 ^ 8) ∷ put_be n (i + 1) len

-- `memcpy(out, &mask_key, 4)` on a little-endian host.
abbrev pub le32 : ℕ → List ℕ
le32 key =
    (key % 2 ^ 8) ∷ (key / 2 ^ 8 % 2 ^ 8) ∷ (key / 2 ^ 16 % 2 ^ 8) ∷ (key / 2 ^ 24 % 2 ^ 8) ∷ []

-- `write_frame_header`: the bytes it writes, whose number it returns.
unfoldable pub write_frame_header : Bool → Opcode → ℕ → ℕ → List ℕ
unfolding put_be
write_frame_header fin op payload_len mask_key =
    let mask_bit = if mask_key == 0 then 0x00 else 0x80 in
    let b0 = bit_or (if fin then 0x80 else 0x00) (opcode_value op) in
    let tail = if mask_key == 0 then [] else le32 mask_key in
    if leb payload_len max_control_payload
    then b0 ∷ bit_or mask_bit (payload_len % 2 ^ 8) ∷ tail
    else if leb payload_len 0xFFFF
    then b0 ∷ bit_or mask_bit 126 ∷ (payload_len / 2 ^ 8 % 2 ^ 8) ∷ (payload_len % 2 ^ 8) ∷ tail
    else b0 ∷ bit_or mask_bit 127 ∷ (put_be 8 0 payload_len ++ tail)
