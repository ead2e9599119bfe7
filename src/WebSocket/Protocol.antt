-- ===== src/WebSocket/Protocol.antt =====
-- include/cornet/websocket/common/protocol.h: opcodes, roles, close codes and error codes.
use cornet.Base.{ℕ, ◌==◌, Bool, true, false, ◌&&◌, not, if◌then◌else◌, ltb, leb}

-- `opcode_t`, RFC 6455 section 5.2.
pub data Opcode : Type 0 where
  continue text binary close ping pong : Opcode

-- The wire values.
abbrev pub opcode_value : Opcode → ℕ
opcode_value Opcode.continue = 0x0
opcode_value Opcode.text = 0x1
opcode_value Opcode.binary = 0x2
opcode_value Opcode.close = 0x8
opcode_value Opcode.ping = 0x9
opcode_value Opcode.pong = 0xA

pub data Role : Type 0 where
  client server : Role

abbrev pub is_server : Role → Bool
is_server Role.server = true
is_server Role.client = false

abbrev pub is_client : Role → Bool
is_client role = not (is_server role)

abbrev pub opcode_is_control : Opcode → Bool
opcode_is_control op = leb 0x8 (opcode_value op)

abbrev pub opcode_is_data : Opcode → Bool
opcode_is_data Opcode.text = true
opcode_is_data Opcode.binary = true
opcode_is_data _ = false

-- `websocket_error_t`.
pub data WebSocketError : Type 0 where
  reserved_bits invalid_opcode unmasked_frame masked_frame fragmented_control : WebSocketError
  control_too_large non_canonical_length message_too_large : WebSocketError
  continuation_expected continuation_unexpected invalid_close_code : WebSocketError
  handshake_failed closed : WebSocketError

-- `close_code_valid`
unfoldable pub close_code_valid : ℕ → Bool
close_code_valid code =
    if ltb code 1000
    then false
    else if leb 5000 code
    then false
    else not (code == 1004) && not (code == 1005) && not (code == 1006) && not (code == 1015)
