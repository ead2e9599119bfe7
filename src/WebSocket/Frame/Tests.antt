-- ===== src/WebSocket/Frame/Tests.antt =====
-- Runs of the frame code, and its theorems at concrete inputs.
use cornet.Base.{ℕ, ◌≡◌, refl, true, List, [], ◌∷◌, ◌++◌, length, take, All, IsByte, arith}
use cornet.WebSocket.Protocol.{Opcode, Role, WebSocketError}
use cornet.WebSocket.Frame.{Frame, frame, need_more, error, parse_header, write_frame_header}
use cornet.WebSocket.Frame.RoundTrip.{IsSendable, parse_header-write_frame_header}
use cornet.WebSocket.Frame.Incremental.{parse_header-take-write_frame_header}
use cornet.WebSocket.Frame.Accepts.{Returns, IsAccepted, parse_header-Returns}

-- A masked text frame of 5 bytes from a client, as in RFC 6455 section 5.7.
abbrev masked_hello : List ℕ
masked_hello = 0x81 ∷ 0x85 ∷ 0x37 ∷ 0xfa ∷ 0x21 ∷ 0x3d ∷ 0x7f ∷ 0x9f ∷ 0x4d ∷ 0x51 ∷ 0x58 ∷ []

abbrev hello_frame : Frame
hello_frame = record {
  fin = true;
  opcode = Opcode.text;
  payload_len = 5;
  masked = true;
  mask_key = 0x3d21fa37;
  header_len = 6;
}

hello_parses : parse_header Role.server masked_hello ≡ frame hello_frame
unfolding parse_header
hello_parses = refl

hello_to_a_client : parse_header Role.client masked_hello ≡ error WebSocketError.masked_frame
unfolding parse_header
hello_to_a_client = refl

long_header :
    write_frame_header true Opcode.binary 65536 0 ≡ 0x82 ∷ 127 ∷ 0 ∷ 0 ∷ 0 ∷ 0 ∷ 0 ∷ 1 ∷ 0 ∷ 0 ∷ []
unfolding write_frame_header
long_header = refl

long_parses :
    parse_header Role.client (0x82 ∷ 127 ∷ 0 ∷ 0 ∷ 0 ∷ 0 ∷ 0 ∷ 0 ∷ 0xFF ∷ 0xFF ∷ [])
    ≡ error WebSocketError.non_canonical_length
unfolding parse_header
long_parses = refl

hello_IsSendable : IsSendable Role.server true Opcode.text 300 0x3d21fa37
hello_IsSendable = record {
  len_fits = omega arith;
  key_fits = omega arith;
  key_role = λ p. absurd (omega arith);
  control = λ p. cc;
}

parse_header-write_frame_header_example :
    parse_header Role.server (write_frame_header true Opcode.text 300 0x3d21fa37 ++ 1 ∷ 2 ∷ [])
    ≡ frame (record {
      fin = true;
      opcode = Opcode.text;
      payload_len = 300;
      masked = true;
      mask_key = 0x3d21fa37;
      header_len = length (write_frame_header true Opcode.text 300 0x3d21fa37);
    })
parse_header-write_frame_header_example =
    parse_header-write_frame_header hello_IsSendable (1 ∷ 2 ∷ [])

parse_header-take-write_frame_header_example :
    parse_header Role.server (take 5 (write_frame_header true Opcode.text 300 0x3d21fa37))
    ≡ need_more
unfolding write_frame_header
parse_header-take-write_frame_header_example =
    parse_header-take-write_frame_header hello_IsSendable 5 (omega arith)

hello-IsByte : All IsByte masked_hello
hello-IsByte = omega arith

parse_header-Returns_example :
    Returns (IsAccepted Role.server masked_hello) (parse_header Role.server masked_hello)
parse_header-Returns_example = parse_header-Returns Role.server masked_hello hello-IsByte
