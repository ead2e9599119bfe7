-- ===== src/WebSocket/Handshake.antt =====
-- src/websocket/common/handshake.cc and include/cornet/websocket/common/handshake.h: keys, and the texts of
-- the opening handshake. The nonce of `make_key` is an argument, since the random bytes are the kernel's.
pub mod Response
mod Tests
use cornet.Base.{
  ℕ, ◌==◌, if◌then◌else◌, Bool, true, false, ◌||◌, not, Option, none, some, List, [], ◌∷◌, ◌++◌,
  length, codes,
}
use cornet.Http.Protocol.{Method, Version, HttpError}
use cornet.Http.Protocol
use cornet.Http.Fields.{Field, host}
use cornet.Http.Output.{OutBuffer, put, put_view, put_crlf, fail}
use cornet.Http.Serializer.{request_line, header_field}
use cornet.WebSocket.Base64.{base64_encode, base64_decode}
use cornet.WebSocket.Sha1.{fresh, update, final}

pub rfc6455_guid : List ℕ
rfc6455_guid = codes "258EAFA5-E914-47DA-95CA-C5AB0DC85B11"

pub accept_key : List ℕ → List ℕ
accept_key key = base64_encode (final (update (update fresh key) rfc6455_guid))

pub make_key : List ℕ → List ℕ
make_key nonce = base64_encode nonce

pub is_some : Option (List ℕ) → Bool
is_some none = false
is_some (some bytes) = true

pub key_valid : List ℕ → Bool
key_valid key = if not (length key == 24) then false else is_some (base64_decode key 16)

abbrev pub crlf : List ℕ
crlf = 13 ∷ 10 ∷ []

pub upgrade_line : List ℕ
upgrade_line = codes "Upgrade: websocket" ++ crlf

pub connection_line : List ℕ
connection_line = codes "Connection: Upgrade" ++ crlf

pub accept_name : List ℕ
accept_name = codes "Sec-WebSocket-Accept"

pub key_name : List ℕ
key_name = codes "Sec-WebSocket-Key"

pub protocol_name : List ℕ
protocol_name = codes "Sec-WebSocket-Protocol"

pub version_line : List ℕ
version_line = codes "Sec-WebSocket-Version: 13" ++ crlf

-- The test of the loop over the subprotocol.
pub has_break : List ℕ → Bool
has_break [] = false
has_break (c ∷ s) = (c == 13 || c == 10) || has_break s

-- The header of the subprotocol, where there is one.
pub put_protocol : OutBuffer → List ℕ → OutBuffer
put_protocol out [] = out
put_protocol out (c ∷ s) =
    put_crlf (put_view (put (put_view out protocol_name) (codes ": ")) (c ∷ s))

-- `put(line, n)` of what `status_line` returned; a null line is of length 0.
pub put_line : OutBuffer → Option (List ℕ) → OutBuffer
put_line out none = put out []
put_line out (some line) = put out line

pub response_head : OutBuffer → List ℕ → OutBuffer
response_head out key = put_crlf (
    put
      (put
        (put_view
          (put_view (put_view (put_line out (Protocol.status_line 101)) upgrade_line)
            connection_line)
          accept_name)
        (codes ": "))
      (accept_key key))

pub frame_handshake_response : OutBuffer → List ℕ → List ℕ → OutBuffer
frame_handshake_response out key subprotocol =
    if has_break subprotocol
    then fail out HttpError.invalid_header
    else put_crlf (put_protocol (response_head out key) subprotocol)

pub request_head : OutBuffer → List ℕ → List ℕ → List ℕ → OutBuffer
request_head out host_text path query =
    put_view
      (put_view
        (header_field (request_line out Method.get path query Version.http11) host host_text)
        upgrade_line)
      connection_line

pub put_key : OutBuffer → List ℕ → OutBuffer
put_key out key = put_crlf (put_view (put (put_view out key_name) (codes ": ")) key)

pub frame_handshake_request : OutBuffer → List ℕ → List ℕ → List ℕ → List ℕ → List ℕ → OutBuffer
frame_handshake_request out host_text path query key subprotocols = put_crlf (
    put_protocol (put (put_key (request_head out host_text path query) key) version_line)
      subprotocols)
