-- ===== src/WebSocket/Handshake/Tests.antt =====
-- Runs of the handshake, and its theorems at inputs.
use cornet.Base.{
  ℕ, ◌≡◌, ◌≢◌, ◌⊎◌, refl, none, some, List, [], ◌∷◌, ◌++◌, length, codes, arith, true,
}
use cornet.Http.Protocol.{HttpError, Method, Version}
use cornet.Http.Output.{OutBuffer}
use cornet.Http.Serializer.{request_line}
use cornet.WebSocket.Sha1.{
  fresh, rol, load_words, schedule, mix, constant, round, rounds, add_words, compress, flush,
  absorb, room, update_loop, update, zeros, big_endian, padding, pad, digest_of, final,
}
use cornet.WebSocket.Base64.{alphabet, letter, word_of, base64_encode}
use cornet.Http.Serializer.Known.{prefix_text}
use cornet.Http.Serializer.Lines.{Writes, Breakless}
use cornet.Http.Fields.{host}
use cornet.WebSocket.Handshake.{
  rfc6455_guid, accept_key, make_key, key_valid, crlf, frame_handshake_response,
  frame_handshake_request,
}
use cornet.WebSocket.Handshake.Response.{
  accept_part, protocol_part, request_text, after_host, make_key-key_valid,
  frame_handshake_response-lines, frame_handshake_request-lines,
}

abbrev nonce : List ℕ
nonce = codes "the sample nonce"

make_key-key_valid_example :
    (key_valid (make_key nonce) ≡ true)
    × (length (make_key nonce) ≡ 24)
    × (length (accept_key (codes "k")) ≡ 28)
make_key-key_valid_example = make_key-key_valid nonce (codes "k") (omega arith) refl

abbrev fresh_out : OutBuffer
fresh_out = record { lease = some 512; text = []; error = none }

frame_handshake_response-lines_example :
    (Breakless (codes "chat")
      × Writes
          (accept_part (codes "k") ++ (protocol_part (codes "chat") ++ crlf))
          fresh_out
          (frame_handshake_response fresh_out (codes "k") (codes "chat")))
    ⊎ ((¬ Breakless (codes "chat"))
        × (frame_handshake_response fresh_out (codes "k") (codes "chat")
            ≡ record fresh_out { error = some HttpError.invalid_header }))
frame_handshake_response-lines_example =
    frame_handshake_response-lines fresh_out (codes "k") (codes "chat") (omega arith) refl

abbrev line : OutBuffer
line = request_line fresh_out Method.get (codes "/c") [] Version.http11

-- Subprotocols that hold a line of their own.
abbrev split : List ℕ
split = codes "chat" ++ (13 ∷ 10 ∷ codes "X: 1")

frame_handshake_request-lines_example :
    (Breakless (codes "h")
      × Writes
          (request_text (codes "/c") []
            ++ ((prefix_text host ++ (codes "h" ++ crlf)) ++ after_host (codes "k") split))
          fresh_out
          (frame_handshake_request fresh_out (codes "h") (codes "/c") [] (codes "k") split))
    ⊎ ((¬ Breakless (codes "h"))
        × Writes (request_text (codes "/c") []) fresh_out line
        × (line.error ≡ none
            → frame_handshake_request fresh_out (codes "h") (codes "/c") [] (codes "k") split
              ≡ record line { error = some HttpError.invalid_header })
        × (line.error ≢ none
            → frame_handshake_request fresh_out (codes "h") (codes "/c") [] (codes "k") split
              ≡ line))
frame_handshake_request-lines_example =
    frame_handshake_request-lines fresh_out (codes "h") (codes "/c") [] (codes "k") split
      (omega arith) (omega arith) (omega arith) (omega arith) (omega arith)

-- The key of RFC 6455 and its answer.
accepted : accept_key (codes "dGhlIHNhbXBsZSBub25jZQ==") ≡ codes "s3pPLMBiTxaQ9kYGzzhZRbK+xOo="
unfolding accept_key rfc6455_guid fresh rol load_words schedule mix constant round rounds add_words
    compress flush absorb room update_loop update zeros big_endian padding pad digest_of final
    alphabet letter word_of base64_encode
accepted = refl
