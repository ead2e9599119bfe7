-- ===== src/WebSocket/Handshake/Response.antt =====
-- The keys of the handshake, and its texts on the wire.
use cornet.Base.{
  ℕ, ◌^◌, ◌<◌, ◌≡◌, ◌≢◌, ◌⊎◌, ◌↔◌, sym, ap, ◌∙◌, inl, inr, refl, Bool-cases, ==_iff, none, some,
  All, IsByte, List, [], ◌∷◌, ◌++◌, codes, length, arith, true, false, ◌==◌,
}
use cornet.Http.Protocol.{Method, method_name, Version, HttpError}
use cornet.Http.Protocol.Table.{status_text, status_line-switching}
use cornet.Http.Fields.{host}
use cornet.Http.Output.{OutBuffer, put, put_view, put_crlf}
use cornet.Http.Output.Emits.{
  failing, fail-error, put-Emits, put_view-Emits, put_crlf-Emits, nothing-Emits,
}
use cornet.Http.Serializer.{request_line, version_text, header_field}
use cornet.Http.Serializer.Lines.{
  Writes, both-Writes, Breakless, path_part, query_part, request_line-Emits,
}
use cornet.Http.Serializer.Known.{prefix_text, header_field_cases}
use cornet.WebSocket.Base64.{base64_encode}
use cornet.WebSocket.Base64.RoundTrip.{length-base64_encode, base64_decode-base64_encode}
use cornet.WebSocket.Sha1.{fresh, update, final}
use cornet.WebSocket.Sha1.Stream.{length-final}
use cornet.WebSocket.Handshake.{
  rfc6455_guid, accept_key, make_key, is_some, key_valid, crlf, upgrade_line, connection_line,
  accept_name, key_name, protocol_name, version_line, has_break, put_protocol, put_line,
  response_head, frame_handshake_response, request_head, put_key, frame_handshake_request,
}

-- A key of 16 random bytes is valid and has the length that the header's buffers are sized by, and so has the
-- accept key of any text.
pub make_key-key_valid :
    (nonce key : List ℕ)
    → All IsByte nonce
    → length nonce ≡ 16
    → (key_valid (make_key nonce) ≡ true)
      × (length (make_key nonce) ≡ 24)
      × (length (accept_key key) ≡ 28)
unfolding make_key key_valid accept_key is_some
make_key-key_valid nonce key all sixteen =
    let l = length-base64_encode nonce in
    let long : length (base64_encode nonce) ≡ 24 = omega arith in
    let exact : (length (base64_encode nonce) == 24) ≡ true =
      (==_iff (length (base64_encode nonce)) 24).1 long in
    let decoded =
      base64_decode-base64_encode nonce 16 all (omega arith) (omega arith) (omega arith)
        (omega arith) in
    let digest = final (update (update fresh key) rfc6455_guid) in
    (
      rw (exact, decoded) refl,
      long,
      omega (
        arith,
        length-base64_encode digest,
        length-final (update (update fresh key) rfc6455_guid),
      ),
    )

abbrev pub protocol_part : List ℕ → List ℕ
protocol_part [] = []
protocol_part (c ∷ s) = (protocol_name ++ (codes ": " ++ (c ∷ s))) ++ crlf

put_protocol-Writes :
    (out : OutBuffer) (s : List ℕ)
    → length s < 2 ^ 32
    → Writes (protocol_part s) out (put_protocol out s)
unfolding put_protocol protocol_name
put_protocol-Writes out [] h = nothing-Emits out
put_protocol-Writes out (c ∷ s) h =
    let out1 = put_view out protocol_name in
    let out2 = put out1 (codes ": ") in
    both-Writes
      (both-Writes (put_view-Emits out protocol_name (omega arith))
        (both-Writes (put-Emits out1 (codes ": ")) (put_view-Emits out2 (c ∷ s) h)))
      (put_crlf-Emits (put_view out2 (c ∷ s)))

-- The lines of a response, from the status line to the accept key.
abbrev pub accept_part : List ℕ → List ℕ
accept_part key =
    status_text 101
    ++ (upgrade_line
        ++ (connection_line ++ (accept_name ++ (codes ": " ++ (accept_key key ++ crlf)))))

response_head-Writes :
    (out : OutBuffer) (key : List ℕ) → Writes (accept_part key) out (response_head out key)
unfolding response_head put_line upgrade_line connection_line accept_name
response_head-Writes out key =
    let out1 = put out (status_text 101) in
    let out2 = put_view out1 upgrade_line in
    let out3 = put_view out2 connection_line in
    let out4 = put_view out3 accept_name in
    let out5 = put out4 (codes ": ") in
    rw status_line-switching (
      both-Writes (put-Emits out (status_text 101)) (
        both-Writes (put_view-Emits out1 upgrade_line (omega arith)) (
          both-Writes (put_view-Emits out2 connection_line (omega arith)) (
            both-Writes (put_view-Emits out3 accept_name (omega arith)) (
              both-Writes (put-Emits out4 (codes ": ")) (
                both-Writes (put-Emits out5 (accept_key key))
                  (put_crlf-Emits (put out5 (accept_key key)))))))))

has_break_iff : (s : List ℕ) → (has_break s ≡ false) ↔ Breakless s
unfolding has_break
has_break_iff [] = ((λ e. tt), λ b. refl)
has_break_iff (c ∷ s) = ground (arith, has_break_iff s, ==_iff c 13, ==_iff c 10)

-- The answer to an upgrade on a buffer with no error is the status line, the two upgrade headers, the accept
-- key, the subprotocol if there is one, and an empty line, or the overflow error; where the subprotocol holds
-- CR or LF, nothing is written and the error is InvalidHeader.
pub frame_handshake_response-lines :
    (out : OutBuffer) (key subprotocol : List ℕ)
    → length subprotocol < 2 ^ 32
    → out.error ≡ none
    → (Breakless subprotocol
        × Writes
            (accept_part key ++ (protocol_part subprotocol ++ crlf))
            out
            (frame_handshake_response out key subprotocol))
      ⊎ ((¬ Breakless subprotocol)
          × (frame_handshake_response out key subprotocol
              ≡ record out { error = some HttpError.invalid_header }))
unfolding frame_handshake_response
frame_handshake_response-lines out key s h e = elim (Bool-cases (has_break s)) [
  | inl bad ↦
      inr ((λ b. cc (bad, (has_break_iff s).1 b)), rw bad (failing out HttpError.invalid_header e))
  | inr good ↦
      let out1 = response_head out key in
      inl (
        (has_break_iff s).0 good,
        rw good (
            both-Writes (response_head-Writes out key)
              (both-Writes (put_protocol-Writes out1 s h) (put_crlf-Emits (put_protocol out1 s)))),
      )
]

abbrev pub request_text : List ℕ → List ℕ → List ℕ
request_text path query =
    method_name Method.get
    ++ (codes " " ++ (path_part path ++ (query_part query ++ version_text Version.http11)))

abbrev pub key_part : List ℕ → List ℕ
key_part key = (key_name ++ (codes ": " ++ key)) ++ crlf

put_key-Writes :
    (out : OutBuffer) (key : List ℕ)
    → length key < 2 ^ 32
    → Writes (key_part key) out (put_key out key)
unfolding put_key key_name
put_key-Writes out key h =
    let out1 = put_view out key_name in
    let out2 = put out1 (codes ": ") in
    both-Writes
      (both-Writes (put_view-Emits out key_name (omega arith))
        (both-Writes (put-Emits out1 (codes ": ")) (put_view-Emits out2 key h)))
      (put_crlf-Emits (put_view out2 key))

-- What stands behind the host line of an upgrade request.
abbrev pub after_host : List ℕ → List ℕ → List ℕ
after_host key subprotocols =
    upgrade_line
    ++ (connection_line ++ (key_part key ++ (version_line ++ (protocol_part subprotocols ++ crlf))))

put_after_host : OutBuffer → List ℕ → List ℕ → OutBuffer
put_after_host out key subprotocols =
    let out1 = put_view (put_view out upgrade_line) connection_line in
    put_crlf (put_protocol (put (put_key out1 key) version_line) subprotocols)

put_after_host-Writes :
    (out : OutBuffer) (key subprotocols : List ℕ)
    → length key < 2 ^ 32
    → length subprotocols < 2 ^ 32
    → Writes (after_host key subprotocols) out (put_after_host out key subprotocols)
unfolding put_after_host upgrade_line connection_line version_line
put_after_host-Writes out key s hk hs =
    let out1 = put_view out upgrade_line in
    let out2 = put_view out1 connection_line in
    let out3 = put_key out2 key in
    let out4 = put out3 version_line in
    both-Writes (put_view-Emits out upgrade_line (omega arith)) (
      both-Writes (put_view-Emits out1 connection_line (omega arith)) (
        both-Writes (put_key-Writes out2 key hk) (
          both-Writes (put-Emits out3 version_line)
            (both-Writes (put_protocol-Writes out4 s hs) (put_crlf-Emits (put_protocol out4 s))))))

-- An upgrade request whose host has no CR and no LF is the request line, the host, the two upgrade headers,
-- the key, the version, the subprotocols as they are, CR and LF included, and an empty line, or the
-- overflow error. Where the host has CR or LF, only the request line is written and the error is
-- InvalidHeader, or the error that was there behind the request line.
pub frame_handshake_request-lines :
    (out : OutBuffer) (host_text path query key subprotocols : List ℕ)
    → length host_text < 2 ^ 32
    → length path < 2 ^ 32
    → length query < 2 ^ 32
    → length key < 2 ^ 32
    → length subprotocols < 2 ^ 32
    → let line = request_line out Method.get path query Version.http11 in
      let request = frame_handshake_request out host_text path query key subprotocols in
      (Breakless host_text
        × Writes
            (request_text path query
              ++ ((prefix_text host ++ (host_text ++ crlf)) ++ after_host key subprotocols))
            out
            request)
      ⊎ ((¬ Breakless host_text)
          × Writes (request_text path query) out line
          × (line.error ≡ none → request ≡ record line { error = some HttpError.invalid_header })
          × (line.error ≢ none → request ≡ line))
unfolding frame_handshake_request request_head put_after_host
frame_handshake_request-lines out host_text path query key s hh hp hq hk hs =
    let line = request_line out Method.get path query Version.http11 in
    let out2 = header_field line host host_text in
    let first = request_line-Emits out Method.get path query Version.http11 hp hq in
    let rest = put_after_host-Writes out2 key s hk hs in
    elim (header_field_cases line host host_text hh) [
      | inl (good, w) ↦ inl (good, both-Writes first (both-Writes w rest))
      | inr (bad, p) ↦
          let (set, kept) = fail-error line HttpError.invalid_header in
          let stopped = rest.latched (λ z. set (ap (λ o. o.error) (sym p) ∙ z)) ∙ p in
          inr (
            bad,
            first,
            (λ e. stopped ∙ failing line HttpError.invalid_header e),
            λ n. stopped ∙ kept n,
          )
    ]
