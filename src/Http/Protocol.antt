-- ===== src/Http/Protocol.antt =====
-- src/http/common/protocol.cc and include/cornet/http/common/protocol.h: methods, the table of statuses
-- with their pre-rendered lines, and the errors that the layer detects itself. A status is its number.
pub mod Table
mod Tests
use cornet.Base.{
  ℕ, ◌≡◌, Bool, true, false, ◌&&◌, ◌||◌, if◌then◌else◌, ltb, leb, ◌==◌, Option, none, some, List,
  [], ◌∷◌, ◌++◌, codes,
}

-- `method_t`
pub data Method : Type 0 where
  delete get head post put connect options trace patch unknown : Method

unfoldable pub method_name : Method → List ℕ
method_name Method.get = codes "GET"
method_name Method.head = codes "HEAD"
method_name Method.post = codes "POST"
method_name Method.put = codes "PUT"
method_name Method.delete = codes "DELETE"
method_name Method.connect = codes "CONNECT"
method_name Method.options = codes "OPTIONS"
method_name Method.trace = codes "TRACE"
method_name Method.patch = codes "PATCH"
method_name Method.unknown = codes "UNKNOWN"

pub method_is_idempotent : Method → Bool
method_is_idempotent Method.get = true
method_is_idempotent Method.head = true
method_is_idempotent Method.put = true
method_is_idempotent Method.delete = true
method_is_idempotent Method.options = true
method_is_idempotent Method.trace = true
method_is_idempotent _ = false

-- `version_t`
pub data Version : Type 0 where
  http10 http11 unknown : Version

-- `http_error_t`
pub data HttpError : Type 0 where
  header_too_large too_many_headers body_too_large bad_content_length bad_header unsupported_version
        output_overflow invalid_state bad_upgrade bad_url unsupported_scheme too_many_redirects
        pool_exhausted response_incomplete invalid_header :
      HttpError

-- A row of `CORNET_STATUS_MAP`: the code, its digits as the macro writes them, and the phrase.
pub record Row : Type 0 where
  pub code : ℕ
  pub digits : List ℕ
  pub phrase : List ℕ

abbrev row : ℕ → List ℕ → List ℕ → Row
row code digits phrase = record { code = code; digits = digits; phrase = phrase }

pub status_map : List Row
status_map =
    row 100 (codes "100") (codes "Continue")
    ∷ row 101 (codes "101") (codes "Switching Protocols")
    ∷ row 200 (codes "200") (codes "OK")
    ∷ row 201 (codes "201") (codes "Created")
    ∷ row 202 (codes "202") (codes "Accepted")
    ∷ row 204 (codes "204") (codes "No Content")
    ∷ row 205 (codes "205") (codes "Reset Content")
    ∷ row 206 (codes "206") (codes "Partial Content")
    ∷ row 301 (codes "301") (codes "Moved Permanently")
    ∷ row 302 (codes "302") (codes "Found")
    ∷ row 303 (codes "303") (codes "See Other")
    ∷ row 304 (codes "304") (codes "Not Modified")
    ∷ row 307 (codes "307") (codes "Temporary Redirect")
    ∷ row 308 (codes "308") (codes "Permanent Redirect")
    ∷ row 400 (codes "400") (codes "Bad Request")
    ∷ row 401 (codes "401") (codes "Unauthorized")
    ∷ row 403 (codes "403") (codes "Forbidden")
    ∷ row 404 (codes "404") (codes "Not Found")
    ∷ row 405 (codes "405") (codes "Method Not Allowed")
    ∷ row 406 (codes "406") (codes "Not Acceptable")
    ∷ row 408 (codes "408") (codes "Request Timeout")
    ∷ row 409 (codes "409") (codes "Conflict")
    ∷ row 410 (codes "410") (codes "Gone")
    ∷ row 411 (codes "411") (codes "Length Required")
    ∷ row 412 (codes "412") (codes "Precondition Failed")
    ∷ row 413 (codes "413") (codes "Content Too Large")
    ∷ row 414 (codes "414") (codes "URI Too Long")
    ∷ row 415 (codes "415") (codes "Unsupported Media Type")
    ∷ row 417 (codes "417") (codes "Expectation Failed")
    ∷ row 422 (codes "422") (codes "Unprocessable Content")
    ∷ row 426 (codes "426") (codes "Upgrade Required")
    ∷ row 429 (codes "429") (codes "Too Many Requests")
    ∷ row 431 (codes "431") (codes "Request Header Fields Too Large")
    ∷ row 500 (codes "500") (codes "Internal Server Error")
    ∷ row 501 (codes "501") (codes "Not Implemented")
    ∷ row 502 (codes "502") (codes "Bad Gateway")
    ∷ row 503 (codes "503") (codes "Service Unavailable")
    ∷ row 504 (codes "504") (codes "Gateway Timeout")
    ∷ row 505 (codes "505") (codes "HTTP Version Not Supported")
    ∷ []

pub find_row : ℕ → List Row → Option Row
find_row s [] = none
find_row s (r ∷ rows) = if r.code == s then some r else find_row s rows

pub phrase_of : Option Row → List ℕ
phrase_of none = codes "Unknown"
phrase_of (some r) = r.phrase

pub reason_phrase : ℕ → List ℕ
reason_phrase s = phrase_of (find_row s status_map)

pub line_of : Option Row → Option (List ℕ)
line_of none = none
line_of (some r) =
    some (codes "HTTP/1.1 " ++ (r.digits ++ (codes " " ++ (r.phrase ++ (13 ∷ 10 ∷ [])))))

pub status_line : ℕ → Option (List ℕ)
status_line s = line_of (find_row s status_map)

pub status_is_informational : ℕ → Bool
status_is_informational code = leb 100 code && ltb code 200

pub status_forbids_body : ℕ → Bool
status_forbids_body code = (leb 100 code && ltb code 200) || code == 204 || code == 304
