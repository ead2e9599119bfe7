-- ===== src/Http/Serializer.antt =====
-- src/http/common/serializer.cc, `serializer_t`: request lines, status lines and headers, written into an
-- output buffer.
pub mod Lines
pub mod Status
pub mod Known
mod Tests
use cornet.Base.{
  ℕ, ◌%◌, if◌then◌else◌, ◌==◌, Option, none, some, List, [], ◌∷◌, ◌++◌, codes, Bool, true, false,
  ◌||◌,
}
use cornet.Http.Fields.{Field, date, field_prefix}
use cornet.Http.Protocol.{Method, method_name, Version, HttpError, reason_phrase}
use cornet.Http.Protocol
use cornet.Http.Output.{OutBuffer, put, put_view, put_byte, put_crlf, put_u64, fail}

pub put_path : OutBuffer → List ℕ → OutBuffer
put_path out [] = put_byte out b'/'
put_path out (c ∷ path) = put_view out (c ∷ path)

pub put_query : OutBuffer → List ℕ → OutBuffer
put_query out [] = out
put_query out (c ∷ query) = put_view (put_byte out b'?') (c ∷ query)

unfoldable pub version_text : Version → List ℕ
version_text Version.http10 = codes " HTTP/1.0" ++ (13 ∷ 10 ∷ [])
version_text Version.http11 = codes " HTTP/1.1" ++ (13 ∷ 10 ∷ [])
version_text Version.unknown = codes " HTTP/1.1" ++ (13 ∷ 10 ∷ [])

pub request_line : OutBuffer → Method → List ℕ → List ℕ → Version → OutBuffer
request_line out m path query v =
    put (put_query (put_path (put_byte (put_view out (method_name m)) b' ') path) query)
      (version_text v)

pub compose_status : OutBuffer → ℕ → Option (List ℕ) → OutBuffer
compose_status out s (some line) = put out line
compose_status out s none =
    put_crlf (
      put_view (put_byte (put_u64 (put out (codes "HTTP/1.1 ")) (s % 65536)) b' ')
        (reason_phrase s))

pub status_line : OutBuffer → ℕ → OutBuffer
status_line out s = compose_status out s (Protocol.status_line s)

pub has_crlf : List ℕ → Bool
has_crlf [] = false
has_crlf (c ∷ s) = (c == 13 || c == 10) || has_crlf s

pub put_prefix : OutBuffer → Option (List ℕ) → OutBuffer
put_prefix out none = out
put_prefix out (some prefix) = put out prefix

-- `header(out, field_t, value)`
pub header_field : OutBuffer → Field → List ℕ → OutBuffer
header_field out f value =
    if has_crlf value
    then fail out HttpError.invalid_header
    else put_crlf (put_view (put_prefix out (field_prefix f)) value)

-- `header(out, name, value)`
pub header : OutBuffer → List ℕ → List ℕ → OutBuffer
header out name value =
    if has_crlf name || has_crlf value
    then fail out HttpError.invalid_header
    else put_crlf (put_view (put (put_view out name) (codes ": ")) value)

pub header_u64 : OutBuffer → Field → ℕ → OutBuffer
header_u64 out f value = put_crlf (put_u64 (put_prefix out (field_prefix f)) value)

-- `none` is the null pointer.
pub date_header : OutBuffer → Option (List ℕ) → OutBuffer
date_header out none = out
date_header out (some []) = out
date_header out (some (c ∷ imf_date)) =
    put_crlf (put (put_prefix out (field_prefix date)) (c ∷ imf_date))

pub end_headers : OutBuffer → OutBuffer
end_headers out = put_crlf out
