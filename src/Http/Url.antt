-- ===== src/Http/Url.antt =====
-- src/http/common/url.cc: the parser of absolute urls. The views into the url are the bytes that they show.
pub mod Valid
mod Tests
use cornet.Base.{
  ℕ, zero, suc, ◌+◌, ◌-◌, ◌*◌, if◌then◌else◌, ltb, leb, ◌==◌, Bool, true, false, not, ◌&&◌, ◌||◌,
  Option, none, some, List, [], ◌∷◌, ◌++◌, length, take, drop, codes,
}
use cornet.Http.Fields.{iequals}
use cornet.Http.Protocol.{HttpError}

pub data Scheme : Type 0 where
  http https : Scheme

pub default_port : Scheme → ℕ
default_port http = 80
default_port https = 443

pub record Url : Type 0 where
  pub raw : List ℕ
  pub scheme : Scheme
  pub userinfo : List ℕ
  pub authority : List ℕ
  pub host : List ℕ
  pub ipv6 : Bool
  pub port : ℕ
  pub explicit_port : Bool
  pub path : List ℕ
  pub query : List ℕ

pub data Result {ℓ} (A : Type ℓ) : Type ℓ where
  err : HttpError → Result A
  ok : A → Result A

-- The next step of the parser, where there was no error before it.
abbrev pub and_then {ℓ κ} : {B : Type κ} {A : Type ℓ} → (A → Result B) → Result A → Result B
and_then step (err e) = err e
and_then step (ok found) = step found

pub host_byte : ℕ → Bool
host_byte c =
    not (leb c 0x20 || leb 0x7f c)
    && not (c == b'/' || c == 0x5c || c == b'?' || c == b'#' || c == b'@')

pub host_bytes : List ℕ → Bool
host_bytes [] = true
host_bytes (c ∷ s) = host_byte c && host_bytes s

pub valid_host : List ℕ → Bool
valid_host [] = false
valid_host (c ∷ s) = host_bytes (c ∷ s)

pub port_loop : ℕ → List ℕ → Option ℕ
port_loop v [] = some v
port_loop v (c ∷ s) =
    let rest = port_loop (v * 10 + (c - b'0')) s in if ltb c b'0' || ltb b'9' c then none else rest

pub port_range : Option ℕ → Result ℕ
port_range none = err HttpError.bad_url
port_range (some v) = if v == 0 || ltb 0xffff v then err HttpError.bad_url else ok v

pub parse_port : List ℕ → Result ℕ
parse_port text =
    if length text == 0 || ltb 5 (length text)
    then err HttpError.bad_url
    else port_range (port_loop 0 text)

pub has_control : List ℕ → Bool
has_control [] = false
has_control (c ∷ s) = (leb c 0x20 || c == 0x7f) || has_control s

-- The first index at which a test holds, and the last one.
pub find : (ℕ → Bool) → List ℕ → Option ℕ
find p [] = none
find p (c ∷ s) = if p c then some 0 else elim (find p s) [ none ↦ none | some i ↦ some (i + 1) ]

pub rfind : (ℕ → Bool) → List ℕ → Option ℕ
rfind p [] = none
rfind p (c ∷ s) = elim (rfind p s) [ some i ↦ some (i + 1) | none ↦ if p c then some 0 else none ]

-- `find("://")`
pub find_separator : List ℕ → Option ℕ
find_separator (a ∷ b ∷ c ∷ s) =
    if a == b':' && b == b'/' && c == b'/'
    then some 0
    else elim (find_separator (b ∷ c ∷ s)) [ none ↦ none | some i ↦ some (i + 1) ]
find_separator _ = none

pub parse_scheme : List ℕ → Result Scheme
parse_scheme s =
    if iequals s (codes "http")
    then ok http
    else if iequals s (codes "https")
    then ok https
    else err HttpError.unsupported_scheme

pub before : Option ℕ → List ℕ → List ℕ
before none s = s
before (some i) s = take i s

-- What stands behind an index, `skip` bytes further on.
pub from_index : ℕ → Option ℕ → List ℕ → List ℕ
from_index skip none s = []
from_index skip (some i) s = drop (i + skip) s

pub without_userinfo : Option ℕ → List ℕ → List ℕ
without_userinfo none s = s
without_userinfo (some i) s = drop (i + 1) s

pub userinfo_of : Option ℕ → List ℕ → List ℕ
userinfo_of none s = []
userinfo_of (some i) s = take i s

-- The host, whether it stood in brackets, and the text behind the colon if there is one.
pub record HostPort : Type 0 where
  pub host : List ℕ
  pub ipv6 : Bool
  pub port_text : Option (List ℕ)

pub after_bracket : List ℕ → List ℕ → Result HostPort
after_bracket inside [] = ok (record { host = inside; ipv6 = true; port_text = none })
after_bracket inside (c ∷ s) =
    if not (c == b':')
    then err HttpError.bad_url
    else ok (record { host = inside; ipv6 = true; port_text = some s })

pub bracketed : Option ℕ → List ℕ → Result HostPort
bracketed none authority = err HttpError.bad_url
bracketed (some close) authority =
    after_bracket (take (close - 1) (drop 1 authority)) (drop (close + 1) authority)

pub plain : Option ℕ → List ℕ → HostPort
plain none authority = record { host = authority; ipv6 = false; port_text = none }
plain (some colon) authority = record {
  host = take colon authority;
  ipv6 = false;
  port_text = some (drop (colon + 1) authority);
}

pub host_port : List ℕ → Result HostPort
host_port [] = err HttpError.bad_url
host_port (c ∷ s) =
    if c == b'['
    then bracketed (find (λ x. x == b']') (c ∷ s)) (c ∷ s)
    else ok (plain (rfind (λ x. x == b':') (c ∷ s)) (c ∷ s))

pub port_of : Scheme → Option (List ℕ) → Result ℕ
port_of scheme none = ok (default_port scheme)
port_of scheme (some text) = parse_port text

pub has_port : Option (List ℕ) → Bool
has_port none = false
has_port (some text) = true

-- What goes on the wire of what follows the authority.
pub without_fragment : List ℕ → List ℕ
without_fragment tail = before (find (λ x. x == b'#') tail) tail

pub assemble : List ℕ → Scheme → List ℕ → List ℕ → List ℕ → HostPort → ℕ → Url
assemble raw scheme userinfo authority wire hp port =
    let q = find (λ x. x == b'?') wire in
    record {
      raw = raw;
      scheme = scheme;
      userinfo = userinfo;
      authority = authority;
      host = hp.host;
      ipv6 = hp.ipv6;
      port = port;
      explicit_port = has_port hp.port_text;
      path = before q wire;
      query = from_index 1 q wire;
    }

pub finish : List ℕ → Scheme → List ℕ → List ℕ → List ℕ → HostPort → Result Url
finish raw scheme userinfo authority wire hp =
    if not (valid_host hp.host)
    then err HttpError.bad_url
    else and_then (λ port. ok (assemble raw scheme userinfo authority wire hp port))
        (port_of scheme hp.port_text)

pub parse_authority : List ℕ → Scheme → List ℕ → List ℕ → List ℕ → Result Url
parse_authority raw scheme userinfo authority wire =
    and_then (finish raw scheme userinfo authority wire) (host_port authority)

pub parse_rest : List ℕ → List ℕ → Scheme → Result Url
parse_rest raw rest scheme =
    let split = find (λ x. x == b'/' || x == b'?' || x == b'#') rest in
    let authority : List ℕ = before split rest in
    let marker = rfind (λ x. x == b'@') authority in
    parse_authority raw scheme (userinfo_of marker authority) (without_userinfo marker authority)
      (without_fragment (from_index 0 split rest))

pub parse_at : List ℕ → Option ℕ → Result Url
parse_at raw none = err HttpError.bad_url
parse_at raw (some zero) = err HttpError.bad_url
parse_at raw (some (suc i)) =
    and_then (parse_rest raw (drop (suc i + 3) raw)) (parse_scheme (take (suc i) raw))

pub parse : List ℕ → Result Url
parse raw = if has_control raw then err HttpError.bad_url else parse_at raw (find_separator raw)

pub same_scheme : Scheme → Scheme → Bool
same_scheme http http = true
same_scheme https https = true
same_scheme http https = false
same_scheme https http = false

pub same_origin : Url → Url → Bool
same_origin u v = same_scheme u.scheme v.scheme && u.port == v.port && iequals u.host v.host
