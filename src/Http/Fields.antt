-- ===== src/Http/Fields.antt =====
-- src/http/common/protocol.cc and include/cornet/http/common/protocol.h: the well-known header fields,
-- their names, and the look-up of a name by words of eight bytes.
mod Words
pub mod Names
pub mod Gap
mod Tests
use cornet.Base.{
  ℕ, zero, suc, ◌+◌, ◌-◌, ◌*◌, ◌^◌, bit_and, bit_or, Bool, true, false, ◌&&◌, if◌then◌else◌, ◌==◌,
  Option, none, some, List, [], ◌∷◌, ◌++◌, length, take, drop, codes, word,
}

-- `field_t`
pub data Field : Type 0 where
  host content_length content_type transfer_encoding connection accept accept_encoding
        accept_language user_agent expect upgrade date server location cookie set_cookie
        authorization referer range if_none_match if_modified_since etag cache_control origin
        other :
      Field

-- `kFieldText[i].name`; empty for `Other`.
pub field_name : Field → List ℕ
field_name host = codes "Host"
field_name content_length = codes "Content-Length"
field_name content_type = codes "Content-Type"
field_name transfer_encoding = codes "Transfer-Encoding"
field_name connection = codes "Connection"
field_name accept = codes "Accept"
field_name accept_encoding = codes "Accept-Encoding"
field_name accept_language = codes "Accept-Language"
field_name user_agent = codes "User-Agent"
field_name expect = codes "Expect"
field_name upgrade = codes "Upgrade"
field_name date = codes "Date"
field_name server = codes "Server"
field_name location = codes "Location"
field_name cookie = codes "Cookie"
field_name set_cookie = codes "Set-Cookie"
field_name authorization = codes "Authorization"
field_name referer = codes "Referer"
field_name range = codes "Range"
field_name if_none_match = codes "If-None-Match"
field_name if_modified_since = codes "If-Modified-Since"
field_name etag = codes "ETag"
field_name cache_control = codes "Cache-Control"
field_name origin = codes "Origin"
field_name other = []

-- `kFieldText[i].prefix`; null for `Other`.
unfoldable pub field_prefix : Field → Option (List ℕ)
field_prefix host = some (codes "Host: ")
field_prefix content_length = some (codes "Content-Length: ")
field_prefix content_type = some (codes "Content-Type: ")
field_prefix transfer_encoding = some (codes "Transfer-Encoding: ")
field_prefix connection = some (codes "Connection: ")
field_prefix accept = some (codes "Accept: ")
field_prefix accept_encoding = some (codes "Accept-Encoding: ")
field_prefix accept_language = some (codes "Accept-Language: ")
field_prefix user_agent = some (codes "User-Agent: ")
field_prefix expect = some (codes "Expect: ")
field_prefix upgrade = some (codes "Upgrade: ")
field_prefix date = some (codes "Date: ")
field_prefix server = some (codes "Server: ")
field_prefix location = some (codes "Location: ")
field_prefix cookie = some (codes "Cookie: ")
field_prefix set_cookie = some (codes "Set-Cookie: ")
field_prefix authorization = some (codes "Authorization: ")
field_prefix referer = some (codes "Referer: ")
field_prefix range = some (codes "Range: ")
field_prefix if_none_match = some (codes "If-None-Match: ")
field_prefix if_modified_since = some (codes "If-Modified-Since: ")
field_prefix etag = some (codes "ETag: ")
field_prefix cache_control = some (codes "Cache-Control: ")
field_prefix origin = some (codes "Origin: ")
field_prefix other = none

abbrev pub lower_mask : ℕ
lower_mask = 0x2020202020202020

-- The loop of `pack`, at byte `i` of at most eight.
pub pack_loop : ℕ → ℕ → List ℕ → ℕ
pack_loop i v [] = v
pack_loop i v (c ∷ s) = pack_loop (i + 1) (bit_or v (bit_or c 0x20 * 2 ^ (8 * i))) s

pub pack : List ℕ → ℕ
pack s = pack_loop 0 0 (take 8 s)

-- `ld<N>`: N bytes from the front, lowercased; the mask is for N below 8.
pub ld : ℕ → List ℕ → ℕ
ld n p =
    let v = bit_or (word (take n p)) lower_mask in if n == 8 then v else bit_and v (2 ^ (8 * n) - 1)

-- The test of a short name, and `HTTP_M8`: the first and the last eight bytes.
pub m_short : ℕ → List ℕ → List ℕ → Bool
m_short n p lit = ld n p == pack lit

pub m8 : List ℕ → List ℕ → ℕ → Bool
m8 p lit len = ld 8 p == pack lit && ld 8 (drop (len - 8) p) == pack (drop (len - 8) lit)

-- The cases of the switch on the length.
pub names_4 : List ℕ → Field
names_4 p =
    if m_short 4 p (codes "host")
    then host
    else if m_short 4 p (codes "date")
    then date
    else if m_short 4 p (codes "etag")
    then etag
    else other

pub names_5 : List ℕ → Field
names_5 p = if m_short 5 p (codes "range") then range else other

pub names_6 : List ℕ → Field
names_6 p =
    if m_short 6 p (codes "accept")
    then accept
    else if m_short 6 p (codes "expect")
    then expect
    else if m_short 6 p (codes "server")
    then server
    else if m_short 6 p (codes "cookie")
    then cookie
    else if m_short 6 p (codes "origin")
    then origin
    else other

pub names_7 : List ℕ → Field
names_7 p =
    if m_short 7 p (codes "upgrade")
    then upgrade
    else if m_short 7 p (codes "referer")
    then referer
    else other

pub names_8 : List ℕ → Field
names_8 p = if m_short 8 p (codes "location") then location else other

pub names_10 : List ℕ → Field
names_10 p =
    if m8 p (codes "connection") 10
    then connection
    else if m8 p (codes "user-agent") 10
    then user_agent
    else if m8 p (codes "set-cookie") 10
    then set_cookie
    else other

pub names_12 : List ℕ → Field
names_12 p = if m8 p (codes "content-type") 12 then content_type else other

pub names_13 : List ℕ → Field
names_13 p =
    if m8 p (codes "authorization") 13
    then authorization
    else if m8 p (codes "if-none-match") 13
    then if_none_match
    else if m8 p (codes "cache-control") 13
    then cache_control
    else other

pub names_14 : List ℕ → Field
names_14 p = if m8 p (codes "content-length") 14 then content_length else other

pub names_15 : List ℕ → Field
names_15 p =
    if m8 p (codes "accept-encoding") 15
    then accept_encoding
    else if m8 p (codes "accept-language") 15
    then accept_language
    else other

pub names_17 : List ℕ → Field
names_17 p =
    if m8 p (codes "transfer-encoding") 17
    then transfer_encoding
    else if m8 p (codes "if-modified-since") 17
    then if_modified_since
    else other

pub field_from_name : List ℕ → Field
field_from_name p =
    let n = length p in
    if n == 4
    then names_4 p
    else if n == 5
    then names_5 p
    else if n == 6
    then names_6 p
    else if n == 7
    then names_7 p
    else if n == 8
    then names_8 p
    else if n == 10
    then names_10 p
    else if n == 12
    then names_12 p
    else if n == 13
    then names_13 p
    else if n == 14
    then names_14 p
    else if n == 15
    then names_15 p
    else if n == 17
    then names_17 p
    else other

-- The loop of `iequals`.
unfoldable pub iequals_loop : List ℕ → List ℕ → Bool
iequals_loop [] b = true
iequals_loop (x ∷ a) [] = true
iequals_loop (x ∷ a) (y ∷ b) = bit_or x 0x20 == bit_or y 0x20 && iequals_loop a b

unfoldable pub iequals : List ℕ → List ℕ → Bool
iequals a b = length a == length b && iequals_loop a b

pub field_forbidden_in_trailer : Field → Bool
field_forbidden_in_trailer content_length = true
field_forbidden_in_trailer transfer_encoding = true
field_forbidden_in_trailer content_type = true
field_forbidden_in_trailer host = true
field_forbidden_in_trailer connection = true
field_forbidden_in_trailer upgrade = true
field_forbidden_in_trailer expect = true
field_forbidden_in_trailer range = true
field_forbidden_in_trailer cache_control = true
field_forbidden_in_trailer authorization = true
field_forbidden_in_trailer cookie = true
field_forbidden_in_trailer set_cookie = true
field_forbidden_in_trailer date = true
field_forbidden_in_trailer location = true
field_forbidden_in_trailer _ = false
