-- ===== src/Http/Headers.antt =====
-- src/http/common/headers.cc and include/cornet/http/common/headers.h, `headers_t`: the header section and
-- the trailers of one message. The two buffers that `bind` sets are an argument of what reads through them.
pub mod Entries
pub mod Lookups
mod Tests
use cornet.Base.{
  ℕ, zero, suc, ◌+◌, ◌-◌, ◌^◌, bit_and, bit_or, if◌then◌else◌, ltb, leb, ◌==◌, Bool, true, false,
  not, ◌&&◌, ◌||◌, Option, none, some, List, [], ◌∷◌, ◌++◌, length, get_or, set,
}
use cornet.Http.Fields.{
  Field, field_from_name, iequals, host, content_length, content_type, transfer_encoding,
  connection, accept, accept_encoding, accept_language, user_agent, expect, upgrade, date, server,
  location, cookie, set_cookie, authorization, referer, range, if_none_match, if_modified_since,
  etag, cache_control, origin, other,
}
use cornet.Http.Buffers.Head.{HeadBuffer}
use cornet.Http.Buffers.Head
use cornet.Http.Buffers.Spill.{SpillBuffer}
use cornet.Http.Buffers.Spill

-- `uint32_t(field)`
pub field_index : Field → ℕ
field_index host = 0
field_index content_length = 1
field_index content_type = 2
field_index transfer_encoding = 3
field_index connection = 4
field_index accept = 5
field_index accept_encoding = 6
field_index accept_language = 7
field_index user_agent = 8
field_index expect = 9
field_index upgrade = 10
field_index date = 11
field_index server = 12
field_index location = 13
field_index cookie = 14
field_index set_cookie = 15
field_index authorization = 16
field_index referer = 17
field_index range = 18
field_index if_none_match = 19
field_index if_modified_since = 20
field_index etag = 21
field_index cache_control = 22
field_index origin = 23
field_index other = 24

pub same_field : Field → Field → Bool
same_field f g = field_index f == field_index g

pub record HeaderRef : Type 0 where
  pub name_off : ℕ
  pub value_off : ℕ
  pub name_len : ℕ
  pub value_len : ℕ
  pub field : Field
  pub spilled : Bool
  pub name_spilled : Bool
  pub trailer : Bool

pub unused : HeaderRef
unused = record {
  name_off = 0;
  value_off = 0;
  name_len = 0;
  value_len = 0;
  field = other;
  spilled = false;
  name_spilled = false;
  trailer = false;
}

-- The vector that is not there yet is the empty one.
pub record Headers : Type 0 where
  pub inline_refs : List HeaderRef
  pub overflow : List HeaderRef
  pub size : ℕ
  pub trailers : ℕ
  pub bitmap : ℕ
  pub trailer_bitmap : ℕ

abbrev pub inline_count : ℕ
inline_count = 32

pub clear : Headers → Headers
clear h = record h { overflow = []; size = 0; trailers = 0; bitmap = 0; trailer_bitmap = 0 }

pub at : Headers → ℕ → HeaderRef
at h i =
    if ltb i inline_count
    then get_or h.inline_refs i unused
    else get_or h.overflow (i - inline_count) unused

pub push : Headers → HeaderRef → Headers
push h ref =
    if ltb h.size inline_count
    then record h { inline_refs = set h.inline_refs h.size ref; size = h.size + 1 }
    else record h { overflow = h.overflow ++ (ref ∷ []); size = h.size + 1 }

pub mark : Headers → HeaderRef → Headers
mark h ref =
    let bit : ℕ = 2 ^ field_index ref.field in
    if same_field ref.field other
    then h
    else if ref.trailer
    then record h { trailer_bitmap = bit_or h.trailer_bitmap bit }
    else record h { bitmap = bit_or h.bitmap bit }

pub count_trailer : Headers → HeaderRef → Headers
count_trailer h ref = if ref.trailer then record h { trailers = h.trailers + 1 } else h

pub used : Headers → HeaderRef → ℕ
used h ref = if ref.trailer then h.trailers else h.size - h.trailers

-- `none` is TooManyHeaders.
pub add : Headers → HeaderRef → ℕ → Option Headers
add h ref max_entries =
    if leb max_entries (used h ref) then none else some (mark (count_trailer (push h ref) ref) ref)

pub has_in : ℕ → Field → Bool
has_in bits f = not (same_field f other) && not (bit_and bits (2 ^ field_index f) == 0)

pub has : Headers → Field → Bool
has h f = has_in h.bitmap f

pub has_trailer : Headers → Field → Bool
has_trailer h f = has_in h.trailer_bitmap f

-- `head_` and `spill_`
pub record Bound : Type 0 where
  pub head : Option HeadBuffer
  pub spill : Option SpillBuffer

pub head_view : Option HeadBuffer → ℕ → ℕ → List ℕ
head_view none off len = []
head_view (some h) off len = Head.view h off len

pub spill_view : Option SpillBuffer → ℕ → ℕ → List ℕ
spill_view none off len = []
spill_view (some s) off len = Spill.view s off len

pub resolve : Bound → ℕ → ℕ → Bool → List ℕ
resolve b off len spilled =
    if len == 0
    then []
    else if spilled
    then spill_view b.spill off len
    else head_view b.head off len

pub name_of : Bound → HeaderRef → List ℕ
name_of b r = resolve b r.name_off r.name_len r.name_spilled

pub value_of : Bound → HeaderRef → List ℕ
value_of b r = resolve b r.value_off r.value_len r.spilled

pub name_at : Bound → Headers → ℕ → List ℕ
name_at b h i = name_of b (at h i)

pub value_at : Bound → Headers → ℕ → List ℕ
value_at b h i = value_of b (at h i)

-- The loops of the look-ups, from index `i` over `n` entries: the first entry that the test takes.
pub scan : Bound → Headers → (HeaderRef → Bool) → ℕ → ℕ → List ℕ
scan b h pick i zero = []
scan b h pick i (suc n) =
    let rest = scan b h pick (i + 1) n in if pick (at h i) then value_of b (at h i) else rest

pub is_header_of : Field → HeaderRef → Bool
is_header_of f r = not r.trailer && same_field r.field f

pub is_trailer_of : Field → HeaderRef → Bool
is_trailer_of f r = r.trailer && same_field r.field f

pub get : Bound → Headers → Field → List ℕ
get b h f = if not (has h f) then [] else scan b h (is_header_of f) 0 h.size

pub trailer_of : Bound → Headers → Field → List ℕ
trailer_of b h f = if not (has_trailer h f) then [] else scan b h (is_trailer_of f) 0 h.size

pub is_header_named : Bound → List ℕ → HeaderRef → Bool
is_header_named b name r =
    not (r.trailer || not (same_field r.field other)) && iequals (name_of b r) name

pub is_trailer_named : Bound → List ℕ → HeaderRef → Bool
is_trailer_named b name r =
    not (not r.trailer || not (same_field r.field other)) && iequals (name_of b r) name

pub get_named : Bound → Headers → List ℕ → List ℕ
get_named b h name =
    let f = field_from_name name in
    if not (same_field f other) then get b h f else scan b h (is_header_named b name) 0 h.size

pub trailer_named : Bound → Headers → List ℕ → List ℕ
trailer_named b h name =
    let f = field_from_name name in
    if h.trailers == 0
    then []
    else if not (same_field f other)
    then trailer_of b h f
    else scan b h (is_trailer_named b name) 0 h.size
