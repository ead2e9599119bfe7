-- ===== src/Http/Url/Valid.antt =====
-- What is parsed can be written into a request: no control bytes, a host, and a port.
use cornet.Base.{
  ℕ, zero, suc, ◌+◌, ◌<◌, ◌≡◌, ◌≢◌, inl, inr, refl, ltb, ◌==◌, &&_iff, true, false, Bool-cases,
  ◌||◌, Option, none, some, List, [], ◌∷◌, take, drop, length, subst, All, All-take, All-drop,
  arith,
}
use cornet.Http.Url.{
  Scheme, http, https, default_port, Url, Result, ok, err, and_then, host_byte, host_bytes,
  valid_host, port_loop, port_range, parse_port, has_control, find, rfind, find_separator,
  parse_scheme, before, from_index, without_userinfo, userinfo_of, HostPort, host_port, port_of,
  without_fragment, assemble, finish, parse_authority, parse_rest, parse_at, parse,
}

-- A step that succeeds had something to work on.
and_then-ok {ℓ κ} :
    {B : Type κ} {A : Type ℓ} (step : A → Result B) (r : Result A) (out : B)
    → and_then step r ≡ ok out
    → (found : A) × (r ≡ ok found) × (step found ≡ ok out)
and_then-ok step (err e) out h = absurd (cc h)
and_then-ok step (ok found) out h = (found, refl, h)

-- Bytes that a host may hold, and bytes that a request line may hold.
abbrev pub HostByte : ℕ → Type 0
HostByte c =
    (0x20 < c) × (c < 0x7f) × (c ≢ b'/') × (c ≢ 0x5c) × (c ≢ b'?') × (c ≢ b'#') × (c ≢ b'@')

abbrev pub Visible : ℕ → Type 0
Visible c = (0x20 < c) × (c ≢ 0x7f)

pub record IsUrl (u : Url) : Type 0 where
  pub host_there : u.host ≢ []
  pub host_safe : All HostByte u.host
  pub port_positive : 0 < u.port
  pub port_small : u.port < 65536
  pub path_safe : All Visible u.path
  pub query_safe : All Visible u.query

host_byte-HostByte : (c : ℕ) → host_byte c ≡ true → HostByte c
unfolding host_byte
host_byte-HostByte c e = ground arith

host_bytes-HostByte : (s : List ℕ) → host_bytes s ≡ true → All HostByte s
unfolding host_bytes
host_bytes-HostByte [] e = tt
host_bytes-HostByte (c ∷ s) e =
    let (here, rest) = (&&_iff (host_byte c) (host_bytes s)).0 e in
    (host_byte-HostByte c here, host_bytes-HostByte s rest)

valid_host-safe : (s : List ℕ) → valid_host s ≡ true → (s ≢ []) × All HostByte s
unfolding valid_host
valid_host-safe [] e = absurd (cc e)
valid_host-safe (c ∷ s) e = ((λ z. cc z), host_bytes-HostByte (c ∷ s) e)

has_control-Visible : (s : List ℕ) → has_control s ≡ false → All Visible s
unfolding has_control
has_control-Visible [] e = tt
has_control-Visible (c ∷ s) e = ground (arith, has_control-Visible s)

port_range-bounds : (r : Option ℕ) (v : ℕ) → port_range r ≡ ok v → (0 < v) × (v < 65536)
unfolding port_range
port_range-bounds none v e = absurd (cc e)
port_range-bounds (some w) v e = ground arith

parse_port-bounds : (text : List ℕ) (v : ℕ) → parse_port text ≡ ok v → (0 < v) × (v < 65536)
unfolding parse_port
parse_port-bounds text v e = elim (Bool-cases (length text == 0 || ltb 5 (length text))) [
  | inl bad ↦ absurd (cc (rw bad at e))
  | inr fine ↦ port_range-bounds (port_loop 0 text) v (rw fine at e)
]

port_of-bounds :
    (scheme : Scheme) (text : Option (List ℕ)) (v : ℕ)
    → port_of scheme text ≡ ok v
    → (0 < v) × (v < 65536)
unfolding port_of default_port
port_of-bounds http none v e = ground arith
port_of-bounds https none v e = ground arith
port_of-bounds scheme (some text) v e = parse_port-bounds text v e

before-Visible : (q : Option ℕ) (s : List ℕ) → All Visible s → All Visible (before q s)
unfolding before
before-Visible none s a = a
before-Visible (some i) s a = All-take Visible i s a

from_index-Visible :
    (skip : ℕ) (q : Option ℕ) (s : List ℕ) → All Visible s → All Visible (from_index skip q s)
unfolding from_index
from_index-Visible skip none s a = tt
from_index-Visible skip (some i) s a = All-drop Visible (i + skip) s a

finish-IsUrl :
    (raw : List ℕ) (scheme : Scheme) (userinfo authority wire : List ℕ) (hp : HostPort) (u : Url)
    → All Visible wire
    → finish raw scheme userinfo authority wire hp ≡ ok u
    → IsUrl u
unfolding finish assemble
finish-IsUrl raw scheme userinfo authority wire hp u visible e =
    elim (Bool-cases (valid_host hp.host)) [
      | inr bad ↦ absurd (cc (rw bad at e))
      | inl good ↦
          let (port, p, done) =
            and_then-ok (λ port. ok (assemble raw scheme userinfo authority wire hp port))
              (port_of scheme hp.port_text) u (rw good at e) in
          let (there, safe) = valid_host-safe hp.host good in
          let (positive, small) = port_of-bounds scheme hp.port_text port p in
          let q = find (λ x. x == b'?') wire in
          let same_url : assemble raw scheme userinfo authority wire hp port ≡ u = cc done in
          subst IsUrl same_url (record {
            host_there = there;
            host_safe = safe;
            port_positive = positive;
            port_small = small;
            path_safe = before-Visible q wire visible;
            query_safe = from_index-Visible 1 q wire visible;
          })
    ]

parse_at-IsUrl :
    (raw : List ℕ) (sep : Option ℕ) (u : Url) → All Visible raw → parse_at raw sep ≡ ok u → IsUrl u
unfolding parse_at parse_rest parse_authority without_fragment
parse_at-IsUrl raw none u visible e = absurd (cc e)
parse_at-IsUrl raw (some zero) u visible e = absurd (cc e)
parse_at-IsUrl raw (some (suc i)) u visible e =
    let rest = drop (suc i + 3) raw in
    let (scheme, s, parsed) =
      and_then-ok (parse_rest raw rest) (parse_scheme (take (suc i) raw)) u e in
    let split = find (λ x. x == b'/' || x == b'?' || x == b'#') rest in
    let authority : List ℕ = before split rest in
    let marker = rfind (λ x. x == b'@') authority in
    let tail : List ℕ = from_index 0 split rest in
    let wire : List ℕ = without_fragment tail in
    let (hp, h, done) =
      and_then-ok
        (finish raw scheme (userinfo_of marker authority) (without_userinfo marker authority) wire)
        (host_port (without_userinfo marker authority)) u parsed in
    finish-IsUrl raw scheme (userinfo_of marker authority) (without_userinfo marker authority) wire
      hp u
      (before-Visible (find (λ x. x == b'#') tail) tail
        (from_index-Visible 0 split rest (All-drop Visible (suc i + 3) raw visible)))
      done

-- Every url that parses has a host of printable ASCII bytes other than slash, backslash, ?, # and @, of
-- which there is at least one, a port from 1 to 65535, and a path and a query with no byte up to the space
-- and no DEL.
pub parse-IsUrl : (raw : List ℕ) (u : Url) → parse raw ≡ ok u → IsUrl u
unfolding parse
parse-IsUrl raw u e = elim (Bool-cases (has_control raw)) [
  | inl bad ↦ absurd (cc (rw bad at e))
  | inr fine ↦
      parse_at-IsUrl raw (find_separator raw) u (has_control-Visible raw fine) (rw fine at e)
]
