-- ===== src/Http/Url/Tests.antt =====
-- Runs of the url parser, and its theorem at an input.
use cornet.Base.{ℕ, ◌≡◌, refl, true, List, [], codes}
use cornet.Http.Protocol.{HttpError}
use cornet.Http.Fields.{iequals, iequals_loop}
use cornet.Http.Url.{
  https, default_port, Url, Result, ok, err, host_byte, host_bytes, valid_host, port_loop,
  port_range, parse_port, has_control, find, rfind, find_separator, parse_scheme, before,
  from_index, without_userinfo, userinfo_of, after_bracket, bracketed, plain, host_port, port_of,
  has_port, without_fragment, assemble, finish, parse_authority, parse_rest, parse_at, parse,
  same_origin, same_scheme,
}
use cornet.Http.Url.Valid.{IsUrl, parse-IsUrl}

abbrev parsed : Url
parsed = record {
  raw = codes "https://u:p@[::1]:8443/a?b#c";
  scheme = https;
  userinfo = codes "u:p";
  authority = codes "[::1]:8443";
  host = codes "::1";
  ipv6 = true;
  port = 8443;
  explicit_port = true;
  path = codes "/a";
  query = codes "b";
}

parse_run : parse (codes "https://u:p@[::1]:8443/a?b#c") ≡ ok parsed
unfolding parse parse_at parse_rest parse_authority finish assemble without_fragment has_port
    port_of host_port bracketed after_bracket userinfo_of without_userinfo from_index before
    parse_scheme find_separator rfind find has_control parse_port port_range port_loop valid_host
    host_bytes host_byte iequals iequals_loop
parse_run = refl

parse-IsUrl_example : IsUrl parsed
parse-IsUrl_example = parse-IsUrl (codes "https://u:p@[::1]:8443/a?b#c") parsed parse_run

-- A query with no path, a port of 0, and a space.
query_only : (Result Url) → List ℕ
query_only (ok u) = u.query
query_only (err e) = []

no_path : query_only (parse (codes "http://h?x=1")) ≡ codes "x=1"
unfolding query_only parse parse_at parse_rest parse_authority finish assemble without_fragment
    has_port port_of default_port host_port plain userinfo_of without_userinfo from_index before
    parse_scheme find_separator rfind find has_control valid_host host_bytes host_byte iequals
    iequals_loop
no_path = refl

port_zero : parse_port (codes "0") ≡ err HttpError.bad_url
unfolding parse_port port_range port_loop
port_zero = refl

same_as_itself : same_origin parsed parsed ≡ true
unfolding same_origin same_scheme iequals iequals_loop
same_as_itself = refl
