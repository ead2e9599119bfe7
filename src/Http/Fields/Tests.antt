-- ===== src/Http/Fields/Tests.antt =====
-- Look-ups of header names, and the theorems at concrete names.
use cornet.Base.{◌≡◌, ◌≢◌, ◌↔◌, refl, codes, set, arith}
use cornet.Http.Fields.{
  host, transfer_encoding, other, field_name, m_short, m8, ld, pack, pack_loop, field_from_name,
  names_4, names_17,
}
use cornet.Http.Fields.Words.{SameKey}
use cornet.Http.Fields.Names.{field_from_name_iff}
use cornet.Http.Fields.Gap.{field_from_name-set}

upper_host : field_from_name (codes "HOST") ≡ host
unfolding field_from_name names_4 m_short ld pack pack_loop
upper_host = refl

-- An underscore in the place of the hyphen.
underscore : field_from_name (codes "Transfer_Encoding") ≡ transfer_encoding
unfolding field_from_name names_17 m8 ld pack pack_loop
underscore = refl

host-ne-other : host ≢ other
host-ne-other e = cc e

field_from_name_iff_example :
    (field_from_name (codes "HOST") ≡ host) ↔ SameKey (codes "HOST") (field_name host)
field_from_name_iff_example = field_from_name_iff (codes "HOST") host (omega arith) host-ne-other

field_from_name-set_example :
    field_from_name (set (codes "Transfer-Encoding") 8 0x5F)
    ≡ field_from_name (codes "Transfer-Encoding")
field_from_name-set_example =
    field_from_name-set (codes "Transfer-Encoding") 0x5F (omega arith) (omega arith) refl
