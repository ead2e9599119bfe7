-- ===== src/Http/Serializer/Known.antt =====
-- The lines of the well-known fields, whose names and colons are rendered beforehand.
use cornet.Base.{
  ℕ, ◌^◌, ◌<◌, ◌≤◌, ◌≡◌, ◌⊎◌, inl, inr, refl, Bool-cases, Option, none, some, List, [], ◌++◌,
  length, arith,
}
use cornet.Http.Fields.{Field, host, field_prefix}
use cornet.Http.Protocol.{HttpError}
use cornet.Http.Decimal.{write_u64}
use cornet.Http.Decimal.RoundTrip.{write_u64-IsDecimal}
use cornet.Http.Output.{OutBuffer, fail, put_view, put_u64}
use cornet.Http.Output.Emits.{
  Emits, then-Emits, put-Emits, put_view-Emits, put_u64-Emits, put_crlf-Emits, nothing-Emits,
}
use cornet.Http.Serializer.{has_crlf, put_prefix, header_field, header_u64}
use cornet.Http.Serializer.Lines.{Breakless, has_crlf_iff, has_crlf-true, crlf, Writes, both-Writes}

abbrev pub prefix_of : Option (List ℕ) → List ℕ
prefix_of none = []
prefix_of (some p) = p

-- The rendered name and colon of a field; nothing for `Other`.
abbrev pub prefix_text : Field → List ℕ
prefix_text f = prefix_of (field_prefix f)

prefix_text-plain : (f : Field) → Breakless (prefix_text f) × (length (prefix_text f) ≤ 19)
unfolding field_prefix
prefix_text-plain host = omega arith
prefix_text-plain f = omega arith

put_prefix-Writes :
    (out : OutBuffer) (p : Option (List ℕ)) → Writes (prefix_of p) out (put_prefix out p)
unfolding put_prefix
put_prefix-Writes out none = nothing-Emits out
put_prefix-Writes out (some p) = put-Emits out p

-- A known header on any buffer: one line where the value has no CR and no LF, or the failure.
pub header_field_cases :
    (out : OutBuffer) (f : Field) (value : List ℕ)
    → length value < 2 ^ 32
    → (Breakless value × Writes (prefix_text f ++ (value ++ crlf)) out (header_field out f value))
      ⊎ ((¬ Breakless value) × (header_field out f value ≡ fail out HttpError.invalid_header))
unfolding header_field
header_field_cases out f value hv = elim (Bool-cases (has_crlf value)) [
  | inl bad ↦ inr (has_crlf-true value bad, rw bad refl)
  | inr good ↦
      let out1 = put_prefix out (field_prefix f) in
      inl (
        (has_crlf_iff value).0 good,
        rw good (
            both-Writes (put_prefix-Writes out (field_prefix f))
              (both-Writes (put_view-Emits out1 value hv) (put_crlf-Emits (put_view out1 value)))),
      )
]

-- A known header with a 64-bit number is the rendered name and colon, the decimal digits of the number and
-- CRLF; 41 bytes of room are enough for it.
pub header_u64-Emits :
    (out : OutBuffer) (f : Field) (v : ℕ)
    → v < 2 ^ 64
    → Emits (prefix_text f ++ (write_u64 v ++ crlf)) 41 out (header_u64 out f v)
unfolding header_u64
header_u64-Emits out f v h =
    let out1 = put_prefix out (field_prefix f) in
    let short = (prefix_text-plain f).1 in
    let digits = (write_u64-IsDecimal v h).3 in
    then-Emits 41 (omega arith) (omega arith) (put_prefix-Writes out (field_prefix f)) (
      then-Emits 22 (omega arith) (omega arith) (put_u64-Emits out1 v h)
        (put_crlf-Emits (put_u64 out1 v)))
