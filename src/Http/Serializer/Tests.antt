-- ===== src/Http/Serializer/Tests.antt =====
-- Runs of the serializer, and its theorems at inputs.
use cornet.Base.{◌≡◌, ◌⊎◌, refl, none, some, [], ◌++◌, codes, arith}
use cornet.Http.Fields.{content_length, field_prefix}
use cornet.Http.Decimal.{write_u64}
use cornet.Http.Serializer.Known.{prefix_text, header_u64-Emits}
use cornet.Http.Protocol.{Version, HttpError}
use cornet.Http.Protocol.Table.{status_text}
use cornet.Http.Output.{OutBuffer, put, put_crlf, failed, remaining, room_of}
use cornet.Http.Output.Emits.{Emits}
use cornet.Http.Serializer.{
  version_text, status_line, header, header_u64, date_header, end_headers, put_prefix,
}
use cornet.Http.Serializer.Lines.{Writes, Breakless, header_text, crlf, header-lines}
use cornet.Http.Serializer.Status.{status_line-Emits}

abbrev fresh : OutBuffer
fresh = record { lease = some 128; text = []; error = none }

header-lines_example :
    (Breakless (header_text (codes "X-Id") (codes "7"))
      × Writes
          (header_text (codes "X-Id") (codes "7") ++ crlf)
          fresh
          (header fresh (codes "X-Id") (codes "7")))
    ⊎ ((¬ Breakless (header_text (codes "X-Id") (codes "7")))
        × (header fresh (codes "X-Id") (codes "7")
            ≡ record fresh { error = some HttpError.invalid_header }))
header-lines_example =
    header-lines fresh (codes "X-Id") (codes "7") (omega arith) (omega arith) refl

status_line-Emits_example : Emits (status_text 299) 72 fresh (status_line fresh 299)
status_line-Emits_example = status_line-Emits fresh 299 (omega arith)

header_u64-Emits_example :
    Emits
      (prefix_text content_length ++ (write_u64 512 ++ crlf))
      41
      fresh
      (header_u64 fresh content_length 512)
header_u64-Emits_example = header_u64-Emits fresh content_length 512 (omega arith)

-- A rendered date is copied; none of it is written where there is none.
date_header_run : (date_header fresh (some (codes "now"))).text ≡ codes "Date: now" ++ crlf
unfolding date_header put_prefix put put_crlf failed remaining room_of field_prefix
date_header_run = refl

no_date : date_header fresh none ≡ fresh
unfolding date_header
no_date = refl

ended : (end_headers fresh).text ≡ crlf
unfolding end_headers put_crlf put failed remaining room_of
ended = refl

unfolded_version : version_text Version.unknown ≡ version_text Version.http11
unfolding version_text
unfolded_version = refl
