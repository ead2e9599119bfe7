-- ===== src/Http/Serializer/Status.antt =====
-- The tabulated status lines are what the composed ones would be.
use cornet.Base.{
  ℕ, ◌%◌, ◌^◌, ◌<◌, ◌≤◌, ◌≡◌, inl, inr, none, ◌++◌, codes, length, length-append, arith,
}
use cornet.Http.Protocol.{reason_phrase}
use cornet.Http.Protocol.Table.{status_text, status_line-cases, reason_phrase-short}
use cornet.Http.Decimal.{write_u64}
use cornet.Http.Decimal.RoundTrip.{write_u64-IsDecimal}
use cornet.Http.Output.{OutBuffer, put, put_view, put_byte, put_u64}
use cornet.Http.Output.Emits.{
  Emits, then-Emits, put-Emits, put_view-Emits, put_byte-Emits, put_crlf-Emits, put_u64-Emits,
  more-Emits,
}
use cornet.Http.Serializer.{status_line, compose_status}
use cornet.Http.Serializer.Lines.{crlf}

tabulated-short : (s : ℕ) → s < 2 ^ 16 → length (status_text s) ≤ 72
tabulated-short s h =
    let short = reason_phrase-short s in
    let digits = (write_u64-IsDecimal s (omega arith)).3 in
    omega (
      arith,
      length-append (write_u64 s) (codes " " ++ (reason_phrase s ++ crlf)),
      length-append (reason_phrase s) crlf,
    )

composed-Emits :
    (out : OutBuffer) (s : ℕ)
    → s < 2 ^ 16
    → Emits (status_text s) 72 out (compose_status out s none)
unfolding compose_status
composed-Emits out s h =
    let whole : s % 65536 ≡ s = omega arith in
    let out1 = put out (codes "HTTP/1.1 ") in
    let out2 = put_u64 out1 s in
    let out3 = put_byte out2 b' ' in
    let out4 = put_view out3 (reason_phrase s) in
    let short = reason_phrase-short s in
    let digits = (write_u64-IsDecimal s (omega arith)).3 in
    rw whole (
      then-Emits 72 (omega arith) (omega arith) (put-Emits out (codes "HTTP/1.1 ")) (
        then-Emits 63 (omega arith) (omega arith) (put_u64-Emits out1 s (omega arith)) (
          then-Emits 43 (omega arith) (omega arith) (put_byte-Emits out2 b' ') (
            then-Emits 42 (omega arith) (omega arith)
              (put_view-Emits out3 (reason_phrase s) (omega arith)) (put_crlf-Emits out4)))))

-- For every status, tabulated or not, the status line is `HTTP/1.1`, the decimal digits of the status, its
-- reason phrase and CRLF; 72 bytes of room are enough for it.
pub status_line-Emits :
    (out : OutBuffer) (s : ℕ) → s < 2 ^ 16 → Emits (status_text s) 72 out (status_line out s)
unfolding status_line compose_status
status_line-Emits out s h = elim (status_line-cases s) [
  | inl e ↦ rw e (composed-Emits out s h)
  | inr e ↦ rw e (more-Emits 72 (tabulated-short s h) (put-Emits out (status_text s)))
]
