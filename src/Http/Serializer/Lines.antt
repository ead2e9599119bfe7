-- ===== src/Http/Serializer/Lines.antt =====
-- What a request line and a header line are: one line each, or an error.
use cornet.Base.{
  ℕ, ◌^◌, ◌<◌, ◌≡◌, ◌≢◌, ◌⊎◌, ◌↔◌, inl, inr, refl, Bool-cases, ==_iff, none, some, All, All-append,
  All-append_left, All-append_right, List, [], ◌∷◌, ◌++◌, codes, length, length-append, arith, true,
  false, ◌||◌,
}
use cornet.Http.Protocol.{Method, method_name, Version, HttpError}
use cornet.Http.Protocol.Table.{method_name-short}
use cornet.Http.Output.{OutBuffer, put, put_view, put_byte, put_crlf}
use cornet.Http.Output.Emits.{
  Emits, failing, then-Emits, put-Emits, put_view-Emits, put_byte-Emits, put_crlf-Emits,
  nothing-Emits,
}
use cornet.Http.Serializer.{request_line, put_path, put_query, version_text, has_crlf, header}

abbrev pub crlf : List ℕ
crlf = 13 ∷ 10 ∷ []

-- A run of writes that needs no more than it writes.
abbrev pub Writes : List ℕ → OutBuffer → OutBuffer → Type 0
Writes s out out' = Emits s (length s) out out'

pub both-Writes :
    {s1 s2 : List ℕ} {out out1 out2 : OutBuffer}
    → Writes s1 out out1
    → Writes s2 out1 out2
    → Writes (s1 ++ s2) out out2
both-Writes {s1} {s2} a b =
    then-Emits (length (s1 ++ s2)) (omega (arith, length-append s1 s2))
      (omega (arith, length-append s1 s2)) a b

abbrev pub path_part : List ℕ → List ℕ
path_part [] = codes "/"
path_part (c ∷ path) = c ∷ path

abbrev pub query_part : List ℕ → List ℕ
query_part [] = []
query_part (c ∷ query) = codes "?" ++ (c ∷ query)

put_path-Writes :
    (out : OutBuffer) (path : List ℕ)
    → length path < 2 ^ 32
    → Writes (path_part path) out (put_path out path)
unfolding put_path
put_path-Writes out [] h = put_byte-Emits out b'/'
put_path-Writes out (c ∷ path) h = put_view-Emits out (c ∷ path) h

put_query-Writes :
    (out : OutBuffer) (query : List ℕ)
    → length query < 2 ^ 32
    → Writes (query_part query) out (put_query out query)
unfolding put_query
put_query-Writes out [] h = nothing-Emits out
put_query-Writes out (c ∷ query) h =
    both-Writes (put_byte-Emits out b'?') (put_view-Emits (put_byte out b'?') (c ∷ query) h)

-- A request line is the method, a space, the path or `/` where it is empty, the query behind `?` where it is
-- not empty, and the version with CRLF: all of it where it fits, and otherwise the overflow error.
pub request_line-Emits :
    (out : OutBuffer) (m : Method) (path query : List ℕ) (v : Version)
    → length path < 2 ^ 32
    → length query < 2 ^ 32
    → Writes
        (method_name m ++ (codes " " ++ (path_part path ++ (query_part query ++ version_text v))))
        out
        (request_line out m path query v)
unfolding request_line
request_line-Emits out m path query v hp hq =
    let out1 = put_view out (method_name m) in
    let out2 = put_byte out1 b' ' in
    let out3 = put_path out2 path in
    let out4 = put_query out3 query in
    both-Writes (put_view-Emits out (method_name m) (method_name-short m)) (
      both-Writes (put_byte-Emits out1 b' ') (
        both-Writes (put_path-Writes out2 path hp)
          (both-Writes (put_query-Writes out3 query hq) (put-Emits out4 (version_text v)))))

abbrev pub NotBreak : ℕ → Type 0
NotBreak c = (c ≢ 13) × (c ≢ 10)

-- A text with no CR and no LF.
abbrev pub Breakless : List ℕ → Type 0
Breakless s = All NotBreak s

pub has_crlf_iff : (s : List ℕ) → (has_crlf s ≡ false) ↔ Breakless s
unfolding has_crlf
has_crlf_iff [] = ((λ e. tt), λ b. refl)
has_crlf_iff (c ∷ s) = ground (arith, has_crlf_iff s, ==_iff c 13, ==_iff c 10)

pub has_crlf-true : (s : List ℕ) → has_crlf s ≡ true → ¬ Breakless s
has_crlf-true s e b = cc (e, (has_crlf_iff s).1 b)

-- The name, the colon and the value of a header line.
abbrev pub header_text : List ℕ → List ℕ → List ℕ
header_text name value = name ++ (codes ": " ++ value)

header-Writes :
    (out : OutBuffer) (name value : List ℕ)
    → length name < 2 ^ 32
    → length value < 2 ^ 32
    → Writes
        (header_text name value ++ crlf)
        out
        (put_crlf (put_view (put (put_view out name) (codes ": ")) value))
header-Writes out name value hn hv =
    let out1 = put_view out name in
    let out2 = put out1 (codes ": ") in
    both-Writes
      (both-Writes (put_view-Emits out name hn)
        (both-Writes (put-Emits out1 (codes ": ")) (put_view-Emits out2 value hv)))
      (put_crlf-Emits (put_view out2 value))

-- A header that is written on a buffer with no error is one line, `name: value` with no CR and no LF in it,
-- and CRLF, or the overflow error; where the name or the value holds CR or LF, nothing is written and the
-- error is InvalidHeader.
pub header-lines :
    (out : OutBuffer) (name value : List ℕ)
    → length name < 2 ^ 32
    → length value < 2 ^ 32
    → out.error ≡ none
    → (Breakless (header_text name value)
        × Writes (header_text name value ++ crlf) out (header out name value))
      ⊎ ((¬ Breakless (header_text name value))
          × (header out name value ≡ record out { error = some HttpError.invalid_header }))
unfolding header
header-lines out name value hn hv e = elim (Bool-cases (has_crlf name)) [
  | inl bad ↦ inr (
    (λ b. has_crlf-true name bad (All-append_left NotBreak name (codes ": " ++ value) b)),
    rw (bad, ◌||◌) (failing out HttpError.invalid_header e),
  )
  | inr good ↦ elim (Bool-cases (has_crlf value)) [
    | inl bad ↦ inr (
      (λ b. has_crlf-true value bad (
          All-append_right NotBreak (codes ": ") value
            (All-append_right NotBreak name (codes ": " ++ value) b))),
      rw (good, bad, ◌||◌) (failing out HttpError.invalid_header e),
    )
    | inr good2 ↦ inl (
      All-append NotBreak name (codes ": " ++ value) ((has_crlf_iff name).0 good)
          (All-append NotBreak (codes ": ") value (omega arith) ((has_crlf_iff value).0 good2)),
      rw (good, good2, ◌||◌) (header-Writes out name value hn hv),
    )
  ]
]
