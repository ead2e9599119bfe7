-- ===== src/Http/Protocol/Table.antt =====
-- The rows of the status table, and the lengths of the texts that the protocol's tables hold.
use cornet.Base.{
  ℕ, ◌^◌, ◌<◌, ◌≤◌, ◌≡◌, refl, none, some, Bool-cases, ==_iff, &&_iff, List, [], ◌∷◌, ◌++◌, length,
  arith, Bool, true, ◌&&◌, ◌==◌, ◌⊎◌, Option-cases, codes, leb, same, same_iff, inl, inr,
}
use cornet.Http.Decimal.{write_u64, pairs_loop, last_digits, digit_pairs}
use cornet.Http.Protocol.{
  Method, method_name, Row, status_map, find_row, status_line, line_of, reason_phrase, phrase_of,
}

pub method_name-short : (m : Method) → length (method_name m) < 2 ^ 32
unfolding method_name
method_name-short Method.get = omega arith
method_name-short m = omega arith

-- A row's digits are its code's, and its phrase is short.
abbrev good_row : Row → Bool
good_row r = same r.digits (write_u64 r.code) && leb (length r.phrase) 40

all_good : List Row → Bool
all_good [] = true
all_good (r ∷ rows) = good_row r && all_good rows

status_map-all_good : all_good status_map ≡ true
unfolding all_good status_map write_u64 pairs_loop last_digits digit_pairs
status_map-all_good = refl

find_row-good :
    (s : ℕ) (rows : List Row) (r : Row)
    → all_good rows ≡ true
    → find_row s rows ≡ some r
    → (r.digits ≡ write_u64 s) × (length r.phrase ≤ 40)
unfolding all_good find_row
find_row-good s [] r g f = absurd (cc f)
find_row-good s (r2 ∷ rows) r g f =
    let (good, rest) = (&&_iff (good_row r2) (all_good rows)).0 g in
    elim (Bool-cases (r2.code == s)) [
      | inr no_ ↦ find_row-good s rows r rest (rw no_ at f)
      | inl yes_ ↦
          let (digits, short) =
            (&&_iff (same r2.digits (write_u64 r2.code)) (leb (length r2.phrase) 40)).0 good in
          let here : r2 ≡ r = cc (rw yes_ at f) in
          let code_ : r2.code ≡ s = (==_iff r2.code s).0 yes_ in
          let text : r2.digits ≡ write_u64 r2.code =
            (same_iff r2.digits (write_u64 r2.code)).0 digits in
          rw (← here, ← code_) (text, ground arith)
    ]

pub status_map-good :
    (s : ℕ) (r : Row)
    → find_row s status_map ≡ some r
    → (r.digits ≡ write_u64 s) × (length r.phrase ≤ 40)
status_map-good s r f = find_row-good s status_map r status_map-all_good f

pub reason_phrase-short : (s : ℕ) → length (reason_phrase s) ≤ 40
unfolding reason_phrase phrase_of
reason_phrase-short s = elim (Option-cases (find_row s status_map)) [
  | inl e ↦ rw e (omega arith)
  | inr (r, e) ↦ rw e (status_map-good s r e).1
]

-- The line of a status, composed from its number and its phrase.
abbrev pub status_text : ℕ → List ℕ
status_text s =
    codes "HTTP/1.1 " ++ (write_u64 s ++ (codes " " ++ (reason_phrase s ++ (13 ∷ 10 ∷ []))))

-- A pre-rendered line is the composed one.
pub status_line-cases : (s : ℕ) → (status_line s ≡ none) ⊎ (status_line s ≡ some (status_text s))
unfolding status_line line_of reason_phrase phrase_of
status_line-cases s = elim (Option-cases (find_row s status_map)) [
  | inl e ↦ inl (rw e refl)
  | inr (r, e) ↦ inr (rw e (rw (status_map-good s r e).0 refl))
]

-- The status of an accepted upgrade is in the table.
pub status_line-switching : status_line 101 ≡ some (status_text 101)
unfolding status_line line_of find_row status_map
status_line-switching = elim (status_line-cases 101) [ inr e ↦ e | inl e ↦ absurd (cc e) ]
