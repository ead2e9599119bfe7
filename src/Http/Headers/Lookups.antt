-- ===== src/Http/Headers/Lookups.antt =====
-- The look-ups are searches of the list of entries, although a bitmap answers for what is absent.
use cornet.Base.{
  ℕ, zero, suc, ◌+◌, ◌^◌, ◌<◌, ◌≡◌, inl, inr, refl, sym, ap, ◌∙◌, bit_and, if◌then◌else◌, ◌==◌,
  ==_iff, Bool-cases, Bool, true, false, List, [], ◌∷◌, length, get_or, drop, drop-get_or, arith,
}
use native.Mathlib.Nat.{one-le-pow}
use cornet.Base.Flags.{bit, bit-lt, bit_and-pow}
use cornet.Http.Fields.{Field, field_from_name, other}
use cornet.Http.Headers.{
  field_index, same_field, HeaderRef, unused, Headers, has_in, has, has_trailer, Bound, value_of,
  is_header_named, is_trailer_named, get_named, trailer_named, scan, is_header_of, is_trailer_of,
  get, trailer_of,
}
use cornet.Http.Headers.Entries.{Represents, trailer_count, flag, flags}

-- The value of the first entry that a test takes, empty if there is none.
abbrev pub first_value : Bound → (HeaderRef → Bool) → List HeaderRef → List ℕ
first_value b pick [] = []
first_value b pick (r ∷ rs) = if pick r then value_of b r else first_value b pick rs

scan-first :
    (b : Bound) (h : Headers) (rs : List HeaderRef) (pick : HeaderRef → Bool) (i n : ℕ)
    → Represents h rs
    → i + n ≡ length rs
    → scan b h pick i n ≡ first_value b pick (drop i rs)
unfolding scan
scan-first b h rs pick i zero v e = rw (drop-end i rs (omega arith)) refl
  where
    drop-end : (k : ℕ) (xs : List HeaderRef) → k ≡ length xs → drop k xs ≡ []
    drop-end zero [] q = refl
    drop-end zero (x ∷ xs) q = absurd (omega arith)
    drop-end (suc k) [] q = refl
    drop-end (suc k) (x ∷ xs) q = drop-end k xs (omega arith)
scan-first b h rs pick i (suc n) v e =
    let inside : i < length rs = omega arith in
    let rest = scan-first b h rs pick (i + 1) n v (omega arith) in
    let step : drop (i + 1) rs ≡ drop (suc i) rs = ap (λ k. drop k rs) {y = suc i} (omega arith) in
    let next_rest = rest ∙ ap (first_value b pick) step in
    rw (v.entry i inside, drop-get_or i rs unused inside)
      (ap (λ t. if pick (get_or rs i unused) then value_of b (get_or rs i unused) else t) next_rest)

-- What sets no flag of a field is no entry of it.
absent-first :
    (b : Bound) (t : Bool) (f : Field) (pick : HeaderRef → Bool) (rs : List HeaderRef)
    → ((r : HeaderRef) → flag t (field_index f) r ≡ 0 → pick r ≡ false)
    → flags t (field_index f) rs ≡ 0
    → first_value b pick rs ≡ []
absent-first b t f pick [] no_pick z = refl
absent-first b t f pick (r ∷ rs) no_pick z = elim (Bool-cases (flag t (field_index f) r == 0)) [
  | inl e ↦
      rw (no_pick r ((==_iff (flag t (field_index f) r) 0).0 e))
        (absent-first b t f pick rs no_pick (rw e at z))
  | inr e ↦ absurd (omega (arith, (rw e at z)))
]

no_header :
    (f : Field) (r : HeaderRef)
    → same_field f other ≡ false
    → flag false (field_index f) r ≡ 0
    → is_header_of f r ≡ false
unfolding is_header_of same_field
no_header f r known z = ground arith

no_trailer :
    (f : Field) (r : HeaderRef)
    → same_field f other ≡ false
    → flag true (field_index f) r ≡ 0
    → is_trailer_of f r ≡ false
unfolding is_trailer_of same_field
no_trailer f r known z = ground arith

-- A field that the bitmap does not have has no flag.
has_in-false :
    (bits : ℕ) (f : Field)
    → same_field f other ≡ false
    → has_in bits f ≡ false
    → bit bits (field_index f) ≡ 0
unfolding has_in
has_in-false bits f known e =
    let i = field_index f in
    let masked = bit_and-pow i bits in
    let small = bit-lt bits i in
    elim (Bool-cases (bit bits i == 0)) [
      | inl z ↦ (==_iff (bit bits i) 0).0 z
      | inr n ↦
          let one : bit bits i ≡ 1 = ground arith in
          let power : bit_and bits (2 ^ i) ≡ 2 ^ i = rw one at masked ∙ omega arith in
          absurd (has_power power)
    ]
  where
    has_power : bit_and bits (2 ^ field_index f) ≡ 2 ^ field_index f → ⊥
    has_power q = ground (arith, one-le-pow (field_index f) 2)

-- In headers that hold the entries `rs`, the look-up of a known field in the header section, and among the
-- trailers, gives the value of the first entry of that field and that section, and is empty where there is
-- none.
pub get-first :
    (b : Bound) (h : Headers) (rs : List HeaderRef) (f : Field)
    → Represents h rs
    → same_field f other ≡ false
    → (get b h f ≡ first_value b (is_header_of f) rs)
      × (trailer_of b h f ≡ first_value b (is_trailer_of f) rs)
unfolding get trailer_of has has_trailer
get-first b h rs f v known = (
  elim (Bool-cases (has_in h.bitmap f)) [
    | inl there ↦ rw there (
        ap (scan b h (is_header_of f) 0) v.size_is
        ∙ scan-first b h rs (is_header_of f) 0 (length rs) v (omega arith))
    | inr absent ↦ rw absent (
        sym (
          absent-first b false f (is_header_of f) rs (λ r z. no_header f r known z)
            (sym (v.header_bits (field_index f)) ∙ has_in-false h.bitmap f known absent)))
  ],
  elim (Bool-cases (has_in h.trailer_bitmap f)) [
    | inl there ↦ rw there (
        ap (scan b h (is_trailer_of f) 0) v.size_is
        ∙ scan-first b h rs (is_trailer_of f) 0 (length rs) v (omega arith))
    | inr absent ↦ rw absent (
        sym (
          absent-first b true f (is_trailer_of f) rs (λ r z. no_trailer f r known z)
            (sym (v.trailer_bits (field_index f)) ∙ has_in-false h.trailer_bitmap f known absent)))
  ],
)

no_trailers-first :
    (b : Bound) (name : List ℕ) (rs : List HeaderRef)
    → trailer_count rs ≡ 0
    → first_value b (is_trailer_named b name) rs ≡ []
unfolding is_trailer_named
no_trailers-first b name [] z = refl
no_trailers-first b name (r ∷ rs) z = elim (Bool-cases r.trailer) [
  | inl t ↦ absurd (omega (arith, (rw t at z)))
  | inr t ↦ simp t (no_trailers-first b name rs (omega (arith, (rw t at z))))
]

-- The look-up of a name that is no known field searches the entries of no known field by their names.
pub get_named-first :
    (b : Bound) (h : Headers) (rs : List HeaderRef) (name : List ℕ)
    → Represents h rs
    → same_field (field_from_name name) other ≡ true
    → (get_named b h name ≡ first_value b (is_header_named b name) rs)
      × (trailer_named b h name ≡ first_value b (is_trailer_named b name) rs)
unfolding get_named trailer_named is_header_named
get_named-first b h rs name v unknown = (
  rw unknown (
      ap (scan b h (is_header_named b name) 0) v.size_is
      ∙ scan-first b h rs (is_header_named b name) 0 (length rs) v (omega arith)),
  elim (Bool-cases (h.trailers == 0)) [
    | inl none_there ↦
        rw none_there (
          sym
            (no_trailers-first b name rs (sym v.trailers_is ∙ (==_iff h.trailers 0).0 none_there)))
    | inr some_there ↦
        rw (some_there, unknown)
          (ap (scan b h (is_trailer_named b name) 0) v.size_is
            ∙ scan-first b h rs (is_trailer_named b name) 0 (length rs) v (omega arith))
  ],
)
