-- ===== src/Http/Headers/Entries.antt =====
-- The headers as the list of what was added, in order, and the look-ups as searches of that list.
use cornet.Base.{
  ℕ, ◌+◌, ◌-◌, ◌^◌, ◌<◌, ◌≤◌, ◌≡◌, ◌⊎◌, inl, inr, refl, sym, ◌∙◌, bit_or, if◌then◌else◌, leb,
  lt→ltb, ge→ltb, ◌==◌, ==_iff, Bool-cases, le_or_lt, Bool, true, false, not, ◌&&◌, none, some,
  List, [], ◌∷◌, ◌++◌, length, length-append, length-set, get_or, get_or-set_self, get_or-set_ne,
  get_or-append_left, get_or-append_last, arith,
}
use cornet.Base.Flags.{bit, bit-lt, bit-bit_or, bit-pow, bit-zero}
use cornet.Http.Fields.{other}
use cornet.Http.Headers.{
  field_index, same_field, HeaderRef, unused, Headers, clear, at, push, mark, count_trailer, used,
  add,
}

-- How many entries arrived as trailers.
abbrev pub trailer_count : List HeaderRef → ℕ
trailer_count [] = 0
trailer_count (r ∷ rs) = (if r.trailer then 1 else 0) + trailer_count rs

-- Whether an entry, and whether any of the entries, sets flag `f` among the trailers or the headers.
abbrev pub flag : Bool → ℕ → HeaderRef → ℕ
flag trailers f r =
    if not (same_field r.field other)
      && (if trailers then r.trailer else not r.trailer)
      && field_index r.field == f
    then 1
    else 0

abbrev pub flags : Bool → ℕ → List HeaderRef → ℕ
flags trailers f [] = 0
flags trailers f (r ∷ rs) = if flag trailers f r == 0 then flags trailers f rs else 1

-- The entries of `h` are `rs`, and its counters and bitmaps are what `rs` makes them.
pub record Represents (h : Headers) (rs : List HeaderRef) : Type 0 where
  pub size_is : h.size ≡ length rs
  pub inline_long : length h.inline_refs ≡ 32
  pub overflow_long : length h.overflow ≡ length rs - 32
  pub entry : (i : ℕ) → i < length rs → at h i ≡ get_or rs i unused
  pub trailers_is : h.trailers ≡ trailer_count rs
  pub header_bits : (f : ℕ) → bit h.bitmap f ≡ flags false f rs
  pub trailer_bits : (f : ℕ) → bit h.trailer_bitmap f ≡ flags true f rs

trailer_count-append :
    (rs : List HeaderRef) (r : HeaderRef)
    → trailer_count (rs ++ (r ∷ [])) ≡ trailer_count rs + (if r.trailer then 1 else 0)
trailer_count-append [] r = omega arith
trailer_count-append (x ∷ rs) r = omega (arith, trailer_count-append rs r)

flags-append :
    (t : Bool) (f : ℕ) (rs : List HeaderRef) (r : HeaderRef)
    → flags t f (rs ++ (r ∷ []))
      ≡ (if flags t f rs == 0 then (if flag t f r == 0 then 0 else 1) else 1)
flags-append t f [] r = refl
flags-append t f (x ∷ rs) r = elim (Bool-cases (flag t f x == 0)) [
  | inl e ↦ rw e (flags-append t f rs r)
  | inr e ↦ rw e refl
]

-- The entries after a push, in the array or behind it.
push-entry :
    (h : Headers) (rs : List HeaderRef) (r : HeaderRef)
    → Represents h rs
    → (i : ℕ) → i < length rs + 1
    → at (push h r) i ≡ get_or (rs ++ (r ∷ [])) i unused
unfolding at push
push-entry h rs r v i hi = elim (le_or_lt 32 h.size) [
  | inr small ↦
      rw (lt→ltb h.size 32 small, lt→ltb i 32 (omega (arith, v.size_is)))
        (elim (Bool-cases (i == length rs)) [
          | inl here ↦
              let top : i ≡ length rs = (==_iff i (length rs)).0 here in
              let slot : h.size ≡ i = v.size_is ∙ sym top in
              rw slot (
                get_or-set_self h.inline_refs i r unused (omega (arith, v.inline_long, v.size_is))
                ∙ sym (rw top (get_or-append_last rs r unused)))
          | inr below ↦
              let under : i < length rs = ground arith in
              get_or-set_ne h.inline_refs h.size i r unused (omega (arith, v.size_is))
              ∙ rw (lt→ltb i 32 (omega (arith, v.size_is))) at (v.entry i under)
              ∙ sym (get_or-append_left rs (r ∷ []) i unused under)
        ])
  | inl big ↦ elim (le_or_lt 32 i) [
    | inr low ↦
        rw (ge→ltb h.size 32 big, lt→ltb i 32 low)
          (rw (lt→ltb i 32 low) at (v.entry i (omega (arith, v.size_is)))
            ∙ sym (get_or-append_left rs (r ∷ []) i unused (omega (arith, v.size_is))))
    | inl high ↦
        rw (ge→ltb h.size 32 big, ge→ltb i 32 high)
          (elim (Bool-cases (i == length rs)) [
            | inl here ↦
                let top : i ≡ length rs = (==_iff i (length rs)).0 here in
                let slot : i - 32 ≡ length h.overflow = omega (arith, v.overflow_long) in
                rw slot (
                  get_or-append_last h.overflow r unused
                  ∙ sym (rw top (get_or-append_last rs r unused)))
            | inr below ↦
                let under : i < length rs = ground arith in
                get_or-append_left h.overflow (r ∷ []) (i - 32) unused
                  (omega (arith, v.overflow_long))
                ∙ rw (ge→ltb i 32 high) at (v.entry i under)
                ∙ sym (get_or-append_left rs (r ∷ []) i unused under)
          ])
  ]
]

-- Setting the flag of an entry in one of the two bitmaps.
bit-mark :
    (bits : ℕ) (t : Bool) (rs : List HeaderRef) (r : HeaderRef)
    → same_field r.field other ≡ false
    → (if t then r.trailer else not r.trailer) ≡ true
    → ((f : ℕ) → bit bits f ≡ flags t f rs)
    → (f : ℕ) → bit (bit_or bits (2 ^ field_index r.field)) f ≡ flags t f (rs ++ (r ∷ []))
bit-mark bits t rs r known kind before f =
    let step = bit-bit_or f bits (2 ^ field_index r.field) in
    let one = bit-pow (field_index r.field) f in
    let old = before f in
    let small = bit-lt bits f in
    step ∙ ground (arith, one, old, small, flags-append t f rs r, known, kind)

-- An entry that sets no flag there.
bit-unmarked :
    (bits : ℕ) (t : Bool) (rs : List HeaderRef) (r : HeaderRef)
    → (same_field r.field other ≡ true) ⊎ ((if t then r.trailer else not r.trailer) ≡ false)
    → ((f : ℕ) → bit bits f ≡ flags t f rs)
    → (f : ℕ) → bit bits f ≡ flags t f (rs ++ (r ∷ []))
bit-unmarked bits t rs r none_set before f =
    let small = bit-lt bits f in ground (arith, before f, small, flags-append t f rs r, none_set)

-- What a push leaves: the longer array, and the counters and bitmaps as they were.
record Pushed (rs : List HeaderRef) (r : HeaderRef) (p : Headers) : Type 0 where
  size_is : p.size ≡ length rs + 1
  inline_long : length p.inline_refs ≡ 32
  overflow_long : length p.overflow ≡ length rs + 1 - 32
  entry : (i : ℕ) → i < length rs + 1 → at p i ≡ get_or (rs ++ (r ∷ [])) i unused
  trailers_is : p.trailers ≡ trailer_count rs
  header_bits : (f : ℕ) → bit p.bitmap f ≡ flags false f rs
  trailer_bits : (f : ℕ) → bit p.trailer_bitmap f ≡ flags true f rs

push-Pushed :
    (h : Headers) (rs : List HeaderRef) (r : HeaderRef) → Represents h rs → Pushed rs r (push h r)
unfolding push
push-Pushed h rs r v = elim (le_or_lt 32 h.size) [
  | inr small ↦
      let in_array = lt→ltb h.size 32 small in
      let entries = push-entry h rs r v in
      rw in_array (record {
        size_is = omega (arith, v.size_is);
        inline_long = length-set h.inline_refs h.size r ∙ v.inline_long;
        overflow_long = omega (arith, v.overflow_long, v.size_is);
        entry = rw in_array at entries;
        trailers_is = v.trailers_is;
        header_bits = v.header_bits;
        trailer_bits = v.trailer_bits;
      })
  | inl big ↦
      let behind = ge→ltb h.size 32 big in
      let entries = push-entry h rs r v in
      rw behind (record {
        size_is = omega (arith, v.size_is);
        inline_long = v.inline_long;
        overflow_long =
            omega (arith, v.overflow_long, v.size_is, length-append h.overflow (r ∷ []));
        entry = rw behind at entries;
        trailers_is = v.trailers_is;
        header_bits = v.header_bits;
        trailer_bits = v.trailer_bits;
      })
]

-- What the counter and the flags of the pushed entry have to be, for the longer list `after`.
module _ (rs : List HeaderRef) (r : HeaderRef) (p : Headers) (v : Pushed rs r p)
    (after : List HeaderRef) (e : after ≡ rs ++ (r ∷ [])) where
  finished :
      (n b1 b2 : ℕ)
      → n ≡ trailer_count rs + (if r.trailer then 1 else 0)
      → ((f : ℕ) → bit b1 f ≡ flags false f (rs ++ (r ∷ [])))
      → ((f : ℕ) → bit b2 f ≡ flags true f (rs ++ (r ∷ [])))
      → Represents (record p { trailers = n; bitmap = b1; trailer_bitmap = b2 }) after
  unfolding at
  finished n b1 b2 counted headers_set trailers_set =
      let long = length-append rs (r ∷ []) in
      rw e (record {
        size_is = omega (arith, v.size_is);
        inline_long = v.inline_long;
        overflow_long = omega (arith, v.overflow_long);
        entry = λ i h. v.entry i (omega arith);
        trailers_is = omega (arith, counted, trailer_count-append rs r);
        header_bits = headers_set;
        trailer_bits = trailers_set;
      })

  marked-Represents : Represents (mark (count_trailer p r) r) after
  unfolding mark count_trailer
  marked-Represents = elim (Bool-cases r.trailer) [
    | inl t ↦
        let counted : p.trailers + 1 ≡ trailer_count rs + (if r.trailer then 1 else 0) =
          rw t (omega (arith, v.trailers_is)) in
        let same_headers = bit-unmarked p.bitmap false rs r (inr (rw t refl)) v.header_bits in
        elim (Bool-cases (same_field r.field other)) [
          | inl o ↦
              let same_trailers = bit-unmarked p.trailer_bitmap true rs r (inl o) v.trailer_bits in
              let done =
                finished (p.trailers + 1) p.bitmap p.trailer_bitmap counted same_headers
                  same_trailers in
              rw (t, o) done
          | inr k ↦
              let bits : ℕ = bit_or p.trailer_bitmap (2 ^ field_index r.field) in
              let set_trailers = bit-mark p.trailer_bitmap true rs r k t v.trailer_bits in
              let done =
                finished (p.trailers + 1) p.bitmap bits counted same_headers set_trailers in
              rw (t, k) done
        ]
    | inr t ↦
        let counted : p.trailers ≡ trailer_count rs + (if r.trailer then 1 else 0) =
          rw t (omega (arith, v.trailers_is)) in
        let same_trailers = bit-unmarked p.trailer_bitmap true rs r (inr t) v.trailer_bits in
        elim (Bool-cases (same_field r.field other)) [
          | inl o ↦
              let same_headers = bit-unmarked p.bitmap false rs r (inl o) v.header_bits in
              let done =
                finished p.trailers p.bitmap p.trailer_bitmap counted same_headers same_trailers in
              rw (t, o) done
          | inr k ↦
              let bits : ℕ = bit_or p.bitmap (2 ^ field_index r.field) in
              let set_headers = bit-mark p.bitmap false rs r k (rw t refl) v.header_bits in
              let done =
                finished p.trailers bits p.trailer_bitmap counted set_headers same_trailers in
              rw (t, k) done
        ]
  ]

-- How many entries have the kind: trailers, or headers.
abbrev pub kind_count : Bool → List HeaderRef → ℕ
kind_count trailers [] = 0
kind_count trailers (r ∷ rs) =
    (if trailers then (if r.trailer then 1 else 0) else if r.trailer then 0 else 1)
    + kind_count trailers rs

kind_counts :
    (rs : List HeaderRef)
    → (kind_count true rs ≡ trailer_count rs) × (kind_count false rs + trailer_count rs ≡ length rs)
kind_counts [] = (refl, refl)
kind_counts (r ∷ rs) = ground (arith, kind_counts rs)

-- What the code compares with the limit is the number of entries of the new entry's kind.
used-eq-kind_count :
    (h : Headers) (rs : List HeaderRef) (r : HeaderRef)
    → Represents h rs
    → used h r ≡ kind_count r.trailer rs
unfolding used
used-eq-kind_count h rs r v = elim (Bool-cases r.trailer) [
  | inl t ↦ rw t (omega (arith, v.trailers_is, kind_counts rs))
  | inr t ↦ rw t (omega (arith, v.trailers_is, v.size_is, kind_counts rs))
]

-- An entry is added behind the others if fewer entries of its kind, trailers or headers, are there than the
-- limit, and refused as TooManyHeaders otherwise, however many there are of the other kind.
pub add-Represents :
    (h : Headers) (rs : List HeaderRef) (r : HeaderRef) (limit : ℕ)
    → Represents h rs
    → ((kind_count r.trailer rs < limit)
        × ((h2 : Headers) × (add h r limit ≡ some h2) × Represents h2 (rs ++ (r ∷ []))))
      ⊎ ((limit ≤ kind_count r.trailer rs) × (add h r limit ≡ none))
unfolding add
add-Represents h rs r limit v =
    let count = used-eq-kind_count h rs r v in
    elim (Bool-cases (leb limit (used h r))) [
      | inl full ↦ inr (ground (arith, count), rw full refl)
      | inr free ↦ inl (
        ground (arith, count),
        (
          mark (count_trailer (push h r) r) r,
          rw free refl,
          marked-Represents rs r (push h r) (push-Pushed h rs r v) (rs ++ (r ∷ [])) refl,
        ),
      )
    ]

-- Cleared headers have no entry, whatever the array still holds.
pub clear-Represents : (h : Headers) → length h.inline_refs ≡ 32 → Represents (clear h) []
unfolding clear
clear-Represents h e = record {
  size_is = refl;
  inline_long = e;
  overflow_long = refl;
  entry = λ i k. absurd (omega arith);
  trailers_is = refl;
  header_bits = bit-zero;
  trailer_bits = bit-zero;
}
