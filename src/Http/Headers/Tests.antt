-- ===== src/Http/Headers/Tests.antt =====
-- Runs of the headers, and their theorems at inputs.
use cornet.Base.{
  ℕ, ◌≡◌, ◌<◌, ◌≤◌, ◌⊎◌, inl, inr, zero, suc, refl, Bool, true, false, Option, none, some, List, [],
  ◌∷◌, codes, arith,
}
use cornet.Http.Fields.{Field, host, expect, other}
use cornet.Http.Buffers.Head.{HeadBuffer}
use cornet.Http.Buffers.Head
use cornet.Http.Headers.{
  field_index, same_field, HeaderRef, unused, Headers, clear, at, push, mark, count_trailer, used,
  add, has_in, has, has_trailer, Bound, head_view, spill_view, resolve, name_of, value_of, name_at,
  value_at, scan, is_header_of, is_trailer_of, get, trailer_of,
}
use cornet.Http.Headers.Entries.{kind_count, Represents, add-Represents, clear-Represents}
use cornet.Http.Headers.Lookups.{first_value, get-first}

abbrev copies : ℕ → List HeaderRef
copies zero = []
copies (suc n) = unused ∷ copies n

abbrev started : Headers
started = clear (record {
  inline_refs = copies 32;
  overflow = [];
  size = 3;
  trailers = 1;
  bitmap = 1;
  trailer_bitmap = 1;
})

abbrev entry_of : Field → Bool → HeaderRef
entry_of f t = record {
  name_off = 0;
  value_off = 6;
  name_len = 4;
  value_len = 3;
  field = f;
  spilled = false;
  name_spilled = false;
  trailer = t;
}

started-Represents : Represents started []
started-Represents =
    clear-Represents
      (record {
        inline_refs = copies 32;
        overflow = [];
        size = 3;
        trailers = 1;
        bitmap = 1;
        trailer_bitmap = 1;
      })
      refl

abbrev one_header : Headers
one_header =
    mark (count_trailer (push started (entry_of host false)) (entry_of host false))
      (entry_of host false)

held-Represents : Represents one_header (entry_of host false ∷ [])
unfolding add used clear
held-Represents = elim (add-Represents started [] (entry_of host false) 1 started-Represents) [
  | inl (_, (h2, e, v)) ↦ let same_headers : h2 ≡ one_header = cc e in rw (← same_headers) v
  | inr (full, _) ↦ absurd (omega arith)
]

-- One header is there, and a limit of one: a trailer is added, another header is not.
add-Represents_example :
    ((kind_count true (entry_of host false ∷ []) < 1)
      × ((h2 : Headers) × (add one_header (entry_of expect true) 1 ≡ some h2)
          × Represents h2 (entry_of host false ∷ entry_of expect true ∷ [])))
    ⊎ ((1 ≤ kind_count true (entry_of host false ∷ []))
        × (add one_header (entry_of expect true) 1 ≡ none))
add-Represents_example =
    add-Represents one_header (entry_of host false ∷ []) (entry_of expect true) 1 held-Represents

second_header_refused : add one_header (entry_of expect false) 1 ≡ none
unfolding add used mark push clear count_trailer same_field field_index
second_header_refused = refl

abbrev bound : Bound
bound = record {
  head =
      some
        (record { bytes = some (codes "Host: a.b"); read_pos = 0; write_pos = 9; parsing = true });
  spill = none;
}

host_known : same_field host other ≡ false
unfolding same_field field_index
host_known = refl

get-first_example :
    (get bound one_header host ≡ first_value bound (is_header_of host) (entry_of host false ∷ []))
    × (trailer_of bound one_header host
        ≡ first_value bound (is_trailer_of host) (entry_of host false ∷ []))
get-first_example =
    get-first bound one_header (entry_of host false ∷ []) host held-Represents host_known

-- A trailer is found as a trailer and not as a header, and has a limit of its own.
abbrev two_headers : Option Headers
two_headers = add one_header (entry_of expect true) 1

abbrev answers : Option Headers → List (List ℕ)
answers none = []
answers (some h) =
    get bound h host
    ∷ get bound h expect
    ∷ trailer_of bound h expect
    ∷ name_at bound h 1
    ∷ value_at bound h 0
    ∷ []

looked_up : answers two_headers ≡ codes "a.b" ∷ [] ∷ codes "a.b" ∷ codes "Host" ∷ codes "a.b" ∷ []
unfolding add used push mark count_trailer at has_in has has_trailer head_view spill_view resolve
    name_of value_of name_at value_at scan is_header_of is_trailer_of get trailer_of same_field
    field_index clear Head.view
looked_up = refl
