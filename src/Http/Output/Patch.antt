-- ===== src/Http/Output/Patch.antt =====
-- A number patched into a run that was reserved earlier.
use cornet.Base.{
  ℕ, zero, suc, ◌+◌, ◌-◌, ◌^◌, ◌<◌, ◌≤◌, ◌≡◌, refl, sym, ap, ◌∙◌, ge→ltb, Option, none, some, List,
  [], ◌∷◌, ◌++◌, append_assoc, length, length-append, set, arith,
}
use cornet.Http.Decimal.{write_u64}
use cornet.Http.Decimal.RoundTrip.{write_u64-IsDecimal}
use cornet.Http.Output.Emits.{failed-none}
use cornet.Http.Output.{
  OutBuffer, room_of, remaining, spaces, reserve, overwrite, patched, patch_u64,
}

set-append_middle :
    (a : List ℕ) (x y : ℕ) (c : List ℕ) → set (a ++ (x ∷ c)) (length a) y ≡ a ++ (y ∷ c)
set-append_middle [] x y c = refl
set-append_middle (b ∷ a) x y c = ap (◌∷◌ b) (set-append_middle a x y c)

overwrite-append :
    (y a x c : List ℕ)
    → length x ≡ length y
    → overwrite (a ++ (x ++ c)) (length a) y ≡ a ++ (y ++ c)
unfolding overwrite
overwrite-append [] a [] c h = refl
overwrite-append [] a (b ∷ x) c h = absurd (omega arith)
overwrite-append (d ∷ y) a [] c h = absurd (omega arith)
overwrite-append (d ∷ y) a (b ∷ x) c h =
    let at_end : length a + 1 ≡ length (a ++ (d ∷ [])) = omega (arith, length-append a (d ∷ [])) in
    let moved : a ++ (d ∷ (x ++ c)) ≡ (a ++ (d ∷ [])) ++ (x ++ c) =
      sym (append_assoc a (d ∷ []) (x ++ c)) in
    rw (set-append_middle a b d (x ++ c), at_end, moved)
      (overwrite-append y (a ++ (d ∷ [])) x c (omega arith) ∙ append_assoc a (d ∷ []) (y ++ c))

length-spaces : (n : ℕ) → length (spaces n) ≡ n
unfolding spaces
length-spaces zero = refl
length-spaces (suc n) = ap suc (length-spaces n)

patch-run :
    (lease : Option ℕ) (out out2 : OutBuffer) (len v : ℕ) (more : List ℕ)
    → 0 < len
    → len ≤ room_of lease out.text
    → out2.lease ≡ lease
    → out2.error ≡ none
    → out2.text ≡ (out.text ++ spaces len) ++ more
    → length (write_u64 v) ≤ len
    → patch_u64 out2 (length out.text) len v ≡ record out2 {
      text = out.text ++ ((spaces (len - length (write_u64 v)) ++ write_u64 v) ++ more);
    }
unfolding patch_u64 patched room_of
patch-run none out out2 len v more pos h el ee et hd = absurd (omega arith)
patch-run (some capacity) out out2 len v more pos h el ee et hd =
    let digits : List ℕ = write_u64 v in
    let new_run : List ℕ = spaces (len - length digits) ++ digits in
    let long : length (spaces len) ≡ length new_run = omega (
      arith,
      length-spaces len,
      length-append (spaces (len - length digits)) digits,
      length-spaces (len - length digits),
    ) in
    let there = overwrite-append new_run out.text (spaces len) more long in
    let shape = et ∙ append_assoc out.text (spaces len) more in
    simp (failed-none out2 ee, ee, el, ge→ltb len (length (write_u64 v)) hd, shape, there)

-- A number of up to 64 bits that is patched into a run reserved before, with whatever was written in between,
-- stands right-aligned in that run behind spaces, where its digits fit; all other bytes are as they were.
pub reserve-patch_u64 :
    (out out2 : OutBuffer) (len v : ℕ) (more : List ℕ)
    → v < 2 ^ 64
    → out.error ≡ none
    → len ≤ remaining out
    → out2.lease ≡ out.lease
    → out2.error ≡ none
    → out2.text ≡ (reserve out len).0.text ++ more
    → length (write_u64 v) ≤ len
    → patch_u64 out2 (reserve out len).1 len v ≡ record out2 {
      text = out.text ++ ((spaces (len - length (write_u64 v)) ++ write_u64 v) ++ more);
    }
unfolding reserve remaining
reserve-patch_u64 out out2 len v more hv e h el ee et hd =
    let reserved : reserve out len
        ≡ (record out { text = out.text ++ spaces len }, length out.text) =
      simp (failed-none out e, e, ge→ltb (room_of out.lease out.text) len h) in
    let et2 : out2.text ≡ (out.text ++ spaces len) ++ more = rw reserved at et in
    let pos = (write_u64-IsDecimal v hv).2 in
    rw reserved (patch-run out.lease out out2 len v more (omega arith) h el ee et2 hd)
