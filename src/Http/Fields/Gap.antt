-- ===== src/Http/Fields/Gap.antt =====
-- The look-up of a header name against the comparison by `iequals`. The two windows of eight bytes
-- cover a name of at most 16 bytes; in a name of 17 they leave out the byte at index 8.
use cornet.Base.{
  ℕ, zero, suc, ◌-◌, ◌<◌, ◌≤◌, ◌≡◌, ◌≢◌, ◌↔◌, inl, inr, refl, sym, ap, ap₂, ◌∙◌, true, &&_iff,
  ==_iff, le_or_lt, List, [], ◌∷◌, ◌++◌, length, length-set, take, drop, take_all, take-append-drop,
  drop-drop, set, map, All, IsByte, arith,
}
use cornet.Http.Fields.{Field, other, field_name, field_from_name, iequals, iequals_loop}
use cornet.Http.Fields.Words.{lower, length-lowered}
use cornet.Http.Fields.Names.{field_from_name_iff, field_from_name-same, field_name_short}

iequals_loop_iff :
    (a b : List ℕ) → length a ≡ length b → (iequals_loop a b ≡ true) ↔ (map lower a ≡ map lower b)
unfolding iequals_loop
iequals_loop_iff [] [] l = ((λ e. refl), λ e. refl)
iequals_loop_iff [] (y ∷ b) l = absurd (omega arith)
iequals_loop_iff (x ∷ a) [] l = absurd (omega arith)
iequals_loop_iff (x ∷ a) (y ∷ b) l = ground (arith, iequals_loop_iff a b)

-- Bytes are equal for `iequals` just where their lowercased bytes are.
pub iequals_iff : (a b : List ℕ) → (iequals a b ≡ true) ↔ (map lower a ≡ map lower b)
unfolding iequals
iequals_iff a b = (
  (λ e. let (l, loop) = (&&_iff _ _).0 e in (iequals_loop_iff a b ((==_iff _ _).0 l)).0 loop),
  λ e.
      let l : length a ≡ length b = sym (length-lowered a) ∙ ap length e ∙ length-lowered b in
      (&&_iff _ _).1 ((==_iff _ _).1 l, (iequals_loop_iff a b l).1 e),
)

-- Windows of eight at both ends make up a list of at most 16.
windows_whole :
    (xs ys : List ℕ)
    → length xs ≡ length ys
    → length xs ≤ 16
    → take 8 xs ≡ take 8 ys
    → drop (length xs - 8) xs ≡ drop (length ys - 8) ys
    → xs ≡ ys
windows_whole xs ys l short first last = elim (le_or_lt (length xs) 8) [
  | inl h ↦ sym (take_all 8 xs h) ∙ first ∙ take_all 8 ys (omega arith)
  | inr h ↦
      sym (take-append-drop 8 xs)
      ∙ ap₂ ◌++◌ first (
          rest xs h short
          ∙ ap₂ (λ n zs. drop (16 - n) zs) l last
          ∙ sym (rest ys (omega arith) (omega arith)))
      ∙ take-append-drop 8 ys
]
  where
    rest :
        (zs : List ℕ)
        → 8 < length zs
        → length zs ≤ 16
        → drop 8 zs ≡ drop (16 - length zs) (drop (length zs - 8) zs)
    rest zs h s =
        sym (
          drop-drop (16 - length zs) (length zs - 8) zs ∙ ap (λ k. drop k zs) {y = 8} (omega arith))

-- A name of bytes that is not 17 bytes long is found to be a field other than `other` just where
-- `iequals` takes it for the field's name.
pub field_from_name-iequals :
    (p : List ℕ) (f : Field)
    → All IsByte p
    → f ≢ other
    → length p ≢ 17
    → (field_from_name p ≡ f) ↔ (iequals p (field_name f) ≡ true)
field_from_name-iequals p f hp proper len = (
  (λ e.
      let k = (field_from_name_iff p f hp proper).0 e in
      (iequals_iff p (field_name f)).1 (
        windows_whole (map lower p) (map lower (field_name f))
          (length-lowered p ∙ k.same_length ∙ sym (length-lowered (field_name f)))
          (omega (arith, length-lowered p, field_name_short f, k.same_length)) k.same_first
          (rw (length-lowered p, length-lowered (field_name f)) k.same_last))),
  λ e.
      let whole = (iequals_iff p (field_name f)).0 e in
      let l : length p ≡ length (field_name f) =
        sym (length-lowered p) ∙ ap length whole ∙ length-lowered (field_name f) in
      (field_from_name_iff p f hp proper).1 (record {
        same_length = l;
        same_first = ap (take 8) whole;
        same_last = ap₂ (λ k zs. drop (k - 8) zs) l whole;
      }),
)

take-set : (n : ℕ) (xs : List ℕ) (v : ℕ) → take n (map lower (set xs n v)) ≡ take n (map lower xs)
take-set zero xs v = refl
take-set (suc n) [] v = refl
take-set (suc n) (x ∷ xs) v = ap (◌∷◌ (lower x)) (take-set n xs v)

drop-set :
    (n : ℕ) (xs : List ℕ) (v : ℕ)
    → drop (suc n) (map lower (set xs n v)) ≡ drop (suc n) (map lower xs)
drop-set n [] v = refl
drop-set zero (x ∷ xs) v = refl
drop-set (suc n) (x ∷ xs) v = drop-set n xs v

set-IsByte : (xs : List ℕ) (n v : ℕ) → v < 256 → All IsByte xs → All IsByte (set xs n v)
set-IsByte [] n v h hs = hs
set-IsByte (x ∷ xs) zero v h (hx, hs) = (h, hs)
set-IsByte (x ∷ xs) (suc n) v h (hx, hs) = (hx, set-IsByte xs n v h hs)

-- In a name of 17 bytes, the byte at index 8 does not matter to the look-up.
pub field_from_name-set :
    (p : List ℕ) (b : ℕ)
    → All IsByte p
    → b < 256
    → length p ≡ 17
    → field_from_name (set p 8 b) ≡ field_from_name p
field_from_name-set p b hp hb l =
    field_from_name-same (set p 8 b) (set-IsByte p 8 b hb hp) p hp (record {
      same_length = length-set p 8 b;
      same_first = take-set 8 p b;
      same_last = rw (length-set p 8 b, l) (drop-set 8 p b);
    })
