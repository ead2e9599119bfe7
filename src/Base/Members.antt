-- ===== src/Base/Members.antt =====
-- Membership and distinctness of numbers in a list, and taking one number out.
use Prim.Native.Nat.{ℕ}
use mathlib.Core.Path.{◌≡◌, refl, sym, ap, ◌∙◌}
use mathlib.Core.Logic.{◌≢◌, ◌⊎◌, inl, inr}
use mathlib.Core.List.{List, [], ◌∷◌, ◌++◌}
use native.Mathlib.Omega.{arith}
use cornet.Base.Tests.{◌==◌, ==_iff, Bool-cases, if◌then◌else◌}

abbrev pub Has : ℕ → List ℕ → Type 0
Has v [] = ⊥
Has v (x ∷ xs) = (v ≡ x) ⊎ Has v xs

abbrev pub Distinct : List ℕ → Type 0
Distinct [] = Unit
Distinct (x ∷ xs) = (Has x xs → ⊥) × Distinct xs

-- The list without the first occurrence of `w`.
abbrev pub remove : ℕ → List ℕ → List ℕ
remove w [] = []
remove w (x ∷ xs) = if x == w then xs else x ∷ remove w xs

pub remove-head : (w : ℕ) (q : List ℕ) → remove w (w ∷ q) ≡ q
remove-head w q = ground arith

-- The two cases of `remove` at a cons.
pub remove-cons :
    (w x : ℕ) (xs : List ℕ)
    → ((x ≡ w) × (remove w (x ∷ xs) ≡ xs)) ⊎ ((x ≢ w) × (remove w (x ∷ xs) ≡ x ∷ remove w xs))
remove-cons w x xs = elim (Bool-cases (x == w)) [
  | inl e ↦ inl ((==_iff x w).0 e, rw e)
  | inr e ↦ inr ((λ p. cc (sym e ∙ (==_iff x w).1 p)), rw e)
]

pub Has-remove : (v w : ℕ) (xs : List ℕ) → Has v (remove w xs) → Has v xs
Has-remove v w [] h = h
Has-remove v w (x ∷ xs) h = elim (remove-cons w x xs) [
  | inl (p, e) ↦ inr (rw e at h)
  | inr (p, e) ↦
      let k : Has v (x ∷ remove w xs) = rw e at h in
      elim k [ inl q ↦ inl q | inr t ↦ inr (Has-remove v w xs t) ]
]

pub remove-keeps : (v w : ℕ) (xs : List ℕ) → v ≢ w → Has v xs → Has v (remove w xs)
remove-keeps v w [] ne h = h
remove-keeps v w (x ∷ xs) ne h = elim (remove-cons w x xs) [
  | inl (p, e) ↦ rw e (elim h [ inl q ↦ absurd (ne (q ∙ p)) | inr t ↦ t ])
  | inr (p, e) ↦ rw e (elim h [ inl q ↦ inl q | inr t ↦ inr (remove-keeps v w xs ne t) ])
]

pub remove-Distinct : (w : ℕ) (xs : List ℕ) → Distinct xs → Distinct (remove w xs)
remove-Distinct w [] d = d
remove-Distinct w (x ∷ xs) d = elim (remove-cons w x xs) [
  | inl (p, e) ↦ rw e d.1
  | inr (p, e) ↦ rw e ((λ h. d.0 (Has-remove x w xs h)), remove-Distinct w xs d.1)
]

pub not-Has-remove : (w : ℕ) (xs : List ℕ) → Distinct xs → ¬ (Has w (remove w xs))
not-Has-remove w [] d h = h
not-Has-remove w (x ∷ xs) d h = elim (remove-cons w x xs) [
  | inl (p, e) ↦ d.0 (rw (← p) at (rw e at h))
  | inr (p, e) ↦
      let k : Has w (x ∷ remove w xs) = rw e at h in
      elim k [ inl q ↦ p (sym q) | inr t ↦ not-Has-remove w xs d.1 t ]
]

pub Has-append_last : (v w : ℕ) (xs : List ℕ) → Has v (xs ++ w ∷ []) → Has v xs ⊎ (v ≡ w)
Has-append_last v w [] (inl e) = inr e
Has-append_last v w [] (inr h) = absurd h
Has-append_last v w (x ∷ xs) (inl e) = inl (inl e)
Has-append_last v w (x ∷ xs) (inr h) = elim (Has-append_last v w xs h) [
  | inl k ↦ inl (inr k)
  | inr e ↦ inr e
]

pub append_last-Has : (v w : ℕ) (xs : List ℕ) → Has v xs ⊎ (v ≡ w) → Has v (xs ++ w ∷ [])
append_last-Has v w [] (inl h) = absurd h
append_last-Has v w [] (inr e) = inl e
append_last-Has v w (x ∷ xs) (inl (inl e)) = inl e
append_last-Has v w (x ∷ xs) (inl (inr h)) = inr (append_last-Has v w xs (inl h))
append_last-Has v w (x ∷ xs) (inr e) = inr (append_last-Has v w xs (inr e))

pub Distinct-append_last :
    (w : ℕ) (xs : List ℕ) → ¬ (Has w xs) → Distinct xs → Distinct (xs ++ w ∷ [])
Distinct-append_last w [] n d = ((λ h. h), tt)
Distinct-append_last w (x ∷ xs) n d = (
  (λ h. elim (Has-append_last x w xs h) [ inl k ↦ d.0 k | inr e ↦ n (inl (sym e)) ]),
  Distinct-append_last w xs (λ h. n (inr h)) d.1,
)

pub remove-absent : (w : ℕ) (xs : List ℕ) → ¬ (Has w xs) → remove w xs ≡ xs
remove-absent w [] n = refl
remove-absent w (x ∷ xs) n = elim (remove-cons w x xs) [
  | inl (p, e) ↦ absurd (n (inl (sym p)))
  | inr (p, e) ↦ e ∙ ap (◌∷◌ x) (remove-absent w xs (λ h. n (inr h)))
]
