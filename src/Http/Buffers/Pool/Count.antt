-- ===== src/Http/Buffers/Pool/Count.antt =====
-- How often a block is in the free lists and the leases.
use cornet.Base.{
  ℕ, zero, suc, ◌+◌, ◌<◌, ◌≤◌, ◌≡◌, refl, ap, Bool, if◌then◌else◌, ◌==◌, ==_iff, Bool-cases, update,
  update-elim, Option, none, some, List, [], ◌∷◌, ◌++◌, All, inl, inr, arith,
}
use cornet.Http.Buffers.Pool.{Lease}

abbrev pub one_if : Bool → ℕ
one_if b = if b then 1 else 0

-- How often a block is in a free list, in the first free lists, and in the leases.
abbrev pub count : ℕ → List ℕ → ℕ
count v [] = 0
count v (x ∷ xs) = one_if (x == v) + count v xs

abbrev pub stacked : ℕ → ℕ → (ℕ → List ℕ) → ℕ
stacked v zero free = 0
stacked v (suc n) free = count v (free n) + stacked v n free

abbrev pub held : ℕ → List Lease → ℕ
held v [] = 0
held v (l ∷ ls) = one_if (l.block == v) + held v ls

stacked-update_above :
    (v n : ℕ) (free : ℕ → List ℕ) (c : ℕ) (l : List ℕ)
    → n ≤ c
    → stacked v n (update free c l) ≡ stacked v n free
stacked-update_above v zero free c l h = refl
stacked-update_above v (suc n) free c l h = ground (arith, stacked-update_above v n free c l)

-- What an update of one free list does to the count of a block.
pub stacked-update :
    (v n : ℕ) (free : ℕ → List ℕ) (c : ℕ) (l : List ℕ)
    → c < n
    → stacked v n (update free c l) + count v (free c) ≡ stacked v n free + count v l
stacked-update v zero free c l h = absurd (omega arith)
stacked-update v (suc n) free c l h = elim (Bool-cases (c == n)) [
  | inl e ↦
      let top : c ≡ n = (==_iff c n).0 e in
      rw (e, top) (omega (arith, stacked-update_above v n free n l (omega arith)))
  | inr e ↦
      let below : c < n = ground arith in rw e (omega (arith, stacked-update v n free c l below))
]

pub held-append : (v : ℕ) (xs ys : List Lease) → held v (xs ++ ys) ≡ held v xs + held v ys
held-append v [] ys = omega arith
held-append v (l ∷ xs) ys = omega (arith, held-append v xs ys)

-- What has a size was handed out by the allocator.
pub count-fresh :
    (heap : ℕ → Option ℕ) (a k : ℕ) (xs : List ℕ)
    → heap a ≡ none
    → All (λ v. heap v ≡ some k) xs
    → count a xs ≡ 0
count-fresh heap a k [] e all = refl
count-fresh heap a k (x ∷ xs) e (here, all) = elim (Bool-cases (x == a)) [
  | inl s ↦ let same_block : x ≡ a = (==_iff x a).0 s in absurd (cc (e, here, ap heap same_block))
  | inr s ↦ rw s (omega (arith, count-fresh heap a k xs e all))
]

pub held-fresh :
    (heap : ℕ → Option ℕ) (a : ℕ) (ls : List Lease)
    → heap a ≡ none
    → All (λ l. heap l.block ≡ some l.cap) ls
    → held a ls ≡ 0
held-fresh heap a [] e all = refl
held-fresh heap a (l ∷ ls) e (here, all) = elim (Bool-cases (l.block == a)) [
  | inl s ↦
      let same_block : l.block ≡ a = (==_iff l.block a).0 s in
      absurd (cc (e, here, ap heap same_block))
  | inr s ↦ rw s (omega (arith, held-fresh heap a ls e all))
]

-- A change at a block that a list does not hold.
pub sizes-elsewhere :
    (heap : ℕ → Option ℕ) (a k : ℕ) (x : Option ℕ) (vs : List ℕ)
    → count a vs ≡ 0
    → All (λ v. heap v ≡ some k) vs
    → All (λ v. update heap a x v ≡ some k) vs
sizes-elsewhere heap a k x [] z all = tt
sizes-elsewhere heap a k x (v ∷ vs) z (here, all) = (
  update-elim (λ r. r ≡ some k) heap a x v (λ e. absurd (ground arith)) (λ _. here),
  sizes-elsewhere heap a k x vs (omega arith) all,
)

pub leases-elsewhere :
    (heap : ℕ → Option ℕ) (a : ℕ) (x : Option ℕ) (ls : List Lease)
    → held a ls ≡ 0
    → All (λ l. heap l.block ≡ some l.cap) ls
    → All (λ l. update heap a x l.block ≡ some l.cap) ls
leases-elsewhere heap a x [] z all = tt
leases-elsewhere heap a x (l ∷ ls) z (here, all) = (
  update-elim (λ r. r ≡ some l.cap) heap a x l.block (λ e. absurd (ground arith)) (λ _. here),
  leases-elsewhere heap a x ls (omega arith) all,
)

pub count-le-stacked :
    (v n : ℕ) (free : ℕ → List ℕ) (c : ℕ) → c < n → count v (free c) ≤ stacked v n free
count-le-stacked v n free c h = omega (arith, stacked-update v n free c [] h)

pub update_self : (heap : ℕ → Option ℕ) (a : ℕ) (x : Option ℕ) → update heap a x a ≡ x
update_self heap a x = update-elim (λ r. r ≡ x) heap a x a (λ _. refl) (λ n. absurd (n refl))
