-- ===== src/Http/Buffers/Pool/Runs.antt =====
-- Every world that the pool reaches keeps the ledger, a lease is large enough, and the pool's end leaves no block.
use cornet.Base.{
  ℕ, zero, suc, ◌+◌, ◌<◌, ◌≤◌, ◌≡◌, ◌≢◌, ◌⊎◌, ◌∙◌, inl, inr, refl, ap, leb, ◌==◌, Bool-cases,
  le_or_lt, Option-cases, update-elim, Option, none, some, List, [], ◌∷◌, arith,
}
use cornet.Http.Buffers.Pool.{
  Lease, Pool, allocated, class_size, freed, from_malloc, from_class, acquire_in, acquire,
  free_nodes, free_class, destroy,
}
use cornet.Http.Buffers.Pool.Count.{count, stacked}
use cornet.Http.Buffers.Pool.Ledger.{
  World, IsLedger, is_block, Step, Run, acquires, releases, start, next, fresh_pool, class_of-cases,
}
use cornet.Http.Buffers.Pool.Kept.{world, acquire-IsLedger, release_lease-IsLedger}

Step-IsLedger : {u v : World} → IsLedger u → Step u v → IsLedger v
Step-IsLedger {u} w (acquires n answer f v e) = rw e (acquire-IsLedger u.pool u.leases n answer w f)
Step-IsLedger {u} w (releases front l back e1 v e) =
    rw e (release_lease-IsLedger u.pool front l back (rw e1 at w))

fresh-IsLedger : IsLedger (world fresh_pool [])
fresh-IsLedger = record { once = λ v. refl; leased_size = tt; free_size = λ c h. tt }

-- In every world that takings and givings back of leases reach from a fresh pool, whatever blocks the
-- allocator answers, each block that the allocator has handed out is in exactly one place, one living lease
-- or one free list, no other block is anywhere, and a block is as large as its lease or its list says.
pub run-IsLedger : {v : World} → Run (world fresh_pool []) v → IsLedger v
run-IsLedger start = fresh-IsLedger
run-IsLedger (next run step) = Step-IsLedger (run-IsLedger run) step

-- What `acquire` does with a request that the allocator does not refuse.
abbrev pub Serves : Pool → ℕ → Pool × Option Lease → Type 0
Serves p n (q, none) = ⊥
Serves p n (q, some l) =
    (n ≤ l.cap)
    × (l.pooled ≡ leb n 262144)
    × (q.allocations + q.hits + q.oversized ≡ p.allocations + p.hits + p.oversized + 1)

from_class-Serves :
    (p : Pool) (n c a : ℕ) (nodes : List ℕ)
    → n ≤ class_size c
    → n ≤ 262144
    → Serves p n (from_class p c (some a) nodes)
unfolding from_class from_malloc allocated
from_class-Serves p n c a [] h k = (omega arith, ground arith, omega arith)
from_class-Serves p n c a (node ∷ rest) h k = (omega arith, ground arith, omega arith)

-- Where the allocator does not refuse, a request of any size gets a lease of at least that size, which goes
-- back to the pool exactly where the request is at most 256K; one of the three counters counts it.
pub acquire-Serves : (p : Pool) (n a : ℕ) → Serves p n (acquire p n (some a))
unfolding acquire acquire_in from_malloc allocated
acquire-Serves p n a = elim (class_of-cases n) [
  | inl (e, big) ↦ rw e (omega arith, ground arith, omega arith)
  | inr (c, e, h, k) ↦ rw e (from_class-Serves p n c a (p.free c) k (class-le c n h k))
]
  where
    class-le : (c n : ℕ) → c < 4 → n ≤ class_size c → n ≤ 262144
    class-le zero n h k = omega arith
    class-le (suc zero) n h k = omega arith
    class-le (suc (suc zero)) n h k = omega arith
    class-le (suc (suc (suc zero))) n h k = omega arith
    class-le (suc (suc (suc (suc c)))) n h k = absurd (omega arith)

free_nodes-free : (p : Pool) (nodes : List ℕ) → (free_nodes p nodes).free ≡ p.free
unfolding free_nodes freed
free_nodes-free p [] = refl
free_nodes-free p (node ∷ nodes) = free_nodes-free (freed p node) nodes

free_nodes-none :
    (p : Pool) (nodes : List ℕ) (v : ℕ)
    → (p.heap v ≡ none) ⊎ (0 < count v nodes)
    → (free_nodes p nodes).heap v ≡ none
unfolding free_nodes freed
free_nodes-none p [] v (inl e) = e
free_nodes-none p [] v (inr h) = absurd (omega arith)
free_nodes-none p (node ∷ nodes) v h = elim (Bool-cases (node == v)) [
  | inl s ↦ free_nodes-none (freed p node) nodes v (inl (rw s refl))
  | inr s ↦
      free_nodes-none (freed p node) nodes v
        (elim h [ inl e ↦ inl (rw s e) | inr k ↦ inr (omega (arith, (rw s at k))) ])
]

free_class-step :
    (p : Pool) (i v rest : ℕ)
    → (p.heap v ≡ none) ⊎ (0 < count v (p.free i) + rest)
    → ((free_class p i).heap v ≡ none) ⊎ (0 < rest)
unfolding free_class
free_class-step p i v rest (inl e) = inl (free_nodes-none p (p.free i) v (inl e))
free_class-step p i v rest (inr h) = elim (le_or_lt (count v (p.free i)) 0) [
  | inl z ↦ inr (omega arith)
  | inr k ↦ inl (free_nodes-none p (p.free i) v (inr k))
]

free_class-keeps : (p : Pool) (i j : ℕ) → i ≢ j → (free_class p i).free j ≡ p.free j
unfolding free_class
free_class-keeps p i j n =
    update-elim (λ xs. xs ≡ p.free j) (free_nodes p (p.free i)).free i [] j (λ e. absurd (n e))
      (λ _. ap (λ f. f j) (free_nodes-free p (p.free i)))

-- The pool's end, with no lease alive, gives back every block that the allocator has handed out.
pub destroy-frees_all : (p : Pool) → IsLedger (world p []) → (v : ℕ) → (destroy p).heap v ≡ none
unfolding destroy
destroy-frees_all p w v =
    let p0 = free_class p 0 in
    let p1 = free_class p0 1 in
    let p2 = free_class p1 2 in
    let same1 : p0.free 1 ≡ p.free 1 = free_class-keeps p 0 1 (omega arith) in
    let same2 : p1.free 2 ≡ p.free 2 =
      free_class-keeps p0 1 2 (omega arith) ∙ free_class-keeps p 0 2 (omega arith) in
    let same3 : p2.free 3 ≡ p.free 3 =
      free_class-keeps p1 2 3 (omega arith)
      ∙ free_class-keeps p0 1 3 (omega arith)
      ∙ free_class-keeps p 0 3 (omega arith) in
    let first : (p.heap v ≡ none) ⊎ (0 < stacked v 4 p.free) = elim (Option-cases (p.heap v)) [
      | inl e ↦ inl e
      | inr (bytes, e) ↦ inr (omega (arith, w.once v, ap is_block e))
    ] in
    let s0 =
      free_class-step p 0 v (count v (p.free 1) + count v (p.free 2) + count v (p.free 3))
        (elim first [ inl e ↦ inl e | inr h ↦ inr (omega arith) ]) in
    let s1 =
      free_class-step p0 1 v (count v (p.free 2) + count v (p.free 3))
        (elim s0 [ inl e ↦ inl e | inr h ↦ inr (omega (arith, ap (count v) same1)) ]) in
    let s2 =
      free_class-step p1 2 v (count v (p.free 3))
        (elim s1 [ inl e ↦ inl e | inr h ↦ inr (omega (arith, ap (count v) same2)) ]) in
    let s3 =
      free_class-step p2 3 v 0
        (elim s2 [ inl e ↦ inl e | inr h ↦ inr (omega (arith, ap (count v) same3)) ]) in
    elim s3 [ inl e ↦ e | inr h ↦ absurd (omega arith) ]
