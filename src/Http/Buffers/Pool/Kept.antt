-- ===== src/Http/Buffers/Pool/Kept.antt =====
-- Taking and giving back a block keep the ledger.
use cornet.Base.{
  ℕ, ◌+◌, ◌<◌, ◌≡◌, ◌∙◌, inl, inr, refl, sym, ap, subst, Bool, true, false, not, ◌==◌, ==_iff,
  Bool-cases, if-elim, update-elim, Option, none, some, List, [], ◌∷◌, ◌++◌, update, All,
  All-append, All-append_left, All-append_right, arith,
}
use cornet.Http.Buffers.Pool.{
  Lease, Pool, class_size, class_of, allocated, freed, from_malloc, from_class, acquire_in, acquire,
  recycle_in, recycle, release_lease,
}
use cornet.Http.Buffers.Pool.Count.{
  one_if, count, stacked, held, stacked-update, held-append, count-fresh, held-fresh,
  sizes-elsewhere, leases-elsewhere, count-le-stacked, update_self,
}
use cornet.Http.Buffers.Pool.Ledger.{
  World, IsLedger, is_block, Sized, IsFresh, hold, class_of-cases,
}

abbrev pub world : Pool → List Lease → World
world p ls = record { pool = p; leases = ls }

module _ (p : Pool) (ls : List Lease) (w : IsLedger (world p ls)) where
  stacked-fresh : (a : ℕ) → p.heap a ≡ none → stacked a 4 p.free ≡ 0
  stacked-fresh a e = omega (
    arith,
    count-fresh p.heap a 4096 (p.free 0) e (w.free_size 0 (omega arith)),
    count-fresh p.heap a 16384 (p.free 1) e (w.free_size 1 (omega arith)),
    count-fresh p.heap a 65536 (p.free 2) e (w.free_size 2 (omega arith)),
    count-fresh p.heap a 262144 (p.free 3) e (w.free_size 3 (omega arith)),
  )

  allocated-IsLedger :
      (pooled : Bool) (a n : ℕ)
      → p.heap a ≡ none
      → IsLedger (world (allocated p a n) (record { pooled = pooled; block = a; cap = n } ∷ ls))
  unfolding allocated
  allocated-IsLedger pooled a n e = record {
    once = λ v. elim (Bool-cases (a == v)) [
      | inl s ↦
          let here : a ≡ v = (==_iff a v).0 s in
          rw s (
            omega (
              arith,
              stacked-fresh v (ap p.heap (sym here) ∙ e),
              held-fresh p.heap v ls (ap p.heap (sym here) ∙ e) w.leased_size,
            ))
      | inr s ↦ rw s (omega (arith, w.once v))
    ];
    leased_size = (
      update_self p.heap a (some n),
      leases-elsewhere p.heap a (some n) ls (held-fresh p.heap a ls e w.leased_size) w.leased_size,
    );
    free_size = λ c h.
        sizes-elsewhere p.heap a (class_size c) (some n) (p.free c)
          (count-fresh p.heap a (class_size c) (p.free c) e (w.free_size c h)) (w.free_size c h);
  }

  popped-IsLedger :
      (c node : ℕ) (rest : List ℕ)
      → c < 4
      → p.free c ≡ node ∷ rest
      → IsLedger (
          world
            (record p { free = update p.free c rest; hits = p.hits + 1 })
            (record { pooled = true; block = node; cap = class_size c } ∷ ls))
  popped-IsLedger c node rest h e =
      let (head_size, rest_size) =
        subst (λ xs. All (λ v. p.heap v ≡ some (class_size c)) xs) e (w.free_size c h) in
      record {
        once = λ v. omega (arith, w.once v, stacked-update v 4 p.free c rest h, ap (count v) e);
        leased_size = (head_size, w.leased_size);
        free_size = λ d k.
            update-elim (λ xs. All (λ v. p.heap v ≡ some (class_size d)) xs) p.free c rest d
              (λ same_class.
                subst (λ i. All (λ v. p.heap v ≡ some (class_size i)) rest) same_class rest_size)
              (λ _. w.free_size d k);
      }

module _ (p : Pool) (front : List Lease) (l : Lease) (back : List Lease)
    (w : IsLedger (world p (front ++ (l ∷ back)))) where
  others : All (Sized p.heap) (front ++ back)
  others =
      All-append (Sized p.heap) front back
        (All-append_left (Sized p.heap) front (l ∷ back) w.leased_size)
        (All-append_right (Sized p.heap) front (l ∷ back) w.leased_size).1

  given_once :
      (v : ℕ)
      → one_if (l.block == v) + held v (front ++ back) + stacked v 4 p.free ≡ is_block (p.heap v)
  given_once v = omega (arith, w.once v, held-append v front (l ∷ back), held-append v front back)

  freed-IsLedger : IsLedger (world (freed p l.block) (front ++ back))
  unfolding freed
  freed-IsLedger =
      let once_here : 1 + held l.block (front ++ back) + stacked l.block 4 p.free ≡ 1 = ground (
        arith,
        given_once l.block,
        ap is_block (All-append_right (Sized p.heap) front (l ∷ back) w.leased_size).0,
      ) in
      record {
        once = λ v. elim (Bool-cases (l.block == v)) [
          | inl s ↦ let here : l.block ≡ v = (==_iff l.block v).0 s in rw (s, ← here) (omega arith)
          | inr s ↦ rw s (omega (arith, (rw s at (given_once v))))
        ];
        leased_size = leases-elsewhere p.heap l.block none (front ++ back) (omega arith) others;
        free_size = λ c h.
            sizes-elsewhere p.heap l.block (class_size c) none (p.free c)
              (omega (arith, count-le-stacked l.block 4 p.free c h)) (w.free_size c h);
      }

  stacked-IsLedger :
      (c : ℕ)
      → c < 4
      → class_size c ≡ l.cap
      → IsLedger (world (record p { free = update p.free c (l.block ∷ p.free c) }) (front ++ back))
  stacked-IsLedger c h e =
      let here : p.heap l.block ≡ some (class_size c) =
        (All-append_right (Sized p.heap) front (l ∷ back) w.leased_size).0 ∙ ap some (sym e) in
      record {
        once = λ v. omega (arith, given_once v, stacked-update v 4 p.free c (l.block ∷ p.free c) h);
        leased_size = others;
        free_size = λ d k.
            update-elim (λ xs. All (λ v. p.heap v ≡ some (class_size d)) xs) p.free c
              (l.block ∷ p.free c) d
              (λ same_class.
                subst (λ i. All (λ v. p.heap v ≡ some (class_size i)) (l.block ∷ p.free c))
                  same_class (here, w.free_size c h))
              (λ _. w.free_size d k);
      }

  pub release_lease-IsLedger : IsLedger (world (release_lease p l) (front ++ back))
  unfolding release_lease recycle recycle_in
  release_lease-IsLedger =
      if-elim (λ q. IsLedger (world q (front ++ back))) l.pooled
        (recycle_in p l.block l.cap (class_of l.cap)) (freed p l.block)
        (λ _. elim (class_of-cases l.cap) [
          | inl (e, _) ↦ rw e freed-IsLedger
          | inr (c, e, h, _) ↦ rw e (
              if-elim (λ q. IsLedger (world q (front ++ back))) (not (class_size c == l.cap))
                (freed p l.block) (record p { free = update p.free c (l.block ∷ p.free c) })
                (λ _. freed-IsLedger) (λ exact. stacked-IsLedger c h (ground arith)))
        ])
        (λ _. freed-IsLedger)

from_malloc-IsLedger :
    (p : Pool) (ls : List Lease) (pooled : Bool) (n : ℕ) (answer : Option ℕ)
    → IsLedger (world p ls)
    → IsFresh p answer
    → IsLedger (world (from_malloc p pooled n answer).0 (hold ls (from_malloc p pooled n answer).1))
unfolding from_malloc
from_malloc-IsLedger p ls pooled n none w e = w
from_malloc-IsLedger p ls pooled n (some a) w e = allocated-IsLedger p ls w pooled a n e

-- The counters are no part of the ledger.
recounted-IsLedger :
    (p : Pool) (ls : List Lease) (q : Pool)
    → q.heap ≡ p.heap
    → q.free ≡ p.free
    → IsLedger (world p ls)
    → IsLedger (world q ls)
recounted-IsLedger p ls q e1 e2 w = record {
  once = rw (e1, e2) w.once;
  leased_size = rw e1 w.leased_size;
  free_size = rw (e1, e2) w.free_size;
}

from_class-IsLedger :
    (p : Pool) (ls : List Lease) (c : ℕ) (answer : Option ℕ) (nodes : List ℕ)
    → c < 4
    → p.free c ≡ nodes
    → IsLedger (world p ls)
    → IsFresh p answer
    → IsLedger (world (from_class p c answer nodes).0 (hold ls (from_class p c answer nodes).1))
unfolding from_class
from_class-IsLedger p ls c answer [] h e w f =
    from_malloc-IsLedger (record p { allocations = p.allocations + 1 }) ls true (class_size c)
      answer (recounted-IsLedger p ls (record p { allocations = p.allocations + 1 }) refl refl w)
      (still-IsFresh answer f)
  where
    still-IsFresh :
        (a : Option ℕ) → IsFresh p a → IsFresh (record p { allocations = p.allocations + 1 }) a
    still-IsFresh none g = g
    still-IsFresh (some b) g = g
from_class-IsLedger p ls c answer (node ∷ rest) h e w f = popped-IsLedger p ls w c node rest h e

pub acquire-IsLedger :
    (p : Pool) (ls : List Lease) (n : ℕ) (answer : Option ℕ)
    → IsLedger (world p ls)
    → IsFresh p answer
    → IsLedger (world (acquire p n answer).0 (hold ls (acquire p n answer).1))
unfolding acquire acquire_in
acquire-IsLedger p ls n answer w f = elim (class_of-cases n) [
  | inr (c, e, h, _) ↦ rw e (from_class-IsLedger p ls c answer (p.free c) h refl w f)
  | inl (e, _) ↦ rw e (
      from_malloc-IsLedger (record p { oversized = p.oversized + 1 }) ls false n answer
        (recounted-IsLedger p ls (record p { oversized = p.oversized + 1 }) refl refl w)
        (still-IsFresh answer f))
]
  where
    still-IsFresh :
        (a : Option ℕ) → IsFresh p a → IsFresh (record p { oversized = p.oversized + 1 }) a
    still-IsFresh none g = g
    still-IsFresh (some b) g = g
