-- ===== src/Http/Buffers/Pool/Ledger.antt =====
-- Every block is in one place: a lease or one free list, and is as large as that place says.
use cornet.Base.{
  ℕ, ◌+◌, ◌<◌, ◌≤◌, ◌≡◌, ◌⊎◌, inl, inr, le_or_lt, Option, none, some, List, [], ◌∷◌, ◌++◌, All,
  arith,
}
use cornet.Http.Buffers.Pool.Count.{stacked, held}
use cornet.Http.Buffers.Pool.{Lease, Pool, class_size, class_from, class_of, acquire, release_lease}

-- The pool and the leases on its blocks that are alive.
pub record World : Type 0 where
  pub pool : Pool
  pub leases : List Lease

abbrev pub Sized : (ℕ → Option ℕ) → Lease → Type 0
Sized heap l = heap l.block ≡ some l.cap

-- A block that the allocator has handed out counts once.
abbrev pub is_block : Option ℕ → ℕ
is_block none = 0
is_block (some bytes) = 1

pub record IsLedger (w : World) : Type 0 where
  pub once : (v : ℕ) → held v w.leases + stacked v 4 w.pool.free ≡ is_block (w.pool.heap v)
  pub leased_size : All (Sized w.pool.heap) w.leases
  pub free_size : (c : ℕ) → c < 4 → All (λ v. w.pool.heap v ≡ some (class_size c)) (w.pool.free c)

-- A new lease is held.
abbrev pub hold : List Lease → Option Lease → List Lease
hold ls none = ls
hold ls (some l) = l ∷ ls

-- What the allocator answers is no block that it has handed out and not been given back.
abbrev pub IsFresh : Pool → Option ℕ → Type 0
IsFresh p none = Unit
IsFresh p (some block) = p.heap block ≡ none

-- A lease is taken, or one of those alive is given back.
pub data Step (w : World) : World → Type 0 where
  acquires :
      (n : ℕ) (answer : Option ℕ)
      → IsFresh w.pool answer
      → (w' : World)
      → w' ≡ record {
        pool = (acquire w.pool n answer).0;
        leases = hold w.leases (acquire w.pool n answer).1;
      }
      → Step w w'
  releases :
      (front : List Lease) (l : Lease) (back : List Lease)
      → w.leases ≡ front ++ (l ∷ back)
      → (w' : World) → w' ≡ record { pool = release_lease w.pool l; leases = front ++ back }
      → Step w w'

pub data Run (w : World) : World → Type 0 where
  start : Run w w
  next : {u v : World} → Run w u → Step u v → Run w v

abbrev pub fresh_pool : Pool
fresh_pool = record { heap = λ _. none; free = λ _. []; allocations = 0; hits = 0; oversized = 0 }

pub class_of-cases :
    (n : ℕ)
    → ((class_of n ≡ none) × (262144 < n))
      ⊎ ((c : ℕ) × (class_of n ≡ some c) × (c < 4) × (n ≤ class_size c))
unfolding class_of class_from
class_of-cases n = elim (le_or_lt n 4096) [
  | inl h ↦ inr (0, ground arith, omega arith, omega arith)
  | inr h0 ↦ elim (le_or_lt n 16384) [
    | inl h ↦ inr (1, ground arith, omega arith, omega arith)
    | inr h1 ↦ elim (le_or_lt n 65536) [
      | inl h ↦ inr (2, ground arith, omega arith, omega arith)
      | inr h2 ↦ elim (le_or_lt n 262144) [
        | inl h ↦ inr (3, ground arith, omega arith, omega arith)
        | inr h3 ↦ inl (ground arith, h3)
      ]
    ]
  ]
]
