-- ===== src/RingBuffer/Runs.antt =====
-- Calls of push and pop in any order, against a bounded queue.
use cornet.Base.{
  ℕ, ◌+◌, ◌^◌, ◌≡◌, refl, sym, ap₂, Bool, if◌then◌else◌, ltb, Option, List, [], ◌∷◌, ◌++◌, length,
  get_elem?, drop, arith,
}
use native.Mathlib.Nat.{mod-eq_of_lt}
use cornet.RingBuffer.{Ring, empty_ring, push, pop}
use cornet.RingBuffer.Cursors.{size_positive}
use cornet.RingBuffer.Fifo.{IsRing, push-Fifo, pop-Fifo}

pub data Op {ℓ} (A : Type ℓ) : Type ℓ where
  push_op : A → Op A
  pop_op : Op A

-- What a call returned.
pub data Answer {ℓ} (A : Type ℓ) : Type ℓ where
  pushed : Bool → Answer A
  popped : Option A → Answer A

module _ {ℓ} {A : Type ℓ} (k : ℕ) where
  abbrev pub run_ring : List (Op A) → Ring A → List (Answer A)
  run_ring [] s = []
  run_ring (push_op v ∷ ops) s = pushed (push k v s).1 ∷ run_ring ops (push k v s).0
  run_ring (pop_op ∷ ops) s = popped (pop k s).1 ∷ run_ring ops (pop k s).0

  -- The same calls on a queue that takes fewer than 2 ^ k elements.
  abbrev pub run_queue : List (Op A) → List A → List (Answer A)
  run_queue [] q = []
  run_queue (push_op v ∷ ops) q =
      pushed (ltb (length q + 1) (2 ^ k))
      ∷ run_queue ops (if ltb (length q + 1) (2 ^ k) then q ++ v ∷ [] else q)
  run_queue (pop_op ∷ ops) q = popped (get_elem? q 0) ∷ run_queue ops (drop 1 q)

  pub empty_ring-IsRing : (storage : ℕ → A) → IsRing k (empty_ring storage) []
  empty_ring-IsRing storage = record {
    head = 0;
    read_seen = 0;
    write_seen = 0;
    read_eq = sym (mod-eq_of_lt (size_positive k));
    write_eq = sym (mod-eq_of_lt (size_positive k));
    read_cache_eq = sym (mod-eq_of_lt (size_positive k));
    write_cache_eq = sym (mod-eq_of_lt (size_positive k));
    read_behind = omega arith;
    room = omega (arith, size_positive k);
    write_behind = (omega arith, omega arith);
    holds = tt;
  }

  run_ring-IsRing :
      (ops : List (Op A)) (s : Ring A) (q : List A)
      → IsRing k s q
      → run_ring ops s ≡ run_queue ops q
  run_ring-IsRing [] s q i = refl
  run_ring-IsRing (push_op v ∷ ops) s q i =
      let (answer, j) = push-Fifo k s q v i in
      ap₂ (λ b rest. pushed b ∷ rest) answer (run_ring-IsRing ops (push k v s).0 _ j)
  run_ring-IsRing (pop_op ∷ ops) s q i =
      let (answer, j) = pop-Fifo k s q i in
      ap₂ (λ o rest. popped o ∷ rest) answer (run_ring-IsRing ops (pop k s).0 _ j)

  -- From a new ring of size 2 ^ k, whatever its storage holds, every sequence of calls of push and
  -- pop, in any order, gets the answers of a first-in-first-out queue that takes at most 2 ^ k - 1
  -- elements.
  pub run_ring-run_queue :
      (storage : ℕ → A) (ops : List (Op A)) → run_ring ops (empty_ring storage) ≡ run_queue ops []
  run_ring-run_queue storage ops =
      run_ring-IsRing ops (empty_ring storage) [] (empty_ring-IsRing storage)
