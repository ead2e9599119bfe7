-- ===== src/RingBuffer/Tests.antt =====
-- Runs of the ring buffer, and its theorems at concrete inputs.
use cornet.Base.{
  update, ℕ, ◌≡◌, refl, true, false, ltb, if◌then◌else◌, none, some, List, [], ◌∷◌, arith,
}
use cornet.RingBuffer.{Ring, empty_ring, push, pop, refresh_read, refresh_write, store}
use cornet.RingBuffer.Fifo.{IsRing, push-Fifo, pop-Fifo}
use cornet.RingBuffer.Threads.{
  Threads, writing, releasing, Reach, start, here, next, push_check, push_write, push_publish,
  pop_refresh, pop_check, pop_read,
}
use cornet.RingBuffer.Interleavings.{Reach-prefix}
use cornet.RingBuffer.Runs.{
  Op, push_op, pop_op, pushed, popped, run_ring, run_queue, run_ring-run_queue,
}

abbrev zeros : ℕ → ℕ
zeros j = 0

-- Three pushes on a ring of size 2 ^ 1, which takes one element.
abbrev calls : List (Op ℕ)
calls = push_op 5 ∷ push_op 6 ∷ pop_op ∷ push_op 7 ∷ pop_op ∷ pop_op ∷ []

calls_on_two :
    run_ring 1 calls (empty_ring zeros)
    ≡ pushed true
      ∷ pushed false
      ∷ popped (some 5)
      ∷ pushed true
      ∷ popped (some 7)
      ∷ popped none
      ∷ []
unfolding push pop refresh_read refresh_write store
calls_on_two = refl

run_ring-run_queue_example : run_ring 1 calls (empty_ring zeros) ≡ run_queue 1 calls []
run_ring-run_queue_example = run_ring-run_queue 1 zeros calls

-- One element that has gone once round a ring of four, the producer's cached cursor stale.
abbrev wrapped : Ring ℕ
wrapped = record { read = 3; write_cache = 0; write = 1; read_cache = 2; container = λ j. j }

wrapped-IsRing : IsRing 2 wrapped (3 ∷ 0 ∷ [])
wrapped-IsRing = record {
  head = 3;
  read_seen = 2;
  write_seen = 4;
  read_eq = refl;
  write_eq = refl;
  read_cache_eq = refl;
  write_cache_eq = refl;
  read_behind = omega arith;
  room = omega arith;
  write_behind = (omega arith, omega arith);
  holds = (refl, (refl, tt));
}

push-Fifo_example :
    ((push 2 9 wrapped).1 ≡ ltb 3 4)
    × IsRing 2 (push 2 9 wrapped).0 (if ltb 3 4 then 3 ∷ 0 ∷ 9 ∷ [] else 3 ∷ 0 ∷ [])
push-Fifo_example = push-Fifo 2 wrapped (3 ∷ 0 ∷ []) 9 wrapped-IsRing

pop-Fifo_example : ((pop 2 wrapped).1 ≡ some 3) × IsRing 2 (pop 2 wrapped).0 (0 ∷ [])
pop-Fifo_example = pop-Fifo 2 wrapped (3 ∷ 0 ∷ []) wrapped-IsRing

-- The consumer looks, and finds nothing new, before the producer has published 5, then takes it while
-- the producer is about to store 6 in its own slot.
abbrev both_busy : Threads ℕ
both_busy = record {
  ring = record {
    read = 0;
    write_cache = 1;
    write = 1;
    read_cache = 0;
    container = update zeros 0 5;
  };
  producer = writing 6;
  consumer = releasing;
  sent = 5 ∷ [];
  received = 5 ∷ [];
}

both_busy-Reach : Reach 2 (start zeros) both_busy
both_busy-Reach =
    next
      (next
        (next
          (next
            (next
              (next (next (next here (push_check 5 refl refl refl)) (pop_refresh refl refl refl))
                (push_write 5 refl refl))
              (push_publish 5 refl refl))
            (pop_refresh refl refl refl))
          (push_check 6 refl refl refl))
        (pop_check refl refl refl))
      (pop_read refl refl)

Reach-prefix_example : (behind : List ℕ) × (5 ∷ behind ≡ 5 ∷ [])
Reach-prefix_example = Reach-prefix 2 zeros both_busy-Reach
