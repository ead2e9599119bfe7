-- ===== src/RingBuffer/Threads.antt =====
-- The producer and the consumer as two threads: each load or store that the other side can see is a
-- step of its own. The release and acquire orders make what was written before a cursor was stored
-- visible to whoever loads that cursor, so the steps act on one storage.
use cornet.Base.{ℕ, ◌≡◌, true, false, ◌==◌, update, List, [], ◌∷◌, ◌++◌}
use cornet.RingBuffer.{Ring, empty_ring, next_cursor}

-- Where the producer stands in `push`.
pub data Producer {ℓ} (A : Type ℓ) : Type ℓ where
  idle : Producer A
  writing : A → Producer A
  publishing : A → Producer A

-- Where the consumer stands in `pop`.
pub data Consumer : Type 0 where
  waiting : Consumer
  reading : Consumer
  releasing : Consumer

-- `sent` are the values whose push has stored the write cursor, `received` those that pop has read.
pub record Threads {ℓ} (A : Type ℓ) : Type ℓ where
  pub ring : Ring A
  pub producer : Producer A
  pub consumer : Consumer
  pub sent : List A
  pub received : List A

-- A new ring, and both threads at their start.
abbrev pub start {ℓ} : {A : Type ℓ} → (ℕ → A) → Threads A
start storage = record {
  ring = empty_ring storage;
  producer = idle;
  consumer = waiting;
  sent = [];
  received = [];
}

module _ {ℓ} {A : Type ℓ} (k : ℕ) where
  -- One load or store of one thread, with the tests that lead up to it.
  pub data Step (x y : Threads A) : Type ℓ where
    push_refresh :
        x.producer ≡ idle
        → (next_cursor k x.ring.write == x.ring.read_cache) ≡ true
        → y ≡ record x { ring = record (x.ring) { read_cache = x.ring.read } }
        → Step x y
    push_check :
        (v : A)
        → x.producer ≡ idle
        → (next_cursor k x.ring.write == x.ring.read_cache) ≡ false
        → y ≡ record x { producer = writing v }
        → Step x y
    push_write :
        (v : A)
        → x.producer ≡ writing v
        → y ≡ record x {
          ring = record (x.ring) { container = update x.ring.container x.ring.write v };
          producer = publishing v;
        }
        → Step x y
    push_publish :
        (v : A)
        → x.producer ≡ publishing v
        → y ≡ record x {
          ring = record (x.ring) { write = next_cursor k x.ring.write };
          producer = idle;
          sent = x.sent ++ v ∷ [];
        }
        → Step x y
    pop_refresh :
        x.consumer ≡ waiting
        → (x.ring.read == x.ring.write_cache) ≡ true
        → y ≡ record x { ring = record (x.ring) { write_cache = x.ring.write } }
        → Step x y
    pop_check :
        x.consumer ≡ waiting
        → (x.ring.read == x.ring.write_cache) ≡ false
        → y ≡ record x { consumer = reading }
        → Step x y
    pop_read :
        x.consumer ≡ reading
        → y ≡ record x {
          consumer = releasing;
          received = x.received ++ x.ring.container x.ring.read ∷ [];
        }
        → Step x y
    pop_release :
        x.consumer ≡ releasing
        → y ≡ record x {
          ring = record (x.ring) { read = next_cursor k x.ring.read };
          consumer = waiting;
        }
        → Step x y

  pub data Reach (x : Threads A) : Threads A → Type ℓ where
    here : Reach x x
    next : {y z : Threads A} → Reach x y → Step y z → Reach x z
