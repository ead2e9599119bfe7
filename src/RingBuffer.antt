-- ===== src/RingBuffer.antt =====
-- include/cornet/utils/ringbuffer.h: the ring buffer of one producer and one consumer, each with a
-- cached copy of the other's cursor. The size is 2 ^ k, which the static assertion asks for. A
-- call of push or pop is one step here, as it is for two threads that do not overlap.
mod Cursors
pub mod Fifo
pub mod Runs
pub mod Threads
pub mod Interleavings
mod Tests
use cornet.Base.{
  ℕ, ◌+◌, ◌-◌, ◌^◌, bit_and, Bool, true, false, if◌then◌else◌, ◌==◌, Option, none, some, update,
}

pub record Ring {ℓ} (A : Type ℓ) : Type ℓ where
  pub read : ℕ
  pub write_cache : ℕ
  pub write : ℕ
  pub read_cache : ℕ
  pub container : ℕ → A

-- A new ring over the storage as it is.
abbrev pub empty_ring {ℓ} : {A : Type ℓ} → (ℕ → A) → Ring A
empty_ring storage = record {
  read = 0;
  write_cache = 0;
  write = 0;
  read_cache = 0;
  container = storage;
}

-- `(cursor + 1) & (N - 1)`
abbrev pub next_cursor : ℕ → ℕ → ℕ
next_cursor k cursor = bit_and (cursor + 1) (2 ^ k - 1)

module _ {ℓ} {A : Type ℓ} (k : ℕ) where
  -- The load of the consumer's cursor, where the cached one says that the ring is full.
  pub refresh_read : Ring A → Ring A
  refresh_read s =
      if next_cursor k s.write == s.read_cache then record s { read_cache = s.read } else s

  pub store : A → Ring A → Ring A
  store v s = record s { container = update s.container s.write v; write = next_cursor k s.write }

  pub push : A → Ring A → Ring A × Bool
  push v s =
      let t = refresh_read s in
      if next_cursor k t.write == t.read_cache then (t, false) else (store v t, true)

  -- `push` of what the arguments construct.
  pub emplace {κ} : {B : Type κ} → (B → A) → B → Ring A → Ring A × Bool
  emplace make args s =
      let t = refresh_read s in
      if next_cursor k t.write == t.read_cache then (t, false) else (store (make args) t, true)

  -- The load of the producer's cursor, where the cached one says that the ring is empty.
  pub refresh_write : Ring A → Ring A
  refresh_write s = if s.read == s.write_cache then record s { write_cache = s.write } else s

  pub pop : Ring A → Ring A × Option A
  pop s =
      let t = refresh_write s in
      if t.read == t.write_cache
      then (t, none)
      else (record t { read = next_cursor k t.read }, some (t.container t.read))
