-- ===== src/Http/Buffers/Head.antt =====
-- `head_buffer_t`: the bytes of the header section in a leased block. `bytes` is the whole block, so its
-- length is the capacity; there is no lease where it is none.
pub mod Views
mod Tests
use cornet.Base.{
  ℕ, zero, suc, ◌+◌, ◌-◌, Bool, true, false, if◌then◌else◌, ◌==◌, ltb, Option, none, some, List, [],
  ◌++◌, length, take, drop,
}

pub record HeadBuffer : Type 0 where
  pub bytes : Option (List ℕ)
  pub read_pos : ℕ
  pub write_pos : ℕ
  pub parsing : Bool

-- `reset`, with the block of the lease.
pub reset : HeadBuffer → List ℕ → HeadBuffer
reset h block = record { bytes = some block; read_pos = 0; write_pos = 0; parsing = false }

pub release : HeadBuffer → HeadBuffer
release h = record { bytes = none; read_pos = 0; write_pos = 0; parsing = false }

pub readable : HeadBuffer → ℕ
readable h = h.write_pos - h.read_pos

abbrev pub block_of : Option (List ℕ) → List ℕ
block_of none = []
block_of (some block) = block

-- How many bytes `writable()` spans; it is empty where nothing is attached.
pub writable : HeadBuffer → ℕ
writable h = length (block_of h.bytes) - h.write_pos

-- Bytes that a receive stores at the start of `writable()`.
pub store : List ℕ → ℕ → List ℕ → List ℕ
store block pos s = take pos block ++ (s ++ drop (pos + length s) block)

pub stored : Option (List ℕ) → ℕ → List ℕ → Option (List ℕ)
stored none pos s = none
stored (some block) pos s = some (store block pos s)

pub commit : HeadBuffer → ℕ → HeadBuffer
commit h n = record h { write_pos = h.write_pos + n }

-- A receive of `s` into the tail, and its commit.
pub fill : HeadBuffer → List ℕ → HeadBuffer
fill h s = commit (record h { bytes = stored h.bytes h.write_pos s }) (length s)

pub consume : HeadBuffer → ℕ → HeadBuffer
consume h n = record h { read_pos = h.read_pos + n }

pub begin_message : HeadBuffer → HeadBuffer
begin_message h = record h { parsing = true }

pub end_message : HeadBuffer → HeadBuffer
end_message h = record h { parsing = false }

-- `memmove` of `n` bytes from `pos` to the front.
pub move_front : ℕ → ℕ → Option (List ℕ) → Option (List ℕ)
move_front n pos none = none
move_front n pos (some block) = some (take n (drop pos block) ++ drop n block)

-- The assertion on `parsing` aborts a debug build and is nothing in a release build, which is
-- what is modelled.
pub compact : HeadBuffer → HeadBuffer × Bool
compact h = if h.read_pos == 0 then (h, false) else (
  record h {
    bytes = move_front (h.write_pos - h.read_pos) h.read_pos h.bytes;
    read_pos = 0;
    write_pos = h.write_pos - h.read_pos;
  },
  true,
)

pub rewind_to : HeadBuffer → ℕ → HeadBuffer
rewind_to h pos = record h { read_pos = pos; write_pos = pos }

unfoldable pub view : HeadBuffer → ℕ → ℕ → List ℕ
view h off len = take len (drop off (block_of h.bytes))
