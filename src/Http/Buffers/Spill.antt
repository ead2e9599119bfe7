-- ===== src/Http/Buffers/Spill.antt =====
-- `spill_buffer_t`: copied values, one behind another in a fixed array; `text` is its first `used_` bytes.
pub mod Views
mod Tests
use cornet.Base.{
  ℕ, ◌+◌, ◌%◌, if◌then◌else◌, ltb, Option, none, some, List, [], ◌++◌, length, take, drop,
}

pub record SpillBuffer : Type 0 where
  pub text : List ℕ

abbrev pub capacity : ℕ
capacity = 512

-- The test of `put` and `extend`, whose sum wraps at 32 bits.
pub put_bytes : SpillBuffer → List ℕ → Option SpillBuffer
put_bytes b s =
    if ltb capacity ((length b.text + length s) % 0x100000000)
    then none
    else some (record { text = b.text ++ s })

-- `put`: the buffer and the run's offset; `none` is HeaderTooLarge.
pub put : SpillBuffer → List ℕ → Option (SpillBuffer × ℕ)
put b s = elim (put_bytes b s) [ none ↦ none | some c ↦ some (c, length b.text) ]

pub extend : SpillBuffer → List ℕ → Option SpillBuffer
extend b s = put_bytes b s

pub view : SpillBuffer → ℕ → ℕ → List ℕ
view b off len = take len (drop off b.text)

pub clear : SpillBuffer → SpillBuffer
clear b = record { text = [] }
