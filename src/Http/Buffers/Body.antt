-- ===== src/Http/Buffers/Body.antt =====
-- `body_buffer_t`: one aggregated body in a leased block; `text` is its first `size_` bytes. What `malloc`
-- answers is an argument, as in the pool.
pub mod Gather
mod Tests
use cornet.Base.{
  ℕ, ◌+◌, ◌%◌, if◌then◌else◌, ltb, leb, ◌==◌, Option, none, some, List, [], ◌++◌, length,
}
use cornet.Http.Protocol.{HttpError}
use cornet.Http.Buffers.Pool.{Lease, Pool, acquire, release}

pub record BodyBuffer : Type 0 where
  pub lease : Option Lease
  pub text : List ℕ
  pub cap : ℕ

pub data BodyError : Type 0 where
  http : HttpError → BodyError
  out_of_memory : BodyError

-- The pool, the buffer, and the error if there is one.
pub record Outcome : Type 0 where
  pub pool : Pool
  pub buffer : BodyBuffer
  pub error : Option BodyError

abbrev pub outcome : Pool → BodyBuffer → Option BodyError → Outcome
outcome p b e = record { pool = p; buffer = b; error = e }

abbrev pub empty : BodyBuffer
empty = record { lease = none; text = []; cap = 0 }

-- `release`
pub release_body : Pool → BodyBuffer → Pool × BodyBuffer
release_body p b = (release p b.lease, empty)

-- The buffer on what `acquire` returned, for `want` bytes.
pub on_lease : ℕ → Pool × Option Lease → Outcome
on_lease want (p, none) = outcome p empty (some out_of_memory)
on_lease want (p, some l) = outcome p (record { lease = some l; text = []; cap = want }) none

pub reserve_exact : Pool → BodyBuffer → ℕ → Option ℕ → Outcome
reserve_exact p b expected_bytes answer =
    let (p1, b1) = release_body p b in
    if expected_bytes == 0
    then outcome p1 b1 none
    else if ltb 0xffffffff expected_bytes
    then outcome p1 b1 (some (http HttpError.body_too_large))
    else on_lease expected_bytes (acquire p1 expected_bytes answer)

pub reserve_window : Pool → BodyBuffer → ℕ → Option ℕ → Outcome
reserve_window p b bytes answer =
    let (p1, b1) = release_body p b in
    if bytes == 0 then outcome p1 b1 none else on_lease bytes (acquire p1 bytes answer)

-- The old lease is given back after the bytes are copied.
pub moved : BodyBuffer → Pool × Option Lease → Outcome
moved b (p, none) = outcome p b (some out_of_memory)
moved b (p, some l) =
    outcome (release p b.lease) (record { lease = some l; text = b.text; cap = l.cap }) none

pub grow : Pool → BodyBuffer → ℕ → Option ℕ → Outcome
grow p b bytes answer =
    if leb bytes b.cap then outcome p b none else moved b (acquire p bytes answer)

-- The sum wraps at 32 bits.
pub append : BodyBuffer → List ℕ → BodyBuffer × Option BodyError
append b s =
    if length s == 0
    then (b, none)
    else if ltb b.cap ((length b.text + length s) % 0x100000000)
    then (b, some (http HttpError.output_overflow))
    else (record b { text = b.text ++ s }, none)

pub clear : BodyBuffer → BodyBuffer
clear b = record b { text = [] }
