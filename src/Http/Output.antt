-- ===== src/Http/Output.antt =====
-- include/cornet/http/common/serializer.h, `out_buffer_t`: an append-only buffer whose failures latch. The
-- lease is its capacity; `text` is what `view()` shows, so `size_` is its length and a write behind it is
-- not seen.
pub mod Emits
pub mod Patch
mod Tests
use cornet.Base.{
  ℕ, zero, suc, ◌+◌, ◌-◌, ◌%◌, if◌then◌else◌, ltb, Option, none, some, List, [], ◌∷◌, ◌++◌, length,
  take, set, Bool, true, false,
}
use cornet.Http.Protocol.{HttpError}
use cornet.Http.Decimal.{write_u64}

pub record OutBuffer : Type 0 where
  pub lease : Option ℕ
  pub text : List ℕ
  pub error : Option HttpError

unfoldable pub room_of : Option ℕ → List ℕ → ℕ
room_of none text = 0
room_of (some capacity) text = capacity - length text

unfoldable pub remaining : OutBuffer → ℕ
remaining out = room_of out.lease out.text

unfoldable pub failed : OutBuffer → Bool
failed out = elim (out.error) [ none ↦ false | some e ↦ true ]

pub latch : Option HttpError → HttpError → Option HttpError
latch none e = some e
latch (some first) e = some first

pub fail : OutBuffer → HttpError → OutBuffer
fail out e = record out { error = latch out.error e }

-- `put(data, len)`
unfoldable pub put : OutBuffer → List ℕ → OutBuffer
put out s =
    if failed out
    then out
    else if ltb (remaining out) (length s)
    then record out { error = some HttpError.output_overflow }
    else record out { text = out.text ++ s }

-- `put(string_view)`: the length goes through `uint32_t`.
pub put_view : OutBuffer → List ℕ → OutBuffer
put_view out s = put out (take (length s % 0x100000000) s)

pub put_byte : OutBuffer → ℕ → OutBuffer
put_byte out c = put out (c ∷ [])

unfoldable pub put_crlf : OutBuffer → OutBuffer
put_crlf out = put out (13 ∷ 10 ∷ [])

pub put_u64 : OutBuffer → ℕ → OutBuffer
put_u64 out v =
    if failed out
    then out
    else if ltb (remaining out) 20
    then record out { error = some HttpError.output_overflow }
    else record out { text = out.text ++ write_u64 v }

-- `memset(…, ' ', n)`
pub spaces : ℕ → List ℕ
spaces zero = []
spaces (suc n) = b' ' ∷ spaces n

-- The new buffer and the offset.
pub reserve : OutBuffer → ℕ → OutBuffer × ℕ
reserve out len =
    if failed out
    then (out, 0)
    else if ltb (remaining out) len
    then (record out { error = some HttpError.output_overflow }, 0)
    else (record out { text = out.text ++ spaces len }, length out.text)

pub overwrite : List ℕ → ℕ → List ℕ → List ℕ
overwrite text off [] = text
overwrite text off (c ∷ s) = overwrite (set text off c) (off + 1) s

pub patched : OutBuffer → ℕ → ℕ → List ℕ → OutBuffer
patched out off len digits =
    if ltb len (length digits)
    then record out { error = some HttpError.output_overflow }
    else record out { text = overwrite out.text off (spaces (len - length digits) ++ digits) }

pub patch_u64 : OutBuffer → ℕ → ℕ → ℕ → OutBuffer
patch_u64 out off len v =
    if failed out
    then out
    else elim (out.lease) [ none ↦ out | some capacity ↦ patched out off len (write_u64 v) ]

pub reset : OutBuffer → ℕ → OutBuffer
reset out capacity = record { lease = some capacity; text = []; error = none }

pub release : OutBuffer → OutBuffer
release out = record { lease = none; text = []; error = none }

pub clear : OutBuffer → OutBuffer
clear out = record out { text = []; error = none }
