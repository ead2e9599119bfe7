-- ===== src/Http/Output/Tests.antt =====
-- Runs of the output buffer, and its theorems at inputs.
use cornet.Base.{◌-◌, ◌≡◌, refl, none, some, [], ◌++◌, length, codes, arith}
use cornet.Http.Protocol.{HttpError}
use cornet.Http.Decimal.{write_u64, pairs_loop, last_digits, digit_pairs}
use cornet.Http.Output.{
  OutBuffer, room_of, remaining, failed, put, put_view, spaces, reserve, overwrite, patched,
  patch_u64, reset, release, clear,
}
use cornet.Http.Output.Patch.{reserve-patch_u64}

abbrev started : OutBuffer
started = record { lease = some 16; text = codes "n="; error = none }

abbrev behind : OutBuffer
behind = record { lease = some 16; text = codes "n=    ;"; error = none }

reserve-patch_u64_example : patch_u64 behind (reserve started 4).1 4 42 ≡ record behind {
  text = codes "n=" ++ ((spaces (4 - length (write_u64 42)) ++ write_u64 42) ++ codes ";");
}
unfolding reserve room_of remaining spaces write_u64 pairs_loop last_digits digit_pairs failed
reserve-patch_u64_example =
    reserve-patch_u64 started behind 4 42 (codes ";") (omega arith) refl (omega arith) refl refl
      refl (omega arith)

patch_u64_run : (patch_u64 behind 2 4 42).text ≡ codes "n=  42;"
unfolding patch_u64 patched overwrite spaces write_u64 pairs_loop last_digits digit_pairs failed
patch_u64_run = refl

-- A failed buffer takes nothing more; `clear` and a new lease reset it, and no lease means no room.
overflow_latches :
    put (put_view (reset started 4) (codes "12345")) (codes "1")
    ≡ record { lease = some 4; text = []; error = some HttpError.output_overflow }
unfolding put put_view failed remaining room_of reset
overflow_latches = refl

cleared_again :
    put (clear (put (reset started 4) (codes "12345"))) (codes "1")
    ≡ record { lease = some 4; text = codes "1"; error = none }
unfolding put failed remaining room_of reset clear
cleared_again = refl

released_has_no_room : (put (release started) (codes "1")).error ≡ some HttpError.output_overflow
unfolding put failed remaining room_of release
released_has_no_room = refl
