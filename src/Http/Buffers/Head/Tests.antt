-- ===== src/Http/Buffers/Head/Tests.antt =====
-- Runs of the head buffer, and its theorems at inputs.
use cornet.Base.{ℕ, ◌<◌, ◌≡◌, ◌⊎◌, refl, true, false, some, codes, arith}
use cornet.Http.Buffers.Head.{
  HeadBuffer, reset, release, fill, commit, store, stored, consume, begin_message, end_message,
  compact, rewind_to, view, writable, readable, move_front,
}
use cornet.Http.Buffers.Head.Views.{
  IsValid, Acts, fills, consumes, rewinds, start, next, Keeps, Compacted, acts-Keeps, compact-keeps,
}

-- Six bytes of head have been received, four of them are a header section and read.
abbrev parsed : HeadBuffer
parsed = record { bytes = some (codes "head56...."); read_pos = 4; write_pos = 6; parsing = true }

-- The rest is consumed, the buffer is rewound to the section's end, and a body run is received.
body_run : Acts 4 parsed (fill (rewind_to (consume parsed 2) 4) (codes "body"))
unfolding writable readable consume rewind_to
body_run =
    next
      (next (next start (consumes 2 (omega arith) (consume parsed 2) refl))
        (rewinds 4 (omega arith) (omega arith) (rewind_to (consume parsed 2) 4) refl))
      (fills (codes "body") (omega arith) (fill (rewind_to (consume parsed 2) 4) (codes "body"))
        refl)

parsed-IsValid : IsValid parsed
parsed-IsValid = record { read_le = omega arith; write_le = omega arith }

acts-Keeps_example : Keeps 4 parsed (fill (rewind_to (consume parsed 2) 4) (codes "body"))
acts-Keeps_example = acts-Keeps parsed-IsValid (omega arith) body_run

compact-keeps_example :
    Compacted parsed (compact parsed).0
    × ((compact parsed).0.parsing ≡ true)
    × (((◌≡◌ {A = ℕ} 4 0) × ((compact parsed).1 ≡ false) × ((compact parsed).0 ≡ parsed))
        ⊎ ((0 < parsed.read_pos) × ((compact parsed).1 ≡ true)))
compact-keeps_example = compact-keeps parsed parsed-IsValid

-- Between messages the two unread bytes move to the front.
front_again_lem : compact (end_message parsed) ≡ (
  record { bytes = some (codes "56ad56...."); read_pos = 0; write_pos = 2; parsing = false },
  true,
)
unfolding compact end_message move_front
front_again_lem = refl

started_again : (begin_message (reset (release parsed) (codes "block"))).parsing ≡ true
unfolding begin_message reset release
started_again = refl

stored_bytes : view (fill (rewind_to parsed 4) (codes "body")) 0 8 ≡ codes "headbody"
unfolding view fill commit store stored rewind_to
stored_bytes = refl
