-- ===== src/Http/Buffers/Spill/Tests.antt =====
-- Runs of the spill buffer, and its theorem at an input.
use cornet.Base.{ℕ, ◌+◌, ◌≤◌, ◌≡◌, refl, some, [], ◌∷◌, codes, arith}
use cornet.Http.Buffers.Spill.{SpillBuffer, put, put_bytes, view, clear}
use cornet.Http.Buffers.Spill.Views.{extends, put-extend-view}

abbrev one_value : SpillBuffer
one_value = record { text = codes "gzip" }

put-extend-view_example :
    (c : SpillBuffer) × (d : SpillBuffer) × (put one_value (codes "a") ≡ some (c, 4))
    × (extends c (codes " b" ∷ codes " c" ∷ []) ≡ some d)
    × (view d 4 5 ≡ codes "a b c")
    × ((off len : ℕ) → off + len ≤ 4 → view d off len ≡ view one_value off len)
put-extend-view_example =
    put-extend-view one_value (codes "a") (codes " b" ∷ codes " c" ∷ []) (omega arith)

-- A full buffer refuses one more byte; a cleared one takes it.
cleared : put (clear one_value) (codes "x") ≡ some (record { text = codes "x" }, 0)
unfolding put put_bytes clear
cleared = refl
