-- ===== src/Http/Buffers/Body/Tests.antt =====
-- Runs of the body buffer, and its theorems at inputs.
use cornet.Base.{ℕ, ◌≡◌, refl, true, none, some, List, [], ◌∷◌, codes, arith}
use cornet.Http.Buffers.Pool.Ledger.{fresh_pool}
use cornet.Http.Buffers.Body.{
  BodyBuffer, empty, release_body, reserve_exact, reserve_window, grow, append, clear,
}
use cornet.Http.Buffers.Body.Gather.{
  gather, Gathered, Backed, Grown, reserve_exact-gather, grow-keeps,
}

abbrev runs : List (List ℕ)
runs = codes "ab" ∷ codes "cde" ∷ []

abbrev reserved : BodyBuffer
reserved = (reserve_exact fresh_pool empty 5 (some 9)).buffer

reserve_exact-gather_example :
    Backed reserved
    × (reserved.cap ≡ 5)
    × (reserved.text ≡ [])
    × Gathered reserved runs (gather reserved runs)
reserve_exact-gather_example =
    reserve_exact-gather fresh_pool empty 5 9 runs (omega arith) (omega arith) (omega arith)

abbrev small_body : BodyBuffer
small_body = record {
  lease = some (record { pooled = true; block = 3; cap = 4096 });
  text = codes "ab";
  cap = 2;
}

grow-keeps_example : Grown small_body 5000 (grow fresh_pool small_body 5000 (some 9))
grow-keeps_example =
    grow-keeps fresh_pool small_body 5000 9
      (record { pooled = true; block = 3; cap = 4096 }, refl, omega arith)

-- An empty window needs no lease, and a cleared buffer takes its capacity again.
no_window : (reserve_window fresh_pool empty 0 none).error ≡ none
unfolding reserve_window release_body
no_window = refl

cleared : (append (clear small_body) (codes "xy")).1 ≡ none
unfolding append clear
cleared = refl
