-- ===== src/Http/Buffers/Pool/Tests.antt =====
-- Runs of the pool, and its theorems at inputs.
use cornet.Base.{ℕ, ◌≡◌, refl, true, none, some, [], ◌∷◌}
use cornet.Http.Buffers.Pool.{
  Lease, class_of, class_from, from_malloc, from_class, acquire_in, acquire, recycle_in, recycle,
  release_lease, release, destroy,
}
use cornet.Http.Buffers.Pool.Ledger.{
  World, IsLedger, Run, acquires, releases, start, next, fresh_pool,
}
use cornet.Http.Buffers.Pool.Kept.{world}
use cornet.Http.Buffers.Pool.Runs.{run-IsLedger, destroy-frees_all}

abbrev lease_of : ℕ → Lease
lease_of block = record { pooled = true; block = block; cap = 16384 }

abbrev taken : World
taken = world (acquire fresh_pool 5000 (some 7)).0 (lease_of 7 ∷ [])

abbrev given_back : World
given_back = world (release_lease taken.pool (lease_of 7)) []

-- 5000 bytes are taken and given back.
used : Run (world fresh_pool []) given_back
unfolding acquire acquire_in class_of class_from from_class from_malloc
used =
    next (next start (acquires 5000 (some 7) refl taken refl))
      (releases [] (lease_of 7) [] refl given_back refl)

run-IsLedger_example : IsLedger given_back
run-IsLedger_example = run-IsLedger used

destroy-frees_all_example : (destroy given_back.pool).heap 7 ≡ none
destroy-frees_all_example = destroy-frees_all given_back.pool (run-IsLedger used) 7

-- The block that was given back serves the next request of its class, and no other class.
given_block_again : (acquire given_back.pool 16384 (some 8)).1 ≡ some (lease_of 7)
unfolding acquire acquire_in class_of class_from from_class from_malloc release_lease recycle
    recycle_in
given_block_again = refl

no_lease_no_change : release fresh_pool none ≡ fresh_pool
unfolding release
no_lease_no_change = refl
