-- ===== src/Concurrency/Semaphore/Tests.antt =====
-- Runs of the semaphore, and its theorems at concrete inputs.
use cornet.Base.{ℕ, ◌+◌, ◌≡◌, refl, true, false, [], ◌∷◌, ◌++◌, update, arith}
use cornet.Base.Members.{Has}
use cornet.Concurrency.Semaphore.{
  Awaiter, Semaphore, initial, construct, release, try_acquire, await_ready, await_suspend,
  await_resume, destroy, abort, begin_acquire, end_acquire,
}
use cornet.Concurrency.Semaphore.Wake.{Woken}
use cornet.Concurrency.Semaphore.Calls.{release-Woken, abort-Failed}
use cornet.Concurrency.Semaphore.Progress.{NoneFits, Calm, calm_here, calm_next, Calm-NoneFits}
use cornet.Concurrency.Semaphore.World.{
  World, Reach, here, next, start, IsSoundWorld, Reach-IsSound, acquire_suspends, acquire_at_once,
}

abbrev blank : ℕ → Awaiter
blank v = record { need = 0; err = 0; queued = false; granted = false; consumed = false }

-- Two free permits; awaiter 1 waits for five, and awaiter 2 behind it for one.
abbrev waiting_two : Semaphore
waiting_two = record (initial 2 blank) {
  queue = 1 ∷ 2 ∷ [];
  awaiters =
      update (update blank 1 (record (blank 1) { need = 5; queued = true })) 2
        (record (blank 2) { need = 1; queued = true });
}

release_wakes_both : (release 4 waiting_two).ready ≡ 1 ∷ 2 ∷ []
unfolding release
release_wakes_both = refl

release_wakes_none : (release 1 waiting_two).queue ≡ 1 ∷ 2 ∷ []
unfolding release
release_wakes_none = refl

release-Woken_example : Woken (record waiting_two { count = 2 + 4 }) (release 4 waiting_two)
release-Woken_example = release-Woken 4 waiting_two (λ p. absurd (omega arith)) refl (omega arith)

abort-Failed_example :
    let t = abort 125 waiting_two in
    (t.queue ≡ [])
    × (t.ready ≡ [] ++ 1 ∷ 2 ∷ [])
    × (t.count ≡ 2)
    × ((v : ℕ) → Has v (1 ∷ 2 ∷ []) → (t.awaiters v).err ≡ 125)
    × ((v : ℕ) → (t.awaiters v).granted ≡ (waiting_two.awaiters v).granted)
    × ((n : ℕ) → try_acquire n t ≡ (false, t))
    × ((w n : ℕ)
        → ((begin_acquire w n t).0 ≡ true)
          × ((end_acquire w (begin_acquire w n t).1).0 ≡ 125)
          × ((begin_acquire w n t).1.count ≡ 2))
abort-Failed_example = abort-Failed 125 waiting_two refl

-- A new acquire takes both permits past the two that wait.
newcomer_first : (begin_acquire 3 2 waiting_two).0 ≡ true
unfolding begin_acquire await_ready construct
newcomer_first = refl

newcomer_passes : (begin_acquire 3 2 waiting_two).1.queue ≡ 1 ∷ 2 ∷ []
unfolding begin_acquire await_ready construct
newcomer_passes = refl

-- The head's frame ends; awaiter 2, whose need the free permits cover, stays on the queue.
head_gone : (destroy 1 waiting_two).queue ≡ 2 ∷ []
unfolding destroy
head_gone = refl

none_scheduled : (destroy 1 waiting_two).ready ≡ []
unfolding destroy
none_scheduled = refl

-- One awaiter takes two of three permits, and another waits for two.
abbrev after_two : World
after_two =
    let x = start 3 blank in
    let y = record x { sem = (end_acquire 1 (begin_acquire 1 2 x.sem).1).1; held = 2 } in
    record y { sem = await_suspend 2 (begin_acquire 2 2 y.sem).1; live = 2 ∷ [] }

after_two_reached : Reach (start 3 blank) after_two
unfolding begin_acquire end_acquire await_ready await_resume destroy construct await_suspend
after_two_reached =
    next (next here (acquire_at_once 1 2 ((λ h. h), λ h. h) refl refl))
      (acquire_suspends 2 2 ((λ h. h), λ h. h) refl refl)

Reach-IsSound_example : IsSoundWorld 3 after_two
Reach-IsSound_example = Reach-IsSound 3 blank (omega arith) after_two_reached

after_two-Calm : Calm (start 3 blank) after_two
unfolding begin_acquire end_acquire await_ready await_resume destroy construct await_suspend
after_two-Calm =
    calm_next (calm_next calm_here (acquire_at_once 1 2 ((λ h. h), λ h. h) refl refl) tt)
      (acquire_suspends 2 2 ((λ h. h), λ h. h) refl refl) tt

Calm-NoneFits_example : NoneFits after_two.sem
Calm-NoneFits_example = Calm-NoneFits 3 blank (omega arith) after_two-Calm
