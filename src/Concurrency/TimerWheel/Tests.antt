-- ===== src/Concurrency/TimerWheel/Tests.antt =====
-- Runs of the timer wheel, and its theorems at concrete inputs.
use cornet.Base.{
  ℕ, ◌+◌, ◌*◌, ◌<◌, ◌≤◌, ◌≡◌, ◌↔◌, refl, true, false, if◌then◌else◌, ◌==◌, Bool, Option, none, some,
  List, [], ◌∷◌, length, arith,
}
use cornet.Base.Members.{Has, Distinct}
use cornet.Concurrency.TimerWheel.{
  Node, Wheel, Call, arm_call, cancel_call, make, link, unlink, unlink_from, ticks_of,
  ensure_runner, set_rounds, arm, run_calls, head_of, after, next_of, next_from, one_round_less,
  turn_cursor, visit, add_fired, walk, advance, Round, run, cancel, run_call,
}
use cornet.Concurrency.TimerWheel.Chains.{IsWheel, make-IsWheel}
use cornet.Concurrency.TimerWheel.Calls.{due, arm-IsWheel}
use cornet.Concurrency.TimerWheel.Counted.{linked_in, linked, IsCounted, make-IsCounted}
use cornet.Concurrency.TimerWheel.Sequence.{left_of, run_calls-Refines}
use cornet.Concurrency.TimerWheel.Expiry.{tick_down, advance-Ticks}
use cornet.Concurrency.TimerWheel.Timing.{undisturbed, ExpiresLast, arm-ExpiresLast}
use cornet.Concurrency.TimerWheel.CancelledNext.{advance-cancelled_next}

abbrev blank : ℕ → Node
blank v = record { rounds = 0; slot = none }

abbrev empty : Wheel
empty = record {
  tick = 500;
  slots = λ k. [];
  nodes = blank;
  cursor = 0;
  armed = 0;
  ticks = 0;
  running = true;
  runner_live = false;
}

empty-IsWheel : IsWheel empty
unfolding make
empty-IsWheel = make-IsWheel 500 blank (λ v. refl)

-- Each timer asks for half a second again.
abbrev periodic : ℕ → List Call
periodic v = arm_call v 500 ∷ []

abbrev quiet : ℕ → List Call
quiet v = []

-- Timer 1 cancels timer 2.
abbrev cancels_second : ℕ → List Call
cancels_second v = if v == 1 then cancel_call 2 ∷ [] else []

-- Timer 2, and timer 1 before it in the chain, expire in the next tick.
abbrev two_armed : Wheel
two_armed = arm 1 300 (arm 2 300 empty)

two_armed-IsWheel : IsWheel two_armed
two_armed-IsWheel = arm-IsWheel 1 300 (arm 2 300 empty) (arm-IsWheel 2 300 empty empty-IsWheel)

abbrev fired_of : Option (Wheel × List (List ℕ)) → List (List ℕ)
fired_of none = []
fired_of (some r) = r.1

ticks_of_1200 : ticks_of 500 1200 ≡ 3
unfolding ticks_of
ticks_of_1200 = refl

quiet_fires_in_third :
    fired_of (run quiet (undisturbed 3) (arm 7 1200 empty)) ≡ [] ∷ [] ∷ (7 ∷ []) ∷ []
unfolding run advance walk visit add_fired next_of next_from after head_of turn_cursor arm link
    set_rounds unlink unlink_from ensure_runner ticks_of run_calls one_round_less
quiet_fires_in_third = refl

-- Stopped in the second round, and cancelled in it: the runner leaves, and timer 7 does not expire.
abbrev second_round : Bool → List Call → List Round
second_round stopped calls =
    record { context_runs = true; slept = true; meanwhile = []; stopped = false }
    ∷ record { context_runs = true; slept = true; meanwhile = calls; stopped = stopped }
    ∷ undisturbed 2

stopped_fires_none : fired_of (run quiet (second_round true []) (arm 7 1200 empty)) ≡ [] ∷ []
unfolding run advance walk visit add_fired next_of next_from after head_of turn_cursor arm link
    set_rounds unlink unlink_from ensure_runner ticks_of run_calls one_round_less
stopped_fires_none = refl

cancelled_fires_none :
    fired_of (run quiet (second_round false (cancel_call 7 ∷ [])) (arm 7 1200 empty)) ≡ [] ∷ [] ∷ []
unfolding run advance walk visit add_fired next_of next_from after head_of turn_cursor arm cancel
    link set_rounds unlink unlink_from ensure_runner ticks_of run_calls run_call one_round_less
cancelled_fires_none = refl

empty-IsCounted : IsCounted empty
unfolding make
empty-IsCounted = make-IsCounted 500 blank

one_linked : linked (arm 7 1200 empty) ≡ 1
unfolding linked_in arm link set_rounds unlink unlink_from ensure_runner ticks_of
one_linked = refl

arm-ExpiresLast_example :
    ((arm 7 1200 empty).runner_live ≡ true)
    × ((u : Wheel) × (fired : List (List ℕ)) × (run periodic
            (undisturbed (ticks_of 500 1200))
            (arm 7 1200 empty)
          ≡ some (u, fired))
        × (length fired ≡ ticks_of 500 1200)
        × ExpiresLast 7 fired
        × (1200 ≤ length fired * 500)
        × (0 < 1200 → length fired * 500 < 1200 + 500))
arm-ExpiresLast_example =
    arm-ExpiresLast periodic 7 1200 empty empty-IsWheel empty-IsCounted refl
      (omega (arith, one_linked)) (λ x. (refl, unfold ticks_of in omega arith, tt))
      (unfold ticks_of in omega arith)

run_calls-Refines_example :
    let cs = arm_call 7 1200 ∷ arm_call 8 100 ∷ cancel_call 7 ∷ [] in
    IsWheel (run_calls cs empty)
    × ((run_calls cs empty).tick ≡ 500)
    × ((x : ℕ) → due x (run_calls cs empty) ≡ left_of x 500 cs (due x empty))
run_calls-Refines_example =
    run_calls-Refines (arm_call 7 1200 ∷ arm_call 8 100 ∷ cancel_call 7 ∷ []) empty empty-IsWheel
      (unfold ticks_of in omega arith, (unfold ticks_of in omega arith, tt))

advance-Ticks_example :
    (u : Wheel) × (fired : List ℕ) × (advance periodic 2 two_armed ≡ some (u, fired))
    × IsWheel u
    × (u.tick ≡ 500)
    × Distinct fired
    × ((x : ℕ) → Has x fired ↔ (due x two_armed ≡ some 1))
    × ((x : ℕ) → due x u ≡ tick_down 500 (periodic x) (due x two_armed))
unfolding arm link set_rounds unlink unlink_from ensure_runner ticks_of
advance-Ticks_example =
    advance-Ticks periodic 2 two_armed two_armed-IsWheel (λ x. (refl, omega arith, tt))
      (omega arith)

advance-cancelled_next_example :
    (u : Wheel) × (advance cancels_second 2 two_armed ≡ some (u, 1 ∷ 2 ∷ [])) × (u.slots 1 ≡ [])
unfolding arm link set_rounds unlink unlink_from ensure_runner ticks_of
advance-cancelled_next_example =
    advance-cancelled_next cancels_second 1 2 [] two_armed two_armed-IsWheel refl refl refl refl
      refl
