-- ===== src/Concurrency/TimerWheel.antt =====
-- src/timer_wheel.cc and include/cornet/concurrency/timer_wheel.h: the hashed timing wheel. A node
-- is known by a number, the chain of a slot is the list of its nodes from the head on, and `next`
-- of a linked node is the one behind it in that list. What `on_expire` does to the wheel is a list
-- of calls of `arm` and `cancel`, given for each node; a null callback is the empty list. Delays
-- are from 0 on.
pub mod Chains
pub mod Calls
pub mod Counted
mod Tails
pub mod Advance
pub mod Expiry
pub mod Timing
pub mod Sequence
pub mod CancelledNext
mod Tests
use cornet.Base.{
  ℕ, zero, suc, ◌+◌, ◌-◌, ◌*◌, ◌/◌, ◌%◌, ◌^◌, Bool, true, false, not, ◌&&◌, ◌||◌, if◌then◌else◌,
  ltb, ◌==◌, List, [], ◌∷◌, Option, none, some, update, length,
}
use cornet.Base.Members.{remove}

abbrev pub slot_count : ℕ
slot_count = 512

-- `timer_node_t`; the slot -1 of a node that is not armed is `none`.
pub record Node : Type 0 where
  pub rounds : ℕ
  pub slot : Option ℕ

pub record Wheel : Type 0 where
  pub tick : ℕ
  pub slots : ℕ → List ℕ
  pub nodes : ℕ → Node
  pub cursor : ℕ
  pub armed : ℕ
  pub ticks : ℕ
  pub running : Bool
  pub runner_live : Bool

-- A call of the wheel's interface that a callback makes.
pub data Call : Type 0 where
  arm_call : ℕ → ℕ → Call
  cancel_call : ℕ → Call

-- `timer_wheel_t(ctx, tick)` in front of nodes that are not armed.
pub make : ℕ → (ℕ → Node) → Wheel
make tick nodes = record {
  tick = if ltb 0 tick then tick else 500;
  slots = λ k. [];
  nodes = nodes;
  cursor = 0;
  armed = 0;
  ticks = 0;
  running = true;
  runner_live = false;
}

pub link : ℕ → ℕ → Wheel → Wheel
link v k w = record w {
  nodes = update w.nodes v (record (w.nodes v) { slot = some k });
  slots = update w.slots k (v ∷ w.slots k);
  armed = (w.armed + 1) % 2 ^ 32;
}

pub unlink_from : Option ℕ → ℕ → Wheel → Wheel
unlink_from none v w = w
unlink_from (some k) v w = record w {
  nodes = update w.nodes v (record (w.nodes v) { slot = none });
  slots = update w.slots k (remove v (w.slots k));
  armed = (w.armed + (2 ^ 32 - 1)) % 2 ^ 32;
}

pub unlink : ℕ → Wheel → Wheel
unlink v w = unlink_from (w.nodes v).slot v w

-- The ticks that a delay is rounded up to, at least one.
pub ticks_of : ℕ → ℕ → ℕ
ticks_of tick delay = let ticks = (delay + tick - 1) / tick in if ticks == 0 then 1 else ticks

pub ensure_runner : Wheel → Wheel
ensure_runner w = if w.runner_live || not w.running then w else record w { runner_live = true }

-- `node.rounds = ...`, before the node is linked again.
pub set_rounds : ℕ → ℕ → Wheel → Wheel
set_rounds v ticks w = record w {
  nodes = update w.nodes v (record (w.nodes v) { rounds = (ticks - 1) / slot_count % 2 ^ 32 });
}

pub arm : ℕ → ℕ → Wheel → Wheel
arm v delay w =
    let ticks = ticks_of w.tick delay in
    let t = set_rounds v ticks (unlink v w) in
    ensure_runner (link v ((w.cursor + ticks) % 2 ^ 64 % slot_count) t)

pub cancel : ℕ → Wheel → Wheel
cancel v w = unlink v w

abbrev pub stop : Wheel → Wheel
stop w = record w { running = false }

pub run_call : Call → Wheel → Wheel
run_call (arm_call v delay) w = arm v delay w
run_call (cancel_call v) w = cancel v w

pub run_calls : List Call → Wheel → Wheel
run_calls [] w = w
run_calls (c ∷ cs) w = run_calls cs (run_call c w)

-- One round of the loop of `run`: whether the context still runs, the answer of `sleep`, and what others do to
-- the wheel during the sleep, a call of `stop` last.
pub record Round : Type 0 where
  pub context_runs : Bool
  pub slept : Bool
  pub meanwhile : List Call
  pub stopped : Bool

abbrev pub wake_up : Round → Wheel → Wheel
wake_up r w = let t = run_calls r.meanwhile w in if r.stopped then stop t else t

-- `wheel.runner_live_ = false`
abbrev pub leave_run : Wheel → Wheel
leave_run w = record w { runner_live = false }

pub head_of : List ℕ → Option ℕ
head_of [] = none
head_of (x ∷ xs) = some x

-- The node behind `v` in a chain.
pub after : ℕ → List ℕ → Option ℕ
after v [] = none
after v (x ∷ xs) = if x == v then head_of xs else after v xs

pub next_from : Option ℕ → ℕ → Wheel → Option ℕ
next_from none v w = none
next_from (some k) v w = after v (w.slots k)

-- `node->next`, null for a node that is not linked.
pub next_of : ℕ → Wheel → Option ℕ
next_of v w = next_from (w.nodes v).slot v w

-- `--node->rounds`
pub one_round_less : ℕ → Wheel → Wheel
one_round_less v w = record w {
  nodes = update w.nodes v (record (w.nodes v) { rounds = (w.nodes v).rounds - 1 });
}

pub turn_cursor : Wheel → Wheel
turn_cursor w = record w { cursor = (w.cursor + 1) % slot_count; ticks = (w.ticks + 1) % 2 ^ 64 }

-- `v` in front of the nodes that expire behind it, if it did.
pub add_fired : ℕ → Bool → Option (Wheel × List ℕ) → Option (Wheel × List ℕ)
add_fired v expired none = none
add_fired v expired (some (w, fired)) = some (w, if expired then v ∷ fired else fired)

module _ (on_expire : ℕ → List Call) where
  -- One node of the walk: the wheel after it, and whether it expired.
  pub visit : ℕ → Wheel → Wheel × Bool
  visit v w =
      if ltb 0 (w.nodes v).rounds
      then (one_round_less v w, false)
      else (run_calls (on_expire v) (unlink v w), true)

  -- The walk from a node on, with the nodes that expired in order. `none` where callbacks keep it
  -- going beyond the fuel.
  pub walk : ℕ → Option ℕ → Wheel → Option (Wheel × List ℕ)
  walk fuel none w = some (w, [])
  walk zero (some v) w = none
  walk (suc fuel) (some v) w =
      let visited = visit v w in add_fired v visited.1 (walk fuel (next_of v w) visited.0)

  pub advance : ℕ → Wheel → Option (Wheel × List ℕ)
  advance fuel w = let t = turn_cursor w in walk fuel (head_of (t.slots t.cursor)) t

  -- The coroutine `run` for some rounds, with the nodes that expired, tick by tick: `some` where it
  -- returns, or sleeps again behind the last round; the fuel of a tick is the length of its chain.
  pub run : List Round → Wheel → Option (Wheel × List (List ℕ))
  run [] w = some (w, [])
  run (r ∷ rs) w =
      let t = wake_up r w in
      if ltb 0 w.armed && w.running && r.context_runs
      then (if not r.slept || not t.running
          then some (leave_run t, [])
          else elim (advance (length (t.slots ((t.cursor + 1) % slot_count))) t) [
            | none ↦ none
            | some (u, fired) ↦ elim (run rs u) [
              | none ↦ none
              | some (z, later) ↦ some (z, fired ∷ later)
            ]
          ])
      else some (leave_run w, [])
