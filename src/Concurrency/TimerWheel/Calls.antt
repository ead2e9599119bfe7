-- ===== src/Concurrency/TimerWheel/Calls.antt =====
-- The ticks that are left to each node, and what arm and cancel do to them.
use cornet.Base.{
  ℕ, zero, suc, ◌+◌, ◌-◌, ◌*◌, ◌/◌, ◌%◌, ◌^◌, ◌<◌, ◌≤◌, ◌≡◌, ◌≢◌, refl, sym, ap, ap₂, ◌∙◌, true,
  false, if◌then◌else◌, ◌==◌, Option, none, some, List, [], ◌∷◌, arith, if-elim, not, ◌||◌, update,
}
use native.Mathlib.Nat.{div-add-mod, mod-lt}
use cornet.Concurrency.TimerWheel.{
  Node, Wheel, Call, arm_call, cancel_call, link, unlink, ticks_of, ensure_runner, set_rounds, arm,
  cancel, run_call, run_calls,
}
use cornet.Concurrency.TimerWheel.Chains.{
  IsWheel, link-IsWheel, unlink-IsWheel, unlink-slot, unlink-others, unlink-cursor,
}

-- The number of calls of `advance` after which a node in slot `k` with `rounds` expires.
abbrev pub left_at : ℕ → ℕ → ℕ → ℕ
left_at cursor rounds k = rounds * 512 + (k + 511 - cursor) % 512 + 1

abbrev pub due_from : ℕ → ℕ → Option ℕ → Option ℕ
due_from cursor rounds none = none
due_from cursor rounds (some k) = some (left_at cursor rounds k)

abbrev pub due : ℕ → Wheel → Option ℕ
due v w = due_from w.cursor (w.nodes v).rounds (w.nodes v).slot

-- A delay that the 32-bit count of rounds can hold.
abbrev pub Fits : ℕ → ℕ → Type 0
Fits tick delay = ticks_of tick delay ≤ 512 * 2 ^ 32

-- The delay in whole ticks: not before the delay is over, and by less than a tick after it.
pub ticks_of-Rounds :
    (tick delay : ℕ)
    → 0 < tick
    → (0 < ticks_of tick delay)
      × (delay ≤ ticks_of tick delay * tick)
      × (0 < delay → ticks_of tick delay * tick < delay + tick)
unfolding ticks_of
ticks_of-Rounds tick delay h =
    rounded ((delay + tick - 1) / tick) (div-add-mod (delay + tick - 1) tick)
      (mod-lt (delay + tick - 1) h)
  where
    rounded :
        (q : ℕ)
        → tick * q + (delay + tick - 1) % tick ≡ delay + tick - 1
        → (delay + tick - 1) % tick < tick
        → let t = if q == 0 then 1 else q in
          (0 < t) × (delay ≤ t * tick) × (0 < delay → t * tick < delay + tick)
    rounded zero e r = ground arith
    rounded (suc q) e r =
        let positive : (suc q == 0) ≡ false = ground arith in
        rw positive (omega arith, omega arith, λ p. omega arith)

module _ (v k : ℕ) (w : Wheel) where
  link-node : (link v k w).nodes v ≡ record (w.nodes v) { slot = some k }
  unfolding link
  link-node = ground arith

  link-others : (x : ℕ) → v ≢ x → (link v k w).nodes x ≡ w.nodes x
  unfolding link
  link-others x ne = ground arith

module _ (v n : ℕ) (w : Wheel) where
  set_rounds-IsWheel : IsWheel w → IsWheel (set_rounds v n w)
  unfolding set_rounds
  set_rounds-IsWheel i = record {
    cursor_below = i.cursor_below;
    tick_positive = i.tick_positive;
    distinct = i.distinct;
    in_slot = λ x k h. slot_same x ∙ i.in_slot x k h;
    in_chain = λ x k e. i.in_chain x k (sym (slot_same x) ∙ e);
    slot_below = λ x k e. i.slot_below x k (sym (slot_same x) ∙ e);
  }
    where
      slot_same : (x : ℕ) → ((set_rounds v n w).nodes x).slot ≡ (w.nodes x).slot
      slot_same x = ground arith

  set_rounds-node :
      (set_rounds v n w).nodes v ≡ record (w.nodes v) { rounds = (n - 1) / 512 % 2 ^ 32 }
  unfolding set_rounds
  set_rounds-node = ground arith

  set_rounds-others : (x : ℕ) → v ≢ x → (set_rounds v n w).nodes x ≡ w.nodes x
  unfolding set_rounds
  set_rounds-others x ne = ground arith

ensure_runner-IsWheel : (w : Wheel) → IsWheel w → IsWheel (ensure_runner w)
unfolding ensure_runner
ensure_runner-IsWheel w i =
    if-elim IsWheel (w.runner_live || not w.running) w (record w { runner_live = true }) (λ e. i)
      (λ e. record {
        cursor_below = i.cursor_below;
        tick_positive = i.tick_positive;
        distinct = i.distinct;
        in_slot = i.in_slot;
        in_chain = i.in_chain;
        slot_below = i.slot_below;
      })

ensure_runner-same :
    (w : Wheel)
    → ((ensure_runner w).nodes ≡ w.nodes)
      × ((ensure_runner w).slots ≡ w.slots)
      × ((ensure_runner w).cursor ≡ w.cursor)
      × ((ensure_runner w).tick ≡ w.tick)
unfolding ensure_runner
ensure_runner-same w = ground arith

-- The slot and the rounds that `arm` computes leave `t` ticks.
left_at-armed :
    (cursor t : ℕ)
    → cursor < 512
    → 0 < t
    → t ≤ 512 * 2 ^ 32
    → left_at cursor ((t - 1) / 512 % 2 ^ 32) ((cursor + t) % 2 ^ 64 % 512) ≡ t
left_at-armed cursor t c p h = omega arith

module _ (v delay : ℕ) (w : Wheel) where
  -- The wheel before `arm` links the node.
  abbrev prepared : Wheel
  prepared = set_rounds v (ticks_of w.tick delay) (unlink v w)

  abbrev target : ℕ
  target = (w.cursor + ticks_of w.tick delay) % 2 ^ 64 % 512

  prepared-slot : (prepared.nodes v).slot ≡ none
  prepared-slot =
      ap (λ n. n.slot) (set_rounds-node v (ticks_of w.tick delay) (unlink v w)) ∙ unlink-slot v w

  arm-prepared : arm v delay w ≡ ensure_runner (link v target prepared)
  unfolding arm
  arm-prepared = refl

  pub arm-IsWheel : IsWheel w → IsWheel (arm v delay w)
  arm-IsWheel i = rw arm-prepared (
      ensure_runner-IsWheel (link v target prepared) (
        link-IsWheel v target prepared prepared-slot (omega arith)
          (set_rounds-IsWheel v (ticks_of w.tick delay) (unlink v w) (unlink-IsWheel v w i))))

  arm-nodes : (arm v delay w).nodes ≡ (link v target prepared).nodes
  arm-nodes = rw arm-prepared (ensure_runner-same (link v target prepared)).0

  pub arm-others : (x : ℕ) → v ≢ x → (arm v delay w).nodes x ≡ w.nodes x
  arm-others x ne =
      ap (λ f. f x) arm-nodes
      ∙ link-others v target prepared x ne
      ∙ set_rounds-others v (ticks_of w.tick delay) (unlink v w) x ne
      ∙ unlink-others v w x ne

  pub arm-cursor : ((arm v delay w).cursor ≡ w.cursor) × ((arm v delay w).tick ≡ w.tick)
  unfolding link set_rounds
  arm-cursor = rw arm-prepared (
    (ensure_runner-same (link v target prepared)).2 ∙ (unlink-cursor v w).0,
    (ensure_runner-same (link v target prepared)).3 ∙ (unlink-cursor v w).1,
  )

  arm-node :
      (arm v delay w).nodes v
      ≡ record { rounds = (ticks_of w.tick delay - 1) / 512 % 2 ^ 32; slot = some target }
  arm-node =
      ap (λ f. f v) arm-nodes
      ∙ link-node v target prepared
      ∙ ap {A = Node} (λ n. record n { slot = some target })
          (set_rounds-node v (ticks_of w.tick delay) (unlink v w))

  -- Where `arm` puts the node, in which chain, and what it leaves of the rest of the wheel.
  pub arm-linked :
      (j : ℕ) × (j < 512)
      × (((arm v delay w).nodes v).slot ≡ some j)
      × ((arm v delay w).slots ≡ update (unlink v w).slots j (v ∷ (unlink v w).slots j))
      × ((arm v delay w).armed ≡ ((unlink v w).armed + 1) % 2 ^ 32)
      × ((arm v delay w).running ≡ (unlink v w).running)
      × ((arm v delay w).runner_live ≡ ((unlink v w).runner_live || (unlink v w).running))
  unfolding arm link set_rounds ensure_runner
  arm-linked = (
    target,
    omega arith,
    ap (λ n. n.slot) arm-node,
    ground arith,
    ground arith,
    ground arith,
    ground arith,
  )

  -- A node that is armed has the ticks of its delay left.
  pub due-arm : IsWheel w → Fits w.tick delay → due v (arm v delay w) ≡ some (ticks_of w.tick delay)
  due-arm i fits =
      ap₂ (λ c n. due_from c n.rounds n.slot) arm-cursor.0 arm-node
      ∙ ap some (
          left_at-armed w.cursor (ticks_of w.tick delay) i.cursor_below
            (ticks_of-Rounds w.tick delay i.tick_positive).0 fits)

-- A call's node, and the ticks left to it after the call.
abbrev pub target_of : Call → ℕ
target_of (arm_call v delay) = v
target_of (cancel_call v) = v

-- Calls on the node `v` alone, with delays that fit.
abbrev pub IsOwn : ℕ → ℕ → List Call → Type 0
IsOwn tick v [] = Unit
IsOwn tick v (arm_call x delay ∷ cs) = (v ≡ x) × Fits tick delay × IsOwn tick v cs
IsOwn tick v (cancel_call x ∷ cs) = (v ≡ x) × IsOwn tick v cs

-- The ticks left after calls on one node: the last call decides.
abbrev pub left_after : ℕ → List Call → Option ℕ → Option ℕ
left_after tick [] left = left
left_after tick (arm_call x delay ∷ cs) left = left_after tick cs (some (ticks_of tick delay))
left_after tick (cancel_call x ∷ cs) left = left_after tick cs none

-- Everything a run of calls on `v` keeps.
pub record OnlyAt (v : ℕ) (w u : Wheel) : Type 0 where
  pub wheel : IsWheel u
  pub others : (x : ℕ) → v ≢ x → u.nodes x ≡ w.nodes x
  pub cursor : u.cursor ≡ w.cursor
  pub tick : u.tick ≡ w.tick

pub OnlyAt-trans : (v : ℕ) {w u t : Wheel} → OnlyAt v w u → OnlyAt v u t → OnlyAt v w t
OnlyAt-trans v a b = record {
  wheel = b.wheel;
  others = λ x ne. b.others x ne ∙ a.others x ne;
  cursor = b.cursor ∙ a.cursor;
  tick = b.tick ∙ a.tick;
}

pub unlink-OnlyAt : (v : ℕ) (w : Wheel) → IsWheel w → OnlyAt v w (unlink v w)
unlink-OnlyAt v w i = record {
  wheel = unlink-IsWheel v w i;
  others = unlink-others v w;
  cursor = (unlink-cursor v w).0;
  tick = (unlink-cursor v w).1;
}

pub arm-OnlyAt : (v delay : ℕ) (w : Wheel) → IsWheel w → OnlyAt v w (arm v delay w)
arm-OnlyAt v delay w i = record {
  wheel = arm-IsWheel v delay w i;
  others = arm-others v delay w;
  cursor = (arm-cursor v delay w).0;
  tick = (arm-cursor v delay w).1;
}

pub cancel-OnlyAt : (v : ℕ) (w : Wheel) → IsWheel w → OnlyAt v w (cancel v w)
unfolding cancel
cancel-OnlyAt v w i = unlink-OnlyAt v w i

pub due-cancel : (v : ℕ) (w : Wheel) → due v (cancel v w) ≡ none
unfolding cancel
due-cancel v w = ap (due_from (unlink v w).cursor ((unlink v w).nodes v).rounds) (unlink-slot v w)

-- Runs of own calls.
pub run_calls-Own :
    (v : ℕ) (cs : List Call) (w : Wheel)
    → IsWheel w
    → IsOwn w.tick v cs
    → OnlyAt v w (run_calls cs w) × (due v (run_calls cs w) ≡ left_after w.tick cs (due v w))
unfolding run_calls run_call
run_calls-Own v [] w i own =
    (record { wheel = i; others = λ x ne. refl; cursor = refl; tick = refl }, refl)
run_calls-Own v (arm_call x delay ∷ cs) w i (e, fits, own) = rw (← e) (
    let first = arm-OnlyAt v delay w i in
    let rest = run_calls-Own v cs (arm v delay w) first.wheel (rw first.tick own) in
    (
      OnlyAt-trans v first rest.0,
      rest.1 ∙ ap₂ (λ t d. left_after t cs d) first.tick (due-arm v delay w i fits),
    ))
run_calls-Own v (cancel_call x ∷ cs) w i (e, own) = rw (← e) (
    let first = cancel-OnlyAt v w i in
    let rest = run_calls-Own v cs (cancel v w) first.wheel (rw first.tick own) in
    (
      OnlyAt-trans v first rest.0,
      rest.1 ∙ ap₂ (λ t d. left_after t cs d) first.tick (due-cancel v w),
    ))
