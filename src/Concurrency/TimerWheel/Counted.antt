-- ===== src/Concurrency/TimerWheel/Counted.antt =====
-- src/timer_wheel.cc: the count `armed_` against the nodes that are linked, and what a run of calls
-- on one node does to it.
use cornet.Base.{
  ℕ, zero, suc, ◌+◌, ◌-◌, ◌%◌, ◌^◌, ◌<◌, ◌≤◌, ◌≡◌, refl, sym, ap, subst, ◌∙◌, inl, inr, true, ◌==◌,
  ==_iff, Bool-cases, Option-cases, length, none, some, List, [], ◌∷◌, update, arith,
}
use cornet.Base.Members.{Has, remove}
use cornet.Concurrency.TimerWheel.{
  Node, Wheel, Call, arm_call, cancel_call, make, unlink, unlink_from, arm, cancel, run_call,
  run_calls, one_round_less, turn_cursor,
}
use cornet.Concurrency.TimerWheel.Chains.{IsWheel, unlink-IsWheel, unlink-slot}
use cornet.Concurrency.TimerWheel.Calls.{IsOwn, arm-IsWheel, arm-linked}

-- The nodes in the first `n` chains.
unfoldable pub linked_in : ℕ → (ℕ → List ℕ) → ℕ
linked_in zero slots = 0
linked_in (suc n) slots = length (slots n) + linked_in n slots

-- The nodes that are linked.
abbrev pub linked : Wheel → ℕ
linked w = linked_in 512 w.slots

-- `armed_` counts the nodes that are linked, in 32 bits.
abbrev pub IsCounted : Wheel → Type 0
IsCounted w = w.armed ≡ linked w % 2 ^ 32

linked_in-update_above :
    (n k : ℕ) (f : ℕ → List ℕ) (l : List ℕ) → n ≤ k → linked_in n (update f k l) ≡ linked_in n f
unfolding linked_in
linked_in-update_above zero k f l h = refl
linked_in-update_above (suc n) k f l h =
    let rest = linked_in-update_above n k f l (omega arith) in ground (arith, rest)

linked_in-update :
    (n k : ℕ) (f : ℕ → List ℕ) (l : List ℕ)
    → k < n
    → linked_in n (update f k l) + length (f k) ≡ linked_in n f + length l
unfolding linked_in
linked_in-update zero k f l h = absurd (omega arith)
linked_in-update (suc n) k f l h = elim (Bool-cases (k == n)) [
  | inl e ↦
      let same : k ≡ n = (==_iff k n).0 e in
      let rest = linked_in-update_above n k f l (omega arith) in
      let here = ap (λ z. length (f z)) same in rw e (omega (arith, rest, here))
  | inr e ↦ let rest = linked_in-update n k f l (ground arith) in rw e (omega (arith, rest))
]

linked_in-positive : (n k v : ℕ) (f : ℕ → List ℕ) → k < n → Has v (f k) → 0 < linked_in n f
unfolding linked_in
linked_in-positive zero k v f h m = absurd (omega arith)
linked_in-positive (suc n) k v f h m = elim (Bool-cases (k == n)) [
  | inl e ↦
      let some_there = positive (f n) (subst (λ z. Has v (f z)) ((==_iff k n).0 e) m) in
      omega (arith, some_there)
  | inr e ↦ omega (arith, linked_in-positive n k v f (ground arith) m)
]
  where
    positive : (l : List ℕ) → Has v l → 0 < length l
    positive [] q = absurd q
    positive (x ∷ l) q = omega arith

length-remove : (v : ℕ) (l : List ℕ) → Has v l → suc (length (remove v l)) ≡ length l
length-remove v [] h = absurd h
length-remove v (x ∷ l) h = elim (Bool-cases (x == v)) [
  | inl e ↦ rw e refl
  | inr e ↦ rw e (elim h [
    | inl q ↦ absurd (cc (e, (==_iff x v).1 (sym q)))
    | inr t ↦ ap suc (length-remove v l t)
  ])
]

-- Arming and cancelling a node of a wheel.
module _ (v : ℕ) (w : Wheel) where
  unlink-linked :
      (k : ℕ)
      → IsWheel w
      → (w.nodes v).slot ≡ some k
      → (linked (unlink v w) + 1 ≡ linked w)
        × ((unlink v w).armed ≡ (w.armed + (2 ^ 32 - 1)) % 2 ^ 32)
  unfolding unlink unlink_from
  unlink-linked k i e =
      let one_less = length-remove v (w.slots k) (i.in_chain v k e) in
      let sum = linked_in-update 512 k w.slots (remove v (w.slots k)) (i.slot_below v k e) in
      rw e (omega (arith, one_less, sum), refl)

  unlink-unlinked : (w.nodes v).slot ≡ none → unlink v w ≡ w
  unfolding unlink unlink_from
  unlink-unlinked e = rw e refl

  pub unlink-running :
      ((unlink v w).running ≡ w.running) × ((unlink v w).runner_live ≡ w.runner_live)
  unfolding unlink unlink_from
  unlink-running = elim (Option-cases (w.nodes v).slot) [
    | inl e ↦ rw e (refl, refl)
    | inr (k, e) ↦ rw e (refl, refl)
  ]

  pub unlink-IsCounted : IsWheel w → IsCounted w → IsCounted (unlink v w)
  unlink-IsCounted i c = elim (Option-cases (w.nodes v).slot) [
    | inl e ↦ rw (unlink-unlinked e) c
    | inr (k, e) ↦ let (fewer, count) = unlink-linked k i e in omega (arith, fewer, count, c)
  ]

  arm-count : (delay : ℕ) → linked (arm v delay w) ≡ linked (unlink v w) + 1
  arm-count delay =
      let (j, below, _, slots, _, _, _) = arm-linked v delay w in
      let sum = linked_in-update 512 j (unlink v w).slots (v ∷ (unlink v w).slots j) below in
      ap (linked_in 512) slots ∙ omega (arith, sum)

  pub arm-IsCounted : (delay : ℕ) → IsWheel w → IsCounted w → IsCounted (arm v delay w)
  arm-IsCounted delay i c =
      let (j, _, _, _, count, _, _) = arm-linked v delay w in
      omega (arith, arm-count delay, unlink-IsCounted i c, count)

-- What calls on the node `v` keep: whether the wheel runs, its runner, its count, and the nodes that are
-- linked beside `v`.
record OwnCount (v : ℕ) (w u : Wheel) : Type 0 where
  running : u.running ≡ w.running
  live : w.runner_live ≡ true → u.runner_live ≡ true
  counted : IsCounted w → IsCounted u
  rest : linked (unlink v u) ≡ linked (unlink v w)

OwnCount-trans : {v : ℕ} {w u t : Wheel} → OwnCount v w u → OwnCount v u t → OwnCount v w t
OwnCount-trans a b = record {
  running = b.running ∙ a.running;
  live = λ l. b.live (a.live l);
  counted = λ c. b.counted (a.counted c);
  rest = b.rest ∙ a.rest;
}

unlink-OwnCount : (v : ℕ) (w : Wheel) → IsWheel w → OwnCount v w (unlink v w)
unlink-OwnCount v w i = record {
  running = (unlink-running v w).0;
  live = λ l. (unlink-running v w).1 ∙ l;
  counted = unlink-IsCounted v w i;
  rest = ap linked (unlink-unlinked v (unlink v w) (unlink-slot v w));
}

arm-OwnCount : (v delay : ℕ) (w : Wheel) → IsWheel w → OwnCount v w (arm v delay w)
arm-OwnCount v delay w i =
    let (j, _, slot, _, _, runs, runner) = arm-linked v delay w in
    let off = unlink-linked v (arm v delay w) j (arm-IsWheel v delay w i) slot in
    let on = arm-count v w delay in
    record {
      running = runs ∙ (unlink-running v w).0;
      live = λ l. ground (arith, runner, unlink-running v w);
      counted = arm-IsCounted v w delay i;
      rest = omega (arith, off.0, on);
    }

run_calls-OwnCount :
    (v tick : ℕ) (cs : List Call) (w : Wheel)
    → IsWheel w
    → IsOwn tick v cs
    → OwnCount v w (run_calls cs w) × IsWheel (run_calls cs w)
unfolding run_calls run_call cancel
run_calls-OwnCount v tick [] w i own =
    (record { running = refl; live = λ l. l; counted = λ c. c; rest = refl }, i)
run_calls-OwnCount v tick (arm_call x delay ∷ cs) w i (e, fits, own) = rw (← e) (
    let (later, wheel) =
      run_calls-OwnCount v tick cs (arm v delay w) (arm-IsWheel v delay w i) own in
    (OwnCount-trans (arm-OwnCount v delay w i) later, wheel))
run_calls-OwnCount v tick (cancel_call x ∷ cs) w i (e, own) = rw (← e) (
    let (later, wheel) = run_calls-OwnCount v tick cs (unlink v w) (unlink-IsWheel v w i) own in
    (OwnCount-trans (unlink-OwnCount v w i) later, wheel))

-- What a tick keeps: whether the wheel runs, its runner and its count; and no more nodes are linked.
pub record Steady (w u : Wheel) : Type 0 where
  pub running : u.running ≡ w.running
  pub live : w.runner_live ≡ true → u.runner_live ≡ true
  pub counted : IsCounted w → IsCounted u
  pub fewer : linked u ≤ linked w

pub Steady-refl : (w : Wheel) → Steady w w
Steady-refl w = record { running = refl; live = λ l. l; counted = λ c. c; fewer = omega arith }

pub Steady-trans : {w u t : Wheel} → Steady w u → Steady u t → Steady w t
Steady-trans a b = record {
  running = b.running ∙ a.running;
  live = λ l. b.live (a.live l);
  counted = λ c. b.counted (a.counted c);
  fewer = omega (arith, a.fewer, b.fewer);
}

pub one_round_less-Steady : (v : ℕ) (w : Wheel) → Steady w (one_round_less v w)
unfolding one_round_less
one_round_less-Steady v w = record {
  running = refl;
  live = λ l. l;
  counted = λ c. c;
  fewer = omega arith;
}

pub turn_cursor-Steady : (w : Wheel) → Steady w (turn_cursor w)
unfolding turn_cursor
turn_cursor-Steady w = record {
  running = refl;
  live = λ l. l;
  counted = λ c. c;
  fewer = omega arith;
}

-- A node that expires is taken off, and linked again by its own calls at most.
pub fired-Steady :
    (v c tick : ℕ) (cs : List Call) (w : Wheel)
    → IsWheel w
    → (w.nodes v).slot ≡ some c
    → IsOwn tick v cs
    → Steady w (run_calls cs (unlink v w))
fired-Steady v c tick cs w i s own =
    let off = unlink-linked v w c i s in
    let first = unlink-OwnCount v w i in
    let (later, wheel) = run_calls-OwnCount v tick cs (unlink v w) (unlink-IsWheel v w i) own in
    let whole = OwnCount-trans first later in
    let u = run_calls cs (unlink v w) in
    record {
      running = whole.running;
      live = whole.live;
      counted = whole.counted;
      fewer = elim (Option-cases (u.nodes v).slot) [
        | inl e ↦
            let same = ap linked (unlink-unlinked v u e) in omega (arith, same, whole.rest, off.0)
        | inr (k, e) ↦
            let again = unlink-linked v u k wheel e in omega (arith, again.0, whole.rest, off.0)
      ];
    }

pub armed-positive :
    (v k : ℕ) (w : Wheel)
    → IsWheel w
    → IsCounted w
    → linked w < 2 ^ 32
    → (w.nodes v).slot ≡ some k
    → 0 < w.armed
armed-positive v k w i c small e =
    let some_there = linked_in-positive 512 k v w.slots (i.slot_below v k e) (i.in_chain v k e) in
    omega (arith, some_there, c)

linked_in-nothing : (n : ℕ) → linked_in n (λ k. []) ≡ 0
unfolding linked_in
linked_in-nothing zero = refl
linked_in-nothing (suc n) = omega (arith, linked_in-nothing n)

-- A new wheel counts no node.
pub make-IsCounted : (tick : ℕ) (nodes : ℕ → Node) → IsCounted (make tick nodes)
unfolding make
make-IsCounted tick nodes = omega (arith, linked_in-nothing 512)
