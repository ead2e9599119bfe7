-- ===== src/Concurrency/TimerWheel/Sequence.antt =====
-- Calls of arm and cancel in any order, against a map from nodes to the ticks left.
use cornet.Base.{
  ℕ, ◌≡◌, refl, ap₂, ◌∙◌, inl, inr, if◌then◌else◌, ◌==◌, ==_iff, Bool-cases, Option, none, some,
  List, [], ◌∷◌, subst,
}
use cornet.Concurrency.TimerWheel.{
  Wheel, Call, arm_call, cancel_call, ticks_of, arm, cancel, run_call, run_calls,
}
use cornet.Concurrency.TimerWheel.Chains.{IsWheel}
use cornet.Concurrency.TimerWheel.Calls.{
  due, due_from, Fits, OnlyAt, arm-OnlyAt, cancel-OnlyAt, due-arm, due-cancel,
}

-- The ticks left to `x` after the calls `cs`, from the ticks left before.
abbrev pub left_of : ℕ → ℕ → List Call → Option ℕ → Option ℕ
left_of x tick [] left = left
left_of x tick (arm_call v delay ∷ cs) left =
    left_of x tick cs (if v == x then some (ticks_of tick delay) else left)
left_of x tick (cancel_call v ∷ cs) left = left_of x tick cs (if v == x then none else left)

abbrev pub AllFit : ℕ → List Call → Type 0
AllFit tick [] = Unit
AllFit tick (arm_call v delay ∷ cs) = Fits tick delay × AllFit tick cs
AllFit tick (cancel_call v ∷ cs) = AllFit tick cs

-- A call sets the ticks of its own node and leaves the others'.
due-OnlyAt :
    (v x : ℕ) (w u : Wheel) (left : Option ℕ)
    → OnlyAt v w u
    → due v u ≡ left
    → due x u ≡ (if v == x then left else due x w)
due-OnlyAt v x w u left only e = elim (Bool-cases (v == x)) [
  | inl q ↦ rw q (subst (λ z. due z u ≡ left) ((==_iff v x).0 q) e)
  | inr q ↦ rw q (
      ap₂ (λ c n. due_from c n.rounds n.slot) only.cursor
        (only.others x (λ p. cc (q, (==_iff v x).1 p))))
]

-- From a well-formed wheel, every sequence of calls of arm and cancel, on any nodes and with delays
-- that fit, keeps the wheel well-formed, and the ticks left to every node are those of the map in
-- which arm writes the delay in whole ticks and cancel erases the entry.
pub run_calls-Refines :
    (cs : List Call) (w : Wheel)
    → IsWheel w
    → AllFit w.tick cs
    → IsWheel (run_calls cs w)
      × ((run_calls cs w).tick ≡ w.tick)
      × ((x : ℕ) → due x (run_calls cs w) ≡ left_of x w.tick cs (due x w))
unfolding run_calls run_call
run_calls-Refines [] w i fits = (i, refl, λ x. refl)
run_calls-Refines (arm_call v delay ∷ cs) w i fits =
    let only = arm-OnlyAt v delay w i in
    let rest = run_calls-Refines cs (arm v delay w) only.wheel (rw only.tick fits.1) in
    (
      rest.0,
      rest.1 ∙ only.tick,
      λ x.
          rest.2 x
          ∙ ap₂ (λ t d. left_of x t cs d) only.tick
              (due-OnlyAt v x w (arm v delay w) _ only (due-arm v delay w i fits.0)),
    )
run_calls-Refines (cancel_call v ∷ cs) w i fits =
    let only = cancel-OnlyAt v w i in
    let rest = run_calls-Refines cs (cancel v w) only.wheel (rw only.tick fits) in
    (
      rest.0,
      rest.1 ∙ only.tick,
      λ x.
          rest.2 x
          ∙ ap₂ (λ t d. left_of x t cs d) only.tick
              (due-OnlyAt v x w (cancel v w) none only (due-cancel v w)),
    )
