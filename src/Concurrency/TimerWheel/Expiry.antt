-- ===== src/Concurrency/TimerWheel/Expiry.antt =====
-- One tick: which nodes expire, and the ticks left to every node after it.
use cornet.Base.{
  ℕ, zero, suc, ◌+◌, ◌-◌, ◌%◌, ◌<◌, ◌≤◌, ◌≡◌, ◌≢◌, ◌⊎◌, ◌↔◌, refl, sym, ap, ap₂, subst, ◌∙◌, inl,
  inr, ltb, lt→ltb, ge→ltb, le_or_lt, ◌==◌, ==_iff, Bool-cases, Option-cases, length, Option, none,
  some, List, [], ◌∷◌, arith,
}
use cornet.Base.Members.{Has, Distinct}
use cornet.Concurrency.TimerWheel.{Node, Wheel, Call, turn_cursor, advance}
use cornet.Concurrency.TimerWheel.Chains.{IsWheel, some_inj}
use cornet.Concurrency.TimerWheel.Calls.{due, due_from, left_at, IsOwn, left_after}
use cornet.Concurrency.TimerWheel.Counted.{Steady, Steady-trans, turn_cursor-Steady}
use cornet.Concurrency.TimerWheel.Advance.{expiring, Walked, walk-Walked}

-- The ticks left to one node after a tick, when its callback makes the calls `cs`.
abbrev pub tick_down : ℕ → List Call → Option ℕ → Option ℕ
tick_down tick cs none = none
tick_down tick cs (some zero) = none
tick_down tick cs (some (suc zero)) = left_after tick cs none
tick_down tick cs (some (suc (suc n))) = some (suc n)

module _ (nodes : ℕ → Node) where
  Has-expiring :
      (x : ℕ) (vs : List ℕ) → Has x (expiring nodes vs) ↔ (Has x vs × ((nodes x).rounds ≡ 0))
  Has-expiring x [] = ((λ h. absurd h), λ h. absurd h.0)
  Has-expiring x (v ∷ vs) = elim (le_or_lt (nodes v).rounds 0) [
    | inl h ↦ rw (ge→ltb 0 (nodes v).rounds h) (
      (λ k. elim k [
        | inl q ↦ (inl q, ap (λ y. (nodes y).rounds) q ∙ omega arith)
        | inr t ↦ let m = (Has-expiring x vs).0 t in (inr m.0, m.1)
      ]),
      λ k. elim k.0 [ inl q ↦ inl q | inr t ↦ inr ((Has-expiring x vs).1 (t, k.1)) ],
    )
    | inr h ↦ rw (lt→ltb 0 (nodes v).rounds h) (
      (λ k. let m = (Has-expiring x vs).0 k in (inr m.0, m.1)),
      λ k. elim k.0 [
        | inl q ↦
            let zero_rounds : (nodes v).rounds ≡ 0 = ap (λ y. (nodes y).rounds) (sym q) ∙ k.1 in
            absurd (omega arith)
        | inr t ↦ (Has-expiring x vs).1 (t, k.1)
      ],
    )
  ]

  expiring-Distinct : (vs : List ℕ) → Distinct vs → Distinct (expiring nodes vs)
  expiring-Distinct [] d = d
  expiring-Distinct (v ∷ vs) d = elim (Bool-cases (ltb 0 (nodes v).rounds)) [
    | inl e ↦ rw e (expiring-Distinct vs d.1)
    | inr e ↦ rw e ((λ h. d.0 ((Has-expiring v vs).0 h).0), expiring-Distinct vs d.1)
  ]

-- Slots and rounds against the cursor that has moved on.
left_at-here :
    (c r k : ℕ) → c < 512 → k < 512 → (left_at c r k ≡ 1) ↔ ((k ≡ (c + 1) % 512) × (r ≡ 0))
left_at-here c r k hc hk = ((λ e. (omega arith, omega arith)), λ e. here e.0 e.1)
  where
    here : k ≡ (c + 1) % 512 → r ≡ 0 → left_at c r k ≡ 1
    here p q = omega arith

left_at-later :
    (c r : ℕ)
    → c < 512
    → 0 < r
    → left_at c r ((c + 1) % 512) ≡ suc (left_at ((c + 1) % 512) (r - 1) ((c + 1) % 512))
left_at-later c r hc hr = omega arith

left_at-other :
    (c r k : ℕ)
    → c < 512
    → k < 512
    → k ≢ (c + 1) % 512
    → left_at c r k ≡ suc (left_at ((c + 1) % 512) r k)
left_at-other c r k hc hk ne = omega arith

tick_down-later :
    (tick m l : ℕ) (cs : List Call) → l ≡ suc (m + 1) → tick_down tick cs (some l) ≡ some (m + 1)
tick_down-later tick m l cs e =
    let l2 : l ≡ suc (suc m) = omega arith in rw l2 (ap some (omega arith))

turn_cursor-IsWheel : (w : Wheel) → IsWheel w → IsWheel (turn_cursor w)
unfolding turn_cursor
turn_cursor-IsWheel w i = record {
  cursor_below = omega arith;
  tick_positive = i.tick_positive;
  distinct = i.distinct;
  in_slot = i.in_slot;
  in_chain = i.in_chain;
  slot_below = i.slot_below;
}

module _ (on_expire : ℕ → List Call) (w : Wheel) (i : IsWheel w) where
  abbrev next_slot : ℕ
  next_slot = (w.cursor + 1) % 512

  -- A node of the slot that the cursor has reached, and every other node.
  due_here :
      (x : ℕ)
      → (w.nodes x).slot ≡ some next_slot
      → ((due x w ≡ some 1) × ((w.nodes x).rounds ≡ 0))
        ⊎ ((0 < (w.nodes x).rounds)
            × (due x w ≡ some (suc (left_at next_slot ((w.nodes x).rounds - 1) next_slot))))
  due_here x s = elim (le_or_lt (w.nodes x).rounds 0) [
    | inl h ↦
        let z : (w.nodes x).rounds ≡ 0 = omega arith in
        inl (
          rw s (
              ap some (
                (left_at-here w.cursor (w.nodes x).rounds next_slot i.cursor_below (omega arith)).1
                  (refl, z))),
          z,
        )
    | inr h ↦ inr (h, rw s (ap some (left_at-later w.cursor (w.nodes x).rounds i.cursor_below h)))
  ]

  -- Where a node is: not armed, in the slot that the cursor reaches, or in another one.
  place :
      (x : ℕ)
      → ((w.nodes x).slot ≡ none)
        ⊎ (((w.nodes x).slot ≡ some next_slot)
            ⊎ ((j : ℕ) × ((w.nodes x).slot ≡ some j) × (j < 512) × (j ≢ next_slot)))
  place x = elim (Option-cases (w.nodes x).slot) [
    | inl e ↦ inl e
    | inr (j, e) ↦ elim (Bool-cases (j == next_slot)) [
      | inl q ↦ inr (inl (e ∙ ap some ((==_iff j next_slot).0 q)))
      | inr q ↦ inr (inr (j, e, i.slot_below x j e, λ r. cc (q, (==_iff j next_slot).1 r)))
    ]
  ]

  other-outside :
      (x j : ℕ) → (w.nodes x).slot ≡ some j → j ≢ next_slot → ¬ (Has x (w.slots next_slot))
  other-outside x j e ne h = ne (some_inj (sym e ∙ i.in_slot x next_slot h))

  module _ (own : (v : ℕ) → IsOwn w.tick v (on_expire v)) (u : Wheel) (fired : List ℕ)
      (k : Walked on_expire w.tick own (w.slots next_slot) (turn_cursor w) u fired) where
    -- A node that the walk does not reach.
    stays :
        (x : ℕ)
        → ¬ (Has x (w.slots next_slot))
        → due x u ≡ due_from next_slot (w.nodes x).rounds (w.nodes x).slot
    unfolding turn_cursor
    stays x n = ap₂ (λ c m. due_from c m.rounds m.slot) k.cursor (k.outside x n)

    ticked-due : (x : ℕ) → due x u ≡ tick_down w.tick (on_expire x) (due x w)
    unfolding turn_cursor
    ticked-due x = elim (place x) [
      | inl e ↦ stays x (λ h. cc (e, i.in_slot x next_slot h)) ∙ rw e refl
      | inr (inr (j, e, b, ne)) ↦
          stays x (other-outside x j e ne)
          ∙ rw e (
              sym (
                tick_down-later w.tick _ _ (on_expire x)
                  (left_at-other w.cursor (w.nodes x).rounds j i.cursor_below b ne)))
      | inr (inl e) ↦
          let visited = k.inside x (i.in_chain x next_slot e) in
          elim (due_here x e) [
            | inl (d, z) ↦ visited.fires z ∙ rw d refl
            | inr (p, d) ↦
                ap₂ (λ c m. due_from c m.rounds m.slot) k.cursor (visited.waits p)
                ∙ rw e (
                    sym (
                      tick_down-later w.tick _ _ (on_expire x)
                        (left_at-later w.cursor (w.nodes x).rounds i.cursor_below p)))
          ]
    ]

    ticked-fired : (x : ℕ) → Has x fired ↔ (due x w ≡ some 1)
    unfolding turn_cursor
    ticked-fired x = (
      (λ h.
          let m = (Has-expiring w.nodes x (w.slots next_slot)).0 (subst (Has x) k.order h) in
          elim (due_here x (i.in_slot x next_slot m.0)) [
            | inl (d, z) ↦ d
            | inr (p, d) ↦ absurd (omega arith)
          ]),
      λ d.
          subst (Has x) (sym k.order)
            ((Has-expiring w.nodes x (w.slots next_slot)).1 (at_cursor x d)),
    )
      where
        at_cursor :
            (y : ℕ) → due y w ≡ some 1 → Has y (w.slots next_slot) × ((w.nodes y).rounds ≡ 0)
        at_cursor y d = elim (place y) [
          | inl e ↦ absurd (cc (rw e at d))
          | inr (inr (j, e, b, ne)) ↦ absurd (
              ne
                ((left_at-here w.cursor (w.nodes y).rounds j i.cursor_below b).0
                  (some_inj (rw e at d))).0)
          | inr (inl e) ↦ (
            i.in_chain y next_slot e,
            ((left_at-here w.cursor (w.nodes y).rounds next_slot i.cursor_below (omega arith)).0
                (some_inj (rw e at d))).1,
          )
        ]

-- One call of `advance` on a wheel where each callback arms or cancels its own node at most, with
-- fuel for the chain that it walks, returns: the chains stay well-formed, the nodes that expire are
-- those with one tick left, each once, and afterwards the ticks left to a node are one less, none if
-- it was not armed, and what its own callback last asked for if it expired.
pub advance-Ticks :
    (on_expire : ℕ → List Call) (fuel : ℕ) (w : Wheel)
    → IsWheel w
    → ((v : ℕ) → IsOwn w.tick v (on_expire v))
    → length (w.slots ((w.cursor + 1) % 512)) ≤ fuel
    → (u : Wheel) × (fired : List ℕ) × (advance on_expire fuel w ≡ some (u, fired))
      × IsWheel u
      × (u.tick ≡ w.tick)
      × Distinct fired
      × ((x : ℕ) → Has x fired ↔ (due x w ≡ some 1))
      × ((x : ℕ) → due x u ≡ tick_down w.tick (on_expire x) (due x w))
unfolding advance turn_cursor
advance-Ticks on_expire fuel w i own enough =
    let (u, fired, e, k) =
      walk-Walked on_expire w.tick own fuel ((w.cursor + 1) % 512) (w.slots ((w.cursor + 1) % 512))
        (turn_cursor w) enough (turn_cursor-IsWheel w i) refl ([], refl) in
    (
      u,
      fired,
      e,
      k.wheel,
      k.tick_same,
      subst Distinct (sym k.order) (expiring-Distinct w.nodes _ (i.distinct _)),
      ticked-fired on_expire w i own u fired k,
      ticked-due on_expire w i own u fired k,
    )

-- What such a call keeps.
pub advance-Steady :
    (on_expire : ℕ → List Call) (fuel : ℕ) (w u : Wheel) (fired : List ℕ)
    → IsWheel w
    → ((v : ℕ) → IsOwn w.tick v (on_expire v))
    → length (w.slots ((w.cursor + 1) % 512)) ≤ fuel
    → advance on_expire fuel w ≡ some (u, fired)
    → Steady w u
unfolding advance turn_cursor
advance-Steady on_expire fuel w u fired i own enough e =
    let (t, expired, p, k) =
      walk-Walked on_expire w.tick own fuel ((w.cursor + 1) % 512) (w.slots ((w.cursor + 1) % 512))
        (turn_cursor w) enough (turn_cursor-IsWheel w i) refl ([], refl) in
    subst (Steady w)
      (ap (λ (o : Option (Wheel × List ℕ)). elim o [ some r ↦ r.0 | none ↦ w ]) (sym p ∙ e))
      (Steady-trans (turn_cursor-Steady w) k.steady)
