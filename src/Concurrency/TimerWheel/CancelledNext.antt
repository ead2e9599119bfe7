-- ===== src/Concurrency/TimerWheel/CancelledNext.antt =====
-- A callback that cancels the node behind its own in the chain.
use cornet.Base.{
  ℕ, suc, ◌+◌, ◌%◌, ◌≡◌, ◌≢◌, refl, sym, ap, ◌∙◌, true, ==_iff, Option-cases, subst, inl, inr, none,
  some, List, [], ◌∷◌, arith,
}
use cornet.Base.Members.{Has, Distinct, remove, remove-head}
use cornet.Concurrency.TimerWheel.{
  Wheel, Call, cancel_call, unlink, unlink_from, cancel, turn_cursor, run_call, run_calls, head_of,
  after, next_of, next_from, visit, walk, add_fired, advance,
}
use cornet.Concurrency.TimerWheel.Chains.{IsWheel, unlink-slot, unlink-others}
use cornet.Concurrency.TimerWheel.Advance.{visit-fires}

module _ (v : ℕ) (w : Wheel) where
  unlink-at : (c : ℕ) → (w.nodes v).slot ≡ some c → (unlink v w).slots c ≡ remove v (w.slots c)
  unfolding unlink unlink_from
  unlink-at c s = rw s (ground arith)

  unlink-rounds : ((unlink v w).nodes v).rounds ≡ (w.nodes v).rounds
  unfolding unlink unlink_from
  unlink-rounds = elim (Option-cases (w.nodes v).slot) [
    | inl s ↦ rw s refl
    | inr (k, s) ↦ rw s (ground arith)
  ]

  unlink-none : (w.nodes v).slot ≡ none → unlink v w ≡ w
  unfolding unlink unlink_from
  unlink-none s = rw s refl

  next_of-none : (w.nodes v).slot ≡ none → next_of v w ≡ none
  unfolding next_of next_from
  next_of-none s = rw s refl

  next_of-front :
      (c x : ℕ) (post : List ℕ)
      → (w.nodes v).slot ≡ some c
      → w.slots c ≡ v ∷ x ∷ post
      → next_of v w ≡ some x
  unfolding next_of next_from after head_of
  next_of-front c x post s e = rw (s, e, (==_iff v v).1 refl) refl

cancelling : (x : ℕ) (w : Wheel) → run_calls (cancel_call x ∷ []) w ≡ unlink x w
unfolding run_calls run_call cancel
cancelling x w = refl

no_calls : (w : Wheel) → run_calls [] w ≡ w
unfolding run_calls
no_calls w = refl

module _ (on_expire : ℕ → List Call) where
  walk-some :
      (fuel v : ℕ) (w t : Wheel)
      → visit on_expire v w ≡ (t, true)
      → walk on_expire (suc fuel) (some v) w
        ≡ add_fired v true (walk on_expire fuel (next_of v w) t)
  unfolding walk
  walk-some fuel v w t e = rw e refl

  walk-none : (fuel : ℕ) (w : Wheel) → walk on_expire fuel none w ≡ some (w, [])
  unfolding walk
  walk-none fuel w = refl

module _ (on_expire : ℕ → List Call) (v x c : ℕ) (post : List ℕ) (t : Wheel) (differ : v ≢ x)
    (sv : (t.nodes v).slot ≡ some c) (sx : (t.nodes x).slot ≡ some c)
    (chain : t.slots c ≡ v ∷ x ∷ post) where
  abbrev cancelled : Wheel
  cancelled = unlink x (unlink v t)

  cancelled-chain : cancelled.slots c ≡ post
  cancelled-chain =
      unlink-at x (unlink v t) c (ap (λ n. n.slot) (unlink-others v t x differ) ∙ sx)
      ∙ ap (remove x) (unlink-at v t c sv ∙ ap (remove v) chain ∙ remove-head v (x ∷ post))
      ∙ remove-head x post

  module _ (rv : (t.nodes v).rounds ≡ 0) (rx : (t.nodes x).rounds ≡ 0)
      (cv : on_expire v ≡ cancel_call x ∷ []) (cx : on_expire x ≡ []) where
    rounds_left : (cancelled.nodes x).rounds ≡ 0
    rounds_left =
        unlink-rounds x (unlink v t) ∙ ap (λ n. n.rounds) (unlink-others v t x differ) ∙ rx

    first : visit on_expire v t ≡ (cancelled, true)
    first =
        visit-fires on_expire v t rv
        ∙ ap (λ (cs : List Call). (run_calls cs (unlink v t), true)) cv
        ∙ ap (λ (u : Wheel). (u, true)) (cancelling x (unlink v t))

    second : visit on_expire x cancelled ≡ (cancelled, true)
    second =
        visit-fires on_expire x cancelled rounds_left
        ∙ ap (λ (cs : List Call). (run_calls cs (unlink x cancelled), true)) cx
        ∙ ap (λ (u : Wheel). (u, true))
            (no_calls (unlink x cancelled) ∙ unlink-none x cancelled (unlink-slot x (unlink v t)))

    both : walk on_expire 2 (some v) t ≡ some (cancelled, v ∷ x ∷ [])
    unfolding add_fired
    both =
        walk-some on_expire 1 v t cancelled first
        ∙ rw
            (
              next_of-front v t c x post sv chain,
              walk-some on_expire 0 x cancelled cancelled second,
              next_of-none x cancelled (unlink-slot x (unlink v t)),
              walk-none on_expire 0 cancelled,
            )
            refl

-- Where the first two nodes of the chain that the cursor reaches have no rounds left, the callback
-- of the first cancels the second, and the second's callback makes no call: the second, which is
-- cancelled, still expires, and the walk ends there, with the nodes behind it left in the chain,
-- due or not.
pub advance-cancelled_next :
    (on_expire : ℕ → List Call) (v x : ℕ) (post : List ℕ) (w : Wheel)
    → IsWheel w
    → w.slots ((w.cursor + 1) % 512) ≡ v ∷ x ∷ post
    → (w.nodes v).rounds ≡ 0
    → (w.nodes x).rounds ≡ 0
    → on_expire v ≡ cancel_call x ∷ []
    → on_expire x ≡ []
    → (u : Wheel) × (advance on_expire 2 w ≡ some (u, v ∷ x ∷ []))
      × (u.slots ((w.cursor + 1) % 512) ≡ post)
unfolding advance head_of turn_cursor
advance-cancelled_next on_expire v x post w i e rv rx cv cx =
    let c = (w.cursor + 1) % 512 in
    let d = subst Distinct e (i.distinct c) in
    let differ : v ≢ x = λ p. d.0 (inl p) in
    let sv = i.in_slot v c (subst (Has v) (sym e) (inl refl)) in
    let sx = i.in_slot x c (subst (Has x) (sym e) (inr (inl refl))) in
    (
      cancelled on_expire v x c post (turn_cursor w) differ sv sx e,
      rw e (both on_expire v x c post (turn_cursor w) differ sv sx e rv rx cv cx),
      cancelled-chain on_expire v x c post (turn_cursor w) differ sv sx e,
    )
