-- ===== src/Concurrency/TimerWheel/Advance.antt =====
-- The walk over the chain of one slot: what it does to the nodes of the chain, and to no others.
use cornet.Base.{
  ℕ, zero, suc, ◌-◌, ◌<◌, ◌≤◌, ◌≡◌, ◌≢◌, refl, sym, ap, ap₂, subst, ◌∙◌, inl, inr, Bool, true,
  false, if◌then◌else◌, ltb, lt→ltb, ge→ltb, le_or_lt, not, length, none, some, List, [], ◌∷◌, ◌++◌,
  arith, append_assoc,
}
use cornet.Base.Members.{Has, Distinct}
use cornet.Concurrency.TimerWheel.{
  Node, Wheel, Call, unlink, one_round_less, run_calls, head_of, next_of, next_from, visit, walk,
  add_fired,
}
use cornet.Concurrency.TimerWheel.Chains.{IsWheel, unlink-slot}
use cornet.Concurrency.TimerWheel.Calls.{
  due, due_from, IsOwn, left_after, OnlyAt, OnlyAt-trans, unlink-OnlyAt, run_calls-Own,
}
use cornet.Concurrency.TimerWheel.Counted.{
  Steady, Steady-refl, Steady-trans, one_round_less-Steady, fired-Steady,
}
use cornet.Concurrency.TimerWheel.Tails.{
  EndsWith, after-middle, Has-append_right, unlink-middle, run_calls-EndsWith,
}

-- The nodes of a chain that expire in this tick, in its order.
abbrev pub expiring : (ℕ → Node) → List ℕ → List ℕ
expiring nodes [] = []
expiring nodes (v ∷ vs) =
    if ltb 0 (nodes v).rounds then expiring nodes vs else v ∷ expiring nodes vs

expiring-same :
    (f g : ℕ → Node) (vs : List ℕ)
    → ((v : ℕ) → Has v vs → f v ≡ g v)
    → expiring f vs ≡ expiring g vs
expiring-same f g [] h = refl
expiring-same f g (v ∷ vs) h = rw (h v (inl refl), expiring-same f g vs (λ x k. h x (inr k))) refl

-- Members behind the middle of a list, and distinctness there.
Distinct-right : (pre post : List ℕ) → Distinct (pre ++ post) → Distinct post
Distinct-right [] post d = d
Distinct-right (x ∷ pre) post d = Distinct-right pre post d.1

-- `--node->rounds` keeps the chains.
one_round_less-OnlyAt : (v : ℕ) (w : Wheel) → IsWheel w → OnlyAt v w (one_round_less v w)
unfolding one_round_less
one_round_less-OnlyAt v w i = record {
  wheel = record {
    cursor_below = i.cursor_below;
    tick_positive = i.tick_positive;
    distinct = i.distinct;
    in_slot = λ x k h. slot_same x ∙ i.in_slot x k h;
    in_chain = λ x k e. i.in_chain x k (sym (slot_same x) ∙ e);
    slot_below = λ x k e. i.slot_below x k (sym (slot_same x) ∙ e);
  };
  others = λ x ne. ground arith;
  cursor = refl;
  tick = refl;
}
  where
    slot_same : (x : ℕ) → ((one_round_less v w).nodes x).slot ≡ (w.nodes x).slot
    slot_same x = ground arith

one_round_less-node :
    (v : ℕ) (w : Wheel)
    → (one_round_less v w).nodes v ≡ record (w.nodes v) { rounds = (w.nodes v).rounds - 1 }
unfolding one_round_less
one_round_less-node v w = ground arith

module _ (on_expire : ℕ → List Call) (v : ℕ) (w : Wheel) where
  visit-waits : 0 < (w.nodes v).rounds → visit on_expire v w ≡ (one_round_less v w, false)
  unfolding visit
  visit-waits h = rw (lt→ltb 0 (w.nodes v).rounds h) refl

  pub visit-fires :
      (w.nodes v).rounds ≡ 0 → visit on_expire v w ≡ (run_calls (on_expire v) (unlink v w), true)
  unfolding visit
  visit-fires h = rw (ge→ltb 0 (w.nodes v).rounds (omega arith)) refl

module _ (on_expire : ℕ → List Call) (tick : ℕ) (own : (v : ℕ) → IsOwn tick v (on_expire v)) where
  -- What the walk does to one node of the part of the chain that it visits.
  pub record Visited (v : ℕ) (w u : Wheel) : Type 0 where
    pub waits :
        0 < (w.nodes v).rounds → u.nodes v ≡ record (w.nodes v) { rounds = (w.nodes v).rounds - 1 }
    pub fires : (w.nodes v).rounds ≡ 0 → due v u ≡ left_after tick (on_expire v) none

  module _ (v c : ℕ) (w : Wheel) (post : List ℕ) (i : IsWheel w) (e : w.tick ≡ tick) where
    fired-Own :
        OnlyAt v w (run_calls (on_expire v) (unlink v w))
        × (due v (run_calls (on_expire v) (unlink v w)) ≡ left_after tick (on_expire v) none)
    fired-Own =
        let first = unlink-OnlyAt v w i in
        let rest =
          run_calls-Own v (on_expire v) (unlink v w) first.wheel (rw (first.tick, e) (own v)) in
        (
          OnlyAt-trans v first rest.0,
          rest.1
              ∙ ap₂ (λ t d. left_after t (on_expire v) d) (first.tick ∙ e)
                  (ap (due_from (unlink v w).cursor ((unlink v w).nodes v).rounds)
                    (unlink-slot v w)),
        )

    visit-Visited :
        ¬ (Has v post)
        → EndsWith (v ∷ post) (w.slots c)
        → (w.nodes v).slot ≡ some c
        → let u = (visit on_expire v w).0 in
          OnlyAt v w u
          × Visited v w u
          × Steady w u
          × EndsWith post (u.slots c)
          × ((visit on_expire v w).1 ≡ not (ltb 0 (w.nodes v).rounds))
    visit-Visited n (pre, p) s = elim (le_or_lt (w.nodes v).rounds 0) [
      | inl h ↦ rw (visit-fires on_expire v w (omega arith)) (
        fired-Own.0,
        record { waits = λ g. absurd (omega arith); fires = λ z. fired-Own.1 },
        fired-Steady v c tick (on_expire v) w i s (own v),
        run_calls-EndsWith v c post tick (on_expire v) (unlink v w) (own v) n
            (unlink-middle v c post w s (pre, p)),
        sym (ap not (ge→ltb 0 (w.nodes v).rounds h)),
      )
      | inr h ↦ rw (visit-waits on_expire v w h) (
        one_round_less-OnlyAt v w i,
        record { waits = λ g. one_round_less-node v w; fires = λ z. absurd (omega arith) },
        one_round_less-Steady v w,
        (pre ++ v ∷ [], unfold one_round_less in p ∙ sym (append_assoc pre (v ∷ []) post)),
        sym (ap not (lt→ltb 0 (w.nodes v).rounds h)),
      )
    ]

  -- The walk over the rest `post` of the chain of slot `c`.
  pub record Walked (post : List ℕ) (w u : Wheel) (fired : List ℕ) : Type 0 where
    pub wheel : IsWheel u
    pub cursor : u.cursor ≡ w.cursor
    pub tick_same : u.tick ≡ tick
    pub steady : Steady w u
    pub order : fired ≡ expiring w.nodes post
    pub outside : (x : ℕ) → ¬ (Has x post) → u.nodes x ≡ w.nodes x
    pub inside : (x : ℕ) → Has x post → Visited x w u

  -- The visit of `v` in front of the walk over the rest.
  Walked-cons :
      (v : ℕ) (post : List ℕ) (w t u : Wheel) (expired : Bool) (fired : List ℕ)
      → ¬ (Has v post)
      → OnlyAt v w t
      → Visited v w t
      → Steady w t
      → expired ≡ not (ltb 0 (w.nodes v).rounds)
      → Walked post t u fired
      → Walked (v ∷ post) w u (if expired then v ∷ fired else fired)
  Walked-cons v post w t u expired fired n only here held x rest = record {
    wheel = rest.wheel;
    cursor = rest.cursor ∙ only.cursor;
    tick_same = rest.tick_same;
    steady = Steady-trans held rest.steady;
    order =
        rw (x, rest.order, expiring-same t.nodes w.nodes post (λ y h. only.others y (away y h)))
          (ground arith);
    outside = λ y m. rest.outside y (λ h. m (inr h)) ∙ only.others y (λ q. m (inl (sym q)));
    inside = λ y h. elim h [
      | inl q ↦
          subst (λ z. Visited z w u) (sym q)
            (record {
              waits = λ g. rest.outside v n ∙ here.waits g;
              fires = λ z.
                  ap₂ (λ k m. due_from k m.rounds m.slot) rest.cursor (rest.outside v n)
                  ∙ here.fires z;
            })
      | inr k ↦
          let same = only.others y (away y k) in
          let there = rest.inside y k in
          record {
            waits = λ g. rw (← same) (there.waits (rw same g));
            fires = λ z. there.fires (ap (λ m. m.rounds) same ∙ z);
          }
    ];
  }
    where
      away : (y : ℕ) → Has y post → v ≢ y
      away y h q = n (subst (λ z. Has z post) (sym q) h)

  next_of-middle :
      (v c : ℕ) (post : List ℕ) (w : Wheel)
      → IsWheel w
      → EndsWith (v ∷ post) (w.slots c)
      → (w.nodes v).slot ≡ some c
      → next_of v w ≡ head_of post
  unfolding next_of next_from
  next_of-middle v c post w i (pre, p) s =
      rw (s, p) (after-middle v pre post (subst Distinct p (i.distinct c)))

  pub walk-Walked :
      (fuel c : ℕ) (post : List ℕ) (w : Wheel)
      → length post ≤ fuel
      → IsWheel w
      → w.tick ≡ tick
      → EndsWith post (w.slots c)
      → (u : Wheel) × (fired : List ℕ) × (walk on_expire fuel (head_of post) w ≡ some (u, fired))
        × Walked post w u fired
  unfolding walk head_of add_fired
  walk-Walked fuel c [] w enough i e h = (
    w,
    [],
    refl,
    record {
      wheel = i;
      cursor = refl;
      tick_same = e;
      steady = Steady-refl w;
      order = refl;
      outside = λ x n. refl;
      inside = λ x k. absurd k;
    },
  )
  walk-Walked zero c (v ∷ post) w enough i e h = absurd (omega arith)
  walk-Walked (suc fuel) c (v ∷ post) w enough i e (pre, p) =
      let d = Distinct-right pre (v ∷ post) (subst Distinct p (i.distinct c)) in
      let s =
        i.in_slot v c (subst (Has v) (sym p) (Has-append_right v pre (v ∷ post) (inl refl))) in
      let (only, here, held, tail, expired) = visit-Visited v c w post i e d.0 (pre, p) s in
      let (u, fired, q, rest) =
        walk-Walked fuel c post (visit on_expire v w).0 (omega arith) only.wheel (only.tick ∙ e)
          tail in
      (
        u,
        _,
        rw (next_of-middle v c post w i (pre, p) s, q) refl,
        Walked-cons v post w (visit on_expire v w).0 u (visit on_expire v w).1 fired d.0 only here
            held expired rest,
      )
