-- ===== src/Concurrency/TimerWheel/Timing.antt =====
-- When a timer expires, over many rounds of the runner.
use cornet.Base.{
  ℕ, zero, suc, ◌+◌, ◌-◌, ◌*◌, ◌%◌, ◌^◌, ◌<◌, ◌≤◌, ◌≡◌, refl, sym, ap, ◌∙◌, subst, length, All,
  some, List, [], ◌∷◌, ◌++◌, arith, true, false, lt→ltb, ◌&&◌, ◌||◌, not, Option-cases, inl, inr,
}
use cornet.Base.Members.{Has}
use cornet.Concurrency.TimerWheel.{Wheel, Call, Round, ticks_of, arm, advance, run_calls, run}
use cornet.Concurrency.TimerWheel.Chains.{IsWheel, some_inj}
use cornet.Concurrency.TimerWheel.Calls.{
  due, IsOwn, Fits, arm-IsWheel, arm-cursor, arm-linked, due-arm, ticks_of-Rounds,
}
use cornet.Concurrency.TimerWheel.Counted.{
  linked, IsCounted, arm-IsCounted, unlink-running, armed-positive,
}
use cornet.Concurrency.TimerWheel.Expiry.{advance-Ticks, advance-Steady, tick_down}

-- `x` expires in the last of the ticks and in none before it.
abbrev pub ExpiresLast : ℕ → List (List ℕ) → Type 0
ExpiresLast x fired =
    (early : List (List ℕ)) × (last : List ℕ) × (fired ≡ early ++ last ∷ [])
    × All (λ f. ¬ (Has x f)) early
    × Has x last

-- Rounds in which the context runs, `sleep` succeeds and nobody else touches the wheel.
abbrev pub undisturbed : ℕ → List Round
undisturbed zero = []
undisturbed (suc n) =
    record { context_runs = true; slept = true; meanwhile = []; stopped = false } ∷ undisturbed n

-- A wheel that runs and whose count is right and has not wrapped.
pub record IsTicking (w : Wheel) : Type 0 where
  pub wheel : IsWheel w
  pub counted : IsCounted w
  pub count_fits : linked w < 2 ^ 32
  pub runs : w.running ≡ true

due-linked : (x n : ℕ) (w : Wheel) → due x w ≡ some n → (k : ℕ) × ((w.nodes x).slot ≡ some k)
due-linked x n w d = elim (Option-cases (w.nodes x).slot) [
  | inl e ↦ absurd (cc (rw e at d))
  | inr (k, e) ↦ (k, e)
]

module _ (on_expire : ℕ → List Call) where
  run-suc :
      (n : ℕ) (w u t : Wheel) (fired : List ℕ) (later : List (List ℕ))
      → 0 < w.armed
      → w.running ≡ true
      → advance on_expire (length (w.slots ((w.cursor + 1) % 512))) w ≡ some (u, fired)
      → run on_expire (undisturbed n) u ≡ some (t, later)
      → run on_expire (undisturbed (suc n)) w ≡ some (t, fired ∷ later)
  unfolding run run_calls
  run-suc n w u t fired later some_armed runs e q =
      simp (run, lt→ltb 0 w.armed some_armed, runs, ◌&&◌, ◌||◌, not, e, q)

  run-nil : (w : Wheel) → run on_expire [] w ≡ some (w, [])
  unfolding run
  run-nil w = refl

  due-ExpiresLast :
      (x n : ℕ) (w : Wheel)
      → IsTicking w
      → ((v : ℕ) → IsOwn w.tick v (on_expire v))
      → due x w ≡ some (suc n)
      → (u : Wheel) × (fired : List (List ℕ)) × (run on_expire (undisturbed (suc n)) w
          ≡ some (u, fired))
        × (length fired ≡ suc n)
        × ExpiresLast x fired
  due-ExpiresLast x zero w i own d =
      let (u, fired, e, j, t, distinct, expired, left) =
        advance-Ticks on_expire (length (w.slots ((w.cursor + 1) % 512))) w i.wheel own
          (omega arith) in
      let (k, there) = due-linked x 1 w d in
      let up = armed-positive x k w i.wheel i.counted i.count_fits there in
      (
        u,
        fired ∷ [],
        run-suc 0 w u u fired [] up i.runs e (run-nil u),
        refl,
        ([], fired, refl, tt, (expired x).1 d),
      )
  due-ExpiresLast x (suc n) w i own d =
      let (u, fired, e, j, t, distinct, expired, left) =
        advance-Ticks on_expire (length (w.slots ((w.cursor + 1) % 512))) w i.wheel own
          (omega arith) in
      let s =
        advance-Steady on_expire (length (w.slots ((w.cursor + 1) % 512))) w u fired i.wheel own
          (omega arith) e in
      let ticking : IsTicking u = record {
        wheel = j;
        counted = s.counted i.counted;
        count_fits = omega (arith, s.fewer, i.count_fits);
        runs = s.running ∙ i.runs;
      } in
      let (y, later, q, l, (early, last, p, never, hit)) =
        due-ExpiresLast x n u ticking (rw t own) (left x ∙ ap (tick_down w.tick (on_expire x)) d) in
      let (k, there) = due-linked x (suc (suc n)) w d in
      let up = armed-positive x k w i.wheel i.counted i.count_fits there in
      (
        y,
        fired ∷ later,
        run-suc (suc n) w u y fired later up i.runs e q,
        ap suc l,
        (
          fired ∷ early,
          last,
          ap (◌∷◌ fired) p,
          ((λ h. absurd (two_left n (sym d ∙ (expired x).0 h))), never),
          hit,
        ),
      )
    where
      two_left : (m : ℕ) → some (suc (suc m)) ≡ some 1 → ⊥
      two_left m e = let q : suc (suc m) ≡ 1 = some_inj e in omega arith

  -- On a wheel that is not stopped, where each callback arms or cancels its own node at most and fewer
  -- than 2 ^ 32 nodes are armed, a node armed with a delay that fits has a runner; and while the
  -- context runs, `sleep` succeeds and nobody else calls the wheel, the runner goes on until the
  -- tick whose number is the delay in whole ticks, rounded up and at least one, and the node expires
  -- in that tick and in none before: the ticks up to it take no less than the delay, and less than
  -- one tick more unless the delay is 0.
  pub arm-ExpiresLast :
      (v delay : ℕ) (w : Wheel)
      → IsWheel w
      → IsCounted w
      → w.running ≡ true
      → linked (arm v delay w) < 2 ^ 32
      → ((x : ℕ) → IsOwn w.tick x (on_expire x))
      → Fits w.tick delay
      → ((arm v delay w).runner_live ≡ true)
        × ((u : Wheel) × (fired : List (List ℕ)) × (run on_expire
                (undisturbed (ticks_of w.tick delay))
                (arm v delay w)
              ≡ some (u, fired))
            × (length fired ≡ ticks_of w.tick delay)
            × ExpiresLast v fired
            × (delay ≤ length fired * w.tick)
            × (0 < delay → length fired * w.tick < delay + w.tick))
  arm-ExpiresLast v delay w i counted runs few own fits =
      let r = ticks_of-Rounds w.tick delay i.tick_positive in
      let less : ticks_of w.tick delay ≡ suc (ticks_of w.tick delay - 1) = omega (arith, r.0) in
      let (_, _, _, _, _, same_running, runner) = arm-linked v delay w in
      let (kept, _) = unlink-running v w in
      let ticking : IsTicking (arm v delay w) = record {
        wheel = arm-IsWheel v delay w i;
        counted = arm-IsCounted v w delay i counted;
        count_fits = few;
        runs = same_running ∙ kept ∙ runs;
      } in
      let (u, fired, e, l, hit) =
        due-ExpiresLast v (ticks_of w.tick delay - 1) (arm v delay w) ticking
          (rw ((arm-cursor v delay w).1) own) (due-arm v delay w i fits ∙ ap some less) in
      (
        ground (arith, runner, kept, runs),
        (
          u,
          fired,
          ap (λ n. run on_expire (undisturbed n) (arm v delay w)) less ∙ e,
          l ∙ sym less,
          hit,
          subst (λ n. delay ≤ n * w.tick) (sym (l ∙ sym less)) r.1,
          subst (λ n. 0 < delay → n * w.tick < delay + w.tick) (sym (l ∙ sym less)) r.2,
        ),
      )
