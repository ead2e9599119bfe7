-- ===== src/Concurrency/Semaphore/Accounts.antt =====
-- The books of the semaphore: every permit is free, granted to a suspended awaiter, or with a caller.
use cornet.Base.{
  ℕ, zero, suc, ◌+◌, ◌-◌, ◌^◌, ◌<◌, ◌≤◌, ◌≡◌, ◌≢◌, ◌⊎◌, refl, sym, subst, ap, ap₂, ◌∙◌, inl, inr,
  true, false, not, ◌||◌, if◌then◌else◌, ltb, leb, ◌==◌, ==_iff, List, [], ◌∷◌, ◌++◌, length,
  Bool-cases, if-elim, arith,
}
use cornet.Base.Members.{
  Has, Distinct, remove, Has-remove, remove-keeps, remove-Distinct, not-Has-remove, Has-append_last,
}
use cornet.Concurrency.Semaphore.{
  Awaiter, Semaphore, add32, grant, wake_loop, wake_ready, release, try_acquire, abort, abort_loop,
  fail_head,
}

-- What a suspended awaiter has been granted.
abbrev pub owed : Awaiter → ℕ
owed a = if a.granted then a.need else 0

abbrev pub pending : (ℕ → Awaiter) → List ℕ → ℕ
pending f [] = 0
pending f (w ∷ ws) = owed (f w) + pending f ws

pub pending_same :
    (f g : ℕ → Awaiter) (ws : List ℕ)
    → ((v : ℕ) → Has v ws → owed (f v) ≡ owed (g v))
    → pending f ws ≡ pending g ws
pending_same f g [] h = refl
pending_same f g (w ∷ ws) h = ap₂ ◌+◌ (h w (inl refl)) (pending_same f g ws (λ v k. h v (inr k)))

-- Changing one awaiter.
pub pending_change :
    (f g : ℕ → Awaiter) (w : ℕ) (ws : List ℕ)
    → Distinct ws
    → Has w ws
    → ((v : ℕ) → v ≢ w → owed (f v) ≡ owed (g v))
    → pending g ws + owed (f w) ≡ pending f ws + owed (g w)
pending_change f g w [] d k h = elim k [ ]
pending_change f g w (x ∷ ws) d (inl e) h =
    let rest = pending_same f g ws (λ v k. h v (λ p. d.0 (subst (λ t. Has t ws) (p ∙ e) k))) in
    omega (arith, rest, ap (λ t. owed (f t)) e, ap (λ t. owed (g t)) e)
pending_change f g w (x ∷ ws) d (inr k) h =
    let ne : x ≢ w = λ p. d.0 (subst (λ t. Has t ws) (sym p) k) in
    omega (arith, h x ne, pending_change f g w ws d.1 k h)

pub pending-remove :
    (f : ℕ → Awaiter) (w : ℕ) (ws : List ℕ)
    → Distinct ws
    → Has w ws
    → pending f (remove w ws) + owed (f w) ≡ pending f ws
pending-remove f w [] d h = elim h [ ]
pending-remove f w (x ∷ ws) d h = elim (Bool-cases (x == w)) [
  | inl e ↦ rw e (omega (arith, ap (λ t. owed (f t)) ((==_iff x w).0 e)))
  | inr e ↦ rw e (omega (arith, pending-remove f w ws d.1 (later e h)))
]
  where
    later : (x == w) ≡ false → Has w (x ∷ ws) → Has w ws
    later e (inl p) = absurd (ground arith)
    later e (inr k) = k

-- The invariant of the semaphore beside the awaiters that are suspended in frames, when callers
-- hold `held` permits of `total`.
pub record IsSound (total held : ℕ) (live : List ℕ) (s : Semaphore) : Type 0 where
  pub queue_distinct : Distinct s.queue
  pub live_distinct : Distinct live
  pub waits :
      (v : ℕ)
      → Has v s.queue
      → Has v live × ((s.awaiters v).queued ≡ true) × ((s.awaiters v).granted ≡ false)
  pub queued_waits : (v : ℕ) → Has v live → (s.awaiters v).queued ≡ true → Has v s.queue
  pub unsettled :
      (v : ℕ)
      → Has v live
      → ((s.awaiters v).consumed ≡ false)
        × ((s.awaiters v).granted ≡ false → (s.awaiters v).queued ≡ false → (s.awaiters v).err ≢ 0)
  pub scheduled : (v : ℕ) → Has v s.ready → Has v live → (s.awaiters v).queued ≡ false
  pub abort_code : s.aborted ≡ true → s.abort_err ≢ 0
  pub paid : s.count + pending s.awaiters live + held ≡ total

-- A number in a list is the one given, or another one.
pub same-or-other : (v w : ℕ) → (v ≡ w) ⊎ (v ≢ w)
same-or-other v w = grind arith

pub earlier : (v w : ℕ) (xs : List ℕ) → v ≢ w → Has v xs ⊎ (v ≡ w) → Has v xs
earlier v w xs ne (inl h) = h
earlier v w xs ne (inr p) = absurd (ne p)

module _ {total held : ℕ} {live : List ℕ} {s : Semaphore} (i : IsSound total held live s) (w : ℕ)
    (here : Has w live) where
  -- Taking `w` off the queue and settling it, with what it is owed moved from or to the count.
  pub settle :
      (t : Semaphore)
      → t.queue ≡ remove w s.queue
      → t.ready ≡ s.ready ++ w ∷ []
      → ((v : ℕ) → v ≢ w → t.awaiters v ≡ s.awaiters v)
      → ((t.awaiters w).consumed ≡ false) × ((t.awaiters w).queued ≡ false)
      → ((t.awaiters w).granted ≡ false → (t.awaiters w).err ≢ 0)
      → (t.aborted ≡ true → t.abort_err ≢ 0)
      → t.count + owed (t.awaiters w) ≡ s.count + owed (s.awaiters w)
      → IsSound total held live t
  settle t queue ready others flags code abort_code moved = record {
    queue_distinct = rw queue (remove-Distinct w s.queue i.queue_distinct);
    live_distinct = i.live_distinct;
    waits = λ v h.
        let h' : Has v (remove w s.queue) = subst (Has v) queue h in
        let ne : v ≢ w = λ p.
          not-Has-remove w s.queue i.queue_distinct (subst (λ x. Has x (remove w s.queue)) p h') in
        rw (others v ne) (i.waits v (Has-remove v w s.queue h'));
    queued_waits = λ v h q. elim (same-or-other v w) [
      | inl p ↦ absurd (cc (sym flags.1 ∙ ap (λ x. (t.awaiters x).queued) (sym p) ∙ q))
      | inr ne ↦ subst (Has v) (sym queue) (
          remove-keeps v w s.queue ne
            (i.queued_waits v h (ap (λ a. a.queued) (sym (others v ne)) ∙ q)))
    ];
    unsettled = λ v h. elim (same-or-other v w) [
      | inl p ↦ rw p (flags.0, λ g _. code g)
      | inr ne ↦ rw (others v ne) (i.unsettled v h)
    ];
    scheduled = λ v h l. elim (same-or-other v w) [
      | inl p ↦ rw p flags.1
      | inr ne ↦ rw (others v ne) (
          i.scheduled v
            (earlier v w s.ready ne (Has-append_last v w s.ready (subst (Has v) ready h))) l)
    ];
    abort_code = abort_code;
    paid = omega (
      arith,
      i.paid,
      moved,
      pending_change s.awaiters t.awaiters w live i.live_distinct here
          (λ v ne. ap owed (sym (others v ne))),
    );
  }

module _ {total held : ℕ} {live : List ℕ} {s : Semaphore} (w : ℕ) (q : List ℕ) (e : s.queue ≡ w ∷ q)
    (i : IsSound total held live s) where
  at_head : Has w live × ((s.awaiters w).queued ≡ true) × ((s.awaiters w).granted ≡ false)
  at_head = i.waits w (rw e (inl refl))

  grant-IsSound : (s.awaiters w).need ≤ s.count → IsSound total held live (grant w s)
  unfolding grant
  grant-IsSound fits =
      settle i w at_head.0 (grant w s) refl refl (λ v ne. ground arith)
        (ground (arith, i.unsettled w at_head.0)) (ground arith) i.abort_code
        (ground (arith, at_head))

  fail_head-IsSound : (err : ℕ) → err ≢ 0 → IsSound total held live (fail_head err w s)
  unfolding fail_head
  fail_head-IsSound err code =
      settle i w at_head.0 (fail_head err w s) refl refl (λ v ne. ground arith)
        (ground (arith, i.unsettled w at_head.0)) (ground arith) i.abort_code
        (ground (arith, at_head))

wake_loop-IsSound :
    {total held : ℕ} {live : List ℕ} (n : ℕ) (q : List ℕ) (s : Semaphore)
    → s.queue ≡ q
    → IsSound total held live s
    → IsSound total held live (wake_loop n q s)
unfolding wake_loop
wake_loop-IsSound zero q s e i = i
wake_loop-IsSound (suc n) [] s e i = i
wake_loop-IsSound (suc n) (w ∷ q) s e i = elim (Bool-cases (leb (s.awaiters w).need s.count)) [
  | inl fits ↦ rw fits (
      wake_loop-IsSound n (grant w s).queue (grant w s) refl (grant-IsSound w q e i (ground arith)))
  | inr short ↦ rw short i
]

pub wake_ready-IsSound :
    {total held : ℕ} {live : List ℕ} {s : Semaphore}
    → IsSound total held live s
    → IsSound total held live (wake_ready s)
unfolding wake_ready
wake_ready-IsSound {s = s} i = wake_loop-IsSound (length s.queue) s.queue s refl i

abort_loop-IsSound :
    {total held : ℕ} {live : List ℕ} (err n : ℕ) (q : List ℕ) (s : Semaphore)
    → err ≢ 0
    → s.queue ≡ q
    → IsSound total held live s
    → IsSound total held live (abort_loop err n q s)
unfolding abort_loop
abort_loop-IsSound err zero q s code e i = i
abort_loop-IsSound err (suc n) [] s code e i = i
abort_loop-IsSound err (suc n) (w ∷ q) s code e i =
    abort_loop-IsSound err n (fail_head err w s).queue (fail_head err w s) code refl
      (fail_head-IsSound w q e i err code)

-- Moving permits between the count and the callers, with nothing else changed.
pub recount :
    {total held held' : ℕ} {live : List ℕ} {s : Semaphore} (c : ℕ)
    → c + held' ≡ s.count + held
    → IsSound total held live s
    → IsSound total held' live (record s { count = c })
recount c e i = record {
  queue_distinct = i.queue_distinct;
  live_distinct = i.live_distinct;
  waits = i.waits;
  queued_waits = i.queued_waits;
  unsettled = i.unsettled;
  scheduled = i.scheduled;
  abort_code = i.abort_code;
  paid = omega (arith, i.paid);
}

pub abort-IsSound :
    {total held : ℕ} {live : List ℕ} {s : Semaphore} (err : ℕ)
    → err ≢ 0
    → IsSound total held live s
    → IsSound total held live (abort err s)
unfolding abort
abort-IsSound {s = s} err code i = elim (Bool-cases s.aborted) [
  | inl e ↦ simp e i
  | inr e ↦ simp e (
      abort_loop-IsSound err (length s.queue) s.queue (record s { aborted = true; abort_err = err })
        code refl
        (record {
          queue_distinct = i.queue_distinct;
          live_distinct = i.live_distinct;
          waits = i.waits;
          queued_waits = i.queued_waits;
          unsettled = i.unsettled;
          scheduled = i.scheduled;
          abort_code = λ _. code;
          paid = i.paid;
        }))
]

-- Callers hold at least the `n` permits that they return.
pub release-IsSound :
    {total held : ℕ} {live : List ℕ} {s : Semaphore} (n : ℕ)
    → n ≤ held
    → total < 2 ^ 32
    → IsSound total held live s
    → IsSound total (held - n) live (release n s)
unfolding release
release-IsSound {total} {held} {live} {s} n h small i =
    let back : IsSound total (held - n) live (record s { count = add32 s.count n }) =
      recount (add32 s.count n) (omega (arith, i.paid)) i in
    let t = record s { count = add32 s.count n } in
    let P : Semaphore → Type 0 = IsSound total (held - n) live in
    if-elim P (n == 0) s (if not s.aborted then wake_ready t else t)
      (λ z. recount s.count (omega (arith, (==_iff n 0).0 z)) i)
      (λ _. if-elim P (not s.aborted) (wake_ready t) t (λ _. wake_ready-IsSound back) (λ _. back))

pub try_acquire-IsSound :
    {total held : ℕ} {live : List ℕ} {s : Semaphore} (n : ℕ)
    → IsSound total held live s
    → IsSound total (if (try_acquire n s).0 then held + n else held) live (try_acquire n s).1
unfolding try_acquire
try_acquire-IsSound {s = s} n i = elim (Bool-cases (s.aborted || ltb s.count n)) [
  | inl e ↦ rw e i
  | inr e ↦ rw e (recount (s.count - n) (ground arith) i)
]
