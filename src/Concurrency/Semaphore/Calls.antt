-- ===== src/Concurrency/Semaphore/Calls.antt =====
-- What one call of the semaphore does to those who wait.
use cornet.Base.{
  ℕ, zero, suc, ◌+◌, ◌^◌, ◌<◌, ◌≤◌, ◌≡◌, ◌≢◌, ◌⊎◌, refl, sym, subst, ap, ◌∙◌, inl, inr, true, false,
  not, if◌then◌else◌, ◌==◌, ==_iff, List, [], ◌∷◌, ◌++◌, append_assoc, append-nil, length, if-elim,
  arith,
}
use cornet.Base.Members.{Has, remove-head}
use cornet.Concurrency.Semaphore.{
  Semaphore, add32, construct, wake_ready, release, try_acquire, await_ready, await_resume, abort,
  abort_loop, fail_head, begin_acquire, end_acquire,
}
use cornet.Concurrency.Semaphore.Wake.{Woken, wake_ready-Woken}

-- Returning `n` permits, not 0, to a semaphore that is not aborted, with no overflow of the count,
-- adds them to the count and then grants the longest prefix of the queue that fits.
pub release-Woken :
    (n : ℕ) (s : Semaphore)
    → n ≢ 0
    → s.aborted ≡ false
    → s.count + n < 2 ^ 32
    → Woken (record s { count = s.count + n }) (release n s)
unfolding release
release-Woken n s pos running small =
    let t = record s { count = add32 s.count n } in
    let e : add32 s.count n ≡ s.count + n = omega arith in
    if-elim P (n == 0) s (if not s.aborted then wake_ready t else t)
      (λ z. absurd (pos ((==_iff n 0).0 z)))
      (λ _.
        if-elim P (not s.aborted) (wake_ready t) t
          (λ _.
            subst (λ (c : ℕ). Woken (record s { count = c }) (wake_ready t)) e (wake_ready-Woken t))
          (λ c. cc))
  where
    P : Semaphore → Type 0
    P = Woken (record s { count = s.count + n })

-- The loop of `abort`.
record Failed (err : ℕ) (s t : Semaphore) : Type 0 where
  queue : t.queue ≡ []
  ready : t.ready ≡ s.ready ++ s.queue
  codes : (v : ℕ) → (Has v s.queue) ⊎ ((s.awaiters v).err ≡ err) → (t.awaiters v).err ≡ err
  grants : (v : ℕ) → (t.awaiters v).granted ≡ (s.awaiters v).granted
  same : (t.count ≡ s.count) × (t.aborted ≡ s.aborted) × (t.abort_err ≡ s.abort_err)

none_left : (err : ℕ) (s : Semaphore) → s.queue ≡ [] → Failed err s s
none_left err s e = record {
  queue = e;
  ready = rw e (sym (append-nil s.ready));
  codes = λ v h. elim h [ inl k ↦ absurd (subst (Has v) e k) | inr c ↦ c ];
  grants = λ v. refl;
  same = (refl, refl, refl);
}

fail_head-queue :
    (err w : ℕ) (q : List ℕ) (s : Semaphore) → s.queue ≡ w ∷ q → (fail_head err w s).queue ≡ q
unfolding fail_head
fail_head-queue err w q s e = rw e (remove-head w q)

fail_head-err :
    (err w : ℕ) (q : List ℕ) (s : Semaphore) (v : ℕ)
    → s.queue ≡ w ∷ q
    → (Has v s.queue) ⊎ ((s.awaiters v).err ≡ err)
    → Has v q ⊎ (((fail_head err w s).awaiters v).err ≡ err)
unfolding fail_head
fail_head-err err w q s v e (inl h) = at (subst (Has v) e h)
  where
    at : Has v (w ∷ q) → Has v q ⊎ (((fail_head err w s).awaiters v).err ≡ err)
    at (inl p) = inr (ground arith)
    at (inr k) = inl k
fail_head-err err w q s v e (inr c) = inr (ground arith)

fail_head-granted :
    (err w : ℕ) (s : Semaphore) (v : ℕ)
    → ((fail_head err w s).awaiters v).granted ≡ (s.awaiters v).granted
unfolding fail_head
fail_head-granted err w s v = ground arith

one_more :
    (err w : ℕ) (q : List ℕ) (s : Semaphore) {t : Semaphore}
    → s.queue ≡ w ∷ q
    → Failed err (fail_head err w s) t
    → Failed err s t
unfolding fail_head
one_more err w q s e f = record {
  queue = f.queue;
  ready =
      f.ready
      ∙ append_assoc s.ready (w ∷ []) (fail_head err w s).queue
      ∙ ap (λ l. s.ready ++ w ∷ l) (fail_head-queue err w q s e)
      ∙ ap (λ l. s.ready ++ l) (sym e);
  codes = λ v h. f.codes v (still v (fail_head-err err w q s v e h));
  grants = λ v. f.grants v ∙ fail_head-granted err w s v;
  same = f.same;
}
  where
    still :
        (v : ℕ)
        → Has v q ⊎ (((fail_head err w s).awaiters v).err ≡ err)
        → Has v (fail_head err w s).queue ⊎ (((fail_head err w s).awaiters v).err ≡ err)
    still v (inl h) = inl (subst (Has v) (sym (fail_head-queue err w q s e)) h)
    still v (inr c) = inr c

refused : (n : ℕ) (t : Semaphore) → t.aborted ≡ true → try_acquire n t ≡ (false, t)
unfolding try_acquire
refused n t e = ground arith

told :
    (w n : ℕ) (t : Semaphore)
    → t.aborted ≡ true
    → ((begin_acquire w n t).0 ≡ true)
      × ((end_acquire w (begin_acquire w n t).1).0 ≡ t.abort_err)
      × ((begin_acquire w n t).1.count ≡ t.count)
unfolding begin_acquire end_acquire await_ready await_resume construct
told w n t e = ground arith

abort_loop-Failed :
    (err n : ℕ) (q : List ℕ) (s : Semaphore)
    → length q ≤ n
    → s.queue ≡ q
    → Failed err s (abort_loop err n q s)
unfolding abort_loop
abort_loop-Failed err zero (w ∷ q) s h e = absurd (omega arith)
abort_loop-Failed err zero [] s h e = none_left err s e
abort_loop-Failed err (suc n) [] s h e = none_left err s e
abort_loop-Failed err (suc n) (w ∷ q) s h e = one_more err w q s e (
    abort_loop-Failed err n (fail_head err w s).queue (fail_head err w s)
      (rw (fail_head-queue err w q s e) (omega arith)) refl)

-- Aborting a semaphore that is not aborted empties the queue, schedules every awaiter that was on it
-- in its order and gives each the error code; the free permits and what was granted stay. From then
-- on `try_acquire` gives nothing, and `acquire` goes on at once, returns the code and takes nothing.
pub abort-Failed :
    (err : ℕ) (s : Semaphore)
    → s.aborted ≡ false
    → let t = abort err s in
      (t.queue ≡ [])
      × (t.ready ≡ s.ready ++ s.queue)
      × (t.count ≡ s.count)
      × ((v : ℕ) → Has v s.queue → (t.awaiters v).err ≡ err)
      × ((v : ℕ) → (t.awaiters v).granted ≡ (s.awaiters v).granted)
      × ((n : ℕ) → try_acquire n t ≡ (false, t))
      × ((w n : ℕ)
          → ((begin_acquire w n t).0 ≡ true)
            × ((end_acquire w (begin_acquire w n t).1).0 ≡ err)
            × ((begin_acquire w n t).1.count ≡ s.count))
unfolding abort
abort-Failed err s running = simp running (
  f.queue,
  f.ready,
  f.same.0,
  (λ v h. f.codes v (inl h)),
  f.grants,
  (λ n. refused n t f.same.1),
  (λ w n. let r = told w n t f.same.1 in (r.0, r.1 ∙ f.same.2, r.2 ∙ f.same.0)),
)
  where
    t : Semaphore
    t = abort_loop err (length s.queue) s.queue (record s { aborted = true; abort_err = err })

    f : Failed err (record s { aborted = true; abort_err = err }) t
    f = abort_loop-Failed err (length s.queue) s.queue _ (omega arith) refl
