-- ===== src/Concurrency/Semaphore/World.antt =====
-- The semaphore among its callers: every sequence of calls, resumptions and ends of frames.
use cornet.Base.{
  ℕ, ◌+◌, ◌-◌, ◌^◌, ◌<◌, ◌≤◌, ◌≡◌, ◌≢◌, ◌⊎◌, refl, sym, subst, ap, ◌∙◌, inl, inr, true, false,
  if◌then◌else◌, ◌==◌, List, [], ◌∷◌, ◌++◌, arith,
}
use cornet.Base.Members.{
  Has, remove, Has-remove, remove-absent, Has-append_last, append_last-Has, Distinct-append_last,
}
use cornet.Concurrency.Semaphore.{
  Awaiter, Semaphore, initial, construct, release, try_acquire, await_ready, await_suspend, destroy,
  abort, begin_acquire, end_acquire,
}
use cornet.Concurrency.Semaphore.Accounts.{
  IsSound, owed, pending_same, release-IsSound, try_acquire-IsSound, abort-IsSound,
}
use cornet.Concurrency.Semaphore.Departures.{leave, destroy-IsSound}
use cornet.Concurrency.Semaphore.Changes.{
  SameBut, outside, SameBut-trans, construct-SameBut, constructed, construct-count,
  await_ready-SameBut, await_ready_done, await_ready_short, end_acquire-SameBut, end_acquire-count,
  end_acquire-code,
}

-- The semaphore, the awaiters of suspended frames, and the permits that callers hold.
pub record World : Type 0 where
  pub sem : Semaphore
  pub live : List ℕ
  pub held : ℕ

-- An awaiter that no suspended frame and no scheduled handle names yet.
abbrev IsFresh : ℕ → World → Type 0
IsFresh w x = (¬ Has w x.live) × (¬ Has w x.sem.ready)

-- What the caller of `acquire(n)` gets for the error code 0.
abbrev pub gained : ℕ → ℕ → ℕ
gained code n = if code == 0 then n else 0

-- One call, resumption or end of a frame. Callers give back no more permits than they hold, and
-- `abort` is given a code that is an error; the scheduler resumes only what was scheduled on it.
pub data Step (x y : World) : Type 0 where
  acquire_at_once :
      (w n : ℕ)
      → IsFresh w x
      → (begin_acquire w n x.sem).0 ≡ true
      → y ≡ record x {
        sem = (end_acquire w (begin_acquire w n x.sem).1).1;
        held = x.held + gained (end_acquire w (begin_acquire w n x.sem).1).0 n;
      }
      → Step x y
  acquire_suspends :
      (w n : ℕ)
      → IsFresh w x
      → (begin_acquire w n x.sem).0 ≡ false
      → y ≡ record x { sem = await_suspend w (begin_acquire w n x.sem).1; live = w ∷ x.live }
      → Step x y
  resume :
      (w : ℕ)
      → Has w x.live
      → Has w x.sem.ready
      → y ≡ record {
        sem = (end_acquire w x.sem).1;
        live = remove w x.live;
        held = x.held + gained (end_acquire w x.sem).0 (x.sem.awaiters w).need;
      }
      → Step x y
  kill :
      (w : ℕ)
      → Has w x.live
      → y ≡ record x { sem = destroy w x.sem; live = remove w x.live }
      → Step x y
  try :
      (n : ℕ)
      → y ≡ record x {
        sem = (try_acquire n x.sem).1;
        held = if (try_acquire n x.sem).0 then x.held + n else x.held;
      }
      → Step x y
  give_back :
      (n : ℕ) → n ≤ x.held → y ≡ record x { sem = release n x.sem; held = x.held - n } → Step x y
  abort_all : (err : ℕ) → err ≢ 0 → y ≡ record x { sem = abort err x.sem } → Step x y
  -- The scheduler takes a handle off its queue, to resume it or because its frame is gone.
  unschedule :
      (w : ℕ) → y ≡ record x { sem = record (x.sem) { ready = remove w x.sem.ready } } → Step x y

pub data Reach (x : World) : World → Type 0 where
  here : Reach x x
  next : {y z : World} → Reach x y → Step y z → Reach x z

abbrev pub IsSoundWorld : ℕ → World → Type 0
IsSoundWorld total x = IsSound total x.held x.live x.sem

module _ {total : ℕ} {x : World} (i : IsSoundWorld total x) (w : ℕ) where
  at_once-IsSound :
      (n : ℕ)
      → IsFresh w x
      → (begin_acquire w n x.sem).0 ≡ true
      → IsSound total
          (x.held + gained (end_acquire w (begin_acquire w n x.sem).1).0 n)
          x.live
          (end_acquire w (begin_acquire w n x.sem).1).1
  unfolding begin_acquire
  at_once-IsSound n fresh e =
      outside w _ fresh.0 i u k.queue k.ready k.others (ground (arith, k.same_abort, i.abort_code))
        (ground (
          arith,
          done,
          flags,
          end_acquire-count w t calm,
          end_acquire-code w t,
          construct-count w n x.sem,
          c.same_abort,
          i.abort_code,
        ))
    where
      b : Semaphore
      b = construct w n x.sem

      t : Semaphore
      t = (await_ready w b).1

      u : Semaphore
      u = (end_acquire w t).1

      flags :
          b.awaiters w
          ≡ record { need = n; err = 0; queued = false; granted = false; consumed = false }
      flags = constructed w n x.sem

      done :
          ((t.awaiters w).consumed ≡ true)
          × ((t.awaiters w).queued ≡ (b.awaiters w).queued)
          × ((t.awaiters w).need ≡ (b.awaiters w).need)
          × ((((t.awaiters w).granted ≡ true) × (t.count + (b.awaiters w).need ≡ b.count))
              ⊎ ((b.aborted ≡ true)
                  × ((t.awaiters w).granted ≡ (b.awaiters w).granted)
                  × ((t.awaiters w).err ≡ b.abort_err)
                  × (t.count ≡ b.count)))
      done = await_ready_done w b e

      calm : (t.awaiters w).queued ≡ false
      calm = done.1 ∙ ap (λ a. a.queued) flags

      c : SameBut w x.sem b
      c = construct-SameBut w n x.sem

      k : SameBut w x.sem u
      k = SameBut-trans c (SameBut-trans (await_ready-SameBut w b) (end_acquire-SameBut w t calm))

  suspends-IsSound :
      (n : ℕ)
      → IsFresh w x
      → (begin_acquire w n x.sem).0 ≡ false
      → IsSound total x.held (w ∷ x.live) (await_suspend w (begin_acquire w n x.sem).1)
  unfolding begin_acquire
  suspends-IsSound n fresh e = rw (await_ready_short w (construct w n x.sem) e) (record {
    queue_distinct =
        rw queue
          (Distinct-append_last w x.sem.queue (λ h. fresh.0 (i.waits w h).0) i.queue_distinct);
    live_distinct = (fresh.0, i.live_distinct);
    waits = λ v h. elim (Has-append_last v w x.sem.queue (subst (Has v) queue h)) [
      | inl k ↦
          let old = i.waits v k in
          (inr old.0, rw (others v (away v old.0)) old.1, rw (others v (away v old.0)) old.2)
      | inr p ↦ (inl p, rw p (ap (λ a. a.queued) flags), rw p (ap (λ a. a.granted) flags))
    ];
    queued_waits = λ v h q. subst (Has v) (sym queue) (
        append_last-Has v w x.sem.queue (elim h [
          | inl p ↦ inr p
          | inr l ↦ inl (i.queued_waits v l (ap (λ a. a.queued) (sym (others v (away v l))) ∙ q))
        ]));
    unsettled = λ v h. elim h [
      | inl p ↦ (rw p (ap (λ a. a.consumed) flags), λ g q. absurd (queued-true v p q))
      | inr l ↦ rw (others v (away v l)) (i.unsettled v l)
    ];
    scheduled = λ v h l. elim l [
      | inl p ↦ absurd (fresh.1 (subst (λ z. Has z x.sem.ready) p (subst (Has v) ready h)))
      | inr k ↦ rw (others v (away v k)) (i.scheduled v (subst (Has v) ready h) k)
    ];
    abort_code = ground (arith, same_abort, i.abort_code);
    paid = omega (
      arith,
      i.paid,
      count,
      ap owed flags,
      pending_same t.awaiters x.sem.awaiters x.live (λ v h. ap owed (others v (away v h))),
    );
  })
    where
      t : Semaphore
      t = await_suspend w (construct w n x.sem)

      away : (v : ℕ) → Has v x.live → v ≢ w
      away v h p = fresh.0 (subst (λ z. Has z x.live) p h)

      queue : t.queue ≡ x.sem.queue ++ w ∷ []
      queue = unfold await_suspend construct in refl

      ready : t.ready ≡ x.sem.ready
      ready = unfold await_suspend construct in refl

      count : t.count ≡ x.sem.count
      count = unfold await_suspend construct in refl

      same_abort : (t.aborted ≡ x.sem.aborted) × (t.abort_err ≡ x.sem.abort_err)
      same_abort = unfold await_suspend construct in (refl, refl)

      others : (v : ℕ) → v ≢ w → t.awaiters v ≡ x.sem.awaiters v
      others v ne = unfold await_suspend construct in ground arith

      flags :
          t.awaiters w
          ≡ record { need = n; err = 0; queued = true; granted = false; consumed = false }
      flags = unfold await_suspend construct in ground arith

      queued-true : (v : ℕ) → v ≡ w → (t.awaiters v).queued ≡ false → ⊥
      queued-true v p q = cc (sym q ∙ ap (λ z. (t.awaiters z).queued) p ∙ ap (λ a. a.queued) flags)

  resume-IsSound :
      Has w x.live
      → Has w x.sem.ready
      → IsSound total
          (x.held + gained (end_acquire w x.sem).0 (x.sem.awaiters w).need)
          (remove w x.live)
          (end_acquire w x.sem).1
  resume-IsSound l r =
      leave w _ l i u (k.queue ∙ sym (remove-absent w x.sem.queue (λ h. unqueued h))) k.ready
        k.others (ground (arith, k.same_abort, i.abort_code))
        (ground
          (arith, calm, end_acquire-count w x.sem calm, end_acquire-code w x.sem, i.unsettled w l))
    where
      u : Semaphore
      u = (end_acquire w x.sem).1

      calm : (x.sem.awaiters w).queued ≡ false
      calm = i.scheduled w r l

      k : SameBut w x.sem u
      k = end_acquire-SameBut w x.sem calm

      unqueued : ¬ (Has w x.sem.queue)
      unqueued h = cc (calm, (i.waits w h).1)

-- Every step keeps the books.
pub Step-IsSound :
    {total : ℕ} {x y : World}
    → total < 2 ^ 32
    → IsSoundWorld total x
    → Step x y
    → IsSoundWorld total y
Step-IsSound small i (acquire_at_once w n f e p) = rw p (at_once-IsSound i w n f e)
Step-IsSound small i (acquire_suspends w n f e p) = rw p (suspends-IsSound i w n f e)
Step-IsSound small i (resume w l r p) = rw p (resume-IsSound i w l r)
Step-IsSound small i (kill w l p) = rw p (destroy-IsSound w l small i)
Step-IsSound small i (try n p) = rw p (try_acquire-IsSound n i)
Step-IsSound small i (give_back n h p) = rw p (release-IsSound n h small i)
Step-IsSound small i (abort_all err c p) = rw p (abort-IsSound err c i)
Step-IsSound small i (unschedule w p) = rw p (record {
  queue_distinct = i.queue_distinct;
  live_distinct = i.live_distinct;
  waits = i.waits;
  queued_waits = i.queued_waits;
  unsettled = i.unsettled;
  scheduled = λ v h l. i.scheduled v (Has-remove v w _ h) l;
  abort_code = i.abort_code;
  paid = i.paid;
})

-- Before any call: all permits are free.
initial-IsSound : (total : ℕ) (frames : ℕ → Awaiter) → IsSound total 0 [] (initial total frames)
initial-IsSound total frames = record {
  queue_distinct = tt;
  live_distinct = tt;
  waits = λ v h. absurd h;
  queued_waits = λ v h q. absurd h;
  unsettled = λ v h. absurd h;
  scheduled = λ v h l. absurd h;
  abort_code = λ e. cc;
  paid = omega arith;
}

abbrev pub start : ℕ → (ℕ → Awaiter) → World
start total frames = record { sem = initial total frames; live = []; held = 0 }

-- From a semaphore of `total` permits, fewer than 2 ^ 32, every sequence of calls, resumptions and
-- ends of frames, in any order, keeps the books: free permits, permits granted to suspended
-- awaiters and permits that callers hold add up to `total`; each awaiter on the queue is there once,
-- belongs to a suspended frame, is marked queued and is not granted, and each awaiter of a
-- suspended frame that is marked queued is on the queue, so no waiter is lost; and an awaiter of a
-- suspended frame that is neither queued nor granted carries an error code.
pub Reach-IsSound :
    (total : ℕ) (frames : ℕ → Awaiter) {x : World}
    → total < 2 ^ 32
    → Reach (start total frames) x
    → IsSoundWorld total x
Reach-IsSound total frames small here = initial-IsSound total frames
Reach-IsSound total frames small (next r st) =
    Step-IsSound small (Reach-IsSound total frames small r) st
