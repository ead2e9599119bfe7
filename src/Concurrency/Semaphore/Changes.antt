-- ===== src/Concurrency/Semaphore/Changes.antt =====
-- What each call of an acquire changes: the count and its own awaiter, and no suspended one.
use cornet.Base.{
  ℕ, ◌+◌, ◌≡◌, ◌≢◌, ◌⊎◌, refl, sym, subst, ap, ◌∙◌, true, false, if◌then◌else◌, List, arith,
}
use cornet.Base.Members.{Has}
use cornet.Concurrency.Semaphore.{
  Semaphore, construct, await_ready, await_resume, destroy, end_acquire,
}
use cornet.Concurrency.Semaphore.Accounts.{IsSound, owed, pending_same}

-- A change that touches no suspended awaiter.
pub outside :
    {total held : ℕ} {live : List ℕ} {s : Semaphore} (w held' : ℕ)
    → ¬ Has w live
    → IsSound total held live s
    → (t : Semaphore) → t.queue ≡ s.queue
    → t.ready ≡ s.ready
    → ((v : ℕ) → v ≢ w → t.awaiters v ≡ s.awaiters v)
    → (t.aborted ≡ true → t.abort_err ≢ 0)
    → t.count + held' ≡ s.count + held
    → IsSound total held' live t
outside {live = live} {s = s} w held' off i t queue ready others abort_code moved = record {
  queue_distinct = rw queue i.queue_distinct;
  live_distinct = i.live_distinct;
  waits = λ v h.
      let old = i.waits v (subst (Has v) queue h) in
      (old.0, rw (others v (away v old.0)) old.1, rw (others v (away v old.0)) old.2);
  queued_waits = λ v h q.
      subst (Has v) (sym queue)
        (i.queued_waits v h (ap (λ a. a.queued) (sym (others v (away v h))) ∙ q));
  unsettled = λ v h. rw (others v (away v h)) (i.unsettled v h);
  scheduled = λ v h l. rw (others v (away v l)) (i.scheduled v (subst (Has v) ready h) l);
  abort_code = abort_code;
  paid = omega (
    arith,
    i.paid,
    moved,
    pending_same t.awaiters s.awaiters live (λ v h. ap owed (others v (away v h))),
  );
}
  where
    away : (v : ℕ) → Has v live → v ≢ w
    away v h p = off (subst (λ x. Has x live) p h)

-- Only the count and the awaiter `w` differ.
pub record SameBut (w : ℕ) (s t : Semaphore) : Type 0 where
  pub queue : t.queue ≡ s.queue
  pub ready : t.ready ≡ s.ready
  pub others : (v : ℕ) → v ≢ w → t.awaiters v ≡ s.awaiters v
  pub same_abort : (t.aborted ≡ s.aborted) × (t.abort_err ≡ s.abort_err)

pub SameBut-trans : {w : ℕ} {s t u : Semaphore} → SameBut w s t → SameBut w t u → SameBut w s u
SameBut-trans a b = record {
  queue = b.queue ∙ a.queue;
  ready = b.ready ∙ a.ready;
  others = λ v ne. b.others v ne ∙ a.others v ne;
  same_abort = (b.same_abort.0 ∙ a.same_abort.0, b.same_abort.1 ∙ a.same_abort.1);
}

module _ (w n : ℕ) (s : Semaphore) where
  pub construct-SameBut : SameBut w s (construct w n s)
  unfolding construct
  construct-SameBut = record {
    queue = refl;
    ready = refl;
    others = λ v ne. ground arith;
    same_abort = (refl, refl);
  }

  pub constructed :
      (construct w n s).awaiters w
      ≡ record { need = n; err = 0; queued = false; granted = false; consumed = false }
  unfolding construct
  constructed = ground arith

  pub construct-count : (construct w n s).count ≡ s.count
  unfolding construct
  construct-count = refl

module _ (w : ℕ) (s : Semaphore) where
  pub await_ready-SameBut : SameBut w s (await_ready w s).1
  unfolding await_ready
  await_ready-SameBut = record {
    queue = ground arith;
    ready = ground arith;
    others = λ v ne. ground arith;
    same_abort = ground arith;
  }

  -- It goes on at once with the permits, or with the code that the semaphore was aborted with.
  pub await_ready_done :
      (await_ready w s).0 ≡ true
      → let a = (await_ready w s).1.awaiters w in
        (a.consumed ≡ true)
        × (a.queued ≡ (s.awaiters w).queued)
        × (a.need ≡ (s.awaiters w).need)
        × (((a.granted ≡ true) × ((await_ready w s).1.count + (s.awaiters w).need ≡ s.count))
            ⊎ ((s.aborted ≡ true)
                × (a.granted ≡ (s.awaiters w).granted)
                × (a.err ≡ s.abort_err)
                × ((await_ready w s).1.count ≡ s.count)))
  unfolding await_ready
  await_ready_done e = ground arith

  pub await_ready_short : (await_ready w s).0 ≡ false → (await_ready w s).1 ≡ s
  unfolding await_ready
  await_ready_short e = ground arith

  pub end_acquire-SameBut : (s.awaiters w).queued ≡ false → SameBut w s (end_acquire w s).1
  unfolding end_acquire await_resume destroy
  end_acquire-SameBut e = record {
    queue = ground arith;
    ready = ground arith;
    others = λ v ne. ground arith;
    same_abort = ground arith;
  }

  pub end_acquire-count : (s.awaiters w).queued ≡ false → (end_acquire w s).1.count ≡ s.count
  unfolding end_acquire await_resume destroy
  end_acquire-count e = ground arith

  pub end_acquire-code :
      (end_acquire w s).0 ≡ (if (s.awaiters w).granted then 0 else (s.awaiters w).err)
  unfolding end_acquire await_resume destroy
  end_acquire-code = ground arith
