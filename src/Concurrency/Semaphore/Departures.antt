-- ===== src/Concurrency/Semaphore/Departures.antt =====
-- The frames that end or are destroyed keep the books of the semaphore.
use cornet.Base.{
  ℕ, ◌+◌, ◌^◌, ◌<◌, ◌≡◌, ◌≢◌, refl, sym, subst, ap, ◌∙◌, true, not, ◌&&◌, if◌then◌else◌, List,
  if-elim, arith,
}
use cornet.Base.Members.{
  Has, remove, Has-remove, remove-keeps, remove-Distinct, not-Has-remove, remove-absent,
}
use cornet.Concurrency.Semaphore.Accounts.{
  owed, pending_same, pending-remove, IsSound, wake_ready-IsSound,
}
use cornet.Concurrency.Semaphore.{Awaiter, Semaphore, add32, unlink, wake_ready, destroy}

-- A frame that ends: its awaiter leaves the queue and the suspended ones, and what it was granted
-- goes back to the count or to its caller.
pub leave :
    {total held : ℕ} {live : List ℕ} {s : Semaphore} (w held' : ℕ)
    → Has w live
    → IsSound total held live s
    → (t : Semaphore) → t.queue ≡ remove w s.queue
    → t.ready ≡ s.ready
    → ((v : ℕ) → v ≢ w → t.awaiters v ≡ s.awaiters v)
    → (t.aborted ≡ true → t.abort_err ≢ 0)
    → t.count + held' ≡ s.count + held + owed (s.awaiters w)
    → IsSound total held' (remove w live) t
leave {live = live} {s = s} w held' here i t queue ready others abort_code moved = record {
  queue_distinct = rw queue (remove-Distinct w s.queue i.queue_distinct);
  live_distinct = remove-Distinct w live i.live_distinct;
  waits = λ v h.
      let h' : Has v (remove w s.queue) = subst (Has v) queue h in
      let ne : v ≢ w = λ p.
        not-Has-remove w s.queue i.queue_distinct (subst (λ x. Has x (remove w s.queue)) p h') in
      let old = i.waits v (Has-remove v w s.queue h') in
      (remove-keeps v w live ne old.0, rw (others v ne) old.1, rw (others v ne) old.2);
  queued_waits = λ v h q. subst (Has v) (sym queue) (
      remove-keeps v w s.queue (gone v h) (
        i.queued_waits v (Has-remove v w live h)
          (ap (λ a. a.queued) (sym (others v (gone v h))) ∙ q)));
  unsettled = λ v h. rw (others v (gone v h)) (i.unsettled v (Has-remove v w live h));
  scheduled = λ v h l.
      rw (others v (gone v l)) (i.scheduled v (subst (Has v) ready h) (Has-remove v w live l));
  abort_code = abort_code;
  paid = omega (
    arith,
    i.paid,
    moved,
    pending-remove s.awaiters w live i.live_distinct here,
    pending_same t.awaiters s.awaiters (remove w live) (λ v h. ap owed (others v (gone v h))),
  );
}
  where
    gone : (v : ℕ) → Has v (remove w live) → v ≢ w
    gone v h p = not-Has-remove w live i.live_distinct (subst (λ x. Has x (remove w live)) p h)

-- `if (queued_) sem_.unlink(this)`
abbrev pub unlinked : ℕ → Semaphore → Semaphore
unlinked w s = if (s.awaiters w).queued then unlink w s else s

-- What it does where only queued awaiters are on the queue.
pub record Unlinked (w : ℕ) (s t : Semaphore) : Type 0 where
  pub queue : t.queue ≡ remove w s.queue
  ready : t.ready ≡ s.ready
  pub others : (v : ℕ) → v ≢ w → t.awaiters v ≡ s.awaiters v
  pub count : t.count ≡ s.count
  pub same_abort : (t.aborted ≡ s.aborted) × (t.abort_err ≡ s.abort_err)

pub unlinked-Unlinked :
    (w : ℕ) (s : Semaphore)
    → (Has w s.queue → (s.awaiters w).queued ≡ true)
    → Unlinked w s (unlinked w s)
unfolding unlink
unlinked-Unlinked w s flag =
    if-elim (Unlinked w s) (s.awaiters w).queued (unlink w s) s
      (λ _. record {
        queue = refl;
        ready = refl;
        others = λ v ne. ground arith;
        count = refl;
        same_abort = (refl, refl);
      })
      (λ e. record {
        queue = sym (remove-absent w s.queue (λ h. cc (flag h)));
        ready = refl;
        others = λ v ne. refl;
        count = refl;
        same_abort = (refl, refl);
      })

-- Destroying the frame of a suspended awaiter: what it was granted returns to the count, and nobody
-- can reach it any more.
pub destroy-IsSound :
    {total held : ℕ} {live : List ℕ} {s : Semaphore} (w : ℕ)
    → Has w live
    → total < 2 ^ 32
    → IsSound total held live s
    → IsSound total held (remove w live) (destroy w s)
unfolding destroy
destroy-IsSound {total} {held} {live} {s} w here small i =
    if-elim P (a.granted && not a.consumed) (if not t.aborted then wake_ready u else u) t
      (λ g.
        if-elim P (not t.aborted) (wake_ready u) u (λ _. wake_ready-IsSound (repaid g))
          (λ _. repaid g))
      (λ g.
        left t f.queue f.ready f.others (ground (arith, f.same_abort, i.abort_code))
          (ground (arith, f.count, i.unsettled w here)))
  where
    a : Awaiter
    a = s.awaiters w

    t : Semaphore
    t = unlinked w s

    u : Semaphore
    u = record t { count = add32 t.count a.need }

    P : Semaphore → Type 0
    P = IsSound total held (remove w live)

    f : Unlinked w s t
    f = unlinked-Unlinked w s (λ h. (i.waits w h).1)

    left :
        (x : Semaphore)
        → x.queue ≡ remove w s.queue
        → x.ready ≡ s.ready
        → ((v : ℕ) → v ≢ w → x.awaiters v ≡ s.awaiters v)
        → (x.aborted ≡ true → x.abort_err ≢ 0)
        → x.count + held ≡ s.count + held + owed a
        → P x
    left = leave w held here i

    repaid : (a.granted && not a.consumed) ≡ true → P u
    repaid g =
        left u f.queue f.ready f.others (ground (arith, f.same_abort, i.abort_code))
          (ground (arith, f.count, i.paid, pending-remove s.awaiters w live i.live_distinct here))
