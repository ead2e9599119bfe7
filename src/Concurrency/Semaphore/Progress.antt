-- ===== src/Concurrency/Semaphore/Progress.antt =====
-- No wake-up is missed among the callers of the semaphore: who waits first does not fit.
use cornet.Base.{
  ℕ, ◌-◌, ◌^◌, ◌<◌, ◌≤◌, ◌≡◌, ◌≢◌, refl, sym, subst, ap, ◌∙◌, inl, inr, true, false, not, ◌&&◌,
  ◌||◌, if◌then◌else◌, ltb, ◌==◌, List, [], ◌∷◌, ◌++◌, Bool-cases, if-elim, arith,
}
use cornet.Base.Members.{Has, remove, remove-cons}
use cornet.Concurrency.Semaphore.{
  Awaiter, Semaphore, add32, construct, wake_ready, release, try_acquire, await_ready,
  await_suspend, destroy, abort, begin_acquire, end_acquire,
}
use cornet.Concurrency.Semaphore.Departures.{unlinked, Unlinked, unlinked-Unlinked}
use cornet.Concurrency.Semaphore.Wake.{HeadBlocked, wake_ready-Woken}
use cornet.Concurrency.Semaphore.Calls.{abort-Failed}
use cornet.Concurrency.Semaphore.Changes.{
  SameBut, SameBut-trans, construct-SameBut, constructed, construct-count, await_ready-SameBut,
  await_ready_done, await_ready_short, end_acquire-SameBut, end_acquire-count,
}
use cornet.Concurrency.Semaphore.World.{
  World, Step, acquire_at_once, acquire_suspends, resume, kill, try, give_back, abort_all,
  unschedule, Reach, here, next, start, IsSoundWorld, Reach-IsSound,
}

-- The awaiter at the head of the queue, if there is one, needs more than the free permits; and nobody
-- waits on an aborted semaphore.
abbrev pub NoneFits : Semaphore → Type 0
NoneFits s = HeadBlocked s s.queue × (s.aborted ≡ true → s.queue ≡ [])

-- With no more permits, the same awaiters still do not fit.
HeadBlocked-less :
    (s t : Semaphore) (q : List ℕ)
    → t.count ≤ s.count
    → ((v : ℕ) → Has v q → t.awaiters v ≡ s.awaiters v)
    → HeadBlocked s q
    → HeadBlocked t q
HeadBlocked-less s t [] less same b = tt
HeadBlocked-less s t (w ∷ q) less same b =
    let need = ap (λ a. a.need) (same w (inl refl)) in omega (arith, need)

less-NoneFits :
    (s t : Semaphore)
    → t.queue ≡ s.queue
    → t.aborted ≡ s.aborted
    → t.count ≤ s.count
    → ((v : ℕ) → Has v s.queue → t.awaiters v ≡ s.awaiters v)
    → NoneFits s
    → NoneFits t
less-NoneFits s t queue aborted less same b = (
  subst (HeadBlocked t) (sym queue) (HeadBlocked-less s t s.queue less same b.0),
  λ e. queue ∙ b.1 (sym aborted ∙ e),
)

emptied-NoneFits : (t : Semaphore) → t.queue ≡ [] → NoneFits t
emptied-NoneFits t e = (subst (HeadBlocked t) (sym e) tt, λ _. e)

woken-NoneFits : (s : Semaphore) → s.aborted ≡ false → NoneFits (wake_ready s)
woken-NoneFits s e =
    let w = wake_ready-Woken s in (w.blocked, λ p. absurd (cc (e, w.same_abort.0, p)))

-- Permits come back, and the queue is woken unless the semaphore is aborted.
repaid-NoneFits :
    (s : Semaphore)
    → (s.aborted ≡ true → s.queue ≡ [])
    → NoneFits (if not s.aborted then wake_ready s else s)
repaid-NoneFits s empty =
    if-elim NoneFits (not s.aborted) (wake_ready s) s (λ e. woken-NoneFits s (ground arith))
      (λ e. emptied-NoneFits s (empty (ground arith)))

release-NoneFits : (n : ℕ) (s : Semaphore) → NoneFits s → NoneFits (release n s)
unfolding release
release-NoneFits n s b =
    let t = record s { count = add32 s.count n } in
    if-elim NoneFits (n == 0) s (if not s.aborted then wake_ready t else t) (λ _. b)
      (λ _. repaid-NoneFits t b.1)

try_acquire-NoneFits : (n : ℕ) (s : Semaphore) → NoneFits s → NoneFits (try_acquire n s).1
unfolding try_acquire
try_acquire-NoneFits n s b = elim (Bool-cases (s.aborted || ltb s.count n)) [
  | inl e ↦ rw e b
  | inr e ↦
      let t = record s { count = s.count - n } in
      rw e (less-NoneFits s t refl refl (omega arith) (λ v _. refl) b)
]

abort-NoneFits : (err : ℕ) (s : Semaphore) → NoneFits s → NoneFits (abort err s)
abort-NoneFits err s b = elim (Bool-cases s.aborted) [
  | inl e ↦ subst NoneFits (sym (aborted_twice e)) b
  | inr e ↦ emptied-NoneFits (abort err s) (abort-Failed err s e).0
]
  where
    aborted_twice : s.aborted ≡ true → abort err s ≡ s
    aborted_twice e = unfold abort in simp e

-- Where `w` is not at the head of the queue.
abbrev pub NotHead : ℕ → List ℕ → Type 0
NotHead w [] = Unit
NotHead w (v ∷ q) = v ≢ w

HeadBlocked-remove :
    (s t : Semaphore) (w : ℕ) (q : List ℕ)
    → NotHead w q
    → t.count ≡ s.count
    → ((v : ℕ) → v ≢ w → t.awaiters v ≡ s.awaiters v)
    → HeadBlocked s q
    → HeadBlocked t (remove w q)
HeadBlocked-remove s t w [] n count same b = tt
HeadBlocked-remove s t w (v ∷ q) n count same b = elim (remove-cons w v q) [
  | inl (p, e) ↦ absurd (n p)
  | inr (p, e) ↦ rw e (let need = ap (λ a. a.need) (same v n) in omega (arith, need, count))
]

destroy-NoneFits :
    (w : ℕ) (s : Semaphore)
    → (Has w s.queue → (s.awaiters w).queued ≡ true)
    → NotHead w s.queue
    → NoneFits s
    → NoneFits (destroy w s)
unfolding destroy
destroy-NoneFits w s flag n b =
    if-elim NoneFits ((s.awaiters w).granted && not (s.awaiters w).consumed)
      (if not t.aborted then wake_ready u else u) t (λ _. repaid-NoneFits u empty)
      (λ _. (
        subst (HeadBlocked t) (sym f.queue)
            (HeadBlocked-remove s t w s.queue n f.count f.others b.0),
        empty,
      ))
  where
    t : Semaphore
    t = unlinked w s

    u : Semaphore
    u = record t { count = add32 t.count (s.awaiters w).need }

    f : Unlinked w s t
    f = unlinked-Unlinked w s flag

    empty : t.aborted ≡ true → t.queue ≡ []
    empty e = f.queue ∙ ap (remove w) (b.1 (sym f.same_abort.0 ∙ e))

module _ {total : ℕ} {x : World} (i : IsSoundWorld total x) (b : NoneFits x.sem) (w : ℕ) where
  waits-live : (v : ℕ) → ¬ (Has w x.live) → Has v x.sem.queue → v ≢ w
  waits-live v fresh h p = fresh (subst (λ z. Has z x.live) p (i.waits v h).0)

  at_once-NoneFits :
      (n : ℕ)
      → ¬ (Has w x.live)
      → (begin_acquire w n x.sem).0 ≡ true
      → NoneFits (end_acquire w (begin_acquire w n x.sem).1).1
  unfolding begin_acquire
  at_once-NoneFits n fresh e =
      less-NoneFits x.sem u k.queue k.same_abort.0
        (omega (arith, left, end_acquire-count w t calm, construct-count w n x.sem))
        (λ v h. k.others v (waits-live v fresh h)) b
    where
      c : Semaphore
      c = construct w n x.sem

      t : Semaphore
      t = (await_ready w c).1

      u : Semaphore
      u = (end_acquire w t).1

      calm : (t.awaiters w).queued ≡ false
      calm = (await_ready_done w c e).1 ∙ ap (λ a. a.queued) (constructed w n x.sem)

      left : t.count ≤ c.count
      left = elim (await_ready_done w c e).3 [
        | inl (_, paid) ↦ omega (arith, paid)
        | inr (_, _, _, same) ↦ omega (arith, same)
      ]

      k : SameBut w x.sem u
      k =
          SameBut-trans (construct-SameBut w n x.sem)
            (SameBut-trans (await_ready-SameBut w c) (end_acquire-SameBut w t calm))

  suspends-NoneFits :
      (n : ℕ)
      → ¬ (Has w x.live)
      → (begin_acquire w n x.sem).0 ≡ false
      → NoneFits (await_suspend w (begin_acquire w n x.sem).1)
  unfolding begin_acquire
  suspends-NoneFits n fresh e = rw (await_ready_short w (construct w n x.sem) e) (
    subst (HeadBlocked t) (sym queue) (behind x.sem.queue b.0 others),
    λ p. absurd (cc (short.0, p)),
  )
    where
      t : Semaphore
      t = await_suspend w (construct w n x.sem)

      queue : t.queue ≡ x.sem.queue ++ w ∷ []
      queue = unfold await_suspend construct in refl

      short : (t.aborted ≡ false) × (t.count < (t.awaiters w).need)
      short = unfold await_suspend construct await_ready in ground (arith, e)

      count : t.count ≡ x.sem.count
      count = unfold await_suspend construct in refl

      others : (v : ℕ) → Has v x.sem.queue → t.awaiters v ≡ x.sem.awaiters v
      others v h =
          let ne = waits-live v fresh h in unfold await_suspend construct in ground (arith, ne)

      behind :
          (q : List ℕ)
          → HeadBlocked x.sem q
          → ((v : ℕ) → Has v q → t.awaiters v ≡ x.sem.awaiters v)
          → HeadBlocked t (q ++ w ∷ [])
      behind [] h same = short.1
      behind (v ∷ q) h same =
          let need = ap (λ a. a.need) (same v (inl refl)) in omega (arith, need, count)

  resume-NoneFits : Has w x.live → Has w x.sem.ready → NoneFits (end_acquire w x.sem).1
  resume-NoneFits l r =
      let calm = i.scheduled w r l in
      let k = end_acquire-SameBut w x.sem calm in
      less-NoneFits x.sem (end_acquire w x.sem).1 k.queue k.same_abort.0
        (omega (arith, end_acquire-count w x.sem calm))
        (λ v h.
          k.others v (λ p. cc (calm, ap (λ z. (x.sem.awaiters z).queued) (sym p), (i.waits v h).1)))
        b

-- A step that does not destroy the frame of the awaiter at the head.
abbrev pub SparesHead : {x y : World} → Step x y → Type 0
SparesHead {x} (kill w l p) = NotHead w x.sem.queue
SparesHead _ = Unit

pub data Calm (x : World) : World → Type 0 where
  calm_here : Calm x x
  calm_next : {y z : World} → Calm x y → (st : Step y z) → SparesHead st → Calm x z

Calm-Reach : {x y : World} → Calm x y → Reach x y
Calm-Reach calm_here = here
Calm-Reach (calm_next r st k) = next (Calm-Reach r) st

Step-NoneFits :
    {total : ℕ} {x y : World}
    → IsSoundWorld total x
    → NoneFits x.sem
    → (st : Step x y) → SparesHead st
    → NoneFits y.sem
Step-NoneFits i b (acquire_at_once w n f e p) k =
    subst (λ z. NoneFits z.sem) (sym p) (at_once-NoneFits i b w n f.0 e)
Step-NoneFits i b (acquire_suspends w n f e p) k =
    subst (λ z. NoneFits z.sem) (sym p) (suspends-NoneFits i b w n f.0 e)
Step-NoneFits i b (resume w l r p) k =
    subst (λ z. NoneFits z.sem) (sym p) (resume-NoneFits i b w l r)
Step-NoneFits {x = x} i b (kill w l p) k =
    subst (λ z. NoneFits z.sem) (sym p) (destroy-NoneFits w x.sem (λ h. (i.waits w h).1) k b)
Step-NoneFits {x = x} i b (try n p) k =
    subst (λ z. NoneFits z.sem) (sym p) (try_acquire-NoneFits n x.sem b)
Step-NoneFits {x = x} i b (give_back n h p) k =
    subst (λ z. NoneFits z.sem) (sym p) (release-NoneFits n x.sem b)
Step-NoneFits {x = x} i b (abort_all err c p) k =
    subst (λ z. NoneFits z.sem) (sym p) (abort-NoneFits err x.sem b)
Step-NoneFits {x = x} i b (unschedule w p) k =
    subst (λ z. NoneFits z.sem) (sym p)
      (less-NoneFits x.sem (record (x.sem) { ready = remove w x.sem.ready }) refl refl (omega arith)
        (λ v _. refl) b)

-- From a semaphore of `total` permits, fewer than 2 ^ 32, after every sequence of calls, resumptions and
-- ends of frames in which the frame of the awaiter at the head of the queue is not destroyed while it
-- waits there, no wake-up has been missed: the awaiter at the head, if there is one, needs more than
-- the free permits, and nobody waits once the semaphore is aborted.
pub Calm-NoneFits :
    (total : ℕ) (frames : ℕ → Awaiter) {x : World}
    → total < 2 ^ 32
    → Calm (start total frames) x
    → NoneFits x.sem
Calm-NoneFits total frames small calm_here = (tt, λ _. refl)
Calm-NoneFits total frames small (calm_next r st k) =
    Step-NoneFits (Reach-IsSound total frames small (Calm-Reach r))
      (Calm-NoneFits total frames small r) st k
