-- ===== src/Concurrency/Semaphore/Wake.antt =====
-- What the grant loop does to the waiters, and what the calls around it promise.
use cornet.Base.{
  ℕ, zero, suc, ◌+◌, ◌<◌, ◌≤◌, ◌≡◌, ◌≢◌, refl, sym, ap, ap₂, ◌∙◌, inl, inr, true, false, leb, List,
  [], ◌∷◌, ◌++◌, append_assoc, append-nil, length, All, Bool-cases, arith,
}
use cornet.Base.Members.{remove-head}
use cornet.Concurrency.Semaphore.{Awaiter, Semaphore, grant, wake_loop, wake_ready}

-- The permits that some awaiters ask for.
abbrev pub needs : (ℕ → Awaiter) → List ℕ → ℕ
needs frames [] = 0
needs frames (w ∷ ws) = (frames w).need + needs frames ws

-- No waiter that fits is left at the head.
abbrev pub HeadBlocked : Semaphore → List ℕ → Type 0
HeadBlocked s [] = Unit
HeadBlocked s (w ∷ q) = s.count < (s.awaiters w).need

abbrev IsGranted : Semaphore → ℕ → Type 0
IsGranted s w = ((s.awaiters w).granted ≡ true) × ((s.awaiters w).queued ≡ false)

-- From `s` to `t` the longest prefix of the queue that fits has been granted, in order.
pub record Woken (s t : Semaphore) : Type 0 where
  pub served : List ℕ
  pub splits : s.queue ≡ served ++ t.queue
  pub scheduled : t.ready ≡ s.ready ++ served
  pub paid : t.count + needs s.awaiters served ≡ s.count
  pub blocked : HeadBlocked t t.queue
  pub marked : All (IsGranted t) served
  pub others : (v : ℕ) → All (λ w. w ≢ v) served → t.awaiters v ≡ s.awaiters v
  pub same_need : (v : ℕ) → (t.awaiters v).need ≡ (s.awaiters v).need
  pub monotone : (v : ℕ) → IsGranted s v → IsGranted t v
  pub same_abort : (t.aborted ≡ s.aborted) × (t.abort_err ≡ s.abort_err)

needs_same :
    (f g : ℕ → Awaiter) (ws : List ℕ)
    → ((v : ℕ) → (f v).need ≡ (g v).need)
    → needs f ws ≡ needs g ws
needs_same f g [] h = refl
needs_same f g (w ∷ ws) h = ap₂ ◌+◌ (h w) (needs_same f g ws h)

module _ (w : ℕ) (s : Semaphore) where
  grant-need : (v : ℕ) → ((grant w s).awaiters v).need ≡ (s.awaiters v).need
  unfolding grant
  grant-need v = ground arith

  grant-IsGranted : IsGranted (grant w s) w
  unfolding grant
  grant-IsGranted = ground arith

  grant-monotone : (v : ℕ) → IsGranted s v → IsGranted (grant w s) v
  unfolding grant
  grant-monotone v h = ground arith

  grant-others : (v : ℕ) → w ≢ v → (grant w s).awaiters v ≡ s.awaiters v
  unfolding grant
  grant-others v h = ground arith

  grant-queue : (q : List ℕ) → s.queue ≡ w ∷ q → (grant w s).queue ≡ q
  unfolding grant
  grant-queue q e = rw e (remove-head w q)

wake_stop : (s : Semaphore) → HeadBlocked s s.queue → Woken s s
wake_stop s h = record {
  served = [];
  splits = refl;
  scheduled = sym (append-nil s.ready);
  paid = omega arith;
  blocked = h;
  marked = tt;
  others = λ v _. refl;
  same_need = λ v. refl;
  monotone = λ v g. g;
  same_abort = (refl, refl);
}

wake_next :
    (w : ℕ) (q : List ℕ) (s t : Semaphore)
    → s.queue ≡ w ∷ q
    → (s.awaiters w).need ≤ s.count
    → Woken (grant w s) t
    → Woken s t
unfolding grant
wake_next w q s t e h r = record {
  served = w ∷ r.served;
  splits = e ∙ ap (◌∷◌ w) (sym (grant-queue w s q e) ∙ r.splits);
  scheduled = r.scheduled ∙ append_assoc s.ready (w ∷ []) r.served;
  paid =
      omega (arith, r.paid, needs_same (grant w s).awaiters s.awaiters r.served (grant-need w s));
  blocked = r.blocked;
  marked = (r.monotone w (grant-IsGranted w s), r.marked);
  others = λ v a. r.others v a.1 ∙ grant-others w s v a.0;
  same_need = λ v. r.same_need v ∙ grant-need w s v;
  monotone = λ v g. r.monotone v (grant-monotone w s v g);
  same_abort = r.same_abort;
}

wake_loop-Woken :
    (n : ℕ) (q : List ℕ) (s : Semaphore) → length q ≤ n → s.queue ≡ q → Woken s (wake_loop n q s)
unfolding wake_loop
wake_loop-Woken zero [] s h e = wake_stop s (rw e tt)
wake_loop-Woken zero (w ∷ q) s h e = absurd (omega arith)
wake_loop-Woken (suc n) [] s h e = wake_stop s (rw e tt)
wake_loop-Woken (suc n) (w ∷ q) s h e = elim (Bool-cases (leb (s.awaiters w).need s.count)) [
  | inl fits ↦ rw fits (
      wake_next w q s _ e (ground arith) (
        wake_loop-Woken n (grant w s).queue (grant w s) (rw (grant-queue w s q e) (omega arith))
          refl))
  | inr short ↦ rw short (wake_stop s (rw e (ground arith)))
]

-- `wake_ready` takes the longest prefix of the queue whose needs fit the count, and no more: it
-- schedules those awaiters in their order, marks them granted, and takes their needs off the count.
pub wake_ready-Woken : (s : Semaphore) → Woken s (wake_ready s)
unfolding wake_ready
wake_ready-Woken s = wake_loop-Woken (length s.queue) s.queue s (omega arith) refl
