-- ===== src/Concurrency/TimerWheel/Tails.antt =====
-- The part of a chain that a walk has still to visit stays the end of the chain, whatever is linked
-- or unlinked in front of it.
use cornet.Base.{
  ℕ, ◌≡◌, refl, sym, ap, ◌∙◌, inl, inr, true, ◌==◌, ==_iff, Bool-cases, Option-cases, update-elim,
  if-elim, ◌||◌, not, some, List, [], ◌∷◌, ◌++◌, append_assoc,
}
use cornet.Base.Members.{Has, Distinct, remove, remove-absent}
use cornet.Concurrency.TimerWheel.{
  Wheel, Call, arm_call, cancel_call, link, unlink, unlink_from, set_rounds, ensure_runner, arm,
  cancel, run_call, ticks_of, run_calls, head_of, after,
}
use cornet.Concurrency.TimerWheel.Calls.{IsOwn}

abbrev pub EndsWith : List ℕ → List ℕ → Type 0
EndsWith post xs = (pre : List ℕ) × (xs ≡ pre ++ post)

pub Has-append_right : (v : ℕ) (pre post : List ℕ) → Has v post → Has v (pre ++ post)
Has-append_right v [] post h = h
Has-append_right v (x ∷ pre) post h = inr (Has-append_right v pre post h)

-- Around the node that is visited, in a chain without repetitions.
pub after-middle :
    (v : ℕ) (pre post : List ℕ)
    → Distinct (pre ++ v ∷ post)
    → after v (pre ++ v ∷ post) ≡ head_of post
unfolding after
after-middle v [] post d = rw ((==_iff v v).1 refl) refl
after-middle v (x ∷ pre) post d = elim (Bool-cases (x == v)) [
  | inl e ↦ absurd (d.0 (Has-append_right x pre (v ∷ post) (inl ((==_iff x v).0 e))))
  | inr e ↦ rw e (after-middle v pre post d.1)
]

remove-EndsWith :
    (v : ℕ) (pre post : List ℕ) → ¬ (Has v post) → EndsWith post (remove v (pre ++ post))
remove-EndsWith v [] post n = ([], remove-absent v post n)
remove-EndsWith v (x ∷ pre) post n = elim (Bool-cases (x == v)) [
  | inl e ↦ rw e (pre, refl)
  | inr e ↦ let (front, p) = remove-EndsWith v pre post n in rw e (x ∷ front, ap (◌∷◌ x) p)
]

remove-middle : (v : ℕ) (pre post : List ℕ) → EndsWith post (remove v (pre ++ v ∷ post))
remove-middle v [] post = ([], rw ((==_iff v v).1 refl) refl)
remove-middle v (x ∷ pre) post = elim (Bool-cases (x == v)) [
  | inl e ↦ rw e (pre ++ v ∷ [], sym (append_assoc pre (v ∷ []) post))
  | inr e ↦ let (front, p) = remove-middle v pre post in rw e (x ∷ front, ap (◌∷◌ x) p)
]

module _ (v c : ℕ) (post : List ℕ) where
  unlink-EndsWith :
      (w : Wheel)
      → ¬ (Has v post)
      → EndsWith post (w.slots c)
      → EndsWith post ((unlink v w).slots c)
  unfolding unlink unlink_from
  unlink-EndsWith w n (pre, e) = elim (Option-cases (w.nodes v).slot) [
    | inl s ↦ rw s (pre, e)
    | inr (k, s) ↦ rw s (
        update-elim (EndsWith post) w.slots k (remove v (w.slots k)) c
          (λ p. rw (p, e) (remove-EndsWith v pre post n)) (λ ne. (pre, e)))
  ]

  link-EndsWith :
      (k : ℕ) (w : Wheel) → EndsWith post (w.slots c) → EndsWith post ((link v k w).slots c)
  unfolding link
  link-EndsWith k w (pre, e) =
      update-elim (EndsWith post) w.slots k (v ∷ w.slots k) c
        (λ p. (v ∷ pre, ap (◌∷◌ v) (ap w.slots p ∙ e))) (λ ne. (pre, e))

  set_rounds-EndsWith :
      (n : ℕ) (w : Wheel) → EndsWith post (w.slots c) → EndsWith post ((set_rounds v n w).slots c)
  unfolding set_rounds
  set_rounds-EndsWith n w h = h

  ensure_runner-EndsWith :
      (w : Wheel) → EndsWith post (w.slots c) → EndsWith post ((ensure_runner w).slots c)
  unfolding ensure_runner
  ensure_runner-EndsWith w h =
      if-elim (λ (u : Wheel). EndsWith post (u.slots c)) (w.runner_live || not w.running) w
        (record w { runner_live = true }) (λ e. h) (λ e. h)

  arm-EndsWith :
      (delay : ℕ) (w : Wheel)
      → ¬ (Has v post)
      → EndsWith post (w.slots c)
      → EndsWith post ((arm v delay w).slots c)
  unfolding arm
  arm-EndsWith delay w n h = ensure_runner-EndsWith _ (
      link-EndsWith _ _
        (set_rounds-EndsWith (ticks_of w.tick delay) (unlink v w) (unlink-EndsWith w n h)))

-- The node at hand is taken out.
pub unlink-middle :
    (v c : ℕ) (post : List ℕ) (w : Wheel)
    → (w.nodes v).slot ≡ some c
    → EndsWith (v ∷ post) (w.slots c)
    → EndsWith post ((unlink v w).slots c)
unfolding unlink unlink_from
unlink-middle v c post w s (pre, e) = rw s (
    update-elim (EndsWith post) w.slots c (remove v (w.slots c)) c
      (λ p. rw e (remove-middle v pre post)) (λ ne. absurd (ne refl)))

pub run_calls-EndsWith :
    (v c : ℕ) (post : List ℕ) (tick : ℕ) (cs : List Call) (w : Wheel)
    → IsOwn tick v cs
    → ¬ (Has v post)
    → EndsWith post (w.slots c)
    → EndsWith post ((run_calls cs w).slots c)
unfolding run_calls run_call cancel
run_calls-EndsWith v c post tick [] w own n h = h
run_calls-EndsWith v c post tick (arm_call x delay ∷ cs) w (e, fits, own) n h =
    run_calls-EndsWith v c post tick cs (arm x delay w) own n
      (rw (← e) (arm-EndsWith v c post delay w n h))
run_calls-EndsWith v c post tick (cancel_call x ∷ cs) w (e, own) n h =
    run_calls-EndsWith v c post tick cs (unlink x w) own n
      (rw (← e) (unlink-EndsWith v c post w n h))
