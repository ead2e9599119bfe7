-- ===== src/Concurrency/TimerWheel/Chains.antt =====
-- The chains of the wheel: each armed node is once in the chain of its slot and nowhere else.
use cornet.Base.{
  ℕ, ◌<◌, ◌≡◌, ◌≢◌, refl, sym, subst, ap, ◌∙◌, inl, inr, ◌==◌, ==_iff, Bool-cases, Option-cases,
  update-elim, Option, none, some, ◌∷◌, arith,
}
use cornet.Base.Members.{
  Has, Distinct, remove, Has-remove, remove-keeps, remove-Distinct, not-Has-remove,
}
use cornet.Concurrency.TimerWheel.{Node, Wheel, slot_count, make, link, unlink, unlink_from}

pub record IsWheel (w : Wheel) : Type 0 where
  pub cursor_below : w.cursor < slot_count
  pub tick_positive : 0 < w.tick
  pub distinct : (k : ℕ) → Distinct (w.slots k)
  pub in_slot : (v k : ℕ) → Has v (w.slots k) → (w.nodes v).slot ≡ some k
  pub in_chain : (v k : ℕ) → (w.nodes v).slot ≡ some k → Has v (w.slots k)
  pub slot_below : (v k : ℕ) → (w.nodes v).slot ≡ some k → k < slot_count

pub some_inj : {k j : ℕ} → some k ≡ some j → k ≡ j
some_inj {k} e = ap (λ (o : Option ℕ). elim o [ some x ↦ x | none ↦ k ]) e

none-some : {k : ℕ} → none ≢ some k
none-some e = cc e

module _ (v k : ℕ) (w : Wheel) where
  pub link-IsWheel : (w.nodes v).slot ≡ none → k < slot_count → IsWheel w → IsWheel (link v k w)
  unfolding link
  link-IsWheel free below i = record {
    cursor_below = i.cursor_below;
    tick_positive = i.tick_positive;
    distinct = λ j.
        update-elim Distinct w.slots k (v ∷ w.slots k) j
          (λ e. ((λ h. cc (free, i.in_slot v k h)), i.distinct k)) (λ e. i.distinct j);
    in_slot = λ x j. elim (Bool-cases (v == x)) [
      | inl e ↦ rw e (
          update-elim (λ l. Has x l → some k ≡ some j) w.slots k (v ∷ w.slots k) j
            (λ p h. ap some p) (λ ne h. cc (free, (==_iff v x).0 e, i.in_slot x j h)))
      | inr e ↦ rw e (
          update-elim (λ l. Has x l → (w.nodes x).slot ≡ some j) w.slots k (v ∷ w.slots k) j
            (λ p h. elim h [
              | inl q ↦ cc (e, (==_iff v x).1 (sym q))
              | inr t ↦ i.in_slot x k t ∙ ap some p
            ])
            (λ ne h. i.in_slot x j h))
    ];
    in_chain = λ x j. elim (Bool-cases (v == x)) [
      | inl e ↦ rw e (λ p.
          update-elim (Has x) w.slots k (v ∷ w.slots k) j (λ q. inl (sym ((==_iff v x).0 e)))
            (λ ne. absurd (ne (some_inj p))))
      | inr e ↦ rw e (λ p.
          update-elim (Has x) w.slots k (v ∷ w.slots k) j
            (λ q. inr (i.in_chain x k (p ∙ ap some (sym q)))) (λ ne. i.in_chain x j p))
    ];
    slot_below = λ x j.
        update-elim (λ n. n.slot ≡ some j → j < slot_count) w.nodes v
          (record (w.nodes v) { slot = some k }) x
          (λ e p. subst (λ z. z < slot_count) (some_inj p) below) (λ ne p. i.slot_below x j p);
  }

module _ (v : ℕ) (w : Wheel) where
  unlinked-IsWheel :
      (k : ℕ) → (w.nodes v).slot ≡ some k → IsWheel w → IsWheel (unlink_from (some k) v w)
  unfolding unlink_from
  unlinked-IsWheel k here i = record {
    cursor_below = i.cursor_below;
    tick_positive = i.tick_positive;
    distinct = λ j.
        update-elim Distinct w.slots k (remove v (w.slots k)) j
          (λ e. remove-Distinct v (w.slots k) (i.distinct k)) (λ e. i.distinct j);
    in_slot = λ x j. elim (Bool-cases (v == x)) [
      | inl e ↦ rw e (
          update-elim (λ l. Has x l → none ≡ some j) w.slots k (remove v (w.slots k)) j
            (λ p h. absurd (
              not-Has-remove v (w.slots k) (i.distinct k)
                (subst (λ z. Has z (remove v (w.slots k))) (sym ((==_iff v x).0 e)) h)))
            (λ ne h. absurd (
              ne (
                some_inj
                  (sym here ∙ ap (λ z. (w.nodes z).slot) ((==_iff v x).0 e) ∙ i.in_slot x j h)))))
      | inr e ↦ rw e (
          update-elim (λ l. Has x l → (w.nodes x).slot ≡ some j) w.slots k (remove v (w.slots k)) j
            (λ p h. i.in_slot x k (Has-remove x v (w.slots k) h) ∙ ap some p)
            (λ ne h. i.in_slot x j h))
    ];
    in_chain = λ x j. elim (Bool-cases (v == x)) [
      | inl e ↦ rw e (λ p. absurd (none-some p))
      | inr e ↦ rw e (λ p.
          update-elim (Has x) w.slots k (remove v (w.slots k)) j
            (λ q.
              remove-keeps x v (w.slots k) (λ z. cc (e, (==_iff v x).1 (sym z)))
                (i.in_chain x k (p ∙ ap some (sym q))))
            (λ ne. i.in_chain x j p))
    ];
    slot_below = λ x j.
        update-elim (λ n. n.slot ≡ some j → j < slot_count) w.nodes v
          (record (w.nodes v) { slot = none }) x (λ e p. absurd (none-some p))
          (λ ne p. i.slot_below x j p);
  }

  -- What `unlink` leaves: `v` is not armed, every other node is as before.
  pub unlink-IsWheel : IsWheel w → IsWheel (unlink v w)
  unfolding unlink
  unlink-IsWheel i = elim (Option-cases (w.nodes v).slot) [
    | inl e ↦ rw e (unfold unlink_from in i)
    | inr (k, e) ↦ rw e (unlinked-IsWheel k e i)
  ]

  pub unlink-slot : ((unlink v w).nodes v).slot ≡ none
  unfolding unlink unlink_from
  unlink-slot = elim (Option-cases (w.nodes v).slot) [
    | inl e ↦ rw e e
    | inr (k, e) ↦ rw e (ground arith)
  ]

  pub unlink-others : (x : ℕ) → v ≢ x → (unlink v w).nodes x ≡ w.nodes x
  unfolding unlink unlink_from
  unlink-others x ne = elim (Option-cases (w.nodes v).slot) [
    | inl e ↦ rw e refl
    | inr (k, e) ↦ rw e (ground arith)
  ]

  pub unlink-cursor : ((unlink v w).cursor ≡ w.cursor) × ((unlink v w).tick ≡ w.tick)
  unfolding unlink unlink_from
  unlink-cursor = elim (Option-cases (w.nodes v).slot) [
    | inl e ↦ rw e (refl, refl)
    | inr (k, e) ↦ rw e (refl, refl)
  ]

-- A new wheel, in front of nodes of which none is armed.
pub make-IsWheel :
    (tick : ℕ) (nodes : ℕ → Node) → ((v : ℕ) → (nodes v).slot ≡ none) → IsWheel (make tick nodes)
unfolding make
make-IsWheel tick nodes free = record {
  cursor_below = omega arith;
  tick_positive = ground arith;
  distinct = λ k. tt;
  in_slot = λ v k h. absurd h;
  in_chain = λ v k e. absurd (cc (e, free v));
  slot_below = λ v k e. absurd (cc (e, free v));
}
