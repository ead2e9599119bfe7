-- ===== src/RingBuffer/Fifo.antt =====
-- The ring against a queue of fewer than 2 ^ k elements.
use cornet.Base.{
  ℕ, ◌+◌, ◌%◌, ◌^◌, ◌<◌, ◌≤◌, ◌≡◌, refl, sym, ap, ◌∙◌, inl, inr, false, if◌then◌else◌, ltb, lt→ltb,
  ge→ltb, le_or_lt, ◌==◌, ==_iff, Bool-cases, update-elim, update, some, List, [], ◌∷◌, ◌++◌,
  length, length-append, get_elem?, drop, arith,
}
use cornet.RingBuffer.{emplace, Ring, next_cursor, refresh_read, store, push, refresh_write, pop}
use cornet.RingBuffer.Cursors.{cursor-differ, next_cursor-mod, size_positive, full_iff, empty_iff}

-- The elements of `q` stand in the storage from the counter `h` on.
abbrev pub Holds {ℓ} : {A : Type ℓ} → ℕ → (ℕ → A) → ℕ → List A → Type ℓ
Holds n c h [] = Unit
Holds n c h (x ∷ xs) = (c (h % n) ≡ x) × Holds n c (h + 1) xs

-- The ring holds the queue `q`: its cursors are counters modulo the size, `q` stands between them,
-- and each cached cursor is an earlier value of the other side's.
pub record IsRing {ℓ} {A : Type ℓ} (k : ℕ) (s : Ring A) (q : List A) : Type ℓ where
  pub head : ℕ
  pub read_seen : ℕ
  pub write_seen : ℕ
  pub read_eq : s.read ≡ head % 2 ^ k
  pub write_eq : s.write ≡ (head + length q) % 2 ^ k
  pub read_cache_eq : s.read_cache ≡ read_seen % 2 ^ k
  pub write_cache_eq : s.write_cache ≡ write_seen % 2 ^ k
  pub read_behind : read_seen ≤ head
  pub room : head + length q < read_seen + 2 ^ k
  pub write_behind : (head ≤ write_seen) × (write_seen ≤ head + length q)
  pub holds : Holds (2 ^ k) s.container head q

length-zero {ℓ} : {A : Type ℓ} (q : List A) → length q ≡ 0 → q ≡ []
length-zero [] e = refl
length-zero (x ∷ q) e = absurd (omega arith)

module _ {ℓ} {A : Type ℓ} (k : ℕ) where
  -- A write behind the queue leaves the queue.
  pub Holds-update :
      (c : ℕ → A) (v : A) (t h : ℕ) (q : List A)
      → h + length q ≤ t
      → t < h + 2 ^ k
      → Holds (2 ^ k) c h q
      → Holds (2 ^ k) (update c (t % 2 ^ k) v) h q
  Holds-update c v t h [] le lt i = tt
  Holds-update c v t h (x ∷ q) le lt (e, i) = (
    update-elim (λ y. y ≡ x) c (t % 2 ^ k) v (h % 2 ^ k)
        (λ p. absurd (cursor-differ (2 ^ k) (size_positive k) h t (omega arith) lt (sym p)))
        (λ ne. e),
    Holds-update c v t (h + 1) q (omega arith) (omega arith) i,
  )

  pub Holds-append_last :
      (c : ℕ → A) (v : A) (h : ℕ) (q : List A)
      → Holds (2 ^ k) c h q
      → c ((h + length q) % 2 ^ k) ≡ v
      → Holds (2 ^ k) c h (q ++ v ∷ [])
  Holds-append_last c v h [] i e = (ap (λ t. c (t % 2 ^ k)) (omega arith) ∙ e, tt)
  Holds-append_last c v h (x ∷ q) (p, i) e =
      (p, Holds-append_last c v (h + 1) q i (ap (λ t. c (t % 2 ^ k)) (omega arith) ∙ e))

  module _ (s : Ring A) (q : List A) (i : IsRing k s q) where
    pub write_next : next_cursor k s.write ≡ (i.head + length q + 1) % 2 ^ k
    write_next = ap (next_cursor k) i.write_eq ∙ next_cursor-mod k (i.head + length q)

    store-IsRing :
        (v : A) → i.head + length q + 1 < i.read_seen + 2 ^ k → IsRing k (store k v s) (q ++ v ∷ [])
    unfolding store
    store-IsRing v fits = record {
      head = i.head;
      read_seen = i.read_seen;
      write_seen = i.write_seen;
      read_eq = i.read_eq;
      write_eq = write_next ∙ ap (λ t. t % 2 ^ k) (omega (arith, length-append q (v ∷ [])));
      read_cache_eq = i.read_cache_eq;
      write_cache_eq = i.write_cache_eq;
      read_behind = i.read_behind;
      room = omega (arith, length-append q (v ∷ []), fits);
      write_behind = (i.write_behind.0, omega (arith, length-append q (v ∷ []), i.write_behind));
      holds = rw i.write_eq (
          Holds-append_last (update s.container ((i.head + length q) % 2 ^ k) v) v i.head q
            (Holds-update s.container v (i.head + length q) i.head q (omega arith)
              (omega (arith, i.room, i.read_behind)) i.holds)
            (update-elim (λ y. y ≡ v) s.container ((i.head + length q) % 2 ^ k) v
              ((i.head + length q) % 2 ^ k) (λ e. refl) (λ ne. absurd (ne refl))));
    }

    abbrev pub refresh_read-IsRing : IsRing k (record s { read_cache = s.read }) q
    refresh_read-IsRing = record {
      head = i.head;
      read_seen = i.head;
      write_seen = i.write_seen;
      read_eq = i.read_eq;
      write_eq = i.write_eq;
      read_cache_eq = i.read_eq;
      write_cache_eq = i.write_cache_eq;
      read_behind = omega arith;
      room = omega (arith, i.room, i.read_behind);
      write_behind = i.write_behind;
      holds = i.holds;
    }

    abbrev pub refresh_write-IsRing : IsRing k (record s { write_cache = s.write }) q
    refresh_write-IsRing = record {
      head = i.head;
      read_seen = i.read_seen;
      write_seen = i.head + length q;
      read_eq = i.read_eq;
      write_eq = i.write_eq;
      read_cache_eq = i.read_cache_eq;
      write_cache_eq = i.write_eq;
      read_behind = i.read_behind;
      room = i.room;
      write_behind = (omega arith, omega arith);
      holds = i.holds;
    }

    -- The full test against the cached cursor.
    pub not_full :
        (next_cursor k s.write == s.read_cache) ≡ false
        → i.head + length q + 1 < i.read_seen + 2 ^ k
    not_full e = elim (le_or_lt (i.read_seen + 2 ^ k) (i.head + length q + 1)) [
      | inr h ↦ h
      | inl h ↦
          let same =
            (full_iff k i.read_seen (i.head + length q + 1) (omega (arith, i.read_behind))
                (omega (arith, i.room))).1
              (omega (arith, i.room)) in
          absurd (cc (e, (==_iff _ _).1 (write_next ∙ same ∙ sym i.read_cache_eq)))
    ]

    -- The empty test against the cached cursor.
    pub not_empty : (s.read == s.write_cache) ≡ false → i.head < i.write_seen
    not_empty e = elim (le_or_lt i.write_seen i.head) [
      | inr h ↦ h
      | inl h ↦
          let same : i.head ≡ i.write_seen = omega (arith, i.write_behind) in
          absurd
            (cc (e, (==_iff _ _).1 (i.read_eq ∙ ap (λ t. t % 2 ^ k) same ∙ sym i.write_cache_eq)))
    ]

  -- The ring behind its first element.
  abbrev pub rest-IsRing :
      (s : Ring A) (x : A) (q : List A) (i : IsRing k s (x ∷ q))
      → i.head < i.write_seen
      → IsRing k (record s { read = next_cursor k s.read }) q
  rest-IsRing s x q i h = record {
    head = i.head + 1;
    read_seen = i.read_seen;
    write_seen = i.write_seen;
    read_eq = ap (next_cursor k) i.read_eq ∙ next_cursor-mod k i.head;
    write_eq = i.write_eq ∙ ap (λ t. t % 2 ^ k) (omega arith);
    read_cache_eq = i.read_cache_eq;
    write_cache_eq = i.write_cache_eq;
    read_behind = omega (arith, i.read_behind);
    room = omega (arith, i.room);
    write_behind = (omega arith, omega (arith, i.write_behind));
    holds = i.holds.1;
  }

  pub first_element :
      (s : Ring A) (x : A) (q : List A) → IsRing k s (x ∷ q) → s.container s.read ≡ x
  first_element s x q i = ap s.container i.read_eq ∙ i.holds.0

  take-IsRing :
      (s : Ring A) (q : List A) (i : IsRing k s q)
      → i.head < i.write_seen
      → (some (s.container s.read) ≡ get_elem? q 0)
        × IsRing k (record s { read = next_cursor k s.read }) (drop 1 q)
  take-IsRing s [] i h = absurd (omega (arith, i.write_behind))
  take-IsRing s (x ∷ q) i h = (ap some (first_element s x q i), rest-IsRing s x q i h)

  -- Where the ring holds `q`, push succeeds just where `q` has fewer than 2 ^ k - 1 elements, the
  -- cached cursor stale or not; then the ring holds `q` with the value at its end, else `q`.
  pub push-Fifo :
      (s : Ring A) (q : List A) (v : A)
      → IsRing k s q
      → ((push k v s).1 ≡ ltb (length q + 1) (2 ^ k))
        × IsRing k (push k v s).0 (if ltb (length q + 1) (2 ^ k) then q ++ v ∷ [] else q)
  unfolding push refresh_read
  push-Fifo s q v i = elim (Bool-cases (next_cursor k s.write == s.read_cache)) [
    | inr e ↦
        let fits = not_full s q i e in
        let fits_q : length q + 1 < 2 ^ k = omega (arith, fits, i.read_behind) in
        rw (e, lt→ltb (length q + 1) (2 ^ k) fits_q) (rw e (refl, store-IsRing s q i v fits))
    | inl e ↦
        let j = refresh_read-IsRing s q i in
        elim (Bool-cases (next_cursor k s.write == s.read)) [
          | inr f ↦
              let fits = not_full (record s { read_cache = s.read }) q j f in
              let fits_q : length q + 1 < 2 ^ k = omega (arith, fits) in
              rw (e, lt→ltb (length q + 1) (2 ^ k) fits_q)
                (rw f (refl, store-IsRing (record s { read_cache = s.read }) q j v fits))
          | inl f ↦
              let same =
                (full_iff k i.head (i.head + length q + 1) (omega arith)
                    (omega (arith, i.room, i.read_behind))).0
                  (sym (write_next s q i) ∙ (==_iff _ _).0 f ∙ i.read_eq) in
              rw (e, ge→ltb (length q + 1) (2 ^ k) (omega (arith, same))) (rw f (refl, j))
        ]
  ]

  -- Where the ring holds `q`, pop gives the first element of `q`, none just where `q` is empty, and
  -- the ring holds the rest, the cached cursor stale or not.
  pub pop-Fifo :
      (s : Ring A) (q : List A)
      → IsRing k s q
      → ((pop k s).1 ≡ get_elem? q 0) × IsRing k (pop k s).0 (drop 1 q)
  unfolding pop refresh_write
  pop-Fifo s q i = elim (Bool-cases (s.read == s.write_cache)) [
    | inr e ↦ rw e (rw e (take-IsRing s q i (not_empty s q i e)))
    | inl e ↦
        let j = refresh_write-IsRing s q i in
        elim (Bool-cases (s.read == s.write)) [
          | inr f ↦ rw e (
              rw f (
                take-IsRing (record s { write_cache = s.write }) q j
                  (not_empty (record s { write_cache = s.write }) q j f)))
          | inl f ↦
              let same =
                (empty_iff k i.head (i.head + length q) (omega arith)
                    (omega (arith, i.room, i.read_behind))).0
                  (sym i.read_eq ∙ (==_iff _ _).0 f ∙ i.write_eq) in
              let nothing : length q ≡ 0 = omega (arith, same) in
              let q0 = length-zero q nothing in
              rw e (rw f (sym (ap (λ l. get_elem? l 0) q0), rw q0 (rw q0 at j)))
        ]
  ]

-- Emplacing pushes what the arguments construct.
emplace-eq-push {ℓ κ} :
    {A : Type ℓ} {B : Type κ} (k : ℕ) (make : B → A) (args : B) (s : Ring A)
    → emplace k make args s ≡ push k (make args) s
unfolding emplace push
emplace-eq-push k make args s = refl
