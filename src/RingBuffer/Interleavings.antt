-- ===== src/RingBuffer/Interleavings.antt =====
-- What holds in every interleaving of the producer's and the consumer's steps.
use cornet.Base.{
  ℕ, ◌+◌, ◌%◌, ◌^◌, ◌<◌, ◌≡◌, ◌≢◌, refl, sym, ap, ◌∙◌, update, update-elim, List, [], ◌∷◌, ◌++◌,
  append_assoc, length, length-append, drop, arith,
}
use cornet.RingBuffer.{Ring, next_cursor}
use cornet.RingBuffer.Fifo.{
  IsRing, Holds-update, Holds-append_last, write_next, refresh_read-IsRing, refresh_write-IsRing,
  not_full, not_empty, rest-IsRing, first_element,
}
use cornet.RingBuffer.Runs.{empty_ring-IsRing}
use cornet.RingBuffer.Threads.{
  Producer, Consumer, Threads, idle, writing, publishing, waiting, reading, releasing, Step, Reach,
  start, push_refresh, push_check, push_write, push_publish, pop_refresh, pop_check, pop_read,
  pop_release, here, next,
}

module _ {ℓ} {A : Type ℓ} (k : ℕ) where
  -- The ring holds the queue that stands between the two threads, and what each of them has seen
  -- so far still lets it do what it is about to do.
  pub record IsThreads (x : Threads A) : Type ℓ where
    pub queue : List A
    pub ring : IsRing k x.ring queue
    pub will_fit : x.producer ≢ idle → ring.head + length queue + 1 < ring.read_seen + 2 ^ k
    pub written :
        (v : A)
        → x.producer ≡ publishing v
        → x.ring.container ((ring.head + length queue) % 2 ^ k) ≡ v
    pub will_take : x.consumer ≢ waiting → ring.head < ring.write_seen
    pub kept : x.consumer ≢ releasing → x.received ++ queue ≡ x.sent
    pub taken : x.consumer ≡ releasing → x.received ++ drop 1 queue ≡ x.sent

  module _ (x : Threads A) (i : IsThreads x) where
    abbrev publish-IsRing :
        (v : A)
        → x.producer ≡ publishing v
        → i.ring.head + length i.queue + 1 < i.ring.read_seen + 2 ^ k
        → IsRing k (record (x.ring) { write = next_cursor k x.ring.write }) (i.queue ++ v ∷ [])
    publish-IsRing v p fits =
        let r = i.ring in
        record {
          head = r.head;
          read_seen = r.read_seen;
          write_seen = r.write_seen;
          read_eq = r.read_eq;
          write_eq =
              write_next k x.ring i.queue r
              ∙ ap (λ t. t % 2 ^ k) (omega (arith, length-append i.queue (v ∷ [])));
          read_cache_eq = r.read_cache_eq;
          write_cache_eq = r.write_cache_eq;
          read_behind = r.read_behind;
          room = omega (arith, length-append i.queue (v ∷ []), fits);
          write_behind =
              (r.write_behind.0, omega (arith, length-append i.queue (v ∷ []), r.write_behind));
          holds = Holds-append_last k x.ring.container v r.head i.queue r.holds (i.written v p);
        }

    abbrev write-IsRing :
        (v : A)
        → x.producer ≡ writing v
        → i.ring.head + length i.queue + 1 < i.ring.read_seen + 2 ^ k
        → IsRing k (record (x.ring) { container = update x.ring.container x.ring.write v }) i.queue
    write-IsRing v p fits =
        let r = i.ring in
        record {
          head = r.head;
          read_seen = r.read_seen;
          write_seen = r.write_seen;
          read_eq = r.read_eq;
          write_eq = r.write_eq;
          read_cache_eq = r.read_cache_eq;
          write_cache_eq = r.write_cache_eq;
          read_behind = r.read_behind;
          room = r.room;
          write_behind = r.write_behind;
          holds = rw r.write_eq (
              Holds-update k x.ring.container v (r.head + length i.queue) r.head i.queue
                (omega arith) (omega (arith, r.room, r.read_behind)) r.holds);
        }

  publishing_inj : {v w : A} → ◌≡◌ {A = Producer A} (publishing v) (publishing w) → v ≡ w
  publishing_inj {v} e = ap (λ (p : Producer A). elim p [ publishing z ↦ z | _ ↦ v ]) e

  drop-append_last : (q : List A) (v : A) → 0 < length q → drop 1 (q ++ v ∷ []) ≡ drop 1 q ++ v ∷ []
  drop-append_last [] v h = absurd (omega arith)
  drop-append_last (x ∷ q) v h = refl

  -- The element that pop reads is the first of the queue.
  read-kept :
      (s : Ring A) (q : List A) (r : IsRing k s q) (received : List A)
      → r.head < r.write_seen
      → (received ++ s.container s.read ∷ []) ++ drop 1 q ≡ received ++ q
  read-kept s [] r received h = absurd (omega (arith, r.write_behind))
  read-kept s (x ∷ q) r received h =
      append_assoc received (s.container s.read ∷ []) q
      ∙ ap (λ y. received ++ y ∷ q) (first_element k s x q r)

  -- The ring after its first element is released: the producer's side is as before.
  released :
      (s : Ring A) (q : List A) (r : IsRing k s q)
      → r.head < r.write_seen
      → (t : IsRing k (record s { read = next_cursor k s.read }) (drop 1 q)) × (t.head
            + length (drop 1 q)
          ≡ r.head + length q)
        × (t.read_seen ≡ r.read_seen)
  released s [] r h = absurd (omega (arith, r.write_behind))
  released s (x ∷ q) r h = (rest-IsRing k s x q r h, omega arith, refl)

  pub Step-IsThreads : {x y : Threads A} → IsThreads x → Step k x y → IsThreads y
  Step-IsThreads {x = x} i (push_refresh p e q) = rw q (record {
    queue = i.queue;
    ring = refresh_read-IsRing k x.ring i.queue i.ring;
    will_fit = λ n. absurd (n p);
    written = λ v e. absurd (cc (sym p ∙ e));
    will_take = i.will_take;
    kept = i.kept;
    taken = i.taken;
  })
  Step-IsThreads {x = x} i (push_check v p e q) = rw q (record {
    queue = i.queue;
    ring = i.ring;
    will_fit = λ n. not_full k x.ring i.queue i.ring e;
    written = λ w f. absurd (cc f);
    will_take = i.will_take;
    kept = i.kept;
    taken = i.taken;
  })
  Step-IsThreads {x = x} i (push_write v p q) = rw q (record {
    queue = i.queue;
    ring = write-IsRing x i v p (i.will_fit (λ e. cc (sym p ∙ e)));
    will_fit = λ n. i.will_fit (λ e. cc (sym p ∙ e));
    written = λ w f.
        update-elim (λ y. y ≡ w) x.ring.container x.ring.write v _ (λ e. publishing_inj f)
          (λ ne. absurd (ne i.ring.write_eq));
    will_take = i.will_take;
    kept = i.kept;
    taken = i.taken;
  })
  Step-IsThreads {x = x} i (push_publish v p q) = rw q (record {
    queue = i.queue ++ v ∷ [];
    ring = publish-IsRing x i v p (i.will_fit (λ e. cc (sym p ∙ e)));
    will_fit = λ n. absurd (n refl);
    written = λ w f. absurd (cc f);
    will_take = i.will_take;
    kept = λ n. sym (append_assoc x.received i.queue (v ∷ [])) ∙ ap (λ l. l ++ v ∷ []) (i.kept n);
    taken = λ e.
        ap (λ l. x.received ++ l)
          (drop-append_last i.queue v
            (omega (arith, i.ring.write_behind, i.will_take (λ f. cc (sym e ∙ f)))))
        ∙ sym (append_assoc x.received (drop 1 i.queue) (v ∷ []))
        ∙ ap (λ l. l ++ v ∷ []) (i.taken e);
  })
  Step-IsThreads {x = x} i (pop_refresh p e q) = rw q (record {
    queue = i.queue;
    ring = refresh_write-IsRing k x.ring i.queue i.ring;
    will_fit = i.will_fit;
    written = i.written;
    will_take = λ n. absurd (n p);
    kept = i.kept;
    taken = i.taken;
  })
  Step-IsThreads {x = x} i (pop_check p e q) = rw q (record {
    queue = i.queue;
    ring = i.ring;
    will_fit = i.will_fit;
    written = i.written;
    will_take = λ n. not_empty k x.ring i.queue i.ring e;
    kept = λ n. i.kept (λ f. cc (sym p ∙ f));
    taken = λ f. absurd (cc f);
  })
  Step-IsThreads {x = x} i (pop_read p q) = rw q (record {
    queue = i.queue;
    ring = i.ring;
    will_fit = i.will_fit;
    written = i.written;
    will_take = λ n. i.will_take (λ f. cc (sym p ∙ f));
    kept = λ n. absurd (n refl);
    taken = λ f.
        read-kept x.ring i.queue i.ring x.received (i.will_take (λ g. cc (sym p ∙ g)))
        ∙ i.kept (λ g. cc (sym p ∙ g));
  })
  Step-IsThreads {x = x} i (pop_release p q) =
      let (r, same, seen) = released x.ring i.queue i.ring (i.will_take (λ f. cc (sym p ∙ f))) in
      rw q (record {
        queue = drop 1 i.queue;
        ring = r;
        will_fit = λ n. omega (arith, same, seen, i.will_fit n);
        written = λ v e. ap (λ t. x.ring.container (t % 2 ^ k)) same ∙ i.written v e;
        will_take = λ n. absurd (n refl);
        kept = λ n. i.taken p;
        taken = λ f. absurd (cc f);
      })

  start-IsThreads : (storage : ℕ → A) → IsThreads (start storage)
  start-IsThreads storage = record {
    queue = [];
    ring = empty_ring-IsRing k storage;
    will_fit = λ n. absurd (n refl);
    written = λ v e. absurd (cc e);
    will_take = λ n. absurd (n refl);
    kept = λ n. refl;
    taken = λ e. absurd (cc e);
  }

  pub Reach-IsThreads : (storage : ℕ → A) {x : Threads A} → Reach k (start storage) x → IsThreads x
  Reach-IsThreads storage here = start-IsThreads storage
  Reach-IsThreads storage (next r st) = Step-IsThreads (Reach-IsThreads storage r) st

  -- From a new ring of size 2 ^ k, in every interleaving of the loads and stores of one producer and
  -- one consumer, the values that the consumer has read are the first of the values that the
  -- producer has sent, in the same order, none lost, repeated or overwritten.
  pub Reach-prefix :
      (storage : ℕ → A) {x : Threads A}
      → Reach k (start storage) x
      → (behind : List A) × (x.received ++ behind ≡ x.sent)
  Reach-prefix storage {x = x} r = prefix x.consumer refl
    where
      i : IsThreads x
      i = Reach-IsThreads storage r

      prefix : (c : Consumer) → x.consumer ≡ c → (behind : List A) × (x.received ++ behind ≡ x.sent)
      prefix waiting e = (i.queue, i.kept (λ f. cc (sym e ∙ f)))
      prefix reading e = (i.queue, i.kept (λ f. cc (sym e ∙ f)))
      prefix releasing e = (drop 1 i.queue, i.taken e)
