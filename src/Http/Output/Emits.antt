-- ===== src/Http/Output/Emits.antt =====
-- What a run of writes does to an output buffer: all of its text, or a latched error behind a part of it.
use cornet.Base.{
  ℕ, ◌+◌, ◌-◌, ◌%◌, ◌^◌, ◌<◌, ◌≤◌, ◌≡◌, ◌≢◌, refl, sym, ap, ◌∙◌, ltb, lt→ltb, ge→ltb, le_or_lt,
  Option-cases, Option, none, some, List, [], ◌∷◌, ◌++◌, append_assoc, append-nil, length,
  length-append, take, take_all, arith, true, false, if◌then◌else◌, inl, inr,
}
use cornet.Http.Protocol.{HttpError}
use cornet.Http.Decimal.{write_u64}
use cornet.Http.Decimal.RoundTrip.{write_u64-IsDecimal}
use cornet.Http.Output.{
  OutBuffer, fail, latch, room_of, remaining, failed, put, put_view, put_byte, put_crlf, put_u64,
}

-- No write has gone past the end of the lease.
abbrev pub Fits : Option ℕ → List ℕ → Type 0
Fits none text = length text ≡ 0
Fits (some capacity) text = length text ≤ capacity

abbrev pub IsValid : OutBuffer → Type 0
IsValid out = Fits out.lease out.text

-- A run that writes `s`, and is sure to succeed where `need` bytes are left.
pub record Emits (s : List ℕ) (need : ℕ) (out out' : OutBuffer) : Type 0 where
  pub same_lease : out'.lease ≡ out.lease
  pub latched : out.error ≢ none → out' ≡ out
  pub written : out.error ≡ none → out'.error ≡ none → out'.text ≡ out.text ++ s
  pub reason : out.error ≡ none → out'.error ≢ none → out'.error ≡ some HttpError.output_overflow
  pub enough : out.error ≡ none → need ≤ remaining out → out'.error ≡ none
  pub grows : (more : List ℕ) × (out'.text ≡ out.text ++ more)
  pub valid : IsValid out → IsValid out'

pub failed-none : (out : OutBuffer) → out.error ≡ none → failed out ≡ false
unfolding failed
failed-none out e = ground arith

pub failing :
    (out : OutBuffer) (e : HttpError)
    → out.error ≡ none
    → fail out e ≡ record out { error = some e }
unfolding fail latch
failing out e h = rw h refl

-- A failure is always left with an error, and is nothing behind an earlier one.
pub fail-error :
    (out : OutBuffer) (e : HttpError)
    → ((fail out e).error ≢ none) × (out.error ≢ none → fail out e ≡ out)
unfolding fail latch
fail-error out e = elim (Option-cases out.error) [
  | inl z ↦ rw z ((λ n. cc n), λ n. absurd (n refl))
  | inr (first, z) ↦ (
    (λ n. cc (ap (λ o. latch o e) z, n)),
    λ n. ap (λ o. record out { error = o }) (ap (λ o. latch o e) z ∙ sym z),
  )
]

failed-some : (out : OutBuffer) → out.error ≢ none → failed out ≡ true
unfolding failed
failed-some out n = elim (Option-cases out.error) [
  | inl e ↦ absurd (n e)
  | inr (err, e) ↦ ground arith
]

Fits-append :
    (lease : Option ℕ) (text s : List ℕ)
    → length s ≤ room_of lease text
    → Fits lease text
    → Fits lease (text ++ s)
unfolding room_of
Fits-append none text s h f = omega (arith, length-append text s)
Fits-append (some capacity) text s h f = omega (arith, length-append text s)

-- Each writer is one of three: nothing after a failure, a failure, or the text.
write : OutBuffer → ℕ → List ℕ → OutBuffer
write out need s =
    if failed out
    then out
    else if ltb (remaining out) need
    then record out { error = some HttpError.output_overflow }
    else record out { text = out.text ++ s }

write-Emits :
    (out : OutBuffer) (need : ℕ) (s : List ℕ)
    → length s ≤ need
    → Emits s need out (write out need s)
unfolding write remaining
write-Emits out need s h = elim (Option-cases out.error) [
  | inr (err, e) ↦
      let bad : out.error ≢ none = (λ z. cc (e, z)) in
      rw (failed-some out bad) (record {
        same_lease = refl;
        latched = λ _. refl;
        written = λ z _. absurd (bad z);
        reason = λ z _. absurd (bad z);
        enough = λ z _. absurd (bad z);
        grows = ([], sym (append-nil out.text));
        valid = λ v. v;
      })
  | inl e ↦ elim (le_or_lt need (room_of out.lease out.text)) [
    | inl fits ↦
        rw (failed-none out e, ge→ltb (room_of out.lease out.text) need fits)
          (record {
            same_lease = refl;
            latched = λ n. absurd (n e);
            written = λ _ _. refl;
            reason = λ _ n. absurd (n e);
            enough = λ _ _. e;
            grows = (s, refl);
            valid = Fits-append out.lease out.text s (omega arith);
          })
    | inr short ↦
        rw (failed-none out e, lt→ltb (room_of out.lease out.text) need short)
          (record {
            same_lease = refl;
            latched = λ n. absurd (n e);
            written = λ _ z. absurd (cc z);
            reason = λ _ _. refl;
            enough = λ _ h2. absurd (omega arith);
            grows = ([], sym (append-nil out.text));
            valid = λ v. v;
          })
  ]
]

pub put-Emits : (out : OutBuffer) (s : List ℕ) → Emits s (length s) out (put out s)
unfolding put write
put-Emits out s = write-Emits out (length s) s (omega arith)

pub put_view-Emits :
    (out : OutBuffer) (s : List ℕ) → length s < 2 ^ 32 → Emits s (length s) out (put_view out s)
unfolding put_view
put_view-Emits out s h =
    let whole : take (length s % 0x100000000) s ≡ s =
      take_all (length s % 0x100000000) s (omega arith) in
    rw whole (put-Emits out s)

pub put_byte-Emits : (out : OutBuffer) (c : ℕ) → Emits (c ∷ []) 1 out (put_byte out c)
unfolding put_byte
put_byte-Emits out c = put-Emits out (c ∷ [])

pub put_crlf-Emits : (out : OutBuffer) → Emits (13 ∷ 10 ∷ []) 2 out (put_crlf out)
unfolding put_crlf
put_crlf-Emits out = put-Emits out (13 ∷ 10 ∷ [])

pub put_u64-Emits :
    (out : OutBuffer) (v : ℕ) → v < 2 ^ 64 → Emits (write_u64 v) 20 out (put_u64 out v)
unfolding put_u64 write
put_u64-Emits out v h = write-Emits out 20 (write_u64 v) (write_u64-IsDecimal v h).3

pub nothing-Emits : (out : OutBuffer) → Emits [] 0 out out
nothing-Emits out = record {
  same_lease = refl;
  latched = λ _. refl;
  written = λ _ _. sym (append-nil out.text);
  reason = λ e n. absurd (n e);
  enough = λ e _. e;
  grows = ([], sym (append-nil out.text));
  valid = λ v. v;
}

left-after :
    (lease : Option ℕ) (text s : List ℕ) → room_of lease text - length s ≤ room_of lease (text ++ s)
unfolding room_of
left-after none text s = omega arith
left-after (some capacity) text s = omega (arith, length-append text s)

-- One run behind another.
pub then-Emits :
    {s1 s2 : List ℕ} {n1 n2 : ℕ} {out out1 out2 : OutBuffer}
    → (need : ℕ) → n1 ≤ need
    → length s1 + n2 ≤ need
    → Emits s1 n1 out out1
    → Emits s2 n2 out1 out2
    → Emits (s1 ++ s2) need out out2
unfolding remaining
then-Emits {s1} {s2} {n1} {n2} {out} {out1} {out2} need h1 h2 a b = record {
  same_lease = b.same_lease ∙ a.same_lease;
  latched = λ n. stays n ∙ a.latched n;
  written = λ e e2.
      b.written (first_ok e2) e2
      ∙ ap (λ t. t ++ s2) (a.written e (first_ok e2))
      ∙ append_assoc out.text s1 s2;
  reason = λ e n2. elim (Option-cases out1.error) [
    | inl e1 ↦ b.reason e1 n2
    | inr (err, e1) ↦
        let bad : out1.error ≢ none = (λ z. cc (e1, z)) in
        let same_out = b.latched bad in ap (λ o. o.error) same_out ∙ a.reason e bad
  ];
  enough = λ e h.
      let ok1 = a.enough e (omega arith) in
      b.enough ok1
        (rw (a.written e ok1, a.same_lease) (omega (arith, left-after out.lease out.text s1)));
  grows = (
    a.grows.0 ++ b.grows.0,
    b.grows.1 ∙ ap (λ t. t ++ b.grows.0) a.grows.1 ∙ append_assoc out.text a.grows.0 b.grows.0,
  );
  valid = λ v. b.valid (a.valid v);
}
  where
    stays : out.error ≢ none → out2 ≡ out1
    stays n = b.latched (λ z. n (sym (ap (λ o. o.error) (a.latched n)) ∙ z))

    first_ok : out2.error ≡ none → out1.error ≡ none
    first_ok e2 = elim (Option-cases out1.error) [
      | inl e1 ↦ e1
      | inr (err, e1) ↦
          let bad : out1.error ≢ none = (λ z. cc (e1, z)) in
          absurd (bad (sym (ap (λ o. o.error) (b.latched bad)) ∙ e2))
    ]

pub more-Emits :
    {s : List ℕ} {n : ℕ} {out out' : OutBuffer}
    → (need : ℕ) → n ≤ need
    → Emits s n out out'
    → Emits s need out out'
more-Emits need h a = record {
  same_lease = a.same_lease;
  latched = a.latched;
  written = a.written;
  reason = a.reason;
  enough = λ e k. a.enough e (omega arith);
  grows = a.grows;
  valid = a.valid;
}
