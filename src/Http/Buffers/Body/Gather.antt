-- ===== src/Http/Buffers/Body/Gather.antt =====
-- A body that arrives in runs is gathered whole, or refused at the reservation's end.
use cornet.Base.{
  ℕ, suc, ◌+◌, ◌^◌, ◌%◌, ◌<◌, ◌≤◌, ◌≡◌, ◌⊎◌, inl, inr, refl, sym, ap, ◌∙◌, ltb, leb, ◌==◌, ge→ltb,
  lt→ltb, le_or_lt, Option, none, some, List, [], ◌∷◌, ◌++◌, append_assoc, append-nil, length,
  length-append, take, All, arith, true, false,
}
use cornet.Http.Protocol.{HttpError}
use cornet.Http.Buffers.Pool.{Lease, Pool, acquire, release}
use cornet.Http.Buffers.Pool.Runs.{Serves, acquire-Serves}
use cornet.Http.Buffers.Body.{
  BodyBuffer, BodyError, http, Outcome, release_body, on_lease, reserve_exact, moved, grow, append,
}

-- `append`, once for each run, until one does not fit.
abbrev pub gather : BodyBuffer → List (List ℕ) → BodyBuffer × Option BodyError
gather b [] = (b, none)
gather b (s ∷ runs) = elim ((append b s).1) [
  | none ↦ gather (append b s).0 runs
  | some e ↦ append b s
]

abbrev pub joined : List (List ℕ) → List ℕ
joined [] = []
joined (s ∷ runs) = s ++ joined runs

abbrev overflow : Option BodyError
overflow = some (http HttpError.output_overflow)

abbrev holding : BodyBuffer → List ℕ → BodyBuffer
holding b t = record b { text = t }

-- All runs are behind the old text, or only the first few are, and no more than the capacity.
pub data Gathered (b : BodyBuffer) (runs : List (List ℕ))
    : BodyBuffer × Option BodyError → Type 0 where
  whole :
      length b.text + length (joined runs) ≤ b.cap
      → (out : BodyBuffer × Option BodyError) → out ≡ (holding b (b.text ++ joined runs), none)
      → Gathered b runs out
  refused :
      b.cap < length b.text + length (joined runs)
      → (k : ℕ) → length b.text + length (joined (take k runs)) ≤ b.cap
      → (out : BodyBuffer × Option BodyError)
      → out ≡ (holding b (b.text ++ joined (take k runs)), overflow)
      → Gathered b runs out

append-cases :
    (b : BodyBuffer) (s : List ℕ)
    → length b.text ≤ b.cap
    → b.cap + length s < 2 ^ 32
    → ((length b.text + length s ≤ b.cap) × (append b s ≡ (holding b (b.text ++ s), none)))
      ⊎ ((b.cap < length b.text + length s) × (append b s ≡ (b, overflow)))
unfolding append
append-cases b [] v h = inl (omega arith, ap (λ t. (holding b t, none)) (sym (append-nil b.text)))
append-cases b (x ∷ s) v h =
    let small : (length b.text + length (x ∷ s)) % 0x100000000 ≡ length b.text + length (x ∷ s) =
      omega arith in
    let busy : (length (x ∷ s) == 0) ≡ false = ground arith in
    elim (le_or_lt (length b.text + length (x ∷ s)) b.cap) [
      | inl k ↦ inl (k, rw (busy, small, ge→ltb b.cap (length b.text + length (x ∷ s)) k) refl)
      | inr k ↦ inr (k, rw (busy, small, lt→ltb b.cap (length b.text + length (x ∷ s)) k) refl)
    ]

behind :
    (b : BodyBuffer) (s : List ℕ) (runs : List (List ℕ)) {out : BodyBuffer × Option BodyError}
    → length b.text + length s ≤ b.cap
    → Gathered (holding b (b.text ++ s)) runs out
    → Gathered b (s ∷ runs) out
behind b s runs fits (whole h out e) =
    whole (omega (arith, length-append b.text s, length-append s (joined runs))) out
      (e ∙ ap (λ t. (holding b t, none)) (append_assoc b.text s (joined runs)))
behind b s runs fits (refused h k part out e) =
    refused (omega (arith, length-append b.text s, length-append s (joined runs))) (suc k)
      (omega (arith, length-append b.text s, length-append s (joined (take k runs)))) out
      (e ∙ ap (λ t. (holding b t, overflow)) (append_assoc b.text s (joined (take k runs))))

gather-Gathered :
    (b : BodyBuffer) (runs : List (List ℕ))
    → length b.text ≤ b.cap
    → All (λ s. b.cap + length s < 2 ^ 32) runs
    → Gathered b runs (gather b runs)
gather-Gathered b [] v h =
    whole (omega arith) (b, none) (ap (λ t. (holding b t, none)) (sym (append-nil b.text)))
gather-Gathered b (s ∷ runs) v (h, hs) = elim (append-cases b s v h) [
  | inl (fits, e) ↦
      let longer = length-append b.text s in
      rw (e, gather, e)
        (behind b s runs fits (gather-Gathered (holding b (b.text ++ s)) runs (omega arith) hs))
  | inr (over, e) ↦
      let nothing = append-nil b.text in
      rw (e, gather, e)
        (refused (omega (arith, length-append s (joined runs))) 0 (omega arith) (b, overflow)
          (ap (λ t. (holding b t, overflow)) (sym nothing)))
]

-- The lease has the buffer's capacity at least.
abbrev pub Backed : BodyBuffer → Type 0
Backed b = (l : Lease) × (b.lease ≡ some l) × (b.cap ≤ l.cap)

abbrev Reserved : ℕ → Outcome → Type 0
Reserved n o = (o.error ≡ none) × Backed o.buffer × (o.buffer.cap ≡ n) × (o.buffer.text ≡ [])

on_lease-Reserved :
    (p : Pool) (n : ℕ) (r : Pool × Option Lease) → Serves p n r → Reserved n (on_lease n r)
unfolding on_lease
on_lease-Reserved p n (q, none) s = absurd s
on_lease-Reserved p n (q, some l) s = (refl, (l, refl, s.0), refl, refl)

reserve_exact-Reserved :
    (p : Pool) (b : BodyBuffer) (n a : ℕ)
    → 0 < n
    → n < 2 ^ 32
    → Reserved n (reserve_exact p b n (some a))
unfolding reserve_exact release_body
reserve_exact-Reserved p b n a pos h =
    let busy : (n == 0) ≡ false = ground arith in
    let small : ltb 0xffffffff n ≡ false = ground arith in
    rw (busy, small)
      (on_lease-Reserved (release p b.lease) n (acquire (release p b.lease) n (some a))
        (acquire-Serves (release p b.lease) n a))

-- A reservation of `n` bytes that the allocator does not refuse is empty, has a lease of at least `n` bytes,
-- and takes the runs of a body one by one: all of them where they are at most `n` bytes together, and
-- otherwise the first ones that fit, and then the overflow error.
pub reserve_exact-gather :
    (p : Pool) (b : BodyBuffer) (n a : ℕ) (runs : List (List ℕ))
    → 0 < n
    → n < 2 ^ 32
    → All (λ s. n + length s < 2 ^ 32) runs
    → Backed (reserve_exact p b n (some a)).buffer
      × ((reserve_exact p b n (some a)).buffer.cap ≡ n)
      × ((reserve_exact p b n (some a)).buffer.text ≡ [])
      × Gathered
          (reserve_exact p b n (some a)).buffer
          runs
          (gather (reserve_exact p b n (some a)).buffer runs)
reserve_exact-gather p b n a runs pos h short =
    let (ok, backed, cap_is, no_text) = reserve_exact-Reserved p b n a pos h in
    (
      backed,
      cap_is,
      no_text,
      gather-Gathered (reserve_exact p b n (some a)).buffer runs (omega (arith, ap length no_text))
          (rw cap_is short),
    )

-- The buffer after `grow`, from what the pool returned.
abbrev pub Grown : BodyBuffer → ℕ → Outcome → Type 0
Grown b n o =
    (o.error ≡ none)
    × (n ≤ o.buffer.cap)
    × (b.cap ≤ o.buffer.cap)
    × (o.buffer.text ≡ b.text)
    × Backed o.buffer

moved-Grown :
    (p : Pool) (b : BodyBuffer) (n : ℕ) (r : Pool × Option Lease)
    → b.cap < n
    → Serves p n r
    → Grown b n (moved b r)
unfolding moved
moved-Grown p b n (q, none) h s = absurd s
moved-Grown p b n (q, some l) h s = (refl, s.0, omega (arith, s.0), refl, (l, refl, omega arith))

-- A buffer that grows, where the allocator does not refuse, keeps its bytes and has a lease for the new
-- capacity, which is no less than was asked for and no less than the old one.
pub grow-keeps : (p : Pool) (b : BodyBuffer) (n a : ℕ) → Backed b → Grown b n (grow p b n (some a))
unfolding grow
grow-keeps p b n a backed = elim (le_or_lt n b.cap) [
  | inl h ↦
      let enough : leb n b.cap ≡ true = ground arith in
      rw enough (refl, h, omega arith, refl, backed)
  | inr h ↦
      let more : leb n b.cap ≡ false = ground arith in
      rw more (moved-Grown p b n (acquire p n (some a)) h (acquire-Serves p n a))
]
