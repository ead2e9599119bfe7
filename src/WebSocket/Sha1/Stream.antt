-- ===== src/WebSocket/Sha1/Stream.antt =====
-- The digest depends on the bytes and not on the runs they come in, and its padding ends a block.
use cornet.Base.{
  ℕ, zero, suc, ◌+◌, ◌*◌, ◌%◌, ◌^◌, ◌<◌, ◌≤◌, ◌≡◌, refl, sym, ap, ◌∙◌, ◌==◌, ==_iff, false,
  Bool-cases, inl, inr, List, [], ◌∷◌, ◌++◌, append_assoc, length, length-append, length-take,
  length-drop, take, drop, take-append-drop, arith,
}
use cornet.WebSocket.Sha1.{
  Sha1, Words, digest_of, final, flush, absorb, room, update_loop, update, zeros, big_endian,
  padding, pad,
}

abbrev pub IsValid : Sha1 → Type 0
IsValid s = length s.block < 64

-- Byte by byte.
abbrev feed : Sha1 → List ℕ → Sha1
feed s [] = s
feed s (x ∷ xs) = feed (absorb s (x ∷ [])) xs

feed-append : (s : Sha1) (xs ys : List ℕ) → feed s (xs ++ ys) ≡ feed (feed s xs) ys
feed-append s [] ys = refl
feed-append s (x ∷ xs) ys = feed-append (absorb s (x ∷ [])) xs ys

flush-below : (s : Sha1) → length s.block < 64 → flush s ≡ s
unfolding flush
flush-below s h = let partial : (length s.block == 64) ≡ false = ground arith in rw partial refl

absorb-below :
    (s : Sha1) (x : ℕ)
    → length s.block + 1 < 64
    → absorb s (x ∷ []) ≡ record s { block = s.block ++ (x ∷ []) }
unfolding absorb
absorb-below s x h =
    flush-below (record s { block = s.block ++ (x ∷ []) })
      (omega (arith, length-append s.block (x ∷ [])))

-- How full the block is.
length-flush : (s : Sha1) → length s.block ≤ 64 → length (flush s).block ≡ length s.block % 64
unfolding flush
length-flush s h = elim (Bool-cases (length s.block == 64)) [
  | inl full ↦ rw full (let l = (==_iff (length s.block) 64).0 full in omega arith)
  | inr partial ↦ rw partial (ground arith)
]

length-absorb :
    (s : Sha1) (c : List ℕ)
    → length s.block + length c ≤ 64
    → length (absorb s c).block ≡ (length s.block + length c) % 64
unfolding absorb
length-absorb s c h =
    let l = length-append s.block c in
    length-flush (record s { block = s.block ++ c }) (omega arith) ∙ ap (λ n. n % 64) l

absorb-feed :
    (s : Sha1) (x : ℕ) (c : List ℕ)
    → length s.block + length (x ∷ c) ≤ 64
    → absorb s (x ∷ c) ≡ feed s (x ∷ c)
unfolding absorb
absorb-feed s x [] h = refl
absorb-feed s x (y ∷ c) h =
    ap (λ b. flush (record s { block = b })) (sym (append_assoc s.block (x ∷ []) (y ∷ c)))
    ∙ absorb-feed (record s { block = s.block ++ (x ∷ []) }) y c
        (omega (arith, length-append s.block (x ∷ [])))
    ∙ ap (λ t. feed t (y ∷ c)) (sym (absorb-below s x (omega arith)))

update_loop-feed :
    (fuel : ℕ) (s : Sha1) (bytes : List ℕ)
    → length bytes ≤ fuel
    → IsValid s
    → update_loop fuel s bytes ≡ feed s bytes
unfolding update_loop room
update_loop-feed zero s [] h v = refl
update_loop-feed zero s (x ∷ bytes) h v = absurd (omega arith)
update_loop-feed (suc fuel) s [] h v = refl
update_loop-feed (suc fuel) s (x ∷ bytes) h v =
    let n : ℕ = room s (x ∷ bytes) in
    let some_room : (0 < n) × (length s.block + n ≤ 64) × (n ≤ length (x ∷ bytes)) = ground arith in
    let lt = length-take n (x ∷ bytes) in
    let ld = length-drop n (x ∷ bytes) in
    let la = length-absorb s (take n (x ∷ bytes)) (omega arith) in
    update_loop-feed fuel (absorb s (take n (x ∷ bytes))) (drop n (x ∷ bytes)) (omega arith)
      (omega arith)
    ∙ ap (λ t. feed t (drop n (x ∷ bytes))) (chunk n (omega arith) (omega arith))
    ∙ sym (feed-append s (take n (x ∷ bytes)) (drop n (x ∷ bytes)))
    ∙ ap (feed s) (take-append-drop n (x ∷ bytes))
  where
    chunk :
        (n : ℕ)
        → 0 < n
        → length s.block + length (take n (x ∷ bytes)) ≤ 64
        → absorb s (take n (x ∷ bytes)) ≡ feed s (take n (x ∷ bytes))
    chunk zero pos fits = absurd (omega arith)
    chunk (suc n) pos fits = absorb-feed s x (take n bytes) fits

absorb-total :
    (s : Sha1) (t : ℕ) (c : List ℕ)
    → absorb (record s { total = t }) c ≡ record (absorb s c) { total = t }
unfolding absorb flush
absorb-total s t c = elim (Bool-cases (length (s.block ++ c) == 64)) [
  | inl full ↦ rw full refl
  | inr partial ↦ rw partial refl
]

feed-total :
    (s : Sha1) (t : ℕ) (xs : List ℕ)
    → feed (record s { total = t }) xs ≡ record (feed s xs) { total = t }
feed-total s t [] = refl
feed-total s t (x ∷ xs) =
    ap (λ u. feed u xs) (absorb-total s t (x ∷ [])) ∙ feed-total (absorb s (x ∷ [])) t xs

absorb-keeps_total : (s : Sha1) (c : List ℕ) → (absorb s c).total ≡ s.total
absorb-keeps_total s c = ap (λ u. u.total) (absorb-total s s.total c)

feed-keeps_total : (s : Sha1) (xs : List ℕ) → (feed s xs).total ≡ s.total
feed-keeps_total s xs = ap (λ u. u.total) (feed-total s s.total xs)

length-feed :
    (s : Sha1) (xs : List ℕ)
    → IsValid s
    → length (feed s xs).block ≡ (length s.block + length xs) % 64
length-feed s [] v = omega arith
length-feed s (x ∷ xs) v =
    let l = length-absorb s (x ∷ []) (omega arith) in
    length-feed (absorb s (x ∷ [])) xs (omega arith) ∙ omega arith

update-feed :
    (s : Sha1) (bytes : List ℕ)
    → IsValid s
    → update s bytes ≡ record (feed s bytes) { total = (s.total + length bytes) % 2 ^ 64 }
unfolding update
update-feed s bytes v =
    update_loop-feed (length bytes) (record s { total = (s.total + length bytes) % 2 ^ 64 }) bytes
      (omega arith) v
    ∙ feed-total s ((s.total + length bytes) % 2 ^ 64) bytes

pub length-update :
    (s : Sha1) (bytes : List ℕ)
    → IsValid s
    → length (update s bytes).block ≡ (length s.block + length bytes) % 64
length-update s bytes v = ap (λ u. length u.block) (update-feed s bytes v) ∙ length-feed s bytes v

abbrev with_total : Sha1 → ℕ → Sha1
with_total s t = record s { total = t }

-- Two runs of bytes leave the digest's state where the two at once leave it.
pub update-append :
    (s : Sha1) (xs ys : List ℕ) → IsValid s → update (update s xs) ys ≡ update s (xs ++ ys)
update-append s xs ys v =
    let l = length-feed s xs v in
    let both = length-append xs ys in
    ap (λ u. update u ys) (update-feed s xs v)
    ∙ update-feed (with_total (feed s xs) ((s.total + length xs) % 2 ^ 64)) ys (omega arith)
    ∙ ap (λ u. with_total u (((s.total + length xs) % 2 ^ 64 + length ys) % 2 ^ 64))
        (feed-total (feed s xs) ((s.total + length xs) % 2 ^ 64) ys)
    ∙ ap (λ u. with_total u (((s.total + length xs) % 2 ^ 64 + length ys) % 2 ^ 64))
        (sym (feed-append s xs ys))
    ∙ ap (with_total (feed s (xs ++ ys))) (omega arith)
    ∙ sym (update-feed s (xs ++ ys) v)

length-zeros : (n : ℕ) → length (zeros n) ≡ n
unfolding zeros
length-zeros zero = refl
length-zeros (suc n) = ap suc (length-zeros n)

pub length-big_endian : (n v : ℕ) → length (big_endian n v) ≡ n
unfolding big_endian
length-big_endian zero v = refl
length-big_endian (suc n) v = ap suc (length-big_endian n v)

-- The padding ends a block, so that no byte of the message stays out of the digest.
pub pad-ends_block : (s : Sha1) → IsValid s → length (pad s).block ≡ 0
unfolding pad padding
pad-ends_block s v =
    let marked : Sha1 = update s (0x80 ∷ []) in
    let l1 = length-update s (0x80 ∷ []) v in
    let n : ℕ = padding (length marked.block) in
    let filled : Sha1 = update marked (zeros n) in
    let l2 = length-update marked (zeros n) (omega arith) in
    let l3 = length-update filled (big_endian 8 (s.total * 8 % 2 ^ 64)) (omega arith) in
    let eight = length-big_endian 8 (s.total * 8 % 2 ^ 64) in
    let filled_to : (length marked.block + n) % 64 ≡ 56 = ground arith in
    l3 ∙ omega (arith, length-zeros n)

pub length-final : (s : Sha1) → length (final s) ≡ 20
unfolding final digest_of
length-final s =
    let h : Words = (pad s).h in
    omega (
      arith,
      length-append (big_endian 4 h.a)
          (big_endian 4 h.b ++ (big_endian 4 h.c ++ (big_endian 4 h.d ++ big_endian 4 h.e))),
      length-append (big_endian 4 h.b) (big_endian 4 h.c ++ (big_endian 4 h.d ++ big_endian 4 h.e)),
      length-append (big_endian 4 h.c) (big_endian 4 h.d ++ big_endian 4 h.e),
      length-append (big_endian 4 h.d) (big_endian 4 h.e),
      length-big_endian 4 h.a,
      length-big_endian 4 h.b,
      length-big_endian 4 h.c,
      length-big_endian 4 h.d,
      length-big_endian 4 h.e,
    )
