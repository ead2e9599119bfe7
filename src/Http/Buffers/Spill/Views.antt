-- ===== src/Http/Buffers/Spill/Views.antt =====
-- A copied value is read back whole, and what was copied before stays.
use cornet.Base.{
  ℕ, zero, suc, ◌+◌, ◌%◌, ◌≤◌, ◌≡◌, refl, sym, ap, ◌∙◌, ge→ltb, Option, none, some, List, [], ◌∷◌,
  ◌++◌, append_assoc, append-nil, length, length-append, take, drop, take_all, drop-append, arith,
}
use cornet.Http.Buffers.Spill.{SpillBuffer, put_bytes, put, extend, view}

-- `extend`, once for each run, until one does not fit.
abbrev pub extends : SpillBuffer → List (List ℕ) → Option SpillBuffer
extends b [] = some b
extends b (s ∷ runs) = elim (extend b s) [ none ↦ none | some c ↦ extends c runs ]

abbrev pub joined : List (List ℕ) → List ℕ
joined [] = []
joined (s ∷ runs) = s ++ joined runs

put_bytes-fits :
    (b : SpillBuffer) (s : List ℕ)
    → length b.text + length s ≤ 512
    → put_bytes b s ≡ some (record { text = b.text ++ s })
unfolding put_bytes
put_bytes-fits b s h =
    let small : (length b.text + length s) % 0x100000000 ≡ length b.text + length s = omega arith in
    rw (small, ge→ltb 512 (length b.text + length s) h) refl

extends-fits :
    (b : SpillBuffer) (runs : List (List ℕ))
    → length b.text + length (joined runs) ≤ 512
    → extends b runs ≡ some (record { text = b.text ++ joined runs })
unfolding extend
extends-fits b [] h = ap (λ t. some (record { text = t })) (sym (append-nil b.text))
extends-fits b (s ∷ runs) h =
    let l = length-append s (joined runs) in
    let k = length-append b.text s in
    rw (put_bytes-fits b s (omega arith), extends)
      (extends-fits (record { text = b.text ++ s }) runs (omega arith)
        ∙ ap (λ t. some (record { text = t })) (append_assoc b.text s (joined runs)))

-- The part of a list that ends before another is joined to it.
take-drop-append :
    (off len : ℕ) (xs ys : List ℕ)
    → off + len ≤ length xs
    → take len (drop off (xs ++ ys)) ≡ take len (drop off xs)
take-drop-append zero zero xs ys h = refl
take-drop-append zero (suc len) [] ys h = absurd (omega arith)
take-drop-append zero (suc len) (x ∷ xs) ys h =
    ap (◌∷◌ x) (take-drop-append zero len xs ys (omega arith))
take-drop-append (suc off) len [] ys h = absurd (omega arith)
take-drop-append (suc off) len (x ∷ xs) ys h = take-drop-append off len xs ys (omega arith)

-- A value that is copied in by `put` and then `extend` for each further run, where the 512 bytes hold it all,
-- is read back whole from the offset that `put` answered; every view of what was there before is unchanged.
pub put-extend-view :
    (b : SpillBuffer) (s : List ℕ) (runs : List (List ℕ))
    → length b.text + (length s + length (joined runs)) ≤ 512
    → (c : SpillBuffer) × (d : SpillBuffer) × (put b s ≡ some (c, length b.text))
      × (extends c runs ≡ some d)
      × (view d (length b.text) (length s + length (joined runs)) ≡ s ++ joined runs)
      × ((off len : ℕ) → off + len ≤ length b.text → view d off len ≡ view b off len)
unfolding put view
put-extend-view b s runs h =
    let k = length-append b.text s in
    let c : SpillBuffer = record { text = b.text ++ s } in
    let d : SpillBuffer = record { text = b.text ++ (s ++ joined runs) } in
    let long : length s + length (joined runs) ≡ length (s ++ joined runs) =
      sym (length-append s (joined runs)) in
    (
      c,
      d,
      rw (put_bytes-fits b s (omega arith), put) refl,
      extends-fits c runs (omega arith)
          ∙ ap (λ t. some (record { text = t })) (append_assoc b.text s (joined runs)),
      rw (drop-append b.text (s ++ joined runs))
          (take_all (length s + length (joined runs)) (s ++ joined runs) (omega arith)),
      λ off len e. take-drop-append off len b.text (s ++ joined runs) e,
    )
