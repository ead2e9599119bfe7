-- ===== src/Http/Buffers/Head/Views.antt =====
-- The views into a message's head stay while the message is parsed, and compaction keeps the unread bytes.
use cornet.Base.{
  ℕ, zero, suc, ◌+◌, ◌-◌, ◌<◌, ◌≤◌, ◌≡◌, ◌⊎◌, inl, inr, refl, sym, ap, ◌∙◌, ◌==◌, ==_iff,
  Bool-cases, Option, none, some, List, [], ◌∷◌, ◌++◌, length, length-append, length-take,
  length-drop, take, drop, take-append, arith, true, false,
}
use cornet.Http.Buffers.Head.{
  HeadBuffer, readable, block_of, writable, store, stored, commit, fill, consume, move_front,
  compact, rewind_to, view,
}

-- The read position, the write position and the end of the block are in order.
pub record IsValid (h : HeadBuffer) : Type 0 where
  pub read_le : h.read_pos ≤ h.write_pos
  pub write_le : h.write_pos ≤ length (block_of h.bytes)

-- What happens while a message is parsed whose views lie below `limit`.
pub data Act (limit : ℕ) (h : HeadBuffer) : HeadBuffer → Type 0 where
  fills : (s : List ℕ) → length s ≤ writable h → (h' : HeadBuffer) → h' ≡ fill h s → Act limit h h'
  consumes : (n : ℕ) → n ≤ readable h → (h' : HeadBuffer) → h' ≡ consume h n → Act limit h h'
  rewinds :
      (pos : ℕ)
      → limit ≤ pos
      → pos ≤ h.write_pos
      → (h' : HeadBuffer) → h' ≡ rewind_to h pos
      → Act limit h h'

pub data Acts (limit : ℕ) (h : HeadBuffer) : HeadBuffer → Type 0 where
  start : Acts limit h h
  next : {u v : HeadBuffer} → Acts limit h u → Act limit u v → Acts limit h v

take-drop-store :
    (block s : List ℕ) (off len pos : ℕ)
    → off + len ≤ pos
    → pos ≤ length block
    → take len (drop off (take pos block ++ s)) ≡ take len (drop off block)
take-drop-store block s zero zero pos h k = refl
take-drop-store block s zero (suc len) zero h k = absurd (omega arith)
take-drop-store [] s zero (suc len) (suc pos) h k = absurd (omega arith)
take-drop-store (x ∷ block) s zero (suc len) (suc pos) h k =
    ap (◌∷◌ x) (take-drop-store block s zero len pos (omega arith) (omega arith))
take-drop-store block s (suc off) len zero h k = absurd (omega arith)
take-drop-store [] s (suc off) len (suc pos) h k = absurd (omega arith)
take-drop-store (x ∷ block) s (suc off) len (suc pos) h k =
    take-drop-store block s off len pos (omega arith) (omega arith)

length-store :
    (block s : List ℕ) (pos : ℕ)
    → pos + length s ≤ length block
    → length (store block pos s) ≡ length block
unfolding store
length-store block s pos h = omega (
  arith,
  length-append (take pos block) (s ++ drop (pos + length s) block),
  length-append s (drop (pos + length s) block),
  length-take pos block,
  length-drop (pos + length s) block,
)

-- What parsing keeps: the views below the limit, the capacity, the flag, and the order of positions.
pub record Keeps (limit : ℕ) (h h' : HeadBuffer) : Type 0 where
  pub valid : IsValid h'
  pub above : limit ≤ h'.write_pos
  pub capacity : length (block_of h'.bytes) ≡ length (block_of h.bytes)
  pub flag : h'.parsing ≡ h.parsing
  pub views : (off len : ℕ) → off + len ≤ limit → view h' off len ≡ view h off len

stored-views :
    (bytes : Option (List ℕ)) (pos : ℕ) (s : List ℕ) (off len : ℕ)
    → off + len ≤ pos
    → pos + length s ≤ length (block_of bytes)
    → take len (drop off (block_of (stored bytes pos s))) ≡ take len (drop off (block_of bytes))
unfolding stored store
stored-views none pos s off len h k = refl
stored-views (some block) pos s off len h k =
    take-drop-store block (s ++ drop (pos + length s) block) off len pos h (omega arith)

length-stored :
    (bytes : Option (List ℕ)) (pos : ℕ) (s : List ℕ)
    → pos + length s ≤ length (block_of bytes)
    → length (block_of (stored bytes pos s)) ≡ length (block_of bytes)
unfolding stored
length-stored none pos s h = refl
length-stored (some block) pos s h = length-store block s pos h

Act-Keeps : {limit : ℕ} {h u v : HeadBuffer} → Keeps limit h u → Act limit u v → Keeps limit h v
unfolding fill commit consume rewind_to writable readable view
Act-Keeps {limit} {h} {u} k (fills s fits v e) =
    let valid = k.valid in
    let room : u.write_pos + length s ≤ length (block_of u.bytes) = omega (arith, valid.write_le) in
    let same_length = length-stored u.bytes u.write_pos s room in
    rw e (record {
      valid = record { read_le = omega (arith, valid.read_le); write_le = omega arith };
      above = omega (arith, k.above);
      capacity = same_length ∙ k.capacity;
      flag = k.flag;
      views = λ off len b.
          stored-views u.bytes u.write_pos s off len (omega (arith, k.above)) room
          ∙ k.views off len b;
    })
Act-Keeps {limit} {h} {u} k (consumes n fits v e) =
    let valid = k.valid in
    rw e (record {
      valid = record { read_le = omega (arith, valid.read_le); write_le = valid.write_le };
      above = k.above;
      capacity = k.capacity;
      flag = k.flag;
      views = k.views;
    })
Act-Keeps {limit} {h} {u} k (rewinds pos low high v e) =
    let valid = k.valid in
    rw e (record {
      valid = record { read_le = omega arith; write_le = omega (arith, valid.write_le) };
      above = low;
      capacity = k.capacity;
      flag = k.flag;
      views = k.views;
    })

-- However a message's bytes are received, consumed and rewound to the end of its header section, every view
-- that lies below that end shows what it showed, the capacity is the same, and the read position, the write
-- position and the capacity stay in order.
pub acts-Keeps :
    {limit : ℕ} {h v : HeadBuffer}
    → IsValid h
    → limit ≤ h.write_pos
    → Acts limit h v
    → Keeps limit h v
acts-Keeps valid low start = record {
  valid = valid;
  above = low;
  capacity = refl;
  flag = refl;
  views = λ off len b. refl;
}
acts-Keeps valid low (next acts act) = Act-Keeps (acts-Keeps valid low acts) act

length-move_front :
    (bytes : Option (List ℕ)) (n pos : ℕ)
    → pos + n ≤ length (block_of bytes)
    → length (block_of (move_front n pos bytes)) ≡ length (block_of bytes)
unfolding move_front
length-move_front none n pos h = refl
length-move_front (some block) n pos h = omega (
  arith,
  length-append (take n (drop pos block)) (drop n block),
  length-take n (drop pos block),
  length-drop pos block,
  length-drop n block,
)

take-move_front :
    (bytes : Option (List ℕ)) (n pos : ℕ)
    → pos + n ≤ length (block_of bytes)
    → take n (block_of (move_front n pos bytes)) ≡ take n (drop pos (block_of bytes))
unfolding move_front
take-move_front none n pos h = let no_bytes : n ≡ 0 = omega arith in rw no_bytes refl
take-move_front (some block) n pos h =
    let full : length (take n (drop pos block)) ≡ n =
      omega (arith, length-take n (drop pos block), length-drop pos block) in
    ap (λ k. take k (take n (drop pos block) ++ drop n block)) (sym full)
    ∙ take-append (take n (drop pos block)) (drop n block)

abbrev moved_back : HeadBuffer → HeadBuffer
moved_back h = record h {
  bytes = move_front (h.write_pos - h.read_pos) h.read_pos h.bytes;
  read_pos = 0;
  write_pos = h.write_pos - h.read_pos;
}

-- The unread bytes of `h` at the front of `c`.
abbrev pub Compacted : HeadBuffer → HeadBuffer → Type 0
Compacted h c =
    IsValid c
    × (c.read_pos ≡ 0)
    × (readable c ≡ readable h)
    × (writable c ≡ writable h + h.read_pos)
    × (view c 0 (readable c) ≡ view h h.read_pos (readable h))

moved_back-lem : (h : HeadBuffer) → IsValid h → Compacted h (moved_back h)
unfolding readable writable view
moved_back-lem h valid =
    let n : ℕ = h.write_pos - h.read_pos in
    let inside : h.read_pos + n ≤ length (block_of h.bytes) =
      omega (arith, valid.read_le, valid.write_le) in
    let same_length = length-move_front h.bytes n h.read_pos inside in
    (
      record { read_le = omega arith; write_le = omega arith },
      refl,
      omega arith,
      omega (arith, valid.read_le, valid.write_le),
      ap (λ k. take k (block_of (move_front n h.read_pos h.bytes))) {x = n - 0} {y = n}
            (omega arith)
          ∙ take-move_front h.bytes n h.read_pos inside,
    )

-- Compaction leaves the unread bytes the same, at the front, and the room behind them has grown by what
-- was read; the flag is kept, and the answer is true exactly if anything was read. Nothing
-- is changed where nothing was read.
pub compact-keeps :
    (h : HeadBuffer)
    → IsValid h
    → Compacted h (compact h).0
      × ((compact h).0.parsing ≡ h.parsing)
      × (((h.read_pos ≡ 0) × ((compact h).1 ≡ false) × ((compact h).0 ≡ h))
          ⊎ ((0 < h.read_pos) × ((compact h).1 ≡ true)))
unfolding compact
compact-keeps h valid = elim (Bool-cases (h.read_pos == 0)) [
  | inl at_front ↦
      let front : h.read_pos ≡ 0 = (==_iff h.read_pos 0).0 at_front in
      rw at_front ((valid, front, refl, omega arith, rw front refl), refl, inl (front, refl, refl))
  | inr behind ↦ rw behind (moved_back-lem h valid, refl, inr (ground arith, refl))
]
