-- ===== src/Http/Decimal/RoundTrip.antt =====
-- The text of a number reads back as the number, and is the shortest such text.
use cornet.Base.{
  ℕ, zero, suc, ◌+◌, ◌-◌, ◌*◌, ◌/◌, ◌%◌, ◌^◌, ◌<◌, ◌≤◌, ◌≡◌, ◌⊎◌, refl, ap, ◌∙◌, inl, inr, true,
  false, ◌&&◌, if◌then◌else◌, ltb, leb, ◌==◌, All, le_or_lt, List, [], ◌∷◌, ◌++◌, length, get_or,
  arith, bit_and,
}
use cornet.Base.Tables.{throughout, throughout_at}
use cornet.Base.Bits.{bit_and_mask}
use native.Mathlib.Nat.{pow-suc}
use cornet.Http.Decimal.{
  digit_pairs, hex_digits, last_digits, pairs_loop, write_u64, hex_loop, write_chunk_size,
}

pair_table :
    throughout 100 (λ i.
      get_or digit_pairs (i * 2) 0 == b'0' + i / 10
      && get_or digit_pairs (i * 2 + 1) 0 == b'0' + i % 10)
    ≡ true
unfolding throughout digit_pairs
pair_table = refl

hex_table :
    throughout 16 (λ i. get_or hex_digits i 0 == (if ltb i 10 then b'0' + i else i + 87)) ≡ true
unfolding throughout hex_digits
hex_table = refl

pair_digits :
    (i : ℕ)
    → i < 100
    → (get_or digit_pairs (i * 2) 0 ≡ b'0' + i / 10)
      × (get_or digit_pairs (i * 2 + 1) 0 ≡ b'0' + i % 10)
pair_digits i h = ground (arith, throughout_at 100 i _ pair_table h)

abbrev pub IsDigit : ℕ → Type 0
IsDigit c = (b'0' ≤ c) × (c ≤ b'9')

-- Reading a decimal text, most significant digit first.
abbrev pub read_from : ℕ → List ℕ → ℕ
read_from acc [] = acc
read_from acc (c ∷ cs) = read_from (acc * 10 + (c - b'0')) cs

abbrev pub StartsNonzero : List ℕ → Type 0
StartsNonzero [] = ⊥
StartsNonzero (c ∷ cs) = b'0' < c

leads-positive : (out : List ℕ) → StartsNonzero out → 0 < length out
leads-positive [] s = absurd s
leads-positive (c ∷ cs) s = omega arith

-- What the text of `v` in front of `tmp` is like.
record Written (room v : ℕ) (tmp out : List ℕ) : Type 0 where
  reads : read_from 0 out ≡ read_from v tmp
  all_digits : All IsDigit tmp → All IsDigit out
  leads : StartsNonzero out
  long : length out ≤ room + length tmp

last_digits-Written : (v : ℕ) (tmp : List ℕ) → 0 < v → v < 100 → Written 2 v tmp (last_digits v tmp)
unfolding last_digits
last_digits-Written v tmp pos h = elim (le_or_lt 10 v) [
  | inl two ↦
      let (high, low) = pair_digits v h in
      rw (at_least two, high, low)
        (record {
          reads = ap (λ a. read_from a tmp) (omega arith);
          all_digits = λ d. (omega arith, (omega arith, d));
          leads = omega arith;
          long = omega arith;
        })
  | inr one ↦ rw (below one) (record {
    reads = ap (λ a. read_from a tmp) (omega arith);
    all_digits = λ d. (omega arith, d);
    leads = omega arith;
    long = omega arith;
  })
]
  where
    at_least : 10 ≤ v → leb 10 v ≡ true
    at_least e = ground arith

    below : v < 10 → leb 10 v ≡ false
    below e = ground arith

pairs_loop-Written :
    (fuel v : ℕ) (tmp : List ℕ)
    → 0 < v
    → v < 100 ^ suc fuel
    → Written (2 * suc fuel) v tmp (pairs_loop fuel v tmp)
unfolding pairs_loop
pairs_loop-Written zero v tmp pos h = last_digits-Written v tmp pos h
pairs_loop-Written (suc fuel) v tmp pos h = elim (le_or_lt 100 v) [
  | inr small ↦
      let w = last_digits-Written v tmp pos small in
      rw (below small) (record {
        reads = w.reads;
        all_digits = w.all_digits;
        leads = w.leads;
        long = omega (arith, w.long);
      })
  | inl big ↦
      let (high, low) = pair_digits (v % 100) (omega arith) in
      let w =
        pairs_loop-Written fuel (v / 100) ((b'0' + v % 100 / 10) ∷ (b'0' + v % 100 % 10) ∷ tmp)
          (omega arith) (omega (arith, h, pow-suc 100 (suc fuel))) in
      rw (at_least big, high, low)
        (record {
          reads = w.reads ∙ ap (λ a. read_from a tmp) (omega arith);
          all_digits = λ d. w.all_digits (omega arith, (omega arith, d));
          leads = w.leads;
          long = omega (arith, w.long);
        })
]
  where
    at_least : 100 ≤ v → leb 100 v ≡ true
    at_least e = ground arith

    below : v < 100 → leb 100 v ≡ false
    below e = ground arith

-- The text of a 64-bit number has between 1 and 20 characters, all of them decimal digits, reads back as
-- the number, and starts with 0 only where it is the text of 0.
pub write_u64-IsDecimal :
    (v : ℕ)
    → v < 2 ^ 64
    → (read_from 0 (write_u64 v) ≡ v)
      × All IsDigit (write_u64 v)
      × (0 < length (write_u64 v))
      × (length (write_u64 v) ≤ 20)
      × ((v ≡ 0) ⊎ StartsNonzero (write_u64 v))
unfolding write_u64
write_u64-IsDecimal v h = elim (le_or_lt v 0) [
  | inl z ↦
      let none_left : v ≡ 0 = omega arith in
      rw none_left (refl, omega arith, omega arith, omega arith, inl refl)
  | inr pos ↦
      let w = pairs_loop-Written 9 v [] pos (omega arith) in
      rw (not_zero pos) (
        w.reads,
        w.all_digits tt,
        leads-positive (pairs_loop 9 v []) w.leads,
        omega (arith, w.long),
        inr w.leads,
      )
]
  where
    not_zero : 0 < v → (v == 0) ≡ false
    not_zero e = ground arith

-- Reading a hexadecimal text in small letters.
abbrev pub hex_value : ℕ → ℕ
hex_value c = if ltb c b'a' then c - b'0' else c - 87

abbrev pub read_hex : ℕ → List ℕ → ℕ
read_hex acc [] = acc
read_hex acc (c ∷ cs) = read_hex (acc * 16 + hex_value c) cs

abbrev pub IsHexDigit : ℕ → Type 0
IsHexDigit c = ((b'0' ≤ c) × (c ≤ b'9')) ⊎ ((b'a' ≤ c) × (c ≤ b'f'))

hex_digit :
    (i : ℕ)
    → i < 16
    → (hex_value (get_or hex_digits i 0) ≡ i)
      × IsHexDigit (get_or hex_digits i 0)
      × (0 < i → b'0' < get_or hex_digits i 0)
hex_digit i h = ground (arith, throughout_at 16 i _ hex_table h)

-- What the loop leaves in front of `tmp`.
record HexWritten (fuel v : ℕ) (tmp out : List ℕ) : Type 0 where
  reads : read_hex 0 out ≡ read_hex v tmp
  all_digits : All IsHexDigit tmp → All IsHexDigit out
  leads : (0 < v) ⊎ StartsNonzero tmp → StartsNonzero out
  long : length out ≤ fuel + length tmp

nothing-HexWritten : (fuel : ℕ) (tmp : List ℕ) → HexWritten fuel 0 tmp tmp
nothing-HexWritten fuel tmp = record {
  reads = refl;
  all_digits = λ d. d;
  leads = λ h. elim h [ inl p ↦ absurd (omega arith) | inr s ↦ s ];
  long = omega arith;
}

hex_loop-HexWritten :
    (fuel v : ℕ) (tmp : List ℕ) → v < 16 ^ fuel → HexWritten fuel v tmp (hex_loop fuel v tmp)
unfolding hex_loop
hex_loop-HexWritten zero v tmp h =
    let none_left : v ≡ 0 = omega arith in rw none_left (nothing-HexWritten 0 tmp)
hex_loop-HexWritten (suc fuel) v tmp h = elim (le_or_lt v 0) [
  | inl z ↦ let none_left : v ≡ 0 = omega arith in rw none_left (nothing-HexWritten (suc fuel) tmp)
  | inr pos ↦
      let c : ℕ = get_or hex_digits (bit_and v 0xF) 0 in
      let low = bit_and_mask 4 v in
      let (value, digit, nonzero) = hex_digit (bit_and v 0xF) (omega (arith, low)) in
      let w = hex_loop-HexWritten fuel (v / 16) (c ∷ tmp) (omega (arith, h, pow-suc 16 fuel)) in
      rw (not_zero pos) (record {
        reads = w.reads ∙ ap (λ a. read_hex a tmp) (omega (arith, value, low));
        all_digits = λ d. w.all_digits (digit, d);
        leads = λ _. w.leads (elim (le_or_lt (v / 16) 0) [
          | inl last ↦ inr (nonzero (omega (arith, low)))
          | inr more ↦ inl more
        ]);
        long = omega (arith, w.long);
      })
]
  where
    not_zero : 0 < v → (v == 0) ≡ false
    not_zero e = ground arith

-- The chunk size line of a 64-bit number is a text of 1 to 16 hexadecimal digits, small letters, and CRLF;
-- the text reads back as the number, and starts with 0 only where it is the text of 0.
pub write_chunk_size-reads :
    (v : ℕ)
    → v < 2 ^ 64
    → (text : List ℕ) × (write_chunk_size v ≡ text ++ (13 ∷ 10 ∷ []))
      × (read_hex 0 text ≡ v)
      × All IsHexDigit text
      × (0 < length text)
      × (length text ≤ 16)
      × ((v ≡ 0) ⊎ StartsNonzero text)
unfolding write_chunk_size
write_chunk_size-reads v h = elim (le_or_lt v 0) [
  | inl z ↦
      let none_left : v ≡ 0 = omega arith in
      rw none_left (
        b'0' ∷ [],
        refl,
        refl,
        (inl (omega arith, omega arith), tt),
        omega arith,
        omega arith,
        inl refl,
      )
  | inr pos ↦
      let w = hex_loop-HexWritten 16 v [] (omega arith) in
      let first = w.leads (inl pos) in
      rw (not_zero pos) (
        hex_loop 16 v [],
        refl,
        w.reads,
        w.all_digits tt,
        leads-positive (hex_loop 16 v []) first,
        omega (arith, w.long),
        inr first,
      )
]
  where
    not_zero : 0 < v → (v == 0) ≡ false
    not_zero e = ground arith
