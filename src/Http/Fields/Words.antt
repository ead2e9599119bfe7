-- ===== src/Http/Fields/Words.antt =====
-- What the words of `ld` and `pack` hold: the lowercased bytes.
use cornet.Base.{
  ℕ, zero, suc, ◌+◌, ◌-◌, ◌*◌, ◌^◌, ◌<◌, ◌≤◌, bit_or, ◌≡◌, ◌↔◌, refl, sym, subst, ap, ap₂, ◌∙◌,
  true, false, &&_iff, take_all, ◌==◌, ==_iff, List, [], ◌∷◌, length, length-take, length-drop,
  take, drop, map, All, IsByte, word, word_inj, arith, le_or_lt, inl, inr,
}
use cornet.Base.Bits.{bit_or_both_fields, bit_or-lt, bit_or-zero, zero-bit_or, bit_and_mask}
use native.Mathlib.Nat.{pow-suc, mul-add-mod_self_right, mod-eq_of_lt}
use cornet.Http.Fields.{lower_mask, pack_loop, pack, ld, m_short, m8}

abbrev pub lower : ℕ → ℕ
lower b = bit_or b 0x20

pub lower-IsByte : (b : ℕ) → b < 256 → lower b < 256
lower-IsByte b h = bit_or-lt 8 b 0x20 h (omega arith)

pub lowered-IsByte : (p : List ℕ) → All IsByte p → All IsByte (map lower p)
lowered-IsByte [] h = tt
lowered-IsByte (b ∷ p) (h, hs) = (lower-IsByte b h, lowered-IsByte p hs)

pub length-lowered : (p : List ℕ) → length (map lower p) ≡ length p
length-lowered [] = refl
length-lowered (b ∷ p) = ap suc (length-lowered p)

pub take-lowered : (n : ℕ) (p : List ℕ) → take n (map lower p) ≡ map lower (take n p)
take-lowered zero p = refl
take-lowered (suc n) [] = refl
take-lowered (suc n) (b ∷ p) = ap (◌∷◌ (lower b)) (take-lowered n p)

pub drop-lowered : (n : ℕ) (p : List ℕ) → drop n (map lower p) ≡ map lower (drop n p)
drop-lowered zero p = refl
drop-lowered (suc n) [] = refl
drop-lowered (suc n) (b ∷ p) = drop-lowered n p

pub take-IsByte : (n : ℕ) (p : List ℕ) → All IsByte p → All IsByte (take n p)
take-IsByte zero p h = tt
take-IsByte (suc n) [] h = tt
take-IsByte (suc n) (b ∷ p) (h, hs) = (h, take-IsByte n p hs)

pub drop-IsByte : (n : ℕ) (p : List ℕ) → All IsByte p → All IsByte (drop n p)
drop-IsByte zero p h = h
drop-IsByte (suc n) [] h = h
drop-IsByte (suc n) (b ∷ p) (h, hs) = drop-IsByte n p hs

word-lt : (p : List ℕ) → All IsByte p → word p < 256 ^ length p
word-lt [] h = omega arith
word-lt (b ∷ p) (h, hs) = omega (arith, word-lt p hs, pow-suc 256 (length p))

-- The mask of `k` case bits.
case_bits : ℕ → ℕ
case_bits zero = 0
case_bits (suc k) = case_bits k * 256 + 0x20

word-bit_or :
    (k : ℕ) (p : List ℕ)
    → All IsByte p
    → length p ≤ k
    → bit_or (word p) (case_bits k) ≡ case_bits (k - length p) * 256 ^ length p + word (map lower p)
unfolding case_bits
word-bit_or k [] h le = zero-bit_or (case_bits k) ∙ omega (arith, ap case_bits (same_count k))
  where
    same_count : (n : ℕ) → n - 0 ≡ n
    same_count n = omega arith
word-bit_or zero (b ∷ p) h le = absurd (omega arith)
word-bit_or (suc k) (b ∷ p) (h, hs) le =
    let fields = bit_or_both_fields 8 (word p) b (case_bits k) 0x20 h (omega arith) in
    let rest : suc k - suc (length p) ≡ k - length p = omega arith in
    rw (rest, pow-suc 256 (length p)) (omega (arith, fields, word-bit_or k p hs (omega arith)))

next_byte : (k : ℕ) → 2 ^ (k + 8) ≡ 256 * 2 ^ k
next_byte k =
    let eight : k + 8 ≡ suc (suc (suc (suc (suc (suc (suc (suc k))))))) = omega arith in
    rw eight (
      omega (
        arith,
        pow-suc 2 k,
        pow-suc 2 (suc k),
        pow-suc 2 (suc (suc k)),
        pow-suc 2 (suc (suc (suc k))),
        pow-suc 2 (suc (suc (suc (suc k)))),
        pow-suc 2 (suc (suc (suc (suc (suc k))))),
        pow-suc 2 (suc (suc (suc (suc (suc (suc k)))))),
        pow-suc 2 (suc (suc (suc (suc (suc (suc (suc k))))))),
      ))

pow_bytes : (n : ℕ) → 2 ^ (8 * n) ≡ 256 ^ n
pow_bytes zero = refl
pow_bytes (suc n) =
    let more : 8 * suc n ≡ 8 * n + 8 = omega arith in
    rw more (omega (arith, next_byte (8 * n), pow_bytes n, pow-suc 256 n))

ld_lem :
    (n : ℕ) (p : List ℕ)
    → n ≤ 8
    → n ≤ length p
    → All IsByte p
    → ld n p ≡ word (map lower (take n p))
unfolding ld
ld_lem n p small enough h = elim (le_or_lt 8 n) [
  | inl big ↦ rw (test_true (omega arith)) (omega (arith, both, none_left (omega arith)))
  | inr below ↦ rw (test_false below) (
      bit_and_mask (8 * n) _
      ∙ rw (both, pow_bytes n)
          (mul-add-mod_self_right (case_bits (8 - n)) (256 ^ n) _ ∙ mod-eq_of_lt below_all))
]
  where
    l : length (take n p) ≡ n
    l = omega (arith, length-take n p)

    both :
        bit_or (word (take n p)) lower_mask
        ≡ case_bits (8 - n) * 256 ^ n + word (map lower (take n p))
    both =
        subst
          (λ m.
            bit_or (word (take n p)) lower_mask
            ≡ case_bits (8 - m) * 256 ^ m + word (map lower (take n p)))
          l (unfold case_bits in word-bit_or 8 (take n p) (take-IsByte n p h) (omega (arith, l)))

    below_all : word (map lower (take n p)) < 256 ^ n
    below_all =
        subst (λ m. word (map lower (take n p)) < 256 ^ m) (length-lowered (take n p) ∙ l)
          (word-lt (map lower (take n p)) (lowered-IsByte (take n p) (take-IsByte n p h)))

    none_left : n ≡ 8 → case_bits (8 - n) * 256 ^ n ≡ 0
    none_left e = rw e (unfold case_bits in refl)

    test_true : n ≡ 8 → (n == 8) ≡ true
    test_true e = ground arith

    test_false : n < 8 → (n == 8) ≡ false
    test_false e = ground arith

pack_loop_lem :
    (i v : ℕ) (s : List ℕ)
    → v < 2 ^ (8 * i)
    → All IsByte s
    → pack_loop i v s ≡ word (map lower s) * 2 ^ (8 * i) + v
unfolding pack_loop
pack_loop_lem i v [] h hs = omega arith
pack_loop_lem i v (c ∷ s) h (hc, hs) =
    rw joined (pack_loop_lem (i + 1) (lower c * 2 ^ (8 * i) + v) s fits hs ∙ rw wider (omega arith))
  where
    positive : 0 < 2 ^ (8 * i)
    positive = omega (arith, h)

    joined : bit_or v (lower c * 2 ^ (8 * i)) ≡ lower c * 2 ^ (8 * i) + v
    joined =
        ap₂ bit_or {x = v} {y = 0 * 2 ^ (8 * i) + v} (omega arith) (omega arith)
        ∙ bit_or_both_fields (8 * i) 0 v (lower c) 0 h positive
        ∙ ap₂ (λ a b. a * 2 ^ (8 * i) + b) (zero-bit_or (lower c)) (bit_or-zero v)

    wider : 2 ^ (8 * (i + 1)) ≡ 256 * 2 ^ (8 * i)
    wider = let more : 8 * (i + 1) ≡ 8 * i + 8 = omega arith in rw more (next_byte (8 * i))

    fits : lower c * 2 ^ (8 * i) + v < 2 ^ (8 * (i + 1))
    fits = rw wider (grind (arith, h, lower-IsByte c hc))

pack_lem : (s : List ℕ) → All IsByte s → pack s ≡ word (map lower (take 8 s))
unfolding pack
pack_lem s h = pack_loop_lem 0 0 (take 8 s) (omega arith) (take-IsByte 8 s h) ∙ omega arith

-- Two loads of as many bytes are the same number just where the lowercased bytes are.
ld-eq-pack :
    (n : ℕ) (p lit : List ℕ)
    → n ≤ 8
    → n ≤ length p
    → length (take 8 lit) ≡ n
    → All IsByte p
    → All IsByte lit
    → ((ld n p == pack lit) ≡ true) ↔ (take n (map lower p) ≡ take 8 (map lower lit))
ld-eq-pack n p lit small enough l hp hl = (
  (λ e.
      take-lowered n p
      ∙ word_inj (map lower (take n p)) (map lower (take 8 lit))
          (lowered-IsByte (take n p) (take-IsByte n p hp))
          (lowered-IsByte (take 8 lit) (take-IsByte 8 lit hl)) lengths
          (sym (ld_lem n p small enough hp) ∙ (==_iff _ _).0 e ∙ pack_lem lit hl)
      ∙ sym (take-lowered 8 lit)),
  λ e. (==_iff _ _).1 (
      ld_lem n p small enough hp
      ∙ ap word (sym (take-lowered n p) ∙ e ∙ take-lowered 8 lit)
      ∙ sym (pack_lem lit hl)),
)
  where
    lengths : length (map lower (take n p)) ≡ length (map lower (take 8 lit))
    lengths =
        omega (arith, length-lowered (take n p), length-lowered (take 8 lit), length-take n p, l)

-- What the look-up reads of a name: its length, the first eight and the last eight bytes, lowercased.
pub record SameKey (p q : List ℕ) : Type 0 where
  pub same_length : length p ≡ length q
  pub same_first : take 8 (map lower p) ≡ take 8 (map lower q)
  pub same_last : drop (length p - 8) (map lower p) ≡ drop (length q - 8) (map lower q)

pub m_short-SameKey :
    (n : ℕ) (p lit : List ℕ)
    → n ≤ 8
    → length p ≡ n
    → length lit ≡ n
    → All IsByte p
    → All IsByte lit
    → (m_short n p lit ≡ true) ↔ SameKey p lit
unfolding m_short
m_short-SameKey n p lit small lp ll hp hl = (
  (λ e.
      let whole : map lower p ≡ map lower lit =
        sym (all_p n lp)
        ∙ both.0 e
        ∙ take_all 8 (map lower lit) (omega (arith, length-lowered lit)) in
      record {
        same_length = lp ∙ sym ll;
        same_first = ap (take 8) whole;
        same_last = ap₂ (λ k l. drop (k - 8) l) (lp ∙ sym ll) whole;
      }),
  λ k. both.1 (
      all_p n lp ∙ sym (take_all 8 (map lower p) (omega (arith, length-lowered p))) ∙ k.same_first),
)
  where
    all_p : (m : ℕ) → length p ≡ m → take m (map lower p) ≡ map lower p
    all_p m e = take_all m (map lower p) (omega (arith, length-lowered p))

    both : ((ld n p == pack lit) ≡ true) ↔ (take n (map lower p) ≡ take 8 (map lower lit))
    both = ld-eq-pack n p lit small (omega arith) (omega (arith, length-take 8 lit)) hp hl

pub m8-SameKey :
    (n : ℕ) (p lit : List ℕ)
    → 8 ≤ n
    → length p ≡ n
    → length lit ≡ n
    → All IsByte p
    → All IsByte lit
    → (m8 p lit n ≡ true) ↔ SameKey p lit
unfolding m8
m8-SameKey n p lit big lp ll hp hl = (
  (λ e.
      let (e1, e2) = (&&_iff _ _).0 e in
      record {
        same_length = lp ∙ sym ll;
        same_first = first.0 e1;
        same_last = rw (lp, ll) (last.0 e2);
      }),
  λ k. (&&_iff _ _).1 (first.1 k.same_first, last.1 (rw (lp, ll) at (k.same_last))),
)
  where
    first : ((ld 8 p == pack lit) ≡ true) ↔ (take 8 (map lower p) ≡ take 8 (map lower lit))
    first = ld-eq-pack 8 p lit (omega arith) (omega arith) (omega (arith, length-take 8 lit)) hp hl

    eight :
        (q : List ℕ)
        → length q ≡ n
        → take 8 (map lower (drop (n - 8) q)) ≡ drop (n - 8) (map lower q)
    eight q l =
        take_all 8 (map lower (drop (n - 8) q))
          (omega (arith, length-lowered (drop (n - 8) q), length-drop (n - 8) q))
        ∙ sym (drop-lowered (n - 8) q)

    windows :
        ((ld 8 (drop (n - 8) p) == pack (drop (n - 8) lit)) ≡ true)
        ↔ (take 8 (map lower (drop (n - 8) p)) ≡ take 8 (map lower (drop (n - 8) lit)))
    windows =
        ld-eq-pack 8 (drop (n - 8) p) (drop (n - 8) lit) (omega arith)
          (omega (arith, length-drop (n - 8) p))
          (omega (arith, length-take 8 (drop (n - 8) lit), length-drop (n - 8) lit))
          (drop-IsByte (n - 8) p hp) (drop-IsByte (n - 8) lit hl)

    last :
        ((ld 8 (drop (n - 8) p) == pack (drop (n - 8) lit)) ≡ true)
        ↔ (drop (n - 8) (map lower p) ≡ drop (n - 8) (map lower lit))
    last = (
      (λ e. sym (eight p lp) ∙ windows.0 e ∙ eight lit ll),
      λ e. windows.1 (eight p lp ∙ e ∙ sym (eight lit ll)),
    )
