-- ===== src/RingBuffer/Cursors.antt =====
-- Cursors as counters taken modulo the size.
use cornet.Base.{
  ℕ, ◌↔◌, ◌+◌, ◌-◌, ◌/◌, ◌%◌, ◌^◌, ◌<◌, ◌≤◌, ◌≡◌, ◌≢◌, inl, inr, sym, ap, ◌∙◌, arith, bit_and,
  le_or_lt,
}
use cornet.Base.Bits.{bit_and_mask}
use native.Mathlib.Nat.{
  div-add-mod, mod-add-mod, add-mod_right, mul-le-mul_left, one-le-pow, mul-suc,
}

module _ (n : ℕ) (positive : 0 < n) where
  -- Two counters less than a size apart have different cursors.
  pub cursor-differ : (a b : ℕ) → a < b → b < a + n → a % n ≢ b % n
  cursor-differ a b lt near e = elim (le_or_lt (b / n) (a / n)) [
    | inl h ↦ absurd (omega (arith, div-add-mod a n, div-add-mod b n, mul-le-mul_left n h))
    | inr h ↦
        absurd
          (omega (arith, div-add-mod a n, div-add-mod b n, mul-le-mul_left n h, mul-suc n (a / n)))
  ]

pub next_cursor-mod : (k t : ℕ) → bit_and (t % 2 ^ k + 1) (2 ^ k - 1) ≡ (t + 1) % 2 ^ k
next_cursor-mod k t = bit_and_mask k (t % 2 ^ k + 1) ∙ mod-add-mod t (2 ^ k) 1

module _ (k : ℕ) where
  pub size_positive : 0 < 2 ^ k
  size_positive = one-le-pow k 2 (omega arith)

  -- The test for a full ring, on counters.
  pub full_iff : (a b : ℕ) → a < b → b ≤ a + 2 ^ k → (b % 2 ^ k ≡ a % 2 ^ k) ↔ (b ≡ a + 2 ^ k)
  full_iff a b lt le = (
    (λ e. elim (le_or_lt (a + 2 ^ k) b) [
      | inl h ↦ omega arith
      | inr h ↦ absurd (cursor-differ (2 ^ k) size_positive a b lt h (sym e))
    ]),
    λ e. ap (λ t. t % 2 ^ k) e ∙ add-mod_right a (2 ^ k),
  )

  -- The test for an empty ring, on counters.
  pub empty_iff : (a b : ℕ) → a ≤ b → b < a + 2 ^ k → (a % 2 ^ k ≡ b % 2 ^ k) ↔ (a ≡ b)
  empty_iff a b le lt = (
    (λ e. elim (le_or_lt b a) [
      | inl h ↦ omega arith
      | inr h ↦ absurd (cursor-differ (2 ^ k) size_positive a b h lt e)
    ]),
    λ e. ap (λ t. t % 2 ^ k) e,
  )
