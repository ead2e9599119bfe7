-- ===== src/Base/Bits.antt =====
-- Laws of the bitwise operations at variables: how `|`, `^` and `&` act on a number that is split
-- into a high and a low field.
use Prim.Native.Nat.{
  ℕ, zero, suc, ◌+◌, ◌-◌, ◌*◌, ◌/◌, ◌%◌, ◌^◌, ◌≤◌, ◌<◌, min, max, bit_and, bit_or, bit_xor, digits,
  bitwise, differ, bit_and-bitwise, bit_or-bitwise, bit_xor-bitwise,
}
use mathlib.Core.Path.{◌≡◌, refl, ap, ap₂}
use native.Mathlib.Nat.{le_refl, pow-suc, one-le-pow, div-add-mod}
use native.Mathlib.Omega.{arith}

-- What the native operations compute, digit by digit, does not depend on the fuel.
module _ (z : ℕ → ℕ) (f : ℕ → ℕ → ℕ) where
  digits_enough : (n m a b : ℕ) → a ≤ n → a ≤ m → digits z f n a b ≡ digits z f m a b
  digits_enough zero zero a b p q = refl
  digits_enough zero (suc m) zero b p q = refl
  digits_enough zero (suc m) (suc a) b p q = absurd (omega arith)
  digits_enough (suc n) zero zero b p q = refl
  digits_enough (suc n) zero (suc a) b p q = absurd (omega arith)
  digits_enough (suc n) (suc m) zero b p q = refl
  digits_enough (suc n) (suc m) (suc a) b p q =
      ap (λ (t : ℕ). t * 2 + f (suc a % 2) (b % 2))
        (digits_enough n m (suc a / 2) (b / 2) (omega arith) (omega arith))

  -- One digit is split off, also where the first operand has none left.
  bitwise_step :
      ((b : ℕ) → z b ≡ z (b / 2) * 2 + f 0 (b % 2))
      → (a b : ℕ) → bitwise z f a b ≡ bitwise z f (a / 2) (b / 2) * 2 + f (a % 2) (b % 2)
  bitwise_step at_end zero b = at_end b
  bitwise_step at_end (suc a) b =
      let fuel = digits_enough a (suc a / 2) (suc a / 2) (b / 2) (omega arith) (omega arith) in
      ap (λ high. high * 2 + f (suc a % 2) (b % 2)) fuel

pub bit_xor_step : (a b : ℕ) → bit_xor a b ≡ bit_xor (a / 2) (b / 2) * 2 + differ (a % 2) (b % 2)
bit_xor_step a b = simp bit_xor-bitwise (bitwise_step (λ y. y) differ (λ y. omega arith) a b)

pub bit_and_step : (a b : ℕ) → bit_and a b ≡ bit_and (a / 2) (b / 2) * 2 + min (a % 2) (b % 2)
bit_and_step a b = simp bit_and-bitwise (bitwise_step (λ y. 0) min (λ y. omega arith) a b)

pub bit_or_step : (a b : ℕ) → bit_or a b ≡ bit_or (a / 2) (b / 2) * 2 + max (a % 2) (b % 2)
bit_or_step a b = simp bit_or-bitwise (bitwise_step (λ y. y) max (λ y. omega arith) a b)

shift_suc : (q k : ℕ) → q * 2 ^ suc k ≡ 2 * (q * 2 ^ k)
shift_suc q k = omega (arith, ap (λ (t : ℕ). q * t) (pow-suc 2 k))

half_field : (k q r : ℕ) → (q * 2 ^ suc k + r) / 2 ≡ q * 2 ^ k + r / 2
half_field k q r = omega (arith, shift_suc q k)

odd_field : (k q r : ℕ) → (q * 2 ^ suc k + r) % 2 ≡ r % 2
odd_field k q r = omega (arith, shift_suc q k)

-- An operation that works digit by digit works field by field.
module _ (op f : ℕ → ℕ → ℕ) (step : (a b : ℕ) → op a b ≡ op (a / 2) (b / 2) * 2 + f (a % 2) (b % 2))
    (at_zero : op 0 0 ≡ 0) where
  op_fields :
      (k q r s t : ℕ)
      → r < 2 ^ k
      → t < 2 ^ k
      → op (q * 2 ^ k + r) (s * 2 ^ k + t) ≡ op q s * 2 ^ k + op r t
  op_fields zero q r s t h g =
      let r0 : r ≡ 0 = omega arith in let t0 : t ≡ 0 = omega arith in ground (arith, at_zero)
  op_fields (suc k) q r s t h g =
      let halves = ap₂ op (half_field k q r) (half_field k s t) in
      omega (
        arith,
        step (q * 2 ^ suc k + r) (s * 2 ^ suc k + t),
        halves,
        op_fields k q (r / 2) s (t / 2) (omega (arith, pow-suc 2 k)) (omega (arith, pow-suc 2 k)),
        step r t,
        ap₂ f (odd_field k q r) (odd_field k s t),
        shift_suc (op q s) k,
      )

  -- Fields below `2 ^ k` give a result below `2 ^ k`.
  op-lt : ((a b : ℕ) → f (a % 2) (b % 2) < 2) → (k a b : ℕ) → a < 2 ^ k → b < 2 ^ k → op a b < 2 ^ k
  op-lt bit zero a b h g =
      let a0 : a ≡ 0 = omega arith in let b0 : b ≡ 0 = omega arith in ground (arith, at_zero)
  op-lt bit (suc k) a b h g = omega (
    arith,
    step a b,
    bit a b,
    pow-suc 2 k,
    op-lt bit k (a / 2) (b / 2) (omega (arith, pow-suc 2 k)) (omega (arith, pow-suc 2 k)),
  )

-- Or with 0.
bit_or-zero_below : (n a : ℕ) → a ≤ n → bit_or a 0 ≡ a
bit_or-zero_below n zero h = refl
bit_or-zero_below zero (suc a) h = absurd (omega arith)
bit_or-zero_below (suc n) (suc a) h =
    omega (arith, bit_or_step (suc a) 0, bit_or-zero_below n (suc a / 2) (omega arith))

bit_and-zero_below : (n a : ℕ) → a ≤ n → bit_and a 0 ≡ 0
bit_and-zero_below n zero h = refl
bit_and-zero_below zero (suc a) h = absurd (omega arith)
bit_and-zero_below (suc n) (suc a) h =
    omega (arith, bit_and_step (suc a) 0, bit_and-zero_below n (suc a / 2) (omega arith))

-- `(q << k) | r` is a sum where `r` fits `k` bits.
pub bit_or_fields : (k q r : ℕ) → r < 2 ^ k → bit_or (q * 2 ^ k) r ≡ q * 2 ^ k + r
bit_or_fields k q r h = ground (
  arith,
  op_fields bit_or max bit_or_step refl k q 0 0 r (omega (arith, one-le-pow k 2)) h,
  bit_or-zero_below q q (le_refl q),
  bit_or_zero_left r,
)
  where
    bit_or_zero_left : (x : ℕ) → bit_or 0 x ≡ x
    bit_or_zero_left x = bit_or-bitwise 0 x

pub bit_xor_fields :
    (k q r s t : ℕ)
    → r < 2 ^ k
    → t < 2 ^ k
    → bit_xor (q * 2 ^ k + r) (s * 2 ^ k + t) ≡ bit_xor q s * 2 ^ k + bit_xor r t
bit_xor_fields = op_fields bit_xor differ bit_xor_step refl

differ-lt : (x y : ℕ) → x < 2 → y < 2 → differ x y < 2
differ-lt zero y h g = g
differ-lt (suc x) zero h g = h
differ-lt (suc x) (suc y) h g = differ-lt x y (omega arith) (omega arith)

pub bit_xor-lt : (k a b : ℕ) → a < 2 ^ k → b < 2 ^ k → bit_xor a b < 2 ^ k
bit_xor-lt =
    op-lt bit_xor differ bit_xor_step refl
      (λ a b. differ-lt (a % 2) (b % 2) (omega arith) (omega arith))

differ_twice : (x y : ℕ) → x < 2 → y < 2 → differ (differ x y) y ≡ x
differ_twice zero zero h g = refl
differ_twice zero (suc zero) h g = refl
differ_twice (suc zero) zero h g = refl
differ_twice (suc zero) (suc zero) h g = refl
differ_twice _ (suc (suc y)) h g = absurd (omega arith)
differ_twice (suc (suc x)) _ h g = absurd (omega arith)

-- The same operand twice gives the first back.
pub bit_xor_twice : (k a b : ℕ) → a < 2 ^ k → b < 2 ^ k → bit_xor (bit_xor a b) b ≡ a
bit_xor_twice zero a b h g =
    let a0 : a ≡ 0 = omega arith in let b0 : b ≡ 0 = omega arith in rw (a0, b0)
bit_xor_twice (suc k) a b h g =
    let bit = differ-lt (a % 2) (b % 2) (omega arith) (omega arith) in
    let half : bit_xor a b / 2 ≡ bit_xor (a / 2) (b / 2) = omega (arith, bit_xor_step a b, bit) in
    let odd : bit_xor a b % 2 ≡ differ (a % 2) (b % 2) = omega (arith, bit_xor_step a b, bit) in
    omega (
      arith,
      bit_xor_step (bit_xor a b) b,
      ap (λ t. bit_xor t (b / 2)) half,
      ap (λ t. differ t (b % 2)) odd,
      differ_twice (a % 2) (b % 2) (omega arith) (omega arith),
      bit_xor_twice k (a / 2) (b / 2) (omega (arith, pow-suc 2 k)) (omega (arith, pow-suc 2 k)),
    )

-- A mask of `k` low bits is the remainder by `2 ^ k`.
bit_and_ones : (k r : ℕ) → r < 2 ^ k → bit_and r (2 ^ k - 1) ≡ r
bit_and_ones zero r h = let r0 : r ≡ 0 = omega arith in ground arith
bit_and_ones (suc k) r h =
    let half : (2 ^ suc k - 1) / 2 ≡ 2 ^ k - 1 = omega (arith, pow-suc 2 k, one-le-pow k 2) in
    omega (
      arith,
      bit_and_step r (2 ^ suc k - 1),
      ap (bit_and (r / 2)) half,
      bit_and_ones k (r / 2) (omega (arith, pow-suc 2 k)),
      pow-suc 2 k,
      one-le-pow k 2,
    )

pub bit_and_mask : (k a : ℕ) → bit_and a (2 ^ k - 1) ≡ a % 2 ^ k
bit_and_mask k a = ground (
  arith,
  op_fields bit_and min bit_and_step refl k (a / 2 ^ k) (a % 2 ^ k) 0 (2 ^ k - 1)
      (omega (arith, one-le-pow k 2)) (omega (arith, one-le-pow k 2)),
  bit_and-zero_below (a / 2 ^ k) (a / 2 ^ k) (le_refl (a / 2 ^ k)),
  bit_and_ones k (a % 2 ^ k) (omega (arith, one-le-pow k 2)),
  div-add-mod a (2 ^ k),
)

-- The single bits and fields of a byte that the frame header is read by.
pub bit_and_top : (b : ℕ) → b < 256 → bit_and b 0x80 ≡ b / 128 * 128
bit_and_top b h = ground (
  arith,
  op_fields bit_and min bit_and_step refl 7 (b / 128) (b % 128) 1 0 (omega arith) (omega arith),
  bit_and_mask 1 (b / 128),
  bit_and-zero_below (b % 128) (b % 128) (le_refl (b % 128)),
)

pub bit_and_middle : (b : ℕ) → b < 256 → bit_and b 0x70 ≡ b / 16 % 8 * 16
bit_and_middle b h = ground (
  arith,
  op_fields bit_and min bit_and_step refl 4 (b / 16) (b % 16) 7 0 (omega arith) (omega arith),
  bit_and_mask 3 (b / 16),
  bit_and-zero_below (b % 16) (b % 16) (le_refl (b % 16)),
)

-- Or works field by field, and keeps to the width of its operands.
pub bit_or_both_fields :
    (k q r s t : ℕ)
    → r < 2 ^ k
    → t < 2 ^ k
    → bit_or (q * 2 ^ k + r) (s * 2 ^ k + t) ≡ bit_or q s * 2 ^ k + bit_or r t
bit_or_both_fields = op_fields bit_or max bit_or_step refl

pub bit_or-lt : (k a b : ℕ) → a < 2 ^ k → b < 2 ^ k → bit_or a b < 2 ^ k
bit_or-lt = op-lt bit_or max bit_or_step refl (λ a b. omega arith)

pub bit_or-zero : (a : ℕ) → bit_or a 0 ≡ a
bit_or-zero a = bit_or-zero_below a a (le_refl a)

pub zero-bit_or : (a : ℕ) → bit_or 0 a ≡ a
zero-bit_or a = bit_or-bitwise 0 a
