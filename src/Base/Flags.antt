-- ===== src/Base/Flags.antt =====
-- A word as a set of flags: one bit of it, set and tested.
use Prim.Native.Nat.{ℕ, zero, suc, ◌*◌, ◌/◌, ◌%◌, ◌^◌, ◌<◌, max, bit_and, bit_or}
use mathlib.Core.Path.{◌≡◌, refl, ap, ◌∙◌}
use native.Mathlib.Omega.{arith}
use native.Mathlib.Nat.{pow-suc}
use cornet.Base.Tests.{◌==◌, if◌then◌else◌}
use cornet.Base.Bits.{bit_or_step, bit_and_step, bit_and_mask}

-- Bit `f` of a word.
abbrev pub bit : ℕ → ℕ → ℕ
bit m zero = m % 2
bit m (suc f) = bit (m / 2) f

pub bit-lt : (m f : ℕ) → bit m f < 2
bit-lt m zero = omega arith
bit-lt m (suc f) = bit-lt (m / 2) f

pub bit-bit_or : (f a b : ℕ) → bit (bit_or a b) f ≡ max (bit a f) (bit b f)
bit-bit_or zero a b = omega (arith, bit_or_step a b)
bit-bit_or (suc f) a b =
    ap (λ m. bit m f) {x = bit_or a b / 2} {y = bit_or (a / 2) (b / 2)}
      (omega (arith, bit_or_step a b))
    ∙ bit-bit_or f (a / 2) (b / 2)

pub bit-zero : (f : ℕ) → bit 0 f ≡ 0
bit-zero zero = refl
bit-zero (suc f) = bit-zero f

half-pow : (g : ℕ) → 2 ^ suc g / 2 ≡ 2 ^ g
half-pow g = omega (arith, pow-suc 2 g)

pub bit-pow : (g f : ℕ) → bit (2 ^ g) f ≡ (if g == f then 1 else 0)
bit-pow zero zero = refl
bit-pow zero (suc f) = bit-zero f ∙ ground arith
bit-pow (suc g) zero = ground (arith, pow-suc 2 g)
bit-pow (suc g) (suc f) = ap (λ m. bit m f) (half-pow g) ∙ bit-pow g f ∙ ground arith

pub bit_and-pow : (f m : ℕ) → bit_and m (2 ^ f) ≡ bit m f * 2 ^ f
bit_and-pow zero m = bit_and_mask 1 m ∙ omega arith
bit_and-pow (suc f) m =
    let half : bit_and (m / 2) (2 ^ suc f / 2) ≡ bit_and (m / 2) (2 ^ f) =
      ap (bit_and (m / 2)) (half-pow f) in
    let ih = bit_and-pow f (m / 2) in
    let double = ap (λ (t : ℕ). bit (m / 2) f * t) (pow-suc 2 f) in
    omega (arith, bit_and_step m (2 ^ suc f), half, ih, double, pow-suc 2 f)
