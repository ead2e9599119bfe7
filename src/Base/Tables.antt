-- ===== src/Base/Tables.antt =====
-- A law checked at every number below a bound.
use Prim.Native.Nat.{ℕ, zero, suc, ◌<◌}
use mathlib.Core.Path.{◌≡◌}
use mathlib.Core.Logic.{inl, inr}
use mathlib.Core.Bool.{Bool, true, false}
use native.Mathlib.Omega.{arith}
use cornet.Base.Tests.{if◌then◌else◌, Bool-cases, le_or_lt}

-- A test at every number below a bound.
unfoldable pub throughout : ℕ → (ℕ → Bool) → Bool
throughout zero p = true
throughout (suc n) p = if p n then throughout n p else false

pub throughout_at : (n x : ℕ) (p : ℕ → Bool) → throughout n p ≡ true → x < n → p x ≡ true
unfolding throughout
throughout_at zero x p e h = absurd (omega arith)
throughout_at (suc n) x p e h = elim (Bool-cases (p n)) [
  | inr no_ ↦ absurd (cc (rw no_ at e))
  | inl holds ↦ elim (le_or_lt n x) [
    | inl top ↦ let same : x ≡ n = omega arith in rw same holds
    | inr below ↦ throughout_at n x p (rw holds at e) below
  ]
]
