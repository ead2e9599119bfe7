-- ===== src/Base/Text.antt =====
-- Text as the list of its bytes, the test for equal bytes, and runs of bytes as words.
use Prim.Native.Nat.{ℕ, ◌+◌, ◌*◌}
use Prim.Native.Char.{code}
use Prim.Native.String.{String}
use mathlib.Core.Path.{◌≡◌, refl, ap₂}
use mathlib.Core.Logic.{◌↔◌}
use mathlib.Core.Bool.{Bool, true, false, ◌&&◌}
use mathlib.Core.List.{List, [], ◌∷◌}
use native.Mathlib.Omega.{arith}
use cornet.Base.Tests.{◌==◌}
use cornet.Base.Lists.{All, IsByte, length}

-- The bytes of an ASCII literal.
abbrev pub codes : String → List ℕ
codes String.[] = []
codes (String.◌∷◌ c s) = code c ∷ codes s

abbrev pub same : List ℕ → List ℕ → Bool
same [] [] = true
same [] (y ∷ ys) = false
same (x ∷ xs) [] = false
same (x ∷ xs) (y ∷ ys) = x == y && same xs ys

pub same_iff : (xs ys : List ℕ) → (same xs ys ≡ true) ↔ (xs ≡ ys)
same_iff [] [] = ((λ e. refl), λ e. refl)
same_iff [] (y ∷ ys) = ((λ e. cc e), λ e. cc e)
same_iff (x ∷ xs) [] = ((λ e. cc e), λ e. cc e)
same_iff (x ∷ xs) (y ∷ ys) = ground (arith, same_iff xs ys)

-- The little-endian word that a run of bytes loads as.
abbrev pub word : List ℕ → ℕ
word [] = 0
word (b ∷ bs) = word bs * 256 + b

pub word_inj :
    (xs ys : List ℕ)
    → All IsByte xs
    → All IsByte ys
    → length xs ≡ length ys
    → word xs ≡ word ys
    → xs ≡ ys
word_inj [] [] hx hy l e = refl
word_inj [] (y ∷ ys) hx hy l e = absurd (omega arith)
word_inj (x ∷ xs) [] hx hy l e = absurd (omega arith)
word_inj (x ∷ xs) (y ∷ ys) (hx, hxs) (hy, hys) l e =
    ap₂ ◌∷◌ (omega arith) (word_inj xs ys hxs hys (omega arith) (omega arith))
