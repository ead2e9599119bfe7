-- ===== src/WebSocket/Mask/Tests.antt =====
-- Runs of `apply_mask`, and its theorems at concrete inputs.
use cornet.Base.{ℕ, ◌+◌, ◌≡◌, refl, List, [], ◌∷◌, ◌++◌, All, IsByte, arith}
use cornet.WebSocket.Mask.{apply_mask}
use cornet.WebSocket.Mask.Laws.{
  mask_spec, apply_mask-eq-mask_spec, apply_mask-apply_mask, apply_mask-append,
}

-- "Hello" under the key of RFC 6455 section 5.7.
abbrev hello : List ℕ
hello = 0x48 ∷ 0x65 ∷ 0x6c ∷ 0x6c ∷ 0x6f ∷ []

masked_hello : apply_mask 0x3d21fa37 hello 0 ≡ 0x7f ∷ 0x9f ∷ 0x4d ∷ 0x51 ∷ 0x58 ∷ []
unfolding apply_mask
masked_hello = refl

hello-IsByte : All IsByte hello
hello-IsByte = omega arith

apply_mask-eq-mask_spec_example : apply_mask 0x3d21fa37 hello 3 ≡ mask_spec 0x3d21fa37 3 hello
apply_mask-eq-mask_spec_example =
    apply_mask-eq-mask_spec 0x3d21fa37 hello 3 (omega arith) hello-IsByte

apply_mask-apply_mask_example : apply_mask 0x3d21fa37 (apply_mask 0x3d21fa37 hello 3) 3 ≡ hello
apply_mask-apply_mask_example = apply_mask-apply_mask 0x3d21fa37 hello 3 (omega arith) hello-IsByte

apply_mask-append_example :
    apply_mask 0x3d21fa37 hello 3 ++ apply_mask 0x3d21fa37 hello (3 + 5)
    ≡ apply_mask 0x3d21fa37 (hello ++ hello) 3
apply_mask-append_example =
    apply_mask-append 0x3d21fa37 hello hello 3 (omega arith) hello-IsByte hello-IsByte
