-- ===== src/Prelude/Text.antt =====
-- Texts of the source as lists of bytes.
use Prim.Native.Char.{code}
use Prim.Native.String.{String}
use Prim.Native.Nat.{ℕ}
use mathlib.Core.Path.{◌≡◌, refl}
use mathlib.Core.Logic.{◌↔◌}
use native.Mathlib.Omega.{arith}
use mathlib.Core.Bool.{Bool, true, false, ◌&&◌}
use mathlib.Core.List.{List, [], ◌∷◌}
use ebpf_ldms.Prelude.Tests.{◌==◌}

-- The code points of a text: its bytes, if it is ASCII.
abbrev pub codes : String → List ℕ
codes String.[] = []
codes (String.◌∷◌ c s) = code c ∷ codes s

-- The equality of two texts.
unfoldable pub same_text : List ℕ → List ℕ → Bool
same_text [] [] = true
same_text [] (y ∷ ys) = false
same_text (x ∷ xs) [] = false
same_text (x ∷ xs) (y ∷ ys) = x == y && same_text xs ys

pub same_text_iff : (xs ys : List ℕ) → ((same_text xs ys ≡ true) ↔ (xs ≡ ys))
unfolding same_text
same_text_iff [] [] = (λ _. refl, λ _. refl)
same_text_iff [] (y ∷ ys) = (λ e. cc, λ e. cc)
same_text_iff (x ∷ xs) [] = (λ e. cc, λ e. cc)
same_text_iff (x ∷ xs) (y ∷ ys) = ground (arith, same_text_iff xs ys)
