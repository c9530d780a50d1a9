-- ===== src/Base/Lists.antt =====
-- The length of a list as a native number, and the laws of appending.
use Prim.Native.Nat.{ℕ, zero, suc, ◌+◌}
use mathlib.Core.Path.{◌≡◌, refl, ap}
use mathlib.Core.List.{List, [], ◌∷◌, ◌++◌}
use native.Mathlib.Omega.{arith}

abbrev pub length {ℓ} : {A : Type ℓ} → List A → ℕ
length [] = 0
length (x ∷ s) = suc (length s)

pub append_nil {ℓ} : {A : Type ℓ} → (s : List A) → s ++ [] ≡ s
append_nil [] = refl
append_nil (c ∷ s) = ap (λ r. c ∷ r) (append_nil s)

pub append_assoc {ℓ} : {A : Type ℓ} → (a b c : List A) → (a ++ b) ++ c ≡ a ++ (b ++ c)
append_assoc [] b c = refl
append_assoc (x ∷ a) b c = ap (λ r. x ∷ r) (append_assoc a b c)

pub length-append {ℓ} : {A : Type ℓ} → (a b : List A) → length (a ++ b) ≡ length a + length b
length-append [] b = omega arith
length-append (x ∷ a) b = ground (arith, length-append a b)

-- An array of numbers that is written out in the source, read at an index.
abbrev pub nth : List ℕ → ℕ → ℕ
nth [] i = 0
nth (c ∷ s) zero = c
nth (c ∷ s) (suc i) = nth s i
