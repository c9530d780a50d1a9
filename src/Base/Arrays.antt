-- ===== src/Base/Arrays.antt =====
-- C memory reached through a pointer, as a function from the offset to the value stored there.
-- Nothing bounds the offset: a theorem says where a program writes, or that it stays inside.
use Prim.Native.Nat.{ℕ, zero, suc, ◌+◌, ◌<◌}
use mathlib.Core.Path.{◌≡◌, refl}
use mathlib.Core.Logic.{◌≢◌}
use mathlib.Core.List.{List, [], ◌∷◌}
use native.Mathlib.Omega.{arith}
use lisp_dos.Base.Tests.{◌==◌, if◌then◌else◌}

abbrev pub Memory : Type 0
Memory = ℕ → ℕ

-- `m[p] = v`
abbrev pub update {ℓ} : {A : Type ℓ} → (ℕ → A) → ℕ → A → ℕ → A
update m p v q = if p == q then v else m q

module _ {ℓ} {A : Type ℓ} (m : ℕ → A) (v : A) where
  pub update_self : (p : ℕ) → update m p v p ≡ v
  update_self p = ground arith

  pub update_ne : (p q : ℕ) → p ≢ q → update m p v q ≡ m q
  update_ne p q h = ground arith

-- The `n` values from offset `p` on.
unfoldable pub slice {ℓ} : {A : Type ℓ} → (ℕ → A) → ℕ → ℕ → List A
slice m p zero = []
slice m p (suc n) = m p ∷ slice m (p + 1) n

-- Equal contents give equal slices.
pub slice_ext {ℓ} :
    {A : Type ℓ} (m w : ℕ → A) (p q n : ℕ)
    → ((i : ℕ) → i < n → m (p + i) ≡ w (q + i))
    → slice m p n ≡ slice w q n
unfolding slice
slice_ext m w p q zero same = refl
slice_ext m w p q (suc n) same =
    ground (arith, same 0, slice_ext m w (p + 1) (q + 1) n λ i h. shifted i h)
  where
    shifted : (i : ℕ) → i < n → m (p + 1 + i) ≡ w (q + 1 + i)
    shifted i h = ground (arith, same (i + 1))
