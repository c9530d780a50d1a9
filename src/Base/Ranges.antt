-- ===== src/Base/Ranges.antt =====
-- Statements about each number of a small range, decided by evaluation.
use Prim.Native.Nat.{ℕ, zero, suc, ◌+◌, ◌≤◌, ◌<◌}
use mathlib.Core.Path.{◌≡◌}
use mathlib.Core.Logic.{inl, inr}
use mathlib.Core.Bool.{Bool, true, ◌&&◌}
use native.Mathlib.Omega.{arith}
use lisp_dos.Base.Tests.{◌==◌, Bool-cases}

-- The test holds of the `left` numbers from `first` on.
unfoldable pub each_of : (left first : ℕ) → (ℕ → Bool) → Bool
each_of zero first test = true
each_of (suc left) first test = each_of left (first + 1) test && test first

pub each_of_lem :
    (left first : ℕ) (test : ℕ → Bool)
    → each_of left first test ≡ true
    → (k : ℕ) → first ≤ k
    → k < first + left
    → test k ≡ true
unfolding each_of
each_of_lem zero first test all k lo hi = absurd (omega arith)
each_of_lem (suc left) first test all k lo hi = elim (Bool-cases (k == first)) [
  | inl same ↦ ground arith
  | inr later ↦ each_of_lem left (first + 1) test (ground arith) k (ground arith) (omega arith)
]

abbrev pub each_below : ℕ → (ℕ → Bool) → Bool
each_below n test = each_of n 0 test

pub each_below_lem :
    (n : ℕ) (test : ℕ → Bool) (k : ℕ) → each_below n test ≡ true → k < n → test k ≡ true
each_below_lem n test k all lt = each_of_lem n 0 test all k (omega arith) (omega arith)
