-- ===== src/Pmm/Bitmap.antt =====
-- What `bitmap_set` and `bitmap_clear` do to every `bitmap_test`.
use lisp_dos.Base.{
  ℕ, ◌/◌, ◌%◌, ◌<◌, ◌≡◌, refl, Bool, true, false, not, ◌&&◌, ◌||◌, arith, ◌==◌, each_below, each_of,
  each_below_lem,
}
use lisp_dos.Pmm.{Pmm, set_bit, clear_bit, test_bit, bitmap_set, bitmap_clear, bitmap_test}

-- Every cell of the bitmap is a byte.
abbrev pub IsBytes : Pmm → Type 0
IsBytes s = (i : ℕ) → s.bitmap i < 256

beq : Bool → Bool → Bool
beq true b = b
beq false b = not b

beq-eq : (a b : Bool) → beq a b ≡ true → a ≡ b
unfolding beq
beq-eq a b h = ground arith

abbrev set_law : ℕ → ℕ → ℕ → Bool
set_law j k b = beq (test_bit (set_bit b k) j) ((k == j) || test_bit b j)

abbrev clear_law : ℕ → ℕ → ℕ → Bool
clear_law j k b = beq (test_bit (clear_bit b k) j) (not (k == j) && test_bit b j)

set_table : each_below 8 (λ j. each_below 8 λ k. each_below 256 (set_law j k)) ≡ true
unfolding each_of beq set_bit test_bit
set_table = refl

clear_table : each_below 8 (λ j. each_below 8 λ k. each_below 256 (clear_law j k)) ≡ true
unfolding each_of beq clear_bit test_bit
clear_table = refl

from_table :
    (law : ℕ → ℕ → ℕ → Bool) (j k b : ℕ)
    → each_below 8 (λ j. each_below 8 λ k. each_below 256 (law j k)) ≡ true
    → j < 8
    → k < 8
    → b < 256
    → law j k b ≡ true
from_table law j k b table hj hk hb =
    each_below_lem 256 (law j k) b
      (each_below_lem 8 (λ k. each_below 256 (law j k)) k
        (each_below_lem 8 (λ j. each_below 8 λ k. each_below 256 (law j k)) j table hj) hk)
      hb

test-set_bit :
    (j k b : ℕ) → j < 8 → k < 8 → b < 256 → test_bit (set_bit b k) j ≡ ((k == j) || test_bit b j)
test-set_bit j k b hj hk hb = beq-eq _ _ (from_table set_law j k b set_table hj hk hb)

test-clear_bit :
    (j k b : ℕ)
    → j < 8
    → k < 8
    → b < 256
    → test_bit (clear_bit b k) j ≡ (not (k == j) && test_bit b j)
test-clear_bit j k b hj hk hb = beq-eq _ _ (from_table clear_law j k b clear_table hj hk hb)

pub bitmap_set-IsBytes : (s : Pmm) (p : ℕ) → IsBytes s → IsBytes (bitmap_set s p)
unfolding bitmap_set set_bit
bitmap_set-IsBytes s p v i = ground (arith, v i)

pub bitmap_clear-IsBytes : (s : Pmm) (p : ℕ) → IsBytes s → IsBytes (bitmap_clear s p)
unfolding bitmap_clear clear_bit
bitmap_clear-IsBytes s p v i = ground (arith, v i)

pub test-set :
    (s : Pmm) (p q : ℕ) → IsBytes s → bitmap_test (bitmap_set s p) q ≡ ((p == q) || bitmap_test s q)
unfolding bitmap_set bitmap_test
test-set s p q v =
    ground
      (arith, test-set_bit (q % 8) (p % 8) (s.bitmap (p / 8)) (omega arith) (omega arith) (v _))

pub test-clear :
    (s : Pmm) (p q : ℕ)
    → IsBytes s
    → bitmap_test (bitmap_clear s p) q ≡ (not (p == q) && bitmap_test s q)
unfolding bitmap_clear bitmap_test
test-clear s p q v =
    ground
      (arith, test-clear_bit (q % 8) (p % 8) (s.bitmap (p / 8)) (omega arith) (omega arith) (v _))
