-- ===== src/Base/Bits.antt =====
-- `bit_or` where the digits of the numbers do not meet, as the flags and the address in an entry of
-- a page table.
use Prim.Native.Nat.{
  ◌^◌, ℕ, zero, suc, ◌+◌, ◌*◌, ◌/◌, ◌%◌, ◌≤◌, ◌<◌, max, bit_or, digits, bit_or-bitwise,
}
use mathlib.Core.Path.{◌≡◌, refl}
use native.Mathlib.Omega.{arith}

abbrev or_digits : ℕ → ℕ → ℕ → ℕ
or_digits n a b = digits (λ y. y) max n a b

-- The count of digits does not matter where it is large enough.
or_digits_enough : (a n m b : ℕ) → a ≤ n → a ≤ m → or_digits n a b ≡ or_digits m a b
or_digits_enough zero zero zero b p q = refl
or_digits_enough zero zero (suc m) b p q = refl
or_digits_enough zero (suc n) zero b p q = refl
or_digits_enough zero (suc n) (suc m) b p q = refl
or_digits_enough (suc a) zero m b p q = absurd (omega arith)
or_digits_enough (suc a) (suc n) zero b p q = absurd (omega arith)
or_digits_enough (suc a) (suc n) (suc m) b p q =
    omega (arith, or_digits_enough (suc a / 2) n m (b / 2) (omega arith) (omega arith))

bit_or_lowest : (a b : ℕ) → bit_or a b ≡ bit_or (a / 2) (b / 2) * 2 + max (a % 2) (b % 2)
bit_or_lowest zero b = omega (arith, bit_or-bitwise 0 b, bit_or-bitwise 0 (b / 2))
bit_or_lowest (suc a) b = omega (
  arith,
  bit_or-bitwise (suc a) b,
  bit_or-bitwise (suc a / 2) (b / 2),
  or_digits_enough (suc a / 2) a (suc a / 2) (b / 2) (omega arith) (omega arith),
)

-- `2 ^ k * m`
unfoldable twice : (k m : ℕ) → ℕ
twice zero m = m
twice (suc k) m = 2 * twice k m

bit_or_zero : (n a : ℕ) → a ≤ n → bit_or a 0 ≡ a
bit_or_zero n zero h = refl
bit_or_zero zero (suc a) h = absurd (omega arith)
bit_or_zero (suc n) (suc a) h =
    omega (arith, bit_or_lowest (suc a) 0, bit_or_zero n (suc a / 2) (omega arith))

bit_or-twice : (k m b : ℕ) → b < twice k 1 → bit_or (twice k m) b ≡ twice k m + b
unfolding twice
bit_or-twice zero m b lt = let e : b ≡ 0 = omega arith in rw e (omega (arith, bit_or_zero m m))
bit_or-twice (suc k) m b lt =
    let half : 2 * twice k m / 2 ≡ twice k m = omega arith in
    let low : bit_or (2 * twice k m / 2) (b / 2) ≡ twice k m + b / 2 =
      rw half (bit_or-twice k m (b / 2) (omega arith)) in
    omega (arith, bit_or_lowest (2 * twice k m) b, low)

pub bit_or_flags :
    (page flags : ℕ) → flags < 4096 → bit_or (page * 4096) flags ≡ page * 4096 + flags
unfolding twice
bit_or_flags page flags lt =
    let e : page * 4096 ≡ twice 12 page = omega arith in
    rw e (bit_or-twice 12 page flags (omega arith))

pub bit_or_one : (a : ℕ) → bit_or a 1 ≡ a / 2 * 2 + 1
bit_or_one a = omega (arith, bit_or_lowest a 1, bit_or_zero (a / 2) (a / 2))

pub bit_or_two : (a : ℕ) → a / 2 % 2 ≡ 0 → bit_or a 2 ≡ a + 2
bit_or_two a h = omega (arith, bit_or_lowest a 2, bit_or_one (a / 2))

pub bit_or_four : (a : ℕ) → a / 4 % 2 ≡ 0 → bit_or a 4 ≡ a + 4
bit_or_four a h = omega (arith, bit_or_lowest a 4, bit_or_two (a / 2))

-- `(phys | PAGE_PRESENT | PAGE_WRITE | PAGE_USER)`
pub bit_or_entry : (page : ℕ) → bit_or (bit_or (bit_or (page * 4096) 1) 2) 4 ≡ page * 4096 + 7
bit_or_entry page =
    let one : bit_or (page * 4096) 1 ≡ page * 4096 + 1 = omega (arith, bit_or_one (page * 4096)) in
    let two : bit_or (page * 4096 + 1) 2 ≡ page * 4096 + 3 =
      omega (arith, bit_or_two (page * 4096 + 1)) in
    rw (one, two) (omega (arith, bit_or_four (page * 4096 + 3)))

zero-bit_or : (b : ℕ) → bit_or 0 b ≡ b
zero-bit_or b = bit_or-bitwise 0 b

bit_or_below : (k b m : ℕ) → b < twice k 1 → bit_or b (twice k m) ≡ b + twice k m
unfolding twice
bit_or_below zero b m lt = let e : b ≡ 0 = omega arith in rw e (omega (arith, zero-bit_or m))
bit_or_below (suc k) b m lt =
    let half : 2 * twice k m / 2 ≡ twice k m = omega arith in
    let low : bit_or (b / 2) (2 * twice k m / 2) ≡ b / 2 + twice k m =
      rw half (bit_or_below k (b / 2) m (omega arith)) in
    omega (arith, bit_or_lowest b (2 * twice k m), low)

-- The fields of a word of which the lower is of 8, 11, 16 or 31 bits.
pub bit_or_8 : (a b : ℕ) → b < 2 ^ 8 → bit_or (a * 2 ^ 8) b ≡ a * 2 ^ 8 + b
unfolding twice
bit_or_8 a b lt =
    let e : a * 2 ^ 8 ≡ twice 8 a = omega arith in rw e (bit_or-twice 8 a b (omega arith))

pub bit_or_11 : (a b : ℕ) → b < 2 ^ 11 → bit_or (a * 2 ^ 11) b ≡ a * 2 ^ 11 + b
unfolding twice
bit_or_11 a b lt =
    let e : a * 2 ^ 11 ≡ twice 11 a = omega arith in rw e (bit_or-twice 11 a b (omega arith))

pub bit_or_16 : (a b : ℕ) → b < 2 ^ 16 → bit_or (a * 2 ^ 16) b ≡ a * 2 ^ 16 + b
unfolding twice
bit_or_16 a b lt =
    let e : a * 2 ^ 16 ≡ twice 16 a = omega arith in rw e (bit_or-twice 16 a b (omega arith))

pub bit_or_top : (b : ℕ) → b < 2 ^ 31 → bit_or b (2 ^ 31) ≡ b + 2 ^ 31
unfolding twice
bit_or_top b lt =
    let e : 2 ^ 31 ≡ twice 31 1 = omega arith in rw e (bit_or_below 31 b 1 (omega arith))
