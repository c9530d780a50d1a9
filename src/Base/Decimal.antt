-- ===== src/Base/Decimal.antt =====
-- Numbers written in decimal digits, apart from how the code writes them.
use lisp_dos.Base.{
  ℕ, ◌+◌, ◌-◌, ◌*◌, ◌^◌, ◌≤◌, ◌<◌, ◌≡◌, refl, ◌⊎◌, List, [], ◌∷◌, ◌++◌, arith, length,
}

-- The number that digits are, read from the left.
unfoldable pub read_decimal : ℕ → List ℕ → ℕ
read_decimal n [] = n
read_decimal n (c ∷ s) = read_decimal (n * 10 + (c - 48)) s

abbrev pub AreDigits : List ℕ → Type 0
AreDigits [] = Unit {0}
AreDigits (c ∷ s) = (48 ≤ c) × (c ≤ 57) × AreDigits s

-- One digit or more, which are the number `n`.
abbrev pub IsDecimal : List ℕ → ℕ → Type 0
IsDecimal s n = AreDigits s × (read_decimal 0 s ≡ n) × (0 < length s)

-- The same for the 32 bits of an `int` that is not INT_MIN: with a minus sign in front of the digits
-- of a negative one.
abbrev pub IsSigned : List ℕ → ℕ → Type 0
IsSigned s n =
    ((n < 2 ^ 31) × IsDecimal s n)
    ⊎ ((2 ^ 31 < n) × ((t : List ℕ) × (s ≡ 45 ∷ t) × IsDecimal t (2 ^ 32 - n)))

pub read_decimal-append :
    (n c : ℕ) (s : List ℕ) → read_decimal n (s ++ (c ∷ [])) ≡ read_decimal n s * 10 + (c - 48)
unfolding read_decimal
read_decimal-append n c [] = refl
read_decimal-append n c (d ∷ s) = read_decimal-append (n * 10 + (d - 48)) c s

pub AreDigits-append :
    (c : ℕ) (s : List ℕ) → 48 ≤ c → c ≤ 57 → AreDigits s → AreDigits (s ++ (c ∷ []))
AreDigits-append c [] lo hi are = (lo, hi, tt)
AreDigits-append c (d ∷ s) lo hi (a, b, are) = (a, b, AreDigits-append c s lo hi are)

pub read_decimal-nonempty : (s : List ℕ) (n : ℕ) → read_decimal 0 s ≡ n → 0 < n → 0 < length s
unfolding read_decimal
read_decimal-nonempty [] n e pos = absurd (omega (arith, e))
read_decimal-nonempty (c ∷ s) n e pos = omega arith
