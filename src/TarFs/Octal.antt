-- ===== src/TarFs/Octal.antt =====
-- The size field of a header: `octal_to_int` reads what a field of octal digits says.
use lisp_dos.Base.{
  ℕ, zero, suc, List, [], ◌∷◌, length, Bool-cases, inl, inr, ◌≤◌, ◌+◌, ◌-◌, ◌*◌, ◌^◌, ◌<◌, ◌≡◌, ap,
  ◌∙◌, true, false, ◌&&◌, arith, leb, ◌==◌, if◌then◌else◌, Memory, u64, if_holds,
}
use native.Mathlib.Nat.{pow-succ', le-mul_of_pos_right}
use lisp_dos.TarFs.{Ramdisk, octal_loop, octal_to_int, header_size}

-- The `k` characters from `str` on are the octal digits of `n`, the highest first.
unfoldable pub OctalField : Memory → (str k n : ℕ) → Type 0
OctalField m str zero n = n ≡ 0
OctalField m str (suc k) n =
    (q : ℕ) × (r : ℕ) × (q < 8)
    × (m str ≡ 48 + q)
    × (n ≡ q * 8 ^ k + r)
    × OctalField m (str + 1) k r

pow_pos : (k : ℕ) → 0 < 8 ^ k
pow_pos zero = omega arith
pow_pos (suc k) = omega (arith, pow_pos k, pow-succ' 8 k)

small_digit :
    (acc q r p : ℕ)
    → 0 < p
    → q < 8
    → acc * (8 * p) + (q * p + r) < 2 ^ 64
    → (acc * 8 + q < 2 ^ 64) × ((acc * 8 + q) * p + r ≡ acc * (8 * p) + (q * p + r))
small_digit acc q r p pos h fits =
    let whole = le-mul_of_pos_right (acc * 8 + q) pos in
    let regroup : (acc * 8 + q) * p + r ≡ acc * (8 * p) + (q * p + r) = omega arith in
    (omega (arith, whole), regroup)

octal_loop_lem :
    (m : Memory) (str k n acc : ℕ)
    → acc * 8 ^ k + n < 2 ^ 64
    → OctalField m str k n
    → octal_loop m str k acc ≡ acc * 8 ^ k + n
unfolding octal_loop OctalField
octal_loop_lem m str zero n acc fits none_left = omega arith
octal_loop_lem m str (suc k) n acc fits (q, r, lt, here, sum, rest) =
    let pow = pow-succ' 8 k in
    let (small, regroup) =
      small_digit acc q r (8 ^ k) (pow_pos k) lt (omega (arith, pow, ap (λ e. acc * e) pow)) in
    let later =
      octal_loop_lem m (str + 1) k r (acc * 8 + q) (omega (arith, ap (λ e. acc * e) pow, regroup))
        rest in
    let read : u64 (acc * 8 + (m str - 48)) ≡ acc * 8 + q = omega arith in
    let digit : (leb 48 (m str) && leb (m str) 55) ≡ true = ground arith in
    let more : (m str == 0) ≡ false = ground arith in
    let scaled = ap (λ e. acc * e) pow in rw (more, digit, read) (later ∙ omega (arith, scaled))

-- The octal digits among the first `k` characters from `at` on, up to a null character, and the number
-- that they are, the highest digit first.
unfoldable pub digits : Memory → (at k : ℕ) → List ℕ
digits m at zero = []
digits m at (suc k) =
    let rest = digits m (at + 1) k in
    if m at == 0 then [] else if leb 48 (m at) && leb (m at) 55 then (m at - 48) ∷ rest else rest

unfoldable pub value : List ℕ → ℕ
value [] = 0
value (q ∷ qs) = q * 8 ^ length qs + value qs

-- `octal_to_int` reads the number, whatever else the field holds.
octal_loop-value :
    (m : Memory) (at k acc bound : ℕ)
    → acc < bound
    → bound * 8 ^ k ≤ 2 ^ 64
    → octal_loop m at k acc ≡ acc * 8 ^ length (digits m at k) + value (digits m at k)
unfolding octal_loop digits value
octal_loop-value m at zero acc bound lt fits = omega arith
octal_loop-value m at (suc k) acc bound lt fits =
    let pow = pow-succ' 8 k in
    let scaled = ap (λ e. bound * e) pow in
    let whole = le-mul_of_pos_right (bound * 8) (pow_pos k) in
    let more : bound * 8 * 8 ^ k ≤ 2 ^ 64 = omega (arith, scaled) in
    elim (Bool-cases (m at == 0)) [
      | inl end ↦ rw (end, octal_loop) (omega arith)
      | inr on ↦ elim (Bool-cases (leb 48 (m at) && leb (m at) 55)) [
        | inl digit ↦
            let next : u64 (acc * 8 + (m at - 48)) ≡ acc * 8 + (m at - 48) = ground arith in
            let rest =
              octal_loop-value m (at + 1) k (acc * 8 + (m at - 48)) (bound * 8) (ground arith)
                more in
            let len = length (digits m (at + 1) k) in
            let power = pow-succ' 8 len in
            rw (on, digit, next) (rest ∙ omega (arith, power, ap (λ e. acc * e) power))
        | inr other ↦
            rw (on, other) (octal_loop-value m (at + 1) k acc (bound * 8) (omega arith) more)
      ]
    ]

pub header_size-value :
    (d : Ramdisk) (offset : ℕ) → header_size d offset ≡ value (digits d.base (offset + 124) 11)
unfolding header_size octal_to_int
header_size-value d offset =
    octal_loop-value d.base (offset + 124) 11 0 1 (omega arith) (omega arith) ∙ omega arith

octal_bound :
    (m : Memory) (str k acc bound : ℕ) → acc < bound → octal_loop m str k acc < bound * 8 ^ k
unfolding octal_loop
octal_bound m str zero acc bound h = omega arith
octal_bound m str (suc k) acc bound h =
    let pow = pow-succ' 8 k in
    let scaled = ap (λ e. bound * e) pow in
    let more : bound * 8 * 8 ^ k ≡ bound * (8 * 8 ^ k) = omega arith in
    if_holds (λ n. n < bound * 8 ^ suc k) (m str == 0)
      (λ e. omega (arith, le-mul_of_pos_right bound (pow_pos (suc k))))
      λ e.
        let digit = leb 48 (m str) && leb (m str) 55 in
        let next = if digit then u64 (acc * 8 + (m str - 48)) else acc in
        let later = octal_bound m (str + 1) k next (bound * 8) (ground arith) in
        omega (arith, later)

pub header_size_lt : (d : Ramdisk) (offset : ℕ) → header_size d offset < 2 ^ 33
unfolding header_size octal_to_int
header_size_lt d offset = octal_bound d.base (offset + 124) 11 0 1 (omega arith)

-- A field that holds the 11 octal digits of a number of 64 bits is read as that number.
pub octal_to_int_lem :
    (m : Memory) (str n : ℕ) → n < 2 ^ 64 → OctalField m str 11 n → octal_to_int m str 11 ≡ n
unfolding octal_to_int
octal_to_int_lem m str n h field = octal_loop_lem m str 11 n 0 (omega arith) field ∙ omega arith
