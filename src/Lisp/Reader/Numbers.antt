-- ===== src/Lisp/Reader/Numbers.antt =====
-- What `print_int` prints, read back by the reader.
use lisp_dos.Base.{
  ℕ, zero, suc, ◌+◌, ◌/◌, ◌%◌, ◌^◌, ◌≤◌, ◌<◌, ◌≡◌, refl, sym, ap, ◌∙◌, ◌≢◌, Bool, true, ◌&&◌, List,
  [], ◌∷◌, arith, ltb, leb, ◌==◌, length, if_holds,
}
use lisp_dos.Lisp.Number.{negate, int_text, digits, digit_loop}
use lisp_dos.Lisp.Reader.{number, is_num, all_digits, read_digits, is_atom_char}

unfoldable pub all_atom : List ℕ → Bool
all_atom [] = true
all_atom (c ∷ s) = is_atom_char c && all_atom s

digit_loop_lem :
    (places n : ℕ) (buf : List ℕ)
    → n < 10 ^ places
    → n < 2 ^ 31
    → all_digits buf ≡ true
    → (read_digits 0 (digit_loop places n buf) ≡ read_digits n buf)
      × (all_digits (digit_loop places n buf) ≡ true)
      × (length (digit_loop places n buf) ≤ places + length buf)
unfolding digit_loop read_digits all_digits
digit_loop_lem zero n buf h small all =
    let none_left : n ≡ 0 = omega arith in
    (ap (λ k. read_digits k buf) (sym none_left), all, omega arith)
digit_loop_lem (suc places) n buf h small all =
    let d = n % 10 + 48 in
    let (value, is_all, size) =
      digit_loop_lem places (n / 10) (d ∷ buf) (ground arith) (omega arith) (ground arith) in
    if_holds
      (λ s.
        (read_digits 0 s ≡ read_digits n buf)
        × (all_digits s ≡ true)
        × (length s ≤ suc places + length buf))
      (ltb 0 n)
      (λ more. (value ∙ ap (λ k. read_digits k buf) (omega arith), is_all, omega (arith, size)))
      λ none_left. (ap (λ k. read_digits k buf) (ground arith), all, omega arith)

abbrev AreDigits : ℕ → List ℕ → Type 0
AreDigits n s = (read_digits 0 s ≡ n) × (all_digits s ≡ true) × (length s ≤ 16) × (0 < length s)

read_digits-empty : (s : List ℕ) (n : ℕ) → read_digits 0 s ≡ n → 0 < n → 0 < length s
unfolding read_digits
read_digits-empty [] n e pos = absurd (omega (arith, e))
read_digits-empty (c ∷ s) n e pos = omega arith

digits_lem : (n : ℕ) → n < 2 ^ 31 → AreDigits n (digits n)
unfolding digits
digits_lem n h =
    if_holds (AreDigits n) (n == 0)
      (λ z.
        (unfold read_digits in ground arith, unfold all_digits in refl, omega arith, omega arith))
      λ nz.
        if_holds (AreDigits n) (leb (2 ^ 31) n) (λ big. absurd (ground arith))
          λ fits.
            let (value, all, size) =
              digit_loop_lem 16 n [] (omega arith) h (unfold all_digits in refl) in
            let read : read_digits 0 (digit_loop 16 n []) ≡ n =
              value ∙ (unfold read_digits in refl) in
            (read, all, omega (arith, size), read_digits-empty _ n read (ground arith))

-- The text reads as the number `n`.
abbrev pub ReadsAs : ℕ → List ℕ → Type 0
ReadsAs n s =
    (is_num s ≡ true) × (number s ≡ n) × (all_atom s ≡ true) × (length s ≤ 31) × (0 < length s)

all_digits-atom : (s : List ℕ) → all_digits s ≡ true → all_atom s ≡ true
unfolding all_digits all_atom
all_digits-atom [] h = refl
all_digits-atom (c ∷ s) h = ground (arith, all_digits-atom s)

digits-ReadsAs : (n : ℕ) (s : List ℕ) → AreDigits n s → ReadsAs n s
digits-ReadsAs n [] (value, all, size, some_) = absurd (omega arith)
digits-ReadsAs n (c ∷ s) (value, all, size, some_) = (
  (unfold is_num all_digits in ground arith),
  (unfold number all_digits in ground arith),
  all_digits-atom (c ∷ s) all,
  omega arith,
  omega arith,
)

minus-ReadsAs : (n : ℕ) (s : List ℕ) → AreDigits (negate n) s → n < 2 ^ 32 → ReadsAs n (b'-' ∷ s)
minus-ReadsAs n [] (value, all, size, some_) h = absurd (omega arith)
minus-ReadsAs n (c ∷ s) (value, all, size, some_) h = (
  (unfold is_num in ground arith),
  (unfold number negate in ground arith),
  (unfold all_atom in ground (arith, all_digits-atom (c ∷ s))),
  omega arith,
  omega arith,
)

-- The text of every number but INT_MIN reads as that number.
pub int_text-ReadsAs : (n : ℕ) → n < 2 ^ 32 → n ≢ 2 ^ 31 → ReadsAs n (int_text n)
unfolding int_text
int_text-ReadsAs n h not_min =
    if_holds (ReadsAs n) (leb (2 ^ 31) n)
      (λ neg.
        minus-ReadsAs n (digits (negate n)) (digits_lem (negate n) (unfold negate in ground arith))
          h)
      λ pos. digits-ReadsAs n (digits n) (digits_lem n (ground arith))
