-- ===== src/Lisp/Reader/Printed.antt =====
-- `print_int` of src/tools/lisp.c writes decimal digits.
use lisp_dos.Base.{
  ℕ, zero, suc, ◌+◌, ◌-◌, ◌/◌, ◌%◌, ◌^◌, ◌<◌, ◌≡◌, refl, sym, ap, ◌∙◌, ◌≢◌, inl, inr, List, [], ◌∷◌,
  arith, ltb, leb, ◌==◌, if_holds,
}
use lisp_dos.Base.Decimal.{AreDigits, IsDecimal, IsSigned, read_decimal, read_decimal-nonempty}
use lisp_dos.Lisp.Number.{negate, int_text, digits, digit_loop}

digit_loop-AreDigits :
    (places n : ℕ) (buf : List ℕ)
    → n < 10 ^ places
    → AreDigits buf
    → AreDigits (digit_loop places n buf)
      × (read_decimal 0 (digit_loop places n buf) ≡ read_decimal n buf)
unfolding digit_loop read_decimal
digit_loop-AreDigits zero n buf h are =
    let none_left : n ≡ 0 = omega arith in (are, ap (λ k. read_decimal k buf) (sym none_left))
digit_loop-AreDigits (suc places) n buf h are =
    let d = n % 10 + 48 in
    let (all, reads) =
      digit_loop-AreDigits places (n / 10) (d ∷ buf) (ground arith)
        (omega arith, omega arith, are) in
    if_holds (λ s. AreDigits s × (read_decimal 0 s ≡ read_decimal n buf)) (ltb 0 n)
      (λ more. (all, reads ∙ ap (λ k. read_decimal k buf) (omega arith)))
      λ none_left. (are, ap (λ k. read_decimal k buf) (ground arith))

digits-IsDecimal : (n : ℕ) → n < 2 ^ 31 → IsDecimal (digits n) n
unfolding digits read_decimal
digits-IsDecimal n h =
    if_holds (λ s. IsDecimal s n) (n == 0)
      (λ z. ((omega arith, omega arith, tt), ground arith, omega arith))
      λ nz.
        if_holds (λ s. IsDecimal s n) (leb (2 ^ 31) n) (λ big. absurd (ground arith))
          λ fits.
            let (are, reads) = digit_loop-AreDigits 16 n [] (omega arith) tt in
            (are, reads, read_decimal-nonempty (digit_loop 16 n []) n reads (ground arith))

-- Every number but INT_MIN.
pub int_text-IsSigned : (n : ℕ) → n < 2 ^ 32 → n ≢ 2 ^ 31 → IsSigned (int_text n) n
unfolding int_text negate
int_text-IsSigned n h not_min =
    if_holds (λ s. IsSigned s n) (leb (2 ^ 31) n)
      (λ neg.
        let size : negate n ≡ 2 ^ 32 - n = ground arith in
        let is : IsDecimal (digits (negate n)) (2 ^ 32 - n) =
          rw size (digits-IsDecimal (2 ^ 32 - n) (ground arith)) in
        inr (ground arith, (digits (negate n), refl, is)))
      λ pos. inl (ground arith, digits-IsDecimal n (ground arith))
