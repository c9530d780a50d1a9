-- ===== src/Vga/Hex.antt =====
-- What `vga_print_hex` prints, read back as a number.
use lisp_dos.Base.{
  ℕ, zero, suc, ◌+◌, ◌-◌, ◌*◌, ◌/◌, ◌%◌, ◌^◌, ◌≤◌, ◌<◌, ◌≡◌, sym, ap, ◌∙◌, inl, inr, List, [], ◌∷◌,
  arith, ltb, ◌==◌, if◌then◌else◌, Bool-cases, length, if_holds,
}
use lisp_dos.Vga.{hex_digit, hex_loop, hex_chars}

digit_value : ℕ → ℕ
digit_value c = if ltb c 58 then c - 48 else c - 55

-- The number that hexadecimal digits stand for, after those already read.
pub hex_value : ℕ → List ℕ → ℕ
unfolding digit_value
hex_value read [] = read
hex_value read (c ∷ s) = hex_value (read * 16 + digit_value c) s

digit_value-hex_digit : (d : ℕ) → d < 16 → digit_value (hex_digit d) ≡ d
unfolding digit_value hex_digit
digit_value-hex_digit d h = ground arith

hex_loop_lem :
    (fuel n : ℕ) (buffer : List ℕ)
    → n < 16 ^ fuel
    → (hex_value 0 (hex_loop fuel n buffer) ≡ hex_value n buffer)
      × (length (hex_loop fuel n buffer) ≤ fuel + length buffer)
unfolding hex_loop hex_value
hex_loop_lem zero n buffer h =
    let none_left : n ≡ 0 = omega arith in
    (ap (λ k. hex_value k buffer) (sym none_left), omega arith)
hex_loop_lem (suc fuel) n buffer h =
    let d = hex_digit (n % 16) in
    let (value, size) = hex_loop_lem fuel (n / 16) (d ∷ buffer) (ground arith) in
    if_holds (λ s. (hex_value 0 s ≡ hex_value n buffer) × (length s ≤ suc fuel + length buffer))
      (ltb 0 n)
      (λ pos. (
        value
            ∙ ap (λ r. hex_value r buffer)
                (ground (arith, digit_value-hex_digit (n % 16) (omega arith))),
        omega (arith, size),
      ))
      λ none_left. (ap (λ k. hex_value k buffer) (ground arith), omega arith)

-- Read back as a hexadecimal number, the digits that `vga_print_hex` prints for a number of 64
-- bits give that number, and they fit its array of 20 characters.
pub hex_chars_lem :
    (n : ℕ) → n < 2 ^ 64 → (hex_value 0 (hex_chars n) ≡ n) × (length (hex_chars n) ≤ 20)
unfolding hex_chars hex_value digit_value
hex_chars_lem n h = elim (Bool-cases (n == 0)) [
  | inl e ↦ ground arith
  | inr e ↦ let (value, size) = hex_loop_lem 16 n [] (omega arith) in rw e (value, omega arith)
]
