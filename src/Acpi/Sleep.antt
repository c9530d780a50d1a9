-- ===== src/Acpi/Sleep.antt =====
-- The search for the sleep type, by the first name object of the table.
use lisp_dos.Base.{
  le32, ℕ, zero, suc, ◌+◌, ◌-◌, ◌*◌, ◌%◌, ◌^◌, ◌≤◌, ◌<◌, ◌≡◌, refl, sym, ap, ◌⊎◌, ltb, inl, inr,
  true, false, ◌&&◌, some, arith, leb, ◌==◌, if◌then◌else◌, eqb→eq, eq→eqb, Bool-cases, Memory,
  subst,
}
use lisp_dos.Acpi.{
  is_s5, is_name_object, first_element, s5_loop, sleep_type, dsdt_address, table_length,
}

-- The name `_S5_` stands at `at + i`, behind the byte 08 of a name object and maybe a backslash, both
-- in the table at `at`.
abbrev pub Named : Memory → (at i : ℕ) → Type 0
Named ram at i =
    (ram (at + i) ≡ 95)
    × (ram (at + i + 1) ≡ 83)
    × (ram (at + i + 2) ≡ 53)
    × (ram (at + i + 3) ≡ 95)
    × (((1 ≤ i) × (ram (at + i - 1) ≡ 8))
        ⊎ ((2 ≤ i) × (ram (at + i - 2) ≡ 8) × (ram (at + i - 1) ≡ 92)))

-- A number at `at`, as ACPI writes one of at most eight bits: a byte behind the prefix 0A, or 0 or 1.
abbrev pub Element : Memory → (at n : ℕ) → Type 0
Element ram at n = ((ram at ≡ 0x0A) × (ram (at + 1) ≡ n)) ⊎ ((ram at ≡ n) × (n ≤ 1))

named_test :
    (ram : Memory) (at i : ℕ) → Named ram at i → (is_s5 ram at i && is_name_object ram at i) ≡ true
named_test ram at i (a, b, c, d, inl e) = ground arith
named_test ram at i (a, b, c, d, inr e) = ground arith

not_named_test :
    (ram : Memory) (at i : ℕ)
    → ¬ Named ram at i
    → (is_s5 ram at i && is_name_object ram at i) ≡ false
not_named_test ram at i none_of = elim (Bool-cases (is_s5 ram at i && is_name_object ram at i)) [
  | inr e ↦ e
  | inl e ↦ absurd (none_of (ground arith, ground arith, ground arith, ground arith, place e))
]
  where
    place :
        (is_s5 ram at i && is_name_object ram at i) ≡ true
        → ((1 ≤ i) × (ram (at + i - 1) ≡ 8))
          ⊎ ((2 ≤ i) × (ram (at + i - 2) ≡ 8) × (ram (at + i - 1) ≡ 92))
    place e = elim (Bool-cases (ltb 0 i && ram (at + i - 1) == 0x08)) [
      | inl one ↦ inl (ground arith, ground arith)
      | inr other ↦ inr (ground arith, ground arith, ground arith)
    ]

element_lem : (ram : Memory) (at n : ℕ) → Element ram (at + 3) n → first_element ram at ≡ n
element_lem ram at n (inl (prefix, e)) = ground arith
element_lem ram at n (inr (e, le)) = ground arith

-- The first name object `_S5_` of the table at `dsdt` stands at index `k`, and a package with a length
-- of one byte (its two highest bits are 0) follows, whose first element is the number `n`: the byte 12,
-- the length, how many elements there are, and the elements.
pub record Package (ram : Memory) (dsdt k n : ℕ) : Type 0 where
  pub named : Named ram dsdt k
  pub follows : ram (dsdt + k + 4) ≡ 0x12
  pub short : ram (dsdt + k + 5) < 64
  pub element : Element ram (dsdt + k + 7) n
  pub before : (i : ℕ) → i < k → ¬ Named ram dsdt i

s5_loop_lem :
    (ram : Memory) (dsdt k n left i : ℕ)
    → Package ram dsdt k n
    → i ≤ k
    → k < i + left
    → s5_loop ram left i dsdt ≡ some (n * 2 ^ 10 % 2 ^ 16)
unfolding s5_loop
s5_loop_lem ram dsdt k n zero i p low high = absurd (omega arith)
s5_loop_lem ram dsdt k n (suc left) i p low high = elim (Bool-cases (i == k)) [
  | inl here ↦
      let e : k ≡ i = sym (eqb→eq i k here) in
      let hit : is_s5 ram dsdt i && is_name_object ram dsdt i ≡ true =
        subst (λ x. is_s5 ram dsdt x && is_name_object ram dsdt x ≡ true) e
          (named_test ram dsdt k p.named) in
      let is_package : (ram (dsdt + i + 4) == 0x12) ≡ true =
        eq→eqb _ _ (subst (λ x. ram (dsdt + x + 4) ≡ 0x12) e p.follows) in
      let is_n : first_element ram (dsdt + i + 4) ≡ n =
        element_lem ram (dsdt + i + 4) n
          (subst (λ x. Element ram x n) (omega (arith, e)) p.element) in
      rw hit (rw is_package (ap (λ x. some (x * 2 ^ 10 % 2 ^ 16)) is_n))
  | inr later ↦
      let miss = not_named_test ram dsdt i (p.before i (ground arith)) in
      rw miss (s5_loop_lem ram dsdt k n left (i + 1) p (ground arith) (omega arith))
]

-- In the table whose address stands at byte 40 of the FADT, and its length at its own byte 4: if the
-- first name object `_S5_` among the bytes before its last four is that of a
-- package, with a length of one byte and a first element that is a number of one byte, `slp_typa` is
-- that number, moved up by ten bits and cut to sixteen, or the type 5 where that is 0; what it was
-- before does not count.
pub sleep_type_lem :
    (ram : Memory) (fadt slp_typa k n : ℕ)
    → Package ram (le32 ram (fadt + 40)) k n
    → k + 4 < le32 ram (le32 ram (fadt + 40) + 4)
    → le32 ram (le32 ram (fadt + 40) + 4) < 2 ^ 31
    → let value = n * 2 ^ 10 % 2 ^ 16 in
      sleep_type ram fadt slp_typa ≡ (if value == 0 then 5 * 2 ^ 10 else value)
unfolding sleep_type
sleep_type_lem ram fadt slp_typa k n p inside small =
    let len = table_length ram (dsdt_address ram fadt) in
    let fits : leb (2 ^ 31) len ≡ false = ground arith in
    let finds =
      s5_loop_lem ram (dsdt_address ram fadt) k n (len - 4) 0 p (omega arith) (omega arith) in
    rw (fits, sleep_type) (rw (finds, sleep_type) refl)
