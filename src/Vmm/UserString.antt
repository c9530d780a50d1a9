-- ===== src/Vmm/UserString.antt =====
-- `vmm_check_user_string` accepts exactly the strings that end in user memory.
use lisp_dos.Base.{
  ℕ, zero, suc, ◌+◌, ◌-◌, ◌*◌, ◌/◌, ◌≤◌, ◌<◌, ◌≡◌, refl, ◌≢◌, inl, inr, Bool, true, false, some,
  arith, ltb, leb, ◌==◌, ltb→lt, eqb→eq, Bool-cases, Memory,
}
use mathlib.Core.Logic.{◌↔◌}
use lisp_dos.Vmm.{user_limit, frame, check_page, has_zero, check_string, vmm_check_user_string}
use lisp_dos.Vmm.Walk.{MayAccess, check_page_iff}

-- A null byte at `end`, and every byte from `vaddr` up to it open to user code.
pub record UserString (words user : Memory) (pml4 vaddr : ℕ) : Type 0 where
  pub end : ℕ
  pub after : vaddr ≤ end
  pub in_user_space : end < user_limit
  pub terminated : user end ≡ 0
  pub bytes : (addr : ℕ) → vaddr ≤ addr → addr ≤ end → MayAccess words pml4 addr false

has_zero-some :
    (user : Memory) (n at : ℕ)
    → has_zero user n at ≡ true
    → (end : ℕ) × (at ≤ end) × (end < at + n) × (user end ≡ 0)
unfolding has_zero
has_zero-some user zero at h = cc
has_zero-some user (suc n) at h = elim (Bool-cases (user at == 0)) [
  | inl e ↦ (at, omega arith, omega arith, eqb→eq _ _ e)
  | inr e ↦
      let (end, lo, hi, z) = has_zero-some user n (at + 1) (ground arith) in
      (end, omega arith, omega arith, z)
]

has_zero-none :
    (user : Memory) (n at end : ℕ)
    → has_zero user n at ≡ false
    → at ≤ end
    → end < at + n
    → user end ≢ 0
unfolding has_zero
has_zero-none user zero at end h lo hi z = omega arith
has_zero-none user (suc n) at end h lo hi z = elim (Bool-cases (at == end)) [
  | inl e ↦ ground (arith, eqb→eq at end e)
  | inr e ↦ has_zero-none user n (at + 1) end (ground arith) (ground arith) (omega arith) z
]

module _ (words user : Memory) (pml4 : ℕ) where
  -- A page that passes its tests and holds no null byte from `current` on leaves the question open.
  skip_page :
      (current : ℕ)
      → check_page words pml4 (frame current) false ≡ true
      → has_zero user (frame current + 4096 - current) current ≡ false
      → UserString words user pml4 (frame current + 4096) ↔ UserString words user pml4 current
  skip_page current passes no_zero = (
    λ s. record {
      end = s.end;
      after = omega (arith, s.after);
      in_user_space = s.in_user_space;
      terminated = s.terminated;
      bytes = λ addr lo hi. elim (Bool-cases (ltb addr (frame current + 4096))) [
        | inl e ↦
            let lt : addr < frame current + 4096 = ltb→lt _ _ e in
            (check_page_iff words pml4 (frame current) addr false (omega arith) (λ w. cc)).0 passes
        | inr e ↦ s.bytes addr (ground arith) hi
      ];
    },
    λ s. record {
      end = s.end;
      after = elim (Bool-cases (ltb s.end (frame current + 4096))) [
        | inl e ↦
            let lt : s.end < frame current + 4096 = ltb→lt _ _ e in
            absurd (has_zero-none user _ current s.end no_zero s.after (omega arith) s.terminated)
        | inr e ↦ ground arith
      ];
      in_user_space = s.in_user_space;
      terminated = s.terminated;
      bytes = λ addr lo hi. s.bytes addr (omega arith) hi;
    },
  )

  ends_here :
      (current : ℕ)
      → check_page words pml4 (frame current) false ≡ true
      → has_zero user (frame current + 4096 - current) current ≡ true
      → current < user_limit
      → UserString words user pml4 current
  ends_here current passes found low =
      let (end, lo, hi, z) = has_zero-some user _ current found in
      record {
        end = end;
        after = lo;
        in_user_space = omega arith;
        terminated = z;
        bytes = λ addr from to.
            (check_page_iff words pml4 (frame current) addr false (omega arith) (λ w. cc)).0 passes;
      }

  refused :
      (current : ℕ)
      → check_page words pml4 (frame current) false ≡ false
      → ¬ UserString words user pml4 current
  refused current blocked s =
      let passes : check_page words pml4 (frame current) false ≡ true =
        (check_page_iff words pml4 (frame current) current false (omega arith) (λ w. cc)).1
          (s.bytes current (omega arith) s.after) in
      cc

  -- With a round for each page up to the limit the loop ends, and its answer is right.
  check_string_decides :
      (fuel current : ℕ)
      → current ≤ user_limit
      → user_limit < frame current + 4096 * fuel
      → (b : Bool) × (check_string words user pml4 fuel current ≡ some b)
        × ((b ≡ true) ↔ UserString words user pml4 current)
  unfolding check_string
  check_string_decides zero current reach enough = absurd (omega arith)
  check_string_decides (suc n) current reach enough = elim (Bool-cases (leb user_limit current)) [
    | inl e ↦ (false, rw e, ((λ f. cc), λ s. absurd (ground (arith, s.after, s.in_user_space))))
    | inr e ↦ elim (Bool-cases (check_page words pml4 (frame current) false)) [
      | inr blocked ↦ (false, rw (e, blocked), ((λ f. cc), λ s. absurd (refused current blocked s)))
      | inl passes ↦ elim (Bool-cases (has_zero user (frame current + 4096 - current) current)) [
        | inl found ↦ (
          true,
          rw (e, passes, found),
          ((λ f. ends_here current passes found (ground arith)), λ s. refl),
        )
        | inr no_zero ↦
            let more : frame current + 4096 ≤ user_limit = ground arith in
            let (b, is, iff) = check_string_decides n (frame current + 4096) more (omega arith) in
            let skip = skip_page current passes no_zero in
            (b, rw (e, passes, no_zero) is, ((λ f. skip.0 (iff.0 f)), λ s. iff.1 (skip.1 s)))
      ]
    ]
  ]

-- `vmm_check_user_string` always answers, given more rounds than there are pages below the user
-- limit, and answers 1 exactly if a null byte ends the string below the limit and user code may
-- read every byte up to it.
pub check-UserString_iff :
    (words user : Memory) (pml4 vaddr fuel : ℕ)
    → user_limit / 4096 < fuel
    → (b : Bool) × (vmm_check_user_string words user pml4 vaddr fuel ≡ some b)
      × ((b ≡ true) ↔ UserString words user pml4 vaddr)
unfolding vmm_check_user_string
check-UserString_iff words user pml4 vaddr fuel enough = elim (Bool-cases (leb user_limit vaddr)) [
  | inl e ↦ (false, rw e, ((λ f. cc), λ s. absurd (ground (arith, s.after, s.in_user_space))))
  | inr e ↦
      let (b, is, iff) =
        check_string_decides words user pml4 fuel vaddr (ground arith) (omega arith) in
      (b, rw e is, iff)
]
