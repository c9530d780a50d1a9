-- ===== src/Process/Stack.antt =====
-- The arguments that the loader of src/kernel/process.c puts on the user's stack.
use lisp_dos.Base.{
  ℕ, ◌+◌, ◌-◌, ◌^◌, ◌≤◌, ◌<◌, ◌≡◌, ◌∙◌, ◌≢◌, ◌⊎◌, inl, inr, some, List, [], ◌∷◌, arith, Memory,
  update, add64, sub64, length,
}
use lisp_dos.Strings.Laws.{IsString}
use lisp_dos.Process.Exec.{stack_top, copy_args, push_args, stack_page}

-- Characters of a C string: bytes other than 0.
unfoldable pub AreChars : List ℕ → Type 0
AreChars [] = Unit
AreChars (c ∷ s) = (c ≢ 0) × (c < 256) × AreChars s

copy_args-below :
    (ram : Memory) (at i : ℕ) (args : List ℕ) → i < at → copy_args ram at args i ≡ ram i
unfolding copy_args
copy_args-below ram at i [] lt = ground arith
copy_args-below ram at i (c ∷ args) lt =
    ground (arith, copy_args-below (update ram at c) (at + 1) i args (omega arith))

copy_args-above :
    (ram : Memory) (at i : ℕ) (args : List ℕ)
    → at + length args < i
    → copy_args ram at args i ≡ ram i
unfolding copy_args
copy_args-above ram at i [] lt = ground arith
copy_args-above ram at i (c ∷ args) lt =
    ground (arith, copy_args-above (update ram at c) (at + 1) i args (omega arith))

copy_args-IsString :
    (ram : Memory) (at : ℕ) (args : List ℕ)
    → AreChars args
    → IsString (copy_args ram at args) at args
unfolding copy_args IsString AreChars
copy_args-IsString ram at [] chars = ground arith
copy_args-IsString ram at (c ∷ args) (nz, byte, chars) = (
  copy_args-below (update ram at c) (at + 1) at args (omega arith) ∙ ground arith,
  nz,
  byte,
  copy_args-IsString (update ram at c) (at + 1) args chars,
)

-- Arguments of at most 4095 characters, for a stack page at a physical address below 2 ^ 63: the
-- user's stack pointer is in the stack's page, and at the same place of the physical page the
-- arguments stand as a string; every byte outside that page is as before.
pub push_args_lem :
    (ram : Memory) (stack_phys : ℕ) (args : List ℕ)
    → AreChars args
    → length args < 4096
    → stack_phys < 2 ^ 63
    → let (user_stack, ram') = push_args ram stack_phys (some args) in
      (stack_page ≤ user_stack)
      × (user_stack < stack_page + 4096)
      × IsString ram' (stack_phys + (user_stack - stack_page)) args
      × ((i : ℕ) → (i < stack_phys) ⊎ (stack_phys + 4096 ≤ i) → ram' i ≡ ram i)
unfolding push_args
push_args_lem ram stack_phys args chars short low =
    let n = length args in
    let pointer : sub64 stack_top (n + 1) ≡ stack_top - (n + 1) = omega arith in
    let at : sub64 (add64 stack_phys 4096) (n + 1) ≡ stack_phys + 4096 - (n + 1) = omega arith in
    let same : stack_phys + (stack_top - (n + 1) - stack_page) ≡ stack_phys + 4096 - (n + 1) =
      omega arith in
    rw (pointer, at)
      (
        omega arith,
        omega arith,
        rw same (copy_args-IsString ram (stack_phys + 4096 - (n + 1)) args chars),
        λ i outside. elim outside [
          | inl lt ↦ copy_args-below ram (stack_phys + 4096 - (n + 1)) i args (omega arith)
          | inr le ↦ copy_args-above ram (stack_phys + 4096 - (n + 1)) i args (omega arith)
        ],
      )
