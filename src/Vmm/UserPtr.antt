-- ===== src/Vmm/UserPtr.antt =====
-- `vmm_check_user_ptr` accepts exactly the buffers whose every byte user code may access.
use lisp_dos.Base.{
  ℕ, zero, suc, ◌+◌, ◌-◌, ◌*◌, ◌/◌, ◌^◌, ◌≤◌, ◌<◌, ◌≡◌, refl, ◌⊎◌, inl, inr, Bool, true, false,
  arith, ltb, ◌==◌, if◌then◌else◌, lt→ltb, eqb→eq, Bool-cases, Memory, add64, sub64,
}
use Prim.Native.Nat.{max}
use mathlib.Core.Logic.{◌↔◌}
use lisp_dos.Vmm.{user_limit, frame, check_page, check_pages, vmm_check_user_ptr}
use lisp_dos.Vmm.Walk.{UpperWritable, MayAccess, check_page_iff}

check_pages-all :
    (words : Memory) (pml4 n page k : ℕ) (write : Bool)
    → check_pages words pml4 n page write ≡ true
    → k < n
    → check_page words pml4 (page + k * 4096) write ≡ true
unfolding check_pages
check_pages-all words pml4 zero page k write h lt = absurd (omega arith)
check_pages-all words pml4 (suc n) page zero write h lt =
    let e : page + zero * 4096 ≡ page = omega arith in rw e (ground arith)
check_pages-all words pml4 (suc n) page (suc k) write h lt =
    let e : page + suc k * 4096 ≡ page + 4096 + k * 4096 = omega arith in
    rw e (check_pages-all words pml4 n (page + 4096) k write (ground arith) (omega arith))

check_pages_of_all :
    (words : Memory) (pml4 n page : ℕ) (write : Bool)
    → ((k : ℕ) → k < n → check_page words pml4 (page + k * 4096) write ≡ true)
    → check_pages words pml4 n page write ≡ true
unfolding check_pages
check_pages_of_all words pml4 zero page write all = refl
check_pages_of_all words pml4 (suc n) page write all =
    let here : check_page words pml4 page write ≡ true =
      let e : page + 0 * 4096 ≡ page = omega arith in rw e at (all 0 (omega arith)) in
    rw here (
      check_pages_of_all words pml4 n (page + 4096) write λ k lt.
        let e : page + suc k * 4096 ≡ page + 4096 + k * 4096 = omega arith in
        rw e at (all (suc k) (omega arith)))

-- A buffer in the lower half that user code may access at each of its bytes.
pub record UserBuffer (words : Memory) (pml4 vaddr size : ℕ) (write : Bool) : Type 0 where
  pub in_user_space : vaddr + size < user_limit
  pub bytes : (addr : ℕ) → vaddr ≤ addr → addr < vaddr + size → MayAccess words pml4 addr write

module _ (words : Memory) (pml4 vaddr size : ℕ) (write : Bool) (v64 : vaddr < 2 ^ 64)
    (s64 : size < 2 ^ 64) (some_bytes : 0 < size)
    (upper : (addr : ℕ) → addr < user_limit → write ≡ true → UpperWritable words pml4 addr) where
  abbrev rounds : ℕ
  rounds = (frame (sub64 (add64 vaddr size) 1) - frame vaddr) / 4096 + 1

  -- The guards pass exactly below the limit.
  guards : vmm_check_user_ptr words pml4 vaddr size write ≡ (
      if ltb (vaddr + size) user_limit
      then check_pages words pml4 rounds (frame vaddr) write
      else false)
  unfolding vmm_check_user_ptr
  guards = ground arith

  below : vmm_check_user_ptr words pml4 vaddr size write ≡ true → vaddr + size < user_limit
  below h = ground (arith, guards)

  to_buffer :
      vmm_check_user_ptr words pml4 vaddr size write ≡ true → UserBuffer words pml4 vaddr size write
  to_buffer h = record {
    in_user_space = below h;
    bytes = λ addr lo hi.
        (check_page_iff words pml4 (frame vaddr + (addr / 4096 - vaddr / 4096) * 4096) addr write
            (omega arith) (upper addr (omega (arith, below h)))).0
          (check_pages-all words pml4 rounds (frame vaddr) _ write (ground (arith, guards))
            (omega (arith, below h)));
  }

  of_buffer :
      UserBuffer words pml4 vaddr size write → vmm_check_user_ptr words pml4 vaddr size write ≡ true
  of_buffer u =
      rw (guards, lt→ltb _ _ u.in_user_space)
        (check_pages_of_all words pml4 rounds (frame vaddr) write λ k lt.
          let addr = max vaddr (frame vaddr + k * 4096) in
          (check_page_iff words pml4 (frame vaddr + k * 4096) addr write (omega arith)
              (upper addr (omega (arith, u.in_user_space)))).1
            (u.bytes addr (omega arith) (omega (arith, u.in_user_space))))

-- `vmm_check_user_ptr` answers 1 exactly if the size is 0, or the buffer ends below the user limit
-- without wrapping round and the processor lets user code access every byte of it, for writing
-- where that is asked for. For writing, the tables above the last that are present below the user
-- limit must be entered as writable, which the check does not look at.
pub check_user_ptr_iff :
    (words : Memory) (pml4 vaddr size : ℕ) (write : Bool)
    → vaddr < 2 ^ 64
    → size < 2 ^ 64
    → ((addr : ℕ) → addr < user_limit → write ≡ true → UpperWritable words pml4 addr)
    → (vmm_check_user_ptr words pml4 vaddr size write ≡ true)
      ↔ ((size ≡ 0) ⊎ UserBuffer words pml4 vaddr size write)
unfolding vmm_check_user_ptr
check_user_ptr_iff words pml4 vaddr size write v64 s64 upper = elim (Bool-cases (size == 0)) [
  | inl e ↦ (λ h. inl (eqb→eq size 0 e), λ c. empty e)
  | inr e ↦
      let pos : 0 < size = ground arith in
      (
        λ h. inr (to_buffer words pml4 vaddr size write v64 s64 pos upper h),
        λ c. elim c [
          | inl zero_size ↦ absurd (omega arith)
          | inr u ↦ of_buffer words pml4 vaddr size write v64 s64 pos upper u
        ],
      )
]
  where
    empty : (size == 0) ≡ true → vmm_check_user_ptr words pml4 vaddr size write ≡ true
    empty e = rw (e, vmm_check_user_ptr)
