-- ===== src/Vmm/Tests.antt =====
-- One mapped page, and the checks of src/kernel/vmm.c on it.
use lisp_dos.Base.{
  ℕ, ◌+◌, ◌/◌, ◌%◌, ◌^◌, ◌≡◌, refl, ◌⊎◌, Bool, true, false, some, arith, ◌==◌, if◌then◌else◌,
  Memory,
}
use mathlib.Core.Logic.{◌↔◌}
use lisp_dos.Vmm.{
  Vm, check_page, check_pages, has_zero, check_string, vmm_check_user_ptr, vmm_check_user_string,
}
use lisp_dos.Pmm.{alloc_page, alloc_loop, take_page, bitmap_set, bitmap_test, set_bit, test_bit}
use lisp_dos.Pmm.Inv.{IsValid, count_free}
use lisp_dos.Vmm.{vmm_map_page, frame}
use lisp_dos.Vmm.Walk.{UpperWritable, MayAccess, entry1}
use lisp_dos.Vmm.Descend.{IsTable, Sound}
use lisp_dos.Vmm.Maps.{levels, vmm_map_page-MayAccess}
use lisp_dos.Vmm.UserPtr.{UserBuffer, check_user_ptr_iff}
use lisp_dos.Vmm.UserString.{UserString, check-UserString_iff}

-- Tables at 0x1000 to 0x4000 that map the page 0x400000 for reading and writing.
abbrev words : Memory
words a =
    if a == 0x1000
    then 0x2007
    else if a == 0x2000
    then 0x3007
    else if a == 0x3010
    then 0x4007
    else if a == 0x4000
    then 0x9007
    else 0

abbrev user : Memory
user a = if a == 0x400003 then 0 else 65

accepts :
    (vmm_check_user_ptr words 0x1000 0x400010 16 true ≡ true)
    × (vmm_check_user_ptr words 0x1000 0x400FF8 16 true ≡ false)
    × (vmm_check_user_ptr words 0x1000 0xFFFF_FFFF_FFFF_FFF8 16 false ≡ false)
unfolding vmm_check_user_ptr check_pages check_page
accepts = (refl, refl, refl)

reads_string : vmm_check_user_string words user 0x1000 0x400000 5 ≡ some true
unfolding vmm_check_user_string check_string check_page has_zero
reads_string = refl

words-UpperWritable : (addr : ℕ) → UpperWritable words 0x1000 addr
words-UpperWritable addr = record {
  upper4 = λ p. ground arith;
  upper3 = λ p q. ground arith;
  upper2 = λ p q r. ground arith;
}

check_user_ptr_iff_example :
    (vmm_check_user_ptr words 0x1000 0x400010 16 true ≡ true)
    ↔ (◌≡◌ {A = ℕ} 16 0 ⊎ UserBuffer words 0x1000 0x400010 16 true)
check_user_ptr_iff_example =
    check_user_ptr_iff words 0x1000 0x400010 16 true (omega arith) (omega arith)
      (λ addr lt w. words-UpperWritable addr)

check-UserString_iff_example :
    (b : Bool) × (vmm_check_user_string words user 0x1000 0x400000 (2 ^ 35 + 1) ≡ some b)
    × ((b ≡ true) ↔ UserString words user 0x1000 0x400000)
check-UserString_iff_example =
    check-UserString_iff words user 0x1000 0x400000 (2 ^ 35 + 1) (omega arith)

-- Page 1 is free.
abbrev memory : Vm
memory = record {
  pmm = record {
    bitmap = λ i. 0xFD;
    free_memory = 4096;
    highest_page = 8;
    last_allocated_index = 0;
  };
  words = λ a. 0x77;
}

page_1 : (alloc_page memory.pmm).0 ≡ 0x1000
unfolding alloc_page alloc_loop take_page bitmap_set bitmap_test set_bit test_bit
page_1 = refl

-- Pages 0 to 2 are in use: a top table on page 1 with one entry, to an empty table on page 2.
abbrev space : Vm
space = record {
  pmm = record {
    bitmap = λ i. if i == 0 then 7 else 0;
    free_memory = 20480;
    highest_page = 8;
    last_allocated_index = 0;
  };
  words = λ a. if a == 0x1000 then 0x2007 else 0;
}

space-IsValid : IsValid space.pmm
unfolding count_free bitmap_test test_bit
space-IsValid = record {
  bytes = λ i. ground arith;
  last_in = omega arith;
  small = omega arith;
  accounted = refl;
}

map_is : IsTable space 0x1000
unfolding bitmap_test test_bit
map_is = record { aligned = refl; in_use = refl }

way : Sound space (λ _. ⊥) 0x1000 (levels 0x400000)
unfolding Sound bitmap_test test_bit
way e = (
  ((refl, refl), refl),
  record { aligned = refl; in_use = refl },
  (omega arith),
  (λ s b. absurd b),
  λ absent. absurd (ground arith),
)

vmm_map_page-MayAccess_example :
    let words = (vmm_map_page space 0x1000 0x400000 0x9123 7).words in
    (frame (entry1 words 0x1000 0x400000) ≡ 0x9000)
    × ((addr : ℕ) (write : Bool)
        → 0x400000 / 4096 ≡ addr / 4096
        → (write ≡ true → 7 / 2 % 2 ≡ 1)
        → MayAccess words 0x1000 addr write)
vmm_map_page-MayAccess_example =
    vmm_map_page-MayAccess space 0x1000 0x400000 0x9123 7 space-IsValid (omega arith) map_is way
      (omega arith) (omega arith)
