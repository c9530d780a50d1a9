-- ===== src/Vmm.antt =====
-- The four-level page tables of src/kernel/vmm.c. A table is reached by its physical address (the
-- code adds `hhdm_offset` to reach it, and takes it off again), and memory is read there in words
-- of 64 bits. Masks and shifts are written as the divisions and remainders that they are.
pub mod Walk
pub mod UserPtr
pub mod UserString
pub mod Space
pub mod Room
pub mod Descend
pub mod Maps
mod Tests
use lisp_dos.Base.{
  ℕ, zero, suc, ◌+◌, ◌-◌, ◌*◌, ◌/◌, ◌%◌, ◌^◌, bit_or, Bool, true, false, not, ◌&&◌, Option, none,
  some, ltb, leb, ◌==◌, if◌then◌else◌, Memory, update, add64, sub64,
}
use lisp_dos.Pmm.{Pmm, alloc_page}

-- Physical memory by words: `words a` is the word at the address `a`, a multiple of 8.
pub record Vm : Type 0 where
  pub pmm : Pmm
  pub words : Memory

abbrev pub user_limit : ℕ
user_limit = 0x0000_8000_0000_0000

-- `e & PAGE_PRESENT`, `e & PAGE_WRITE`, `e & PAGE_USER` as conditions, and `e & ~0xFFF`.
abbrev pub is_present : ℕ → Bool
is_present e = e % 2 == 1

abbrev pub is_writable : ℕ → Bool
is_writable e = e / 2 % 2 == 1

abbrev pub is_user : ℕ → Bool
is_user e = e / 4 % 2 == 1

abbrev pub frame : ℕ → ℕ
frame e = e / 4096 * 4096

abbrev pub pml4_idx : ℕ → ℕ
pml4_idx vaddr = vaddr / 2 ^ 39 % 512

abbrev pub pdpt_idx : ℕ → ℕ
pdpt_idx vaddr = vaddr / 2 ^ 30 % 512

abbrev pub pd_idx : ℕ → ℕ
pd_idx vaddr = vaddr / 2 ^ 21 % 512

abbrev pub pt_idx : ℕ → ℕ
pt_idx vaddr = vaddr / 2 ^ 12 % 512

-- `table[idx]`
abbrev pub slot : ℕ → ℕ → ℕ
slot table idx = table + 8 * idx

-- `memset(table, 0, 4096)`, for a table on a page of its own
unfoldable pub zero_page : Memory → ℕ → Memory
zero_page m table a = if leb table a && ltb a (table + 4096) then 0 else m a

-- The next table below the entry at `at`, allocated first where the entry is not present.
unfoldable pub next_table : Vm → ℕ → ℕ × Vm
next_table v at =
    let (phys, p) = alloc_page v.pmm in
    let entry = bit_or (bit_or (bit_or phys 1) 2) 4 in
    let made : Vm = record { pmm = p; words = update (zero_page v.words phys) at entry } in
    let w = if is_present (v.words at) then v else made in (frame (w.words at), w)

unfoldable pub vmm_map_page : Vm → (map vaddr paddr flags : ℕ) → Vm
vmm_map_page v map vaddr paddr flags =
    let (pdpt, v1) = next_table v (slot map (pml4_idx vaddr)) in
    let (pd, v2) = next_table v1 (slot pdpt (pdpt_idx vaddr)) in
    let (pt, v3) = next_table v2 (slot pd (pd_idx vaddr)) in
    let entry = bit_or (bit_or (frame paddr) flags) 1 in
    record v3 { words = update v3.words (slot pt (pt_idx vaddr)) entry }

-- The tests that `vmm_check_user_ptr` and `vmm_check_user_string` make of one page.
pub check_page : Memory → (pml4 page : ℕ) → (write_required : Bool) → Bool
check_page words pml4 page write_required =
    let e4 = words (slot pml4 (pml4_idx page)) in
    let e3 = words (slot (frame e4) (pdpt_idx page)) in
    let e2 = words (slot (frame e3) (pd_idx page)) in
    let e1 = words (slot (frame e2) (pt_idx page)) in
    if not (is_present e4)
    then false
    else if not (is_user e4)
    then false
    else if not (is_present e3)
    then false
    else if not (is_user e3)
    then false
    else if not (is_present e2)
    then false
    else if not (is_user e2)
    then false
    else if not (is_present e1)
    then false
    else if not (is_user e1)
    then false
    else if write_required && not (is_writable e1)
    then false
    else true

-- `for (page = start_page; page <= end_page; page += 4096)`, with the rounds that are left
pub check_pages : Memory → (pml4 : ℕ) → (rounds page : ℕ) → (write_required : Bool) → Bool
check_pages words pml4 zero page write_required = true
check_pages words pml4 (suc n) page write_required =
    let rest = check_pages words pml4 n (page + 4096) write_required in
    if check_page words pml4 page write_required then rest else false

-- `pml4` is the physical address in the register CR3.
pub vmm_check_user_ptr : Memory → (pml4 vaddr size : ℕ) → (write_required : Bool) → Bool
vmm_check_user_ptr words pml4 vaddr size write_required =
    let start_page = frame vaddr in
    let end_page = frame (sub64 (add64 vaddr size) 1) in
    if size == 0
    then true
    else if leb user_limit vaddr
    then false
    else if ltb (add64 vaddr size) vaddr
    then false
    else if leb user_limit (add64 vaddr size)
    then false
    else check_pages words pml4 ((end_page - start_page) / 4096 + 1) start_page write_required

-- `for (i = 0; i < limit; i++) if (ptr[i] == '\\0') return 1`, over the `left` bytes from `at` on
pub has_zero : Memory → (left at : ℕ) → Bool
has_zero user zero at = false
has_zero user (suc n) at =
    let rest = has_zero user n (at + 1) in if user at == 0 then true else rest

-- The `while (1)` of `vmm_check_user_string`; `user` is memory by virtual address. `none` means
-- that the fuel ran out.
pub check_string : Memory → Memory → (pml4 : ℕ) → (fuel current : ℕ) → Option Bool
check_string words user pml4 zero current = none
check_string words user pml4 (suc n) current =
    let page = frame current in
    let rest = check_string words user pml4 n (page + 4096) in
    if leb user_limit current
    then some false
    else if not (check_page words pml4 page false)
    then some false
    else if has_zero user (page + 4096 - current) current
    then some true
    else rest

pub vmm_check_user_string : Memory → Memory → (pml4 vaddr : ℕ) → (fuel : ℕ) → Option Bool
vmm_check_user_string words user pml4 vaddr fuel =
    if leb user_limit vaddr then some false else check_string words user pml4 fuel vaddr
