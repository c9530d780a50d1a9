-- ===== src/Process/Segments.antt =====
-- The loop over the program headers in `process_exec` of src/kernel/process.c. Physical memory has
-- two views: the words of the page tables (`Vm`) and the bytes of the pages of data (`ram`); the
-- loader takes every page of either kind from Pmm. A pointer into the direct map stands for its
-- distance from the map's base, modulo 2 ^ 64.
use lisp_dos.Base.{
  ℕ, zero, suc, ◌+◌, ◌-◌, ◌*◌, ◌/◌, ◌%◌, not, ◌&&◌, ltb, leb, ◌==◌, if◌then◌else◌, Memory, add64,
  sub64, mul64,
}
use lisp_dos.Pmm.{Pmm, alloc_page}
use lisp_dos.Vmm.{Vm, vmm_map_page, frame, user_limit}
use lisp_dos.Strings.{memset, memcpy}
use lisp_dos.Process.Elf.{Phdr, phdr_at, phdr_size, Refusal, bad_vaddr, no_page}

pub record Loader : Type 0 where
  pub vm : Vm
  pub ram : Memory

abbrev pub set_pmm : Loader → Pmm → Loader
set_pmm l p = record l { vm = record (l.vm) { pmm = p } }

-- What lies at `at` and above, and memory with that replaced.
abbrev pub from : Memory → ℕ → Memory
from ram at i = ram (at + i)

abbrev pub onto : Memory → ℕ → Memory → Memory
onto ram at buffer a = if leb at a then buffer (a - at) else ram a

-- The copy of the file's bytes to the page `paddr` that is mapped at `current`.
unfoldable pub copy_part : Memory → Phdr → (file_buf paddr current : ℕ) → Memory
copy_part ram ph file_buf paddr current =
    let vaddr = ph.p_vaddr in
    let filesz = ph.p_filesz in
    let start = if ltb current vaddr then vaddr % 4096 else 0 in
    let src_offset = add64 ph.p_offset (sub64 (add64 current start) vaddr) in
    let whole = 4096 - start in
    let copy_size =
      if ltb (add64 vaddr filesz) (add64 (add64 current start) whole)
      then sub64 (add64 vaddr filesz) (add64 current start)
      else whole in
    if ltb vaddr (add64 current 4096) && ltb current (add64 vaddr filesz)
    then memcpy ram (paddr + start) (add64 file_buf src_offset) copy_size
    else ram

-- The page at `paddr` cleared and filled.
unfoldable pub fill_page : Memory → Phdr → (file_buf paddr current : ℕ) → Memory
unfolding copy_part
fill_page ram ph file_buf paddr current =
    copy_part (memset ram paddr 0 4096) ph file_buf paddr current

-- `PAGE_USER | PAGE_WRITE`
abbrev pub user_page : ℕ
user_page = 6

-- What the loops leave, and whether they go on.
pub data Step : Type 0 where
  goes_on : Loader → Step
  refused : Refusal → Loader → Step

-- The loop over the pages of a segment, with those that are left.
unfoldable pub load_pages : Phdr → (file_buf map left j : ℕ) → Loader → Step
unfolding fill_page
load_pages ph file_buf map zero j l = goes_on l
load_pages ph file_buf map (suc left) j l =
    let (paddr, p) = alloc_page l.vm.pmm in
    let current = add64 (frame ph.p_vaddr) (mul64 j 4096) in
    let vm = vmm_map_page (record (l.vm) { pmm = p }) map current paddr user_page in
    let rest =
      load_pages ph file_buf map left (j + 1)
        (record { vm = vm; ram = fill_page l.ram ph file_buf paddr current }) in
    if paddr == 0 then refused no_page (set_pmm l p) else rest

unfoldable pub page_count : Phdr → ℕ
page_count ph = add64 (add64 ph.p_memsz (ph.p_vaddr % 4096)) 4095 / 4096

-- One program header.
unfoldable pub load_segment : Phdr → (file_buf map : ℕ) → Loader → Step
unfolding load_pages page_count
load_segment ph file_buf map l =
    if not (ph.p_type == 1)
    then goes_on l
    else if leb user_limit ph.p_vaddr
    then refused bad_vaddr l
    else load_pages ph file_buf map (page_count ph) 0 l

-- The loop over the program headers, with those that are left; each is read when its turn comes.
unfoldable pub load_segments : (file_buf phdr map left i : ℕ) → Loader → Step
unfolding load_segment phdr_at
load_segments file_buf phdr map zero i l = goes_on l
load_segments file_buf phdr map (suc left) i l =
    elim (load_segment (phdr_at l.ram (phdr + phdr_size * i)) file_buf map l) [
      | goes_on l' ↦ load_segments file_buf phdr map left (i + 1) l'
      | refused r l' ↦ refused r l'
    ]
