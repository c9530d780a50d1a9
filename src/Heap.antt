-- ===== src/Heap.antt =====
-- The bump allocator of src/kernel/heap.c over the physical memory manager. A pointer is the
-- physical address that `phystokv` maps, and `none` is the null pointer. `kfree` does nothing.
pub mod Blocks
mod Tests
use lisp_dos.Base.{
  ℕ, zero, suc, ◌+◌, ◌*◌, ◌/◌, Option, none, some, ltb, ◌==◌, if◌then◌else◌, Memory, update, add64,
}
use lisp_dos.Pmm.{Pmm, alloc_page, alloc_pages}

pub record Heap : Type 0 where
  pub pmm : Pmm
  pub bytes : Memory
  pub current_page : Option ℕ
  pub current_page_offset : ℕ

-- `for (i = 0; i < n; i++) ptr[i] = 0;`
unfoldable pub clear : Memory → (ptr left i : ℕ) → Memory
clear m ptr zero i = m
clear m ptr (suc n) i = clear (update m (ptr + i) 0) ptr n (i + 1)

-- `size = (size + 7) & ~7`
unfoldable pub round_up : ℕ → ℕ
round_up size = add64 size 7 / 8 * 8

-- The rest of `kmalloc` for a large block; `alloc_pages` answers 0 for a null pointer.
unfoldable pub large_block : Heap → ℕ → Option ℕ × Heap
large_block h size =
    let pages = add64 size 4095 / 4096 in
    let (phys, pmm) = alloc_pages h.pmm pages in
    if phys == 0
    then (none, record h { pmm = pmm })
    else (some phys, record h { pmm = pmm; bytes = clear h.bytes phys (pages * 4096) 0 })

unfoldable pub fresh_block : Heap → ℕ → Option ℕ × Heap
fresh_block h size =
    let (phys, pmm) = alloc_page h.pmm in
    if phys == 0 then (none, record h { pmm = pmm }) else (
      some phys,
      record {
        pmm = pmm;
        bytes = clear h.bytes phys 4096 0;
        current_page = some phys;
        current_page_offset = size;
      },
    )

unfoldable pub small_block : Heap → ℕ → Option ℕ × Heap
small_block h size = elim h.current_page [
  | none ↦ fresh_block h size
  | some page ↦ if ltb 4096 (h.current_page_offset + size) then fresh_block h size else (
    some (page + h.current_page_offset),
    record h { current_page_offset = h.current_page_offset + size },
  )
]

unfoldable pub kmalloc : Heap → ℕ → Option ℕ × Heap
kmalloc h size =
    if size == 0
    then (none, h)
    else if ltb 4096 (round_up size)
    then large_block h (round_up size)
    else small_block h (round_up size)
