-- ===== src/Pmm/Init.antt =====
-- `pmm_init` of src/kernel/pmm.c, from the answers of the boot loader, and the bitmap it leaves.
pub mod Coverage
mod Tests
use lisp_dos.Base.{
  ℕ, zero, suc, ◌+◌, ◌-◌, ◌/◌, Bool, ◌&&◌, Option, none, some, List, [], ◌∷◌, ltb, leb, ◌==◌,
  if◌then◌else◌, Memory, update, add64, sub64,
}
use lisp_dos.Pmm.{Pmm, page_size, bitmap_clear}

-- The fields of `struct limine_memmap_entry` that are read; `usable` is the test of its type.
pub record Entry : Type 0 where
  pub base : ℕ
  pub length : ℕ
  pub usable : Bool

-- The first loop: the end of the highest usable entry.
pub highest_address : List Entry → ℕ → ℕ
highest_address [] top = top
highest_address (e ∷ es) top =
    let here = add64 e.base e.length in
    highest_address es (if e.usable && ltb top here then here else top)

unfoldable pub bitmap_size : ℕ → ℕ
bitmap_size highest_page = if highest_page / 8 == 0 then 1 else highest_page / 8

-- The second loop: the first entry that holds the bitmap gives up its front.
pub place : List Entry → ℕ → Option ℕ × List Entry
place [] size = (none, [])
place (e ∷ es) size =
    let (found, rest) = place es size in
    if e.usable && leb size e.length
    then (some e.base, record e { base = add64 e.base size; length = sub64 e.length size } ∷ es)
    else (found, e ∷ rest)

-- `for (i = 0; i < bitmap_size; i++) pmm_bitmap[i] = 0xFF`
pub fill : Memory → ℕ → ℕ → Memory
fill m zero i = m
fill m (suc n) i = fill (update m i 0xFF) n (i + 1)

-- The inner loop of the last: `n` rounds, `j` going up by the page size.
pub clear_entry : Pmm → ℕ → ℕ → ℕ → Pmm
clear_entry s base zero j = s
clear_entry s base (suc n) j =
    let t = bitmap_clear s (add64 base j / page_size) in
    clear_entry (record t { free_memory = add64 t.free_memory page_size }) base n (j + page_size)

-- The rounds of `for (j = 0; j < length; j += PAGE_SIZE)`.
abbrev pub rounds : ℕ → ℕ
rounds length = (length + (page_size - 1)) / page_size

pub clear_entries : Pmm → List Entry → Pmm
clear_entries s [] = s
clear_entries s (e ∷ es) =
    clear_entries (if e.usable then clear_entry s e.base (rounds e.length) 0 else s) es

-- `halted` after a message; `fault` where the bitmap pointer is still null when it is written
-- through; `ready` with the address of the bitmap and the entries as `pmm_init` leaves them.
pub data Boot : Type 0 where
  halted fault : Boot
  ready : (s : Pmm) (bitmap_at : ℕ) (entries : List Entry) → Boot

-- The static variables when the last loop begins.
unfoldable pub filled : Memory → ℕ → ℕ → Pmm
filled phys highest_page at = record {
  bitmap = fill (λ i. phys (at + i)) (bitmap_size highest_page) 0;
  free_memory = 0;
  highest_page = highest_page;
  last_allocated_index = 0;
}

-- `phys` is physical memory at the call.
pub pmm_init : Memory → Option ℕ → Option (List Entry) → Boot
pmm_init phys none mmap = halted
pmm_init phys (some hhdm) none = halted
pmm_init phys (some hhdm) (some es) =
    let highest_page = highest_address es 0 / page_size in
    let (found, entries) = place es (bitmap_size highest_page) in
    elim found [
      | none ↦ fault
      | some at ↦ ready (clear_entries (filled phys highest_page at) entries) at entries
    ]
