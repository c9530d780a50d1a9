-- ===== src/Pmm.antt =====
-- The physical memory manager, src/kernel/pmm.c: one bit for each page of 4096 bytes, set where
-- the page is in use. A function that changes the static variables takes and returns their record.
pub mod Bitmap
pub mod Inv
pub mod AllocPage
pub mod AllocPages
pub mod Runs
pub mod Release
pub mod Init
mod Tests
use lisp_dos.Base.{
  ℕ, zero, suc, ◌+◌, ◌-◌, ◌/◌, ◌%◌, ◌^◌, bit_and, bit_or, Bool, not, Option, none, some, ◌==◌,
  if◌then◌else◌, Memory, update, u8, add64, sub64, mul64,
}

abbrev pub page_size : ℕ
page_size = 4096

-- `bitmap` is the memory behind the pointer `pmm_bitmap`.
pub record Pmm : Type 0 where
  pub bitmap : Memory
  pub free_memory : ℕ
  pub highest_page : ℕ
  pub last_allocated_index : ℕ

-- A byte with bit `k` set, with it cleared, and the test of it; `~(1 << k)` is of type `int`.
unfoldable pub set_bit : ℕ → ℕ → ℕ
set_bit b k = u8 (bit_or b (2 ^ k))

unfoldable pub clear_bit : ℕ → ℕ → ℕ
clear_bit b k = u8 (bit_and b (2 ^ 32 - 1 - 2 ^ k))

unfoldable pub test_bit : ℕ → ℕ → Bool
test_bit b k = not (bit_and b (2 ^ k) == 0)

unfoldable pub bitmap_set : Pmm → ℕ → Pmm
bitmap_set s bit = record s {
  bitmap = update s.bitmap (bit / 8) (set_bit (s.bitmap (bit / 8)) (bit % 8));
}

unfoldable pub bitmap_clear : Pmm → ℕ → Pmm
bitmap_clear s bit = record s {
  bitmap = update s.bitmap (bit / 8) (clear_bit (s.bitmap (bit / 8)) (bit % 8));
}

unfoldable pub bitmap_test : Pmm → ℕ → Bool
bitmap_test s bit = test_bit (s.bitmap (bit / 8)) (bit % 8)

-- The body of both loops of `pmm_alloc_page` once a free page is found.
unfoldable pub take_page : Pmm → ℕ → ℕ × Pmm
take_page s i =
    let t = bitmap_set s i in
    (
      mul64 i page_size,
      record t { last_allocated_index = i; free_memory = sub64 t.free_memory page_size },
    )

-- One loop of `pmm_alloc_page`, with the rounds that are left.
unfoldable pub alloc_loop : Pmm → ℕ → ℕ → Option (ℕ × Pmm)
alloc_loop s zero i = none
alloc_loop s (suc n) i =
    let rest = alloc_loop s n (i + 1) in if bitmap_test s i then rest else some (take_page s i)

-- A null pointer is 0, which is also the address of page 0.
unfoldable pub alloc_page : Pmm → ℕ × Pmm
alloc_page s =
    elim (alloc_loop s (s.highest_page - s.last_allocated_index) s.last_allocated_index) [
      | some found ↦ found
      | none ↦ elim (alloc_loop s s.last_allocated_index 0) [ some found ↦ found | none ↦ (0, s) ]
    ]

-- `for (j = 0; j < count; j++) bitmap_set(start_index + j)`
unfoldable pub mark_run : Pmm → ℕ → ℕ → Pmm
mark_run s zero p = s
mark_run s (suc n) p = mark_run (bitmap_set s p) n (p + 1)

unfoldable pub take_run : Pmm → ℕ → ℕ → ℕ × Pmm
take_run s count start =
    let t = mark_run s count start in
    (
      mul64 start page_size,
      record t {
        last_allocated_index = add64 start count;
        free_memory = sub64 t.free_memory (mul64 page_size count);
      },
    )

-- One loop of `pmm_alloc_pages`; `c` is `contiguous` and `start` is `start_index`.
unfoldable pub run_loop : Pmm → ℕ → ℕ → ℕ → ℕ → ℕ → Option (ℕ × Pmm)
run_loop s count zero i c start = none
run_loop s count (suc n) i c start =
    let from = if c == 0 then i else start in
    let longer = run_loop s count n (i + 1) (c + 1) from in
    let broken = run_loop s count n (i + 1) 0 start in
    if bitmap_test s i
    then broken
    else if c + 1 == count
    then some (take_run s count from)
    else longer

-- The second loop inherits `start_index`, and sets it before it reads it since `contiguous` is 0.
unfoldable pub alloc_pages : Pmm → ℕ → ℕ × Pmm
alloc_pages s count =
    let last = s.last_allocated_index in
    if count == 0
    then (0, s)
    else if count == 1
    then alloc_page s
    else elim (run_loop s count (s.highest_page - last) last 0 last) [
      | some found ↦ found
      | none ↦ elim (run_loop s count last 0 0 last) [ some found ↦ found | none ↦ (0, s) ]
    ]

pub free_page : Pmm → ℕ → Pmm
free_page s addr =
    let bit = addr / page_size in
    let t = bitmap_clear s bit in
    if bitmap_test s bit then record t { free_memory = add64 t.free_memory page_size } else s
