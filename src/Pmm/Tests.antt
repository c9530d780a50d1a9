-- ===== src/Pmm/Tests.antt =====
-- Runs of src/kernel/pmm.c on small memories, and its theorems at them.
use lisp_dos.Base.{ℕ, ◌+◌, ◌*◌, ◌≡◌, refl, ◌⊎◌, not, ◌&&◌, arith, ◌==◌, if◌then◌else◌}
use lisp_dos.Pmm.{
  test_bit, alloc_loop, take_page, run_loop, take_run, Pmm, page_size, bitmap_test, alloc_page,
  alloc_pages, free_page,
}
use lisp_dos.Pmm.Inv.{IsValid, count_free}
use lisp_dos.Pmm.AllocPage.{Took, AllUsed, alloc_page_lem, free_page_lem}
use lisp_dos.Pmm.AllocPages.{AllocPages, alloc_pages_lem}

-- Sixteen pages, of which 1 and 3 to 7 are free.
abbrev sixteen : Pmm
sixteen = record {
  bitmap = λ i. if i == 0 then 5 else 0xFF;
  free_memory = 24576;
  highest_page = 16;
  last_allocated_index = 2;
}

sixteen-IsValid : IsValid sixteen
unfolding count_free bitmap_test test_bit
sixteen-IsValid = record {
  bytes = λ i. ground arith;
  last_in = omega arith;
  small = omega arith;
  accounted = refl;
}

-- The search starts at `pmm_last_allocated_index`, and comes round to page 1.
alloc_page_runs :
    ((alloc_page sixteen).0 ≡ 3 * 4096)
    × ((alloc_pages sixteen 6).0 ≡ 0)
    × ((alloc_pages sixteen 5).0 ≡ 3 * 4096)
    × ((alloc_page (record sixteen { bitmap = λ i. 253 })).0 ≡ 9 * 4096)
unfolding alloc_page alloc_pages alloc_loop bitmap_test test_bit take_page run_loop take_run
alloc_page_runs = (refl, refl, refl, refl)

alloc_page_lem_example :
    ((p : ℕ) × Took sixteen p (alloc_page sixteen))
    ⊎ ((alloc_page sixteen ≡ (0, sixteen)) × AllUsed sixteen 0 16)
alloc_page_lem_example = alloc_page_lem sixteen sixteen-IsValid

alloc_pages_lem_example : AllocPages sixteen 3 (alloc_pages sixteen 3)
alloc_pages_lem_example = alloc_pages_lem sixteen 3 sixteen-IsValid (omega arith)

free_page_lem_example :
    let t = free_page sixteen 0x2010 in
    IsValid t
    × ((q : ℕ) → bitmap_test t q ≡ (not (2 == q) && bitmap_test sixteen q))
    × (t.free_memory ≡ 24576 + (if bitmap_test sixteen 2 then page_size else 0))
    × (free_page t 0x2010 ≡ t)
free_page_lem_example = free_page_lem sixteen 0x2010 sixteen-IsValid (omega arith)
