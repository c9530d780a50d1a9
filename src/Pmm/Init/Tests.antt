-- ===== src/Pmm/Init/Tests.antt =====
-- `pmm_init` on a map of four usable pages, and its theorems there.
use lisp_dos.Base.{ℕ, ◌/◌, ◌≡◌, refl, true, false, not, some, List, [], ◌∷◌, arith}
use lisp_dos.Pmm.{Pmm, bitmap_test, bitmap_clear}
use lisp_dos.Pmm.Init.{
  Entry, ready, highest_address, place, bitmap_size, pmm_init, clear_entry, clear_entries, filled,
}
use lisp_dos.Pmm.Init.Coverage.{Gives, IsEnd, IsSize, covered, pmm_init_lem, bitmap_page_free}

-- Four usable pages from page 1 on, below a reserved page. The bitmap takes one byte.
abbrev four : List Entry
four =
    record { base = 0x1000; length = 0x4000; usable = true }
    ∷ record { base = 0x5000; length = 0x1000; usable = false }
    ∷ []

abbrev left_over : List Entry
left_over =
    record { base = 0x1001; length = 0x3FFF; usable = true }
    ∷ record { base = 0x5000; length = 0x1000; usable = false }
    ∷ []

abbrev booted : Pmm
booted = clear_entries (filled (λ i. 0) 5 0x1000) left_over

boots : pmm_init (λ i. 0) (some 0) (some four) ≡ ready booted 0x1000 left_over
unfolding pmm_init bitmap_size highest_address place
boots = refl

pmm_init_lem_example :
    (end : ℕ) × IsEnd four end
    × (booted.highest_page ≡ end / 4096)
    × IsSize booted.highest_page (bitmap_size booted.highest_page)
    × Gives (bitmap_size booted.highest_page) 0x1000 four left_over
    × (bitmap_test booted 5 ≡ not (covered left_over 5))
unfolding bitmap_size clear_entries clear_entry filled bitmap_clear
pmm_init_lem_example =
    pmm_init_lem (λ i. 0) 0 four left_over booted 0x1000 5 (λ i. omega arith) (omega arith) boots
      (omega arith)

-- The bitmap lies in page 1, and page 1 is free.
bitmap_page_free_example : bitmap_test booted 1 ≡ false
unfolding bitmap_size clear_entries clear_entry filled bitmap_clear
bitmap_page_free_example =
    bitmap_page_free (λ i. 0) 0 four left_over booted 0x1000 (λ i. omega arith) (omega arith)
      (omega arith) boots (omega arith)
