-- ===== src/Pmm/Release.antt =====
-- A run of pages that is taken and given back, page by page, as the callers of src/kernel/pmm.c do.
use lisp_dos.Base.{
  ℕ, zero, suc, ◌+◌, ◌/◌, ◌≡◌, refl, Option, none, some, ◌==◌, if◌then◌else◌, if_holds,
}
use lisp_dos.Pmm.{
  Pmm, bitmap_set, bitmap_test, bitmap_clear, take_page, alloc_loop, alloc_page, take_run, run_loop,
  alloc_pages, free_page,
}
use lisp_dos.Pmm.Runs.{mark_run-fields}

pub free_page-highest : (s : Pmm) (addr : ℕ) → (free_page s addr).highest_page ≡ s.highest_page
unfolding free_page bitmap_clear
free_page-highest s addr =
    if_holds (λ (t : Pmm). t.highest_page ≡ s.highest_page) (bitmap_test s (addr / 4096))
      (λ _. refl) λ _. refl

-- An answer leaves the number of pages alone.
abbrev Keeps : Pmm → Option (ℕ × Pmm) → Type 0
Keeps s none = Unit
Keeps s (some (addr, t)) = t.highest_page ≡ s.highest_page

alloc_loop-Keeps : (s : Pmm) (n i : ℕ) → Keeps s (alloc_loop s n i)
unfolding alloc_loop take_page bitmap_set
alloc_loop-Keeps s zero i = tt
alloc_loop-Keeps s (suc n) i =
    if_holds (Keeps s) (bitmap_test s i) (λ _. alloc_loop-Keeps s n (i + 1)) λ _. refl

run_loop-Keeps : (s : Pmm) (count n i c start : ℕ) → Keeps s (run_loop s count n i c start)
unfolding run_loop take_run
run_loop-Keeps s count zero i c start = tt
run_loop-Keeps s count (suc n) i c start =
    let from = if c == 0 then i else start in
    if_holds (Keeps s) (bitmap_test s i) (λ _. run_loop-Keeps s count n (i + 1) 0 start)
      λ _.
        if_holds (Keeps s) (c + 1 == count) (λ _. (mark_run-fields s count from).0)
          λ _. run_loop-Keeps s count n (i + 1) (c + 1) from

either-Keeps :
    (s : Pmm) (a b : Option (ℕ × Pmm))
    → Keeps s a
    → Keeps s b
    → let r : ℕ × Pmm = elim a [
      | some found ↦ found
      | none ↦ elim b [ some found ↦ found | none ↦ (0, s) ]
    ] in
      r.1.highest_page ≡ s.highest_page
either-Keeps s (some r) b h k = h
either-Keeps s none (some r) h k = k
either-Keeps s none none h k = refl

pub alloc_page-highest : (s : Pmm) → (alloc_page s).1.highest_page ≡ s.highest_page
unfolding alloc_page
alloc_page-highest s = either-Keeps s _ _ (alloc_loop-Keeps s _ _) (alloc_loop-Keeps s _ _)

pub alloc_pages-highest :
    (s : Pmm) (count : ℕ) → (alloc_pages s count).1.highest_page ≡ s.highest_page
unfolding alloc_pages
alloc_pages-highest s count =
    let P : ℕ × Pmm → Type 0 = λ r. r.1.highest_page ≡ s.highest_page in
    if_holds P (count == 0) (λ _. refl)
      λ _.
        if_holds P (count == 1) (λ _. alloc_page-highest s)
          λ _. either-Keeps s _ _ (run_loop-Keeps s count _ _ _ _) (run_loop-Keeps s count _ _ _ _)
