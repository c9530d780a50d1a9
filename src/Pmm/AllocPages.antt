-- ===== src/Pmm/AllocPages.antt =====
-- `pmm_alloc_pages`: the run that it returns is contiguous, was free, and is what it takes; it fails
-- only where neither of its passes can find one.
use lisp_dos.Base.{
  ℕ, zero, suc, ◌+◌, ◌-◌, ◌*◌, ◌≤◌, ◌<◌, ◌≡◌, refl, sym, ap, ◌∙◌, ◌⊎◌, inl, inr, false, ◌||◌,
  Option, some, arith, ◌==◌, Option-cases,
}
use lisp_dos.Pmm.{
  Pmm, page_size, bitmap_test, mark_run, take_run, run_loop, alloc_pages, alloc_page,
}
use lisp_dos.Pmm.Inv.{IsValid, count_free, count_free-le, test_ext, count_free_ext}
use lisp_dos.Pmm.AllocPage.{Took, alloc_page_lem}
use lisp_dos.Pmm.Runs.{
  AllFree, in_run, NoRun, Scan, mark_run-fields, mark_run-IsBytes, test-mark_run,
  count_free-mark_run, run_loop-some, run_loop-none,
}

-- The `count` pages from `p` on, free before, are the pages taken, and `p` is what is returned.
pub record TookRun (s : Pmm) (count p : ℕ) (r : ℕ × Pmm) : Type 0 where
  pub below : p + count ≤ s.highest_page
  pub were_free : AllFree s p count
  pub address : r.0 ≡ p * page_size
  pub taken : (q : ℕ) → bitmap_test r.1 q ≡ (in_run p count q || bitmap_test s q)
  pub valid : IsValid r.1
  pub counter : r.1.free_memory + page_size * count ≡ s.free_memory

module _ (s : Pmm) (count p : ℕ) (v : IsValid s) (h : p + count ≤ s.highest_page)
    (free : AllFree s p count) where
  abbrev marked : Pmm
  marked = mark_run s count p

  counted :
      (count_free s s.highest_page ≡ count_free (take_run s count p).1 s.highest_page + count)
      × (count_free s s.highest_page ≤ s.highest_page)
      × (marked.highest_page ≡ s.highest_page)
      × (marked.free_memory ≡ s.free_memory)
  unfolding take_run
  counted = (
    ground (
      arith,
      count_free-mark_run s count p s.highest_page v.bytes free h,
      count_free_ext marked (take_run s count p).1 s.highest_page refl,
    ),
    count_free-le s s.highest_page,
    (mark_run-fields s count p).0,
    (mark_run-fields s count p).1,
  )

  run_counter : (take_run s count p).1.free_memory + page_size * count ≡ s.free_memory
  unfolding take_run
  run_counter = omega (arith, counted)

  run_accounted :
      (take_run s count p).1.free_memory
      ≡ page_size * count_free (take_run s count p).1 s.highest_page
  run_accounted = omega (arith, counted, run_counter)

  take_run-TookRun : TookRun s count p (take_run s count p)
  unfolding take_run
  take_run-TookRun = record {
    below = h;
    were_free = free;
    address = omega arith;
    taken = λ q. test_ext marked (take_run s count p).1 q refl ∙ test-mark_run s count p q v.bytes;
    valid = record {
      bytes = mark_run-IsBytes s count p v.bytes;
      last_in = omega (arith, counted);
      small = omega (arith, counted);
      accounted =
          run_accounted
          ∙ ap (λ k. page_size * count_free (take_run s count p).1 k) (sym (counted.2));
    };
    counter = run_counter;
  }

Took-TookRun : (s : Pmm) (p : ℕ) (r : ℕ × Pmm) → Took s p r → TookRun s 1 p r
Took-TookRun s p r t = record {
  below = omega (arith, t.below);
  were_free = λ q lo hi. let e : p ≡ q = omega arith in rw (← e) t.was_free;
  address = t.address;
  taken = λ q. ground (arith, t.taken q);
  valid = t.valid;
  counter = t.counter;
}

-- A pass over `[i, i + n)` inside the bitmap.
run_loop-TookRun :
    (s : Pmm) (count n i start : ℕ) {r : ℕ × Pmm}
    → IsValid s
    → 0 < count
    → i + n ≤ s.highest_page
    → run_loop s count n i 0 start ≡ some r
    → (p : ℕ) × TookRun s count p r
run_loop-TookRun s count n i start v pos h e =
    let (p, inside, free, is) = run_loop-some s count n i 0 start fresh e in
    (p, rw is (take_run-TookRun s count p v (omega arith) free))
  where
    fresh : Scan s count i 0 start
    fresh = record {
      short = pos;
      run = λ q lo hi. absurd (omega arith);
      reach = omega arith;
      from = λ lt. absurd (omega arith);
    }

-- What `pmm_alloc_pages` does: it takes a run, or fails and leaves the state alone, and then neither
-- of the two ranges that it looks through holds a run.
abbrev pub AllocPages : Pmm → ℕ → ℕ × Pmm → Type 0
AllocPages s count r =
    ((p : ℕ) × TookRun s count p r)
    ⊎ ((r ≡ (0, s))
        × NoRun s count 0 s.last_allocated_index
        × NoRun s count s.last_allocated_index s.highest_page)

module _ (s : Pmm) (count : ℕ) (v : IsValid s) (more : 1 < count) where
  alloc_pages_scan : AllocPages s count (alloc_pages s count)
  unfolding alloc_pages
  alloc_pages_scan =
      rw (none_of, one_of, alloc_pages)
        (elim (Option-cases first) [
          | inr (r, e) ↦
              rw e
                (inl (run_loop-TookRun s count _ _ _ v (omega arith) (omega (arith, v.last_in)) e))
          | inl e ↦ elim (Option-cases second) [
            | inr (r, e') ↦
                rw (e, e')
                  (inl
                    (run_loop-TookRun s count _ _ _ v (omega arith) (omega (arith, v.last_in)) e'))
            | inl e' ↦
                rw (e, e')
                  (inr (
                    refl,
                    (λ p lo hi.
                        run_loop-none s count last 0 0 last (omega arith) (omega arith) e' p lo
                          (omega arith)),
                    λ p lo hi.
                        run_loop-none s count (s.highest_page - last) last 0 last (omega arith)
                          (omega arith) e p (omega arith) (omega (arith, v.last_in)),
                  ))
          ]
        ])
    where
      last : ℕ
      last = s.last_allocated_index

      first : Option (ℕ × Pmm)
      first = run_loop s count (s.highest_page - last) last 0 last

      second : Option (ℕ × Pmm)
      second = run_loop s count last 0 0 last

      none_of : (count == 0) ≡ false
      none_of = ground arith

      one_of : (count == 1) ≡ false
      one_of = ground arith

alloc_pages_one : (s : Pmm) → IsValid s → AllocPages s 1 (alloc_pages s 1)
unfolding alloc_pages
alloc_pages_one s v = elim (alloc_page_lem s v) [
  | inl (p, t) ↦ inl (p, Took-TookRun s p (alloc_page s) t)
  | inr (e, all) ↦ inr (
    e,
    (λ p lo hi free. ground (arith, all p, free p, v.last_in)),
    λ p lo hi free. ground (arith, all p, free p, v.last_in),
  )
]

-- `pmm_alloc_pages` of at least one page, on a valid state, either takes exactly `count` contiguous
-- pages below `pmm_highest_page`, all free before, returns the address of the first and leaves a
-- valid state with the counter lower by `count` pages; or it returns 0 and changes nothing, and then
-- no `count` free pages lie side by side below `pmm_last_allocated_index`, nor from there up to
-- `pmm_highest_page`.
pub alloc_pages_lem :
    (s : Pmm) (count : ℕ) → IsValid s → 0 < count → AllocPages s count (alloc_pages s count)
alloc_pages_lem s zero v pos = absurd (omega arith)
alloc_pages_lem s (suc zero) v pos = alloc_pages_one s v
alloc_pages_lem s (suc (suc n)) v pos = alloc_pages_scan s (suc (suc n)) v (omega arith)
