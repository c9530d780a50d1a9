-- ===== src/Pmm/AllocPage.antt =====
-- `pmm_alloc_page` and `pmm_free_page`: what they return, what they change, and the invariant.
use lisp_dos.Base.{
  ℕ, zero, suc, ◌+◌, ◌-◌, ◌*◌, ◌/◌, ◌≤◌, ◌<◌, ◌≡◌, refl, ◌∙◌, ◌⊎◌, inl, inr, true, not, ◌&&◌, ◌||◌,
  none, some, arith, ltb, ◌==◌, if◌then◌else◌, eqb→eq, tests, Bool-cases, Option-cases, add64,
}
use lisp_dos.Pmm.{
  Pmm, page_size, bitmap_set, bitmap_clear, bitmap_test, take_page, alloc_loop, alloc_page,
  free_page,
}
use lisp_dos.Pmm.Bitmap.{test-set, test-clear, bitmap_set-IsBytes, bitmap_clear-IsBytes}
use lisp_dos.Pmm.Inv.{
  IsFree, IsValid, count_free, count_free-le, count_free-set, count_free-clear, count_free_ext,
  test_ext,
}

-- The pages from `i` on, `n` of them, are in use.
abbrev pub AllUsed : Pmm → ℕ → ℕ → Type 0
AllUsed s i n = (q : ℕ) → i ≤ q → q < i + n → bitmap_test s q ≡ true

alloc_loop-none : (s : Pmm) (n i : ℕ) → alloc_loop s n i ≡ none → AllUsed s i n
unfolding alloc_loop
alloc_loop-none s zero i h q lo hi = absurd (omega arith)
alloc_loop-none s (suc n) i h q lo hi = elim (Bool-cases (i == q)) [
  | inl e ↦ ground (arith, eqb→eq i q e)
  | inr e ↦ ground (arith, alloc_loop-none s n (i + 1) (ground arith) q (ground arith))
]

alloc_loop-some :
    (s : Pmm) (n i : ℕ) {r : ℕ × Pmm}
    → alloc_loop s n i ≡ some r
    → (p : ℕ) × (p < i + n) × IsFree s p × (r ≡ take_page s p)
unfolding alloc_loop
alloc_loop-some s zero i h = cc
alloc_loop-some s (suc n) i h = elim (Bool-cases (bitmap_test s i)) [
  | inl e ↦ let (p, a, b, c) = alloc_loop-some s n (i + 1) (ground arith) in (p, omega arith, b, c)
  | inr e ↦ (i, omega arith, e, ground arith)
]

-- `r` is the address of the free page `page`, and the state in which just that page was taken.
pub record Took (s : Pmm) (page : ℕ) (r : ℕ × Pmm) : Type 0 where
  pub below : page < s.highest_page
  pub was_free : IsFree s page
  pub address : r.0 ≡ page * page_size
  pub taken : (q : ℕ) → bitmap_test r.1 q ≡ ((page == q) || bitmap_test s q)
  pub valid : IsValid r.1
  pub counter : r.1.free_memory + page_size ≡ s.free_memory
  pub highest : r.1.highest_page ≡ s.highest_page

module _ (s : Pmm) (p : ℕ) (v : IsValid s) (h : p < s.highest_page) (free : IsFree s p) where
  take_page-counted :
      (count_free s s.highest_page ≡ count_free (take_page s p).1 s.highest_page + 1)
      × (count_free s s.highest_page ≤ s.highest_page)
  unfolding take_page
  take_page-counted = (
    ground (
      arith,
      count_free-set s p s.highest_page v.bytes free h,
      count_free_ext (bitmap_set s p) (take_page s p).1 s.highest_page refl,
    ),
    count_free-le s s.highest_page,
  )

  take_page-counter : (take_page s p).1.free_memory + page_size ≡ s.free_memory
  unfolding take_page bitmap_set
  take_page-counter = omega (arith, take_page-counted)

  take_page-Took : Took s p (take_page s p)
  unfolding take_page bitmap_set
  take_page-Took = record {
    below = h;
    was_free = free;
    address = omega arith;
    taken = λ q. test_ext (bitmap_set s p) (take_page s p).1 q refl ∙ test-set s p q v.bytes;
    valid = record {
      bytes = bitmap_set-IsBytes s p v.bytes;
      last_in = omega arith;
      small = v.small;
      accounted = omega (arith, take_page-counted, take_page-counter);
    };
    counter = take_page-counter;
    highest = refl;
  }

-- `pmm_alloc_page` on a valid state either takes one free page below `pmm_highest_page` and returns
-- its address, or returns 0, changes nothing, and every page below `pmm_highest_page` is in use.
pub alloc_page_lem :
    (s : Pmm)
    → IsValid s
    → ((p : ℕ) × Took s p (alloc_page s)) ⊎ ((alloc_page s ≡ (0, s)) × AllUsed s 0 s.highest_page)
unfolding alloc_page
alloc_page_lem s v = elim (Option-cases (alloc_loop s rounds last)) [
  | inr (r, e) ↦
      let (p, lt, free, is) = alloc_loop-some s rounds last e in
      let in_range : p < s.highest_page = omega arith in
      inl (p, rw (e, is, alloc_page) (take_page-Took s p v in_range free))
  | inl e ↦ elim (Option-cases (alloc_loop s last 0)) [
    | inr (r, e') ↦
        let (p, lt, free, is) = alloc_loop-some s last 0 e' in
        let in_range : p < s.highest_page = omega arith in
        inl (p, rw (e, e', is, alloc_page) (take_page-Took s p v in_range free))
    | inl e' ↦ inr (
      rw (e, e', alloc_page),
      λ q lo hi. elim (Bool-cases (ltb q last)) [
        | inl below ↦ alloc_loop-none s last 0 e' q lo (omega tests)
        | inr above ↦ alloc_loop-none s rounds last e q (ground arith) (omega arith)
      ],
    )
  ]
]
  where
    last : ℕ
    last = s.last_allocated_index

    rounds : ℕ
    rounds = s.highest_page - s.last_allocated_index

free_page-free : (s : Pmm) (addr : ℕ) → IsFree s (addr / page_size) → free_page s addr ≡ s
unfolding free_page
free_page-free s addr free = ground arith

module _ (s : Pmm) (addr : ℕ) (v : IsValid s) (h : addr / page_size < s.highest_page) where
  abbrev freed_page : ℕ
  freed_page = addr / page_size

  free_page-used :
      bitmap_test s freed_page ≡ true
      → IsValid (free_page s addr)
        × ((q : ℕ) → bitmap_test (free_page s addr) q ≡ (not (freed_page == q) && bitmap_test s q))
        × ((free_page s addr).free_memory ≡ s.free_memory + page_size)
  unfolding free_page bitmap_clear
  free_page-used used =
      rw (used, free_page)
        (
          record {
            bytes = bitmap_clear-IsBytes s freed_page v.bytes;
            last_in = v.last_in;
            small = v.small;
            accounted = omega (arith, counted);
          },
          (λ q. test_ext (bitmap_clear s freed_page) _ q refl ∙ test-clear s freed_page q v.bytes),
          omega (arith, counted),
        )
    where
      t : Pmm
      t = record (bitmap_clear s freed_page) { free_memory = add64 s.free_memory page_size }

      counted :
          (count_free t s.highest_page ≡ count_free s s.highest_page + 1)
          × (count_free t s.highest_page ≤ s.highest_page)
      counted = (
        count_free_ext (bitmap_clear s freed_page) t s.highest_page refl
            ∙ count_free-clear s freed_page s.highest_page v.bytes used h,
        count_free-le t s.highest_page,
      )

-- `pmm_free_page` of the address of a page below `pmm_highest_page` makes that page free and
-- changes no other; the counter grows by a page exactly if the page was in use, the invariant is
-- kept, and a second call with the same address changes nothing.
pub free_page_lem :
    (s : Pmm) (addr : ℕ)
    → IsValid s
    → addr / page_size < s.highest_page
    → let t = free_page s addr in
      IsValid t
      × ((q : ℕ) → bitmap_test t q ≡ (not (addr / page_size == q) && bitmap_test s q))
      × (t.free_memory
          ≡ s.free_memory + (if bitmap_test s (addr / page_size) then page_size else 0))
      × (free_page t addr ≡ t)
free_page_lem s addr v h = elim (Bool-cases (bitmap_test s page)) [
  | inl used ↦
      let (valid, tests_of, counter) = free_page-used s addr v h used in
      (
        valid,
        tests_of,
        rw used counter,
        free_page-free (free_page s addr) addr (tests_of page ∙ ground arith),
      )
  | inr free ↦
      let same : free_page s addr ≡ s = free_page-free s addr free in
      rw (same, free)
        (
          v,
          (λ q. elim (Bool-cases (page == q)) [
            | inl e ↦ ground (arith, eqb→eq page q e)
            | inr e ↦ ground arith
          ]),
          omega arith,
          same,
        )
]
  where
    page : ℕ
    page = addr / page_size
