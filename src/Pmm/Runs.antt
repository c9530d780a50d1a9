-- ===== src/Pmm/Runs.antt =====
-- The loops of `pmm_alloc_pages`: what marking a run does, and which runs a pass finds or misses.
use lisp_dos.Base.{
  ℕ, zero, suc, ◌+◌, ◌-◌, ◌≤◌, ◌<◌, ◌≡◌, refl, ◌∙◌, inl, inr, Bool, ◌&&◌, ◌||◌, none, some, arith,
  ltb, leb, ◌==◌, if◌then◌else◌, eqb→eq, Bool-cases,
}
use lisp_dos.Pmm.{Pmm, bitmap_set, bitmap_test, mark_run, take_run, run_loop}
use lisp_dos.Pmm.Bitmap.{IsBytes, test-set, bitmap_set-IsBytes}
use lisp_dos.Pmm.Inv.{IsFree, count_free, count_free-set}

-- The pages `[p, p + n)` are free.
abbrev pub AllFree : Pmm → ℕ → ℕ → Type 0
AllFree s p n = (q : ℕ) → p ≤ q → q < p + n → IsFree s q

abbrev pub in_run : ℕ → ℕ → ℕ → Bool
in_run p n q = leb p q && ltb q (p + n)

pub mark_run-fields :
    (s : Pmm) (n p : ℕ)
    → ((mark_run s n p).highest_page ≡ s.highest_page)
      × ((mark_run s n p).free_memory ≡ s.free_memory)
unfolding mark_run bitmap_set
mark_run-fields s zero p = (refl, refl)
mark_run-fields s (suc n) p = mark_run-fields (bitmap_set s p) n (p + 1)

pub mark_run-IsBytes : (s : Pmm) (n p : ℕ) → IsBytes s → IsBytes (mark_run s n p)
unfolding mark_run
mark_run-IsBytes s zero p v = v
mark_run-IsBytes s (suc n) p v =
    mark_run-IsBytes (bitmap_set s p) n (p + 1) (bitmap_set-IsBytes s p v)

pub test-mark_run :
    (s : Pmm) (n p q : ℕ)
    → IsBytes s
    → bitmap_test (mark_run s n p) q ≡ (in_run p n q || bitmap_test s q)
unfolding mark_run
test-mark_run s zero p q v = ground arith
test-mark_run s (suc n) p q v =
    ground (
      arith,
      test-mark_run (bitmap_set s p) n (p + 1) q (bitmap_set-IsBytes s p v),
      test-set s p q v,
    )

pub count_free-mark_run :
    (s : Pmm) (n p top : ℕ)
    → IsBytes s
    → AllFree s p n
    → p + n ≤ top
    → count_free s top ≡ count_free (mark_run s n p) top + n
unfolding mark_run
count_free-mark_run s zero p top v free h = omega arith
count_free-mark_run s (suc n) p top v free h = omega (
  arith,
  count_free-set s p top v (free p (omega arith) (omega arith)) (omega arith),
  count_free-mark_run (bitmap_set s p) n (p + 1) top (bitmap_set-IsBytes s p v)
      (λ q lo hi. test-set s p q v ∙ ground (arith, free q)) (omega arith),
)

-- What the loop knows: the `c` pages before `i` are free, and `start` is the first of them.
pub record Scan (s : Pmm) (count i c start : ℕ) : Type 0 where
  pub short : c < count
  pub run : AllFree s (i - c) c
  pub reach : c ≤ i
  pub from : 0 < c → start ≡ i - c

module _ (s : Pmm) (count i c start : ℕ) (k : Scan s count i c start) where
  Scan-used : Scan s count (i + 1) 0 start
  Scan-used = record {
    short = omega (arith, k.short);
    run = λ q lo hi. absurd (omega arith);
    reach = omega arith;
    from = λ h. absurd (omega arith);
  }

  module _ (free : IsFree s i) where
    extended : AllFree s (i - c) (c + 1)
    extended q lo hi = elim (Bool-cases (i == q)) [
      | inl e ↦ ground (arith, eqb→eq i q e)
      | inr e ↦ k.run q lo (ground (arith, k.reach))
    ]

    start-eq : (if c == 0 then i else start) ≡ i - c
    start-eq = ground (arith, k.from)

    Scan-free : c + 1 < count → Scan s count (i + 1) (c + 1) (if c == 0 then i else start)
    Scan-free h = record {
      short = h;
      run = λ q lo hi. extended q (omega arith) (omega (arith, k.reach));
      reach = omega (arith, k.reach);
      from = λ _. omega (arith, start-eq);
    }

pub run_loop-some :
    (s : Pmm) (count n i c start : ℕ) {r : ℕ × Pmm}
    → Scan s count i c start
    → run_loop s count n i c start ≡ some r
    → (p : ℕ) × (p + count ≤ i + n) × AllFree s p count × (r ≡ take_run s count p)
unfolding run_loop
run_loop-some s count zero i c start k h = cc
run_loop-some s count (suc n) i c start k h = elim (Bool-cases (bitmap_test s i)) [
  | inl e ↦
      let (p, a, b, d) =
        run_loop-some s count n (i + 1) 0 start (Scan-used s count i c start k) (ground arith) in
      (p, omega arith, b, d)
  | inr e ↦ elim (Bool-cases (c + 1 == count)) [
    | inl e' ↦
        let full : c + 1 ≡ count = eqb→eq (c + 1) count e' in
        (
          i - c,
          omega (arith, k.reach),
          (λ q lo hi. extended s count i c start k e q lo (omega arith)),
          ground (arith, start-eq s count i c start k e),
        )
    | inr e' ↦
        let more : c + 1 < count = ground (arith, k.short) in
        let next = Scan-free s count i c start k e more in
        let (p, a, b, d) = run_loop-some s count n (i + 1) (c + 1) _ next (ground arith) in
        (p, omega arith, b, d)
  ]
]

-- No `count` free pages lie side by side in `[lo, hi)`.
abbrev pub NoRun : Pmm → ℕ → ℕ → ℕ → Type 0
NoRun s count lo hi = (p : ℕ) → lo ≤ p → p + count ≤ hi → ¬ AllFree s p count

pub run_loop-none :
    (s : Pmm) (count n i c start : ℕ)
    → c < count
    → c ≤ i
    → run_loop s count n i c start ≡ none
    → NoRun s count (i - c) (i + n)
unfolding run_loop
run_loop-none s count zero i c start short reach h p lo hi free = omega arith
run_loop-none s count (suc n) i c start short reach h p lo hi free =
    elim (Bool-cases (bitmap_test s i)) [
      | inl e ↦ elim (Bool-cases (leb p i)) [
        | inl below ↦ ground (arith, free i)
        | inr above ↦
            run_loop-none s count n (i + 1) 0 start (omega arith) (omega arith) (ground arith) p
              (ground arith) (omega arith) free
      ]
      | inr e ↦
          run_loop-none s count n (i + 1) (c + 1) (if c == 0 then i else start) (ground arith)
            (omega arith) (ground arith) p (omega arith) (omega arith) free
    ]
