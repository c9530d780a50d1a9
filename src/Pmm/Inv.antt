-- ===== src/Pmm/Inv.antt =====
-- The invariant of src/kernel/pmm.c: the free counter is 4096 times the number of clear bits.
use lisp_dos.Base.{
  ℕ, zero, suc, ◌+◌, ◌*◌, ◌^◌, ◌≤◌, ◌<◌, ◌≡◌, refl, ap, ◌≢◌, inl, inr, true, false, arith, ◌==◌,
  if◌then◌else◌, eqb→eq, Bool-cases,
}
use lisp_dos.Pmm.{Pmm, page_size, bitmap_set, bitmap_clear, bitmap_test}
use lisp_dos.Pmm.Bitmap.{IsBytes, test-set, test-clear}

abbrev pub IsFree : Pmm → ℕ → Type 0
IsFree s p = bitmap_test s p ≡ false

-- The number of free pages below `n`.
unfoldable pub count_free : Pmm → ℕ → ℕ
count_free s zero = 0
count_free s (suc n) = (if bitmap_test s n then 0 else 1) + count_free s n

pub count_free-le : (s : Pmm) (n : ℕ) → count_free s n ≤ n
unfolding count_free
count_free-le s zero = omega arith
count_free-le s (suc n) = ground (arith, count_free-le s n)

pub record IsValid (s : Pmm) : Type 0 where
  pub bytes : IsBytes s
  pub last_in : s.last_allocated_index ≤ s.highest_page
  pub small : s.highest_page * page_size < 2 ^ 64
  pub accounted : s.free_memory ≡ page_size * count_free s s.highest_page

-- The tests and the count read nothing but the bitmap.
pub test_ext : (s t : Pmm) (q : ℕ) → t.bitmap ≡ s.bitmap → bitmap_test t q ≡ bitmap_test s q
unfolding bitmap_test
test_ext s t q e = rw e

pub count_free_ext : (s t : Pmm) (n : ℕ) → t.bitmap ≡ s.bitmap → count_free t n ≡ count_free s n
unfolding count_free
count_free_ext s t zero e = refl
count_free_ext s t (suc n) e = ground (arith, test_ext s t n e, count_free_ext s t n e)

-- The counts of two bitmaps that differ at most at the page `p`.
module _ (s t : Pmm) (p : ℕ) (same : (q : ℕ) → p ≢ q → bitmap_test t q ≡ bitmap_test s q) where
  count_free-below : (n : ℕ) → n ≤ p → count_free t n ≡ count_free s n
  unfolding count_free
  count_free-below zero h = refl
  count_free-below (suc n) h =
      let e : bitmap_test t n ≡ bitmap_test s n = same n (omega arith) in
      rw e (ap (λ k. (if bitmap_test s n then 0 else 1) + k) (count_free-below n (omega arith)))

  pub count_free-take :
      (n : ℕ) → p < n → IsFree s p → bitmap_test t p ≡ true → count_free s n ≡ count_free t n + 1
  unfolding count_free
  count_free-take zero h before after = absurd (omega arith)
  count_free-take (suc n) h before after = elim (Bool-cases (p == n)) [
    | inl e ↦ ground (arith, eqb→eq p n e, count_free-below n)
    | inr e ↦ ground (arith, same n, count_free-take n)
  ]

pub count_free-set :
    (s : Pmm) (p n : ℕ)
    → IsBytes s
    → IsFree s p
    → p < n
    → count_free s n ≡ count_free (bitmap_set s p) n + 1
count_free-set s p n v before h =
    count_free-take s (bitmap_set s p) p (λ q d. ground (arith, test-set s p q v)) n h before
      (ground (arith, test-set s p p v))

pub count_free-clear :
    (s : Pmm) (p n : ℕ)
    → IsBytes s
    → bitmap_test s p ≡ true
    → p < n
    → count_free (bitmap_clear s p) n ≡ count_free s n + 1
count_free-clear s p n v before h =
    count_free-take (bitmap_clear s p) s p (λ q d. ground (arith, test-clear s p q v)) n h
      (ground (arith, test-clear s p p v)) before
