-- ===== src/Vmm/Room.antt =====
-- `pmm_alloc_page` succeeds where the counter of free memory says that a page is left.
use lisp_dos.Base.{ℕ, zero, suc, ◌≤◌, ◌≡◌, refl, inl, inr, arith}
use lisp_dos.Pmm.{Pmm, page_size, alloc_page}
use lisp_dos.Pmm.Inv.{IsValid, count_free}
use lisp_dos.Pmm.AllocPage.{AllUsed, Took, alloc_page_lem}

count_free-AllUsed : (s : Pmm) (n : ℕ) → AllUsed s 0 n → count_free s n ≡ 0
unfolding count_free
count_free-AllUsed s zero all = refl
count_free-AllUsed s (suc n) all = ground (
  arith,
  all n (omega arith) (omega arith),
  count_free-AllUsed s n (λ q lo hi. all q lo (omega arith)),
)

pub alloc_page_room :
    (s : Pmm) → IsValid s → page_size ≤ s.free_memory → (p : ℕ) × Took s p (alloc_page s)
alloc_page_room s v room = elim (alloc_page_lem s v) [
  | inl took ↦ took
  | inr (e, all) ↦ absurd (omega (arith, v.accounted, count_free-AllUsed s s.highest_page all))
]
