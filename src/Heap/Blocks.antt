-- ===== src/Heap/Blocks.antt =====
-- The blocks that `kmalloc` returns for sizes up to a page.
use lisp_dos.Base.{
  ℕ, ◌+◌, ◌%◌, ◌≤◌, ◌<◌, ◌≡◌, refl, subst, true, ◌⊎◌, inl, inr, false, Option, none, some, arith,
  ltb, ◌==◌, if◌then◌else◌, eqb→eq, ne→eqb, Bool-cases, if_holds,
}
use lisp_dos.Pmm.{alloc_page, bitmap_test}
use lisp_dos.Pmm.Inv.{IsValid}
use lisp_dos.Pmm.AllocPage.{Took, alloc_page_lem}
use lisp_dos.Heap.{Heap, round_up, fresh_block, small_block, kmalloc}

-- The memory manager's state is valid, the current page starts where a page does, and the offset is in
-- it and a multiple of 8.
pub record IsHeap (h : Heap) : Type 0 where
  pub valid_pmm : IsValid h.pmm
  pub page_aligned : (page : ℕ) → h.current_page ≡ some page → page % 4096 ≡ 0
  pub offset_le : h.current_page_offset ≤ 4096
  pub offset_aligned : h.current_page_offset % 8 ≡ 0

-- A block at `p` of at least `size` bytes, aligned to 8: behind the blocks handed out before on the
-- same page, with the memory manager as it was, or at the start of a page that was free, and then just
-- that page is taken.
pub record IsBlock (h : Heap) (size p : ℕ) (after : Heap) : Type 0 where
  pub page : ℕ
  pub current : after.current_page ≡ some page
  pub starts : page ≤ p
  pub ends : p + size ≤ page + after.current_page_offset
  pub aligned : p % 8 ≡ 0
  pub apart :
      ((h.current_page ≡ some page)
        × (page + h.current_page_offset ≤ p)
        × (after.bytes ≡ h.bytes)
        × (after.pmm ≡ h.pmm))
      ⊎ ((p ≡ page) × ((q : ℕ) × Took h.pmm q (page, after.pmm)))
  pub valid : IsHeap after

pub Allocated : Heap → ℕ → Option ℕ × Heap → Type 0
Allocated h size (none, after) =
    ((after.pmm ≡ h.pmm) × ((q : ℕ) → q < h.pmm.highest_page → bitmap_test h.pmm q ≡ true))
    ⊎ Took h.pmm 0 (0, after.pmm)
Allocated h size (some p, after) = IsBlock h size p after

fresh_block-Allocated :
    (h : Heap) (size up : ℕ)
    → IsHeap h
    → size ≤ up
    → up ≤ 4096
    → up % 8 ≡ 0
    → Allocated h size (fresh_block h up)
unfolding fresh_block Allocated
fresh_block-Allocated h size up v le fits al = elim (alloc_page_lem h.pmm v.valid_pmm) [
  | inr (failed, all) ↦ rw failed (inl (refl, λ q hi. all q (omega arith) (omega arith)))
  | inl (q, took) ↦ elim (Bool-cases ((alloc_page h.pmm).0 == 0)) [
    | inl z ↦
        let zero_page : q ≡ 0 = omega (arith, took.address, eqb→eq _ 0 z) in
        rw z (
          inr (
            subst (λ x. Took h.pmm 0 (x, (alloc_page h.pmm).1)) (eqb→eq _ 0 z)
              (subst (λ k. Took h.pmm k (alloc_page h.pmm)) zero_page took)))
    | inr nz ↦ rw nz (record {
      page = (alloc_page h.pmm).0;
      current = refl;
      starts = omega arith;
      ends = omega arith;
      aligned = omega (arith, took.address);
      apart = inr (refl, (q, took));
      valid = record {
        valid_pmm = took.valid;
        page_aligned = λ page e.
            let same : page ≡ (alloc_page h.pmm).0 = cc in omega (arith, same, took.address);
        offset_le = fits;
        offset_aligned = al;
      };
    })
  ]
]

small_block-Allocated :
    (h : Heap) (size up : ℕ)
    → IsHeap h
    → size ≤ up
    → up ≤ 4096
    → up % 8 ≡ 0
    → Allocated h size (small_block h up)
unfolding small_block Allocated
small_block-Allocated h size up v le fits al =
    let fresh = fresh_block-Allocated h size up v le fits al in
    elim h.current_page
        as (λ c.
          h.current_page ≡ c
          → Allocated h size (elim c as (λ x. Option ℕ × Heap) [
            | none ↦ fresh_block h up
            | some page ↦ if ltb 4096 (h.current_page_offset + up) then fresh_block h up else (
              some (page + h.current_page_offset),
              record h { current_page_offset = h.current_page_offset + up },
            )
          ])) [
            | none ↦ λ c. fresh
            | some page ↦ λ c.
                if_holds (Allocated h size) (ltb 4096 (h.current_page_offset + up)) (λ e. fresh)
                  λ e. record {
                    page = page;
                    current = c;
                    starts = omega arith;
                    ends = omega arith;
                    aligned = omega (arith, v.offset_aligned, v.page_aligned page c);
                    apart = inl (c, omega arith, refl, refl);
                    valid = record {
                      valid_pmm = v.valid_pmm;
                      page_aligned = v.page_aligned;
                      offset_le = ground arith;
                      offset_aligned = omega (arith, v.offset_aligned);
                    };
                  }
          ]
      refl

-- From a well formed heap, `kmalloc` of 1 to 4096 bytes returns a block that is aligned to 8 and lies
-- in the current page behind every block handed out on it before, with the memory manager as it was,
-- or at the start of a page that was free, and then just that page is taken. It returns the null
-- pointer only when every page is in use, or when the page that it is given is page 0, which is then
-- taken and lost.
pub kmalloc_lem :
    (h : Heap) (size : ℕ) → IsHeap h → 0 < size → size ≤ 4096 → Allocated h size (kmalloc h size)
unfolding kmalloc round_up
kmalloc_lem h size v pos le =
    let up = round_up size in
    let bounds : (size ≤ up) × (up ≤ 4096) × (up % 8 ≡ 0) =
      (omega arith, omega arith, omega arith) in
    let small : ltb 4096 up ≡ false = ground (arith, bounds.1) in
    let some_size : (size == 0) ≡ false = ne→eqb size 0 (omega arith) in
    rw (some_size, small)
      (small_block-Allocated h size up v (omega arith) (omega arith) (omega arith))
