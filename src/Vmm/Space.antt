-- ===== src/Vmm/Space.antt =====
-- The address spaces of src/kernel/vmm.c: a new top-level table, and giving all pages of one back.
use lisp_dos.Base.{
  ℕ, zero, suc, ◌+◌, ◌≤◌, ◌<◌, ◌≡◌, refl, sym, ap, ◌∙◌, ◌≢◌, ◌⊎◌, inl, inr, false, ◌&&◌, Option,
  none, some, arith, ltb, leb, ◌==◌, if◌then◌else◌, eqb→eq, ne→eqb, Bool-cases, Memory, update,
  update_self, update_ne,
}
use lisp_dos.Pmm.{Pmm, alloc_page, free_page}
use lisp_dos.Vmm.{Vm, is_present, frame, slot, zero_page}

-- `for (i = 256; i < 512; i++) pml4_virt[i] = kernel_pml4[i]`, with the rounds that are left
unfoldable pub copy_upper : Memory → (map kernel left i : ℕ) → Memory
copy_upper words map kernel zero i = words
copy_upper words map kernel (suc n) i =
    copy_upper (update words (slot map i) (words (slot kernel i))) map kernel n (i + 1)

-- `kernel` is the physical address of the kernel's table.
unfoldable pub vmm_new_pagemap : Vm → (kernel : ℕ) → Option ℕ × Vm
vmm_new_pagemap v kernel =
    let (phys, pmm) = alloc_page v.pmm in
    if phys == 0 then (none, record v { pmm = pmm }) else (
      some phys,
      record { pmm = pmm; words = copy_upper (zero_page v.words phys) phys kernel 256 256 },
    )

-- The loop over the entries of a table: `below` is what is done with the table or the page that a
-- present entry points to, before that is freed itself.
unfoldable pub free_entries : Memory → (below : ℕ → Pmm → Pmm) → (table left i : ℕ) → Pmm → Pmm
free_entries words below table zero i p = p
free_entries words below table (suc n) i p =
    let e = words (slot table i) in
    let freed = free_page (below (frame e) p) (frame e) in
    free_entries words below table n (i + 1) (if is_present e then freed else p)

unfoldable pub free_pt : Memory → ℕ → Pmm → Pmm
free_pt words pt = free_entries words (λ page p. p) pt 512 0

unfoldable pub free_pd : Memory → ℕ → Pmm → Pmm
free_pd words pd = free_entries words (free_pt words) pd 512 0

unfoldable pub free_pdpt : Memory → ℕ → Pmm → Pmm
free_pdpt words pdpt = free_entries words (free_pd words) pdpt 512 0

-- A null pointer frees nothing.
unfoldable pub vmm_free_pagemap : Vm → Option ℕ → Vm
vmm_free_pagemap v none = v
vmm_free_pagemap v (some map) = record v {
  pmm = free_page (free_entries v.words (free_pdpt v.words) map 256 0 v.pmm) map;
}

copy_upper-slot :
    (words : Memory) (map kernel left i j : ℕ)
    → (kernel + 4096 ≤ map) ⊎ (map + 4096 ≤ kernel)
    → i + left ≤ 512
    → j < 512
    → copy_upper words map kernel left i (slot map j)
      ≡ (if leb i j && ltb j (i + left) then words (slot kernel j) else words (slot map j))
unfolding copy_upper
copy_upper-slot words map kernel zero i j apart fits lt = ground arith
copy_upper-slot words map kernel (suc n) i j apart fits lt =
    let one = update words (slot map i) (words (slot kernel i)) in
    let later = copy_upper-slot one map kernel n (i + 1) j apart (omega arith) lt in
    let kept : one (slot kernel j) ≡ words (slot kernel j) =
      update_ne words (words (slot kernel i)) (slot map i) (slot kernel j) (omega arith) in
    elim (Bool-cases (i == j)) [
      | inl e ↦
          let same : slot map i ≡ slot map j = ap (slot map) (eqb→eq i j e) in
          let now : one (slot map j) ≡ words (slot kernel j) =
            ap one (sym same)
            ∙ update_self words (words (slot kernel i)) (slot map i)
            ∙ ap (λ x. words (slot kernel x)) (eqb→eq i j e) in
          ground (arith, later, now, kept)
      | inr e ↦
          let differ : i ≢ j = λ x. ground arith in
          let now : one (slot map j) ≡ words (slot map j) =
            update_ne words (words (slot kernel i)) (slot map i) (slot map j)
              (λ x. differ (omega arith)) in
          ground (arith, later, now, kept)
    ]

halves :
    (words : Memory) (map kernel i : ℕ)
    → (kernel + 4096 ≤ map) ⊎ (map + 4096 ≤ kernel)
    → i < 512
    → (if leb 256 i && ltb i (256 + 256)
        then zero_page words map (slot kernel i)
        else zero_page words map (slot map i))
      ≡ (if ltb i 256 then 0 else words (slot kernel i))
unfolding zero_page
halves words map kernel i apart lt = ground arith

-- Where the memory manager has a page other than that of the kernel's table, `vmm_new_pagemap`
-- returns a table on that page whose lower half is empty and whose upper half is the kernel's.
pub vmm_new_pagemap_lem :
    (v : Vm) (kernel i : ℕ)
    → 0 < (alloc_page v.pmm).0
    → (kernel + 4096 ≤ (alloc_page v.pmm).0) ⊎ ((alloc_page v.pmm).0 + 4096 ≤ kernel)
    → i < 512
    → let (map, after) = vmm_new_pagemap v kernel in
      (map ≡ some (alloc_page v.pmm).0)
      × (after.words (slot (alloc_page v.pmm).0 i)
          ≡ (if ltb i 256 then 0 else v.words (slot kernel i)))
unfolding vmm_new_pagemap
vmm_new_pagemap_lem v kernel i pos apart lt =
    let map = (alloc_page v.pmm).0 in
    let zeroed = zero_page v.words map in
    let some_page : (map == 0) ≡ false = ne→eqb map 0 (omega arith) in
    rw (some_page, vmm_new_pagemap)
      (
        refl,
        copy_upper-slot zeroed map kernel 256 256 i apart (omega arith) lt
            ∙ halves v.words map kernel i apart lt,
      )
