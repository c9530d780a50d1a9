-- ===== src/Vmm/Maps.antt =====
-- `vmm_map_page` of src/kernel/vmm.c against the walk that the processor does.
use lisp_dos.Base.{
  ℕ, ◌+◌, ◌*◌, ◌/◌, ◌%◌, ◌≤◌, ◌<◌, bit_or, ◌≡◌, refl, Bool, true, List, [], ◌∷◌, arith, Memory,
  update, update_self, update_ne,
}
use lisp_dos.Base.Bits.{bit_or_flags, bit_or_one}
use lisp_dos.Pmm.Inv.{IsValid}
use lisp_dos.Vmm.{Vm, frame, pml4_idx, pdpt_idx, pd_idx, pt_idx, slot, vmm_map_page}
use lisp_dos.Vmm.Walk.{UpperWritable, UpperWritable-same, MayAccess, entry1, check_page_iff}
use lisp_dos.Vmm.Descend.{IsTable, Sound, Leads, Below, Descends, descend, descend_lem}

abbrev pub levels : ℕ → List ℕ
levels vaddr = pml4_idx vaddr ∷ pdpt_idx vaddr ∷ pd_idx vaddr ∷ []

-- The entry in the last table.
page_entry :
    (paddr flags : ℕ)
    → flags < 4096
    → bit_or (bit_or (frame paddr) flags) 1 ≡ frame paddr + flags / 2 * 2 + 1
page_entry paddr flags lt =
    rw (bit_or_flags (paddr / 4096) flags lt)
      (omega (arith, bit_or_one (paddr / 4096 * 4096 + flags)))

module _ (words : Memory) (map vaddr leaf entry : ℕ) where
  -- A way to the last table and its entry are a way to the page.
  Leads-MayAccess :
      (write : Bool)
      → Leads words map (levels vaddr) leaf
      → words (slot leaf (pt_idx vaddr)) ≡ entry
      → (entry % 2 ≡ 1) × (entry / 4 % 2 ≡ 1)
      → (write ≡ true → entry / 2 % 2 ≡ 1)
      → MayAccess words map vaddr write
  unfolding Leads
  Leads-MayAccess write ((a4, w4), ((a3, w3), ((a2, w2), at_leaf))) here allows writes =
      let last : entry1 words map vaddr ≡ entry = rw at_leaf here in
      record {
        level4 = a4;
        level3 = a3;
        level2 = a2;
        level1 = rw last allows;
        writable = λ t. (w4, w3, w2, rw last (writes t));
      }

-- `vmm_map_page` on a valid state with three free pages, where the tables that are present on the
-- way to `vaddr` are writable and open to user code and are different pages in use, maps the page of `vaddr` to
-- that of `paddr`: afterwards the processor lets user code access every address of the page, and
-- write to it if the flags say so, all four levels being writable then.
pub vmm_map_page-MayAccess :
    (v : Vm) (map vaddr paddr flags : ℕ)
    → IsValid v.pmm
    → 3 * 4096 ≤ v.pmm.free_memory
    → IsTable v map
    → Sound v (λ _. ⊥) map (levels vaddr)
    → flags < 4096
    → flags / 4 % 2 ≡ 1
    → let words = (vmm_map_page v map vaddr paddr flags).words in
      (frame (entry1 words map vaddr) ≡ frame paddr)
      × ((addr : ℕ) (write : Bool)
          → vaddr / 4096 ≡ addr / 4096
          → (write ≡ true → flags / 2 % 2 ≡ 1)
          → MayAccess words map addr write)
unfolding vmm_map_page descend Leads Below
vmm_map_page-MayAccess v map vaddr paddr flags valid room map_is sound small user =
    let d : Descends v (λ _. ⊥) map (levels vaddr) (descend v map (levels vaddr)) =
      descend_lem (levels vaddr) v (λ _. ⊥) map (omega arith, (omega arith, (omega arith, tt)))
        valid (omega arith) map_is (λ s b. absurd b) sound in
    let (leaf, v3) = descend v map (levels vaddr) in
    let at = slot leaf (pt_idx vaddr) in
    let entry = bit_or (bit_or (frame paddr) flags) 1 in
    let leads : Leads (update v3.words at entry) map (levels vaddr) leaf =
      d.leads _ λ a off. update_ne v3.words entry at a (λ q. off (omega (arith, d.aligned))) in
    let here : update v3.words at entry at ≡ entry = update_self v3.words entry at in
    let is = page_entry paddr flags small in
    let words = update v3.words at entry in
    let (a4, (a3, (a2, at_leaf))) = leads in
    let upper : (addr : ℕ) → vaddr / 4096 ≡ addr / 4096 → UpperWritable words map addr =
      λ addr same.
        UpperWritable-same words map vaddr addr same
          (record { upper4 = λ p. a4.1; upper3 = λ p q. a3.1; upper2 = λ p q r. a2.1 }) in
    let last : entry1 words map vaddr ≡ entry = rw at_leaf here in
    (
      omega (arith, last, is),
      λ addr write same writes.
          let mapped : MayAccess words map vaddr write =
            Leads-MayAccess words map vaddr leaf entry write leads here
              (omega (arith, is), omega (arith, is)) (λ t. omega (arith, is, writes t)) in
          (check_page_iff words map vaddr addr write same (λ t. upper addr same)).0
            ((check_page_iff words map vaddr vaddr write refl (λ t. upper vaddr refl)).1 mapped),
    )
