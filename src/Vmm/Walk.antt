-- ===== src/Vmm/Walk.antt =====
-- What the tests of one page say of an address: the walk through the tables that the processor does.
use lisp_dos.Base.{ℕ, ◌/◌, ◌%◌, ◌≡◌, sym, ◌∙◌, inl, inr, Bool, true, arith, Bool-cases, Memory}
use mathlib.Core.Logic.{◌↔◌}
use lisp_dos.Vmm.{frame, pml4_idx, pdpt_idx, pd_idx, pt_idx, slot, check_page}

-- The four entries that translate `addr`, from the top table down to the page.
module _ (words : Memory) (pml4 addr : ℕ) where
  abbrev pub entry4 : ℕ
  entry4 = words (slot pml4 (pml4_idx addr))

  abbrev pub entry3 : ℕ
  entry3 = words (slot (frame entry4) (pdpt_idx addr))

  abbrev pub entry2 : ℕ
  entry2 = words (slot (frame entry3) (pd_idx addr))

  abbrev pub entry1 : ℕ
  entry1 = words (slot (frame entry2) (pt_idx addr))

abbrev pub AllWritable : Memory → (pml4 addr : ℕ) → Type 0
AllWritable words pml4 addr =
    (entry4 words pml4 addr / 2 % 2 ≡ 1)
    × (entry3 words pml4 addr / 2 % 2 ≡ 1)
    × (entry2 words pml4 addr / 2 % 2 ≡ 1)
    × (entry1 words pml4 addr / 2 % 2 ≡ 1)

-- The tables above the last that are present on the way to `addr` are entered as writable, as
-- `vmm_map_page` enters them.
pub record UpperWritable (words : Memory) (pml4 addr : ℕ) : Type 0 where
  pub upper4 : entry4 words pml4 addr % 2 ≡ 1 → entry4 words pml4 addr / 2 % 2 ≡ 1
  pub upper3 :
      entry4 words pml4 addr % 2 ≡ 1
      → entry3 words pml4 addr % 2 ≡ 1
      → entry3 words pml4 addr / 2 % 2 ≡ 1
  pub upper2 :
      entry4 words pml4 addr % 2 ≡ 1
      → entry3 words pml4 addr % 2 ≡ 1
      → entry2 words pml4 addr % 2 ≡ 1
      → entry2 words pml4 addr / 2 % 2 ≡ 1

abbrev pub Allows : ℕ → Type 0
Allows e = (e % 2 ≡ 1) × (e / 4 % 2 ≡ 1)

-- User code may access `addr`, as the processor has it: every level is present and open to it, and
-- for a write all four levels are writable.
pub record MayAccess (words : Memory) (pml4 addr : ℕ) (write : Bool) : Type 0 where
  pub level4 : Allows (entry4 words pml4 addr)
  pub level3 : Allows (entry3 words pml4 addr)
  pub level2 : Allows (entry2 words pml4 addr)
  pub level1 : Allows (entry1 words pml4 addr)
  pub writable : write ≡ true → AllWritable words pml4 addr

module _ (words : Memory) (pml4 page : ℕ) (write : Bool) where
  check_page-MayAccess :
      (write ≡ true → UpperWritable words pml4 page)
      → check_page words pml4 page write ≡ true
      → MayAccess words pml4 page write
  unfolding check_page
  check_page-MayAccess upper h =
      let a4 : Allows (entry4 words pml4 page) = (ground arith, ground arith) in
      let a3 : Allows (entry3 words pml4 page) = (ground arith, ground arith) in
      let a2 : Allows (entry2 words pml4 page) = (ground arith, ground arith) in
      record {
        level4 = a4;
        level3 = a3;
        level2 = a2;
        level1 = (ground arith, ground arith);
        writable = λ w.
            let u = upper w in
            (u.upper4 a4.0, u.upper3 a4.0 a3.0, u.upper2 a4.0 a3.0 a2.0, ground arith);
      }

  MayAccess-check_page : MayAccess words pml4 page write → check_page words pml4 page write ≡ true
  unfolding check_page
  MayAccess-check_page m = elim (Bool-cases write) [
    | inl w ↦ let all = m.writable w in ground arith
    | inr r ↦ ground arith
  ]

-- The answer is the same for two addresses of one page.
module _ (words : Memory) (pml4 a b : ℕ) (write : Bool) (same : a / 4096 ≡ b / 4096) where
  idx_same :
      (pml4_idx a ≡ pml4_idx b)
      × (pdpt_idx a ≡ pdpt_idx b)
      × (pd_idx a ≡ pd_idx b)
      × (pt_idx a ≡ pt_idx b)
  idx_same = omega arith

  pub check_page_same : check_page words pml4 a write ≡ check_page words pml4 b write
  unfolding check_page
  check_page_same = let (p, q, r, s) = idx_same in rw (p, q, r, s)

pub UpperWritable-same :
    (words : Memory) (pml4 a b : ℕ)
    → a / 4096 ≡ b / 4096
    → UpperWritable words pml4 a
    → UpperWritable words pml4 b
UpperWritable-same words pml4 a b same u =
    let (p, q, r, s) = idx_same words pml4 a b true same in
    record {
      upper4 = rw p at (u.upper4);
      upper3 = rw (p, q) at (u.upper3);
      upper2 = rw (p, q, r) at (u.upper2);
    }

pub check_page_iff :
    (words : Memory) (pml4 page addr : ℕ) (write : Bool)
    → page / 4096 ≡ addr / 4096
    → (write ≡ true → UpperWritable words pml4 addr)
    → (check_page words pml4 page write ≡ true) ↔ MayAccess words pml4 addr write
check_page_iff words pml4 page addr write same upper = (
  λ h.
      check_page-MayAccess words pml4 addr write upper
        (sym (check_page_same words pml4 page addr write same) ∙ h),
  λ m.
      check_page_same words pml4 page addr write same
      ∙ MayAccess-check_page words pml4 addr write m,
)
