-- ===== src/Vmm/Descend.antt =====
-- The way of `vmm_map_page` of src/kernel/vmm.c down the tables: `next_table` once for each level
-- above the last.
use lisp_dos.Base.{
  ℕ, ◌+◌, ◌*◌, ◌/◌, ◌%◌, ◌≤◌, ◌<◌, bit_or, ◌≡◌, refl, sym, ◌∙◌, ◌≢◌, ◌⊎◌, inl, inr, true, false,
  List, [], ◌∷◌, arith, Bool-cases, Memory, update, update_self, update_ne, length,
}
use lisp_dos.Base.Bits.{bit_or_entry}
use lisp_dos.Pmm.{bitmap_test, alloc_page}
use lisp_dos.Pmm.Inv.{IsFree, IsValid}
use lisp_dos.Vmm.{Vm, is_present, frame, slot, zero_page, next_table}
use lisp_dos.Vmm.Walk.{Allows}
use lisp_dos.Vmm.Room.{alloc_page_room}

-- A page that starts at `table` and is in use.
pub record IsTable (v : Vm) (table : ℕ) : Type 0 where
  pub aligned : frame table ≡ table
  pub in_use : bitmap_test v.pmm (table / 4096) ≡ true

unfoldable pub descend : Vm → (table : ℕ) → List ℕ → ℕ × Vm
descend v table [] = (table, v)
descend v table (i ∷ is) = let (t, v1) = next_table v (slot table i) in descend v1 t is

-- Present, writable and open to user code.
abbrev pub Opens : ℕ → Type 0
Opens e = Allows e × (e / 2 % 2 ≡ 1)

-- The entries that are present on the way down from `table` are writable, open to user code and lead
-- to tables other than those before, `Before`.
unfoldable pub Sound : Vm → (Before : ℕ → Type 0) → (table : ℕ) → List ℕ → Type 0
Sound v Before table [] = Unit
Sound v Before table (i ∷ is) =
    is_present (v.words (slot table i)) ≡ true
    → let t = frame (v.words (slot table i)) in
      Opens (v.words (slot table i))
      × IsTable v t
      × (table ≢ t)
      × ((s : ℕ) → Before s → s ≢ t)
      × Sound v (λ s. (s ≡ table) ⊎ Before s) t is

-- The way down from `table` is writable and open to user code, and ends at `leaf`.
unfoldable pub Leads : Memory → (table : ℕ) → List ℕ → (leaf : ℕ) → Type 0
Leads words table [] leaf = table ≡ leaf
Leads words table (i ∷ is) leaf =
    Opens (words (slot table i)) × Leads words (frame (words (slot table i))) is leaf

-- What `descend` gives: a table of its own to which the way leads, also after changes of that table.
pub record Descends (v : Vm) (Before : ℕ → Type 0) (table : ℕ) (is : List ℕ) (r : ℕ × Vm)
    : Type 0 where
  pub aligned : frame r.0 ≡ r.0
  pub apart : (s : ℕ) → Before s → s ≢ r.0
  pub kept : (s a : ℕ) → Before s → frame a ≡ s → r.1.words a ≡ v.words a
  pub leads :
      (words : Memory)
      → ((a : ℕ) → frame a ≢ r.0 → words a ≡ r.1.words a)
      → Leads words table is r.0

module _ (v : Vm) (at : ℕ) where
  next_table-present : is_present (v.words at) ≡ true → next_table v at ≡ (frame (v.words at), v)
  unfolding next_table
  next_table-present e = rw e

  -- A new table: its page was free, is in use now, and is cleared.
  record Made (p : ℕ) (r : ℕ × Vm) : Type 0 where
    pub was_free : IsFree v.pmm p
    pub address : r.0 ≡ p * 4096
    pub in_use : bitmap_test r.1.pmm p ≡ true
    pub still : (q : ℕ) → bitmap_test v.pmm q ≡ true → bitmap_test r.1.pmm q ≡ true
    pub valid : IsValid r.1.pmm
    pub room : r.1.pmm.free_memory + 4096 ≡ v.pmm.free_memory
    pub entry : r.1.words at ≡ p * 4096 + 7
    pub clear : (a : ℕ) → a / 4096 ≡ p → at ≢ a → r.1.words a ≡ 0
    pub others : (a : ℕ) → a / 4096 ≢ p → at ≢ a → r.1.words a ≡ v.words a

  next_table-Made :
      is_present (v.words at) ≡ false
      → IsValid v.pmm
      → 4096 ≤ v.pmm.free_memory
      → (p : ℕ) × Made p (next_table v at)
  unfolding next_table zero_page
  next_table-Made e valid room =
      let (p, took) = alloc_page_room v.pmm valid room in
      let (phys, pmm) = alloc_page v.pmm in
      let zeroed = zero_page v.words phys in
      let flags = bit_or (bit_or (bit_or phys 1) 2) 4 in
      let entry_is : update zeroed at flags at ≡ p * 4096 + 7 =
        update_self zeroed flags at ∙ rw took.address (bit_or_entry p) in
      (
        p,
        rw e (record {
          was_free = took.was_free;
          address = omega (arith, entry_is);
          in_use = took.taken p ∙ ground arith;
          still = λ q used. took.taken q ∙ ground arith;
          valid = took.valid;
          room = took.counter;
          entry = entry_is;
          clear = λ a on ne. update_ne zeroed flags at a ne ∙ ground (arith, took.address);
          others = λ a off ne. update_ne zeroed flags at a ne ∙ ground (arith, took.address);
        }),
      )

  -- A new table is none of those before, which stay in use.
  module _ (p : ℕ) (r : ℕ × Vm) (m : Made p r) where
    Made-IsTable : IsTable r.1 r.0
    Made-IsTable = record {
      aligned = omega (arith, m.address);
      in_use = let page : r.0 / 4096 ≡ p = omega (arith, m.address) in rw page m.in_use;
    }

    Made-still : (s : ℕ) → IsTable v s → IsTable r.1 s
    Made-still s s_is = record { aligned = s_is.aligned; in_use = m.still (s / 4096) s_is.in_use }

    Made-apart : (s : ℕ) → IsTable v s → r.0 ≢ s
    Made-apart s s_is e =
        let page : s / 4096 ≡ p = omega (arith, m.address, e) in
        let used : bitmap_test v.pmm p ≡ true = rw page at (s_is.in_use) in
        let free = m.was_free in cc

module _ (v : Vm) (Before : ℕ → Type 0) (table i : ℕ) (is : List ℕ) where
  -- The entry is there: the tables stay as they are.
  descend-present :
      is_present (v.words (slot table i)) ≡ true
      → i < 512
      → frame table ≡ table
      → Opens (v.words (slot table i))
      → Descends v
          (λ s. (s ≡ table) ⊎ Before s)
          (frame (v.words (slot table i)))
          is
          (descend v (frame (v.words (slot table i))) is)
      → Descends v Before table (i ∷ is) (descend v table (i ∷ is))
  unfolding descend Leads
  descend-present e lt aligned allows d = rw (next_table-present v (slot table i) e) (record {
    aligned = d.aligned;
    apart = λ s b. d.apart s (inr b);
    kept = λ s a b on. d.kept s a (inr b) on;
    leads = λ words same.
        let on_table : frame (slot table i) ≡ table = omega arith in
        let here : words (slot table i) ≡ v.words (slot table i) =
          same (slot table i) (λ on. d.apart table (inl refl) (sym on_table ∙ on))
          ∙ d.kept table (slot table i) (inl refl) (omega arith) in
        rw here (allows, d.leads words same);
  })

  -- The entry is not there: a new table is entered.
  descend-absent :
      (p : ℕ) (t : ℕ) (v1 : Vm)
      → next_table v (slot table i) ≡ (t, v1)
      → Made v (slot table i) p (t, v1)
      → i < 512
      → IsTable v table
      → ((s : ℕ) → Before s → IsTable v s × (table ≢ s))
      → Descends v1 (λ s. (s ≡ table) ⊎ Before s) t is (descend v1 t is)
      → Descends v Before table (i ∷ is) (descend v table (i ∷ is))
  unfolding descend Leads
  descend-absent p t v1 e m lt table_is before d = rw e (record {
    aligned = d.aligned;
    apart = λ s b. d.apart s (inr b);
    kept = λ s a b on.
        d.kept s a (inr b) on
        ∙ m.others a
            (λ q.
              let page : s / 4096 ≡ p = omega arith in
              let used : bitmap_test v.pmm p ≡ true = rw page at ((before s b).0.in_use) in cc)
            (λ q. (before s b).1 (omega arith));
    leads = λ words same.
        let on_table : frame (slot table i) ≡ table = omega arith in
        let here : words (slot table i) ≡ p * 4096 + 7 =
          same (slot table i) (λ on. d.apart table (inl refl) (sym on_table ∙ on))
          ∙ d.kept table (slot table i) (inl refl) (omega arith)
          ∙ m.entry in
        rw here (
          ((omega arith, omega arith), omega arith),
          (let back : (p * 4096 + 7) / 4096 * 4096 ≡ t = omega arith in
              rw back (d.leads words same)),
        );
  })

unfoldable pub Below : List ℕ → Type 0
Below [] = Unit
Below (i ∷ is) = (i < 512) × Below is

-- Below a cleared table no entry is present.
Sound-clear :
    (v1 : Vm) (Before : ℕ → Type 0) (t : ℕ) (is : List ℕ)
    → Below is
    → ((i : ℕ) → i < 512 → v1.words (slot t i) ≡ 0)
    → Sound v1 Before t is
unfolding Sound Below
Sound-clear v1 Before t [] below clear = tt
Sound-clear v1 Before t (i ∷ is) below clear = λ e. absurd (ground (arith, clear i below.0))

pub descend_lem :
    (is : List ℕ) (v : Vm) (Before : ℕ → Type 0) (table : ℕ)
    → Below is
    → IsValid v.pmm
    → length is * 4096 ≤ v.pmm.free_memory
    → IsTable v table
    → ((s : ℕ) → Before s → IsTable v s × (table ≢ s))
    → Sound v Before table is
    → Descends v Before table is (descend v table is)
unfolding descend Sound Below Leads
descend_lem [] v Before table below valid room table_is before sound = record {
  aligned = table_is.aligned;
  apart = λ s b e. (before s b).1 (sym e);
  kept = λ s a b on. refl;
  leads = λ words same. refl;
}
descend_lem (i ∷ is) v Before table below valid room table_is before sound =
    elim (Bool-cases (is_present (v.words (slot table i)))) [
      | inl e ↦
          let (allows, t_is, ne, off, rest) = sound e in
          descend-present v Before table i is e below.0 table_is.aligned allows (
            descend_lem is v _ _ below.1 valid (omega arith) t_is
              (λ s b. elim b [
                | inl q ↦ rw q (table_is, λ x. ne (sym x))
                | inr b' ↦ ((before s b').0, λ q. off s b' (sym q))
              ])
              rest)
      | inr e ↦
          let (p, m) = next_table-Made v (slot table i) e valid (omega arith) in
          let (t, v1) = next_table v (slot table i) in
          let was_free : (s : ℕ) → IsTable v s → t ≢ s = Made-apart v (slot table i) p _ m in
          let still : (s : ℕ) → IsTable v s → IsTable v1 s = Made-still v (slot table i) p _ m in
          descend-absent v Before table i is p t v1 refl m below.0 table_is before (
            descend_lem is v1 _ t below.1 m.valid (omega (arith, m.room))
              (Made-IsTable v (slot table i) p _ m)
              (λ s b. elim b [
                | inl q ↦
                    rw q (Made-still v _ p _ m table table_is, Made-apart v _ p _ m table table_is)
                | inr b' ↦ (still s (before s b').0, was_free s (before s b').0)
              ])
              (Sound-clear v1 _ t is below.1 λ j lt.
                m.clear (slot t j) (omega (arith, m.address))
                  (λ q. was_free table table_is (omega (arith, m.address, table_is.aligned)))))
    ]
