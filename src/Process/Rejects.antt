-- ===== src/Process/Rejects.antt =====
-- A file that the loader of src/kernel/process.c refuses before it makes an address space costs no
-- memory.
use lisp_dos.Base.{
  ℕ, zero, suc, ◌+◌, ◌*◌, ◌/◌, ◌^◌, ◌≤◌, ◌<◌, ◌≡◌, refl, ap, ◌∙◌, ◌≢◌, ◌⊎◌, inl, inr, Bool, true,
  false, not, ◌&&◌, ◌||◌, Option, some, List, arith, ltb, leb, le16, ◌%◌, Bool-cases, ◌==◌, tests,
  Memory, u32, add64, mul64,
}
use lisp_dos.TarFs.{Ramdisk}
use lisp_dos.Process.Segments.{set_pmm, from, Loader}
use lisp_dos.Process.Elf.{
  refusal, not_read, Refusal, not_found, no_memory, not_elf, bad_phdr, bad_entry, no_pagemap,
  bad_vaddr, no_page, no_stack, le64,
}
use lisp_dos.Ata.{Disk}
use lisp_dos.Pmm.AllocPages.{alloc_pages_lem, TookRun}
use lisp_dos.Fat16.Volume.{Volume}
use lisp_dos.Pmm.{alloc_pages, Pmm, bitmap_test, free_page}
use lisp_dos.Pmm.Inv.{IsValid}
use lisp_dos.Pmm.AllocPage.{free_page_lem}
use lisp_dos.Pmm.Runs.{in_run}
use lisp_dos.Pmm.Release.{alloc_pages-highest, free_page-highest}
use lisp_dos.Process.Exec.{
  choose_file, read_image, load_file, process_exec, give_back, returned, check_image, free_pages,
}

-- The same pages are free, and the manager's state is valid.
pub record SamePages (s t : Pmm) : Type 0 where
  pub valid : IsValid t
  pub tests : (q : ℕ) → bitmap_test t q ≡ bitmap_test s q
  pub counter : t.free_memory ≡ s.free_memory

-- The pages from `k` on are in use.
abbrev AllUsed : Pmm → ℕ → ℕ → Type 0
AllUsed s k n = (q : ℕ) → k ≤ q → q < k + n → bitmap_test s q ≡ true

page_address :
    (p : Pmm) (k i : ℕ)
    → IsValid p
    → k + i < p.highest_page
    → add64 (k * 4096) (mul64 i 4096) ≡ (k + i) * 4096
page_address p k i v lt = omega (arith, v.small)

free_pages_lem :
    (p : Pmm) (k left i : ℕ)
    → IsValid p
    → k + i + left ≤ p.highest_page
    → AllUsed p (k + i) left
    → let t = free_pages p (k * 4096) left i in
      IsValid t
      × ((q : ℕ) → bitmap_test t q ≡ (not (in_run (k + i) left q) && bitmap_test p q))
      × (t.free_memory ≡ p.free_memory + 4096 * left)
unfolding free_pages
free_pages_lem p k zero i v fits used = (v, (λ q. ground arith), omega arith)
free_pages_lem p k (suc left) i v fits used =
    let addr = add64 (k * 4096) (mul64 i 4096) in
    let is_addr : addr ≡ (k + i) * 4096 = page_address p k i v (omega arith) in
    let page : addr / 4096 ≡ k + i = omega (arith, is_addr) in
    let p1 = free_page p addr in
    let (v1, tests, counter, again) = free_page_lem p addr v (omega (arith, page)) in
    let high = free_page-highest p addr in
    let here : bitmap_test p (addr / 4096) ≡ true =
      rw page (used (k + i) (omega arith) (omega arith)) in
    let next : k + (i + 1) ≡ k + i + 1 = omega arith in
    let (v2, tests2, counter2) =
      free_pages_lem p1 k left (i + 1) v1 (omega (arith, high))
        (λ q lo hi. tests q ∙ ground (arith, page, used q (omega arith) (omega arith))) in
    (v2, (λ q. tests2 q ∙ ground (arith, tests q, page)), counter2 ∙ ground (arith, counter, here))

-- A run that is taken and given back.
module _ (s : Pmm) (count k : ℕ) (r : ℕ × Pmm) (v : IsValid s) (took : TookRun s count k r)
    (high : r.1.highest_page ≡ s.highest_page) where
  restored : SamePages s (free_pages r.1 r.0 count 0)
  restored =
      let used : AllUsed r.1 (k + 0) count = λ q lo hi. took.taken q ∙ ground arith in
      let (valid, tests, counter) =
        free_pages_lem r.1 k count 0 took.valid (omega (arith, took.below, high)) used in
      rw (took.address) (record {
        valid = valid;
        tests = λ q. tests q ∙ ground (arith, took.taken q, took.were_free q);
        counter = omega (arith, counter, took.counter);
      })

-- What is wrong with the header of a file of `file_size` bytes, by the offsets of its fields: the first
-- four bytes are not 7F 45 4C 46; or they are, and the program headers (56 bytes each, their offset at
-- byte 32 and their number at byte 56) do not start and end in the file; or they do, and the entry
-- point at byte 24 is not below 2 ^ 47.
abbrev pub Magic : Memory → Type 0
Magic file = (file 0 ≡ 0x7F) × (file 1 ≡ 0x45) × (file 2 ≡ 0x4C) × (file 3 ≡ 0x46)

abbrev pub headers_end : Memory → ℕ
headers_end file = (le64 file 32 + le16 file 56 * 56) % 2 ^ 64

abbrev pub Fails : Memory → ℕ → Refusal → Type 0
Fails file file_size not_elf = ¬ Magic file
Fails file file_size bad_phdr =
    Magic file × ((file_size ≤ le64 file 32) ⊎ (file_size < headers_end file))
Fails file file_size bad_entry =
    Magic file
    × (le64 file 32 < file_size)
    × (headers_end file ≤ file_size)
    × (2 ^ 47 ≤ le64 file 24)
Fails file file_size _ = ⊥

Magic-test :
    (file : Memory)
    → Magic file
    → (file 0 == 0x7F && file 1 == b'E' && file 2 == b'L' && file 3 == b'F') ≡ true
Magic-test file (a, b, c, d) = ground arith

no-Magic_test :
    (file : Memory)
    → ¬ Magic file
    → (file 0 == 0x7F && file 1 == b'E' && file 2 == b'L' && file 3 == b'F') ≡ false
no-Magic_test file none_of =
    elim (Bool-cases (file 0 == 0x7F && file 1 == b'E' && file 2 == b'L' && file 3 == b'F')) [
      | inl e ↦ absurd (none_of (ground arith, ground arith, ground arith, ground arith))
      | inr e ↦ e
    ]

Fails-refusal :
    (file : Memory) (file_size : ℕ) (why : Refusal)
    → Fails file file_size why
    → refusal file file_size ≡ some why
unfolding refusal
Fails-refusal file file_size not_elf none_of = rw (no-Magic_test file none_of) refl
Fails-refusal file file_size bad_phdr (magic, out) =
    let outside : (leb file_size (le64 file 32) || ltb file_size (headers_end file)) ≡ true =
      elim out [ inl a ↦ ground arith | inr b ↦ ground arith ] in
    rw (Magic-test file magic, outside) refl
Fails-refusal file file_size bad_entry (magic, starts, ends, high) =
    let inside : (leb file_size (le64 file 32) || ltb file_size (headers_end file)) ≡ false =
      ground arith in
    let above : leb (2 ^ 47) (le64 file 24) ≡ true = ground arith in
    rw (Magic-test file magic, inside, above) refl
Fails-refusal file file_size not_found never = absurd never
Fails-refusal file file_size no_memory never = absurd never
Fails-refusal file file_size not_read never = absurd never
Fails-refusal file file_size no_pagemap never = absurd never
Fails-refusal file file_size bad_vaddr never = absurd never
Fails-refusal file file_size no_page never = absurd never
Fails-refusal file file_size no_stack never = absurd never

-- Why the loader gives the file's pages back: the read failed, or the header is wrong.
abbrev pub Rejected : (file_size phys_buf bytes_read : ℕ) → Memory → Refusal → Type 0
Rejected file_size phys_buf bytes_read ram why =
    ((bytes_read == 0 || leb (2 ^ 31) bytes_read ≡ true) × (why ≡ not_read))
    ⊎ ((bytes_read == 0 || leb (2 ^ 31) bytes_read ≡ false)
        × Fails (from ram phys_buf) file_size why)

check_image-rejects :
    (phys_buf file_pages file_size kernel : ℕ) (args : Option (List ℕ)) (bytes_read : ℕ)
    (l : Loader) (why : Refusal)
    → Rejected file_size phys_buf bytes_read l.ram why
    → check_image phys_buf file_pages file_size kernel args bytes_read l
      ≡ returned why (give_back phys_buf file_pages l)
unfolding check_image
check_image-rejects phys_buf file_pages file_size kernel args bytes_read l why (inl (e, is)) =
    rw (e, is) refl
check_image-rejects phys_buf file_pages file_size kernel args bytes_read l why (inr (e, fails)) =
    rw (e, Fails-refusal (from l.ram phys_buf) file_size why fails, check_image) refl

module _ (v : Volume) (d : Disk) (r : Ramdisk) (fuel kernel : ℕ) (filename : List ℕ)
    (args : Option (List ℕ)) (l : Loader) (use_tarfs : Bool) (file_size : ℕ) where
  abbrev pages : ℕ
  pages = u32 (file_size + 4095) / 4096

  abbrev phys_buf : ℕ
  phys_buf = (alloc_pages l.vm.pmm pages).0

  abbrev taken : Pmm
  taken = (alloc_pages l.vm.pmm pages).1

  load_file-read :
      (bytes_read : ℕ) (ram : Memory)
      → phys_buf ≢ 0
      → read_image v d r fuel filename use_tarfs phys_buf l.ram ≡ some (bytes_read, ram)
      → load_file v d r fuel filename kernel use_tarfs file_size args l
        ≡ check_image phys_buf pages file_size kernel args bytes_read
            (record (set_pmm l taken) { ram = ram })
  unfolding load_file
  load_file-read bytes_read ram ok e =
      let nonzero : (phys_buf == 0) ≡ false = ground arith in rw (nonzero, e, load_file) refl

  -- `pmm_alloc_pages` took a run, or answered 0 and changed nothing.
  pages_taken :
      IsValid l.vm.pmm
      → 0 < file_size
      → file_size + 4095 < 2 ^ 32
      → ((k : ℕ) × TookRun l.vm.pmm pages k (alloc_pages l.vm.pmm pages))
        ⊎ (alloc_pages l.vm.pmm pages ≡ (0, l.vm.pmm))
  pages_taken valid pos small = elim (alloc_pages_lem l.vm.pmm pages valid (omega arith)) [
    | inl took ↦ inl took
    | inr (failed, _, _) ↦ inr failed
  ]

  load_file-rejects :
      (bytes_read : ℕ) (ram : Memory) (why : Refusal)
      → IsValid l.vm.pmm
      → 0 < file_size
      → file_size + 4095 < 2 ^ 32
      → phys_buf ≢ 0
      → read_image v d r fuel filename use_tarfs phys_buf l.ram ≡ some (bytes_read, ram)
      → Rejected file_size phys_buf bytes_read ram why
      → (l' : Loader) × (load_file v d r fuel filename kernel use_tarfs file_size args l
          ≡ returned why l')
        × SamePages l.vm.pmm l'.vm.pmm
        × (l'.vm.words ≡ l.vm.words)
  unfolding give_back
  load_file-rejects bytes_read ram why valid pos small ok e rejected =
      let after : Loader = record (set_pmm l taken) { ram = ram } in
      let runs =
        load_file-read bytes_read ram ok e
        ∙ check_image-rejects phys_buf pages file_size kernel args bytes_read after why rejected in
      let same : SamePages l.vm.pmm (free_pages taken phys_buf pages 0) =
        elim (pages_taken valid pos small) [
          | inl (k, took) ↦
              restored l.vm.pmm pages k (alloc_pages l.vm.pmm pages) valid took
                (alloc_pages-highest l.vm.pmm pages)
          | inr failed ↦ absurd (ok (ap (λ (a : ℕ × Pmm). a.0) failed))
        ] in
      (give_back phys_buf pages after, runs, same, refl)

-- A file of at least one byte and less than 4 GB, from a valid state of the memory manager: if the
-- run of pages for it is there and the read fails, or the header is wrong (no 7F 45 4C 46 at the start;
-- program headers that do not start and end in the file; an entry point from 2 ^ 47 on),
-- `process_exec` returns with the reason; the same pages are free as before, the counter too, and the
-- page tables are untouched.
pub process_exec-rejects :
    (v : Volume) (d : Disk) (r : Ramdisk) (fuel kernel : ℕ) (filename : List ℕ)
    (args : Option (List ℕ)) (l : Loader) (use_tarfs : Bool) (file_size bytes_read : ℕ)
    (ram : Memory) (why : Refusal)
    → let phys_buf = (alloc_pages l.vm.pmm (u32 (file_size + 4095) / 4096)).0 in
      choose_file v d r fuel filename ≡ some (use_tarfs, file_size)
      → IsValid l.vm.pmm
      → 0 < file_size
      → file_size + 4095 < 2 ^ 32
      → phys_buf ≢ 0
      → read_image v d r fuel filename use_tarfs phys_buf l.ram ≡ some (bytes_read, ram)
      → Rejected file_size phys_buf bytes_read ram why
      → (l' : Loader) × (process_exec v d r fuel filename kernel args l ≡ returned why l')
        × SamePages l.vm.pmm l'.vm.pmm
        × (l'.vm.words ≡ l.vm.words)
unfolding process_exec
process_exec-rejects v d r fuel kernel filename args l use_tarfs file_size bytes_read ram why chosen
      valid pos small ok e rejected =
    let nonzero : (file_size == 0) ≡ false = ground arith in
    rw (chosen, nonzero, process_exec)
      (load_file-rejects v d r fuel kernel filename args l use_tarfs file_size bytes_read ram why
        valid pos small ok e rejected)
