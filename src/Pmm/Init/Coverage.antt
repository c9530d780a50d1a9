-- ===== src/Pmm/Init/Coverage.antt =====
-- Which pages `pmm_init` marks free.
use lisp_dos.Base.{
  ℕ, zero, suc, ◌+◌, ◌-◌, ◌*◌, ◌/◌, ◌%◌, ◌^◌, ◌≤◌, ◌<◌, ◌≡◌, refl, ◌∙◌, ◌≢◌, ◌⊎◌, sub64, inl, inr,
  Bool, true, false, not, ◌&&◌, ◌||◌, some, List, [], ◌∷◌, arith, ltb, leb, ◌==◌, sym,
  if◌then◌else◌, Bool-cases, Memory, update, add64, each_below, each_of, each_below_lem,
}
use lisp_dos.Pmm.{Pmm, page_size, bitmap_clear, bitmap_test, test_bit}
use lisp_dos.Pmm.Bitmap.{IsBytes, test-clear, bitmap_clear-IsBytes}
use lisp_dos.Pmm.Inv.{test_ext}
use lisp_dos.Pmm.Init.{
  filled, Entry, highest_address, bitmap_size, place, fill, clear_entry, rounds, clear_entries,
  ready, pmm_init,
}

-- The pages that the last loop of `pmm_init` frees for an entry: from that of its first byte on, as
-- many as its length takes, rounded up.
abbrev pub covers : Entry → ℕ → Bool
covers e p =
    e.usable
    && (leb (e.base / page_size) p
        && ltb p (e.base / page_size + (e.length + (page_size - 1)) / page_size))

abbrev pub covered : List Entry → ℕ → Bool
covered [] p = false
covered (e ∷ es) p = covers e p || covered es p

-- No entry reaches past the end of the address space.
abbrev pub Fits : List Entry → Type 0
Fits [] = Unit {0}
Fits (e ∷ es) = (e.base + e.length + page_size ≤ 2 ^ 64) × Fits es

clear_entry-IsBytes : (s : Pmm) (base n j : ℕ) → IsBytes s → IsBytes (clear_entry s base n j)
unfolding clear_entry
clear_entry-IsBytes s base zero j v = v
clear_entry-IsBytes s base (suc n) j v =
    let page = add64 base j / page_size in
    let t = bitmap_clear s page in
    clear_entry-IsBytes (record t { free_memory = add64 t.free_memory page_size }) base n
      (j + page_size) (bitmap_clear-IsBytes s page v)

test-clear_entry :
    (s : Pmm) (base n j q : ℕ)
    → IsBytes s
    → base + j + n * page_size ≤ 2 ^ 64
    → bitmap_test (clear_entry s base n j) q ≡ (
        not (leb ((base + j) / page_size) q && ltb q ((base + j) / page_size + n))
        && bitmap_test s q)
unfolding clear_entry
test-clear_entry s base zero j q v fits = ground arith
test-clear_entry s base (suc n) j q v fits =
    let page = add64 base j / page_size in
    let t = bitmap_clear s page in
    let u : Pmm = record t { free_memory = add64 t.free_memory page_size } in
    ground (
      arith,
      test-clear_entry u base n (j + page_size) q (bitmap_clear-IsBytes s page v) (omega arith),
      test_ext t u q refl,
      test-clear s page q v,
    )

test-clear_entries :
    (s : Pmm) (es : List Entry) (q : ℕ)
    → IsBytes s
    → Fits es
    → bitmap_test (clear_entries s es) q ≡ (not (covered es q) && bitmap_test s q)
unfolding clear_entries
test-clear_entries s [] q v fits = refl
test-clear_entries s (e ∷ es) q v fits = elim (Bool-cases e.usable) [
  | inl usable ↦
      let t = clear_entry s e.base (rounds e.length) 0 in
      rw usable (
        ground (
          arith,
          test-clear_entries t es q (clear_entry-IsBytes s e.base (rounds e.length) 0 v) fits.1,
          test-clear_entry s e.base (rounds e.length) 0 q v (omega (arith, fits.0)),
        ))
  | inr other ↦ rw other (test-clear_entries s es q v fits.1)
]

fill-eq : (m : Memory) (n i q : ℕ) → fill m n i q ≡ (if leb i q && ltb q (i + n) then 0xFF else m q)
unfolding fill
fill-eq m zero i q = ground arith
fill-eq m (suc n) i q = ground (arith, fill-eq (update m i 0xFF) n (i + 1) q)

full_table : each_below 8 (test_bit 0xFF) ≡ true
unfolding each_of test_bit
full_table = refl

fill-IsBytes : (m : Memory) (n i q : ℕ) → m q < 256 → fill m n i q < 256
fill-IsBytes m n i q h = ground (arith, fill-eq m n i q)

place-Fits : (es : List Entry) (size : ℕ) → Fits es → Fits (place es size).1
unfolding place
place-Fits [] size fits = tt
place-Fits (e ∷ es) size fits = elim (Bool-cases (e.usable && leb size e.length)) [
  | inl here ↦ rw (here, place) (ground arith, fits.1)
  | inr other ↦ rw (other, place) (fits.0, place-Fits es size fits.1)
]

-- The entries `es'` are `es` but for the first usable one of at least `size` bytes: it started at
-- `at`, and its first `size` bytes are taken off.
pub Gives : (size at : ℕ) → List Entry → List Entry → Type 0
Gives size at (e ∷ es) (e' ∷ es') =
    ((e.usable ≡ true)
      × (size ≤ e.length)
      × (at ≡ e.base)
      × (e' ≡ record { base = e.base + size; length = e.length - size; usable = true })
      × (es' ≡ es))
    ⊎ (((e.usable ≡ false) ⊎ (e.length < size)) × (e' ≡ e) × Gives size at es es')
Gives size at [] es' = ⊥
Gives size at (e ∷ es) [] = ⊥

-- `end` is where the last usable entry ends, or 0 without one.
abbrev pub AllBelow : List Entry → ℕ → Type 0
AllBelow [] end = Unit {0}
AllBelow (e ∷ es) end = ((e.usable ≡ true) → e.base + e.length ≤ end) × AllBelow es end

abbrev pub Reaches : List Entry → ℕ → Type 0
Reaches [] end = ⊥
Reaches (e ∷ es) end = ((e.usable ≡ true) × (e.base + e.length ≡ end)) ⊎ Reaches es end

abbrev pub IsEnd : List Entry → ℕ → Type 0
IsEnd es end = AllBelow es end × ((end ≡ 0) ⊎ Reaches es end)

highest_address-IsEnd :
    (es : List Entry) (top : ℕ)
    → Fits es
    → let end = highest_address es top in
      (top ≤ end) × AllBelow es end × ((end ≡ top) ⊎ Reaches es end)
unfolding highest_address
highest_address-IsEnd [] top fits = (omega arith, tt, inl refl)
highest_address-IsEnd (e ∷ es) top fits =
    let here = add64 e.base e.length in
    let here_is : here ≡ e.base + e.length = omega (arith, fits.0) in
    elim (Bool-cases (e.usable && ltb top here)) [
      | inl higher ↦
          let (le, below, reach) = highest_address-IsEnd es here fits.1 in
          rw higher (
            ground arith,
            ((λ usable. omega (arith, here_is)), below),
            elim reach [
              | inl same ↦ inr (inl (ground arith, sym here_is ∙ sym same))
              | inr later ↦ inr (inr later)
            ],
          )
      | inr lower ↦
          let (le, below, reach) = highest_address-IsEnd es top fits.1 in
          rw lower (
            le,
            ((λ usable. ground (arith, here_is)), below),
            elim reach [ inl same ↦ inl same | inr later ↦ inr (inr later) ],
          )
    ]

-- The bitmap has a byte for each eight pages, and at least one.
abbrev pub IsSize : (pages size : ℕ) → Type 0
IsSize pages size = ((8 ≤ pages) × (size ≡ pages / 8)) ⊎ ((pages < 8) × (size ≡ 1))

bitmap_size-IsSize : (pages : ℕ) → IsSize pages (bitmap_size pages)
unfolding bitmap_size
bitmap_size-IsSize pages = elim (Bool-cases (pages / 8 == 0)) [
  | inl small ↦ rw small (inr (ground arith, refl))
  | inr large ↦ rw large (inl (ground arith, refl))
]

place-Gives :
    (es : List Entry) (size at : ℕ)
    → Fits es
    → (place es size).0 ≡ some at
    → Gives size at es (place es size).1
unfolding place Gives
place-Gives [] size at fits e = cc
place-Gives (f ∷ es) size at fits e = elim (Bool-cases (f.usable && leb size f.length)) [
  | inl here ↦
      let start : some f.base ≡ some at = rw here at e in
      let usable : f.usable ≡ true = ground arith in
      let le : size ≤ f.length = ground arith in
      let base_is : add64 f.base size ≡ f.base + size = omega (arith, fits.0, le) in
      let length_is : sub64 f.length size ≡ f.length - size = omega (arith, fits.0, le) in
      rw here (inl (usable, le, cc, rw (base_is, length_is, usable) refl, refl))
  | inr other ↦
      let short : (f.usable ≡ false) ⊎ (f.length < size) = elim (Bool-cases f.usable) [
        | inr no_use ↦ inl no_use
        | inl usable ↦ inr (ground arith)
      ] in
      rw other (inr (short, refl, place-Gives es size at fits.1 (rw other at e)))
]

-- The memory map that the boot loader hands over is made of whole pages.
abbrev pub IsAligned : List Entry → Type 0
IsAligned [] = Unit {0}
IsAligned (e ∷ es) = (e.base % page_size ≡ 0) × (e.length % page_size ≡ 0) × IsAligned es

place-tail :
    (es : List Entry) (size at : ℕ)
    → IsAligned es
    → Fits es
    → size % page_size ≢ 0
    → (place es size).0 ≡ some at
    → (covered (place es size).1 ((at + size) / page_size) ≡ true) × (at % page_size ≡ 0)
unfolding place
place-tail [] size at aligned fits part e = cc
place-tail (f ∷ es) size at aligned fits part e =
    elim (Bool-cases (f.usable && leb size f.length)) [
      | inl here ↦ ground arith
      | inr other ↦
          let (inside, start) = place-tail es size at aligned.2 fits.1 part (ground arith) in
          rw (other, place) (ground arith, start)
    ]

-- What a successful call has computed.
pmm_init-ready :
    (phys : Memory) (hhdm : ℕ) (es entries : List Entry) (s : Pmm) (at : ℕ)
    → pmm_init phys (some hhdm) (some es) ≡ ready s at entries
    → let top = highest_address es 0 / page_size in
      ((place es (bitmap_size top)).0 ≡ some at)
      × ((place es (bitmap_size top)).1 ≡ entries)
      × (s ≡ clear_entries (filled phys top at) entries)
unfolding pmm_init
pmm_init-ready phys hhdm es entries s at e = ground arith

clear_entry-highest :
    (s : Pmm) (base n j : ℕ) → (clear_entry s base n j).highest_page ≡ s.highest_page
unfolding clear_entry bitmap_clear
clear_entry-highest s base zero j = refl
clear_entry-highest s base (suc n) j =
    let t = bitmap_clear s (add64 base j / page_size) in
    clear_entry-highest (record t { free_memory = add64 t.free_memory page_size }) base n
      (j + page_size)

clear_entries-highest :
    (s : Pmm) (es : List Entry) → (clear_entries s es).highest_page ≡ s.highest_page
unfolding clear_entries
clear_entries-highest s [] = refl
clear_entries-highest s (e ∷ es) = elim (Bool-cases e.usable) [
  | inl usable ↦
      let t = clear_entry s e.base (rounds e.length) 0 in
      rw usable (clear_entries-highest t es ∙ clear_entry-highest s e.base (rounds e.length) 0)
  | inr other ↦ rw other (clear_entries-highest s es)
]

test-filled :
    (phys : Memory) (top at p : ℕ)
    → p / 8 < bitmap_size top
    → bitmap_test (filled phys top at) p ≡ true
unfolding filled bitmap_test
test-filled phys top at p h = ground (
  arith,
  fill-eq (λ i. phys (at + i)) (bitmap_size top) 0 (p / 8),
  each_below_lem 8 (test_bit 0xFF) (p % 8) full_table (omega arith),
)

filled-IsBytes :
    (phys : Memory) (top at : ℕ) → ((i : ℕ) → phys i < 256) → IsBytes (filled phys top at)
unfolding filled
filled-IsBytes phys top at bytes i =
    fill-IsBytes (λ k. phys (at + k)) (bitmap_size top) 0 i (bytes (at + i))

module _ (phys : Memory) (hhdm : ℕ) (es entries : List Entry) (s : Pmm) (at : ℕ)
    (bytes : (i : ℕ) → phys i < 256) (fits : Fits es)
    (e : pmm_init phys (some hhdm) (some es) ≡ ready s at entries) where
  abbrev top : ℕ
  top = highest_address es 0 / page_size

  test-ready :
      (p : ℕ) → bitmap_test s p ≡ (not (covered entries p) && bitmap_test (filled phys top at) p)
  test-ready p =
      let (found, is, cleared) = pmm_init-ready phys hhdm es entries s at e in
      rw cleared (
        test-clear_entries (filled phys top at) entries p (filled-IsBytes phys top at bytes)
          (rw (← is) (place-Fits es (bitmap_size top) fits)))

  highest-ready : s.highest_page ≡ top
  unfolding filled
  highest-ready =
      let (found, is, cleared) = pmm_init-ready phys hhdm es entries s at e in
      rw cleared (clear_entries-highest (filled phys top at) entries)

-- Where `pmm_init` succeeds: the pages are those below the end of the last usable entry of the map, and the bitmap has a byte for
-- each eight of them, rounded down but at least one. It lies at the start of the first usable entry of the map that is long enough for it, the
-- entries are then those of the map but for that one, which starts behind the bitmap, and a page
-- that the bitmap has a bit for is marked free exactly if it is one of the pages of the usable
-- entries: from the page of an entry's base on, as many as its length takes, rounded up. The
-- entries must not reach past the end of the address space.
pub pmm_init_lem :
    (phys : Memory) (hhdm : ℕ) (es entries : List Entry) (s : Pmm) (at p : ℕ)
    → ((i : ℕ) → phys i < 256)
    → Fits es
    → pmm_init phys (some hhdm) (some es) ≡ ready s at entries
    → p / 8 < bitmap_size s.highest_page
    → (end : ℕ) × IsEnd es end
      × (s.highest_page ≡ end / 4096)
      × IsSize s.highest_page (bitmap_size s.highest_page)
      × Gives (bitmap_size s.highest_page) at es entries
      × (bitmap_test s p ≡ not (covered entries p))
pmm_init_lem phys hhdm es entries s at p bytes fits e h =
    let same = highest-ready phys hhdm es entries s at bytes fits e in
    let (found, is, cleared) = pmm_init-ready phys hhdm es entries s at e in
    let (le, below, reach) = highest_address-IsEnd es 0 fits in
    (
      highest_address es 0,
      (below, reach),
      same,
      bitmap_size-IsSize s.highest_page,
      rw (same, ← is)
          (place-Gives es (bitmap_size (highest_address es 0 / page_size)) at fits found),
      ground (
        arith,
        test-ready phys hhdm es entries s at bytes fits e p,
        test-filled phys (highest_address es 0 / page_size) at p (rw same at h),
      ),
    )

-- With a map of whole pages, if the size of the bitmap is not a multiple of the page size, then
-- `pmm_init` marks as free the page that holds the last byte of the bitmap itself.
pub bitmap_page_free :
    (phys : Memory) (hhdm : ℕ) (es entries : List Entry) (s : Pmm) (at : ℕ)
    → ((i : ℕ) → phys i < 256)
    → Fits es
    → IsAligned es
    → pmm_init phys (some hhdm) (some es) ≡ ready s at entries
    → bitmap_size s.highest_page % page_size ≢ 0
    → bitmap_test s ((at + bitmap_size s.highest_page - 1) / page_size) ≡ false
bitmap_page_free phys hhdm es entries s at bytes fits aligned e part =
    let size = bitmap_size s.highest_page in
    let same = highest-ready phys hhdm es entries s at bytes fits e in
    let (found, is, cleared) = pmm_init-ready phys hhdm es entries s at e in
    let (inside, start) = place-tail es size at aligned fits part (rw same found) in
    let page : (at + size - 1) / page_size ≡ (at + size) / page_size = omega arith in
    let own : covered entries ((at + size) / page_size) ≡ true = rw (← is, ← same) inside in
    rw page (test-ready phys hhdm es entries s at bytes fits e _ ∙ ground arith)
