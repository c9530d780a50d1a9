-- ===== src/Process/Pages.antt =====
-- What a page of a segment holds once the loader of src/kernel/process.c has filled it.
use lisp_dos.Base.{
  ℕ, ◌+◌, ◌-◌, ◌/◌, ◌%◌, ◌^◌, ◌≤◌, ◌<◌, ◌≡◌, refl, ap, ◌∙◌, ◌⊎◌, inl, inr, Bool, true, false, ◌&&◌,
  arith, ltb, leb, if◌then◌else◌, ltb→lt, Bool-cases, Memory, add64, sub64, if_holds,
}
use lisp_dos.Strings.{memset, memcpy}
use lisp_dos.Strings.Laws.{memset-at, memcpy_lem}
use lisp_dos.Process.Elf.{Phdr}
use lisp_dos.Process.Segments.{copy_part, fill_page}

-- The segment and the page do not wrap around the address space, the page is one of the segment's,
-- and the segment's part of the file lies outside the page.
pub record Fits (ph : Phdr) (file_buf paddr current : ℕ) : Type 0 where
  pub no_wrap : ph.p_vaddr + ph.p_filesz + 8192 ≤ 2 ^ 64
  pub page : current % 4096 ≡ 0
  pub page_small : current + 8192 ≤ 2 ^ 64
  pub of_segment : ph.p_vaddr / 4096 ≤ current / 4096
  pub in_memory : file_buf + ph.p_offset + ph.p_filesz < 2 ^ 64
  pub apart :
      (file_buf + ph.p_offset + ph.p_filesz ≤ paddr) ⊎ (paddr + 4096 ≤ file_buf + ph.p_offset)

if_same :
    {A : Type 0} (b : Bool) {x x' : A} (y : A)
    → (b ≡ true → x ≡ x')
    → (if b then x else y) ≡ (if b then x' else y)
if_same true y same = same refl
if_same false y same = refl

-- The byte of the file that belongs at `at`, if one does.
abbrev pub file_byte : Memory → Phdr → (file_buf at : ℕ) → ℕ
file_byte ram ph file_buf at =
    if leb ph.p_vaddr at && ltb at (ph.p_vaddr + ph.p_filesz)
    then ram (file_buf + ph.p_offset + (at - ph.p_vaddr))
    else 0

-- A part of a page that is cleared, and then filled from outside it.
in_page :
    (ram : Memory) (paddr first size src i : ℕ)
    → first + size ≤ 4096
    → (src + size ≤ paddr) ⊎ (paddr + 4096 ≤ src)
    → memcpy (memset ram paddr 0 4096) (paddr + first) src size i ≡ (
        if leb (paddr + first) i && ltb i (paddr + first + size)
        then ram (src + (i - (paddr + first)))
        else if leb paddr i && ltb i (paddr + 4096)
        then 0
        else ram i)
in_page ram paddr first size src i short apart = ground (
  arith,
  memcpy_lem (memset ram paddr 0 4096) (paddr + first) src size (omega arith) i,
  memset-at ram paddr 0 4096 i,
  memset-at ram paddr 0 4096 (src + (i - (paddr + first))),
)

-- The bytes from the segment's or the page's first to the segment's or the page's last are those
-- that the page has of the file.
page_bytes :
    (ram : Memory) (ph : Phdr) (file_buf paddr current i first size : ℕ)
    → current + first ≡ (if ltb current ph.p_vaddr then ph.p_vaddr else current)
    → current + first + size ≡ (
        if ltb (ph.p_vaddr + ph.p_filesz) (current + 4096)
        then ph.p_vaddr + ph.p_filesz
        else current + 4096)
    → ph.p_vaddr ≤ current + first
    → (if leb (paddr + first) i && ltb i (paddr + first + size)
        then ram (file_buf + (ph.p_offset + (current + first - ph.p_vaddr)) + (i - (paddr + first)))
        else if leb paddr i && ltb i (paddr + 4096)
        then 0
        else ram i)
      ≡ (if leb paddr i && ltb i (paddr + 4096)
          then file_byte ram ph file_buf (current + (i - paddr))
          else ram i)
page_bytes ram ph file_buf paddr current i first size place ends low =
    elim (Bool-cases (leb (paddr + first) i && ltb i (paddr + first + size))) [
      | inl e ↦
          let of_page : leb paddr i && ltb i (paddr + 4096) ≡ true = ground arith in
          let of_file : leb ph.p_vaddr (current + (i - paddr))
                && ltb (current + (i - paddr)) (ph.p_vaddr + ph.p_filesz)
              ≡ true =
            ground arith in
          let after : paddr + first ≤ i = ground arith in
          rw (e, of_page) (rw of_file (ap ram (omega arith)))
      | inr e ↦ elim (Bool-cases (leb paddr i && ltb i (paddr + 4096))) [
        | inl of_page ↦
            let of_file : leb ph.p_vaddr (current + (i - paddr))
                  && ltb (current + (i - paddr)) (ph.p_vaddr + ph.p_filesz)
                ≡ false =
              ground arith in
            rw (e, of_page) (rw of_file refl)
        | inr outside ↦ rw (e, outside) refl
      ]
    ]

module _ (ram : Memory) (ph : Phdr) (file_buf paddr current : ℕ)
    (fits : Fits ph file_buf paddr current) where
  abbrev first : ℕ
  first = if ltb current ph.p_vaddr then ph.p_vaddr % 4096 else 0

  abbrev size : ℕ
  size =
      if ltb (ph.p_vaddr + ph.p_filesz) (current + 4096)
      then ph.p_vaddr + ph.p_filesz - (current + first)
      else 4096 - first

  -- The first byte that is copied is the segment's first or the page's.
  first_lem :
      ltb ph.p_vaddr (current + 4096) ≡ true
      → (current + first ≡ (if ltb current ph.p_vaddr then ph.p_vaddr else current))
        × (first < 4096)
  first_lem h = ground (arith, fits.page, fits.of_segment)

  copy_part-memcpy : copy_part ram ph file_buf paddr current ≡ (
      if ltb ph.p_vaddr (current + 4096) && ltb current (ph.p_vaddr + ph.p_filesz)
      then memcpy ram
          (paddr + first)
          (file_buf + (ph.p_offset + (current + first - ph.p_vaddr)))
          size
      else ram)
  unfolding copy_part
  copy_part-memcpy =
      let e1 : add64 current 4096 ≡ current + 4096 = omega (arith, fits.page_small) in
      let e2 : add64 ph.p_vaddr ph.p_filesz ≡ ph.p_vaddr + ph.p_filesz =
        omega (arith, fits.no_wrap) in
      rw (e1, e2)
        (if_same (ltb ph.p_vaddr (current + 4096) && ltb current (ph.p_vaddr + ph.p_filesz)) ram
          λ h.
            let (place, small) = first_lem (ground arith) in
            let low : ph.p_vaddr ≤ current + first = ground arith in
            let high : current + first ≤ ph.p_vaddr + ph.p_filesz = ground arith in
            let e3 : add64 current first ≡ current + first = omega (arith, fits.page_small) in
            let e4 : sub64 (current + first) ph.p_vaddr ≡ current + first - ph.p_vaddr =
              omega (arith, fits.no_wrap, low, high) in
            let e5 : add64 ph.p_offset (current + first - ph.p_vaddr)
                ≡ ph.p_offset + (current + first - ph.p_vaddr) =
              omega (arith, fits.in_memory, low, high) in
            let e6 : add64 file_buf (ph.p_offset + (current + first - ph.p_vaddr))
                ≡ file_buf + (ph.p_offset + (current + first - ph.p_vaddr)) =
              omega (arith, fits.in_memory, low, high) in
            let e7 : add64 (current + first) (4096 - first) ≡ current + 4096 =
              omega (arith, fits.page_small, small) in
            let e8 : sub64 (ph.p_vaddr + ph.p_filesz) (current + first)
                ≡ ph.p_vaddr + ph.p_filesz - (current + first) =
              omega (arith, fits.no_wrap, low, high) in
            rw e3 (rw (e4, e7, e8) (rw (e5) (rw e6))))

  abbrev cleared : Memory
  cleared = memset ram paddr 0 4096

  extent :
      ltb ph.p_vaddr (current + 4096) && ltb current (ph.p_vaddr + ph.p_filesz) ≡ true
      → (current + first + size ≡ (
          if ltb (ph.p_vaddr + ph.p_filesz) (current + 4096)
          then ph.p_vaddr + ph.p_filesz
          else current + 4096))
        × (first + size ≤ 4096)
        × (ph.p_vaddr ≤ current + first)
  extent h =
      let (place, small) = first_lem (ground arith) in
      let low : ph.p_vaddr ≤ current + first = ground arith in
      let high : current + first ≤ ph.p_vaddr + ph.p_filesz = ground arith in
      if_holds
        (λ (size : ℕ).
          (current + first + size ≡ (
            if ltb (ph.p_vaddr + ph.p_filesz) (current + 4096)
            then ph.p_vaddr + ph.p_filesz
            else current + 4096))
          × (first + size ≤ 4096)
          × (ph.p_vaddr ≤ current + first))
        (ltb (ph.p_vaddr + ph.p_filesz) (current + 4096))
        (λ inside. (
          ground arith,
          omega (arith, ltb→lt (ph.p_vaddr + ph.p_filesz) (current + 4096) inside),
          low,
        ))
        λ beyond. (ground arith, omega arith, low)

  filled :
      (i : ℕ)
      → ltb ph.p_vaddr (current + 4096) && ltb current (ph.p_vaddr + ph.p_filesz) ≡ true
      → memcpy cleared
          (paddr + first)
          (file_buf + (ph.p_offset + (current + first - ph.p_vaddr)))
          size
          i
        ≡ (if leb paddr i && ltb i (paddr + 4096)
            then file_byte ram ph file_buf (current + (i - paddr))
            else ram i)
  filled i h =
      let (ends, short, low) = extent h in
      let (place, small) = first_lem (ground arith) in
      let high_end : current + first + size ≤ ph.p_vaddr + ph.p_filesz = rw ends (ground arith) in
      let bytes =
        in_page ram paddr first size (file_buf + (ph.p_offset + (current + first - ph.p_vaddr))) i
          short
          (elim fits.apart [
            | inl le ↦ inl (omega (arith, high_end))
            | inr le ↦ inr (omega arith)
          ]) in
      bytes ∙ page_bytes ram ph file_buf paddr current i first size place ends low

  unfilled :
      (i : ℕ)
      → ltb ph.p_vaddr (current + 4096) && ltb current (ph.p_vaddr + ph.p_filesz) ≡ false
      → cleared i ≡ (
          if leb paddr i && ltb i (paddr + 4096)
          then file_byte ram ph file_buf (current + (i - paddr))
          else ram i)
  unfilled i h = memset-at ram paddr 0 4096 i ∙ ground arith

-- Where the segment and the page do not wrap around and the file does not lie in the page, the page
-- that the loader fills for the address `current` holds, at each of its bytes, the byte of the file
-- that the segment has there, or 0 where it has none; every other byte of memory is as before.
pub fill_page_lem :
    (ram : Memory) (ph : Phdr) (file_buf paddr current i : ℕ)
    → Fits ph file_buf paddr current
    → fill_page ram ph file_buf paddr current i ≡ (
        if leb paddr i && ltb i (paddr + 4096)
        then file_byte ram ph file_buf (current + (i - paddr))
        else ram i)
unfolding fill_page
fill_page_lem ram ph file_buf paddr current i fits =
    let as_memcpy = copy_part-memcpy (memset ram paddr 0 4096) ph file_buf paddr current fits in
    ap (λ (m : Memory). m i) as_memcpy
    ∙ (elim (Bool-cases
        (ltb ph.p_vaddr (current + 4096) && ltb current (ph.p_vaddr + ph.p_filesz))) [
          | inl e ↦ rw e (filled ram ph file_buf paddr current fits i e)
          | inr e ↦ rw e (unfilled ram ph file_buf paddr current fits i e)
        ])
