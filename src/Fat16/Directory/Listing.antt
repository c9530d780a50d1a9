-- ===== src/Fat16/Directory/Listing.antt =====
-- `fat16_dir` of src/kernel/fat16.c: what it prints.
use lisp_dos.Base.{
  le32, ℕ, zero, suc, ◌+◌, ◌/◌, ◌%◌, ◌^◌, ◌<◌, ◌≡◌, ◌≢◌, if_holds, subst, refl, sym, ap, ◌∙◌,
  append_assoc, ne→eqb, ◌⊎◌, inl, inr, Bool, true, false, not, ◌&&◌, some, List, [], ◌∷◌, ◌++◌,
  arith, ◌==◌, if◌then◌else◌, Bool-cases, Memory, codes,
}
use native.Mathlib.Nat.{pow-succ'}
use lisp_dos.Base.Decimal.{
  AreDigits, IsDecimal, read_decimal, read_decimal-append, AreDigits-append, read_decimal-nonempty,
}
use lisp_dos.Ata.{Disk}
use lisp_dos.Fat16.Volume.{Volume}
use lisp_dos.Fat16.Names.{printed_name, format_fat_name}
use lisp_dos.Fat16.Directory.{
  entry, attributes, is_directory, file_size, root_sector, Scan, stop, more, hit, matches,
  scan_sector, find_entry, lookup_file,
}
use lisp_dos.Fat16.Directory.Search.{Found, find_entry_lem}

-- `while (sz > 0) { b[bi++] = (sz % 10) + '0'; sz /= 10; }`, from the last digit to the first; a
-- size has at most 10.
unfoldable pub size_digits : (left sz : ℕ) → List ℕ
size_digits zero sz = []
size_digits (suc left) sz =
    let higher = size_digits left (sz / 10) in
    if sz == 0 then [] else higher ++ ((48 + sz % 10) ∷ [])

unfoldable pub size_text : ℕ → List ℕ
unfolding size_digits
size_text sz = if sz == 0 then codes "0" else size_digits 10 sz

-- The line of an entry.
unfoldable pub listed : Memory → List ℕ
unfolding size_text
listed e =
    printed_name e
    ++ (if is_directory e
        then codes "\t<DIR>\n"
        else codes "\t<ARQUIVO>\t" ++ size_text (file_size e) ++ codes " bytes\n")

-- The lines of the sixteen entries of a sector, and whether the end mark was met.
unfoldable pub list_sector : Memory → (left i : ℕ) → Bool × List (List ℕ)
list_sector sector zero i = (false, [])
list_sector sector (suc n) i =
    let e = entry sector i in
    let rest = list_sector sector n (i + 1) in
    if e 0 == 0
    then (true, [])
    else if e 0 == 0xE5
    then rest
    else if attributes e == 0x0F
    then rest
    else (rest.0, listed e ∷ rest.1)

-- The loop over the sectors, with those that are left.
unfoldable pub list_sectors : Volume → Disk → (left sec : ℕ) → List (List ℕ)
list_sectors v d zero sec = []
list_sectors v d (suc n) sec =
    let (ended, lines) = list_sector (root_sector v d sec) 16 0 in
    let rest = list_sectors v d n (sec + 1) in if ended then lines else lines ++ rest

unfoldable flat : List (List ℕ) → List ℕ
flat [] = []
flat (line ∷ lines) = line ++ flat lines

unfoldable is_empty : List (List ℕ) → Bool
is_empty [] = true
is_empty (line ∷ lines) = false

unfoldable pub fat16_dir : Volume → Disk → List ℕ
unfolding list_sectors flat is_empty
fat16_dir v d =
    let lines = list_sectors v d v.root_dir_size 0 in
    codes "\n Pasta do HD (FAT16):\n\n"
    ++ flat lines
    ++ (if is_empty lines then codes "Nenhum arquivo encontrado no HD.\n" else [])
    ++ codes "\n"

pub Has : List ℕ → List (List ℕ) → Type 0
Has line [] = ⊥
Has line (l ∷ lines) = (line ≡ l) ⊎ Has line lines

Has-left : (line : List ℕ) (a b : List (List ℕ)) → Has line a → Has line (a ++ b)
unfolding Has
Has-left line [] b h = absurd h
Has-left line (l ∷ a) b h = elim h [ inl e ↦ inl e | inr t ↦ inr (Has-left line a b t) ]

Has-right : (line : List ℕ) (a b : List (List ℕ)) → Has line b → Has line (a ++ b)
unfolding Has
Has-right line [] b h = h
Has-right line (l ∷ a) b h = inr (Has-right line a b h)

module _ (sector target : Memory) where
  -- A sector without a hit or an end mark goes on in the listing too.
  list_sector-more :
      (n i : ℕ) → scan_sector sector target n i ≡ more → (list_sector sector n i).0 ≡ false
  unfolding scan_sector list_sector
  list_sector-more zero i e = refl
  list_sector-more (suc n) i e = ground (arith, list_sector-more n (i + 1))

  list_sector-hit :
      (n i k : ℕ)
      → scan_sector sector target n i ≡ hit k
      → (attributes (entry sector k) == 0x0F) ≡ false
      → Has (listed (entry sector k)) (list_sector sector n i).1
  unfolding scan_sector list_sector Has
  list_sector-hit zero i k e long = absurd (cc)
  list_sector-hit (suc n) i k e long =
      let at : Memory = entry sector i in
      let wanted = matches at target && not (is_directory at) in
      elim (Bool-cases (at 0 == 0)) [
        | inl a ↦ absurd (let q = rw a at e in cc)
        | inr a ↦ elim (Bool-cases (at 0 == 0xE5)) [
          | inl b ↦ rw (a, b) (list_sector-hit n (i + 1) k (rw (a, b) at e) long)
          | inr b ↦ elim (Bool-cases wanted) [
            | inl c ↦
                let q : hit i ≡ hit k = rw (a, b, c) at e in
                let same : k ≡ i = cc in
                let short : (attributes at == 0x0F) ≡ false = rw same at long in
                rw (a, b, short, same) (inl refl)
            | inr c ↦
                let later = list_sector-hit n (i + 1) k (rw (a, b, c) at e) long in
                elim (Bool-cases (attributes at == 0x0F)) [
                  | inl f ↦ rw (a, b, f) later
                  | inr f ↦ rw (a, b, f) (inr later)
                ]
          ]
        ]
      ]

Scan-cases : (s : Scan) → (((s ≡ stop) ⊎ (s ≡ more)) ⊎ ((k : ℕ) × (s ≡ hit k)))
Scan-cases stop = inl (inl refl)
Scan-cases more = inl (inr refl)
Scan-cases (hit k) = inr (k, refl)

find_entry-listed :
    (v : Volume) (d : Disk) (target : Memory) (left first sec i : ℕ)
    → find_entry v d target left first ≡ some (sec, i)
    → (attributes (entry (root_sector v d sec) i) == 0x0F) ≡ false
    → Has (listed (entry (root_sector v d sec) i)) (list_sectors v d left first)
unfolding find_entry list_sectors
find_entry-listed v d target zero first sec i e long = absurd (cc)
find_entry-listed v d target (suc n) first sec i e long =
    let sector = root_sector v d first in
    elim (Scan-cases (scan_sector sector target 16 0)) [
      | inl (inl a) ↦ absurd (let q = rw (a, find_entry) at e in cc)
      | inl (inr a) ↦
          let goes_on = list_sector-more sector target 16 0 a in
          rw goes_on (
            Has-right _ (list_sector sector 16 0).1 _
              (find_entry-listed v d target n (first + 1) sec i (rw (a, find_entry) at e) long))
      | inr (k, a) ↦
          let q : some (first, k) ≡ some (sec, i) = rw (a, find_entry) at e in
          let sec_is : sec ≡ first = cc in
          let i_is : i ≡ k = cc in
          let lines = (list_sector sector 16 0).1 in
          let short : (attributes (entry sector k) == 0x0F) ≡ false = rw (sec_is, i_is) at long in
          let here : Has (listed (entry sector k)) lines =
            list_sector-hit sector target 16 0 k a short in
          elim (Bool-cases (list_sector sector 16 0).0) [
            | inl b ↦ rw (sec_is, i_is, b) here
            | inr b ↦ rw (sec_is, i_is, b) (Has-left _ lines _ here)
          ]
    ]

-- The text of a list of lines is what stands before a line of it, the line, and what stands behind.
flat-split :
    (line : List ℕ) (lines : List (List ℕ))
    → Has line lines
    → (a b : List ℕ) × (flat lines ≡ a ++ (line ++ b))
unfolding flat Has
flat-split line [] h = absurd h
flat-split line (l ∷ lines) (inl e) = ([], flat lines, rw e refl)
flat-split line (l ∷ lines) (inr later) =
    let (a, b, e) = flat-split line lines later in
    (l ++ a, b, ap (λ t. l ++ t) e ∙ sym (append_assoc l a (line ++ b)))

size_digits-AreDigits :
    (left sz : ℕ)
    → sz < 10 ^ left
    → AreDigits (size_digits left sz) × (read_decimal 0 (size_digits left sz) ≡ sz)
unfolding size_digits read_decimal
size_digits-AreDigits zero sz lt = (tt, omega arith)
size_digits-AreDigits (suc left) sz lt = elim (Bool-cases (sz == 0)) [
  | inl z ↦ rw z (tt, ground arith)
  | inr nz ↦
      let pow = pow-succ' 10 left in
      let (are, reads) = size_digits-AreDigits left (sz / 10) (omega (arith, pow)) in
      rw nz (
        AreDigits-append (48 + sz % 10) (size_digits left (sz / 10)) (omega arith) (omega arith)
            are,
        read_decimal-append 0 (48 + sz % 10) (size_digits left (sz / 10)) ∙ omega (arith, reads),
      )
]

size_text-IsDecimal : (sz : ℕ) → sz < 2 ^ 32 → IsDecimal (size_text sz) sz
unfolding size_text IsDecimal read_decimal
size_text-IsDecimal sz lt =
    if_holds (λ s. IsDecimal s sz) (sz == 0)
      (λ z. ((omega arith, omega arith, tt), ground arith, omega arith))
      λ nz.
        let (are, reads) = size_digits-AreDigits 10 sz (omega arith) in
        (are, reads, read_decimal-nonempty (size_digits 10 sz) sz reads (ground arith))

find_entry-regular :
    (v : Volume) (d : Disk) (target : Memory) (sec i : ℕ)
    → find_entry v d target v.root_dir_size 0 ≡ some (sec, i)
    → is_directory (entry (root_sector v d sec) i) ≡ false
find_entry-regular v d target sec i e =
    let found = subst (Found v d target 0 v.root_dir_size) e (find_entry_lem v d target) in
    let (lo, hi, i16, file, before) = found in file.regular

listed-regular :
    (e : Memory)
    → is_directory e ≡ false
    → listed e
      ≡ printed_name e ++ (codes "\t<ARQUIVO>\t" ++ (size_text (file_size e) ++ codes " bytes\n"))
unfolding listed
listed-regular e regular = rw (regular, listed) refl

-- A file that the search finds is listed, if its attributes are not those of a part of a long name
-- and its size is below 2 ^ 32: somewhere in what `fat16_dir` prints stands the name of its entry, the
-- mark of a file and its size in decimal digits.
pub lookup_file-listed :
    (v : Volume) (d : Disk) (filename : List ℕ) (sec i : ℕ)
    → lookup_file v d filename ≡ some (sec, i)
    → let e = entry (root_sector v d sec) i in
      e 11 ≢ 0x0F
      → le32 e 28 < 2 ^ 32
      → (before : List ℕ) × (after : List ℕ) × (number : List ℕ) × IsDecimal number (le32 e 28)
        × (fat16_dir v d
            ≡ before
              ++ ((printed_name e ++ (codes "\t<ARQUIVO>\t" ++ (number ++ codes " bytes\n")))
                  ++ after))
unfolding fat16_dir
lookup_file-listed v d filename sec i found short small =
    let e = entry (root_sector v d sec) i in
    let regular = find_entry-regular v d (format_fat_name filename) sec i found in
    let has =
      find_entry-listed v d (format_fat_name filename) v.root_dir_size 0 sec i found
        (ne→eqb _ _ short) in
    let lines = list_sectors v d v.root_dir_size 0 in
    let (a, b, split) = flat-split (listed e) lines has in
    let line : listed e
        ≡ printed_name e
          ++ (codes "\t<ARQUIVO>\t" ++ (size_text (file_size e) ++ codes " bytes\n")) =
      listed-regular e regular in
    let head = codes "\n Pasta do HD (FAT16):\n\n" in
    let message = if is_empty lines then codes "Nenhum arquivo encontrado no HD.\n" else [] in
    let tail = message ++ codes "\n" in
    (
      head ++ a,
      b ++ tail,
      size_text (file_size e),
      size_text-IsDecimal (file_size e) small,
      ap (λ t. head ++ t) (append_assoc (flat lines) message (codes "\n"))
          ∙ ap (λ t. head ++ (t ++ tail)) (split ∙ ap (λ l. a ++ (l ++ b)) line)
          ∙ ap (λ t. head ++ t) (append_assoc a _ tail ∙ ap (λ t. a ++ t) (append_assoc _ b tail))
          ∙ sym (append_assoc head a _),
    )
