-- ===== src/Fat16/Names/RoundTrip.antt =====
-- A name that the directory listing shows is found again when it is typed.
use lisp_dos.Base.{
  ℕ, zero, suc, ◌+◌, ◌-◌, ◌≤◌, ◌<◌, ◌≡◌, ◌⊎◌, inl, inr, true, false, refl, ◌≢◌, not, ◌&&◌, List, [],
  ◌∷◌, ◌++◌, arith, ltb, leb, ◌==◌, if◌then◌else◌, Memory, update,
}
use mathlib.Core.Path.{ap₂}
use lisp_dos.Fat16.Names.{
  space, dot, upper, base_loop, skip_loop, ext_loop, extension, format_fat_name, printed_part,
  printed_name,
}

abbrev length : List ℕ → ℕ
length [] = 0
length (x ∷ xs) = suc (length xs)

abbrev char_at : List ℕ → ℕ → ℕ
char_at [] i = space
char_at (x ∷ xs) zero = x
char_at (x ∷ xs) (suc i) = char_at xs i

-- What a short name is spelled with: no null character, no blank, no dot and no lower-case letter.
abbrev pub IsPlain : List ℕ → Type 0
IsPlain [] = Unit {0}
IsPlain (c ∷ s) = (c ≢ 0) × (c ≢ space) × (c ≢ dot) × ((c < 97) ⊎ (122 < c)) × IsPlain s

-- The eleven characters of an entry with this base and this extension.
abbrev pub entry_name : List ℕ → List ℕ → Memory
entry_name base ext j = if ltb j 8 then char_at base j else char_at ext (j - 8)

char_at-cons :
    (c : ℕ) (s : List ℕ) (i : ℕ) → char_at (c ∷ s) i ≡ (if i == 0 then c else char_at s (i - 1))
char_at-cons c s zero = refl
char_at-cons c s (suc i) = ground arith

write : Memory → ℕ → List ℕ → Memory
write out j [] = out
write out j (c ∷ s) = write (update out j c) (j + 1) s

write-eq :
    (out : Memory) (j q : ℕ) (s : List ℕ)
    → write out j s q ≡ (if leb j q && ltb q (j + length s) then char_at s (q - j) else out q)
unfolding write
write-eq out j q [] = ground arith
write-eq out j q (c ∷ s) =
    ground (arith, write-eq (update out j c) (j + 1) q s, char_at-cons c s (q - j))

char_at-beyond : (s : List ℕ) (i : ℕ) → length s ≤ i → char_at s i ≡ space
char_at-beyond [] i h = refl
char_at-beyond (c ∷ s) zero h = absurd (omega arith)
char_at-beyond (c ∷ s) (suc i) h = char_at-beyond s i (omega arith)

-- The dot and the extension, where there is one.
abbrev pub suffix : List ℕ → List ℕ
suffix [] = []
suffix (c ∷ s) = dot ∷ c ∷ s

-- The same characters, some capital letters typed as small ones.
abbrev pub Typed : (typed s : List ℕ) → Type 0
Typed [] [] = Unit {0}
Typed (c' ∷ s') (c ∷ s) = ((c' ≡ c) ⊎ ((65 ≤ c) × (c ≤ 90) × (c' ≡ c + 32))) × Typed s' s
Typed _ _ = ⊥

Typed-self : (s : List ℕ) → Typed s s
Typed-self [] = tt
Typed-self (c ∷ s) = (inl refl, Typed-self s)

-- A typed character of a short name is no end of a loop, and becomes the character of the name.
typed_char :
    (c' c : ℕ)
    → ((c' ≡ c) ⊎ ((65 ≤ c) × (c ≤ 90) × (c' ≡ c + 32)))
    → c ≢ 0
    → c ≢ dot
    → ((c < 97) ⊎ (122 < c))
    → ((c' == 0) ≡ false) × ((c' == dot) ≡ false) × (upper c' ≡ c)
unfolding upper
typed_char c' c (inl same) nz nd (inl low) = (ground arith, ground arith, ground arith)
typed_char c' c (inl same) nz nd (inr high) = (ground arith, ground arith, ground arith)
typed_char c' c (inr small) nz nd plain = (ground arith, ground arith, ground arith)

base_loop-plain :
    (base' base rest : List ℕ) (j : ℕ) (out : Memory)
    → Typed base' base
    → IsPlain base
    → j + length base ≤ 8
    → base_loop (base' ++ suffix rest) j out ≡ (suffix rest, write out j base)
unfolding base_loop write
base_loop-plain [] [] [] j out typed plain fits = refl
base_loop-plain [] [] (c ∷ s) j out typed plain fits = refl
base_loop-plain [] (c ∷ s) rest j out typed plain fits = absurd typed
base_loop-plain (c ∷ s) [] rest j out typed plain fits = absurd typed
base_loop-plain (c' ∷ s') (c ∷ s) rest j out (first, typed) plain fits =
    let (no_end, no_dot, is) = typed_char c' c first plain.0 plain.2 plain.3 in
    let room : ltb j 8 ≡ true = ground arith in
    rw (no_end, no_dot, room, is)
      (base_loop-plain s' s rest (j + 1) (update out j c) typed plain.4 (omega arith))

ext_loop-plain :
    (ext' ext : List ℕ) (j : ℕ) (out : Memory)
    → Typed ext' ext
    → IsPlain ext
    → j + length ext ≤ 11
    → ext_loop ext' j out ≡ write out j ext
unfolding ext_loop write
ext_loop-plain [] [] j out typed plain fits = refl
ext_loop-plain [] (c ∷ s) j out typed plain fits = absurd typed
ext_loop-plain (c ∷ s) [] j out typed plain fits = absurd typed
ext_loop-plain (c' ∷ s') (c ∷ s) j out (first, typed) plain fits =
    let (no_end, no_dot, is) = typed_char c' c first plain.0 plain.2 plain.3 in
    let room : ltb j 11 ≡ true = ground arith in
    rw (no_end, room, is) (ext_loop-plain s' s (j + 1) (update out j c) typed plain.4 (omega arith))

printed_part-blank :
    (entry : Memory) (n p : ℕ)
    → ((i : ℕ) → i < n → entry (p + i) ≡ space)
    → printed_part entry n p ≡ []
unfolding printed_part
printed_part-blank entry zero p blank = refl
printed_part-blank entry (suc n) p blank =
    ground (arith, blank 0, printed_part-blank entry n (p + 1) λ i h. rest i h)
  where
    rest : (i : ℕ) → i < n → entry (p + 1 + i) ≡ space
    rest i h = ground (arith, blank (suc i))

printed_part-plain :
    (entry : Memory) (n p : ℕ) (s : List ℕ)
    → IsPlain s
    → length s ≤ n
    → ((i : ℕ) → i < n → entry (p + i) ≡ char_at s i)
    → printed_part entry n p ≡ s
unfolding printed_part
printed_part-plain entry n p [] plain fits same = printed_part-blank entry n p same
printed_part-plain entry zero p (c ∷ s) plain fits same = absurd (omega arith)
printed_part-plain entry (suc n) p (c ∷ s) plain fits same =
    ground (arith, same 0, printed_part-plain entry n (p + 1) s plain.4 (omega arith) rest)
  where
    rest : (i : ℕ) → i < n → entry (p + 1 + i) ≡ char_at s i
    rest i h = ground (arith, same (suc i))

extension-plain :
    (ext' ext : List ℕ) (out : Memory)
    → Typed ext' ext
    → IsPlain ext
    → length ext ≤ 3
    → extension (skip_loop (suffix ext')) out ≡ write out 8 ext
unfolding extension skip_loop write
extension-plain [] [] out typed plain fits = refl
extension-plain [] (c ∷ s) out typed plain fits = absurd typed
extension-plain (c ∷ s) [] out typed plain fits = absurd typed
extension-plain (c' ∷ s') (c ∷ s) out typed plain fits =
    ext_loop-plain (c' ∷ s') (c ∷ s) 8 out typed plain (omega arith)

-- The part of the listing that shows the extension.
printed_suffix :
    (entry : Memory) (ext : List ℕ)
    → IsPlain ext
    → entry 8 ≡ char_at ext 0
    → printed_part entry 3 8 ≡ ext
    → (if not (entry 8 == space) then dot ∷ printed_part entry 3 8 else []) ≡ suffix ext
printed_suffix entry [] plain first all = ground arith
printed_suffix entry (c ∷ s) plain first all = ground arith

module _ (base ext : List ℕ) (plain_base : IsPlain base) (plain_ext : IsPlain ext)
    (fits_base : length base ≤ 8) (fits_ext : length ext ≤ 3) where
  printed_name-plain : printed_name (entry_name base ext) ≡ base ++ suffix ext
  unfolding printed_name
  printed_name-plain =
      ap₂ ◌++◌
        (printed_part-plain (entry_name base ext) 8 0 base plain_base fits_base λ i h. ground arith)
        (printed_suffix (entry_name base ext) ext plain_ext refl
          (printed_part-plain (entry_name base ext) 3 8 ext plain_ext fits_ext λ i h. ground arith))

  format_plain :
      (base' ext' : List ℕ) (j : ℕ)
      → Typed base' base
      → Typed ext' ext
      → j < 11
      → format_fat_name (base' ++ suffix ext') j ≡ entry_name base ext j
  unfolding format_fat_name
  format_plain base' ext' j typed_base typed_ext h =
      rw
        (
          base_loop-plain base' base ext' 0 (λ i. space) typed_base plain_base (omega arith),
          extension-plain ext' ext (write (λ i. space) 0 base) typed_ext plain_ext fits_ext,
        )
        (ground (
          arith,
          write-eq (write (λ i. space) 0 base) 8 j ext,
          write-eq (λ i. space) 0 j base,
          char_at-beyond base j,
          char_at-beyond ext (j - 8),
        ))

-- For a directory entry whose name is at most eight plain characters and whose extension is at most
-- three (padded with blanks; plain is not the null character, a blank, a dot or a lower-case
-- letter), the name as `fat16_dir` prints it is turned back by `format_fat_name` into the eleven
-- characters of the entry; so is the name, a dot and the extension (no dot without one) with any
-- capital letters typed as small ones.
pub format-printed_name :
    (base ext base' ext' : List ℕ) (j : ℕ)
    → IsPlain base
    → IsPlain ext
    → length base ≤ 8
    → length ext ≤ 3
    → Typed base' base
    → Typed ext' ext
    → j < 11
    → (format_fat_name (printed_name (entry_name base ext)) j ≡ entry_name base ext j)
      × (format_fat_name (base' ++ suffix ext') j ≡ entry_name base ext j)
format-printed_name base ext base' ext' j pb pe fb fe tb te h = (
  rw (printed_name-plain base ext pb pe fb fe)
      (format_plain base ext pb pe fb fe base ext j (Typed-self base) (Typed-self ext) h),
  format_plain base ext pb pe fb fe base' ext' j tb te h,
)
