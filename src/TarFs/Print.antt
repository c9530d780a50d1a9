-- ===== src/TarFs/Print.antt =====
-- What `tarfs_dir` and `tarfs_type` of src/kernel/tarfs.c print, apart from their fixed messages.
use lisp_dos.Base.{
  ℕ, zero, suc, ◌+◌, ◌/◌, ◌^◌, ◌≤◌, ◌<◌, ◌≡◌, refl, Option, none, some, List, [], ◌∷◌, ◌++◌, arith,
  ltb, ◌==◌, if◌then◌else◌, Memory, slice,
}
use lisp_dos.TarFs.{Ramdisk, header_size, next_header, find}
use lisp_dos.TarFs.Walk.{Nonzero, Finds, here, find_lem}

-- The loop of `tarfs_dir`: the headers whose names it prints. The type flag is at 156.
unfoldable pub tarfs_dir : (fuel : ℕ) → Ramdisk → ℕ → Option (List ℕ)
tarfs_dir zero d offset = none
tarfs_dir (suc fuel) d offset =
    let rest = tarfs_dir fuel d (next_header d offset) in
    if ltb offset d.size
    then (if d.base offset == 0 then some [] else elim rest [
      | none ↦ none
      | some shown ↦ some (if d.base (offset + 156) == 53 then shown else offset ∷ shown)
    ])
    else some []

-- `while (*filename == ' ') filename++`
unfoldable pub skip_spaces : List ℕ → List ℕ
skip_spaces [] = []
skip_spaces (c ∷ name) = let rest = skip_spaces name in if c == 32 then rest else c ∷ name

-- `for (i = 0; i < size; i++) if (file_data[i] != '\r') vga_putchar(file_data[i])`
unfoldable pub type_loop : Memory → (at left : ℕ) → List ℕ
type_loop m at zero = []
type_loop m at (suc n) =
    let rest = type_loop m (at + 1) n in if m at == 13 then rest else m at ∷ rest

-- `some none` where the message says that there is no such file.
unfoldable pub tarfs_type : (fuel : ℕ) → Ramdisk → List ℕ → Option (Option (List ℕ))
tarfs_type fuel d filename = elim (find fuel d (skip_spaces filename) 0) [
  | none ↦ none
  | some none ↦ some none
  | some (some h) ↦ some (some (type_loop d.base (h + 512) (header_size d h) ++ (10 ∷ [])))
]

-- The characters of a text that are not carriage returns.
without_returns : List ℕ → List ℕ
without_returns [] = []
without_returns (c ∷ s) = let rest = without_returns s in if c == 13 then rest else c ∷ rest

type_loop-slice : (m : Memory) (at n : ℕ) → type_loop m at n ≡ without_returns (slice m at n)
unfolding type_loop without_returns slice
type_loop-slice m at zero = refl
type_loop-slice m at (suc n) = rw (type_loop-slice m (at + 1) n)

pub shown_text : Ramdisk → Option ℕ → Option (List ℕ)
unfolding without_returns
shown_text d none = none
shown_text d (some h) =
    some (without_returns (slice d.base (h + 512) (header_size d h)) ++ (10 ∷ []))

-- In an archive of at most 2 ^ 62 bytes and with fuel for every header that fits it, `tarfs_type`
-- prints the bytes of the first file of the name, leading spaces dropped, without the carriage
-- returns and with a newline at the end, or says that there is none.
pub tarfs_type_lem :
    (fuel : ℕ) (d : Ramdisk) (filename : List ℕ)
    → Nonzero (skip_spaces filename)
    → d.size ≤ 2 ^ 62
    → (d.size + 511) / 512 < fuel
    → (r : Option ℕ) × Finds d (skip_spaces filename) 0 r
      × (tarfs_type fuel d filename ≡ some (shown_text d r))
unfolding shown_text tarfs_type
tarfs_type_lem fuel d filename nz small enough =
    let name = skip_spaces filename in
    let (r, found, finds) = find_lem d name fuel 0 0 nz small (omega arith) here in
    elim r
        as (λ r.
          find fuel d name 0 ≡ some r
          → Finds d name 0 r
          → (s : Option ℕ) × Finds d name 0 s
            × (tarfs_type fuel d filename ≡ some (shown_text d s))) [
              | none ↦ λ e f. (none, f, rw (e, tarfs_type) refl)
              | some h ↦ λ e f. (
                some h,
                f,
                rw (e, tarfs_type, type_loop-slice d.base (h + 512) (header_size d h)),
              )
            ]
      found finds
