-- ===== src/TarFs.antt =====
-- The read-only volume of src/kernel/tarfs.c: a tar archive in memory, walked header by header.
pub mod Octal
pub mod Walk
pub mod Print
mod Tests
use lisp_dos.Base.{
  ℕ, zero, suc, ◌+◌, ◌-◌, ◌*◌, ◌/◌, Bool, false, ◌&&◌, Option, none, some, List, [], ◌∷◌, ltb, leb,
  ◌==◌, if◌then◌else◌, Memory, update, u32, u64, add64,
}

-- `ramdisk_base` as memory, and `ramdisk_size`; without a volume there is no `Ramdisk`.
pub record Ramdisk : Type 0 where
  pub base : Memory
  pub size : ℕ

-- `while (size-- > 0 && *str) { if (*str is '0' to '7') n = n * 8 + (*str - '0'); str++; }`
unfoldable pub octal_loop : Memory → (str size n : ℕ) → ℕ
octal_loop m str zero n = n
octal_loop m str (suc size) n =
    let digit = leb 48 (m str) && leb (m str) 55 in
    let rest = octal_loop m (str + 1) size (if digit then u64 (n * 8 + (m str - 48)) else n) in
    if m str == 0 then n else rest

unfoldable pub octal_to_int : Memory → (str size : ℕ) → ℕ
octal_to_int m str size = octal_loop m str size 0

-- `strcmp(s1, s2) == 0`, for a name in the archive and the string that is asked for. The walk
-- along the archive ends at the latest where the string asked for does.
unfoldable pub same_name : Memory → ℕ → List ℕ → Bool
same_name m s1 [] = m s1 == 0
same_name m s1 (c ∷ s2) =
    let rest = same_name m (s1 + 1) s2 in
    if m s1 == 0 then false else if m s1 == c then rest else false

-- The fields of `struct tar_header`: the name is at 0, the size at 124, of which 11 characters
-- are read.
unfoldable pub header_size : Ramdisk → ℕ → ℕ
header_size d offset = octal_to_int d.base (offset + 124) 11

-- `offset += 512 + (size + 511) / 512 * 512`
unfoldable pub next_header : Ramdisk → ℕ → ℕ
next_header d offset = add64 offset (512 + add64 (header_size d offset) 511 / 512 * 512)

-- The loop that looks a name up, as the offset of its header; the outer `none` is out of fuel.
unfoldable pub find : (fuel : ℕ) → Ramdisk → List ℕ → ℕ → Option (Option ℕ)
find zero d name offset = none
find (suc fuel) d name offset =
    let rest = find fuel d name (next_header d offset) in
    if ltb offset d.size
    then (if d.base offset == 0
        then some none
        else if same_name d.base offset name
        then some (some offset)
        else rest)
    else some none

-- `for (i = 0; i < size; i++) buffer[i] = file_data[i];`, from `i` on.
unfoldable pub copy_data : Memory → Memory → (data_at i n : ℕ) → Memory
copy_data m buffer data_at i zero = buffer
copy_data m buffer data_at i (suc n) =
    copy_data m (update buffer i (m (data_at + i))) data_at (i + 1) n

unfoldable pub tarfs_get_file_size : (fuel : ℕ) → Ramdisk → List ℕ → Option ℕ
tarfs_get_file_size fuel d name = elim (find fuel d name 0) [
  | none ↦ none
  | some none ↦ some 0
  | some (some offset) ↦ some (header_size d offset)
]

-- The value returned, an `int`, and the buffer.
unfoldable pub tarfs_read_file : (fuel : ℕ) → Ramdisk → List ℕ → Memory → Option (ℕ × Memory)
tarfs_read_file fuel d name buffer = elim (find fuel d name 0) [
  | none ↦ none
  | some none ↦ some (0, buffer)
  | some (some offset) ↦
      let size = header_size d offset in
      some (u32 size, copy_data d.base buffer (offset + 512) 0 size)
]
