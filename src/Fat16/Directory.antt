-- ===== src/Fat16/Directory.antt =====
-- The root directory of src/kernel/fat16.c: the search that `fat16_read_file`,
-- `fat16_get_file_size` and `fat16_delete_file` share, the size of a file, and its deletion.
pub mod Search
pub mod Delete
pub mod Listing
use lisp_dos.Base.{
  ℕ, zero, suc, ◌+◌, ◌*◌, ◌/◌, ◌%◌, Bool, true, false, not, ◌&&◌, Option, none, some, List, ◌==◌,
  if◌then◌else◌, Memory, update, le16, le32,
}
use lisp_dos.Ata.{Disk, ata_read_sector, ata_write_sector}
use lisp_dos.Fat16.Volume.{Volume, free_chain}
use lisp_dos.Fat16.Names.{format_fat_name}

-- The bytes of `entries[i]`, and the fields of `struct fat16_dir_entry` that are read.
abbrev pub entry : Memory → ℕ → Memory
entry sector i o = sector (32 * i + o)

abbrev pub attributes : Memory → ℕ
attributes e = e 11

abbrev pub first_cluster : Memory → ℕ
first_cluster e = le16 e 26

abbrev pub file_size : Memory → ℕ
file_size e = le32 e 28

abbrev pub is_directory : Memory → Bool
is_directory e = attributes e / 16 % 2 == 1

-- `for (j = 0; j < 11; j++) if (c != target_name[j]) match = 0`
unfoldable pub match_loop : Memory → Memory → ℕ → ℕ → Bool → Bool
match_loop e target zero j match = match
match_loop e target (suc n) j match =
    match_loop e target n (j + 1) (if not (e j == target j) then false else match)

abbrev pub matches : Memory → Memory → Bool
matches e target = match_loop e target 11 0 true

-- How the loop over the sixteen entries of a sector ends: at the end mark of the directory, at a
-- file of the name, or behind the last entry.
pub data Scan : Type 0 where
  stop more : Scan
  hit : ℕ → Scan

unfoldable pub scan_sector : Memory → Memory → ℕ → ℕ → Scan
scan_sector sector target zero i = more
scan_sector sector target (suc n) i =
    let e = entry sector i in
    let rest = scan_sector sector target n (i + 1) in
    if e 0 == 0
    then stop
    else if e 0 == 0xE5
    then rest
    else if matches e target && not (is_directory e)
    then hit i
    else rest

-- The loop over the sectors, with those that are left; the sector and the index of the entry.
unfoldable pub find_entry : Volume → Disk → Memory → ℕ → ℕ → Option (ℕ × ℕ)
find_entry v d target zero sec = none
find_entry v d target (suc n) sec =
    elim (scan_sector (ata_read_sector d (v.root_dir_sector + sec)) target 16 0) [
      | stop ↦ none
      | hit i ↦ some (sec, i)
      | more ↦ find_entry v d target n (sec + 1)
    ]

abbrev pub lookup_file : Volume → Disk → List ℕ → Option (ℕ × ℕ)
lookup_file v d filename = find_entry v d (format_fat_name filename) v.root_dir_size 0

abbrev pub root_sector : Volume → Disk → ℕ → Memory
root_sector v d sec = ata_read_sector d (v.root_dir_sector + sec)

unfoldable pub get_file_size : Volume → Disk → List ℕ → ℕ
get_file_size v d filename = elim (lookup_file v d filename) [
  | none ↦ 0
  | some (sec, i) ↦ file_size (entry (root_sector v d sec) i)
]

-- The sector that is written back is the one that was read before the chain was freed. `none` means
-- that the fuel of the loop that frees the chain ran out.
unfoldable pub delete_file : Volume → Disk → (fuel : ℕ) → List ℕ → Option (ℕ × Disk)
delete_file v d fuel filename = elim (lookup_file v d filename) [
  | none ↦ some (0, d)
  | some (sec, i) ↦
      let root_sec = root_sector v d sec in
      elim (free_chain v d fuel (first_cluster (entry root_sec i))) [
        | none ↦ none
        | some d1 ↦
            some (1, ata_write_sector d1 (v.root_dir_sector + sec) (update root_sec (32 * i) 0xE5))
      ]
]
