-- ===== src/Fat16/Write.antt =====
-- `fat16_write_file` of src/kernel/fat16.c.
pub mod Cluster
use lisp_dos.Base.{
  ℕ, zero, suc, ◌+◌, ◌-◌, ◌*◌, min, ◌&&◌, ◌||◌, Option, none, some, List, ltb, leb, ◌==◌,
  if◌then◌else◌, Memory, update, put16, put32,
}
use lisp_dos.Ata.{Disk, ata_write_sector}
use lisp_dos.Fat16.Volume.{Volume, set_fat_entry, alloc_cluster, free_chain}
use lisp_dos.Fat16.Names.{format_fat_name}
use lisp_dos.Fat16.Directory.{entry, first_cluster, matches, root_sector}
use lisp_dos.Fat16.Read.{cluster_sector}

-- `if (target_idx == -1) { target_sec = sec; target_idx = i; }`
abbrev keep_first : Option (ℕ × ℕ) → ℕ → ℕ → Option (ℕ × ℕ)
keep_first none sec i = some (sec, i)
keep_first (some slot) sec i = some slot

-- The loop over the sixteen entries of a sector, with those that are left: an entry of the name,
-- if there is one before the end mark, and the first free slot so far.
unfoldable pub scan_slots :
    Memory → Memory → (sec left i : ℕ) → Option (ℕ × ℕ) → Option ℕ × Option (ℕ × ℕ)
scan_slots sector target sec zero i free = (none, free)
scan_slots sector target sec (suc n) i free =
    let e = entry sector i in
    let after_deleted = scan_slots sector target sec n (i + 1) (keep_first free sec i) in
    let after_other = scan_slots sector target sec n (i + 1) free in
    if e 0 == 0
    then (none, keep_first free sec i)
    else if e 0 == 0xE5
    then after_deleted
    else if matches e target
    then (some i, free)
    else after_other

-- The loop over the sectors: the entry of the name, and the first free slot. The `break` at the
-- end mark leaves only the inner loop.
unfoldable pub find_slot :
    Volume → Disk → Memory → (left sec : ℕ) → Option (ℕ × ℕ) → Option (ℕ × ℕ) × Option (ℕ × ℕ)
find_slot v d target zero sec free = (none, free)
find_slot v d target (suc n) sec free =
    let (hit, free') = scan_slots (root_sector v d sec) target sec 16 0 free in
    let rest = find_slot v d target n (sec + 1) free' in
    elim hit [ some i ↦ (some (sec, i), free') | none ↦ rest ]

-- `write_buf` after the loop that fills it, zero behind the end of the file.
unfoldable pub write_buf : Memory → (size bytes_written : ℕ) → Memory
write_buf buffer size bytes_written k =
    if ltb k 512 && ltb (bytes_written + k) size then buffer (bytes_written + k) else 0

-- The loop over the sectors of a cluster, with those that are left: the disk and `bytes_written`.
unfoldable pub write_sectors : Disk → Memory → (sector size left c bytes_written : ℕ) → Disk × ℕ
write_sectors d buffer sector size zero c bytes_written = (d, bytes_written)
write_sectors d buffer sector size (suc n) c bytes_written =
    write_sectors (ata_write_sector d (sector + c) (write_buf buffer size bytes_written)) buffer
      sector size n (c + 1) (bytes_written + min 512 (size - bytes_written))

-- How the loop that writes the clusters ends: the disk is full and the new chain is freed again, or
-- all is written, with the first cluster.
pub data Written : Type 0 where
  disk_full : Disk → Written
  chained : (first_cluster : ℕ) → Disk → Written

-- `while (bytes_written < size || (size == 0 && first_cluster == 0))`; `none` means that the fuel
-- ran out; `undo` is the fuel of the loop that frees the new chain.
unfoldable pub write_chain :
    Volume → Disk → Memory → (size undo fuel first current bytes_written : ℕ) → Option Written
write_chain v d buffer size undo zero first current bytes_written = none
write_chain v d buffer size undo (suc n) first current bytes_written =
    let (new_c, d1) = alloc_cluster v d in
    let first' = if first == 0 then new_c else first in
    let d2 = if first == 0 then d1 else set_fat_entry v d1 current new_c in
    let (d3, count) =
      write_sectors d2 buffer (cluster_sector v new_c) size v.bpb.sectors_per_cluster 0
        bytes_written in
    let rest = write_chain v d3 buffer size undo n first' new_c count in
    if ltb bytes_written size || (size == 0 && first == 0)
    then (if new_c == 0
        then (if first == 0
            then some (disk_full d1)
            else elim (free_chain v d1 undo first) [ none ↦ none | some d' ↦ some (disk_full d') ])
        else if size == 0
        then some (chained first' d3)
        else rest)
    else some (chained first d)

-- The entry at index `i` of a sector of the root directory, filled in.
unfoldable pub filled_entry : Memory → Memory → (i first_cluster size : ℕ) → Memory
filled_entry sector target i first_cluster size =
    let named : Memory =
      λ o. if leb (32 * i) o && ltb o (32 * i + 11) then target (o - 32 * i) else sector o in
    put32 (put16 (update named (32 * i + 11) 0x20) (32 * i + 26) first_cluster) (32 * i + 28) size

unfoldable pub write_entry : Volume → Disk → Memory → ℕ × ℕ → (first_cluster size : ℕ) → Disk
write_entry v d target (sec, i) first_cluster size =
    ata_write_sector d (v.root_dir_sector + sec)
      (filled_entry (root_sector v d sec) target i first_cluster size)

-- The second and the third step, once the slot is known.
unfoldable pub write_into :
    Volume → Disk → Memory → Memory → (size fuel : ℕ) → ℕ × ℕ → Option (ℕ × Disk)
write_into v d target buffer size fuel slot = elim (write_chain v d buffer size fuel fuel 0 0 0) [
  | none ↦ none
  | some (disk_full d') ↦ some (0, d')
  | some (chained first_cluster d') ↦ some (size, write_entry v d' target slot first_cluster size)
]

-- The answer and the disk.
unfoldable pub write_file :
    Volume → Disk → (fuel : ℕ) → List ℕ → Memory → (size : ℕ) → Option (ℕ × Disk)
write_file v d fuel filename buffer size =
    let target = format_fat_name filename in
    let (hit, free) = find_slot v d target v.root_dir_size 0 none in
    elim hit [
      | some (sec, i) ↦ elim (free_chain v d fuel (first_cluster (entry (root_sector v d sec) i))) [
        | none ↦ none
        | some d1 ↦ write_into v d1 target buffer size fuel (sec, i)
      ]
      | none ↦ elim free [
        | some slot ↦ write_into v d target buffer size fuel slot
        | none ↦ some (0, d)
      ]
    ]
