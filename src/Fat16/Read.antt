-- ===== src/Fat16/Read.antt =====
-- `fat16_read_file` of src/kernel/fat16.c.
pub mod Content
pub mod Bounds
use lisp_dos.Base.{
  ℕ, zero, suc, ◌+◌, ◌-◌, ◌*◌, ◌^◌, min, Option, none, some, List, leb, if◌then◌else◌, Memory,
  update, u32,
}
use lisp_dos.Ata.{Disk, ata_read_sector}
use lisp_dos.Fat16.Volume.{Volume, get_fat_entry, in_chain}
use lisp_dos.Fat16.Directory.{entry, first_cluster, file_size, lookup_file, root_sector}

-- The first sector of a cluster.
abbrev pub cluster_sector : Volume → ℕ → ℕ
cluster_sector v cluster = v.data_sector + (cluster - 2) * v.bpb.sectors_per_cluster

-- `for (k = 0; k < to_copy; k++) buffer[bytes_read + k] = temp_sec[k]`
pub copy_loop : Memory → ℕ → Memory → (left k : ℕ) → Memory
copy_loop buffer bytes_read temp zero k = buffer
copy_loop buffer bytes_read temp (suc n) k =
    copy_loop (update buffer (bytes_read + k) (temp k)) bytes_read temp n (k + 1)

-- The loop over the sectors of a cluster, with those that are left: the buffer and `bytes_read`.
pub read_sectors : Disk → (sector size left c : ℕ) → Memory → ℕ → Memory × ℕ
read_sectors d sector size zero c buffer bytes_read = (buffer, bytes_read)
read_sectors d sector size (suc n) c buffer bytes_read =
    let to_copy = min (u32 (size + 2 ^ 32 - bytes_read)) 512 in
    let buffer' = copy_loop buffer bytes_read (ata_read_sector d (sector + c)) to_copy 0 in
    let count = bytes_read + to_copy in
    let rest = read_sectors d sector size n (c + 1) buffer' count in
    if leb size count then (buffer', count) else rest

-- The loop over the chain; `none` means that the fuel ran out.
pub read_chain : Volume → Disk → (size fuel cluster : ℕ) → Memory → ℕ → Option Memory
read_chain v d size zero cluster buffer bytes_read = none
read_chain v d size (suc n) cluster buffer bytes_read =
    let (buffer', count) =
      read_sectors d (cluster_sector v cluster) size v.bpb.sectors_per_cluster 0 buffer
        bytes_read in
    let rest = read_chain v d size n (get_fat_entry v d cluster) buffer' count in
    if in_chain cluster then (if leb size count then some buffer' else rest) else some buffer

-- The answer and the buffer.
pub read_file : Volume → Disk → (fuel : ℕ) → List ℕ → Memory → Option (ℕ × Memory)
read_file v d fuel filename buffer = elim (lookup_file v d filename) [
  | none ↦ some (0, buffer)
  | some (sec, i) ↦
      let e = entry (root_sector v d sec) i in
      elim (read_chain v d (file_size e) fuel (first_cluster e) buffer 0) [
        | none ↦ none
        | some buffer' ↦ some (file_size e, buffer')
      ]
]
