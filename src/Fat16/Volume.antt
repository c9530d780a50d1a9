-- ===== src/Fat16/Volume.antt =====
-- The boot sector, the static variables, and the file allocation table of src/kernel/fat16.c.
pub mod Table
pub mod Chain
pub mod Alloc
use lisp_dos.Base.{
  ℕ, zero, suc, ◌+◌, ◌-◌, ◌*◌, ◌/◌, ◌%◌, ◌^◌, min, Bool, not, ◌&&◌, Option, none, some, ltb, leb,
  ◌==◌, if◌then◌else◌, Memory, u32, le16, le32, put16,
}
use lisp_dos.Ata.{Disk, ata_read_sector, ata_write_sector}

-- The fields of `struct fat_BS` that the driver reads.
pub record Bpb : Type 0 where
  pub bytes_per_sector : ℕ
  pub sectors_per_cluster : ℕ
  pub reserved_sector_count : ℕ
  pub table_count : ℕ
  pub root_entry_count : ℕ
  pub total_sectors_16 : ℕ
  pub table_size_16 : ℕ
  pub total_sectors_32 : ℕ

pub record Volume : Type 0 where
  pub bpb : Bpb
  pub root_dir_sector : ℕ
  pub root_dir_size : ℕ
  pub data_sector : ℕ

abbrev pub boot_sector : Memory → Bpb
boot_sector m = record {
  bytes_per_sector = le16 m 11;
  sectors_per_cluster = m 13;
  reserved_sector_count = le16 m 14;
  table_count = m 16;
  root_entry_count = le16 m 17;
  total_sectors_16 = le16 m 19;
  table_size_16 = le16 m 22;
  total_sectors_32 = le32 m 32;
}

abbrev pub mounted : Bpb → Volume
mounted b =
    let root = b.reserved_sector_count + b.table_count * b.table_size_16 in
    let size = b.root_entry_count * 32 / 512 in
    record { bpb = b; root_dir_sector = root; root_dir_size = size; data_sector = root + size }

-- Without the signature the static variables stay as they were.
unfoldable pub fat16_init : Volume → Disk → Volume
fat16_init old d =
    let sector = ata_read_sector d 0 in
    if not (le16 sector 510 == 0xAA55) then old else mounted (boot_sector sector)

-- The sector of the table and the offset in it that hold the entry of a cluster.
abbrev pub fat_sector : Volume → ℕ → ℕ
fat_sector v cluster = v.bpb.reserved_sector_count + cluster * 2 / 512

abbrev pub ent_offset : ℕ → ℕ
ent_offset cluster = cluster * 2 % 512

unfoldable pub get_fat_entry : Volume → Disk → ℕ → ℕ
get_fat_entry v d cluster = le16 (ata_read_sector d (fat_sector v cluster)) (ent_offset cluster)

-- The second table receives the sector of the first.
unfoldable pub set_fat_entry : Volume → Disk → ℕ → ℕ → Disk
set_fat_entry v d cluster value =
    let at = fat_sector v cluster in
    let sector = put16 (ata_read_sector d at) (ent_offset cluster) value in
    let d1 = ata_write_sector d at sector in
    if ltb 1 v.bpb.table_count then ata_write_sector d1 (at + v.bpb.table_size_16) sector else d1

-- The local variables of `fat16_alloc_cluster`, of type `uint32_t`. The processor traps at a division
-- by 0, that is with 0 bytes in a sector or 0 sectors in a cluster: what is here stands for the code
-- only without these.
unfoldable pub total_clusters : Bpb → ℕ
total_clusters b =
    let total = if b.total_sectors_16 == 0 then b.total_sectors_32 else b.total_sectors_16 in
    let root_dir_sectors =
      (b.root_entry_count * 32 + (b.bytes_per_sector - 1)) / b.bytes_per_sector in
    let before = b.reserved_sector_count + b.table_count * b.table_size_16 + root_dir_sectors in
    u32 (total + 2 ^ 32 - before) / b.sectors_per_cluster

-- `for (i = 2; i < total_clusters && i < 0xFFF0; i++)`, with the rounds that are left
unfoldable pub alloc_loop : Volume → Disk → (rounds i : ℕ) → ℕ × Disk
alloc_loop v d zero i = (0, d)
alloc_loop v d (suc n) i =
    let rest = alloc_loop v d n (i + 1) in
    if get_fat_entry v d i == 0 then (i, set_fat_entry v d i 0xFFFF) else rest

unfoldable pub alloc_cluster : Volume → Disk → ℕ × Disk
alloc_cluster v d = alloc_loop v d (min (total_clusters v.bpb) 0xFFF0 - 2) 2

-- `while (cluster >= 2 && cluster <= 0xFFEF)`, the loop that frees a chain; `none` means that the
-- fuel ran out.
abbrev pub in_chain : ℕ → Bool
in_chain cluster = leb 2 cluster && leb cluster 0xFFEF

unfoldable pub free_chain : Volume → Disk → (fuel cluster : ℕ) → Option Disk
free_chain v d zero cluster = none
free_chain v d (suc n) cluster =
    let rest = free_chain v (set_fat_entry v d cluster 0) n (get_fat_entry v d cluster) in
    if in_chain cluster then rest else some d
