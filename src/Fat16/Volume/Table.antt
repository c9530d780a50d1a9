-- ===== src/Fat16/Volume/Table.antt =====
-- The laws of the table: reading an entry after writing one.
use lisp_dos.Base.{
  ℕ, ◌+◌, ◌/◌, ◌^◌, ◌<◌, ◌≡◌, true, false, ◌&&◌, arith, ltb, ◌==◌, if◌then◌else◌, Memory, put16,
  le16-put16,
}
use lisp_dos.Ata.{Disk, ata_read_sector, ata_write_sector, read-write_sector}
use lisp_dos.Fat16.Volume.{Volume, get_fat_entry, set_fat_entry, fat_sector, ent_offset}

-- The fields are of their widths, and the table has an entry for every cluster number in question.
pub record IsVolume (v : Volume) : Type 0 where
  pub reserved : v.bpb.reserved_sector_count < 2 ^ 16
  pub table_size : v.bpb.table_size_16 < 2 ^ 16

abbrev pub HasEntry : Volume → ℕ → Type 0
HasEntry v cluster = cluster / 256 < v.bpb.table_size_16

module _ (v : Volume) (d : Disk) (c value : ℕ) (ok : IsVolume v) (has : HasEntry v c) where
  abbrev written : Memory
  written = put16 (ata_read_sector d (fat_sector v c)) (ent_offset c) value

  -- A sector after the write: the table's own, or its copy, or as before.
  pub read-set_fat_entry :
      (b : ℕ)
      → b < 2 ^ 28
      → (ltb 1 v.bpb.table_count && (fat_sector v c + v.bpb.table_size_16 == b)) ≡ false
      → ata_read_sector (set_fat_entry v d c value) b
        ≡ (if fat_sector v c == b then written else ata_read_sector d b)
  unfolding set_fat_entry
  read-set_fat_entry b low apart = ground (
    arith,
    read-write_sector d (fat_sector v c) b written (omega arith) low,
    read-write_sector (ata_write_sector d (fat_sector v c) written)
        (fat_sector v c + v.bpb.table_size_16) b written (omega arith) low,
  )

  pub read_copy :
      ltb 1 v.bpb.table_count ≡ true
      → ata_read_sector (set_fat_entry v d c value) (fat_sector v c + v.bpb.table_size_16) ≡ written
  unfolding set_fat_entry
  read_copy two = ground (
    arith,
    read-write_sector (ata_write_sector d (fat_sector v c) written)
        (fat_sector v c + v.bpb.table_size_16) (fat_sector v c + v.bpb.table_size_16) written
        (omega arith) (omega arith),
  )

  -- On a volume whose tables fit, for a value of 16 bits and clusters that have an entry in the
  -- table: an entry reads back as it was written, and every other entry as before.
  pub get-set_fat_entry :
      (c' : ℕ)
      → HasEntry v c'
      → value < 2 ^ 16
      → get_fat_entry v (set_fat_entry v d c value) c'
        ≡ (if c == c' then value else get_fat_entry v d c')
  unfolding get_fat_entry
  get-set_fat_entry c' has' h = ground (
    arith,
    read-set_fat_entry (fat_sector v c') (omega arith) (ground arith),
    le16-put16 (ata_read_sector d (fat_sector v c)) (ent_offset c) value,
  )
