-- ===== src/Fat16/Directory/Delete.antt =====
-- `fat16_delete_file` frees the clusters of the file and marks its entry, and does nothing else.
use lisp_dos.Base.{ℕ, ◌+◌, ◌*◌, ◌<◌, ◌≡◌, ◌∙◌, ◌≢◌, none, some, List, arith, if◌then◌else◌, update}
use lisp_dos.Ata.{Disk, ata_read_sector, ata_write_sector, read-write_sector}
use lisp_dos.Fat16.Volume.{Volume, get_fat_entry}
use lisp_dos.Fat16.Volume.Table.{IsVolume, HasEntry}
use lisp_dos.Fat16.Volume.Chain.{
  length, has, Distinct, Chain, IsOutside, free_chain_lem, get-write_outside,
}
use lisp_dos.Fat16.Directory.{entry, first_cluster, lookup_file, root_sector, delete_file}

-- The root directory lies outside the tables.
abbrev pub RootIsOutside : Volume → Type 0
RootIsOutside v = (sec : ℕ) → sec < v.root_dir_size → IsOutside v (v.root_dir_sector + sec)

-- The disk after the file at the entry `i` of the sector `sec`, with the clusters `cs`, is deleted.
pub record Deleted (v : Volume) (d : Disk) (sec i : ℕ) (cs : List ℕ) (d' : Disk) : Type 0 where
  pub entries :
      (c : ℕ) → HasEntry v c → get_fat_entry v d' c ≡ (if has c cs then 0 else get_fat_entry v d c)
  pub marked : root_sector v d' sec ≡ update (root_sector v d sec) (32 * i) 0xE5
  pub others :
      (b : ℕ)
      → IsOutside v b
      → v.root_dir_sector + sec ≢ b
      → ata_read_sector d' b ≡ ata_read_sector d b

-- If the search finds no entry, `fat16_delete_file` answers 0 and changes nothing.
pub delete_file-none :
    (v : Volume) (d : Disk) (fuel : ℕ) (filename : List ℕ)
    → lookup_file v d filename ≡ none
    → delete_file v d fuel filename ≡ some (0, d)
unfolding delete_file
delete_file-none v d fuel filename missing = rw (missing, delete_file)

-- On a volume whose root directory lies outside the tables: if the search finds an entry whose chain runs through the distinct clusters `cs`, then
-- `fat16_delete_file` ends, given more rounds than there are clusters, and answers 1; the entries of
-- exactly those clusters become 0, the first byte of the entry becomes 0xE5, and no other byte
-- outside the tables changes.
pub delete_file_lem :
    (v : Volume) (d : Disk) (fuel : ℕ) (filename : List ℕ) (sec i : ℕ) (cs : List ℕ)
    → IsVolume v
    → RootIsOutside v
    → lookup_file v d filename ≡ some (sec, i)
    → sec < v.root_dir_size
    → Chain v d (first_cluster (entry (root_sector v d sec) i)) cs
    → Distinct cs
    → length cs < fuel
    → (d' : Disk) × (delete_file v d fuel filename ≡ some (1, d')) × Deleted v d sec i cs d'
unfolding delete_file
delete_file_lem v d fuel filename sec i cs ok root found inside chain distinct enough =
    let buffer = update (root_sector v d sec) (32 * i) 0xE5 in
    let at = v.root_dir_sector + sec in
    let out = root sec inside in
    let (d1, is, freed) = free_chain_lem v ok d fuel _ cs chain distinct enough in
    (
      ata_write_sector d1 at buffer,
      rw (found, is, delete_file),
      record {
        entries = λ c h. get-write_outside v ok d1 at buffer c out h ∙ freed.entries c h;
        marked = ground (arith, read-write_sector d1 at at buffer out.0 out.0);
        others = λ b out_b ne.
            ground (arith, read-write_sector d1 at b buffer out.0 out_b.0, freed.outside b out_b);
      },
    )
