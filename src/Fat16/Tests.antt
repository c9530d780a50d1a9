-- ===== src/Fat16/Tests.antt =====
-- A small disk for src/kernel/fat16.c, and the theorems of the driver on it.
use lisp_dos.Base.{
  ◌++◌, ℕ, zero, suc, ◌≤◌, ◌<◌, min, ◌≡◌, refl, ◌⊎◌, none, some, List, [], ◌∷◌, arith, ltb, ◌==◌,
  if◌then◌else◌, Memory, codes,
}
use lisp_dos.Ata.{Disk, ata_read_sector}
use lisp_dos.Fat16.Volume.{
  Volume, mounted, total_clusters, get_fat_entry, set_fat_entry, alloc_cluster, free_chain,
}
use lisp_dos.Fat16.Volume.Table.{IsVolume, HasEntry, get-set_fat_entry}
use lisp_dos.Fat16.Volume.Chain.{Chain, IsOutside, Freed, free_chain_lem}
use lisp_dos.Fat16.Volume.Alloc.{InUse, alloc_cluster_lem}
use lisp_dos.Fat16.Names.{
  printed_part, format_fat_name, printed_name, base_loop, skip_loop, ext_loop, extension, upper,
}
use lisp_dos.Fat16.Names.RoundTrip.{suffix, entry_name, format-printed_name}
use lisp_dos.Fat16.Directory.{
  match_loop, scan_sector, find_entry, lookup_file, get_file_size, delete_file,
}
use lisp_dos.Base.Decimal.{IsDecimal}
use lisp_dos.Fat16.Directory.Listing.{fat16_dir, lookup_file-listed, size_digits, listed, size_text}
use lisp_dos.Fat16.Directory.{entry, root_sector, file_size}
use lisp_dos.Fat16.Directory.Search.{Found, find_entry_lem}
use lisp_dos.Fat16.Directory.Delete.{Deleted, delete_file_lem}
use lisp_dos.Fat16.Read.{read_file}
use lisp_dos.Fat16.Read.Content.{stored, read_file_lem}

-- One reserved sector, two tables of a sector, a directory of sixteen entries, clusters of a sector.
abbrev small : Volume
small = mounted (record {
  bytes_per_sector = 512;
  sectors_per_cluster = 1;
  reserved_sector_count = 1;
  table_count = 2;
  root_entry_count = 16;
  total_sectors_16 = 12;
  table_size_16 = 1;
  total_sectors_32 = 0;
})

small-IsVolume : IsVolume small
small-IsVolume = omega arith

abbrev bytes : List ℕ → Memory
bytes [] o = 0
bytes (c ∷ s) zero = c
bytes (c ∷ s) (suc o) = bytes s o

-- The table: the first two entries are reserved, and the clusters 2 and 3 make a chain.
abbrev table : Memory
table = bytes (0xF8 ∷ 0xFF ∷ 0xFF ∷ 0xFF ∷ 3 ∷ 0 ∷ 0xFF ∷ 0xFF ∷ [])

-- The directory: `A.TXT`, of 600 bytes, with the clusters 2 and 3.
abbrev directory : Memory
directory = bytes (
    65 ∷ 32 ∷ 32 ∷ 32 ∷ 32 ∷ 32 ∷ 32 ∷ 32 ∷ 84 ∷ 88 ∷ 84 ∷ 0x20 ∷ 0 ∷ 0 ∷ 0 ∷ 0 ∷ 0 ∷ 0 ∷ 0 ∷ 0 ∷ 0
    ∷ 0 ∷ 0 ∷ 0 ∷ 0 ∷ 0 ∷ 2 ∷ 0 ∷ 88 ∷ 2 ∷ 0 ∷ 0 ∷ [])

abbrev disk : Disk
disk lba =
    if lba == 1
    then table
    else if lba == 2
    then table
    else if lba == 3
    then directory
    else if lba == 4
    then (λ o. 120)
    else λ o. 121

abbrev a_txt : List ℕ
a_txt = 97 ∷ 46 ∷ 116 ∷ 120 ∷ 116 ∷ []

found : lookup_file small disk a_txt ≡ some (0, 0)
unfolding find_entry scan_sector match_loop format_fat_name base_loop skip_loop ext_loop extension
    upper ata_read_sector
found = refl

missing : lookup_file small disk (98 ∷ []) ≡ none
unfolding find_entry scan_sector match_loop format_fat_name base_loop skip_loop ext_loop extension
    upper ata_read_sector
missing = refl

size_of : get_file_size small disk a_txt ≡ 600
unfolding get_file_size ata_read_sector
size_of = rw (found, get_file_size)

chain : Chain small disk 2 (2 ∷ 3 ∷ [])
unfolding get_fat_entry ata_read_sector
chain = (refl, refl, omega arith, (refl, refl, omega arith, refl))

get-set_fat_entry_example :
    get_fat_entry small (set_fat_entry small disk 2 9) 3 ≡ get_fat_entry small disk 3
get-set_fat_entry_example =
    get-set_fat_entry small disk 2 9 small-IsVolume (omega arith) 3 (omega arith) (omega arith)

free_chain_lem_example :
    (d' : Disk) × (free_chain small disk 5 2 ≡ some d')
    × Freed small small-IsVolume disk (2 ∷ 3 ∷ []) d'
free_chain_lem_example =
    free_chain_lem small small-IsVolume disk 5 2 (2 ∷ 3 ∷ []) chain (refl, (refl, tt)) (omega arith)

format-printed_name_example :
    (format_fat_name (printed_name (entry_name (65 ∷ []) (84 ∷ 88 ∷ 84 ∷ []))) 9
      ≡ entry_name (65 ∷ []) (84 ∷ 88 ∷ 84 ∷ []) 9)
    × (format_fat_name ((97 ∷ []) ++ suffix (116 ∷ 88 ∷ 84 ∷ [])) 9
        ≡ entry_name (65 ∷ []) (84 ∷ 88 ∷ 84 ∷ []) 9)
format-printed_name_example =
    format-printed_name (65 ∷ []) (84 ∷ 88 ∷ 84 ∷ []) (97 ∷ []) (116 ∷ 88 ∷ 84 ∷ []) 9
      (ground arith) (ground arith) (omega arith) (omega arith) (ground arith) (ground arith)
      (omega arith)

delete_file_lem_example :
    (d' : Disk) × (delete_file small disk 5 a_txt ≡ some (1, d'))
    × Deleted small disk 0 0 (2 ∷ 3 ∷ []) d'
unfolding ata_read_sector
delete_file_lem_example =
    delete_file_lem small disk 5 a_txt 0 0 (2 ∷ 3 ∷ []) small-IsVolume (λ sec h. ground arith) found
      (omega arith) chain (refl, (refl, tt)) (omega arith)

read_file_lem_example :
    (buffer' : Memory) × (read_file small disk 5 a_txt (λ q. 0) ≡ some (600, buffer'))
    × ((q : ℕ) → buffer' q ≡ (if ltb q 600 then stored small disk (2 ∷ 3 ∷ []) q else 0))
unfolding ata_read_sector
read_file_lem_example =
    read_file_lem small disk 5 a_txt (λ q. 0) 0 0 (2 ∷ 3 ∷ []) found chain (omega arith)
      (omega arith) (omega arith) (omega arith)

alloc_cluster_lem_example :
    let (c, d') = alloc_cluster small disk in
    let top = min (total_clusters small.bpb) 0xFFF0 in
    ((2 ≤ c)
      × (c < top)
      × (get_fat_entry small disk c ≡ 0)
      × InUse small disk 2 c
      × ((c' : ℕ)
          → HasEntry small c'
          → get_fat_entry small d' c' ≡ (if c == c' then 0xFFFF else get_fat_entry small disk c'))
      × ((b : ℕ) → IsOutside small b → ata_read_sector d' b ≡ ata_read_sector disk b))
    ⊎ ((c ≡ 0) × (d' ≡ disk) × InUse small disk 2 top)
unfolding total_clusters
alloc_cluster_lem_example =
    alloc_cluster_lem small disk small-IsVolume (omega arith) (omega arith) (omega arith)

find_entry_lem_example :
    Found small disk (format_fat_name a_txt) 0 1 (find_entry small disk (format_fat_name a_txt) 1 0)
find_entry_lem_example = find_entry_lem small disk (format_fat_name a_txt)

line : listed directory ≡ codes "A.TXT\t<ARQUIVO>\t600 bytes\n"
unfolding listed size_text printed_name printed_part size_digits
line = refl

lookup_file-listed_example :
    let e = entry (root_sector small disk 0) 0 in
    (before : List ℕ) × (after : List ℕ) × (number : List ℕ) × IsDecimal number (file_size e)
    × (fat16_dir small disk
        ≡ before
          ++ ((printed_name e ++ (codes "\t<ARQUIVO>\t" ++ (number ++ codes " bytes\n"))) ++ after))
unfolding ata_read_sector
lookup_file-listed_example =
    lookup_file-listed small disk a_txt 0 0 found (omega arith) (omega arith)
