-- ===== src/Fat16/Read/Content.antt =====
-- What `fat16_read_file` puts into the buffer.
use lisp_dos.Base.{
  ℕ, zero, suc, ◌+◌, ◌-◌, ◌*◌, ◌/◌, ◌%◌, ◌^◌, ◌≤◌, ◌<◌, min, ◌≡◌, inl, inr, ◌&&◌, none, some, List,
  [], ◌∷◌, arith, ltb, leb, if◌then◌else◌, Bool-cases, Memory, update, u32, le16, le32,
}
use lisp_dos.Ata.{Disk, ata_read_sector}
use lisp_dos.Fat16.Volume.{Volume, get_fat_entry}
use lisp_dos.Fat16.Volume.Chain.{length, Chain}
use lisp_dos.Fat16.Directory.{entry, first_cluster, file_size, lookup_file, root_sector}
use lisp_dos.Fat16.Read.{cluster_sector, copy_loop, read_sectors, read_chain, read_file}

abbrev pub cluster_bytes : Volume → ℕ
cluster_bytes v = 512 * v.bpb.sectors_per_cluster

-- The byte `q` of the file that the clusters store one after the other. Cluster 2 is the first of the
-- data area.
unfoldable pub stored : Volume → Disk → List ℕ → ℕ → ℕ
stored v d [] q = 0
stored v d (x ∷ xs) q =
    if ltb q (cluster_bytes v)
    then ata_read_sector d (v.data_sector + (x - 2) * v.bpb.sectors_per_cluster + q / 512) (q % 512)
    else stored v d xs (q - cluster_bytes v)

copy_loop-eq :
    (buffer : Memory) (at : ℕ) (temp : Memory) (n k q : ℕ)
    → copy_loop buffer at temp n k q
      ≡ (if leb (at + k) q && ltb q (at + k + n) then temp (q - at) else buffer q)
unfolding copy_loop
copy_loop-eq buffer at temp zero k q = ground arith
copy_loop-eq buffer at temp (suc n) k q =
    ground (arith, copy_loop-eq (update buffer (at + k) (temp k)) at temp n (k + 1) q)

sector_offset :
    (at base c q : ℕ)
    → at ≡ base + 512 * c
    → at ≤ q
    → q < at + 512
    → ((q - base) / 512 ≡ c) × ((q - base) % 512 ≡ q - at)
sector_offset at base c q e lo hi = omega arith

-- The sectors from `c` on fill the buffer from `bytes_read` on, as far as the size goes.
read_sectors-eq :
    (d : Disk) (sector size n c : ℕ) (buffer : Memory) (at base q : ℕ)
    → at ≡ base + 512 * c
    → at < size
    → size < 2 ^ 32
    → let (buffer', count) = read_sectors d sector size n c buffer at in
      (count ≡ min size (at + 512 * n))
      × (buffer' q ≡ (
          if leb at q && ltb q (min size (at + 512 * n))
          then ata_read_sector d (sector + (q - base) / 512) ((q - base) % 512)
          else buffer q))
unfolding read_sectors
read_sectors-eq d sector size zero c buffer at base q e lt small = (omega arith, ground arith)
read_sectors-eq d sector size (suc n) c buffer at base q e lt small =
    elim (Bool-cases (leb size (at + to_copy))) [
      | inl last ↦ rw (last, read_sectors) (ground arith, ground (arith, copied))
      | inr more ↦
          let full : to_copy ≡ 512 = ground arith in
          let rest =
            read_sectors-eq d sector size n (c + 1) buffer' (at + to_copy) base q (omega arith)
              (ground arith) small in
          rw (more, read_sectors)
            (omega (arith, rest.0, full), ground (arith, rest.1, full, copied))
    ]
  where
    to_copy : ℕ
    to_copy = min (u32 (size + 2 ^ 32 - at)) 512

    buffer' : Memory
    buffer' = copy_loop buffer at (ata_read_sector d (sector + c)) to_copy 0

    copied : buffer' q ≡ (
        if leb at q && ltb q (at + to_copy)
        then ata_read_sector d (sector + (q - base) / 512) ((q - base) % 512)
        else buffer q)
    copied = ground (
      arith,
      copy_loop-eq buffer at (ata_read_sector d (sector + c)) to_copy 0 q,
      sector_offset at base c q e,
    )

-- The clusters of a file of `size` bytes, from the byte `at` on, are read into place.
read_chain-eq :
    (v : Volume) (d : Disk) (size fuel cluster : ℕ) (buffer : Memory) (at : ℕ) (cs : List ℕ)
    → Chain v d cluster cs
    → size ≤ at + cluster_bytes v * length cs
    → at < size
    → size < 2 ^ 32
    → length cs < fuel
    → (buffer' : Memory) × (read_chain v d size fuel cluster buffer at ≡ some buffer')
      × ((q : ℕ)
          → buffer' q ≡ (if leb at q && ltb q size then stored v d cs (q - at) else buffer q))
unfolding read_chain stored
read_chain-eq v d size zero cluster buffer at cs chain fits lt small enough = absurd (omega arith)
read_chain-eq v d size (suc n) cluster buffer at [] chain fits lt small enough =
    absurd (omega arith)
read_chain-eq v d size (suc n) cluster buffer at (x ∷ xs) (same, on, here, rest) fits lt small
      enough =
    elim (Bool-cases (leb size count)) [
      | inl last ↦ (buffer', rw (same, on, last), λ q. ground (arith, filled q))
      | inr more ↦
          let whole : count ≡ at + cluster_bytes v = ground (arith, filled 0) in
          let (out, is, eq) =
            read_chain-eq v d size n (get_fat_entry v d x) buffer' count xs rest (omega arith)
              (ground arith) small (omega arith) in
          (out, rw (same, on, more) is, λ q. ground (arith, eq q, filled q, whole))
    ]
  where
    buffer' : Memory
    buffer' = (read_sectors d (cluster_sector v x) size v.bpb.sectors_per_cluster 0 buffer at).0

    count : ℕ
    count = (read_sectors d (cluster_sector v x) size v.bpb.sectors_per_cluster 0 buffer at).1

    filled :
        (q : ℕ)
        → (count ≡ min size (at + cluster_bytes v))
          × (buffer' q ≡ (
              if leb at q && ltb q (min size (at + cluster_bytes v))
              then ata_read_sector d (cluster_sector v x + (q - at) / 512) ((q - at) % 512)
              else buffer q))
    filled q =
        read_sectors-eq d (cluster_sector v x) size v.bpb.sectors_per_cluster 0 buffer at at q
          (omega arith) lt small

module _ (v : Volume) (d : Disk) (fuel : ℕ) (filename : List ℕ) (buffer : Memory) where
  -- If no file of the name is found, `fat16_read_file` answers 0 and leaves the buffer alone.
  pub read_file-none :
      lookup_file v d filename ≡ none → read_file v d fuel filename buffer ≡ some (0, buffer)
  unfolding read_file
  read_file-none missing = rw (missing, read_file)

  -- If the search finds an entry with a chain of clusters that is long enough for its size, which is
  -- not 0, then `fat16_read_file` ends, given more rounds than there are clusters, and answers the
  -- size; the buffer then holds the bytes stored in the clusters, in order, up to the size, and from
  -- there on what it held before.
  pub read_file_lem :
      (sec i : ℕ) (cs : List ℕ)
      → lookup_file v d filename ≡ some (sec, i)
      → Chain v d (le16 (entry (root_sector v d sec) i) 26) cs
      → le32 (entry (root_sector v d sec) i) 28 ≤ cluster_bytes v * length cs
      → 0 < le32 (entry (root_sector v d sec) i) 28
      → le32 (entry (root_sector v d sec) i) 28 < 2 ^ 32
      → length cs < fuel
      → let size = le32 (entry (root_sector v d sec) i) 28 in
        (buffer' : Memory) × (read_file v d fuel filename buffer ≡ some (size, buffer'))
        × ((q : ℕ) → buffer' q ≡ (if ltb q size then stored v d cs q else buffer q))
  unfolding read_file
  read_file_lem sec i cs found chain fits pos small enough =
      let e = entry (root_sector v d sec) i in
      let (out, is, eq) =
        read_chain-eq v d (file_size e) fuel (first_cluster e) buffer 0 cs chain (omega arith) pos
          small enough in
      (out, rw (found, is, read_file), λ q. ground (arith, eq q))
