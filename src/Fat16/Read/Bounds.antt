-- ===== src/Fat16/Read/Bounds.antt =====
-- Whatever the table says, `fat16_read_file` writes no byte behind the size of the file.
use lisp_dos.Base.{
  ℕ, zero, suc, ◌+◌, ◌-◌, ◌*◌, ◌^◌, ◌≤◌, ◌<◌, min, ◌≡◌, refl, ◌∙◌, Option, none, some, List, arith,
  leb, Memory, update, update_ne, u32, if_holds,
}
use lisp_dos.Ata.{registers, addressed, Disk, ata_read_sector}
use lisp_dos.Fat16.Volume.{Volume, in_chain, get_fat_entry}
use lisp_dos.Fat16.Directory.{
  lookup_file, get_file_size, entry, root_sector, file_size, first_cluster,
}
use lisp_dos.Fat16.Read.{cluster_sector, copy_loop, read_sectors, read_chain, read_file}

copy_loop-outside :
    (buffer : Memory) (done : ℕ) (temp : Memory) (left k q : ℕ)
    → done + k + left ≤ q
    → copy_loop buffer done temp left k q ≡ buffer q
unfolding copy_loop
copy_loop-outside buffer done temp zero k q h = refl
copy_loop-outside buffer done temp (suc n) k q h =
    copy_loop-outside (update buffer (done + k) (temp k)) done temp n (k + 1) q (omega arith)
    ∙ update_ne buffer (temp k) (done + k) q (omega arith)

read_sectors-outside :
    (d : Disk) (sector size left c : ℕ) (buffer : Memory) (done q : ℕ)
    → done ≤ size
    → size < 2 ^ 32
    → size ≤ q
    → ((read_sectors d sector size left c buffer done).0 q ≡ buffer q)
      × ((read_sectors d sector size left c buffer done).1 ≤ size)
unfolding read_sectors
read_sectors-outside d sector size zero c buffer done q le small h = (refl, le)
read_sectors-outside d sector size (suc n) c buffer done q le small h =
    let to_copy = min (u32 (size + 2 ^ 32 - done)) 512 in
    let in_size : done + to_copy ≤ size = omega arith in
    let buffer' = copy_loop buffer done (ata_read_sector d (sector + c)) to_copy 0 in
    let here =
      copy_loop-outside buffer done (ata_read_sector d (sector + c)) to_copy 0 q (omega arith) in
    let (rest, bound) =
      read_sectors-outside d sector size n (c + 1) buffer' (done + to_copy) q in_size small h in
    if_holds (λ (r : Memory × ℕ). (r.0 q ≡ buffer q) × (r.1 ≤ size)) (leb size (done + to_copy))
      (λ e. (here, in_size)) λ e. (rest ∙ here, bound)

-- Where the loop ends, the buffer is as before from `size` on.
Within : ℕ → Memory → Option Memory → Type 0
Within size buffer none = ◌≡◌ {A = ℕ} 0 0
Within size buffer (some result) = (q : ℕ) → size ≤ q → result q ≡ buffer q

Within-trans :
    (size : ℕ) (buffer buffer' : Memory) (r : Option Memory)
    → ((q : ℕ) → size ≤ q → buffer' q ≡ buffer q)
    → Within size buffer' r
    → Within size buffer r
unfolding Within
Within-trans size buffer buffer' none same w = refl
Within-trans size buffer buffer' (some result) same w = λ q h. w q h ∙ same q h

read_chain-Within :
    (v : Volume) (d : Disk) (size fuel cluster : ℕ) (buffer : Memory) (done : ℕ)
    → done ≤ size
    → size < 2 ^ 32
    → Within size buffer (read_chain v d size fuel cluster buffer done)
unfolding read_chain Within
read_chain-Within v d size zero cluster buffer done le small = refl
read_chain-Within v d size (suc n) cluster buffer done le small =
    let sector = cluster_sector v cluster in
    let spc = v.bpb.sectors_per_cluster in
    let r = read_sectors d sector size spc 0 buffer done in
    let same : (q : ℕ) → size ≤ q → r.0 q ≡ buffer q =
      λ q h. (read_sectors-outside d sector size spc 0 buffer done q le small h).0 in
    let count : r.1 ≤ size =
      (read_sectors-outside d sector size spc 0 buffer done size le small (omega arith)).1 in
    let rest = read_chain-Within v d size n (get_fat_entry v d cluster) r.0 r.1 count small in
    if_holds (Within size buffer) (in_chain cluster)
      (λ e.
        if_holds (Within size buffer) (leb size r.1) (λ e. same)
          λ e.
            Within-trans size buffer r.0 (read_chain v d size n (get_fat_entry v d cluster) r.0 r.1)
              same rest)
      λ e q h. refl

unfoldable pub FileWithin : ℕ → Memory → Option (ℕ × Memory) → Type 0
FileWithin size buffer none = ◌≡◌ {A = ℕ} 0 0
FileWithin size buffer (some (n, result)) = (q : ℕ) → size ≤ q → result q ≡ buffer q

-- Whatever the table and the entry say, for a file whose size has 32 bits: where
-- `fat16_read_file` ends, the buffer is as before from the size that `fat16_get_file_size` gives on.
pub read_file-FileWithin :
    (v : Volume) (d : Disk) (fuel : ℕ) (name : List ℕ) (buffer : Memory)
    → get_file_size v d name < 2 ^ 32
    → FileWithin (get_file_size v d name) buffer (read_file v d fuel name buffer)
unfolding read_file get_file_size FileWithin Within
read_file-FileWithin v d fuel name buffer small =
    elim (lookup_file v d name)
        as (λ found.
          (elim found as (λ x. ℕ) [
            | none ↦ 0
            | some (sec, i) ↦ file_size (entry (root_sector v d sec) i)
          ])
            < 2 ^ 32
          → FileWithin
              (elim found as (λ x. ℕ) [
                | none ↦ 0
                | some (sec, i) ↦ file_size (entry (root_sector v d sec) i)
              ])
              buffer
              (elim found [
                | none ↦ some (0, buffer)
                | some (sec, i) ↦
                    elim (read_chain v d (file_size (entry (root_sector v d sec) i)) fuel
                      (first_cluster (entry (root_sector v d sec) i)) buffer 0) [
                        | none ↦ none
                        | some buffer' ↦ some (file_size (entry (root_sector v d sec) i), buffer')
                      ]
              ])) [
                | none ↦ λ lt q h. refl
                | some (sec, i) ↦ λ lt.
                    let e = entry (root_sector v d sec) i in
                    let w =
                      read_chain-Within v d (file_size e) fuel (first_cluster e) buffer 0
                        (omega arith) lt in
                    lift (file_size e) buffer
                      (read_chain v d (file_size e) fuel (first_cluster e) buffer 0) w
              ]
      small
  where
    lift :
        (size : ℕ) (buffer : Memory) (r : Option Memory)
        → Within size buffer r
        → FileWithin size buffer (elim r as (λ x. Option (ℕ × Memory)) [
          | none ↦ none
          | some buffer' ↦ some (size, buffer')
        ])
    lift size buffer none w = refl
    lift size buffer (some result) w = w

-- On a disk of bytes, a size has 32 bits.
pub get_file_size_lt :
    (v : Volume) (d : Disk) (name : List ℕ)
    → ((lba o : ℕ) → d lba o < 256)
    → get_file_size v d name < 2 ^ 32
unfolding get_file_size ata_read_sector
get_file_size_lt v d name bytes =
    elim (lookup_file v d name)
      as (λ found.
        (elim found as (λ x. ℕ) [
          | none ↦ 0
          | some (sec, i) ↦ file_size (entry (root_sector v d sec) i)
        ])
        < 2 ^ 32) [
          | none ↦ omega arith
          | some (sec, i) ↦
              let at = addressed (registers (v.root_dir_sector + sec)) in
              let b = bytes at in
              omega (
                arith,
                b (32 * i + 28),
                b (32 * i + (28 + 1)),
                b (32 * i + (28 + 2)),
                b (32 * i + (28 + 3)),
                b (32 * i + (28 + 2 + 1)),
              )
        ]
