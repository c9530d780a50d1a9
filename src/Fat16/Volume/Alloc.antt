-- ===== src/Fat16/Volume/Alloc.antt =====
-- `fat16_alloc_cluster`: the first free cluster, marked as the end of a chain.
use lisp_dos.Base.{
  ℕ, zero, suc, ◌+◌, ◌-◌, ◌*◌, ◌≤◌, ◌<◌, min, ◌≡◌, refl, ◌≢◌, ◌⊎◌, inl, inr, arith, ◌==◌,
  if◌then◌else◌, eqb→eq, Bool-cases,
}
use lisp_dos.Ata.{Disk, ata_read_sector}
use lisp_dos.Fat16.Volume.Chain.{IsOutside, read-set_outside}
use lisp_dos.Fat16.Volume.{
  Volume, total_clusters, get_fat_entry, set_fat_entry, alloc_loop, alloc_cluster,
}
use lisp_dos.Fat16.Volume.Table.{IsVolume, HasEntry, get-set_fat_entry}

-- Every entry of `[lo, hi)` differs from 0.
abbrev pub InUse : Volume → Disk → ℕ → ℕ → Type 0
InUse v d lo hi = (i : ℕ) → lo ≤ i → i < hi → get_fat_entry v d i ≢ 0

-- `r` names the first cluster of `[lo, hi)` whose entry is 0, and only that entry has changed, to
-- 0xFFFF; or `r` is 0 with the disk as it was, and no entry of the range is 0.
abbrev pub Allocated : Volume → Disk → ℕ → ℕ → ℕ × Disk → Type 0
Allocated v d lo hi (c, d') =
    ((lo ≤ c)
      × (c < hi)
      × (get_fat_entry v d c ≡ 0)
      × InUse v d lo c
      × (d' ≡ set_fat_entry v d c 0xFFFF))
    ⊎ ((c ≡ 0) × (d' ≡ d) × ((i : ℕ) → lo ≤ i → i < hi → get_fat_entry v d i ≢ 0))

InUse-cons :
    (v : Volume) (d : Disk) (lo hi : ℕ)
    → get_fat_entry v d lo ≢ 0
    → InUse v d (lo + 1) hi
    → InUse v d lo hi
InUse-cons v d lo hi first rest i from to = elim (Bool-cases (lo == i)) [
  | inl e ↦ rw (← eqb→eq lo i e) first
  | inr e ↦ rest i (ground arith) to
]

alloc_loop_lem :
    (v : Volume) (d : Disk) (n lo hi : ℕ) → hi ≡ lo + n → Allocated v d lo hi (alloc_loop v d n lo)
unfolding alloc_loop
alloc_loop_lem v d zero lo hi e = inr (refl, refl, λ i from to. omega arith)
alloc_loop_lem v d (suc n) lo hi e = elim (Bool-cases (get_fat_entry v d lo == 0)) [
  | inl free ↦
      rw free (inl (omega arith, omega arith, eqb→eq _ _ free, (λ i from to. omega arith), refl))
  | inr used ↦
      let first : get_fat_entry v d lo ≢ 0 = ground arith in
      rw used (elim (alloc_loop_lem v d n (lo + 1) hi (omega arith)) [
        | inl (from, to, free, before, is) ↦
            inl (omega arith, to, free, InUse-cons v d lo _ first before, is)
        | inr (full, same, all) ↦ inr (full, same, InUse-cons v d lo hi first all)
      ])
]

-- `fat16_alloc_cluster` either finds every entry of the clusters it looks at in use, answers 0 and
-- changes nothing; or it answers the first of them whose entry is 0, and then that entry is 0xFFFF,
-- every other entry of the table is as before, and so is every sector outside the tables. The table
-- must have an entry for each cluster that it looks at, and the boot sector must not hold 0 as the
-- bytes of a sector or the sectors of a cluster, by which the code divides.
pub alloc_cluster_lem :
    (v : Volume) (d : Disk)
    → IsVolume v
    → 0 < v.bpb.bytes_per_sector
    → 0 < v.bpb.sectors_per_cluster
    → total_clusters v.bpb ≤ 256 * v.bpb.table_size_16
    → let (c, d') = alloc_cluster v d in
      let top = min (total_clusters v.bpb) 0xFFF0 in
      ((2 ≤ c)
        × (c < top)
        × (get_fat_entry v d c ≡ 0)
        × InUse v d 2 c
        × ((c' : ℕ)
            → HasEntry v c'
            → get_fat_entry v d' c' ≡ (if c == c' then 0xFFFF else get_fat_entry v d c'))
        × ((b : ℕ) → IsOutside v b → ata_read_sector d' b ≡ ata_read_sector d b))
      ⊎ ((c ≡ 0) × (d' ≡ d) × InUse v d 2 top)
unfolding alloc_cluster
alloc_cluster_lem v d ok sector_not_0 cluster_not_0 covers =
    elim (alloc_loop_lem v d (top - 2) 2 (2 + (top - 2)) refl) [
      | inl (from, to, free, before, is) ↦
          let here : HasEntry v c = omega arith in
          inl (
            from,
            omega arith,
            free,
            before,
            (λ c' h. rw is (get-set_fat_entry v d c 0xFFFF ok here c' h (omega arith))),
            λ b out. rw is (read-set_outside v ok d c 0xFFFF b here out),
          )
      | inr (full, same, all) ↦ inr (full, same, λ i from to. all i from (omega arith))
    ]
  where
    top : ℕ
    top = min (total_clusters v.bpb) 0xFFF0

    c : ℕ
    c = (alloc_cluster v d).0
