-- ===== src/Fat16/Write/Cluster.antt =====
-- The bytes that `fat16_write_file` stores in the sectors of a cluster.
use lisp_dos.Base.{
  ℕ, zero, suc, ◌+◌, ◌-◌, ◌*◌, ◌^◌, ◌≤◌, ◌<◌, min, ◌≡◌, refl, ap, ◌∙◌, ◌⊎◌, inl, inr, false, arith,
  ltb, leb, ◌==◌, if◌then◌else◌, lt→ltb, eqb→eq, eq→eqb, ne→eqb, Bool-cases, Memory,
}
use lisp_dos.Ata.{Disk, ata_read_sector, ata_write_sector, read-write_sector}
use lisp_dos.Fat16.Write.{write_buf, write_sectors}

-- The byte `p` of the file, and 0 behind its end.
unfoldable pub padded : Memory → ℕ → ℕ → ℕ
padded buffer size p = if ltb p size then buffer p else 0

write_sectors-outside :
    (d : Disk) (buffer : Memory) (sector size left c done b : ℕ)
    → sector + c + left ≤ 2 ^ 28
    → b < 2 ^ 28
    → (b < sector + c) ⊎ (sector + c + left ≤ b)
    → ata_read_sector (write_sectors d buffer sector size left c done).0 b ≡ ata_read_sector d b
unfolding write_sectors
write_sectors-outside d buffer sector size zero c done b fits hb out = refl
write_sectors-outside d buffer sector size (suc n) c done b fits hb out =
    let a = sector + c in
    let first = write_buf buffer size done in
    let same = read-write_sector d a b first (omega arith) hb in
    write_sectors-outside (ata_write_sector d a first) buffer sector size n (c + 1)
      (done + min 512 (size - done)) b (omega arith) hb (omega arith)
    ∙ same
    ∙ rw (ne→eqb a b (omega arith)) refl

ge→ltb : (a b : ℕ) → b ≤ a → ltb a b ≡ false
ge→ltb a b h = ground arith

padded_next :
    (buffer : Memory) (size done j k : ℕ)
    → padded buffer size (done + min 512 (size - done) + 512 * j + k)
      ≡ padded buffer size (done + 512 * suc j + k)
unfolding padded
padded_next buffer size done j k = elim (Bool-cases (leb 512 (size - done))) [
  | inl full ↦ ap (padded buffer size) (ground arith)
  | inr part ↦
      let here : ltb (done + min 512 (size - done) + 512 * j + k) size ≡ false =
        ge→ltb _ size (ground arith) in
      let there : ltb (done + 512 * suc j + k) size ≡ false = ge→ltb _ size (ground arith) in
      rw (here, there)
]

-- Writing `left` sectors of a file from its byte `done` on, to sectors whose numbers have 28 bits:
-- byte `k` of sector `j` is then the byte `done + 512 * j + k` of the file, or 0 behind its end,
-- and every other sector is as before.
pub write_sectors_lem :
    (d : Disk) (buffer : Memory) (sector size left c done j k : ℕ)
    → sector + c + left ≤ 2 ^ 28
    → j < left
    → k < 512
    → ata_read_sector (write_sectors d buffer sector size left c done).0 (sector + c + j) k
      ≡ padded buffer size (done + 512 * j + k)
unfolding write_sectors padded write_buf
write_sectors_lem d buffer sector size zero c done j k fits hj hk = absurd (omega arith)
write_sectors_lem d buffer sector size (suc n) c done j k fits hj hk =
    let a = sector + c in
    let first = write_buf buffer size done in
    elim (Bool-cases (j == 0)) [
      | inl start ↦
          let z = eqb→eq j 0 start in
          let at : sector + c + j ≡ a = omega arith in
          let kept =
            write_sectors-outside (ata_write_sector d a first) buffer sector size n (c + 1)
              (done + min 512 (size - done)) a (omega arith) (omega arith) (inl (omega arith)) in
          let now = read-write_sector d a a first (omega arith) (omega arith) in
          let byte : done + k ≡ done + 512 * j + k = omega arith in
          rw at (
            ap (λ s. s k) (kept ∙ now)
            ∙ rw (eq→eqb a a refl, lt→ltb k 512 hk) (ap (padded buffer size) byte))
      | inr later ↦
          let i = j - 1 in
          let at : sector + c + j ≡ sector + (c + 1) + i = ground arith in
          let rest =
            write_sectors_lem (ata_write_sector d a first) buffer sector size n (c + 1)
              (done + min 512 (size - done)) i k (omega arith) (ground arith) hk in
          let j_is : suc i ≡ j = ground arith in
          rw at (
            rest
            ∙ padded_next buffer size done i k
            ∙ ap (λ x. padded buffer size (done + 512 * x + k)) j_is)
    ]
