-- ===== src/Ata.antt =====
-- Sector transfers of src/hal/ata.c. The drive is not part of the code: a disk is a function from
-- the sector number that the registers spell to the 512 bytes stored there.
use lisp_dos.Base.{
  ℕ, ◌+◌, ◌*◌, ◌/◌, ◌%◌, ◌^◌, ◌<◌, bit_or, ◌≡◌, refl, ap, true, arith, ◌==◌, if◌then◌else◌, eqb→eq,
  Memory, update, u8, each_below, each_of, each_below_lem,
}

abbrev pub Disk : Type 0
Disk = ℕ → Memory

-- The four values that `ata_read_sector` and `ata_write_sector` put into the address registers.
pub record Registers : Type 0 where
  pub drv_head : ℕ
  pub lba_lo : ℕ
  pub lba_mid : ℕ
  pub lba_hi : ℕ

pub registers : ℕ → Registers
registers lba = record {
  drv_head = bit_or 0xE0 (lba / 2 ^ 24 % 16);
  lba_lo = u8 lba;
  lba_mid = u8 (lba / 2 ^ 8);
  lba_hi = u8 (lba / 2 ^ 16);
}

-- How a drive in LBA mode reads them: four bits of the head register and three bytes.
abbrev pub addressed : Registers → ℕ
addressed r = r.drv_head % 16 * 2 ^ 24 + r.lba_hi * 2 ^ 16 + r.lba_mid * 2 ^ 8 + r.lba_lo

unfoldable pub ata_read_sector : Disk → ℕ → Memory
unfolding registers
ata_read_sector d lba = d (addressed (registers lba))

unfoldable pub ata_write_sector : Disk → ℕ → Memory → Disk
unfolding registers
ata_write_sector d lba buffer = update d (addressed (registers lba)) buffer

head_table : each_below 16 (λ n. bit_or 0xE0 n % 16 == n) ≡ true
unfolding each_of
head_table = refl

-- The registers spell the sector number itself, for every number of 28 bits.
pub addressed-registers : (lba : ℕ) → lba < 2 ^ 28 → addressed (registers lba) ≡ lba
unfolding registers
addressed-registers lba h = omega (
  arith,
  eqb→eq _ _ (
      each_below_lem 16 (λ n. bit_or 0xE0 n % 16 == n) (lba / 2 ^ 24 % 16) head_table
        (omega arith)),
)

pub read_sector_lem : (d : Disk) (lba : ℕ) → lba < 2 ^ 28 → ata_read_sector d lba ≡ d lba
unfolding ata_read_sector
read_sector_lem d lba h = ap d (addressed-registers lba h)

-- For sector numbers of 28 bits, a sector reads back as it was written, and every other sector as
-- before.
pub read-write_sector :
    (d : Disk) (a b : ℕ) (buffer : Memory)
    → a < 2 ^ 28
    → b < 2 ^ 28
    → ata_read_sector (ata_write_sector d a buffer) b
      ≡ (if a == b then buffer else ata_read_sector d b)
unfolding ata_read_sector ata_write_sector
read-write_sector d a b buffer ha hb = rw (addressed-registers a ha, addressed-registers b hb)
