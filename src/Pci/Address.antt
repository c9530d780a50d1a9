-- ===== src/Pci/Address.antt =====
-- The address of a configuration word.
use lisp_dos.Base.{
  ℕ, ◌+◌, ◌*◌, ◌/◌, ◌^◌, ◌<◌, bit_and, bit_or, ◌≡◌, refl, arith, ◌==◌, eqb→eq, each_of,
  each_below_lem,
}
use lisp_dos.Base.Bits.{bit_or_8, bit_or_11, bit_or_16, bit_or_top}
use lisp_dos.Pci.{pci_address}

mask_fc : (offset : ℕ) → offset < 256 → bit_and offset 0xFC ≡ offset / 4 * 4
unfolding each_of
mask_fc offset lt =
    eqb→eq _ _ (each_below_lem 256 (λ o. bit_and o 0xFC == o / 4 * 4) offset refl lt)

-- For a bus below 256, a slot below 32, a function below 8 and an offset below 256, the address
-- that is written is the sum of the enable bit and the four fields at bits 16, 11, 8 and 2, the offset
-- without its last two bits: none of them overlap.
pub pci_address_lem :
    (bus slot func offset : ℕ)
    → bus < 256
    → slot < 32
    → func < 8
    → offset < 256
    → pci_address bus slot func offset
      ≡ 2 ^ 31 + bus * 2 ^ 16 + slot * 2 ^ 11 + func * 2 ^ 8 + offset / 4 * 4
pci_address_lem bus slot func offset b s f o =
    let one : bit_or (bus * 2 ^ 16) (slot * 2 ^ 11) ≡ (bus * 32 + slot) * 2 ^ 11 =
      omega (arith, bit_or_16 bus (slot * 2 ^ 11) (omega arith)) in
    let two : bit_or ((bus * 32 + slot) * 2 ^ 11) (func * 2 ^ 8)
        ≡ (bus * 256 + slot * 8 + func) * 2 ^ 8 =
      omega (arith, bit_or_11 (bus * 32 + slot) (func * 2 ^ 8) (omega arith)) in
    let three = bit_or_8 (bus * 256 + slot * 8 + func) (offset / 4 * 4) (omega arith) in
    rw (mask_fc offset o, one, two, three)
      (omega
        (arith, bit_or_top ((bus * 256 + slot * 8 + func) * 2 ^ 8 + offset / 4 * 4) (omega arith)))
