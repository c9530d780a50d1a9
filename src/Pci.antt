-- ===== src/Pci.antt =====
-- The scan for USB controllers of src/hal/pci.c. The bus is not part of the code: it is a function
-- from the address that is written to port 0xCF8 to the word that port 0xCFC then reads.
pub mod Address
pub mod Scan
mod Tests
use lisp_dos.Base.{
  ℕ, zero, suc, ◌+◌, ◌*◌, ◌/◌, ◌%◌, ◌^◌, bit_and, bit_or, Bool, true, false, ◌&&◌, List, [], ◌∷◌,
  ◌++◌, ◌==◌, if◌then◌else◌,
}

abbrev pub Bus : Type 0
Bus = ℕ → ℕ

abbrev pub pci_address : (bus slot func offset : ℕ) → ℕ
pci_address bus slot func offset =
    bit_or
      (bit_or (bit_or (bit_or (bus * 2 ^ 16) (slot * 2 ^ 11)) (func * 2 ^ 8)) (bit_and offset 0xFC))
      (2 ^ 31)

unfoldable pub pci_read_config : Bus → (bus slot func offset : ℕ) → ℕ
pci_read_config cfg bus slot func offset = cfg (pci_address bus slot func offset)

-- The messages, by the programming interface.
pub data Kind : Type 0 where
  uhci ohci ehci xhci unknown : Kind

unfoldable pub kind_of : ℕ → Kind
kind_of prog_if =
    if prog_if == 0x00
    then uhci
    else if prog_if == 0x10
    then ohci
    else if prog_if == 0x20
    then ehci
    else if prog_if == 0x30
    then xhci
    else unknown

pub record Found : Type 0 where
  pub bus : ℕ
  pub slot : ℕ
  pub func : ℕ
  pub kind : Kind

-- `for (i = ...) ...`, with the rounds left, and what the rounds report
unfoldable pub for_each : (ℕ → List Found) → (left i : ℕ) → List Found
for_each body zero i = []
for_each body (suc left) i = body i ++ for_each body left (i + 1)

unfoldable pub is_usb : ℕ → Bool
is_usb class_info = class_info / 2 ^ 24 % 256 == 0x0C && class_info / 2 ^ 16 % 256 == 0x03

unfoldable pub scan_func : Bus → (bus slot func : ℕ) → List Found
unfolding pci_read_config kind_of is_usb
scan_func cfg bus slot func =
    let class_info = pci_read_config cfg bus slot func 0x08 in
    if is_usb class_info
    then record { bus = bus; slot = slot; func = func; kind = kind_of (class_info / 2 ^ 8 % 256) }
      ∷ []
    else []

unfoldable pub scan_slot : Bus → (bus slot : ℕ) → List Found
unfolding scan_func for_each pci_read_config
scan_slot cfg bus slot =
    if pci_read_config cfg bus slot 0 0 % 2 ^ 16 == 0xFFFF
    then []
    else for_each (scan_func cfg bus slot) 8 0

-- The controllers that are reported, in their order; `usb_ehci_init` and `usb_xhci_init` print only.
unfoldable pub pci_init : Bus → List Found
unfolding scan_slot for_each
pci_init cfg = for_each (λ bus. for_each (scan_slot cfg bus) 32 0) 256 0

-- Whether the closing message is printed.
unfoldable pub found_usb : List Found → Bool
found_usb [] = false
found_usb (r ∷ reports) = true
