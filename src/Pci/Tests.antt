-- ===== src/Pci/Tests.antt =====
-- A bus with one device, an xHCI controller in slot 3 of bus 0.
use lisp_dos.Base.{◌≡◌, refl, [], ◌∷◌, ◌==◌, if◌then◌else◌}
use mathlib.Core.Logic.{◌↔◌}
use lisp_dos.Pci.{
  Bus, Found, xhci, pci_init, pci_read_config, scan_slot, scan_func, for_each, is_usb, kind_of,
}
use lisp_dos.Pci.Scan.{Reported, IsController, pci_init-Reported}

abbrev one_device : Bus
one_device address =
    if address == 0x80001800
    then 0x12348086
    else if address == 0x80001808
    then 0x0C033000
    else 0xFFFFFFFF

abbrev controller : Found
controller = record { bus = 0; slot = 3; func = 0; kind = xhci }

finds : scan_slot one_device 0 3 ≡ controller ∷ []
unfolding scan_slot scan_func for_each is_usb kind_of pci_read_config
finds = refl

pci_init-Reported_example :
    Reported controller (pci_init one_device) ↔ IsController one_device controller
pci_init-Reported_example = pci_init-Reported one_device controller
