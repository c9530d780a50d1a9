-- ===== src/Pci/Scan.antt =====
-- What the scan of src/hal/pci.c reports.
use lisp_dos.Base.{
  ℕ, zero, suc, ◌+◌, ◌*◌, ◌/◌, ◌%◌, ◌^◌, ◌≤◌, ◌<◌, ◌≡◌, refl, sym, ap, ◌≢◌, ◌⊎◌, inl, inr, true,
  false, List, [], ◌∷◌, ◌++◌, arith, ◌==◌, eqb→eq, Bool-cases, subst, ne→eqb,
}
use mathlib.Core.Logic.{◌↔◌}
use lisp_dos.Pci.Address.{pci_address_lem}
use lisp_dos.Pci.{
  Kind, uhci, ohci, ehci, xhci, unknown, is_usb, scan_slot, scan_func, pci_read_config, kind_of,
  pci_init, for_each, Bus, Found,
}

pub Reported : Found → List Found → Type 0
Reported r [] = ⊥
Reported r (x ∷ xs) = (r ≡ x) ⊎ Reported r xs

Reported-append :
    (r : Found) (xs ys : List Found) → Reported r (xs ++ ys) ↔ (Reported r xs ⊎ Reported r ys)
unfolding Reported
Reported-append r [] ys = (λ y. inr y, λ c. elim c [ inl none_of ↦ absurd none_of | inr y ↦ y ])
Reported-append r (x ∷ xs) ys =
    let (to, of) = Reported-append r xs ys in
    (
      λ c. elim c [
        | inl e ↦ inl (inl e)
        | inr later ↦ elim (to later) [ inl a ↦ inl (inr a) | inr b ↦ inr b ]
      ],
      λ c. elim c [
        | inl here ↦ elim here [ inl e ↦ inl e | inr a ↦ inr (of (inl a)) ]
        | inr b ↦ inr (of (inr b))
      ],
    )

-- A loop reports what one of its rounds reports.
module _ (r : Found) (body : ℕ → List Found) where
  for_each-Reported :
      (left i : ℕ)
      → Reported r (for_each body left i)
      → (k : ℕ) × (i ≤ k) × (k < i + left) × Reported r (body k)
  unfolding for_each Reported
  for_each-Reported zero i c = absurd c
  for_each-Reported (suc left) i c =
      elim ((Reported-append r (body i) (for_each body left (i + 1))).0 c) [
        | inl here ↦ (i, omega arith, omega arith, here)
        | inr later ↦
            let (k, lo, hi, at) = for_each-Reported left (i + 1) later in
            (k, omega arith, omega arith, at)
      ]

  Reported-for_each :
      (left i k : ℕ)
      → i ≤ k
      → k < i + left
      → Reported r (body k)
      → Reported r (for_each body left i)
  unfolding for_each
  Reported-for_each zero i k lo hi at = absurd (omega arith)
  Reported-for_each (suc left) i k lo hi at =
      (Reported-append r (body i) (for_each body left (i + 1))).1 (elim (Bool-cases (i == k)) [
        | inl e ↦ inl (let q : k ≡ i = sym (eqb→eq i k e) in rw q at at)
        | inr e ↦ inr (Reported-for_each left (i + 1) k (ground arith) (omega arith) at)
      ])

-- The kinds of USB controllers by their programming interface.
abbrev pub IsKind : ℕ → Kind → Type 0
IsKind p uhci = p ≡ 0
IsKind p ohci = p ≡ 0x10
IsKind p ehci = p ≡ 0x20
IsKind p xhci = p ≡ 0x30
IsKind p unknown = (p ≢ 0) × (p ≢ 0x10) × (p ≢ 0x20) × (p ≢ 0x30)

kind_of-IsKind : (p : ℕ) (k : Kind) → IsKind p k → k ≡ kind_of p
unfolding kind_of
kind_of-IsKind p uhci e = rw e refl
kind_of-IsKind p ohci e = rw e refl
kind_of-IsKind p ehci e = rw e refl
kind_of-IsKind p xhci e = rw e refl
kind_of-IsKind p unknown (a, b, c, d) =
    rw (kind_of, ne→eqb p 0 a, ne→eqb p 0x10 b, ne→eqb p 0x20 c, ne→eqb p 0x30 d) refl

IsKind-kind_of : (p : ℕ) → IsKind p (kind_of p)
unfolding kind_of
IsKind-kind_of p = elim (Bool-cases (p == 0)) [
  | inl a ↦ rw a (eqb→eq p 0 a)
  | inr a ↦ rw a (elim (Bool-cases (p == 0x10)) [
    | inl b ↦ rw b (eqb→eq p 0x10 b)
    | inr b ↦ rw b (elim (Bool-cases (p == 0x20)) [
      | inl c ↦ rw c (eqb→eq p 0x20 c)
      | inr c ↦ rw c (elim (Bool-cases (p == 0x30)) [
        | inl d ↦ rw d (eqb→eq p 0x30 d)
        | inr d ↦ rw d (ground arith, ground arith, ground arith, ground arith)
      ])
    ])
  ])
]

-- The word of the configuration space at this place: bit 31, and the bus, the slot, the function and
-- the offset from bits 16, 11, 8 and 0 on.
abbrev pub word : Bus → ℕ → ℕ → ℕ → ℕ → ℕ
word cfg bus slot func offset = cfg (2 ^ 31 + bus * 2 ^ 16 + slot * 2 ^ 11 + func * 2 ^ 8 + offset)

-- A function of a device whose vendor is not FFFF, of class 0C and subclass 03, and its report.
pub record IsController (cfg : Bus) (r : Found) : Type 0 where
  pub bus_in : r.bus < 256
  pub slot_in : r.slot < 32
  pub func_in : r.func < 8
  pub is_there : word cfg r.bus r.slot 0 0 % 2 ^ 16 ≢ 0xFFFF
  pub class_is : word cfg r.bus r.slot r.func 8 / 2 ^ 24 % 256 ≡ 0x0C
  pub subclass_is : word cfg r.bus r.slot r.func 8 / 2 ^ 16 % 256 ≡ 0x03
  pub kind_is : IsKind (word cfg r.bus r.slot r.func 8 / 2 ^ 8 % 256) r.kind

module _ (cfg : Bus) (bus slot func : ℕ) (b : bus < 256) (s : slot < 32) (f : func < 8) where
  read_first : pci_read_config cfg bus slot func 0 ≡ word cfg bus slot func 0
  unfolding pci_read_config
  read_first = ap cfg (pci_address_lem bus slot func 0 b s f (omega arith))

  read_class : pci_read_config cfg bus slot func 0x08 ≡ word cfg bus slot func 8
  unfolding pci_read_config
  read_class = ap cfg (pci_address_lem bus slot func 0x08 b s f (omega arith))

is_usb-classes : (w : ℕ) → is_usb w ≡ true → (w / 2 ^ 24 % 256 ≡ 0x0C) × (w / 2 ^ 16 % 256 ≡ 0x03)
unfolding is_usb
is_usb-classes w e = (ground arith, ground arith)

classes-is_usb : (w : ℕ) → w / 2 ^ 24 % 256 ≡ 0x0C → w / 2 ^ 16 % 256 ≡ 0x03 → is_usb w ≡ true
unfolding is_usb
classes-is_usb w c s = ground arith

module _ (cfg : Bus) (r : Found) (bus slot : ℕ) where
  abbrev report : ℕ → Found
  report func = record {
    bus = bus;
    slot = slot;
    func = func;
    kind = kind_of (pci_read_config cfg bus slot func 0x08 / 2 ^ 8 % 256);
  }

  scan_func-Reported :
      (func : ℕ)
      → Reported r (scan_func cfg bus slot func)
        ↔ ((is_usb (pci_read_config cfg bus slot func 0x08) ≡ true) × (r ≡ report func))
  unfolding scan_func Reported
  scan_func-Reported func = elim (Bool-cases (is_usb (pci_read_config cfg bus slot func 0x08))) [
    | inl e ↦ (
      λ c. (e, elim (rw e at c) [ inl same ↦ same | inr none_of ↦ absurd none_of ]),
      λ c. rw (e, scan_func) (inl c.1),
    )
    | inr e ↦ (λ c. absurd (rw e at c), λ c. absurd (let t = c.0 in cc))
  ]

  scan_slot-Reported :
      Reported r (scan_slot cfg bus slot)
      → (func : ℕ) × (func < 8)
        × ((pci_read_config cfg bus slot 0 0 % 2 ^ 16 == 0xFFFF) ≡ false)
        × Reported r (scan_func cfg bus slot func)
  unfolding scan_slot Reported
  scan_slot-Reported c = elim (Bool-cases (pci_read_config cfg bus slot 0 0 % 2 ^ 16 == 0xFFFF)) [
    | inl e ↦ absurd (rw e at c)
    | inr e ↦
        let (func, lo, hi, at) = for_each-Reported r (scan_func cfg bus slot) 8 0 (rw e at c) in
        (func, omega arith, e, at)
  ]

  Reported-scan_slot :
      (func : ℕ)
      → func < 8
      → (pci_read_config cfg bus slot 0 0 % 2 ^ 16 == 0xFFFF) ≡ false
      → Reported r (scan_func cfg bus slot func)
      → Reported r (scan_slot cfg bus slot)
  unfolding scan_slot
  Reported-scan_slot func lt there at =
      rw (there, scan_slot)
        (Reported-for_each r (scan_func cfg bus slot) 8 0 func (omega arith) lt at)

-- `pci_init` reports exactly the functions of class 0C and subclass 03 of the devices whose vendor
-- is not FFFF, on all 256 buses of 32 slots, by what the words 0 and 8 of their configuration space
-- hold, each with its kind: 00 is UHCI, 10 OHCI, 20 EHCI, 30 xHCI and any other interface unknown.
pub pci_init-Reported : (cfg : Bus) (r : Found) → Reported r (pci_init cfg) ↔ IsController cfg r
unfolding pci_init
pci_init-Reported cfg r = (
  λ c.
      let (bus, bus_lo, bus_hi, on_bus) =
        for_each-Reported r (λ b. for_each (scan_slot cfg b) 32 0) 256 0 c in
      let (slot, slot_lo, slot_hi, in_slot) = for_each-Reported r (scan_slot cfg bus) 32 0 on_bus in
      let (func, func_in, there, at) = scan_slot-Reported cfg r bus slot in_slot in
      let (of_class, same) = (scan_func-Reported cfg r bus slot func).0 at in
      let at_slot = read_first cfg bus slot 0 (omega arith) (omega arith) (omega arith) in
      let at_class = read_class cfg bus slot func (omega arith) (omega arith) func_in in
      let (class_is, subclass_is) =
        is_usb-classes (word cfg bus slot func 8) (rw at_class at of_class) in
      subst (IsController cfg) (sym same) (record {
        bus_in = omega arith;
        slot_in = omega arith;
        func_in = func_in;
        is_there = λ e. let missing = rw (at_slot, e) at there in cc;
        class_is = class_is;
        subclass_is = subclass_is;
        kind_is = rw at_class (IsKind-kind_of (word cfg bus slot func 8 / 2 ^ 8 % 256));
      }),
  λ c.
      let as_kind : Kind → Found =
        λ k. record { bus = r.bus; slot = r.slot; func = r.func; kind = k } in
      let at_slot = read_first cfg r.bus r.slot 0 c.bus_in c.slot_in (omega arith) in
      let at_class = read_class cfg r.bus r.slot r.func c.bus_in c.slot_in c.func_in in
      let w = word cfg r.bus r.slot r.func 8 in
      let of_class = classes-is_usb w c.class_is c.subclass_is in
      let kind_is : r.kind ≡ kind_of (w / 2 ^ 8 % 256) = kind_of-IsKind _ r.kind c.kind_is in
      let at =
        (scan_func-Reported cfg r r.bus r.slot r.func).1
          (rw at_class of_class, rw at_class (ap as_kind kind_is)) in
      let there : (pci_read_config cfg r.bus r.slot 0 0 % 2 ^ 16 == 0xFFFF) ≡ false =
        rw at_slot (ne→eqb _ _ c.is_there) in
      let in_slot : Reported r (scan_slot cfg r.bus r.slot) =
        Reported-scan_slot cfg r r.bus r.slot r.func c.func_in there at in
      Reported-for_each r (λ b. for_each (scan_slot cfg b) 32 0) 256 0 r.bus (omega arith) c.bus_in
        (Reported-for_each r (scan_slot cfg r.bus) 32 0 r.slot (omega arith) c.slot_in in_slot),
)
