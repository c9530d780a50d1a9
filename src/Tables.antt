-- ===== src/Tables.antt =====
-- The descriptor tables of src/hal/gdt.c and src/hal/idt.c: how a segment descriptor and an
-- interrupt gate are put together from an address, and what the two initialisations fill in.
pub mod Fields
mod Tests
use lisp_dos.Base.{ℕ, zero, suc, ◌+◌, ◌/◌, ◌%◌, ◌^◌, bit_and, bit_or, List, [], ◌∷◌, update}

pub record GdtEntry : Type 0 where
  pub limit_low : ℕ
  pub base_low : ℕ
  pub base_middle : ℕ
  pub access : ℕ
  pub granularity : ℕ
  pub base_high : ℕ

-- The entry that `gdt_set_gate` stores; `granularity` is put together by two assignments.
unfoldable pub gdt_set_gate : (base limit access gran : ℕ) → GdtEntry
gdt_set_gate base limit access gran = record {
  base_low = base % 2 ^ 16;
  base_middle = base / 2 ^ 16 % 256;
  base_high = base / 2 ^ 24 % 256;
  limit_low = limit % 2 ^ 16;
  granularity = bit_or (limit / 2 ^ 16 % 16) (bit_and gran 0xF0);
  access = access;
}

-- The seven entries, for the address of the task state segment.
unfoldable pub gdt_init : (tss_base : ℕ) → List GdtEntry
gdt_init tss_base =
    gdt_set_gate 0 0 0 0
    ∷ gdt_set_gate 0 0xFFFFF 0x9A 0xAF
    ∷ gdt_set_gate 0 0xFFFFF 0x92 0xAF
    ∷ gdt_set_gate 0 0xFFFFF 0xF2 0xAF
    ∷ gdt_set_gate 0 0xFFFFF 0xFA 0xAF
    ∷ gdt_set_gate tss_base 103 0x89 0x00
    ∷ record {
      limit_low = tss_base / 2 ^ 32 % 2 ^ 16;
      base_low = tss_base / 2 ^ 48 % 2 ^ 16;
      base_middle = 0;
      access = 0;
      granularity = 0;
      base_high = 0;
    }
    ∷ []

pub record IdtEntry : Type 0 where
  pub isr_low : ℕ
  pub kernel_cs : ℕ
  pub ist : ℕ
  pub attributes : ℕ
  pub isr_mid : ℕ
  pub isr_high : ℕ
  pub reserved : ℕ

abbrev pub Idt : Type 0
Idt = ℕ → IdtEntry

unfoldable pub idt_set_descriptor : Idt → (vector isr flags : ℕ) → Idt
idt_set_descriptor idt vector isr flags = update idt vector (record {
  isr_low = isr % 2 ^ 16;
  kernel_cs = 0x08;
  ist = 0;
  attributes = flags;
  isr_mid = isr / 2 ^ 16 % 2 ^ 16;
  isr_high = isr / 2 ^ 32 % 2 ^ 32;
  reserved = 0;
})

-- `for (vector = from; ...; vector++)`, with the vectors that are left, and a handler for each
unfoldable pub set_gates : Idt → (ℕ → ℕ) → (left vector : ℕ) → Idt
set_gates idt isr zero vector = idt
set_gates idt isr (suc n) vector =
    set_gates (idt_set_descriptor idt vector (isr vector) 0x8E) isr n (vector + 1)

-- `isrs` gives the addresses of the 32 handlers of the assembly file.
unfoldable pub idt_init : Idt → (isrs : ℕ → ℕ) → (isr_keyboard : ℕ) → Idt
idt_init idt isrs isr_keyboard =
    let fallback = set_gates idt (λ vector. isrs 0) 256 0 in
    let exceptions = set_gates fallback isrs 32 0 in
    idt_set_descriptor exceptions 33 isr_keyboard 0x8E
