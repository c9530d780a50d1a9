-- ===== src/Tables/Tests.antt =====
-- A data segment, and the table of the processor's exceptions with handlers 16 bytes apart.
use lisp_dos.Base.{ℕ, ◌+◌, ◌*◌}
use lisp_dos.Tables.{Idt}

abbrev empty : Idt
empty v = record {
  isr_low = 0;
  kernel_cs = 0;
  ist = 0;
  attributes = 0;
  isr_mid = 0;
  isr_high = 0;
  reserved = 0;
}

abbrev handlers : ℕ → ℕ
handlers v = 0xFFFF_FFFF_8000_1000 + 16 * v
