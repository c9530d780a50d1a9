-- ===== src/Process/Elf.antt =====
-- The fields of src/kernel/elf.h in a file, and the tests of its header in `process_exec` of
-- src/kernel/process.c.
use lisp_dos.Base.{
  ℕ, ◌+◌, ◌*◌, ◌^◌, not, ◌&&◌, ◌||◌, Option, none, some, ltb, leb, ◌==◌, if◌then◌else◌, Memory,
  add64, le16, le32,
}
use lisp_dos.Vmm.{user_limit}

-- A field of 64 bits.
abbrev pub le64 : Memory → ℕ → ℕ
le64 m at = le32 m at + 2 ^ 32 * le32 m (at + 4)

-- `Elf64_Ehdr`, at the start of the file
abbrev pub e_entry : Memory → ℕ
e_entry file = le64 file 24

abbrev pub e_phoff : Memory → ℕ
e_phoff file = le64 file 32

abbrev pub e_phnum : Memory → ℕ
e_phnum file = le16 file 56

abbrev pub phdr_size : ℕ
phdr_size = 56

-- `Elf64_Phdr`, at its place in the file
pub record Phdr : Type 0 where
  pub p_type : ℕ
  pub p_offset : ℕ
  pub p_vaddr : ℕ
  pub p_filesz : ℕ
  pub p_memsz : ℕ

unfoldable pub phdr_at : Memory → ℕ → Phdr
phdr_at file at = record {
  p_type = le32 file at;
  p_offset = le64 file (at + 8);
  p_vaddr = le64 file (at + 16);
  p_filesz = le64 file (at + 32);
  p_memsz = le64 file (at + 40);
}

-- The messages of the returns without a program.
pub data Refusal : Type 0 where
  not_found no_memory not_read not_elf bad_phdr bad_entry no_pagemap bad_vaddr no_page no_stack :
      Refusal

-- The tests of the header in the order of the code; `none` where all are passed.
unfoldable pub refusal : Memory → (file_size : ℕ) → Option Refusal
refusal file file_size =
    let phoff = e_phoff file in
    if not (file 0 == 0x7F && file 1 == b'E' && file 2 == b'L' && file 3 == b'F')
    then some not_elf
    else if leb file_size phoff || ltb file_size (add64 phoff (e_phnum file * phdr_size))
    then some bad_phdr
    else if leb user_limit (e_entry file)
    then some bad_entry
    else none
