-- ===== src/Syscall.antt =====
-- The dispatcher of src/kernel/syscall.c on the state of the parts that it calls. User memory is by
-- virtual address; the page tables are not in pages that user code may write.
pub mod Checks
mod Tests
use lisp_dos.Base.{
  ℕ, zero, suc, ◌+◌, ◌-◌, ◌^◌, true, false, not, none, some, List, [], ◌∷◌, ltb, leb, ◌==◌,
  if◌then◌else◌, Memory, u8, u32,
}
use lisp_dos.Pmm.{Pmm}
use lisp_dos.Vmm.{Vm, has_zero, vmm_check_user_ptr, vmm_check_user_string}
use lisp_dos.Vmm.Space.{vmm_free_pagemap}
use lisp_dos.Vga.{
  Framebuffer, Terminal, vga_clear, vga_set_cursor, vga_putchar, vga_print, vga_set_color,
  vga_get_max_rows,
}
use lisp_dos.Keyboard.{Keyboard, keyboard_getchar}
use lisp_dos.Ata.{Disk}
use lisp_dos.Fat16.Volume.{Volume}
use lisp_dos.Fat16.Directory.{get_file_size}
use lisp_dos.Fat16.Read.{read_file}
use lisp_dos.Fat16.Write.{write_file}

pub record Kernel : Type 0 where
  pub terminal : Terminal
  pub keyboard : Keyboard
  pub volume : Volume
  pub disk : Disk
  pub user : Memory
  pub words : Memory
  pub cr3 : ℕ
  pub pmm : Pmm

-- `waiting` is the wait for a key; `exited` is the return to the shell by `sys_exit`, on the kernel's
-- page map, with the memory after the page map of the program was given back.
pub data Answer : Type 0 where
  returns : ℕ → Kernel → Answer
  waiting : Answer
  exited : Vm → Answer
  out_of_fuel : Answer

-- The characters of the string at `at`, which ends within the fuel.
unfoldable pub string_at : Memory → (fuel at : ℕ) → List ℕ
string_at user zero at = []
string_at user (suc n) at =
    let rest = string_at user n (at + 1) in if user at == 0 then [] else user at ∷ rest

-- Memory with what lies at `at` and above replaced.
unfoldable pub paste : Memory → ℕ → Memory → Memory
paste user at buffer a = if leb at a then buffer (a - at) else user a

abbrev pub failed : ℕ
failed = 2 ^ 64 - 1

-- A `char` as the handler returns it: sign-extended.
unfoldable pub from_char : ℕ → ℕ
from_char c = if ltb c 128 then c else 2 ^ 64 - 256 + c

-- An `int` as the handler returns it.
unfoldable pub from_int : ℕ → ℕ
from_int n = if ltb (u32 n) (2 ^ 31) then u32 n else 2 ^ 64 - 2 ^ 32 + u32 n

-- `if (!vmm_check_user_string(at)) return (uint64_t)-1;`, and the answer that follows it, for which
-- the fuel must reach the end of the string.
unfoldable pub with_string : Kernel → (fuel at : ℕ) → Answer → Answer
with_string k fuel at next = elim (vmm_check_user_string k.words k.user k.cr3 at fuel) [
  | none ↦ out_of_fuel
  | some false ↦ returns failed k
  | some true ↦ if has_zero k.user fuel at then next else out_of_fuel
]

unfoldable pub sys_read_file : Kernel → (fuel arg1 arg2 : ℕ) → Kernel → Answer
sys_read_file k fuel arg1 arg2 complaint =
    let name = string_at k.user fuel arg1 in
    let size = get_file_size k.volume k.disk name in
    let result = read_file k.volume k.disk fuel name (λ o. k.user (arg2 + o)) in
    if size == 0
    then returns 0 k
    else if not (vmm_check_user_ptr k.words k.cr3 arg2 size true)
    then returns failed complaint
    else elim result [
      | none ↦ out_of_fuel
      | some (n, buffer) ↦ returns (from_int n) (record k { user = paste k.user arg2 buffer })
    ]

unfoldable pub sys_write_file : Kernel → (fuel arg1 arg2 arg3 : ℕ) → Answer
sys_write_file k fuel arg1 arg2 arg3 =
    let size = u32 arg3 in
    let result =
      write_file k.volume k.disk fuel (string_at k.user fuel arg1) (λ o. k.user (arg2 + o)) size in
    if not (vmm_check_user_ptr k.words k.cr3 arg2 size false)
    then returns failed k
    else elim result [ none ↦ out_of_fuel | some (n, disk) ↦ returns 0 (record k { disk = disk }) ]

-- `complaint` is the text that `sys_read_file` prints about a bad buffer.
module _ (fb : Framebuffer) (font : ℕ → ℕ → ℕ) (complaint : ℕ → ℕ → List ℕ) where
  unfoldable pub syscall_handler_c : Kernel → (fuel num arg1 arg2 arg3 : ℕ) → Answer
  syscall_handler_c k fuel num arg1 arg2 arg3 =
      if num == 1
      then with_string k fuel arg2 (
          returns 0
            (record k { terminal = vga_print fb font k.terminal (string_at k.user fuel arg2) }))
      else if num == 2
      then returns 0 (record k { terminal = vga_clear fb font k.terminal })
      else if num == 3
      then returns 0 (record k { terminal = vga_set_cursor fb font k.terminal arg1 arg2 })
      else if num == 4
      then returns 0 (record k { terminal = vga_putchar fb font k.terminal (u8 arg1) })
      else if num == 5
      then returns 0 (record k { terminal = vga_set_color k.terminal (u8 arg1) (u8 arg2) })
      else if num == 6
      then returns (vga_get_max_rows fb font) k
      else if num == 7
      then elim (keyboard_getchar k.keyboard) [
        | none ↦ waiting
        | some (c, keyboard) ↦ returns (from_char c) (record k { keyboard = keyboard })
      ]
      else if num == 8
      then with_string k fuel arg1 (
          sys_read_file k fuel arg1 arg2 (record k {
            terminal =
                vga_print fb font k.terminal
                  (complaint arg2 (get_file_size k.volume k.disk (string_at k.user fuel arg1)));
          }))
      else if num == 9
      then with_string k fuel arg1 (sys_write_file k fuel arg1 arg2 arg3)
      else if num == 10
      then with_string k fuel arg1
          (returns (get_file_size k.volume k.disk (string_at k.user fuel arg1)) k)
      else if num == 60
      then exited (vmm_free_pagemap (record { pmm = k.pmm; words = k.words }) (some k.cr3))
      else returns 0 k
