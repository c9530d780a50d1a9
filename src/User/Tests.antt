-- ===== src/User/Tests.antt =====
-- Characters through the wrappers.
use lisp_dos.Base.{ℕ, ◌-◌, ◌^◌, ◌≡◌, refl, false, none, some, List, [], arith}
use lisp_dos.Vga.{Framebuffer, vga_putchar}
use lisp_dos.Fat16.Volume.{mounted}
use lisp_dos.Keyboard.{Keyboard, keyboard_getchar}
use lisp_dos.Syscall.{Kernel, returns, waiting}
use lisp_dos.User.{Registers, to_char, sys_set_cursor, sys_putchar, sys_keyboard_getchar}
use lisp_dos.User.Wrappers.{call, char_calls}

abbrev screen : Framebuffer
screen = record { width = 640; height = 480; pitch = 2560 }

abbrev dots : ℕ → ℕ → ℕ
dots c y = 0

abbrev silent : ℕ → ℕ → List ℕ
silent a size = []

-- One character, of code 200, waits.
abbrev kernel : Kernel
kernel = record {
  terminal = record { row = 0; column = 0; fg_color = 0; bg_color = 0; pixels = λ i. 0 };
  keyboard = record { buffer = λ i. 200; head = 1; tail = 0; shift = false; e0 = false };
  volume = mounted (record {
    bytes_per_sector = 512;
    sectors_per_cluster = 1;
    reserved_sector_count = 1;
    table_count = 2;
    root_entry_count = 16;
    total_sectors_16 = 12;
    table_size_16 = 1;
    total_sectors_32 = 0;
  });
  disk = λ lba o. 0;
  user = λ a. 65;
  words = λ a. 0;
  cr3 = 0x1000;
  pmm = record { bitmap = λ i. 0; free_memory = 0; highest_page = 0; last_allocated_index = 0 };
}

abbrev left_over : Registers
left_over = record { rax = 0; rdi = 5; rsi = 6; rdx = 7 }

char_calls_example :
    (call screen dots silent kernel 3 (sys_putchar left_over 200)
      ≡ returns 0 (record kernel { terminal = vga_putchar screen dots kernel.terminal 200 }))
    × ((keyboard_getchar kernel.keyboard ≡ none)
        → call screen dots silent kernel 3 (sys_keyboard_getchar left_over) ≡ waiting)
    × ((keyboard : Keyboard)
        → keyboard_getchar kernel.keyboard ≡ some (200, keyboard)
        → (answer : ℕ) × (call screen dots silent kernel 3 (sys_keyboard_getchar left_over)
            ≡ returns answer (record kernel { keyboard = keyboard }))
          × (to_char answer ≡ 200))
char_calls_example = char_calls screen dots silent kernel 3 left_over 200 (omega arith)

-- A row of -1 goes to the kernel as 64 bits.
negative_row : (sys_set_cursor left_over (2 ^ 32 - 1) 2).rdi ≡ 2 ^ 64 - 1
unfolding sys_set_cursor
negative_row = refl
