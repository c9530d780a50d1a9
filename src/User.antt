-- ===== src/User.antt =====
-- The system calls as user code makes them, src/tools/syscalls.h: the registers that a wrapper
-- fills, and what it makes of the answer. The `syscall` instruction hands the registers to the
-- dispatcher as they are.
pub mod Wrappers
mod Tests
use lisp_dos.Base.{ℕ, ◌+◌, ◌-◌, ◌^◌, ltb, if◌then◌else◌, u8, u32}

-- `rax`, `rdi`, `rsi` and `rdx`; what a wrapper does not fill is left from before.
pub record Registers : Type 0 where
  pub rax : ℕ
  pub rdi : ℕ
  pub rsi : ℕ
  pub rdx : ℕ

abbrev pub syscall0 : Registers → ℕ → Registers
syscall0 r num = record r { rax = num }

abbrev pub syscall1 : Registers → (num arg1 : ℕ) → Registers
syscall1 r num arg1 = record r { rax = num; rdi = arg1 }

abbrev pub syscall2 : Registers → (num arg1 arg2 : ℕ) → Registers
syscall2 r num arg1 arg2 = record r { rax = num; rdi = arg1; rsi = arg2 }

abbrev pub syscall3 : Registers → (num arg1 arg2 arg3 : ℕ) → Registers
syscall3 r num arg1 arg2 arg3 = record { rax = num; rdi = arg1; rsi = arg2; rdx = arg3 }

-- A `char` and an `int`, by their bits, as a `uint64_t`.
unfoldable pub from_char : ℕ → ℕ
from_char c = if ltb c 128 then c else 2 ^ 64 - 256 + c

unfoldable pub from_int : ℕ → ℕ
from_int n = if ltb n (2 ^ 31) then n else 2 ^ 64 - 2 ^ 32 + n

unfoldable pub sys_write : Registers → (str : ℕ) → Registers
sys_write r str = syscall3 r 1 1 str 0

unfoldable pub sys_clear : Registers → Registers
sys_clear r = syscall0 r 2

unfoldable pub sys_set_cursor : Registers → (row col : ℕ) → Registers
unfolding from_int
sys_set_cursor r row col = syscall2 r 3 (from_int row) (from_int col)

unfoldable pub sys_putchar : Registers → (c : ℕ) → Registers
unfolding from_char
sys_putchar r c = syscall1 r 4 (from_char c)

unfoldable pub sys_set_color : Registers → (bg fg : ℕ) → Registers
sys_set_color r bg fg = syscall2 r 5 bg fg

unfoldable pub sys_get_max_rows : Registers → Registers
sys_get_max_rows r = syscall0 r 6

unfoldable pub sys_keyboard_getchar : Registers → Registers
sys_keyboard_getchar r = syscall0 r 7

unfoldable pub sys_fat16_read_file : Registers → (filename buffer : ℕ) → Registers
sys_fat16_read_file r filename buffer = syscall2 r 8 filename buffer

unfoldable pub sys_fat16_write_file : Registers → (filename buffer size : ℕ) → Registers
sys_fat16_write_file r filename buffer size = syscall3 r 9 filename buffer size

unfoldable pub sys_fat16_get_file_size : Registers → (filename : ℕ) → Registers
sys_fat16_get_file_size r filename = syscall1 r 10 filename

unfoldable pub sys_exit : Registers → Registers
sys_exit r = syscall0 r 60

-- `(char)` and `(int)` of the answer
abbrev pub to_char : ℕ → ℕ
to_char answer = u8 answer

abbrev pub to_int : ℕ → ℕ
to_int answer = u32 answer
