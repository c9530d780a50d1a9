-- ===== src/User/Wrappers.antt =====
-- The wrappers of src/tools/syscalls.h and the dispatcher of src/kernel/syscall.c together.
use lisp_dos.Base.{ℕ, ◌<◌, ◌≡◌, refl, none, some, List, arith, u8}
use lisp_dos.Keyboard.{Keyboard, keyboard_getchar}
use lisp_dos.Vga.{Framebuffer, vga_putchar}
use lisp_dos.Syscall
use lisp_dos.Syscall.{waiting, Kernel, Answer, returns, syscall_handler_c}
use lisp_dos.User.{to_char, sys_keyboard_getchar, Registers, from_char, sys_putchar}

module _ (fb : Framebuffer) (font : ℕ → ℕ → ℕ) (complaint : ℕ → ℕ → List ℕ) (k : Kernel)
    (fuel : ℕ) where
  -- The dispatcher on the registers that a wrapper filled.
  abbrev pub call : Registers → Answer
  call r = syscall_handler_c fb font complaint k fuel r.rax r.rdi r.rsi r.rdx

  pub putchar_call :
      (r : Registers) (c : ℕ)
      → c < 256
      → call (sys_putchar r c)
        ≡ returns 0 (record k { terminal = vga_putchar fb font k.terminal c })
  unfolding syscall_handler_c sys_putchar
  putchar_call r c byte =
      let same : u8 (from_char c) ≡ c = unfold from_char in ground arith in rw same refl

  getchar_waits :
      (r : Registers) → keyboard_getchar k.keyboard ≡ none → call (sys_keyboard_getchar r) ≡ waiting
  unfolding syscall_handler_c sys_keyboard_getchar
  getchar_waits r none_there = rw (none_there, syscall_handler_c) refl

  getchar_gives :
      (r : Registers) (c : ℕ) (keyboard : Keyboard)
      → c < 256
      → keyboard_getchar k.keyboard ≡ some (c, keyboard)
      → (answer : ℕ) × (call (sys_keyboard_getchar r)
          ≡ returns answer (record k { keyboard = keyboard }))
        × (to_char answer ≡ c)
  unfolding syscall_handler_c sys_keyboard_getchar Syscall.from_char
  getchar_gives r c keyboard byte there =
      (Syscall.from_char c, rw (there, syscall_handler_c) refl, ground arith)

-- A character of 8 bits goes through the wrappers unchanged, though both ends extend its sign:
-- `sys_putchar` prints that very character and answers 0, and `sys_keyboard_getchar` waits where
-- the keyboard has no character, and returns the character that it gives otherwise, taking it out
-- of the keyboard's ring and changing nothing else.
pub char_calls :
    (fb : Framebuffer) (font : ℕ → ℕ → ℕ) (complaint : ℕ → ℕ → List ℕ) (k : Kernel) (fuel : ℕ)
    (r : Registers) (c : ℕ)
    → c < 256
    → (call fb font complaint k fuel (sys_putchar r c)
        ≡ returns 0 (record k { terminal = vga_putchar fb font k.terminal c }))
      × ((keyboard_getchar k.keyboard ≡ none)
          → call fb font complaint k fuel (sys_keyboard_getchar r) ≡ waiting)
      × ((keyboard : Keyboard)
          → keyboard_getchar k.keyboard ≡ some (c, keyboard)
          → (answer : ℕ) × (call fb font complaint k fuel (sys_keyboard_getchar r)
              ≡ returns answer (record k { keyboard = keyboard }))
            × (to_char answer ≡ c))
char_calls fb font complaint k fuel r c byte = (
  putchar_call fb font complaint k fuel r c byte,
  getchar_waits fb font complaint k fuel r,
  λ keyboard. getchar_gives fb font complaint k fuel r c keyboard byte,
)
