-- ===== src/Keyboard.antt =====
-- The PS/2 keyboard of src/hal/keyboard.c: the interrupt handler decodes scan codes and puts
-- characters into a ring of 256, and `keyboard_getchar` takes them out.
pub mod Queue
pub mod Decode
mod Tests
use lisp_dos.Base.{
  ℕ, ◌+◌, ◌/◌, ◌%◌, Bool, true, false, not, ◌||◌, Option, none, some, List, [], ◌∷◌, ltb, ◌==◌,
  if◌then◌else◌, Memory, update, nth,
}

-- The static variables; the two flags are the integers that only become 0 or 1.
pub record Keyboard : Type 0 where
  pub buffer : Memory
  pub head : ℕ
  pub tail : ℕ
  pub shift : Bool
  pub e0 : Bool

-- `scancode_to_ascii` and `scancode_to_ascii_shift`, and the size of both.
abbrev ascii : List ℕ
ascii =
    0 ∷ 27 ∷ 49 ∷ 50 ∷ 51 ∷ 52 ∷ 53 ∷ 54 ∷ 55 ∷ 56 ∷ 57 ∷ 48 ∷ 45 ∷ 61 ∷ 8 ∷ 9 ∷ 113 ∷ 119 ∷ 101
    ∷ 114 ∷ 116 ∷ 121 ∷ 117 ∷ 105 ∷ 111 ∷ 112 ∷ 91 ∷ 93 ∷ 10 ∷ 0 ∷ 97 ∷ 115 ∷ 100 ∷ 102 ∷ 103 ∷ 104
    ∷ 106 ∷ 107 ∷ 108 ∷ 59 ∷ 39 ∷ 96 ∷ 0 ∷ 92 ∷ 122 ∷ 120 ∷ 99 ∷ 118 ∷ 98 ∷ 110 ∷ 109 ∷ 44 ∷ 46 ∷ 47
    ∷ 0 ∷ 42 ∷ 0 ∷ 32 ∷ []

abbrev ascii_shift : List ℕ
ascii_shift =
    0 ∷ 27 ∷ 33 ∷ 64 ∷ 35 ∷ 36 ∷ 37 ∷ 94 ∷ 38 ∷ 42 ∷ 40 ∷ 41 ∷ 95 ∷ 43 ∷ 8 ∷ 9 ∷ 81 ∷ 87 ∷ 69 ∷ 82
    ∷ 84 ∷ 89 ∷ 85 ∷ 73 ∷ 79 ∷ 80 ∷ 123 ∷ 125 ∷ 10 ∷ 0 ∷ 65 ∷ 83 ∷ 68 ∷ 70 ∷ 71 ∷ 72 ∷ 74 ∷ 75 ∷ 76
    ∷ 58 ∷ 34 ∷ 126 ∷ 0 ∷ 124 ∷ 90 ∷ 88 ∷ 67 ∷ 86 ∷ 66 ∷ 78 ∷ 77 ∷ 60 ∷ 62 ∷ 63 ∷ 0 ∷ 42 ∷ 0 ∷ 32
    ∷ []

unfoldable pub scancode_to_ascii : ℕ → ℕ
scancode_to_ascii scancode = nth ascii scancode

unfoldable pub scancode_to_ascii_shift : ℕ → ℕ
scancode_to_ascii_shift scancode = nth ascii_shift scancode

-- The character of a pressed key, 0 for none, as a byte: `c = 128` in a `char` is stored as 0x80.
unfoldable pub key_char : (shift e0 : Bool) → (scancode : ℕ) → ℕ
key_char shift true scancode =
    if scancode == 0x48
    then 128
    else if scancode == 0x50
    then 129
    else if scancode == 0x4B
    then 130
    else if scancode == 0x4D
    then 131
    else 0
key_char shift false scancode =
    if ltb scancode 58
    then (if shift then scancode_to_ascii_shift scancode else scancode_to_ascii scancode)
    else 0

-- `if (c) { keyboard_buffer[kbd_head] = c; kbd_head = (kbd_head + 1) % 256; }`
pub put_char : Keyboard → ℕ → Keyboard
put_char k c =
    if c == 0 then k else record k { buffer = update k.buffer k.head c; head = (k.head + 1) % 256 }

-- `status` and `scancode` are what the ports 0x64 and 0x60 give.
pub keyboard_handler : Keyboard → (status scancode : ℕ) → Keyboard
keyboard_handler k status scancode =
    if status % 2 == 1
    then (if scancode == 0xE0
        then record k { e0 = true }
        else if scancode == 0x2A || scancode == 0x36
        then record k { shift = true }
        else if scancode == 0xAA || scancode == 0xB6
        then record k { shift = false }
        else if scancode / 128 % 2 == 0
        then put_char (record k { e0 = false }) (key_char k.shift k.e0 scancode)
        else record k { e0 = false })
    else k

-- `none` where the loop goes on waiting for an interrupt.
pub keyboard_getchar : Keyboard → Option (ℕ × Keyboard)
keyboard_getchar k =
    if not (k.head == k.tail)
    then some (k.buffer k.tail, record k { tail = (k.tail + 1) % 256 })
    else none
