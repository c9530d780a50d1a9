-- ===== src/Vga/Tests.antt =====
-- A screen of 640 by 480 pixels with padded rows.
use lisp_dos.Base.{ℕ, ◌+◌, ◌*◌, ◌/◌, ◌%◌, ◌^◌, ◌≤◌, ◌≡◌, refl, [], ◌∷◌, arith, ◌==◌, if◌then◌else◌}
use lisp_dos.Vga.{Framebuffer, Terminal, vga_print, vga_putchar, hex_chars, hex_loop, hex_digit}
use lisp_dos.Vga.Cursor.{IsFramebuffer, OnScreen, print_lem}
use lisp_dos.Vga.Glyph.{putchar_lem}

abbrev screen : Framebuffer
screen = record { width = 640; height = 480; pitch = 4096 }

abbrev dots : ℕ → ℕ → ℕ
dots c y = 0x81

abbrev term : Terminal
term = record { row = 29; column = 39; fg_color = 0xFF00; bg_color = 0; pixels = λ i. 7 }

screen-IsFramebuffer : IsFramebuffer screen
screen-IsFramebuffer = record {
  some_rows = omega arith;
  some_cols = omega arith;
  pitch_covers = omega arith;
}

term-OnScreen : OnScreen screen term
term-OnScreen = record { row_in = omega arith; column_in = omega arith }

prints_hex : hex_chars 0x1F0A ≡ 49 ∷ 70 ∷ 48 ∷ 65 ∷ []
unfolding hex_chars hex_loop hex_digit
prints_hex = refl

print_lem_example :
    OnScreen screen (vga_print screen dots term (65 ∷ 8 ∷ 10 ∷ []))
    × ((i : ℕ)
        → 480 * (4096 / 4) ≤ i
        → (vga_print screen dots term (65 ∷ 8 ∷ 10 ∷ [])).pixels i ≡ term.pixels i)
print_lem_example = print_lem screen dots screen-IsFramebuffer term (65 ∷ 8 ∷ 10 ∷ []) term-OnScreen

putchar_lem_example :
    (vga_putchar screen dots term 65).pixels ((29 * 16 + 3) * (4096 / 4) + (39 * 16 + 15))
    ≡ (if dots 65 (3 / 2) / 2 ^ (15 / 2) % 2 == 1 then 0xFF00 else 0)
putchar_lem_example =
    putchar_lem screen dots screen-IsFramebuffer term term-OnScreen 65 3 15 (omega arith)
      (omega arith) (omega arith) (omega arith)
