-- ===== src/Vga.antt =====
-- The text terminal of src/hal/vga.c on the linear framebuffer: the cursor, the colours and the
-- pixels. The port write that copies each character to the serial line is left out.
pub mod Cursor
pub mod Glyph
pub mod Hex
mod Tests
use lisp_dos.Base.{
  ℕ, zero, suc, ◌+◌, ◌-◌, ◌*◌, ◌/◌, ◌%◌, ◌^◌, List, [], ◌∷◌, ltb, leb, ◌==◌, if◌then◌else◌, Memory,
  update, nth,
}

-- What the boot loader says of the framebuffer; `stride` is `pitch / 4`, the pixels of a row.
pub record Framebuffer : Type 0 where
  pub width : ℕ
  pub height : ℕ
  pub pitch : ℕ

pub record Terminal : Type 0 where
  pub row : ℕ
  pub column : ℕ
  pub fg_color : ℕ
  pub bg_color : ℕ
  pub pixels : Memory

-- `for (i = from; i < from + n; i++)`
unfoldable pub for_each {ℓ} : {A : Type ℓ} → (from n : ℕ) → (ℕ → A → A) → A → A
for_each from zero body s = s
for_each from (suc n) body s = for_each (from + 1) n body (body from s)

-- The font of font8x8_basic.h, as the byte of a character's row.
module _ (fb : Framebuffer) (font : ℕ → ℕ → ℕ) where
  unfoldable pub vga_clear : Terminal → Terminal
  vga_clear t = record t {
    pixels = for_each 0 (fb.width * fb.height) (λ i m. update m i t.bg_color) t.pixels;
    row = 0;
    column = 0;
  }

  pub vga_set_cursor : Terminal → (row col : ℕ) → Terminal
  vga_set_cursor t row col = record t { row = row; column = col }

  unfoldable pub vga_get_max_rows : ℕ
  vga_get_max_rows = fb.height / 16

  unfoldable pub vga_get_max_cols : ℕ
  vga_get_max_cols = fb.width / 16

  -- `fb_ptr[fb_y * (fb->pitch / 4) + fb_x] = color`
  unfoldable pub put_pixel : (fb_y fb_x color : ℕ) → Memory → Memory
  put_pixel fb_y fb_x color m = update m (fb_y * (fb.pitch / 4) + fb_x) color

  unfoldable pub clear_cell : Terminal → Memory
  clear_cell t =
      for_each 0 16
        (λ y. for_each 0 16 λ x. put_pixel (t.row * 16 + y) (t.column * 16 + x) t.bg_color) t.pixels

  unfoldable pub glyph_color : Terminal → (c y x : ℕ) → ℕ
  glyph_color t c y x = if font c y / 2 ^ x % 2 == 1 then t.fg_color else t.bg_color

  -- From character 128 on the code reads behind its table of 128, which C does not define: what the
  -- font says there is whatever stands in memory.
  unfoldable pub draw_glyph : Terminal → ℕ → Memory
  draw_glyph t c =
      for_each 0 8
        (λ y. for_each 0 8 λ x. for_each 0 2 λ sy. for_each 0 2 λ sx.
          put_pixel (t.row * 16 + y * 2 + sy) (t.column * 16 + x * 2 + sx) (glyph_color t c y x))
        t.pixels

  -- `if (++terminal_row >= fb->height / 16) terminal_row = 0;`
  unfoldable pub next_row : Terminal → Terminal
  next_row t = record t { row = if leb vga_get_max_rows (t.row + 1) then 0 else t.row + 1 }

  unfoldable pub step_back : Terminal → Terminal
  step_back t =
      if ltb 0 t.column
      then record t { column = t.column - 1 }
      else if ltb 0 t.row
      then record t { row = t.row - 1; column = vga_get_max_cols - 1 }
      else t

  unfoldable pub advance : Terminal → Terminal
  advance t =
      if leb vga_get_max_cols (t.column + 1)
      then next_row (record t { column = 0 })
      else record t { column = t.column + 1 }

  unfoldable pub vga_putchar : Terminal → ℕ → Terminal
  vga_putchar t c =
      if c == 8
      then (let back = step_back t in record back { pixels = clear_cell back })
      else if c == 10
      then next_row (record t { column = 0 })
      else advance (record t { pixels = draw_glyph t c })

  unfoldable pub vga_print : Terminal → List ℕ → Terminal
  vga_print t [] = t
  vga_print t (c ∷ s) = vga_print (vga_putchar t c) s

-- The 16 colours that `vga_set_color` chooses from.
abbrev colors : List ℕ
colors =
    0x000000 ∷ 0x0000AA ∷ 0x00AA00 ∷ 0x00AAAA ∷ 0xAA0000 ∷ 0xAA00AA ∷ 0xAA5500 ∷ 0xAAAAAA ∷ 0x555555
    ∷ 0x5555FF ∷ 0x55FF55 ∷ 0x55FFFF ∷ 0xFF5555 ∷ 0xFF55FF ∷ 0xFFFF55 ∷ 0xFFFFFF ∷ []

pub vga_set_color : Terminal → (fg bg : ℕ) → Terminal
vga_set_color t fg bg = record t {
  fg_color = nth colors (fg % 16);
  bg_color = nth colors (bg % 16);
}

unfoldable pub hex_digit : ℕ → ℕ
hex_digit d = if ltb d 10 then 48 + d else 65 + (d - 10)

-- The loop of `vga_print_hex`; the array is the list of what it holds, last written first.
unfoldable pub hex_loop : (fuel n : ℕ) → List ℕ → List ℕ
hex_loop zero n buffer = buffer
hex_loop (suc fuel) n buffer =
    let rest = hex_loop fuel (n / 16) (hex_digit (n % 16) ∷ buffer) in
    if ltb 0 n then rest else buffer

-- The characters `vga_print_hex` prints after `0x`. A number of 64 bits has at most 16 digits.
unfoldable pub hex_chars : ℕ → List ℕ
hex_chars n = if n == 0 then 48 ∷ [] else hex_loop 16 n []
