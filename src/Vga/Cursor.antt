-- ===== src/Vga/Cursor.antt =====
-- The cursor stays on the screen, and the pixels that are written stay in the framebuffer.
use lisp_dos.Base.{
  ℕ, zero, suc, ◌+◌, ◌*◌, ◌/◌, ◌≤◌, ◌<◌, ◌≡◌, refl, ap, ◌∙◌, List, [], ◌∷◌, arith, ltb, leb, ◌==◌,
  Memory, if_holds,
}
use native.Mathlib.Nat.{mul-le-mul_right}
use lisp_dos.Vga.{
  Framebuffer, Terminal, for_each, vga_get_max_rows, vga_get_max_cols, put_pixel, clear_cell,
  glyph_color, draw_glyph, next_row, step_back, advance, vga_putchar, vga_print,
}

-- A framebuffer with room for one character, whose rows do not overlap.
pub record IsFramebuffer (fb : Framebuffer) : Type 0 where
  pub some_rows : 16 ≤ fb.height
  pub some_cols : 16 ≤ fb.width
  pub pitch_covers : fb.width ≤ fb.pitch / 4

pub record OnScreen (fb : Framebuffer) (t : Terminal) : Type 0 where
  pub row_in : t.row < fb.height / 16
  pub column_in : t.column < fb.width / 16

pub for_each-keeps {ℓ κ} :
    {A : Type ℓ} (P : A → Type κ) (from n : ℕ) (body : ℕ → A → A) (s : A)
    → ((i : ℕ) → from ≤ i → i < from + n → (x : A) → P x → P (body i x))
    → P s
    → P (for_each from n body s)
unfolding for_each
for_each-keeps P from zero body s step p = p
for_each-keeps P from (suc n) body s step p =
    for_each-keeps P (from + 1) n body (body from s) (λ i lo hi. step i (omega arith) (omega arith))
      (step from (omega arith) (omega arith) s p)

module _ (fb : Framebuffer) (font : ℕ → ℕ → ℕ) (f : IsFramebuffer fb) where
  next_row-OnScreen : (t : Terminal) → t.column < fb.width / 16 → OnScreen fb (next_row fb font t)
  unfolding next_row vga_get_max_rows
  next_row-OnScreen t inside = record { row_in = ground (arith, f.some_rows); column_in = inside }

  step_back-OnScreen : (t : Terminal) → OnScreen fb t → OnScreen fb (step_back fb font t)
  unfolding step_back vga_get_max_cols
  step_back-OnScreen t o =
      if_holds (OnScreen fb) (ltb 0 t.column)
        (λ e. record { row_in = o.row_in; column_in = omega (arith, o.column_in) })
        λ e.
          if_holds (OnScreen fb) (ltb 0 t.row)
            (λ e. record {
              row_in = omega (arith, o.row_in);
              column_in = omega (arith, f.some_cols);
            })
            λ e. o

  advance-OnScreen : (t : Terminal) → OnScreen fb t → OnScreen fb (advance fb font t)
  unfolding advance vga_get_max_cols
  advance-OnScreen t o =
      if_holds (OnScreen fb) (leb (fb.width / 16) (t.column + 1))
        (λ e. next_row-OnScreen (record t { column = 0 }) (omega (arith, f.some_cols)))
        λ e. record { row_in = o.row_in; column_in = ground arith }

  putchar-OnScreen : (t : Terminal) (c : ℕ) → OnScreen fb t → OnScreen fb (vga_putchar fb font t c)
  unfolding vga_putchar
  putchar-OnScreen t c o =
      let back = step_back-OnScreen t o in
      if_holds (OnScreen fb) (c == 8)
        (λ e. record { row_in = back.row_in; column_in = back.column_in })
        λ e.
          if_holds (OnScreen fb) (c == 10)
            (λ e. next_row-OnScreen (record t { column = 0 }) (omega (arith, f.some_cols)))
            λ e.
              advance-OnScreen (record t { pixels = draw_glyph fb font t c })
                (record { row_in = o.row_in; column_in = o.column_in })

  -- The pixels behind the framebuffer are those of `old`.
  Inside : Memory → Memory → Type 0
  Inside old m = (i : ℕ) → fb.height * (fb.pitch / 4) ≤ i → m i ≡ old i

  put_pixel-Inside :
      (old m : Memory) (y x color : ℕ)
      → y < fb.height
      → x < fb.pitch / 4
      → Inside old m
      → Inside old (put_pixel fb font y x color m)
  unfolding put_pixel Inside
  put_pixel-Inside old m y x color hy hx inside i hi =
      let last = mul-le-mul_right (fb.pitch / 4) hy in
      let before : y * (fb.pitch / 4) + x < fb.height * (fb.pitch / 4) = omega (arith, last) in
      ground (arith, inside i hi)

  clear_cell-Inside : (t : Terminal) → OnScreen fb t → Inside t.pixels (clear_cell fb font t)
  unfolding clear_cell Inside
  clear_cell-Inside t o =
      for_each-keeps (Inside t.pixels) 0 16 _ t.pixels
        (λ y lo hi m in_y.
          for_each-keeps (Inside t.pixels) 0 16 _ m
            (λ x lo_x hi_x m in_x.
              put_pixel-Inside t.pixels m (t.row * 16 + y) (t.column * 16 + x) t.bg_color
                (omega (arith, o.row_in)) (omega (arith, o.column_in, f.pitch_covers)) in_x)
            in_y)
        λ i hi. refl

  draw_glyph-Inside :
      (t : Terminal) (c : ℕ) → OnScreen fb t → Inside t.pixels (draw_glyph fb font t c)
  unfolding draw_glyph Inside
  draw_glyph-Inside t c o =
      for_each-keeps (Inside t.pixels) 0 8 _ t.pixels
        (λ y lo hi m in_y.
          for_each-keeps (Inside t.pixels) 0 8 _ m
            (λ x lo_x hi_x m in_x.
              for_each-keeps (Inside t.pixels) 0 2 _ m
                (λ sy lo_sy hi_sy m in_sy.
                  for_each-keeps (Inside t.pixels) 0 2 _ m
                    (λ sx lo_sx hi_sx m in_sx.
                      put_pixel-Inside t.pixels m (t.row * 16 + y * 2 + sy)
                        (t.column * 16 + x * 2 + sx) (glyph_color fb font t c y x)
                        (omega (arith, o.row_in)) (omega (arith, o.column_in, f.pitch_covers))
                        in_sx)
                    in_sy)
                in_x)
            in_y)
        λ i hi. refl

  pixels-next_row : (t : Terminal) → (next_row fb font t).pixels ≡ t.pixels
  unfolding next_row
  pixels-next_row t = refl

  pub pixels-advance : (t : Terminal) → (advance fb font t).pixels ≡ t.pixels
  unfolding advance next_row
  pixels-advance t =
      if_holds (λ (after : Terminal). after.pixels ≡ t.pixels)
        (leb (vga_get_max_cols fb font) (t.column + 1)) (λ e. refl) λ e. refl

  pixels-step_back : (t : Terminal) → (step_back fb font t).pixels ≡ t.pixels
  unfolding step_back
  pixels-step_back t =
      if_holds (λ (after : Terminal). after.pixels ≡ t.pixels) (ltb 0 t.column) (λ e. refl)
        λ e.
          if_holds (λ (after : Terminal). after.pixels ≡ t.pixels) (ltb 0 t.row) (λ e. refl)
            λ e. refl

  putchar-Inside :
      (t : Terminal) (c : ℕ) → OnScreen fb t → Inside t.pixels (vga_putchar fb font t c).pixels
  unfolding vga_putchar Inside
  putchar-Inside t c o =
      if_holds (λ (after : Terminal). Inside t.pixels after.pixels) (c == 8)
        (λ e i hi.
          clear_cell-Inside (step_back fb font t) (step_back-OnScreen t o) i hi
          ∙ ap (λ m. m i) (pixels-step_back t))
        λ e.
          if_holds (λ (after : Terminal). Inside t.pixels after.pixels) (c == 10)
            (λ e i hi. ap (λ m. m i) (pixels-next_row (record t { column = 0 })))
            λ e i hi.
              ap (λ m. m i) (pixels-advance (record t { pixels = draw_glyph fb font t c }))
              ∙ draw_glyph-Inside t c o i hi

  -- On a framebuffer with room for a character and rows that do not overlap, printing a string from
  -- a cursor on the screen leaves the cursor on the screen, and writes
  -- no pixel behind the framebuffer.
  pub print_lem :
      (t : Terminal) (s : List ℕ)
      → OnScreen fb t
      → OnScreen fb (vga_print fb font t s)
        × ((i : ℕ) → fb.height * (fb.pitch / 4) ≤ i → (vga_print fb font t s).pixels i ≡ t.pixels i)
  unfolding vga_print Inside
  print_lem t [] o = (o, λ i hi. refl)
  print_lem t (c ∷ s) o =
      let (on, inside) = print_lem (vga_putchar fb font t c) s (putchar-OnScreen t c o) in
      (on, λ i hi. inside i hi ∙ putchar-Inside t c o i hi)
