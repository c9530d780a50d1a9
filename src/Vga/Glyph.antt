-- ===== src/Vga/Glyph.antt =====
-- What `vga_putchar` draws: every dot of the font's character as two by two pixels.
use lisp_dos.Base.{
  ℕ, zero, suc, ◌+◌, ◌*◌, ◌/◌, ◌%◌, ◌^◌, ◌≤◌, ◌<◌, ◌≡◌, sym, ap, ◌∙◌, ◌≢◌, inl, inr, arith, leb,
  ◌==◌, if◌then◌else◌, eqb→eq, ne→eqb, Bool-cases, Memory, update_self, subst,
}
use native.Mathlib.Nat.{mul-le-mul_right}
use lisp_dos.Vga.{Framebuffer, Terminal, for_each, put_pixel, glyph_color, draw_glyph, vga_putchar}
use lisp_dos.Vga.Cursor.{IsFramebuffer, OnScreen, for_each-keeps, pixels-advance}

-- A property that round `j` of a loop brings about and every round keeps holds after the loop.
for_each-reaches {ℓ κ} :
    {A : Type ℓ} (P : A → Type κ) (from n j : ℕ) (body : ℕ → A → A) (s : A)
    → from ≤ j
    → j < from + n
    → ((i : ℕ) → from ≤ i → i < from + n → (x : A) → P x → P (body i x))
    → ((x : A) → P (body j x))
    → P (for_each from n body s)
unfolding for_each
for_each-reaches P from zero j body s lo hi step reach = absurd (omega arith)
for_each-reaches P from (suc n) j body s lo hi step reach = elim (Bool-cases (from == j)) [
  | inl e ↦
      let now = subst (λ i. P (body i s)) (sym (eqb→eq from j e)) (reach s) in
      for_each-keeps P (from + 1) n body (body from s)
        (λ i lo hi. step i (omega arith) (omega arith)) now
  | inr e ↦
      for_each-reaches P (from + 1) n j body (body from s) (ground arith) (omega arith)
        (λ i lo hi. step i (omega arith) (omega arith)) reach
]

rows_le : (y x y2 x2 stride : ℕ) → x2 < stride → y * stride + x ≡ y2 * stride + x2 → y ≤ y2
rows_le y x y2 x2 stride hx2 e = elim (Bool-cases (leb y y2)) [
  | inl le ↦ ground arith
  | inr gt ↦
      let above : y2 + 1 ≤ y = ground arith in
      let apart = mul-le-mul_right stride above in absurd (omega (arith, apart))
]

-- Two positions on rows that do not overlap are the same pixel only if they are the same position.
same_pixel :
    (y x y2 x2 stride : ℕ)
    → x < stride
    → x2 < stride
    → y * stride + x ≡ y2 * stride + x2
    → (y ≡ y2) × (x ≡ x2)
same_pixel y x y2 x2 stride hx hx2 e =
    let same_row : y ≡ y2 =
      omega (arith, rows_le y x y2 x2 stride hx2 e, rows_le y2 x2 y x stride hx (sym e)) in
    (same_row, omega (arith, ap (λ r. r * stride) same_row))

module _ (fb : Framebuffer) (font : ℕ → ℕ → ℕ) (f : IsFramebuffer fb) (t : Terminal)
    (o : OnScreen fb t) (c dy dx : ℕ) (hy : dy < 16) (hx : dx < 16) where
  -- The dot has its colour at pixel (dy, dx) of the cell.
  Drawn : Memory → Type 0
  Drawn m =
      m ((t.row * 16 + dy) * (fb.pitch / 4) + (t.column * 16 + dx))
      ≡ glyph_color fb font t c (dy / 2) (dx / 2)

  color_eq :
      (y x : ℕ)
      → y ≡ dy / 2
      → x ≡ dx / 2
      → glyph_color fb font t c y x ≡ glyph_color fb font t c (dy / 2) (dx / 2)
  color_eq y x ey ex = rw (ey, ex)

  dot-keeps :
      (m : Memory) (y x sy sx : ℕ)
      → y < 8
      → x < 8
      → sy < 2
      → sx < 2
      → Drawn m
      → Drawn (
          put_pixel fb font
            (t.row * 16 + y * 2 + sy)
            (t.column * 16 + x * 2 + sx)
            (glyph_color fb font t c y x)
            m)
  unfolding Drawn put_pixel
  dot-keeps m y x sy sx h1 h2 h3 h4 drawn =
      let Y = t.row * 16 + y * 2 + sy in
      let X = t.column * 16 + x * 2 + sx in
      elim (Bool-cases
        (Y * (fb.pitch / 4) + X == (t.row * 16 + dy) * (fb.pitch / 4) + (t.column * 16 + dx))) [
          | inl same ↦
              let (row_same, col_same) =
                same_pixel Y X (t.row * 16 + dy) (t.column * 16 + dx) (fb.pitch / 4)
                  (omega (arith, o.column_in, f.pitch_covers))
                  (omega (arith, o.column_in, f.pitch_covers)) (eqb→eq _ _ same) in
              rw same (color_eq y x (omega arith) (omega arith))
          | inr other ↦ rw other drawn
        ]

  line_keeps :
      (y x sy : ℕ)
      → y < 8
      → x < 8
      → sy < 2
      → (m : Memory) → Drawn m
      → Drawn (
          for_each 0 2
            (λ sx.
              put_pixel fb font
                (t.row * 16 + y * 2 + sy)
                (t.column * 16 + x * 2 + sx)
                (glyph_color fb font t c y x))
            m)
  line_keeps y x sy hy hx hs m drawn =
      for_each-keeps Drawn 0 2 _ m (λ sx lo hi m drawn. dot-keeps m y x sy sx hy hx hs hi drawn)
        drawn

  column_keeps :
      (y x : ℕ)
      → y < 8
      → x < 8
      → (m : Memory) → Drawn m
      → Drawn (
          for_each 0 2
            (λ sy. for_each 0 2 λ sx.
              put_pixel fb font
                (t.row * 16 + y * 2 + sy)
                (t.column * 16 + x * 2 + sx)
                (glyph_color fb font t c y x))
            m)
  column_keeps y x hy hx m drawn =
      for_each-keeps Drawn 0 2 _ m (λ sy lo hi m drawn. line_keeps y x sy hy hx hi m drawn) drawn

  row_keeps :
      (y : ℕ)
      → y < 8
      → (m : Memory) → Drawn m
      → Drawn (
          for_each 0 8
            (λ x. for_each 0 2 λ sy. for_each 0 2 λ sx.
              put_pixel fb font
                (t.row * 16 + y * 2 + sy)
                (t.column * 16 + x * 2 + sx)
                (glyph_color fb font t c y x))
            m)
  row_keeps y hy m drawn =
      for_each-keeps Drawn 0 8 _ m (λ x lo hi m drawn. column_keeps y x hy hi m drawn) drawn

  dot-reaches :
      (m : Memory)
      → Drawn (
          put_pixel fb font
            (t.row * 16 + dy / 2 * 2 + dy % 2)
            (t.column * 16 + dx / 2 * 2 + dx % 2)
            (glyph_color fb font t c (dy / 2) (dx / 2))
            m)
  unfolding Drawn put_pixel
  dot-reaches m =
      let row_same : t.row * 16 + dy / 2 * 2 + dy % 2 ≡ t.row * 16 + dy = omega arith in
      let col_same : t.column * 16 + dx / 2 * 2 + dx % 2 ≡ t.column * 16 + dx = omega arith in
      rw (row_same, col_same) (update_self m (glyph_color fb font t c (dy / 2) (dx / 2)) _)

  draw_glyph_lem : Drawn (draw_glyph fb font t c)
  unfolding draw_glyph
  draw_glyph_lem =
      for_each-reaches Drawn 0 8 (dy / 2) _ t.pixels (omega arith) (omega arith)
        (λ y lo hi m drawn. row_keeps y hi m drawn)
        λ m.
          for_each-reaches Drawn 0 8 (dx / 2) _ m (omega arith) (omega arith)
            (λ x lo hi m drawn. column_keeps (dy / 2) x (omega arith) hi m drawn)
            λ m.
              for_each-reaches Drawn 0 2 (dy % 2) _ m (omega arith) (omega arith)
                (λ sy lo hi m drawn.
                  line_keeps (dy / 2) (dx / 2) sy (omega arith) (omega arith) hi m drawn)
                λ m.
                  for_each-reaches Drawn 0 2 (dx % 2) _ m (omega arith) (omega arith)
                    (λ sx lo hi m drawn.
                      dot-keeps m (dy / 2) (dx / 2) (dy % 2) sx (omega arith) (omega arith)
                        (omega arith) hi drawn)
                    λ m. dot-reaches m

  -- On a framebuffer with room for a character and rows that do not overlap, with the cursor on
  -- the screen, and for `dy` and `dx` below 16: after printing a character other than backspace and newline, the pixel of its cell that is
  -- `dy` down and `dx` right has the foreground colour where the dot (dy / 2, dx / 2) of the font
  -- is set, and the background colour elsewhere.
  pub putchar_lem :
      c ≢ 8
      → c ≢ 10
      → (vga_putchar fb font t c).pixels ((t.row * 16 + dy) * (fb.pitch / 4) + (t.column * 16 + dx))
        ≡ (if font c (dy / 2) / 2 ^ (dx / 2) % 2 == 1 then t.fg_color else t.bg_color)
  unfolding vga_putchar Drawn glyph_color
  putchar_lem not_back not_line =
      rw (ne→eqb c 8 not_back, ne→eqb c 10 not_line)
        (ap (λ m. m ((t.row * 16 + dy) * (fb.pitch / 4) + (t.column * 16 + dx)))
            (pixels-advance fb font f (record t { pixels = draw_glyph fb font t c }))
          ∙ draw_glyph_lem)
