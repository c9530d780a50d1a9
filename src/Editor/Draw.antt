-- ===== src/Editor/Draw.antt =====
-- `draw_editor_ui` of src/tools/editor.c, as the calls that it makes.
use lisp_dos.Base.{
  ℕ, zero, suc, ◌+◌, ◌-◌, ◌<◌, ◌≡◌, refl, ap, ◌∙◌, inl, inr, true, false, not, ◌&&◌, ◌||◌, List, [],
  ◌∷◌, ◌++◌, arith, ltb, leb, ◌==◌, if◌then◌else◌, eqb→eq, Bool-cases, Memory, slice, u32, sub64,
  codes,
}
use lisp_dos.Editor.{Editor}
use lisp_dos.Editor.Text.{IsValid, before, after}

pub data Call : Type 0 where
  clear : Call
  set_cursor : (row col : ℕ) → Call
  print : List ℕ → Call
  putchar : ℕ → Call
  set_color : (bg fg : ℕ) → Call

-- The loop over the characters and the place behind them, with the rounds that are left.
unfoldable pub draw_chars : Memory → (buffer_len cursor left i : ℕ) → List Call
draw_chars m len cursor zero i = []
draw_chars m len cursor (suc left) i =
    let rest = draw_chars m len cursor left (i + 1) in
    let blank = putchar 32 ∷ set_color 2 0 ∷ (if ltb i len then putchar 10 ∷ rest else rest) in
    let inverted = putchar (m i) ∷ set_color 2 0 ∷ rest in
    if i == cursor
    then set_color 0 2 ∷ (if i == len || m i == 10 then blank else inverted)
    else (if ltb i len then putchar (m i) ∷ rest else rest)

unfoldable pub draw_text : Editor → List Call
unfolding draw_chars
draw_text ed = draw_chars ed.buffer ed.len ed.cursor (ed.len + 1) 0

-- `last_cmd_key`, unless it is 0, and whether it can be printed.
unfoldable pub draw_key : Editor → List Call
draw_key ed =
    if not ed.insert_mode && not (ed.last_key == 0)
    then print (codes "Tecla Pressionada: ")
      ∷ (if leb 32 ed.last_key && leb ed.last_key 126 then putchar ed.last_key ∷ [] else [])
    else []

-- A row is the `int` of a difference of `size_t`.
unfoldable pub draw_editor_ui : (max_rows : ℕ) → Editor → List Call
unfolding draw_text draw_key
draw_editor_ui max_rows ed =
    clear
      ∷ set_cursor (u32 (sub64 max_rows 2)) 0
      ∷ print (
          if ed.insert_mode
          then codes "-- INSERT -- [ESC: Normal, Setas: Navegar]"
          else codes "-- NORMAL -- [i: Insert, w: Salvar, q: Sair, Setas: Navegar]")
      ∷ set_cursor (u32 (sub64 max_rows 1)) 0
      ∷ draw_key ed
    ++ (set_cursor 0 0 ∷ draw_text ed)

-- The characters that the calls put on the screen.
unfoldable pub shown : List Call → List ℕ
shown [] = []
shown (clear ∷ calls) = shown calls
shown (set_cursor row col ∷ calls) = shown calls
shown (print text ∷ calls) = text ++ shown calls
shown (putchar c ∷ calls) = c ∷ shown calls
shown (set_color bg fg ∷ calls) = shown calls

module _ (m : Memory) (len cursor : ℕ) where
  draw_chars_after :
      (n i : ℕ) → cursor < i → i + n ≡ len → shown (draw_chars m len cursor (suc n) i) ≡ slice m i n
  unfolding draw_chars shown slice
  draw_chars_after zero i past last =
      let off : (i == cursor) ≡ false = ground arith in
      let out : ltb i len ≡ false = ground arith in rw (off, out) refl
  draw_chars_after (suc n) i past last =
      let off : (i == cursor) ≡ false = ground arith in
      let inside : ltb i len ≡ true = ground arith in
      rw (off, inside) (ap (λ s. m i ∷ s) (draw_chars_after n (i + 1) (omega arith) (omega arith)))

  -- What stands for the cursor where no character does.
  abbrev pub blank_at : List ℕ
  blank_at = if cursor == len || m cursor == 10 then 32 ∷ [] else []

  draw_chars_at :
      (n : ℕ)
      → cursor + n ≡ len
      → shown (draw_chars m len cursor (suc n) cursor) ≡ blank_at ++ slice m cursor n
  unfolding draw_chars shown slice
  draw_chars_at zero last =
      let self : (cursor == cursor) ≡ true = ground arith in
      let at_end : (cursor == len) ≡ true = ground arith in
      let out : ltb cursor len ≡ false = ground arith in rw (self, at_end, out) refl
  draw_chars_at (suc n) last =
      let self : (cursor == cursor) ≡ true = ground arith in
      let not_end : (cursor == len) ≡ false = ground arith in
      let inside : ltb cursor len ≡ true = ground arith in
      let rest = draw_chars_after n (cursor + 1) (omega arith) (omega arith) in
      elim (Bool-cases (m cursor == 10)) [
        | inl nl ↦
            let is_nl : m cursor ≡ 10 = eqb→eq (m cursor) 10 nl in
            rw (self, not_end, inside, is_nl) (ap (λ s. 32 ∷ 10 ∷ s) rest)
        | inr ch ↦ rw (self, not_end, inside, ch) (ap (λ s. m cursor ∷ s) rest)
      ]

  draw_chars_before :
      (k n i : ℕ)
      → i + k ≡ cursor
      → cursor + n ≡ len
      → shown (draw_chars m len cursor (k + suc n) i)
        ≡ slice m i k ++ (blank_at ++ slice m cursor n)
  unfolding draw_chars shown slice
  draw_chars_before zero n i here last =
      let same : i ≡ cursor = omega arith in
      let rounds : 0 + suc n ≡ suc n = omega arith in rw (rounds, same) (draw_chars_at n last)
  draw_chars_before (suc k) n i here last =
      let rounds : suc k + suc n ≡ suc (k + suc n) = omega arith in
      let off : (i == cursor) ≡ false = ground arith in
      let inside : ltb i len ≡ true = ground arith in
      rw (rounds, off, inside)
        (ap (λ s. m i ∷ s) (draw_chars_before k n (i + 1) (omega arith) last))

-- On a well formed editor the drawn text is the text before the cursor and the text after it, with a
-- blank between them where the cursor is behind the text or on the end of a line.
pub draw_text-shown :
    (ed : Editor)
    → IsValid ed
    → shown (draw_text ed)
      ≡ before ed
        ++ ((if ed.cursor == ed.len || ed.buffer ed.cursor == 10 then 32 ∷ [] else []) ++ after ed)
unfolding draw_text before after
draw_text-shown ed v =
    let rounds : ed.len + 1 ≡ ed.cursor + suc (ed.len - ed.cursor) = omega (arith, v.cursor_in) in
    ap (λ n. shown (draw_chars ed.buffer ed.len ed.cursor n 0)) rounds
    ∙ draw_chars_before ed.buffer ed.len ed.cursor ed.cursor (ed.len - ed.cursor) 0 (omega arith)
        (omega (arith, v.cursor_in))
