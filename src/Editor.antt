-- ===== src/Editor.antt =====
-- The text editor of src/tools/editor.c: the edit buffer, the cursor, the two modes, and what
-- each key does. Drawing the screen changes none of that state.
pub mod Text
pub mod Lines
pub mod Keys
pub mod Session
pub mod Draw
pub mod Saves
mod Tests
use lisp_dos.Base.{
  ℕ, zero, suc, ◌+◌, ◌-◌, Bool, true, false, ◌&&◌, ◌||◌, ltb, leb, ◌==◌, if◌then◌else◌, Memory,
  update,
}

pub record Editor : Type 0 where
  pub buffer : Memory
  pub max : ℕ
  pub len : ℕ
  pub cursor : ℕ
  pub insert_mode : Bool
  pub last_key : ℕ

-- What the loop of `_start` does after a key: it goes on, or leaves by `sys_exit`, having asked
-- for the buffer to be saved or not.
pub data Outcome : Type 0 where
  running : Editor → Outcome
  saved : Editor → Outcome
  quit : Outcome

-- `for (i = cursor_pos; i < buffer_len; i++) edit_buffer[i-1] = edit_buffer[i];`, `n` rounds of it.
unfoldable pub shift_left : Memory → ℕ → ℕ → Memory
shift_left m i zero = m
shift_left m i (suc n) = shift_left (update m (i - 1) (m i)) (i + 1) n

-- `for (i = buffer_len; i > cursor_pos; i--) edit_buffer[i] = edit_buffer[i-1];`
unfoldable pub shift_right : Memory → ℕ → ℕ → Memory
shift_right m i zero = m
shift_right m i (suc n) = shift_right (update m i (m (i - 1))) (i - 1) n

unfoldable pub backspace : Editor → Editor
backspace ed =
    if ltb 0 ed.cursor
    then record ed {
      buffer = shift_left ed.buffer ed.cursor (ed.len - ed.cursor);
      cursor = ed.cursor - 1;
      len = ed.len - 1;
    }
    else ed

unfoldable pub insert_char : Editor → ℕ → Editor
insert_char ed c = record ed {
  buffer = update (shift_right ed.buffer ed.len (ed.len - ed.cursor)) ed.cursor c;
  cursor = ed.cursor + 1;
  len = ed.len + 1;
}

-- `while (p >= 0 && edit_buffer[p] != '\n') p--;`, with `q` for `p + 1`: where the line starts.
unfoldable pub line_start : Memory → ℕ → ℕ
line_start m zero = 0
line_start m (suc q) = let rest = line_start m q in if m q == 10 then suc q else rest

-- `while (i < buffer_len && edit_buffer[i] != '\n') i++;`, with `n` characters left.
unfoldable pub line_end : Memory → ℕ → ℕ → ℕ
line_end m i zero = i
line_end m i (suc n) = let rest = line_end m (i + 1) n in if m i == 10 then i else rest

-- `for (i = 0; i < col; i++) { if (new_pos == p) break; new_pos++; }`
unfoldable pub forward : (col new_pos p : ℕ) → ℕ
forward zero new_pos p = new_pos
forward (suc col) new_pos p =
    let rest = forward col (new_pos + 1) p in if new_pos == p then new_pos else rest

-- The same loop, which stops at the end of the text or of the line.
unfoldable pub forward_in_line : Memory → (len col new_pos : ℕ) → ℕ
forward_in_line m len zero new_pos = new_pos
forward_in_line m len (suc col) new_pos =
    let rest = forward_in_line m len col (new_pos + 1) in
    if leb len new_pos || m new_pos == 10 then new_pos else rest

unfoldable pub cursor_up : Editor → Editor
cursor_up ed =
    let start = line_start ed.buffer ed.cursor in
    if start == 0 then ed else record ed {
      cursor = forward (ed.cursor - start) (line_start ed.buffer (start - 1)) (start - 1);
    }

unfoldable pub cursor_down : Editor → Editor
cursor_down ed =
    let start = line_start ed.buffer ed.cursor in
    let end_of_line = line_end ed.buffer ed.cursor (ed.len - ed.cursor) in
    if ltb end_of_line ed.len
    then record ed {
      cursor = forward_in_line ed.buffer ed.len (ed.cursor - start) (end_of_line + 1);
    }
    else ed

unfoldable pub arrow : Editor → ℕ → Editor
arrow ed c =
    if c == 130
    then (if ltb 0 ed.cursor then record ed { cursor = ed.cursor - 1 } else ed)
    else if c == 131
    then (if ltb ed.cursor ed.len then record ed { cursor = ed.cursor + 1 } else ed)
    else if c == 128
    then cursor_up ed
    else cursor_down ed

unfoldable pub key_in_insert : Editor → ℕ → Editor
key_in_insert ed c =
    if c == 8
    then backspace ed
    else if ltb ed.len (ed.max - 1) && (leb 32 c && leb c 126 || c == 10)
    then insert_char ed c
    else ed

unfoldable pub key_in_normal : Editor → ℕ → Outcome
key_in_normal ed c =
    if c == 105
    then running (record ed { insert_mode = true; last_key = 0 })
    else if c == 119
    then saved (record ed { buffer = update ed.buffer ed.len 0; last_key = c })
    else if c == 113
    then quit
    else running (record ed { last_key = c })

-- One round of the loop of `_start`, on the key `c`.
unfoldable pub edit_key : Editor → ℕ → Outcome
edit_key ed c =
    if c == 27
    then running (record ed { insert_mode = false; last_key = 0 })
    else if leb 128 c && leb c 131
    then running (arrow ed c)
    else if ed.insert_mode
    then running (key_in_insert ed c)
    else key_in_normal ed c
