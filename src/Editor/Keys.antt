-- ===== src/Editor/Keys.antt =====
-- Every key, in both modes, keeps the editor well formed.
use lisp_dos.Base.{
  ℕ, ◌+◌, ◌-◌, sym, inl, inr, ◌&&◌, ◌||◌, arith, ltb, leb, ◌==◌, ltb→lt, Bool-cases, if_holds,
  subst,
}
use lisp_dos.Editor.{
  Editor, Outcome, running, saved, quit, backspace, insert_char, arrow, key_in_insert,
  key_in_normal, edit_key, line_start, line_end, cursor_up, cursor_down,
}
use lisp_dos.Editor.Text.{IsValid}
use lisp_dos.Editor.Lines.{line_start_lem, line_end_lem, cursor_up_lem, cursor_down_lem}

pub data Kept : Outcome → Type 0 where
  goes_on : {ed : Editor} → IsValid ed → Kept (running ed)
  leaves_saved : {ed : Editor} → IsValid ed → Kept (saved ed)
  leaves : Kept quit

cursor_up-IsValid : (ed : Editor) → IsValid ed → IsValid (cursor_up ed)
unfolding cursor_up
cursor_up-IsValid ed v =
    let m = ed.buffer in
    let here = line_start_lem m ed.cursor in
    elim (Bool-cases (line_start m ed.cursor == 0)) [
      | inl first ↦ rw first v
      | inr later ↦
          let s = line_start m ed.cursor in
          let prev = line_start_lem m (s - 1) in
          let at = cursor_up_lem ed s (line_start m (s - 1)) here (ground arith) prev in
          rw (cursor_up, at)
            (record {
              cursor_in = omega (arith, here.start_le, prev.start_le, v.cursor_in);
              room = v.room;
            })
    ]

cursor_down-IsValid : (ed : Editor) → IsValid ed → IsValid (cursor_down ed)
unfolding cursor_down
cursor_down-IsValid ed v =
    let m = ed.buffer in
    let e = line_end m ed.cursor (ed.len - ed.cursor) in
    let now = line_end_lem m ed.len ed.cursor (ed.len - ed.cursor) (omega (arith, v.cursor_in)) in
    elim (Bool-cases (ltb e ed.len)) [
      | inr last ↦ rw last v
      | inl inside ↦
          let next = line_end_lem m ed.len (e + 1) (ed.len - (e + 1)) (ground arith) in
          let at =
            cursor_down_lem ed (line_start m ed.cursor) e (line_end m (e + 1) (ed.len - (e + 1)))
              (line_start_lem m ed.cursor) now (ltb→lt e ed.len inside) next in
          subst IsValid (sym at)
            (record { cursor_in = omega (arith, next.end_ge, next.end_le); room = v.room })
    ]

arrow-IsValid : (ed : Editor) (c : ℕ) → IsValid ed → IsValid (arrow ed c)
unfolding arrow
arrow-IsValid ed c v =
    if_holds IsValid (c == 130)
      (λ e.
        if_holds IsValid (ltb 0 ed.cursor)
          (λ some_left. record { cursor_in = omega arith; room = v.room }) λ e. v)
      λ e.
        if_holds IsValid (c == 131)
          (λ e.
            if_holds IsValid (ltb ed.cursor ed.len)
              (λ inside. record { cursor_in = ground arith; room = v.room }) λ e. v)
          λ e.
            if_holds IsValid (c == 128) (λ e. cursor_up-IsValid ed v) λ e. cursor_down-IsValid ed v

key_in_insert-IsValid : (ed : Editor) (c : ℕ) → IsValid ed → IsValid (key_in_insert ed c)
unfolding key_in_insert insert_char backspace
key_in_insert-IsValid ed c v =
    if_holds IsValid (c == 8)
      (λ e.
        if_holds IsValid (ltb 0 ed.cursor)
          (λ some_left. record { cursor_in = omega arith; room = omega arith }) λ e. v)
      λ e.
        if_holds IsValid (ltb ed.len (ed.max - 1) && (leb 32 c && leb c 126 || c == 10))
          (λ fits. record { cursor_in = omega arith; room = ground arith }) λ e. v

key_in_normal-Kept : (ed : Editor) (c : ℕ) → IsValid ed → Kept (key_in_normal ed c)
unfolding key_in_normal
key_in_normal-Kept ed c v =
    if_holds Kept (c == 105) (λ e. goes_on (record { cursor_in = v.cursor_in; room = v.room }))
      λ e.
        if_holds Kept (c == 119)
          (λ e. leaves_saved (record { cursor_in = v.cursor_in; room = v.room }))
          λ e.
            if_holds Kept (c == 113) (λ e. leaves)
              λ e. goes_on (record { cursor_in = v.cursor_in; room = v.room })

-- From an editor whose cursor is in the text and whose text, with the 0 that ends it, is in the
-- buffer, every key leads to such an editor, or leaves without saving.
pub edit_key_lem : (ed : Editor) (c : ℕ) → IsValid ed → Kept (edit_key ed c)
unfolding edit_key
edit_key_lem ed c v =
    if_holds Kept (c == 27) (λ e. goes_on (record { cursor_in = v.cursor_in; room = v.room }))
      λ e.
        if_holds Kept (leb 128 c && leb c 131) (λ e. goes_on (arrow-IsValid ed c v))
          λ e.
            if_holds Kept ed.insert_mode (λ e. goes_on (key_in_insert-IsValid ed c v))
              λ e. key_in_normal-Kept ed c v
