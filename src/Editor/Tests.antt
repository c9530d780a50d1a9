-- ===== src/Editor/Tests.antt =====
-- The text "ab\ncd" with the cursor before the d.
use lisp_dos.Base.{
  ◌≡◌, refl, true, ◌||◌, inr, ℕ, List, length, [], ◌∷◌, ◌++◌, arith, ◌==◌, if◌then◌else◌, Memory,
  slice, codes,
}
use lisp_dos.Editor.Draw.{draw_text, draw_chars, shown, draw_text-shown}
use lisp_dos.Editor.Session.{Files, start, opened, writes, session}
use lisp_dos.Editor.Saves.{IsCut, start-saves}
use lisp_dos.Editor.{Editor, edit_key}
use lisp_dos.Editor.Text.{IsValid, before, after}
use lisp_dos.Editor.Keys.{Kept, edit_key_lem}

abbrev text : Memory
text i =
    if i == 0
    then 97
    else if i == 1
    then 98
    else if i == 2
    then 10
    else if i == 3
    then 99
    else if i == 4
    then 100
    else 0

abbrev at_d : Editor
at_d = record { buffer = text; max = 8192; len = 5; cursor = 4; insert_mode = true; last_key = 0 }

at_d-IsValid : IsValid at_d
at_d-IsValid = record { cursor_in = omega arith; room = omega arith }

edit_key_lem_example : Kept (edit_key at_d 128)
edit_key_lem_example = edit_key_lem at_d 128 at_d-IsValid

-- A file "ab" of two characters, whatever the name.
abbrev files : Files
files = record {
  size_of = λ name. 2;
  read_file = λ name m. (2, λ i. if i == 0 then 97 else if i == 1 then 98 else m i);
}

abbrev empty : Memory
empty i = 0

start-saves_example :
    (short : List ℕ) × (ed : Editor) × (buffer : Memory) × IsCut (codes "buffer.txt") short
    × (start files [] empty ≡ opened short ed)
    × (session short ed (105 ∷ codes "hi" ++ (27 ∷ 119 ∷ []))
        ≡ writes short buffer (length (codes "hi" ++ codes "ab")))
    × (slice buffer 0 (length (codes "hi" ++ codes "ab")) ≡ codes "hi" ++ codes "ab")
    × (buffer (length (codes "hi" ++ codes "ab")) ≡ 0)
unfolding slice
start-saves_example =
    start-saves files [] (codes "buffer.txt") empty (codes "ab") (codes "hi") refl (omega arith)
      (inr (inr (omega arith, omega arith, omega arith, refl))) (refl, (refl, tt)) (omega arith)

draw_text-shown_example :
    shown (draw_text at_d)
    ≡ before at_d
      ++ ((if at_d.cursor == at_d.len || at_d.buffer at_d.cursor == 10 then 32 ∷ [] else [])
          ++ after at_d)
draw_text-shown_example = draw_text-shown at_d at_d-IsValid

draws : shown (draw_text at_d) ≡ codes "ab\ncd"
unfolding draw_text draw_chars shown
draws = refl
