-- ===== src/Editor/Saves.antt =====
-- What a session of the editor saves.
use lisp_dos.Base.{
  ℕ, zero, suc, ◌+◌, ◌-◌, ◌^◌, ◌≤◌, ◌<◌, ◌*◌, ◌≡◌, ◌⊎◌, inl, inr, subst, codes, refl, sym, ap, ◌∙◌,
  true, false, ◌&&◌, ◌||◌, List, [], ◌∷◌, ◌++◌, arith, ltb, leb, ◌==◌, Memory, update, update_self,
  update_ne, slice, slice_ext, length, append_nil, append_assoc,
}
use lisp_dos.Editor.{Editor, running, saved, insert_char, edit_key, key_in_insert, key_in_normal}
use lisp_dos.Editor.Text.{IsValid, before, after, insert_char_lem}
use lisp_dos.Editor.Session.{
  kstrncpy, Files, opened, load, start, edit, buffer_max, file_name, pool_size, writes, session,
}

-- The characters that are typed into the text: printable ones, and the line's end.
abbrev pub AreTyped : List ℕ → Type 0
AreTyped [] = Unit
AreTyped (c ∷ text) = ((leb 32 c && leb c 126 || c == 10) ≡ true) × AreTyped text

-- `ed'` is `ed` after typing `text`.
record Typed (ed : Editor) (text : List ℕ) (ed' : Editor) : Type 0 where
  pub before_is : before ed' ≡ before ed ++ text
  pub after_is : after ed' ≡ after ed
  pub len_is : ed'.len ≡ ed.len + length text
  pub valid : IsValid ed'

edit_key-insert_char :
    (ed : Editor) (c : ℕ)
    → ed.insert_mode ≡ true
    → (leb 32 c && leb c 126 || c == 10) ≡ true
    → ed.len + 1 < ed.max
    → edit_key ed c ≡ running (insert_char ed c)
unfolding edit_key key_in_insert
edit_key-insert_char ed c mode is room = ground arith

insert_char-len : (ed : Editor) (c : ℕ) → (insert_char ed c).len ≡ ed.len + 1
unfolding insert_char
insert_char-len ed c = refl

edit-Typed :
    (text rest : List ℕ) (ed : Editor)
    → IsValid ed
    → ed.insert_mode ≡ true
    → AreTyped text
    → ed.len + length text < ed.max
    → (ed' : Editor) × (edit ed (text ++ rest) ≡ edit ed' rest) × Typed ed text ed'
unfolding edit
edit-Typed [] rest ed v mode are room = (
  ed,
  refl,
  record { before_is = sym (append_nil _); after_is = refl; len_is = omega arith; valid = v },
)
edit-Typed (c ∷ text) rest ed v mode are room =
    let (b, a, out) = insert_char_lem ed c v in
    let ed1 = insert_char ed c in
    let v1 : IsValid ed1 =
      unfold insert_char in record { cursor_in = omega arith; room = omega arith } in
    let (ed', e, t) =
      edit-Typed text rest ed1 v1 (unfold insert_char in mode) are.1
        (unfold insert_char in omega arith) in
    (
      ed',
      rw (edit_key-insert_char ed c mode are.0 (omega arith), edit) e,
      record {
        before_is = t.before_is ∙ ap (λ s. s ++ text) b ∙ append_assoc (before ed) (c ∷ []) text;
        after_is = t.after_is ∙ a;
        len_is = omega (arith, t.len_is, insert_char-len ed c);
        valid = t.valid;
      },
    )

slice-append : (m : Memory) (p a b : ℕ) → slice m p (a + b) ≡ slice m p a ++ slice m (p + a) b
unfolding slice
slice-append m p zero b =
    let n : 0 + b ≡ b = omega arith in let q : p + 0 ≡ p = omega arith in rw (n, q) refl
slice-append m p (suc a) b =
    let n : suc a + b ≡ suc (a + b) = omega arith in
    let q : p + suc a ≡ p + 1 + a = omega arith in
    rw (n, q) (ap (λ r. m p ∷ r) (slice-append m (p + 1) a b))

-- The whole text.
abbrev pub contents : Editor → List ℕ
contents ed = slice ed.buffer 0 ed.len

contents_parts : (ed : Editor) → IsValid ed → contents ed ≡ before ed ++ after ed
unfolding before after
contents_parts ed v =
    let z : 0 + ed.cursor ≡ ed.cursor = omega arith in
    let parts = slice-append ed.buffer 0 ed.cursor (ed.len - ed.cursor) in
    ap (slice ed.buffer 0) (omega (arith, v.cursor_in)) ∙ (rw z at parts)

same_parts : {a b c d : List ℕ} → a ≡ b → c ≡ d → a ++ c ≡ b ++ d
same_parts p q = rw (p, q) refl

-- Typing a text and saving: the keys `i`, the text, escape and `w`.
edit-saves :
    (ed : Editor) (text : List ℕ)
    → IsValid ed
    → ed.insert_mode ≡ false
    → AreTyped text
    → ed.len + length text < ed.max
    → (ed' : Editor) × (edit ed (105 ∷ text ++ (27 ∷ 119 ∷ [])) ≡ saved ed')
      × (contents ed' ≡ before ed ++ (text ++ after ed))
      × (ed'.buffer ed'.len ≡ 0)
unfolding edit edit_key key_in_normal before after
edit-saves ed text v mode are room =
    let opened_is : Editor = record ed { insert_mode = true; last_key = 0 } in
    let (ed', e, t) =
      edit-Typed text (27 ∷ 119 ∷ []) opened_is (record { cursor_in = v.cursor_in; room = v.room })
        refl are room in
    (
      record ed' { insert_mode = false; last_key = 119; buffer = update ed'.buffer ed'.len 0 },
      rw mode e,
      slice_ext _ ed'.buffer 0 0 ed'.len
            (λ i lt. update_ne ed'.buffer 0 ed'.len (0 + i) (omega arith))
          ∙ contents_parts ed' t.valid
          ∙ same_parts t.before_is t.after_is
          ∙ append_assoc (before ed) text (after ed),
      update_self ed'.buffer 0 ed'.len,
    )

-- The editor that `_start` opens.
module _ (f : Files) (args : List ℕ) (pool : Memory) where
  abbrev filename : List ℕ
  filename = file_name args

  abbrev loaded : ℕ × Memory
  loaded = load f filename (f.size_of filename) pool

  abbrev first : Editor
  first = record {
    buffer = loaded.1;
    max = buffer_max (f.size_of filename);
    len = loaded.0;
    cursor = 0;
    insert_mode = false;
    last_key = 0;
  }

  start-opened :
      f.size_of filename + 8192 ≤ pool_size
      → start f args pool ≡ opened (kstrncpy filename 31) first
  unfolding start
  start-opened fits =
      let fsize = f.size_of filename in
      let defined : (leb (2 ^ 31) (fsize + 8192) && ltb fsize (2 ^ 31)) ≡ false = ground arith in
      let roomy : (ltb pool_size (buffer_max fsize) && ltb fsize (2 ^ 31)) ≡ false = ground arith in
      rw (defined, roomy, start) refl

  first-parts :
      (text : List ℕ) → before first ++ (text ++ after first) ≡ text ++ slice loaded.1 0 loaded.0
  unfolding before after slice
  first-parts text =
      let all : loaded.0 - 0 ≡ loaded.0 = omega arith in ap (λ n. text ++ slice loaded.1 0 n) all

start-edits :
    (f : Files) (args : List ℕ) (pool : Memory) (text : List ℕ)
    → let name = file_name args in
      let (len, buffer) = load f name (f.size_of name) pool in
      f.size_of name + 8192 ≤ pool_size
      → AreTyped text
      → len + length text < f.size_of name + 8192
      → (ed ed' : Editor) × (start f args pool ≡ opened (kstrncpy name 31) ed)
        × (edit ed (105 ∷ text ++ (27 ∷ 119 ∷ [])) ≡ saved ed')
        × (contents ed' ≡ text ++ slice buffer 0 len)
        × (ed'.buffer ed'.len ≡ 0)
start-edits f args pool text fits are room =
    let ed = first f args pool in
    let v : IsValid ed = record { cursor_in = omega arith; room = ground arith } in
    let (ed', e, c, z) = edit-saves ed text v refl are (ground arith) in
    (ed, ed', start-opened f args pool fits, e, c ∙ first-parts f args pool text, z)

-- The name that the program is started with, or buffer.txt.
abbrev pub Names : (args name : List ℕ) → Type 0
Names [] name = name ≡ codes "buffer.txt"
Names (c ∷ args) name = name ≡ c ∷ args

file_name-Names : (args name : List ℕ) → Names args name → file_name args ≡ name
unfolding file_name
file_name-Names [] name e = sym e
file_name-Names (c ∷ args) name e = sym e

-- The text `old` that a file holds, as the system answers for its name: none if the size is 0 or the
-- read answers nothing, or else what the read puts at the start of the buffer.
abbrev pub Holds : Files → (name : List ℕ) → (pool : Memory) → (old : List ℕ) → Type 0
Holds f name pool old =
    let (size, buffer) = f.read_file name pool in
    ((f.size_of name ≡ 0) × (old ≡ []))
    ⊎ ((0 < f.size_of name) × (size ≡ 0) × (old ≡ []))
    ⊎ ((0 < f.size_of name) × (0 < size) × (size < 2 ^ 31) × (old ≡ slice buffer 0 size))

length-slice : (m : Memory) (p n : ℕ) → length (slice m p n) ≡ n
unfolding slice
length-slice m p zero = refl
length-slice m p (suc n) = omega (arith, length-slice m (p + 1) n)

load-Holds :
    (f : Files) (name : List ℕ) (pool : Memory) (old : List ℕ)
    → f.size_of name < 2 ^ 31
    → Holds f name pool old
    → let (len, buffer) = load f name (f.size_of name) pool in slice buffer 0 len ≡ old
unfolding load slice
load-Holds f name pool old small (inl (z, none_of)) =
    let no : (ltb 0 (f.size_of name) && ltb (f.size_of name) (2 ^ 31)) ≡ false = ground arith in
    rw (no, load) (sym none_of)
load-Holds f name pool old small (inr (inl (pos, z, none_of))) =
    let yes : (ltb 0 (f.size_of name) && ltb (f.size_of name) (2 ^ 31)) ≡ true = ground arith in
    rw (yes, z, load) (sym none_of)
load-Holds f name pool old small (inr (inr (pos, some_of, fits, is))) =
    let yes : (ltb 0 (f.size_of name) && ltb (f.size_of name) (2 ^ 31)) ≡ true = ground arith in
    let size = (f.read_file name pool).0 in
    let all : (ltb 0 size && ltb size (2 ^ 31)) ≡ true = ground arith in
    rw (yes, all, load) (sym is)

-- `short` is the first 31 characters of the name, or all of a shorter one.
abbrev pub IsCut : (name short : List ℕ) → Type 0
IsCut name short =
    (rest : List ℕ) × (name ≡ short ++ rest)
    × ((rest ≡ []) ⊎ (length short ≡ 31))
    × (length short ≤ 31)

kstrncpy-IsCut :
    (name : List ℕ) (k : ℕ)
    → (rest : List ℕ) × (name ≡ kstrncpy name k ++ rest)
      × ((rest ≡ []) ⊎ (length (kstrncpy name k) ≡ k))
      × (length (kstrncpy name k) ≤ k)
unfolding kstrncpy
kstrncpy-IsCut name zero = (name, refl, inr refl, omega arith)
kstrncpy-IsCut [] (suc k) = ([], refl, inl refl, omega arith)
kstrncpy-IsCut (c ∷ name) (suc k) =
    let (rest, e, cut, le) = kstrncpy-IsCut name k in
    (
      rest,
      ap (λ s. c ∷ s) e,
      elim cut [ inl whole ↦ inl whole | inr full ↦ inr (omega (arith, full)) ],
      omega (arith, le),
    )

session-saved :
    (name : List ℕ) (ed ed' : Editor) (keys : List ℕ)
    → edit ed keys ≡ saved ed'
    → session name ed keys ≡ writes name ed'.buffer ed'.len
unfolding session
session-saved name ed ed' keys e = rw (e, session) refl

-- For the name that the editor is started with (buffer.txt without one), if the file's size and 8192
-- more fit the pool of 1 MB and the text `old` that it holds and a typed text are shorter than that
-- together: the file is opened, and the keys `i`, the characters of the text, escape and `w` call
-- `fat16_write_file` with the first 31 characters of the name and the typed text followed by `old`, as
-- many bytes as both have; a 0 stands behind them.
pub start-saves :
    (f : Files) (args name : List ℕ) (pool : Memory) (old text : List ℕ)
    → Names args name
    → f.size_of name + 8192 ≤ 1024 * 1024
    → Holds f name pool old
    → AreTyped text
    → length old + length text < f.size_of name + 8192
    → (short : List ℕ) × (ed : Editor) × (buffer : Memory) × IsCut name short
      × (start f args pool ≡ opened short ed)
      × (session short ed (105 ∷ text ++ (27 ∷ 119 ∷ []))
          ≡ writes short buffer (length (text ++ old)))
      × (slice buffer 0 (length (text ++ old)) ≡ text ++ old)
      × (buffer (length (text ++ old)) ≡ 0)
start-saves f args name pool old text names fits holds are room =
    let name_is = file_name-Names args name names in
    let (len, buffer) = load f name (f.size_of name) pool in
    let old_is : slice buffer 0 len ≡ old = load-Holds f name pool old (omega arith) holds in
    let len_is : len ≡ length old = sym (length-slice buffer 0 len) ∙ ap (λ s. length s) old_is in
    let P : List ℕ → Type 0 = λ n.
      let (len, buffer) = load f n (f.size_of n) pool in
      (ed ed' : Editor) × (start f args pool ≡ opened (kstrncpy n 31) ed)
      × (edit ed (105 ∷ text ++ (27 ∷ 119 ∷ [])) ≡ saved ed')
      × (contents ed' ≡ text ++ slice buffer 0 len)
      × (ed'.buffer ed'.len ≡ 0) in
    let (ed, ed', opens, edits, text_is, end) : P name =
      subst P name_is
        (start-edits f args pool text (rw name_is fits) are (rw name_is (omega (arith, len_is)))) in
    let all : contents ed' ≡ text ++ old = text_is ∙ ap (λ s. text ++ s) old_is in
    let len'_is : ed'.len ≡ length (text ++ old) =
      sym (length-slice ed'.buffer 0 ed'.len) ∙ ap (λ s. length s) all in
    (
      kstrncpy name 31,
      ed,
      ed'.buffer,
      kstrncpy-IsCut name 31,
      opens,
      session-saved (kstrncpy name 31) ed ed' _ edits
          ∙ ap (λ n. writes (kstrncpy name 31) ed'.buffer n) len'_is,
      subst (λ n. slice ed'.buffer 0 n ≡ text ++ old) len'_is all,
      subst (λ n. ed'.buffer n ≡ 0) len'_is end,
    )
