-- ===== src/Editor/Text.antt =====
-- The edit buffer as the text before the cursor and the text after it.
use lisp_dos.Base.{
  ℕ, zero, suc, ◌+◌, ◌-◌, ◌≤◌, ◌<◌, ◌≡◌, refl, sym, ap, ◌∙◌, ◌⊎◌, inl, inr, ◌&&◌, List, [], ◌∷◌,
  ◌++◌, arith, ltb, leb, ◌==◌, if◌then◌else◌, lt→ltb, Bool-cases, Memory, update, update_ne, slice,
  slice_ext,
}
use lisp_dos.Editor.{Editor, shift_left, shift_right, backspace, insert_char}

-- The cursor is in the text, and there is room for the 0 that saving puts behind it.
pub record IsValid (ed : Editor) : Type 0 where
  pub cursor_in : ed.cursor ≤ ed.len
  pub room : ed.len < ed.max

unfoldable pub before : Editor → List ℕ
before ed = slice ed.buffer 0 ed.cursor

unfoldable pub after : Editor → List ℕ
after ed = slice ed.buffer ed.cursor (ed.len - ed.cursor)

shift_left-at :
    (m : Memory) (i n j : ℕ)
    → 0 < i
    → shift_left m i n j ≡ (if leb i (j + 1) && ltb (j + 1) (i + n) then m (j + 1) else m j)
unfolding shift_left
shift_left-at m i zero j pos = ground arith
shift_left-at m i (suc n) j pos =
    ground (arith, shift_left-at (update m (i - 1) (m i)) (i + 1) n j (omega arith))

shift_right-outside :
    (m : Memory) (i n j : ℕ) → n ≤ i → (j ≤ i - n) ⊎ (i < j) → shift_right m i n j ≡ m j
unfolding shift_right
shift_right-outside m i zero j le out = refl
shift_right-outside m i (suc n) j le out =
    shift_right-outside (update m i (m (i - 1))) (i - 1) n j (omega arith) (omega arith)
    ∙ update_ne m (m (i - 1)) i j (omega arith)

shift_right-inside :
    (m : Memory) (i n j : ℕ) → n ≤ i → i - n < j → j ≤ i → shift_right m i n j ≡ m (j - 1)
unfolding shift_right
shift_right-inside m i zero j le lo hi = absurd (omega arith)
shift_right-inside m i (suc n) j le lo hi = elim (Bool-cases (j == i)) [
  | inl e ↦
      (shift_right-outside (update m i (m (i - 1))) (i - 1) n j (omega arith) (inr (ground arith)))
      ∙ ground arith
  | inr e ↦
      (shift_right-inside (update m i (m (i - 1))) (i - 1) n j (omega arith) (omega arith)
        (ground arith))
      ∙ update_ne m (m (i - 1)) i (j - 1) (omega arith)
]

slice_snoc : (m : Memory) (p n : ℕ) → slice m p (suc n) ≡ slice m p n ++ (m (p + n) ∷ [])
unfolding slice
slice_snoc m p zero = ground arith
slice_snoc m p (suc n) = ground (arith, slice_snoc m (p + 1) n)

cong_snoc : {s t : List ℕ} {a b : ℕ} → s ≡ t → a ≡ b → s ++ (a ∷ []) ≡ t ++ (b ∷ [])
cong_snoc e f = rw (e, f)

module _ (m : Memory) (len cursor c : ℕ) (inside : cursor ≤ len) where
  abbrev shifted : Memory
  shifted = shift_right m len (len - cursor)

  typed-before : slice (update shifted cursor c) 0 (cursor + 1) ≡ slice m 0 cursor ++ (c ∷ [])
  typed-before =
      let t = update shifted cursor c in
      ap (slice t 0) (omega arith)
      ∙ slice_snoc t 0 cursor
      ∙ cong_snoc
          (slice_ext t m 0 0 cursor λ i h.
            ground
              (arith, shift_right-outside m len (len - cursor) i (omega arith) (inl (omega arith))))
          (ground arith)

  typed-after :
      slice (update shifted cursor c) (cursor + 1) (len + 1 - (cursor + 1))
      ≡ slice m cursor (len - cursor)
  typed-after =
      let t = update shifted cursor c in
      ap (slice t (cursor + 1)) (omega arith)
      ∙ slice_ext t m (cursor + 1) cursor (len - cursor) λ i h. ground (
        arith,
        shift_right-inside m len (len - cursor) (cursor + 1 + i) (omega arith) (omega arith)
            (omega arith),
      )

  typed-outside : (i : ℕ) → len < i → update shifted cursor c i ≡ m i
  typed-outside i h =
      update_ne shifted c cursor i (omega arith)
      ∙ shift_right-outside m len (len - cursor) i (omega arith) (inr h)

module _ (m : Memory) (len cursor : ℕ) (inside : cursor ≤ len) (pos : 0 < cursor) where
  abbrev closed : Memory
  closed = shift_left m cursor (len - cursor)

  closed-before : slice closed 0 (cursor - 1) ++ (m (cursor - 1) ∷ []) ≡ slice m 0 cursor
  closed-before =
      cong_snoc
        (slice_ext closed m 0 0 (cursor - 1)
          λ i h. ground (arith, shift_left-at m cursor (len - cursor) i pos))
        (ap m (omega arith))
      ∙ sym (slice_snoc m 0 (cursor - 1))
      ∙ ap (slice m 0) (omega arith)

  closed-after : slice closed (cursor - 1) (len - 1 - (cursor - 1)) ≡ slice m cursor (len - cursor)
  closed-after =
      ap (slice closed (cursor - 1)) (omega arith)
      ∙ slice_ext closed m (cursor - 1) cursor (len - cursor)
          λ i h. ground (arith, shift_left-at m cursor (len - cursor) (cursor - 1 + i) pos)

-- In a well formed editor, typing a character puts it at the end of the text before the cursor, and keeps the text after
-- it; nothing is written outside the buffer.
pub insert_char_lem :
    (ed : Editor) (c : ℕ)
    → IsValid ed
    → (before (insert_char ed c) ≡ before ed ++ (c ∷ []))
      × (after (insert_char ed c) ≡ after ed)
      × ((i : ℕ) → ed.max ≤ i → (insert_char ed c).buffer i ≡ ed.buffer i)
unfolding before after insert_char
insert_char_lem ed c v =
    let m = shift_right ed.buffer ed.len (ed.len - ed.cursor) in
    (
      typed-before ed.buffer ed.len ed.cursor c v.cursor_in,
      typed-after ed.buffer ed.len ed.cursor c v.cursor_in,
      λ i hi. typed-outside ed.buffer ed.len ed.cursor c v.cursor_in i (omega arith),
    )

-- In a well formed editor with a text before the cursor, the backspace key takes the last
-- character from it, and keeps the text after it.
pub backspace_lem :
    (ed : Editor)
    → IsValid ed
    → 0 < ed.cursor
    → (before (backspace ed) ++ (ed.buffer (ed.cursor - 1) ∷ []) ≡ before ed)
      × (after (backspace ed) ≡ after ed)
unfolding before after backspace
backspace_lem ed v pos = rw (lt→ltb 0 ed.cursor pos) (
  closed-before ed.buffer ed.len ed.cursor v.cursor_in pos,
  closed-after ed.buffer ed.len ed.cursor v.cursor_in pos,
)
