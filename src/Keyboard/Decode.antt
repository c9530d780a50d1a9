-- ===== src/Keyboard/Decode.antt =====
-- The characters that a sequence of scan codes stands for.
use lisp_dos.Base.{
  ℕ, ◌+◌, ◌<◌, ◌≡◌, refl, sym, ap, ◌∙◌, inl, inr, Bool, true, false, not, ◌&&◌, ◌||◌, List, [], ◌∷◌,
  ◌++◌, arith, ltb, leb, eqb→eq, each_of, each_below_lem, codes, nth, ◌-◌, ◌==◌, if◌then◌else◌,
  Bool-cases, length, append_nil, append_assoc,
}
use lisp_dos.Keyboard.{
  Keyboard, key_char, scancode_to_ascii, scancode_to_ascii_shift, put_char, keyboard_handler,
}
use lisp_dos.Keyboard.Queue.{
  IsValid, waiting, contents, typed, put_char-contents, waiting-put_char, put_char-IsValid,
}

shift_key : ℕ → Bool
shift_key s = s == 0x2A || s == 0x36

shift_after : Bool → ℕ → Bool
shift_after shift s = if shift_key s then true else if s == 0xAA || s == 0xB6 then false else shift

e0_after : Bool → ℕ → Bool
e0_after e0 s =
    if s == 0xE0 then true else if shift_key s || s == 0xAA || s == 0xB6 then e0 else false

-- The keys in rows: the scan code of the first one, and the characters of the row. 27, 8, 9 and 10
-- are escape, backspace, tab and enter.
abbrev pub keys : Bool → List (ℕ × List ℕ)
keys false =
    (1, 27 ∷ [])
    ∷ (2, codes "1234567890-=")
    ∷ (14, 8 ∷ 9 ∷ [])
    ∷ (16, codes "qwertyuiop[]")
    ∷ (28, 10 ∷ [])
    ∷ (30, codes "asdfghjkl;'`")
    ∷ (43, codes "\\zxcvbnm,./")
    ∷ (55, codes "*")
    ∷ (57, codes " ")
    ∷ []
keys true =
    (1, 27 ∷ [])
    ∷ (2, codes "!@#$%^&*()_+")
    ∷ (14, 8 ∷ 9 ∷ [])
    ∷ (16, codes "QWERTYUIOP{}")
    ∷ (28, 10 ∷ [])
    ∷ (30, codes "ASDFGHJKL:\"~")
    ∷ (43, codes "|ZXCVBNM<>?")
    ∷ (55, codes "*")
    ∷ (57, codes " ")
    ∷ []

-- After the prefix: up, down, left and right, as 128 to 131.
abbrev pub arrows : List (ℕ × List ℕ)
arrows = (0x48, 128 ∷ []) ∷ (0x50, 129 ∷ []) ∷ (0x4B, 130 ∷ []) ∷ (0x4D, 131 ∷ []) ∷ []

unfoldable pub key_in : List (ℕ × List ℕ) → ℕ → ℕ
key_in [] s = 0
key_in ((first, row) ∷ rows) s =
    let others = key_in rows s in
    if leb first s && ltb s (first + length row) then nth row (s - first) else others

-- The character that the key of this scan code stands for, 0 if for none.
abbrev pub meant : (shift e0 : Bool) → ℕ → ℕ
meant shift e0 s = key_in (if e0 then arrows else keys shift) s

-- The code finds the same characters.
key_char-meant : (shift e0 : Bool) (s : ℕ) → s < 256 → key_char shift e0 s ≡ meant shift e0 s
unfolding key_char scancode_to_ascii scancode_to_ascii_shift key_in each_of
key_char-meant true true s lt =
    eqb→eq _ _ (each_below_lem 256 (λ o. key_char true true o == meant true true o) s refl lt)
key_char-meant false true s lt =
    eqb→eq _ _ (each_below_lem 256 (λ o. key_char false true o == meant false true o) s refl lt)
key_char-meant true false s lt =
    eqb→eq _ _ (each_below_lem 256 (λ o. key_char true false o == meant true false o) s refl lt)
key_char-meant false false s lt =
    eqb→eq _ _ (each_below_lem 256 (λ o. key_char false false o == meant false false o) s refl lt)

emitted : (shift e0 : Bool) → ℕ → ℕ
emitted shift e0 s = if ltb s 128 && not (shift_key s) then meant shift e0 s else 0

abbrev pub AllBytes : List ℕ → Type 0
AllBytes [] = Unit {0}
AllBytes (s ∷ codes) = (s < 256) × AllBytes codes

-- Codes below 0x80 press a key; the shift keys and the prefix 0xE0 change what later codes mean.
unfoldable pub decoded : (shift e0 : Bool) → List ℕ → List ℕ
unfolding shift_after e0_after emitted shift_key
decoded shift e0 [] = []
decoded shift e0 (s ∷ codes) =
    typed (emitted shift e0 s) ++ decoded (shift_after shift s) (e0_after e0 s) codes

unfoldable pub feed : Keyboard → List ℕ → Keyboard
feed k [] = k
feed k (s ∷ codes) = feed (keyboard_handler k 1 s) codes

pressed : (shift e0 : Bool) → ℕ → ℕ
pressed shift e0 s = if ltb s 128 && not (shift_key s) then key_char shift e0 s else 0

handled_pressed :
    (k : Keyboard) (s : ℕ)
    → s < 256
    → keyboard_handler k 1 s
      ≡ put_char
          (record k { shift = shift_after k.shift s; e0 = e0_after k.e0 s })
          (pressed k.shift k.e0 s)
unfolding keyboard_handler put_char shift_after e0_after pressed shift_key key_char
handled_pressed k s lt = ground arith

handled :
    (k : Keyboard) (s : ℕ)
    → s < 256
    → keyboard_handler k 1 s
      ≡ put_char
          (record k { shift = shift_after k.shift s; e0 = e0_after k.e0 s })
          (emitted k.shift k.e0 s)
unfolding pressed emitted
handled k s lt =
    handled_pressed k s lt
    ∙ ap
        (λ c.
          put_char (record k { shift = shift_after k.shift s; e0 = e0_after k.e0 s })
            (if ltb s 128 && not (shift_key s) then c else 0))
        (key_char-meant k.shift k.e0 s lt)

put_char-fits :
    (k : Keyboard) (c : ℕ) (rest : List ℕ)
    → IsValid k
    → waiting k + length (typed c ++ rest) < 256
    → (contents (put_char k c) ≡ contents k ++ typed c)
      × (waiting (put_char k c) + length rest < 256)
      × ((put_char k c).shift ≡ k.shift)
      × ((put_char k c).e0 ≡ k.e0)
unfolding put_char typed
put_char-fits k c rest v room = elim (Bool-cases (c == 0)) [
  | inl e ↦ let fits = rw e at room in rw e (sym (append_nil (contents k)), fits, refl, refl)
  | inr e ↦
      let fits = rw e at room in
      let same = put_char-contents k c v (omega arith) in
      let more = waiting-put_char k.head k.tail v.head_in v.tail_in (omega arith) in
      rw e (rw e at same, omega arith, refl, refl)
]

cong_append : {a b c d : List ℕ} → a ≡ b → c ≡ d → a ++ c ≡ b ++ d
cong_append e f = rw (e, f)

-- In a valid ring where the waiting characters and the decoded ones fit into 255 places, the
-- handler, run on the scan codes (bytes) in order, appends exactly the characters they stand for: of
-- the keys pressed, those of the rows of the keyboard, of the shifted rows from a shift key to its
-- release, and the arrow behind the prefix 0xE0.
pub feed_lem :
    (k : Keyboard) (codes : List ℕ)
    → IsValid k
    → AllBytes codes
    → waiting k + length (decoded k.shift k.e0 codes) < 256
    → contents (feed k codes) ≡ contents k ++ decoded k.shift k.e0 codes
unfolding feed decoded contents
feed_lem k [] v bytes room = sym (append_nil (contents k))
feed_lem k (s ∷ codes) v bytes room =
    let k1 = record k { shift = shift_after k.shift s; e0 = e0_after k.e0 s } in
    let c = emitted k.shift k.e0 s in
    let rest = decoded (shift_after k.shift s) (e0_after k.e0 s) codes in
    let (now, fits, shift_same, e0_same) =
      put_char-fits k1 c rest (record { head_in = v.head_in; tail_in = v.tail_in }) room in
    let then_rest =
      feed_lem (put_char k1 c) codes
        (put_char-IsValid k1 c (record { head_in = v.head_in; tail_in = v.tail_in })) bytes.1
        (rw (shift_same, e0_same) fits) in
    ap (λ after. contents (feed after codes)) (handled k s bytes.0)
    ∙ then_rest
    ∙ cong_append now (
        ap (λ shift. decoded shift (put_char k1 c).e0 codes) shift_same
        ∙ ap (λ e0. decoded k1.shift e0 codes) e0_same)
    ∙ append_assoc (contents k) (typed c) rest
