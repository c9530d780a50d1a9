-- ===== src/Keyboard/Tests.antt =====
-- A keyboard with the shift key and an arrow key pressed, and the ring going round.
use lisp_dos.Base.{ℕ, ◌≡◌, refl, false, List, [], ◌∷◌, ◌++◌, arith}
use lisp_dos.Keyboard.{Keyboard}
use lisp_dos.Keyboard.Queue.{typed, IsValid, contents}
use lisp_dos.Keyboard.Decode.{AllBytes, key_in, decoded, feed, feed_lem}

abbrev idle : Keyboard
idle = record { buffer = λ i. 120; head = 254; tail = 253; shift = false; e0 = false }

abbrev full : Keyboard
full = record { buffer = λ i. 120; head = 254; tail = 255; shift = false; e0 = false }

idle-IsValid : IsValid idle
idle-IsValid = record { head_in = omega arith; tail_in = omega arith }

full-IsValid : IsValid full
full-IsValid = record { head_in = omega arith; tail_in = omega arith }

-- Shift down, `a`, shift up, the prefix, arrow up, `b` and its release.
abbrev pressed : List ℕ
pressed = 0x2A ∷ 0x1E ∷ 0xAA ∷ 0xE0 ∷ 0x48 ∷ 0x30 ∷ 0xB0 ∷ []

pressed-AllBytes : AllBytes pressed
pressed-AllBytes = (
  omega arith,
  (omega arith, (omega arith, (omega arith, (omega arith, (omega arith, (omega arith, tt)))))),
)

types : decoded false false pressed ≡ 65 ∷ 128 ∷ 98 ∷ []
unfolding decoded typed key_in
types = refl

feed_lem_example : contents (feed idle pressed) ≡ contents idle ++ decoded false false pressed
unfolding decoded typed key_in
feed_lem_example = feed_lem idle pressed idle-IsValid pressed-AllBytes (omega arith)
