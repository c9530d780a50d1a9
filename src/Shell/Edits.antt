-- ===== src/Shell/Edits.antt =====
-- The line as the list of its characters, against the edits that the keys stand for.
use lisp_dos.Base.{
  ℕ, suc, ◌+◌, ◌-◌, ◌≤◌, ◌<◌, ◌≡◌, refl, sym, ◌≢◌, inl, inr, true, false, Option, none, some, List,
  [], ◌∷◌, arith, ltb, ◌==◌, if◌then◌else◌, eqb→eq, ne→eqb, Bool-cases, Memory, update, update_self,
  length, subst,
}
use lisp_dos.Shell.{Command, Line, editing, entered, line_key, read_line}

-- A line as a list with the last character first, after a key other than enter. It takes no more
-- than 255 characters.
pub edit : List ℕ → ℕ → List ℕ
edit [] c = if c == 8 then [] else c ∷ []
edit (e ∷ line) c =
    if c == 8 then line else if ltb (length (e ∷ line)) 255 then c ∷ (e ∷ line) else e ∷ line

-- The line that is entered, where one is.
unfoldable pub typed : List ℕ → List ℕ → Option (List ℕ)
unfolding edit
typed line [] = none
typed line (c ∷ keys) = let rest = typed (edit line c) keys in if c == 10 then some line else rest

unfoldable pub IsReversed : Memory → List ℕ → Type 0
IsReversed m [] = ◌≡◌ {A = ℕ} 0 0
IsReversed m (c ∷ line) = (m (length line) ≡ c) × IsReversed m line

-- The array holds the line, which fits.
pub record Holds (l : Command) (line : List ℕ) : Type 0 where
  pub chars : IsReversed l.command line
  pub same_len : l.cmd_len ≡ length line
  pub fits : length line ≤ 255

IsReversed-update :
    (m : Memory) (p v : ℕ) (line : List ℕ)
    → length line ≤ p
    → IsReversed m line
    → IsReversed (update m p v) line
unfolding IsReversed
IsReversed-update m p v [] h r = refl
IsReversed-update m p v (c ∷ line) h (first, rest) =
    (ground (arith, first), IsReversed-update m p v line (omega arith) rest)

-- The loop goes on exactly as long as no line is entered; an entered line stands in the array,
-- with a 0 behind it, inside the 256 characters.
unfoldable pub Read : Option (List ℕ) → Line → Type 0
Read none (editing l) = ◌≡◌ {A = ℕ} 0 0
Read none (entered l) = ◌≡◌ {A = ℕ} 0 1
Read (some line) (editing l) = ◌≡◌ {A = ℕ} 0 1
Read (some line) (entered l) = Holds l line × (l.command l.cmd_len ≡ 0) × (l.cmd_len < 256)

backspace-Holds :
    (l : Command) (line : List ℕ)
    → Holds l line
    → Holds (if ltb 0 l.cmd_len then record l { cmd_len = l.cmd_len - 1 } else l) (edit line 8)
unfolding edit IsReversed
backspace-Holds l [] h =
    let empty : ltb 0 l.cmd_len ≡ false = ground (arith, h.same_len) in rw empty h
backspace-Holds l (c ∷ line) h =
    let some_left : ltb 0 l.cmd_len ≡ true = ground (arith, h.same_len) in
    rw some_left (record {
      chars = h.chars.1;
      same_len = omega (arith, h.same_len);
      fits = omega (arith, h.fits);
    })

push-Holds :
    (l : Command) (line : List ℕ) (c : ℕ)
    → Holds l line
    → length line < 255
    → Holds (record { command = update l.command l.cmd_len c; cmd_len = l.cmd_len + 1 }) (c ∷ line)
unfolding IsReversed
push-Holds l line c h room = record {
  chars = (
    ground (arith, h.same_len),
    IsReversed-update l.command l.cmd_len c line (omega (arith, h.same_len)) h.chars,
  );
  same_len = omega (arith, h.same_len);
  fits = omega arith;
}

type-Holds :
    (l : Command) (line : List ℕ) (c : ℕ)
    → c ≢ 8
    → Holds l line
    → Holds
        (if ltb l.cmd_len 255
          then record { command = update l.command l.cmd_len c; cmd_len = l.cmd_len + 1 }
          else l)
        (edit line c)
unfolding edit IsReversed
type-Holds l [] c other h =
    let room : ltb l.cmd_len 255 ≡ true = ground (arith, h.same_len) in
    rw (room, ne→eqb c 8 other) (push-Holds l [] c h (omega arith))
type-Holds l (e ∷ line) c other h = elim (Bool-cases (ltb (suc (length line)) 255)) [
  | inl less ↦
      let room : ltb l.cmd_len 255 ≡ true = ground (arith, h.same_len) in
      rw (room, ne→eqb c 8 other, less) (push-Holds l (e ∷ line) c h (ground arith))
  | inr full ↦
      let room : ltb l.cmd_len 255 ≡ false = ground (arith, h.same_len) in
      rw (room, ne→eqb c 8 other, full) h
]

-- From a line that the array holds, the loop on the keys goes on exactly as long as no line is
-- entered, and the line that is entered is the one that the keys spell, with backspace taking back
-- a character and no character taken beyond 255; it stands in the array with a 0 behind it.
pub read_line_lem :
    (l : Command) (line keys : List ℕ) → Holds l line → Read (typed line keys) (read_line l keys)
unfolding typed read_line line_key Read IsReversed
read_line_lem l line [] h = refl
read_line_lem l line (c ∷ keys) h = elim (Bool-cases (c == 10)) [
  | inl e ↦
      rw (e, read_line)
        (
          record {
            chars =
                IsReversed-update l.command l.cmd_len 0 line (omega (arith, h.same_len)) h.chars;
            same_len = h.same_len;
            fits = h.fits;
          },
          update_self l.command 0 l.cmd_len,
          omega (arith, h.same_len, h.fits),
        )
  | inr e ↦ elim (Bool-cases (c == 8)) [
    | inl b ↦
        let next = if ltb 0 l.cmd_len then record l { cmd_len = l.cmd_len - 1 } else l in
        let is_back = eqb→eq c 8 b in
        let rest = read_line_lem next (edit line 8) keys (backspace-Holds l line h) in
        rw (e, b, read_line)
          (subst (λ k. Read (typed (edit line k) keys) (read_line next keys)) (sym is_back) rest)
    | inr b ↦
        let next =
          if ltb l.cmd_len 255
          then record { command = update l.command l.cmd_len c; cmd_len = l.cmd_len + 1 }
          else l in
        let other : c ≢ 8 = λ same. ground arith in
        rw (e, b, read_line) (read_line_lem next (edit line c) keys (type-Holds l line c other h))
  ]
]
