-- ===== src/Shell.antt =====
-- The shell of src/kernel/main.c: the line that the user edits, and its split into the name of the
-- command and the arguments. Echoing to the terminal is left out.
pub mod Edits
pub mod Split
pub mod Commands
pub mod Changes
mod Tests
use lisp_dos.Base.{
  ℕ, zero, suc, ◌+◌, ◌-◌, Option, none, some, List, [], ◌∷◌, ltb, ◌==◌, if◌then◌else◌, Memory,
  update,
}

-- The array `command` of 256 characters, and `cmd_len`.
pub record Command : Type 0 where
  pub command : Memory
  pub cmd_len : ℕ

-- What a character does: the line goes on, or is entered.
pub data Line : Type 0 where
  editing : Command → Line
  entered : Command → Line

unfoldable pub line_key : Command → ℕ → Line
line_key l c =
    if c == 10
    then entered (record l { command = update l.command l.cmd_len 0 })
    else if c == 8
    then editing (if ltb 0 l.cmd_len then record l { cmd_len = l.cmd_len - 1 } else l)
    else editing (
        if ltb l.cmd_len 255
        then record { command = update l.command l.cmd_len c; cmd_len = l.cmd_len + 1 }
        else l)

-- The inner loop, on the characters that `keyboard_getchar` gives.
unfoldable pub read_line : Command → List ℕ → Line
read_line l [] = editing l
read_line l (c ∷ keys) = elim (line_key l c) [
  | editing l' ↦ read_line l' keys
  | entered l' ↦ entered l'
]

-- `for (i = 0; i < cmd_len; i++) if (command[i] == ' ') { space_idx = i; break; }`
unfoldable pub find_space : Memory → (left i : ℕ) → Option ℕ
find_space m zero i = none
find_space m (suc n) i = let rest = find_space m n (i + 1) in if m i == 32 then some i else rest

-- `for (...) to[j++] = from[i++]`, of `n` characters
unfoldable pub copy_chars : Memory → Memory → (i j n : ℕ) → Memory
copy_chars from to i j zero = to
copy_chars from to i j (suc n) = copy_chars from (update to j (from i)) (i + 1) (j + 1) n

-- The arrays `cmd_name`, of 32 characters, and `args`, of 224, with what they held before.
unfoldable pub split : Command → (cmd_name args : Memory) → Memory × Memory
split l cmd_name args =
    let name0 = update cmd_name 0 0 in
    let args0 = update args 0 0 in
    elim (find_space l.command l.cmd_len 0) [
      | some space_idx ↦
          let len = if ltb space_idx 31 then space_idx else 31 in
          let n = l.cmd_len - (space_idx + 1) in
          (
            update (copy_chars l.command name0 0 0 len) len 0,
            update (copy_chars l.command args0 (space_idx + 1) 0 n) n 0,
          )
      | none ↦
          let len = if ltb l.cmd_len 31 then l.cmd_len else 31 in
          (update (copy_chars l.command name0 0 0 len) len 0, args0)
    ]
