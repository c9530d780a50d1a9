-- ===== src/Editor/Session.antt =====
-- `_start` of src/tools/editor.c: the file that is loaded, the keys one after the other, and the file
-- that is written in the end.
use lisp_dos.Base.{
  ℕ, zero, suc, ◌+◌, ◌-◌, ◌*◌, ◌^◌, false, ◌&&◌, List, [], ◌∷◌, ltb, leb, if◌then◌else◌, Memory,
  codes,
}
use lisp_dos.Editor.{Editor, Outcome, running, saved, quit, edit_key}

-- What the system calls `fat16_get_file_size` and `fat16_read_file` do for a name: the size, and the
-- answer with what is stored in the buffer.
pub record Files : Type 0 where
  pub size_of : List ℕ → ℕ
  pub read_file : List ℕ → Memory → ℕ × Memory

abbrev pub pool_size : ℕ
pool_size = 1024 * 1024

-- `kstrncpy`, with the characters that still fit before the 0.
unfoldable pub kstrncpy : List ℕ → (left : ℕ) → List ℕ
kstrncpy src zero = []
kstrncpy [] (suc left) = []
kstrncpy (c ∷ src) (suc left) = c ∷ kstrncpy src left

unfoldable pub file_name : List ℕ → List ℕ
file_name [] = codes "buffer.txt"
file_name (c ∷ args) = c ∷ args

-- The start: the message and the end without room in the pool, or the editor and the name under
-- which it saves. A sum that an `int` does not hold is undefined.
pub data Start : Type 0 where
  no_room : Start
  overflow : Start
  opened : (current_filename : List ℕ) → Editor → Start

-- `edit_buffer_max`, where a size with the top bit is negative.
abbrev pub buffer_max : ℕ → ℕ
buffer_max fsize = if ltb fsize (2 ^ 31) then fsize + 8192 else fsize + 8192 - 2 ^ 32

-- The text that is loaded: its length, and the buffer, which was `pool`.
unfoldable pub load : Files → (filename : List ℕ) → (fsize : ℕ) → (pool : Memory) → ℕ × Memory
load f filename fsize pool =
    let (size, buffer) = f.read_file filename pool in
    if ltb 0 fsize && ltb fsize (2 ^ 31)
    then (if ltb 0 size && ltb size (2 ^ 31) then size else 0, buffer)
    else (0, pool)

unfoldable pub start : Files → (args : List ℕ) → (pool : Memory) → Start
unfolding load
start f args pool =
    let filename = file_name args in
    let fsize = f.size_of filename in
    let (len, buffer) = load f filename fsize pool in
    if leb (2 ^ 31) (fsize + 8192) && ltb fsize (2 ^ 31)
    then overflow
    else if ltb pool_size (buffer_max fsize) && ltb fsize (2 ^ 31)
    then no_room
    else opened (kstrncpy filename 31) (record {
      buffer = buffer;
      max = buffer_max fsize;
      len = len;
      cursor = 0;
      insert_mode = false;
      last_key = 0;
    })

-- The loop on the keys that `keyboard_getchar` gives.
unfoldable pub edit : Editor → List ℕ → Outcome
edit ed [] = running ed
edit ed (c ∷ keys) = elim (edit_key ed c) [
  | running ed' ↦ edit ed' keys
  | saved ed' ↦ saved ed'
  | quit ↦ quit
]

-- What the program asks of the system in the end: `fat16_write_file` with the name, the buffer and the
-- size, or nothing; or it still waits for a key.
pub data Run : Type 0 where
  editing : Editor → Run
  writes : (name : List ℕ) (data_at : Memory) (size : ℕ) → Run
  left : Run

unfoldable pub session : (current_filename : List ℕ) → Editor → List ℕ → Run
session current_filename ed keys = elim (edit ed keys) [
  | running ed' ↦ editing ed'
  | saved ed' ↦ writes current_filename ed'.buffer ed'.len
  | quit ↦ left
]
