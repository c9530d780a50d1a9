-- ===== src/Lisp/Program.antt =====
-- `_start` of src/tools/lisp.c.
pub mod Script
use lisp_dos.Base.{
  ℕ, zero, suc, ◌+◌, ◌<◌, not, List, [], ◌∷◌, ltb, ◌==◌, if◌then◌else◌, Memory, length, codes,
}
use lisp_dos.Lisp.Machine.{
  ◌>>=◌, ◌>>◌, Node, null, num, symbol, nil, func, Lisp, M, pure, spent, sys_exit, via, ◌>>◌,
  is_err, is_null, put_text, lisp_malloc, sym_of,
}
use lisp_dos.Lisp.Number.{print_int, is_negative}
use lisp_dos.Lisp.Reader.{peek, read_expr}
use lisp_dos.Lisp.Evaluator.{undefined, deref, eval}

-- What the system calls answer for a name: `fat16_get_file_size`, and the bytes that
-- `fat16_read_file` stores, as many as it answers.
pub record Disk : Type 0 where
  pub size_of : List ℕ → ℕ
  pub content : List ℕ → List ℕ

abbrev pub started : Lisp
started = record { pool = 0; src = []; env = []; out = [] }

unfoldable pub file_name : List ℕ → List ℕ
file_name [] = codes "lisp.txt"
file_name (c ∷ args) = c ∷ args

-- A message, the text of an error and a line's end, and the program's end.
unfoldable pub fail_with : List ℕ → Node → M Node
unfolding put_text
fail_with message e = do
  put_text message
  text ← via (sym_of e)
  put_text text
  put_text (codes "\n")
  sys_exit

-- The loop over the expressions, with the value of the last one; the reader and the evaluator have
-- the fuel that is left.
unfoldable pub run_loop : ℕ → Node → M Node
unfolding peek read_expr eval deref fail_with
run_loop zero last_res = spent
run_loop (suc fuel) last_res = do
  c ← peek
  let next = λ (ast : Node). do
    val ← eval fuel ast []
    res ← deref val
    let rest = run_loop fuel res
    (if is_err res then fail_with (codes "LISP EVAL ERROR: ") res else rest)
  let step = do
    ast ← read_expr fuel
    let go = next ast
    (if is_null ast
        then pure last_res
        else if is_err ast
        then fail_with (codes "LISP PARSE ERROR: ") ast
        else go)
  (if c == 0 then pure last_res else step)

unfoldable pub show_result : Node → M (Unit {0})
unfolding print_int put_text
show_result (num n) = print_int n
show_result (symbol m) = put_text m
show_result nil = put_text (codes "nil")
show_result (func params body) = put_text (codes "#<function>")
show_result _ = put_text []

unfoldable pub finish : Node → M (Unit {0})
unfolding show_result put_text
finish null = sys_exit
finish last_res = do
  put_text (codes "Resultado: ")
  show_result last_res
  put_text (codes "\n")
  sys_exit

-- The text up to its first 0.
unfoldable pub text_of : List ℕ → List ℕ
text_of [] = []
text_of (c ∷ s) = if c == 0 then [] else c ∷ text_of s

unfoldable pub run_text : ℕ → List ℕ → M (Unit {0})
unfolding run_loop finish put_text text_of
run_text fuel content s = after_text (record s { src = text_of content; env = [] })
  where
    after_text : M (Unit {0})
    after_text = do
      put_text (codes "Executando Script LISP...\n")
      last_res ← run_loop fuel null
      finish last_res

abbrev stop_with : List ℕ → M (Unit {0})
unfolding put_text
stop_with message = put_text message >> sys_exit

-- A size that is negative as an `int` takes the index of the pool below its start, and a file
-- longer than the size asked for is written over what follows the buffer.
unfoldable pub start : (fuel : ℕ) → Disk → (args : List ℕ) → M (Unit {0})
unfolding file_name lisp_malloc run_text stop_with
start fuel disk args =
    let name = file_name args in
    let fsize = disk.size_of name in
    let content = disk.content name in
    let load = do
      room ← lisp_malloc (fsize + 1)
      (if not room
          then stop_with (codes "Erro: Script muito grande para o Memory Pool (1 MB).\n")
          else if ltb fsize (length content)
          then undefined
          else if length content == 0
          then stop_with (codes "Erro ao ler arquivo do HD.\n")
          else run_text fuel content)
    in if fsize == 0
      then stop_with (codes "Erro: Arquivo nao encontrado ou vazio no HD.\n")
      else if is_negative (fsize + 1)
      then undefined
      else load
