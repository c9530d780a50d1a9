-- ===== src/Lisp/Tests.antt =====
-- Runs of the interpreter on small scripts.
use Prim.Native.String.{String}
use lisp_dos.Base.{
  ℕ, ◌+◌, ◌*◌, ◌≤◌, ◌<◌, ◌≡◌, refl, sym, ap, false, ◌||◌, none, some, List, [], ◌∷◌, ◌++◌, arith,
  length, codes,
}
use lisp_dos.Lisp.Machine.{
  num, symbol, list, nil, Env, Lisp, Outcome, done, exited, fault, is_null, is_err, first_of,
  rest_of, num_of, sym_of, new_lval_nil, new_lval_list, new_lval_err,
}
use lisp_dos.Lisp.Number.{multiply, subtract, add}
use lisp_dos.Lisp.Reader.{advance, read_atom, or_eof}
use lisp_dos.Lisp.Environment.{env_get}
use lisp_dos.Lisp.Evaluator.{is_named, defun, place, builtin, bind_params}
use lisp_dos.Lisp.Number.{int_text}
use lisp_dos.Lisp.Rules.{Returns, Leaves}
use lisp_dos.Lisp.Reader.{read_expr, is_num}
use lisp_dos.Lisp.Reader.Numbers.{all_atom}
use lisp_dos.Lisp.Reader.Atoms.{before, Delimited}
use lisp_dos.Lisp.Reader.RoundTrip.{show, size, IsReadable, read_expr-show}
use lisp_dos.Lisp.Reader.Ends.{read_expr-Returns}
use lisp_dos.Lisp.Environment.{same_text, env_find, stored}
use lisp_dos.Lisp.Environment.Laws.{IsText, HasRoom, env_find-stored}
use lisp_dos.Lisp.Evaluator.{eval}
use lisp_dos.Lisp.Evaluator.Sound.{IsSound, IsValue}
use lisp_dos.Lisp.Evaluator.Typing.{eval-IsSound}
use lisp_dos.Lisp.Evaluator.Arithmetic.{
  product, total, Arith, lit, call, end, arg, plus, less, times, node, value, op_name, op_value,
}
use lisp_dos.Lisp.Evaluator.Meaning.{IsArith, NotBound, cost, depth, count, eval-value}
use lisp_dos.Lisp.Program.Script.{IsWritten, start-value}
use lisp_dos.Base.Decimal.{IsSigned}
use lisp_dos.Lisp.Program.{Disk, start, started}

abbrev disk : String → Disk
disk text = record { size_of = λ name. length (codes text); content = λ name. codes text }

abbrev printed : Outcome (Unit {0}) → List ℕ
printed (exited s) = s.out
printed _ = []

runs_calls :
    printed
      (start 60 (disk "(defun sq (x) (* x x))\n(setq y 7) (print y) (- (sq y) 50)") [] started)
    ≡ codes "Executando Script LISP...\n7 \nResultado: -1\n"
unfolding start advance read_atom new_lval_nil new_lval_list new_lval_err is_named same_text defun
    first_of rest_of sym_of num_of env_get or_eof place builtin bind_params subtract multiply add
runs_calls = refl

runs_error :
    printed (start 60 (disk "(/ 4 0)") [] started)
    ≡ codes "Executando Script LISP...\nLISP EVAL ERROR: Divisao por zero\n"
unfolding start advance read_atom new_lval_nil new_lval_list new_lval_err is_named same_text defun
    first_of rest_of sym_of num_of env_get or_eof place builtin bind_params subtract multiply add
runs_error = refl

stray_close :
    printed (start 60 (disk " )") [] started)
    ≡ codes "Executando Script LISP...\nLISP PARSE ERROR: Unexpected ')'\n"
unfolding start advance read_atom new_lval_nil new_lval_list new_lval_err is_named same_text defun
    first_of rest_of sym_of num_of env_get or_eof place builtin bind_params subtract multiply add
stray_close = refl

-- No argument for `-`.
minus_alone : start 60 (disk "(-)") [] started ≡ fault
unfolding start advance read_atom new_lval_nil new_lval_list new_lval_err is_named same_text defun
    first_of rest_of sym_of num_of env_get or_eof place builtin bind_params subtract multiply add
minus_alone = refl

-- The list is not closed, and still evaluated.
unclosed :
    printed (start 60 (disk "(+ 1 2") [] started)
    ≡ codes "Executando Script LISP...\nResultado: 3\n"
unfolding start advance read_atom new_lval_nil new_lval_list new_lval_err is_named same_text defun
    first_of rest_of sym_of num_of env_get or_eof place builtin bind_params subtract multiply add
unclosed = refl

-- (+ 2 (* 3 -4) (- 5))
abbrev sample : Arith
sample = call plus (
    arg (lit 2) (
      arg (call times (arg (lit 3) (arg (lit 4294967292) end)))
        (arg (call less (arg (lit 5) end)) end)))

abbrev sample_disk : Disk
sample_disk = disk "(+ 2 (* 3 -4) (- 5))"

sample_text : show (node sample) ≡ codes "(+ 2 (* 3 -4) (- 5))"
unfolding show node op_name int_text
sample_text = refl

sample-IsArith : IsArith sample
unfolding IsArith count value op_value total product
sample-IsArith = omega arith

sample-IsWritten : IsWritten sample
unfolding IsWritten
sample-IsWritten = omega arith

start-value_example :
    (s : Lisp) × (number : List ℕ) × (start 60 sample_disk [] started ≡ exited s)
    × IsSigned number (value sample)
    × (s.out ≡ codes "Executando Script LISP...\n" ++ codes "Resultado: " ++ number ++ codes "\n")
unfolding value op_value total product
start-value_example =
    start-value sample 60 sample_disk [] (codes "lisp.txt") sample-IsArith sample-IsWritten
      (omega arith) refl (sym sample_text) (ap length (sym sample_text))
      (unfold size depth node in omega arith)
      (unfold size cost node show op_name int_text in omega arith)

sample-value : int_text (value sample) ≡ codes "-15"
unfolding value op_value int_text total product
sample-value = refl

eval-value_example :
    eval 30 (node sample) [] (before [] [] 0 [])
    ≡ done (num (value sample)) (before [] [] (0 + cost sample) [])
eval-value_example =
    eval-value sample 30 0 [] [] [] [] (unfold NotBound env_find in λ op. refl)
      (unfold NotBound env_find in λ op. refl) sample-IsArith (unfold depth in omega arith)
      (unfold cost in omega arith)

read_expr-show_example :
    read_expr 20
      (before [] [] 0 (show (list (symbol (codes "f")) (list (num 7) nil)) ++ codes " )"))
    ≡ done
        (list (symbol (codes "f")) (list (num 7) nil))
        (before [] [] (0 + 56 * size (list (symbol (codes "f")) (list (num 7) nil))) (codes " )"))
read_expr-show_example =
    read_expr-show [] [] (list (symbol (codes "f")) (list (num 7) nil)) 20 0 (codes " )")
      (unfold IsReadable is_num all_atom in
        ((refl, refl, omega arith, omega arith), (omega arith, tt)))
      (unfold size in omega arith) (unfold size in omega arith) (unfold Delimited in refl)

read_expr-Returns_example :
    Returns
      (λ e s'. (length s'.src ≤ 6) × ((is_null e || is_err e ≡ false) → length s'.src < 6))
      (read_expr 13 (before [] [] 0 (codes "(f 1 2")))
read_expr-Returns_example = read_expr-Returns 13 (before [] [] 0 (codes "(f 1 2")) (omega arith)

started-IsSound : IsSound started
started-IsSound = record { in_pool = omega arith; in_table = omega arith; values = tt }

eval-IsSound_example :
    Leaves
      (λ v s'. IsValue v × IsSound s')
      IsSound
      (eval 9
        (list (symbol (codes "setq")) (list (symbol (codes "x")) (list (num 7) nil)))
        []
        started)
eval-IsSound_example =
    eval-IsSound 9 (list (symbol (codes "setq")) (list (symbol (codes "x")) (list (num 7) nil))) []
      started tt started-IsSound

abbrev table : Env
table = (codes "a", num 1) ∷ (codes "b", num 2) ∷ []

env_find-stored_example :
    (length (stored (codes "b") nil table) ≤ 128)
    × (HasRoom (codes "b") table
        → ((codes "b" ≡ codes "b") → env_find (codes "b") (stored (codes "b") nil table) ≡ some nil)
          × ((¬ (codes "b" ≡ codes "b"))
              → env_find (codes "b") (stored (codes "b") nil table) ≡ env_find (codes "b") table))
    × ((env_find (codes "b") table ≡ none)
        → (length table ≡ 128)
        → stored (codes "b") nil table ≡ table)
env_find-stored_example =
    env_find-stored (codes "b") (codes "b") nil table (unfold IsText in omega arith)
      (unfold IsText in omega arith) (unfold IsText in omega arith) (omega arith)
