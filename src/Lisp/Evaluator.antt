-- ===== src/Lisp/Evaluator.antt =====
-- The evaluator of src/tools/lisp.c.
pub mod Sound
pub mod Steps
pub mod Typing
pub mod Fuel
pub mod Arithmetic
pub mod Meaning
use lisp_dos.Base.{
  ℕ, zero, suc, ◌+◌, ◌-◌, ◌*◌, ◌/◌, Bool, false, List, [], ◌∷◌, ltb, ◌==◌, if◌then◌else◌, codes,
}
use lisp_dos.Lisp.Machine.{
  ◌>>=◌, ◌>>◌, Node, null, num, symbol, list, nil, func, Env, fault, M, pure, spent, via, is_err,
  put_text, first_of, rest_of, num_of, sym_of, new_lval_num, new_lval_err, new_lval_sym,
  new_lval_nil, new_lval_func,
}
use lisp_dos.Lisp.Number.{add, subtract, multiply, divide, negate, print_int}
use lisp_dos.Lisp.Environment.{same_text, env_set, env_get}

abbrev pub undefined : {A : Type 0} → M A
undefined s = fault

-- The type of a node is read.
unfoldable pub deref : Node → M Node
deref null = undefined
deref n = pure n

unfoldable pub is_named : Node → List ℕ → Bool
is_named (symbol m) name = same_text m name
is_named _ name = false

unfoldable pub defun : Node → M Node
unfolding new_lval_func env_set new_lval_sym
defun rest1 = do
  name ← via (first_of rest1)
  rest2 ← via (rest_of rest1)
  params ← via (first_of rest2)
  rest3 ← via (rest_of rest2)
  body ← via (first_of rest3)
  made ← new_lval_func params body
  text ← via (sym_of name)
  env_set text made
  new_lval_sym (codes "ok")

unfoldable pub fold_args : (ℕ → ℕ → ℕ) → ℕ → List Node → M ℕ
fold_args op res [] = pure res
fold_args op res (a ∷ args) = do n ← via (num_of a); fold_args op (op res n) args

-- With no argument `args_eval[0]` is read before anything is written to it.
unfoldable pub minus : List Node → M Node
unfolding fold_args new_lval_num
minus [] = undefined
minus (a ∷ []) = do n ← via (num_of a); new_lval_num (negate n)
minus (a ∷ args) = do n ← via (num_of a); res ← fold_args subtract n args; new_lval_num res

unfoldable pub quotient : ℕ → Node → M Node
unfolding new_lval_num new_lval_err
quotient d a =
    if d == 0
    then new_lval_err (codes "Divisao por zero")
    else do n ← via (num_of a); q ← via (divide n d); new_lval_num q

unfoldable pub over : List Node → M Node
unfolding quotient new_lval_err
over (a ∷ b ∷ args) = do d ← via (num_of b); quotient d a
over _ = new_lval_err (codes "Divisao por zero")

-- What `print` prints of an argument before the space.
unfoldable pub show_value : Node → M (Unit {0})
unfolding print_int put_text
show_value (num n) = print_int n
show_value (symbol m) = put_text m
show_value _ = put_text []

unfoldable pub print_args : List Node → M (Unit {0})
unfolding show_value put_text
print_args [] = pure tt
print_args (a ∷ args) = do v ← deref a; show_value v; put_text (codes " "); print_args args

abbrev pub no_function : M Node
no_function = new_lval_err (codes "Nao e uma funcao valida")

unfoldable pub builtin : List ℕ → List Node → M Node
unfolding fold_args minus over print_args put_text new_lval_num new_lval_nil
builtin name args =
    if same_text name (codes "+")
    then (do res ← fold_args add 0 args; new_lval_num res)
    else if same_text name (codes "-")
    then minus args
    else if same_text name (codes "*")
    then (do res ← fold_args multiply 1 args; new_lval_num res)
    else if same_text name (codes "/")
    then over args
    else if same_text name (codes "print")
    then (do print_args args; put_text (codes "\n"); new_lval_nil)
    else no_function

-- The parameters that have an argument.
unfoldable pub bind_params : Node → List Node → M Env
bind_params (list p more) (a ∷ args) = do
  text ← via (sym_of p)
  later ← bind_params more args
  pure ((text, a) ∷ later)
bind_params _ args = pure []

abbrev pub arg_limit : ℕ
arg_limit = 16

-- `args_eval[ac++] = …` and the arguments after it: the array has 16 places.
unfoldable pub place : (ac : ℕ) → Node → M (List Node) → M (List Node)
place ac v later = if ltb ac arg_limit then (do vs ← later; pure (v ∷ vs)) else undefined

-- Each call takes one of the fuel.
unfoldable mutual
  pub eval : ℕ → Node → Env → M Node
  eval zero ast local = spent
  eval (suc fuel) null local = new_lval_nil
  eval (suc fuel) (num n) local = pure (num n)
  eval (suc fuel) (symbol m) local = env_get m local
  eval (suc fuel) nil local = pure nil
  eval (suc fuel) (list first rest) local = do
    head ← deref first
    let set = setq fuel rest local
    let called = do
      f ← eval fuel head local
      g ← deref f
      let applied = do args ← eval_args fuel rest local 0; apply fuel g args
      (if is_err g then pure g else applied)
    (if is_named head (codes "defun")
        then defun rest
        else if is_named head (codes "setq")
        then set
        else called)
  eval (suc fuel) _ local = new_lval_err (codes "Erro de avaliacao")

  pub setq : ℕ → Node → Env → M Node
  setq zero rest local = spent
  setq (suc fuel) rest local = do
    name ← via (first_of rest)
    rest1 ← via (rest_of rest)
    ast ← via (first_of rest1)
    val ← eval fuel ast local
    text ← via (sym_of name)
    env_set text val
    pure val

  pub eval_args : ℕ → Node → Env → (ac : ℕ) → M (List Node)
  eval_args zero curr local ac = spent
  eval_args (suc fuel) (list a more) local ac = do
    v ← eval fuel a local
    place ac v (eval_args fuel more local (ac + 1))
  eval_args (suc fuel) _ local ac = pure []

  pub apply : ℕ → Node → List Node → M Node
  apply zero f args = spent
  apply (suc fuel) (symbol m) args = builtin m args
  apply (suc fuel) (func params body) args = do
    new_env ← bind_params params args
    eval fuel body new_env
  apply (suc fuel) _ args = no_function
