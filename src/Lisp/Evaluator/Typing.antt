-- ===== src/Lisp/Evaluator/Typing.antt =====
-- The evaluator returns values, and keeps the pool and the environment sound.
use lisp_dos.Base.{ℕ, zero, suc, ◌+◌, List, [], ◌∷◌, ltb, if_holds, codes}
use lisp_dos.Lisp.Machine.{
  Node, null, err, num, symbol, list, nil, func, Env, Lisp, M, first_of, rest_of, sym_of, is_err,
}
use lisp_dos.Lisp.Rules.{Leaves, Leaves-after}
use lisp_dos.Lisp.Evaluator.{env_set, eval, eval_args, setq, apply, bind_params, place, is_named}
use lisp_dos.Lisp.Evaluator.Sound.{
  IsValue, AreValues, IsSound, ValueAnd, env_set-Sound, env_get-Sound,
}
use lisp_dos.Lisp.Evaluator.Steps.{
  then-Sound, via_then, err-Sound, nil-Sound, defun-Sound, deref_then, builtin-Sound,
}

abbrev AllValues : List Node → Type 0
AllValues [] = Unit
AllValues (v ∷ vs) = IsValue v × AllValues vs

abbrev ArgsAnd : List Node → Lisp → Type 0
ArgsAnd vs s = AllValues vs × IsSound s

abbrev EnvAnd : Env → Lisp → Type 0
EnvAnd env s = AreValues env × IsSound s

bind_params-Sound :
    (params : Node) (args : List Node) (s : Lisp)
    → AllValues args
    → IsSound s
    → Leaves EnvAnd IsSound (bind_params params args s)
unfolding bind_params
bind_params-Sound (list p more) [] s all sound = (tt, sound)
bind_params-Sound (list p more) (a ∷ args) s (value, all) sound =
    via_then EnvAnd (sym_of p) _ s λ text.
      Leaves-after EnvAnd EnvAnd IsSound (bind_params more args s) _
        (bind_params-Sound more args s all sound)
        λ later s1 (values, sound1). ((value, values), sound1)
bind_params-Sound null args s all sound = (tt, sound)
bind_params-Sound _ args s all sound = (tt, sound)

place-Sound :
    (ac : ℕ) (v : Node) (later : M (List Node)) (s : Lisp)
    → IsValue v
    → Leaves ArgsAnd IsSound (later s)
    → Leaves ArgsAnd IsSound (place ac v later s)
unfolding place
place-Sound ac v later s value h =
    if_holds {A = M (List Node)} (λ m. Leaves ArgsAnd IsSound (m s)) (ltb ac 16)
      (λ _.
        Leaves-after ArgsAnd ArgsAnd IsSound (later s) _ h
          λ vs s1 (all, sound1). ((value, all), sound1))
      λ _. tt

mutual
  unfolding eval

  eval-Leaves :
      (fuel : ℕ) (ast : Node) (local : Env) (s : Lisp)
      → AreValues local
      → IsSound s
      → Leaves ValueAnd IsSound (eval fuel ast local s)
  eval-Leaves zero ast local s all sound = tt
  eval-Leaves (suc fuel) null local s all sound = nil-Sound s sound
  eval-Leaves (suc fuel) (num n) local s all sound = (tt, sound)
  eval-Leaves (suc fuel) (symbol m) local s all sound = env_get-Sound m local s all sound
  eval-Leaves (suc fuel) nil local s all sound = (tt, sound)
  eval-Leaves (suc fuel) (err m) local s all sound = err-Sound (codes "Erro de avaliacao") s sound
  eval-Leaves (suc fuel) (func a b) local s all sound =
      err-Sound (codes "Erro de avaliacao") s sound
  eval-Leaves (suc fuel) (list first rest) local s all sound =
      let P : M Node → Type 0 = λ m. Leaves ValueAnd IsSound (m s) in
      deref_then ValueAnd first _ s (
        if_holds P (is_named first (codes "defun")) (λ _. defun-Sound rest s sound)
          λ _.
            if_holds P (is_named first (codes "setq"))
              (λ _. setq-Leaves fuel rest local s all sound)
              λ _.
                Leaves-after ValueAnd ValueAnd IsSound (eval fuel first local s) _
                  (eval-Leaves fuel first local s all sound)
                  λ f s1 (value, sound1). deref_then ValueAnd f _ s1 (
                    if_holds {A = M Node} (λ m. Leaves ValueAnd IsSound (m s1)) (is_err f)
                      (λ _. (value, sound1))
                      λ _.
                        Leaves-after ArgsAnd ValueAnd IsSound (eval_args fuel rest local 0 s1) _
                          (args-Leaves fuel rest local 0 s1 all sound1)
                          λ args s2 (values, sound2). apply-Leaves fuel f args s2 values sound2))

  setq-Leaves :
      (fuel : ℕ) (rest : Node) (local : Env) (s : Lisp)
      → AreValues local
      → IsSound s
      → Leaves ValueAnd IsSound (setq fuel rest local s)
  setq-Leaves zero rest local s all sound = tt
  setq-Leaves (suc fuel) rest local s all sound = via_then ValueAnd (first_of rest) _ s λ name.
      via_then ValueAnd (rest_of rest) _ s λ rest1. via_then ValueAnd (first_of rest1) _ s λ ast.
        Leaves-after ValueAnd ValueAnd IsSound (eval fuel ast local s) _
          (eval-Leaves fuel ast local s all sound)
          λ val s1 (value, sound1). via_then ValueAnd (sym_of name) _ s1 λ text.
            then-Sound ValueAnd (env_set text val s1) _ (env_set-Sound text val s1 value sound1)
              λ _ s2 sound2. (value, sound2)

  args-Leaves :
      (fuel : ℕ) (curr : Node) (local : Env) (ac : ℕ) (s : Lisp)
      → AreValues local
      → IsSound s
      → Leaves ArgsAnd IsSound (eval_args fuel curr local ac s)
  args-Leaves zero curr local ac s all sound = tt
  args-Leaves (suc fuel) (list a more) local ac s all sound =
      Leaves-after ValueAnd ArgsAnd IsSound (eval fuel a local s) _
        (eval-Leaves fuel a local s all sound)
        λ v s1 (value, sound1).
          place-Sound ac v (eval_args fuel more local (ac + 1)) s1 value
            (args-Leaves fuel more local (ac + 1) s1 all sound1)
  args-Leaves (suc fuel) null local ac s all sound = (tt, sound)
  args-Leaves (suc fuel) _ local ac s all sound = (tt, sound)

  apply-Leaves :
      (fuel : ℕ) (f : Node) (args : List Node) (s : Lisp)
      → AllValues args
      → IsSound s
      → Leaves ValueAnd IsSound (apply fuel f args s)
  apply-Leaves zero f args s all sound = tt
  apply-Leaves (suc fuel) (symbol m) args s all sound = builtin-Sound m args s sound
  apply-Leaves (suc fuel) (func params body) args s all sound =
      Leaves-after EnvAnd ValueAnd IsSound (bind_params params args s) _
        (bind_params-Sound params args s all sound)
        λ env s1 (values, sound1). eval-Leaves fuel body env s1 values sound1
  apply-Leaves (suc fuel) null args s all sound =
      err-Sound (codes "Nao e uma funcao valida") s sound
  apply-Leaves (suc fuel) _ args s all sound = err-Sound (codes "Nao e uma funcao valida") s sound

-- Whatever expression is evaluated, on any fuel, from a sound state and with values bound to the
-- local names: if `eval` returns, it returns a value, never a list or the null pointer, and if it
-- returns or ends the program, the state is sound: the pool's index is at most 1 MB, and the global
-- table has at most 128 entries, which are values.
pub eval-IsSound :
    (fuel : ℕ) (ast : Node) (local : Env) (s : Lisp)
    → AreValues local
    → IsSound s
    → Leaves (λ v s'. IsValue v × IsSound s') IsSound (eval fuel ast local s)
eval-IsSound fuel ast local s = eval-Leaves fuel ast local s
