-- ===== src/Lisp/Evaluator/Fuel.antt =====
-- More fuel does not change what the evaluator does.
use lisp_dos.Base.{
  ℕ, zero, suc, ◌+◌, ◌≤◌, ◌≡◌, refl, sym, ap, ◌≢◌, Bool, true, false, List, arith, ltb,
  if◌then◌else◌, subst, codes,
}
use lisp_dos.Lisp.Machine.{
  Node, null, err, num, symbol, list, nil, func, Env, Lisp, Outcome, done, exited, fault,
  out_of_fuel, M, after, via, first_of, rest_of, is_err,
}
use lisp_dos.Lisp.Evaluator.{
  no_function, new_lval_err, env_get, undefined, new_lval_nil, eval, eval_args, setq, apply, defun,
  builtin, bind_params, place, deref, is_named,
}

-- The second outcome is the first, unless that one is the end of the fuel.
abbrev pub Extends : {A : Type 0} → Outcome A → Outcome A → Type 0
Extends out_of_fuel o' = Unit
Extends (done a s) o' = done a s ≡ o'
Extends (exited s) o' = exited s ≡ o'
Extends fault o' = fault ≡ o'

same : {A : Type 0} (o : Outcome A) → Extends o o
same (done a s) = refl
same (exited s) = refl
same fault = refl
same out_of_fuel = tt

after-Extends :
    {A B : Type 0} (o o' : Outcome A) (k k' : A → M B)
    → Extends o o'
    → ((a : A) (s : Lisp) → Extends (k a s) (k' a s))
    → Extends (after o k) (after o' k')
after-Extends (done a s) o' k k' h next = subst (λ q. Extends (k a s) (after q k')) h (next a s)
after-Extends (exited s) o' k k' h next = ap (λ q. after q k') h
after-Extends fault o' k k' h next = ap (λ q. after q k') h
after-Extends out_of_fuel o' k k' h next = tt

-- A call that takes no fuel, before another.
then-Extends :
    {A B : Type 0} (o : Outcome A) (k k' : A → M B)
    → ((a : A) (s : Lisp) → Extends (k a s) (k' a s))
    → Extends (after o k) (after o k')
then-Extends o k k' = after-Extends o o k k' (same o)

if-Extends :
    {A : Type 0} (b : Bool) (m m' n n' : M A) (s : Lisp)
    → Extends (m s) (m' s)
    → Extends (n s) (n' s)
    → Extends ((if b then m else n) s) ((if b then m' else n') s)
if-Extends true m m' n n' s h k = h
if-Extends false m m' n n' s h k = k

place-Extends :
    (ac : ℕ) (v : Node) (m m' : M (List Node)) (s : Lisp)
    → Extends (m s) (m' s)
    → Extends (place ac v m s) (place ac v m' s)
unfolding place
place-Extends ac v m m' s h =
    if-Extends (ltb ac 16) _ _ _ _ s (after-Extends (m s) (m' s) _ _ h λ vs s1. refl)
      (same (undefined s))

mutual
  unfolding eval

  eval-Extends :
      (f g : ℕ)
      → f ≤ g
      → (ast : Node) (local : Env) (s : Lisp) → Extends (eval f ast local s) (eval g ast local s)
  eval-Extends zero g h ast local s = tt
  eval-Extends (suc f) zero h ast local s = absurd (omega arith)
  eval-Extends (suc f) (suc g) h (list first rest) local s =
      let le : f ≤ g = omega arith in
      then-Extends (deref first s) _ _ λ head s1.
        if-Extends (is_named head (codes "defun")) _ _ _ _ s1 (same (defun rest s1)) (
          if-Extends (is_named head (codes "setq")) _ _ _ _ s1 (setq-Extends f g le rest local s1) (
            after-Extends (eval f head local s1) (eval g head local s1) _ _
              (eval-Extends f g le head local s1)
              λ called s2. then-Extends (deref called s2) _ _ λ fn s3.
                if-Extends (is_err fn) _ _ _ _ s3 refl (
                  after-Extends (eval_args f rest local 0 s3) (eval_args g rest local 0 s3) _ _
                    (args-Extends f g le rest local 0 s3)
                    λ args s4. apply-Extends f g le fn args s4)))
  eval-Extends (suc f) (suc g) h null local s = same (new_lval_nil s)
  eval-Extends (suc f) (suc g) h (symbol m) local s = same (env_get m local s)
  eval-Extends (suc f) (suc g) h (num n) local s = refl
  eval-Extends (suc f) (suc g) h nil local s = refl
  eval-Extends (suc f) (suc g) h (err m) local s = same (new_lval_err (codes "Erro de avaliacao") s)
  eval-Extends (suc f) (suc g) h (func a b) local s =
      same (new_lval_err (codes "Erro de avaliacao") s)

  setq-Extends :
      (f g : ℕ)
      → f ≤ g
      → (rest : Node) (local : Env) (s : Lisp) → Extends (setq f rest local s) (setq g rest local s)
  setq-Extends zero g h rest local s = tt
  setq-Extends (suc f) zero h rest local s = absurd (omega arith)
  setq-Extends (suc f) (suc g) h rest local s = then-Extends (via (first_of rest) s) _ _ λ name s1.
      then-Extends (via (rest_of rest) s1) _ _ λ rest1 s2.
        then-Extends (via (first_of rest1) s2) _ _ λ ast s3.
          after-Extends (eval f ast local s3) (eval g ast local s3) _ _
            (eval-Extends f g (omega arith) ast local s3) λ val s4. same _

  args-Extends :
      (f g : ℕ)
      → f ≤ g
      → (curr : Node) (local : Env) (ac : ℕ) (s : Lisp)
      → Extends (eval_args f curr local ac s) (eval_args g curr local ac s)
  args-Extends zero g h curr local ac s = tt
  args-Extends (suc f) zero h curr local ac s = absurd (omega arith)
  args-Extends (suc f) (suc g) h (list a more) local ac s =
      after-Extends (eval f a local s) (eval g a local s) _ _
        (eval-Extends f g (omega arith) a local s)
        λ v s1.
          place-Extends ac v (eval_args f more local (ac + 1)) (eval_args g more local (ac + 1)) s1
            (args-Extends f g (omega arith) more local (ac + 1) s1)
  args-Extends (suc f) (suc g) h null local ac s = refl
  args-Extends (suc f) (suc g) h _ local ac s = refl

  apply-Extends :
      (f g : ℕ)
      → f ≤ g
      → (fn : Node) (args : List Node) (s : Lisp) → Extends (apply f fn args s) (apply g fn args s)
  apply-Extends zero g h fn args s = tt
  apply-Extends (suc f) zero h fn args s = absurd (omega arith)
  apply-Extends (suc f) (suc g) h (symbol m) args s = same (builtin m args s)
  apply-Extends (suc f) (suc g) h (func params body) args s =
      then-Extends (bind_params params args s) _ _
        λ env s1. eval-Extends f g (omega arith) body env s1
  apply-Extends (suc f) (suc g) h null args s = same (no_function s)
  apply-Extends (suc f) (suc g) h _ args s = same (no_function s)

-- Whatever comes of an evaluation that does not run out of fuel (a value, the program's end or an
-- undefined access) comes of it with more fuel as well.
pub eval_mono :
    (f g : ℕ) (ast : Node) (local : Env) (s : Lisp)
    → f ≤ g
    → eval f ast local s ≢ out_of_fuel
    → eval g ast local s ≡ eval f ast local s
eval_mono f g ast local s le ends =
    agree (eval f ast local s) (eval g ast local s) (eval-Extends f g le ast local s) ends
  where
    agree : (o o' : Outcome Node) → Extends o o' → o ≢ out_of_fuel → o' ≡ o
    agree (done a s) o' h ends = sym h
    agree (exited s) o' h ends = sym h
    agree fault o' h ends = sym h
    agree out_of_fuel o' h ends = absurd (ends refl)
