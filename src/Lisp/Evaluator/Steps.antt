-- ===== src/Lisp/Evaluator/Steps.antt =====
-- Each step of the evaluator but its recursive calls returns a value, and keeps the pool and the
-- environment sound.
use lisp_dos.Base.{ℕ, Option, none, some, List, [], ◌∷◌, ◌==◌, if_holds, codes}
use lisp_dos.Lisp.Machine.{
  Node, null, err, num, symbol, nil, func, Lisp, Outcome, M, after, via, put_text, alloc_node,
  new_lval_num, new_lval_sym, new_lval_err, new_lval_nil, new_lval_func, first_of, rest_of, sym_of,
  num_of,
}
use lisp_dos.Lisp.Number.{int_text, print_int}
use lisp_dos.Lisp.Rules.{Leaves, Leaves-after}
use lisp_dos.Lisp.Evaluator.{
  multiply, subtract, add, same_text, negate, env_set, divide, defun, builtin, deref, fold_args,
  minus, over, quotient, print_args, show_value,
}
use lisp_dos.Lisp.Evaluator.Sound.{IsSound, ValueAnd, Sound, alloc_node-Sound, env_set-Sound}

-- A call that only the state's soundness is known of, before another.
pub then-Sound :
    {A B : Type 0} (R : B → Lisp → Type 0) (o : Outcome A) (k : A → M B)
    → Leaves Sound IsSound o
    → ((a : A) (s : Lisp) → IsSound s → Leaves R IsSound (k a s))
    → Leaves R IsSound (after o k)
then-Sound R o k = Leaves-after Sound R IsSound o k

pub via_then :
    {A B : Type 0} (R : B → Lisp → Type 0) (o : Option A) (k : A → M B) (s : Lisp)
    → ((a : A) → Leaves R IsSound (k a s))
    → Leaves R IsSound (after (via o s) k)
via_then R none k s next = tt
via_then R (some a) k s next = next a

put_text-Sound : (text : List ℕ) (s : Lisp) → IsSound s → Leaves Sound IsSound (put_text text s)
unfolding put_text
put_text-Sound text s sound = record {
  in_pool = sound.in_pool;
  in_table = sound.in_table;
  values = sound.values;
}

num-Sound : (n : ℕ) (s : Lisp) → IsSound s → Leaves ValueAnd IsSound (new_lval_num n s)
unfolding new_lval_num
num-Sound n s = alloc_node-Sound (num n) s tt

pub err-Sound : (m : List ℕ) (s : Lisp) → IsSound s → Leaves ValueAnd IsSound (new_lval_err m s)
unfolding new_lval_err
err-Sound m s = alloc_node-Sound (err m) s tt

pub nil-Sound : (s : Lisp) → IsSound s → Leaves ValueAnd IsSound (new_lval_nil s)
unfolding new_lval_nil
nil-Sound s = alloc_node-Sound nil s tt

pub defun-Sound : (rest : Node) (s : Lisp) → IsSound s → Leaves ValueAnd IsSound (defun rest s)
unfolding defun new_lval_func new_lval_sym
defun-Sound rest s sound = via_then ValueAnd (first_of rest) _ s λ name.
    via_then ValueAnd (rest_of rest) _ s λ rest2. via_then ValueAnd (first_of rest2) _ s λ params.
      via_then ValueAnd (rest_of rest2) _ s λ rest3. via_then ValueAnd (first_of rest3) _ s λ body.
        Leaves-after ValueAnd ValueAnd IsSound (alloc_node (func params body) s) _
          (alloc_node-Sound (func params body) s tt sound)
          λ made s1 (value, sound1). via_then ValueAnd (sym_of name) _ s1 λ text.
            then-Sound ValueAnd (env_set text made s1) _ (env_set-Sound text made s1 value sound1)
              λ _ s2 sound2. alloc_node-Sound (symbol (codes "ok")) s2 tt sound2

fold_args-Sound :
    (op : ℕ → ℕ → ℕ) (res : ℕ) (args : List Node) (s : Lisp)
    → IsSound s
    → Leaves Sound IsSound (fold_args op res args s)
unfolding fold_args
fold_args-Sound op res [] s sound = sound
fold_args-Sound op res (a ∷ args) s sound =
    via_then Sound (num_of a) _ s λ n. fold_args-Sound op (op res n) args s sound

minus-Sound : (args : List Node) (s : Lisp) → IsSound s → Leaves ValueAnd IsSound (minus args s)
unfolding minus
minus-Sound [] s sound = tt
minus-Sound (a ∷ []) s sound = via_then ValueAnd (num_of a) _ s λ n. num-Sound (negate n) s sound
minus-Sound (a ∷ b ∷ args) s sound = via_then ValueAnd (num_of a) _ s λ n.
    then-Sound ValueAnd (fold_args subtract n (b ∷ args) s) _
      (fold_args-Sound subtract n (b ∷ args) s sound) λ res s1. num-Sound res s1

quotient-Sound :
    (d : ℕ) (a : Node) (s : Lisp) → IsSound s → Leaves ValueAnd IsSound (quotient d a s)
unfolding quotient
quotient-Sound d a s sound =
    if_holds {A = M Node} (λ m. Leaves ValueAnd IsSound (m s)) (d == 0)
      (λ _. err-Sound (codes "Divisao por zero") s sound)
      λ _.
        via_then ValueAnd (num_of a) _ s
          λ n. via_then ValueAnd (divide n d) _ s λ q. num-Sound q s sound

over-Sound : (args : List Node) (s : Lisp) → IsSound s → Leaves ValueAnd IsSound (over args s)
unfolding over
over-Sound [] s sound = err-Sound (codes "Divisao por zero") s sound
over-Sound (a ∷ []) s sound = err-Sound (codes "Divisao por zero") s sound
over-Sound (a ∷ b ∷ args) s sound = via_then ValueAnd (num_of b) _ s λ d. quotient-Sound d a s sound

show_value-Sound : (a : Node) (s : Lisp) → IsSound s → Leaves Sound IsSound (show_value a s)
unfolding show_value print_int
show_value-Sound (num n) s sound = put_text-Sound (int_text n) s sound
show_value-Sound (symbol m) s sound = put_text-Sound m s sound
show_value-Sound null s sound = put_text-Sound [] s sound
show_value-Sound _ s sound = put_text-Sound [] s sound

pub deref_then :
    {B : Type 0} (R : B → Lisp → Type 0) (n : Node) (k : Node → M B) (s : Lisp)
    → Leaves R IsSound (k n s)
    → Leaves R IsSound (after (deref n s) k)
unfolding deref
deref_then R null k s next = tt
deref_then R (err m) k s next = next
deref_then R _ k s next = next

print_args-Sound :
    (args : List Node) (s : Lisp) → IsSound s → Leaves Sound IsSound (print_args args s)
unfolding print_args
print_args-Sound [] s sound = sound
print_args-Sound (a ∷ args) s sound = deref_then Sound a _ s (
    then-Sound Sound (show_value a s) _ (show_value-Sound a s sound) λ _ s1 sound1.
      then-Sound Sound (put_text (codes " ") s1) _ (put_text-Sound (codes " ") s1 sound1)
        λ _ s2. print_args-Sound args s2)

pub builtin-Sound :
    (name : List ℕ) (args : List Node) (s : Lisp)
    → IsSound s
    → Leaves ValueAnd IsSound (builtin name args s)
unfolding builtin
builtin-Sound name args s sound =
    let P : M Node → Type 0 = λ m. Leaves ValueAnd IsSound (m s) in
    if_holds P (same_text name (codes "+"))
      (λ _.
        then-Sound ValueAnd (fold_args add 0 args s) _ (fold_args-Sound add 0 args s sound)
          λ res s1. num-Sound res s1)
      λ _.
        if_holds P (same_text name (codes "-")) (λ _. minus-Sound args s sound)
          λ _.
            if_holds P (same_text name (codes "*"))
              (λ _.
                then-Sound ValueAnd (fold_args multiply 1 args s) _
                  (fold_args-Sound multiply 1 args s sound) λ res s1. num-Sound res s1)
              λ _.
                if_holds P (same_text name (codes "/")) (λ _. over-Sound args s sound)
                  λ _.
                    if_holds P (same_text name (codes "print"))
                      (λ _.
                        then-Sound ValueAnd (print_args args s) _ (print_args-Sound args s sound)
                          λ _ s1 sound1.
                            then-Sound ValueAnd (put_text (codes "\n") s1) _
                              (put_text-Sound (codes "\n") s1 sound1) λ _ s2. nil-Sound s2)
                      λ _. err-Sound (codes "Nao e uma funcao valida") s sound
