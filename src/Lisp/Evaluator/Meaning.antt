-- ===== src/Lisp/Evaluator/Meaning.antt =====
-- The evaluator computes what arithmetic expressions mean.
use lisp_dos.Base.{
  ℕ, zero, suc, ◌+◌, ◌*◌, ◌^◌, ◌≤◌, ◌<◌, ◌≡◌, refl, ap, ◌∙◌, true, false, none, List, [], ◌∷◌,
  arith, ltb, codes,
}
use lisp_dos.Lisp.Machine.{num, symbol, Env, done, new_lval_sym}
use lisp_dos.Lisp.Environment.{same_text, kstrcmp, env_find, env_get, is_builtin}
use lisp_dos.Lisp.Evaluator.{eval_args, eval, is_named, deref, place}
use lisp_dos.Lisp.Evaluator.Arithmetic.{
  Op, plus, less, times, Arith, lit, call, Args, end, arg, op_name, node, nodes, op_value, value,
  values, nums, AreWords, HasOperands, builtin-num,
}
use lisp_dos.Lisp.Reader.Atoms.{before, alloc_node_lem}

unfoldable pub count : Args → ℕ
count end = 0
count (arg a args) = 1 + count args

-- At most 16 arguments to a call, at least one to `-`, literals of 32 bits, and no result that
-- overflows on the way.
unfoldable mutual
  pub IsArith : Arith → Type 0
  IsArith (lit n) = n < 2 ^ 32
  IsArith (call op args) = IsArgs args × (count args ≤ 16) × HasOperands op (values args)

  pub IsArgs : Args → Type 0
  IsArgs end = Unit
  IsArgs (arg a args) = IsArith a × IsArgs args

-- The bytes of the pool and the fuel that the evaluation takes: two nodes for each call.
unfoldable mutual
  pub cost : Arith → ℕ
  cost (lit n) = 0
  cost (call op args) = cost_args args + 112

  pub cost_args : Args → ℕ
  cost_args end = 0
  cost_args (arg a args) = cost a + cost_args args

unfoldable mutual
  pub depth : Arith → ℕ
  depth (lit n) = 1
  depth (call op args) = 2 + depth_args args

  pub depth_args : Args → ℕ
  depth_args end = 1
  depth_args (arg a args) = 1 + depth a + depth_args args

-- The name of a built-in function stands for the function.
unfoldable pub NotBound : Env → Type 0
NotBound env = (op : Op) → env_find (op_name op) env ≡ none

op-not_named :
    (op : Op)
    → (is_named (symbol (op_name op)) (codes "defun") ≡ false)
      × (is_named (symbol (op_name op)) (codes "setq") ≡ false)
      × (is_builtin (op_name op) ≡ true)
unfolding is_named same_text kstrcmp op_name is_builtin
op-not_named plus = (refl, refl, refl)
op-not_named less = (refl, refl, refl)
op-not_named times = (refl, refl, refl)

op_value-small : (op : Op) (vs : List ℕ) → op_value op vs < 2 ^ 32
unfolding op_value
op_value-small plus vs = omega arith
op_value-small times vs = omega arith
op_value-small less [] = omega arith
op_value-small less (v ∷ []) = omega arith
op_value-small less (v ∷ w ∷ vs) = omega arith

mutual
  unfolding IsArith value AreWords

  pub value-small : (e : Arith) → IsArith e → value e < 2 ^ 32
  value-small (lit n) is = is
  value-small (call op args) is = op_value-small op (values args)

  values-AreWords : (args : Args) → IsArgs args → AreWords (values args)
  values-AreWords end is = tt
  values-AreWords (arg a args) (first, is) = (value-small a first, values-AreWords args is)

module _ (local env : Env) (free : NotBound local) (global : NotBound env) (out src : List ℕ) where
  env_get-op :
      (op : Op) (pool : ℕ)
      → pool + 56 ≤ 1024 * 1024
      → env_get (op_name op) local (before env out pool src)
        ≡ done (symbol (op_name op)) (before env out (pool + 56) src)
  unfolding env_get new_lval_sym NotBound
  env_get-op op pool room =
      rw (free op, global op, (op-not_named op).2, env_get)
        (alloc_node_lem env out (symbol (op_name op)) pool src room)

  mutual
    unfolding eval node IsArith value cost depth count deref nums place

    eval_lem :
        (e : Arith) (fuel pool : ℕ)
        → IsArith e
        → depth e ≤ fuel
        → pool + cost e ≤ 1024 * 1024
        → eval fuel (node e) local (before env out pool src)
          ≡ done (num (value e)) (before env out (pool + cost e) src)
    eval_lem (lit n) zero pool is enough room = absurd (omega arith)
    eval_lem (lit n) (suc fuel) pool is enough room =
        ap (λ (p : ℕ). done (num n) (before env out p src)) (omega arith)
    eval_lem (call op args) zero pool is enough room = absurd (omega arith)
    eval_lem (call op args) (suc zero) pool is enough room = absurd (omega arith)
    eval_lem (call op args) (suc (suc fuel)) pool (are, few, operands) enough room =
        let (no_defun, no_setq, is_op) = op-not_named op in
        rw (no_defun, no_setq)
          (rw (env_get-op op pool (omega arith)) (
            rw
              (eval_args_lem args (suc fuel) (pool + 56) 0 are (omega arith) (omega arith)
                (omega arith))
              (builtin-num env out src op (values args) (pool + 56 + cost_args args)
                  (values-AreWords args are) operands (omega arith)
                ∙ ap (λ (p : ℕ). done (num (op_value op (values args))) (before env out p src))
                    (omega arith))))

    eval_args_lem :
        (args : Args) (fuel pool ac : ℕ)
        → IsArgs args
        → depth_args args ≤ fuel
        → pool + cost_args args ≤ 1024 * 1024
        → ac + count args ≤ 16
        → eval_args fuel (nodes args) local ac (before env out pool src)
          ≡ done (nums (values args)) (before env out (pool + cost_args args) src)
    eval_args_lem end zero pool ac is enough room few = absurd (omega arith)
    eval_args_lem end (suc fuel) pool ac is enough room few =
        ap (λ (p : ℕ). done [] (before env out p src)) (omega arith)
    eval_args_lem (arg a args) zero pool ac is enough room few = absurd (omega arith)
    eval_args_lem (arg a args) (suc fuel) pool ac (first, is) enough room few =
        let free_place : ltb ac 16 ≡ true = ground arith in
        rw (eval_lem a fuel pool first (omega arith) (omega arith)) (
          rw free_place (
            rw
              (eval_args_lem args fuel (pool + cost a) (ac + 1) is (omega arith) (omega arith)
                (omega arith))
              (ap (λ (p : ℕ). done (num (value a) ∷ nums (values args)) (before env out p src))
                (omega arith))))

-- An expression of literals of 32 bits and of calls of `+`, `-` and `*`, none of which is bound, on at
-- most 16 arguments each and at least one for `-`, where no partial result overflows an `int` (C does
-- not define one), evaluates to its value: the sums, differences and products, as 32 bits. The fuel
-- must reach the depth of the expression and the pool must have room for two nodes of 56 bytes for each
-- call; it takes just these, and changes nothing else.
pub eval-value :
    (e : Arith) (fuel pool : ℕ) (local env : Env) (out src : List ℕ)
    → NotBound local
    → NotBound env
    → IsArith e
    → depth e ≤ fuel
    → pool + cost e ≤ 1024 * 1024
    → eval fuel (node e) local (before env out pool src)
      ≡ done (num (value e)) (before env out (pool + cost e) src)
eval-value e fuel pool local env out src free global =
    eval_lem local env free global out src e fuel pool
