-- ===== src/Lisp/Evaluator/Sound.antt =====
-- The types of the values, and the invariant of the pool and the environment.
use lisp_dos.Base.{
  ℕ, suc, ◌+◌, ◌*◌, ◌≤◌, ◌≡◌, refl, sym, ap, inl, inr, Option, none, some, List, [], ◌∷◌, ◌++◌,
  arith, ltb, ltb→lt, Bool-cases, Option-cases, length, length-append, if_holds, subst, codes,
}
use lisp_dos.Lisp.Machine.{
  Node, null, err, symbol, list, Env, Lisp, alloc_node, lisp_malloc, put_text, new_lval_sym,
  new_lval_err,
}
use lisp_dos.Lisp.Rules.{Leaves}
use lisp_dos.Lisp.Environment.{
  same_text, is_builtin, stored, env_update, env_set, env_get, env_find,
}
use lisp_dos.Lisp.Environment.Laws.{stored-some, stored-none}

-- What an expression can evaluate to: a number, a symbol, nil, a function or an error.
abbrev pub IsValue : Node → Type 0
IsValue null = ⊥
IsValue (list a b) = ⊥
IsValue _ = Unit

abbrev pub AreValues : Env → Type 0
AreValues [] = Unit
AreValues ((k, v) ∷ env) = IsValue v × AreValues env

pub record IsSound (s : Lisp) : Type 0 where
  pub in_pool : s.pool ≤ 1024 * 1024
  pub in_table : length s.env ≤ 128
  pub values : AreValues s.env

abbrev pub ValueAnd : Node → Lisp → Type 0
ValueAnd v s = IsValue v × IsSound s

abbrev pub Sound : {A : Type 0} → A → Lisp → Type 0
Sound a s = IsSound s

pub alloc_node-Sound :
    (n : Node) (s : Lisp) → IsValue n → IsSound s → Leaves ValueAnd IsSound (alloc_node n s)
unfolding alloc_node lisp_malloc put_text
alloc_node-Sound n s value sound = elim (Bool-cases (ltb (1024 * 1024) (s.pool + 56))) [
  | inl full ↦
      rw full (record { in_pool = sound.in_pool; in_table = sound.in_table; values = sound.values })
  | inr room ↦
      rw room
        (value, record { in_pool = ground arith; in_table = sound.in_table; values = sound.values })
]

abbrev Kept : ℕ → Option Env → Type 0
Kept n none = Unit
Kept n (some env) = AreValues env × (length env ≡ n)

Kept-cons :
    (k : List ℕ) (w : Node) (n : ℕ) (o : Option Env)
    → IsValue w
    → Kept n o
    → Kept (suc n) (elim o [ none ↦ none | some later ↦ some ((k, w) ∷ later) ])
Kept-cons k w n none value h = tt
Kept-cons k w n (some env) value (all, size) = ((value, all), ap suc size)

env_update-Kept :
    (k : List ℕ) (v : Node) (env : Env)
    → IsValue v
    → AreValues env
    → Kept (length env) (env_update k v env)
unfolding env_update
env_update-Kept k v [] value all = tt
env_update-Kept k v ((i, w) ∷ env) value (first, all) =
    if_holds (Kept (suc (length env))) (same_text i k) (λ same. ((value, all), refl))
      λ other.
        Kept-cons i w (length env) (env_update k v env) first (env_update-Kept k v env value all)

append-AreValues :
    (k : List ℕ) (v : Node) (env : Env)
    → IsValue v
    → AreValues env
    → AreValues (env ++ ((k, v) ∷ []))
append-AreValues k v [] value all = (value, tt)
append-AreValues k v ((i, w) ∷ env) value (first, all) = (first, append-AreValues k v env value all)

abbrev IsValue? : Option Node → Type 0
IsValue? none = Unit
IsValue? (some v) = IsValue v

env_find-IsValue : (k : List ℕ) (env : Env) → AreValues env → IsValue? (env_find k env)
unfolding env_find
env_find-IsValue k [] all = tt
env_find-IsValue k ((i, w) ∷ env) (first, all) =
    if_holds IsValue? (same_text i k) (λ same. first) λ other. env_find-IsValue k env all

stored_by-Sound :
    (k : List ℕ) (v : Node) (env : Env) (o : Option Env)
    → IsValue v
    → AreValues env
    → length env ≤ 128
    → Kept (length env) o
    → env_update k v env ≡ o
    → AreValues (stored k v env) × (length (stored k v env) ≤ 128)
stored_by-Sound k v env none value all small kept e =
    subst (λ (after : Env). AreValues after × (length after ≤ 128)) (sym (stored-none k v env e))
      (if_holds (λ (after : Env). AreValues after × (length after ≤ 128)) (ltb (length env) 128)
        (λ room. (
          append-AreValues k v env value all,
          omega (arith, length-append {0} env ((k, v) ∷ []), ltb→lt (length env) 128 room),
        ))
        λ full. (all, small))
stored_by-Sound k v env (some changed) value all small kept e =
    subst (λ (after : Env). AreValues after × (length after ≤ 128))
      (sym (stored-some k v env changed e)) (kept.0, omega (arith, kept.1))

pub env_set-Sound :
    (k : List ℕ) (v : Node) (s : Lisp)
    → IsValue v
    → IsSound s
    → Leaves Sound IsSound (env_set k v s)
unfolding env_set
env_set-Sound k v s value sound =
    let (all, small) =
      stored_by-Sound k v s.env (env_update k v s.env) value sound.values sound.in_table
        (env_update-Kept k v s.env value sound.values) refl in
    record { in_pool = sound.in_pool; in_table = small; values = all }

pub env_get-Sound :
    (k : List ℕ) (local : Env) (s : Lisp)
    → AreValues local
    → IsSound s
    → Leaves ValueAnd IsSound (env_get k local s)
unfolding env_get
env_get-Sound k local s all sound = elim (Option-cases (env_find k local)) [
  | inr (v, found) ↦
      rw (found, env_get) (subst IsValue? found (env_find-IsValue k local all), sound)
  | inl absent ↦ elim (Option-cases (env_find k s.env)) [
    | inr (v, found) ↦
        rw (absent, found, env_get)
          (subst IsValue? found (env_find-IsValue k s.env sound.values), sound)
    | inl undefined ↦
        rw (absent, undefined, env_get)
          (if_holds (Leaves ValueAnd IsSound) (is_builtin k)
            (λ _. unfold new_lval_sym in alloc_node-Sound (symbol k) s tt sound)
            λ _.
              unfold new_lval_err in
              alloc_node-Sound (err (codes "Variavel/Funcao nao definida")) s tt sound)
  ]
]
