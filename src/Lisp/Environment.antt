-- ===== src/Lisp/Environment.antt =====
-- The environments of src/tools/lisp.c: `kstrcmp`, `env_set` and `env_get`.
pub mod Laws
use lisp_dos.Base.{
  ℕ, ◌+◌, ◌-◌, ◌*◌, ◌/◌, ◌^◌, Bool, ◌||◌, Option, none, some, List, [], ◌∷◌, ◌++◌, ltb, ◌==◌,
  if◌then◌else◌, u32, length, codes,
}
use lisp_dos.Lisp.Machine.{Node, Env, M, pure, new_lval_sym, new_lval_err}

-- On texts without the 0 that ends them; the difference of two characters is an `int`.
unfoldable pub kstrcmp : List ℕ → List ℕ → ℕ
kstrcmp [] [] = 0
kstrcmp [] (d ∷ t) = u32 (2 ^ 32 - d)
kstrcmp (c ∷ s) [] = c
kstrcmp (c ∷ s) (d ∷ t) = if c == d then kstrcmp s t else u32 (c + 2 ^ 32 - d)

unfoldable pub same_text : List ℕ → List ℕ → Bool
unfolding kstrcmp
same_text s t = kstrcmp s t == 0

abbrev pub env_limit : ℕ
env_limit = 128

-- The first entry of that name gets the value; `none` if there is none.
unfoldable pub env_update : List ℕ → Node → Env → Option Env
env_update name v [] = none
env_update name v ((k, w) ∷ env) =
    if same_text k name
    then some ((k, v) ∷ env)
    else elim (env_update name v env) [ none ↦ none | some later ↦ some ((k, w) ∷ later) ]

unfoldable pub stored : List ℕ → Node → Env → Env
unfolding env_update
stored name v env = elim (env_update name v env) [
  | some changed ↦ changed
  | none ↦ if ltb (length env) env_limit then env ++ ((name, v) ∷ []) else env
]

unfoldable pub env_set : List ℕ → Node → M (Unit {0})
unfolding stored
env_set name v s = pure tt (record s { env = stored name v s.env })

unfoldable pub env_find : List ℕ → Env → Option Node
env_find name [] = none
env_find name ((k, v) ∷ env) = if same_text k name then some v else env_find name env

unfoldable pub is_builtin : List ℕ → Bool
is_builtin name =
    same_text name (codes "+")
    || same_text name (codes "-")
    || same_text name (codes "*")
    || same_text name (codes "/")
    || same_text name (codes "print")

unfoldable pub env_get : List ℕ → Env → M Node
unfolding env_find is_builtin new_lval_sym new_lval_err
env_get name local s = elim (env_find name local) [
  | some v ↦ pure v s
  | none ↦ elim (env_find name s.env) [
    | some v ↦ pure v s
    | none ↦
        if is_builtin name
        then new_lval_sym name s
        else new_lval_err (codes "Variavel/Funcao nao definida") s
  ]
]
