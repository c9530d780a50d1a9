-- ===== src/Lisp/Machine.antt =====
-- The nodes, the memory pool and the static variables of src/tools/lisp.c, and the monad of its
-- functions. A node is not changed after it is made, so a pointer is the tree that it leads to. The
-- pool is zeroed and never given back, so the fields that a node's type does not use read as 0.
use lisp_dos.Base.{
  ℕ, ◌+◌, ◌*◌, Bool, true, false, Option, none, some, List, [], ◌++◌, ltb, if◌then◌else◌, codes,
}

-- `null` is the null pointer. A number is its 32 bits, a symbol and a message their characters.
pub data Node : Type 0 where
  null : Node
  err : List ℕ → Node
  num : ℕ → Node
  symbol : List ℕ → Node
  list : Node → Node → Node
  nil : Node
  func : Node → Node → Node

-- `EnvVar`, in use from the first to the last: both environments.
abbrev pub Env : Type 0
Env = List (List ℕ × Node)

-- `memory_pool_index`, the text at `lisp_src`, `global_env` and the characters printed so far.
pub record Lisp : Type 0 where
  pub pool : ℕ
  pub src : List ℕ
  pub env : Env
  pub out : List ℕ

-- A call returns, ends the program by `sys_exit`, or makes an access that C leaves undefined; the
-- last is the end of the model's fuel.
pub data Outcome (A : Type 0) : Type 0 where
  done : A → Lisp → Outcome A
  exited : Lisp → Outcome A
  fault : Outcome A
  out_of_fuel : Outcome A

abbrev pub M : Type 0 → Type 0
M A = Lisp → Outcome A

abbrev pub pure : {A : Type 0} → A → M A
pure a s = done a s

abbrev pub after : {A B : Type 0} → Outcome A → (A → M B) → Outcome B
after (done a s) k = k a s
after (exited s) k = exited s
after fault k = fault
after out_of_fuel k = out_of_fuel

infixl 5 ◌>>=◌ ◌>>◌
abbrev pub ◌>>=◌ : {A B : Type 0} → M A → (A → M B) → M B
◌>>=◌ m k s = after (m s) k

abbrev pub ◌>>◌ : {B : Type 0} → M (Unit {0}) → M B → M B
m >> k = m >>= λ _. k

-- A pointer is read through.
abbrev pub via : {A : Type 0} → Option A → M A
via none s = fault
via (some a) s = done a s

unfoldable pub put_text : List ℕ → M (Unit {0})
put_text text s = done tt (record s { out = s.out ++ text })

abbrev pub spent : {A : Type 0} → M A
spent s = out_of_fuel

abbrev pub sys_exit : {A : Type 0} → M A
sys_exit s = exited s

abbrev pub pool_size : ℕ
pool_size = 1024 * 1024

abbrev pub node_size : ℕ
node_size = 56

-- `none` where the pool has no room
unfoldable pub lisp_malloc : ℕ → M Bool
lisp_malloc size s =
    if ltb pool_size (s.pool + size)
    then done false s
    else done true (record s { pool = s.pool + size })

no_room : M Node
unfolding put_text
no_room = do put_text (codes "Erro: AST estourou o Memory Pool do LISP (1 MB).\n"); sys_exit

-- `alloc_node`, with the fields that its callers fill in
unfoldable pub alloc_node : Node → M Node
unfolding lisp_malloc no_room
alloc_node n = lisp_malloc node_size >>= λ room. if room then pure n else no_room

unfoldable pub new_lval_num : ℕ → M Node
unfolding alloc_node
new_lval_num n = alloc_node (num n)

unfoldable pub new_lval_err : List ℕ → M Node
unfolding alloc_node
new_lval_err m = alloc_node (err m)

unfoldable pub new_lval_sym : List ℕ → M Node
unfolding alloc_node
new_lval_sym m = alloc_node (symbol m)

unfoldable pub new_lval_list : Node → Node → M Node
unfolding alloc_node
new_lval_list first rest = alloc_node (list first rest)

unfoldable pub new_lval_nil : M Node
unfolding alloc_node
new_lval_nil = alloc_node nil

unfoldable pub new_lval_func : Node → Node → M Node
unfolding alloc_node
new_lval_func params body = alloc_node (func params body)

-- `n->first` and so on, `none` through the null pointer
unfoldable pub first_of : Node → Option Node
first_of null = none
first_of (list a b) = some a
first_of (func a b) = some a
first_of _ = some null

unfoldable pub rest_of : Node → Option Node
rest_of null = none
rest_of (list a b) = some b
rest_of (func a b) = some b
rest_of _ = some null

unfoldable pub num_of : Node → Option ℕ
num_of null = none
num_of (num n) = some n
num_of _ = some 0

unfoldable pub sym_of : Node → Option (List ℕ)
sym_of null = none
sym_of (err m) = some m
sym_of (symbol m) = some m
sym_of _ = some []

abbrev pub is_err : Node → Bool
is_err (err m) = true
is_err _ = false

abbrev pub is_list : Node → Bool
is_list (list a b) = true
is_list _ = false

abbrev pub is_null : Node → Bool
is_null null = true
is_null _ = false
