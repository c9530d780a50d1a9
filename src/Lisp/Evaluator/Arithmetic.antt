-- ===== src/Lisp/Evaluator/Arithmetic.antt =====
-- Arithmetic expressions and what they mean, apart from how the interpreter computes it, and the
-- built-in functions on numbers.
use lisp_dos.Base.{
  ℕ, ◌+◌, ◌-◌, ◌*◌, ◌/◌, ◌%◌, ◌^◌, ◌≤◌, ◌<◌, ◌≡◌, ◌≢◌, ◌⊎◌, refl, sym, ap, ◌∙◌, List, [], ◌∷◌,
  arith, codes,
}
use lisp_dos.Lisp.Machine.{
  Node, num, symbol, list, nil, Env, Lisp, Outcome, done, num_of, new_lval_num,
}
use lisp_dos.Lisp.Number.{add, subtract, multiply, negate}
use lisp_dos.Lisp.Environment.{same_text, kstrcmp}
use lisp_dos.Lisp.Evaluator.{fold_args, minus, builtin}
use lisp_dos.Lisp.Reader.Atoms.{before, alloc_node_lem}
use native.Mathlib.Nat.{add-mul-mod_self_right, mod-add-div'}

pub data Op : Type 0 where
  plus less times : Op

-- A call of `+`, `-` or `*` on any arguments.
mutual
  pub data Arith : Type 0 where
    lit : ℕ → Arith
    call : Op → Args → Arith

  pub data Args : Type 0 where
    end : Args
    arg : Arith → Args → Args

unfoldable pub op_name : Op → List ℕ
op_name plus = codes "+"
op_name less = codes "-"
op_name times = codes "*"

unfoldable mutual
  pub node : Arith → Node
  node (lit n) = num n
  node (call op args) = list (symbol (op_name op)) (nodes args)

  pub nodes : Args → Node
  nodes end = nil
  nodes (arg a args) = list (node a) (nodes args)

unfoldable pub total : List ℕ → ℕ
total [] = 0
total (v ∷ vs) = v + total vs

unfoldable pub product : List ℕ → ℕ
product [] = 1
product (v ∷ vs) = v * product vs

-- The exact sum, difference or product, reduced once to 32 bits.
unfoldable pub op_value : Op → List ℕ → ℕ
op_value plus vs = total vs % 2 ^ 32
op_value times vs = product vs % 2 ^ 32
op_value less [] = 0
op_value less (v ∷ []) = (2 ^ 32 - v) % 2 ^ 32
op_value less (v ∷ w ∷ vs) = (v + 2 ^ 32 - total (w ∷ vs) % 2 ^ 32) % 2 ^ 32

unfoldable mutual
  pub value : Arith → ℕ
  value (lit n) = n
  value (call op args) = op_value op (values args)

  pub values : Args → List ℕ
  values end = []
  values (arg a args) = value a ∷ values args

unfoldable pub nums : List ℕ → List Node
nums [] = []
nums (v ∷ vs) = num v ∷ nums vs

unfoldable pub AreWords : List ℕ → Type 0
AreWords [] = Unit
AreWords (v ∷ vs) = (v < 2 ^ 32) × AreWords vs

spread : (x y m b : ℕ) → (x + y * m) * b ≡ x * b + y * b * m
spread x y m b = grind arith

mod-mul_left : (a b : ℕ) → (a % 2 ^ 32 * b) % 2 ^ 32 ≡ (a * b) % 2 ^ 32
mod-mul_left a b =
    let m : ℕ = 2 ^ 32 in
    let split : a * b ≡ a % m * b + a / m * b * m =
      ap (λ (t : ℕ). t * b) (sym (mod-add-div' a m)) ∙ spread (a % m) (a / m) m b in
    sym (ap (λ (x : ℕ). x % m) split ∙ add-mul-mod_self_right (a % m * b) (a / m * b) m)

fold-plus :
    (r : ℕ) (vs : List ℕ) (s : Lisp)
    → fold_args add (r % 2 ^ 32) (nums vs) s ≡ done ((r + total vs) % 2 ^ 32) s
unfolding fold_args add nums total num_of
fold-plus r [] s = ap (λ (x : ℕ). done x s) (omega arith)
fold-plus r (v ∷ vs) s =
    rw (let e : (r % 2 ^ 32 + v) % 2 ^ 32 ≡ (r + v) % 2 ^ 32 = omega arith in e)
      (fold-plus (r + v) vs s ∙ ap (λ (x : ℕ). done (x % 2 ^ 32) s) (omega arith))

fold-times :
    (r : ℕ) (vs : List ℕ) (s : Lisp)
    → fold_args multiply (r % 2 ^ 32) (nums vs) s ≡ done ((r * product vs) % 2 ^ 32) s
unfolding fold_args multiply nums product num_of
fold-times r [] s = ap (λ (x : ℕ). done (x % 2 ^ 32) s) (omega arith)
fold-times r (v ∷ vs) s =
    rw (mod-mul_left r v)
      (fold-times (r * v) vs s ∙ ap (λ (x : ℕ). done (x % 2 ^ 32) s) (grind arith))

fold-less :
    (x : ℕ) (vs : List ℕ) (s : Lisp)
    → x < 2 ^ 32
    → AreWords vs
    → fold_args subtract x (nums vs) s ≡ done ((x + 2 ^ 32 - total vs % 2 ^ 32) % 2 ^ 32) s
unfolding fold_args subtract nums total num_of AreWords
fold-less x [] s small words = ap (λ (x : ℕ). done x s) (omega arith)
fold-less x (v ∷ vs) s small (word, words) =
    fold-less ((x + 2 ^ 32 - v) % 2 ^ 32) vs s (omega arith) words
    ∙ ap (λ (x : ℕ). done x s) (omega arith)

-- Where C defines the result of two operands of type `int`, given by their 32 bits: the exact one is
-- from -2 ^ 31 to 2 ^ 31 - 1. `biased` is the number and 2 ^ 31.
abbrev pub biased : ℕ → ℕ
biased n = (n + 2 ^ 31) % 2 ^ 32

abbrev pub AddFits : ℕ → ℕ → Type 0
AddFits a b = (2 ^ 31 ≤ biased a + biased b) × (biased a + biased b < 3 * 2 ^ 31)

abbrev pub SubtractFits : ℕ → ℕ → Type 0
SubtractFits a b = (biased b ≤ biased a + 2 ^ 31) × (biased a < biased b + 2 ^ 31)

-- The product of two numbers of the same sign, or of different signs.
abbrev pub MultiplyFits : ℕ → ℕ → Type 0
MultiplyFits a b =
    ((a < 2 ^ 31) × (b < 2 ^ 31) × (a * b < 2 ^ 31))
    ⊎ ((a < 2 ^ 31) × (2 ^ 31 ≤ b) × (a * (2 ^ 32 - b) ≤ 2 ^ 31))
    ⊎ ((2 ^ 31 ≤ a) × (b < 2 ^ 31) × ((2 ^ 32 - a) * b ≤ 2 ^ 31))
    ⊎ ((2 ^ 31 ≤ a) × (2 ^ 31 ≤ b) × ((2 ^ 32 - a) * (2 ^ 32 - b) < 2 ^ 31))

-- No partial result overflows, from `r` on.
abbrev pub SumFits : ℕ → List ℕ → Type 0
SumFits r [] = Unit {0}
SumFits r (v ∷ vs) = AddFits r v × SumFits ((r + v) % 2 ^ 32) vs

abbrev pub DifferenceFits : ℕ → List ℕ → Type 0
DifferenceFits r [] = Unit {0}
DifferenceFits r (v ∷ vs) = SubtractFits r v × DifferenceFits ((r + 2 ^ 32 - v) % 2 ^ 32) vs

abbrev pub ProductFits : ℕ → List ℕ → Type 0
ProductFits r [] = Unit {0}
ProductFits r (v ∷ vs) = MultiplyFits r v × ProductFits (r * v % 2 ^ 32) vs

-- `-` takes at least one argument, the negation of INT_MIN is not defined, and no partial result
-- overflows.
abbrev pub HasOperands : Op → List ℕ → Type 0
HasOperands plus vs = SumFits 0 vs
HasOperands times vs = ProductFits 1 vs
HasOperands less [] = ⊥
HasOperands less (v ∷ []) = v ≢ 2 ^ 31
HasOperands less (v ∷ w ∷ vs) = DifferenceFits v (w ∷ vs)

module _ (env : Env) (out src : List ℕ) where
  abbrev Gives : Outcome Node → ℕ → (pool : ℕ) → Type 0
  Gives o v pool = o ≡ done (num v) (before env out (pool + 56) src)

  made :
      (v w pool : ℕ)
      → pool + 56 ≤ 1024 * 1024
      → v ≡ w
      → Gives (new_lval_num v (before env out pool src)) w pool
  unfolding new_lval_num
  made v w pool room e =
      alloc_node_lem env out (num v) pool src room
      ∙ ap (λ (x : ℕ). done (num x) (before env out (pool + 56) src)) e

  minus-num :
      (v : ℕ) (vs : List ℕ) (pool : ℕ)
      → AreWords (v ∷ vs)
      → pool + 56 ≤ 1024 * 1024
      → Gives (minus (nums (v ∷ vs)) (before env out pool src)) (op_value less (v ∷ vs)) pool
  unfolding minus nums num_of negate op_value AreWords
  minus-num v [] pool words room = made (negate v) ((2 ^ 32 - v) % 2 ^ 32) pool room refl
  minus-num v (w ∷ vs) pool words room =
      rw (fold-less v (w ∷ vs) (before env out pool src) words.0 words.1) (
        made ((v + 2 ^ 32 - total (w ∷ vs) % 2 ^ 32) % 2 ^ 32)
          ((v + 2 ^ 32 - total (w ∷ vs) % 2 ^ 32) % 2 ^ 32) pool room refl)

  -- The built-in functions compute the value, in one new node.
  pub builtin-num :
      (op : Op) (vs : List ℕ) (pool : ℕ)
      → AreWords vs
      → HasOperands op vs
      → pool + 56 ≤ 1024 * 1024
      → Gives (builtin (op_name op) (nums vs) (before env out pool src)) (op_value op vs) pool
  unfolding builtin same_text kstrcmp op_name op_value
  builtin-num plus vs pool words operands room =
      rw (fold-plus 0 vs (before env out pool src))
        (made ((0 + total vs) % 2 ^ 32) (total vs % 2 ^ 32) pool room (omega arith))
  builtin-num times vs pool words operands room =
      rw (fold-times 1 vs (before env out pool src))
        (made ((1 * product vs) % 2 ^ 32) (product vs % 2 ^ 32) pool room (omega arith))
  builtin-num less [] pool words operands room = absurd operands
  builtin-num less (v ∷ vs) pool words operands room = minus-num v vs pool words room
