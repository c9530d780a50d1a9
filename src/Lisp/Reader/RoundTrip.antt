-- ===== src/Lisp/Reader/RoundTrip.antt =====
-- Expressions written out, and read back.
use lisp_dos.Base.{
  ℕ, zero, suc, ◌+◌, ◌*◌, ◌^◌, ◌≤◌, ◌<◌, ◌≡◌, refl, ap, ◌∙◌, ◌≢◌, true, false, ◌||◌, List, [], ◌∷◌,
  ◌++◌, arith, ◌==◌, length, append_assoc, nth,
}
use lisp_dos.Lisp.Machine.{
  null, new_lval_nil, func, err, new_lval_list, is_err, is_null, Node, num, symbol, list, nil, Env,
  Lisp, Outcome, done, new_lval_num, new_lval_sym,
}
use lisp_dos.Lisp.Number.{int_text}
use lisp_dos.Lisp.Reader.{
  advance, peek, skip_blanks, read_list, is_atom_char, is_num, atom_node, read_expr,
}
use lisp_dos.Lisp.Reader.Numbers.{all_atom, ReadsAs, int_text-ReadsAs}
use lisp_dos.Lisp.Reader.Atoms.{Delimited, before, alloc_node_lem, read_expr-atom}

-- An expression as a program's text has it: an element of a list stands after a blank, but the
-- first.
unfoldable mutual
  pub show : Node → List ℕ
  show (num n) = int_text n
  show (symbol m) = m
  show (list a b) = b'(' ∷ (show a ++ show_tail b)
  show nil = b'(' ∷ b')' ∷ []
  show _ = []

  pub show_tail : Node → List ℕ
  show_tail (list a b) = b' ' ∷ (show a ++ show_tail b)
  show_tail _ = b')' ∷ []

-- The nodes that the reader makes for it.
unfoldable pub size : Node → ℕ
size (list a b) = size a + size b + 1
size _ = 1

abbrev pub IsName : List ℕ → Type 0
IsName m = (is_num m ≡ false) × (all_atom m ≡ true) × (length m ≤ 31) × (0 < length m)

-- Numbers of 32 bits but INT_MIN, symbols of at most 31 characters, and lists that end in `nil`.
unfoldable mutual
  pub IsReadable : Node → Type 0
  IsReadable (num n) = (n < 2 ^ 32) × (n ≢ 2 ^ 31)
  IsReadable (symbol m) = IsName m
  IsReadable (list a b) = IsReadable a × IsReadableTail b
  IsReadable nil = Unit
  IsReadable _ = ⊥

  pub IsReadableTail : Node → Type 0
  IsReadableTail (list a b) = IsReadable a × IsReadableTail b
  IsReadableTail nil = Unit
  IsReadableTail _ = ⊥

head_of :
    (m : List ℕ)
    → all_atom m ≡ true
    → 0 < length m
    → (c : ℕ) × (s : List ℕ) × (m ≡ c ∷ s) × (is_atom_char c ≡ true)
unfolding all_atom
head_of [] all some_ = absurd (omega arith)
head_of (c ∷ s) all some_ = (c, s, refl, ground arith)

pub skip_blanks-solid :
    (c : ℕ) (s : List ℕ) → ((c == b'(') || is_atom_char c ≡ true) → skip_blanks (c ∷ s) ≡ c ∷ s
unfolding skip_blanks
skip_blanks-solid c s first = ground arith

module _ (env : Env) (out : List ℕ) where
  abbrev Reads : (ℕ → Lisp → Outcome Node) → List ℕ → Node → Type 0
  Reads reader text e =
      (fuel pool : ℕ) (rest : List ℕ)
      → 2 * size e ≤ fuel
      → pool + 56 * size e ≤ 1024 * 1024
      → Delimited rest
      → reader fuel (before env out pool (text ++ rest))
        ≡ done e (before env out (pool + 56 * size e) rest)

  atom_node-num :
      (n pool : ℕ) (s rest : List ℕ)
      → ReadsAs n s
      → pool + 56 ≤ 1024 * 1024
      → atom_node s (before env out pool rest) ≡ done (num n) (before env out (pool + 56) rest)
  unfolding atom_node new_lval_num
  atom_node-num n pool [] rest reads room = absurd (omega arith)
  atom_node-num n pool (c ∷ s) rest (is, value, all, fits, some_) room =
      rw (is, value) (alloc_node_lem env out (num n) pool rest room)

  atom_node-symbol :
      (m : List ℕ) (pool : ℕ) (rest : List ℕ)
      → IsName m
      → pool + 56 ≤ 1024 * 1024
      → atom_node m (before env out pool rest) ≡ done (symbol m) (before env out (pool + 56) rest)
  unfolding atom_node new_lval_sym
  atom_node-symbol [] pool rest is room = absurd (omega arith)
  atom_node-symbol (c ∷ m) pool rest (is, all, fits, some_) room =
      rw is (alloc_node_lem env out (symbol (c ∷ m)) pool rest room)

  read_num : (n : ℕ) → IsReadable (num n) → Reads read_expr (show (num n)) (num n)
  unfolding IsReadable show size
  read_num n is zero pool rest enough room end = absurd (omega arith)
  read_num n (small, not_min) (suc fuel) pool rest enough room end =
      let reads : ReadsAs n (int_text n) = int_text-ReadsAs n small not_min in
      read_expr-atom env out fuel (int_text n) rest pool reads.2 reads.3 reads.4 end
      ∙ atom_node-num n pool (int_text n) rest reads room

  read_symbol : (m : List ℕ) → IsName m → Reads read_expr (show (symbol m)) (symbol m)
  unfolding show size
  read_symbol m is zero pool rest enough room end = absurd (omega arith)
  read_symbol m is (suc fuel) pool rest enough room end =
      read_expr-atom env out fuel m rest pool is.1 is.2 is.3 end
      ∙ atom_node-symbol m pool rest is room

  pub show-head :
      (a : Node)
      → IsReadable a
      → (c : ℕ) × (s : List ℕ) × (show a ≡ c ∷ s)
        × ((c == b'(') || is_atom_char c ≡ true)
        × (is_null a || is_err a ≡ false)
  unfolding IsReadable show all_atom
  show-head null is = absurd is
  show-head (err m) is = absurd is
  show-head (num n) (small, not_min) =
      let (c, s, e, atom) =
        head_of (int_text n) (int_text-ReadsAs n small not_min).2
          (int_text-ReadsAs n small not_min).4 in
      (c, s, e, ground arith, refl)
  show-head (symbol m) (is, all, fits, some_) =
      let (c, s, e, atom) = head_of m all some_ in (c, s, e, ground arith, refl)
  show-head (list a b) is = (b'(', show a ++ show_tail b, refl, refl, refl)
  show-head nil is = (b'(', b')' ∷ [], refl, refl, refl)
  show-head (func a b) is = absurd is

  Delimited-show_tail : (b : Node) (rest : List ℕ) → Delimited (show_tail b ++ rest)
  unfolding show_tail Delimited
  Delimited-show_tail (list a b) rest = refl
  Delimited-show_tail nil rest = refl
  Delimited-show_tail _ rest = refl

  -- The elements of a list after its first bracket.
  read_items :
      (a b : Node)
      → IsReadable a
      → Reads read_expr (show a) a
      → Reads read_list (show_tail b) b
      → (fuel pool : ℕ) (rest : List ℕ) → 2 * size (list a b) ≤ suc fuel
      → pool + 56 * size (list a b) ≤ 1024 * 1024
      → Delimited rest
      → read_list fuel (before env out pool (show a ++ (show_tail b ++ rest)))
        ≡ done (list a b) (before env out (pool + 56 * size (list a b)) rest)
  unfolding read_list peek size new_lval_list
  read_items a b is reads_a reads_b zero pool rest enough room end = absurd (omega arith)
  read_items a b is reads_a reads_b (suc fuel) pool rest enough room end =
      let (c, s, text, first, node) = show-head a is in
      let here : skip_blanks (show a ++ (show_tail b ++ rest)) ≡ show a ++ (show_tail b ++ rest) =
        rw text (skip_blanks-solid c (s ++ (show_tail b ++ rest)) first) in
      let char : nth (show a ++ (show_tail b ++ rest)) 0 ≡ c = rw text in
      let not_close : (c == b')') ≡ false = ground arith in
      let one =
        reads_a fuel pool (show_tail b ++ rest) (omega arith) (omega arith)
          (Delimited-show_tail b rest) in
      let two = reads_b fuel (pool + 56 * size a) rest (omega arith) (omega arith) end in
      let three =
        alloc_node_lem env out (list a b) (pool + 56 * size a + 56 * size b) rest (omega arith) in
      rw (here, char, not_close)
        (rw one (
          rw node (
            rw two
              (three ∙ ap (λ (p : ℕ). done (list a b) (before env out p rest)) (omega arith)))))

  read_nil :
      (fuel pool : ℕ) (rest : List ℕ)
      → 1 ≤ fuel
      → pool + 56 ≤ 1024 * 1024
      → read_list fuel (before env out pool (b')' ∷ rest))
        ≡ done nil (before env out (pool + 56) rest)
  unfolding read_list peek skip_blanks advance new_lval_nil
  read_nil zero pool rest enough room = absurd (omega arith)
  read_nil (suc fuel) pool rest enough room = alloc_node_lem env out nil pool rest room

  read_list-blank :
      (fuel pool : ℕ) (text : List ℕ)
      → read_list fuel (before env out pool (b' ' ∷ text))
        ≡ read_list fuel (before env out pool text)
  unfolding read_list peek skip_blanks
  read_list-blank zero pool text = refl
  read_list-blank (suc fuel) pool text = refl

  mutual
    unfolding IsReadable show size read_expr peek skip_blanks advance

    read_show : (e : Node) → IsReadable e → Reads read_expr (show e) e
    read_show null is = absurd is
    read_show (err m) is = absurd is
    read_show (num n) is = read_num n is
    read_show (symbol m) is = read_symbol m is
    read_show (list a b) (is_a, is_b) = λ fuel pool rest enough room end.
        elim fuel
            as (λ f.
              2 * size (list a b) ≤ f
              → read_expr f (before env out pool (show (list a b) ++ rest))
                ≡ done (list a b) (before env out (pool + 56 * size (list a b)) rest)) [
                  | zero ↦ λ h. absurd (omega arith)
                  | suc f ↦ λ h. rw (append_assoc (show a) (show_tail b) rest) (
                      read_items a b is_a (read_show a is_a) (read_show_tail b is_b) f pool rest h
                        room end)
                ]
          enough
    read_show nil is = λ fuel pool rest enough room end.
        elim fuel
            as (λ f.
              2 * size nil ≤ f
              → read_expr f (before env out pool (show nil ++ rest))
                ≡ done nil (before env out (pool + 56 * size nil) rest)) [
                  | zero ↦ λ h. absurd (omega arith)
                  | suc f ↦ λ h. read_nil f pool rest (omega arith) room
                ]
          enough
    read_show (func a b) is = absurd is

    read_show_tail : (e : Node) → IsReadableTail e → Reads read_list (show_tail e) e
    read_show_tail (list a b) (is_a, is_b) = λ fuel pool rest enough room end.
        read_list-blank fuel pool ((show a ++ show_tail b) ++ rest)
        ∙ rw (append_assoc (show a) (show_tail b) rest) (
            read_items a b is_a (read_show a is_a) (read_show_tail b is_b) fuel pool rest
              (omega arith) room end)
    read_show_tail nil is =
        λ fuel pool rest enough room end. read_nil fuel pool rest (omega arith) room
    read_show_tail null is = absurd is
    read_show_tail (err m) is = absurd is
    read_show_tail (num n) is = absurd is
    read_show_tail (symbol m) is = absurd is
    read_show_tail (func a b) is = absurd is

  -- For an expression that is readable (a number of 32 bits but INT_MIN; a symbol of 1 to 31
  -- characters of an atom that do not read as a number; a list of such expressions that ends in nil):
  -- in front of what is printed of it and of text that does not go on with a character of an atom,
  -- `read_expr` returns that expression and leaves the text after it, given two of the fuel and 56
  -- bytes of the pool for each node; of the pool it takes just that.
  pub read_expr-show :
      (e : Node) (fuel pool : ℕ) (rest : List ℕ)
      → IsReadable e
      → 2 * size e ≤ fuel
      → pool + 56 * size e ≤ 1024 * 1024
      → Delimited rest
      → read_expr fuel (before env out pool (show e ++ rest))
        ≡ done e (before env out (pool + 56 * size e) rest)
  read_expr-show e fuel pool rest is = read_show e is fuel pool rest
