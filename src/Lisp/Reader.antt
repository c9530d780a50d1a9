-- ===== src/Lisp/Reader.antt =====
-- The reader of src/tools/lisp.c.
pub mod Numbers
pub mod Printed
pub mod Atoms
pub mod RoundTrip
pub mod Ends
use lisp_dos.Base.{
  ℕ, zero, suc, ◌+◌, ◌-◌, ◌*◌, Bool, true, not, ◌&&◌, ◌||◌, List, [], ◌∷◌, ltb, ◌==◌, if◌then◌else◌,
  u32, length, nth, codes,
}
use lisp_dos.Lisp.Machine.{
  ◌>>=◌, ◌>>◌, Node, null, spent, M, pure, ◌>>◌, is_err, is_null, new_lval_num, new_lval_err,
  new_lval_sym, new_lval_list, new_lval_nil,
}
use lisp_dos.Lisp.Number.{negate}

abbrev pub is_blank : ℕ → Bool
is_blank c = c == b' ' || c == 10 || c == 9 || c == 13

unfoldable pub skip_blanks : List ℕ → List ℕ
skip_blanks [] = []
skip_blanks (c ∷ s) = if is_blank c then skip_blanks s else c ∷ s

-- The character after the blanks, 0 at the end of the text.
unfoldable pub peek : M ℕ
unfolding skip_blanks
peek s = let left = skip_blanks s.src in pure (nth left 0) (record s { src = left })

abbrev pub is_atom_char : ℕ → Bool
is_atom_char c = not (c == 0 || is_blank c || c == b'(' || c == b')')

-- The characters that `buf` gets from place `i` on, and the text that is left.
unfoldable pub atom_loop : (i : ℕ) → List ℕ → List ℕ × List ℕ
atom_loop i [] = ([], [])
atom_loop i (c ∷ s) =
    let (buf, left) = atom_loop (if ltb i 31 then i + 1 else i) s in
    if is_atom_char c then (if ltb i 31 then c ∷ buf else buf, left) else ([], c ∷ s)

abbrev pub is_digit : ℕ → Bool
is_digit c = not (ltb c b'0' || ltb b'9' c)

unfoldable pub all_digits : List ℕ → Bool
all_digits [] = true
all_digits (c ∷ s) = is_digit c && all_digits s

-- A sign at place 0 is passed over if more characters follow.
unfoldable pub is_num : List ℕ → Bool
unfolding all_digits
is_num [] = true
is_num (c ∷ s) = (c == b'-' && ltb 1 (suc (length s)) || is_digit c) && all_digits s

unfoldable pub read_digits : (n : ℕ) → List ℕ → ℕ
read_digits n [] = n
read_digits n (c ∷ s) = read_digits (u32 (u32 (n * 10) + (c - b'0'))) s

unfoldable pub number : List ℕ → ℕ
unfolding read_digits negate
number [] = 0
number (c ∷ s) = if c == b'-' then negate (read_digits 0 s) else read_digits 0 (c ∷ s)

unfoldable pub atom_node : List ℕ → M Node
unfolding is_num number new_lval_num new_lval_sym
atom_node [] = pure null
atom_node (c ∷ s) = if is_num (c ∷ s) then new_lval_num (number (c ∷ s)) else new_lval_sym (c ∷ s)

unfoldable pub read_atom : M Node
unfolding atom_loop atom_node
read_atom s = let (buf, left) = atom_loop 0 s.src in atom_node buf (record s { src = left })

abbrev pub drop_one : List ℕ → List ℕ
drop_one [] = []
drop_one (c ∷ s) = s

-- `lisp_src++`
unfoldable pub advance : M (Unit {0})
advance s = pure tt (record s { src = drop_one s.src })

-- `first ? first : new_lval_err("EOF")`
unfoldable pub or_eof : Node → M Node
unfolding new_lval_err
or_eof first = if is_null first then new_lval_err (codes "EOF") else pure first

-- Each call takes one of the fuel.
unfoldable mutual
  pub read_expr : ℕ → M Node
  read_expr zero = spent
  read_expr (suc fuel) = do
    c ← peek
    let inside = advance >> read_list fuel
    if c == 0
        then pure null
        else if c == b'('
        then inside
        else if c == b')'
        then new_lval_err (codes "Unexpected ')'")
        else read_atom

  pub read_list : ℕ → M Node
  read_list zero = spent
  read_list (suc fuel) = do
    c ← peek
    let element = do
      first ← read_expr fuel
      let more = do rest ← read_list fuel; new_lval_list first rest
      (if is_null first || is_err first then or_eof first else more)
    (if c == b')' then advance >> new_lval_nil else element)
