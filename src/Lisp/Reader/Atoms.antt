-- ===== src/Lisp/Reader/Atoms.antt =====
-- How the reader steps over blanks and takes an atom off the text.
use lisp_dos.Base.{
  ℕ, suc, ◌+◌, ◌*◌, ◌≤◌, ◌<◌, ◌≡◌, refl, true, false, List, [], ◌∷◌, ◌++◌, arith, ltb, ◌==◌, length,
}
use lisp_dos.Lisp.Machine.{Node, Env, Lisp, done, lisp_malloc, alloc_node}
use lisp_dos.Lisp.Reader.{
  is_atom_char, atom_loop, skip_blanks, peek, atom_node, read_atom, read_expr,
}
use lisp_dos.Lisp.Reader.Numbers.{all_atom}

-- The text does not go on with a character of an atom.
unfoldable pub Delimited : List ℕ → Type 0
Delimited [] = Unit
Delimited (c ∷ s) = is_atom_char c ≡ false

pub atom_loop_lem :
    (i : ℕ) (m rest : List ℕ)
    → all_atom m ≡ true
    → i + length m ≤ 31
    → Delimited rest
    → atom_loop i (m ++ rest) ≡ (m, rest)
unfolding atom_loop all_atom Delimited
atom_loop_lem i [] [] all fits end = refl
atom_loop_lem i [] (c ∷ rest) all fits end = rw end
atom_loop_lem i (c ∷ m) rest all fits end =
    let room : ltb i 31 ≡ true = ground arith in
    let first : is_atom_char c ≡ true = ground arith in
    let later = atom_loop_lem (i + 1) m rest (ground arith) (omega arith) end in
    rw (room, first) (rw later)

pub skip_blanks-atom : (c : ℕ) (s : List ℕ) → is_atom_char c ≡ true → skip_blanks (c ∷ s) ≡ c ∷ s
unfolding skip_blanks
skip_blanks-atom c s atom = ground arith

module _ (env : Env) (out : List ℕ) where
  -- The interpreter with `pool` bytes of its pool in use, in front of a text.
  abbrev pub before : (pool : ℕ) → List ℕ → Lisp
  before pool src = record { pool = pool; src = src; env = env; out = out }

  pub alloc_node_lem :
      (n : Node) (pool : ℕ) (src : List ℕ)
      → pool + 56 ≤ 1024 * 1024
      → alloc_node n (before pool src) ≡ done n (before (pool + 56) src)
  unfolding alloc_node lisp_malloc
  alloc_node_lem n pool src room =
      let fits : ltb (1024 * 1024) (pool + 56) ≡ false = ground arith in rw fits

  pub read_expr-atom :
      (fuel : ℕ) (m rest : List ℕ) (pool : ℕ)
      → all_atom m ≡ true
      → length m ≤ 31
      → 0 < length m
      → Delimited rest
      → read_expr (suc fuel) (before pool (m ++ rest)) ≡ atom_node m (before pool rest)
  unfolding read_expr peek read_atom
  read_expr-atom fuel [] rest pool all fits some_ end = absurd (omega arith)
  read_expr-atom fuel (c ∷ m) rest pool all fits some_ end =
      let first : is_atom_char c ≡ true = unfold all_atom in ground arith in
      let nz : (c == 0) ≡ false = ground arith in
      let not_open : (c == b'(') ≡ false = ground arith in
      let not_close : (c == b')') ≡ false = ground arith in
      rw (skip_blanks-atom c (m ++ rest) first, nz, not_open, not_close)
        (rw (atom_loop_lem 0 (c ∷ m) rest all (omega arith) end))
