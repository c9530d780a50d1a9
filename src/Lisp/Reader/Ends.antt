-- ===== src/Lisp/Reader/Ends.antt =====
-- The reader comes to its end on every text.
use lisp_dos.Base.{
  ℕ, zero, suc, ◌+◌, ◌*◌, ◌≤◌, ◌<◌, ◌≡◌, refl, ap, inl, inr, true, false, ◌||◌, List, [], ◌∷◌,
  arith, ltb, ◌==◌, if◌then◌else◌, Bool-cases, length, if_holds, nth, codes,
}
use lisp_dos.Lisp.Machine.{
  symbol, list, nil, err, num, M, Node, is_null, is_err, Lisp, alloc_node, lisp_malloc,
  new_lval_num, new_lval_sym, new_lval_err, new_lval_nil, new_lval_list,
}
use lisp_dos.Lisp.Rules.{Returns-mono, Returns, Returns-after}
use lisp_dos.Lisp.Reader.{
  number, is_num, is_blank, skip_blanks, atom_loop, is_atom_char, atom_node, read_atom, read_expr,
  read_list, peek, advance, drop_one, or_eof,
}

-- At most `n` characters are left to read.
abbrev pub Left : ℕ → Node → Lisp → Type 0
Left n e s = length s.src ≤ n

abbrev Progress : ℕ → Node → Lisp → Type 0
Progress n e s = (length s.src ≤ n) × ((is_null e || is_err e ≡ false) → length s.src < n)

abbrev Made : Node → Lisp → Node → Lisp → Type 0
Made n s e s' = (e ≡ n) × (s'.src ≡ s.src)

alloc_node-Made : (n : Node) (s : Lisp) → Returns (Made n s) (alloc_node n s)
unfolding alloc_node lisp_malloc
alloc_node-Made n s = elim (Bool-cases (ltb (1024 * 1024) (s.pool + 56))) [
  | inl full ↦ rw full (ground arith)
  | inr room ↦ rw room (refl, refl)
]

skip_blanks-le : (t : List ℕ) → length (skip_blanks t) ≤ length t
unfolding skip_blanks
skip_blanks-le [] = omega arith
skip_blanks-le (c ∷ t) = ground (arith, skip_blanks-le t)

atom_loop-le : (i : ℕ) (t : List ℕ) → length (atom_loop i t).1 ≤ length t
unfolding atom_loop
atom_loop-le i [] = omega arith
atom_loop-le i (c ∷ t) = ground (arith, atom_loop-le (if ltb i 31 then i + 1 else i) t)

-- An atom takes its first character.
atom_loop-lt :
    (i c : ℕ) (t : List ℕ) → is_atom_char c ≡ true → length (atom_loop i (c ∷ t)).1 < length (c ∷ t)
unfolding atom_loop
atom_loop-lt i c t atom = ground (arith, atom_loop-le (if ltb i 31 then i + 1 else i) t)

skip_blanks-head : (t : List ℕ) → is_blank (nth (skip_blanks t) 0) ≡ false
unfolding skip_blanks
skip_blanks-head [] = refl
skip_blanks-head (c ∷ t) = ground (arith, skip_blanks-head t)

atom_node-Left : (m : List ℕ) (s : Lisp) → Returns (Left (length s.src)) (atom_node m s)
unfolding atom_node new_lval_num new_lval_sym
atom_node-Left [] s = omega arith
atom_node-Left (c ∷ m) s =
    let same : (n : Node) → Returns (Left (length s.src)) (alloc_node n s) = λ n.
      Returns-mono (Made n s) (Left (length s.src)) (alloc_node n s) (alloc_node-Made n s)
        λ e s' (made, src). omega (arith, ap length src) in
    if_holds {A = M Node} (λ m. Returns (Left (length s.src)) (m s)) (is_num (c ∷ m))
      (λ _. same (num (number (c ∷ m)))) λ _. same (symbol (c ∷ m))

read_atom-Left :
    (s : Lisp) (c : ℕ) (t : List ℕ)
    → s.src ≡ c ∷ t
    → is_atom_char c ≡ true
    → Returns (λ e s'. length s'.src < length s.src) (read_atom s)
unfolding read_atom
read_atom-Left s c t text atom =
    let (buf, left) = atom_loop 0 s.src in
    let fewer : length (atom_loop 0 s.src).1 < length s.src = rw text (atom_loop-lt 0 c t atom) in
    Returns-mono (Left (length left)) (λ e s'. length s'.src < length s.src)
      (atom_node buf (record s { src = left })) (atom_node-Left buf (record s { src = left }))
      λ e s' h. omega arith

nth-cons : (t : List ℕ) → (nth t 0 == 0) ≡ false → (s : List ℕ) × (t ≡ nth t 0 ∷ s)
nth-cons [] h = cc
nth-cons (c ∷ t) h = (t, refl)

drop_one-length : (t : List ℕ) → (nth t 0 == 0) ≡ false → length (drop_one t) + 1 ≡ length t
drop_one-length [] h = cc
drop_one-length (c ∷ t) h = omega arith

err-Progress :
    (m : List ℕ) (s : Lisp) (n : ℕ) → length s.src ≤ n → Returns (Progress n) (new_lval_err m s)
unfolding new_lval_err
err-Progress m s n le =
    Returns-mono (Made (err m) s) (Progress n) (alloc_node (err m) s) (alloc_node-Made (err m) s)
      λ e s' (made, src). (
        omega (arith, ap length src),
        (λ ok. let bad : (is_null (err m) || is_err (err m)) ≡ false = rw made at ok in cc),
      )

made-Left : (n : Node) (s : Lisp) (k : ℕ) → length s.src ≤ k → Returns (Left k) (alloc_node n s)
made-Left n s k le =
    Returns-mono (Made n s) (Left k) (alloc_node n s) (alloc_node-Made n s)
      λ e s' (made, src). omega (arith, ap length src)

or_eof-Left : (e : Node) (s : Lisp) (k : ℕ) → length s.src ≤ k → Returns (Left k) (or_eof e s)
unfolding or_eof new_lval_err
or_eof-Left e s k le =
    if_holds {A = M Node} (λ m. Returns (Left k) (m s)) (is_null e)
      (λ _. made-Left (err (codes "EOF")) s k le) λ _. le

module _ (fuel : ℕ)
    (list_ends : (s : Lisp)
      → 2 * length s.src + 2 ≤ fuel
      → Returns (Left (length s.src)) (read_list fuel s)) where
  expr_step :
      (s : Lisp)
      → 2 * length s.src + 1 ≤ suc fuel
      → Returns (Progress (length s.src)) (read_expr (suc fuel) s)
  unfolding read_expr peek advance
  expr_step s enough =
      let t = skip_blanks s.src in
      let s1 : Lisp = record s { src = t } in
      let fewer = skip_blanks-le s.src in
      let P : M Node → Type 0 = λ m. Returns (Progress (length s.src)) (m s1) in
      if_holds P (nth t 0 == 0) (λ end. (omega arith, λ no_null. cc))
        λ more.
          if_holds P (nth t 0 == b'(')
            (λ opens.
              let s2 : Lisp = record s { src = drop_one t } in
              let shorter = drop_one-length t more in
              Returns-mono (Left (length (drop_one t))) (Progress (length s.src))
                (read_list fuel s2) (list_ends s2 (omega arith))
                λ e s' le. (omega arith, λ _. omega arith))
            λ not_open.
              if_holds P (nth t 0 == b')')
                (λ closes. err-Progress (codes "Unexpected ')'") s1 (length s.src) fewer)
                λ not_close.
                  let (rest, text) = nth-cons t more in
                  let not_blank = skip_blanks-head s.src in
                  Returns-mono (λ e s'. length s'.src < length t) (Progress (length s.src))
                    (read_atom s1) (read_atom-Left s1 (nth t 0) rest text (ground arith))
                    λ e s' lt. (omega arith, λ _. omega arith)

  module _
      (expr_ends : (s : Lisp)
        → 2 * length s.src + 1 ≤ fuel
        → Returns (Progress (length s.src)) (read_expr fuel s)) where
    list_step :
        (s : Lisp)
        → 2 * length s.src + 2 ≤ suc fuel
        → Returns (Left (length s.src)) (read_list (suc fuel) s)
    unfolding read_list peek advance new_lval_nil new_lval_list
    list_step s enough =
        let t = skip_blanks s.src in
        let s1 : Lisp = record s { src = t } in
        let fewer = skip_blanks-le s.src in
        let P : M Node → Type 0 = λ m. Returns (Left (length s.src)) (m s1) in
        if_holds P (nth t 0 == b')')
          (λ closes.
            made-Left nil (record s { src = drop_one t }) (length s.src)
              (omega (arith, drop_one-length t (ground arith))))
          λ not_close.
            Returns-after (Progress (length t)) (Left (length s.src)) (read_expr fuel s1) _
              (expr_ends s1 (omega arith))
              λ first s2 (le, lt).
                if_holds {A = M Node} (λ m. Returns (Left (length s.src)) (m s2))
                  (is_null first || is_err first)
                  (λ bad. or_eof-Left first s2 (length s.src) (omega arith))
                  λ good.
                    let taken = lt good in
                    Returns-after (Left (length s2.src)) (Left (length s.src)) (read_list fuel s2) _
                      (list_ends s2 (omega arith))
                      λ rest s3 left. made-Left (list first rest) s3 (length s.src) (omega arith)

reader_ends :
    (fuel : ℕ)
    → ((s : Lisp)
        → 2 * length s.src + 1 ≤ fuel
        → Returns (Progress (length s.src)) (read_expr fuel s))
      × ((s : Lisp)
          → 2 * length s.src + 2 ≤ fuel
          → Returns (Left (length s.src)) (read_list fuel s))
reader_ends zero = ((λ s h. absurd (omega arith)), λ s h. absurd (omega arith))
reader_ends (suc fuel) =
    let (of_expr, of_list) = reader_ends fuel in
    (expr_step fuel of_list, list_step fuel of_list of_expr)

-- Given twice as much fuel as there are characters left, and one more, `read_expr` returns or, only if
-- the pool then has no room for another node of 56 bytes in its 1 MB, ends the program: it reads
-- through no null pointer and never runs out of fuel.
-- No more text is left than before, and less unless it returned the null pointer or an error.
pub read_expr-Returns :
    (fuel : ℕ) (s : Lisp)
    → 2 * length s.src + 1 ≤ fuel
    → Returns
        (λ e s'.
          (length s'.src ≤ length s.src)
          × ((is_null e || is_err e ≡ false) → length s'.src < length s.src))
        (read_expr fuel s)
read_expr-Returns fuel = (reader_ends fuel).0
