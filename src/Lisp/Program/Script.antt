-- ===== src/Lisp/Program/Script.antt =====
-- A script of one arithmetic expression, from the file to the screen.
use lisp_dos.Base.{
  ℕ, zero, suc, ◌+◌, ◌*◌, ◌^◌, ◌≤◌, ◌<◌, ◌≡◌, refl, sym, ap, ◌∙◌, ◌≢◌, true, false, List, [], ◌∷◌,
  ◌++◌, arith, ltb, leb, ◌==◌, length, append_nil, append_assoc, nth, codes,
}
use lisp_dos.Lisp.Machine.{
  is_err, is_null, Node, null, err, num, symbol, list, nil, func, Lisp, done, exited, lisp_malloc,
  put_text,
}
use lisp_dos.Lisp.Number.{int_text, print_int}
use lisp_dos.Lisp.Environment.{env_find}
use lisp_dos.Lisp.Reader.{skip_blanks, peek, is_num}
use lisp_dos.Lisp.Reader.Numbers.{all_atom, int_text-ReadsAs}
use lisp_dos.Lisp.Reader.Atoms.{before, Delimited}
use lisp_dos.Lisp.Reader.RoundTrip.{
  show, show_tail, size, IsName, IsReadable, IsReadableTail, show-head, skip_blanks-solid,
  read_expr-show,
}
use lisp_dos.Base.Decimal.{IsSigned}
use lisp_dos.Lisp.Reader.Printed.{int_text-IsSigned}
use lisp_dos.Lisp.Evaluator.{deref}
use lisp_dos.Lisp.Evaluator.Arithmetic.{
  Op, plus, less, times, Arith, lit, call, Args, end, arg, op_name, node, nodes, value,
}
use lisp_dos.Lisp.Evaluator.Meaning.{
  IsArith, IsArgs, NotBound, cost, depth, eval-value, value-small,
}
use lisp_dos.Lisp.Program.{
  Disk, file_name, text_of, run_loop, show_result, finish, run_text, start, started,
}

text_of-atom : (m rest : List ℕ) → all_atom m ≡ true → text_of (m ++ rest) ≡ m ++ text_of rest
unfolding text_of all_atom
text_of-atom [] rest all = refl
text_of-atom (c ∷ m) rest all =
    let nz : (c == 0) ≡ false = ground arith in
    rw nz (ap (λ t. c ∷ t) (text_of-atom m rest (ground arith)))

mutual
  unfolding IsReadable show text_of

  text_of-show :
      (e : Node) (rest : List ℕ) → IsReadable e → text_of (show e ++ rest) ≡ show e ++ text_of rest
  text_of-show null rest is = absurd is
  text_of-show (err m) rest is = absurd is
  text_of-show (num n) rest (small, not_min) =
      text_of-atom (int_text n) rest (int_text-ReadsAs n small not_min).2
  text_of-show (symbol m) rest is = text_of-atom m rest is.1
  text_of-show (list a b) rest (is_a, is_b) =
      ap (λ t. b'(' ∷ t)
        (rw
          (
            append_assoc (show a) (show_tail b) rest,
            append_assoc (show a) (show_tail b) (text_of rest),
          )
          (text_of-show a (show_tail b ++ rest) is_a
            ∙ ap (λ t. show a ++ t) (text_of-tail b rest is_b)))
  text_of-show nil rest is = refl
  text_of-show (func a b) rest is = absurd is

  text_of-tail :
      (e : Node) (rest : List ℕ)
      → IsReadableTail e
      → text_of (show_tail e ++ rest) ≡ show_tail e ++ text_of rest
  text_of-tail (list a b) rest (is_a, is_b) =
      ap (λ t. b' ' ∷ t)
        (rw
          (
            append_assoc (show a) (show_tail b) rest,
            append_assoc (show a) (show_tail b) (text_of rest),
          )
          (text_of-show a (show_tail b ++ rest) is_a
            ∙ ap (λ t. show a ++ t) (text_of-tail b rest is_b)))
  text_of-tail nil rest is = refl
  text_of-tail null rest is = absurd is
  text_of-tail (err m) rest is = absurd is
  text_of-tail (num n) rest is = absurd is
  text_of-tail (symbol m) rest is = absurd is
  text_of-tail (func a b) rest is = absurd is

-- Every literal can be written out: it is not INT_MIN.
unfoldable mutual
  pub IsWritten : Arith → Type 0
  IsWritten (lit n) = n ≢ 2 ^ 31
  IsWritten (call op args) = AreWritten args

  pub AreWritten : Args → Type 0
  AreWritten end = Unit
  AreWritten (arg a args) = IsWritten a × AreWritten args

op_name-IsName : (op : Op) → IsName (op_name op)
unfolding op_name is_num all_atom
op_name-IsName plus = (refl, refl, omega arith, omega arith)
op_name-IsName less = (refl, refl, omega arith, omega arith)
op_name-IsName times = (refl, refl, omega arith, omega arith)

mutual
  unfolding IsReadable node IsArith IsWritten

  node-IsReadable : (e : Arith) → IsArith e → IsWritten e → IsReadable (node e)
  node-IsReadable (lit n) small not_min = (small, not_min)
  node-IsReadable (call op args) is written =
      (op_name-IsName op, nodes-IsReadable args is.0 written)

  nodes-IsReadable : (args : Args) → IsArgs args → AreWritten args → IsReadableTail (nodes args)
  nodes-IsReadable end is written = tt
  nodes-IsReadable (arg a args) (first, is) (first_written, written) =
      (node-IsReadable a first first_written, nodes-IsReadable args is written)

module _ (e : Arith) (is : IsArith e) (written : IsWritten e) where
  abbrev shown : List ℕ
  shown = show (node e)

  abbrev result : List ℕ
  result = codes "Resultado: " ++ int_text (value e) ++ codes "\n"

  -- The loop reads and evaluates the one expression, and stops at the end of the text.
  run_loop-show :
      (fuel pool : ℕ) (out : List ℕ)
      → 2 * size (node e) ≤ fuel
      → depth e ≤ fuel
      → 1 ≤ fuel
      → pool + (56 * size (node e) + cost e) ≤ 1024 * 1024
      → run_loop (suc fuel) null (before [] out pool shown)
        ≡ done (num (value e)) (before [] out (pool + 56 * size (node e) + cost e) [])
  unfolding run_loop peek deref
  run_loop-show zero pool out enough deep some_ room = absurd (omega arith)
  run_loop-show (suc fuel) pool out enough deep some_ room =
      let readable = node-IsReadable e is written in
      let (c, s, text, first, solid) = show-head [] out (node e) readable in
      let here : skip_blanks shown ≡ shown = rw text (skip_blanks-solid c s first) in
      let char : (nth shown 0 == 0) ≡ false = rw text (ground arith) in
      let reads =
        read_expr-show [] out (node e) (suc fuel) pool [] readable enough (omega arith)
          (unfold Delimited in tt) in
      let reads' = rw append_nil at reads in
      let evaluates =
        eval-value e (suc fuel) (pool + 56 * size (node e)) [] [] out []
          (unfold NotBound env_find in λ op. refl) (unfold NotBound env_find in λ op. refl) is deep
          (omega arith) in
      let no_null : is_null (node e) ≡ false = ground arith in
      let no_err : is_err (node e) ≡ false = ground arith in
      rw (here, char) (rw reads' (rw (no_null, no_err) (rw evaluates (unfold skip_blanks in refl))))

  text_of-shown : text_of shown ≡ shown
  text_of-shown =
      let whole = text_of-show (node e) [] (node-IsReadable e is written) in
      let ends : text_of [] ≡ [] = unfold text_of in refl in
      rw append_nil at (whole ∙ ap (λ t. shown ++ t) ends)

  -- The pool after the run.
  abbrev used : ℕ
  used = length shown + 1 + 56 * size (node e) + cost e

  abbrev after : Lisp
  after = record {
    pool = used;
    src = [];
    env = [];
    out =
        codes "Executando Script LISP...\n"
        ++ codes "Resultado: "
        ++ int_text (value e)
        ++ codes "\n";
  }

  run_text-shown :
      (fuel : ℕ)
      → 2 * size (node e) + depth e + 2 ≤ fuel
      → used ≤ 1024 * 1024
      → run_text fuel shown (record { pool = length shown + 1; src = []; env = []; out = [] })
        ≡ exited after
  unfolding run_text put_text finish show_result print_int
  run_text-shown zero enough room = absurd (omega arith)
  run_text-shown (suc fuel) enough room =
      let runs =
        run_loop-show fuel (length shown + 1) (codes "Executando Script LISP...\n") (omega arith)
          (omega arith) (omega arith) (omega arith) in
      rw text_of-shown (rw runs refl)

  shown-nonempty : 0 < length shown
  shown-nonempty =
      let (c, s, text, first, solid) = show-head [] [] (node e) (node-IsReadable e is written) in
      rw text (omega arith)

  start-shown :
      (fuel : ℕ) (disk : Disk) (args : List ℕ)
      → disk.content (file_name args) ≡ shown
      → disk.size_of (file_name args) ≡ length shown
      → 2 * size (node e) + depth e + 2 ≤ fuel
      → used ≤ 1024 * 1024
      → start fuel disk args started ≡ exited after
  unfolding start lisp_malloc
  start-shown fuel disk args holds fits enough room =
      let nonempty = shown-nonempty in
      let t1 : (length shown == 0) ≡ false = ground arith in
      let t2 : leb (2 ^ 31) (length shown + 1) ≡ false = ground arith in
      let zero_pool : 0 + (length shown + 1) ≡ length shown + 1 = omega arith in
      let t3 : ltb (1024 * 1024) (length shown + 1) ≡ false = ground arith in
      let t4 : ltb (length shown) (length shown) ≡ false = ground arith in
      rw (holds, fits)
        (rw (t1, t2) (rw zero_pool (rw t3 (rw t4 (run_text-shown fuel enough room)))))

-- The file that is named, or lisp.txt.
abbrev pub Names : (args name : List ℕ) → Type 0
Names [] name = name ≡ codes "lisp.txt"
Names (c ∷ args) name = name ≡ c ∷ args

file_name-Names : (args name : List ℕ) → Names args name → file_name args ≡ name
unfolding file_name
file_name-Names [] name e = sym e
file_name-Names (c ∷ args) name e = sym e

-- A script that is one arithmetic expression as `show` writes it (at most 16 arguments to a call, at
-- least one to `-`, no partial result that overflows an `int`), with no literal that is INT_MIN and a
-- value that is not INT_MIN: given the fuel and the room in the pool for the text, its nodes and those
-- of the evaluation, the program reads it from the file that is named, or from lisp.txt, evaluates it,
-- prints the value in decimal digits, with a minus sign if it is negative, between its two messages,
-- and ends.
pub start-value :
    (e : Arith) (fuel : ℕ) (disk : Disk) (args name : List ℕ)
    → IsArith e
    → IsWritten e
    → value e ≢ 2 ^ 31
    → Names args name
    → disk.content name ≡ show (node e)
    → disk.size_of name ≡ length (show (node e))
    → 2 * size (node e) + depth e + 2 ≤ fuel
    → length (show (node e)) + 1 + 56 * size (node e) + cost e ≤ 1024 * 1024
    → (s : Lisp) × (number : List ℕ) × (start fuel disk args started ≡ exited s)
      × IsSigned number (value e)
      × (s.out ≡ codes "Executando Script LISP...\n" ++ codes "Resultado: " ++ number ++ codes "\n")
start-value e fuel disk args name is written not_min names holds fits enough room = (
  after e is written,
  int_text (value e),
  start-shown e is written fuel disk args
      (ap disk.content (file_name-Names args name names) ∙ holds)
      (ap disk.size_of (file_name-Names args name names) ∙ fits) enough room,
  int_text-IsSigned (value e) (value-small e is) not_min,
  refl,
)
