-- ===== src/Editor/Lines.antt =====
-- Lines of the text, described by where they start and end, and the arrow keys up and down.
use lisp_dos.Base.{
  ℕ, zero, suc, ◌+◌, ◌-◌, ◌≤◌, ◌<◌, min, ◌≡◌, refl, ap, ◌∙◌, ◌≢◌, ◌⊎◌, inl, inr, arith, leb, ◌==◌,
  lt→ltb, eqb→eq, ne→eqb, Bool-cases, Memory,
}
use lisp_dos.Editor.{Editor, line_start, line_end, forward, forward_in_line, cursor_up, cursor_down}

-- The line of position `q` starts at `s`.
pub record IsLineStart (m : Memory) (q s : ℕ) : Type 0 where
  pub start_le : s ≤ q
  pub start_line : (i : ℕ) → s ≤ i → i < q → m i ≢ 10
  pub start_after : (s ≡ 0) ⊎ (m (s - 1) ≡ 10)

-- The line of position `q`, in a text of length `len`, ends at `e`.
pub record IsLineEnd (m : Memory) (len q e : ℕ) : Type 0 where
  pub end_ge : q ≤ e
  pub end_le : e ≤ len
  pub end_line : (i : ℕ) → q ≤ i → i < e → m i ≢ 10
  pub end_at : (e ≡ len) ⊎ (m e ≡ 10)

pub line_start_lem : (m : Memory) (q : ℕ) → IsLineStart m q (line_start m q)
unfolding line_start
line_start_lem m zero = record {
  start_le = omega arith;
  start_line = λ i lo hi. absurd (omega arith);
  start_after = inl refl;
}
line_start_lem m (suc q) =
    let r = line_start_lem m q in
    elim (Bool-cases (m q == 10)) [
      | inl e ↦ rw e (record {
        start_le = omega arith;
        start_line = λ i lo hi. absurd (omega arith);
        start_after = inr (ground arith);
      })
      | inr e ↦ rw e (record {
        start_le = ground (arith, r.start_le);
        start_line = λ i lo hi. elim (Bool-cases (i == q)) [
          | inl same ↦ ground arith
          | inr other ↦ r.start_line i lo (ground arith)
        ];
        start_after = r.start_after;
      })
    ]

starts_before : (m : Memory) (q s t : ℕ) → IsLineStart m q s → IsLineStart m q t → t ≤ s
starts_before m q s t a b = elim (Bool-cases (leb t s)) [
  | inl le ↦ ground arith
  | inr gt ↦
      let lt : s < t = ground arith in
      elim b.start_after [
        | inl first ↦ omega arith
        | inr newline ↦ absurd (a.start_line (t - 1) (omega arith) (omega arith) newline)
      ]
]

line_start_unique : (m : Memory) (q s t : ℕ) → IsLineStart m q s → IsLineStart m q t → s ≡ t
line_start_unique m q s t a b = omega (arith, starts_before m q s t a b, starts_before m q t s b a)

ends_before : (m : Memory) (len q e f : ℕ) → IsLineEnd m len q e → IsLineEnd m len q f → f ≤ e
ends_before m len q e f a b = elim (Bool-cases (leb f e)) [
  | inl le ↦ ground arith
  | inr gt ↦
      let lt : e < f = ground arith in
      elim a.end_at [
        | inl last ↦ omega (arith, b.end_le)
        | inr newline ↦ absurd (b.end_line e (a.end_ge) lt newline)
      ]
]

line_end_unique : (m : Memory) (len q e f : ℕ) → IsLineEnd m len q e → IsLineEnd m len q f → e ≡ f
line_end_unique m len q e f a b =
    omega (arith, ends_before m len q e f a b, ends_before m len q f e b a)

pub line_end_lem : (m : Memory) (len i n : ℕ) → i + n ≡ len → IsLineEnd m len i (line_end m i n)
unfolding line_end
line_end_lem m len i zero at = record {
  end_ge = omega arith;
  end_le = omega arith;
  end_line = λ j lo hi. absurd (omega arith);
  end_at = inl (omega arith);
}
line_end_lem m len i (suc n) at =
    let r = line_end_lem m len (i + 1) n (omega arith) in
    elim (Bool-cases (m i == 10)) [
      | inl e ↦ rw e (record {
        end_ge = omega arith;
        end_le = omega arith;
        end_line = λ j lo hi. absurd (omega arith);
        end_at = inr (ground arith);
      })
      | inr e ↦ rw e (record {
        end_ge = omega (arith, r.end_ge);
        end_le = r.end_le;
        end_line = λ j lo hi. elim (Bool-cases (j == i)) [
          | inl same ↦ ground arith
          | inr other ↦ r.end_line j (ground arith) hi
        ];
        end_at = r.end_at;
      })
    ]

forward_lem : (col p q : ℕ) → p ≤ q → forward col p q ≡ p + min col (q - p)
unfolding forward
forward_lem zero p q h = omega arith
forward_lem (suc col) p q h = elim (Bool-cases (p == q)) [
  | inl e ↦ rw e (ground arith)
  | inr e ↦ rw e (forward_lem col (p + 1) q (ground arith) ∙ ground arith)
]

forward_in_line_lem :
    (m : Memory) (len col p e : ℕ)
    → IsLineEnd m len p e
    → forward_in_line m len col p ≡ p + min col (e - p)
unfolding forward_in_line
forward_in_line_lem m len zero p e h = omega arith
forward_in_line_lem m len (suc col) p e h = elim (Bool-cases (p == e)) [
  | inl same ↦ elim h.end_at [
    | inl last ↦ ground arith
    | inr newline ↦ let here = ap m (eqb→eq p e same) ∙ newline in ground arith
  ]
  | inr other ↦
      let apart : p < e = ground (arith, h.end_ge) in
      let plain = h.end_line p (omega arith) apart in
      let rest = forward_in_line_lem m len col (p + 1) e (record {
        end_ge = omega arith;
        end_le = h.end_le;
        end_line = λ i lo hi. h.end_line i (omega arith) hi;
        end_at = h.end_at;
      }) in
      ground arith
]

-- Where the cursor's line starts at `s`, which is not 0, and the line before starts at `t`, the up
-- arrow goes to that line: to the same column, or to its end where it is shorter.
pub cursor_up_lem :
    (ed : Editor) (s t : ℕ)
    → IsLineStart ed.buffer ed.cursor s
    → 0 < s
    → IsLineStart ed.buffer (s - 1) t
    → cursor_up ed ≡ record ed { cursor = t + min (ed.cursor - s) (s - 1 - t) }
unfolding cursor_up
cursor_up_lem ed s t here pos prev =
    let m = ed.buffer in
    let same_s =
      line_start_unique m ed.cursor (line_start m ed.cursor) s (line_start_lem m ed.cursor) here in
    let same_t =
      line_start_unique m (s - 1) (line_start m (s - 1)) t (line_start_lem m (s - 1)) prev in
    rw (
      same_s,
      same_t,
      ne→eqb s 0 (omega arith),
      forward_lem (ed.cursor - s) t (s - 1) prev.start_le,
    )

-- Where the cursor's line starts at `s` and ends at `e` before the end of the text, and the next
-- line ends at `f`, the down arrow goes to that line: to the same column, or to its end where it
-- is shorter.
pub cursor_down_lem :
    (ed : Editor) (s e f : ℕ)
    → IsLineStart ed.buffer ed.cursor s
    → IsLineEnd ed.buffer ed.len ed.cursor e
    → e < ed.len
    → IsLineEnd ed.buffer ed.len (e + 1) f
    → cursor_down ed ≡ record ed { cursor = e + 1 + min (ed.cursor - s) (f - (e + 1)) }
unfolding cursor_down
cursor_down_lem ed s e f here now inside next =
    let m = ed.buffer in
    let same_s =
      line_start_unique m ed.cursor (line_start m ed.cursor) s (line_start_lem m ed.cursor) here in
    let same_e =
      line_end_unique m ed.len ed.cursor (line_end m ed.cursor (ed.len - ed.cursor)) e
        (line_end_lem m ed.len ed.cursor (ed.len - ed.cursor) (omega (arith, now.end_ge))) now in
    rw (
      same_s,
      same_e,
      lt→ltb e ed.len inside,
      forward_in_line_lem m ed.len (ed.cursor - s) (e + 1) f next,
    )
