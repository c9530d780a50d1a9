-- ===== src/Lisp/Number.antt =====
-- The `int` of the interpreter, as the 32 bits of its two's complement, and `print_int` of
-- src/tools/lisp.c. C does not define the results that an `int` does not hold: the operations then
-- give what the processor's do, and the theorems on values leave these out.
use lisp_dos.Base.{
  ℕ, zero, suc, ◌+◌, ◌-◌, ◌*◌, ◌/◌, ◌%◌, ◌^◌, Bool, ◌&&◌, ◌||◌, Option, none, some, List, [], ◌∷◌,
  ltb, leb, ◌==◌, if◌then◌else◌, u32,
}
use lisp_dos.Lisp.Machine.{M, put_text}

abbrev pub is_negative : ℕ → Bool
is_negative n = leb (2 ^ 31) n

unfoldable pub negate : ℕ → ℕ
negate n = u32 (2 ^ 32 - n)

unfoldable pub add : ℕ → ℕ → ℕ
add a b = u32 (a + b)

unfoldable pub subtract : ℕ → ℕ → ℕ
subtract a b = u32 (a + 2 ^ 32 - b)

unfoldable pub multiply : ℕ → ℕ → ℕ
multiply a b = u32 (a * b)

abbrev magnitude : ℕ → ℕ
unfolding negate
magnitude n = if is_negative n then negate n else n

-- `a / b` rounds towards 0; the processor traps if `b` is 0 and at INT_MIN / -1.
unfoldable pub divide : ℕ → ℕ → Option ℕ
unfolding negate
divide a b =
    let q = magnitude a / magnitude b in
    if b == 0 || (a == 2 ^ 31 && b == 2 ^ 32 - 1)
    then none
    else if is_negative a
    then some (if is_negative b then q else negate q)
    else some (if is_negative b then negate q else q)

-- `while(n > 0) { buf[i++] = (n % 10) + '0'; n /= 10; }`: the digits stand in front of those
-- before them, since they are printed from the last to the first. `buf` has 16 places.
unfoldable pub digit_loop : (places n : ℕ) → List ℕ → List ℕ
digit_loop zero n buf = buf
digit_loop (suc places) n buf =
    let rest = digit_loop places (n / 10) ((n % 10 + b'0') ∷ buf) in if ltb 0 n then rest else buf

-- After `n = -n` the number is negative still if it is INT_MIN, and then no digit is printed.
unfoldable pub digits : ℕ → List ℕ
unfolding digit_loop
digits n = if n == 0 then b'0' ∷ [] else if is_negative n then [] else digit_loop 16 n []

unfoldable pub int_text : ℕ → List ℕ
unfolding negate digits
int_text n = if is_negative n then b'-' ∷ digits (negate n) else digits n

unfoldable pub print_int : ℕ → M (Unit {0})
unfolding int_text put_text
print_int n = put_text (int_text n)
