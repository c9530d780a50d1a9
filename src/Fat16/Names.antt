-- ===== src/Fat16/Names.antt =====
-- File names of src/kernel/fat16.c: `format_fat_name`, and how `fat16_dir` prints a name. A C string
-- is the list of its characters; the loops end with the list or at a null character in it.
pub mod RoundTrip
use lisp_dos.Base.{
  ℕ, zero, suc, ◌+◌, ◌-◌, not, ◌&&◌, ◌||◌, List, [], ◌∷◌, ◌++◌, ltb, leb, ◌==◌, if◌then◌else◌,
  Memory, update,
}

abbrev space : ℕ
space = 32

abbrev dot : ℕ
dot = 46

-- `if (c >= 'a' && c <= 'z') c -= 32`
unfoldable pub upper : ℕ → ℕ
upper c = if leb 97 c && leb c 122 then c - 32 else c

-- `while (in[i] && in[i] != '.' && j < 8)`: what is left of `in`, and `out`
unfoldable pub base_loop : List ℕ → ℕ → Memory → List ℕ × Memory
base_loop [] j out = ([], out)
base_loop (c ∷ s) j out =
    let rest = base_loop s (j + 1) (update out j (upper c)) in
    if not (c == 0) && not (c == dot) && ltb j 8 then rest else (c ∷ s, out)

-- `while (in[i] && in[i] != '.') i++`
unfoldable pub skip_loop : List ℕ → List ℕ
skip_loop [] = []
skip_loop (c ∷ s) = let rest = skip_loop s in if c == 0 || c == dot then c ∷ s else rest

-- `while (in[i] && j < 11)`
unfoldable pub ext_loop : List ℕ → ℕ → Memory → Memory
ext_loop [] j out = out
ext_loop (c ∷ s) j out =
    let rest = ext_loop s (j + 1) (update out j (upper c)) in
    if not (c == 0) && ltb j 11 then rest else out

-- `if (in[i] == '.')` and what it guards
unfoldable pub extension : List ℕ → Memory → Memory
extension [] out = out
extension (c ∷ s) out = if c == dot then ext_loop s 8 out else out

-- The array `out` of 11 characters, blank at first.
unfoldable pub format_fat_name : List ℕ → Memory
format_fat_name s = let (rest, out) = base_loop s 0 (λ j. space) in extension (skip_loop rest) out

-- `for (j = 0; j < n; j++) if (name[j] != ' ') vga_putchar(name[j])`, as the characters printed
unfoldable pub printed_part : Memory → ℕ → ℕ → List ℕ
printed_part entry zero p = []
printed_part entry (suc n) p =
    if not (entry p == space)
    then entry p ∷ printed_part entry n (p + 1)
    else printed_part entry n (p + 1)

-- The name of a directory entry as `fat16_dir` prints it; `ext` follows `name` in the entry.
unfoldable pub printed_name : Memory → List ℕ
printed_name entry =
    printed_part entry 8 0 ++ (if not (entry 8 == space) then dot ∷ printed_part entry 3 8 else [])
