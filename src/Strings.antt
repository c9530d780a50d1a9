-- ===== src/Strings.antt =====
-- The memory and string functions of src/kernel/string.c, on one memory. An `int` that is the
-- difference of two bytes is its 32 bits.
pub mod Laws
mod Tests
use lisp_dos.Base.{
  ℕ, zero, suc, ◌+◌, ◌-◌, ◌^◌, not, ◌&&◌, Option, none, some, ◌==◌, if◌then◌else◌, Memory, update,
  u8, u32,
}

-- `while (n--) *p++ = (uint8_t)c;`
unfoldable pub memset : Memory → (s c n : ℕ) → Memory
memset m s c zero = m
memset m s c (suc n) = memset (update m s (u8 c)) (s + 1) c n

-- `while (n--) *d++ = *s++;`
unfoldable pub memcpy : Memory → (dest src n : ℕ) → Memory
memcpy m dest src zero = m
memcpy m dest src (suc n) = memcpy (update m dest (m src)) (dest + 1) (src + 1) n

abbrev pub difference : ℕ → ℕ → ℕ
difference a b = u32 (a + 2 ^ 32 - b)

unfoldable pub memcmp : Memory → (s1 s2 n : ℕ) → ℕ
memcmp m s1 s2 zero = 0
memcmp m s1 s2 (suc n) =
    let rest = memcmp m (s1 + 1) (s2 + 1) n in
    if not (m s1 == m s2) then difference (m s1) (m s2) else rest

-- `while (*s++) len++;`; `none` where the fuel runs out, here and below
unfoldable pub strlen_loop : Memory → (fuel s len : ℕ) → Option ℕ
strlen_loop m zero s len = none
strlen_loop m (suc fuel) s len =
    let rest = strlen_loop m fuel (s + 1) (len + 1) in if m s == 0 then some len else rest

unfoldable pub strlen : Memory → (fuel s : ℕ) → Option ℕ
strlen m fuel s = strlen_loop m fuel s 0

unfoldable pub strcmp : Memory → (fuel s1 s2 : ℕ) → Option ℕ
strcmp m zero s1 s2 = none
strcmp m (suc fuel) s1 s2 =
    let rest = strcmp m fuel (s1 + 1) (s2 + 1) in
    if not (m s1 == 0) && m s1 == m s2 then rest else some (difference (m s1) (m s2))

unfoldable pub strncmp : Memory → (s1 s2 n : ℕ) → ℕ
strncmp m s1 s2 zero = 0
strncmp m s1 s2 (suc n) =
    let rest = strncmp m (s1 + 1) (s2 + 1) n in
    if not (m s1 == m s2) then difference (m s1) (m s2) else if m s1 == 0 then 0 else rest
