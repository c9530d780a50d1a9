-- ===== src/Strings/Tests.antt =====
-- Two strings in one memory.
use lisp_dos.Base.{ℕ, ◌<◌, ◌≡◌, refl, ◌||◌, some, [], ◌∷◌, arith, ◌==◌, if◌then◌else◌, Memory}
use lisp_dos.Strings.{strncmp, strlen, strlen_loop}
use lisp_dos.Strings.Laws.{IsString}

-- "ab" at 0 and "ac" at 8.
abbrev bytes : Memory
bytes i = if i == 0 || i == 8 then 97 else if i == 1 then 98 else if i == 9 then 99 else 0

byte_bound : (i : ℕ) → bytes i < 256
byte_bound i = ground arith

ab : IsString bytes 0 (97 ∷ 98 ∷ [])
unfolding IsString
ab = (refl, omega arith, omega arith, (refl, omega arith, omega arith, refl))

ac : IsString bytes 8 (97 ∷ 99 ∷ [])
unfolding IsString
ac = (refl, omega arith, omega arith, (refl, omega arith, omega arith, refl))

measures : strlen bytes 5 0 ≡ some 2
unfolding strlen strlen_loop
measures = refl

compares : strncmp bytes 0 8 1 ≡ 0
unfolding strncmp
compares = refl
