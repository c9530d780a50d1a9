-- ===== src/Shell/Split.antt =====
-- The split of a command at its first space.
use lisp_dos.Base.{
  ℕ, zero, suc, ◌+◌, ◌-◌, ◌≤◌, ◌<◌, min, ◌≡◌, sym, ap, ◌∙◌, ◌≢◌, ◌&&◌, some, arith, ltb, leb,
  if◌then◌else◌, eq→eqb, ne→eqb, Memory, update, update_self,
}
use lisp_dos.Shell.{Command, find_space, copy_chars, split}

copy_chars-at :
    (from to : Memory) (i j n q : ℕ)
    → copy_chars from to i j n q ≡ (if leb j q && ltb q (j + n) then from (i + (q - j)) else to q)
unfolding copy_chars
copy_chars-at from to i j zero q = ground arith
copy_chars-at from to i j (suc n) q =
    ground (arith, copy_chars-at from (update to j (from i)) (i + 1) (j + 1) n q)

find_space-at :
    (m : Memory) (n i k : ℕ)
    → ((j : ℕ) → i ≤ j → j < i + k → m j ≢ 32)
    → m (i + k) ≡ 32
    → k < n
    → find_space m n i ≡ some (i + k)
unfolding find_space
find_space-at m zero i k none_before space lt = absurd (omega arith)
find_space-at m (suc n) i zero none_before space lt =
    let at : i + 0 ≡ i = omega arith in
    rw (eq→eqb (m i) 32 (ap m (sym at) ∙ space)) (ap some (sym at))
find_space-at m (suc n) i (suc k) none_before space lt =
    let plain : m i ≢ 32 = none_before i (omega arith) (omega arith) in
    let at : i + 1 + k ≡ i + suc k = omega arith in
    rw (ne→eqb (m i) 32 plain) (
      find_space-at m n (i + 1) k (λ j lo hi. none_before j (omega arith) (omega arith))
        (ap m at ∙ space) (omega arith)
      ∙ ap some at)

copied :
    (from to : Memory) (i n j : ℕ) → j < n → update (copy_chars from to i 0 n) n 0 j ≡ from (i + j)
copied from to i n j lt = ground (arith, copy_chars-at from to i 0 n j)

cut : (k : ℕ) → (if ltb k 31 then k else 31) ≡ min k 31
cut k = ground arith

-- If the first space of the command is its character `k`, the name is what stands before it, cut
-- to 31 characters, and the arguments are all that follows it, each with a 0 behind it. So the
-- array of 224 characters for the arguments is overrun when that is more than 223 characters.
pub split_lem :
    (l : Command) (cmd_name args : Memory) (k : ℕ)
    → ((j : ℕ) → j < k → l.command j ≢ 32)
    → l.command k ≡ 32
    → k < l.cmd_len
    → let (name', args') = split l cmd_name args in
      ((j : ℕ) → j < min k 31 → name' j ≡ l.command j)
      × (name' (min k 31) ≡ 0)
      × ((j : ℕ) → j < l.cmd_len - (k + 1) → args' j ≡ l.command (k + 1 + j))
      × (args' (l.cmd_len - (k + 1)) ≡ 0)
unfolding split
split_lem l cmd_name args k none_before space lt =
    let found =
      find_space-at l.command l.cmd_len 0 k (λ j lo hi. none_before j (omega arith))
        (ap l.command (omega arith) ∙ space) lt in
    let found' : find_space l.command l.cmd_len 0 ≡ some k = found ∙ ap some (omega arith) in
    let name0 = update cmd_name 0 0 in
    let args0 = update args 0 0 in
    let n = l.cmd_len - (k + 1) in
    rw (found', cut k, split)
      (
        (λ j h. copied l.command name0 0 (min k 31) j h ∙ ap l.command (omega arith)),
        update_self (copy_chars l.command name0 0 0 (min k 31)) 0 (min k 31),
        (λ j h. copied l.command args0 (k + 1) n j h),
        update_self (copy_chars l.command args0 (k + 1) 0 n) 0 n,
      )
