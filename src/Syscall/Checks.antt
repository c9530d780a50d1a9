-- ===== src/Syscall/Checks.antt =====
-- What user code can make the dispatcher do with pointers.
use lisp_dos.Base.{
  ℕ, ◌+◌, ◌-◌, ◌/◌, ◌^◌, ◌≤◌, ◌<◌, ◌≡◌, refl, sym, ap, ◌∙◌, ◌⊎◌, inl, inr, Bool, true, false, not,
  ◌||◌, Option, none, some, List, arith, ltb, leb, ◌==◌, if◌then◌else◌, Bool-cases, Memory, u32,
  if_holds, subst,
}
use lisp_dos.Vmm.{has_zero, user_limit, vmm_check_user_ptr, vmm_check_user_string}
use lisp_dos.Vmm.Walk.{MayAccess, UpperWritable}
use lisp_dos.Vmm.UserPtr.{UserBuffer, check_user_ptr_iff}
use lisp_dos.Vmm.UserString.{UserString, check-UserString_iff}
use lisp_dos.Vga.{Framebuffer}
use lisp_dos.Keyboard.{keyboard_getchar}
use lisp_dos.Fat16.Directory.{get_file_size}
use lisp_dos.Fat16.Read.{read_file}
use lisp_dos.Fat16.Read.Bounds.{FileWithin, read_file-FileWithin, get_file_size_lt}
use lisp_dos.Fat16.Write.{write_file}
use lisp_dos.Syscall.{
  Kernel, Answer, from_char, returns, waiting, exited, out_of_fuel, string_at, paste, from_int,
  failed, with_string, sys_read_file, sys_write_file, syscall_handler_c,
}

-- The calls that take a string, and the argument that points to it.
unfoldable pub takes_string : ℕ → Bool
takes_string num = num == 1 || num == 8 || num == 9 || num == 10

unfoldable pub string_arg : (num arg1 arg2 : ℕ) → ℕ
string_arg num arg1 arg2 = if num == 1 then arg2 else arg1

with_string-bad :
    (k : Kernel) (fuel at : ℕ) (next : Answer)
    → user_limit / 4096 < fuel
    → ¬ UserString k.words k.user k.cr3 at
    → with_string k fuel at next ≡ returns failed k
unfolding with_string
with_string-bad k fuel at next enough bad =
    let (b, answers, (forth, back)) = check-UserString_iff k.words k.user k.cr3 at fuel enough in
    elim b
        as (λ b.
          vmm_check_user_string k.words k.user k.cr3 at fuel ≡ some b
          → ((b ≡ true) → UserString k.words k.user k.cr3 at)
          → with_string k fuel at next ≡ returns failed k) [
            | true ↦ λ a f. absurd (bad (f refl))
            | false ↦ λ a f. rw (a, with_string)
          ]
      answers forth

-- User memory changes only from `at` on, where the processor lets user code write.
unfoldable pub OnlyWritable : Kernel → ℕ → Answer → Type 0
OnlyWritable k at (returns r after) =
    (a : ℕ)
    → (after.user a ≡ k.user a) ⊎ ((at ≤ a) × (a < user_limit) × MayAccess k.words k.cr3 a true)
OnlyWritable k at waiting = Unit
OnlyWritable k at (exited v) = Unit
OnlyWritable k at out_of_fuel = Unit

-- The tables above the last are writable, below the user limit.
abbrev pub Entered : Kernel → Type 0
Entered k = (addr : ℕ) → addr < user_limit → UpperWritable k.words k.cr3 addr

with_string-OnlyWritable :
    (k : Kernel) (fuel at arg2 : ℕ) (next : Answer)
    → OnlyWritable k arg2 next
    → OnlyWritable k arg2 (with_string k fuel at next)
unfolding with_string OnlyWritable
with_string-OnlyWritable k fuel at arg2 next ok =
    elim (vmm_check_user_string k.words k.user k.cr3 at fuel)
      as (λ c. OnlyWritable k arg2 (elim c [
        | none ↦ out_of_fuel
        | some false ↦ returns failed k
        | some true ↦ if has_zero k.user fuel at then next else out_of_fuel
      ])) [
        | none ↦ tt
        | some false ↦ λ a. inl refl
        | some true ↦ if_holds (OnlyWritable k arg2) (has_zero k.user fuel at) (λ _. ok) λ _. tt
      ]

paste-OnlyWritable :
    (k : Kernel) (at size : ℕ) (r : Option (ℕ × Memory))
    → ((size ≡ 0) ⊎ UserBuffer k.words k.cr3 at size true)
    → FileWithin size (λ o. k.user (at + o)) r
    → OnlyWritable k at (elim r as (λ x. Answer) [
      | none ↦ out_of_fuel
      | some (n, buffer) ↦ returns (from_int n) (record k { user = paste k.user at buffer })
    ])
unfolding OnlyWritable FileWithin paste
paste-OnlyWritable k at size none ok within = tt
paste-OnlyWritable k at size (some (n, buffer)) ok within = λ a. elim (Bool-cases (leb at a)) [
  | inr below ↦ inl (rw below refl)
  | inl above ↦ elim (Bool-cases (ltb a (at + size))) [
    | inl inside ↦
        let from : at ≤ a = ground arith in
        let to : a < at + size = ground arith in
        elim ok [
          | inl z ↦ absurd (omega arith)
          | inr buffer ↦ inr (from, omega (arith, buffer.in_user_space), buffer.bytes a from to)
        ]
    | inr behind ↦
        let back : at + (a - at) ≡ a = ground arith in
        inl (rw above (within (a - at) (ground arith) ∙ ap k.user back))
  ]
]

sys_read_file-OnlyWritable :
    (k : Kernel) (fuel arg1 arg2 : ℕ) (complaint : Kernel)
    → arg2 < 2 ^ 64
    → Entered k
    → ((lba o : ℕ) → k.disk lba o < 256)
    → complaint.user ≡ k.user
    → OnlyWritable k arg2 (sys_read_file k fuel arg1 arg2 complaint)
unfolding sys_read_file OnlyWritable
sys_read_file-OnlyWritable k fuel arg1 arg2 complaint word entered bytes same =
    let name = string_at k.user fuel arg1 in
    let size = get_file_size k.volume k.disk name in
    let buffer0 : Memory = λ o. k.user (arg2 + o) in
    if_holds (OnlyWritable k arg2) (size == 0) (λ z a. inl refl)
      λ z. elim (Bool-cases (vmm_check_user_ptr k.words k.cr3 arg2 size true)) [
        | inr bad ↦ rw bad (λ a. inl (ap (λ (m : Memory). m a) same))
        | inl good ↦ rw good (
            paste-OnlyWritable k arg2 size (read_file k.volume k.disk fuel name buffer0)
              ((check_user_ptr_iff k.words k.cr3 arg2 size true word
                  (omega (arith, get_file_size_lt k.volume k.disk name bytes))
                  (λ addr lt w. entered addr lt)).0
                good)
              (read_file-FileWithin k.volume k.disk fuel name buffer0
                (get_file_size_lt k.volume k.disk name bytes)))
      ]

sys_write_file-OnlyWritable :
    (k : Kernel) (fuel arg1 arg2 arg3 : ℕ)
    → OnlyWritable k arg2 (sys_write_file k fuel arg1 arg2 arg3)
unfolding sys_write_file OnlyWritable
sys_write_file-OnlyWritable k fuel arg1 arg2 arg3 =
    let size = u32 arg3 in
    let result =
      write_file k.volume k.disk fuel (string_at k.user fuel arg1) (λ o. k.user (arg2 + o)) size in
    if_holds (OnlyWritable k arg2) (not (vmm_check_user_ptr k.words k.cr3 arg2 size false))
      (λ bad a. inl refl)
      λ good.
        elim result
          as (λ r. OnlyWritable k arg2 (elim r as (λ x. Answer) [
            | none ↦ out_of_fuel
            | some (n, disk) ↦ returns 0 (record k { disk = disk })
          ])) [ none ↦ tt | some (n, disk) ↦ λ a. inl refl ]

other_calls :
    (num : ℕ) → takes_string num ≡ true → (num == 1) ≡ false → (num ≡ 8) ⊎ ((num ≡ 9) ⊎ (num ≡ 10))
unfolding takes_string
other_calls num takes e = ground arith

module _ (fb : Framebuffer) (font : ℕ → ℕ → ℕ) (complaint : ℕ → ℕ → List ℕ) where
  -- With fuel for every page below the user limit: a system call that takes a string answers -1
  -- and changes nothing if user code may not read the string up to its end.
  pub rejects_lem :
      (k : Kernel) (fuel num arg1 arg2 arg3 : ℕ)
      → takes_string num ≡ true
      → user_limit / 4096 < fuel
      → ¬ UserString k.words k.user k.cr3 (string_arg num arg1 arg2)
      → syscall_handler_c fb font complaint k fuel num arg1 arg2 arg3 ≡ returns failed k
  unfolding syscall_handler_c takes_string string_arg
  rejects_lem k fuel num arg1 arg2 arg3 takes enough bad = elim (Bool-cases (num == 1)) [
    | inl e ↦ rw e (with_string-bad k fuel arg2 _ enough (rw e at bad))
    | inr e ↦
        let bad1 : ¬ UserString k.words k.user k.cr3 arg1 = rw e at bad in
        let P : ℕ → Type 0 =
          λ n. syscall_handler_c fb font complaint k fuel n arg1 arg2 arg3 ≡ returns failed k in
        elim (other_calls num takes e) [
          | inl is8 ↦ subst P (sym is8) (with_string-bad k fuel arg1 _ enough bad1)
          | inr (inl is9) ↦ subst P (sym is9) (with_string-bad k fuel arg1 _ enough bad1)
          | inr (inr is10) ↦ subst P (sym is10) (with_string-bad k fuel arg1 _ enough bad1)
        ]
  ]

  -- On a disk of bytes, and where the tables below the user limit are entered as writable, a system
  -- call with a second argument of 64 bits changes user memory only from that address on and below
  -- the user limit, and only at addresses that the processor lets user code write itself.
  pub handler_lem :
      (k : Kernel) (fuel num arg1 arg2 arg3 : ℕ)
      → arg2 < 2 ^ 64
      → Entered k
      → ((lba o : ℕ) → k.disk lba o < 256)
      → OnlyWritable k arg2 (syscall_handler_c fb font complaint k fuel num arg1 arg2 arg3)
  unfolding syscall_handler_c OnlyWritable
  handler_lem k fuel num arg1 arg2 arg3 word entered bytes =
      let P = OnlyWritable k arg2 in
      if_holds P (num == 1) (λ e. with_string-OnlyWritable k fuel arg2 arg2 _ (λ a. inl refl))
        λ e.
          if_holds P (num == 2) (λ e a. inl refl)
            λ e.
              if_holds P (num == 3) (λ e a. inl refl)
                λ e.
                  if_holds P (num == 4) (λ e a. inl refl)
                    λ e.
                      if_holds P (num == 5) (λ e a. inl refl)
                        λ e.
                          if_holds P (num == 6) (λ e a. inl refl)
                            λ e.
                              if_holds P (num == 7)
                                (λ e.
                                  elim (keyboard_getchar k.keyboard)
                                    as (λ g. P (elim g as (λ x. Answer) [
                                      | none ↦ waiting
                                      | some (c, keyboard) ↦
                                          returns (from_char c) (record k { keyboard = keyboard })
                                    ])) [ none ↦ tt | some (c, keyboard) ↦ λ a. inl refl ])
                                λ e.
                                  if_holds P (num == 8)
                                    (λ e. with_string-OnlyWritable k fuel arg1 arg2 _ (
                                      sys_read_file-OnlyWritable k fuel arg1 arg2 _ word entered
                                        bytes refl))
                                    λ e.
                                      if_holds P (num == 9)
                                        (λ e.
                                          with_string-OnlyWritable k fuel arg1 arg2 _
                                            (sys_write_file-OnlyWritable k fuel arg1 arg2 arg3))
                                        λ e.
                                          if_holds P (num == 10)
                                            (λ e.
                                              with_string-OnlyWritable k fuel arg1 arg2 _
                                                (λ a. inl refl))
                                            λ e. if_holds P (num == 60) (λ e. tt) λ e a. inl refl
