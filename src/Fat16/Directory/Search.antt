-- ===== src/Fat16/Directory/Search.antt =====
-- The search finds the first file of the name before the end mark of the directory.
use lisp_dos.Base.{
  ℕ, zero, suc, ◌+◌, ◌≤◌, ◌<◌, ◌≡◌, refl, ◌≢◌, ◌⊎◌, inl, inr, Bool, true, false, not, ◌&&◌, Option,
  none, some, arith, ◌==◌, if◌then◌else◌, eqb→eq, eq→eqb, Bool-cases, Memory,
}
use lisp_dos.Ata.{Disk}
use lisp_dos.Fat16.Volume.{Volume}
use lisp_dos.Fat16.Directory.{
  entry, is_directory, match_loop, matches, Scan, stop, more, hit, scan_sector, find_entry,
  root_sector,
}

-- The first eleven bytes of an entry are those of the name.
abbrev pub SameName : Memory → Memory → Type 0
SameName e target = (j : ℕ) → j < 11 → e j ≡ target j

-- The entry of a file in use that is called `target`.
pub record IsFile (e target : Memory) : Type 0 where
  pub in_use : e 0 ≢ 0
  pub kept : e 0 ≢ 0xE5
  pub name : SameName e target
  pub regular : is_directory e ≡ false

-- The search goes past such an entry.
abbrev pub IsPassed : Memory → Memory → Type 0
IsPassed e target = (e 0 ≢ 0) × ¬ IsFile e target

match_loop-all :
    (e target : Memory) (n j : ℕ) (m : Bool)
    → match_loop e target n j m ≡ true
    → (m ≡ true) × ((i : ℕ) → j ≤ i → i < j + n → e i ≡ target i)
unfolding match_loop
match_loop-all e target zero j m h = (h, λ i lo hi. absurd (omega arith))
match_loop-all e target (suc n) j m h =
    let (first, rest) =
      match_loop-all e target n (j + 1) (if not (e j == target j) then false else m) h in
    (
      ground arith,
      λ i lo hi. elim (Bool-cases (j == i)) [
        | inl same ↦ ground (arith, eqb→eq j i same)
        | inr other ↦ rest i (ground arith) (omega arith)
      ],
    )

match_loop_of_all :
    (e target : Memory) (n j : ℕ)
    → ((i : ℕ) → j ≤ i → i < j + n → e i ≡ target i)
    → match_loop e target n j true ≡ true
unfolding match_loop
match_loop_of_all e target zero j all = refl
match_loop_of_all e target (suc n) j all =
    let here : (e j == target j) ≡ true = eq→eqb _ _ (all j (omega arith) (omega arith)) in
    rw here (match_loop_of_all e target n (j + 1) λ i lo hi. all i (omega arith) (omega arith))

abbrev is_hit : Memory → Memory → Bool
is_hit e target = matches e target && not (is_directory e)

module _ (e target : Memory) (in_use : e 0 ≢ 0) where
  IsFile-of_hit : (e 0 == 0xE5) ≡ false → is_hit e target ≡ true → IsFile e target
  IsFile-of_hit kept h = record {
    in_use = in_use;
    kept = ground arith;
    name =
        λ j lt. (match_loop-all e target 11 0 true (ground arith)).1 j (omega arith) (omega arith);
    regular = ground arith;
  }

  IsPassed-of_deleted : (e 0 == 0xE5) ≡ true → IsPassed e target
  IsPassed-of_deleted deleted = (in_use, λ f. f.kept (eqb→eq _ _ deleted))

  IsPassed-of_miss : is_hit e target ≡ false → IsPassed e target
  IsPassed-of_miss miss = (
    in_use,
    λ f.
        let all : matches e target ≡ true =
          match_loop_of_all e target 11 0 λ j lo hi. f.name j hi in
        ground (arith, f.regular),
  )

module _ (sector target : Memory) where
  abbrev pub PassedUpTo : ℕ → ℕ → Type 0
  PassedUpTo i j = (k : ℕ) → i ≤ k → k < j → IsPassed (entry sector k) target

  -- What the outcome of the loop over `[i, end)` says.
  abbrev pub Scanned : ℕ → ℕ → Scan → Type 0
  Scanned i end stop = (j : ℕ) × (i ≤ j) × (j < end) × (entry sector j 0 ≡ 0) × PassedUpTo i j
  Scanned i end more = PassedUpTo i end
  Scanned i end (hit j) = (i ≤ j) × (j < end) × IsFile (entry sector j) target × PassedUpTo i j

  PassedUpTo-cons :
      (i j : ℕ) → IsPassed (entry sector i) target → PassedUpTo (i + 1) j → PassedUpTo i j
  PassedUpTo-cons i j first rest k lo hi = elim (Bool-cases (i == k)) [
    | inl e ↦ rw (← eqb→eq i k e) first
    | inr e ↦ rest k (ground arith) hi
  ]

  Scanned-cons :
      (i end : ℕ) (r : Scan)
      → IsPassed (entry sector i) target
      → Scanned (i + 1) end r
      → Scanned i end r
  Scanned-cons i end stop first (j, lo, hi, z, before) =
      (j, omega arith, hi, z, PassedUpTo-cons i j first before)
  Scanned-cons i end more first all = PassedUpTo-cons i end first all
  Scanned-cons i end (hit j) first (lo, hi, f, before) =
      (omega arith, hi, f, PassedUpTo-cons i j first before)

  scan_sector-Scanned : (n i end : ℕ) → end ≡ i + n → Scanned i end (scan_sector sector target n i)
  unfolding scan_sector
  scan_sector-Scanned zero i end e = λ k lo hi. absurd (omega arith)
  scan_sector-Scanned (suc n) i end e = elim (Bool-cases (entry sector i 0 == 0)) [
    | inl ends ↦
        rw ends (i, omega arith, omega arith, eqb→eq _ _ ends, λ k lo hi. absurd (omega arith))
    | inr used ↦
        let in_use : entry sector i 0 ≢ 0 = ground arith in
        let rest = scan_sector-Scanned n (i + 1) end (omega arith) in
        elim (Bool-cases (entry sector i 0 == 0xE5)) [
          | inl deleted ↦
              rw (used, deleted)
                (Scanned-cons i end _ (IsPassed-of_deleted (entry sector i) target in_use deleted)
                  rest)
          | inr kept ↦ elim (Bool-cases (is_hit (entry sector i) target)) [
            | inl found ↦
                rw (used, kept, found)
                  (
                    omega arith,
                    omega arith,
                    IsFile-of_hit (entry sector i) target in_use kept found,
                    λ k lo hi. absurd (omega arith),
                  )
            | inr miss ↦
                rw (used, kept, miss)
                  (Scanned-cons i end _ (IsPassed-of_miss (entry sector i) target in_use miss) rest)
          ]
        ]
  ]

module _ (v : Volume) (d : Disk) (target : Memory) where
  abbrev pub entry_at : ℕ → ℕ → Memory
  entry_at sec i = entry (root_sector v d sec) i

  -- The search passed every entry before the entry `i` of the sector `sec`.
  abbrev pub PassedBefore : ℕ → ℕ → ℕ → Type 0
  PassedBefore from sec i =
      ((s k : ℕ) → from ≤ s → s < sec → k < 16 → IsPassed (entry_at s k) target)
      × ((k : ℕ) → k < i → IsPassed (entry_at sec k) target)

  -- What the search over the sectors `[from, end)` answers.
  abbrev pub Found : ℕ → ℕ → Option (ℕ × ℕ) → Type 0
  Found from end (some (sec, i)) =
      (from ≤ sec)
      × (sec < end)
      × (i < 16)
      × IsFile (entry_at sec i) target
      × PassedBefore from sec i
  Found from end none =
      ((sec : ℕ) × (i : ℕ) × (from ≤ sec)
        × (sec < end)
        × (i < 16)
        × (entry_at sec i 0 ≡ 0)
        × PassedBefore from sec i)
      ⊎ ((s k : ℕ) → from ≤ s → s < end → k < 16 → IsPassed (entry_at s k) target)

  module _ (from : ℕ) (whole : PassedUpTo (root_sector v d from) target 0 16) where
    PassedBefore-cons : (sec i : ℕ) → PassedBefore (from + 1) sec i → PassedBefore from sec i
    PassedBefore-cons sec i (before, same) = (
      (λ s k lo hi k16. elim (Bool-cases (from == s)) [
        | inl e ↦ rw (← eqb→eq from s e) (whole k (omega arith) k16)
        | inr e ↦ before s k (ground arith) hi k16
      ]),
      same,
    )

    Found-cons : (end : ℕ) (r : Option (ℕ × ℕ)) → Found (from + 1) end r → Found from end r
    Found-cons end (some (sec, i)) (lo, hi, i16, f, before) =
        (omega arith, hi, i16, f, PassedBefore-cons sec i before)
    Found-cons end none (inl (sec, i, lo, hi, i16, z, before)) =
        inl (sec, i, omega arith, hi, i16, z, PassedBefore-cons sec i before)
    Found-cons end none (inr all) = inr λ s k lo hi k16. elim (Bool-cases (from == s)) [
      | inl e ↦ rw (← eqb→eq from s e) (whole k (omega arith) k16)
      | inr e ↦ all s k (ground arith) hi k16
    ]

  find_entry-Found :
      (n from end : ℕ) → end ≡ from + n → Found from end (find_entry v d target n from)
  unfolding find_entry
  find_entry-Found zero from end e = inr λ s k lo hi k16. absurd (omega arith)
  find_entry-Found (suc n) from end e =
      go (scan_sector (root_sector v d from) target 16 0)
        (scan_sector-Scanned (root_sector v d from) target 16 0 16 refl)
        (find_entry-Found n (from + 1) end (omega arith))
    where
      go :
          (r : Scan)
          → Scanned (root_sector v d from) target 0 16 r
          → Found (from + 1) end (find_entry v d target n (from + 1))
          → Found from end (elim r [
            | stop ↦ none
            | hit i ↦ some (from, i)
            | more ↦ find_entry v d target n (from + 1)
          ])
      go stop (j, lo, hi, z, before) rest = inl (
        from,
        j,
        omega arith,
        omega arith,
        hi,
        z,
        ((λ s k a b c. absurd (omega arith)), λ k h. before k (omega arith) h),
      )
      go more all rest = Found-cons from all end _ rest
      go (hit j) (lo, hi, f, before) rest = (
        omega arith,
        omega arith,
        hi,
        f,
        ((λ s k a b c. absurd (omega arith)), λ k h. before k (omega arith) h),
      )

-- The search of the root directory answers with the first entry that is a file of the name, and
-- every entry before it is in use or deleted and is no such file; or it answers that there is none,
-- and then either an end mark comes first with no such file before it, or no entry of the
-- directory is such a file.
pub find_entry_lem :
    (v : Volume) (d : Disk) (target : Memory)
    → Found v d target 0 v.root_dir_size (find_entry v d target v.root_dir_size 0)
find_entry_lem v d target =
    find_entry-Found v d target v.root_dir_size 0 v.root_dir_size (omega arith)
