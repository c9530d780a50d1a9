-- ===== src/TarFs/Walk.antt =====
-- Looking a file up in the archive, and reading it.
use lisp_dos.Base.{
  ℕ, zero, suc, ◌+◌, ◌-◌, ◌*◌, ◌/◌, subst, ap, ◌^◌, ◌≤◌, ◌<◌, ◌≡◌, refl, sym, ◌∙◌, ◌≢◌, ◌⊎◌, inl,
  inr, true, false, ◌&&◌, Option, none, some, List, [], ◌∷◌, arith, ltb, leb, ◌==◌, if◌then◌else◌,
  eq→eqb, ne→eqb, Bool-cases, Memory, update, u32, length, nth,
}
use lisp_dos.TarFs.{
  Ramdisk, same_name, header_size, next_header, find, copy_data, tarfs_get_file_size,
  tarfs_read_file,
}
use lisp_dos.TarFs.Octal.{header_size_lt, header_size-value, value, digits}

-- A string of C: no character of it is 0.
abbrev pub Nonzero : List ℕ → Type 0
Nonzero s = (i : ℕ) → i < length s → nth s i ≢ 0

-- The characters from offset `at` on are those of the name and the 0 that ends it.
unfoldable pub IsNamed : Memory → ℕ → List ℕ → Type 0
IsNamed m at [] = m at ≡ 0
IsNamed m at (c ∷ s) = (m at ≡ c) × IsNamed m (at + 1) s

same_name-true : (m : Memory) (at : ℕ) (s : List ℕ) → same_name m at s ≡ true → IsNamed m at s
unfolding same_name IsNamed
same_name-true m at [] e = ground arith
same_name-true m at (c ∷ s) e = (ground arith, same_name-true m (at + 1) s (ground arith))

same_name-IsNamed :
    (m : Memory) (at : ℕ) (s : List ℕ) → Nonzero s → IsNamed m at s → same_name m at s ≡ true
unfolding same_name IsNamed
same_name-IsNamed m at [] nz named = ground arith
same_name-IsNamed m at (c ∷ s) nz (first, rest) =
    let c_nz : c ≢ 0 = nz 0 (omega arith) in
    let later = same_name-IsNamed m (at + 1) s (λ i lt. nz (suc i) (omega arith)) rest in
    let more : m at ≢ 0 = λ z. c_nz (sym first ∙ z) in
    rw (ne→eqb (m at) 0 more, eq→eqb (m at) c first) later

not-IsNamed :
    (m : Memory) (at : ℕ) (s : List ℕ) → Nonzero s → same_name m at s ≡ false → ¬ IsNamed m at s
not-IsNamed m at s nz e named = ground (arith, same_name-IsNamed m at s nz named)

-- The number that the octal digits of the size field say, and where the next header stands: behind the
-- header of 512 bytes and the blocks of 512 bytes that the data takes.
abbrev pub size_of : Ramdisk → ℕ → ℕ
size_of d h = value (digits d.base (h + 124) 11)

abbrev pub behind : Ramdisk → ℕ → ℕ
behind d h = h + 512 + (size_of d h + 511) / 512 * 512

next_header-behind : (d : Ramdisk) (h : ℕ) → h < 2 ^ 62 → next_header d h ≡ behind d h
unfolding next_header
next_header-behind d h lt =
    let same = header_size-value d h in let small = header_size_lt d h in omega arith

module _ (d : Ramdisk) (name : List ℕ) where
  -- The walk gets from header `a` to `b`, past headers of other files only.
  pub data Passes (a : ℕ) : ℕ → Type 0 where
    here : Passes a a
    on :
        {b : ℕ}
        → Passes a b
        → b < d.size
        → d.base b ≢ 0
        → ¬ IsNamed d.base b name
        → Passes a (behind d b)

  -- What the walk from header `a` finds: nothing, at the end of the archive or at a header
  -- without a name, or the first header that has the name.
  unfoldable pub Finds : ℕ → Option ℕ → Type 0
  Finds a none = (e : ℕ) × Passes a e × ((d.size ≤ e) ⊎ (d.base e ≡ 0))
  Finds a (some h) = Passes a h × (h < d.size) × (d.base h ≢ 0) × IsNamed d.base h name

  next_header_ge : (offset : ℕ) → offset < 2 ^ 62 → offset + 512 ≤ next_header d offset
  unfolding next_header
  next_header_ge offset h = omega (arith, header_size_lt d offset)

  pub find_lem :
      (fuel a offset : ℕ)
      → Nonzero name
      → d.size ≤ 2 ^ 62
      → (d.size - offset + 511) / 512 < fuel
      → Passes a offset
      → (r : Option ℕ) × (find fuel d name offset ≡ some r) × Finds a r
  unfolding find Finds
  find_lem zero a offset nz small enough path = absurd (omega arith)
  find_lem (suc fuel) a offset nz small enough path = elim (Bool-cases (ltb offset d.size)) [
    | inr e ↦ (none, rw e refl, (offset, path, inl (ground arith)))
    | inl e ↦ elim (Bool-cases (d.base offset == 0)) [
      | inl z ↦ (none, rw (e, z) refl, (offset, path, inr (ground arith)))
      | inr z ↦ elim (Bool-cases (same_name d.base offset name)) [
        | inl named ↦ (
          some offset,
          rw (e, z, named) refl,
          (path, ground arith, ground arith, same_name-true d.base offset name named),
        )
        | inr other ↦
            let inside : offset < d.size = ground arith in
            let ahead = next_header_ge offset (omega arith) in
            let less : (d.size - next_header d offset + 511) / 512 < fuel = omega arith in
            let next = find_lem fuel a (next_header d offset) nz small less (
              subst (Passes a) (sym (next_header-behind d offset (omega arith))) (
                on path (ground arith) (ground arith) (not-IsNamed d.base offset name nz other))) in
            (next.0, rw (e, z, other) next.1, next.2)
      ]
    ]
  ]

copy_data-at :
    (m buffer : Memory) (at i n j : ℕ)
    → copy_data m buffer at i n j ≡ (if leb i j && ltb j (i + n) then m (at + j) else buffer j)
unfolding copy_data
copy_data-at m buffer at i zero j = ground arith
copy_data-at m buffer at i (suc n) j =
    ground (arith, copy_data-at m (update buffer i (m (at + i))) at (i + 1) n j)

-- The size of what the lookup finds, and the bytes of it in the archive; 0 where it finds nothing.
pub found_size : Ramdisk → Option ℕ → ℕ
found_size d none = 0
found_size d (some h) = size_of d h

unfoldable pub Holds : Ramdisk → Option ℕ → Memory → Memory → Type 0
unfolding found_size
Holds d none buffer result = result ≡ buffer
Holds d (some h) buffer result =
    ((i : ℕ) → i < size_of d h → result i ≡ d.base (h + 512 + i))
    × ((i : ℕ) → size_of d h ≤ i → result i ≡ buffer i)

-- In an archive of at most 2 ^ 62 bytes, for a name without null characters, and with fuel for
-- every header that fits the archive, both file operations give a result: they find the
-- first file of that name or find that there is none, return its size, and the read fills the
-- buffer with exactly its bytes. The size of a file is the number that the octal digits of the first 11
-- characters of its field say, and the next header stands behind the blocks of 512 bytes of its data.
pub tarfs_lem :
    (fuel : ℕ) (d : Ramdisk) (name : List ℕ) (buffer : Memory)
    → Nonzero name
    → d.size ≤ 2 ^ 62
    → (d.size + 511) / 512 < fuel
    → (r : Option ℕ) × (result : Memory) × Finds d name 0 r
      × (tarfs_get_file_size fuel d name ≡ some (found_size d r))
      × (tarfs_read_file fuel d name buffer ≡ some (u32 (found_size d r), result))
      × Holds d r buffer result
unfolding tarfs_get_file_size tarfs_read_file found_size Holds
tarfs_lem fuel d name buffer nz small enough =
    let (r, found, finds) = find_lem d name fuel 0 0 nz small (omega arith) here in
    elim r
        as (λ r.
          find fuel d name 0 ≡ some r
          → Finds d name 0 r
          → (s : Option ℕ) × (result : Memory) × Finds d name 0 s
            × (tarfs_get_file_size fuel d name ≡ some (found_size d s))
            × (tarfs_read_file fuel d name buffer ≡ some (u32 (found_size d s), result))
            × Holds d s buffer result) [
              | none ↦ λ e f. (
                none,
                buffer,
                f,
                rw (e, tarfs_get_file_size) refl,
                rw (e, tarfs_read_file) refl,
                refl,
              )
              | some h ↦ λ e f.
                  let n = header_size d h in
                  let same : n ≡ size_of d h = header_size-value d h in
                  let copy = copy_data-at d.base buffer (h + 512) 0 n in
                  (
                    some h,
                    copy_data d.base buffer (h + 512) 0 n,
                    f,
                    rw (e, tarfs_get_file_size) (ap some same),
                    rw (e, tarfs_read_file)
                        (ap (λ k. some (u32 k, copy_data d.base buffer (h + 512) 0 n)) same),
                    (λ i lt. ground (arith, copy i, same), λ i ge. ground (arith, copy i, same)),
                  )
            ]
      found finds
