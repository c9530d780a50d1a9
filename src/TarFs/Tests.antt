-- ===== src/TarFs/Tests.antt =====
-- An archive with the files "a", of no bytes, and "b", of three.
use lisp_dos.Base.{
  ℕ, ◌≡◌, refl, ◌&&◌, Option, some, [], ◌∷◌, arith, ltb, leb, ◌==◌, if◌then◌else◌, Memory, u32,
}
use lisp_dos.TarFs.{
  Ramdisk, tarfs_get_file_size, tarfs_read_file, octal_to_int, find, octal_loop, same_name,
  next_header, header_size,
}
use lisp_dos.TarFs.Octal.{OctalField}
use lisp_dos.TarFs.Print.{skip_spaces, tarfs_dir}
use lisp_dos.TarFs.Walk.{Nonzero, Finds, found_size, Holds, tarfs_lem}

abbrev bytes : Memory
bytes i =
    if i == 0
    then 97
    else if leb 124 i && ltb i 135
    then 48
    else if i == 512
    then 98
    else if i == 646
    then 51
    else if leb 636 i && ltb i 646
    then 48
    else if leb 1024 i && ltb i 1027
    then 120
    else 0

abbrev disk : Ramdisk
disk = record { base = bytes; size = 2048 }

b-Nonzero : Nonzero (98 ∷ [])
b-Nonzero i h = ground arith

reads : tarfs_get_file_size 6 disk (98 ∷ []) ≡ some 3
unfolding tarfs_get_file_size find octal_to_int octal_loop same_name next_header header_size
reads = refl

tarfs_lem_example :
    (r : Option ℕ) × (result : Memory) × Finds disk (98 ∷ []) 0 r
    × (tarfs_get_file_size 6 disk (98 ∷ []) ≡ some (found_size disk r))
    × (tarfs_read_file 6 disk (98 ∷ []) (λ i. 0) ≡ some (u32 (found_size disk r), result))
    × Holds disk r (λ i. 0) result
tarfs_lem_example = tarfs_lem 6 disk (98 ∷ []) (λ i. 0) b-Nonzero (omega arith) (omega arith)

abbrev field : Memory
field i = if i == 9 then 50 else if i == 10 then 49 else 48

field-OctalField : OctalField field 0 11 17
unfolding OctalField
field-OctalField = (
  0,
  17,
  omega arith,
  refl,
  refl,
  (
    0,
    17,
    omega arith,
    refl,
    refl,
    (
      0,
      17,
      omega arith,
      refl,
      refl,
      (
        0,
        17,
        omega arith,
        refl,
        refl,
        (
          0,
          17,
          omega arith,
          refl,
          refl,
          (
            0,
            17,
            omega arith,
            refl,
            refl,
            (
              0,
              17,
              omega arith,
              refl,
              refl,
              (
                0,
                17,
                omega arith,
                refl,
                refl,
                (
                  0,
                  17,
                  omega arith,
                  refl,
                  refl,
                  (2, 1, omega arith, refl, refl, (1, 0, omega arith, refl, refl, refl)),
                ),
              ),
            ),
          ),
        ),
      ),
    ),
  ),
)

spaced_b-Nonzero : Nonzero (skip_spaces (32 ∷ 98 ∷ []))
unfolding skip_spaces
spaced_b-Nonzero = b-Nonzero

lists : tarfs_dir 6 disk 0 ≡ some (0 ∷ 512 ∷ [])
unfolding tarfs_dir next_header header_size octal_to_int octal_loop
lists = refl
