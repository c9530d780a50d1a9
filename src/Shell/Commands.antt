-- ===== src/Shell/Commands.antt =====
-- The choice of the command in the loop of src/kernel/main.c, with what each command calls, up to
-- the jump to a program.
use lisp_dos.Base.{
  ℕ, ◌+◌, ◌-◌, ◌^◌, Bool, ◌||◌, Option, none, some, List, [], ◌∷◌, ◌++◌, ◌==◌, if◌then◌else◌, u32,
  codes,
}
use lisp_dos.Ata.{Disk}
use lisp_dos.Fat16.Volume.{Volume}
use lisp_dos.Fat16.Directory.{delete_file}
use lisp_dos.TarFs.{Ramdisk}
use lisp_dos.TarFs.Print.{tarfs_dir, tarfs_type}
use lisp_dos.Fat16.Directory.Listing.{fat16_dir}
use lisp_dos.Acpi.{Acpi, acpi_poweroff}
use lisp_dos.Process.Segments.{Loader}
use lisp_dos.Process.Exec.{Exec, returned, entered, no_fuel, process_exec}

pub record System : Type 0 where
  pub volume : Volume
  pub disk : Disk
  pub ramdisk : Ramdisk
  pub loader : Loader
  pub acpi : Acpi

-- What a command does beside its change of the state. `jumps` is the jump to a program, with its
-- address space, entry point and stack; `lists` has the headers whose names `tarfs_dir` prints and the
-- text of `fat16_dir`.
pub data Did : Type 0 where
  prints : List ℕ → Did
  clears : Did
  lists : (archive volume : List ℕ) → Did
  types : Option (List ℕ) → Did
  refuses : Did
  jumps : (map entry user_stack : ℕ) → Did
  powers_off : Did
  restarts : Did

-- `strcmp` as the loop has it, on the characters before the 0.
unfoldable pub strcmp : List ℕ → List ℕ → ℕ
strcmp [] [] = 0
strcmp [] (d ∷ t) = u32 (2 ^ 32 - d)
strcmp (c ∷ s) [] = c
strcmp (c ∷ s) (d ∷ t) = let rest = strcmp s t in if c == d then rest else u32 (c + 2 ^ 32 - d)

unfoldable pub is_command : List ℕ → List ℕ → Bool
unfolding strcmp
is_command cmd_name text = strcmp cmd_name text == 0

-- The program that is started, or the return to the prompt; `none` is the end of the fuel, here and
-- below.
unfoldable pub after_exec : System → Exec → Option (Did × System)
after_exec s no_fuel = none
after_exec s (returned why l) = some (refuses, record s { loader = l })
after_exec s (entered map entry user_stack l) =
    some (jumps map entry user_stack, record s { loader = l })

unfoldable pub exec : System → (fuel kernel : ℕ) → List ℕ → Option (List ℕ) → Option (Did × System)
unfolding after_exec
exec s fuel kernel filename args =
    after_exec s (process_exec s.volume s.disk s.ramdisk fuel filename kernel args s.loader)

unfoldable pub list_files : System → (fuel : ℕ) → Option (Did × System)
list_files s fuel = elim (tarfs_dir fuel s.ramdisk 0) [
  | none ↦ none
  | some shown ↦ some (lists shown (fat16_dir s.volume s.disk), s)
]

unfoldable pub type_file : System → (fuel : ℕ) → List ℕ → Option (Did × System)
type_file s fuel args = elim (tarfs_type fuel s.ramdisk args) [
  | none ↦ none
  | some shown ↦ some (types shown, s)
]

unfoldable pub remove : System → (fuel : ℕ) → List ℕ → Option (Did × System)
remove s fuel [] = some (prints (codes "Sintaxe: rm <arquivo>\n"), s)
remove s fuel (c ∷ args) = elim (delete_file s.volume s.disk fuel (c ∷ args)) [
  | none ↦ none
  | some (status, disk) ↦ some (
    prints (
        if status == 1
        then codes "Arquivo removido.\n"
        else codes "Arquivo nao encontrado ou erro ao remover.\n"),
    record s { disk = disk },
  )
]

unfoldable pub dispatch :
    System → (fuel kernel : ℕ) → (cmd_name args : List ℕ) → Option (Did × System)
unfolding exec type_file remove list_files
dispatch s fuel kernel cmd_name args =
    if is_command cmd_name (codes "echo")
    then some (prints (args ++ codes "\n"), s)
    else if is_command cmd_name (codes "cls") || is_command cmd_name (codes "clear")
    then some (clears, s)
    else if is_command cmd_name (codes "dir")
    then list_files s fuel
    else if is_command cmd_name (codes "edit")
    then exec s fuel kernel (codes "bin/editor.elf") (some args)
    else if is_command cmd_name (codes "lisp")
    then exec s fuel kernel (codes "bin/lisp.elf") (some args)
    else if is_command cmd_name (codes "type")
    then type_file s fuel args
    else if is_command cmd_name (codes "exec")
    then exec s fuel kernel args none
    else if is_command cmd_name (codes "rm")
    then remove s fuel args
    else if is_command cmd_name (codes "poweroff") || is_command cmd_name (codes "exit")
    then some (powers_off, record s { acpi = acpi_poweroff s.acpi })
    else if is_command cmd_name (codes "reboot")
    then some (restarts, s)
    else some (prints (codes "Comando invalido ou nome de arquivo incorreto\n"), s)
