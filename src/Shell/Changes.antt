-- ===== src/Shell/Changes.antt =====
-- Which commands of src/kernel/main.c can change what.
use lisp_dos.Base.{ℕ, ◌≡◌, Bool, false, ◌||◌, Option, none, some, List, codes}
use lisp_dos.Process.Exec.{Exec}
use lisp_dos.Shell.Commands.{System, Did, is_command}

-- The commands that start a program, and those that turn the machine off.
abbrev pub starts_program : List ℕ → Bool
starts_program cmd_name =
    is_command cmd_name (codes "edit")
    || is_command cmd_name (codes "lisp")
    || is_command cmd_name (codes "exec")

abbrev pub turns_off : List ℕ → Bool
turns_off cmd_name = is_command cmd_name (codes "poweroff") || is_command cmd_name (codes "exit")

-- The volume and the archive stay as they are, and so does each other part but for its commands.
abbrev pub Changes : System → (rm program off : Bool) → Option (Did × System) → Type 0
Changes s rm program off none = Unit
Changes s rm program off (some (did, s')) =
    (s'.volume ≡ s.volume)
    × (s'.ramdisk ≡ s.ramdisk)
    × (rm ≡ false → s'.disk ≡ s.disk)
    × (program ≡ false → s'.loader ≡ s.loader)
    × (off ≡ false → s'.acpi ≡ s.acpi)
