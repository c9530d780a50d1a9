-- ===== src/Shell/Tests.antt =====
-- The line "rm a", typed with a mistake.
use lisp_dos.Base.{
  ℕ, ◌<◌, ◌≡◌, refl, ◌≢◌, some, List, [], ◌∷◌, ◌++◌, arith, ◌==◌, if◌then◌else◌, codes,
}
use lisp_dos.Shell.{Command, read_line}
use lisp_dos.Fat16.Volume.{Volume}
use lisp_dos.Shell.Commands.{System, prints, strcmp, is_command, remove, dispatch}
use lisp_dos.Shell.Changes.{Changes}
use lisp_dos.Shell.Edits.{IsReversed, Holds, typed, Read, read_line_lem}

abbrev start : Command
start = record { command = λ i. 7; cmd_len = 0 }

start-Holds : Holds start []
unfolding IsReversed
start-Holds = record { chars = refl; same_len = refl; fits = omega arith }

abbrev keys : List ℕ
keys = 114 ∷ 120 ∷ 8 ∷ 109 ∷ 32 ∷ 97 ∷ 10 ∷ []

spells : typed [] keys ≡ some (97 ∷ 32 ∷ 109 ∷ 114 ∷ [])
unfolding typed
spells = refl

read_line_lem_example : Read (typed [] keys) (read_line start keys)
read_line_lem_example = read_line_lem start [] keys start-Holds

abbrev rm_a : Command
rm_a = record {
  command = λ i. if i == 0 then 114 else if i == 1 then 109 else if i == 2 then 32 else 97;
  cmd_len = 4;
}

no_space : (j : ℕ) → j < 2 → rm_a.command j ≢ 32
no_space j h = λ e. ground arith

abbrev no_files : Volume
no_files = record {
  bpb = record {
    bytes_per_sector = 512;
    sectors_per_cluster = 1;
    reserved_sector_count = 1;
    table_count = 2;
    root_entry_count = 0;
    total_sectors_16 = 12;
    table_size_16 = 1;
    total_sectors_32 = 0;
  };
  root_dir_sector = 3;
  root_dir_size = 0;
  data_sector = 3;
}

abbrev system : System
system = record {
  volume = no_files;
  disk = λ sector i. 0;
  ramdisk = record { base = λ i. 0; size = 1024 };
  loader = record {
    vm = record {
      pmm = record {
        bitmap = λ i. 0;
        free_memory = 65536;
        highest_page = 16;
        last_allocated_index = 0;
      };
      words = λ i. 0;
    };
    ram = λ i. 0;
  };
  acpi = record { pm1a_cnt_blk = 0; slp_typa = 0; writes = [] };
}

echoes :
    dispatch system 9 0 (codes "echo") (codes "a") ≡ some (prints (codes "a" ++ codes "\n"), system)
unfolding dispatch is_command strcmp
echoes = refl

removes_nothing :
    dispatch system 9 0 (codes "rm") [] ≡ some (prints (codes "Sintaxe: rm <arquivo>\n"), system)
unfolding dispatch remove is_command strcmp
removes_nothing = refl
