-- ===== src/Syscall/Tests.antt =====
-- System calls of a process without a page of its own, on an empty disk.
use lisp_dos.Base.{ℕ, ◌+◌, ◌^◌, ◌<◌, ◌≡◌, refl, false, List, [], arith}
use lisp_dos.Vga.{Framebuffer}
use lisp_dos.Vmm.UserString.{UserString}
use lisp_dos.Fat16.Volume.{Volume, mounted}
use lisp_dos.Syscall.{Kernel, returns, failed, syscall_handler_c}
use lisp_dos.Vmm.{user_limit}
use lisp_dos.Vmm.Walk.{UpperWritable}
use lisp_dos.Syscall.Checks.{takes_string, string_arg, OnlyWritable, rejects_lem, handler_lem}

abbrev screen : Framebuffer
screen = record { width = 640; height = 480; pitch = 2560 }

abbrev dots : ℕ → ℕ → ℕ
dots c y = 0

abbrev silent : ℕ → ℕ → List ℕ
silent a size = []

abbrev empty : Volume
empty = mounted (record {
  bytes_per_sector = 512;
  sectors_per_cluster = 1;
  reserved_sector_count = 1;
  table_count = 2;
  root_entry_count = 16;
  total_sectors_16 = 12;
  table_size_16 = 1;
  total_sectors_32 = 0;
})

abbrev kernel : Kernel
kernel = record {
  terminal = record { row = 0; column = 0; fg_color = 0; bg_color = 0; pixels = λ i. 0 };
  keyboard = record { buffer = λ i. 0; head = 0; tail = 0; shift = false; e0 = false };
  volume = empty;
  disk = λ lba o. 0;
  user = λ a. 65;
  words = λ a. 0;
  cr3 = 0x1000;
  pmm = record { bitmap = λ i. 0; free_memory = 0; highest_page = 0; last_allocated_index = 0 };
}

no_string : ¬ UserString kernel.words kernel.user kernel.cr3 0xFFFF_8000_0000_0000
no_string s = omega (arith, s.in_user_space)

zero_bytes : (lba o : ℕ) → kernel.disk lba o < 256
zero_bytes lba o = omega arith

rejects_lem_example :
    syscall_handler_c screen dots silent kernel (2 ^ 35 + 1) 1 0 0xFFFF_8000_0000_0000 0
    ≡ returns failed kernel
unfolding takes_string string_arg
rejects_lem_example =
    rejects_lem screen dots silent kernel (2 ^ 35 + 1) 1 0 0xFFFF_8000_0000_0000 0 refl
      (omega arith) no_string

entered : (addr : ℕ) → addr < user_limit → UpperWritable kernel.words kernel.cr3 addr
entered addr lt = record {
  upper4 = λ p. absurd (omega arith);
  upper3 = λ p. absurd (omega arith);
  upper2 = λ p. absurd (omega arith);
}

handler_lem_example :
    OnlyWritable kernel 0x400000
      (syscall_handler_c screen dots silent kernel (2 ^ 35 + 1) 8 0x400100 0x400000 0)
handler_lem_example =
    handler_lem screen dots silent kernel (2 ^ 35 + 1) 8 0x400100 0x400000 0 (omega arith) entered
      zero_bytes
