-- ===== src/Process/Exec.antt =====
-- `process_exec` of src/kernel/process.c: the file, the tests, the segments and the jump.
use lisp_dos.Base.{
  ℕ, zero, suc, ◌+◌, ◌/◌, ◌^◌, Bool, true, false, ◌||◌, Option, none, some, List, [], ◌∷◌, leb,
  ◌==◌, if◌then◌else◌, Memory, update, u32, add64, sub64, mul64, length,
}
use lisp_dos.Ata.{Disk}
use lisp_dos.Fat16.Volume.{Volume}
use lisp_dos.Fat16.Directory.{get_file_size}
use lisp_dos.Fat16.Read.{read_file}
use lisp_dos.TarFs.{Ramdisk, tarfs_get_file_size, tarfs_read_file}
use lisp_dos.Pmm.{Pmm, alloc_page, alloc_pages, free_page}
use lisp_dos.Vmm.{vmm_map_page}
use lisp_dos.Vmm.Space.{vmm_new_pagemap, vmm_free_pagemap}
use lisp_dos.Process.Elf.{
  e_entry, e_phoff, e_phnum, Refusal, not_found, no_memory, not_read, no_pagemap, no_stack, refusal,
}
use lisp_dos.Process.Segments.{
  Loader, set_pmm, from, onto, user_page, goes_on, refused, load_segments,
}

-- `for (i = 0; i < file_pages; i++) pmm_free_page(phys_buf + i * 4096)`, with the rounds left
unfoldable pub free_pages : Pmm → (phys_buf left i : ℕ) → Pmm
free_pages p phys_buf zero i = p
free_pages p phys_buf (suc left) i =
    free_pages (free_page p (add64 phys_buf (mul64 i 4096))) phys_buf left (i + 1)

-- A return without a program, or the jump to ring 3; `no_fuel` is the end of the fuel of the file
-- systems' loops.
pub data Exec : Type 0 where
  returned : Refusal → Loader → Exec
  entered : (map entry user_stack : ℕ) → Loader → Exec
  no_fuel : Exec

abbrev pub stack_page : ℕ
stack_page = 0x7000_0000_0000

abbrev pub stack_top : ℕ
stack_top = 0x7000_0000_1000

-- `for (i = 0; i < arg_len; i++) stack_kern_ptr[i] = args[i]`, with the 0 at the end
unfoldable pub copy_args : Memory → (at : ℕ) → List ℕ → Memory
copy_args ram at [] = update ram at 0
copy_args ram at (c ∷ args) = copy_args (update ram at c) (at + 1) args

-- The characters of `args` to the top of the stack's page, and the user's stack pointer; without
-- `args` it is the end of the page.
unfoldable pub push_args : Memory → (stack_phys : ℕ) → Option (List ℕ) → ℕ × Memory
unfolding copy_args
push_args ram stack_phys none = (stack_top, ram)
push_args ram stack_phys (some args) =
    let arg_len = length args + 1 in
    (sub64 stack_top arg_len, copy_args ram (sub64 (add64 stack_phys 4096) arg_len) args)

-- The end of `process_exec` once the segments are loaded. The header is read after the file's pages
-- are given back, which leaves their bytes.
unfoldable pub enter : (phys_buf file_pages map : ℕ) → Option (List ℕ) → Loader → Exec
unfolding free_pages push_args
enter phys_buf file_pages map args l =
    let (stack_phys, p) = alloc_page l.vm.pmm in
    let vm = vmm_map_page (record (l.vm) { pmm = p }) map stack_page stack_phys user_page in
    let (user_stack, ram) = push_args l.ram stack_phys args in
    let given_back = free_pages p phys_buf file_pages 0 in
    let left : Loader = record {
      vm = vmm_free_pagemap (record (l.vm) { pmm = given_back }) (some map);
      ram = l.ram;
    } in
    if stack_phys == 0
    then returned no_stack left
    else entered map (e_entry (from ram phys_buf)) user_stack
        (record { vm = record vm { pmm = free_pages vm.pmm phys_buf file_pages 0 }; ram = ram })

-- The file's pages given back.
unfoldable pub give_back : (phys_buf file_pages : ℕ) → Loader → Loader
unfolding free_pages
give_back phys_buf file_pages l = set_pmm l (free_pages l.vm.pmm phys_buf file_pages 0)

-- From the new address space on.
unfoldable pub load_image : (phys_buf file_pages kernel : ℕ) → Option (List ℕ) → Loader → Exec
unfolding give_back load_segments enter
load_image phys_buf file_pages kernel args l =
    let (made, vm) = vmm_new_pagemap l.vm kernel in
    let file = from l.ram phys_buf in
    elim made [
      | none ↦ returned no_pagemap (give_back phys_buf file_pages (record l { vm = vm }))
      | some map ↦
          elim (load_segments phys_buf (phys_buf + e_phoff file) map (e_phnum file) 0
            (record l { vm = vm })) [
              | goes_on l' ↦ enter phys_buf file_pages map args l'
              | refused r l' ↦
                  let given = give_back phys_buf file_pages l' in
                  returned r (record given { vm = vmm_free_pagemap given.vm (some map) })
            ]
    ]

-- From the answer of the read on; it is an `int`.
unfoldable pub check_image :
    (phys_buf file_pages file_size kernel : ℕ) → Option (List ℕ) → (bytes_read : ℕ) → Loader → Exec
unfolding give_back refusal load_image
check_image phys_buf file_pages file_size kernel args bytes_read l =
    if bytes_read == 0 || leb (2 ^ 31) bytes_read
    then returned not_read (give_back phys_buf file_pages l)
    else elim (refusal (from l.ram phys_buf) file_size) [
      | some r ↦ returned r (give_back phys_buf file_pages l)
      | none ↦ load_image phys_buf file_pages kernel args l
    ]

-- `fuel` is that of the file systems' loops; `kernel`, below, is the physical address of the kernel's
-- top table.
module _ (v : Volume) (d : Disk) (r : Ramdisk) (fuel : ℕ) (filename : List ℕ) where
  -- Whether the archive is used, and the size of the file.
  unfoldable pub choose_file : Option (Bool × ℕ)
  choose_file =
      let size = get_file_size v d filename in
      if size == 0
      then elim (tarfs_get_file_size fuel r filename) [ none ↦ none | some n ↦ some (true, u32 n) ]
      else some (false, size)

  -- The file to the pages at `phys_buf`.
  unfoldable pub read_image : (use_tarfs : Bool) → (phys_buf : ℕ) → Memory → Option (ℕ × Memory)
  read_image use_tarfs phys_buf ram =
      let read =
        if use_tarfs
        then tarfs_read_file fuel r filename (from ram phys_buf)
        else read_file v d fuel filename (from ram phys_buf) in
      elim read [ none ↦ none | some (n, buffer) ↦ some (n, onto ram phys_buf buffer) ]

  unfoldable pub load_file :
      (kernel : ℕ) → (use_tarfs : Bool) → (file_size : ℕ) → Option (List ℕ) → Loader → Exec
  unfolding read_image check_image
  load_file kernel use_tarfs file_size args l =
      let file_pages = u32 (file_size + 4095) / 4096 in
      let (phys_buf, p) = alloc_pages l.vm.pmm file_pages in
      let read = read_image use_tarfs phys_buf l.ram in
      let checked : Exec = elim read [
        | none ↦ no_fuel
        | some (bytes_read, ram) ↦
            check_image phys_buf file_pages file_size kernel args bytes_read
              (record (set_pmm l p) { ram = ram })
      ] in
      if phys_buf == 0 then returned no_memory (set_pmm l p) else checked

  unfoldable pub process_exec : (kernel : ℕ) → Option (List ℕ) → Loader → Exec
  unfolding choose_file load_file
  process_exec kernel args l = elim choose_file [
    | none ↦ no_fuel
    | some (use_tarfs, file_size) ↦
        if file_size == 0 then returned not_found l else load_file kernel use_tarfs file_size args l
  ]
