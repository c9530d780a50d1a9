-- ===== src/Process/Tests.antt =====
-- The loader on a small archive, and its lemmas at concrete pages.
use lisp_dos.Base.{
  ℕ, ◌+◌, ◌-◌, ◌/◌, ◌%◌, ◌≤◌, ◌<◌, ◌≡◌, refl, ◌⊎◌, inr, true, ◌&&◌, none, some, List, arith, ltb,
  leb, ◌==◌, if◌then◌else◌, Memory, u32, codes,
}
use lisp_dos.Pmm.{Pmm, alloc_pages, alloc_page, alloc_loop, bitmap_test, test_bit, take_page}
use lisp_dos.Pmm.Inv.{IsValid, count_free}
use lisp_dos.Ata.{Disk}
use lisp_dos.Fat16.Volume.{Volume}
use lisp_dos.Fat16.Directory.{get_file_size, find_entry}
use lisp_dos.TarFs.{
  Ramdisk, tarfs_get_file_size, tarfs_read_file, find, octal_to_int, octal_loop, same_name,
  next_header, header_size, copy_data,
}
use lisp_dos.Strings.Laws.{IsString}
use lisp_dos.Process.Elf.{Phdr, not_elf}
use lisp_dos.Process.Segments.{Loader, from, onto, fill_page}
use lisp_dos.Process.Exec.{returned, choose_file, read_image, process_exec, push_args, stack_page}
use lisp_dos.Process.Pages.{file_byte, fill_page_lem}
use lisp_dos.Process.Stack.{AreChars, push_args_lem}
use lisp_dos.Process.Rejects.{SamePages, Fails, process_exec-rejects}

-- Sixteen pages, of which 0 and 2 are in use.
abbrev pages : Pmm
pages = record {
  bitmap = λ i. if i == 0 then 5 else if i == 1 then 0 else 0xFF;
  free_memory = 57344;
  highest_page = 16;
  last_allocated_index = 3;
}

-- The bits of the two bytes as they stand, for the proof of the invariant.
pages-IsValid : IsValid pages
unfolding count_free bitmap_test test_bit
pages-IsValid = record {
  bytes = λ i. ground arith;
  last_in = omega arith;
  small = omega arith;
  accounted = refl;
}

-- An archive of one file, `b`, of three bytes.
abbrev archive : Memory
archive i =
    if i == 0
    then b'b'
    else if leb 124 i && ltb i 134
    then b'0'
    else if i == 134
    then b'3'
    else if i == 512
    then 7
    else 0

abbrev ramdisk : Ramdisk
ramdisk = record { base = archive; size = 1024 }

abbrev no_disk : Disk
no_disk sector i = 0

abbrev no_files : Volume
no_files = record {
  bpb = record {
    bytes_per_sector = 512;
    sectors_per_cluster = 1;
    reserved_sector_count = 1;
    table_count = 2;
    root_entry_count = 0;
    total_sectors_16 = 12;
    table_size_16 = 1;
    total_sectors_32 = 0;
  };
  root_dir_sector = 3;
  root_dir_size = 0;
  data_sector = 3;
}

abbrev loader : Loader
loader = record { vm = record { pmm = pages; words = λ i. 0 }; ram = λ i. 0 }

abbrev b : List ℕ
b = codes "b"

chosen : choose_file no_files no_disk ramdisk 9 b ≡ some (true, 3)
unfolding choose_file get_file_size find_entry tarfs_get_file_size find octal_to_int octal_loop
    same_name next_header header_size
chosen = refl

abbrev loaded : Memory
loaded = onto (λ i. 0) 0x3000 (copy_data archive (λ i. 0) 512 0 3)

read : read_image no_files no_disk ramdisk 9 b true 0x3000 (λ i. 0) ≡ some (3, loaded)
unfolding read_image tarfs_read_file find octal_to_int octal_loop same_name next_header header_size
read = refl

phys : (alloc_pages pages (u32 (3 + 4095) / 4096)).0 ≡ 0x3000
unfolding alloc_pages alloc_page alloc_loop bitmap_test test_bit take_page
phys = refl

why : Fails (from loaded 0x3000) 3 not_elf
unfolding copy_data
why (first, second, third, fourth) = omega arith

process_exec-rejects_example :
    (l' : Loader) × (process_exec no_files no_disk ramdisk 9 b 0 none loader ≡ returned not_elf l')
    × SamePages pages l'.vm.pmm
    × (l'.vm.words ≡ loader.vm.words)
process_exec-rejects_example =
    process_exec-rejects no_files no_disk ramdisk 9 0 b none loader true 3 3 loaded not_elf chosen
      pages-IsValid (omega arith) (omega arith) (rw phys (omega arith)) (rw phys read)
      (rw phys (inr (refl, why)))

push_args_lem_example :
    let (user_stack, ram') = push_args (λ i. 9) 0x5000 (some b) in
    (stack_page ≤ user_stack)
    × (user_stack < stack_page + 4096)
    × IsString ram' (0x5000 + (user_stack - stack_page)) b
    × ((i : ℕ) → (i < 0x5000) ⊎ (0x5000 + 4096 ≤ i) → ram' i ≡ 9)
push_args_lem_example =
    push_args_lem (λ i. 9) 0x5000 b (unfold AreChars in omega arith) (omega arith) (omega arith)

-- A segment that starts inside a page and ends in the next.
abbrev segment : Phdr
segment = record {
  p_type = 1;
  p_offset = 64;
  p_vaddr = 0x400F00;
  p_filesz = 0x200;
  p_memsz = 0x300;
}

fill_page_lem_example : fill_page (λ i. i % 256) segment 0x10000 0x7000 0x401000 0x7010 ≡ (
    if leb 0x7000 0x7010 && ltb 0x7010 (0x7000 + 4096)
    then file_byte (λ i. i % 256) segment 0x10000 (0x401000 + (0x7010 - 0x7000))
    else 0x7010 % 256)
fill_page_lem_example =
    fill_page_lem (λ i. i % 256) segment 0x10000 0x7000 0x401000 0x7010
      (record {
        no_wrap = omega arith;
        page = omega arith;
        page_small = omega arith;
        of_segment = omega arith;
        in_memory = omega arith;
        apart = inr (omega arith);
      })
