-- ===== src/Heap/Tests.antt =====
-- A small block on a page in use, with no free page.
use lisp_dos.Base.{◌≡◌, refl, some, arith}
use lisp_dos.Pmm.{bitmap_test, test_bit}
use lisp_dos.Pmm.Inv.{count_free}
use lisp_dos.Heap.{Heap, kmalloc}
use lisp_dos.Heap.Blocks.{IsHeap, Allocated, kmalloc_lem}

abbrev heap : Heap
heap = record {
  pmm = record { bitmap = λ i. 0xFF; free_memory = 0; highest_page = 16; last_allocated_index = 0 };
  bytes = λ a. 0;
  current_page = some 0x3000;
  current_page_offset = 0x20;
}

heap-IsHeap : IsHeap heap
unfolding count_free bitmap_test test_bit
heap-IsHeap = record {
  valid_pmm = record {
    bytes = λ i. omega arith;
    last_in = omega arith;
    small = omega arith;
    accounted = refl;
  };
  page_aligned = λ page e. let same : page ≡ 0x3000 = cc in omega arith;
  offset_le = omega arith;
  offset_aligned = refl;
}

kmalloc_lem_example : Allocated heap 13 (kmalloc heap 13)
kmalloc_lem_example = kmalloc_lem heap 13 heap-IsHeap (omega arith) (omega arith)
