-- ===== src/Tests/Memory.antt =====
-- The theorems on source/kernel/core/memory.c at a machine of eight pages.
use start.Base.{
  ◌%◌, ◌<◌, ◌≡◌, refl, ◌≢◌, ◌⊎◌, inl, arith, some, Ptr, Mem, load32, store32, add32, bit_at-full,
}
use start.Tools.LinkedList.{list_count}
use start.Tools.Bitmap.{bitmap_get_bit, bitmap_alloc_nbits, search_from, match_run, bitmap_set_bit}
use start.Core.Memory.{
  AddrAlloc, Machine, addr_alloc_page, addr_free_page, memory_create_map, memory_get_paddr,
}
use start.Core.Memory.Uvm.{memory_copy_uvm_data}
use start.Core.Memory.Heap.{set_heap_end, sys_sbrk}
use start.Core.Memory.Pages.{Ready, bit_of, TakesPage, alloc_page_lem, alloc_page-TakesPage}
use start.Core.Memory.Reuse.{free_page-alloc_page}
use start.Core.Memory.Tables.{map-get_paddr}
use start.Core.Memory.Maps.{Fails, Maps, map_new-Maps}
use start.Core.Memory.Faults.{Full, sbrk_full}
use start.Core.Memory.Copies.{Ends, copy_uvm_data-Ends}
use start.Tests.Data.{sleeping}

abbrev pages_alloc : AddrAlloc
pages_alloc = record {
  mutex = record {
    owner = 0;
    locked_count = 0;
    wait_list = record { first = 0; last = 0; count = 0 };
  };
  bitmap = record { bit_count = 8; bits = 0x100 };
  page_size = 4096;
  start = 0x100000;
  size = 0x8000;
}

abbrev pub with_memory : Mem → Machine
with_memory m = record {
  sched = sleeping;
  mem = m;
  paddr_alloc = pages_alloc;
  spaces = λ a. record { cr3 = 0x2000; heap_end = 0x80001ff0 };
  page_dir_register = 0x2000;
}

abbrev fresh_machine : Machine
fresh_machine = with_memory λ a. 0

machine-Ready : (m : Mem) → ((a : Ptr) → m a < 256) → Ready (with_memory m)
unfolding list_count
machine-Ready m h = record {
  idle = (refl, refl, refl);
  bytes = h;
  pages = refl;
  aligned = refl;
  start_positive = omega arith;
  fits = omega arith;
}

fresh_machine-Ready : Ready fresh_machine
fresh_machine-Ready = machine-Ready (λ a. 0) λ a. omega arith

first_page : (addr_alloc_page fresh_machine 1).1 ≡ 0x100000
unfolding bitmap_alloc_nbits search_from match_run bitmap_set_bit bitmap_get_bit
first_page = rw (alloc_page_lem fresh_machine fresh_machine-Ready.idle 1) refl

first_page_there : (addr_alloc_page fresh_machine 1).1 ≢ 0
first_page_there = ground (arith, first_page)

alloc_page-TakesPage_example : TakesPage fresh_machine (addr_alloc_page fresh_machine 1)
alloc_page-TakesPage_example = alloc_page-TakesPage fresh_machine fresh_machine-Ready

free_page-alloc_page_example :
    let (s', addr) = addr_alloc_page fresh_machine 1 in
    bit_of (addr_free_page s' addr 1) 3 ≡ bit_of fresh_machine 3
free_page-alloc_page_example =
    free_page-alloc_page fresh_machine fresh_machine-Ready 3 first_page_there

-- The directory at 0x2000 has a table at 0x3000 for 0x80000000.
abbrev table_machine : Machine
table_machine = with_memory (store32 (λ a. 0) 0x2800 0x3007)

map-get_paddr_example :
    (s' : Machine) × (memory_create_map table_machine 0x2000 0x80001000 0x5000 1 7 ≡ some (s', 0))
    × (memory_get_paddr s' 0x2000 0x80001000 ≡ 0x5000)
unfolding load32 store32
map-get_paddr_example =
    map-get_paddr 0x2000 0x80001000 0x5000 7 refl (omega arith) (omega arith) table_machine refl
      (λ e. omega (arith, e)) refl (inl (omega arith))

map_new-Maps_example :
    (((addr_alloc_page fresh_machine 1).1 ≡ 0) × Fails 0x2000 0x80001000 0x5000 7 fresh_machine)
    ⊎ (((addr_alloc_page fresh_machine 1).1 ≢ 0) × Maps 0x2000 0x80001000 0x5000 7 fresh_machine)
unfolding load32
map_new-Maps_example =
    map_new-Maps 0x2000 0x80001000 0x5000 7 fresh_machine fresh_machine-Ready refl refl
      (omega arith) (omega arith) λ i h e. inl (omega arith)

abbrev full_machine : Machine
full_machine = with_memory λ a. 0xff

full_machine-Ready : Ready full_machine
full_machine-Ready = machine-Ready (λ a. 0xff) λ a. omega arith

full_machine-Full : Full full_machine
unfolding bitmap_get_bit
full_machine-Full i h e = ground (arith, bit_at-full (i % 8) (omega arith))

sbrk_full_example :
    sys_sbrk full_machine 0x20
    ≡ some (set_heap_end full_machine (add32 0x80001ff0 0x20), 0x80001ff0)
sbrk_full_example =
    sbrk_full full_machine full_machine-Ready full_machine-Full 0x20 (omega arith) (omega arith)

copy_uvm_data-Ends_example :
    Ends (memory_copy_uvm_data (λ m dir p. p) table_machine 0x80001000 0x2000 0x9000 16)
copy_uvm_data-Ends_example =
    copy_uvm_data-Ends (λ m dir p. p) table_machine 0x80001000 0x2000 0x9000 16
