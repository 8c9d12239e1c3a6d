-- ===== src/Core/Memory.antt =====
-- source/kernel/core/memory.c and source/kernel/include/core/memory.h: the allocator of physical
-- pages and the page tables. Memory is the byte memory of Base/Bytes, addressed physically: the
-- kernel reaches its tables and pages through an identity mapping. An operation returns the state
-- that it leaves with its result; in an Option, `none` stands for a failed ASSERT, where panic halts.
-- The calls run without waiting: the mutex of the allocator is taken and given up in between.
pub mod Uvm
pub mod Heap
pub mod Pages
pub mod Reuse
pub mod Tables
pub mod Maps
pub mod Keeps
pub mod Growth
pub mod Faults
pub mod Copies
pub mod Contents
pub mod Widths
pub mod Setup
use Prim.Native.Nat.{bit_and, bit_or}
use start.Base.{
  ℕ, zero, suc, ◌+◌, ◌-◌, ◌*◌, ◌/◌, ◌%◌, ◌^◌, Bool, true, false, Option, none, some, if◌then◌else◌,
  ◌==◌, ltb, leb, word_mod, add32, sub32, Ptr, null, Mem, load32, store32,
}
use start.Tools.Klib.{up2, down2, kernel_memset, kernel_memcpy}
use start.Tools.Bitmap.{Bitmap, bitmap_init, bitmap_set_bit, bitmap_alloc_nbits}
use start.Core.Sched.{Sched}
use start.Ipc.Mutex.{Mutex, mutex_init, mutex_lock, mutex_unlock}
use start.Core.Mmu.{present, pte_p, pte_w, pte_u, pde_u, pde_index, pde_paddr, pte_index, pte_paddr}

abbrev pub mem_ext_start : ℕ
mem_ext_start = 1024 * 1024

abbrev pub mem_page_size : ℕ
mem_page_size = 4096

abbrev pub memory_task_base : ℕ
memory_task_base = 0x80000000

-- `addr_alloc_t`
pub record AddrAlloc : Type 0 where
  pub mutex : Mutex
  pub bitmap : Bitmap
  pub page_size : ℕ
  pub start : ℕ
  pub size : ℕ

-- The fields of `task_t` that memory management uses.
pub record Space : Type 0 where
  pub cr3 : Ptr
  pub heap_end : ℕ

-- The scheduler, the memory, the allocator `paddr_alloc`, what the tasks hold of it, and the
-- register cr3.
pub record Machine : Type 0 where
  pub sched : Sched
  pub mem : Mem
  pub paddr_alloc : AddrAlloc
  pub spaces : Ptr → Space
  pub page_dir_register : ℕ

-- The returned -1.
abbrev pub minus_one : ℕ
minus_one = word_mod - 1

-- `err < 0` on a C int.
abbrev pub is_negative : ℕ → Bool
is_negative err = leb (2 ^ 31) err

abbrev pub with_mem : Machine → Mem → Machine
with_mem s m = record s { mem = m }

-- mutex_lock(&alloc->mutex) and mutex_unlock(&alloc->mutex)
unfoldable pub lock_alloc : Machine → Machine
lock_alloc s =
    let (k, mutex) = mutex_lock s.sched s.paddr_alloc.mutex in
    record s { sched = k; paddr_alloc = record s.paddr_alloc { mutex = mutex } }

unfoldable pub unlock_alloc : Machine → Machine
unlock_alloc s =
    let (k, mutex) = mutex_unlock s.sched s.paddr_alloc.mutex in
    record s { sched = k; paddr_alloc = record s.paddr_alloc { mutex = mutex } }

-- Returns the memory and the allocator.
unfoldable pub addr_alloc_init : Mem → Ptr → ℕ → ℕ → ℕ → Mem × AddrAlloc
addr_alloc_init m bits start size page_size =
    let (m', bitmap) = bitmap_init m bits (size / page_size) 0 in
    (
      m',
      record {
        mutex = mutex_init;
        bitmap = bitmap;
        page_size = page_size;
        start = start;
        size = size;
      },
    )

-- The address of a page, from what the bitmap returns.
abbrev pub page_addr : AddrAlloc → Option ℕ → ℕ
page_addr alloc none = 0
page_addr alloc (some page_index) = add32 alloc.start (page_index * alloc.page_size)

unfoldable pub addr_alloc_page : Machine → ℕ → Machine × ℕ
addr_alloc_page s page_count =
    let locked = lock_alloc s in
    let (m, page_index) = bitmap_alloc_nbits locked.mem locked.paddr_alloc.bitmap 0 page_count in
    (unlock_alloc (with_mem locked m), page_addr s.paddr_alloc page_index)

unfoldable pub addr_free_page : Machine → ℕ → ℕ → Machine
addr_free_page s addr page_count =
    let locked = lock_alloc s in
    let alloc = locked.paddr_alloc in
    let pg_idx = sub32 addr alloc.start / alloc.page_size in
    unlock_alloc (with_mem locked (bitmap_set_bit locked.mem alloc.bitmap pg_idx page_count 0))

-- The branch of `find_pte` where the page table is not there.
unfoldable pub new_table : Machine → Ptr → ℕ → Machine × Ptr
new_table s pde vaddr =
    let (s', pg_paddr) = addr_alloc_page s 1 in
    let m = store32 s'.mem pde (bit_or (bit_or (bit_or pg_paddr pte_p) pte_w) pde_u) in
    if pg_paddr == 0
    then (s', null)
    else (with_mem s' (kernel_memset m pg_paddr 0 mem_page_size), pg_paddr + pte_index vaddr * 4)

-- The address of the entry, or null.
unfoldable pub find_pte : Machine → Ptr → ℕ → ℕ → Machine × Ptr
find_pte s page_dir vaddr alloc =
    let pde = page_dir + pde_index vaddr * 4 in
    if present (load32 s.mem pde)
    then (s, pde_paddr (load32 s.mem pde) + pte_index vaddr * 4)
    else if alloc == 0
    then (s, null)
    else new_table s pde vaddr

-- The loop counts down what is left of `count`.
unfoldable pub memory_create_map : Machine → Ptr → ℕ → ℕ → ℕ → ℕ → Option (Machine × ℕ)
memory_create_map s page_dir vaddr paddr zero perm = some (s, 0)
memory_create_map s page_dir vaddr paddr (suc count) perm =
    let (s', pte) = find_pte s page_dir vaddr 1 in
    let mapped = with_mem s' (store32 s'.mem pte (bit_or (bit_or paddr perm) pte_p)) in
    let rest =
      memory_create_map mapped page_dir (add32 vaddr mem_page_size) (add32 paddr mem_page_size)
        count perm in
    if pte == null then some (s', minus_one) else if present (load32 s'.mem pte) then none else rest

unfoldable pub memory_get_paddr : Machine → Ptr → ℕ → ℕ
memory_get_paddr s page_dir vaddr =
    let pte = (find_pte s page_dir vaddr 0).1 in
    if pte == null
    then 0
    else add32 (pte_paddr (load32 s.mem pte)) (bit_and vaddr (mem_page_size - 1))

-- The loop of `memory_alloc_for_page_dir`, for what is left of `page_count`; `base` is `vaddr`
-- aligned, which the failure path passes to `addr_free_page`.
unfoldable pub alloc_pages : Machine → Ptr → ℕ → ℕ → ℕ → ℕ → ℕ → Option (Machine × ℕ)
alloc_pages s page_dir base curr_vaddr i zero perm = some (s, 0)
alloc_pages s page_dir base curr_vaddr i (suc left) perm =
    let (s', paddr) = addr_alloc_page s 1 in
    if paddr == 0
    then some (s', 0)
    else elim (memory_create_map s' page_dir curr_vaddr paddr 1 perm) [
      | none ↦ none
      | some (s'', err) ↦
          if is_negative err
          then some (addr_free_page s'' base (i + 1), minus_one)
          else alloc_pages s'' page_dir base (add32 curr_vaddr mem_page_size) (i + 1) left perm
    ]

unfoldable pub memory_alloc_for_page_dir : Machine → Ptr → ℕ → ℕ → ℕ → Option (Machine × ℕ)
memory_alloc_for_page_dir s page_dir vaddr size perm =
    let page_count = up2 size mem_page_size / mem_page_size in
    alloc_pages s page_dir (down2 vaddr mem_page_size) vaddr 0 page_count perm

-- `task_current()->tss.cr3`
abbrev pub current_page_dir : Machine → Ptr
current_page_dir s = (s.spaces s.sched.curr_task).cr3

unfoldable pub memory_alloc_page_for : Machine → ℕ → ℕ → ℕ → Option (Machine × ℕ)
memory_alloc_page_for s addr size perm =
    memory_alloc_for_page_dir s (current_page_dir s) addr size perm

unfoldable pub memory_alloc_page : Machine → Machine × ℕ
unfolding addr_alloc_page
memory_alloc_page s = addr_alloc_page s 1

-- The condition of the ASSERT is the code's: a null `pte` whose entry is present.
unfoldable pub memory_free_page : Machine → ℕ → Option Machine
memory_free_page s addr =
    let (s', pte) = find_pte s (current_page_dir s) addr 0 in
    let freed = addr_free_page s' (pte_paddr (load32 s'.mem pte)) 1 in
    if ltb addr memory_task_base
    then some (addr_free_page s addr 1)
    else if pte == null
    then if present (load32 s'.mem pte)
      then some (with_mem freed (store32 freed.mem pte 0))
      else none
    else none
