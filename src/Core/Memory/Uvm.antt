-- ===== src/Core/Memory/Uvm.antt =====
-- The address spaces of tasks in source/kernel/core/memory.c: making, copying and freeing one, copying
-- data into one, and sys_sbrk. `translate` is the paging unit: the physical address for a virtual one
-- under a memory and a page directory.
use start.Base.{
  ℕ, zero, suc, ◌+◌, ◌-◌, ◌*◌, ◌^◌, ◌||◌, Option, none, some, if◌then◌else◌, ◌==◌, ltb, add32, Ptr,
  null, Mem, poke, load32, store32,
}
use Prim.Native.Nat.{bit_and, bit_or}
use start.Tools.Klib.{kernel_memset}
use start.Core.Mmu.{present, pde_cnt, pte_cnt, pde_index, pde_paddr, pte_paddr, get_pte_perm}
use start.Core.Memory.{
  Machine, minus_one, is_negative, with_mem, mem_page_size, memory_task_base, addr_alloc_page,
  addr_free_page, memory_create_map, memory_get_paddr, current_page_dir,
}

-- The loop that copies page-directory entries, for `left` of them from index `i` on.
unfoldable pub copy_entries : Mem → Ptr → Ptr → ℕ → ℕ → Mem
copy_entries m page_dir kernel_page_dir i zero = m
copy_entries m page_dir kernel_page_dir i (suc left) =
    copy_entries (store32 m (page_dir + i * 4) (load32 m (kernel_page_dir + i * 4))) page_dir
      kernel_page_dir (i + 1) left

unfoldable pub memory_create_uvm : Ptr → Machine → Machine × Ptr
unfolding addr_alloc_page copy_entries
memory_create_uvm kernel_page_dir s =
    let (s', page_dir) = addr_alloc_page s 1 in
    let m = kernel_memset s'.mem page_dir 0 mem_page_size in
    if page_dir == 0 then (s', 0) else (
      with_mem s' (copy_entries m page_dir kernel_page_dir 0 (pde_index memory_task_base)),
      page_dir,
    )

-- The inner loop of `memory_destroy_uvm`, over the entries of one page table.
unfoldable pub free_pages : Machine → Ptr → ℕ → Machine
unfolding addr_free_page
free_pages s pte zero = s
free_pages s pte (suc left) =
    let entry = load32 s.mem pte in
    free_pages (if present entry then addr_free_page s (pte_paddr entry) 1 else s) (pte + 4) left

-- Its outer loop, over the entries of the directory.
unfoldable pub free_tables : Machine → Ptr → ℕ → Machine
unfolding free_pages
free_tables s pde zero = s
free_tables s pde (suc left) =
    let freed = free_pages s (pde_paddr (load32 s.mem pde)) pte_cnt in
    let entry = load32 freed.mem pde in
    free_tables (if present (load32 s.mem pde) then addr_free_page freed (pde_paddr entry) 1 else s)
      (pde + 4) left

unfoldable pub memory_destroy_uvm : Machine → Ptr → Option Machine
unfolding free_tables
memory_destroy_uvm s page_dir =
    let user_pde_start = pde_index memory_task_base in
    let freed = free_tables s (page_dir + user_pde_start * 4) (pde_cnt - user_pde_start) in
    if page_dir == 0 then none else some (addr_free_page freed page_dir 1)

-- `kernel_memcpy` from the current address space to memory that is mapped to itself, and its loop.
unfoldable pub user_loop : (Mem → Ptr → Ptr → Ptr) → Ptr → Mem → Ptr → Ptr → ℕ → Mem
user_loop translate cr3 m d src zero = m
user_loop translate cr3 m d src (suc n) =
    user_loop translate cr3 (poke m d (m (translate m cr3 src))) (d + 1) (src + 1) n

unfoldable pub copy_from_user : (Mem → Ptr → Ptr → Ptr) → Ptr → Mem → Ptr → Ptr → ℕ → Mem
unfolding user_loop
copy_from_user translate cr3 m dest src size =
    if dest == null || src == null || size == 0 then m else user_loop translate cr3 m dest src size

-- How a loop of `memory_copy_uvm` ends: it goes on, or it jumps to copy_uvm_failed.
pub data Copied : Type 0 where
  going : Machine → Copied
  failed : Machine → Copied
  panicked : Copied

-- The body of its inner loop, for an entry that is present.
unfoldable pub copy_page : (Mem → Ptr → Ptr → Ptr) → Machine → Ptr → ℕ → ℕ → Copied
unfolding addr_alloc_page memory_create_map copy_from_user
copy_page translate s to_page_dir vaddr entry =
    let (s', page) = addr_alloc_page s 1 in
    if page == 0
    then failed s'
    else elim (memory_create_map s' to_page_dir vaddr page 1 (get_pte_perm entry)) [
      | none ↦ panicked
      | some (s'', err) ↦
          if is_negative err
          then failed s''
          else going (
              with_mem s''
                (copy_from_user translate (current_page_dir s'') s''.mem page vaddr mem_page_size))
    ]

-- The inner loop: `pte` points at entry `j` of the table for directory entry `i`.
unfoldable pub copy_table : (Mem → Ptr → Ptr → Ptr) → Machine → Ptr → Ptr → ℕ → ℕ → ℕ → Copied
unfolding copy_page
copy_table translate s to_page_dir pte i j zero = going s
copy_table translate s to_page_dir pte i j (suc left) =
    let entry = load32 s.mem pte in
    let vaddr = bit_or (i * 2 ^ 22) (j * 2 ^ 12) in
    elim (if present entry then copy_page translate s to_page_dir vaddr entry else going s) [
      | going s' ↦ copy_table translate s' to_page_dir (pte + 4) i (j + 1) left
      | failed s' ↦ failed s'
      | panicked ↦ panicked
    ]

-- The outer loop: `pde` points at directory entry `i`.
unfoldable pub copy_tables : (Mem → Ptr → Ptr → Ptr) → Machine → Ptr → Ptr → ℕ → ℕ → Copied
unfolding copy_table
copy_tables translate s to_page_dir pde i zero = going s
copy_tables translate s to_page_dir pde i (suc left) =
    let entry = load32 s.mem pde in
    let table = pde_paddr entry in
    elim (if present entry then copy_table translate s to_page_dir table i 0 pte_cnt else going s) [
      | going s' ↦ copy_tables translate s' to_page_dir (pde + 4) (i + 1) left
      | failed s' ↦ failed s'
      | panicked ↦ panicked
    ]

-- copy_uvm_failed: frees the copy and returns -1.
copy_failed : Machine → Ptr → Option (Machine × ℕ)
copy_failed s to_page_dir = elim (memory_destroy_uvm s to_page_dir) [
  | none ↦ none
  | some s' ↦ some (s', minus_one)
]

unfoldable pub memory_copy_uvm :
    (Mem → Ptr → Ptr → Ptr) → Ptr → Machine → Ptr → Option (Machine × ℕ)
unfolding memory_create_uvm copy_tables copy_failed
memory_copy_uvm translate kernel_page_dir s page_dir =
    let (s', to_page_dir) = memory_create_uvm kernel_page_dir s in
    let i = pde_index memory_task_base in
    if to_page_dir == 0
    then some (s', minus_one)
    else elim (copy_tables translate s' to_page_dir (page_dir + i * 4) i (pde_cnt - i)) [
      | going s'' ↦ some (s'', to_page_dir)
      | failed s'' ↦ copy_failed s'' to_page_dir
      | panicked ↦ none
    ]

-- What a step of `memory_copy_uvm_data` copies: no more than fits into the page of the destination.
unfoldable pub page_part : ℕ → ℕ → ℕ
page_part to_paddr size =
    let room = mem_page_size - bit_and to_paddr (mem_page_size - 1) in
    if ltb size room then size else room

-- Its loop, on fuel; every step copies at least one byte.
unfoldable pub copy_data :
    (Mem → Ptr → Ptr → Ptr) → ℕ → Machine → ℕ → Ptr → ℕ → ℕ → Option (Machine × ℕ)
copy_data translate zero s to page_dir from size = none
copy_data translate (suc fuel) s to page_dir from size =
    let to_paddr = memory_get_paddr s page_dir to in
    let curr_size = page_part to_paddr size in
    let m = copy_from_user translate (current_page_dir s) s.mem to_paddr from curr_size in
    let rest =
      copy_data translate fuel (with_mem s m) (add32 to curr_size) page_dir (add32 from curr_size)
        (size - curr_size) in
    if size == 0 then some (s, 0) else if to_paddr == 0 then some (s, minus_one) else rest

unfoldable pub memory_copy_uvm_data :
    (Mem → Ptr → Ptr → Ptr) → Machine → ℕ → Ptr → ℕ → ℕ → Option (Machine × ℕ)
unfolding copy_data
memory_copy_uvm_data translate s to page_dir from size =
    copy_data translate (size + 1) s to page_dir from size
