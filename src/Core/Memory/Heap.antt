-- ===== src/Core/Memory/Heap.antt =====
-- sys_sbrk of source/kernel/core/memory.c: the end of the heap of the current task moves up, and the
-- pages up to it are mapped. `incr` is a C int, as its 32-bit pattern; where `start_offset + incr`
-- overflows, which C leaves undefined, the sum is not reduced.
use start.Base.{ℕ, ◌+◌, ◌-◌, ◌%◌, Option, none, some, if◌then◌else◌, ◌==◌, leb, add32, sub32}
use Prim.Native.Nat.{bit_or}
use start.Core.Mmu.{pte_p, pte_w, pte_u}
use start.Core.Memory.{Machine, minus_one, is_negative, mem_page_size, memory_alloc_page_for}

-- `task->heap_end = end` for the current task.
abbrev pub set_heap_end : Machine → ℕ → Machine
set_heap_end s end =
    let curr = s.sched.curr_task in
    let space = record (s.spaces curr) { heap_end = end } in
    record s { spaces = λ a. if a == curr then space else s.spaces a }

-- `task_current()->heap_end`
abbrev pub heap_end_of : Machine → ℕ
heap_end_of s = (s.spaces s.sched.curr_task).heap_end

-- The end of `sys_sbrk`: whole pages from `start`, which is at a boundary.
unfoldable pub sbrk_pages : Machine → ℕ → ℕ → ℕ → Option (Machine × ℕ)
sbrk_pages s start end incr =
    let perm = bit_or (bit_or pte_p pte_u) pte_w in
    if incr == 0
    then some (set_heap_end s end, heap_end_of s)
    else elim (memory_alloc_page_for s start (sub32 end start) perm) [
      | none ↦ none
      | some (s', err) ↦
          if is_negative err
          then some (s', minus_one)
          else some (set_heap_end s' end, heap_end_of s)
    ]

unfoldable pub sys_sbrk : Machine → ℕ → Option (Machine × ℕ)
sys_sbrk s incr =
    let start = heap_end_of s in
    let end = add32 start incr in
    let start_offset = start % mem_page_size in
    let curr_size = mem_page_size - start_offset in
    if is_negative incr
    then none
    else if incr == 0
    then some (s, start)
    else if start_offset == 0
    then sbrk_pages s start end incr
    else if leb (start_offset + incr) mem_page_size
    then some (set_heap_end s end, start)
    else sbrk_pages s (add32 start curr_size) end (incr - curr_size)
