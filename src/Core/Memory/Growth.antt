-- ===== src/Core/Memory/Growth.antt =====
-- sys_sbrk of source/kernel/core/memory.c: what it returns, and where the heap ends.
use start.Base.{ℕ, ◌≡◌, ◌⊎◌, Option, none, some, true, if◌then◌else◌, ◌==◌, add32}
use Prim.Native.Nat.{bit_or}
use start.Core.Mmu.{pte_p, pte_w, pte_u}
use start.Core.Memory.{Machine, with_mem, minus_one, is_negative, memory_alloc_page_for}
use start.Core.Memory.Heap.{set_heap_end, heap_end_of}

abbrev pub user_perm : ℕ
user_perm = bit_or (bit_or pte_p pte_u) pte_w

-- The pages are asked for from an address at a page boundary, and a page there is mapped already: the
-- ASSERT of memory_create_map fails.
abbrev pub Overlaps : Machine → Type 0
Overlaps s = (start : ℕ) × (size : ℕ) × (memory_alloc_page_for s start size user_perm ≡ none)

-- What a call may come to: a failed ASSERT, the old end with the new one set, or -1; and nothing but
-- the memory and the end of the heap is changed.
abbrev pub Grows : Machine → ℕ → Option (Machine × ℕ) → Type 0
Grows s incr none = (is_negative incr ≡ true) ⊎ Overlaps s
Grows s incr (some (s', p)) =
    ((p ≡ heap_end_of s)
      × (if incr == 0
          then s' ≡ s
          else s' ≡ set_heap_end (with_mem s s'.mem) (add32 (heap_end_of s) incr)))
    ⊎ ((p ≡ minus_one) × (s' ≡ with_mem s s'.mem))
