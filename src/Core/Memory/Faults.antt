-- ===== src/Core/Memory/Faults.antt =====
-- Calls of source/kernel/core/memory.c that do not do what their result says.
use start.Base.{
  ℕ, zero, suc, ◌+◌, ◌*◌, ◌/◌, ◌%◌, ◌^◌, ◌<◌, ◌≤◌, ◌≡◌, refl, ◌≢◌, inl, inr, arith, none, some,
  true, false, Bool-cases, ◌==◌, ltb, leb, add32, sub32, Ptr, null, load32,
}
use start.Tools.Klib.{up2, down2}
use start.Core.Mmu.{present, pte_index}
use start.Core.Memory.{
  Machine, mem_page_size, memory_task_base, is_negative, addr_alloc_page, alloc_pages,
  memory_alloc_for_page_dir, memory_alloc_page_for, memory_free_page, current_page_dir,
}
use start.Core.Memory.Heap.{set_heap_end, heap_end_of, sbrk_pages, sys_sbrk}
use start.Core.Memory.Pages.{Ready, bit_of, TakesPage, alloc_page-TakesPage}
use start.Core.Memory.Tables.{pde_of, table_of, find_present_lem}

-- Every page is taken.
abbrev pub Full : Machine → Type 0
Full s = (i : ℕ) → i < s.paddr_alloc.bitmap.bit_count → bit_of s i ≢ 0

module _ (s : Machine) (r : Ready s) (full : Full s) where
  no_page : addr_alloc_page s 1 ≡ (s, 0)
  no_page = of _ (alloc_page-TakesPage s r)
    where
      of : (a : Machine × ℕ) → TakesPage s a → a ≡ (s, 0)
      of (s', p) (inl (z, same, _)) = λ i. (same i, z i)
      of (s', p) (inr (i, at, inside, free, _, _)) = absurd (full i inside free)

  -- Where no page is free, pages are reported as made, whatever is asked for, and none is.
  pub alloc_for_page_dir_full :
      (page_dir : Ptr) (vaddr size perm : ℕ)
      → memory_alloc_for_page_dir s page_dir vaddr size perm ≡ some (s, 0)
  unfolding memory_alloc_for_page_dir alloc_pages
  alloc_for_page_dir_full page_dir vaddr size perm = of (up2 size mem_page_size / mem_page_size)
    where
      of : (n : ℕ) → alloc_pages s page_dir (down2 vaddr mem_page_size) vaddr 0 n perm ≡ some (s, 0)
      of zero = refl
      of (suc n) = rw no_page refl

  pages_full :
      (start end incr : ℕ) → sbrk_pages s start end incr ≡ some (set_heap_end s end, heap_end_of s)
  unfolding sbrk_pages memory_alloc_page_for
  pages_full start end incr = elim (Bool-cases (incr == 0)) [
    | inl e ↦ rw e refl
    | inr e ↦ rw (e, alloc_for_page_dir_full (current_page_dir s) start (sub32 end start) 7) refl
  ]

  -- With no page free and between calls that do not wait, sys_sbrk of a positive size below 2 ^ 31
  -- still returns the old end of the heap and moves the end up, with no page mapped.
  pub sbrk_full :
      (incr : ℕ)
      → 0 < incr
      → incr < 2 ^ 31
      → sys_sbrk s incr ≡ some (set_heap_end s (add32 (heap_end_of s) incr), heap_end_of s)
  unfolding sys_sbrk
  sbrk_full incr h1 h2 =
      let t1 : is_negative incr ≡ false = ground arith in
      let t2 : (incr == 0) ≡ false = ground arith in
      rw (t1, t2)
        (elim (Bool-cases (heap_end_of s % mem_page_size == 0)) [
          | inl g ↦ rw g (pages_full _ _ _)
          | inr g ↦
              rw g (elim (Bool-cases (leb (heap_end_of s % mem_page_size + incr) mem_page_size)) [
                | inl h ↦ rw h refl
                | inr h ↦ rw h (pages_full _ _ _)
              ])
        ])

-- memory_free_page of an address of a task whose page table is there fails its ASSERT.
pub free_page_panics :
    (s : Machine) (addr : ℕ)
    → memory_task_base ≤ addr
    → present (load32 s.mem (pde_of s (current_page_dir s) addr)) ≡ true
    → table_of s (current_page_dir s) addr ≢ 0
    → memory_free_page s addr ≡ none
unfolding memory_free_page
free_page_panics s addr above there table =
    let found = find_present_lem s (current_page_dir s) addr 0 there in
    let pte = table_of s (current_page_dir s) addr + pte_index addr * 4 in
    let t1 : ltb addr memory_task_base ≡ false = ground arith in
    let t2 : (pte == null) ≡ false = ground arith in rw (t1, found) (rw t2 refl)
