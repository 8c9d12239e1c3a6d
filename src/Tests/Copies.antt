-- ===== src/Tests/Copies.antt =====
-- memory_copy_uvm_data of source/kernel/core/memory.c at two bytes on two pages.
use start.Base.{
  ℕ, zero, suc, ◌+◌, ◌<◌, ◌≤◌, ◌≡◌, refl, arith, some, if◌then◌else◌, ◌==◌, Ptr, Mem, load32,
  store32,
}
use start.Core.Memory.{Machine, with_mem, memory_get_paddr, find_pte}
use start.Core.Memory.Uvm.{memory_copy_uvm_data}
use start.Core.Memory.Contents.{SameElse, Mapped, CopiedTo, copy_uvm_data-CopiedTo}
use start.Tests.Memory.{with_memory}

-- The directory at 0x2000 has a table at 0x3000, with the pages 0x5000 and 0x7000 from 0x80001000 on.
abbrev two_pages : Machine
two_pages = with_memory (
    store32 (store32 (store32 (store32 (λ a. 0) 0x2800 0x3007) 0x3004 0x5007) 0x3008 0x7007) 0x9000
      0x6948)

abbrev two_dests : ℕ → Ptr
two_dests i = if i == 0 then 0x5fff else 0x7000

abbrev two_sources : ℕ → Ptr
two_sources i = 0x9000 + i

word_kept :
    (m : Mem)
    → SameElse two_pages 2 two_dests m
    → (a : Ptr) → a + 4 ≤ 0x5000
    → load32 m a ≡ load32 two_pages.mem a
unfolding load32
word_kept m same a low =
    rw
      (
        same a (λ j l. ground arith),
        same (a + 1) (λ j l. ground arith),
        same (a + 2) (λ j l. ground arith),
        same (a + 3) (λ j l. ground arith),
      )
      refl

two_pages-get_paddr :
    (m : Mem)
    → SameElse two_pages 2 two_dests m
    → (i : ℕ) → i < 2
    → memory_get_paddr (with_mem two_pages m) 0x2000 (0x80001fff + i) ≡ two_dests i
unfolding memory_get_paddr find_pte load32 store32
two_pages-get_paddr m same zero lt =
    rw (word_kept m same 0x2800 (omega arith), word_kept m same 0x3004 (omega arith)) refl
two_pages-get_paddr m same (suc zero) lt =
    rw (word_kept m same 0x2800 (omega arith), word_kept m same 0x3008 (omega arith)) refl
two_pages-get_paddr m same (suc (suc i)) lt = absurd (omega arith)

two_pages-Mapped : Mapped (λ m dir p. p) two_pages 0x80001fff 0x2000 0x9000 2 two_dests two_sources
two_pages-Mapped = record {
  to_fits = omega arith;
  from_fits = omega arith;
  from_there = omega arith;
  destination = two_pages-get_paddr;
  source = λ m same i l. refl;
  mapped = λ i l. ground arith;
  next = λ i l m. ground arith;
  distinct = λ i j l m ne. ground arith;
  apart = λ i j l m. ground arith;
}

copy_uvm_data-CopiedTo_example :
    (m' : Mem) × (memory_copy_uvm_data (λ m dir p. p) two_pages 0x80001fff 0x2000 0x9000 2
      ≡ some (with_mem two_pages m', 0))
    × CopiedTo two_pages 2 two_dests two_sources 2 m'
copy_uvm_data-CopiedTo_example =
    copy_uvm_data-CopiedTo (λ m dir p. p) two_pages 0x80001fff 0x2000 0x9000 2 two_dests two_sources
      two_pages-Mapped
