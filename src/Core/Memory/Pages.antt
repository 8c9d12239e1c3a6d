-- ===== src/Core/Memory/Pages.antt =====
-- addr_alloc_page and addr_free_page of source/kernel/core/memory.c where the mutex of the allocator
-- is free, which it is between the calls of a task that does not wait.
use start.Base.{
  ℕ, ◌+◌, ◌*◌, ◌/◌, ◌%◌, ◌^◌, ◌≤◌, ◌<◌, ◌≡◌, refl, sym, ap, subst, ◌≢◌, ◌⊎◌, inl, inr, arith,
  Option, none, some, if◌then◌else◌, ◌==◌, sub32, Mem, IsBytes,
}
use start.Tools.Bitmap.{bitmap_get_bit, bitmap_set_bit, bitmap_alloc_nbits}
use start.Tools.Bitmap.Bits.{get-set_bit}
use start.Tools.Bitmap.Alloc.{Allocates, alloc_nbits-Allocates}
use start.Ipc.Mutex.Idle.{IdleMutex, held_by, lock_idle, unlock_held}
use start.Core.Memory.{
  Machine, mem_page_size, with_mem, lock_alloc, unlock_alloc, page_addr, addr_alloc_page,
  addr_free_page,
}

-- The allocator between two calls: its mutex is free, and its pages lie below 2 ^ 32.
pub record Ready (s : Machine) : Type 0 where
  pub idle : IdleMutex s.paddr_alloc.mutex
  pub bytes : IsBytes s.mem
  pub pages : s.paddr_alloc.page_size ≡ mem_page_size
  pub aligned : s.paddr_alloc.start % mem_page_size ≡ 0
  pub start_positive : 0 < s.paddr_alloc.start
  pub fits : s.paddr_alloc.start + s.paddr_alloc.bitmap.bit_count * mem_page_size ≤ 2 ^ 32

-- The bit of page `i`.
abbrev pub bit_of : Machine → ℕ → ℕ
bit_of s i = bitmap_get_bit s.mem s.paddr_alloc.bitmap i

abbrev pub addr_of : Machine → ℕ → ℕ
addr_of s i = s.paddr_alloc.start + i * mem_page_size

module _ (s : Machine) (idle : IdleMutex s.paddr_alloc.mutex) where
  abbrev held : Machine
  held = record s {
    paddr_alloc = record s.paddr_alloc { mutex = held_by s.sched.curr_task s.paddr_alloc.mutex };
  }

  lock_lem : lock_alloc s ≡ held
  unfolding lock_alloc
  lock_lem = rw (lock_idle s.sched s.paddr_alloc.mutex idle) refl

  unlock_lem : (m : Mem) → unlock_alloc (with_mem held m) ≡ with_mem s m
  unfolding unlock_alloc
  unlock_lem m = rw (unlock_held s.sched s.paddr_alloc.mutex idle) refl

  pub alloc_page_lem :
      (n : ℕ)
      → let r = bitmap_alloc_nbits s.mem s.paddr_alloc.bitmap 0 n in
        addr_alloc_page s n ≡ (with_mem s r.0, page_addr s.paddr_alloc r.1)
  unfolding addr_alloc_page
  alloc_page_lem n =
      let m = (bitmap_alloc_nbits s.mem s.paddr_alloc.bitmap 0 n).0 in
      rw (lock_lem, unlock_lem m) refl

  pub free_page_lem :
      (addr n : ℕ)
      → let index = sub32 addr s.paddr_alloc.start / s.paddr_alloc.page_size in
        addr_free_page s addr n ≡ with_mem s (bitmap_set_bit s.mem s.paddr_alloc.bitmap index n 0)
  unfolding addr_free_page
  free_page_lem addr n = rw lock_lem (unlock_lem _)

-- What `addr_alloc_page` does for one page: it takes a free page, whose bit it sets and no other, or
-- it returns 0 and changes nothing, since every page is taken.
abbrev pub TakesPage : Machine → Machine × ℕ → Type 0
TakesPage s (s', addr) =
    ((addr ≡ 0) × (s' ≡ s) × ((i : ℕ) → i < s.paddr_alloc.bitmap.bit_count → bit_of s i ≢ 0))
    ⊎ ((i : ℕ) × (addr ≡ addr_of s i)
        × (i < s.paddr_alloc.bitmap.bit_count)
        × (bit_of s i ≡ 0)
        × (s' ≡ with_mem s s'.mem)
        × ((j : ℕ) → bit_of s' j ≡ (if j == i then 1 else bit_of s j)))

module _ (s : Machine) (r : Ready s) where
  page_addr_lem :
      (i : ℕ) → i < s.paddr_alloc.bitmap.bit_count → page_addr s.paddr_alloc (some i) ≡ addr_of s i
  page_addr_lem i h = rw r.pages (ground (arith, r.fits))

  index_lem :
      (i : ℕ)
      → i < s.paddr_alloc.bitmap.bit_count
      → sub32 (addr_of s i) s.paddr_alloc.start / s.paddr_alloc.page_size ≡ i
  index_lem i h = rw r.pages (omega (arith, r.fits))

  taken :
      (a : Mem × Option ℕ)
      → Allocates s.mem s.paddr_alloc.bitmap 0 1 a
      → TakesPage s (with_mem s a.0, page_addr s.paddr_alloc a.1)
  taken (m, none) (same, all) =
      inl (refl, ap (with_mem s) same, λ i h e. all i λ j h1 h2. (omega arith, ground arith))
  taken (m, some i) (run, first, bits) =
      let (inside, free) = run i (omega arith) (omega arith) in
      inr (i, page_addr_lem i inside, inside, free, refl, λ j. ground (arith, bits j))

  -- addr_alloc_page for one page, between calls that do not wait, either returns the address of a
  -- page that was free and marks it and no other, or returns 0, changes nothing, and every page is
  -- taken.
  pub alloc_page-TakesPage : TakesPage s (addr_alloc_page s 1)
  alloc_page-TakesPage =
      subst (TakesPage s) (sym (alloc_page_lem s r.idle 1))
        (taken _ (alloc_nbits-Allocates s.mem s.paddr_alloc.bitmap 0 1 r.bytes (omega arith)))

  pub free_page_bits :
      (i j : ℕ)
      → i < s.paddr_alloc.bitmap.bit_count
      → bit_of (addr_free_page s (addr_of s i) 1) j ≡ (if j == i then 0 else bit_of s j)
  free_page_bits i j h =
      rw (free_page_lem s r.idle (addr_of s i) 1, index_lem i h)
        (ground (arith, get-set_bit s.mem s.paddr_alloc.bitmap i 1 0 j r.bytes))
