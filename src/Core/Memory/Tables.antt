-- ===== src/Core/Memory/Tables.antt =====
-- find_pte, memory_create_map and memory_get_paddr of source/kernel/core/memory.c for one address.
use Prim.Native.Nat.{bit_or}
use start.Base.{
  ℕ, ◌+◌, ◌*◌, ◌/◌, ◌%◌, ◌^◌, ◌≤◌, ◌<◌, ◌≡◌, refl, sym, ap, ◌∙◌, ◌≢◌, ◌⊎◌, arith, some, true, false,
  ◌==◌, add32, Ptr, null, Mem, load32, store32, load32-store32, load32-store32_other, load32_same,
  load32_zero, bit_and_10, bit_and_12,
}
use start.Core.Mmu.{present, pte_p, pte_w, pde_u, pde_index, pde_paddr, pte_index, pte_paddr}
use start.Core.Mmu.Entries.{entry_paddr, entry_bound, table_present, table_paddr, table_bound}
use start.Tools.Klib.{kernel_memset}
use start.Tools.Klib.Memory.{kernel_memset-within}
use start.Core.Memory.{
  Machine, with_mem, mem_page_size, addr_alloc_page, new_table, find_pte, memory_create_map,
  memory_get_paddr,
}

-- The slot of an entry lies outside the `n` bytes from `p`.
abbrev pub Outside : Ptr → ℕ → Ptr → Type 0
Outside p n slot = (slot + 4 ≤ p) ⊎ (p + n ≤ slot)

module _ (s : Machine) (page_dir : Ptr) (vaddr : ℕ) where
  abbrev pub pde_of : Ptr
  pde_of = page_dir + pde_index vaddr * 4

  abbrev pub table_of : Ptr
  table_of = pde_paddr (load32 s.mem pde_of)

  pub find_present_lem :
      (alloc : ℕ)
      → present (load32 s.mem pde_of) ≡ true
      → find_pte s page_dir vaddr alloc ≡ (s, table_of + pte_index vaddr * 4)
  unfolding find_pte
  find_present_lem alloc e = rw e refl

  pub find_absent_lem :
      present (load32 s.mem pde_of) ≡ false → find_pte s page_dir vaddr 1 ≡ new_table s pde_of vaddr
  unfolding find_pte
  find_absent_lem e = rw e refl

  -- Where the table is there, the address of the page in its entry is returned, with the offset.
  pub get_present_lem :
      present (load32 s.mem pde_of) ≡ true
      → table_of ≢ 0
      → memory_get_paddr s page_dir vaddr
        ≡ add32 (pte_paddr (load32 s.mem (table_of + pte_index vaddr * 4))) (vaddr % mem_page_size)
  unfolding memory_get_paddr
  get_present_lem e h =
      let t : (table_of + pte_index vaddr * 4 == null) ≡ false = ground arith in
      rw (find_present_lem 0 e) (rw (t, bit_and_12 vaddr) refl)

  -- memory_get_paddr of an address that is not mapped, in a table that is there, returns the
  -- offset in the page.
  pub get_paddr_unmapped :
      present (load32 s.mem pde_of) ≡ true
      → table_of ≢ 0
      → load32 s.mem (table_of + pte_index vaddr * 4) ≡ 0
      → memory_get_paddr s page_dir vaddr ≡ vaddr % mem_page_size
  get_paddr_unmapped e h unmapped = get_present_lem e h ∙ rw unmapped (omega arith)

  -- `find_pte` has come to the free entry `pte`, through a directory entry that lies apart from it.
  pub record Leads (pte : Ptr) : Type 0 where
    pub there : present (load32 s.mem pde_of) ≡ true
    pub table : table_of ≢ 0
    pub entry : pte ≡ table_of + pte_index vaddr * 4
    pub free : present (load32 s.mem pte) ≡ false
    pub apart : Outside pte 4 pde_of

module _ (page_dir : Ptr) (vaddr paddr perm : ℕ) (aligned : paddr % 2 ^ 12 ≡ 0)
    (small : perm < 2 ^ 12) (below : paddr < 2 ^ 32) where
  abbrev pub mapped : Machine → Ptr → Machine
  mapped s pte = with_mem s (store32 s.mem pte (bit_or (bit_or paddr perm) pte_p))

  pub map_lem :
      (s s' : Machine) (pte : Ptr)
      → find_pte s page_dir vaddr 1 ≡ (s', pte)
      → pte ≢ 0
      → present (load32 s'.mem pte) ≡ false
      → memory_create_map s page_dir vaddr paddr 1 perm ≡ some (mapped s' pte, 0)
  unfolding memory_create_map
  map_lem s s' pte e h free = let t : (pte == null) ≡ false = ground arith in rw (e, t, free) refl

  pub mapped_paddr :
      (s : Machine) (pte : Ptr)
      → Leads s page_dir vaddr pte
      → memory_get_paddr (mapped s pte) page_dir vaddr ≡ paddr + vaddr % mem_page_size
  mapped_paddr s pte l =
      let v = bit_or (bit_or paddr perm) pte_p in
      let pde = pde_of s page_dir vaddr in
      let same = load32-store32_other s.mem pte pde v (ground (arith, l.apart)) in
      let there = ap present same ∙ l.there in
      let slot = ap (λ w. pde_paddr w + pte_index vaddr * 4) same ∙ sym l.entry in
      let stored = load32-store32 s.mem pte v (entry_bound paddr perm aligned small below) in
      let at = ap (load32 (mapped s pte).mem) slot ∙ stored in
      let page = ap pte_paddr at ∙ entry_paddr paddr perm aligned small in
      get_present_lem (mapped s pte) page_dir vaddr there
        (λ z. l.table (sym (ap pde_paddr same) ∙ z))
      ∙ rw page (omega arith)

  -- memory_create_map of a page through a table that is there, at an entry that is free and apart
  -- from the directory entry, returns 0, and memory_get_paddr then translates the address to the
  -- page with its offset; the physical address is that of a page, and the permissions are bits
  -- below 2 ^ 12.
  pub map-get_paddr :
      (s : Machine)
      → let pte = table_of s page_dir vaddr + pte_index vaddr * 4 in
        present (load32 s.mem (pde_of s page_dir vaddr)) ≡ true
        → table_of s page_dir vaddr ≢ 0
        → present (load32 s.mem pte) ≡ false
        → Outside pte 4 (pde_of s page_dir vaddr)
        → (s' : Machine) × (memory_create_map s page_dir vaddr paddr 1 perm ≡ some (s', 0))
          × (memory_get_paddr s' page_dir vaddr ≡ paddr + vaddr % mem_page_size)
  map-get_paddr s there table free apart =
      let pte = table_of s page_dir vaddr + pte_index vaddr * 4 in
      (
        mapped s pte,
        map_lem s s pte (find_present_lem s page_dir vaddr 1 there) (ground arith) free,
        mapped_paddr s pte
            record { there = there; table = table; entry = refl; free = free; apart = apart },
      )

-- The entry of a cleared page lies in it, and a word outside keeps its value.
module _ (m : Mem) (page : Ptr) (h : page ≢ 0) where
  load32_cleared :
      (q : Ptr)
      → page ≤ q
      → q + 4 ≤ page + mem_page_size
      → load32 (kernel_memset m page 0 mem_page_size) q ≡ 0
  load32_cleared q h1 h2 =
      load32_same (kernel_memset m page 0 mem_page_size) (λ a. 0) q
        (λ i hi. ground (arith, kernel_memset-within m page 0 mem_page_size (q + i) h))
      ∙ load32_zero q

  load32_kept :
      (q : Ptr)
      → Outside page mem_page_size q
      → load32 (kernel_memset m page 0 mem_page_size) q ≡ load32 m q
  load32_kept q out =
      load32_same (kernel_memset m page 0 mem_page_size) m q
        λ i hi. ground (arith, out, kernel_memset-within m page 0 mem_page_size (q + i) h)

module _ (page_dir : Ptr) (vaddr : ℕ) where
  -- What `new_table` leaves when it gets the page `page`.
  pub fresh : Machine → Ptr → Machine
  fresh s page = with_mem s (
      kernel_memset
        (store32 s.mem (pde_of s page_dir vaddr) (bit_or (bit_or (bit_or page pte_p) pte_w) pde_u))
        page 0 mem_page_size)

  pub new_table_lem :
      (s s' : Machine) (page : Ptr)
      → addr_alloc_page s 1 ≡ (s', page)
      → page ≢ 0
      → new_table s (pde_of s page_dir vaddr) vaddr ≡ (fresh s' page, page + pte_index vaddr * 4)
  unfolding new_table fresh
  new_table_lem s s' page e h = let t : (page == 0) ≡ false = ground arith in rw (e, t) refl

  pub fresh-Leads :
      (s : Machine) (page : Ptr)
      → page ≢ 0
      → page % 2 ^ 12 ≡ 0
      → page < 2 ^ 32
      → Outside page mem_page_size (pde_of s page_dir vaddr)
      → Leads (fresh s page) page_dir vaddr (page + pte_index vaddr * 4)
  unfolding fresh
  fresh-Leads s page h aligned below out =
      let pde = pde_of s page_dir vaddr in
      let v = bit_or (bit_or (bit_or page pte_p) pte_w) pde_u in
      let stored = load32-store32 s.mem pde v (table_bound page aligned below) in
      let pde_is = load32_kept (store32 s.mem pde v) page h pde out ∙ stored in
      let index = bit_and_10 (vaddr / 2 ^ 12) in
      let table_is = ap pde_paddr pde_is ∙ table_paddr page aligned in
      let cleared =
        load32_cleared (store32 s.mem pde v) page h (page + pte_index vaddr * 4)
          (omega (arith, index)) (omega (arith, index)) in
      record {
        there = ap present pde_is ∙ table_present page aligned;
        table = λ z. h (sym table_is ∙ z);
        entry = ap (λ t. t + pte_index vaddr * 4) (sym table_is);
        free = ap present cleared;
        apart = ground (arith, index, out);
      }
