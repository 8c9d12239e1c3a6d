-- ===== src/Core/Memory/Maps.antt =====
-- memory_create_map of source/kernel/core/memory.c for one page whose page table is still to be made.
use start.Base.{
  ℕ, ◌+◌, ◌*◌, ◌%◌, ◌^◌, ◌<◌, ◌≡◌, refl, sym, ap, subst, ◌∙◌, ◌≢◌, ◌⊎◌, inl, inr, arith, some,
  false, ◌==◌, true, Ptr, null, load32,
}
use start.Core.Mmu.{present, pte_index}
use start.Core.Memory.{
  Machine, mem_page_size, minus_one, addr_alloc_page, new_table, find_pte, memory_create_map,
  memory_get_paddr,
}
use start.Core.Memory.Pages.{Ready, bit_of, addr_of, TakesPage, alloc_page-TakesPage}
use start.Core.Memory.Tables.{
  Outside, pde_of, find_absent_lem, map_lem, mapped_paddr, fresh, new_table_lem, fresh-Leads,
}

-- The slot lies in no free page.
abbrev pub InNoFreePage : Machine → Ptr → Type 0
InNoFreePage s slot =
    (i : ℕ)
    → i < s.paddr_alloc.bitmap.bit_count
    → bit_of s i ≡ 0
    → Outside (addr_of s i) mem_page_size slot

module _ (page_dir : Ptr) (vaddr paddr perm : ℕ) where
  abbrev pub Fails : Machine → Type 0
  Fails s = memory_create_map s page_dir vaddr paddr 1 perm ≡ some (s, minus_one)

  -- The map is made, and afterwards the address is translated to the page, with its offset.
  abbrev pub Maps : Machine → Type 0
  Maps s =
      (s' : Machine) × (memory_create_map s page_dir vaddr paddr 1 perm ≡ some (s', 0))
      × (memory_get_paddr s' page_dir vaddr ≡ paddr + vaddr % mem_page_size)

  null_lem :
      (s s' : Machine) (pte : Ptr)
      → find_pte s page_dir vaddr 1 ≡ (s', pte)
      → pte ≡ 0
      → memory_create_map s page_dir vaddr paddr 1 perm ≡ some (s', minus_one)
  unfolding memory_create_map
  null_lem s s' pte e z = let t : (pte == null) ≡ true = ground arith in rw (e, t) refl

  no_table_lem :
      (s s' : Machine) (page : Ptr)
      → addr_alloc_page s 1 ≡ (s', page)
      → page ≡ 0
      → new_table s (pde_of s page_dir vaddr) vaddr ≡ (s', null)
  unfolding new_table
  no_table_lem s s' page e z = let t : (page == 0) ≡ true = ground arith in rw (e, t) refl

  module _ (s : Machine) (r : Ready s)
      (absent : present (load32 s.mem (pde_of s page_dir vaddr)) ≡ false)
      (aligned : paddr % 2 ^ 12 ≡ 0) (small : perm < 2 ^ 12) (below : paddr < 2 ^ 32)
      (apart : InNoFreePage s (pde_of s page_dir vaddr)) where
    outcome :
        (a : Machine × Ptr)
        → addr_alloc_page s 1 ≡ a
        → TakesPage s a
        → ((a.1 ≡ 0) × Fails s) ⊎ ((a.1 ≢ 0) × Maps s)
    outcome (s', page) e (inl (z, same, full)) =
        let found = find_absent_lem s page_dir vaddr absent ∙ no_table_lem s s' page e z in
        let fails = null_lem s s' null found refl in
        inl (z, fails ∙ ap (λ t. some (t, minus_one)) same)
    outcome (s', page) e (inr (i, at, inside, free, same, bits)) =
        let page_low = r.fits in
        let h : page ≢ 0 = λ z. omega (arith, at, z, r.start_positive) in
        let whole : page % 2 ^ 12 ≡ 0 = omega (arith, at, r.aligned) in
        let fits : page < 2 ^ 32 = omega (arith, at, inside, r.fits) in
        let out =
          subst (λ p. Outside p mem_page_size (pde_of s page_dir vaddr)) (sym at)
            (apart i inside free) in
        let leads = fresh-Leads page_dir vaddr s' page h whole fits out in
        let found =
          find_absent_lem s page_dir vaddr absent ∙ new_table_lem page_dir vaddr s s' page e h in
        let made =
          map_lem page_dir vaddr paddr perm aligned small below s (fresh page_dir vaddr s' page)
            (page + pte_index vaddr * 4) found (omega (arith, h)) leads.free in
        inr (h, (_, made, mapped_paddr page_dir vaddr paddr perm aligned small below _ _ leads))

    -- memory_create_map of a page whose table is still to be made either makes the table and the
    -- map, after which memory_get_paddr translates the address to the page with its offset, or
    -- returns -1 and changes nothing, when no page is free; the physical address is that of a
    -- page, the permissions are bits below 2 ^ 12, the directory lies in no free page, and the
    -- calls do not wait.
    pub map_new-Maps :
        (((addr_alloc_page s 1).1 ≡ 0) × Fails s) ⊎ (((addr_alloc_page s 1).1 ≢ 0) × Maps s)
    map_new-Maps = outcome (addr_alloc_page s 1) refl (alloc_page-TakesPage s r)
