-- ===== src/Core/Memory/Copies.antt =====
-- memory_copy_uvm_data of source/kernel/core/memory.c: the parts that it copies, and that it ends.
use start.Base.{
  ℕ, zero, suc, ◌+◌, ◌-◌, ◌%◌, ◌<◌, ◌≤◌, ◌≡◌, refl, ◌⊎◌, inl, inr, arith, Option, some, Bool-cases,
  ◌==◌, add32, Ptr, Mem, bit_and_12,
}
use start.Core.Memory.{
  Machine, with_mem, mem_page_size, minus_one, memory_get_paddr, current_page_dir,
}
use start.Core.Memory.Uvm.{page_part, copy_from_user, copy_data, memory_copy_uvm_data}

-- A step of memory_copy_uvm_data copies at least one byte and no more than is left, stays within
-- the page of its destination, and ends with the last byte or at the end of that page.
pub page_part-bounds :
    (to_paddr size : ℕ)
    → let part = page_part to_paddr size in
      0 < size
      → (0 < part)
        × (part ≤ size)
        × (to_paddr % mem_page_size + part ≤ mem_page_size)
        × ((part ≡ size) ⊎ (to_paddr % mem_page_size + part ≡ mem_page_size))
unfolding page_part
page_part-bounds to_paddr size h =
    rw (bit_and_12 to_paddr) (ground arith, ground arith, ground arith, ground arith)

-- The copy comes to its end, or to an address that is not mapped.
abbrev pub Ends : Option (Machine × ℕ) → Type 0
Ends o = (s' : Machine) × ((o ≡ some (s', 0)) ⊎ (o ≡ some (s', minus_one)))

module _ (translate : Mem → Ptr → Ptr → Ptr) where
  copy_data-Ends :
      (fuel : ℕ) (s : Machine) (to : ℕ) (page_dir from : Ptr) (size : ℕ)
      → size < fuel
      → Ends (copy_data translate fuel s to page_dir from size)
  unfolding copy_data
  copy_data-Ends zero s to page_dir from size h = absurd (omega arith)
  copy_data-Ends (suc fuel) s to page_dir from size h = elim (Bool-cases (size == 0)) [
    | inl e ↦ rw e (s, inl refl)
    | inr e ↦ rw e (elim (Bool-cases (memory_get_paddr s page_dir to == 0)) [
      | inl f ↦ rw f (s, inr refl)
      | inr f ↦ rw f (
          let to_paddr = memory_get_paddr s page_dir to in
          let part = page_part to_paddr size in
          let positive = page_part-bounds to_paddr size (ground arith) in
          let m = copy_from_user translate (current_page_dir s) s.mem to_paddr from part in
          copy_data-Ends fuel (with_mem s m) (add32 to part) page_dir (add32 from part)
            (size - part) (omega (arith, positive.0)))
    ])
  ]

  -- memory_copy_uvm_data comes to its end for any arguments and returns 0 or -1.
  pub copy_uvm_data-Ends :
      (s : Machine) (to : ℕ) (page_dir from : Ptr) (size : ℕ)
      → Ends (memory_copy_uvm_data translate s to page_dir from size)
  unfolding memory_copy_uvm_data
  copy_uvm_data-Ends s to page_dir from size =
      copy_data-Ends (size + 1) s to page_dir from size (omega arith)
