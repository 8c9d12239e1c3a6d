-- ===== src/Core/Mmu/Entries.antt =====
-- Page-table entries that are put together with `|`, read back by the fields of
-- source/kernel/include/cpu/mmu.h.
use Prim.Native.Nat.{bit_or}
use start.Base.{
  ℕ, ◌+◌, ◌-◌, ◌%◌, ◌^◌, ◌<◌, ◌≡◌, arith, true, bit_or_sum, bit_or_one, bit_or_aligned,
}
use start.Core.Mmu.{present, pte_p, pte_w, pde_u, pde_paddr, pte_paddr}

module _ (paddr perm : ℕ) (aligned : paddr % 2 ^ 12 ≡ 0) (small : perm < 2 ^ 12) where
  entry_sum : bit_or (bit_or paddr perm) pte_p ≡ paddr + perm + (1 - perm % 2)
  entry_sum = omega (arith, bit_or_one (bit_or paddr perm), bit_or_aligned paddr perm aligned small)

  pub entry_present : present (bit_or (bit_or paddr perm) pte_p) ≡ true
  entry_present = rw entry_sum (ground arith)

  pub entry_paddr : pte_paddr (bit_or (bit_or paddr perm) pte_p) ≡ paddr
  entry_paddr = rw entry_sum (omega arith)

  pub entry_bound : paddr < 2 ^ 32 → bit_or (bit_or paddr perm) pte_p < 2 ^ 32
  entry_bound h = rw entry_sum (omega arith)

-- The entry for a new page table.
module _ (paddr : ℕ) (aligned : paddr % 2 ^ 12 ≡ 0) where
  table_sum : bit_or (bit_or (bit_or paddr pte_p) pte_w) pde_u ≡ paddr + 7
  table_sum =
      let one = bit_or_aligned paddr pte_p aligned (omega arith) in
      let two = bit_or_sum 2 (paddr + 1) pte_w (omega arith, (omega arith, omega arith)) in
      let three =
        bit_or_sum 3 (paddr + 3) pde_u (omega arith, (omega arith, (omega arith, omega arith))) in
      let shift : paddr + 1 + 2 ≡ paddr + 3 = omega arith in
      rw one (rw two (rw shift (omega (arith, three))))

  pub table_present : present (bit_or (bit_or (bit_or paddr pte_p) pte_w) pde_u) ≡ true
  table_present = rw table_sum (ground arith)

  pub table_paddr : pde_paddr (bit_or (bit_or (bit_or paddr pte_p) pte_w) pde_u) ≡ paddr
  table_paddr = rw table_sum (omega arith)

  pub table_bound : paddr < 2 ^ 32 → bit_or (bit_or (bit_or paddr pte_p) pte_w) pde_u < 2 ^ 32
  table_bound h = rw table_sum (omega arith)
