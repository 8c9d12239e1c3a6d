-- ===== src/Core/Mmu.antt =====
-- source/kernel/include/cpu/mmu.h: page-directory and page-table entries. Both are unions of a
-- `uint32_t` and bit fields, so that an entry is its 32-bit value and a field is a function of it.
pub mod Entries
use Prim.Native.Nat.{bit_and}
use start.Base.{ℕ, ◌*◌, ◌/◌, ◌%◌, ◌^◌, ◌==◌, Bool, not}

abbrev pub pde_cnt : ℕ
pde_cnt = 1024

abbrev pub pte_cnt : ℕ
pte_cnt = 1024

abbrev pub pte_p : ℕ
pte_p = 1

abbrev pub pte_w : ℕ
pte_w = 2

abbrev pub pte_u : ℕ
pte_u = 4

abbrev pub pde_u : ℕ
pde_u = 4

-- `pde->present` and `pte->present`
abbrev pub present : ℕ → Bool
present v = not (v % 2 == 0)

abbrev pub pde_index : ℕ → ℕ
pde_index vaddr = vaddr / 2 ^ 22

-- `pde->phy_pt_addr << 12`
abbrev pub pde_paddr : ℕ → ℕ
pde_paddr v = v / 2 ^ 12 * 2 ^ 12

-- `(vaddr >> 12) & 0x3FF`
abbrev pub pte_index : ℕ → ℕ
pte_index vaddr = bit_and (vaddr / 2 ^ 12) 0x3ff

abbrev pub pte_paddr : ℕ → ℕ
pte_paddr v = v / 2 ^ 12 * 2 ^ 12

abbrev pub get_pte_perm : ℕ → ℕ
get_pte_perm v = bit_and v 0x1ff
