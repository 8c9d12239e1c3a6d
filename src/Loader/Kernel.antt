-- ===== src/Loader/Kernel.antt =====
-- load_kernel and enable_page_mode of source/loader/loader_32.c: the kernel is read from the disk, put in
-- place and entered with 4 MB identity-mapped.
pub mod Entry
use Prim.Native.Nat.{bit_or}
use start.Base.{ℕ, ◌*◌, ◌^◌, Option, none, some, List, if◌then◌else◌, ◌==◌, Ptr, Mem}
use start.Cpu.Instr.{Ports}
use start.Loader.{reload_elf_file}
use start.Loader.Disk.{read_disk}

abbrev pub sys_kernel_load_addr : Ptr
sys_kernel_load_addr = 1024 * 1024

abbrev pub pde_p : ℕ
pde_p = 2 ^ 0

abbrev pub pde_ps : ℕ
pde_ps = 2 ^ 7

abbrev pub pde_w : ℕ
pde_w = 2 ^ 1

abbrev pub cr4_pse : ℕ
cr4_pse = 2 ^ 4

abbrev pub cr0_pg : ℕ
cr0_pg = 2 ^ 31

pub record ControlRegs : Type 0 where
  pub cr0 : ℕ
  pub cr3 : ℕ
  pub cr4 : ℕ

-- The directory of enable_page_mode.
abbrev pub page_dir : ℕ → ℕ
page_dir i = if i == 0 then bit_or (bit_or pde_p pde_ps) pde_w else 0

-- `dir` is the address of the directory.
unfoldable pub enable_page_mode : Ptr → ControlRegs → ControlRegs
enable_page_mode dir regs = record {
  cr0 = bit_or regs.cr0 cr0_pg;
  cr3 = dir;
  cr4 = bit_or regs.cr4 cr4_pse;
}

-- The loader stays in `die`, or the kernel is entered.
pub data Booted : Type 0 where
  died : Booted
  entered : Ptr → Mem → ControlRegs → Booted

-- `none` while the disk gives no data.
unfoldable pub load_kernel : Ports → List ℕ → Mem → (ℕ → ℕ) → Ptr → ControlRegs → Option Booted
load_kernel io reads m words dir regs =
    elim (read_disk io reads m words 100 500 sys_kernel_load_addr) [
      | none ↦ none
      | some (_, m1, _) ↦
          let (m2, kernel_entry) = reload_elf_file m1 sys_kernel_load_addr in
          some (
            if kernel_entry == 0 then died else entered kernel_entry m2 (enable_page_mode dir regs))
    ]
