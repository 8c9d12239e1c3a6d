-- ===== src/Loader/Kernel/Entry.antt =====
-- How source/loader/loader_32.c enters the kernel.
use start.Base.{
  ℕ, ◌+◌, ◌*◌, ◌/◌, ◌%◌, ◌^◌, ◌<◌, ◌≡◌, ◌≢◌, ◌⊎◌, true, false, ◌==◌, if◌then◌else◌, Ptr, Mem,
}
use start.Loader.{is_elf, e_entry, e_phnum, load_segments, reload_elf_file}
use start.Loader.Kernel.{
  sys_kernel_load_addr, page_dir, ControlRegs, enable_page_mode, Booted, died, entered,
}

-- Where an address leads through a directory of 4 MB pages.
abbrev pub big_page : (ℕ → ℕ) → Ptr → Ptr
big_page dir a = dir (a / 2 ^ 22) / 2 ^ 22 * 2 ^ 22 + a % 2 ^ 22

-- `m` is the memory with the file, `v` the entry of its header when the segments are in place.
abbrev pub moved : Mem → Mem
moved m = load_segments m sys_kernel_load_addr 0 (e_phnum m sys_kernel_load_addr)

-- The loader gives up over a file that is no ELF file or has no entry; otherwise the kernel is entered
-- at its entry, with the segments in place, paging on, and the first 4 MB where they were.
abbrev pub BootsFrom : Mem → Ptr → ControlRegs → Booted → Type 0
BootsFrom m dir regs died =
    (is_elf m sys_kernel_load_addr ≡ false) ⊎ (e_entry (moved m) sys_kernel_load_addr ≡ 0)
BootsFrom m dir regs (entered entry m' regs') =
    (is_elf m sys_kernel_load_addr ≡ true)
    × (m' ≡ moved m)
    × (entry ≡ e_entry m' sys_kernel_load_addr)
    × (entry ≢ 0)
    × (regs'.cr0 ≡ regs.cr0 + 2 ^ 31)
    × (regs'.cr3 ≡ dir)
    × ((a : Ptr) → a < 2 ^ 22 → big_page page_dir a ≡ a)

-- What the loader does when the file is there.
outcome : Mem → Ptr → ControlRegs → Booted
outcome m dir regs =
    let (m2, kernel_entry) = reload_elf_file m sys_kernel_load_addr in
    if kernel_entry == 0 then died else entered kernel_entry m2 (enable_page_mode dir regs)
