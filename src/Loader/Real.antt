-- ===== src/Loader/Real.antt =====
-- source/loader/loader_16.c, in real mode: messages, the memory map of the BIOS, and the switch to
-- protected mode. The BIOS is a parameter: what interrupt 0x15 answers to a continuation, with the
-- buffer's content before.
pub mod Regions
use Prim.Native.Nat.{bit_and, bit_or}
use Prim.Native.String.{String}
use start.Base.{
  ℕ, zero, suc, ◌+◌, ◌*◌, ◌^◌, Bool, true, false, ◌&&◌, Option, none, some, List, [], ◌∷◌, ◌++◌,
  if◌then◌else◌, ◌==◌, ltb, Ptr,
}
use start.Core.Memory.Setup.{RamRegion}
use start.Cpu.Instr.{Ports, outb, inb, TableReg, lgdt}

-- `SMAP_entry_t`
pub record SmapEntry : Type 0 where
  pub base_l : ℕ
  pub base_h : ℕ
  pub length_l : ℕ
  pub length_h : ℕ
  pub kind : ℕ
  pub acpi : ℕ

pub record Reply : Type 0 where
  pub signature : ℕ
  pub bytes : ℕ
  pub cont_id : ℕ
  pub entry : SmapEntry

abbrev pub Bios : Type 0
Bios = ℕ → SmapEntry → Reply

abbrev pub smap : ℕ
smap = 0x534d4150

abbrev pub boot_ram_region_max : ℕ
boot_ram_region_max = 10

-- `bytes > 20 && (entry->ACPI & 0x0001) == 0`
abbrev pub is_ignored : Reply → Bool
is_ignored r = ltb 20 r.bytes && ltb r.bytes (2 ^ 31) && bit_and r.entry.acpi 1 == 0

-- The regions, with the new one where the entry is of memory.
abbrev pub add_region : List RamRegion → SmapEntry → List RamRegion
add_region regions e =
    if e.kind == 1 then regions ++ record { start = e.base_l; size = e.length_l } ∷ [] else regions

-- The loop of `detect_memory`, for `left` rounds: the regions of `boot_info` and whether it ended well.
unfoldable pub detect_loop : Bios → ℕ → ℕ → SmapEntry → List RamRegion → List RamRegion × Bool
detect_loop bios zero cont_id buffer regions = (regions, true)
detect_loop bios (suc left) cont_id buffer regions =
    let r = bios cont_id buffer in
    let ignoring = detect_loop bios left r.cont_id r.entry regions in
    let added = add_region regions r.entry in
    let going_on = detect_loop bios left r.cont_id r.entry added in
    if r.signature == smap
    then if is_ignored r then ignoring else if r.cont_id == 0 then (added, true) else going_on
    else (regions, false)

-- What the loader has of the machine: the texts on the screen, `boot_info`, the ports and registers,
-- whether interrupts are let in, and where it has jumped.
pub record Boot : Type 0 where
  pub screen : List String
  pub ram_regions : List RamRegion
  pub io : Ports
  pub interrupts : Bool
  pub cr0 : ℕ
  pub gdtr : TableReg
  pub jumped : Option (ℕ × Ptr)

unfoldable pub show_msg : Boot → String → Boot
show_msg b msg = record b { screen = b.screen ++ msg ∷ [] }

unfoldable pub detect_memory : Bios → SmapEntry → Boot → Boot
unfolding show_msg detect_loop
detect_memory bios buffer b =
    let (regions, well) = detect_loop bios boot_ram_region_max 0 buffer [] in
    show_msg (record (show_msg b "try to detect memory:") { ram_regions = regions })
      (if well then "ok.\r\n" else "failed.\r\n")

-- The loader's table: nothing, code and data, each of four 16-bit words.
abbrev pub gdt_table : List (ℕ × ℕ × ℕ × ℕ)
gdt_table = (0, 0, 0, 0) ∷ (0xffff, 0x0000, 0x9a00, 0x00cf) ∷ (0xffff, 0x0000, 0x9200, 0x00cf) ∷ []

-- `gdt` is the address of the table, and `entry` that of protect_mode_entry.
unfoldable pub enter_protect_mode : Ptr → Ptr → Boot → Boot
unfolding outb lgdt
enter_protect_mode gdt entry b = record b {
  interrupts = false;
  io = outb b.io 0x92 (bit_or (inb b.io 0x92) 2);
  gdtr = lgdt gdt (3 * 8);
  cr0 = bit_or b.cr0 (2 ^ 0);
  jumped = some (8, entry);
}

unfoldable pub loader_entry : Bios → SmapEntry → Ptr → Ptr → Boot → Boot
unfolding show_msg detect_memory enter_protect_mode
loader_entry bios buffer gdt entry b =
    enter_protect_mode gdt entry (detect_memory bios buffer (show_msg b "....loading.....\r\n"))
