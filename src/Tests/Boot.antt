-- ===== src/Tests/Boot.antt =====
-- The theorems on source/loader at small memory maps and at a disk of counting words.
use start.Base.{
  ℕ, zero, suc, ◌*◌, ◌%◌, ◌^◌, ◌≤◌, ◌≡◌, refl, arith, false, none, some, List, [], ◌∷◌,
  if◌then◌else◌, ◌==◌, Mem,
}
use start.Tools.LinkedList.Links.{length}
use start.Core.Memory.Setup.{total_mem_size}
use start.Cpu.Instr.{Ports}
use start.Loader.Real.{SmapEntry, Bios, smap, Boot, detect_memory}
use start.Loader.Real.Regions.{answer, regions_bound, ignored_last_counts}
use start.Loader.Disk.{read_disk}
use start.Loader.Disk.Sectors.{Loaded, read_disk-Loaded}
use start.Loader.Kernel.{ControlRegs}

abbrev low_memory : SmapEntry
low_memory = record { base_l = 0; base_h = 0; length_l = 0x9fc00; length_h = 0; kind = 1; acpi = 1 }

abbrev reserved : SmapEntry
reserved = record {
  base_l = 0xf0000;
  base_h = 0;
  length_l = 0x10000;
  length_h = 0;
  kind = 2;
  acpi = 1;
}

abbrev unused : SmapEntry
unused = record { base_l = 0; base_h = 0; length_l = 0; length_h = 0; kind = 0; acpi = 0 }

-- Two entries, the second one the last.
abbrev two_entries : Bios
two_entries cont_id buffer = if cont_id == 0 then answer 7 low_memory else answer 0 reserved

-- One entry, and then one to be ignored.
abbrev one_and_ignored : Bios
one_and_ignored cont_id buffer =
    if cont_id == 0
    then answer 7 low_memory
    else record { signature = smap; bytes = 24; cont_id = 0; entry = unused }

abbrev no_ports : Ports
no_ports = record { held = λ p. 0; writes = [] }

abbrev power_on : Boot
power_on = record {
  screen = [];
  ram_regions = [];
  io = no_ports;
  interrupts = false;
  cr0 = 0x10;
  gdtr = record { limit = 0; start15_0 = 0; start31_16 = 0 };
  jumped = none;
}

regions_bound_example : length (detect_memory two_entries unused power_on).ram_regions ≤ 10
regions_bound_example = regions_bound two_entries unused power_on

ignored_last_counts_example :
    total_mem_size (detect_memory one_and_ignored unused power_on).ram_regions
    ≡ 5 * 0x9fc00 % 2 ^ 32
ignored_last_counts_example =
    ignored_last_counts one_and_ignored unused low_memory unused power_on
      (7, (λ e. absurd (omega arith)), (λ buffer. refl), (λ buffer. refl), refl) refl

abbrev blank : Mem
blank a = 0

read_disk-Loaded_example :
    (io' : Ports) × (m' : Mem) × (rest : List ℕ) × (read_disk no_ports
        (0x80 ∷ 0x08 ∷ [])
        blank
        (λ i. i)
        0x12345678
        1
        0x100000
      ≡ some (io', m', rest))
    × Loaded blank (λ i. i) 0x12345678 1 0x100000 io' m'
read_disk-Loaded_example =
    read_disk-Loaded no_ports (0x80 ∷ 0x08 ∷ []) blank (λ i. i) 0x12345678 1 0x100000 (omega arith)
      (omega arith) (omega arith)

abbrev ready_reads : ℕ → List ℕ
ready_reads zero = []
ready_reads (suc n) = 0x08 ∷ ready_reads n

abbrev real_mode : ControlRegs
real_mode = record { cr0 = 0x11; cr3 = 0; cr4 = 0 }
