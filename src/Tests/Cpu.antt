-- ===== src/Tests/Cpu.antt =====
-- The theorems on source/kernel/cpu at concrete tables and registers.
use start.Base.{refl, arith, [], if◌then◌else◌, ◌==◌, Ptr}
use start.Tools.LinkedList.{list_count}
use start.Cpu.Gdt.{SegmentDesc, Cpu, cpu_init, gdt_alloc_desc}
use start.Cpu.Gdt.Slots.{Allocates, alloc_desc-Allocates}
use start.Cpu.Gdt.Initial.{Initial, cpu_init-Initial}
use start.Cpu.Irq.{Irq, Exception, unknown, divider, page_fault}
use start.Core.Init.{Entries}
use start.Ipc.Mutex.Idle.{IdleMutex}
use start.Tests.Data.{sleeping}

abbrev zero_desc : SegmentDesc
zero_desc = record { limit15_0 = 0; base15_0 = 0; base23_16 = 0; attr = 0; base31_24 = 0 }

abbrev one_taken : Cpu
one_taken = record {
  sched = sleeping;
  gdt_table = λ i. if i == 1 then record zero_desc { attr = 0x9a } else zero_desc;
  mutex = record {
    owner = 0;
    locked_count = 0;
    wait_list = record { first = 0; last = 0; count = 0 };
  };
}

alloc_desc-Allocates_example : Allocates one_taken (gdt_alloc_desc one_taken)
unfolding list_count
alloc_desc-Allocates_example = alloc_desc-Allocates one_taken (refl, refl, refl)

cpu_init-Initial_example :
    IdleMutex (cpu_init 0x12345678 one_taken).mutex
    × Initial 0x12345678 (cpu_init 0x12345678 one_taken).gdt_table
cpu_init-Initial_example = cpu_init-Initial 0x12345678 one_taken (omega arith)

abbrev all_masked : Irq
all_masked = record {
  io = record { held = λ p. 0xff; writes = [] };
  idt_table = λ i. record { offset15_0 = 0; selector = 0; attr = 0; offset31_16 = 0 };
  idtr = record { limit = 0; start15_0 = 0; start31_16 = 0 };
  eflags = 2;
  sys_tick = 0;
}

-- Handlers sixteen bytes apart.
abbrev entries : Exception → Ptr
entries unknown = 0x8000
entries divider = 0x8010
entries page_fault = 0x80e0
entries _ = 0x9000

abbrev our_entries : Entries
our_entries = record { syscall = 0x8300; exception = entries; timer = 0x8200; table = 0x30000 }
