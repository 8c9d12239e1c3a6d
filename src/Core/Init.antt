-- ===== src/Core/Init.antt =====
-- source/kernel/init/init.c: the order in which the parts of the kernel are set up, the first messages, and
-- the jump into the first task. What memory_init logs is left out but for the list of regions.
pub mod Devices
use start.Base.{
  ℕ, ◌+◌, ◌%◌, word_mod, Option, none, some, List, [], ◌∷◌, ◌++◌, if◌then◌else◌, ◌==◌, add32, sub32,
  Ptr, null, Mem,
}
use start.Core.Memory.Setup.{RamRegion, Image, memory_init}
use start.Core.Task.{
  Kernel, Symbols, with_machine, cpu_of, with_cpu, task_first_init, task_manager_init,
}
use start.Cpu.Gdt.{cpu_init}
use start.Cpu.Instr.{Ports}
use start.Cpu.Irq.{Irq, Exception, irq_init, time_init}
use start.Cpu.Irq.Handlers.{Line, say, number, text}
use start.Tools.Log.{Serial, log_init}

-- The kernel with its serial port and its interrupts; both write to the ports of `irq`.
pub record Booting : Type 0 where
  pub kernel : Kernel
  pub log : Serial
  pub irq : Irq

-- The addresses of the handlers: of the call gate, of exceptions and of the timer, and of idt_table.
pub record Entries : Type 0 where
  pub syscall : Ptr
  pub exception : Exception → Ptr
  pub timer : Ptr
  pub table : Ptr

-- `show_mem_info`
unfoldable pub region_lines : ℕ → List RamRegion → List Line
region_lines i [] = []
region_lines i (region ∷ rest) =
    record {
      fmt = "[%d]: 0x%x - 0x%x";
      args = number i ∷ number region.start ∷ number region.size ∷ [];
    }
    ∷ region_lines (i + 1) rest

unfoldable pub show_mem_info : List RamRegion → List Line
unfolding region_lines
show_mem_info regions = say "mem region:" ∷ (region_lines 0 regions ++ say "\n" ∷ [])

-- `io` are the ports and `reads` the statuses of the serial port.
unfoldable pub init_ports : Entries → List ℕ → Irq → Serial × Irq
init_ports entries reads q =
    let log = log_init q.io reads in
    let opened = irq_init entries.exception entries.table (record q { io = log.io }) in
    (log, time_init entries.timer opened)

unfoldable pub kernel_init :
    Image → Symbols → Entries → List ℕ → List RamRegion → Kernel → Irq → Option Booting
unfolding init_ports
kernel_init image sy entries reads regions k q =
    let k1 = with_cpu k (cpu_init entries.syscall (cpu_of k)) in
    let (log, irq) = init_ports entries reads q in
    elim (memory_init image regions k1.machine) [
      | none ↦ none
      | some s ↦ elim (task_manager_init sy (with_machine k1 s)) [
        | none ↦ none
        | some k2 ↦ some (record { kernel = k2; log = log; irq = irq })
      ]
    ]

-- What `iret` takes from the stack, the word at the top first.
pub record IretFrame : Type 0 where
  pub eip : ℕ
  pub code_sel : ℕ
  pub eflags : ℕ
  pub esp : ℕ
  pub stack_sel : ℕ

unfoldable pub move_to_first_task : Kernel → Option IretFrame
move_to_first_task k =
    let curr = k.machine.sched.curr_task in
    let tss = k.tss curr in
    if curr == null
    then none
    else some (record {
      eip = tss.eip;
      code_sel = tss.code_sel;
      eflags = tss.eflags;
      esp = tss.esp;
      stack_sel = tss.data_sel;
    })

abbrev pub start_lines : List Line
start_lines =
    say "Kernel is running...." ∷ record { fmt = "Version: %s"; args = text "0.0.1" ∷ [] } ∷ []

-- The messages, and the state and the frame with which the first task is entered.
unfoldable pub init_main :
    (Mem → Ptr → Ptr → Ptr) → Symbols → Kernel → List Line × Option (Kernel × IretFrame)
init_main translate sy k = (
  start_lines,
  elim (task_first_init translate sy k) [
    | none ↦ none
    | some k' ↦ elim (move_to_first_task k') [ none ↦ none | some f ↦ some (k', f) ]
  ],
)
