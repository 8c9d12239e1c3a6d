-- ===== src/Core/Task.antt =====
-- The making of tasks in source/kernel/core/task.c: the segment, the stack and the address space of a
-- task, the first task and the idle task. It brings together the machine of Core/Memory and the table
-- of Cpu/Gdt. The addresses that the linker assigns are the fields of Symbols, and `none` stands for
-- a failed ASSERT.
pub mod Twice
use Prim.Native.Nat.{bit_and, bit_or}
use start.Base.{
  ℕ, zero, suc, ◌+◌, ◌-◌, ◌*◌, ◌^◌, Bool, true, false, ◌||◌, Option, none, some, if◌then◌else◌,
  ◌==◌, ltb, word_mod, sub32, Ptr, null, Mem, poke,
}
use start.Tools.Klib.{kernel_memset, kernel_memcpy}
use start.Tools.Klib.Text.{kernel_strncpy}
use start.Tools.LinkedList.{Nodes, LinkedList, list_init, list_node_init, list_insert_last}
use start.Core.Sched.{Sched, Task, created, run_node, wait_node, all_node, set_task, task_set_ready}
use start.Core.Mmu.{pte_p, pte_w, pte_u}
use start.Core.Memory.{
  Machine, Space, with_mem, mem_page_size, memory_alloc_page, memory_alloc_page_for,
  memory_free_page,
}
use start.Core.Memory.Uvm.{memory_create_uvm}
use start.Core.Memory.Setup.{mmu_set_page_dir}
use start.Ipc.Mutex.{Mutex}
use start.Cpu.Gdt.{
  Table, Cpu, segment_desc_set, gdt_alloc_desc, gdt_free_sel, kernel_selector_cs,
  kernel_selector_ds,
}

-- The fields of `tss_t` that the code sets; its cr3 is that of Space.
pub record Tss : Type 0 where
  pub eip : ℕ
  pub eflags : ℕ
  pub esp : ℕ
  pub esp0 : ℕ
  pub ss0 : ℕ
  pub code_sel : ℕ
  pub data_sel : ℕ
  pub iomap : ℕ

abbrev pub zero_tss : Tss
zero_tss = record {
  eip = 0;
  eflags = 0;
  esp = 0;
  esp0 = 0;
  ss0 = 0;
  code_sel = 0;
  data_sel = 0;
  iomap = 0;
}

-- The kernel as far as tasks go: what the tasks hold beside Sched and Space, the selectors of
-- applications, and the task register.
pub record Kernel : Type 0 where
  pub machine : Machine
  pub gdt_table : Table
  pub gdt_mutex : Mutex
  pub tss : Ptr → Tss
  pub heap_start : Ptr → ℕ
  pub app_code_sel : ℕ
  pub app_data_sel : ℕ
  pub task_register : ℕ

pub record Symbols : Type 0 where
  pub kernel_page_dir : Ptr
  pub task_table : Ptr
  pub first_task : Ptr
  pub idle_task : Ptr
  pub first_task_entry : ℕ
  pub s_first_task : Ptr
  pub e_first_task : Ptr
  pub idle_task_entry : ℕ
  pub idle_stack_top : ℕ
  pub first_task_name : Ptr
  pub idle_task_name : Ptr

abbrev pub task_size : ℕ
task_size = 200

abbrev pub task_name_size : ℕ
task_name_size = 32

abbrev pub task_time_slice_default : ℕ
task_time_slice_default = 10

-- Where `name` and `tss` lie in a `task_t`.
abbrev pub name_offset : ℕ
name_offset = 4

abbrev pub tss_offset : ℕ
tss_offset = 68

abbrev pub tss_size : ℕ
tss_size = 104

abbrev pub with_machine : Kernel → Machine → Kernel
with_machine k s = record k { machine = s }

abbrev pub with_sched : Kernel → Sched → Kernel
with_sched k s = record k { machine = record k.machine { sched = s } }

abbrev pub set_tss : Kernel → Ptr → Tss → Kernel
set_tss k task t = record k { tss = λ a. if a == task then t else k.tss a }

abbrev pub set_cr3 : Kernel → Ptr → ℕ → Kernel
set_cr3 k task v =
    let space = record (k.machine.spaces task) { cr3 = v } in
    with_machine k
      (record k.machine { spaces = λ a. if a == task then space else k.machine.spaces a })

-- The view of Cpu/Gdt, and back.
abbrev pub cpu_of : Kernel → Cpu
cpu_of k = record { sched = k.machine.sched; gdt_table = k.gdt_table; mutex = k.gdt_mutex }

abbrev pub with_cpu : Kernel → Cpu → Kernel
with_cpu k c = record (with_sched k c.sched) { gdt_table = c.gdt_table; gdt_mutex = c.mutex }

abbrev pub set_segment : Kernel → ℕ → ℕ → ℕ → ℕ → Kernel
set_segment k sel base limit attr = record k {
  gdt_table = segment_desc_set k.gdt_table sel base limit attr;
}

-- tss_init_failed: `false` stands for -1.
unfoldable pub tss_init_failed : Kernel → ℕ → ℕ → Option (Kernel × Bool)
tss_init_failed k tss_sel kernel_stack =
    let freed = with_cpu k (gdt_free_sel (cpu_of k) tss_sel) in
    if kernel_stack == 0
    then some (freed, false)
    else elim (memory_free_page freed.machine kernel_stack) [
      | none ↦ none
      | some s ↦ some (with_machine freed s, false)
    ]

-- `TASK_FLAG_SYSTEM` is bit 0 of the flags; the selectors of applications get the lowest privilege.
abbrev pub selectors : Kernel → ℕ → ℕ × ℕ
selectors k flag =
    if bit_and flag 1 == 0
    then (bit_or k.app_code_sel 3, bit_or k.app_data_sel 3)
    else (kernel_selector_cs, kernel_selector_ds)

-- The registers of a task that starts at `entry`, with interrupts on.
abbrev pub start_tss : ℕ → ℕ → ℕ → ℕ × ℕ → Tss
start_tss entry esp kernel_stack (code_sel, data_sel) = record {
  eip = entry;
  eflags = bit_or 2 (2 ^ 9);
  esp = esp;
  esp0 = kernel_stack + mem_page_size;
  ss0 = kernel_selector_ds;
  code_sel = code_sel;
  data_sel = data_sel;
  iomap = 0;
}

abbrev pub set_tss_sel : Kernel → Ptr → ℕ → Kernel
set_tss_sel k task sel =
    let s = k.machine.sched in
    with_sched k (set_task s task (record (s.tasks task) { tss_sel = sel }))

-- `tss_init` from the allocated selector on.
unfoldable pub tss_fill : Symbols → Kernel → Ptr → ℕ → ℕ → ℕ → ℕ → Option (Kernel × Bool)
unfolding tss_init_failed
tss_fill sy k task flag entry esp tss_sel =
    let k1 =
      set_cr3 (set_tss (set_segment k tss_sel (task + tss_offset) tss_size 0x89) task zero_tss) task
        0 in
    let (s2, kernel_stack) = memory_alloc_page k1.machine in
    let k2 = with_machine k1 s2 in
    let k3 = set_tss k2 task (start_tss entry esp kernel_stack (selectors k2 flag)) in
    let (s4, page_dir) = memory_create_uvm sy.kernel_page_dir k3.machine in
    let k4 = with_machine k3 s4 in
    if kernel_stack == 0
    then tss_init_failed k2 tss_sel 0
    else if page_dir == 0
    then tss_init_failed k4 tss_sel kernel_stack
    else some (set_tss_sel (set_cr3 k4 task page_dir) task tss_sel, true)

unfoldable pub tss_init : Symbols → Kernel → Ptr → ℕ → ℕ → ℕ → Option (Kernel × Bool)
unfolding tss_fill
tss_init sy k task flag entry esp =
    let (c, sel) = gdt_alloc_desc (cpu_of k) in
    elim sel [
      | none ↦ some (with_cpu k c, false)
      | some tss_sel ↦ tss_fill sy (with_cpu k c) task flag entry esp tss_sel
    ]

-- The rest of `task_init`, on the scheduler: the fields, the nodes and the lists.
unfoldable pub enter_lists : Sched → Ptr → Sched
unfolding task_set_ready
enter_lists s task =
    let fields = set_task s task (record (s.tasks task) {
      state = created;
      sleep_ticks = 0;
      time_ticks = task_time_slice_default;
      slice_ticks = task_time_slice_default;
    }) in
    let nodes =
      list_node_init (list_node_init (list_node_init fields.nodes (all_node task)) (run_node task))
        (wait_node task) in
    let ready = task_set_ready (record fields { nodes = nodes }) task in
    let (nodes', task_list) = list_insert_last ready.nodes ready.task_list (all_node task) in
    record ready { nodes = nodes'; task_list = task_list }

-- The result of `tss_init` is not looked at.
unfoldable pub task_init : Symbols → Kernel → Ptr → Ptr → ℕ → ℕ → ℕ → Option Kernel
unfolding tss_init enter_lists
task_init sy k task name flag entry esp =
    if task == null then none else elim (tss_init sy k task flag entry esp) [
      | none ↦ none
      | some (k', ok) ↦
          let m = kernel_strncpy k'.machine.mem (task + name_offset) name task_name_size in
          let named = with_machine k' (with_mem k'.machine m) in
          some (with_sched named (enter_lists named.machine.sched task))
    ]

unfoldable pub task_start : Kernel → Ptr → Kernel
task_start k task = with_sched k (task_set_ready k.machine.sched task)

-- `kernel_memcpy` where both areas are reached through the page directory in force; `translate` is the
-- paging unit, as in Core/Memory/Uvm.
unfoldable pub virtual_loop : (Mem → Ptr → Ptr → Ptr) → Ptr → Mem → Ptr → Ptr → ℕ → Mem
virtual_loop translate cr3 m d src zero = m
virtual_loop translate cr3 m d src (suc n) =
    virtual_loop translate cr3 (poke m (translate m cr3 d) (m (translate m cr3 src))) (d + 1)
      (src + 1) n

unfoldable pub virtual_memcpy : (Mem → Ptr → Ptr → Ptr) → Ptr → Mem → Ptr → Ptr → ℕ → Mem
unfolding virtual_loop
virtual_memcpy translate cr3 m dest src size =
    if dest == null || src == null || size == 0
    then m
    else virtual_loop translate cr3 m dest src size

-- `task_first_init` once the task is made: its heap, its address space, its pages, its code. The
-- result of `memory_alloc_page_for` is not looked at.
unfoldable pub first_run : (Mem → Ptr → Ptr → Ptr) → Symbols → Kernel → ℕ → ℕ → Option Kernel
unfolding task_start virtual_memcpy
first_run translate sy k copy_size alloc_size =
    let space = record (k.machine.spaces sy.first_task) { heap_end = sy.e_first_task } in
    let s = record k.machine {
      spaces = λ a. if a == sy.first_task then space else k.machine.spaces a;
      sched = record k.machine.sched { curr_task = sy.first_task };
    } in
    let entry = sy.first_task_entry in
    let perm = bit_or (bit_or pte_p pte_w) pte_u in
    elim (memory_alloc_page_for (mmu_set_page_dir s space.cr3) entry alloc_size perm) [
      | none ↦ none
      | some (s', err) ↦
          let m =
            virtual_memcpy translate s'.page_dir_register s'.mem entry sy.s_first_task copy_size in
          let k' = record k {
            machine = with_mem s' m;
            heap_start = λ a. if a == sy.first_task then sy.e_first_task else k.heap_start a;
          } in
          let started = task_start k' sy.first_task in
          some
            (record started { task_register = (started.machine.sched.tasks sy.first_task).tss_sel })
    ]

unfoldable pub task_first_init : (Mem → Ptr → Ptr → Ptr) → Symbols → Kernel → Option Kernel
unfolding task_init first_run
task_first_init translate sy k =
    let copy_size = sub32 sy.e_first_task sy.s_first_task in
    let alloc_size = 10 * mem_page_size in
    let entry = sy.first_task_entry in
    if ltb copy_size alloc_size
    then elim (task_init sy k sy.first_task sy.first_task_name 0 entry (entry + alloc_size)) [
      | none ↦ none
      | some k' ↦ first_run translate sy k' copy_size alloc_size
    ]
    else none

-- A flat segment for applications. A selector of -1 goes on as the code's int does: it is no index
-- of the table, and the model leaves the table.
unfoldable pub app_segment : Kernel → ℕ → Kernel × ℕ
app_segment k attr =
    let (c, sel) = gdt_alloc_desc (cpu_of k) in
    elim sel [
      | none ↦ (with_cpu k c, word_mod - 1)
      | some sel ↦ (set_segment (with_cpu k c) sel 0 (word_mod - 1) attr, sel)
    ]

unfoldable pub task_manager_init : Symbols → Kernel → Option Kernel
unfolding app_segment task_init task_start
task_manager_init sy k =
    let m = kernel_memset k.machine.mem sy.task_table 0 (128 * task_size) in
    let (k1, data_sel) = app_segment (with_machine k (with_mem k.machine m)) 0x40f2 in
    let (k2, code_sel) = app_segment (record k1 { app_data_sel = data_sel }) 0x40fa in
    let lists = record k2.machine.sched {
      ready_list = list_init;
      task_list = list_init;
      sleep_list = list_init;
    } in
    let k3 = with_sched (record k2 { app_code_sel = code_sel }) lists in
    elim (task_init sy k3 sy.idle_task sy.idle_task_name 1 sy.idle_task_entry sy.idle_stack_top) [
      | none ↦ none
      | some k4 ↦
          let none_runs = with_sched k4 (record k4.machine.sched { curr_task = null }) in
          some (task_start none_runs sy.idle_task)
    ]
