-- ===== src/Cpu/Irq.antt =====
-- source/kernel/cpu/irq.c and source/kernel/include/cpu/irq.h: the table of interrupt gates, the masks of
-- the two interrupt controllers and the end-of-interrupt messages; source/kernel/dev/time.c.
pub mod Masks
pub mod Gates
pub mod Handlers
use Prim.Native.Nat.{bit_and, bit_or}
use start.Base.{
  ℕ, zero, suc, ◌+◌, ◌-◌, ◌*◌, ◌/◌, ◌%◌, ◌^◌, Bool, true, false, List, [], ◌∷◌, if◌then◌else◌, ◌==◌,
  ltb, leb, not32, add32, byte_set, byte_clear, Ptr,
}
use start.Cpu.Instr.{Ports, outb, inb, TableReg, lidt}
use start.Core.Sched.{Sched, os_tick_ms, Ticked, task_time_tick}
use start.Cpu.Gdt.{GateDesc, gate_desc, kernel_selector_cs, gate_p_present, gate_type_idt, set_desc}

abbrev pub ide_table_nr : ℕ
ide_table_nr = 128

abbrev pub irq_pic_start : ℕ
irq_pic_start = 0x20

abbrev pub pic0_icw1 : ℕ
pic0_icw1 = 0x20

abbrev pub pic0_icw2 : ℕ
pic0_icw2 = 0x21

abbrev pub pic0_icw3 : ℕ
pic0_icw3 = 0x21

abbrev pub pic0_icw4 : ℕ
pic0_icw4 = 0x21

abbrev pub pic0_ocw2 : ℕ
pic0_ocw2 = 0x20

abbrev pub pic0_imr : ℕ
pic0_imr = 0x21

abbrev pub pic1_icw1 : ℕ
pic1_icw1 = 0xa0

abbrev pub pic1_icw2 : ℕ
pic1_icw2 = 0xa1

abbrev pub pic1_icw3 : ℕ
pic1_icw3 = 0xa1

abbrev pub pic1_icw4 : ℕ
pic1_icw4 = 0xa1

abbrev pub pic1_ocw2 : ℕ
pic1_ocw2 = 0xa0

abbrev pub pic1_imr : ℕ
pic1_imr = 0xa1

abbrev pub pic_icw1_icw4 : ℕ
pic_icw1_icw4 = 2 ^ 0

abbrev pub pic_icw1_always_1 : ℕ
pic_icw1_always_1 = 2 ^ 4

abbrev pub pic_icw4_8086 : ℕ
pic_icw4_8086 = 2 ^ 0

abbrev pub pic_ocw2_eoi : ℕ
pic_ocw2_eoi = 2 ^ 5

abbrev pub irq0_timer : ℕ
irq0_timer = 0x20

-- The ports, the gates, what `lidt` has loaded, the flags register and the counter of ticks.
pub record Irq : Type 0 where
  pub io : Ports
  pub idt_table : ℕ → GateDesc
  pub idtr : TableReg
  pub eflags : ℕ
  pub sys_tick : ℕ

-- `outb(port, value)`
abbrev pub out : Irq → ℕ → ℕ → Irq
out q port value = record q { io = outb q.io port value }

-- The gate of a handler.
abbrev pub idt_gate : Ptr → GateDesc
idt_gate handler = gate_desc kernel_selector_cs handler (gate_p_present + gate_type_idt)

abbrev pub set_gate : Irq → ℕ → Ptr → Irq
set_gate q i handler = record q {
  idt_table = λ j. if j == i then idt_gate handler else q.idt_table j;
}

-- Returns whether it was installed: `false` stands for -1. The number is a C int of 0 or more.
unfoldable pub irq_install : Irq → ℕ → Ptr → Irq × Bool
irq_install q irq_num handler =
    if leb ide_table_nr irq_num then (q, false) else (set_gate q irq_num handler, true)

-- `init_pic`
unfoldable pub init_pic : Irq → Irq
init_pic q0 =
    let q1 = out q0 pic0_icw1 (bit_or pic_icw1_always_1 pic_icw1_icw4) in
    let q2 = out q1 pic0_icw2 irq_pic_start in
    let q3 = out q2 pic0_icw3 (2 ^ 2) in
    let q4 = out q3 pic0_icw4 pic_icw4_8086 in
    let q5 = out q4 pic1_icw1 (bit_or pic_icw1_icw4 pic_icw1_always_1) in
    let q6 = out q5 pic1_icw2 (irq_pic_start + 8) in
    let q7 = out q6 pic1_icw3 2 in
    let q8 = out q7 pic1_icw4 pic_icw4_8086 in
    let q9 = out q8 pic0_imr (bit_and 0xff (not32 (2 ^ 2))) in out q9 pic1_imr 0xff

-- The loop of `irq_init` that fills the table, for `left` gates from `i` on.
unfoldable pub fill_gates : Irq → Ptr → ℕ → ℕ → Irq
fill_gates q handler i zero = q
fill_gates q handler i (suc left) = fill_gates (set_gate q i handler) handler (i + 1) left

-- The handlers, by the names of their entries `exception_handler_...` in start.S.
pub data Exception : Type 0 where
  unknown : Exception
  divider : Exception
  debug : Exception
  nmi : Exception
  breakpoint : Exception
  overflow : Exception
  bound_range : Exception
  invalid_opcode : Exception
  device_unavailable : Exception
  double_fault : Exception
  invalid_tss : Exception
  segment_not_present : Exception
  stack_segment_fault : Exception
  general_protection : Exception
  page_fault : Exception
  fpu_error : Exception
  alignment_check : Exception
  machine_check : Exception
  smd_exception : Exception
  virtual_exception : Exception
  control_exception : Exception

-- The calls of `irq_install`, with the numbers of source/kernel/include/cpu/irq.h.
abbrev pub exceptions : List (ℕ × Exception)
exceptions =
    (0, divider)
    ∷ (1, debug)
    ∷ (2, nmi)
    ∷ (3, breakpoint)
    ∷ (4, overflow)
    ∷ (5, bound_range)
    ∷ (6, invalid_opcode)
    ∷ (7, device_unavailable)
    ∷ (8, double_fault)
    ∷ (10, invalid_tss)
    ∷ (11, segment_not_present)
    ∷ (12, stack_segment_fault)
    ∷ (13, general_protection)
    ∷ (14, page_fault)
    ∷ (16, fpu_error)
    ∷ (17, alignment_check)
    ∷ (18, machine_check)
    ∷ (19, smd_exception)
    ∷ (20, virtual_exception)
    ∷ (21, control_exception)
    ∷ []

unfoldable pub install_all : Irq → (Exception → Ptr) → List (ℕ × Exception) → Irq
unfolding irq_install
install_all q entry [] = q
install_all q entry ((irq_num, exception) ∷ rest) =
    install_all (irq_install q irq_num (entry exception)).0 entry rest

-- A gate has 8 bytes.
abbrev pub load_idt : Ptr → Irq → Irq
load_idt table q = record q { idtr = lidt table (ide_table_nr * 8) }

-- `entry` gives the addresses of the handlers' entries, and `table` that of idt_table.
unfoldable pub irq_init : (Exception → Ptr) → Ptr → Irq → Irq
unfolding fill_gates install_all init_pic
irq_init entry table q =
    let filled = fill_gates q (entry unknown) 0 ide_table_nr in
    init_pic (load_idt table (install_all filled entry exceptions))

unfoldable pub irq_enable : Irq → ℕ → Irq
irq_enable q irq_num =
    let n = irq_num - irq_pic_start in
    if ltb irq_num irq_pic_start
    then q
    else if ltb n 8
    then out q pic0_imr (byte_clear (inb q.io pic0_imr) n)
    else out q pic1_imr (byte_clear (inb q.io pic1_imr) (n - 8))

unfoldable pub irq_disable : Irq → ℕ → Irq
irq_disable q irq_num =
    let n = irq_num - irq_pic_start in
    if ltb irq_num irq_pic_start
    then q
    else if ltb n 8
    then out q pic0_imr (byte_set (inb q.io pic0_imr) n)
    else out q pic1_imr (byte_set (inb q.io pic1_imr) (n - 8))

abbrev pub eflags_if : ℕ
eflags_if = 2 ^ 9

-- `cli` and `sti` change the interrupt flag alone.
unfoldable pub irq_disable_global : Irq → Irq
irq_disable_global q = record q { eflags = q.eflags % 2 ^ 9 + q.eflags / 2 ^ 10 * 2 ^ 10 }

unfoldable pub irq_enable_global : Irq → Irq
irq_enable_global q = record q { eflags = q.eflags % 2 ^ 9 + 2 ^ 9 + q.eflags / 2 ^ 10 * 2 ^ 10 }

unfoldable pub irq_enter_protection : Irq → Irq × ℕ
unfolding irq_disable_global
irq_enter_protection q = (irq_disable_global q, q.eflags)

unfoldable pub irq_leave_protection : Irq → ℕ → Irq
irq_leave_protection q state = record q { eflags = state }

-- The number is that of an interrupt of the controllers, from irq_pic_start on.
unfoldable pub pic_send_eoi : Irq → ℕ → Irq
pic_send_eoi q irq_num =
    let n = irq_num - irq_pic_start in
    out (if leb 8 n then out q pic1_ocw2 pic_ocw2_eoi else q) pic0_ocw2 pic_ocw2_eoi

-- source/kernel/dev/time.c: the interrupt counts a tick, is acknowledged, and the scheduler ticks.
unfoldable pub do_handler_timer : ℕ → Irq → Sched → Irq × Ticked
unfolding pic_send_eoi task_time_tick
do_handler_timer fuel q k =
    let counted = record q { sys_tick = add32 q.sys_tick 1 } in
    (pic_send_eoi counted irq0_timer, task_time_tick fuel k)

abbrev pub pit_osc_freq : ℕ
pit_osc_freq = 1193182

-- `init_pit`: mode 3, low byte first; `handler` is the address of exception_handler_timer.
unfoldable pub init_pit : Ptr → Irq → Irq
unfolding irq_install irq_enable
init_pit handler q =
    let reload_count = pit_osc_freq * os_tick_ms / 1000 in
    let q1 = out q 0x43 0x36 in
    let q2 = out q1 0x40 (bit_and reload_count 0xff) in
    let q3 = out q2 0x40 (bit_and (reload_count / 2 ^ 8) 0xff) in
    irq_enable (irq_install q3 irq0_timer handler).0 irq0_timer

unfoldable pub time_init : Ptr → Irq → Irq
unfolding init_pit
time_init handler q = init_pit handler (record q { sys_tick = 0 })
