-- ===== src/Cpu/Gdt.antt =====
-- source/kernel/cpu/cpu.c and source/kernel/include/cpu/cpu.h: descriptors and the table of segments. An
-- entry is known by its index; a selector of the code is eight times the index. A flag is its value,
-- and `|` of words is `bit_or`. The calls run without waiting, as in Core/Memory.
pub mod Encoding
pub mod Initial
pub mod Slots
use Prim.Native.Nat.{bit_and, bit_or}
use start.Base.{
  ℕ, zero, suc, ◌+◌, ◌-◌, ◌*◌, ◌/◌, ◌%◌, ◌^◌, Bool, Option, none, some, if◌then◌else◌, ◌==◌, ltb,
  word_mod, Ptr,
}
use start.Core.Sched.{Sched}
use start.Ipc.Mutex.{Mutex, mutex_init, mutex_lock, mutex_unlock}

abbrev pub gdt_table_size : ℕ
gdt_table_size = 256

abbrev pub kernel_selector_cs : ℕ
kernel_selector_cs = 8

abbrev pub kernel_selector_ds : ℕ
kernel_selector_ds = 16

abbrev pub selector_syscall : ℕ
selector_syscall = 24

abbrev pub seg_g : ℕ
seg_g = 2 ^ 15

abbrev pub seg_d : ℕ
seg_d = 2 ^ 14

abbrev pub seg_p_present : ℕ
seg_p_present = 2 ^ 7

abbrev pub seg_s_normal : ℕ
seg_s_normal = 2 ^ 4

abbrev pub seg_type_code : ℕ
seg_type_code = 2 ^ 3

abbrev pub seg_type_rw : ℕ
seg_type_rw = 2 ^ 1

abbrev pub seg_type_tss : ℕ
seg_type_tss = 9

abbrev pub gate_p_present : ℕ
gate_p_present = 2 ^ 15

abbrev pub gate_dpl3 : ℕ
gate_dpl3 = 3 * 2 ^ 13

abbrev pub gate_type_idt : ℕ
gate_type_idt = 0xe * 2 ^ 8

abbrev pub gate_type_syscall : ℕ
gate_type_syscall = 0xc * 2 ^ 8

abbrev pub syscall_param_count : ℕ
syscall_param_count = 5

-- `segment_desc_t`
pub record SegmentDesc : Type 0 where
  pub limit15_0 : ℕ
  pub base15_0 : ℕ
  pub base23_16 : ℕ
  pub attr : ℕ
  pub base31_24 : ℕ

-- `gate_desc_t`
pub record GateDesc : Type 0 where
  pub offset15_0 : ℕ
  pub selector : ℕ
  pub attr : ℕ
  pub offset31_16 : ℕ

-- The entry that `segment_desc_set` writes.
unfoldable pub segment_desc : ℕ → ℕ → ℕ → SegmentDesc
segment_desc base limit attr =
    let attr' = if ltb 0xfffff limit then bit_or attr 0x8000 else attr in
    let limit' = if ltb 0xfffff limit then limit / 0x1000 else limit in
    record {
      limit15_0 = bit_and limit' 0xffff;
      base15_0 = bit_and base 0xffff;
      base23_16 = bit_and (base / 2 ^ 16) 0xff;
      attr = bit_or attr' (bit_and (limit' / 2 ^ 16) 0xf * 2 ^ 8);
      base31_24 = bit_and (base / 2 ^ 24) 0xff;
    }

-- The gate that `gate_desc_set` writes.
unfoldable pub gate_desc : ℕ → ℕ → ℕ → GateDesc
gate_desc selector offset attr = record {
  offset15_0 = bit_and offset 0xffff;
  selector = selector;
  attr = attr;
  offset31_16 = bit_and (offset / 2 ^ 16) 0xffff;
}

-- A gate in the table of segments: its eight bytes as a segment descriptor.
unfoldable pub as_segment : GateDesc → SegmentDesc
as_segment gate = record {
  limit15_0 = gate.offset15_0;
  base15_0 = gate.selector;
  base23_16 = gate.attr % 2 ^ 8;
  attr = gate.attr / 2 ^ 8 + gate.offset31_16 % 2 ^ 8 * 2 ^ 8;
  base31_24 = gate.offset31_16 / 2 ^ 8;
}

abbrev pub Table : Type 0
Table = ℕ → SegmentDesc

abbrev pub set_desc : Table → ℕ → SegmentDesc → Table
set_desc gdt i desc j = if j == i then desc else gdt j

unfoldable pub segment_desc_set : Table → ℕ → ℕ → ℕ → ℕ → Table
segment_desc_set gdt selector base limit attr =
    set_desc gdt (selector / 8) (segment_desc base limit attr)

-- The loop of `init_gdt`, for `left` entries from `i` on.
unfoldable pub clear_descs : Table → ℕ → ℕ → Table
clear_descs gdt i zero = gdt
clear_descs gdt i (suc left) = clear_descs (segment_desc_set gdt (i * 2 ^ 3) 0 0 0) (i + 1) left

-- `handler` is the address of exception_handler_syscall.
unfoldable pub init_gdt : Ptr → Table → Table
unfolding clear_descs segment_desc_set
init_gdt handler gdt =
    let gdt1 = clear_descs gdt 0 gdt_table_size in
    let gdt2 =
      segment_desc_set gdt1 kernel_selector_ds 0 (word_mod - 1)
        (seg_p_present + seg_s_normal + seg_type_rw + seg_d + seg_g) in
    let gdt3 =
      segment_desc_set gdt2 kernel_selector_cs 0 (word_mod - 1)
        (seg_p_present + seg_s_normal + seg_type_code + seg_type_rw + seg_d + seg_g) in
    set_desc gdt3 (selector_syscall / 2 ^ 3) (
      as_segment (
        gate_desc kernel_selector_cs handler
          (gate_p_present + gate_dpl3 + gate_type_syscall + syscall_param_count)))

-- The scheduler, the table and its mutex.
pub record Cpu : Type 0 where
  pub sched : Sched
  pub gdt_table : Table
  pub mutex : Mutex

unfoldable pub cpu_init : Ptr → Cpu → Cpu
unfolding init_gdt
cpu_init handler c = record c { gdt_table = init_gdt handler c.gdt_table; mutex = mutex_init }

-- The loop of `gdt_alloc_desc`, for `left` entries from `i` on: the first whose `attr` is 0.
unfoldable pub find_desc : Table → ℕ → ℕ → Option ℕ
find_desc gdt i zero = none
find_desc gdt i (suc left) =
    let rest = find_desc gdt (i + 1) left in if (gdt i).attr == 0 then some i else rest

-- `desc->attr = attr`
abbrev pub set_attr : Table → ℕ → ℕ → Table
set_attr gdt i attr = set_desc gdt i (record (gdt i) { attr = attr })

unfoldable pub lock_gdt : Cpu → Cpu
lock_gdt c = let (k, mutex) = mutex_lock c.sched c.mutex in record c { sched = k; mutex = mutex }

unfoldable pub unlock_gdt : Cpu → Cpu
unlock_gdt c =
    let (k, mutex) = mutex_unlock c.sched c.mutex in record c { sched = k; mutex = mutex }

-- The table and the selector, where `none` stands for -1.
unfoldable pub taken : Table → Option ℕ → Table × Option ℕ
taken gdt none = (gdt, none)
taken gdt (some i) = (set_attr gdt i seg_p_present, some (i * 8))

unfoldable pub gdt_alloc_desc : Cpu → Cpu × Option ℕ
unfolding find_desc taken
gdt_alloc_desc c =
    let locked = lock_gdt c in
    let (gdt, sel) = taken locked.gdt_table (find_desc locked.gdt_table 1 (gdt_table_size - 1)) in
    (unlock_gdt (record locked { gdt_table = gdt }), sel)

unfoldable pub gdt_free_sel : Cpu → ℕ → Cpu
gdt_free_sel c sel =
    let locked = lock_gdt c in
    unlock_gdt (record locked { gdt_table = set_attr locked.gdt_table (sel / 8) 0 })
