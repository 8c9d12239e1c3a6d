-- ===== src/Cpu/Gdt/Initial.antt =====
-- The table of segments that cpu_init of source/kernel/cpu/cpu.c leaves.
use start.Base.{
  ℕ, zero, suc, ◌+◌, ◌*◌, ◌/◌, ◌%◌, ◌^◌, ◌<◌, ◌≡◌, ◌⊎◌, refl, ap, ◌∙◌, arith, true, false, ◌&&◌,
  if◌then◌else◌, ◌==◌, leb, ltb, Ptr, bit_and_16,
}
use start.Ipc.Mutex.{mutex_init}
use start.Ipc.Mutex.Idle.{IdleMutex}
use start.Tools.LinkedList.{list_init, list_count}
use start.Cpu.Gdt.{
  SegmentDesc, Table, Cpu, set_desc, segment_desc, segment_desc_set, gate_desc, as_segment,
  clear_descs, init_gdt, cpu_init, kernel_selector_cs, gate_p_present, gate_dpl3, gate_type_syscall,
  syscall_param_count,
}
use start.Cpu.Gdt.Encoding.{base_of, limit_of, flags_of}

clear_descs_lem :
    (gdt : Table) (i left j : ℕ)
    → clear_descs gdt i left j ≡ (if leb i j && ltb j (i + left) then segment_desc 0 0 0 else gdt j)
unfolding clear_descs segment_desc_set
clear_descs_lem gdt i zero j = ground arith
clear_descs_lem gdt i (suc left) j =
    let e : i * 2 ^ 3 / 8 ≡ i = omega arith in
    rw e (ground (arith, clear_descs_lem (set_desc gdt i (segment_desc 0 0 0)) (i + 1) left j))

-- The gate in an entry: where it leads, with which selector and how many words of arguments.
abbrev pub gate_offset : SegmentDesc → ℕ
gate_offset d = d.limit15_0 + (d.attr / 2 ^ 8 + d.base31_24 * 2 ^ 8) * 2 ^ 16

abbrev pub gate_selector : SegmentDesc → ℕ
gate_selector d = d.base15_0

abbrev pub gate_words : SegmentDesc → ℕ
gate_words d = d.base23_16 % 2 ^ 5

-- A segment of all 4 GB, in units of 4 KB.
abbrev pub IsFlat : SegmentDesc → ℕ → Type 0
IsFlat d flags = (base_of d ≡ 0) × ((limit_of d + 1) * 2 ^ 12 ≡ 2 ^ 32) × (flags_of d ≡ flags)

-- Code and data of the kernel are flat, the call gate leads to `handler` with five words and may be
-- taken from user mode, and every other entry is free.
pub record Initial (handler : Ptr) (t : Table) : Type 0 where
  pub code : IsFlat (t 1) 0xc09a
  pub data_seg : IsFlat (t 2) 0xc092
  pub gate_leads : gate_offset (t 3) ≡ handler
  pub gate_enters : gate_selector (t 3) ≡ kernel_selector_cs
  pub gate_args : gate_words (t 3) ≡ 5
  pub gate_kind : (t 3).attr % 2 ^ 8 ≡ 0xec
  pub others : (j : ℕ) → j < 256 → (j ≡ 0) ⊎ (3 < j) → (t j).attr ≡ 0

call_gate_lem :
    (handler : Ptr)
    → handler < 2 ^ 32
    → let d = as_segment (
        gate_desc kernel_selector_cs handler
          (gate_p_present + gate_dpl3 + gate_type_syscall + syscall_param_count)) in
      (gate_offset d ≡ handler)
      × (gate_selector d ≡ kernel_selector_cs)
      × (gate_words d ≡ 5)
      × (d.attr % 2 ^ 8 ≡ 0xec)
unfolding as_segment gate_desc
call_gate_lem handler h =
    rw (bit_and_16 handler, bit_and_16 (handler / 2 ^ 16)) (omega arith, refl, refl, omega arith)

-- The entries apart from the three that are set.
init_gdt_other :
    (handler : Ptr) (gdt : Table) (j : ℕ)
    → (j ≡ 0) ⊎ (3 < j)
    → init_gdt handler gdt j ≡ clear_descs gdt 0 256 j
unfolding init_gdt segment_desc_set
init_gdt_other handler gdt j h =
    let a : (j == 1) ≡ false = ground arith in
    let b : (j == 2) ≡ false = ground arith in
    let c : (j == 3) ≡ false = ground arith in rw (a, b, c) refl

cleared_attr : (gdt : Table) (j : ℕ) → j < 256 → (clear_descs gdt 0 256 j).attr ≡ 0
unfolding segment_desc
cleared_attr gdt j h =
    let t : (leb 0 j && ltb j (0 + 256)) ≡ true = ground arith in
    ap (λ (d : SegmentDesc). d.attr) (clear_descs_lem gdt 0 256 j) ∙ rw t refl

-- cpu_init leaves flat segments of 4 GB for the code and the data of the kernel, a call gate that
-- leads to the handler with five words of arguments and may be taken from user mode, every other
-- entry free, and the mutex of the table free; for a handler below 2 ^ 32.
pub cpu_init-Initial :
    (handler : Ptr) (c : Cpu)
    → handler < 2 ^ 32
    → IdleMutex (cpu_init handler c).mutex × Initial handler (cpu_init handler c).gdt_table
unfolding cpu_init init_gdt segment_desc_set segment_desc mutex_init list_init list_count
cpu_init-Initial handler c h =
    let (leads, enters, words, kind) = call_gate_lem handler h in
    (
      (refl, refl, refl),
      record {
        code = (refl, refl, refl);
        data_seg = (refl, refl, refl);
        gate_leads = leads;
        gate_enters = enters;
        gate_args = words;
        gate_kind = kind;
        others = λ j lt free.
            ap (λ (d : SegmentDesc). d.attr) (init_gdt_other handler c.gdt_table j free)
            ∙ cleared_attr c.gdt_table j lt;
      },
    )
