-- ===== src/Cpu/Irq/Gates.antt =====
-- The table of gates and the masks that irq_init of source/kernel/cpu/irq.c and time_init of
-- source/kernel/dev/time.c leave.
use start.Base.{
  ℕ, zero, suc, ◌+◌, ◌-◌, ◌*◌, ◌^◌, ◌<◌, ◌≡◌, refl, ap, ◌∙◌, arith, Bool, true, false, Bool-cases,
  inl, inr, ◌&&◌, ◌||◌, if◌then◌else◌, ◌==◌, ltb, leb, List, [], ◌∷◌, Ptr, bit_at, passes,
  passes_at, ==_iff,
}
use start.Cpu.Instr.{Ports, outb, lidt, table_start}
use start.Cpu.Gdt.{GateDesc}
use start.Cpu.Irq.{
  Irq, ide_table_nr, irq_pic_start, pic0_imr, pic1_imr, irq0_timer, idt_gate, set_gate, irq_install,
  fill_gates, install_all, init_pic, load_idt, irq_init, irq_enable, init_pit, time_init, Exception,
  exceptions, unknown, divider, debug, nmi, breakpoint, overflow, bound_range, invalid_opcode,
  device_unavailable, double_fault, invalid_tss, segment_not_present, stack_segment_fault,
  general_protection, page_fault, fpu_error, alignment_check, machine_check, smd_exception,
  virtual_exception, control_exception,
}
use start.Cpu.Irq.Masks.{masked}

fill_gates_lem :
    (q : Irq) (handler : Ptr) (i left j : ℕ)
    → (fill_gates q handler i left).idt_table j
      ≡ (if leb i j && ltb j (i + left) then idt_gate handler else q.idt_table j)
unfolding fill_gates
fill_gates_lem q handler i zero j = ground arith
fill_gates_lem q handler i (suc left) j =
    ground (arith, fill_gates_lem (set_gate q i handler) handler (i + 1) left j)

-- The gate of `j` after the installations.
abbrev last_installed : (Exception → Ptr) → ℕ → List (ℕ × Exception) → GateDesc → GateDesc
last_installed entry j [] g = g
last_installed entry j ((n, x) ∷ rest) g =
    last_installed entry j rest (if j == n then idt_gate (entry x) else g)

abbrev AllInTable : List (ℕ × Exception) → Type 0
AllInTable [] = Unit {0}
AllInTable ((n, x) ∷ rest) = (n < ide_table_nr) × AllInTable rest

install_in_table :
    (q : Irq) (n : ℕ) (handler : Ptr)
    → n < ide_table_nr
    → irq_install q n handler ≡ (set_gate q n handler, true)
unfolding irq_install
install_in_table q n handler h = let t : leb ide_table_nr n ≡ false = ground arith in rw t refl

install_all_lem :
    (q : Irq) (entry : Exception → Ptr) (xs : List (ℕ × Exception)) (j : ℕ)
    → AllInTable xs
    → (install_all q entry xs).idt_table j ≡ last_installed entry j xs (q.idt_table j)
unfolding install_all
install_all_lem q entry [] j h = refl
install_all_lem q entry ((n, x) ∷ rest) j (h, hs) =
    ap (λ p. (install_all p.0 entry rest).idt_table j) (install_in_table q n (entry x) h)
    ∙ install_all_lem (set_gate q n (entry x)) entry rest j hs

-- The exceptions of the processor, by their vectors.
abbrev pub vector : ℕ → Exception
vector j =
    if j == 21
    then control_exception
    else if j == 20
    then virtual_exception
    else if j == 19
    then smd_exception
    else if j == 18
    then machine_check
    else if j == 17
    then alignment_check
    else if j == 16
    then fpu_error
    else if j == 14
    then page_fault
    else if j == 13
    then general_protection
    else if j == 12
    then stack_segment_fault
    else if j == 11
    then segment_not_present
    else if j == 10
    then invalid_tss
    else if j == 8
    then double_fault
    else if j == 7
    then device_unavailable
    else if j == 6
    then invalid_opcode
    else if j == 5
    then bound_range
    else if j == 4
    then overflow
    else if j == 3
    then breakpoint
    else if j == 2
    then nmi
    else if j == 1
    then debug
    else if j == 0
    then divider
    else unknown

-- The handler of `j` after the installations.
abbrev last_exception : ℕ → List (ℕ × Exception) → Exception → Exception
last_exception j [] d = d
last_exception j ((n, x) ∷ rest) d = last_exception j rest (if j == n then x else d)

last_installed_lem :
    (entry : Exception → Ptr) (j : ℕ) (xs : List (ℕ × Exception)) (d : Exception)
    → last_installed entry j xs (idt_gate (entry d)) ≡ idt_gate (entry (last_exception j xs d))
last_installed_lem entry j [] d = refl
last_installed_lem entry j ((n, x) ∷ rest) d = elim (Bool-cases (j == n)) [
  | inl e ↦ rw e (last_installed_lem entry j rest x)
  | inr e ↦ rw e (last_installed_lem entry j rest d)
]

init_pic_gates : (q : Irq) (j : ℕ) → (init_pic q).idt_table j ≡ q.idt_table j
unfolding init_pic
init_pic_gates q j = refl

filled_gate :
    (q : Irq) (handler : Ptr) (j : ℕ)
    → j < ide_table_nr
    → (fill_gates q handler 0 ide_table_nr).idt_table j ≡ idt_gate handler
filled_gate q handler j h =
    let t : (leb 0 j && ltb j (0 + ide_table_nr)) ≡ true = ground arith in
    fill_gates_lem q handler 0 ide_table_nr j ∙ rw t refl

exceptions-AllInTable : AllInTable exceptions
exceptions-AllInTable = omega arith

pub irq_init_gates :
    (entry : Exception → Ptr) (table : Ptr) (q : Irq) (j : ℕ)
    → j < ide_table_nr
    → (irq_init entry table q).idt_table j ≡ idt_gate (entry (vector j))
unfolding irq_init
irq_init_gates entry table q j h =
    let filled = fill_gates q (entry unknown) 0 ide_table_nr in
    init_pic_gates (load_idt table (install_all filled entry exceptions)) j
    ∙ install_all_lem filled entry exceptions j exceptions-AllInTable
    ∙ ap (last_installed entry j exceptions) (filled_gate q (entry unknown) j h)
    ∙ last_installed_lem entry j exceptions unknown

time_init_gates :
    (handler : Ptr) (q : Irq) (j : ℕ)
    → (time_init handler q).idt_table j
      ≡ (if j == irq0_timer then idt_gate handler else q.idt_table j)
unfolding time_init init_pit irq_install irq_enable
time_init_gates handler q j = refl

-- The mask registers after irq_init and time_init, and what they say of the line `n`.
abbrev started_masks : Ports
started_masks = record { held = λ p. if p == pic0_imr then 0xfa else 0xff; writes = [] }

started_io :
    (handler : Ptr) (entry : Exception → Ptr) (table : Ptr) (q : Irq)
    → ((time_init handler (irq_init entry table q)).io.held pic0_imr ≡ 0xfa)
      × ((time_init handler (irq_init entry table q)).io.held pic1_imr ≡ 0xff)
unfolding time_init init_pit irq_install irq_enable irq_init init_pic outb
started_io handler entry table q = (refl, refl)

line_open : ℕ → Bool
line_open n =
    (if ltb n 8 then bit_at 0xfa n else bit_at 0xff (n - 8)) == (if n == 0 || n == 2 then 0 else 1)

lines_open : passes line_open 16 ≡ true
unfolding passes line_open
lines_open = refl

time_init_tick : (handler : Ptr) (q : Irq) → (time_init handler q).sys_tick ≡ 0
unfolding time_init init_pit irq_install irq_enable
time_init_tick handler q = refl

started_idtr :
    (handler : Ptr) (entry : Exception → Ptr) (table : Ptr) (q : Irq)
    → (time_init handler (irq_init entry table q)).idtr ≡ lidt table (ide_table_nr * 8)
unfolding time_init init_pit irq_install irq_enable irq_init init_pic
started_idtr handler entry table q = refl

-- The processor finds the table at `table`, of 128 gates: each exception's leads to its handler, the
-- timer's to the timer's, and all others to the one for unknown exceptions. The lines of the timer and
-- of the second controller are open, and no other is; no tick has been counted.
pub record Started (entry : Exception → Ptr) (table timer : Ptr) (q : Irq) : Type 0 where
  pub found : table_start q.idtr ≡ table
  pub size : q.idtr.limit + 1 ≡ 8 * 128
  pub gates :
      (j : ℕ)
      → j < 128
      → q.idt_table j ≡ (if j == irq0_timer then idt_gate timer else idt_gate (entry (vector j)))
  pub lines : (n : ℕ) → n < 16 → masked q (irq_pic_start + n) ≡ (if n == 0 || n == 2 then 0 else 1)
  pub no_tick : q.sys_tick ≡ 0

-- irq_init and then time_init, for a table below 2 ^ 32.
pub time_init-Started :
    (entry : Exception → Ptr) (table timer : Ptr) (q : Irq)
    → table < 2 ^ 32
    → Started entry table timer (time_init timer (irq_init entry table q))
unfolding line_open lidt
time_init-Started entry table timer q h =
    let r = started_idtr timer entry table q in
    record {
      found = rw r (omega arith);
      size = rw r (omega arith);
      gates = λ j h.
          time_init_gates timer (irq_init entry table q) j
          ∙ ap (λ g. if j == irq0_timer then idt_gate timer else g)
              (irq_init_gates entry table q j h);
      lines = λ n h.
          let (low, high) = started_io timer entry table q in
          let e : irq_pic_start + n - irq_pic_start ≡ n = omega arith in
          rw (e, low, high) ((==_iff _ _).0 (passes_at line_open 16 n lines_open h));
      no_tick = time_init_tick timer (irq_init entry table q);
    }
