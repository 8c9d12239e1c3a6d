-- ===== src/Cpu/Irq/Handlers.antt =====
-- The handlers of exceptions of source/kernel/cpu/irq.c: the calls of log_printf that each makes, in
-- order, and whether it comes back. A string argument stands in the list of arguments as a text.
pub mod Reports
use Prim.Native.Nat.{bit_and}
use Prim.Native.String.{String}
use start.Base.{ℕ, ◌^◌, Bool, true, false, List, [], ◌∷◌, ◌++◌, if◌then◌else◌, ◌==◌}
use start.Cpu.Irq.{
  Exception, unknown, divider, debug, nmi, breakpoint, overflow, bound_range, invalid_opcode,
  device_unavailable, double_fault, invalid_tss, segment_not_present, stack_segment_fault,
  fpu_error, alignment_check, machine_check, smd_exception, virtual_exception, control_exception,
  general_protection, page_fault,
}

-- `exception_frame_t`
pub record ExceptionFrame : Type 0 where
  pub gs : ℕ
  pub fs : ℕ
  pub es : ℕ
  pub ds : ℕ
  pub edi : ℕ
  pub esi : ℕ
  pub ebp : ℕ
  pub esp : ℕ
  pub ebx : ℕ
  pub edx : ℕ
  pub ecx : ℕ
  pub eax : ℕ
  pub num : ℕ
  pub error_code : ℕ
  pub eip : ℕ
  pub cs : ℕ
  pub eflags : ℕ
  pub esp3 : ℕ
  pub ss3 : ℕ

pub data Arg : Type 0 where
  number : ℕ → Arg
  text : String → Arg

-- One call of log_printf.
pub record Line : Type 0 where
  pub fmt : String
  pub args : List Arg

pub data Outcome : Type 0 where
  halts returns : Outcome

abbrev pub say : String → Line
say s = record { fmt = s; args = [] }

abbrev pub say_number : String → ℕ → Line
say_number s n = record { fmt = s; args = number n ∷ [] }

abbrev pub err_page_p : ℕ
err_page_p = 2 ^ 0

abbrev pub err_page_wr : ℕ
err_page_wr = 2 ^ 1

abbrev pub err_page_us : ℕ
err_page_us = 2 ^ 1

abbrev pub err_ext : ℕ
err_ext = 2 ^ 0

abbrev pub err_idt : ℕ
err_idt = 2 ^ 1

abbrev pub rule_off : Line
rule_off = say "--------------------------------"

-- `x & mask` as a condition.
abbrev pub has_bits : ℕ → ℕ → Bool
has_bits x mask = if bit_and x mask == 0 then false else true

unfoldable pub dump_core_regs : ExceptionFrame → List Line
dump_core_regs frame =
    let ss = if has_bits frame.cs 7 then frame.ds else frame.ss3 in
    let esp = if has_bits frame.cs 7 then frame.esp else frame.esp3 in
    record {
      fmt = "IRQ: %d, error code: %d.";
      args = number frame.num ∷ number frame.error_code ∷ [];
    }
    ∷ record {
      fmt = "CS: %d\nDS: %d\nES: %d\nSS: %d\nFS:%d\nGS:%d";
      args =
          number frame.cs
          ∷ number frame.ds
          ∷ number frame.es
          ∷ number ss
          ∷ number frame.fs
          ∷ number frame.gs
          ∷ [];
    }
    ∷ record {
      fmt = "EAX:0x%x\nEBX:0x%x\nECX:0x%x\nEDX:0x%x\nEDI:0x%x\nESI:0x%x\nEBP:0x%x\nESP:0x%x\n";
      args =
          number frame.eax
          ∷ number frame.ebx
          ∷ number frame.ecx
          ∷ number frame.edx
          ∷ number frame.edi
          ∷ number frame.esi
          ∷ number frame.ebp
          ∷ number esp
          ∷ [];
    }
    ∷ record { fmt = "EIP:0x%x\nEFLAGS:0x%x\n"; args = number frame.eip ∷ number frame.eflags ∷ [] }
    ∷ []

-- It never comes back.
unfoldable pub do_default_handler : ExceptionFrame → String → List Line × Outcome
unfolding dump_core_regs
do_default_handler frame message = (
  rule_off
      ∷ record { fmt = "IRQ/Exception happend: %s."; args = text message ∷ [] }
      ∷ (dump_core_regs frame ++ rule_off ∷ []),
  halts,
)

unfoldable pub do_handler_unknown : ExceptionFrame → List Line × Outcome
unfolding do_default_handler
do_handler_unknown frame = do_default_handler frame "Unknown exception."

unfoldable pub do_handler_divider : ExceptionFrame → List Line × Outcome
unfolding do_default_handler
do_handler_divider frame = do_default_handler frame "Divider Error."

unfoldable pub do_handler_debug : ExceptionFrame → List Line × Outcome
unfolding do_default_handler
do_handler_debug frame = do_default_handler frame "Debug Exception"

unfoldable pub do_handler_nmi : ExceptionFrame → List Line × Outcome
unfolding do_default_handler
do_handler_nmi frame = do_default_handler frame "NMI Interrupt."

unfoldable pub do_handler_breakpoint : ExceptionFrame → List Line × Outcome
unfolding do_default_handler
do_handler_breakpoint frame = do_default_handler frame "Breakpoint."

unfoldable pub do_handler_overflow : ExceptionFrame → List Line × Outcome
unfolding do_default_handler
do_handler_overflow frame = do_default_handler frame "Overflow."

unfoldable pub do_handler_bound_range : ExceptionFrame → List Line × Outcome
unfolding do_default_handler
do_handler_bound_range frame = do_default_handler frame "BOUND Range Exceeded."

unfoldable pub do_handler_invalid_opcode : ExceptionFrame → List Line × Outcome
unfolding do_default_handler
do_handler_invalid_opcode frame = do_default_handler frame "Invalid Opcode."

unfoldable pub do_handler_device_unavailable : ExceptionFrame → List Line × Outcome
unfolding do_default_handler
do_handler_device_unavailable frame = do_default_handler frame "Device Not Available."

unfoldable pub do_handler_double_fault : ExceptionFrame → List Line × Outcome
unfolding do_default_handler
do_handler_double_fault frame = do_default_handler frame "Double Fault."

unfoldable pub do_handler_invalid_tss : ExceptionFrame → List Line × Outcome
unfolding do_default_handler
do_handler_invalid_tss frame = do_default_handler frame "Invalid TSS"

unfoldable pub do_handler_segment_not_present : ExceptionFrame → List Line × Outcome
unfolding do_default_handler
do_handler_segment_not_present frame = do_default_handler frame "Segment Not Present."

unfoldable pub do_handler_stack_segment_fault : ExceptionFrame → List Line × Outcome
unfolding do_default_handler
do_handler_stack_segment_fault frame = do_default_handler frame "Stack-Segment Fault."

unfoldable pub do_handler_fpu_error : ExceptionFrame → List Line × Outcome
unfolding do_default_handler
do_handler_fpu_error frame = do_default_handler frame "X87 FPU Floating Point Error."

unfoldable pub do_handler_alignment_check : ExceptionFrame → List Line × Outcome
unfolding do_default_handler
do_handler_alignment_check frame = do_default_handler frame "Alignment Check."

unfoldable pub do_handler_machine_check : ExceptionFrame → List Line × Outcome
unfolding do_default_handler
do_handler_machine_check frame = do_default_handler frame "Machine Check."

unfoldable pub do_handler_smd_exception : ExceptionFrame → List Line × Outcome
unfolding do_default_handler
do_handler_smd_exception frame = do_default_handler frame "SIMD Floating Point Exception."

unfoldable pub do_handler_virtual_exception : ExceptionFrame → List Line × Outcome
unfolding do_default_handler
do_handler_virtual_exception frame = do_default_handler frame "Virtualization Exception."

unfoldable pub do_handler_control_exception : ExceptionFrame → List Line × Outcome
unfolding do_default_handler
do_handler_control_exception frame = do_default_handler frame "Virtualization Exception."

-- Whether the loop at the end of a handler is entered.
abbrev pub ends : ExceptionFrame → Outcome
ends frame = if has_bits frame.cs 3 then returns else halts

unfoldable pub do_handler_general_protection : ExceptionFrame → List Line × Outcome
unfolding dump_core_regs
do_handler_general_protection frame = (
  rule_off
      ∷ say "IRQ/Exception happend: General Protection."
      ∷ say (
          if has_bits frame.error_code err_ext
          then "the exception occurred during delivery of an event external to the program, such as an interruptor an earlier exception."
          else "the exception occurred during delivery of asoftware interrupt (INT n, INT3, or INTO).")
      ∷ say (
          if has_bits frame.error_code err_idt
          then "the index portion of the error code refers to a gate descriptor in the IDT"
          else "the index refers to a descriptor in the GDT")
      ∷ say_number "segment index: %d" (bit_and frame.error_code 0xfff8)
      ∷ dump_core_regs frame,
  ends frame,
)

-- `cr2` is what read_cr2 gives.
unfoldable pub do_handler_page_fault : ℕ → ExceptionFrame → List Line × Outcome
unfolding dump_core_regs
do_handler_page_fault cr2 frame = (
  rule_off
      ∷ say "IRQ/Exception happend: Page fault."
      ∷ say_number
          (if has_bits frame.error_code err_page_p
            then "\tpage-level protection violation: 0x%x."
            else "\tPage doesn't present 0x%x")
          cr2
      ∷ say (
          if has_bits frame.error_code err_page_wr
          then "\tThe access causing the fault was a read."
          else "\tThe access causing the fault was a write.")
      ∷ say (
          if has_bits frame.error_code err_page_us
          then "\tA supervisor-mode access caused the fault."
          else "\tA user-mode access caused the fault.")
      ∷ dump_core_regs frame,
  ends frame,
)

-- The handler that the entry of an exception in start.S calls.
unfoldable pub do_handler : ℕ → Exception → ExceptionFrame → List Line × Outcome
unfolding do_handler_general_protection do_handler_page_fault do_handler_unknown do_handler_divider
    do_handler_debug do_handler_nmi do_handler_breakpoint do_handler_overflow do_handler_bound_range
    do_handler_invalid_opcode do_handler_device_unavailable do_handler_double_fault
    do_handler_invalid_tss do_handler_segment_not_present do_handler_stack_segment_fault
    do_handler_fpu_error do_handler_alignment_check do_handler_machine_check
    do_handler_smd_exception do_handler_virtual_exception do_handler_control_exception
do_handler cr2 unknown frame = do_handler_unknown frame
do_handler cr2 divider frame = do_handler_divider frame
do_handler cr2 debug frame = do_handler_debug frame
do_handler cr2 nmi frame = do_handler_nmi frame
do_handler cr2 breakpoint frame = do_handler_breakpoint frame
do_handler cr2 overflow frame = do_handler_overflow frame
do_handler cr2 bound_range frame = do_handler_bound_range frame
do_handler cr2 invalid_opcode frame = do_handler_invalid_opcode frame
do_handler cr2 device_unavailable frame = do_handler_device_unavailable frame
do_handler cr2 double_fault frame = do_handler_double_fault frame
do_handler cr2 invalid_tss frame = do_handler_invalid_tss frame
do_handler cr2 segment_not_present frame = do_handler_segment_not_present frame
do_handler cr2 stack_segment_fault frame = do_handler_stack_segment_fault frame
do_handler cr2 fpu_error frame = do_handler_fpu_error frame
do_handler cr2 alignment_check frame = do_handler_alignment_check frame
do_handler cr2 machine_check frame = do_handler_machine_check frame
do_handler cr2 smd_exception frame = do_handler_smd_exception frame
do_handler cr2 virtual_exception frame = do_handler_virtual_exception frame
do_handler cr2 control_exception frame = do_handler_control_exception frame
do_handler cr2 general_protection frame = do_handler_general_protection frame
do_handler cr2 page_fault frame = do_handler_page_fault cr2 frame
