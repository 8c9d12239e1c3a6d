-- ===== src/Cpu/Irq/Handlers/Reports.antt =====
-- After which exceptions the handlers of source/kernel/cpu/irq.c come back.
use start.Base.{ℕ, ◌≡◌, refl, Bool, true, false, ◌&&◌, if◌then◌else◌}
use start.Cpu.Irq.{
  Exception, unknown, divider, debug, nmi, breakpoint, overflow, bound_range, invalid_opcode,
  device_unavailable, double_fault, invalid_tss, segment_not_present, stack_segment_fault,
  general_protection, page_fault, fpu_error, alignment_check, machine_check, smd_exception,
  virtual_exception, control_exception,
}
use start.Cpu.Irq.Handlers.{
  ExceptionFrame, halts, returns, has_bits, do_default_handler, do_handler_general_protection,
  do_handler_page_fault, do_handler,
}

-- The two faults whose handlers look at where they come from.
abbrev pub is_checked : Exception → Bool
is_checked general_protection = true
is_checked page_fault = true
is_checked _ = false

-- A handler comes back after a general protection or page fault in user mode, and halts after every
-- other exception.
pub handler_outcome :
    (cr2 : ℕ) (x : Exception) (frame : ExceptionFrame)
    → (do_handler cr2 x frame).1 ≡ (if is_checked x && has_bits frame.cs 3 then returns else halts)
unfolding do_handler do_handler_general_protection do_handler_page_fault do_default_handler
handler_outcome cr2 general_protection frame = refl
handler_outcome cr2 page_fault frame = refl
handler_outcome cr2 unknown frame = refl
handler_outcome cr2 divider frame = refl
handler_outcome cr2 debug frame = refl
handler_outcome cr2 nmi frame = refl
handler_outcome cr2 breakpoint frame = refl
handler_outcome cr2 overflow frame = refl
handler_outcome cr2 bound_range frame = refl
handler_outcome cr2 invalid_opcode frame = refl
handler_outcome cr2 device_unavailable frame = refl
handler_outcome cr2 double_fault frame = refl
handler_outcome cr2 invalid_tss frame = refl
handler_outcome cr2 segment_not_present frame = refl
handler_outcome cr2 stack_segment_fault frame = refl
handler_outcome cr2 fpu_error frame = refl
handler_outcome cr2 alignment_check frame = refl
handler_outcome cr2 machine_check frame = refl
handler_outcome cr2 smd_exception frame = refl
handler_outcome cr2 virtual_exception frame = refl
handler_outcome cr2 control_exception frame = refl
