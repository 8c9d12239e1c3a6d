-- ===== src/Cpu.antt =====
-- source/kernel/cpu: the descriptor tables and the interrupt controllers.
pub mod Instr
pub mod Gdt
pub mod Irq
