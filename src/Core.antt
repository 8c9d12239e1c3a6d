-- ===== src/Core.antt =====
-- source/kernel/core: tasks and their scheduling, and memory management.
pub mod Sched
pub mod Mmu
pub mod Memory
pub mod Task
pub mod Init
