-- ===== src/Tests.antt =====
-- The theorems at concrete inputs, and runs of the definitions: one module for each part of the kernel.
mod Data
mod Tools
mod Sched
mod Ipc
mod Memory
mod Cpu
mod Loader
mod Applib
mod History
mod Permits
mod Log
mod Boot
mod Copies
