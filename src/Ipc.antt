-- ===== src/Ipc.antt =====
-- source/kernel/ipc: the mutex and the counting semaphore, on the scheduler.
pub mod Wait
pub mod Mutex
pub mod Sem
