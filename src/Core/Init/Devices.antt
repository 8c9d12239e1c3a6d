-- ===== src/Core/Init/Devices.antt =====
-- The serial port and the interrupts as source/kernel/init/init.c sets them up.
use start.Cpu.Irq.{Irq}
