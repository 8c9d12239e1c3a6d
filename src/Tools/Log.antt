-- ===== src/Tools/Log.antt =====
-- source/kernel/tools/log.c: text on the serial port, under a mutex. The statuses that the port's line
-- register gives, one for each read, are a list.
pub mod Sending
pub mod Formats
use start.Base.{
  ℕ, zero, suc, ◌+◌, ◌^◌, Bool, false, Option, none, some, List, if◌then◌else◌, ◌==◌, Ptr, Mem,
}
use start.Tools.Klib.{kernel_memset}
use start.Tools.Klib.Format.{kernel_vsprintf}
use start.Core.Sched.{Sched}
use start.Ipc.Mutex.{Mutex, mutex_init, mutex_lock, mutex_unlock}
use start.Cpu.Instr.{Ports, outb, poll}

abbrev pub com1_port : ℕ
com1_port = 0x3f8

pub record Serial : Type 0 where
  pub io : Ports
  pub reads : List ℕ
  pub mutex : Mutex

unfoldable pub log_init : Ports → List ℕ → Serial
unfolding outb
log_init io0 reads =
    let io1 = outb io0 (com1_port + 1) 0x00 in
    let io2 = outb io1 (com1_port + 3) 0x80 in
    let io3 = outb io2 (com1_port + 0) 0x03 in
    let io4 = outb io3 (com1_port + 1) 0x00 in
    let io5 = outb io4 (com1_port + 3) 0x03 in
    let io6 = outb io5 (com1_port + 2) 0xc7 in
    record { io = outb io6 (com1_port + 4) 0x0f; reads = reads; mutex = mutex_init }

-- The loop over the text: a character goes out when bit 6 of the status is set.
unfoldable pub send_text : ℕ → Ports → List ℕ → Mem → Ptr → Option (Ports × List ℕ)
send_text zero io reads m p = none
send_text (suc fuel) io reads m p =
    let next : Option (Ports × List ℕ) = elim (poll (2 ^ 6) (2 ^ 6) reads) [
      | none ↦ none
      | some rest ↦ send_text fuel (outb io com1_port (m p)) rest m (p + 1)
    ] in
    if m p == 0 then some (io, reads) else next

-- The text is in memory at `str_buf`, and the mutex is held: the port, and the mutex given back.
unfoldable pub send_line : ℕ → Sched → Serial → Mem → Ptr → Option (Sched × Serial)
unfolding send_text
send_line fuel k log m str_buf = elim (send_text fuel log.io log.reads m str_buf) [
  | none ↦ none
  | some (io, reads) ↦
      let (k', mutex) = mutex_unlock k log.mutex in
      some (
        k',
        record { io = outb (outb io com1_port 0x0d) com1_port 0x0a; reads = reads; mutex = mutex },
      )
]

abbrev pub with_memory : Mem → Option (Sched × Serial) → Option (Mem × Sched × Serial)
with_memory m none = none
with_memory m (some (k, log)) = some (m, k, log)

-- `str_buf` is the address of the buffer of 128 bytes, and `fuel` serves the loops over strings.
unfoldable pub log_printf :
    ℕ → Ptr → Sched → Serial → Mem → Ptr → List ℕ → Option (Mem × Sched × Serial)
unfolding send_line
log_printf fuel str_buf k log m fmt args =
    elim (kernel_vsprintf fuel (kernel_memset m str_buf 0 128) str_buf fmt false args) [
      | none ↦ none
      | some m' ↦
          let (k', mutex) = mutex_lock k log.mutex in
          with_memory m' (send_line fuel k' (record log { mutex = mutex }) m' str_buf)
    ]
