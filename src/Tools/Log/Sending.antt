-- ===== src/Tools/Log/Sending.antt =====
-- What log_printf of source/kernel/tools/log.c sends.
use start.Base.{
  ℕ, zero, suc, ◌+◌, ◌-◌, ◌^◌, ◌≤◌, ◌<◌, ◌≡◌, refl, ◌≢◌, ◌⊎◌, ap, ◌∙◌, sym, arith, true, false,
  if◌then◌else◌, ◌==◌, some, List, ◌∷◌, Ptr, null, Mem, poke,
}
use start.Tools.Klib.{kernel_memset}
use start.Tools.Klib.Memory.{within, kernel_memset-within}
use start.Tools.Klib.Text.Strings.{IsString, IsString-tail}
use start.Tools.Klib.Format.{put_chars, kernel_vsprintf}
use start.Core.Sched.{Sched}
use start.Ipc.Mutex.Idle.{IdleMutex, held_by, lock_idle, unlock_held}
use start.Ipc.Mutex.{Mutex, mutex_unlock}
use start.Cpu.Instr.{Ports, outb}
use start.Cpu.Instr.Polls.{ready_count, poll-some}
use start.Tools.Log.{com1_port, Serial, send_text, send_line, with_memory, log_printf}

-- The writes that send `n` characters from `p` on, the last one first.
abbrev pub sent : Mem → Ptr → ℕ → List (ℕ × ℕ) → List (ℕ × ℕ)
sent m p zero writes = writes
sent m p (suc n) writes = sent m (p + 1) n ((com1_port, m p) ∷ writes)

pub send_text-some :
    (fuel : ℕ) (io : Ports) (reads : List ℕ) (m : Mem) (p n : ℕ)
    → IsString m p n
    → n < fuel
    → n ≤ ready_count (2 ^ 6) (2 ^ 6) reads
    → (io' : Ports) × (rest : List ℕ) × (send_text fuel io reads m p ≡ some (io', rest))
      × (io'.writes ≡ sent m p n io.writes)
unfolding send_text outb
send_text-some zero io reads m p n str lt h = absurd (omega arith)
send_text-some (suc fuel) io reads m p zero str lt h =
    let t : (m p == 0) ≡ true = ground (arith, str.0) in rw t (io, reads, refl, refl)
send_text-some (suc fuel) io reads m p (suc n) str lt h =
    let t : (m p == 0) ≡ false = ground (arith, str.1 0) in
    let (rest, ready, left_over) = poll-some (2 ^ 6) (2 ^ 6) reads (omega arith) in
    rw (t, ready)
      (send_text-some fuel (outb io com1_port (m p)) rest m (p + 1) n (IsString-tail m p n str)
        (omega arith) (omega arith))

put_chars-within :
    (m : Mem) (d s : Ptr) (n : ℕ) (a : Ptr)
    → (d ≤ s) ⊎ (s + n ≤ d)
    → put_chars m d s n a ≡ (if within d n a then m (s + (a - d)) else m a)
unfolding put_chars
put_chars-within m d s zero a h = ground arith
put_chars-within m d s (suc n) a h =
    ground (arith, put_chars-within (poke m d (m s)) (d + 1) (s + 1) n a (omega arith))

-- A format with no `%` is copied.
vsprintf_plain :
    (fuel : ℕ) (m : Mem) (curr fmt n : ℕ) (args : List ℕ)
    → IsString m fmt n
    → ((i : ℕ) → i < n → m (fmt + i) ≢ 0x25)
    → (curr + n ≤ fmt) ⊎ (fmt + n < curr)
    → n < fuel
    → kernel_vsprintf fuel m curr fmt false args ≡ some (put_chars m curr fmt n)
unfolding kernel_vsprintf put_chars
vsprintf_plain zero m curr fmt n args str plain apart lt = absurd (omega arith)
vsprintf_plain (suc fuel) m curr fmt zero args str plain apart lt =
    let t : (m fmt == 0) ≡ true = ground (arith, str.0) in rw t refl
vsprintf_plain (suc fuel) m curr fmt (suc n) args str plain apart lt =
    let t : (m fmt == 0) ≡ false = ground (arith, str.1 0) in
    let u : (m fmt == 0x25) ≡ false = ground (arith, plain 0) in
    rw (t, u)
      (vsprintf_plain fuel (poke m curr (m fmt)) (curr + 1) (fmt + 1) n args
        (ground (arith, str.0), λ i h. ground (arith, str.1 (suc i)))
        (λ i h. ground (arith, plain (suc i))) (omega arith) (omega arith))

sent_same :
    (m m' : Mem) (p q n : ℕ) (writes : List (ℕ × ℕ))
    → ((i : ℕ) → i < n → m' (q + i) ≡ m (p + i))
    → sent m' q n writes ≡ sent m p n writes
sent_same m m' p q zero writes same = refl
sent_same m m' p q (suc n) writes same =
    let first : m' q ≡ m p = ground (arith, same 0) in
    rw first (
      sent_same m m' (p + 1) (q + 1) n ((com1_port, m p) ∷ writes)
        (λ i h. ground (arith, same (suc i))))

abbrev pub ends_line : Ports → Ports
ends_line io = outb (outb io com1_port 0x0d) com1_port 0x0a

pub send_line_lem :
    (fuel : ℕ) (k : Sched) (log : Serial) (mx : Mutex) (m : Mem) (p : Ptr) (io : Ports)
    (rest : List ℕ)
    → send_text fuel log.io log.reads m p ≡ some (io, rest)
    → mutex_unlock k log.mutex ≡ (k, mx)
    → send_line fuel k log m p ≡ some (k, record { io = ends_line io; reads = rest; mutex = mx })
unfolding send_line
send_line_lem fuel k log mx m p io rest e f = rw (send_line, e, f) refl

pub log_printf_lem :
    (fuel : ℕ) (p : Ptr) (k : Sched) (log : Serial) (m m' : Mem) (fmt : Ptr) (args : List ℕ)
    → kernel_vsprintf fuel (kernel_memset m p 0 128) p fmt false args ≡ some m'
    → IdleMutex log.mutex
    → log_printf fuel p k log m fmt args
      ≡ with_memory m'
          (send_line fuel k (record log { mutex = held_by k.curr_task log.mutex }) m' p)
unfolding log_printf
log_printf_lem fuel p k log m m' fmt args e idle =
    rw (log_printf, e, lock_idle k log.mutex idle) refl

-- The texts that go out whole: no `%`, shorter than the buffer, and apart from it.
pub record PlainText (m : Mem) (str_buf fmt n : ℕ) : Type 0 where
  pub string : IsString m fmt n
  pub plain : (i : ℕ) → i < n → m (fmt + i) ≢ 0x25
  pub fits : n < 128
  pub buffer : str_buf ≢ null
  pub apart : (str_buf + 128 ≤ fmt) ⊎ (fmt + n < str_buf)

module _ (m : Mem) (str_buf fmt n : ℕ) (text : PlainText m str_buf fmt n) where
  open text use {string, plain, fits, buffer, apart}

  abbrev cleared : Mem
  cleared = kernel_memset m str_buf 0 128

  cleared_at : (a : Ptr) → cleared a ≡ (if within str_buf 128 a then 0 else m a)
  cleared_at a = kernel_memset-within m str_buf 0 128 a buffer

  cleared_text : (i : ℕ) → i < suc n → cleared (fmt + i) ≡ m (fmt + i)
  cleared_text i h = ground (arith, cleared_at (fmt + i), apart)

  cleared-IsString : IsString cleared fmt n
  cleared-IsString = (
    cleared_text n (omega arith) ∙ string.0,
    λ i h e. string.1 i h (sym (cleared_text i (omega arith)) ∙ e),
  )

  abbrev formatted : Mem
  formatted = put_chars cleared str_buf fmt n

  formatted_at :
      (a : Ptr)
      → formatted a ≡ (if within str_buf n a then cleared (fmt + (a - str_buf)) else cleared a)
  formatted_at a = put_chars-within cleared str_buf fmt n a (ground (arith, apart, fits))

  formatted_char : (i : ℕ) → i < n → formatted (str_buf + i) ≡ m (fmt + i)
  formatted_char i h =
      let e : str_buf + i - str_buf ≡ i = omega arith in
      let t : within str_buf n (str_buf + i) ≡ true = ground arith in
      formatted_at (str_buf + i) ∙ rw (t, e) (cleared_text i (omega arith))

  formatted-IsString : IsString formatted str_buf n
  formatted-IsString = (
    ground (arith, formatted_at (str_buf + n), cleared_at (str_buf + n)),
    λ i h e. string.1 i h (sym (formatted_char i h) ∙ e),
  )

  vsprintf_text :
      (fuel : ℕ) (args : List ℕ)
      → n < fuel
      → kernel_vsprintf fuel cleared str_buf fmt false args ≡ some formatted
  vsprintf_text fuel args lt =
      vsprintf_plain fuel cleared str_buf fmt n args cleared-IsString
        (λ i h e. plain i h (sym (cleared_text i (omega arith)) ∙ e)) (ground (arith, apart, fits))
        lt

  -- log_printf of a text without a percent sign that fits its buffer and lies apart from it sends
  -- its characters in order, then a carriage return and a line feed, and leaves the scheduler and
  -- the mutex as they were; while the mutex is free, the port becomes ready as often as there are
  -- characters, and with fuel for them.
  pub log_printf-Sends :
      (fuel : ℕ) (k : Sched) (log : Serial) (args : List ℕ)
      → n < fuel
      → n ≤ ready_count (2 ^ 6) (2 ^ 6) log.reads
      → IdleMutex log.mutex
      → (m' : Mem) × (log' : Serial) × (log_printf fuel str_buf k log m fmt args
          ≡ some (m', k, log'))
        × (log'.io.writes ≡ (com1_port, 0x0a) ∷ (com1_port, 0x0d) ∷ sent m fmt n log.io.writes)
        × (log'.mutex ≡ log.mutex)
  unfolding outb
  log_printf-Sends fuel k log args lt ready idle =
      let (io, rest, went, wrote) =
        send_text-some fuel log.io log.reads formatted str_buf n formatted-IsString lt ready in
      let held = record log { mutex = held_by k.curr_task log.mutex } in
      let line =
        send_line_lem fuel k held log.mutex formatted str_buf io rest went
          (unlock_held k log.mutex idle) in
      let sends = wrote ∙ sent_same m formatted fmt str_buf n log.io.writes formatted_char in
      (
        formatted,
        record { io = ends_line io; reads = rest; mutex = log.mutex },
        log_printf_lem fuel str_buf k log m formatted fmt args (vsprintf_text fuel args lt) idle
            ∙ ap (with_memory formatted) line,
        ap (λ (w : List (ℕ × ℕ)). (com1_port, 0x0a) ∷ (com1_port, 0x0d) ∷ w) sends,
        refl,
      )
