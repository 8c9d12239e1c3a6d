-- ===== src/Tools/Log/Formats.antt =====
-- What log_printf of source/kernel/tools/log.c sends for a format with directives.
use start.Base.{
  ℕ, ◌+◌, ◌^◌, ◌≤◌, ◌<◌, ◌≡◌, refl, ◌⊎◌, inl, inr, ap, ◌∙◌, arith, false, if◌then◌else◌, some, List,
  [], ◌∷◌, Ptr, Mem,
}
use start.Tools.LinkedList.Links.{length}
use start.Tools.Klib.{kernel_memset}
use start.Tools.Klib.Memory.{within, kernel_memset-within}
use start.Tools.Klib.Format.Chars.{Holds}
use start.Tools.Klib.Format.Reference.{Argument, words, formatted, Nonzero, StringOf}
use start.Tools.Klib.Format.Pieces.{StringOf-IsString, Wrote}
use start.Tools.Klib.Format.Areas.{StringOf-same, Placed-same, Ready}
use start.Tools.Klib.Format.Rendering.{vsprintf-formatted}
use start.Core.Sched.{Sched}
use start.Ipc.Mutex.Idle.{IdleMutex, held_by, unlock_held}
use start.Cpu.Instr.{outb}
use start.Cpu.Instr.Polls.{ready_count}
use start.Tools.Log.{com1_port, Serial, with_memory, log_printf}
use start.Tools.Log.Sending.{sent, send_text-some, ends_line, send_line_lem, log_printf_lem}

-- The writes that send characters, the last one first.
abbrev pub sent_chars : List ℕ → List (ℕ × ℕ) → List (ℕ × ℕ)
sent_chars [] writes = writes
sent_chars (x ∷ xs) writes = sent_chars xs ((com1_port, x) ∷ writes)

sent-sent_chars :
    (m : Mem) (p : Ptr) (xs : List ℕ) (writes : List (ℕ × ℕ))
    → Holds m p xs
    → sent m p (length xs) writes ≡ sent_chars xs writes
sent-sent_chars m p [] writes h = refl
sent-sent_chars m p (x ∷ xs) writes (h, hs) =
    ap (λ c. sent m (p + 1) (length xs) ((com1_port, c) ∷ writes)) h
    ∙ sent-sent_chars m (p + 1) xs ((com1_port, x) ∷ writes) hs

-- The buffer of 128 bytes takes the text and its end; the format and the strings lie apart from it.
pub record Logs (m : Mem) (str_buf fmt : Ptr) (fs out : List ℕ) (args : List Argument)
    : Type 0 where
  pub text : formatted false fs args ≡ some out
  pub chars : Nonzero out
  pub fits : length out < 128
  pub ready : Ready m str_buf 128 fmt fs args

module _ (m : Mem) (str_buf fmt : Ptr) (fs out : List ℕ) (args : List Argument)
    (logs : Logs m str_buf fmt fs out args) where
  open logs use {text, chars, fits, ready}

  abbrev cleared : Mem
  cleared = kernel_memset m str_buf 0 128

  cleared_at : (a : Ptr) → cleared a ≡ (if within str_buf 128 a then 0 else m a)
  cleared_at a = kernel_memset-within m str_buf 0 128 a ready.0

  cleared-Ready : Ready cleared str_buf (length out) fmt fs args
  cleared-Ready =
      let same : (a : Ptr) → (a < str_buf) ⊎ (str_buf + 128 < a) → cleared a ≡ m a =
        λ a o. ground (arith, cleared_at a) in
      let (ne, is, apart, placed) = ready in
      (
        ne,
        StringOf-same m cleared fmt fs str_buf 128 apart same is,
        omega (arith, fits),
        Placed-same m cleared str_buf 128 str_buf (length out) args (omega arith)
            (omega (arith, fits)) same placed,
      )

  written-StringOf : (m' : Mem) → Wrote cleared str_buf out m' → StringOf m' str_buf out
  written-StringOf m' (holds, frame, end) =
      let zero_there : cleared (str_buf + length out) ≡ 0 =
        ground (arith, cleared_at (str_buf + length out), fits) in
      (holds, chars, elim end [ inl h ↦ h ∙ zero_there | inr z ↦ z ])

  -- log_printf of a format sends the text that the reference formatter gives for it and the
  -- arguments, then a carriage return and a line feed, and leaves the scheduler and the mutex as
  -- they were; for a text of fewer than 128 characters, none of them 0, with the format and the
  -- strings apart from the buffer, while the mutex is free, the port becomes ready as often as
  -- there are characters, and with fuel for the format and the text together.
  pub log_printf-formatted :
      (fuel : ℕ) (k : Sched) (log : Serial)
      → length fs + length out < fuel
      → length out ≤ ready_count (2 ^ 6) (2 ^ 6) log.reads
      → IdleMutex log.mutex
      → (m' : Mem) × (log' : Serial) × (log_printf fuel str_buf k log m fmt (words args)
          ≡ some (m', k, log'))
        × (log'.io.writes ≡ (com1_port, 0x0a) ∷ (com1_port, 0x0d) ∷ sent_chars out log.io.writes)
        × (log'.mutex ≡ log.mutex)
  unfolding outb
  log_printf-formatted fuel k log lt port idle =
      let (m', went, wrote) =
        vsprintf-formatted fuel cleared str_buf fmt fs out args text lt cleared-Ready in
      let is = StringOf-IsString m' str_buf out (written-StringOf m' wrote) in
      let (io, rest, sends, writes) =
        send_text-some fuel log.io log.reads m' str_buf (length out) is (omega (arith, lt)) port in
      let held = record log { mutex = held_by k.curr_task log.mutex } in
      let line =
        send_line_lem fuel k held log.mutex m' str_buf io rest sends
          (unlock_held k log.mutex idle) in
      (
        m',
        record { io = ends_line io; reads = rest; mutex = log.mutex },
        log_printf_lem fuel str_buf k log m m' fmt (words args) went idle
            ∙ ap (with_memory m') line,
        ap (λ (w : List (ℕ × ℕ)). (com1_port, 0x0a) ∷ (com1_port, 0x0d) ∷ w)
            (writes ∙ sent-sent_chars m' str_buf out log.io.writes wrote.0),
        refl,
      )
