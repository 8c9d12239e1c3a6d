-- ===== src/Tests/Log.antt =====
-- The theorems on the text of source/kernel/tools: log.c at a format with three directives, and kernel_itoa of
-- klib.c at a negative number.
use start.Base.{
  ◌≤◌, ℕ, ◌≡◌, refl, arith, false, some, ◌||◌, if◌then◌else◌, ◌==◌, List, [], ◌∷◌, Mem,
}
use start.Tools.LinkedList.{list_count}
use start.Tools.Klib.Format.{kernel_itoa, kernel_sprintf}
use start.Tools.Klib.Format.Chars.{low_digits, number_text}
use start.Tools.Klib.Format.Reference.{Argument, number, text, words, formatted}
use start.Tools.Klib.Format.Rendering.{sprintf-formatted}
use start.Tools.Klib.Format.Areas.{Ready}
use start.Tools.Klib.Format.Pieces.{Wrote}
use start.Tools.Klib.Format.ReadBack.{TextOf, itoa-TextOf}
use start.Tools.Log.{com1_port, Serial, log_printf}
use start.Tools.Log.Formats.{Logs, sent_chars, log_printf-formatted}
use start.Tests.Data.{sleeping, empty}

abbrev greeting : Mem
greeting a = if a == 0x5000 then 0x48 else if a == 0x5001 then 0x69 else 0

itoa-TextOf_example :
    (n : ℕ) × (m' : Mem) × (kernel_itoa greeting 0x100 0xffffff88 10 ≡ some m')
    × TextOf greeting 0x100 0xffffff88 10 n m'
itoa-TextOf_example = itoa-TextOf greeting 0x100 0xffffff88 10 refl

-- The format `%d %s%c` with a negative number, a string and a letter.
abbrev pattern_chars : List ℕ
pattern_chars = 0x25 ∷ 0x64 ∷ 0x20 ∷ 0x25 ∷ 0x73 ∷ 0x25 ∷ 0x63 ∷ []

abbrev name_chars : List ℕ
name_chars = 0x48 ∷ 0x69 ∷ []

abbrev letters : Mem
letters a =
    if a == 0x6000 || a == 0x6003 || a == 0x6005
    then 0x25
    else if a == 0x6001
    then 0x64
    else if a == 0x6002
    then 0x20
    else if a == 0x6004
    then 0x73
    else if a == 0x6006
    then 0x63
    else greeting a

abbrev arguments : List Argument
arguments = number 0xffffff88 ∷ text 0x5000 name_chars ∷ number 0x41 ∷ []

abbrev rendered_chars : List ℕ
rendered_chars = 0x2d ∷ 0x31 ∷ 0x32 ∷ 0x30 ∷ 0x20 ∷ 0x48 ∷ 0x69 ∷ 0x41 ∷ []

arguments-formatted : formatted false pattern_chars arguments ≡ some rendered_chars
unfolding formatted number_text low_digits
arguments-formatted = refl

letters-Ready : (n : ℕ) → n ≤ 128 → Ready letters 0x100 n 0x6000 pattern_chars arguments
letters-Ready n le = (
  ground arith,
  (
    (refl, (refl, (refl, (refl, (refl, (refl, (refl, tt))))))),
    (
      ground arith,
      (
        ground arith,
        (ground arith, (ground arith, (ground arith, (ground arith, (ground arith, tt))))),
      ),
    ),
    refl,
  ),
  omega arith,
  (((refl, (refl, tt)), (ground arith, (ground arith, tt)), refl), ground arith, omega arith, tt),
)

sprintf-formatted_example :
    (m' : Mem) × (kernel_sprintf 16 letters 0x100 0x6000 (words arguments) ≡ some m')
    × Wrote letters 0x100 rendered_chars m'
sprintf-formatted_example =
    sprintf-formatted 16 letters 0x100 0x6000 pattern_chars rendered_chars arguments
      arguments-formatted (omega arith) (letters-Ready 8 (omega arith))

letters-Logs : Logs letters 0x100 0x6000 pattern_chars rendered_chars arguments
letters-Logs = record {
  text = arguments-formatted;
  chars = (
    ground arith,
    (
      ground arith,
      (
        ground arith,
        (ground arith, (ground arith, (ground arith, (ground arith, (ground arith, tt))))),
      ),
    ),
  );
  fits = omega arith;
  ready = letters-Ready 128 (omega arith);
}

-- The port is ready from the second read on.
abbrev port : Serial
port = record {
  io = record { held = λ p. 0; writes = [] };
  reads = 0 ∷ 0x60 ∷ 0x60 ∷ 0x60 ∷ 0x60 ∷ 0x60 ∷ 0x60 ∷ 0x60 ∷ 0x60 ∷ [];
  mutex = record { owner = 0; locked_count = 0; wait_list = empty };
}

log_printf-formatted_example :
    (m' : Mem) × (log' : Serial) × (log_printf 16 0x100 sleeping port letters 0x6000
        (words arguments)
      ≡ some (m', sleeping, log'))
    × (log'.io.writes ≡ (com1_port, 0x0a) ∷ (com1_port, 0x0d) ∷ sent_chars rendered_chars [])
    × (log'.mutex ≡ port.mutex)
unfolding list_count
log_printf-formatted_example =
    log_printf-formatted letters 0x100 0x6000 pattern_chars rendered_chars arguments letters-Logs 16
      sleeping port (omega arith) (omega arith) (refl, refl, refl)
