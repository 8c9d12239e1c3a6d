-- ===== src/Tools/Klib/Format.antt =====
-- kernel_itoa, kernel_sprintf and kernel_vsprintf of source/kernel/tools/klib.c over byte memory. A number
-- is its 32-bit pattern; the arguments of a format are a list of such words. `none` stands for a
-- string without an end within the fuel, and for a format that wants more arguments than there are.
pub mod Digits
pub mod ReadBack
pub mod Chars
pub mod Reference
pub mod Pieces
pub mod Areas
pub mod Rendering
use start.Base.{
  ℕ, zero, suc, ◌+◌, ◌-◌, ◌*◌, ◌/◌, ◌%◌, ◌^◌, Bool, true, false, ◌&&◌, ◌||◌, not, Option, none,
  some, List, [], ◌∷◌, if◌then◌else◌, ◌==◌, ltb, leb, word_mod, Ptr, Mem, poke,
}
use start.Tools.Klib.Text.{kernel_strlen}

-- A hexadecimal digit, and the table `num2ch`: the digits from F down to 0 and up to F again.
abbrev pub digit_char : ℕ → ℕ
digit_char n = if ltb n 10 then 0x30 + n else 0x37 + n

abbrev pub num2ch : ℕ → ℕ
num2ch i = digit_char (if leb i 15 then 15 - i else i - 15)

-- The loops that write the digits, the lowest first: `u` is the number, or what its negation is.
unfoldable pub write_digits : ℕ → Mem → Ptr → ℕ → ℕ → Bool → Option (Mem × Ptr)
write_digits zero m p u base signed_num = none
write_digits (suc fuel) m p u base signed_num =
    let ch = num2ch (if signed_num then 15 - u % base else u % base + 15) in
    let m' = poke m p ch in
    let rest = write_digits fuel m' (p + 1) (u / base) base signed_num in
    if u / base == 0 then some (m', p + 1) else rest

-- The loop that turns the digits round, from `start` and `p` inwards; the fuel is `p - start`.
unfoldable pub turn_round : ℕ → Mem → Ptr → Ptr → Mem
turn_round zero m start p = m
turn_round (suc fuel) m start p =
    let rest = turn_round fuel (poke (poke m start (m p)) p (m start)) (start + 1) (p - 1) in
    if ltb start p then rest else m

abbrev pub supported : ℕ → Bool
supported base = base == 2 || base == 8 || base == 10 || base == 16

unfoldable pub kernel_itoa : Mem → Ptr → ℕ → ℕ → Option Mem
unfolding write_digits turn_round
kernel_itoa m buf num base =
    let signed_num = leb (2 ^ 31) num && base == 10 in
    let start = if signed_num then buf + 1 else buf in
    let u = if signed_num then word_mod - num else num in
    let m' = if signed_num then poke m buf 0x2d else m in
    if supported base
    then elim (write_digits (u + 1) m' start u base signed_num) [
      | none ↦ none
      | some (m'', p) ↦ some (turn_round (p - 1 - start) (poke m'' p 0) start (p - 1))
    ]
    else some (poke m buf 0)

-- `*curr++ = *str++` for `len` characters.
unfoldable pub put_chars : Mem → Ptr → Ptr → ℕ → Mem
put_chars m curr str zero = m
put_chars m curr str (suc len) = put_chars (poke m curr (m str)) (curr + 1) (str + 1) len

-- A number in the text: the memory and the new `curr`.
unfoldable pub put_number : ℕ → Mem → Ptr → ℕ → ℕ → Option (Mem × Ptr)
put_number fuel m curr num base = elim (kernel_itoa m curr num base) [
  | none ↦ none
  | some m' ↦ elim (kernel_strlen fuel m' curr) [ none ↦ none | some len ↦ some (m', curr + len) ]
]

unfoldable pub put_string : ℕ → Mem → Ptr → Ptr → Option (Mem × Ptr)
put_string fuel m curr str = elim (kernel_strlen fuel m str) [
  | none ↦ none
  | some len ↦ some (put_chars m curr str len, curr + len)
]

-- The case READ_FMT: the memory, `curr` and the arguments that are left.
unfoldable pub read_fmt : ℕ → Mem → Ptr → ℕ → List ℕ → Option (Mem × Ptr × List ℕ)
unfolding put_number put_string
read_fmt fuel m curr ch [] =
    if ch == 0x64 || ch == 0x78 || ch == 0x63 || ch == 0x73 then none else some (m, curr, [])
read_fmt fuel m curr ch (arg ∷ args) =
    let after = λ (o : Option (Mem × Ptr)). with_args args o in
    if ch == 0x64
    then after (put_number fuel m curr arg 10)
    else if ch == 0x78
    then after (put_number fuel m curr arg 16)
    else if ch == 0x63
    then some (poke m curr (arg % 256), curr + 1, args)
    else if ch == 0x73
    then after (put_string fuel m curr arg)
    else some (m, curr, arg ∷ args)
  where
    with_args : List ℕ → Option (Mem × Ptr) → Option (Mem × Ptr × List ℕ)
    with_args args none = none
    with_args args (some (m', curr')) = some (m', curr', args)

-- The loop over the format, with the state: whether a `%` has just been read. The text is not ended.
unfoldable pub kernel_vsprintf : ℕ → Mem → Ptr → Ptr → Bool → List ℕ → Option Mem
unfolding read_fmt
kernel_vsprintf zero m curr fmt reading args = none
kernel_vsprintf (suc fuel) m curr fmt false args =
    let plain = kernel_vsprintf fuel (poke m curr (m fmt)) (curr + 1) (fmt + 1) false args in
    let percent = kernel_vsprintf fuel m curr (fmt + 1) true args in
    if m fmt == 0 then some m else if m fmt == 0x25 then percent else plain
kernel_vsprintf (suc fuel) m curr fmt true args =
    if m fmt == 0 then some m else elim (read_fmt fuel m curr (m fmt) args) [
      | none ↦ none
      | some (m', curr', args') ↦ kernel_vsprintf fuel m' curr' (fmt + 1) false args'
    ]

unfoldable pub kernel_sprintf : ℕ → Mem → Ptr → Ptr → List ℕ → Option Mem
unfolding kernel_vsprintf
kernel_sprintf fuel m buffer fmt args = kernel_vsprintf fuel m buffer fmt false args
