-- ===== src/Tools/Klib/Format/Reference.antt =====
-- What kernel_vsprintf of source/kernel/tools/klib.c is to write, as a function on lists of characters.
use start.Base.{
  ℕ, ◌+◌, ◌%◌, ◌<◌, ◌≡◌, ◌≢◌, ◌⊎◌, Bool, true, false, Option, none, some, List, [], ◌∷◌, ◌++◌, ◌||◌,
  if◌then◌else◌, ◌==◌, Ptr, Mem,
}
use start.Tools.LinkedList.Links.{length}
use start.Tools.Klib.Format.Chars.{Holds, number_text}

-- An argument of a format: a number, or the address of a string with its characters.
pub data Argument : Type 0 where
  number : ℕ → Argument
  text : Ptr → List ℕ → Argument

abbrev pub word_of : Argument → ℕ
word_of (number n) = n
word_of (text p xs) = p

abbrev pub words : List Argument → List ℕ
words [] = []
words (a ∷ args) = word_of a ∷ words args

-- What a directive writes, and the arguments it leaves; `none` where its argument is missing or is of
-- the other sort.
unfoldable pub piece : ℕ → List Argument → Option (List ℕ × List Argument)
piece c [] = if c == 0x64 || c == 0x78 || c == 0x63 || c == 0x73 then none else some ([], [])
piece c (number n ∷ args) =
    if c == 0x64
    then some (number_text n 10, args)
    else if c == 0x78
    then some (number_text n 16, args)
    else if c == 0x63
    then some (n % 256 ∷ [], args)
    else if c == 0x73
    then none
    else some ([], number n ∷ args)
piece c (text p xs ∷ args) =
    if c == 0x64 || c == 0x78 || c == 0x63
    then none
    else if c == 0x73
    then some (xs, args)
    else some ([], text p xs ∷ args)

abbrev pub before : List ℕ → Option (List ℕ) → Option (List ℕ)
before xs none = none
before xs (some ys) = some (xs ++ ys)

-- The text of a format, from its characters and its arguments.
unfoldable pub formatted : Bool → List ℕ → List Argument → Option (List ℕ)
unfolding piece
formatted reading [] args = some []
formatted false (c ∷ fmt) args =
    let percent = formatted true fmt args in
    let plain = formatted false fmt args in if c == 0x25 then percent else before (c ∷ []) plain
formatted true (c ∷ fmt) args = elim (piece c args) [
  | none ↦ none
  | some (xs, left) ↦ before xs (formatted false fmt left)
]

-- Characters without a 0.
abbrev pub Nonzero : List ℕ → Type 0
Nonzero [] = Unit {0}
Nonzero (x ∷ xs) = (x ≢ 0) × Nonzero xs

-- The characters `xs` stand at `p` with a 0 behind them.
abbrev pub StringOf : Mem → Ptr → List ℕ → Type 0
StringOf m p xs = Holds m p xs × Nonzero xs × (m (p + length xs) ≡ 0)

-- They stand apart from the `n + 1` bytes at `buf`.
abbrev pub Apart : Ptr → List ℕ → Ptr → ℕ → Type 0
Apart p xs buf n = (p + length xs < buf) ⊎ (buf + n < p)

-- The strings among the arguments stand in memory, apart from the buffer.
abbrev pub Placed : Mem → Ptr → ℕ → List Argument → Type 0
Placed m buf n [] = Unit {0}
Placed m buf n (number k ∷ args) = Placed m buf n args
Placed m buf n (text p xs ∷ args) =
    StringOf m p xs × (p ≢ 0) × Apart p xs buf n × Placed m buf n args
