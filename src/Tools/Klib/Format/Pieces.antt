-- ===== src/Tools/Klib/Format/Pieces.antt =====
-- What the case READ_FMT of kernel_vsprintf of source/kernel/tools/klib.c writes for one directive.
use start.Base.{
  ℕ, zero, suc, ◌+◌, ◌/◌, ◌%◌, ◌≤◌, ◌<◌, ◌≡◌, ◌≢◌, ◌⊎◌, refl, sym, ap, subst, ◌∙◌, inl, inr, arith,
  Bool, true, false, Bool-cases, ◌||◌, Option, none, some, List, [], ◌∷◌, ◌++◌, if◌then◌else◌, ◌==◌,
  Ptr, Mem, poke,
}
use start.Tools.LinkedList.Links.{length}
use start.Tools.Klib.Text.Strings.{IsString, strlen-IsString}
use start.Tools.Klib.Format.{supported, put_chars, put_number, put_string, read_fmt}
use start.Tools.Klib.Format.Chars.{Holds, Holds-same, turned, low_digits, number_text, itoa-Ended}
use start.Tools.Klib.Format.ReadBack.{is_signed, magnitude}
use start.Tools.Klib.Format.Reference.{
  Argument, number, text, words, piece, Nonzero, StringOf, Placed,
}

pub StringOf-IsString :
    (m : Mem) (p : Ptr) (xs : List ℕ) → StringOf m p xs → IsString m p (length xs)
StringOf-IsString m p xs (holds, full, end) = (end, nonzero_at m p xs holds full)
  where
    nonzero_at :
        (m : Mem) (p : Ptr) (xs : List ℕ)
        → Holds m p xs
        → Nonzero xs
        → (i : ℕ) → i < length xs
        → m (p + i) ≢ 0
    nonzero_at m p [] h f i lt = absurd (omega arith)
    nonzero_at m p (x ∷ xs) (h, hs) (f, fs) zero lt = λ e. f (sym h ∙ ap m (omega arith) ∙ e)
    nonzero_at m p (x ∷ xs) (h, hs) (f, fs) (suc i) lt =
        λ e. nonzero_at m (p + 1) xs hs fs i (omega arith) (ap m (omega arith) ∙ e)

Nonzero-append : (xs ys : List ℕ) → Nonzero xs → Nonzero ys → Nonzero (xs ++ ys)
Nonzero-append [] ys h k = k
Nonzero-append (x ∷ xs) ys (h, hs) k = (h, Nonzero-append xs ys hs k)

turned-Nonzero : (xs : List ℕ) → Nonzero xs → Nonzero (turned xs)
turned-Nonzero [] h = tt
turned-Nonzero (x ∷ xs) (h, hs) = Nonzero-append (turned xs) (x ∷ []) (turned-Nonzero xs hs) (h, tt)

low_digits-Nonzero : (fuel base u : ℕ) → Nonzero (low_digits fuel base u)
unfolding low_digits
low_digits-Nonzero zero base u = tt
low_digits-Nonzero (suc fuel) base u = elim (Bool-cases (u / base == 0)) [
  | inl e ↦ rw e (ground arith, tt)
  | inr e ↦ rw e (ground arith, low_digits-Nonzero fuel base (u / base))
]

with_sign-Nonzero : (sg : Bool) (xs : List ℕ) → Nonzero xs → Nonzero (if sg then 0x2d ∷ xs else xs)
with_sign-Nonzero true xs h = (ground arith, h)
with_sign-Nonzero false xs h = h

number_text-Nonzero : (num base : ℕ) → Nonzero (number_text num base)
unfolding number_text
number_text-Nonzero num base =
    let u = magnitude num base in
    with_sign-Nonzero (is_signed num base) (turned (low_digits (u + 1) base u))
      (turned-Nonzero (low_digits (u + 1) base u) (low_digits-Nonzero (u + 1) base u))

-- The byte behind a text is left or is 0.
abbrev pub EndsText : Mem → Ptr → Mem → Type 0
EndsText m p m' = (m' p ≡ m p) ⊎ (m' p ≡ 0)

pub EndsText-trans :
    (m m1 m' : Mem) (p q : Ptr) → q ≡ p → EndsText m p m1 → EndsText m1 q m' → EndsText m p m'
EndsText-trans m m1 m' p q e before after = elim (subst (λ a. EndsText m1 a m') e after) [
  | inr z ↦ inr z
  | inl h ↦ elim before [ inl g ↦ inl (h ∙ g) | inr z ↦ inr (h ∙ z) ]
]

-- The text `xs` has been written from `p` on, and perhaps a 0 behind it.
abbrev pub Wrote : Mem → Ptr → List ℕ → Mem → Type 0
Wrote m p xs m' =
    Holds m' p xs
    × ((a : Ptr) → (a < p) ⊎ (p + length xs < a) → m' a ≡ m a)
    × EndsText m (p + length xs) m'

put_number-Wrote :
    (fuel : ℕ) (m : Mem) (curr : Ptr) (num base : ℕ)
    → supported base ≡ true
    → curr ≢ 0
    → length (number_text num base) < fuel
    → (m' : Mem) × (put_number fuel m curr num base
        ≡ some (m', curr + length (number_text num base)))
      × Wrote m curr (number_text num base) m'
unfolding put_number number_text
put_number-Wrote fuel m curr num base h ne lt =
    let xs = number_text num base in
    let (m', eq, (holds, end, frame)) = itoa-Ended m curr num base h in
    let is = StringOf-IsString m' curr xs (holds, number_text-Nonzero num base, end) in
    rw (put_number, eq, strlen-IsString fuel m' curr (length xs) ne is lt)
      (m', refl, (holds, frame, inr end))

put_chars-Wrote :
    (m : Mem) (curr s : Ptr) (xs : List ℕ)
    → Holds m s xs
    → (s + length xs < curr) ⊎ (curr + length xs < s)
    → Wrote m curr xs (put_chars m curr s (length xs))
unfolding put_chars
put_chars-Wrote m curr s [] h out = (tt, λ a o. refl, inl refl)
put_chars-Wrote m curr s (x ∷ xs) (h, hs) out =
    let m1 = poke m curr (m s) in
    let hs' = Holds-same m m1 (s + 1) xs (λ a l u. ground arith) hs in
    let (holds, frame, end) = put_chars-Wrote m1 (curr + 1) (s + 1) xs hs' (omega arith) in
    (
      (frame curr (inl (omega arith)) ∙ ground arith, holds),
      λ a o. frame a (omega arith) ∙ ground arith,
      EndsText-trans m m1 (put_chars m1 (curr + 1) (s + 1) (length xs)) (curr + suc (length xs))
          (curr + 1 + length xs) (omega arith) (inl (ground arith)) end,
    )

put_string-Wrote :
    (fuel : ℕ) (m : Mem) (curr str : Ptr) (xs : List ℕ)
    → StringOf m str xs
    → str ≢ 0
    → length xs < fuel
    → (str + length xs < curr) ⊎ (curr + length xs < str)
    → (m' : Mem) × (put_string fuel m curr str ≡ some (m', curr + length xs)) × Wrote m curr xs m'
unfolding put_string
put_string-Wrote fuel m curr str xs is ne lt out =
    let len = strlen-IsString fuel m str (length xs) ne (StringOf-IsString m str xs is) lt in
    rw (put_string, len) (_, refl, put_chars-Wrote m curr str xs is.0 out)

-- One directive writes its piece and leaves the arguments behind it, which are still in place.
abbrev pub Does : ℕ → Mem → Ptr → ℕ → ℕ → List Argument → List ℕ → List Argument → Type 0
Does fuel m curr n c args xs left =
    (m' : Mem) × (read_fmt fuel m curr c (words args) ≡ some (m', curr + length xs, words left))
    × Wrote m curr xs m'
    × Placed m curr n left

abbrev pub DoesPiece :
    ℕ → Mem → Ptr → ℕ → ℕ → List Argument → Option (List ℕ × List Argument) → Type 0
DoesPiece fuel m curr n c args none = Unit {0}
DoesPiece fuel m curr n c args (some (xs, left)) =
    length xs ≤ n → length xs < fuel → Does fuel m curr n c args xs left

abbrev is_directive : ℕ → Bool
is_directive c = c == 0x64 || c == 0x78 || c == 0x63 || c == 0x73

read_fmt_other :
    (fuel : ℕ) (m : Mem) (curr : Ptr) (c : ℕ) (args : List ℕ)
    → is_directive c ≡ false
    → read_fmt fuel m curr c args ≡ some (m, curr, args)
unfolding read_fmt
read_fmt_other fuel m curr c [] e = ground arith
read_fmt_other fuel m curr c (a ∷ args) e = ground arith

piece_other :
    (c : ℕ) (args : List Argument) → is_directive c ≡ false → piece c args ≡ some ([], args)
unfolding piece
piece_other c [] e = ground arith
piece_other c (number k ∷ args) e = ground arith
piece_other c (text p xs ∷ args) e = ground arith

abbrev pub Directive : ℕ → Mem → Ptr → ℕ → List Argument → ℕ → Type 0
Directive fuel m curr n args c =
    curr ≢ 0 → Placed m curr n args → DoesPiece fuel m curr n c args (piece c args)

other :
    (fuel n : ℕ) (m : Mem) (curr : Ptr) (args : List Argument) (c : ℕ)
    → is_directive c ≡ false
    → Directive fuel m curr n args c
other fuel n m curr args c e =
    rw (piece_other c args e, read_fmt_other fuel m curr c (words args) e)
      (λ ne placed le lt.
        (m, ap (λ p. some (m, p, words args)) (omega arith), (tt, λ a o. refl, inl refl), placed))

decimal :
    (fuel n : ℕ) (m : Mem) (curr : Ptr) (args : List Argument) → Directive fuel m curr n args 0x64
unfolding piece read_fmt
decimal fuel n m curr [] ne placed = tt
decimal fuel n m curr (number k ∷ args) ne placed = λ le lt.
    let (m', eq, wrote) = put_number-Wrote fuel m curr k 10 refl ne lt in
    (m', rw eq refl, wrote, placed)
decimal fuel n m curr (text p xs ∷ args) ne placed = tt

hexadecimal :
    (fuel n : ℕ) (m : Mem) (curr : Ptr) (args : List Argument) → Directive fuel m curr n args 0x78
unfolding piece read_fmt
hexadecimal fuel n m curr [] ne placed = tt
hexadecimal fuel n m curr (number k ∷ args) ne placed = λ le lt.
    let (m', eq, wrote) = put_number-Wrote fuel m curr k 16 refl ne lt in
    (m', rw eq refl, wrote, placed)
hexadecimal fuel n m curr (text p xs ∷ args) ne placed = tt

character :
    (fuel n : ℕ) (m : Mem) (curr : Ptr) (args : List Argument) → Directive fuel m curr n args 0x63
unfolding piece read_fmt
character fuel n m curr [] ne placed = tt
character fuel n m curr (number k ∷ args) ne placed = λ le lt. (
  poke m curr (k % 256),
  refl,
  ((ground arith, tt), λ a o. ground arith, inl (ground arith)),
  placed,
)
character fuel n m curr (text p xs ∷ args) ne placed = tt

string :
    (fuel n : ℕ) (m : Mem) (curr : Ptr) (args : List Argument) → Directive fuel m curr n args 0x73
unfolding piece read_fmt
string fuel n m curr [] ne placed = tt
string fuel n m curr (number k ∷ args) ne placed = tt
string fuel n m curr (text p xs ∷ args) ne (is, p_ne, apart, placed) = λ le lt.
    let (m', eq, wrote) = put_string-Wrote fuel m curr p xs is p_ne lt (omega arith) in
    (m', rw eq refl, wrote, placed)

pub directive_lem :
    (fuel n : ℕ) (m : Mem) (curr : Ptr) (args : List Argument) (c : ℕ)
    → Directive fuel m curr n args c
directive_lem fuel n m curr args c = elim (Bool-cases (is_directive c)) [
  | inr e ↦ other fuel n m curr args c e
  | inl e ↦
      let cases : (c ≡ 0x64) ⊎ (c ≡ 0x78) ⊎ (c ≡ 0x63) ⊎ (c ≡ 0x73) = ground arith in
      let at : (d : ℕ) → Directive fuel m curr n args d → c ≡ d → Directive fuel m curr n args c =
        λ d h e. subst (λ x. Directive fuel m curr n args x) (sym e) h in
      elim cases [
        | inl e ↦ at 0x64 (decimal fuel n m curr args) e
        | inr (inl e) ↦ at 0x78 (hexadecimal fuel n m curr args) e
        | inr (inr (inl e)) ↦ at 0x63 (character fuel n m curr args) e
        | inr (inr (inr e)) ↦ at 0x73 (string fuel n m curr args) e
      ]
]
