-- ===== src/Tools/Klib/Format/Rendering.antt =====
-- kernel_vsprintf of source/kernel/tools/klib.c against its reference.
use start.Base.{
  ℕ, zero, suc, ◌+◌, ◌<◌, ◌≡◌, ◌≢◌, refl, sym, ap, subst, ◌∙◌, inl, inr, arith, Bool, true, false,
  Bool-cases, Option, none, some, List, [], ◌∷◌, ◌++◌, ◌==◌, Ptr, Mem, poke,
}
use start.Tools.LinkedList.Links.{length, length-append}
use start.Tools.Klib.Format.{read_fmt, kernel_vsprintf, kernel_sprintf}
use start.Tools.Klib.Format.Reference.{Argument, words, piece, before, formatted, Placed}
use start.Tools.Klib.Format.Areas.{Wrote-append, Ready, Ready-next}
use start.Tools.Klib.Format.Pieces.{Wrote, DoesPiece, directive_lem}

-- What kernel_vsprintf does where the reference gives a text.
abbrev Renders : ℕ → Mem → Ptr → Ptr → Bool → List ℕ → List Argument → Option (List ℕ) → Type 0
Renders fuel m curr fmt reading fs args none = Unit {0}
Renders fuel m curr fmt reading fs args (some out) =
    length fs + length out < fuel
    → Ready m curr (length out) fmt fs args
    → (m' : Mem) × (kernel_vsprintf fuel m curr fmt reading (words args) ≡ some m')
      × Wrote m curr out m'

vsprintf-plain :
    (fuel : ℕ) (m : Mem) (curr fmt : Ptr) (args : List ℕ)
    → m fmt ≢ 0
    → m fmt ≢ 0x25
    → kernel_vsprintf (suc fuel) m curr fmt false args
      ≡ kernel_vsprintf fuel (poke m curr (m fmt)) (curr + 1) (fmt + 1) false args
unfolding kernel_vsprintf
vsprintf-plain fuel m curr fmt args ne np = ground arith

vsprintf-percent :
    (fuel : ℕ) (m : Mem) (curr fmt : Ptr) (args : List ℕ)
    → m fmt ≡ 0x25
    → kernel_vsprintf (suc fuel) m curr fmt false args
      ≡ kernel_vsprintf fuel m curr (fmt + 1) true args
unfolding kernel_vsprintf
vsprintf-percent fuel m curr fmt args e = ground arith

vsprintf-directive :
    (fuel : ℕ) (m m' : Mem) (curr curr' fmt : Ptr) (args args' : List ℕ)
    → m fmt ≢ 0
    → read_fmt fuel m curr (m fmt) args ≡ some (m', curr', args')
    → kernel_vsprintf (suc fuel) m curr fmt true args
      ≡ kernel_vsprintf fuel m' curr' (fmt + 1) false args'
unfolding kernel_vsprintf
vsprintf-directive fuel m m' curr curr' fmt args args' ne e =
    let z : (m fmt == 0) ≡ false = ground arith in rw (z, e) refl

vsprintf-end :
    (fuel : ℕ) (m : Mem) (curr fmt : Ptr) (reading : Bool) (args : List ℕ)
    → m fmt ≡ 0
    → kernel_vsprintf (suc fuel) m curr fmt reading args ≡ some m
unfolding kernel_vsprintf
vsprintf-end fuel m curr fmt true args e = let z : (m fmt == 0) ≡ true = ground arith in rw z refl
vsprintf-end fuel m curr fmt false args e = ground arith

plain_char :
    (fuel : ℕ) (m : Mem) (curr fmt : Ptr) (c : ℕ) (fs : List ℕ) (args : List Argument)
    (o : Option (List ℕ))
    → c ≢ 0x25
    → Renders fuel (poke m curr c) (curr + 1) (fmt + 1) false fs args o
    → Renders (suc fuel) m curr fmt false (c ∷ fs) args (before (c ∷ []) o)
plain_char fuel m curr fmt c fs args none ne ih = tt
plain_char fuel m curr fmt c fs args (some ys) np ih = λ lt ready.
    let m1 = poke m curr c in
    let at : m fmt ≡ c = ready.1.0.0 in
    let nz : c ≢ 0 = ready.1.1.0 in
    let wrote : Wrote m curr (c ∷ []) m1 =
      ((ground arith, tt), λ a o. ground arith, inl (ground arith)) in
    let next = Ready-next m m1 curr fmt c fs (c ∷ []) ys args args ready wrote ready.3 in
    let (m', eq, wrote') = ih (omega arith) next in
    let step : kernel_vsprintf (suc fuel) m curr fmt false (words args)
        ≡ kernel_vsprintf fuel (poke m curr c) (curr + 1) (fmt + 1) false (words args) =
      vsprintf-plain fuel m curr fmt (words args) (λ e. nz (sym at ∙ e)) (λ e. np (sym at ∙ e))
      ∙ ap (λ v. kernel_vsprintf fuel (poke m curr v) (curr + 1) (fmt + 1) false (words args)) at in
    (m', step ∙ eq, Wrote-append m m1 m' curr (c ∷ []) ys wrote wrote')

one_directive :
    (fuel : ℕ) (m : Mem) (curr fmt : Ptr) (c : ℕ) (fs xs : List ℕ) (args left : List Argument)
    (o : Option (List ℕ))
    → ((n : ℕ) → curr ≢ 0 → Placed m curr n args → DoesPiece fuel m curr n c args (some (xs, left)))
    → ((m1 : Mem) (curr1 : Ptr) → Renders fuel m1 curr1 (fmt + 1) false fs left o)
    → Renders (suc fuel) m curr fmt true (c ∷ fs) args (before xs o)
one_directive fuel m curr fmt c fs xs args left none does ih = tt
one_directive fuel m curr fmt c fs xs args left (some ys) does ih = λ lt ready.
    let total = length-append xs ys in
    let at : m fmt ≡ c = ready.1.0.0 in
    let nz : c ≢ 0 = ready.1.1.0 in
    let (m1, read, wrote, placed) =
      does (length (xs ++ ys)) ready.0 ready.3 (omega (arith, total)) (omega (arith, total)) in
    let next = Ready-next m m1 curr fmt c fs xs ys args left ready wrote placed in
    let (m', eq, wrote') = ih m1 (curr + length xs) (omega (arith, total)) next in
    let read' : read_fmt fuel m curr (m fmt) (words args)
        ≡ some (m1, curr + length xs, words left) =
      ap (λ v. read_fmt fuel m curr v (words args)) at ∙ read in
    let step =
      vsprintf-directive fuel m m1 curr (curr + length xs) fmt (words args) (words left)
        (λ e. nz (sym at ∙ e)) read' in
    (m', step ∙ eq, Wrote-append m m1 m' curr xs ys wrote wrote')

directive_step :
    (fuel : ℕ) (m : Mem) (curr fmt : Ptr) (c : ℕ) (fs : List ℕ) (args : List Argument)
    (p : Option (List ℕ × List Argument))
    → ((n : ℕ) → curr ≢ 0 → Placed m curr n args → DoesPiece fuel m curr n c args p)
    → ((m1 : Mem) (curr1 : Ptr) (left : List Argument)
        → Renders fuel m1 curr1 (fmt + 1) false fs left (formatted false fs left))
    → Renders
        (suc fuel)
        m
        curr
        fmt
        true
        (c ∷ fs)
        args
        (elim p [ none ↦ none | some (xs, left) ↦ before xs (formatted false fs left) ])
directive_step fuel m curr fmt c fs args none does ih = tt
directive_step fuel m curr fmt c fs args (some (xs, left)) does ih =
    one_directive fuel m curr fmt c fs xs args left (formatted false fs left) does
      (λ m1 curr1. ih m1 curr1 left)

percent_sign :
    (fuel : ℕ) (m : Mem) (curr fmt : Ptr) (c : ℕ) (fs : List ℕ) (args : List Argument)
    (o : Option (List ℕ))
    → c ≡ 0x25
    → Renders fuel m curr (fmt + 1) true fs args o
    → Renders (suc fuel) m curr fmt false (c ∷ fs) args o
percent_sign fuel m curr fmt c fs args none e ih = tt
percent_sign fuel m curr fmt c fs args (some out) e ih =
    λ lt (ne, ((h, hs), (f, fsn), end), apart, placed).
      let (m', eq, wrote) =
        ih (omega arith) (ne, (hs, fsn, ap m (omega arith) ∙ end), omega arith, placed) in
      (m', vsprintf-percent fuel m curr fmt (words args) (h ∙ e) ∙ eq, wrote)

no_fuel :
    (m : Mem) (curr fmt : Ptr) (reading : Bool) (fs : List ℕ) (args : List Argument)
    (o : Option (List ℕ))
    → Renders zero m curr fmt reading fs args o
no_fuel m curr fmt reading fs args none = tt
no_fuel m curr fmt reading fs args (some out) = λ lt ready. absurd (omega arith)

vsprintf-Renders :
    (fs : List ℕ) (fuel : ℕ) (m : Mem) (curr fmt : Ptr) (reading : Bool) (args : List Argument)
    → Renders fuel m curr fmt reading fs args (formatted reading fs args)
unfolding formatted
vsprintf-Renders fs zero m curr fmt reading args =
    no_fuel m curr fmt reading fs args (formatted reading fs args)
vsprintf-Renders [] (suc fuel) m curr fmt reading args = λ lt ready. (
  m,
  vsprintf-end fuel m curr fmt reading (words args) (ap m (omega arith) ∙ ready.1.2),
  (tt, λ a o. refl, inl refl),
)
vsprintf-Renders (c ∷ fs) (suc fuel) m curr fmt true args =
    directive_step fuel m curr fmt c fs args (piece c args)
      (λ n ne placed. directive_lem fuel n m curr args c ne placed)
      (λ m1 curr1 left. vsprintf-Renders fs fuel m1 curr1 (fmt + 1) false left)
vsprintf-Renders (c ∷ fs) (suc fuel) m curr fmt false args = elim (Bool-cases (c == 0x25)) [
  | inl e ↦ rw e (
      percent_sign fuel m curr fmt c fs args (formatted true fs args) (ground arith)
        (vsprintf-Renders fs fuel m curr (fmt + 1) true args))
  | inr e ↦ rw e (
      plain_char fuel m curr fmt c fs args (formatted false fs args) (ground arith)
        (vsprintf-Renders fs fuel (poke m curr c) (curr + 1) (fmt + 1) false args))
]

-- So for kernel_vsprintf from its first state on.
pub vsprintf-formatted :
    (fuel : ℕ) (m : Mem) (curr fmt : Ptr) (fs out : List ℕ) (args : List Argument)
    → formatted false fs args ≡ some out
    → length fs + length out < fuel
    → Ready m curr (length out) fmt fs args
    → (m' : Mem) × (kernel_vsprintf fuel m curr fmt false (words args) ≡ some m')
      × Wrote m curr out m'
vsprintf-formatted fuel m curr fmt fs out args e lt ready =
    subst (λ o. Renders fuel m curr fmt false fs args o) e
      (vsprintf-Renders fs fuel m curr fmt false args) lt ready

-- kernel_sprintf writes the text that the reference formatter gives for the characters of the
-- format and the arguments, with %d, %x, %c and %s, and changes nothing but that text and the byte
-- behind it, which is left or becomes 0; where the reference gives a text, with fuel for the
-- format and the text together, and the format and the strings apart from the buffer.
pub sprintf-formatted :
    (fuel : ℕ) (m : Mem) (buffer fmt : Ptr) (fs out : List ℕ) (args : List Argument)
    → formatted false fs args ≡ some out
    → length fs + length out < fuel
    → Ready m buffer (length out) fmt fs args
    → (m' : Mem) × (kernel_sprintf fuel m buffer fmt (words args) ≡ some m') × Wrote m buffer out m'
unfolding kernel_sprintf
sprintf-formatted fuel m buffer fmt fs out args e lt ready =
    vsprintf-formatted fuel m buffer fmt fs out args e lt ready
