-- ===== src/Tools/Klib/Format/Areas.antt =====
-- The areas that kernel_vsprintf of source/kernel/tools/klib.c reads and writes: what is written behind a
-- text keeps it, and leaves the format and the strings in place.
use start.Base.{
  ℕ, ◌+◌, ◌≤◌, ◌<◌, ◌≡◌, ◌≢◌, ◌⊎◌, ap, ◌∙◌, inl, arith, List, [], ◌∷◌, ◌++◌, Ptr, Mem, inr,
  Bool-cases, ◌==◌, subst,
}
use start.Tools.LinkedList.Links.{length, length-append}
use start.Tools.Klib.Format.Chars.{Holds-same, Holds-append}
use start.Tools.Klib.Format.Reference.{Argument, number, text, StringOf, Apart, Placed}
use start.Tools.Klib.Format.Pieces.{EndsText, EndsText-trans, Wrote}

-- `m1` is `m` outside the `n + 1` bytes at `lo`.
abbrev SameOutside : Mem → Mem → Ptr → ℕ → Type 0
SameOutside m m1 lo n = (a : Ptr) → (a < lo) ⊎ (lo + n < a) → m1 a ≡ m a

pub StringOf-same :
    (m m1 : Mem) (p : Ptr) (xs : List ℕ) (lo : Ptr) (n : ℕ)
    → Apart p xs lo n
    → SameOutside m m1 lo n
    → StringOf m p xs
    → StringOf m1 p xs
StringOf-same m m1 p xs lo n apart same (holds, full, end) = (
  Holds-same m m1 p xs (λ a l u. same a (omega arith)) holds,
  full,
  same (p + length xs) (omega arith) ∙ end,
)

pub Placed-same :
    (m m1 : Mem) (lo : Ptr) (n : ℕ) (lo1 : Ptr) (n1 : ℕ) (args : List Argument)
    → lo ≤ lo1
    → lo1 + n1 ≤ lo + n
    → SameOutside m m1 lo n
    → Placed m lo n args
    → Placed m1 lo1 n1 args
Placed-same m m1 lo n lo1 n1 [] l u same h = tt
Placed-same m m1 lo n lo1 n1 (number k ∷ args) l u same h =
    Placed-same m m1 lo n lo1 n1 args l u same h
Placed-same m m1 lo n lo1 n1 (text p xs ∷ args) l u same (is, ne, apart, rest) = (
  StringOf-same m m1 p xs lo n apart same is,
  ne,
  omega arith,
  Placed-same m m1 lo n lo1 n1 args l u same rest,
)

pub Wrote-append :
    (m m1 m2 : Mem) (curr : Ptr) (xs ys : List ℕ)
    → Wrote m curr xs m1
    → Wrote m1 (curr + length xs) ys m2
    → Wrote m curr (xs ++ ys) m2
Wrote-append m m1 m2 curr xs ys (holds, frame, end) (holds', frame', end') =
    let total = length-append xs ys in
    let first : EndsText m (curr + length (xs ++ ys)) m1 = elim (Bool-cases (length ys == 0)) [
      | inl e ↦
          let at : curr + length xs ≡ curr + length (xs ++ ys) = ground (arith, total) in
          subst (λ a. EndsText m a m1) at end
      | inr e ↦ inl (frame (curr + length (xs ++ ys)) (inr (ground (arith, total))))
    ] in
    (
      Holds-append m2 curr xs ys (Holds-same m1 m2 curr xs (λ a l u. frame' a (inl u)) holds)
          holds',
      λ a o. frame' a (omega (arith, total)) ∙ frame a (omega (arith, total)),
      EndsText-trans m m1 m2 (curr + length (xs ++ ys)) (curr + length xs + length ys)
          (omega (arith, total)) first end',
    )

-- A format and its arguments are in place for a text of `n` characters at `curr`.
abbrev pub Ready : Mem → Ptr → ℕ → Ptr → List ℕ → List Argument → Type 0
Ready m curr n fmt fs args =
    (curr ≢ 0) × StringOf m fmt fs × Apart fmt fs curr n × Placed m curr n args

pub Ready-next :
    (m m1 : Mem) (curr fmt : Ptr) (c : ℕ) (fs xs ys : List ℕ) (args left : List Argument)
    → Ready m curr (length (xs ++ ys)) fmt (c ∷ fs) args
    → Wrote m curr xs m1
    → Placed m curr (length (xs ++ ys)) left
    → Ready m1 (curr + length xs) (length ys) (fmt + 1) fs left
Ready-next m m1 curr fmt c fs xs ys args left (ne, ((h, hs), (f, fsn), end), apart, placed)
      (holds, frame, last) rest =
    let total = length-append xs ys in
    let n = length (xs ++ ys) in
    let same : SameOutside m m1 curr n = λ a o. frame a (omega (arith, total)) in
    let out : Apart (fmt + 1) fs curr n = omega arith in
    (
      omega arith,
      StringOf-same m m1 (fmt + 1) fs curr n out same (hs, fsn, ap m (omega arith) ∙ end),
      omega (arith, total),
      Placed-same m m1 curr n (curr + length xs) (length ys) left (omega arith)
          (omega (arith, total)) same rest,
    )
