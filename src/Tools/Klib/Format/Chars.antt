-- ===== src/Tools/Klib/Format/Chars.antt =====
-- The characters that kernel_itoa of source/kernel/tools/klib.c writes, as a list.
use start.Base.{
  ℕ, zero, suc, ◌+◌, ◌-◌, ◌/◌, ◌%◌, ◌≤◌, ◌<◌, ◌≡◌, ◌⊎◌, refl, ap, subst, ◌∙◌, inl, inr, arith, Bool,
  true, false, Bool-cases, ◌&&◌, some, List, [], ◌∷◌, ◌++◌, if◌then◌else◌, ◌==◌, ltb, leb, Ptr, Mem,
  poke,
}
use start.Tools.LinkedList.Links.{length, length-append}
use start.Tools.Klib.Format.{digit_char, write_digits, supported, kernel_itoa}
use start.Tools.Klib.Format.Digits.{smaller}
use start.Tools.Klib.Format.ReadBack.{
  digit_of, is_signed, digits_at, magnitude, ended_round, ended_round_lem,
}

-- The characters `xs` stand in memory from `p` on.
abbrev pub Holds : Mem → Ptr → List ℕ → Type 0
Holds m p [] = Unit {0}
Holds m p (x ∷ xs) = (m p ≡ x) × Holds m (p + 1) xs

pub Holds-same :
    (m m' : Mem) (p : Ptr) (xs : List ℕ)
    → ((a : Ptr) → p ≤ a → a < p + length xs → m' a ≡ m a)
    → Holds m p xs
    → Holds m' p xs
Holds-same m m' p [] same h = tt
Holds-same m m' p (x ∷ xs) same (h, hs) = (
  same p (omega arith) (omega arith) ∙ h,
  Holds-same m m' (p + 1) xs (λ a l u. same a (omega arith) (omega arith)) hs,
)

pub Holds-append :
    (m : Mem) (p : Ptr) (xs ys : List ℕ)
    → Holds m p xs
    → Holds m (p + length xs) ys
    → Holds m p (xs ++ ys)
Holds-append m p [] ys h k = subst (λ q. Holds m q ys) (omega arith) k
Holds-append m p (x ∷ xs) ys (h, hs) k =
    (h, Holds-append m (p + 1) xs ys hs (subst (λ q. Holds m q ys) (omega arith) k))

abbrev pub turned : List ℕ → List ℕ
turned [] = []
turned (x ∷ xs) = turned xs ++ x ∷ []

length-turned : (xs : List ℕ) → length (turned xs) ≡ length xs
length-turned [] = refl
length-turned (x ∷ xs) = omega (arith, length-turned xs, length-append (turned xs) (x ∷ []))

Holds-turned :
    (m m' : Mem) (p q : Ptr) (xs : List ℕ)
    → Holds m q xs
    → ((i : ℕ) → i < length xs → m' (p + i) ≡ m (q + (length xs - 1 - i)))
    → Holds m' p (turned xs)
Holds-turned m m' p q [] h same = tt
Holds-turned m m' p q (x ∷ xs) (h, hs) same =
    let n = length xs in
    let last : m' (p + n) ≡ x = same n (omega arith) ∙ ap m (omega arith) ∙ h in
    let before =
      Holds-turned m m' p (q + 1) xs hs (λ i lt. same i (omega arith) ∙ ap m (omega arith)) in
    Holds-append m' p (turned xs) (x ∷ []) before
      (ap (λ k. m' (p + k)) (length-turned xs) ∙ last, tt)

-- The digits of `u`, the lowest first.
unfoldable pub low_digits : ℕ → ℕ → ℕ → List ℕ
low_digits zero base u = []
low_digits (suc fuel) base u =
    let rest = low_digits fuel base (u / base) in
    digit_char (u % base) ∷ (if u / base == 0 then [] else rest)

digit_of_lem :
    (u base : ℕ) (sg : Bool) → supported base ≡ true → digit_of u base sg ≡ digit_char (u % base)
digit_of_lem u base sg h = elim (Bool-cases (base == 2)) [
  | inl e ↦ let b : base ≡ 2 = ground arith in rw b (ground arith)
  | inr e2 ↦ elim (Bool-cases (base == 8)) [
    | inl e ↦ let b : base ≡ 8 = ground arith in rw b (ground arith)
    | inr e8 ↦ elim (Bool-cases (base == 10)) [
      | inl e ↦ let b : base ≡ 10 = ground arith in rw b (ground arith)
      | inr e10 ↦ let b : base ≡ 16 = ground arith in rw b (ground arith)
    ]
  ]
]

-- `ds` has been written from `p` on.
abbrev pub Puts : Mem → Ptr → List ℕ → Mem → Type 0
Puts m p ds m' = Holds m' p ds × ((a : Ptr) → (a < p) ⊎ (p + length ds ≤ a) → m' a ≡ m a)

write_digits-Puts :
    (fuel : ℕ) (m : Mem) (p : Ptr) (u base : ℕ) (sg : Bool)
    → supported base ≡ true
    → u < fuel
    → (m' : Mem) × (write_digits fuel m p u base sg
        ≡ some (m', p + length (low_digits fuel base u)))
      × Puts m p (low_digits fuel base u) m'
unfolding write_digits low_digits
write_digits-Puts zero m p u base sg h lt = absurd (omega arith)
write_digits-Puts (suc fuel) m p u base sg h lt =
    let d = digit_of_lem u base sg h in
    elim (Bool-cases (u / base == 0)) [
      | inl e ↦
          rw (e, d)
            (poke m p (digit_char (u % base)), refl, ((ground arith, tt), λ a o. ground arith))
      | inr e ↦
          rw (e, d)
            (let m1 = poke m p (digit_char (u % base)) in
              let (m', went, (holds, frame)) =
                write_digits-Puts fuel m1 (p + 1) (u / base) base sg h
                  (omega (arith, smaller u base h e)) in
              (
                m',
                went ∙ ap (λ q. some (m', q)) (omega arith),
                (
                  (frame p (inl (omega arith)) ∙ ground arith, holds),
                  λ a o. frame a (omega arith) ∙ ground arith,
                ),
              ))
    ]

low_digits-ne : (fuel base u : ℕ) → u < fuel → 0 < length (low_digits fuel base u)
unfolding low_digits
low_digits-ne zero base u h = absurd (omega arith)
low_digits-ne (suc fuel) base u h = omega arith

-- The text of a number.
unfoldable pub number_text : ℕ → ℕ → List ℕ
number_text num base =
    let digits = turned (low_digits (magnitude num base + 1) base (magnitude num base)) in
    if is_signed num base then 0x2d ∷ digits else digits

-- The text `xs` has been written from `p` on, with a 0 behind it.
abbrev pub Ended : Mem → Ptr → List ℕ → Mem → Type 0
Ended m p xs m' =
    Holds m' p xs
    × (m' (p + length xs) ≡ 0)
    × ((a : Ptr) → (a < p) ⊎ (p + length xs < a) → m' a ≡ m a)

ended_round-Ended :
    (m m1 : Mem) (p : Ptr) (ds : List ℕ)
    → 0 < length ds
    → Puts m p ds m1
    → Ended m p (turned ds) (ended_round m1 p (length ds))
ended_round-Ended m m1 p ds some_digit (holds, frame) =
    let n = length ds in
    let same = length-turned ds in
    let at : (a : Ptr)
        → ended_round m1 p n a
          ≡ (if leb p a && ltb a (p + n) then m1 (p + (p + n - 1 - a)) else poke m1 (p + n) 0 a) =
      λ a. ended_round_lem m1 p n a some_digit in
    (
      Holds-turned m1 (ended_round m1 p n) p p ds holds (λ i lt.
          let e : p + n - 1 - (p + i) ≡ n - 1 - i = omega arith in
          let t : (leb p (p + i) && ltb (p + i) (p + n)) ≡ true = ground arith in
          at (p + i) ∙ rw (t, e) refl),
      ground (arith, at (p + n), same),
      λ a o. ground (arith, at a, frame a (omega (arith, same)), same),
    )

-- The minus sign goes before the digits.
with_sign-Ended :
    (sg : Bool) (m m' : Mem) (p : Ptr) (xs : List ℕ)
    → 0 < length xs
    → Ended (if sg then poke m p 0x2d else m) (if sg then p + 1 else p) xs m'
    → Ended m p (if sg then 0x2d ∷ xs else xs) m'
with_sign-Ended false m m' p xs ne ended = ended
with_sign-Ended true m m' p xs ne (holds, end, frame) = (
  (frame p (inl (omega arith)) ∙ ground arith, holds),
  ap m' (omega arith) ∙ end,
  λ a o. frame a (omega arith) ∙ ground arith,
)

pub itoa-Ended :
    (m : Mem) (buf : Ptr) (num base : ℕ)
    → supported base ≡ true
    → (m' : Mem) × (kernel_itoa m buf num base ≡ some m') × Ended m buf (number_text num base) m'
unfolding kernel_itoa number_text ended_round
itoa-Ended m buf num base h =
    let sg = is_signed num base in
    let u = magnitude num base in
    let start = digits_at buf num base in
    let ds = low_digits (u + 1) base u in
    let ne = low_digits-ne (u + 1) base u (omega arith) in
    let m0 = if sg then poke m buf 0x2d else m in
    let (m1, eq, puts) = write_digits-Puts (u + 1) m0 start u base sg h (omega arith) in
    let round = ended_round-Ended m0 m1 start ds ne puts in
    let text_ne : 0 < length (turned ds) = omega (arith, length-turned ds, ne) in
    rw (h, eq) (_, refl, with_sign-Ended sg m _ buf (turned ds) text_ne round)
