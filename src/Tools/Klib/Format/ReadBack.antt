-- ===== src/Tools/Klib/Format/ReadBack.antt =====
-- The text of kernel_itoa of source/kernel/tools/klib.c, read as a number again.
use start.Base.{
  ℕ, zero, suc, ◌+◌, ◌-◌, ◌*◌, ◌/◌, ◌%◌, ◌^◌, ◌≤◌, ◌<◌, ◌≡◌, ◌⊎◌, refl, ap, ◌∙◌, inl, inr, arith,
  Bool, true, false, Bool-cases, ◌&&◌, some, if◌then◌else◌, ◌==◌, ltb, leb, word_mod, Ptr, Mem,
  poke,
}
use start.Tools.Klib.Format.{num2ch, write_digits, turn_round, supported, kernel_itoa}
use start.Tools.Klib.Format.Digits.{smaller}

-- What a hexadecimal digit counts.
abbrev pub digit_value : ℕ → ℕ
digit_value ch = if ltb ch 0x3a then ch - 0x30 else ch - 0x37

-- The number that `n` characters from `p` on stand for, the highest first, and the lowest first.
unfoldable pub read_number : ℕ → Mem → Ptr → ℕ → ℕ
read_number base m p zero = 0
read_number base m p (suc n) = read_number base m p n * base + digit_value (m (p + n))

read_lowest_first : ℕ → Mem → Ptr → ℕ → ℕ
read_lowest_first base m p zero = 0
read_lowest_first base m p (suc n) = digit_value (m p) + read_lowest_first base m (p + 1) n * base

turned_number :
    (base n : ℕ) (m m' : Mem) (p q : Ptr)
    → ((i : ℕ) → i < n → m' (p + i) ≡ m (q + (n - 1 - i)))
    → read_number base m' p n ≡ read_lowest_first base m q n
unfolding read_number read_lowest_first
turned_number base zero m m' p q h = refl
turned_number base (suc n) m m' p q h =
    let low : m' (p + n) ≡ m q = h n (omega arith) ∙ ap m (omega arith) in
    let ih = turned_number base n m m' p (q + 1) (λ i lt. h i (omega arith) ∙ ap m (omega arith)) in
    rw (low, ih) (omega arith)

abbrev pub digit_of : ℕ → ℕ → Bool → ℕ
digit_of u base signed_num = num2ch (if signed_num then 15 - u % base else u % base + 15)

digit_back :
    (u base : ℕ) (sg : Bool)
    → supported base ≡ true
    → digit_value (digit_of u base sg) + u / base * base ≡ u
digit_back u base sg h = elim (Bool-cases (base == 2)) [
  | inl e ↦ let b : base ≡ 2 = ground arith in rw b (ground arith)
  | inr e2 ↦ elim (Bool-cases (base == 8)) [
    | inl e ↦ let b : base ≡ 8 = ground arith in rw b (ground arith)
    | inr e8 ↦ elim (Bool-cases (base == 10)) [
      | inl e ↦ let b : base ≡ 10 = ground arith in rw b (ground arith)
      | inr e10 ↦ let b : base ≡ 16 = ground arith in rw b (ground arith)
    ]
  ]
]

-- `n` digits of `u` have been written from `p` on.
record Written (base : ℕ) (m : Mem) (p : Ptr) (u n : ℕ) (m' : Mem) : Type 0 where
  value : read_lowest_first base m' p n ≡ u
  some_digit : 0 < n
  frame : (a : Ptr) → (a < p) ⊎ (p + n ≤ a) → m' a ≡ m a

write_digits-Written :
    (fuel : ℕ) (m : Mem) (p : Ptr) (u base : ℕ) (sg : Bool)
    → supported base ≡ true
    → u < fuel
    → (n : ℕ) × (m' : Mem) × (write_digits fuel m p u base sg ≡ some (m', p + n))
      × Written base m p u n m'
unfolding write_digits read_lowest_first
write_digits-Written zero m p u base sg h lt = absurd (omega arith)
write_digits-Written (suc fuel) m p u base sg h lt = elim (Bool-cases (u / base == 0)) [
  | inl e ↦ rw e (
    1,
    poke m p (digit_of u base sg),
    refl,
    record {
      value = ground (arith, digit_back u base sg h);
      some_digit = omega arith;
      frame = λ a o. ground arith;
    },
  )
  | inr e ↦ rw e (
      let (n, m', eq, w) =
        write_digits-Written fuel (poke m p (digit_of u base sg)) (p + 1) (u / base) base sg h
          (omega (arith, smaller u base h e)) in
      let first : m' p ≡ digit_of u base sg = w.frame p (inl (omega arith)) ∙ ground arith in
      let far : p + 1 + n ≡ p + suc n = omega arith in
      (
        suc n,
        m',
        eq ∙ ap (λ q. some (m', q)) far,
        record {
          value = rw (first, w.value) (digit_back u base sg h);
          some_digit = omega arith;
          frame = λ a o. w.frame a (omega arith) ∙ ground arith;
        },
      ))
]

turn_round_lem :
    (fuel : ℕ) (m : Mem) (start last a : Ptr)
    → last ≤ start + fuel
    → turn_round fuel m start last a
      ≡ (if leb start a && leb a last then m (start + last - a) else m a)
unfolding turn_round
turn_round_lem zero m start last a h = ground arith
turn_round_lem (suc fuel) m start last a h = ground (
  arith,
  turn_round_lem fuel (poke (poke m start (m last)) last (m start)) (start + 1) (last - 1) a,
)

-- The digits `n` at `start`, ended by a 0 and turned round.
unfoldable pub ended_round : Mem → Ptr → ℕ → Mem
ended_round m start n =
    turn_round (start + n - 1 - start) (poke m (start + n) 0) start (start + n - 1)

pub ended_round_lem :
    (m : Mem) (start n a : Ptr)
    → 0 < n
    → ended_round m start n a ≡ (
        if leb start a && ltb a (start + n)
        then m (start + (start + n - 1 - a))
        else poke m (start + n) 0 a)
unfolding ended_round
ended_round_lem m start n a h =
    let at =
      turn_round_lem (start + n - 1 - start) (poke m (start + n) 0) start (start + n - 1) a
        (omega arith) in
    elim (Bool-cases (leb start a && ltb a (start + n))) [
      | inl e ↦
          let t : (leb start a && leb a (start + n - 1)) ≡ true = ground arith in
          let same : start + (start + n - 1) - a ≡ start + (start + n - 1 - a) = ground arith in
          rw (at, t, e, same) (ground arith)
      | inr e ↦
          let t : (leb start a && leb a (start + n - 1)) ≡ false = ground arith in
          rw (at, t, e) refl
    ]

abbrev pub is_signed : ℕ → ℕ → Bool
is_signed num base = leb (2 ^ 31) num && base == 10

-- Where the digits start, and the number without its sign.
abbrev pub digits_at : Ptr → ℕ → ℕ → Ptr
digits_at buf num base = if is_signed num base then buf + 1 else buf

abbrev pub magnitude : ℕ → ℕ → ℕ
magnitude num base = if is_signed num base then word_mod - num else num

-- The text of a number stands in `m'`, with `n` digits, and nothing but it has been written.
pub record TextOf (m : Mem) (buf : Ptr) (num base n : ℕ) (m' : Mem) : Type 0 where
  pub some_digit : 0 < n
  pub digits : read_number base m' (digits_at buf num base) n ≡ magnitude num base
  pub sign : is_signed num base ≡ true → m' buf ≡ 0x2d
  pub ended : m' (digits_at buf num base + n) ≡ 0
  pub frame : (a : Ptr) → (a < buf) ⊎ (digits_at buf num base + n < a) → m' a ≡ m a

-- kernel_itoa in base 2, 8, 10 or 16 ends, and the digits that it writes read as the number again,
-- in base 10 as its absolute value behind a minus sign where it is negative; a 0 ends the text,
-- and nothing else is written.
pub itoa-TextOf :
    (m : Mem) (buf : Ptr) (num base : ℕ)
    → supported base ≡ true
    → (n : ℕ) × (m' : Mem) × (kernel_itoa m buf num base ≡ some m') × TextOf m buf num base n m'
unfolding kernel_itoa ended_round
itoa-TextOf m buf num base h =
    let sg = is_signed num base in
    let u = magnitude num base in
    let start = digits_at buf num base in
    let m0 = if sg then poke m buf 0x2d else m in
    let (n, m1, eq, w) = write_digits-Written (u + 1) m0 start u base sg h (omega arith) in
    let at : (a : Ptr)
        → ended_round m1 start n a ≡ (
            if leb start a && ltb a (start + n)
            then m1 (start + (start + n - 1 - a))
            else poke m1 (start + n) 0 a) =
      λ a. ended_round_lem m1 start n a w.some_digit in
    let turned : (i : ℕ) → i < n → ended_round m1 start n (start + i) ≡ m1 (start + (n - 1 - i)) =
      λ i lt.
        let e : start + n - 1 - (start + i) ≡ n - 1 - i = omega arith in
        let t : (leb start (start + i) && ltb (start + i) (start + n)) ≡ true = ground arith in
        at (start + i) ∙ rw (t, e) refl in
    rw (h, eq)
      (
        n,
        _,
        refl,
        record {
          some_digit = w.some_digit;
          digits = turned_number base n m1 _ start start turned ∙ w.value;
          sign = λ s. ground (arith, at buf, w.frame buf (ground arith));
          ended = ground (arith, at (start + n), w.some_digit);
          frame = λ a o. ground (arith, at a, w.frame a (ground arith));
        },
      )
