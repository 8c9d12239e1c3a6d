-- ===== src/Tools/Bitmap/Alloc.antt =====
-- The search of bitmap_alloc_nbits of source/kernel/tools/bitmap.c: where it ends, and what it has
-- looked at by then. The inner loop reads the bits from the start of a run on, its first bit once
-- more, so that it reads `count - 1` bits of a run of `count`.
use start.Base.{
  ℕ, zero, suc, ◌+◌, ◌-◌, ◌≤◌, ◌<◌, ◌≡◌, ◌⊎◌, refl, arith, true, Option, none, some, Bool-cases,
  inl, inr, if◌then◌else◌, ◌==◌, ltb, Mem, IsBytes,
}
use start.Tools.Bitmap.{
  Bitmap, bitmap_set_bit, bitmap_get_bit, Match, all_match, mismatch, match_run, Search, found,
  absent, out_of_fuel, search_from, bitmap_alloc_nbits, complement,
}
use start.Tools.Bitmap.Bits.{reached, get-set_bit}

-- How many bits of a run the search reads.
abbrev pub checked : ℕ → ℕ
checked count = suc (count - 2)

module _ (m : Mem) (bm : Bitmap) (bit : ℕ) where
  -- A bit of the bitmap that reads as `bit`.
  abbrev pub Fits : ℕ → Type 0
  Fits i = (i < bm.bit_count) × (bitmap_get_bit m bm i ≡ bit)

  -- `n` such bits from `s` on.
  abbrev pub Run : ℕ → ℕ → Type 0
  Run s n = (i : ℕ) → s ≤ i → i < s + n → Fits i

  match_run-Run : (left s : ℕ) → match_run m bm bit left s ≡ all_match → Run s left
  unfolding match_run
  match_run-Run zero s e i h k = absurd (omega arith)
  match_run-Run (suc left) s e i h k = elim (Bool-cases (i == s)) [
    | inl q ↦ ground arith
    | inr q ↦ match_run-Run left (s + 1) (ground arith) i (ground arith) (ground arith)
  ]

  -- Where a run breaks off: at a bit that does not fit, or at the end of the bitmap.
  record Break (s left next : ℕ) : Type 0 where
    at : ℕ
    from : s ≤ at
    below : at < s + left
    next_ge : at ≤ next
    next_le : next ≤ at + 1
    unfit : ¬ Fits at

  Break-shift : (s left next : ℕ) → Break (s + 1) left next → Break s (suc left) next
  Break-shift s left next b = record {
    at = b.at;
    from = omega arith;
    below = omega arith;
    next_ge = b.next_ge;
    next_le = b.next_le;
    unfit = b.unfit;
  }

  match_run-Break :
      (left s next : ℕ) → match_run m bm bit left s ≡ mismatch next → Break s left next
  unfolding match_run
  match_run-Break zero s next e = cc
  match_run-Break (suc left) s next e = elim (Bool-cases (ltb s bm.bit_count)) [
    | inr q ↦ record {
      at = s;
      from = omega arith;
      below = omega arith;
      next_ge = ground arith;
      next_le = ground arith;
      unfit = λ f. ground arith;
    }
    | inl q ↦ elim (Bool-cases (bitmap_get_bit m bm s == bit)) [
      | inr r ↦ record {
        at = s;
        from = omega arith;
        below = omega arith;
        next_ge = ground arith;
        next_le = ground arith;
        unfit = λ f. ground arith;
      }
      | inl r ↦ Break-shift s left next (match_run-Break left (s + 1) next (ground arith))
    ]
  ]

  -- No run of the length that is read starts between `idx` and `s`.
  abbrev pub NoRun : ℕ → ℕ → ℕ → Type 0
  NoRun count idx s = (i : ℕ) → idx ≤ i → i < s → ¬ Run i (checked count)

  -- What the search from `idx` may return: the first run, or none where there is none.
  abbrev pub Finds : ℕ → ℕ → Search → Type 0
  Finds count idx (found s) = (idx ≤ s) × Run s (checked count) × NoRun count idx s
  Finds count idx absent = (i : ℕ) → idx ≤ i → ¬ Run i (checked count)
  Finds count idx out_of_fuel = ⊥

  NoRun-unfit : (count idx at : ℕ) → ¬ Fits at → at < idx + checked count → NoRun count idx (at + 1)
  NoRun-unfit count idx at u h i h1 h2 run = u (run at (omega arith) (omega arith))

  Finds-step :
      (count idx next : ℕ) (r : Search)
      → idx ≤ next
      → NoRun count idx next
      → Finds count next r
      → Finds count idx r
  Finds-step count idx next (found s) le none_before (from, run, first) = (
    omega arith,
    run,
    λ i h1 h2. elim (Bool-cases (ltb i next)) [
      | inl q ↦ none_before i h1 (ground arith)
      | inr q ↦ first i (ground arith) h2
    ],
  )
  Finds-step count idx next absent le none_before all = λ i h1. elim (Bool-cases (ltb i next)) [
    | inl q ↦ none_before i h1 (ground arith)
    | inr q ↦ all i (ground arith)
  ]
  Finds-step count idx next out_of_fuel le none_before bad = bad

  module _ (count idx : ℕ) (q : ltb idx bm.bit_count ≡ true)
      (r : (bitmap_get_bit m bm idx == bit) ≡ true) where
    full_Run : Run idx (count - 1) → Run idx (checked count)
    full_Run run i h1 h2 = elim (Bool-cases (i == idx)) [
      | inl e ↦ ground arith
      | inr e ↦ run i h1 (ground arith)
    ]

    Break-past : (next : ℕ) → Break idx (count - 1) next → idx < next
    Break-past next b = elim (Bool-cases (b.at == idx)) [
      | inl e ↦ absurd (b.unfit (ground arith))
      | inr e ↦ ground (arith, b.from, b.next_ge)
    ]

  Match-cases : (r : Match) → (r ≡ all_match) ⊎ ((n : ℕ) × (r ≡ mismatch n))
  Match-cases all_match = inl refl
  Match-cases (mismatch n) = inr (n, refl)

  -- With fuel for the bits that are left, the search ends with what it is to find.
  search_from-Finds :
      (fuel count idx : ℕ)
      → bm.bit_count - idx < fuel
      → Finds count idx (search_from fuel m bm bit count idx)
  unfolding search_from
  search_from-Finds zero count idx h = absurd (omega arith)
  search_from-Finds (suc fuel) count idx h = elim (Bool-cases (ltb idx bm.bit_count)) [
    | inr q ↦ rw q (λ i h1 run. ground (arith, run i))
    | inl q ↦ rw q (elim (Bool-cases (bitmap_get_bit m bm idx == bit)) [
      | inr r ↦ rw r (
          Finds-step count idx (idx + 1) _ (omega arith)
            (NoRun-unfit count idx idx (λ f. ground arith) (omega arith))
            (search_from-Finds fuel count (idx + 1) (ground arith)))
      | inl r ↦ rw r (elim (Match-cases (match_run m bm bit (count - 1) idx)) [
        | inl e ↦ rw e (
          omega arith,
          full_Run count idx q r (match_run-Run (count - 1) idx e),
          λ i h1 h2 run. omega arith,
        )
        | inr (next, e) ↦ rw e (
            let b = match_run-Break (count - 1) idx next e in
            let past = Break-past count idx q r next b in
            Finds-step count idx next _ (omega arith)
              (λ i h1 h2.
                NoRun-unfit count idx b.at b.unfit (omega (arith, b.below)) i h1
                  (omega (arith, b.next_le)))
              (search_from-Finds fuel count next (ground arith)))
      ])
    ])
  ]

module _ (m : Mem) (bm : Bitmap) (bit count : ℕ) where
  -- What an allocation promises: the first run, with every bit of the range set and no other
  -- changed; or nothing, where no run of the length that is read exists.
  abbrev pub Allocates : Mem × Option ℕ → Type 0
  Allocates (m', none) = (m' ≡ m) × ((i : ℕ) → ¬ Run m bm bit i (checked count))
  Allocates (m', some s) =
      Run m bm bit s (checked count)
      × ((i : ℕ) → i < s → ¬ Run m bm bit i (checked count))
      × ((j : ℕ)
          → bitmap_get_bit m' bm j ≡ (if reached bm s count j then 1 else bitmap_get_bit m bm j))

  allocated :
      IsBytes m
      → bit < 2
      → (r : Search) → Finds m bm bit count 0 r
      → Allocates (elim r [
        | found s ↦ (bitmap_set_bit m bm s count (complement bit), some s)
        | absent ↦ (m, none)
        | out_of_fuel ↦ (m, none)
      ])
  allocated h hb (found s) (from, run, first) = (
    run,
    λ i. first i (omega arith),
    λ j. ground (arith, get-set_bit m bm s count (complement bit) j h),
  )
  allocated h hb absent all = (refl, λ i. all i (omega arith))
  allocated h hb out_of_fuel bad = absurd bad

  -- bitmap_alloc_nbits ends, and for a bit of 0 or 1 it sets exactly the range of the first run of
  -- the length that it reads, one bit at least and one less than was asked for, or changes nothing
  -- where there is no such run.
  pub alloc_nbits-Allocates : IsBytes m → bit < 2 → Allocates (bitmap_alloc_nbits m bm bit count)
  unfolding bitmap_alloc_nbits
  alloc_nbits-Allocates h hb =
      allocated h hb _ (search_from-Finds m bm bit (bm.bit_count + 1) count 0 (omega arith))

  at_zero : (r : Mem × Option ℕ) → Allocates r → Run m bm bit 0 (checked count) → r.1 ≡ some 0
  at_zero (m', none) (_, all) run = absurd (all 0 run)
  at_zero (m', some zero) a run = refl
  at_zero (m', some (suc s)) (_, first, _) run = absurd (first 0 (omega arith) run)

  -- bitmap_alloc_nbits returns the run from 0 when the bits that it reads there fit, whatever the
  -- last bit of a run of two or more is.
  pub alloc_nbits_last_unread :
      IsBytes m
      → bit < 2
      → Run m bm bit 0 (checked count)
      → (bitmap_alloc_nbits m bm bit count).1 ≡ some 0
  alloc_nbits_last_unread h hb run = at_zero _ (alloc_nbits-Allocates h hb) run
