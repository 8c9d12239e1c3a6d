-- ===== src/Tools/Klib/Format/Digits.antt =====
-- The digits that kernel_itoa of source/kernel/tools/klib.c writes.
use start.Base.{
  ℕ, zero, suc, ◌+◌, ◌-◌, ◌/◌, ◌^◌, ◌<◌, ◌≡◌, refl, inl, inr, arith, Bool, true, false, Bool-cases,
  ◌&&◌, some, if◌then◌else◌, ◌==◌, leb, word_mod, Ptr, Mem, poke,
}
use start.Tools.Klib.Format.{write_digits, supported, kernel_itoa}

pub smaller : (u base : ℕ) → supported base ≡ true → (u / base == 0) ≡ false → u / base < u
smaller u base h = elim (Bool-cases (base == 2)) [
  | inl e ↦ let b : base ≡ 2 = ground arith in rw b (λ more. ground (arith, more))
  | inr e2 ↦ elim (Bool-cases (base == 8)) [
    | inl e ↦ let b : base ≡ 8 = ground arith in rw b (λ more. ground (arith, more))
    | inr e8 ↦ elim (Bool-cases (base == 10)) [
      | inl e ↦ let b : base ≡ 10 = ground arith in rw b (λ more. ground (arith, more))
      | inr e10 ↦ let b : base ≡ 16 = ground arith in rw b (λ more. ground (arith, more))
    ]
  ]
]

write_digits-some :
    (fuel : ℕ) (m : Mem) (p : Ptr) (u base : ℕ) (sg : Bool)
    → supported base ≡ true
    → u < fuel
    → (r : Mem × Ptr) × (write_digits fuel m p u base sg ≡ some r)
unfolding write_digits
write_digits-some zero m p u base sg h lt = absurd (omega arith)
write_digits-some (suc fuel) m p u base sg h lt = elim (Bool-cases (u / base == 0)) [
  | inl e ↦ rw e (_, refl)
  | inr e ↦
      rw e
        (write_digits-some fuel _ (p + 1) (u / base) base sg h (omega (arith, smaller u base h e)))
]

-- Every number has a text, in any base: the loop ends, since the number gets smaller.
pub itoa-some :
    (m : Mem) (buf : Ptr) (num base : ℕ) → (m' : Mem) × (kernel_itoa m buf num base ≡ some m')
unfolding kernel_itoa
itoa-some m buf num base = elim (Bool-cases (supported base)) [
  | inr e ↦ rw e (_, refl)
  | inl e ↦ rw e (
      let signed_num = leb (2 ^ 31) num && base == 10 in
      let u = if signed_num then word_mod - num else num in
      let start = if signed_num then buf + 1 else buf in
      let m' = if signed_num then poke m buf 0x2d else m in
      let (r, written) = write_digits-some (u + 1) m' start u base signed_num e (omega arith) in
      rw written (_, refl))
]
