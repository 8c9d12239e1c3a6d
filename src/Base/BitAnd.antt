-- ===== src/Base/BitAnd.antt =====
-- `x & mask` for a mask of ones is the remainder; `x & b` is at most `b`.
use Prim.Native.Nat.{
  ℕ, zero, suc, ◌+◌, ◌*◌, ◌/◌, ◌%◌, ◌^◌, ◌≤◌, min, bit_and, digits, bit_and-bitwise,
}
use mathlib.Core.Path.{◌≡◌, refl, sym, ◌∙◌}
use native.Mathlib.Omega.{arith}

-- `b` is `k` ones.
abbrev Ones : ℕ → ℕ → Type 0
Ones zero b = b ≡ 0
Ones (suc k) b = (b % 2 ≡ 1) × Ones k (b / 2)

-- The lowest `k` digits.
abbrev lowest : ℕ → ℕ → ℕ
lowest zero x = 0
lowest (suc k) x = lowest k (x / 2) * 2 + x % 2

lowest-zero : (k : ℕ) → lowest k 0 ≡ 0
lowest-zero zero = refl
lowest-zero (suc k) = omega (arith, lowest-zero k)

digits-Ones : (k fuel x b : ℕ) → x ≤ fuel → Ones k b → digits (λ y. zero) min fuel x b ≡ lowest k x
digits-Ones k zero zero b h ones = sym (lowest-zero k)
digits-Ones k zero (suc x) b h ones = absurd (omega arith)
digits-Ones k (suc fuel) zero b h ones = sym (lowest-zero k)
digits-Ones zero (suc fuel) (suc x) b h ones =
    omega (arith, ones, digits-Ones zero fuel (suc x / 2) (b / 2) (omega arith) (omega arith))
digits-Ones (suc k) (suc fuel) (suc x) b h (one, ones) =
    omega (arith, one, digits-Ones k fuel (suc x / 2) (b / 2) (omega arith) ones)

mask_lem : (k x b : ℕ) → Ones k b → bit_and x b ≡ lowest k x
mask_lem k x b ones = bit_and-bitwise x b ∙ digits-Ones k x x b (omega arith) ones

pub bit_and_12 : (x : ℕ) → bit_and x 0xfff ≡ x % 2 ^ 12
bit_and_12 x = omega (
  arith,
  mask_lem 12 x 0xfff (
    refl,
    (refl, (refl, (refl, (refl, (refl, (refl, (refl, (refl, (refl, (refl, (refl, refl))))))))))),
  ),
)

pub bit_and_10 : (x : ℕ) → bit_and x 0x3ff ≡ x % 2 ^ 10
bit_and_10 x = omega (
  arith,
  mask_lem 10 x 0x3ff
      (refl, (refl, (refl, (refl, (refl, (refl, (refl, (refl, (refl, (refl, refl)))))))))),
)

pub bit_and_4 : (x : ℕ) → bit_and x 0xf ≡ x % 2 ^ 4
bit_and_4 x = omega (arith, mask_lem 4 x 0xf (refl, (refl, (refl, (refl, refl)))))

pub bit_and_8 : (x : ℕ) → bit_and x 0xff ≡ x % 2 ^ 8
bit_and_8 x =
    omega (
      arith,
      mask_lem 8 x 0xff (refl, (refl, (refl, (refl, (refl, (refl, (refl, (refl, refl)))))))),
    )

pub bit_and_16 : (x : ℕ) → bit_and x 0xffff ≡ x % 2 ^ 16
bit_and_16 x = omega (
  arith,
  mask_lem 16 x 0xffff (
    refl,
    (
      refl,
      (
        refl,
        (
          refl,
          (
            refl,
            (
              refl,
              (refl, (refl, (refl, (refl, (refl, (refl, (refl, (refl, (refl, (refl, refl)))))))))),
            ),
          ),
        ),
      ),
    ),
  ),
)
