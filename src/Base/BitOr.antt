-- ===== src/Base/BitOr.antt =====
-- `a | b` on numbers that share no binary digit is their sum; flags are put into a word this way.
use Prim.Native.Nat.{
  ℕ, zero, suc, ◌+◌, ◌-◌, ◌*◌, ◌/◌, ◌%◌, ◌^◌, ◌≤◌, ◌<◌, max, bit_or, digits, bit_or-bitwise,
}
use mathlib.Core.Path.{◌≡◌, refl, ◌∙◌}
use native.Mathlib.Omega.{arith}

-- No common digit, where the second number has at most `k` digits.
abbrev pub Apart : ℕ → ℕ → ℕ → Type 0
Apart zero x b = b ≡ 0
Apart (suc k) x b = (x % 2 + b % 2 < 2) × Apart k (x / 2) (b / 2)

digits_sum : (k fuel x b : ℕ) → x ≤ fuel → Apart k x b → digits (λ y. y) max fuel x b ≡ x + b
digits_sum k zero zero b h apart = omega arith
digits_sum k zero (suc x) b h apart = absurd (omega arith)
digits_sum k (suc fuel) zero b h apart = omega arith
digits_sum zero (suc fuel) (suc x) b h apart =
    omega (arith, apart, digits_sum zero fuel (suc x / 2) (b / 2) (omega arith) (omega arith))
digits_sum (suc k) (suc fuel) (suc x) b h (apart, rest) =
    omega (arith, apart, digits_sum k fuel (suc x / 2) (b / 2) (omega arith) rest)

pub bit_or_sum : (k x b : ℕ) → Apart k x b → bit_or x b ≡ x + b
bit_or_sum k x b apart = bit_or-bitwise x b ∙ digits_sum k x x b (omega arith) apart

-- `x | 1`
pub bit_or_one : (x : ℕ) → bit_or x 1 ≡ x + (1 - x % 2)
bit_or_one zero = bit_or-bitwise 0 1
bit_or_one (suc x) =
    omega (arith, bit_or-bitwise (suc x) 1, digits_sum 0 x (suc x / 2) (1 / 2) (omega arith) refl)

-- Bits below 12 and a multiple of 2 ^ 12.
pub bit_or_aligned : (x b : ℕ) → x % 2 ^ 12 ≡ 0 → b < 2 ^ 12 → bit_or x b ≡ x + b
bit_or_aligned x b aligned small = bit_or_sum 12 x b (
  omega arith,
  (
    omega arith,
    (
      omega arith,
      (
        omega arith,
        (
          omega arith,
          (
            omega arith,
            (
              omega arith,
              (
                omega arith,
                (omega arith, (omega arith, (omega arith, (omega arith, omega arith)))),
              ),
            ),
          ),
        ),
      ),
    ),
  ),
)

-- A bit above all of `x`.
double : (k : ℕ) → 2 ^ suc k ≡ 2 * 2 ^ k
double k = omega arith

Apart-above : (k x : ℕ) → x < 2 ^ k → Apart (suc k) x (2 ^ k)
Apart-above zero x h = omega arith
Apart-above (suc k) x h =
    let rest = Apart-above k (x / 2) (omega (arith, double k)) in
    let half : 2 ^ suc k / 2 ≡ 2 ^ k = omega (arith, double k) in
    (omega (arith, double k), rw half rest)

pub bit_or_above : (k x : ℕ) → x < 2 ^ k → bit_or x (2 ^ k) ≡ x + 2 ^ k
bit_or_above k x h = bit_or_sum (suc k) x (2 ^ k) (Apart-above k x h)
