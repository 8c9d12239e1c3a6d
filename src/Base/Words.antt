-- ===== src/Base/Words.antt =====
-- 32-bit words (`uint32_t` of source/comm/types.h) as natural numbers below 2 ^ 32, bytes below
-- 2 ^ 8, and the laws of single bits of a byte, which are checked value by value.
use Prim.Native.Nat.{ℕ, zero, suc, ◌+◌, ◌-◌, ◌%◌, ◌^◌, ◌<◌, bit_and, bit_or}
use mathlib.Core.Path.{◌≡◌, refl}
use mathlib.Core.Bool.{Bool, true, false}
use native.Mathlib.Omega.{arith}
use start.Base.Tests.{◌==◌, ==_iff, if◌then◌else◌}

abbrev pub word_mod : ℕ
word_mod = 2 ^ 32

-- `a + b` and `a - b` on `uint32_t`; `-` on ℕ stops at 0, so the modulus is added first.
abbrev pub add32 : ℕ → ℕ → ℕ
add32 a b = (a + b) % word_mod

abbrev pub sub32 : ℕ → ℕ → ℕ
sub32 a b = (a + word_mod - b) % word_mod

-- `~x` on `uint32_t`.
abbrev pub not32 : ℕ → ℕ
not32 x = word_mod - 1 - x

-- A test at the first `bound` numbers.
unfoldable pub passes : (ℕ → Bool) → ℕ → Bool
passes test zero = true
passes test (suc bound) = if test bound then passes test bound else false

pub passes_at :
    (test : ℕ → Bool) (bound at : ℕ) → passes test bound ≡ true → (at < bound) → test at ≡ true
unfolding passes
passes_at test zero at every inside = absurd (omega arith)
passes_at test (suc bound) at every inside = ground (arith, passes_at test bound at)

-- `(x & (1 << k)) ? 1 : 0`
abbrev pub bit_at : ℕ → ℕ → ℕ
bit_at x k = if bit_and x (2 ^ k) == 0 then 0 else 1

-- `x |= 1 << k` and `x &= ~(1 << k)` on a `uint8_t`.
abbrev pub byte_set : ℕ → ℕ → ℕ
byte_set x k = bit_or x (2 ^ k) % 256

abbrev pub byte_clear : ℕ → ℕ → ℕ
byte_clear x k = bit_and x (not32 (2 ^ k)) % 256

abbrev set_law : ℕ → ℕ → ℕ → Bool
set_law x k j = bit_at (byte_set x k) j == (if j == k then 1 else bit_at x j)

abbrev clear_law : ℕ → ℕ → ℕ → Bool
clear_law x k j = bit_at (byte_clear x k) j == (if j == k then 0 else bit_at x j)

set_table : passes (λ x. passes (λ k. passes (set_law x k) 8) 8) 256 ≡ true
unfolding passes
set_table = refl

clear_table : passes (λ x. passes (λ k. passes (clear_law x k) 8) 8) 256 ≡ true
unfolding passes
clear_table = refl

module _ (x k j : ℕ) (hx : x < 256) (hk : k < 8) (hj : j < 8) where
  pub bit_at-byte_set : bit_at (byte_set x k) j ≡ (if j == k then 1 else bit_at x j)
  bit_at-byte_set =
      let at_x = passes_at _ 256 x set_table hx in
      let at_k = passes_at _ 8 k at_x hk in (==_iff _ _).0 (passes_at (set_law x k) 8 j at_k hj)

  pub bit_at-byte_clear : bit_at (byte_clear x k) j ≡ (if j == k then 0 else bit_at x j)
  bit_at-byte_clear =
      let at_x = passes_at _ 256 x clear_table hx in
      let at_k = passes_at _ 8 k at_x hk in (==_iff _ _).0 (passes_at (clear_law x k) 8 j at_k hj)

pub bit_at-full : (k : ℕ) → k < 8 → bit_at 0xff k ≡ 1
bit_at-full k h = (==_iff _ _).0 (passes_at (λ k. bit_at 0xff k == 1) 8 k table h)
  where
    table : passes (λ k. bit_at 0xff k == 1) 8 ≡ true
    table = unfold passes in refl

pub bit_at-zero : (k : ℕ) → k < 8 → bit_at 0 k ≡ 0
bit_at-zero k h = (==_iff _ _).0 (passes_at (λ k. bit_at 0 k == 0) 8 k table h)
  where
    table : passes (λ k. bit_at 0 k == 0) 8 ≡ true
    table = unfold passes in refl
