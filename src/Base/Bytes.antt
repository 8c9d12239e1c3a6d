-- ===== src/Base/Bytes.antt =====
-- Byte memory: what a `uint8_t *` of the source reads and writes. An address is a number and 0 is
-- the null pointer; every address holds a byte, since the kernel runs on identity-mapped memory.
use Prim.Native.Nat.{ℕ, ◌+◌, ◌*◌, ◌/◌, ◌%◌, ◌≤◌, ◌<◌, ◌^◌}
use mathlib.Core.Path.{◌≡◌, refl, subst}
use mathlib.Core.Logic.{◌⊎◌}
use native.Mathlib.Omega.{arith}
use start.Base.Tests.{◌==◌, if◌then◌else◌}

abbrev pub Ptr : Type 0
Ptr = ℕ

abbrev pub null : Ptr
null = 0

abbrev pub Mem : Type 0
Mem = Ptr → ℕ

-- `*p = v`
abbrev pub poke : Mem → Ptr → ℕ → Mem
poke m p v a = if a == p then v else m a

abbrev pub IsBytes : Mem → Type 0
IsBytes m = (a : Ptr) → m a < 256

pub poke-IsBytes : (m : Mem) (p : Ptr) (v : ℕ) → IsBytes m → v < 256 → IsBytes (poke m p v)
poke-IsBytes m p v h hv a = ground (arith, h a)

-- A `uint32_t` in memory, the lowest byte first.
unfoldable pub load32 : Mem → Ptr → ℕ
load32 m p = m p + m (p + 1) * 256 + m (p + 2) * 2 ^ 16 + m (p + 3) * 2 ^ 24

unfoldable pub store32 : Mem → Ptr → ℕ → Mem
store32 m p v =
    poke (poke (poke (poke m p (v % 256)) (p + 1) (v / 256 % 256)) (p + 2) (v / 2 ^ 16 % 256))
      (p + 3) (v / 2 ^ 24 % 256)

pub load32-store32 : (m : Mem) (p : Ptr) (v : ℕ) → v < 2 ^ 32 → load32 (store32 m p v) p ≡ v
unfolding load32 store32
load32-store32 m p v h = ground arith

-- A word that does not overlap keeps its value.
pub load32-store32_other :
    (m : Mem) (p q : Ptr) (v : ℕ)
    → (p + 4 ≤ q) ⊎ (q + 4 ≤ p)
    → load32 (store32 m p v) q ≡ load32 m q
unfolding load32 store32
load32-store32_other m p q v h = ground arith

pub store32-IsBytes : (m : Mem) (p : Ptr) (v : ℕ) → IsBytes m → IsBytes (store32 m p v)
unfolding store32
store32-IsBytes m p v h a = ground (arith, h a)

pub load32_bound : (m : Mem) (p : Ptr) → IsBytes m → load32 m p < 2 ^ 32
unfolding load32
load32_bound m p h = ground (arith, h p, h (p + 1), h (p + 2), h (p + 3))

-- Words of the same four bytes.
pub load32_same :
    (m m' : Mem) (p : Ptr) → ((i : ℕ) → i < 4 → m (p + i) ≡ m' (p + i)) → load32 m p ≡ load32 m' p
unfolding load32
load32_same m m' p h =
    let shift : p + 0 ≡ p = omega arith in
    let first : m p ≡ m' p = subst (λ a. m a ≡ m' a) shift (h 0 (omega arith)) in
    omega (arith, first, h 1 (omega arith), h 2 (omega arith), h 3 (omega arith))

pub load32_zero : (p : Ptr) → load32 (λ a. 0) p ≡ 0
unfolding load32
load32_zero p = refl
