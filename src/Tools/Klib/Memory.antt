-- ===== src/Tools/Klib/Memory.antt =====
-- What kernel_memset, kernel_memcpy and kernel_memcmp of source/kernel/tools/klib.c do to memory.
use start.Base.{
  ℕ, zero, suc, ◌+◌, ◌-◌, ◌%◌, ◌≤◌, ◌<◌, ◌≡◌, refl, ◌≢◌, ◌↔◌, ◌⊎◌, inl, inr, arith, Bool, ◌&&◌,
  ◌||◌, Bool-cases, if◌then◌else◌, ◌==◌, leb, ltb, Ptr, null, Mem, poke, IsBytes, poke-IsBytes,
}
use start.Tools.Klib.{
  memset_loop, kernel_memset, memcpy_loop, kernel_memcpy, memcmp_loop, kernel_memcmp,
}

-- Whether an address lies in the `n` bytes from `p`.
abbrev pub within : Ptr → ℕ → Ptr → Bool
within p n a = leb p a && ltb a (p + n)

memset_loop-within :
    (m : Mem) (d : Ptr) (v n : ℕ) (a : Ptr)
    → memset_loop m d v n a ≡ (if within d n a then v else m a)
unfolding memset_loop
memset_loop-within m d v zero a = ground arith
memset_loop-within m d v (suc n) a = ground (arith, memset_loop-within (poke m d v) (d + 1) v n a)

-- `kernel_memset` at a pointer that is not null fills exactly its area.
pub kernel_memset-within :
    (m : Mem) (dest : Ptr) (v size : ℕ) (a : Ptr)
    → dest ≢ null
    → kernel_memset m dest v size a ≡ (if within dest size a then v % 256 else m a)
unfolding kernel_memset
kernel_memset-within m dest v size a h = ground (arith, memset_loop-within m dest (v % 256) size a)

memcpy_loop-within :
    (m : Mem) (d s : Ptr) (n : ℕ) (a : Ptr)
    → (d ≤ s) ⊎ (s + n ≤ d)
    → memcpy_loop m d s n a ≡ (if within d n a then m (s + (a - d)) else m a)
unfolding memcpy_loop
memcpy_loop-within m d s zero a h = ground arith
memcpy_loop-within m d s (suc n) a h =
    ground (arith, memcpy_loop-within (poke m d (m s)) (d + 1) (s + 1) n a (omega arith))

-- kernel_memcpy copies its area whole and changes nothing else, when neither pointer is null and
-- the destination does not lie behind the source within the area.
pub kernel_memcpy-within :
    (m : Mem) (dest src size : ℕ) (a : Ptr)
    → dest ≢ null
    → src ≢ null
    → (dest ≤ src) ⊎ (src + size ≤ dest)
    → kernel_memcpy m dest src size a ≡ (if within dest size a then m (src + (a - dest)) else m a)
unfolding kernel_memcpy
kernel_memcpy-within m dest src size a hd hs h =
    ground (arith, memcpy_loop-within m dest src size a h)

-- Whether two areas of `n` bytes hold the same bytes.
abbrev pub SameBytes : Mem → Ptr → Ptr → ℕ → Type 0
SameBytes m p q n = (i : ℕ) → i < n → m (p + i) ≡ m (q + i)

memcmp_loop_sound : (m : Mem) (p q n : ℕ) → memcmp_loop m p q n ≡ 0 → SameBytes m p q n
unfolding memcmp_loop
memcmp_loop_sound m p q zero e i h = absurd (omega arith)
memcmp_loop_sound m p q (suc n) e zero h = ground arith
memcmp_loop_sound m p q (suc n) e (suc i) h =
    ground (arith, memcmp_loop_sound m (p + 1) (q + 1) n (ground arith) i (omega arith))

memcmp_loop_complete : (m : Mem) (p q n : ℕ) → SameBytes m p q n → memcmp_loop m p q n ≡ 0
unfolding memcmp_loop
memcmp_loop_complete m p q zero h = refl
memcmp_loop_complete m p q (suc n) h = ground (
  arith,
  h 0 (omega arith),
  memcmp_loop_complete m (p + 1) (q + 1) n λ i hi. ground (arith, h (suc i)),
)

-- kernel_memcmp of two pointers that are not null is 0 exactly when the areas hold the same bytes.
pub kernel_memcmp-SameBytes :
    (m : Mem) (d1 d2 size : ℕ)
    → d1 ≢ null
    → d2 ≢ null
    → (kernel_memcmp m d1 d2 size ≡ 0) ↔ SameBytes m d1 d2 size
unfolding kernel_memcmp
kernel_memcmp-SameBytes m d1 d2 size h1 h2 = (
  λ e. memcmp_loop_sound m d1 d2 size (ground arith),
  λ s. ground (arith, memcmp_loop_complete m d1 d2 size s),
)

memset_loop-IsBytes :
    (m : Mem) (d : Ptr) (v n : ℕ) → IsBytes m → v < 256 → IsBytes (memset_loop m d v n)
unfolding memset_loop
memset_loop-IsBytes m d v zero h hv = h
memset_loop-IsBytes m d v (suc n) h hv =
    memset_loop-IsBytes (poke m d v) (d + 1) v n (poke-IsBytes m d v h hv) hv

pub kernel_memset-IsBytes :
    (m : Mem) (dest : Ptr) (v size : ℕ) → IsBytes m → IsBytes (kernel_memset m dest v size)
unfolding kernel_memset
kernel_memset-IsBytes m dest v size h = elim (Bool-cases (dest == null || size == 0)) [
  | inl e ↦ rw e h
  | inr e ↦ rw e (memset_loop-IsBytes m dest (v % 256) size h (omega arith))
]
