-- ===== src/Tools/Klib.antt =====
-- source/kernel/tools/klib.c and source/kernel/include/tools/klib.h: memory and text routines over
-- byte memory. Pointers and counts are numbers; the loops run on the count that is left.
pub mod Memory
pub mod Text
pub mod Format
use start.Base.{
  ℕ, zero, suc, ◌+◌, ◌-◌, ◌%◌, ◌≡◌, Bool, true, false, ◌||◌, if◌then◌else◌, ◌==◌, word_mod, add32,
  sub32, not32, Ptr, null, Mem, poke,
}
use Prim.Native.Nat.{bit_and}

-- `up2` and `down2`: alignment to a boundary that is a power of two.
unfoldable pub up2 : ℕ → ℕ → ℕ
up2 size bound = bit_and (sub32 (add32 size bound) 1) (not32 (sub32 bound 1))

unfoldable pub down2 : ℕ → ℕ → ℕ
down2 size bound = bit_and size (not32 (sub32 bound 1))

memset_loop : Mem → Ptr → ℕ → ℕ → Mem
memset_loop m d v zero = m
memset_loop m d v (suc n) = memset_loop (poke m d v) (d + 1) v n

-- `kernel_memset`. The value is converted to `uint8_t` at the call.
unfoldable pub kernel_memset : Mem → Ptr → ℕ → ℕ → Mem
unfolding memset_loop
kernel_memset m dest v size =
    if dest == null || size == 0 then m else memset_loop m dest (v % 256) size

memcpy_loop : Mem → Ptr → Ptr → ℕ → Mem
memcpy_loop m d s zero = m
memcpy_loop m d s (suc n) = memcpy_loop (poke m d (m s)) (d + 1) (s + 1) n

-- `kernel_memcpy`
unfoldable pub kernel_memcpy : Mem → Ptr → Ptr → ℕ → Mem
unfolding memcpy_loop
kernel_memcpy m dest src size =
    if dest == null || src == null || size == 0 then m else memcpy_loop m dest src size

memcmp_loop : Mem → Ptr → Ptr → ℕ → ℕ
memcmp_loop m p q zero = 0
memcmp_loop m p q (suc n) =
    let rest = memcmp_loop m (p + 1) (q + 1) n in if m p == m q then rest else 1

-- `kernel_memcmp`: 0 if the two areas hold the same bytes.
unfoldable pub kernel_memcmp : Mem → Ptr → Ptr → ℕ → ℕ
unfolding memcmp_loop
kernel_memcmp m d1 d2 size = if d1 == null || d2 == null then 1 else memcmp_loop m d1 d2 size
