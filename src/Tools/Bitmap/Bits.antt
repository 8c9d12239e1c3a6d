-- ===== src/Tools/Bitmap/Bits.antt =====
-- Bit by bit: what bitmap_init and bitmap_set_bit of source/kernel/tools/bitmap.c write.
use start.Base.{
  ℕ, zero, suc, ◌+◌, ◌/◌, ◌%◌, ◌<◌, ◌≡◌, ◌≢◌, refl, arith, Bool, false, ◌&&◌, Bool-cases, inl, inr,
  if◌then◌else◌, ◌==◌, leb, ltb, Ptr, null, Mem, IsBytes, poke-IsBytes, bit_at, byte_set,
  byte_clear, bit_at-byte_set, bit_at-byte_clear, bit_at-full, bit_at-zero,
}
use start.Tools.Klib.Memory.{kernel_memset-within}
use start.Tools.Bitmap.{
  Bitmap, write_bit, bitmap_set_bit, bitmap_get_bit, bitmap_byte_count, bitmap_init,
}

-- What is read for a bit that was written with `bit`.
abbrev pub as_bit : ℕ → ℕ
as_bit bit = if bit == 0 then 0 else 1

byte-write :
    (x k j bit : ℕ)
    → x < 256
    → k < 8
    → j < 8
    → bit_at (if bit == 0 then byte_clear x k else byte_set x k) j
      ≡ (if j == k then as_bit bit else bit_at x j)
byte-write x k j bit hx hk hj = elim (Bool-cases (bit == 0)) [
  | inl e ↦ rw e (bit_at-byte_clear x k j hx hk hj)
  | inr e ↦ rw e (bit_at-byte_set x k j hx hk hj)
]

get-write_bit :
    (m : Mem) (bm : Bitmap) (index bit j : ℕ)
    → IsBytes m
    → bitmap_get_bit (write_bit m bm index bit) bm j
      ≡ (if j == index then as_bit bit else bitmap_get_bit m bm j)
unfolding bitmap_get_bit write_bit
get-write_bit m bm index bit j h = elim (Bool-cases (bm.bits + j / 8 == bm.bits + index / 8)) [
  | inl e ↦ rw e (
      rw
        (byte-write (m (bm.bits + index / 8)) (index % 8) (j % 8) bit (h _) (omega arith)
          (omega arith))
        (ground arith))
  | inr e ↦ rw e (ground arith)
]

write_bit-IsBytes :
    (m : Mem) (bm : Bitmap) (index bit : ℕ) → IsBytes m → IsBytes (write_bit m bm index bit)
unfolding write_bit
write_bit-IsBytes m bm index bit h = poke-IsBytes m _ _ h (ground arith)

pub bitmap_set_bit-IsBytes :
    (m : Mem) (bm : Bitmap) (index count bit : ℕ)
    → IsBytes m
    → IsBytes (bitmap_set_bit m bm index count bit)
unfolding bitmap_set_bit
bitmap_set_bit-IsBytes m bm index zero bit h = h
bitmap_set_bit-IsBytes m bm index (suc count) bit h = elim (Bool-cases (ltb index bm.bit_count)) [
  | inl e ↦ rw e (
      bitmap_set_bit-IsBytes (write_bit m bm index bit) bm (index + 1) count bit
        (write_bit-IsBytes m bm index bit h))
  | inr e ↦ rw e h
]

write_bit-frame :
    (m : Mem) (bm : Bitmap) (index bit : ℕ) (a : Ptr)
    → a ≢ bm.bits + index / 8
    → write_bit m bm index bit a ≡ m a
unfolding write_bit
write_bit-frame m bm index bit a h = ground arith

-- Whether an address lies in the bytes that belong to the bitmap.
abbrev pub in_bytes : Bitmap → Ptr → Bool
in_bytes bm a = leb bm.bits a && ltb a (bm.bits + bitmap_byte_count bm.bit_count)

-- bitmap_set_bit writes no byte outside those of the bitmap, even when the range runs past its
-- end.
pub bitmap_set_bit-frame :
    (m : Mem) (bm : Bitmap) (index count bit : ℕ) (a : Ptr)
    → in_bytes bm a ≡ false
    → bitmap_set_bit m bm index count bit a ≡ m a
unfolding bitmap_set_bit bitmap_byte_count
bitmap_set_bit-frame m bm index zero bit a h = refl
bitmap_set_bit-frame m bm index (suc count) bit a h = ground (
  arith,
  bitmap_set_bit-frame (write_bit m bm index bit) bm (index + 1) count bit a h,
  write_bit-frame m bm index bit a,
)

-- Whether `bitmap_set_bit` reaches a bit: within the range, and below the bitmap's end.
abbrev pub reached : Bitmap → ℕ → ℕ → ℕ → Bool
reached bm index count j = leb index j && ltb j (index + count) && ltb j bm.bit_count

-- After bitmap_set_bit a bit reads as the new value exactly if it lies in the range and below
-- bit_count, and as before otherwise; in a memory of bytes.
pub get-set_bit :
    (m : Mem) (bm : Bitmap) (index count bit j : ℕ)
    → IsBytes m
    → bitmap_get_bit (bitmap_set_bit m bm index count bit) bm j
      ≡ (if reached bm index count j then as_bit bit else bitmap_get_bit m bm j)
unfolding bitmap_set_bit
get-set_bit m bm index zero bit j h = ground arith
get-set_bit m bm index (suc count) bit j h =
    let ih =
      get-set_bit (write_bit m bm index bit) bm (index + 1) count bit j
        (write_bit-IsBytes m bm index bit h) in
    ground (arith, ih, get-write_bit m bm index bit j h)

-- After bitmap_init every bit below the count reads as the initial value.
pub get-bitmap_init :
    (m : Mem) (bits : Ptr) (count init_bit j : ℕ)
    → bits ≢ null
    → j < count
    → let (m', bm) = bitmap_init m bits count init_bit in bitmap_get_bit m' bm j ≡ as_bit init_bit
unfolding bitmap_init bitmap_get_bit bitmap_byte_count
get-bitmap_init m bits count init_bit j h hj =
    rw
      (kernel_memset-within m bits (if init_bit == 0 then 0 else 0xff) (bitmap_byte_count count)
        (bits + j / 8) h)
      (ground (arith, bit_at-full (j % 8), bit_at-zero (j % 8)))
