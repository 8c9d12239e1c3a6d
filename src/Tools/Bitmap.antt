-- ===== src/Tools/Bitmap.antt =====
-- source/kernel/tools/bitmap.c: a bitmap of `bit_count` bits in the bytes from `bits` on. Indices and
-- counts are C ints that the callers keep at 0 or more; `none` stands for the returned -1.
pub mod Bits
pub mod Alloc
use Prim.Native.Nat.{bit_and, bit_or}
use start.Base.{
  ℕ, zero, suc, ◌+◌, ◌-◌, ◌/◌, ◌%◌, ◌^◌, Bool, true, false, Option, none, some, if◌then◌else◌, ltb,
  ◌==◌, bit_at, byte_set, byte_clear, not32, Ptr, Mem, poke,
}
use start.Tools.Klib.{kernel_memset}

-- `bitmap_t`
pub record Bitmap : Type 0 where
  pub bit_count : ℕ
  pub bits : Ptr

unfoldable pub bitmap_byte_count : ℕ → ℕ
bitmap_byte_count bit_count = (bit_count + 8 - 1) / 8

-- Returns the memory and the bitmap that `*bitmap` becomes.
unfoldable pub bitmap_init : Mem → Ptr → ℕ → ℕ → Mem × Bitmap
unfolding bitmap_byte_count
bitmap_init m bits count init_bit =
    let bytes = bitmap_byte_count count in
    (
      kernel_memset m bits (if init_bit == 0 then 0 else 0xff) bytes,
      record { bit_count = count; bits = bits },
    )

-- The body of the loop of `bitmap_set_bit`, for one index.
write_bit : Mem → Bitmap → ℕ → ℕ → Mem
write_bit m bm index bit =
    let p = bm.bits + index / 8 in
    poke m p (if bit == 0 then byte_clear (m p) (index % 8) else byte_set (m p) (index % 8))

-- `bitmap_set_bit`: `count` is what is left of it.
unfoldable pub bitmap_set_bit : Mem → Bitmap → ℕ → ℕ → ℕ → Mem
unfolding write_bit
bitmap_set_bit m bm index zero bit = m
bitmap_set_bit m bm index (suc count) bit =
    let rest = bitmap_set_bit (write_bit m bm index bit) bm (index + 1) count bit in
    if ltb index bm.bit_count then rest else m

unfoldable pub bitmap_get_bit : Mem → Bitmap → ℕ → ℕ
bitmap_get_bit m bm index = bit_at (m (bm.bits + index / 8)) (index % 8)

unfoldable pub bitmap_is_set : Mem → Bitmap → ℕ → ℕ
unfolding bitmap_get_bit
bitmap_is_set m bm index = if bitmap_get_bit m bm index == 0 then 0 else 1

-- How the inner loop of `bitmap_alloc_nbits` ends: by `i >= count`, or before it with `search_idx`
-- where the search goes on.
pub data Match : Type 0 where
  all_match : Match
  mismatch : ℕ → Match

-- The inner loop: `left` is `count - i`, and `search_idx++` happens before the comparison.
unfoldable pub match_run : Mem → Bitmap → ℕ → ℕ → ℕ → Match
match_run m bm bit zero search_idx = all_match
match_run m bm bit (suc left) search_idx =
    let rest = match_run m bm bit left (search_idx + 1) in
    if ltb search_idx bm.bit_count
    then if bitmap_get_bit m bm search_idx == bit then rest else mismatch (search_idx + 1)
    else mismatch search_idx

pub data Search : Type 0 where
  found : ℕ → Search
  absent : Search
  out_of_fuel : Search

-- The outer loop, on fuel.
unfoldable pub search_from : ℕ → Mem → Bitmap → ℕ → ℕ → ℕ → Search
search_from zero m bm bit count search_idx = out_of_fuel
search_from (suc fuel) m bm bit count search_idx =
    if ltb search_idx bm.bit_count
    then if bitmap_get_bit m bm search_idx == bit
      then elim (match_run m bm bit (count - 1) search_idx) [
        | all_match ↦ found search_idx
        | mismatch next ↦ search_from fuel m bm bit count next
      ]
      else search_from fuel m bm bit count (search_idx + 1)
    else absent

-- The value that `bitmap_set_bit` gets for `~bit`: it is 0 for no `bit` of 0 or 1.
abbrev pub complement : ℕ → ℕ
complement bit = not32 bit

-- `bitmap_alloc_nbits`
unfoldable pub bitmap_alloc_nbits : Mem → Bitmap → ℕ → ℕ → Mem × Option ℕ
unfolding search_from match_run
bitmap_alloc_nbits m bm bit count = elim (search_from (bm.bit_count + 1) m bm bit count 0) [
  | found ok_idx ↦ (bitmap_set_bit m bm ok_idx count (complement bit), some ok_idx)
  | absent ↦ (m, none)
  | out_of_fuel ↦ (m, none)
]
