-- ===== src/Core/Memory/Widths.antt =====
-- The widths of the C types in source/kernel/core/memory.c: memory of bytes, and words of 32 bits for
-- the ends of the heaps and for what is returned.
use start.Base.{ℕ, ◌<◌, ◌^◌, ◌≡◌, Option, none, some, true, Ptr, IsBytes}
use start.Tools.Bitmap.{Bitmap}
use start.Core.Memory.{Machine}

-- The memory holds bytes, and the ends of the heaps are words.
abbrev pub Fits : Machine → Type 0
Fits s = IsBytes s.mem × ((a : Ptr) → (s.spaces a).heap_end < 2 ^ 32)

-- So it is after a call that returns, and what it returns is a word.
abbrev pub FitsAll : Option (Machine × ℕ) → Type 0
FitsAll none = true ≡ true
FitsAll (some r) = Fits r.0 × (r.1 < 2 ^ 32)
