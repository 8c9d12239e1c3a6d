-- ===== src/Tests/Tools.antt =====
-- The theorems on source/kernel/tools, at small inputs.
use start.Base.{◌≡◌, ◌↔◌, inl, refl, arith, [], ◌∷◌, if◌then◌else◌, ◌==◌, Mem, IsBytes}
use start.Tools.Klib.{kernel_memcmp}
use start.Tools.Klib.Memory.{SameBytes, kernel_memcmp-SameBytes}
use start.Tools.Klib.Text.{kernel_strncpy}
use start.Tools.Klib.Text.Strings.{IsString, strncpy-IsString}
use start.Tools.Bitmap.{Bitmap, bitmap_alloc_nbits}
use start.Tools.Bitmap.Alloc.{Allocates, alloc_nbits-Allocates}
use start.Tools.LinkedList.{list_insert_last, list_remove}
use start.Tools.LinkedList.Insert.{Leaves, insert_last-IsList}
use start.Tools.LinkedList.Remove.{remove-IsList}
use start.Tests.Data.{nodes, ready_two, ready_two-IsList, run_a, run_b, run_c}

-- Ten bits, of which the second and the tenth are set.
abbrev bitmap : Bitmap
bitmap = record { bit_count = 10; bits = 0x100 }

abbrev some_bits : Mem
some_bits a = 2

some_bits-IsBytes : IsBytes some_bits
some_bits-IsBytes a = omega arith

alloc_nbits-Allocates_example :
    Allocates some_bits bitmap 0 3 (bitmap_alloc_nbits some_bits bitmap 0 3)
alloc_nbits-Allocates_example =
    alloc_nbits-Allocates some_bits bitmap 0 3 some_bits-IsBytes (omega arith)

insert_last-IsList_example :
    Leaves
      (run_a ∷ run_b ∷ run_c ∷ [])
      (run_c ∷ run_a ∷ run_b ∷ [])
      nodes
      (list_insert_last nodes ready_two run_c)
insert_last-IsList_example =
    insert_last-IsList nodes ready_two run_c (omega arith) (run_a ∷ run_b ∷ []) ready_two-IsList
      refl (omega arith)

remove-IsList_example :
    Leaves (run_a ∷ []) (run_a ∷ run_b ∷ []) nodes (list_remove nodes ready_two run_b)
remove-IsList_example = remove-IsList nodes ready_two (run_a ∷ []) run_b [] ready_two-IsList

-- Two characters at 0x200.
abbrev two_chars : Mem
two_chars = λ a. if a == 0x200 then 97 else if a == 0x201 then 98 else 0

two_chars-IsString : IsString two_chars 0x200 2
two_chars-IsString = (refl, λ i h. ground arith)

strncpy-IsString_example : kernel_strncpy two_chars 0x100 0x200 3 0x101 ≡ 0
strncpy-IsString_example =
    strncpy-IsString two_chars 0x100 0x200 3 2 0x101 (λ e. omega (arith, e)) (λ e. omega (arith, e))
      (omega arith) two_chars-IsString (inl (omega arith))

kernel_memcmp-SameBytes_example :
    (kernel_memcmp two_chars 0x200 0x300 2 ≡ 0) ↔ SameBytes two_chars 0x200 0x300 2
kernel_memcmp-SameBytes_example =
    kernel_memcmp-SameBytes two_chars 0x200 0x300 2 (λ e. omega (arith, e)) (λ e. omega (arith, e))
