-- ===== src/Tools/Klib/Text.antt =====
-- The string routines of source/kernel/tools/klib.c over byte memory. A string may lack its end, so the
-- loops that look for one run on fuel, and `none` says that it was used up.
pub mod Strings
use start.Base.{
  ℕ, zero, suc, ◌+◌, ◌-◌, ◌*◌, Bool, true, false, ◌&&◌, ◌||◌, not, Option, none, some,
  if◌then◌else◌, ◌==◌, Ptr, null, Mem, poke, load32,
}

-- The loop of `kernel_strlen`.
unfoldable pub strlen_loop : ℕ → Mem → Ptr → ℕ → Option ℕ
strlen_loop zero m c len = none
strlen_loop (suc fuel) m c len =
    let rest = strlen_loop fuel m (c + 1) (len + 1) in if m c == 0 then some len else rest

unfoldable pub kernel_strlen : ℕ → Mem → Ptr → Option ℕ
unfolding strlen_loop
kernel_strlen fuel m str = if str == null then some 0 else strlen_loop fuel m str 0

-- The loop of `strings_count`, over an array of pointers.
unfoldable pub strings_loop : ℕ → Mem → Ptr → ℕ → Option ℕ
strings_loop zero m start count = none
strings_loop (suc fuel) m start count =
    let rest = strings_loop fuel m (start + 4) (count + 1) in
    if load32 m start == 0 then some count else rest

unfoldable pub strings_count : ℕ → Mem → Ptr → Option ℕ
unfolding strings_loop
strings_count fuel m start = if start == null then some 0 else strings_loop fuel m start 0

abbrev pub is_separator : ℕ → Bool
is_separator ch = ch == 0x5c || ch == 0x2f

-- The second loop of `get_file_name`, from `name + k - 1` down to `name - 1`, with `s + 1` at its end.
unfoldable pub after_separator : Mem → Ptr → ℕ → Ptr
after_separator m name zero = name
after_separator m name (suc k) =
    let rest = after_separator m name k in
    if is_separator (m (name + k)) then name + k + 1 else rest

unfoldable pub get_file_name : ℕ → Mem → Ptr → Option Ptr
unfolding after_separator
get_file_name fuel m name = elim (strlen_loop fuel m name 0) [
  | none ↦ none
  | some len ↦ some (after_separator m name (len + 1))
]

-- The loop of `kernel_strcpy`, whose condition reads the destination too.
unfoldable pub strcpy_loop : ℕ → Mem → Ptr → Ptr → Option Mem
strcpy_loop zero m dest src = none
strcpy_loop (suc fuel) m dest src =
    let rest = strcpy_loop fuel (poke m dest (m src)) (dest + 1) (src + 1) in
    if m dest == 0 || m src == 0 then some (poke m dest 0) else rest

unfoldable pub kernel_strcpy : ℕ → Mem → Ptr → Ptr → Option Mem
unfolding strcpy_loop
kernel_strcpy fuel m dest src =
    if dest == null || src == null then some m else strcpy_loop fuel m dest src

-- The loop of `kernel_strncpy` with what follows it: `size` is decremented once more where the loop
-- ends, so that it is -1 after a copy of `size` characters.
unfoldable pub strncpy_loop : Mem → Ptr → Ptr → ℕ → Mem
strncpy_loop m d s zero = poke m d 0
strncpy_loop m d s (suc size) =
    let rest = strncpy_loop (poke m d (m s)) (d + 1) (s + 1) size in
    if m s == 0 then if size == 0 then poke m (d - 1) 0 else poke m d 0 else rest

-- The size is a C int of 0 or more.
unfoldable pub kernel_strncpy : Mem → Ptr → Ptr → ℕ → Mem
unfolding strncpy_loop
kernel_strncpy m dest src size =
    if dest == null || src == null || size == 0 then m else strncpy_loop m dest src size

-- What `kernel_strncmp` returns where its loop ends.
abbrev pub differ : ℕ → ℕ → ℕ
differ a b = if a == 0 || b == 0 || a == b then 0 else 1

unfoldable pub strncmp_loop : Mem → Ptr → Ptr → ℕ → ℕ
strncmp_loop m s1 s2 zero = differ (m s1) (m s2)
strncmp_loop m s1 s2 (suc size) =
    let rest = strncmp_loop m (s1 + 1) (s2 + 1) size in
    if not (m s1 == 0) && not (m s2 == 0) && m s1 == m s2 then rest else differ (m s1) (m s2)

-- `none` stands for -1.
unfoldable pub kernel_strncmp : Mem → Ptr → Ptr → ℕ → Option ℕ
unfolding strncmp_loop
kernel_strncmp m s1 s2 size =
    if s1 == null || s2 == null then none else some (strncmp_loop m s1 s2 size)
