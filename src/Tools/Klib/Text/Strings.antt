-- ===== src/Tools/Klib/Text/Strings.antt =====
-- What kernel_strlen and kernel_strncpy of source/kernel/tools/klib.c do to strings that end.
use start.Base.{
  ℕ, zero, suc, ◌+◌, ◌-◌, ◌≤◌, ◌<◌, ◌≡◌, ap, ◌∙◌, ◌≢◌, ◌⊎◌, inl, inr, arith, false, Bool-cases,
  ◌||◌, some, if◌then◌else◌, ◌==◌, leb, Ptr, null, Mem, poke,
}
use start.Tools.Klib.Memory.{within}
use start.Tools.Klib.Text.{strlen_loop, kernel_strlen, strncpy_loop, kernel_strncpy}

-- A string of `len` characters at `p`.
abbrev pub IsString : Mem → Ptr → ℕ → Type 0
IsString m p len = (m (p + len) ≡ 0) × ((i : ℕ) → i < len → m (p + i) ≢ 0)

pub IsString-tail : (m : Mem) (p len : ℕ) → IsString m p (suc len) → IsString m (p + 1) len
IsString-tail m p len (end, body) = (ground (arith, end), λ i h. ground (arith, body (suc i)))

strlen_loop_lem :
    (fuel : ℕ) (m : Mem) (p len acc : ℕ)
    → IsString m p len
    → len < fuel
    → strlen_loop fuel m p acc ≡ some (acc + len)
unfolding strlen_loop
strlen_loop_lem zero m p len acc str h = absurd (omega arith)
strlen_loop_lem (suc fuel) m p zero acc (end, body) h = ground (arith, end)
strlen_loop_lem (suc fuel) m p (suc len) acc str h = ground (
  arith,
  str.1 0,
  strlen_loop_lem fuel m (p + 1) len (acc + 1) (IsString-tail m p len str) (omega arith),
)

-- With fuel for its characters, the length of a string is found.
pub strlen-IsString :
    (fuel : ℕ) (m : Mem) (str len : ℕ)
    → str ≢ null
    → IsString m str len
    → len < fuel
    → kernel_strlen fuel m str ≡ some len
unfolding kernel_strlen
strlen-IsString fuel m str len h is lt = ground (arith, strlen_loop_lem fuel m str len 0 is lt)

-- Where `kernel_strncpy` writes the terminating 0: at the end of a string that leaves two bytes free,
-- over the last character of one that fills the area, and behind the area for a longer one.
abbrev pub end_at : Ptr → ℕ → ℕ → Ptr
end_at d size len =
    if leb size len then d + size else if size == len + 1 then d + len - 1 else d + len

abbrev pub copied : ℕ → ℕ → ℕ
copied size len = if leb size len then size else len

-- The areas do not overlap.
abbrev pub Disjoint : Ptr → Ptr → ℕ → ℕ → Type 0
Disjoint d s size len = (d + size + 1 ≤ s) ⊎ (s + len + 1 ≤ d)

poke-IsString :
    (m : Mem) (p len d v : ℕ)
    → (d < p) ⊎ (p + len < d)
    → IsString m p len
    → IsString (poke m d v) p len
poke-IsString m p len d v out (end, body) = (ground (arith, end), λ i h. ground (arith, body i h))

end_at_step : (d size len : ℕ) → end_at (d + 1) size len ≡ end_at d (suc size) (suc len)
end_at_step d size len = ground arith

copied_step : (size len : ℕ) → copied (suc size) (suc len) ≡ suc (copied size len)
copied_step size len = ground arith

copy_step :
    (m : Mem) (d s n : ℕ) (a : Ptr)
    → (d < s) ⊎ (s + n < d)
    → (if within (d + 1) n a then poke m d (m s) (s + 1 + (a - (d + 1))) else poke m d (m s) a)
      ≡ (if within d (suc n) a then m (s + (a - d)) else m a)
copy_step m d s n a out = elim (Bool-cases (a == d)) [ inl e ↦ ground arith | inr e ↦ ground arith ]

shift_step :
    (m : Mem) (d s size len : ℕ) (a : Ptr)
    → (d < s) ⊎ (s + copied size len < d)
    → (if a == end_at (d + 1) size len
        then 0
        else if within (d + 1) (copied size len) a
        then poke m d (m s) (s + 1 + (a - (d + 1)))
        else poke m d (m s) a)
      ≡ (if a == end_at d (suc size) (suc len)
          then 0
          else if within d (copied (suc size) (suc len)) a
          then m (s + (a - d))
          else m a)
shift_step m d s size len a out =
    rw (end_at_step d size len, copied_step size len)
      (ap (λ v. if a == end_at d (suc size) (suc len) then 0 else v)
        (copy_step m d s (copied size len) a out))

strncpy_loop_lem :
    (size : ℕ) (m : Mem) (d s len : ℕ) (a : Ptr)
    → 0 < d
    → IsString m s len
    → Disjoint d s size len
    → strncpy_loop m d s size a ≡ (
        if a == end_at d size len
        then 0
        else if within d (copied size len) a
        then m (s + (a - d))
        else m a)
unfolding strncpy_loop
strncpy_loop_lem zero m d s len a h str dis = ground arith
strncpy_loop_lem (suc size) m d s zero a h str dis = ground (arith, str.0)
strncpy_loop_lem (suc size) m d s (suc len) a h str dis =
    let first : m (s + 0) ≢ 0 = str.1 0 (omega arith) in
    let shift : s + 0 ≡ s = omega arith in
    let there : (m s == 0) ≡ false = ground (arith, first, ap m shift) in
    let str' = poke-IsString m (s + 1) len d (m s) (ground arith) (IsString-tail m s len str) in
    let rest =
      strncpy_loop_lem size (poke m d (m s)) (d + 1) (s + 1) len a (omega arith) str'
        (ground arith) in
    rw there (rest ∙ step)
  where
    step :
        (if a == end_at (d + 1) size len
          then 0
          else if within (d + 1) (copied size len) a
          then poke m d (m s) (s + 1 + (a - (d + 1)))
          else poke m d (m s) a)
        ≡ (if a == end_at d (suc size) (suc len)
            then 0
            else if within d (copied (suc size) (suc len)) a
            then m (s + (a - d))
            else m a)
    step = shift_step m d s size len a (ground arith)

-- kernel_strncpy of a string that does not overlap the area writes the characters that fit and one
-- 0: behind the string when two bytes or more are left, over its last character when it fits with
-- its end exactly, and behind the area when it is as long or longer; nothing else changes.
pub strncpy-IsString :
    (m : Mem) (dest src size len : ℕ) (a : Ptr)
    → dest ≢ null
    → src ≢ null
    → 0 < size
    → IsString m src len
    → Disjoint dest src size len
    → kernel_strncpy m dest src size a ≡ (
        if a == end_at dest size len
        then 0
        else if within dest (copied size len) a
        then m (src + (a - dest))
        else m a)
unfolding kernel_strncpy
strncpy-IsString m dest src size len a h1 h2 h3 str dis =
    let t : (dest == null || src == null || size == 0) ≡ false = ground arith in
    rw t (strncpy_loop_lem size m dest src len a (ground arith) str dis)

-- A string that is as long as the area or longer: the 0 is written behind the area.
pub strncpy_overflow :
    (m : Mem) (dest src size len : ℕ)
    → dest ≢ null
    → src ≢ null
    → 0 < size
    → size ≤ len
    → IsString m src len
    → Disjoint dest src size len
    → kernel_strncpy m dest src size (dest + size) ≡ 0
strncpy_overflow m dest src size len h1 h2 h3 h4 str dis =
    ground (arith, strncpy-IsString m dest src size len (dest + size) h1 h2 h3 str dis)
