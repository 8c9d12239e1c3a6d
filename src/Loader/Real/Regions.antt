-- ===== src/Loader/Real/Regions.antt =====
-- The memory that detect_memory of source/loader/loader_16.c finds.
use Prim.Native.Nat.{bit_and}
use start.Base.{
  ℕ, zero, suc, ◌+◌, ◌*◌, ◌%◌, ◌^◌, ◌≤◌, ◌≡◌, ◌≢◌, refl, ap, ◌∙◌, arith, Bool, true, false, List,
  [], ◌∷◌, ◌++◌, if◌then◌else◌, Bool-cases, inl, inr, ◌==◌,
}
use start.Tools.LinkedList.Links.{length, length-append}
use start.Core.Memory.Setup.{RamRegion, total_mem_size, add_regions}
use start.Loader.Real.{
  SmapEntry, Reply, Bios, smap, boot_ram_region_max, is_ignored, add_region, detect_loop, Boot,
  show_msg, detect_memory,
}

-- An answer with an entry of 20 bytes.
abbrev pub answer : ℕ → SmapEntry → Reply
answer next e = record { signature = smap; bytes = 20; cont_id = next; entry = e }

-- From a continuation on, the BIOS gives the entries one by one, each with a continuation that is not
-- 0 but the last.
abbrev pub Serves : Bios → ℕ → List SmapEntry → Type 0
Serves bios cont_id [] = ⊥
Serves bios cont_id (e ∷ []) = (buffer : SmapEntry) → bios cont_id buffer ≡ answer 0 e
Serves bios cont_id (e ∷ f ∷ es) =
    (next : ℕ) × (next ≢ 0)
    × ((buffer : SmapEntry) → bios cont_id buffer ≡ answer next e)
    × Serves bios next (f ∷ es)

-- The entries of memory among the first `n`, by the lower halves of their base and length.
abbrev pub memory_of : ℕ → List SmapEntry → List RamRegion
memory_of zero es = []
memory_of (suc n) [] = []
memory_of (suc n) (e ∷ es) =
    if e.kind == 1
    then record { start = e.base_l; size = e.length_l } ∷ memory_of n es
    else memory_of n es

-- Whatever the BIOS answers, the array of regions is not overrun.
add_region-length :
    (regions : List RamRegion) (e : SmapEntry) → length (add_region regions e) ≤ length regions + 1
add_region-length regions e =
    ground (arith, length-append regions (record { start = e.base_l; size = e.length_l } ∷ []))

detect_loop-length :
    (bios : Bios) (left cont_id : ℕ) (buffer : SmapEntry) (regions : List RamRegion)
    → length (detect_loop bios left cont_id buffer regions).0 ≤ length regions + left
unfolding detect_loop
detect_loop-length bios zero cont_id buffer regions = omega arith
detect_loop-length bios (suc left) cont_id buffer regions =
    let r = bios cont_id buffer in
    let one = add_region-length regions r.entry in
    let ignoring = detect_loop-length bios left r.cont_id r.entry regions in
    let going_on = detect_loop-length bios left r.cont_id r.entry (add_region regions r.entry) in
    elim (Bool-cases (r.signature == smap)) [
      | inr t ↦ rw t (omega arith)
      | inl t ↦ rw t (elim (Bool-cases (is_ignored r)) [
        | inl u ↦ rw u (omega (arith, ignoring))
        | inr u ↦ rw u (elim (Bool-cases (r.cont_id == 0)) [
          | inl v ↦ rw v (omega (arith, one))
          | inr v ↦ rw v (omega (arith, one, going_on))
        ])
      ])
    ]

-- Whatever the BIOS answers, detect_memory records no more regions than the array of boot_info_t
-- holds.
pub regions_bound :
    (bios : Bios) (buffer : SmapEntry) (b : Boot)
    → length (detect_memory bios buffer b).ram_regions ≤ boot_ram_region_max
unfolding detect_memory show_msg
regions_bound bios buffer b = omega (arith, detect_loop-length bios boot_ram_region_max 0 buffer [])

-- The BIOS gives one region and then an entry that is to be ignored, the last.
abbrev pub EndsIgnored : Bios → SmapEntry → SmapEntry → Type 0
EndsIgnored bios e f =
    (next : ℕ) × (next ≢ 0)
    × ((buffer : SmapEntry) → bios 0 buffer ≡ answer next e)
    × ((buffer : SmapEntry)
        → bios next buffer ≡ record { signature = smap; bytes = 24; cont_id = 0; entry = f })
    × (bit_and f.acpi 1 ≡ 0)

twice :
    (bios : Bios) (left : ℕ) (buffer e f : SmapEntry) (regions : List RamRegion)
    → EndsIgnored bios e f
    → detect_loop bios (suc (suc left)) 0 buffer regions
      ≡ detect_loop bios left 0 f (add_region regions e)
unfolding detect_loop
twice bios left buffer e f regions (next, ne, first, second, bit) =
    let t : (next == 0) ≡ false = ground arith in rw (first buffer, t, second e, bit) refl

abbrev region_of : SmapEntry → RamRegion
region_of e = record { start = e.base_l; size = e.length_l }

twice_memory :
    (bios : Bios) (left : ℕ) (buffer e f : SmapEntry) (regions : List RamRegion)
    → EndsIgnored bios e f
    → e.kind ≡ 1
    → detect_loop bios (suc (suc left)) 0 buffer regions
      ≡ detect_loop bios left 0 f (regions ++ region_of e ∷ [])
twice_memory bios left buffer e f regions ends memory =
    let t : (e.kind == 1) ≡ true = ground arith in
    twice bios left buffer e f regions ends
    ∙ ap (λ b. detect_loop bios left 0 f (if b then regions ++ region_of e ∷ [] else regions)) t

-- The region is found in every second round.
five_times :
    (bios : Bios) (buffer e f : SmapEntry)
    → EndsIgnored bios e f
    → e.kind ≡ 1
    → (detect_loop bios 10 0 buffer []).0
      ≡ region_of e ∷ region_of e ∷ region_of e ∷ region_of e ∷ region_of e ∷ []
five_times bios buffer e f ends memory =
    let next = λ (left : ℕ) (from : SmapEntry) (regions : List RamRegion).
      ap (λ (p : List RamRegion × Bool). p.0)
        (twice_memory bios left from e f regions ends memory) in
    let r = region_of e in
    next 8 buffer []
    ∙ next 6 f (r ∷ [])
    ∙ next 4 f (r ∷ r ∷ [])
    ∙ next 2 f (r ∷ r ∷ r ∷ [])
    ∙ next 0 f (r ∷ r ∷ r ∷ r ∷ [])
    ∙ stop
  where
    stop :
        (detect_loop bios 0 0 f
          (region_of e ∷ region_of e ∷ region_of e ∷ region_of e ∷ region_of e ∷ [])).0
        ≡ region_of e ∷ region_of e ∷ region_of e ∷ region_of e ∷ region_of e ∷ []
    stop = unfold detect_loop in refl

-- Where the BIOS gives one region of memory and then, as its last entry, one that is to be
-- ignored, the loader asks again from the start and the kernel counts five times the memory,
-- wrapped to 32 bits.
pub ignored_last_counts :
    (bios : Bios) (buffer e f : SmapEntry) (b : Boot)
    → EndsIgnored bios e f
    → e.kind ≡ 1
    → total_mem_size (detect_memory bios buffer b).ram_regions ≡ 5 * e.length_l % 2 ^ 32
unfolding detect_memory show_msg
ignored_last_counts bios buffer e f b ends memory =
    ap total_mem_size (five_times bios buffer e f ends memory) ∙ five_sizes (region_of e)
  where
    five_sizes : (r : RamRegion) → total_mem_size (r ∷ r ∷ r ∷ r ∷ r ∷ []) ≡ 5 * r.size % 2 ^ 32
    five_sizes r = unfold total_mem_size in unfold add_regions in omega arith
