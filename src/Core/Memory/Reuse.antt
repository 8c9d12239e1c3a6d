-- ===== src/Core/Memory/Reuse.antt =====
-- Sequences of addr_alloc_page and addr_free_page of source/kernel/core/memory.c.
use start.Base.{ℕ, ◌≡◌, sym, ap, subst, ◌∙◌, ◌≢◌, inl, inr, arith, Option, none, some, Mem, IsBytes}
use start.Tools.Bitmap.{
  Bitmap, Search, found, absent, out_of_fuel, bitmap_set_bit, bitmap_alloc_nbits, complement,
}
use start.Tools.Bitmap.Bits.{bitmap_set_bit-IsBytes}
use start.Core.Memory.{Machine, with_mem, addr_alloc_page, addr_free_page}
use start.Core.Memory.Pages.{
  Ready, bit_of, addr_of, TakesPage, alloc_page_lem, alloc_page-TakesPage, free_page_bits,
}

abbrev memory : Mem × Option ℕ → Mem
memory a = a.0

search-IsBytes :
    (m : Mem) (bm : Bitmap) (bit count : ℕ)
    → IsBytes m
    → (r : Search)
    → IsBytes (
        memory (elim r [
          | found s ↦ (bitmap_set_bit m bm s count (complement bit), some s)
          | absent ↦ (m, none)
          | out_of_fuel ↦ (m, none)
        ]))
search-IsBytes m bm bit count h (found s) = bitmap_set_bit-IsBytes m bm s count (complement bit) h
search-IsBytes m bm bit count h absent = h
search-IsBytes m bm bit count h out_of_fuel = h

module _ (s : Machine) (r : Ready s) where
  with_mem-Ready : (m : Mem) → IsBytes m → Ready (with_mem s m)
  with_mem-Ready m h = record {
    idle = r.idle;
    bytes = h;
    pages = r.pages;
    aligned = r.aligned;
    start_positive = r.start_positive;
    fits = r.fits;
  }

  alloc_nbits-IsBytes : IsBytes (bitmap_alloc_nbits s.mem s.paddr_alloc.bitmap 0 1).0
  unfolding bitmap_alloc_nbits
  alloc_nbits-IsBytes = search-IsBytes s.mem s.paddr_alloc.bitmap 0 1 r.bytes _

  pub alloc_page-Ready : Ready (addr_alloc_page s 1).0
  alloc_page-Ready =
      subst (λ a. Ready a.0) (sym (alloc_page_lem s r.idle 1))
        (with_mem-Ready _ alloc_nbits-IsBytes)

module _ (s : Machine) where
  given_back :
      (a : Machine × ℕ) (j : ℕ)
      → Ready a.0
      → TakesPage s a
      → a.1 ≢ 0
      → bit_of (addr_free_page a.0 a.1 1) j ≡ bit_of s j
  given_back (s', addr) j r (inl (e, _, _)) got = absurd (got e)
  given_back (s', addr) j r (inr (i, at, inside, free, same, bits)) got =
      let freed = free_page_bits (with_mem s s'.mem) (subst Ready same r) i j inside in
      let bit = ap (λ t. bit_of t j) (sym same) ∙ bits j in
      subst (λ t. bit_of (addr_free_page t addr 1) j ≡ bit_of s j) (sym same)
        (rw (at, freed) (ground (arith, bit)))

  two_pages : (a b : Machine × ℕ) → Ready s → TakesPage s a → TakesPage a.0 b → a.1 ≢ 0 → b.1 ≢ a.1
  two_pages (s', addr) b r (inl (e, _, _)) second got = absurd (got e)
  two_pages (s', addr) (s'', addr') r (inr first) (inl (e, _, _)) got = λ same. got (sym same ∙ e)
  two_pages (s', addr) (s'', addr') r (inr (i, at, inside, free, same, bits))
        (inr (j, at', inside', free', _, _)) got =
      ground (arith, bits j, ap (λ t. addr_of t j) same)

module _ (s : Machine) (r : Ready s) where
  -- A page that addr_alloc_page gives out and that is freed right away leaves every page free or
  -- taken as it was, between calls that do not wait.
  pub free_page-alloc_page :
      (j : ℕ)
      → (addr_alloc_page s 1).1 ≢ 0
      → let (s', addr) = addr_alloc_page s 1 in bit_of (addr_free_page s' addr 1) j ≡ bit_of s j
  free_page-alloc_page j got =
      given_back s _ j (alloc_page-Ready s r) (alloc_page-TakesPage s r) got

  -- Two calls of addr_alloc_page in a row, the first of which returns a page, never return the
  -- same page, between calls that do not wait.
  pub alloc_page-distinct :
      (addr_alloc_page s 1).1 ≢ 0
      → (addr_alloc_page (addr_alloc_page s 1).0 1).1 ≢ (addr_alloc_page s 1).1
  alloc_page-distinct got =
      two_pages s _ _ r (alloc_page-TakesPage s r)
        (alloc_page-TakesPage (addr_alloc_page s 1).0 (alloc_page-Ready s r)) got
