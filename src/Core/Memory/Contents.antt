-- ===== src/Core/Memory/Contents.antt =====
-- The bytes that memory_copy_uvm_data of source/kernel/core/memory.c leaves in another address space.
use start.Base.{
  ℕ, zero, suc, ◌+◌, ◌-◌, ◌^◌, ◌%◌, ◌<◌, ◌≤◌, ◌≡◌, ◌≢◌, refl, sym, ap, subst, ◌∙◌, inl, inr, arith,
  false, some, Bool-cases, ◌==◌, add32, Ptr, Mem, poke,
}
use start.Core.Memory.{Machine, with_mem, mem_page_size, memory_get_paddr, current_page_dir}
use start.Core.Memory.Uvm.{user_loop, page_part, copy_from_user, copy_data, memory_copy_uvm_data}
use start.Core.Memory.Copies.{page_part-bounds}

-- `m` is the memory of `s` but for the bytes `dest`.
abbrev pub SameElse : Machine → ℕ → (ℕ → Ptr) → Mem → Type 0
SameElse s size dest m = (a : Ptr) → ((j : ℕ) → j < size → a ≢ dest j) → m a ≡ s.mem a

-- The bytes of the destination lie at `dest` and those of the source at `src`, whatever is written to
-- the destination; they are different bytes, and those of one page follow each other.
pub record Mapped (translate : Mem → Ptr → Ptr → Ptr) (s : Machine) (to : ℕ) (page_dir from : Ptr)
    (size : ℕ) (dest src : ℕ → Ptr) : Type 0 where
  pub to_fits : to + size < 2 ^ 32
  pub from_fits : from + size < 2 ^ 32
  pub from_there : 0 < from
  pub destination :
      (m : Mem)
      → SameElse s size dest m
      → (i : ℕ) → i < size
      → memory_get_paddr (with_mem s m) page_dir (to + i) ≡ dest i
  pub source :
      (m : Mem)
      → SameElse s size dest m
      → (i : ℕ) → i < size
      → translate m (current_page_dir s) (from + i) ≡ src i
  pub mapped : (i : ℕ) → i < size → dest i ≢ 0
  pub next :
      (i : ℕ)
      → i + 1 < size
      → dest i % mem_page_size + 1 < mem_page_size
      → dest (i + 1) ≡ dest i + 1
  pub distinct : (i j : ℕ) → i < size → j < size → i ≢ j → dest i ≢ dest j
  pub apart : (i j : ℕ) → i < size → j < size → src i ≢ dest j

-- The first `k` bytes are copied.
abbrev pub CopiedTo : Machine → ℕ → (ℕ → Ptr) → (ℕ → Ptr) → ℕ → Mem → Type 0
CopiedTo s size dest src k m =
    SameElse s size dest m × ((i : ℕ) → i < k → m (dest i) ≡ s.mem (src i))

poke_same : (m : Mem) (a v : ℕ) → poke m a v a ≡ v
poke_same m a v = ground arith

poke_other : (m : Mem) (a b v : ℕ) → b ≢ a → poke m a v b ≡ m b
poke_other m a b v ne = ground arith

copy_from_user-loop :
    (translate : Mem → Ptr → Ptr → Ptr) (cr3 : Ptr) (m : Mem) (d f : Ptr) (n : ℕ)
    → d ≢ 0
    → f ≢ 0
    → n ≢ 0
    → copy_from_user translate cr3 m d f n ≡ user_loop translate cr3 m d f n
unfolding copy_from_user
copy_from_user-loop translate cr3 m d f n d_ne f_ne n_ne = ground arith

module _ (translate : Mem → Ptr → Ptr → Ptr) (s : Machine) (to : ℕ) (page_dir from : Ptr) (size : ℕ)
    (dest src : ℕ → Ptr) (mapped : Mapped translate s to page_dir from size dest src) where
  byte-CopiedTo :
      (k : ℕ) (m : Mem)
      → k < size
      → CopiedTo s size dest src k m
      → CopiedTo s size dest src
          (k + 1)
          (poke m (dest k) (m (translate m (current_page_dir s) (from + k))))
  byte-CopiedTo k m lt (same, copied) =
      let v = m (translate m (current_page_dir s) (from + k)) in
      let read : v ≡ s.mem (src k) =
        ap m (mapped.source m same k lt) ∙ same (src k) (λ j l. mapped.apart k j lt l) in
      (
        λ a out. poke_other m (dest k) a v (out k lt) ∙ same a out,
        λ i l. elim (Bool-cases (i == k)) [
          | inl e ↦
              let i_k : i ≡ k = ground arith in
              subst (λ x. poke m (dest k) v (dest x) ≡ s.mem (src x)) (sym i_k)
                (poke_same m (dest k) v ∙ read)
          | inr e ↦
              let ne : i ≢ k = ground arith in
              let before : i < k = omega (arith, ne) in
              poke_other m (dest k) (dest i) v (mapped.distinct i k (omega arith) lt ne)
              ∙ copied i before
        ],
      )

  abbrev Goes : ℕ → Mem → Ptr → Ptr → ℕ → Type 0
  Goes k m d f n = CopiedTo s size dest src k (user_loop translate (current_page_dir s) m d f n)

  loop-CopiedTo :
      (n k : ℕ) (m : Mem)
      → k + n ≤ size
      → dest k % mem_page_size + n ≤ mem_page_size
      → CopiedTo s size dest src k m
      → CopiedTo s size dest src
          (k + n)
          (user_loop translate (current_page_dir s) m (dest k) (from + k) n)
  unfolding user_loop
  loop-CopiedTo zero k m le fits c = subst (λ x. CopiedTo s size dest src x m) (omega arith) c
  loop-CopiedTo (suc zero) k m le fits c = byte-CopiedTo k m (omega arith) c
  loop-CopiedTo (suc (suc n)) k m le fits c =
      let m1 = poke m (dest k) (m (translate m (current_page_dir s) (from + k))) in
      let next : dest (k + 1) ≡ dest k + 1 = mapped.next k (omega arith) (omega arith) in
      let rest =
        loop-CopiedTo (suc n) (k + 1) m1 (omega arith) (omega (arith, next))
          (byte-CopiedTo k m (omega arith) c) in
      let at_from : Goes (k + 1 + suc n) m1 (dest (k + 1)) (from + k + 1) (suc n) =
        subst (λ f. Goes (k + 1 + suc n) m1 (dest (k + 1)) f (suc n)) (omega arith) rest in
      let at_dest : Goes (k + 1 + suc n) m1 (dest k + 1) (from + k + 1) (suc n) =
        subst (λ d. Goes (k + 1 + suc n) m1 d (from + k + 1) (suc n)) next at_from in
      subst (λ e. Goes e m1 (dest k + 1) (from + k + 1) (suc n)) (omega arith) at_dest

  copy_data-CopiedTo :
      (fuel k : ℕ) (m : Mem)
      → k ≤ size
      → size - k < fuel
      → CopiedTo s size dest src k m
      → (m' : Mem) × (copy_data translate fuel
            (with_mem s m)
            (to + k)
            page_dir
            (from + k)
            (size - k)
          ≡ some (with_mem s m', 0))
        × CopiedTo s size dest src size m'
  unfolding copy_data
  copy_data-CopiedTo zero k m le lt c = absurd (omega arith)
  copy_data-CopiedTo (suc fuel) k m le lt c = elim (Bool-cases (size - k == 0)) [
    | inl e ↦
        let done : k ≡ size = ground arith in
        rw e (m, refl, subst (λ x. CopiedTo s size dest src x m) done c)
    | inr e ↦
        let more : k < size = ground arith in
        let paddr = mapped.destination m c.0 k more in
        let part = page_part (dest k) (size - k) in
        let bounds = page_part-bounds (dest k) (size - k) (omega arith) in
        let here : (dest k == 0) ≡ false = ground (arith, mapped.mapped k more) in
        let copy =
          copy_from_user-loop translate (current_page_dir s) m (dest k) (from + k) part
            (mapped.mapped k more) (omega (arith, mapped.from_there)) (omega (arith, bounds.0)) in
        let m1 = user_loop translate (current_page_dir s) m (dest k) (from + k) part in
        let copied = loop-CopiedTo part k m (omega (arith, bounds.1)) bounds.2 c in
        let (m', eq, all) =
          copy_data-CopiedTo fuel (k + part) m1 (omega (arith, bounds.1)) (omega (arith, bounds.0))
            copied in
        let to' : add32 (to + k) part ≡ to + (k + part) = omega (arith, mapped.to_fits, bounds.1) in
        let from' : add32 (from + k) part ≡ from + (k + part) =
          omega (arith, mapped.from_fits, bounds.1) in
        let size' : size - k - part ≡ size - (k + part) = omega arith in
        rw (e, paddr, here, copy, to', from', size') (m', eq, all)
  ]

  abbrev Runs : ℕ → Ptr → ℕ → Type 0
  Runs t f n =
      (m' : Mem) × (copy_data translate (size + 1) s t page_dir f n ≡ some (with_mem s m', 0))
      × CopiedTo s size dest src size m'

  -- memory_copy_uvm_data returns 0 and leaves each byte of the source, as it was before the call,
  -- at the place of its byte of the destination, page by page, and changes nothing else; where
  -- every address of the destination is mapped, to bytes that are different from each other and
  -- from those of the source, follow each other within a page, and hold no part of the tables, and
  -- both ranges end below 2 ^ 32.
  pub copy_uvm_data-CopiedTo :
      (m' : Mem) × (memory_copy_uvm_data translate s to page_dir from size
        ≡ some (with_mem s m', 0))
      × CopiedTo s size dest src size m'
  unfolding memory_copy_uvm_data
  copy_uvm_data-CopiedTo =
      let none_yet : CopiedTo s size dest src 0 s.mem =
        (λ a o. refl, λ i l. absurd (omega arith)) in
      let at : Runs (to + 0) (from + 0) (size - 0) =
        copy_data-CopiedTo (size + 1) 0 s.mem (omega arith) (omega arith) none_yet in
      let at_size : Runs (to + 0) (from + 0) size =
        subst (λ n. Runs (to + 0) (from + 0) n) (omega arith) at in
      let at_from : Runs (to + 0) from size =
        subst (λ f. Runs (to + 0) f size) (omega arith) at_size in
      subst (λ t. Runs t from size) (omega arith) at_from
