-- ===== src/Core/Memory/Keeps.antt =====
-- Page tables and pages of source/kernel/core/memory.c: the operations change the memory, and nothing
-- of the scheduler, the allocator's record or the tasks, where the mutex of the allocator is free.
use Prim.Native.Nat.{bit_or}
use start.Base.{
  ℕ, zero, suc, ◌+◌, ◌*◌, ◌≡◌, refl, sym, ap, subst, ◌∙◌, inl, inr, Option, none, some, Bool,
  Bool-cases, if◌then◌else◌, ◌==◌, true, false, add32, Ptr, null, load32, store32,
}
use start.Ipc.Mutex.Idle.{IdleMutex}
use start.Core.Mmu.{present, pde_index, pte_p}
use start.Core.Memory.{
  Machine, with_mem, mem_page_size, minus_one, is_negative, addr_alloc_page, addr_free_page,
  new_table, find_pte, memory_create_map, alloc_pages, memory_alloc_for_page_dir,
  memory_alloc_page_for,
}
use start.Core.Memory.Pages.{alloc_page_lem, free_page_lem}

-- All but the memory is as before.
abbrev pub Keeps : Machine → Machine → Type 0
Keeps s s' = s' ≡ with_mem s s'.mem

-- So it is after a call that returns.
abbrev pub KeepsAll : Machine → Option (Machine × ℕ) → Type 0
KeepsAll s none = true ≡ true
KeepsAll s (some r) = Keeps s r.0

abbrev pub Idle : Machine → Type 0
Idle s = IdleMutex s.paddr_alloc.mutex

Keeps-trans : (s t u : Machine) → Keeps s t → Keeps t u → Keeps s u
Keeps-trans s t u h k = k ∙ ap (λ x. with_mem x u.mem) h

Keeps-Idle : (s t : Machine) → Keeps s t → Idle s → Idle t
Keeps-Idle s t h i = subst Idle (sym h) i

KeepsAll-trans :
    (s t : Machine) (o : Option (Machine × ℕ)) → Keeps s t → KeepsAll t o → KeepsAll s o
KeepsAll-trans s t none h k = refl
KeepsAll-trans s t (some r) h k = Keeps-trans s t r.0 h k

KeepsAll-then :
    (s t : Machine) (o : Option (Machine × ℕ)) (f : Machine × ℕ → Option (Machine × ℕ))
    → KeepsAll t o
    → ((r : Machine × ℕ) → Keeps t r.0 → KeepsAll s (f r))
    → KeepsAll s (elim o [ none ↦ none | some r ↦ f r ])
KeepsAll-then s t none f h k = refl
KeepsAll-then s t (some r) f h k = k r h

KeepsAll-if :
    (s : Machine) (b : Bool) (x y : Option (Machine × ℕ))
    → KeepsAll s x
    → KeepsAll s y
    → KeepsAll s (if b then x else y)
KeepsAll-if s true x y hx hy = hx
KeepsAll-if s false x y hx hy = hy

alloc_page-Keeps : (s : Machine) (n : ℕ) → Idle s → Keeps s (addr_alloc_page s n).0
alloc_page-Keeps s n idle = subst (λ a. Keeps s a.0) (sym (alloc_page_lem s idle n)) refl

free_page-Keeps : (s : Machine) (addr n : ℕ) → Idle s → Keeps s (addr_free_page s addr n)
free_page-Keeps s addr n idle = subst (Keeps s) (sym (free_page_lem s idle addr n)) refl

find_pte-Keeps :
    (s : Machine) (page_dir : Ptr) (vaddr alloc : ℕ)
    → Idle s
    → Keeps s (find_pte s page_dir vaddr alloc).0
unfolding find_pte new_table
find_pte-Keeps s page_dir vaddr alloc idle =
    let k = alloc_page-Keeps s 1 idle in
    elim (Bool-cases (present (load32 s.mem (page_dir + pde_index vaddr * 4)))) [
      | inl e ↦ rw e refl
      | inr e ↦ rw e (elim (Bool-cases (alloc == 0)) [
        | inl f ↦ rw f refl
        | inr f ↦ rw f (elim (Bool-cases ((addr_alloc_page s 1).1 == 0)) [
          | inl g ↦ rw g k
          | inr g ↦ rw g (Keeps-trans s (addr_alloc_page s 1).0 _ k refl)
        ])
      ])
    ]

pub create_map-Keeps :
    (s : Machine) (page_dir : Ptr) (vaddr paddr count perm : ℕ)
    → Idle s
    → KeepsAll s (memory_create_map s page_dir vaddr paddr count perm)
unfolding memory_create_map
create_map-Keeps s page_dir vaddr paddr zero perm idle = refl
create_map-Keeps s page_dir vaddr paddr (suc count) perm idle =
    let k = find_pte-Keeps s page_dir vaddr 1 idle in
    let s' = (find_pte s page_dir vaddr 1).0 in
    let pte = (find_pte s page_dir vaddr 1).1 in
    let mapped = with_mem s' (store32 s'.mem pte (bit_or (bit_or paddr perm) pte_p)) in
    let km = Keeps-trans s s' mapped k refl in
    let rest =
      memory_create_map mapped page_dir (add32 vaddr mem_page_size) (add32 paddr mem_page_size)
        count perm in
    let taken = present (load32 s'.mem pte) in
    let on = KeepsAll-trans s mapped rest km (
      create_map-Keeps mapped page_dir (add32 vaddr mem_page_size) (add32 paddr mem_page_size) count
        perm (Keeps-Idle s mapped km idle)) in
    KeepsAll-if s (pte == null) (some (s', minus_one)) (if taken then none else rest) k
      (KeepsAll-if s taken none rest (refl {a = true}) on)

alloc_pages-Keeps :
    (s : Machine) (page_dir : Ptr) (base curr_vaddr i left perm : ℕ)
    → Idle s
    → KeepsAll s (alloc_pages s page_dir base curr_vaddr i left perm)
unfolding alloc_pages
alloc_pages-Keeps s page_dir base curr_vaddr i zero perm idle = refl
alloc_pages-Keeps s page_dir base curr_vaddr i (suc left) perm idle =
    let k = alloc_page-Keeps s 1 idle in
    let s' = (addr_alloc_page s 1).0 in
    let page = (addr_alloc_page s 1).1 in
    let made = create_map-Keeps s' page_dir curr_vaddr page 1 perm (Keeps-Idle s s' k idle) in
    KeepsAll-if s (page == 0) (some (s', 0)) _ k (
      KeepsAll-then s s' _ _ made λ r h.
        let k2 = Keeps-trans s s' r.0 k h in
        let idle2 = Keeps-Idle s r.0 k2 idle in
        let next = add32 curr_vaddr mem_page_size in
        KeepsAll-if s (is_negative r.1) (some (addr_free_page r.0 base (i + 1), minus_one)) _
          (Keeps-trans s r.0 _ k2 (free_page-Keeps r.0 base (i + 1) idle2))
          (KeepsAll-trans s r.0 _ k2
            (alloc_pages-Keeps r.0 page_dir base next (i + 1) left perm idle2)))

pub alloc_page_for-Keeps :
    (s : Machine) (addr size perm : ℕ)
    → Idle s
    → KeepsAll s (memory_alloc_page_for s addr size perm)
unfolding memory_alloc_page_for memory_alloc_for_page_dir
alloc_page_for-Keeps s addr size perm idle = alloc_pages-Keeps s _ _ _ _ _ perm idle
