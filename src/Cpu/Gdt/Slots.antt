-- ===== src/Cpu/Gdt/Slots.antt =====
-- gdt_alloc_desc and gdt_free_sel of source/kernel/cpu/cpu.c, where the mutex of the table is free.
use start.Base.{
  ℕ, zero, suc, ◌+◌, ◌-◌, ◌*◌, ◌/◌, ◌≤◌, ◌<◌, ◌≡◌, refl, sym, subst, ◌≢◌, inl, inr, arith, Option,
  none, some, Bool-cases, ◌==◌, true,
}
use start.Ipc.Mutex.Idle.{IdleMutex, held_by, lock_idle, unlock_held}
use start.Cpu.Gdt.{
  Table, Cpu, gdt_table_size, seg_p_present, set_attr, find_desc, taken, lock_gdt, unlock_gdt,
  gdt_alloc_desc, gdt_free_sel,
}

module _ (c : Cpu) (idle : IdleMutex c.mutex) where
  abbrev held : Cpu
  held = record c { mutex = held_by c.sched.curr_task c.mutex }

  lock_lem : lock_gdt c ≡ held
  unfolding lock_gdt
  lock_lem = rw (lock_idle c.sched c.mutex idle) refl

  unlock_lem :
      (gdt : Table) → unlock_gdt (record held { gdt_table = gdt }) ≡ record c { gdt_table = gdt }
  unfolding unlock_gdt
  unlock_lem gdt = rw (unlock_held c.sched c.mutex idle) refl

  pub alloc_desc_lem :
      let (gdt, sel) = taken c.gdt_table (find_desc c.gdt_table 1 (gdt_table_size - 1)) in
      gdt_alloc_desc c ≡ (record c { gdt_table = gdt }, sel)
  unfolding gdt_alloc_desc
  alloc_desc_lem = rw lock_lem (rw (unlock_lem _) refl)

  pub free_sel_lem :
      (sel : ℕ) → gdt_free_sel c sel ≡ record c { gdt_table = set_attr c.gdt_table (sel / 8) 0 }
  unfolding gdt_free_sel
  free_sel_lem sel = rw lock_lem (unlock_lem _)

-- The first free entry from `i` on, or none.
abbrev pub FirstFree : Table → ℕ → ℕ → Option ℕ → Type 0
FirstFree gdt i n none = (j : ℕ) → i ≤ j → j < i + n → (gdt j).attr ≢ 0
FirstFree gdt i n (some k) =
    (i ≤ k) × (k < i + n) × ((gdt k).attr ≡ 0) × ((j : ℕ) → i ≤ j → j < k → (gdt j).attr ≢ 0)

find_desc-FirstFree : (gdt : Table) (i n : ℕ) → FirstFree gdt i n (find_desc gdt i n)
unfolding find_desc
find_desc-FirstFree gdt i zero = λ j h1 h2. absurd (omega arith)
find_desc-FirstFree gdt i (suc n) = elim (Bool-cases ((gdt i).attr == 0)) [
  | inl e ↦ rw e (omega arith, omega arith, ground arith, λ j h1 h2. absurd (omega arith))
  | inr e ↦ rw e (step (find_desc gdt (i + 1) n) (ground arith) (find_desc-FirstFree gdt (i + 1) n))
]
  where
    after : (j : ℕ) → (gdt i).attr ≢ 0 → (i + 1 ≤ j → (gdt j).attr ≢ 0) → i ≤ j → (gdt j).attr ≢ 0
    after j here rest h = elim (Bool-cases (j == i)) [
      | inl e ↦ ground arith
      | inr e ↦ rest (ground arith)
    ]

    step : (r : Option ℕ) → (gdt i).attr ≢ 0 → FirstFree gdt (i + 1) n r → FirstFree gdt i (suc n) r
    step none here all = λ j h1 h2. after j here (λ h. all j h (omega arith)) h1
    step (some k) here (h1, h2, h3, h4) =
        (omega arith, omega arith, h3, λ j g1 g2. after j here (λ h. h4 j h g2) g1)

-- What `gdt_alloc_desc` does: it marks the first free entry but that of index 0 and returns its
-- selector, or it returns -1 and changes nothing, since no other is free.
abbrev pub Allocates : Cpu → Cpu × Option ℕ → Type 0
Allocates c (c', none) = (c' ≡ c) × FirstFree c.gdt_table 1 255 none
Allocates c (c', some sel) =
    (k : ℕ) × (sel ≡ k * 8)
    × FirstFree c.gdt_table 1 255 (some k)
    × (c' ≡ record c { gdt_table = set_attr c.gdt_table k seg_p_present })

module _ (c : Cpu) where
  chosen :
      (r : Option ℕ)
      → FirstFree c.gdt_table 1 255 r
      → Allocates c (record c { gdt_table = (taken c.gdt_table r).0 }, (taken c.gdt_table r).1)
  unfolding taken
  chosen none all = (refl, all)
  chosen (some k) first = (k, refl, first, refl)

  -- gdt_alloc_desc, while its mutex is free, marks the first free entry but that of index 0 and
  -- returns its selector, or returns -1 and changes nothing when no other is free.
  pub alloc_desc-Allocates : IdleMutex c.mutex → Allocates c (gdt_alloc_desc c)
  alloc_desc-Allocates idle =
      subst (Allocates c) (sym (alloc_desc_lem c idle))
        (chosen (find_desc c.gdt_table 1 255) (find_desc-FirstFree c.gdt_table 1 255))

  -- A selector that is given back right away leaves the table as it was.
  abbrev pub Restores : Cpu × Option ℕ → Type 0
  Restores (c', none) = c' ≡ c
  Restores (c', some sel) = (j : ℕ) → (gdt_free_sel c' sel).gdt_table j ≡ c.gdt_table j

  abbrev marked : ℕ → Cpu
  marked k = record c { gdt_table = set_attr c.gdt_table k seg_p_present }

  unmarked :
      (k j : ℕ)
      → IdleMutex c.mutex
      → (c.gdt_table k).attr ≡ 0
      → (gdt_free_sel (marked k) (k * 8)).gdt_table j ≡ c.gdt_table j
  unmarked k j idle free =
      let index : k * 8 / 8 ≡ k = omega arith in
      let this : (k == k) ≡ true = ground arith in
      rw (free_sel_lem (marked k) idle (k * 8), index)
        (elim (Bool-cases (j == k)) [
          | inl e ↦
              let same : j ≡ k = ground arith in
              rw (same, this) (λ i. record (c.gdt_table k) { attr = sym free i })
          | inr e ↦ rw e refl
        ])

  restored : (r : Cpu × Option ℕ) → IdleMutex c.mutex → Allocates c r → Restores r
  restored (c', none) idle (same, _) = same
  restored (c', some sel) idle (k, at, (h1, h2, free, h3), same) = λ j.
      subst (λ t. (gdt_free_sel t sel).gdt_table j ≡ c.gdt_table j) (sym same)
        (subst (λ n. (gdt_free_sel (marked k) n).gdt_table j ≡ c.gdt_table j) (sym at)
          (unmarked k j idle free))

  -- A selector that gdt_alloc_desc gives out and that gdt_free_sel frees right away leaves every
  -- entry of the table as it was, while the mutex of the table is free.
  pub free_sel-alloc_desc : IdleMutex c.mutex → Restores (gdt_alloc_desc c)
  free_sel-alloc_desc idle = restored (gdt_alloc_desc c) idle (alloc_desc-Allocates idle)
