-- ===== src/Applib/Dirs.antt =====
-- The directories that a program opens (source/applib/lib_syscall.c) against its heap.
use start.Base.{
  ℕ, ◌≡◌, ◌≢◌, ◌⊎◌, inl, inr, arith, Bool, true, false, Bool-cases, if◌then◌else◌, ◌==◌, Ptr, null,
  List, [], ◌∷◌, refl,
}
use start.Applib.{
  Machine, SyscallArgs, is_neg, call_args, sys_opendir, sys_closedir, selector_syscall, sizeof_dir,
  sys_call, opendir, closedir,
}

-- What the program relies on, with the blocks of its heap that are in use: malloc gives out a block
-- that was not in use, or null; free gives one back; the kernel touches no block.
pub record KeepsHeap {W : Type 0} (cpu : Machine W) (in_use : W → Ptr → Bool) : Type 0 where
  pub null_free : (w : W) → in_use w null ≡ false
  pub malloc_block :
      (n : ℕ) (w : W) → (cpu.malloc n w).0 ≢ null → in_use w (cpu.malloc n w).0 ≡ false
  pub malloc_in_use :
      (n : ℕ) (w : W) (a : Ptr)
      → in_use (cpu.malloc n w).1 a
        ≡ (if a == null then false else if a == (cpu.malloc n w).0 then true else in_use w a)
  pub free_in_use :
      (p : Ptr) (w : W) (a : Ptr) → in_use (cpu.free p w) a ≡ (if a == p then false else in_use w a)
  pub gate_in_use :
      (selector : ℕ) (words : List ℕ) (w : W) (a : Ptr)
      → in_use (cpu.call_gate selector words w).1 a ≡ in_use w a

-- `opendir` returned `dir` in `w1`.
abbrev pub OpenOrBalanced :
    {W : Type 0} → Machine W → SyscallArgs → (W → Ptr → Bool) → W → Ptr → W → Type 0
OpenOrBalanced cpu unset in_use w dir w1 =
    ((dir ≡ null) × ((a : Ptr) → in_use w1 a ≡ in_use w a))
    ⊎ ((dir ≢ null)
        × (in_use w dir ≡ false)
        × (in_use w1 dir ≡ true)
        × ((a : Ptr) → in_use (closedir cpu unset dir w1).1 a ≡ in_use w a))

module _ {W : Type 0} (cpu : Machine W) (unset : SyscallArgs) (in_use : W → Ptr → Bool)
    (heap : KeepsHeap cpu in_use) where
  open heap use {null_free, malloc_block, malloc_in_use, free_in_use, gate_in_use}

  sys_call_in_use :
      (args : SyscallArgs) (w : W) (a : Ptr) → in_use (sys_call cpu unset args w).1 a ≡ in_use w a
  unfolding sys_call
  sys_call_in_use args w a =
      gate_in_use selector_syscall (args.id ∷ args.arg0 ∷ args.arg1 ∷ args.arg2 ∷ args.arg3 ∷ []) w
        a

  closedir_in_use :
      (dir : Ptr) (w : W) (a : Ptr)
      → in_use (closedir cpu unset dir w).1 a ≡ (if a == dir then false else in_use w a)
  unfolding closedir
  closedir_in_use dir w a =
      let args = record (call_args sys_closedir unset) { arg0 = dir } in
      let w1 = (sys_call cpu unset args w).1 in
      ground (arith, free_in_use dir w1 a, sys_call_in_use args w a)

  module _ (name : Ptr) (w : W) where
    abbrev dir : Ptr
    dir = (cpu.malloc sizeof_dir w).0

    abbrev w1 : W
    w1 = (cpu.malloc sizeof_dir w).1

    abbrev args : SyscallArgs
    args = record (call_args sys_opendir unset) { arg0 = name; arg1 = dir }

    abbrev err : ℕ
    err = (sys_call cpu unset args w1).0

    abbrev w2 : W
    w2 = (sys_call cpu unset args w1).1

    kept : (a : Ptr) → in_use w2 a ≡ in_use w1 a
    kept a = sys_call_in_use args w1 a

    -- Opendir returns null and leaves the blocks in use as they were, or returns a block that was
    -- free, and closedir of it gives that block and no other back; where malloc gives out free
    -- blocks or null, free gives one back, and the kernel touches none.
    pub opendir-closedir :
        OpenOrBalanced cpu unset in_use w (opendir cpu unset name w).0 (opendir cpu unset name w).1
    unfolding opendir
    opendir-closedir = elim (Bool-cases (dir == null)) [
      | inl e ↦ rw e (inl (refl, λ a. ground (arith, malloc_in_use sizeof_dir w a, null_free w)))
      | inr e ↦ rw e (elim (Bool-cases (is_neg err)) [
        | inl f ↦ rw f (
            inl (
              refl,
              λ a. ground (
                arith,
                free_in_use dir w2 a,
                kept a,
                null_free w,
                malloc_in_use sizeof_dir w a,
                malloc_block sizeof_dir w (ground arith),
              ),
            ))
        | inr f ↦ rw f (
            inr (
              ground arith,
              malloc_block sizeof_dir w (ground arith),
              ground (arith, kept dir, null_free w, malloc_in_use sizeof_dir w dir),
              λ a. ground (
                arith,
                closedir_in_use dir w2 a,
                kept a,
                null_free w,
                malloc_in_use sizeof_dir w a,
                malloc_block sizeof_dir w (ground arith),
              ),
            ))
      ])
    ]
