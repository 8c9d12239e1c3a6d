-- ===== src/Applib.antt =====
-- source/applib/lib_syscall.c, lib_syscall.h and cstart.c: what a program links to call the kernel. The
-- processor's call gate, malloc, free and the program itself are parameters, over a world `W`. An `int`
-- or a pointer is its 32-bit pattern.
pub mod Dirs
use start.Base.{
  ℕ, zero, suc, ◌+◌, ◌-◌, ◌*◌, ◌^◌, Bool, ◌||◌, if◌then◌else◌, ◌==◌, leb, List, [], ◌∷◌, Ptr, null,
  Mem, poke,
}
use start.Cpu.Gdt.{selector_syscall}

pub record SyscallArgs : Type 0 where
  pub id : ℕ
  pub arg0 : ℕ
  pub arg1 : ℕ
  pub arg2 : ℕ
  pub arg3 : ℕ

-- `call_gate` is a far call with the selector and the words on the stack, the one at the top first:
-- it leaves a value in EAX. `malloc` and `free` are those of the C library.
pub record Machine (W : Type 0) : Type 0 where
  pub call_gate : ℕ → List ℕ → W → ℕ × W
  pub malloc : ℕ → W → Ptr × W
  pub free : Ptr → W → W

abbrev pub is_neg : ℕ → Bool
is_neg x = leb (2 ^ 31) x

-- `sizeof(DIR)`: an index, and a `struct dirent` of two ints, 255 characters, a byte that aligns and
-- an int.
abbrev pub sizeof_dir : ℕ
sizeof_dir = 4 + 268

-- `&dir->dirent`
abbrev pub dirent_of : Ptr → Ptr
dirent_of dir = dir + 4

-- The calls of source/kernel/include/core/syscall.h, and their numbers.
pub data Syscall : Type 0 where
  sys_msleep : Syscall
  sys_getpid : Syscall
  sys_fork : Syscall
  sys_execve : Syscall
  sys_yield : Syscall
  sys_exit : Syscall
  sys_wait : Syscall
  sys_open : Syscall
  sys_read : Syscall
  sys_write : Syscall
  sys_close : Syscall
  sys_lseek : Syscall
  sys_isatty : Syscall
  sys_sbrk : Syscall
  sys_fstat : Syscall
  sys_dup : Syscall
  sys_ioctl : Syscall
  sys_opendir : Syscall
  sys_readdir : Syscall
  sys_closedir : Syscall
  sys_unlink : Syscall
  sys_printmsg : Syscall

unfoldable pub number : Syscall → ℕ
number sys_msleep = 0
number sys_getpid = 1
number sys_fork = 2
number sys_execve = 3
number sys_yield = 4
number sys_exit = 5
number sys_wait = 6
number sys_open = 50
number sys_read = 51
number sys_write = 52
number sys_close = 53
number sys_lseek = 54
number sys_isatty = 55
number sys_sbrk = 56
number sys_fstat = 57
number sys_dup = 58
number sys_ioctl = 59
number sys_opendir = 60
number sys_readdir = 61
number sys_closedir = 62
number sys_unlink = 63
number sys_printmsg = 100

-- `args` as the stack leaves it, with the number of the call.
abbrev pub call_args : Syscall → SyscallArgs → SyscallArgs
unfolding number
call_args call unset = record unset { id = number call }

-- `unset` is what the uninitialised `args` of a function holds.
module _ {W : Type 0} (cpu : Machine W) (unset : SyscallArgs) where
  -- The inline assembly: the gate's selector, and the words pushed, the last one at the top.
  unfoldable pub sys_call : SyscallArgs → W → ℕ × W
  sys_call args =
      cpu.call_gate selector_syscall (args.id ∷ args.arg0 ∷ args.arg1 ∷ args.arg2 ∷ args.arg3 ∷ [])

  unfoldable pub msleep : ℕ → W → ℕ × W
  unfolding sys_call
  msleep ms w =
      if ms == 0 || is_neg ms
      then (0, w)
      else sys_call (record (call_args sys_msleep unset) { arg0 = ms }) w

  unfoldable pub getpid : W → ℕ × W
  unfolding sys_call
  getpid = sys_call (call_args sys_getpid unset)

  unfoldable pub print_msg : ℕ → ℕ → W → ℕ × W
  unfolding sys_call
  print_msg fmt arg = sys_call (record (call_args sys_printmsg unset) { arg0 = fmt; arg1 = arg })

  unfoldable pub fork : W → ℕ × W
  unfolding sys_call
  fork = sys_call (call_args sys_fork unset)

  unfoldable pub execve : ℕ → ℕ → ℕ → W → ℕ × W
  unfolding sys_call
  execve name argv env =
      sys_call (record (call_args sys_execve unset) { arg0 = name; arg1 = argv; arg2 = env })

  unfoldable pub yield : W → ℕ × W
  unfolding sys_call
  yield = sys_call (call_args sys_yield unset)

  unfoldable pub wait : ℕ → W → ℕ × W
  unfolding sys_call
  wait status = sys_call (record (call_args sys_wait unset) { arg0 = status })

  -- `_exit`: the world in which it loops for ever.
  unfoldable pub exit_task : ℕ → W → W
  unfolding sys_call
  exit_task status w = (sys_call (record (call_args sys_exit unset) { arg0 = status }) w).1

  -- `open`
  unfoldable pub open_file : ℕ → ℕ → W → ℕ × W
  unfolding sys_call
  open_file name flags = sys_call (record (call_args sys_open unset) { arg0 = name; arg1 = flags })

  unfoldable pub read : ℕ → ℕ → ℕ → W → ℕ × W
  unfolding sys_call
  read file ptr len =
      sys_call (record (call_args sys_read unset) { arg0 = file; arg1 = ptr; arg2 = len })

  unfoldable pub write : ℕ → ℕ → ℕ → W → ℕ × W
  unfolding sys_call
  write file ptr len =
      sys_call (record (call_args sys_write unset) { arg0 = file; arg1 = ptr; arg2 = len })

  unfoldable pub close : ℕ → W → ℕ × W
  unfolding sys_call
  close file = sys_call (record (call_args sys_close unset) { arg0 = file })

  unfoldable pub lseek : ℕ → ℕ → ℕ → W → ℕ × W
  unfolding sys_call
  lseek file ptr dir =
      sys_call (record (call_args sys_lseek unset) { arg0 = file; arg1 = ptr; arg2 = dir })

  unfoldable pub fstat : ℕ → ℕ → W → ℕ × W
  unfolding sys_call
  fstat file st = sys_call (record (call_args sys_fstat unset) { arg0 = file; arg1 = st })

  unfoldable pub isatty : ℕ → W → ℕ × W
  unfolding sys_call
  isatty file = sys_call (record (call_args sys_isatty unset) { arg0 = file })

  unfoldable pub sbrk : ℕ → W → ℕ × W
  unfolding sys_call
  sbrk incr = sys_call (record (call_args sys_sbrk unset) { arg0 = incr })

  unfoldable pub dup : ℕ → W → ℕ × W
  unfolding sys_call
  dup file = sys_call (record (call_args sys_dup unset) { arg0 = file })

  unfoldable pub ioctl : ℕ → ℕ → ℕ → ℕ → W → ℕ × W
  unfolding sys_call
  ioctl fd cmd arg0 arg1 =
      sys_call
        (record (call_args sys_ioctl unset) { arg0 = fd; arg1 = cmd; arg2 = arg0; arg3 = arg1 })

  unfoldable pub opendir : Ptr → W → Ptr × W
  opendir name w =
      let (dir, w1) = cpu.malloc sizeof_dir w in
      if dir == null
      then (null, w1)
      else let args = record (call_args sys_opendir unset) { arg0 = name; arg1 = dir } in
        let (err, w2) = sys_call args w1 in
        if is_neg err then (null, cpu.free dir w2) else (dir, w2)

  unfoldable pub readdir : Ptr → W → Ptr × W
  readdir dir w =
      let args = record (call_args sys_readdir unset) { arg0 = dir; arg1 = dirent_of dir } in
      let (err, w1) = sys_call args w in (if is_neg err then null else dirent_of dir, w1)

  unfoldable pub closedir : Ptr → W → ℕ × W
  closedir dir w =
      (0, cpu.free dir (sys_call (record (call_args sys_closedir unset) { arg0 = dir }) w).1)

  unfoldable pub unlink : ℕ → W → ℕ × W
  unfolding sys_call
  unlink path = sys_call (record (call_args sys_unlink unset) { arg0 = path })

-- The loop of `cstart` over the bytes from `start` to the end of the area, `left` of them.
unfoldable pub clear_bss : Mem → Ptr → ℕ → Mem
clear_bss m start zero = m
clear_bss m start (suc left) = clear_bss (poke m start 0) (start + 1) left

-- `main` leaves a status and the memory, and `exit` does not return: what it leaves is the result.
unfoldable pub cstart :
    {R : Type 0} (bss_start bss_end : Ptr) (main : ℕ → Ptr → Mem → ℕ × Mem) (exit : ℕ → Mem → R)
    → ℕ
    → Ptr
    → Mem
    → R
unfolding clear_bss
cstart bss_start bss_end main exit argc argv m =
    let (status, m1) = main argc argv (clear_bss m bss_start (bss_end - bss_start)) in
    exit status m1
