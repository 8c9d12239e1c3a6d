-- ===== src/Tests/Applib.antt =====
-- The theorem on the directories of source/applib/lib_syscall.c at a heap of one block.
use start.Base.{arith, Bool, true, false, if◌then◌else◌, ◌==◌, Ptr, null}
use start.Applib.{SyscallArgs, Machine, opendir}
use start.Applib.Dirs.{KeepsHeap, OpenOrBalanced, opendir-closedir}

abbrev block : Ptr
block = 0x1000

-- The kernel answers 0, and a world says whether the block is in use.
abbrev one_block : Machine Bool
one_block = record {
  call_gate = λ _ _ w. (0, w);
  malloc = λ _ w. if w then (null, w) else (block, true);
  free = λ p w. if p == block then false else w;
}

abbrev uses_block : Bool → Ptr → Bool
uses_block w a = if a == block then w else false

one_block-KeepsHeap : KeepsHeap one_block uses_block
one_block-KeepsHeap = record {
  null_free = λ w. ground arith;
  malloc_block = λ n w h. ground arith;
  malloc_in_use = λ n w a. ground arith;
  free_in_use = λ p w a. ground arith;
  gate_in_use = λ s ws w a. ground arith;
}

abbrev noise : SyscallArgs
noise = record { id = 9; arg0 = 8; arg1 = 7; arg2 = 6; arg3 = 5 }

opendir-closedir_example :
    OpenOrBalanced one_block noise uses_block false
      (opendir one_block noise 0x2000 false).0
      (opendir one_block noise 0x2000 false).1
opendir-closedir_example =
    opendir-closedir one_block noise uses_block one_block-KeepsHeap 0x2000 false
