-- ===== src/Ipc/Mutex/History.antt =====
-- Tasks that use one mutex of source/kernel/ipc/mutex.c: their calls in any order that the scheduler
-- allows.
pub mod Steps
pub mod Exclusion
pub mod Progress
use start.Base.{ℕ, ◌+◌, ◌-◌, ◌<◌, ◌^◌, ◌≡◌, ◌≢◌, if◌then◌else◌, ◌==◌, List, [], ◌∷◌, Ptr}
use start.Tools.LinkedList.Links.{length, ◌∈◌, ◌∉◌}
use start.Core.Sched.{Sched, sys_sched_yield}
use start.Ipc.Wait.Layout.{Layout}
use start.Ipc.Wait.Queue.{next_ready}
use start.Ipc.Mutex.{Mutex, mutex_init, mutex_lock, mutex_unlock}
use start.Ipc.Mutex.Contract.{Guarded}

-- `depth` is what the tasks know: how often each has called mutex_lock, less its calls of
-- mutex_unlock, which do not count where it is 0.
pub record System : Type 0 where
  pub sched : Sched
  pub mutex : Mutex
  pub depth : Ptr → ℕ

abbrev pub called : System → Sched × Mutex → ℕ → System
called s r n = record {
  sched = r.0;
  mutex = r.1;
  depth = λ a. if a == s.sched.curr_task then n else s.depth a;
}

abbrev pub after_lock : System → System
after_lock s = called s (mutex_lock s.sched s.mutex) (s.depth s.sched.curr_task + 1)

abbrev pub after_unlock : System → System
after_unlock s = called s (mutex_unlock s.sched s.mutex) (s.depth s.sched.curr_task - 1)

abbrev pub after_yield : System → System
after_yield s = record s { sched = sys_sched_yield s.sched }

-- What the task that runs may do, if it is not the idle task. A hold count fits a C int.
pub data Step (m : Layout) (s : System) : System → Type 0 where
  locks : s.sched.curr_task ≢ m.idle → s.mutex.locked_count + 1 < 2 ^ 31 → Step m s (after_lock s)
  unlocks : s.sched.curr_task ≢ m.idle → Step m s (after_unlock s)
  yields : s.sched.curr_task ≢ m.idle → Step m s (after_yield s)

pub data Reach (m : Layout) (s : System) : System → Type 0 where
  begin : Reach m s s
  later : {t u : System} → Reach m s t → Step m t u → Reach m s u

-- The system before the first call.
abbrev pub system_of : Sched → System
system_of k = record { sched = k; mutex = mutex_init; depth = λ _. 0 }

-- A task has called mutex_lock and does not wait.
abbrev pub Inside : System → List Ptr → Ptr → Type 0
Inside s ws t = (s.depth t ≢ 0) × (t ∉ ws)

-- With `ts` ready and `ws` waiting: the mutex is well formed, whoever is inside owns it, as often as
-- the task has locked it, and a task that waits has called mutex_lock once.
pub record Sound (m : Layout) (s : System) (ts ss ws : List Ptr) : Type 0 where
  pub guarded : Guarded m s.sched s.mutex ts ss ws
  pub current : s.sched.curr_task ≡ next_ready m.idle ts
  pub room : length ts + length ws + 1 < 2 ^ 31
  pub owner_depth : s.mutex.locked_count ≢ 0 → s.depth s.mutex.owner ≡ s.mutex.locked_count
  pub waiter_depth : (t : Ptr) → t ∈ ws → s.depth t ≡ 1
  pub owner_inside : (t : Ptr) → Inside s ws t → (s.mutex.locked_count ≢ 0) × (s.mutex.owner ≡ t)
