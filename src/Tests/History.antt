-- ===== src/Tests/History.antt =====
-- The theorems on histories of calls of source/kernel/ipc/mutex.c, at the system of Tests/Data.
use start.Base.{ℕ, ◌≡◌, refl, arith, if◌then◌else◌, ◌==◌, [], ◌∷◌}
use start.Core.Sched.{sys_sched_yield, task_dispatch, task_set_block, task_set_ready, task_next_run}
use start.Tools.LinkedList.{list_init, list_remove, list_insert_last}
use start.Ipc.Wait.{block_on}
use start.Ipc.Wait.Queue.{Blocking}
use start.Ipc.Mutex.{mutex_init, mutex_lock}
use start.Ipc.Mutex.History.{
  System, Reach, after_lock, after_yield, system_of, begin, later, locks, yields,
}
use start.Ipc.Mutex.History.Exclusion.{Excludes, mutual_exclusion}
use start.Ipc.Mutex.History.Progress.{Owned, turns, waiter_served}
use start.Tests.Data.{
  layout, waiting, waiting-Blocking, owned_by, owned_by_b, task_a, task_b, task_c,
}

-- The first two tasks are ready, and nobody waits.
nobody-Blocking : Blocking layout waiting mutex_init.wait_list (task_a ∷ task_b ∷ []) [] []
unfolding mutex_init list_init
nobody-Blocking = record {
  queues = waiting-Blocking.queues;
  waiting = record { links = tt; first = refl; last = refl; count = refl; short = omega arith };
  ready_tasks = waiting-Blocking.ready_tasks;
  sleep_tasks = tt;
  wait_tasks = tt;
  idle = refl;
  apart = λ t i. cc;
}

abbrev first : System
first = after_lock (system_of waiting)

-- The first task locks the mutex and yields, and the second asks for it.
first_run : Reach layout (system_of waiting) (after_lock (after_yield first))
unfolding mutex_init mutex_lock sys_sched_yield list_init task_dispatch task_set_block
    task_set_ready list_remove list_insert_last block_on task_next_run
first_run =
    later (later (later begin (locks (omega arith) (omega arith))) (yields (omega arith)))
      (locks (omega arith) (omega arith))

mutual_exclusion_example : Excludes layout (after_lock (after_yield first))
mutual_exclusion_example =
    mutual_exclusion layout waiting (task_a ∷ task_b ∷ []) [] (after_lock (after_yield first))
      nobody-Blocking refl (omega arith) first_run

-- The second task owns the mutex for which the third waits.
abbrev held_by_b : System
held_by_b = record {
  sched = waiting;
  mutex = owned_by task_b;
  depth = λ a. if a == task_b then 1 else if a == task_c then 1 else 0;
}

held_by_b-Owned : Owned layout held_by_b task_b [] (task_c ∷ [])
held_by_b-Owned = record {
  before = task_a ∷ [];
  behind = [];
  sound = record {
    guarded = owned_by_b;
    current = refl;
    room = omega arith;
    owner_depth = λ h. refl;
    waiter_depth = λ t i. ground arith;
    owner_inside = λ t (d, o). ground arith;
  };
  owner = refl;
  held = omega arith;
}

waiter_served_example :
    (n : ℕ) × ((turns n held_by_b).sched.curr_task ≡ task_c)
    × ((turns n held_by_b).mutex.owner ≡ task_c)
waiter_served_example = waiter_served layout held_by_b task_b [] [] task_c [] held_by_b-Owned
