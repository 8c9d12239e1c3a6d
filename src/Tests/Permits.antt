-- ===== src/Tests/Permits.antt =====
-- The theorem on histories of calls of source/kernel/ipc/sem.c, at the system of Tests/Data.
use start.Base.{refl, arith, [], ◌∷◌}
use start.Tools.LinkedList.{list_init, list_count, list_remove, list_insert_last}
use start.Core.Sched.{sys_sched_yield, task_dispatch, task_set_block, task_set_ready, task_next_run}
use start.Ipc.Wait.{block_on}
use start.Ipc.Wait.Queue.{Blocking}
use start.Ipc.Sem.{sem_init, sem_wait}
use start.Ipc.Sem.History.{
  System, Reach, SomeBalanced, after_wait, after_notify, after_yield, system_of, begin, later,
  waits, notifies, yields, permits_kept,
}
use start.Tests.Data.{layout, waiting, waiting-Blocking, task_a, task_b}

nobody-Blocking : Blocking layout waiting (sem_init 1).wait_list (task_a ∷ task_b ∷ []) [] []
unfolding sem_init list_init
nobody-Blocking = record {
  queues = waiting-Blocking.queues;
  waiting = record { links = tt; first = refl; last = refl; count = refl; short = omega arith };
  ready_tasks = waiting-Blocking.ready_tasks;
  sleep_tasks = tt;
  wait_tasks = tt;
  idle = refl;
  apart = λ t i. cc;
}

-- The first task takes the only permit and yields, the second waits, and the first gives it back.
abbrev both_asked : System
both_asked = after_wait (after_yield (after_wait (system_of waiting 1)))

given_back : Reach layout (system_of waiting 1) (after_notify both_asked)
unfolding sem_init sem_wait sys_sched_yield list_init list_count task_dispatch task_set_block
    task_set_ready list_remove list_insert_last block_on task_next_run
given_back =
    later
      (later (later (later begin (waits (omega arith))) (yields (omega arith)))
        (waits (omega arith)))
      (notifies (omega arith) (omega arith))

permits_kept_example : SomeBalanced layout 1 (after_notify both_asked)
permits_kept_example =
    permits_kept layout waiting 1 (task_a ∷ task_b ∷ []) [] (after_notify both_asked)
      nobody-Blocking refl (omega arith) (omega arith) given_back
