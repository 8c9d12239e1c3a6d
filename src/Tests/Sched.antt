-- ===== src/Tests/Sched.antt =====
-- The theorems on source/kernel/core/task.c, at the system of Tests/Data.
use start.Base.{◌≡◌, ◌+◌, [], ◌∷◌, refl, arith, Ptr}
use start.Tools.LinkedList.Links.{◌∉◌}
use start.Core.Sched.{
  sys_msleep, sleep_ticks_of, task_time_tick, left, Sched, run_node, task_set_ready,
}
use start.Core.Sched.Queue.{Queues, Runs}
use start.Core.Sched.Yield.{Turn, yields, round_robin}
use start.Core.Sched.Sleep.{msleep-Runs, msleep_lost}
use start.Core.Sched.TimeTick.{time_tick-left}
use start.Core.Task.Twice.{set_ready_twice}
use start.Tests.Data.{
  task_c, task_a, task_b, run_a, run_b, run_c, sleeping, sleeping-Turn, ending, ending-Turn,
}

round_robin_example : Turn (yields 1 sleeping) (run_b ∷ run_a ∷ []) (run_c ∷ [])
round_robin_example = round_robin sleeping (run_a ∷ []) (run_b ∷ []) (run_c ∷ []) sleeping-Turn

time_tick-left_example :
    (k' : Sched) × (task_time_tick 2 ending ≡ left k')
    × Turn k' (run_b ∷ run_a ∷ []) (run_c ∷ [])
    × ((p : Ptr) → (k'.tasks p).sleep_ticks ≡ (ending.tasks p).sleep_ticks)
time_tick-left_example = time_tick-left ending run_a run_b [] (run_c ∷ []) 2 ending-Turn refl

msleep-Runs_example :
    Runs task_b (run_b ∷ []) (run_c ∷ run_a ∷ []) sleeping (sys_msleep sleeping 25)
    × (((sys_msleep sleeping 25).tasks task_a).sleep_ticks ≡ sleep_ticks_of 25)
msleep-Runs_example =
    msleep-Runs sleeping run_a (run_b ∷ []) (run_c ∷ []) 25 sleeping-Turn (omega arith)
      (omega arith)

msleep_lost_example :
    Queues (sys_msleep sleeping 0xffff_fffa) (run_b ∷ []) (run_c ∷ [])
    × (run_a ∉ run_b ∷ [])
    × (run_a ∉ run_c ∷ [])
msleep_lost_example =
    msleep_lost sleeping run_a (run_b ∷ []) (run_c ∷ []) 0xffff_fffa sleeping-Turn (omega arith)
      (omega arith)

-- 25 milliseconds are three ticks.
sleep_25 : sleep_ticks_of 25 ≡ 3
unfolding sleep_ticks_of
sleep_25 = refl

-- A task that is not ready yet.
set_ready_twice_example :
    let k' = task_set_ready (task_set_ready sleeping task_c) task_c in
    ((k'.nodes (run_node task_c)).next ≡ run_node task_c)
    × (k'.ready_list.last ≡ run_node task_c)
    × (k'.ready_list.count ≡ sleeping.ready_list.count + 2)
set_ready_twice_example = set_ready_twice sleeping task_c (λ e. omega (arith, e)) (omega arith)
