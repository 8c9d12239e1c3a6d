-- ===== src/Core/Sched/Slice.antt =====
-- The time slice in task_time_tick of source/kernel/core/task.c.
use start.Base.{
  ℕ, ◌≡◌, true, false, List, ◌∷◌, Bool-cases, inl, inr, if◌then◌else◌, ◌==◌, sub32, Ptr,
}
use start.Core.Sched.{Sched, Task, set_task, task_dispatch, tick_slice, new_slice}
use start.Core.Sched.Yield.{Turn, rotate, Turn-over, to_end}

-- Writing a task's fields leaves the queues alone.
pub set_task-Turn :
    (k : Sched) (p : Ptr) (t : Task) (rs ss : List Ptr) → Turn k rs ss → Turn (set_task k p t) rs ss
set_task-Turn k p t rs ss h = record {
  queues = record {
    readies = h.queues.readies;
    sleepers = h.queues.sleepers;
    apart = h.queues.apart;
  };
  current = h.current;
  runnable = h.runnable;
}

-- What is left of the current task's slice after this tick.
abbrev pub slice_left : Sched → ℕ
slice_left k = sub32 (k.tasks k.curr_task).slice_ticks 1

pub tick_slice_over :
    (k : Sched)
    → (slice_left k == 0) ≡ true
    → tick_slice k ≡ task_dispatch (to_end (new_slice k k.curr_task) k.curr_task)
unfolding tick_slice to_end
tick_slice_over k e = rw e

pub tick_slice_going :
    (k : Sched)
    → (slice_left k == 0) ≡ false
    → tick_slice k ≡ (
      set_task k k.curr_task (record (k.tasks k.curr_task) { slice_ticks = slice_left k }),
      false,
    )
unfolding tick_slice
tick_slice_going k e = rw e

-- The slice part of a timer tick turns the ready list by one task when the slice of the current
-- task is used up and leaves its order otherwise; the current task is at the front in both cases.
pub tick_slice-Turn :
    (k : Sched) (r : Ptr) (rs ss : List Ptr)
    → Turn k (r ∷ rs) ss
    → Turn (tick_slice k).0 (if slice_left k == 0 then rotate (r ∷ rs) else r ∷ rs) ss
tick_slice-Turn k r rs ss t = elim (Bool-cases (slice_left k == 0)) [
  | inl over ↦
      rw (tick_slice_over k over, over)
        (Turn-over (new_slice k k.curr_task) r rs ss (set_task-Turn k _ _ _ ss t))
  | inr going ↦ rw (tick_slice_going k going, going) (set_task-Turn k _ _ _ ss t)
]
