-- ===== src/Core/Sched/TimeTick.antt =====
-- task_time_tick of source/kernel/core/task.c as a whole: the timer interrupt's work.
use start.Base.{
  ℕ, ◌+◌, ◌<◌, ◌^◌, ◌≡◌, ◌≢◌, sym, ap, subst, ◌∙◌, arith, Bool, true, some, List, [], ◌∷◌, ◌++◌,
  ◌==◌, Ptr,
}
use start.Tools.LinkedList.{list_first}
use start.Tools.LinkedList.Links.{length, ne_of_mem}
use start.Core.Sched.{
  Sched, run_node, task_next_run, task_dispatch, tick_sleepers, tick_slice, tick_rest,
  task_time_tick, Ticked, ran, left, new_slice, task_set_ready, task_set_block,
}
use start.Core.Sched.Queue.{Queues, Runs, task_of, next_run-head}
use start.Core.Sched.Yield.{AllRunnable, Turn, rotate, Turn-over, to_end, to_end-Queues}
use start.Core.Sched.Slice.{slice_left, tick_slice_over, set_task-Turn}
use start.Core.Sched.Sleep.{next_of, dispatch_next}
use start.Core.Sched.Tick.{woken, asleep, sleepers-Ends}

-- The tick ran through, and leaves these queues with the next ready task running.
abbrev pub RanWith : Sched → List Ptr → List Ptr → Ticked → Type 0
RanWith k rs ss r = (k' : Sched) × (r ≡ ran k') × Runs (next_of k.idle_task rs) rs ss k k'

tick_rest-some :
    (fuel : ℕ) (k k' : Sched)
    → tick_sleepers fuel k (list_first k.sleep_list) ≡ some k'
    → tick_rest fuel k ≡ ran (task_dispatch k').0
unfolding tick_rest
tick_rest-some fuel k k' e = rw (e, tick_rest)

-- The rest of a tick, from the sleep list on.
pub tick_rest-RanWith :
    (fuel : ℕ) (k : Sched) (rs ss : List Ptr)
    → length ss < fuel
    → Queues k rs ss
    → AllRunnable k.idle_task ss
    → length rs + length ss < 2 ^ 31
    → RanWith k (rs ++ woken k.tasks ss) (asleep k.tasks ss) (tick_rest fuel k)
unfolding list_first
tick_rest-RanWith fuel k rs ss h q all room =
    let (k', e, q', curr, idle) = sleepers-Ends fuel k rs [] ss h q all room in
    let first = ap (tick_sleepers fuel k) q.sleepers.first ∙ e in
    let (q'', curr', idle') = dispatch_next k' _ _ q' in
    (
      (task_dispatch k').0,
      tick_rest-some fuel k k' first,
      (q'', curr' ∙ ap (λ i. next_of i (rs ++ woken k.tasks ss)) idle, idle' ∙ idle),
    )

time_tick_left :
    (fuel : ℕ) (k k' : Sched) → tick_slice k ≡ (k', true) → task_time_tick fuel k ≡ left k'
unfolding task_time_tick
time_tick_left fuel k k' e = rw (e, task_time_tick)

dispatch_switches : (k : Sched) → task_next_run k ≢ k.curr_task → (task_dispatch k).1 ≡ true
unfolding task_dispatch
dispatch_switches k ne = ground arith

to_end_curr : (k : Sched) (c : Ptr) → (to_end k c).curr_task ≡ k.curr_task
unfolding to_end task_set_block task_set_ready
to_end_curr k c = ground arith

Turn-switches :
    (k : Sched) (r s : Ptr) (rs ss : List Ptr)
    → Turn k (r ∷ s ∷ rs) ss
    → (task_dispatch (to_end k k.curr_task)).1 ≡ true
Turn-switches k r s rs ss t = dispatch_switches (to_end k c) λ e.
    let at : task_of s ≡ task_of r =
      sym (next_run-head (to_end k c) s (rs ++ run_node c ∷ []) ss moved.0)
      ∙ e
      ∙ to_end_curr k c
      ∙ t.current in
    ne_of_mem r s (s ∷ rs) t.queues.readies.links.3 (ground arith)
      (sym t.runnable.0.0 ∙ ap run_node (sym at) ∙ t.runnable.1.0.0)
  where
    c : Ptr
    c = k.curr_task

    own : run_node c ≡ r
    own = ap run_node t.current ∙ t.runnable.0.0

    moved :
        Queues (to_end k c) (s ∷ rs ++ run_node c ∷ []) ss × ((to_end k c).idle_task ≡ k.idle_task)
    moved =
        to_end-Queues k c (s ∷ rs) ss (λ e. t.runnable.0.1 (sym t.current ∙ e))
          (subst (λ x. Queues k (x ∷ s ∷ rs) ss) (sym own) t.queues)

-- No task loses a tick of its sleep while the slice is handled.
ticks_kept :
    (k : Sched) (c p : Ptr)
    → ((task_dispatch (to_end (new_slice k c) c)).0.tasks p).sleep_ticks ≡ (k.tasks p).sleep_ticks
unfolding task_dispatch to_end task_set_block task_set_ready
ticks_kept k c p = ground arith

-- A timer tick that ends the slice of the current task while another is ready leaves for that task
-- before it comes to the sleep list: the ready list has turned by one and no task has lost a tick
-- of its sleep.
pub time_tick-left :
    (k : Sched) (r s : Ptr) (rs ss : List Ptr) (fuel : ℕ)
    → Turn k (r ∷ s ∷ rs) ss
    → (slice_left k == 0) ≡ true
    → (k' : Sched) × (task_time_tick fuel k ≡ left k')
      × Turn k' (rotate (r ∷ s ∷ rs)) ss
      × ((p : Ptr) → (k'.tasks p).sleep_ticks ≡ (k.tasks p).sleep_ticks)
time_tick-left k r s rs ss fuel t e = (
  step.0,
  time_tick_left fuel k step.0
      (tick_slice_over k e ∙ (λ i. (step.0, Turn-switches (new_slice k c) r s rs ss t' i))),
  Turn-over (new_slice k c) r (s ∷ rs) ss t',
  ticks_kept k c,
)
  where
    c : Ptr
    c = k.curr_task

    step : Sched × Bool
    step = task_dispatch (to_end (new_slice k c) c)

    t' : Turn (new_slice k c) (r ∷ s ∷ rs) ss
    t' = set_task-Turn k _ _ _ ss t
