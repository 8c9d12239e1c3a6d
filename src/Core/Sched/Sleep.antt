-- ===== src/Core/Sched/Sleep.antt =====
-- task_set_sleep, task_set_wakeup and sys_msleep of source/kernel/core/task.c.
use start.Base.{
  ℕ, ◌+◌, ◌*◌, ◌≤◌, ◌<◌, ◌^◌, ◌≡◌, ◌≢◌, sym, ap, subst, ◌∙◌, arith, false, List, [], ◌∷◌, ◌++◌,
  ◌==◌, Ptr,
}
use start.Tools.LinkedList.Links.{length, ◌∉◌, has-append, ne_of_mem}
use start.Tools.LinkedList.Insert.{insert_last-IsList}
use start.Tools.LinkedList.Remove.{remove-IsList}
use start.Core.Sched.{
  Sched, run_node, task_set_block, task_set_sleep, task_set_wakeup, task_dispatch, sleep_ticks_of,
  sys_msleep,
}
use start.Core.Sched.Queue.{
  Queues, Runs, task_of, IsList-frame, not_mem_cons, set_block-Queues, set_block_kept,
  dispatch-head, dispatch_idle,
}
use start.Core.Sched.Yield.{Turn}

-- A task that is put to sleep goes to the end of the sleep list.
pub set_sleep-Queues :
    (k : Sched) (task ticks : ℕ) (rs ss : List Ptr)
    → Queues k rs ss
    → ticks ≢ 0
    → run_node task ∉ rs
    → run_node task ∉ ss
    → length ss + 1 < 2 ^ 31
    → Queues (task_set_sleep k task ticks) rs (ss ++ run_node task ∷ [])
unfolding task_set_sleep
set_sleep-Queues k task ticks rs ss q some_ticks out out' short =
    let e : (ticks == 0) ≡ false = ground arith in
    let (is, frame) =
      insert_last-IsList k.nodes k.sleep_list (run_node task) (omega arith) ss q.sleepers out'
        short in
    rw e (record {
      readies =
          IsList-frame k.nodes _ k.ready_list rs
            (λ a i. frame a (not_mem_cons a _ ss rs q.apart out i)) q.readies;
      sleepers = is;
      apart = λ a i. ground (
        arith,
        has-append a ss (run_node task ∷ []),
        q.apart a,
        ne_of_mem (run_node task) a rs out i,
      );
    })

-- A task that is woken leaves the sleep list.
pub set_wakeup-Queues :
    (k : Sched) (task : Ptr) (rs ps zs : List Ptr)
    → Queues k rs (ps ++ run_node task ∷ zs)
    → Queues (task_set_wakeup k task) rs (ps ++ zs)
unfolding task_set_wakeup
set_wakeup-Queues k task rs ps zs q =
    let (is, frame) = remove-IsList k.nodes k.sleep_list ps (run_node task) zs q.sleepers in
    record {
      readies = IsList-frame k.nodes _ k.ready_list rs (λ a i. frame a (q.apart a i)) q.readies;
      sleepers = is;
      apart = λ a i.
          ground (arith, has-append a ps zs, has-append a ps (run_node task ∷ zs), q.apart a);
    }

-- The task that runs when `rs` are ready.
abbrev pub next_of : Ptr → List Ptr → Ptr
next_of idle [] = idle
next_of idle (r ∷ rs) = task_of r

pub dispatch_next :
    (k : Sched) (rs ss : List Ptr)
    → Queues k rs ss
    → Runs (next_of k.idle_task rs) rs ss k (task_dispatch k).0
dispatch_next k [] ss q = dispatch_idle k ss q
dispatch_next k (r ∷ rs) ss q = dispatch-head k r rs ss q

dispatch_ticks :
    (k : Sched) (p : Ptr) → ((task_dispatch k).0.tasks p).sleep_ticks ≡ (k.tasks p).sleep_ticks
unfolding task_dispatch
dispatch_ticks k p = ground arith

set_sleep_kept :
    (k : Sched) (task ticks : ℕ)
    → ((task_set_sleep k task ticks).curr_task ≡ k.curr_task)
      × ((task_set_sleep k task ticks).idle_task ≡ k.idle_task)
      × (ticks ≢ 0 → ((task_set_sleep k task ticks).tasks task).sleep_ticks ≡ ticks)
unfolding task_set_sleep
set_sleep_kept k task ticks = ground arith

-- What is left of `sys_msleep` once the current task and the number of ticks are named.
sleep_for : Sched → Ptr → ℕ → Sched
sleep_for k c ticks = (task_dispatch (task_set_sleep (task_set_block k c) c ticks)).0

sleep_for-Runs :
    (k : Sched) (c ticks : ℕ) (rs ss : List Ptr)
    → c ≢ k.idle_task
    → Queues k (run_node c ∷ rs) ss
    → ticks ≢ 0
    → length ss + 1 < 2 ^ 31
    → Runs (next_of k.idle_task rs) rs (ss ++ run_node c ∷ []) k (sleep_for k c ticks)
      × (((sleep_for k c ticks).tasks c).sleep_ticks ≡ ticks)
unfolding sleep_for
sleep_for-Runs k c ticks rs ss busy q some_ticks short =
    let b = set_block-Queues k c busy [] rs ss q in
    let (_, idle_b) = set_block_kept k c busy in
    let out = q.readies.links.3 in
    let s =
      set_sleep-Queues (task_set_block k c) c ticks rs ss b some_ticks out
        (q.apart _ (ground arith)) short in
    let (_, idle_s, got) = set_sleep_kept (task_set_block k c) c ticks in
    let (q', curr, idle) = dispatch_next (task_set_sleep (task_set_block k c) c ticks) rs _ s in
    (
      (q', curr ∙ ap (λ i. next_of i rs) (idle_s ∙ idle_b), idle ∙ idle_s ∙ idle_b),
      dispatch_ticks (task_set_sleep (task_set_block k c) c ticks) c ∙ got some_ticks,
    )

sleep_for_zero :
    (k : Sched) (c : Ptr) (rs ss : List Ptr)
    → c ≢ k.idle_task
    → Queues k (run_node c ∷ rs) ss
    → Queues (sleep_for k c 0) rs ss
unfolding sleep_for task_set_sleep
sleep_for_zero k c rs ss busy q =
    (dispatch_next (task_set_block k c) rs ss (set_block-Queues k c busy [] rs ss q)).0

msleep_lem : (k : Sched) (ms : ℕ) → sys_msleep k ms ≡ sleep_for k k.curr_task (sleep_ticks_of ms)
unfolding sys_msleep sleep_for
msleep_lem k ms =
    ap
      (λ c. (task_dispatch (task_set_sleep (task_set_block k k.curr_task) c (sleep_ticks_of ms))).0)
      same
  where
    same : (task_set_block k k.curr_task).curr_task ≡ k.curr_task
    same = ground arith

-- While the rounding does not wrap, the ticks of a sleep are at least one, last at least the time
-- asked for, and less than one tick longer from ten milliseconds on.
pub sleep_ticks_bounds :
    (ms : ℕ)
    → ms + 9 < 2 ^ 32
    → (0 < sleep_ticks_of ms)
      × (ms ≤ 10 * sleep_ticks_of ms)
      × (10 ≤ ms → 10 * sleep_ticks_of ms < ms + 10)
unfolding sleep_ticks_of
sleep_ticks_bounds ms h = ground arith

sleep_ticks_wrap : (ms : ℕ) → ms < 2 ^ 32 → 2 ^ 32 ≤ ms + 9 → sleep_ticks_of ms ≡ 0
unfolding sleep_ticks_of
sleep_ticks_wrap ms h h' = ground arith

module _ (k : Sched) (r : Ptr) (rs ss : List Ptr) (ms : ℕ) (t : Turn k (r ∷ rs) ss) where
  own : run_node k.curr_task ≡ r
  own = ap run_node t.current ∙ t.runnable.0.0

  busy : k.curr_task ≢ k.idle_task
  busy e = t.runnable.0.1 (sym t.current ∙ e)

  front : Queues k (run_node k.curr_task ∷ rs) ss
  front = subst (λ x. Queues k (x ∷ rs) ss) (sym own) t.queues

  -- sys_msleep by the current task moves it from the front of the ready list to the end of the
  -- sleep list with its number of ticks, and the next ready task runs, or the idle task; for
  -- lengths whose rounding does not wrap.
  pub msleep-Runs :
      ms + 9 < 2 ^ 32
      → length ss + 1 < 2 ^ 31
      → Runs (next_of k.idle_task rs) rs (ss ++ r ∷ []) k (sys_msleep k ms)
        × (((sys_msleep k ms).tasks k.curr_task).sleep_ticks ≡ sleep_ticks_of ms)
  msleep-Runs h short =
      let some_ticks : sleep_ticks_of ms ≢ 0 = omega (arith, sleep_ticks_bounds ms h) in
      rw msleep_lem (
        subst
          (λ x.
            Runs (next_of k.idle_task rs) rs (ss ++ x ∷ []) k
              (sleep_for k k.curr_task (sleep_ticks_of ms))
            × (((sleep_for k k.curr_task (sleep_ticks_of ms)).tasks k.curr_task).sleep_ticks
                ≡ sleep_ticks_of ms))
          own (sleep_for-Runs k k.curr_task (sleep_ticks_of ms) rs ss busy front some_ticks short))

  -- sys_msleep with one of the nine greatest lengths of a uint32_t takes the current task from the
  -- ready list and puts it into no other, so that it stands in neither.
  pub msleep_lost :
      ms < 2 ^ 32 → 2 ^ 32 ≤ ms + 9 → Queues (sys_msleep k ms) rs ss × (r ∉ rs) × (r ∉ ss)
  msleep_lost h wrap = (
    rw (msleep_lem, sleep_ticks_wrap ms h wrap) (sleep_for_zero k k.curr_task rs ss busy front),
    t.queues.readies.links.3,
    t.queues.apart r (ground arith),
  )
