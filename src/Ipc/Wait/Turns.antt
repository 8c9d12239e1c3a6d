-- ===== src/Ipc/Wait/Turns.antt =====
-- sys_sched_yield of source/kernel/core/task.c while tasks wait on a list of source/kernel/ipc.
use start.Base.{◌≡◌, ◌≢◌, sym, ap, subst, ◌∙◌, arith, List, [], ◌∷◌, ◌++◌, Ptr}
use start.Tools.LinkedList.{LinkedList}
use start.Tools.LinkedList.Links.{◌∈◌, ◌∉◌, IsList, has-append}
use start.Core.Sched.{Sched, task_set_block, task_dispatch, sys_sched_yield}
use start.Core.Sched.Queue.{Queues, IsList-frame, set_block-Queues, set_block_kept, set_ready-Frame}
use start.Core.Sched.Yield.{to_end, to_end-Queues, yield_alone, yield_many}
use start.Ipc.Wait.Layout.{Layout, runs, waits, runs-append, AllTasks-append, runs-apart-waits}
use start.Ipc.Wait.Queue.{Blocking, next_ready, is_busy, blocked_waiting, dispatch-Blocking}

module _ (m : Layout) (k : Sched) (l : LinkedList) (t : Ptr) (ts ss ws : List Ptr)
    (b : Blocking m k l (t ∷ ts) ss ws) where
  abbrev busy : t ≢ k.idle_task
  busy = is_busy m k l t ts ss ws b

  turned_waiting : IsList (to_end k t).nodes l (waits ws)
  unfolding to_end
  turned_waiting =
      let still : t ≢ (task_set_block k t).idle_task =
        λ e. busy (e ∙ (set_block_kept k t busy).1) in
      IsList-frame (task_set_block k t).nodes _ l (waits ws)
        (λ a i.
          set_ready-Frame (task_set_block k t) t still (runs ts) (runs ss)
            (set_block-Queues k t busy [] (runs ts) (runs ss) b.queues) b.queues.readies.links.3
            (omega (arith, b.queues.readies.short)) a
            (runs-apart-waits m (t ∷ ts) ws b.ready_tasks b.wait_tasks a i))
        (blocked_waiting m k l t ts ss ws b)

  turned_apart : (u : Ptr) → u ∈ ws → (u ∉ ts ++ t ∷ []) × (u ∉ ss)
  turned_apart u i =
      let (out, out') = b.apart u i in (ground (arith, has-append u ts (t ∷ [])), out')

  turned-Blocking : Blocking m (to_end k t) l (ts ++ t ∷ []) ss ws
  turned-Blocking =
      let (q, idle) = to_end-Queues k t (runs ts) (runs ss) busy b.queues in
      record {
        queues = subst (λ rs. Queues (to_end k t) rs (runs ss)) (sym (runs-append ts (t ∷ []))) q;
        waiting = turned_waiting;
        ready_tasks = AllTasks-append m ts (t ∷ []) b.ready_tasks.1 (b.ready_tasks.0, tt);
        sleep_tasks = b.sleep_tasks;
        wait_tasks = b.wait_tasks;
        idle = idle ∙ b.idle;
        apart = turned_apart;
      }

-- Yielding moves the current task to the end of the ready list, and leaves the wait list as it is.
pub yield-Blocking :
    (m : Layout) (k : Sched) (l : LinkedList) (t : Ptr) (ts ss ws : List Ptr)
    → Blocking m k l (t ∷ ts) ss ws
    → k.curr_task ≡ t
    → Blocking m (sys_sched_yield k) l (ts ++ t ∷ []) ss ws
      × ((sys_sched_yield k).curr_task ≡ next_ready m.idle (ts ++ t ∷ []))
yield-Blocking m k l t [] ss ws b c =
    rw (yield_alone k (omega (arith, b.queues.readies.count))) (b, c)
yield-Blocking m k l t (u ∷ us) ss ws b c =
    let q = b.queues.readies in
    let many = yield_many k (omega (arith, q.count)) (omega (arith, q.count, q.short)) in
    rw (many ∙ ap (λ c. (task_dispatch (to_end k c)).0) c) (
      dispatch-Blocking m (to_end k t) l ((u ∷ us) ++ t ∷ []) ss ws
        (turned-Blocking m k l t (u ∷ us) ss ws b))
