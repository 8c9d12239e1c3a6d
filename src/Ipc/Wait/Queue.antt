-- ===== src/Ipc/Wait/Queue.antt =====
-- The wait lists of source/kernel/ipc as queues of tasks, beside the ready and the sleep list.
use start.Base.{
  ◌+◌, ◌<◌, ◌^◌, ◌≡◌, ◌≢◌, refl, sym, ap, subst, ◌∙◌, arith, Bool-cases, inl, inr, List, [], ◌∷◌,
  ◌++◌, ◌==◌, Ptr,
}
use start.Tools.LinkedList.{LinkedList, list_insert_last, list_remove_first}
use start.Tools.LinkedList.Links.{length, has, ◌∈◌, ◌∉◌, IsList, ne_of_mem, has-append}
use start.Tools.LinkedList.Insert.{insert_last-IsList}
use start.Tools.LinkedList.Remove.{remove_first-IsList}
use start.Core.Sched.{
  Sched, run_node, wait_node, wait_offset, list_node_parent, task_set_block, task_set_ready,
  task_dispatch,
}
use start.Core.Sched.Queue.{
  Queues, Queues-frame, IsList-frame, set_block-Queues, set_block-Frame, set_block_kept,
  set_ready-Queues, set_ready-Frame, set_ready_kept, dispatch_nodes,
}
use start.Core.Sched.Sleep.{next_of, dispatch_next}
use start.Ipc.Wait.{block_on, wake_first}
use start.Ipc.Wait.Layout.{
  Layout, runs, waits, runs-append, waits-append, AllTasks, AllTasks-append, parent-run,
  parent-wait, mem-runs, mem-waits, not-mem_of_runs, not-mem_of_waits, runs-apart-waits,
  waits-apart-runs, length-runs, length-waits,
}

-- The tasks `ts` are ready, `ss` sleep and `ws` wait on the list `l`; a task that waits is neither
-- ready nor asleep.
pub record Blocking (m : Layout) (k : Sched) (l : LinkedList) (ts ss ws : List Ptr) : Type 0 where
  pub queues : Queues k (runs ts) (runs ss)
  pub waiting : IsList k.nodes l (waits ws)
  pub ready_tasks : AllTasks m ts
  pub sleep_tasks : AllTasks m ss
  pub wait_tasks : AllTasks m ws
  pub idle : k.idle_task ≡ m.idle
  pub apart : (t : Ptr) → t ∈ ws → (t ∉ ts) × (t ∉ ss)

-- The task that runs when `ts` are ready.
abbrev pub next_ready : Ptr → List Ptr → Ptr
next_ready idle [] = idle
next_ready idle (t ∷ ts) = t

next_of-runs :
    (m : Layout) (idle : Ptr) (ts : List Ptr)
    → AllTasks m ts
    → next_of idle (runs ts) ≡ next_ready idle ts
next_of-runs m idle [] h = refl
next_of-runs m idle (t ∷ ts) (h, hs) = parent-run m t h

pub dispatch-Blocking :
    (m : Layout) (k : Sched) (l : LinkedList) (ts ss ws : List Ptr)
    → Blocking m k l ts ss ws
    → Blocking m (task_dispatch k).0 l ts ss ws
      × ((task_dispatch k).0.curr_task ≡ next_ready m.idle ts)
dispatch-Blocking m k l ts ss ws b =
    let (q, curr, idle) = dispatch_next k (runs ts) (runs ss) b.queues in
    (
      record {
        queues = q;
        waiting = subst (λ h. IsList h l (waits ws)) (sym (dispatch_nodes k)) b.waiting;
        ready_tasks = b.ready_tasks;
        sleep_tasks = b.sleep_tasks;
        wait_tasks = b.wait_tasks;
        idle = idle ∙ b.idle;
        apart = b.apart;
      },
      curr ∙ next_of-runs m k.idle_task ts b.ready_tasks ∙ ap (λ i. next_ready i ts) b.idle,
    )

-- The state before the dispatch of `block_on`, for the task `t`.
parked : Sched → LinkedList → Ptr → Sched × LinkedList
parked k l t =
    let blocked = task_set_block k t in
    let (nodes, l') = list_insert_last blocked.nodes l (wait_node t) in
    (record blocked { nodes = nodes }, l')

module _ (m : Layout) (k : Sched) (l : LinkedList) (t : Ptr) (ts ss ws : List Ptr)
    (b : Blocking m k l (t ∷ ts) ss ws) where
  pub is_busy : t ≢ k.idle_task
  is_busy e = m.busy t b.ready_tasks.0 (e ∙ b.idle)

  pub not_waiting : t ∉ ws
  not_waiting = elim (Bool-cases (has t ws)) [
    | inl i ↦ absurd (ne_of_mem t t (t ∷ ts) (b.apart t i).0 (ground arith) refl)
    | inr o ↦ o
  ]

  pub blocked_waiting : IsList (task_set_block k t).nodes l (waits ws)
  blocked_waiting =
      IsList-frame k.nodes _ l (waits ws)
        (λ a i.
          set_block-Frame k t is_busy [] (runs ts) (runs ss) b.queues a
            (runs-apart-waits m (t ∷ ts) ws b.ready_tasks b.wait_tasks a i))
        b.waiting

  parked_apart : (u : Ptr) → u ∈ ws ++ t ∷ [] → (u ∉ ts) × (u ∉ ss)
  parked_apart u i = elim (Bool-cases (u == t)) [
    | inl e ↦
        let same : t ≡ u = ground arith in
        subst (λ x. (x ∉ ts) × (x ∉ ss)) same
          (
            not-mem_of_runs t ts b.queues.readies.links.3,
            not-mem_of_runs t ss (b.queues.apart (run_node t) (ground arith)),
          )
    | inr ne ↦
        let (out, out') = b.apart u (ground (arith, has-append u ws (t ∷ []))) in
        (ground arith, out')
  ]

  parked-Blocking :
      length ws + 1 < 2 ^ 31 → let (k', l') = parked k l t in Blocking m k' l' ts ss (ws ++ t ∷ [])
  unfolding parked
  parked-Blocking room =
      let others : AllTasks m (t ∷ ws) = (b.ready_tasks.0, b.wait_tasks) in
      let (is, f) =
        insert_last-IsList (task_set_block k t).nodes l (wait_node t) (omega arith) (waits ws)
          blocked_waiting (mem-waits t ws not_waiting) (omega (arith, length-waits ws)) in
      record {
        queues =
            Queues-frame (task_set_block k t) _ (runs ts) (runs ss)
              (λ a i. f a (waits-apart-runs m ts (t ∷ ws) b.ready_tasks.1 others a i))
              (λ a i. f a (waits-apart-runs m ss (t ∷ ws) b.sleep_tasks others a i))
              (set_block-Queues k t is_busy [] (runs ts) (runs ss) b.queues);
        waiting = subst (IsList _ _) (sym (waits-append ws (t ∷ []))) is;
        ready_tasks = b.ready_tasks.1;
        sleep_tasks = b.sleep_tasks;
        wait_tasks = AllTasks-append m ws (t ∷ []) b.wait_tasks (b.ready_tasks.0, tt);
        idle = (set_block_kept k t is_busy).1 ∙ b.idle;
        apart = λ u i. parked_apart u i;
      }

block_on_lem :
    (k : Sched) (l : LinkedList)
    → block_on k l ≡ ((task_dispatch (parked k l k.curr_task).0).0, (parked k l k.curr_task).1)
unfolding block_on parked
block_on_lem k l = refl

-- Blocking takes the current task from the front of the ready list to the end of the wait list, and
-- the next ready task runs.
pub block_on-Blocking :
    (m : Layout) (k : Sched) (l : LinkedList) (t : Ptr) (ts ss ws : List Ptr)
    → Blocking m k l (t ∷ ts) ss ws
    → length ws + 1 < 2 ^ 31
    → k.curr_task ≡ t
    → let (k', l') = block_on k l in
      Blocking m k' l' ts ss (ws ++ t ∷ []) × (k'.curr_task ≡ next_ready m.idle ts)
block_on-Blocking m k l t ts ss ws b room c = rw block_on_lem (
    subst
      (λ c.
        Blocking m (task_dispatch (parked k l c).0).0 (parked k l c).1 ts ss (ws ++ t ∷ [])
        × ((task_dispatch (parked k l c).0).0.curr_task ≡ next_ready m.idle ts))
      (sym c)
      (dispatch-Blocking m (parked k l t).0 (parked k l t).1 ts ss (ws ++ t ∷ [])
        (parked-Blocking m k l t ts ss ws b room)))

-- The state after `wake_first` has taken the node out, and the task `w` is made ready.
readied : Sched → LinkedList → Ptr → Sched
readied k l w = task_set_ready (record k { nodes = (list_remove_first k.nodes l).0 }) w

module _ (m : Layout) (k : Sched) (l : LinkedList) (w : Ptr) (ts ss ws : List Ptr)
    (b : Blocking m k l ts ss (w ∷ ws)) where
  unlinked : Sched
  unlinked = record k { nodes = (list_remove_first k.nodes l).0 }

  unlinked-Queues : Queues unlinked (runs ts) (runs ss)
  unfolding unlinked
  unlinked-Queues =
      let (_, left_over) = remove_first-IsList k.nodes l (wait_node w) (waits ws) b.waiting in
      Queues-frame k _ (runs ts) (runs ss)
        (λ a i. left_over.1 a (waits-apart-runs m ts (w ∷ ws) b.ready_tasks b.wait_tasks a i))
        (λ a i. left_over.1 a (waits-apart-runs m ss (w ∷ ws) b.sleep_tasks b.wait_tasks a i))
        b.queues

  waiter_busy : w ≢ k.idle_task
  waiter_busy e = m.busy w b.wait_tasks.0 (e ∙ b.idle)

  pub left_once : w ∉ ws
  left_once = not-mem_of_waits w ws b.waiting.links.3

  readied_apart : (u : Ptr) → u ∈ ws → (u ∉ ts ++ w ∷ []) × (u ∉ ss)
  readied_apart u i =
      let (out, out') = b.apart u (ground arith) in
      let ne = ne_of_mem w u ws left_once i in (ground (arith, has-append u ts (w ∷ [])), out')

  readied-Blocking :
      length ts + 1 < 2 ^ 31
      → Blocking m (readied k l w) (list_remove_first k.nodes l).1 (ts ++ w ∷ []) ss ws
  unfolding unlinked readied
  readied-Blocking room =
      let (_, left_over) = remove_first-IsList k.nodes l (wait_node w) (waits ws) b.waiting in
      let (out, out') = b.apart w (ground arith) in
      let short : length (runs ts) + 1 < 2 ^ 31 = omega (arith, length-runs ts) in
      let fresh = mem-runs w ts out in
      let q =
        set_ready-Queues unlinked w waiter_busy (runs ts) (runs ss) unlinked-Queues fresh
          (mem-runs w ss out') short in
      record {
        queues =
            subst (λ rs. Queues (readied k l w) rs (runs ss)) (sym (runs-append ts (w ∷ []))) q;
        waiting =
            IsList-frame _ _ _ (waits ws)
              (λ a i.
                set_ready-Frame unlinked w waiter_busy (runs ts) (runs ss) unlinked-Queues fresh
                  short a
                  (runs-apart-waits m (w ∷ ts) ws (b.wait_tasks.0, b.ready_tasks) b.wait_tasks.1 a
                    i))
              left_over.0;
        ready_tasks = AllTasks-append m ts (w ∷ []) b.ready_tasks (b.wait_tasks.0, tt);
        sleep_tasks = b.sleep_tasks;
        wait_tasks = b.wait_tasks.1;
        idle = (set_ready_kept unlinked w waiter_busy).1 ∙ b.idle;
        apart = readied_apart;
      }

  readied_curr : (readied k l w).curr_task ≡ k.curr_task
  unfolding readied unlinked
  readied_curr = (set_ready_kept unlinked w waiter_busy).0

wake_first_lem :
    (k : Sched) (l : LinkedList) (w : Ptr)
    → list_node_parent (list_remove_first k.nodes l).2 wait_offset ≡ w
    → wake_first k l ≡ (readied k l w, (list_remove_first k.nodes l).1, w)
unfolding wake_first readied
wake_first_lem k l w e = rw e

-- Waking takes the first task of the wait list to the end of the ready list; the current task runs on.
pub wake_first-Blocking :
    (m : Layout) (k : Sched) (l : LinkedList) (w : Ptr) (ts ss ws : List Ptr)
    → Blocking m k l ts ss (w ∷ ws)
    → length ts + 1 < 2 ^ 31
    → let (k', l', t) = wake_first k l in
      (t ≡ w) × Blocking m k' l' (ts ++ w ∷ []) ss ws × (k'.curr_task ≡ k.curr_task)
wake_first-Blocking m k l w ts ss ws b room =
    let (got, _) = remove_first-IsList k.nodes l (wait_node w) (waits ws) b.waiting in
    let at = ap (λ n. list_node_parent n wait_offset) got ∙ parent-wait m w b.wait_tasks.0 in
    rw (wake_first_lem k l w at)
      (refl, readied-Blocking m k l w ts ss ws b room, readied_curr m k l w ts ss ws b)
