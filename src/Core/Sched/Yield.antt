-- ===== src/Core/Sched/Yield.antt =====
-- sys_sched_yield and the end of a time slice in task_time_tick of source/kernel/core/task.c: the
-- ready tasks take turns.
use start.Base.{
  ℕ, zero, suc, ◌<◌, ◌^◌, ◌≡◌, ◌≢◌, refl, sym, ap, subst, ◌∙◌, arith, List, [], ◌∷◌, ◌++◌, Ptr,
  null,
}
use mathlib.Core.List.{append-nil, append_assoc}
use start.Tools.LinkedList.Links.{length, head_or}
use start.Core.Sched.{
  Sched, run_node, task_set_ready, task_set_block, task_dispatch, sys_sched_yield,
}
use start.Core.Sched.Queue.{
  Queues, Runs, task_of, set_ready-Queues, set_block-Queues, set_ready_kept, set_block_kept,
  dispatch-head,
}

-- A node that is the run node of a task other than the idle task.
abbrev pub IsRunnable : Ptr → Ptr → Type 0
IsRunnable idle r = (run_node (task_of r) ≡ r) × (task_of r ≢ idle)

abbrev pub AllRunnable : Ptr → List Ptr → Type 0
AllRunnable idle [] = Unit {0}
AllRunnable idle (r ∷ rs) = IsRunnable idle r × AllRunnable idle rs

AllRunnable-append :
    (idle : Ptr) (xs ys : List Ptr)
    → AllRunnable idle xs
    → AllRunnable idle ys
    → AllRunnable idle (xs ++ ys)
AllRunnable-append idle [] ys p q = q
AllRunnable-append idle (x ∷ xs) ys (h, p) q = (h, AllRunnable-append idle xs ys p q)

-- The front is taken out and put at the end.
unfoldable pub to_end : Sched → Ptr → Sched
to_end k c = task_set_ready (task_set_block k c) c

pub to_end-Queues :
    (k : Sched) (t : Ptr) (zs ss : List Ptr)
    → t ≢ k.idle_task
    → Queues k (run_node t ∷ zs) ss
    → Queues (to_end k t) (zs ++ run_node t ∷ []) ss × ((to_end k t).idle_task ≡ k.idle_task)
unfolding to_end
to_end-Queues k t zs ss busy q =
    let (_, idle) = set_block_kept k t busy in
    let still : t ≢ (task_set_block k t).idle_task = λ e. busy (e ∙ idle) in
    (
      set_ready-Queues (task_set_block k t) t still zs ss (set_block-Queues k t busy [] zs ss q)
          q.readies.links.3 (q.apart (run_node t) (ground arith)) (omega (arith, q.readies.short)),
      (set_ready_kept (task_set_block k t) t still).1 ∙ idle,
    )

-- Where the ready list goes when its front moves to the end.
abbrev pub rotate : List Ptr → List Ptr
rotate [] = []
rotate (r ∷ rs) = rs ++ r ∷ []

-- The state in which the task at the front of `rs` runs.
abbrev pub FrontRuns : List Ptr → List Ptr → Sched → Sched → Type 0
FrontRuns [] ss k k' = ⊥
FrontRuns (r ∷ rs) ss k k' = Runs (task_of r) (r ∷ rs) ss k k'

dispatch-FrontRuns :
    (k k' : Sched) (rs ss : List Ptr)
    → rs ≢ []
    → Queues k' rs ss
    → k'.idle_task ≡ k.idle_task
    → FrontRuns rs ss k (task_dispatch k').0
dispatch-FrontRuns k k' [] ss ne q idle = ne refl
dispatch-FrontRuns k k' (r ∷ rs) ss ne q idle =
    let (q', curr, idle') = dispatch-head k' r rs ss q in (q', curr, idle' ∙ idle)

snoc-ne-nil : (zs : List Ptr) (n : Ptr) → zs ++ n ∷ [] ≢ []
snoc-ne-nil [] n e = cc
snoc-ne-nil (z ∷ zs) n e = cc

requeue-FrontRuns :
    (k : Sched) (t : Ptr) (zs ss : List Ptr)
    → t ≢ k.idle_task
    → Queues k (run_node t ∷ zs) ss
    → FrontRuns (zs ++ run_node t ∷ []) ss k (task_dispatch (to_end k t)).0
requeue-FrontRuns k t zs ss busy q =
    let (q', idle) = to_end-Queues k t zs ss busy q in
    dispatch-FrontRuns k (to_end k t) _ ss (snoc-ne-nil zs (run_node t)) q' idle

-- The current task is at the front of the ready list, which holds tasks other than the idle task.
pub record Turn (k : Sched) (rs ss : List Ptr) : Type 0 where
  pub queues : Queues k rs ss
  pub current : k.curr_task ≡ task_of (head_or null rs)
  pub runnable : AllRunnable k.idle_task rs

FrontRuns-Turn :
    (k k' : Sched) (rs ss : List Ptr)
    → AllRunnable k.idle_task rs
    → FrontRuns rs ss k k'
    → Turn k' rs ss
FrontRuns-Turn k k' [] ss all bad = absurd bad
FrontRuns-Turn k k' (r ∷ rs) ss all (q, curr, idle) = record {
  queues = q;
  current = curr;
  runnable = subst (λ i. AllRunnable i (r ∷ rs)) (sym idle) all;
}

pub Turn-over :
    (k : Sched) (r : Ptr) (zs ss : List Ptr)
    → Turn k (r ∷ zs) ss
    → Turn (task_dispatch (to_end k k.curr_task)).0 (zs ++ r ∷ []) ss
Turn-over k r zs ss t =
    let ((own, busy), others) = t.runnable in
    let front = subst (λ x. Queues k (x ∷ zs) ss) (sym own) t.queues in
    let moved = requeue-FrontRuns k (task_of r) zs ss busy front in
    subst (λ c. Turn (task_dispatch (to_end k c)).0 (zs ++ r ∷ []) ss) (sym t.current)
      (FrontRuns-Turn k _ (zs ++ r ∷ []) ss
        (AllRunnable-append k.idle_task zs (r ∷ []) others ((own, busy), tt))
        (subst (λ x. FrontRuns (zs ++ x ∷ []) ss k (task_dispatch (to_end k (task_of r))).0) own
          moved))

pub yield_alone : (k : Sched) → k.ready_list.count < 2 → sys_sched_yield k ≡ k
unfolding sys_sched_yield
yield_alone k h = ground arith

pub yield_many :
    (k : Sched)
    → 1 < k.ready_list.count
    → k.ready_list.count < 2 ^ 31
    → sys_sched_yield k ≡ (task_dispatch (to_end k k.curr_task)).0
unfolding sys_sched_yield to_end
yield_many k h h' = ground arith

-- Yielding gives the processor to the next ready task and moves the one that yields to the end of
-- the ready list; alone, it goes on.
pub yield-Turn :
    (k : Sched) (rs ss : List Ptr) → Turn k rs ss → Turn (sys_sched_yield k) (rotate rs) ss
yield-Turn k [] ss t = rw (yield_alone k (omega (arith, t.queues.readies.count))) t
yield-Turn k (r ∷ []) ss t = rw (yield_alone k (omega (arith, t.queues.readies.count))) t
yield-Turn k (r ∷ s ∷ rs) ss t =
    let q = t.queues.readies in
    rw (yield_many k (omega (arith, q.count)) (omega (arith, q.count, q.short)))
      (Turn-over k r (s ∷ rs) ss t)

-- `n` yields in a row.
abbrev pub yields : ℕ → Sched → Sched
yields zero k = k
yields (suc n) k = yields n (sys_sched_yield k)

abbrev pub rotates : ℕ → List Ptr → List Ptr
rotates zero rs = rs
rotates (suc n) rs = rotates n (rotate rs)

pub yields-Turn :
    (n : ℕ) (k : Sched) (rs ss : List Ptr) → Turn k rs ss → Turn (yields n k) (rotates n rs) ss
yields-Turn zero k rs ss t = t
yields-Turn (suc n) k rs ss t =
    yields-Turn n (sys_sched_yield k) (rotate rs) ss (yield-Turn k rs ss t)

rotates-append : (xs ys : List Ptr) → rotates (length xs) (xs ++ ys) ≡ ys ++ xs
rotates-append [] ys = sym (append-nil ys)
rotates-append (x ∷ xs) ys =
    ap (rotates (length xs)) (append_assoc xs ys (x ∷ []))
    ∙ rotates-append xs (ys ++ x ∷ [])
    ∙ append_assoc ys (x ∷ []) xs

-- From a state in which the current task is the front of a well-formed ready list, after as many
-- calls of sys_sched_yield as the list has a prefix, the prefix has moved to the end in its order,
-- the task then at the front runs, and the sleep list is as it was.
pub round_robin :
    (k : Sched) (xs ys ss : List Ptr)
    → Turn k (xs ++ ys) ss
    → Turn (yields (length xs) k) (ys ++ xs) ss
round_robin k xs ys ss t =
    subst (λ rs. Turn (yields (length xs) k) rs ss) (rotates-append xs ys)
      (yields-Turn (length xs) k (xs ++ ys) ss t)
