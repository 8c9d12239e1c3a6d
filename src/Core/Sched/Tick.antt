-- ===== src/Core/Sched/Tick.antt =====
-- The loop over the sleep list in task_time_tick of source/kernel/core/task.c: every sleeper loses a
-- tick, and those that have none left move to the ready list, in order.
use start.Base.{
  ℕ, zero, suc, ◌+◌, ◌<◌, ◌^◌, ◌≡◌, ◌≢◌, refl, sym, ap, subst, ◌∙◌, arith, Bool, true, false,
  Option, some, List, [], ◌∷◌, ◌++◌, Bool-cases, inl, inr, if◌then◌else◌, ◌==◌, sub32, Ptr, null,
}
use mathlib.Core.List.{append-nil, append_assoc}
use start.Tools.LinkedList.Links.{
  length, ◌∈◌, ◌∉◌, head_or, Links-split, has-append, length-append, ne_of_mem,
}
use start.Tools.LinkedList.Remove.{apart_sym}
use start.Core.Sched.{
  Sched, Task, run_node, set_task, task_set_ready, task_set_wakeup, tick_sleeper, tick_sleepers,
}
use start.Core.Sched.Queue.{Queues, task_of, set_ready-Queues}
use start.Core.Sched.Yield.{AllRunnable, IsRunnable}
use start.Core.Sched.Sleep.{set_wakeup-Queues}

-- What is left of a sleep after this tick, and whether it is over.
abbrev pub sleep_left : (Ptr → Task) → Ptr → ℕ
sleep_left tasks s = sub32 (tasks (task_of s)).sleep_ticks 1

abbrev pub is_over : (Ptr → Task) → Ptr → Bool
is_over tasks s = sleep_left tasks s == 0

-- The sleepers that a tick wakes, and those that go on sleeping, in order.
abbrev pub woken : (Ptr → Task) → List Ptr → List Ptr
woken tasks [] = []
woken tasks (s ∷ ss) = if is_over tasks s then s ∷ woken tasks ss else woken tasks ss

abbrev pub asleep : (Ptr → Task) → List Ptr → List Ptr
asleep tasks [] = []
asleep tasks (s ∷ ss) = if is_over tasks s then asleep tasks ss else s ∷ asleep tasks ss

-- A node of a proper list stands in it once.
once :
    (k : Sched) (n : Ptr) (rs ps zs : List Ptr)
    → Queues k rs (ps ++ n ∷ zs)
    → (n ∉ rs) × (n ∉ ps ++ zs)
once k n rs ps zs q =
    let (_, (_, _, _, after, _), apart) =
      Links-split k.nodes null ps (n ∷ zs) null q.sleepers.links in
    let before = apart_sym ps (n ∷ zs) apart n (ground arith) in
    (
      apart_sym rs (ps ++ n ∷ zs) q.apart n (ground (arith, has-append n ps (n ∷ zs))),
      ground (arith, before, after, has-append n ps zs),
    )

-- Waking moves a sleeper to the end of the ready list.
wake : Sched → Ptr → Sched
wake k t = task_set_ready (task_set_wakeup k t) t

wake-Queues :
    (k : Sched) (t : Ptr) (rs ps zs : List Ptr)
    → t ≢ k.idle_task
    → Queues k rs (ps ++ run_node t ∷ zs)
    → length rs + 1 < 2 ^ 31
    → Queues (wake k t) (rs ++ run_node t ∷ []) (ps ++ zs)
unfolding wake task_set_wakeup
wake-Queues k t rs ps zs busy q room =
    let (out, out') = once k (run_node t) rs ps zs q in
    set_ready-Queues (task_set_wakeup k t) t busy rs (ps ++ zs) (set_wakeup-Queues k t rs ps zs q)
      out out' room

-- The step for one sleeper.
module _ (k : Sched) (s : Ptr) (rs ps zs : List Ptr) (q : Queues k rs (ps ++ s ∷ zs))
    (own : IsRunnable k.idle_task s) (room : length rs + 1 < 2 ^ 31) where
  sleeper-over :
      is_over k.tasks s ≡ true → Queues (tick_sleeper k (task_of s)) (rs ++ s ∷ []) (ps ++ zs)
  unfolding tick_sleeper wake
  sleeper-over e =
      let k' =
        set_task k (task_of s)
          (record (k.tasks (task_of s)) { sleep_ticks = sleep_left k.tasks s }) in
      let q' : Queues k' rs (ps ++ run_node (task_of s) ∷ zs) =
        subst (λ n. Queues k' rs (ps ++ n ∷ zs)) (sym own.0)
          (record { readies = q.readies; sleepers = q.sleepers; apart = q.apart }) in
      rw e (
        subst (λ n. Queues (wake k' (task_of s)) (rs ++ n ∷ []) (ps ++ zs)) own.0
          (wake-Queues k' (task_of s) rs ps zs own.1 q' room))

  sleeper-going : is_over k.tasks s ≡ false → Queues (tick_sleeper k (task_of s)) rs (ps ++ s ∷ zs)
  unfolding tick_sleeper
  sleeper-going e = rw e (record { readies = q.readies; sleepers = q.sleepers; apart = q.apart })

-- It writes the fields of that task alone, and leaves the current and the idle task.
sleeper_kept :
    (k : Sched) (t p : Ptr)
    → ((tick_sleeper k t).curr_task ≡ k.curr_task)
      × ((tick_sleeper k t).idle_task ≡ k.idle_task)
      × (p ≢ t → ((tick_sleeper k t).tasks p) ≡ k.tasks p)
unfolding tick_sleeper task_set_ready task_set_wakeup
sleeper_kept k t p = ground arith

pub woken-cong :
    (f g : Ptr → Task) (ss : List Ptr)
    → ((s : Ptr) → s ∈ ss → g (task_of s) ≡ f (task_of s))
    → woken g ss ≡ woken f ss
woken-cong f g [] same = refl
woken-cong f g (s ∷ ss) same =
    ground (arith, same s, woken-cong f g ss (λ a i. same a (ground arith)))

pub asleep-cong :
    (f g : Ptr → Task) (ss : List Ptr)
    → ((s : Ptr) → s ∈ ss → g (task_of s) ≡ f (task_of s))
    → asleep g ss ≡ asleep f ss
asleep-cong f g [] same = refl
asleep-cong f g (s ∷ ss) same =
    ground (arith, same s, asleep-cong f g ss (λ a i. same a (ground arith)))

-- Where the loop ends: with these queues, and the same current and idle task.
abbrev pub Ends : Sched → List Ptr → List Ptr → Option Sched → Type 0
Ends k rs ss r =
    (k' : Sched) × (r ≡ some k')
    × Queues k' rs ss
    × (k'.curr_task ≡ k.curr_task)
    × (k'.idle_task ≡ k.idle_task)

Ends-via :
    (k k' : Sched) (rs rs' ss ss' : List Ptr) (r r' : Option Sched)
    → r' ≡ r
    → rs ≡ rs'
    → ss ≡ ss'
    → k'.curr_task ≡ k.curr_task
    → k'.idle_task ≡ k.idle_task
    → Ends k' rs ss r
    → Ends k rs' ss' r'
Ends-via k k' rs rs' ss ss' r r' er ers ess curr idle (k'', e, q, curr', idle') = (
  k'',
  er ∙ e,
  subst (λ xs. Queues k'' rs' xs) ess (subst (λ xs. Queues k'' xs ss) ers q),
  curr' ∙ curr,
  idle' ∙ idle,
)

pub own_of :
    (idle : Ptr) (zs : List Ptr) (s : Ptr) → AllRunnable idle zs → s ∈ zs → run_node (task_of s) ≡ s
own_of idle [] s all i = cc
own_of idle (z ∷ zs) s ((own, _), all) i = elim (Bool-cases (s == z)) [
  | inl e ↦ let same : z ≡ s = ground arith in subst (λ x. run_node (task_of x) ≡ x) same own
  | inr ne ↦ own_of idle zs s all (ground arith)
]

-- A step for one sleeper does not touch the ticks of the others.
others_kept :
    (k : Sched) (z : Ptr) (zs : List Ptr)
    → z ∉ zs
    → AllRunnable k.idle_task (z ∷ zs)
    → (s : Ptr) → s ∈ zs
    → (tick_sleeper k (task_of z)).tasks (task_of s) ≡ k.tasks (task_of s)
others_kept k z zs out (own, all) s i =
    (sleeper_kept k (task_of z) (task_of s)).2 (λ e.
      ne_of_mem z s zs out i (sym own.0 ∙ ap run_node (sym e) ∙ own_of k.idle_task zs s all i))

sleepers_done : (fuel : ℕ) (k : Sched) → tick_sleepers (suc fuel) k null ≡ some k
unfolding tick_sleepers
sleepers_done fuel k = refl

sleepers_step :
    (fuel : ℕ) (k : Sched) (z : Ptr) (zs : List Ptr)
    → z ≢ null
    → (k.nodes z).next ≡ head_or null zs
    → tick_sleepers (suc fuel) k z
      ≡ tick_sleepers fuel (tick_sleeper k (task_of z)) (head_or null zs)
unfolding tick_sleepers
sleepers_step fuel k z zs nz next = ground arith

AllRunnable-idle : (i j : Ptr) (zs : List Ptr) → j ≡ i → AllRunnable i zs → AllRunnable j zs
AllRunnable-idle i j zs e all = subst (λ x. AllRunnable x zs) (sym e) all

-- With fuel for each sleeper the loop ends: those whose sleep is over are ready, behind the tasks
-- that were, and the others sleep on; both in their order.
pub sleepers-Ends :
    (fuel : ℕ) (k : Sched) (rs ps zs : List Ptr)
    → length zs < fuel
    → Queues k rs (ps ++ zs)
    → AllRunnable k.idle_task zs
    → length rs + length zs < 2 ^ 31
    → Ends k
        (rs ++ woken k.tasks zs)
        (ps ++ asleep k.tasks zs)
        (tick_sleepers fuel k (head_or null zs))
sleepers-Ends zero k rs ps zs h q all room = absurd (omega arith)
sleepers-Ends (suc fuel) k rs ps [] h q all room =
    (k, sleepers_done fuel k, rw (append-nil rs) q, refl, refl)
sleepers-Ends (suc fuel) k rs ps (z ∷ zs) h q (own, all) room =
    let (_, (nz, _, next, _, _), _) = Links-split k.nodes null ps (z ∷ zs) null q.sleepers.links in
    let (_, out) = once k z rs ps zs q in
    let k' = tick_sleeper k (task_of z) in
    let (curr, idle, _) = sleeper_kept k (task_of z) null in
    let out_z : z ∉ zs = ground (arith, has-append z ps zs) in
    let same = others_kept k z zs out_z (own, all) in
    let w = woken-cong k.tasks k'.tasks zs same in
    let a = asleep-cong k.tasks k'.tasks zs same in
    let all' = AllRunnable-idle k.idle_task k'.idle_task zs idle all in
    elim (Bool-cases (is_over k.tasks z)) [
      | inl e ↦ rw e (
          Ends-via k k' _ _ _ _ _ _ (sleepers_step fuel k z zs nz next)
            (append_assoc rs (z ∷ []) _ ∙ ap (λ xs. rs ++ z ∷ xs) w) (ap (λ xs. ps ++ xs) a) curr
            idle
            (sleepers-Ends fuel k' (rs ++ z ∷ []) ps zs (omega arith)
              (sleeper-over k z rs ps zs q own (omega arith) e) all'
              (omega (arith, length-append rs (z ∷ [])))))
      | inr e ↦ rw e (
          Ends-via k k' _ _ _ _ _ _ (sleepers_step fuel k z zs nz next) (ap (λ xs. rs ++ xs) w)
            (append_assoc ps (z ∷ []) _ ∙ ap (λ xs. ps ++ z ∷ xs) a) curr idle
            (sleepers-Ends fuel k' rs (ps ++ z ∷ []) zs (omega arith)
              (subst (λ xs. Queues k' rs xs) (sym (append_assoc ps (z ∷ []) zs))
                (sleeper-going k z rs ps zs q own (omega arith) e))
              all' (omega arith)))
    ]
