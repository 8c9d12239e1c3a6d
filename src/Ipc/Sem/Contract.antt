-- ===== src/Ipc/Sem/Contract.antt =====
-- What sem_wait and sem_notify of source/kernel/ipc/sem.c promise: the semaphore's value, its count less
-- the tasks that wait, goes down by one with each wait and up by one with each notify.
use start.Base.{
  ◌+◌, ◌-◌, ◌<◌, ◌^◌, ◌≡◌, ◌≢◌, ◌⊎◌, inl, inr, refl, sym, subst, arith, true, false, Bool-cases,
  List, [], ◌∷◌, ◌++◌, ◌==◌, sub32, add32, Ptr,
}
use start.Tools.LinkedList.Links.{length}
use start.Core.Sched.{Sched, task_dispatch}
use start.Ipc.Wait.{block_on, wake_first}
use start.Ipc.Wait.Layout.{Layout}
use start.Ipc.Wait.Queue.{
  Blocking, next_ready, block_on-Blocking, wake_first-Blocking, dispatch-Blocking,
}
use start.Ipc.Sem.{Sem, is_positive, sem_wait, sem_notify}

-- The semaphore among the tasks: nobody waits while there is a permit.
pub record Counted (m : Layout) (k : Sched) (s : Sem) (ts ss ws : List Ptr) : Type 0 where
  pub blocking : Blocking m k s.wait_list ts ss ws
  pub balance : s.count ≢ 0 → ws ≡ []
  pub small : s.count < 2 ^ 31

wait_taken :
    (k : Sched) (s : Sem)
    → s.count ≢ 0
    → s.count < 2 ^ 31
    → sem_wait k s ≡ (k, record s { count = s.count - 1 })
unfolding sem_wait
wait_taken k s h h' =
    let t : is_positive s.count ≡ true = ground arith in
    let w : sub32 s.count 1 ≡ s.count - 1 = omega arith in rw (t, w)

wait_blocked :
    (k : Sched) (s : Sem)
    → s.count ≡ 0
    → sem_wait k s
      ≡ ((block_on k s.wait_list).0, record s { wait_list = (block_on k s.wait_list).1 })
unfolding sem_wait
wait_blocked k s h = let t : is_positive s.count ≡ false = ground arith in rw t

notify_none :
    (k : Sched) (s : Sem)
    → s.wait_list.count ≡ 0
    → s.count + 1 < 2 ^ 31
    → sem_notify k s ≡ (k, record s { count = s.count + 1 })
unfolding sem_notify
notify_none k s h room =
    let t : (s.wait_list.count == 0) ≡ true = ground arith in
    let w : add32 s.count 1 ≡ s.count + 1 = omega arith in rw (t, w)

notify_some :
    (k : Sched) (s : Sem)
    → s.wait_list.count ≢ 0
    → let (k', l, _) = wake_first k s.wait_list in
      sem_notify k s ≡ ((task_dispatch k').0, record s { wait_list = l })
unfolding sem_notify
notify_some k s h = let t : (s.wait_list.count == 0) ≡ false = ground arith in rw t

module _ (m : Layout) (k : Sched) (s : Sem) (t : Ptr) (ts ss ws : List Ptr)
    (g : Counted m k s (t ∷ ts) ss ws) (c : k.curr_task ≡ t) where
  -- A permit was there: the current task takes it and runs on.
  abbrev pub Takes : Sched × Sem → Type 0
  Takes (k', s') = (k' ≡ k) × (s'.count + 1 ≡ s.count) × Counted m k' s' (t ∷ ts) ss ws

  -- None was there: the current task waits behind the others, and the next ready task runs.
  abbrev pub Waits : Sched × Sem → Type 0
  Waits (k', s') =
      (s'.count ≡ s.count)
      × (k'.curr_task ≡ next_ready m.idle ts)
      × Counted m k' s' ts ss (ws ++ t ∷ [])

  -- sem_wait takes a permit where there is one, and otherwise puts the current task at the end of
  -- the wait list while the next ready task runs; nobody waits while there is a permit.
  pub wait-Counted :
      length ws + 1 < 2 ^ 31
      → ((s.count ≢ 0) × Takes (sem_wait k s)) ⊎ ((s.count ≡ 0) × Waits (sem_wait k s))
  wait-Counted room = elim (Bool-cases (s.count == 0)) [
    | inl z ↦
        let e : s.count ≡ 0 = ground arith in
        let (b, next) = block_on-Blocking m k s.wait_list t ts ss ws g.blocking room c in
        inr (
          e,
          subst Waits (sym (wait_blocked k s e))
              (refl, next, record { blocking = b; balance = λ h. absurd (h e); small = g.small }),
        )
    | inr nz ↦
        let h : s.count ≢ 0 = ground arith in
        inl (
          h,
          subst Takes (sym (wait_taken k s h g.small)) (
            refl,
            omega arith,
            record {
              blocking = g.blocking;
              balance = λ _. g.balance h;
              small = omega (arith, g.small);
            },
          ),
        )
  ]

module _ (m : Layout) (k : Sched) (s : Sem) (t : Ptr) (ts ss : List Ptr) (c : k.curr_task ≡ t) where
  -- Nobody waited: there is one permit more.
  abbrev pub Deposits : Sched × Sem → Type 0
  Deposits (k', s') = (k' ≡ k) × (s'.count ≡ s.count + 1) × Counted m k' s' (t ∷ ts) ss []

  -- The first waiter has the permit: it is ready, behind the others, and the current task runs on.
  abbrev pub Grants : Ptr → List Ptr → Sched × Sem → Type 0
  Grants w ws (k', s') =
      (s'.count ≡ s.count) × (k'.curr_task ≡ t) × Counted m k' s' ((t ∷ ts) ++ w ∷ []) ss ws

  -- A permit goes to the first waiter, or to the count where nobody waits.
  abbrev pub Notifies : List Ptr → Sched × Sem → Type 0
  Notifies [] r = Deposits r
  Notifies (w ∷ ws) r = Grants w ws r

  -- sem_notify makes the task that has waited longest ready behind the others, or counts one
  -- permit more where nobody waits; the current task runs on and nobody waits while there is a
  -- permit.
  pub notify-Counted :
      (ws : List Ptr)
      → Counted m k s (t ∷ ts) ss ws
      → s.count + 1 < 2 ^ 31
      → length (t ∷ ts) + 1 < 2 ^ 31
      → Notifies ws (sem_notify k s)
  notify-Counted [] g room room' =
      subst (Notifies []) (sym (notify_none k s g.blocking.waiting.count room))
        (refl, refl, record { blocking = g.blocking; balance = λ _. refl; small = room })
  notify-Counted (w ∷ ws) g room room' =
      let b = g.blocking in
      let some_waiter : s.wait_list.count ≢ 0 = omega (arith, b.waiting.count) in
      let (_, woken, _) = wake_first-Blocking m k s.wait_list w (t ∷ ts) ss ws b room' in
      let (k', l, _) = wake_first k s.wait_list in
      let (b', curr) = dispatch-Blocking m k' l (t ∷ ts ++ w ∷ []) ss ws woken in
      subst (Notifies (w ∷ ws)) (sym (notify_some k s some_waiter)) (
        refl,
        curr,
        record { blocking = b'; balance = λ h. absurd (cc (g.balance h)); small = g.small },
      )
