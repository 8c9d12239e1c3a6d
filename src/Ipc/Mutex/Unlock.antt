-- ===== src/Ipc/Mutex/Unlock.antt =====
-- What mutex_unlock of source/kernel/ipc/mutex.c promises.
use start.Base.{
  ◌+◌, ◌-◌, ◌<◌, ◌^◌, ◌≡◌, ◌≢◌, ◌⊎◌, inl, inr, refl, sym, subst, ◌∙◌, arith, true, false,
  Bool-cases, List, [], ◌∷◌, ◌++◌, ◌==◌, sub32, Ptr, null,
}
use start.Tools.LinkedList.Links.{length, ◌∉◌}
use start.Core.Sched.{Sched, task_dispatch}
use start.Ipc.Wait.{wake_first}
use start.Ipc.Wait.Layout.{Layout}
use start.Ipc.Wait.Queue.{wake_first-Blocking, dispatch-Blocking, left_once}
use start.Ipc.Mutex.{Mutex, hand_over, mutex_unlock}
use start.Ipc.Mutex.Contract.{Guarded}

hand_over_none :
    (k : Sched) (mx : Mutex)
    → mx.wait_list.count ≡ 0
    → hand_over k mx ≡ (k, record { owner = null; locked_count = 0; wait_list = mx.wait_list })
unfolding hand_over
hand_over_none k mx e = let t : (mx.wait_list.count == 0) ≡ true = ground arith in rw t

hand_over_some :
    (k : Sched) (mx : Mutex)
    → mx.wait_list.count ≢ 0
    → let (k', l, w) = wake_first k mx.wait_list in
      hand_over k mx ≡ ((task_dispatch k').0, record { owner = w; locked_count = 1; wait_list = l })
unfolding hand_over
hand_over_some k mx e = let t : (mx.wait_list.count == 0) ≡ false = ground arith in rw t

pub unlock_other : (k : Sched) (mx : Mutex) → mx.owner ≢ k.curr_task → mutex_unlock k mx ≡ (k, mx)
unfolding mutex_unlock
unlock_other k mx e = let u : (mx.owner == k.curr_task) ≡ false = ground arith in rw u

unlock_held :
    (k : Sched) (mx : Mutex)
    → mx.owner ≡ k.curr_task
    → 1 < mx.locked_count
    → mx.locked_count < 2 ^ 31
    → mutex_unlock k mx ≡ (k, record mx { locked_count = mx.locked_count - 1 })
unfolding mutex_unlock
unlock_held k mx e h s =
    let u : (mx.owner == k.curr_task) ≡ true = ground arith in
    let v : (sub32 mx.locked_count 1 == 0) ≡ false = ground arith in
    let w : sub32 mx.locked_count 1 ≡ mx.locked_count - 1 = omega arith in rw (u, v, w)

unlock_last :
    (k : Sched) (mx : Mutex)
    → mx.owner ≡ k.curr_task
    → mx.locked_count ≡ 1
    → mutex_unlock k mx ≡ hand_over k mx
unfolding mutex_unlock
unlock_last k mx e h =
    let u : (mx.owner == k.curr_task) ≡ true = ground arith in
    let v : (sub32 mx.locked_count 1 == 0) ≡ true = ground arith in rw (u, v)

module _ (m : Layout) (k : Sched) (mx : Mutex) (t : Ptr) (ts ss : List Ptr)
    (c : k.curr_task ≡ t) where
  -- The mutex is free.
  abbrev pub Frees : Sched × Mutex → Type 0
  Frees (k', mx') = (k' ≡ k) × (mx'.locked_count ≡ 0) × Guarded m k' mx' (t ∷ ts) ss []

  -- The first waiter owns the mutex and is ready, behind the others; the current task runs on.
  abbrev pub Hands : Ptr → List Ptr → Sched × Mutex → Type 0
  Hands w ws (k', mx') =
      (mx'.owner ≡ w)
      × (mx'.locked_count ≡ 1)
      × (k'.curr_task ≡ t)
      × Guarded m k' mx' ((t ∷ ts) ++ w ∷ []) ss ws

  -- The mutex goes to the first of the waiters, if there is one.
  abbrev pub Passes : List Ptr → Sched × Mutex → Type 0
  Passes [] r = Frees r
  Passes (w ∷ ws) r = Hands w ws r

  hand_over-Passes :
      (ws : List Ptr)
      → Guarded m k mx (t ∷ ts) ss ws
      → length (t ∷ ts) + 1 < 2 ^ 31
      → Passes ws (hand_over k mx)
  hand_over-Passes [] g room =
      subst (Passes []) (sym (hand_over_none k mx g.blocking.waiting.count)) (
        refl,
        refl,
        record {
          blocking = g.blocking;
          free = λ _. (refl, refl);
          held = λ h. absurd (h refl);
          small = omega arith;
        },
      )
  hand_over-Passes (w ∷ ws) g room =
      let b = g.blocking in
      let some_waiter : mx.wait_list.count ≢ 0 = omega (arith, b.waiting.count) in
      let (got, woken, _) = wake_first-Blocking m k mx.wait_list w (t ∷ ts) ss ws b room in
      let (k', l, w') = wake_first k mx.wait_list in
      let (b', curr) = dispatch-Blocking m k' l (t ∷ ts ++ w ∷ []) ss ws woken in
      subst (Hands w ws) (sym (hand_over_some k mx some_waiter)) (
        got,
        refl,
        curr,
        record {
          blocking = b';
          free = λ z. absurd (omega arith);
          held = λ _. (
            subst m.IsTask (sym got) b.wait_tasks.0,
            subst (λ x. x ∉ ws) (sym got) (left_once m k mx.wait_list w (t ∷ ts) ss ws b),
          );
          small = omega arith;
        },
      )

  -- The current task owns the mutex, once less than before.
  abbrev pub StillHeld : List Ptr → Sched × Mutex → Type 0
  StillHeld ws (k', mx') =
      (k' ≡ k)
      × (mx'.owner ≡ t)
      × (mx'.locked_count + 1 ≡ mx.locked_count)
      × Guarded m k' mx' (t ∷ ts) ss ws

  -- mutex_unlock of a locked mutex changes nothing for a task that does not own it; the owner
  -- gives back one hold, and with the last one the first waiter owns the mutex and is ready, or
  -- the mutex is free where nobody waits; the caller runs on and the mutex stays well formed.
  -- While the ready list fits a C int.
  pub unlock-Guarded :
      (ws : List Ptr)
      → Guarded m k mx (t ∷ ts) ss ws
      → length (t ∷ ts) + 1 < 2 ^ 31
      → mx.locked_count ≢ 0
      → let r = mutex_unlock k mx in
        ((mx.owner ≢ t) × (r ≡ (k, mx)))
        ⊎ ((mx.owner ≡ t) × (1 < mx.locked_count) × StillHeld ws r)
        ⊎ ((mx.owner ≡ t) × (mx.locked_count ≡ 1) × Passes ws r)
  unlock-Guarded ws g room h = elim (Bool-cases (mx.owner == t)) [
    | inr e ↦ let ne : mx.owner ≢ t = ground arith in inl (ne, unlock_other k mx (λ q. ne (q ∙ c)))
    | inl e ↦
        let own : mx.owner ≡ t = ground arith in
        elim (Bool-cases (mx.locked_count == 1)) [
          | inl one ↦
              let last : mx.locked_count ≡ 1 = ground arith in
              inr (
                inr (
                  own,
                  last,
                  subst (Passes ws) (sym (unlock_last k mx (own ∙ sym c) last))
                      (hand_over-Passes ws g room),
                ))
          | inr more ↦
              let many : 1 < mx.locked_count = ground arith in
              inr (
                inl (
                  own,
                  many,
                  subst (StillHeld ws) (sym (unlock_held k mx (own ∙ sym c) many g.small)) (
                    refl,
                    own,
                    omega arith,
                    record {
                      blocking = g.blocking;
                      free = λ z. absurd (omega arith);
                      held = λ _. g.held h;
                      small = omega (arith, g.small);
                    },
                  ),
                ))
        ]
  ]
