-- ===== src/Ipc/Mutex/Contract.antt =====
-- What mutex_lock and mutex_unlock of source/kernel/ipc/mutex.c promise to tasks that take turns.
use start.Base.{
  ◌+◌, ◌<◌, ◌^◌, ◌≡◌, ◌≢◌, refl, sym, subst, ◌∙◌, arith, true, false, List, [], ◌∷◌, ◌++◌, ◌==◌,
  add32, Ptr, null,
}
use start.Tools.LinkedList.Links.{length, ◌∉◌, has-append}
use start.Core.Sched.{Sched}
use start.Ipc.Wait.{block_on}
use start.Ipc.Wait.Layout.{Layout}
use start.Ipc.Wait.Queue.{Blocking, next_ready, block_on-Blocking, not_waiting}
use start.Ipc.Mutex.{Mutex, mutex_lock}

-- The mutex among the tasks: it is free and nobody waits, or a task owns it that does not wait.
pub record Guarded (m : Layout) (k : Sched) (mx : Mutex) (ts ss ws : List Ptr) : Type 0 where
  pub blocking : Blocking m k mx.wait_list ts ss ws
  pub free : mx.locked_count ≡ 0 → (mx.owner ≡ null) × (ws ≡ [])
  pub held : mx.locked_count ≢ 0 → m.IsTask mx.owner × (mx.owner ∉ ws)
  pub small : mx.locked_count < 2 ^ 31

lock_free_lem :
    (k : Sched) (mx : Mutex)
    → mx.locked_count ≡ 0
    → mutex_lock k mx
      ≡ (k, record { owner = k.curr_task; locked_count = 1; wait_list = mx.wait_list })
unfolding mutex_lock
lock_free_lem k mx e = let t : (mx.locked_count == 0) ≡ true = ground arith in rw t

lock_again_lem :
    (k : Sched) (mx : Mutex)
    → mx.locked_count ≢ 0
    → mx.owner ≡ k.curr_task
    → mutex_lock k mx ≡ (k, record mx { locked_count = add32 mx.locked_count 1 })
unfolding mutex_lock
lock_again_lem k mx h e =
    let t : (mx.locked_count == 0) ≡ false = ground arith in
    let u : (mx.owner == k.curr_task) ≡ true = ground arith in rw (t, u)

lock_taken_lem :
    (k : Sched) (mx : Mutex)
    → mx.locked_count ≢ 0
    → mx.owner ≢ k.curr_task
    → mutex_lock k mx
      ≡ ((block_on k mx.wait_list).0, record mx { wait_list = (block_on k mx.wait_list).1 })
unfolding mutex_lock
lock_taken_lem k mx h e =
    let t : (mx.locked_count == 0) ≡ false = ground arith in
    let u : (mx.owner == k.curr_task) ≡ false = ground arith in rw (t, u)

module _ (m : Layout) (k : Sched) (mx : Mutex) (t : Ptr) (ts ss ws : List Ptr)
    (g : Guarded m k mx (t ∷ ts) ss ws) (c : k.curr_task ≡ t) where
  -- The current task has the mutex after the call, and runs on.
  abbrev pub Acquires : Sched × Mutex → Type 0
  Acquires (k', mx') =
      (k' ≡ k)
      × (mx'.owner ≡ t)
      × (mx'.locked_count ≡ mx.locked_count + 1)
      × Guarded m k' mx' (t ∷ ts) ss ws

  -- The current task waits behind the others, the owner keeps the mutex, and the next task runs.
  abbrev pub Suspends : Sched × Mutex → Type 0
  Suspends (k', mx') =
      (mx'.owner ≡ mx.owner)
      × (mx'.locked_count ≡ mx.locked_count)
      × (k'.curr_task ≡ next_ready m.idle ts)
      × Guarded m k' mx' ts ss (ws ++ t ∷ [])

  out : t ∉ ws
  out = not_waiting m k mx.wait_list t ts ss ws g.blocking

  owner_out : mx.owner ≢ t → mx.owner ∉ ws → mx.owner ∉ ws ++ t ∷ []
  owner_out ne o = ground (arith, has-append mx.owner ws (t ∷ []))

  pub lock_free : mx.locked_count ≡ 0 → Acquires (mutex_lock k mx)
  lock_free e = subst Acquires (sym (lock_free_lem k mx e)) (
    refl,
    c,
    omega arith,
    record {
      blocking = g.blocking;
      free = λ z. absurd (omega arith);
      held =
          λ _. (subst m.IsTask (sym c) g.blocking.ready_tasks.0, subst (λ x. x ∉ ws) (sym c) out);
      small = omega arith;
    },
  )

  pub lock_again :
      mx.locked_count ≢ 0 → mx.owner ≡ t → mx.locked_count + 1 < 2 ^ 31 → Acquires (mutex_lock k mx)
  lock_again h e room = subst Acquires (sym (lock_again_lem k mx h (e ∙ sym c))) (
    refl,
    e,
    omega arith,
    record {
      blocking = g.blocking;
      free = λ z. absurd (omega arith);
      held = λ _. g.held h;
      small = omega arith;
    },
  )

  pub lock_taken :
      mx.locked_count ≢ 0 → mx.owner ≢ t → length ws + 1 < 2 ^ 31 → Suspends (mutex_lock k mx)
  lock_taken h e room =
      let (b, next) = block_on-Blocking m k mx.wait_list t ts ss ws g.blocking room c in
      subst Suspends (sym (lock_taken_lem k mx h (λ q. e (q ∙ c)))) (
        refl,
        refl,
        next,
        record {
          blocking = b;
          free = λ z. absurd (h z);
          held = λ _. ((g.held h).0, owner_out e (g.held h).1);
          small = g.small;
        },
      )
