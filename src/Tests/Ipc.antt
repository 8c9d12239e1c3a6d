-- ===== src/Tests/Ipc.antt =====
-- The theorems on the mutex and the semaphore of source/kernel/ipc, at the system of Tests/Data.
use start.Base.{◌≢◌, ◌≡◌, ◌<◌, ◌⊎◌, [], ◌∷◌, refl, arith}
use start.Ipc.Mutex.{mutex_unlock}
use start.Ipc.Mutex.Unlock.{StillHeld, Passes, unlock-Guarded}
use start.Ipc.Sem.{sem_wait, sem_notify}
use start.Ipc.Sem.Contract.{Takes, Waits, Notifies, wait-Counted, notify-Counted}
use start.Tests.Data.{
  layout, waiting, owned_by, owned_by_a, sem_zero, sem_zero-Counted, task_a, task_b, task_c,
}

-- The first task gives up the mutex for which the third waits.
unlock-Guarded_example :
    let r = mutex_unlock waiting (owned_by task_a) in
    ((task_a ≢ task_a) × (r ≡ (waiting, owned_by task_a)))
    ⊎ ((task_a ≡ task_a)
        × (1 < (owned_by task_a).locked_count)
        × StillHeld layout waiting (owned_by task_a) task_a (task_b ∷ []) [] refl (task_c ∷ []) r)
    ⊎ ((task_a ≡ task_a)
        × ((owned_by task_a).locked_count ≡ 1)
        × Passes layout waiting (owned_by task_a) task_a (task_b ∷ []) [] refl (task_c ∷ []) r)
unlock-Guarded_example =
    unlock-Guarded layout waiting (owned_by task_a) task_a (task_b ∷ []) [] refl (task_c ∷ [])
      owned_by_a (omega arith) (omega arith)

-- The first task asks for a permit where none is left.
wait-Counted_example :
    ((sem_zero.count ≢ 0)
      × Takes layout waiting sem_zero task_a
          (task_b ∷ [])
          []
          (task_c ∷ [])
          sem_zero-Counted
          refl
          (sem_wait waiting sem_zero))
    ⊎ ((sem_zero.count ≡ 0)
        × Waits layout waiting sem_zero task_a
            (task_b ∷ [])
            []
            (task_c ∷ [])
            sem_zero-Counted
            refl
            (sem_wait waiting sem_zero))
wait-Counted_example =
    wait-Counted layout waiting sem_zero task_a (task_b ∷ []) [] (task_c ∷ []) sem_zero-Counted refl
      (omega arith)

-- The first task wakes the third.
notify-Counted_example :
    Notifies layout waiting sem_zero task_a
      (task_b ∷ [])
      []
      refl
      (task_c ∷ [])
      (sem_notify waiting sem_zero)
notify-Counted_example =
    notify-Counted layout waiting sem_zero task_a (task_b ∷ []) [] refl (task_c ∷ [])
      sem_zero-Counted (omega arith) (omega arith)
