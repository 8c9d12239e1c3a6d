-- ===== src/Ipc/Mutex/Idle.antt =====
-- mutex_lock and mutex_unlock of source/kernel/ipc/mutex.c around a section that does not wait: a
-- mutex that nobody holds and nobody waits for.
use start.Base.{◌≡◌, refl, sym, ◌∙◌, arith, Ptr, null}
use start.Tools.LinkedList.{list_count}
use start.Core.Sched.{Sched}
use start.Ipc.Mutex.{Mutex, mutex_lock, mutex_unlock, hand_over}

abbrev pub IdleMutex : Mutex → Type 0
IdleMutex mutex = (mutex.owner ≡ null) × (mutex.locked_count ≡ 0) × (list_count mutex.wait_list ≡ 0)

abbrev pub held_by : Ptr → Mutex → Mutex
held_by task mutex = record { owner = task; locked_count = 1; wait_list = mutex.wait_list }

pub lock_idle :
    (k : Sched) (mutex : Mutex)
    → IdleMutex mutex
    → mutex_lock k mutex ≡ (k, held_by k.curr_task mutex)
unfolding mutex_lock
lock_idle k mutex (owner, count, waiters) = rw count refl

pub unlock_held :
    (k : Sched) (mutex : Mutex)
    → IdleMutex mutex
    → mutex_unlock k (held_by k.curr_task mutex) ≡ (k, mutex)
unfolding mutex_unlock hand_over list_count
unlock_held k mutex (owner, count, waiters) = released ∙ λ i.
    (k, record { owner = sym owner i; locked_count = sym count i; wait_list = mutex.wait_list })
  where
    released :
        mutex_unlock k (held_by k.curr_task mutex)
        ≡ (k, record { owner = null; locked_count = 0; wait_list = mutex.wait_list })
    released = ground arith
