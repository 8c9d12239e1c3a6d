-- ===== src/Ipc/Sem.antt =====
-- source/kernel/ipc/sem.c and source/kernel/include/ipc/sem.h: the counting semaphore. `count` is a C int,
-- as its 32-bit pattern.
pub mod Contract
pub mod History
use start.Base.{ℕ, ◌^◌, Bool, true, false, ◌&&◌, if◌then◌else◌, ◌==◌, ltb, add32, sub32}
use start.Tools.LinkedList.{LinkedList, list_init, list_count}
use start.Core.Sched.{Sched, task_dispatch}
use start.Ipc.Wait.{block_on, wake_first}

pub record Sem : Type 0 where
  pub count : ℕ
  pub wait_list : LinkedList

unfoldable pub sem_init : ℕ → Sem
sem_init init_count = record { count = init_count; wait_list = list_init }

-- `sem->count > 0` on a C int.
abbrev pub is_positive : ℕ → Bool
is_positive c = ltb 0 c && ltb c (2 ^ 31)

unfoldable pub sem_wait : Sched → Sem → Sched × Sem
sem_wait k sem =
    let (k', wait_list) = block_on k sem.wait_list in
    if is_positive sem.count
    then (k, record sem { count = sub32 sem.count 1 })
    else (k', record sem { wait_list = wait_list })

unfoldable pub sem_notify : Sched → Sem → Sched × Sem
unfolding list_count
sem_notify k sem =
    let (k', wait_list, _) = wake_first k sem.wait_list in
    if list_count sem.wait_list == 0
    then (k, record sem { count = add32 sem.count 1 })
    else ((task_dispatch k').0, record sem { wait_list = wait_list })

unfoldable pub sem_count : Sem → ℕ
sem_count sem = sem.count
