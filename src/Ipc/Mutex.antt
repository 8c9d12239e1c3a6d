-- ===== src/Ipc/Mutex.antt =====
-- source/kernel/ipc/mutex.c and source/kernel/include/ipc/mutex.h: the recursive mutex, which is handed
-- to the first waiter when its owner gives it up. `locked_count` is a C int, as its 32-bit pattern.
pub mod Contract
pub mod Idle
pub mod Unlock
pub mod History
use start.Base.{ℕ, Bool, true, false, if◌then◌else◌, ◌==◌, add32, sub32, Ptr, null}
use start.Tools.LinkedList.{LinkedList, list_init, list_count}
use start.Core.Sched.{Sched, task_dispatch}
use start.Ipc.Wait.{block_on, wake_first}

pub record Mutex : Type 0 where
  pub owner : Ptr
  pub locked_count : ℕ
  pub wait_list : LinkedList

unfoldable pub mutex_init : Mutex
mutex_init = record { owner = null; locked_count = 0; wait_list = list_init }

unfoldable pub mutex_lock : Sched → Mutex → Sched × Mutex
mutex_lock k mutex =
    let curr = k.curr_task in
    let (k', wait_list) = block_on k mutex.wait_list in
    if mutex.locked_count == 0
    then (k, record { owner = curr; locked_count = 1; wait_list = mutex.wait_list })
    else if mutex.owner == curr
    then (k, record mutex { locked_count = add32 mutex.locked_count 1 })
    else (k', record mutex { wait_list = wait_list })

-- The hand-over in `mutex_unlock`, where the count has come to 0.
unfoldable pub hand_over : Sched → Mutex → Sched × Mutex
unfolding list_count
hand_over k mutex =
    let (k', wait_list, task) = wake_first k mutex.wait_list in
    if list_count mutex.wait_list == 0
    then (k, record { owner = null; locked_count = 0; wait_list = mutex.wait_list })
    else ((task_dispatch k').0, record { owner = task; locked_count = 1; wait_list = wait_list })

unfoldable pub mutex_unlock : Sched → Mutex → Sched × Mutex
unfolding hand_over
mutex_unlock k mutex =
    let left = sub32 mutex.locked_count 1 in
    if mutex.owner == k.curr_task
    then if left == 0 then hand_over k mutex else (k, record mutex { locked_count = left })
    else (k, mutex)
