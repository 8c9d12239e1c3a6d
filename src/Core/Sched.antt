-- ===== src/Core/Sched.antt =====
-- The scheduler of source/kernel/core/task.c and source/kernel/include/core/task.h: the ready and the
-- sleep list, the current task, the time slice. A task is known by the address of its `task_t`; its
-- list nodes lie inside it, so that the scheduler's lists are the pointer lists of Tools/LinkedList.
-- A function that runs under irq_enter_protection up to its end, or up to the switch in
-- task_dispatch, is one step, since no interrupt comes between. `jumps` records the far jumps.
pub mod Queue
pub mod Yield
pub mod Slice
pub mod Sleep
pub mod Tick
pub mod TimeTick
use start.Base.{
  ℕ, zero, suc, ◌+◌, ◌-◌, ◌*◌, ◌/◌, ◌^◌, Bool, true, false, ◌&&◌, Option, none, some, List, [], ◌∷◌,
  if◌then◌else◌, ◌==◌, ltb, add32, sub32, Ptr, null,
}
use start.Tools.LinkedList.{
  Node, Nodes, LinkedList, list_node_init, list_init, list_count, list_first, list_insert_last,
  list_remove,
}

pub data TaskState : Type 0 where
  created running sleep ready waiting zombie : TaskState

-- The fields of `task_t` that scheduling reads and writes.
pub record Task : Type 0 where
  pub state : TaskState
  pub sleep_ticks : ℕ
  pub time_ticks : ℕ
  pub slice_ticks : ℕ
  pub tss_sel : ℕ

-- Where the nodes lie in a `task_t` of 200 bytes.
abbrev pub run_offset : ℕ
run_offset = 176

abbrev pub wait_offset : ℕ
wait_offset = 184

abbrev pub all_offset : ℕ
all_offset = 192

abbrev pub run_node : Ptr → Ptr
run_node task = task + run_offset

abbrev pub wait_node : Ptr → Ptr
wait_node task = task + wait_offset

abbrev pub all_node : Ptr → Ptr
all_node task = task + all_offset

-- `list_node_parent`
abbrev pub list_node_parent : Ptr → ℕ → Ptr
list_node_parent node offset = if node == null then null else sub32 node offset

-- The scheduler's part of `task_manager_t`, the tasks and the nodes.
pub record Sched : Type 0 where
  pub nodes : Nodes
  pub tasks : Ptr → Task
  pub curr_task : Ptr
  pub ready_list : LinkedList
  pub task_list : LinkedList
  pub sleep_list : LinkedList
  pub idle_task : Ptr
  pub jumps : List ℕ

-- `p->f = v`
abbrev pub set_task : Sched → Ptr → Task → Sched
set_task k p t = record k { tasks = λ a. if a == p then t else k.tasks a }

abbrev pub set_state : Sched → Ptr → TaskState → Sched
set_state k p st = set_task k p (record (k.tasks p) { state = st })

abbrev pub set_ready_list : Sched → Nodes × LinkedList → Sched
set_ready_list k (h, l) = record k { nodes = h; ready_list = l }

abbrev pub set_sleep_list : Sched → Nodes × LinkedList → Sched
set_sleep_list k (h, l) = record k { nodes = h; sleep_list = l }

abbrev pub task_current : Sched → Ptr
task_current k = k.curr_task

unfoldable pub task_set_ready : Sched → Ptr → Sched
task_set_ready k task =
    if task == k.idle_task
    then k
    else set_state (set_ready_list k (list_insert_last k.nodes k.ready_list (run_node task))) task
        ready

unfoldable pub task_set_block : Sched → Ptr → Sched
task_set_block k task =
    if task == k.idle_task
    then k
    else set_ready_list k (list_remove k.nodes k.ready_list (run_node task))

unfoldable pub task_next_run : Sched → Ptr
unfolding list_count list_first
task_next_run k =
    if list_count k.ready_list == 0
    then k.idle_task
    else list_node_parent (list_first k.ready_list) run_offset

-- `task_switch_from_to` is a far jump to the task state segment of `to`.
unfoldable pub task_switch_from_to : Sched → Ptr → Sched
task_switch_from_to k to = record k { jumps = (k.tasks to).tss_sel ∷ k.jumps }

-- The `Bool` says whether it switched to another task.
unfoldable pub task_dispatch : Sched → Sched × Bool
unfolding task_next_run task_switch_from_to
task_dispatch k =
    let to = task_next_run k in
    if to == k.curr_task
    then (k, false)
    else (task_switch_from_to (set_state (record k { curr_task = to }) to running) to, true)

-- `list_count(...) > 1` on a C int.
abbrev pub more_than_one : ℕ → Bool
more_than_one c = ltb 1 c && ltb c (2 ^ 31)

unfoldable pub sys_sched_yield : Sched → Sched
unfolding task_set_block task_set_ready task_dispatch list_count
sys_sched_yield k =
    if more_than_one (list_count k.ready_list)
    then (task_dispatch (task_set_ready (task_set_block k k.curr_task) k.curr_task)).0
    else k

unfoldable pub task_set_sleep : Sched → Ptr → ℕ → Sched
task_set_sleep k task ticks =
    if ticks == 0
    then k
    else let k' = set_task k task (record (k.tasks task) { sleep_ticks = ticks; state = sleep }) in
      set_sleep_list k' (list_insert_last k'.nodes k'.sleep_list (run_node task))

unfoldable pub task_set_wakeup : Sched → Ptr → Sched
task_set_wakeup k task = set_sleep_list k (list_remove k.nodes k.sleep_list (run_node task))

abbrev pub os_tick_ms : ℕ
os_tick_ms = 10

-- The ticks of a sleep of `ms` milliseconds; `ms` is a `uint32_t`, and the sum wraps.
unfoldable pub sleep_ticks_of : ℕ → ℕ
sleep_ticks_of ms =
    let ms' = if ltb ms os_tick_ms then os_tick_ms else ms in
    add32 ms' (os_tick_ms - 1) / os_tick_ms

unfoldable pub sys_msleep : Sched → ℕ → Sched
unfolding task_set_block task_set_sleep task_dispatch sleep_ticks_of
sys_msleep k ms =
    let blocked = task_set_block k k.curr_task in
    (task_dispatch (task_set_sleep blocked blocked.curr_task (sleep_ticks_of ms))).0

-- `task->slice_ticks = task->time_ticks`
abbrev pub new_slice : Sched → Ptr → Sched
new_slice k task =
    set_task k task (record (k.tasks task) { slice_ticks = (k.tasks task).time_ticks })

-- `--curr_task->slice_ticks == 0` and the turn that follows. The `Bool` says whether it switched.
unfoldable pub tick_slice : Sched → Sched × Bool
unfolding task_set_block task_set_ready task_dispatch
tick_slice k =
    let curr = k.curr_task in
    let left = sub32 (k.tasks curr).slice_ticks 1 in
    if left == 0
    then task_dispatch (task_set_ready (task_set_block (new_slice k curr) curr) curr)
    else (set_task k curr (record (k.tasks curr) { slice_ticks = left }), false)

-- The body of the loop over the sleep list, for the task of one node.
unfoldable pub tick_sleeper : Sched → Ptr → Sched
unfolding task_set_wakeup task_set_ready
tick_sleeper k task =
    let left = sub32 (k.tasks task).sleep_ticks 1 in
    let k' = set_task k task (record (k.tasks task) { sleep_ticks = left }) in
    if left == 0 then task_set_ready (task_set_wakeup k' task) task else k'

-- The loop over the sleep list, on fuel; `next` is read before the body runs.
unfoldable pub tick_sleepers : ℕ → Sched → Ptr → Option Sched
tick_sleepers zero k curr = none
tick_sleepers (suc fuel) k curr =
    let next = (k.nodes curr).next in
    let rest = tick_sleepers fuel (tick_sleeper k (list_node_parent curr run_offset)) next in
    if curr == null then some k else rest

-- How a tick ends: it ran through, or it left for another task in the middle, with the sleepers not
-- yet looked at: that part runs when the task comes back.
pub data Ticked : Type 0 where
  ran : Sched → Ticked
  left : Sched → Ticked
  out_of_fuel : Ticked

-- From the sleep list on: the rest of `task_time_tick`.
unfoldable pub tick_rest : ℕ → Sched → Ticked
unfolding tick_sleepers task_dispatch list_first
tick_rest fuel k = elim (tick_sleepers fuel k (list_first k.sleep_list)) [
  | none ↦ out_of_fuel
  | some k' ↦ ran (task_dispatch k').0
]

unfoldable pub task_time_tick : ℕ → Sched → Ticked
unfolding tick_slice tick_rest
task_time_tick fuel k =
    let (k', switched) = tick_slice k in if switched then left k' else tick_rest fuel k'
