-- ===== src/Ipc/Wait.antt =====
-- What mutex.c and sem.c of source/kernel/ipc share: the current task blocks on a wait list, and the
-- first task of a wait list is made ready.
pub mod Layout
pub mod Queue
pub mod Turns
use start.Base.{ℕ, Ptr, null}
use start.Tools.LinkedList.{LinkedList, list_insert_last, list_remove_first}
use start.Core.Sched.{
  Sched, wait_node, wait_offset, list_node_parent, task_set_block, task_set_ready, task_dispatch,
}

-- task_set_block(curr); list_insert_last(&wait_list, &curr->wait_node); task_dispatch();
unfoldable pub block_on : Sched → LinkedList → Sched × LinkedList
block_on k wait_list =
    let blocked = task_set_block k k.curr_task in
    let (nodes, wait_list') = list_insert_last blocked.nodes wait_list (wait_node k.curr_task) in
    ((task_dispatch (record blocked { nodes = nodes })).0, wait_list')

-- node = list_remove_first(&wait_list); task = list_node_parent(node, ...); task_set_ready(task);
unfoldable pub wake_first : Sched → LinkedList → Sched × LinkedList × Ptr
wake_first k wait_list =
    let (nodes, wait_list', node) = list_remove_first k.nodes wait_list in
    let task = list_node_parent node wait_offset in
    (task_set_ready (record k { nodes = nodes }) task, wait_list', task)
