-- ===== src/Core/Sched/Queue.antt =====
-- The ready list of source/kernel/core/task.c as a queue: what task_set_ready, task_set_block and
-- task_next_run do to it when it is a proper list.
use start.Base.{
  ◌+◌, ◌<◌, ◌^◌, ◌≡◌, ◌≢◌, refl, arith, false, List, [], ◌∷◌, ◌++◌, Bool-cases, inl, inr, ◌==◌, Ptr,
  null,
}
use start.Tools.LinkedList.{Nodes, LinkedList}
use start.Tools.LinkedList.Links.{
  length, ◌∈◌, ◌∉◌, IsList, Links-frame, Frame, ne_of_mem, has-append,
}
use start.Tools.LinkedList.Insert.{insert_last-IsList}
use start.Tools.LinkedList.Remove.{remove-IsList, apart_sym}
use start.Core.Sched.{
  Sched, run_node, run_offset, list_node_parent, task_set_ready, task_set_block, task_next_run,
  task_dispatch,
}

-- The ready list holds the nodes `rs`, the sleep list `ss`, and no node is in both.
pub record Queues (k : Sched) (rs ss : List Ptr) : Type 0 where
  pub readies : IsList k.nodes k.ready_list rs
  pub sleepers : IsList k.nodes k.sleep_list ss
  pub apart : (a : Ptr) → a ∈ rs → a ∉ ss

-- A list is not touched by writes elsewhere.
pub IsList-frame :
    (h g : Nodes) (l : LinkedList) (xs : List Ptr)
    → ((a : Ptr) → a ∈ xs → g a ≡ h a)
    → IsList h l xs
    → IsList g l xs
IsList-frame h g l xs same is = record {
  links = Links-frame h g null xs null same is.links;
  first = is.first;
  last = is.last;
  count = is.count;
  short = is.short;
}

pub apart_snoc :
    (rs ss : List Ptr) (n : Ptr)
    → ((a : Ptr) → a ∈ rs → a ∉ ss)
    → n ∉ ss
    → (a : Ptr) → a ∈ rs ++ n ∷ []
    → a ∉ ss
apart_snoc rs ss n apart out a i = ground (arith, has-append a rs (n ∷ []), apart a)

pub mem_skip : (a : Ptr) (ys : List Ptr) (n : Ptr) (zs : List Ptr) → a ∈ ys ++ zs → a ∈ ys ++ n ∷ zs
mem_skip a ys n zs i = ground (arith, has-append a ys zs, has-append a ys (n ∷ zs))

pub not_mem_cons :
    (a n : Ptr) (rs ss : List Ptr) → ((a : Ptr) → a ∈ ss → a ∉ rs) → n ∉ ss → a ∈ ss → a ∉ n ∷ rs
not_mem_cons a n rs ss apart out i = ground (arith, apart a, ne_of_mem n a ss out i)

module _ (k : Sched) (task : Ptr) (busy : task ≢ k.idle_task) where
  -- A task that is made ready goes to the end of the ready list.
  pub set_ready-Queues :
      (rs ss : List Ptr)
      → Queues k rs ss
      → run_node task ∉ rs
      → run_node task ∉ ss
      → length rs + 1 < 2 ^ 31
      → Queues (task_set_ready k task) (rs ++ run_node task ∷ []) ss
  unfolding task_set_ready
  set_ready-Queues rs ss q out out' short =
      let e : (task == k.idle_task) ≡ false = ground arith in
      let (is, frame) =
        insert_last-IsList k.nodes k.ready_list (run_node task) (omega arith) rs q.readies out
          short in
      rw e (record {
        readies = is;
        sleepers =
            IsList-frame k.nodes _ k.sleep_list ss
              (λ a i. frame a (not_mem_cons a _ rs ss (apart_sym rs ss q.apart) out' i)) q.sleepers;
        apart = apart_snoc rs ss (run_node task) q.apart out';
      })

  -- A task that is blocked leaves the ready list, from wherever it stands.
  pub set_block-Queues :
      (ys zs ss : List Ptr)
      → Queues k (ys ++ run_node task ∷ zs) ss
      → Queues (task_set_block k task) (ys ++ zs) ss
  unfolding task_set_block
  set_block-Queues ys zs ss q =
      let e : (task == k.idle_task) ≡ false = ground arith in
      let (is, frame) = remove-IsList k.nodes k.ready_list ys (run_node task) zs q.readies in
      rw e (record {
        readies = is;
        sleepers =
            IsList-frame k.nodes _ k.sleep_list ss
              (λ a i. frame a (apart_sym (ys ++ run_node task ∷ zs) ss q.apart a i)) q.sleepers;
        apart = λ a i. q.apart a (mem_skip a ys (run_node task) zs i);
      })

  -- Both write nodes of the ready list alone, and the task's own.
  pub set_ready-Frame :
      (rs ss : List Ptr)
      → Queues k rs ss
      → run_node task ∉ rs
      → length rs + 1 < 2 ^ 31
      → Frame (run_node task ∷ rs) k.nodes (task_set_ready k task).nodes
  unfolding task_set_ready
  set_ready-Frame rs ss q out short a i =
      let e : (task == k.idle_task) ≡ false = ground arith in
      rw e (
        (insert_last-IsList k.nodes k.ready_list (run_node task) (omega arith) rs q.readies out
            short).1
          a i)

  pub set_block-Frame :
      (ys zs ss : List Ptr)
      → Queues k (ys ++ run_node task ∷ zs) ss
      → Frame (ys ++ run_node task ∷ zs) k.nodes (task_set_block k task).nodes
  unfolding task_set_block
  set_block-Frame ys zs ss q a i =
      let e : (task == k.idle_task) ≡ false = ground arith in
      rw e ((remove-IsList k.nodes k.ready_list ys (run_node task) zs q.readies).1 a i)

  pub set_ready_kept :
      ((task_set_ready k task).curr_task ≡ k.curr_task)
      × ((task_set_ready k task).idle_task ≡ k.idle_task)
  unfolding task_set_ready
  set_ready_kept = ground arith

  pub set_block_kept :
      ((task_set_block k task).curr_task ≡ k.curr_task)
      × ((task_set_block k task).idle_task ≡ k.idle_task)
  unfolding task_set_block
  set_block_kept = ground arith

-- The task of a node of the ready list.
abbrev pub task_of : Ptr → Ptr
task_of r = list_node_parent r run_offset

pub next_run-head :
    (k : Sched) (r : Ptr) (rs ss : List Ptr) → Queues k (r ∷ rs) ss → task_next_run k ≡ task_of r
unfolding task_next_run
next_run-head k r rs ss q = ground (arith, q.readies.first, q.readies.count, q.readies.short)

next_run_idle : (k : Sched) (ss : List Ptr) → Queues k [] ss → task_next_run k ≡ k.idle_task
unfolding task_next_run
next_run_idle k ss q = ground (arith, q.readies.count)

-- Dispatching changes neither list, and makes the next task the current one.
abbrev pub Runs : Ptr → List Ptr → List Ptr → Sched → Sched → Type 0
Runs to rs ss k k' = Queues k' rs ss × (k'.curr_task ≡ to) × (k'.idle_task ≡ k.idle_task)

dispatch_to :
    (k : Sched) (to : Ptr) (rs ss : List Ptr)
    → task_next_run k ≡ to
    → Queues k rs ss
    → Runs to rs ss k (task_dispatch k).0
unfolding task_dispatch
dispatch_to k to rs ss e q = elim (Bool-cases (task_next_run k == k.curr_task)) [
  | inl same ↦ rw same (q, ground arith, refl)
  | inr other ↦
      rw other (record { readies = q.readies; sleepers = q.sleepers; apart = q.apart }, e, refl)
]

-- It takes the task at the front of the ready list, and the idle task where none is ready.
pub dispatch-head :
    (k : Sched) (r : Ptr) (rs ss : List Ptr)
    → Queues k (r ∷ rs) ss
    → Runs (task_of r) (r ∷ rs) ss k (task_dispatch k).0
dispatch-head k r rs ss q = dispatch_to k _ (r ∷ rs) ss (next_run-head k r rs ss q) q

pub dispatch_idle :
    (k : Sched) (ss : List Ptr) → Queues k [] ss → Runs k.idle_task [] ss k (task_dispatch k).0
dispatch_idle k ss q = dispatch_to k _ [] ss (next_run_idle k ss q) q

pub dispatch_nodes : (k : Sched) → (task_dispatch k).0.nodes ≡ k.nodes
unfolding task_dispatch
dispatch_nodes k = ground arith

-- The queues survive writes to other nodes.
pub Queues-frame :
    (k : Sched) (g : Nodes) (rs ss : List Ptr)
    → ((a : Ptr) → a ∈ rs → g a ≡ k.nodes a)
    → ((a : Ptr) → a ∈ ss → g a ≡ k.nodes a)
    → Queues k rs ss
    → Queues (record k { nodes = g }) rs ss
Queues-frame k g rs ss same_r same_s q = record {
  readies = IsList-frame k.nodes g k.ready_list rs same_r q.readies;
  sleepers = IsList-frame k.nodes g k.sleep_list ss same_s q.sleepers;
  apart = q.apart;
}
