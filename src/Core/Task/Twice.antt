-- ===== src/Core/Task/Twice.antt =====
-- task_init of source/kernel/core/task.c makes a task ready, and task_start does it again.
use start.Base.{
  ◌+◌, ◌<◌, ◌^◌, ◌≡◌, ◌≢◌, refl, ap, ◌∙◌, arith, Bool-cases, inl, inr, ◌==◌, add32, Ptr, true,
  false,
}
use start.Tools.LinkedList.{Nodes, LinkedList, list_insert_last, list_is_empty}
use start.Core.Sched.{Sched, run_node, task_set_ready}

module _ (h : Nodes) (l : LinkedList) (node : Ptr) where
  inserted_last : (list_insert_last h l node).1.last ≡ node
  unfolding list_insert_last
  inserted_last = elim (Bool-cases (list_is_empty l)) [ inl e ↦ rw e refl | inr e ↦ rw e refl ]

  inserted_count : (list_insert_last h l node).1.count ≡ add32 l.count 1
  unfolding list_insert_last
  inserted_count = elim (Bool-cases (list_is_empty l)) [ inl e ↦ rw e refl | inr e ↦ rw e refl ]

  -- A node that is the last of the list already becomes its own successor.
  insert_again :
      l.last ≡ node → list_is_empty l ≡ false → ((list_insert_last h l node).0 node).next ≡ node
  unfolding list_insert_last
  insert_again last full =
      let this : (node == node) ≡ true = ground arith in rw (full, last) (rw this refl)

not_empty : (l : LinkedList) → 0 < l.count → list_is_empty l ≡ false
unfolding list_is_empty
not_empty l h = ground arith

set_ready_lem :
    (k : Sched) (task : Ptr)
    → task ≢ k.idle_task
    → let r = list_insert_last k.nodes k.ready_list (run_node task) in
      let k' = task_set_ready k task in
      (k'.nodes ≡ r.0) × (k'.ready_list ≡ r.1) × (k'.idle_task ≡ k.idle_task)
unfolding task_set_ready
set_ready_lem k task h =
    let t : (task == k.idle_task) ≡ false = ground arith in rw t (refl, refl, refl)

-- A task other than the idle task that is made ready twice, as task_init and task_start do, counts
-- twice in the ready list, and its node there, the last one, is its own successor, while the count
-- does not wrap.
pub set_ready_twice :
    (k : Sched) (task : Ptr)
    → task ≢ k.idle_task
    → k.ready_list.count + 2 < 2 ^ 32
    → let k' = task_set_ready (task_set_ready k task) task in
      ((k'.nodes (run_node task)).next ≡ run_node task)
      × (k'.ready_list.last ≡ run_node task)
      × (k'.ready_list.count ≡ k.ready_list.count + 2)
set_ready_twice k task h lt =
    let node = run_node task in
    let s1 = task_set_ready k task in
    let (n1, l1, i1) = set_ready_lem k task h in
    let (n2, l2, i2) = set_ready_lem s1 task (λ e. h (e ∙ i1)) in
    let last1 = ap (λ l. l.last) l1 ∙ inserted_last k.nodes k.ready_list node in
    let count1 = ap (λ l. l.count) l1 ∙ inserted_count k.nodes k.ready_list node in
    let count2 = ap (λ l. l.count) l2 ∙ inserted_count s1.nodes s1.ready_list node in
    (
      ap (λ n. (n node).next) n2
          ∙ insert_again s1.nodes s1.ready_list node last1
              (not_empty s1.ready_list (omega (arith, count1))),
      ap (λ l. l.last) l2 ∙ inserted_last s1.nodes s1.ready_list node,
      omega (arith, count1, count2),
    )
