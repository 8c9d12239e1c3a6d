-- ===== src/Ipc/Wait/Layout.antt =====
-- Where the tasks lie in memory: what source/kernel/core/task.c gives by allocating each `task_t` as
-- an object of its own, of 200 bytes.
use start.Base.{
  ◌+◌, ◌≤◌, ◌^◌, ◌≡◌, ◌≢◌, ◌⊎◌, refl, ap, arith, List, [], ◌∷◌, ◌++◌, Bool-cases, inl, inr, ◌==◌,
  Ptr, null,
}
use start.Tools.LinkedList.Links.{length, ◌∈◌, ◌∉◌}
use start.Tools.LinkedList.Remove.{apart_sym}
use start.Core.Sched.{run_node, wait_node, run_offset, wait_offset, list_node_parent}

-- Two objects of 200 bytes are one, or lie apart.
abbrev pub Separate : Ptr → Ptr → Type 0
Separate t u = (t ≡ u) ⊎ (t + 200 ≤ u) ⊎ (u + 200 ≤ t)

pub record Layout : Type 1 where
  -- The tasks other than the idle task.
  pub IsTask : Ptr → Type 0
  pub idle : Ptr
  pub separate : (t u : Ptr) → IsTask t → IsTask u → Separate t u
  pub busy : (t : Ptr) → IsTask t → t ≢ idle
  pub in_range : (t : Ptr) → IsTask t → t + 200 ≤ 2 ^ 32
  pub ne_null : (t : Ptr) → IsTask t → t ≢ null

-- The nodes of a list of tasks.
abbrev pub runs : List Ptr → List Ptr
runs [] = []
runs (t ∷ ts) = run_node t ∷ runs ts

abbrev pub waits : List Ptr → List Ptr
waits [] = []
waits (t ∷ ts) = wait_node t ∷ waits ts

pub runs-append : (xs ys : List Ptr) → runs (xs ++ ys) ≡ runs xs ++ runs ys
runs-append [] ys = refl
runs-append (x ∷ xs) ys = ap (λ l. run_node x ∷ l) (runs-append xs ys)

pub waits-append : (xs ys : List Ptr) → waits (xs ++ ys) ≡ waits xs ++ waits ys
waits-append [] ys = refl
waits-append (x ∷ xs) ys = ap (λ l. wait_node x ∷ l) (waits-append xs ys)

pub mem-runs : (t : Ptr) (ts : List Ptr) → t ∉ ts → run_node t ∉ runs ts
mem-runs t [] out = refl
mem-runs t (u ∷ ts) out = ground (arith, mem-runs t ts)

pub mem-waits : (t : Ptr) (ts : List Ptr) → t ∉ ts → wait_node t ∉ waits ts
mem-waits t [] out = refl
mem-waits t (u ∷ ts) out = ground (arith, mem-waits t ts)

pub not-mem_of_runs : (t : Ptr) (ts : List Ptr) → run_node t ∉ runs ts → t ∉ ts
not-mem_of_runs t [] out = refl
not-mem_of_runs t (u ∷ ts) out = ground (arith, not-mem_of_runs t ts)

pub not-mem_of_waits : (t : Ptr) (ts : List Ptr) → wait_node t ∉ waits ts → t ∉ ts
not-mem_of_waits t [] out = refl
not-mem_of_waits t (u ∷ ts) out = ground (arith, not-mem_of_waits t ts)

pub length-runs : (ts : List Ptr) → length (runs ts) ≡ length ts
length-runs [] = refl
length-runs (t ∷ ts) = omega (arith, length-runs ts)

pub length-waits : (ts : List Ptr) → length (waits ts) ≡ length ts
length-waits [] = refl
length-waits (t ∷ ts) = omega (arith, length-waits ts)

module _ (m : Layout) where
  open m use {IsTask, idle, separate, busy, in_range, ne_null}

  abbrev pub AllTasks : List Ptr → Type 0
  AllTasks [] = Unit {0}
  AllTasks (t ∷ ts) = IsTask t × AllTasks ts

  pub AllTasks-append : (xs ys : List Ptr) → AllTasks xs → AllTasks ys → AllTasks (xs ++ ys)
  AllTasks-append [] ys h k = k
  AllTasks-append (x ∷ xs) ys (h, hs) k = (h, AllTasks-append xs ys hs k)

  -- The task of a node is found again.
  pub parent-run : (t : Ptr) → IsTask t → list_node_parent (run_node t) run_offset ≡ t
  parent-run t h = ground (arith, in_range t h)

  pub parent-wait : (t : Ptr) → IsTask t → list_node_parent (wait_node t) wait_offset ≡ t
  parent-wait t h = ground (arith, in_range t h)

  -- A wait node is no run node.
  pub wait-not-mem-runs : (t : Ptr) (us : List Ptr) → IsTask t → AllTasks us → wait_node t ∉ runs us
  wait-not-mem-runs t [] h hs = refl
  wait-not-mem-runs t (u ∷ us) h (hu, hs) =
      ground (arith, separate t u h hu, wait-not-mem-runs t us h hs)

  pub run-not-mem-waits : (t : Ptr) (us : List Ptr) → IsTask t → AllTasks us → run_node t ∉ waits us
  run-not-mem-waits t [] h hs = refl
  run-not-mem-waits t (u ∷ us) h (hu, hs) =
      ground (arith, separate t u h hu, run-not-mem-waits t us h hs)

  -- No node is both a run node and a wait node.
  pub runs-apart-waits :
      (ts ws : List Ptr) → AllTasks ts → AllTasks ws → (a : Ptr) → a ∈ waits ws → a ∉ runs ts
  runs-apart-waits ts [] ht hw a i = cc
  runs-apart-waits ts (w ∷ ws) ht (h, hw) a i = elim (Bool-cases (a == wait_node w)) [
    | inl e ↦ let same : a ≡ wait_node w = ground arith in rw same (wait-not-mem-runs w ts h ht)
    | inr ne ↦ runs-apart-waits ts ws ht hw a (ground arith)
  ]

  pub waits-apart-runs :
      (ts ws : List Ptr) → AllTasks ts → AllTasks ws → (a : Ptr) → a ∈ runs ts → a ∉ waits ws
  waits-apart-runs ts ws ht hw = apart_sym (waits ws) (runs ts) (runs-apart-waits ts ws ht hw)
