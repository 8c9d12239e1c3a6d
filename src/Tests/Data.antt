-- ===== src/Tests/Data.antt =====
-- A small system of three tasks, for the tests of source/kernel/core/task.c and source/kernel/ipc.
use start.Base.{
  ◌+◌, ◌^◌, ◌≤◌, ◌≡◌, ◌≢◌, ◌⊎◌, inl, inr, refl, arith, [], ◌∷◌, if◌then◌else◌, ◌==◌, Ptr, null,
}
use start.Tools.LinkedList.{Nodes, LinkedList}
use start.Tools.LinkedList.Links.{IsList}
use start.Core.Sched.{Sched, Task, running, ready, sleep, run_node, wait_node}
use start.Core.Sched.Yield.{Turn, AllRunnable}
use start.Ipc.Wait.Layout.{Layout, Separate}
use start.Ipc.Wait.Queue.{Blocking}
use start.Ipc.Mutex.{Mutex}
use start.Ipc.Mutex.Contract.{Guarded}
use start.Ipc.Sem.{Sem}
use start.Ipc.Sem.Contract.{Counted}

abbrev pub idle : Ptr
idle = 0x400

abbrev pub task_a : Ptr
task_a = 0x1000

abbrev pub task_b : Ptr
task_b = 0x2000

abbrev pub task_c : Ptr
task_c = 0x3000

abbrev pub run_a : Ptr
run_a = run_node task_a

abbrev pub run_b : Ptr
run_b = run_node task_b

abbrev pub run_c : Ptr
run_c = run_node task_c

-- The run nodes of the first two are linked; all others are alone.
abbrev pub nodes : Nodes
nodes p =
    if p == run_node task_a
    then record { pre = null; next = run_node task_b }
    else if p == run_node task_b
    then record { pre = run_node task_a; next = null }
    else record { pre = null; next = null }

abbrev pub empty : LinkedList
empty = record { first = null; last = null; count = 0 }

abbrev pub ready_two : LinkedList
ready_two = record { first = run_node task_a; last = run_node task_b; count = 2 }

-- The third task sleeps for one more tick; slices have two ticks left.
abbrev pub tasks : Ptr → Task
tasks p = record {
  state = if p == task_a then running else if p == task_c then sleep else ready;
  sleep_ticks = if p == task_c then 1 else 0;
  time_ticks = 10;
  slice_ticks = 2;
  tss_sel = 0x28;
}

abbrev pub sleeping : Sched
sleeping = record {
  nodes = nodes;
  tasks = tasks;
  curr_task = task_a;
  ready_list = ready_two;
  task_list = empty;
  sleep_list = record { first = run_node task_c; last = run_node task_c; count = 1 };
  idle_task = idle;
  jumps = [];
}

pub ready_two-IsList : IsList nodes ready_two (run_node task_a ∷ run_node task_b ∷ [])
ready_two-IsList = record {
  links = (omega arith, refl, refl, refl, (omega arith, refl, refl, refl, tt));
  first = refl;
  last = refl;
  count = refl;
  short = omega arith;
}

pub sleeping-Turn : Turn sleeping (run_node task_a ∷ run_node task_b ∷ []) (run_node task_c ∷ [])
sleeping-Turn = record {
  queues = record {
    readies = ready_two-IsList;
    sleepers = record {
      links = (omega arith, refl, refl, refl, tt);
      first = refl;
      last = refl;
      count = refl;
      short = omega arith;
    };
    apart = λ a i. ground arith;
  };
  current = refl;
  runnable = ((refl, omega arith), ((refl, omega arith), tt));
}

pub sleepers-runnable : AllRunnable idle (run_node task_c ∷ [])
sleepers-runnable = ((refl, omega arith), tt)

-- The same system where the slice of the first task ends with the next tick.
abbrev pub ending : Sched
ending = record sleeping { tasks = λ p. record (tasks p) { slice_ticks = 1 } }

pub ending-Turn : Turn ending (run_node task_a ∷ run_node task_b ∷ []) (run_node task_c ∷ [])
ending-Turn = record {
  queues = record {
    readies = sleeping-Turn.queues.readies;
    sleepers = sleeping-Turn.queues.sleepers;
    apart = sleeping-Turn.queues.apart;
  };
  current = refl;
  runnable = sleeping-Turn.runnable;
}

abbrev pub IsOurs : Ptr → Type 0
IsOurs t = (t ≡ task_a) ⊎ (t ≡ task_b) ⊎ (t ≡ task_c)

pub ours-Separate : (t u : Ptr) → IsOurs t → IsOurs u → Separate t u
ours-Separate t u h k = ground arith

pub ours_busy : (t : Ptr) → IsOurs t → t ≢ idle
ours_busy t h = ground arith

pub ours_in_range : (t : Ptr) → IsOurs t → t + 200 ≤ 2 ^ 32
ours_in_range t h = ground arith

pub ours_ne_null : (t : Ptr) → IsOurs t → t ≢ null
ours_ne_null t h = ground arith

abbrev pub layout : Layout
layout = record {
  IsTask = IsOurs;
  idle = idle;
  separate = ours-Separate;
  busy = ours_busy;
  in_range = ours_in_range;
  ne_null = ours_ne_null;
}

-- The third task waits, on a list of its own, and none sleeps.
abbrev pub waiting : Sched
waiting = record sleeping { sleep_list = empty }

abbrev pub wait_one : LinkedList
wait_one = record { first = wait_node task_c; last = wait_node task_c; count = 1 }

pub waiting-Blocking : Blocking layout waiting wait_one (task_a ∷ task_b ∷ []) [] (task_c ∷ [])
waiting-Blocking = record {
  queues = record {
    readies = ready_two-IsList;
    sleepers = record { links = tt; first = refl; last = refl; count = refl; short = omega arith };
    apart = λ a i. refl;
  };
  waiting = record {
    links = (omega arith, refl, refl, refl, tt);
    first = refl;
    last = refl;
    count = refl;
    short = omega arith;
  };
  ready_tasks = (inl refl, (inr (inl refl), tt));
  sleep_tasks = tt;
  wait_tasks = (inr (inr refl), tt);
  idle = refl;
  apart = λ t i. ground arith;
}

-- A mutex that a task owns, and a semaphore with no permit, each with the third task waiting.
abbrev pub owned_by : Ptr → Mutex
owned_by t = record { owner = t; locked_count = 1; wait_list = wait_one }

pub owned_by_a : Guarded layout waiting (owned_by task_a) (task_a ∷ task_b ∷ []) [] (task_c ∷ [])
owned_by_a = record {
  blocking = waiting-Blocking;
  free = λ z. absurd (omega arith);
  held = λ _. (inl refl, refl);
  small = omega arith;
}

pub owned_by_b : Guarded layout waiting (owned_by task_b) (task_a ∷ task_b ∷ []) [] (task_c ∷ [])
owned_by_b = record {
  blocking = waiting-Blocking;
  free = λ z. absurd (omega arith);
  held = λ _. (inr (inl refl), refl);
  small = omega arith;
}

abbrev pub sem_zero : Sem
sem_zero = record { count = 0; wait_list = wait_one }

pub sem_zero-Counted : Counted layout waiting sem_zero (task_a ∷ task_b ∷ []) [] (task_c ∷ [])
sem_zero-Counted = record {
  blocking = waiting-Blocking;
  balance = λ h. absurd (h refl);
  small = omega arith;
}
