-- ===== src/Ipc/Sem/History.antt =====
-- Tasks that use one semaphore of source/kernel/ipc/sem.c, in any order that the scheduler allows.
use start.Base.{
  ℕ, ◌+◌, ◌<◌, ◌^◌, ◌≡◌, ◌≢◌, refl, ap, ◌∙◌, inl, inr, arith, List, [], ◌∷◌, ◌++◌, Ptr,
}
use start.Tools.LinkedList.Links.{length, length-append}
use start.Core.Sched.{Sched, sys_sched_yield}
use start.Ipc.Wait.Layout.{Layout}
use start.Ipc.Wait.Queue.{Blocking, next_ready}
use start.Ipc.Wait.Turns.{yield-Blocking}
use start.Ipc.Sem.{Sem, sem_init, sem_wait, sem_notify}
use start.Ipc.Sem.Contract.{Counted, wait-Counted, notify-Counted}

-- How often sem_wait and sem_notify have been called, by all tasks together.
pub record System : Type 0 where
  pub sched : Sched
  pub sem : Sem
  pub waited : ℕ
  pub notified : ℕ

abbrev pub after_wait : System → System
after_wait s =
    let r = sem_wait s.sched s.sem in record s { sched = r.0; sem = r.1; waited = s.waited + 1 }

abbrev pub after_notify : System → System
after_notify s =
    let r = sem_notify s.sched s.sem in
    record s { sched = r.0; sem = r.1; notified = s.notified + 1 }

abbrev pub after_yield : System → System
after_yield s = record s { sched = sys_sched_yield s.sched }

-- What the task that runs may do, if it is not the idle task. The count fits a C int.
pub data Step (m : Layout) (s : System) : System → Type 0 where
  waits : s.sched.curr_task ≢ m.idle → Step m s (after_wait s)
  notifies : s.sched.curr_task ≢ m.idle → s.sem.count + 1 < 2 ^ 31 → Step m s (after_notify s)
  yields : s.sched.curr_task ≢ m.idle → Step m s (after_yield s)

pub data Reach (m : Layout) (s : System) : System → Type 0 where
  begin : Reach m s s
  later : {t u : System} → Reach m s t → Step m t u → Reach m s u

-- The system before the first call, with a semaphore of `permits`.
abbrev pub system_of : Sched → ℕ → System
system_of k permits = record { sched = k; sem = sem_init permits; waited = 0; notified = 0 }

-- `ts` are ready and `ws` wait. The calls of sem_wait that have come back are those of tasks that do
-- not wait: as many as there have been permits, less those that are left.
pub record Balanced (m : Layout) (permits : ℕ) (s : System) (ts ss ws : List Ptr) : Type 0 where
  pub counted : Counted m s.sched s.sem ts ss ws
  pub current : s.sched.curr_task ≡ next_ready m.idle ts
  pub room : length ts + length ws + 1 < 2 ^ 31
  pub balance : s.waited + s.sem.count ≡ permits + s.notified + length ws

abbrev pub SomeBalanced : Layout → ℕ → System → Type 0
SomeBalanced m permits s =
    (ts : List Ptr) × (ss : List Ptr) × (ws : List Ptr) × Balanced m permits s ts ss ws

module _ (m : Layout) (permits : ℕ) (s : System) (t : Ptr) (ts ss : List Ptr) where
  wait-Balanced :
      (ws : List Ptr) → Balanced m permits s (t ∷ ts) ss ws → SomeBalanced m permits (after_wait s)
  wait-Balanced ws i =
      elim (wait-Counted m s.sched s.sem t ts ss ws i.counted i.current (omega (arith, i.room))) [
        | inl (_, (same, count, c)) ↦ (
          t ∷ ts,
          ss,
          ws,
          record {
            counted = c;
            current = ap (λ k. k.curr_task) same ∙ i.current;
            room = i.room;
            balance = omega (arith, i.balance, count);
          },
        )
        | inr (_, (count, next, c)) ↦ (
          ts,
          ss,
          ws ++ t ∷ [],
          record {
            counted = c;
            current = next;
            room = omega (arith, i.room, length-append ws (t ∷ []));
            balance = omega (arith, i.balance, count, length-append ws (t ∷ []));
          },
        )
      ]

  notify-Balanced :
      (ws : List Ptr)
      → Balanced m permits s (t ∷ ts) ss ws
      → s.sem.count + 1 < 2 ^ 31
      → SomeBalanced m permits (after_notify s)
  notify-Balanced [] i fits =
      let (same, count, c) =
        notify-Counted m s.sched s.sem t ts ss i.current [] i.counted fits
          (omega (arith, i.room)) in
      (
        t ∷ ts,
        ss,
        [],
        record {
          counted = c;
          current = ap (λ k. k.curr_task) same ∙ i.current;
          room = i.room;
          balance = omega (arith, i.balance, count);
        },
      )
  notify-Balanced (w ∷ ws) i fits =
      let (count, curr, c) =
        notify-Counted m s.sched s.sem t ts ss i.current (w ∷ ws) i.counted fits
          (omega (arith, i.room)) in
      (
        (t ∷ ts) ++ w ∷ [],
        ss,
        ws,
        record {
          counted = c;
          current = curr;
          room = omega (arith, i.room, length-append (t ∷ ts) (w ∷ []));
          balance = omega (arith, i.balance, count);
        },
      )

  yield-Balanced :
      (ws : List Ptr) → Balanced m permits s (t ∷ ts) ss ws → SomeBalanced m permits (after_yield s)
  yield-Balanced ws i =
      let c = i.counted in
      let (b, next) = yield-Blocking m s.sched s.sem.wait_list t ts ss ws c.blocking i.current in
      (
        ts ++ t ∷ [],
        ss,
        ws,
        record {
          counted = record { blocking = b; balance = c.balance; small = c.small };
          current = next;
          room = omega (arith, i.room, length-append ts (t ∷ []));
          balance = i.balance;
        },
      )

step-Balanced :
    (m : Layout) (permits : ℕ) (s u : System) (ts ss ws : List Ptr)
    → Balanced m permits s ts ss ws
    → Step m s u
    → SomeBalanced m permits u
step-Balanced m permits s u [] ss ws i (waits busy) = absurd (busy i.current)
step-Balanced m permits s u [] ss ws i (notifies busy fits) = absurd (busy i.current)
step-Balanced m permits s u [] ss ws i (yields busy) = absurd (busy i.current)
step-Balanced m permits s u (t ∷ ts) ss ws i (waits busy) = wait-Balanced m permits s t ts ss ws i
step-Balanced m permits s u (t ∷ ts) ss ws i (notifies busy fits) =
    notify-Balanced m permits s t ts ss ws i fits
step-Balanced m permits s u (t ∷ ts) ss ws i (yields busy) = yield-Balanced m permits s t ts ss ws i

run-Balanced :
    (m : Layout) (permits : ℕ) (s u : System)
    → SomeBalanced m permits s
    → Reach m s u
    → SomeBalanced m permits u
run-Balanced m permits s u i begin = i
run-Balanced m permits s u i (later {t} r step) =
    let (ts, ss, ws, j) = run-Balanced m permits s t i r in
    step-Balanced m permits t u ts ss ws j step

-- In every state that calls of sem_wait and sem_notify by the running task and its yields lead to,
-- the waits that have come back and the permits that are left are as many as the permits at the
-- start and the notifications together, nobody waits while there is a permit, and the lists stay
-- well formed. Counts and lists fit a C int.
pub permits_kept :
    (m : Layout) (k : Sched) (permits : ℕ) (ts ss : List Ptr) (u : System)
    → Blocking m k (sem_init permits).wait_list ts ss []
    → k.curr_task ≡ next_ready m.idle ts
    → length ts + 1 < 2 ^ 31
    → permits < 2 ^ 31
    → Reach m (system_of k permits) u
    → SomeBalanced m permits u
unfolding sem_init
permits_kept m k permits ts ss u b c room small r =
    run-Balanced m permits (system_of k permits) u (ts, ss, [], initial) r
  where
    initial : Balanced m permits (system_of k permits) ts ss []
    initial = record {
      counted = record { blocking = b; balance = λ _. refl; small = small };
      current = c;
      room = omega arith;
      balance = omega arith;
    }
