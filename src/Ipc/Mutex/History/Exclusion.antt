-- ===== src/Ipc/Mutex/History/Exclusion.antt =====
-- No history of calls of source/kernel/ipc/mutex.c lets two tasks in.
use start.Base.{◌+◌, ◌<◌, ◌^◌, ◌≡◌, inl, inr, refl, sym, ◌∙◌, arith, List, [], ◌∷◌, ◌++◌, Ptr}
use start.Tools.LinkedList.Links.{length}
use start.Core.Sched.{Sched}
use start.Ipc.Wait.Layout.{Layout}
use start.Ipc.Wait.Queue.{Blocking, next_ready}
use start.Ipc.Mutex.{mutex_init}
use start.Ipc.Mutex.Contract.{Guarded}
use start.Ipc.Mutex.History.Steps.{lock-Sound, yield-Sound, unlock-Sound, SoundPassed}
use start.Ipc.Mutex.History.{
  System, Step, Reach, Sound, Inside, after_unlock, system_of, locks, unlocks, yields, begin, later,
}

-- The invariant, with some lists.
abbrev pub SomeSound : Layout → System → Type 0
SomeSound m s = (ts : List Ptr) × (ss : List Ptr) × (ws : List Ptr) × Sound m s ts ss ws

SoundPassed-some :
    (m : Layout) (s : System) (ts ss ws : List Ptr) → SoundPassed m s ts ss ws → SomeSound m s
SoundPassed-some m s ts ss [] i = (ts, ss, [], i)
SoundPassed-some m s ts ss (w ∷ ws) i = (ts ++ w ∷ [], ss, ws, i)

step-Sound :
    (m : Layout) (s u : System) (ts ss ws : List Ptr)
    → Sound m s ts ss ws
    → Step m s u
    → SomeSound m u
step-Sound m s u [] ss ws i (locks busy fits) = absurd (busy i.current)
step-Sound m s u [] ss ws i (unlocks busy) = absurd (busy i.current)
step-Sound m s u [] ss ws i (yields busy) = absurd (busy i.current)
step-Sound m s u (t ∷ ts) ss ws i (locks busy fits) = elim (lock-Sound m s t ts ss ws i fits) [
  | inl j ↦ (t ∷ ts, ss, ws, j)
  | inr j ↦ (ts, ss, ws ++ t ∷ [], j)
]
step-Sound m s u (t ∷ ts) ss ws i (unlocks busy) = elim (unlock-Sound m s t ts ss ws i) [
  | inl j ↦ (t ∷ ts, ss, ws, j)
  | inr j ↦ SoundPassed-some m (after_unlock s) (t ∷ ts) ss ws j
]
step-Sound m s u (t ∷ ts) ss ws i (yields busy) =
    (ts ++ t ∷ [], ss, ws, yield-Sound m s t ts ss ws i)

pub Reach-Sound : (m : Layout) (s u : System) → SomeSound m s → Reach m s u → SomeSound m u
Reach-Sound m s u i begin = i
Reach-Sound m s u i (later {t} r step) =
    let (ts, ss, ws, j) = Reach-Sound m s t i r in step-Sound m t u ts ss ws j step

-- Two tasks that are inside are one, and own the mutex.
abbrev pub Excludes : Layout → System → Type 0
Excludes m s =
    (ts : List Ptr) × (ss : List Ptr) × (ws : List Ptr) × Guarded m s.sched s.mutex ts ss ws
    × (s.sched.curr_task ≡ next_ready m.idle ts)
    × ((t u : Ptr) → Inside s ws t → Inside s ws u → (t ≡ u) × (s.mutex.owner ≡ t))

-- In every state that calls of mutex_lock and mutex_unlock by the running task and its yields lead
-- to, from a free mutex, two tasks that have called mutex_lock more often than mutex_unlock and do
-- not wait are one, which owns the mutex; ready and wait list stay well formed and the first ready
-- task runs. Hold count and lists fit a C int.
pub mutual_exclusion :
    (m : Layout) (k : Sched) (ts ss : List Ptr) (u : System)
    → Blocking m k mutex_init.wait_list ts ss []
    → k.curr_task ≡ next_ready m.idle ts
    → length ts + 1 < 2 ^ 31
    → Reach m (system_of k) u
    → Excludes m u
unfolding mutex_init
mutual_exclusion m k ts ss u b c room r =
    let (ts', ss', ws', i) = Reach-Sound m (system_of k) u (ts, ss, [], initial) r in
    (
      ts',
      ss',
      ws',
      i.guarded,
      i.current,
      λ t v p q. (sym (i.owner_inside t p).1 ∙ (i.owner_inside v q).1, (i.owner_inside t p).1),
    )
  where
    initial : Sound m (system_of k) ts ss []
    initial = record {
      guarded = record {
        blocking = b;
        free = λ _. (refl, refl);
        held = λ h. absurd (h refl);
        small = omega arith;
      };
      current = c;
      room = omega arith;
      owner_depth = λ h. absurd (h refl);
      waiter_depth = λ t i. cc;
      owner_inside = λ t (d, o). absurd (d refl);
    }
