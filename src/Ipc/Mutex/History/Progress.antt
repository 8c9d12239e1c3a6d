-- ===== src/Ipc/Mutex/History/Progress.antt =====
-- Every task that waits for a mutex of source/kernel/ipc/mutex.c gets it.
use start.Base.{
  ℕ, zero, suc, ◌+◌, ◌-◌, ◌<◌, ◌≡◌, ◌≢◌, inl, inr, refl, sym, ap, subst, ◌∙◌, arith, true, false,
  if◌then◌else◌, ◌==◌, List, [], ◌∷◌, ◌++◌, Ptr,
}
use mathlib.Core.List.{append_assoc}
use start.Tools.LinkedList.Links.{has-append}
use start.Ipc.Wait.Layout.{Layout, not-mem_of_runs}
use start.Ipc.Mutex.Unlock.{unlock-Guarded}
use start.Ipc.Mutex.History.{System, Sound, after_unlock, after_yield}
use start.Ipc.Mutex.History.Steps.{still_held, handed, yield-Sound}

-- The program of each task: it gives back a hold where it owns the mutex, and yields otherwise.
unfoldable pub turn : System → System
turn s = if s.mutex.owner == s.sched.curr_task then after_unlock s else after_yield s

abbrev pub turns : ℕ → System → System
turns zero s = s
turns (suc n) s = turns n (turn s)

turns-add : (a b : ℕ) (s : System) → turns (a + b) s ≡ turns b (turns a s)
turns-add zero b s = let e : zero + b ≡ b = omega arith in rw e refl
turns-add (suc a) b s =
    let e : suc a + b ≡ suc (a + b) = omega arith in rw e (turns-add a b (turn s))

-- The task `o`, one of the ready ones, owns the mutex, and `ws` wait.
pub record Owned (m : Layout) (s : System) (o : Ptr) (ss ws : List Ptr) : Type 0 where
  pub before : List Ptr
  pub behind : List Ptr
  pub sound : Sound m s (before ++ o ∷ behind) ss ws
  pub owner : s.mutex.owner ≡ o
  pub held : s.mutex.locked_count ≢ 0

-- It runs.
pub record AtFront (m : Layout) (s : System) (o : Ptr) (ss ws : List Ptr) : Type 0 where
  pub behind : List Ptr
  pub sound : Sound m s (o ∷ behind) ss ws
  pub owner : s.mutex.owner ≡ o
  pub held : s.mutex.locked_count ≢ 0

turn_yields : (s : System) → s.mutex.owner ≢ s.sched.curr_task → turn s ≡ after_yield s
unfolding turn
turn_yields s ne = let t : (s.mutex.owner == s.sched.curr_task) ≡ false = ground arith in rw t

turn_unlocks : (s : System) → s.mutex.owner ≡ s.sched.curr_task → turn s ≡ after_unlock s
unfolding turn
turn_unlocks s e = let t : (s.mutex.owner == s.sched.curr_task) ≡ true = ground arith in rw t

-- The others yield until it runs.
comes_up :
    (m : Layout) (s : System) (before : List Ptr) (o : Ptr) (behind ss ws : List Ptr)
    → Sound m s (before ++ o ∷ behind) ss ws
    → s.mutex.owner ≡ o
    → s.mutex.locked_count ≢ 0
    → (n : ℕ) × AtFront m (turns n s) o ss ws
comes_up m s [] o behind ss ws i own h =
    (0, record { behind = behind; sound = i; owner = own; held = h })
comes_up m s (p ∷ before) o behind ss ws i own h =
    let others =
      not-mem_of_runs p (before ++ o ∷ behind) i.guarded.blocking.queues.readies.links.3 in
    let ne : o ≢ p = ground (arith, has-append p before (o ∷ behind)) in
    let moved : Sound m (after_yield s) (before ++ o ∷ (behind ++ p ∷ [])) ss ws =
      subst (λ ts. Sound m (after_yield s) ts ss ws) (append_assoc before (o ∷ behind) (p ∷ []))
        (yield-Sound m s p (before ++ o ∷ behind) ss ws i) in
    let (n, front) = comes_up m (after_yield s) before o (behind ++ p ∷ []) ss ws moved own h in
    (
      suc n,
      subst (λ u. AtFront m (turns n u) o ss ws)
          (sym (turn_yields s (λ e. ne (sym own ∙ e ∙ i.current)))) front,
    )

module _ (m : Layout) (s : System) (o : Ptr) (behind ss : List Ptr) (w : Ptr) (ws : List Ptr)
    (i : Sound m s (o ∷ behind) ss (w ∷ ws)) (own : s.mutex.owner ≡ o) where
  know : s.mutex.locked_count ≢ 0 → s.depth o ≡ s.mutex.locked_count
  know h = ap s.depth (sym own) ∙ i.owner_depth h

  unlocks_here : turn s ≡ after_unlock s
  unlocks_here = turn_unlocks s (own ∙ sym i.current)

  -- It keeps the mutex while it has holds.
  holds_on :
      1 < s.mutex.locked_count
      → Sound m (turn s) (o ∷ behind) ss (w ∷ ws)
        × ((turn s).mutex.owner ≡ o)
        × ((turn s).mutex.locked_count + 1 ≡ s.mutex.locked_count)
  holds_on many =
      rw unlocks_here
        (elim (unlock-Guarded m s.sched s.mutex o behind ss i.current (w ∷ ws) i.guarded
          (omega (arith, i.room)) (omega arith)) [
            | inl (ne, _) ↦ absurd (ne own)
            | inr (inl (_, _, h)) ↦
                (still_held m s o behind ss (w ∷ ws) i _ own (know (omega arith)) many h, h.1, h.2)
            | inr (inr (_, one, _)) ↦ absurd (omega arith)
          ])

  -- The first waiter owns it after the last one.
  lets_go : s.mutex.locked_count ≡ 1 → Owned m (turn s) w ss ws
  lets_go one =
      rw unlocks_here
        (elim (unlock-Guarded m s.sched s.mutex o behind ss i.current (w ∷ ws) i.guarded
          (omega (arith, i.room)) (omega arith)) [
            | inl (ne, _) ↦ absurd (ne own)
            | inr (inl (_, many, _)) ↦ absurd (omega arith)
            | inr (inr (_, _, p)) ↦ record {
              before = o ∷ behind;
              behind = [];
              sound = handed m s o behind ss w ws i _ own (know (omega arith) ∙ one) p;
              owner = p.0;
              held = omega (arith, p.1);
            }
          ])

releases :
    (m : Layout) (n : ℕ) (s : System) (o : Ptr) (behind ss : List Ptr) (w : Ptr) (ws : List Ptr)
    → Sound m s (o ∷ behind) ss (w ∷ ws)
    → s.mutex.owner ≡ o
    → s.mutex.locked_count ≡ suc n
    → Owned m (turns (suc n) s) w ss ws
releases m zero s o behind ss w ws i own count = lets_go m s o behind ss w ws i own count
releases m (suc n) s o behind ss w ws i own count =
    let (j, own', count') = holds_on m s o behind ss w ws i own (omega arith) in
    releases m n (turn s) o behind ss w ws j own' (omega arith)

-- From one owner to the next.
next_owner :
    (m : Layout) (s : System) (o : Ptr) (ss : List Ptr) (w : Ptr) (ws : List Ptr)
    → Owned m s o ss (w ∷ ws)
    → (n : ℕ) × Owned m (turns n s) w ss ws
next_owner m s o ss w ws h =
    let (a, f) = comes_up m s h.before o h.behind ss (w ∷ ws) h.sound h.owner h.held in
    let b = (turns a s).mutex.locked_count - 1 in
    (
      a + suc b,
      subst (λ u. Owned m u w ss ws) (sym (turns-add a (suc b) s))
          (releases m b (turns a s) o f.behind ss w ws f.sound f.owner (omega (arith, f.held))),
    )

gets_it :
    (m : Layout) (s : System) (o : Ptr) (ss ahead : List Ptr) (w : Ptr) (ws : List Ptr)
    → Owned m s o ss (ahead ++ w ∷ ws)
    → (n : ℕ) × Owned m (turns n s) w ss ws
gets_it m s o ss [] w ws h = next_owner m s o ss w ws h
gets_it m s o ss (v ∷ ahead) w ws h =
    let (a, h') = next_owner m s o ss v (ahead ++ w ∷ ws) h in
    let (b, h'') = gets_it m (turns a s) v ss ahead w ws h' in
    (a + b, subst (λ u. Owned m u w ss ws) (sym (turns-add a b s)) h'')

-- When each task gives back a hold as often as it runs and owns the mutex, and yields otherwise,
-- every task that waits for a mutex whose owner is ready comes to run and own it.
pub waiter_served :
    (m : Layout) (s : System) (o : Ptr) (ss ahead : List Ptr) (w : Ptr) (behind : List Ptr)
    → Owned m s o ss (ahead ++ w ∷ behind)
    → (n : ℕ) × ((turns n s).sched.curr_task ≡ w) × ((turns n s).mutex.owner ≡ w)
waiter_served m s o ss ahead w behind h =
    let (a, g) = gets_it m s o ss ahead w behind h in
    let (b, f) = comes_up m (turns a s) g.before w g.behind ss behind g.sound g.owner g.held in
    let e = sym (turns-add a b s) in
    (
      a + b,
      subst (λ u. u.sched.curr_task ≡ w) e f.sound.current,
      subst (λ u. u.mutex.owner ≡ w) e f.owner,
    )
