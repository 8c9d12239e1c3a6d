-- ===== src/Ipc/Mutex/History/Steps.antt =====
-- What a call of source/kernel/ipc/mutex.c by the running task does to the tasks that use the mutex.
use start.Base.{
  ◌+◌, ◌-◌, ◌<◌, ◌^◌, ◌≡◌, ◌≢◌, ◌⊎◌, inl, inr, sym, ap, subst, ◌∙◌, arith, Bool-cases, ◌==◌, List,
  [], ◌∷◌, ◌++◌, Ptr,
}
use start.Tools.LinkedList.Links.{◌∉◌, has-append, length-append}
use start.Core.Sched.{Sched}
use start.Ipc.Wait.Layout.{Layout}
use start.Ipc.Wait.Queue.{not_waiting, left_once}
use start.Ipc.Wait.Turns.{yield-Blocking}
use start.Ipc.Mutex.{Mutex}
use start.Ipc.Mutex.Contract.{Acquires, Suspends, lock_free, lock_again, lock_taken}
use start.Ipc.Mutex.Unlock.{Frees, Hands, StillHeld, Passes, unlock-Guarded, unlock_other}
use start.Ipc.Mutex.History.{System, Sound, called, after_lock, after_unlock, after_yield}

-- `t` runs.
module _ (m : Layout) (s : System) (t : Ptr) (ts ss ws : List Ptr)
    (i : Sound m s (t ∷ ts) ss ws) where
  open i use {guarded, current, room, owner_depth, waiter_depth, owner_inside}

  out : t ∉ ws
  out = not_waiting m s.sched s.mutex.wait_list t ts ss ws guarded.blocking

  -- A task that is not inside knows of no hold.
  depth_free : (s.mutex.locked_count ≡ 0) ⊎ (s.mutex.owner ≢ t) → s.depth t ≡ 0
  depth_free h = elim (Bool-cases (s.depth t == 0)) [
    | inl e ↦ ground arith
    | inr e ↦
        let (a, b) = owner_inside t (ground arith, out) in
        absurd (elim h [ inl z ↦ a z | inr ne ↦ ne b ])
  ]

  acquired :
      (r : Sched × Mutex)
      → (s.mutex.locked_count ≡ 0) ⊎ (s.mutex.owner ≡ t)
      → s.depth t ≡ s.mutex.locked_count
      → Acquires m s.sched s.mutex t ts ss ws guarded current r
      → Sound m (called s r (s.depth s.sched.curr_task + 1)) (t ∷ ts) ss ws
  acquired r prior know (same, own, count, g) = record {
    guarded = g;
    current = ap (λ k. k.curr_task) same ∙ current;
    room = room;
    owner_depth = λ h. ground (arith, know, count, own, current);
    waiter_depth = λ u w. ground (arith, waiter_depth u, current, out);
    owner_inside = λ u (d, w). ground (arith, owner_inside u, current, own, count, prior);
  }

  suspended :
      (r : Sched × Mutex)
      → s.mutex.locked_count ≢ 0
      → s.mutex.owner ≢ t
      → Suspends m s.sched s.mutex t ts ss ws guarded current r
      → Sound m (called s r (s.depth s.sched.curr_task + 1)) ts ss (ws ++ t ∷ [])
  suspended r h ne (own, count, next, g) = record {
    guarded = g;
    current = next;
    room = omega (arith, length-append ws (t ∷ []));
    owner_depth = λ h'. ground (arith, owner_depth h, own, count, current);
    waiter_depth = λ u w.
        ground (arith, waiter_depth u, current, has-append u ws (t ∷ []), depth_free (inr ne));
    owner_inside =
        λ u (d, w). ground (arith, owner_inside u, current, own, count, has-append u ws (t ∷ []));
  }

  pub lock-Sound :
      s.mutex.locked_count + 1 < 2 ^ 31
      → Sound m (after_lock s) (t ∷ ts) ss ws ⊎ Sound m (after_lock s) ts ss (ws ++ t ∷ [])
  lock-Sound fits = elim (Bool-cases (s.mutex.locked_count == 0)) [
    | inl z ↦
        let free : s.mutex.locked_count ≡ 0 = ground arith in
        inl (
          acquired _ (inl free) (depth_free (inl free) ∙ sym free)
            (lock_free m s.sched s.mutex t ts ss ws guarded current free))
    | inr nz ↦
        let taken : s.mutex.locked_count ≢ 0 = ground arith in
        elim (Bool-cases (s.mutex.owner == t)) [
          | inl e ↦
              let own : s.mutex.owner ≡ t = ground arith in
              inl (
                acquired _ (inr own) (ap s.depth (sym own) ∙ owner_depth taken)
                  (lock_again m s.sched s.mutex t ts ss ws guarded current taken own fits))
          | inr e ↦
              let ne : s.mutex.owner ≢ t = ground arith in
              inr (
                suspended _ taken ne (
                  lock_taken m s.sched s.mutex t ts ss ws guarded current taken ne
                    (omega (arith, room))))
        ]
  ]

  kept :
      (r : Sched × Mutex)
      → r ≡ (s.sched, s.mutex)
      → s.depth t ≡ 0
      → Sound m (called s r (s.depth s.sched.curr_task - 1)) (t ∷ ts) ss ws
  kept r same none =
      subst (λ r. Sound m (called s r (s.depth s.sched.curr_task - 1)) (t ∷ ts) ss ws) (sym same)
        (record {
          guarded = guarded;
          current = current;
          room = room;
          owner_depth = λ h. ground (arith, owner_depth h, current, none);
          waiter_depth = λ u w. ground (arith, waiter_depth u, current, out);
          owner_inside = λ u (d, w). ground (arith, owner_inside u, current, none);
        })

  pub still_held :
      (r : Sched × Mutex)
      → s.mutex.owner ≡ t
      → s.depth t ≡ s.mutex.locked_count
      → 1 < s.mutex.locked_count
      → StillHeld m s.sched s.mutex t ts ss current ws r
      → Sound m (called s r (s.depth s.sched.curr_task - 1)) (t ∷ ts) ss ws
  still_held r before know many (same, own, count, g) = record {
    guarded = g;
    current = ap (λ k. k.curr_task) same ∙ current;
    room = room;
    owner_depth = λ h. ground (arith, know, count, own, current);
    waiter_depth = λ u w. ground (arith, waiter_depth u, current, out);
    owner_inside = λ u (d, w). ground (arith, owner_inside u, current, own, before, count);
  }

freed :
    (m : Layout) (s : System) (t : Ptr) (ts ss : List Ptr) (i : Sound m s (t ∷ ts) ss [])
    → (r : Sched × Mutex) → s.mutex.owner ≡ t
    → s.depth t ≡ 1
    → Frees m s.sched s.mutex t ts ss i.current r
    → Sound m (called s r (s.depth s.sched.curr_task - 1)) (t ∷ ts) ss []
freed m s t ts ss i r own know (same, count, g) = record {
  guarded = g;
  current = ap (λ k. k.curr_task) same ∙ i.current;
  room = i.room;
  owner_depth = λ h. absurd (h count);
  waiter_depth = λ u w. cc;
  owner_inside = λ u (d, w). ground (arith, i.owner_inside u, i.current, own, know);
}

-- The first waiter comes in as the caller goes.
pub handed :
    (m : Layout) (s : System) (t : Ptr) (ts ss : List Ptr) (w : Ptr) (ws : List Ptr)
    (i : Sound m s (t ∷ ts) ss (w ∷ ws))
    → (r : Sched × Mutex) → s.mutex.owner ≡ t
    → s.depth t ≡ 1
    → Hands m s.sched s.mutex t ts ss i.current w ws r
    → Sound m (called s r (s.depth s.sched.curr_task - 1)) ((t ∷ ts) ++ w ∷ []) ss ws
handed m s t ts ss w ws i r before know (own, count, curr, g) =
    let t_out = not_waiting m s.sched s.mutex.wait_list t ts ss (w ∷ ws) i.guarded.blocking in
    let once = left_once m s.sched s.mutex.wait_list w (t ∷ ts) ss ws i.guarded.blocking in
    record {
      guarded = g;
      current = curr;
      room = omega (arith, i.room, length-append (t ∷ ts) (w ∷ []));
      owner_depth = λ h. ground (arith, i.waiter_depth w, own, count, i.current, t_out);
      waiter_depth = λ u x. ground (arith, i.waiter_depth u, i.current, t_out);
      owner_inside =
          λ u (d, x). ground (arith, i.owner_inside u, i.current, own, count, before, know);
    }

pub yield-Sound :
    (m : Layout) (s : System) (t : Ptr) (ts ss ws : List Ptr)
    → Sound m s (t ∷ ts) ss ws
    → Sound m (after_yield s) (ts ++ t ∷ []) ss ws
yield-Sound m s t ts ss ws i =
    let g = i.guarded in
    let (b, next) = yield-Blocking m s.sched s.mutex.wait_list t ts ss ws g.blocking i.current in
    record {
      guarded = record { blocking = b; free = g.free; held = g.held; small = g.small };
      current = next;
      room = omega (arith, i.room, length-append ts (t ∷ []));
      owner_depth = i.owner_depth;
      waiter_depth = i.waiter_depth;
      owner_inside = i.owner_inside;
    }

-- The last release, with the waiters `ws`.
abbrev pub SoundPassed : Layout → System → List Ptr → List Ptr → List Ptr → Type 0
SoundPassed m s ts ss [] = Sound m s ts ss []
SoundPassed m s ts ss (w ∷ ws) = Sound m s (ts ++ w ∷ []) ss ws

passed :
    (m : Layout) (s : System) (t : Ptr) (ts ss ws : List Ptr) (i : Sound m s (t ∷ ts) ss ws)
    → (r : Sched × Mutex) → s.mutex.owner ≡ t
    → s.depth t ≡ 1
    → Passes m s.sched s.mutex t ts ss i.current ws r
    → SoundPassed m (called s r (s.depth s.sched.curr_task - 1)) (t ∷ ts) ss ws
passed m s t ts ss [] i r own know p = freed m s t ts ss i r own know p
passed m s t ts ss (w ∷ ws) i r own know p = handed m s t ts ss w ws i r own know p

-- What an unlock by the running task does.
pub unlock-Sound :
    (m : Layout) (s : System) (t : Ptr) (ts ss ws : List Ptr)
    → Sound m s (t ∷ ts) ss ws
    → Sound m (after_unlock s) (t ∷ ts) ss ws ⊎ SoundPassed m (after_unlock s) (t ∷ ts) ss ws
unlock-Sound m s t ts ss ws i = elim (Bool-cases (s.mutex.locked_count == 0)) [
  | inl z ↦
      let free : s.mutex.locked_count ≡ 0 = ground arith in
      let none = (i.guarded.free free).0 in
      let busy = m.ne_null t i.guarded.blocking.ready_tasks.0 in
      inl (
        kept m s t ts ss ws i _
          (unlock_other s.sched s.mutex (λ e. busy (sym i.current ∙ sym e ∙ none)))
          (depth_free m s t ts ss ws i (inl free)))
  | inr nz ↦
      let taken : s.mutex.locked_count ≢ 0 = ground arith in
      let know : s.mutex.owner ≡ t → s.depth t ≡ s.mutex.locked_count =
        λ e. ap s.depth (sym e) ∙ i.owner_depth taken in
      elim (unlock-Guarded m s.sched s.mutex t ts ss i.current ws i.guarded (omega (arith, i.room))
        taken) [
          | inl (ne, same) ↦
              inl (kept m s t ts ss ws i _ same (depth_free m s t ts ss ws i (inr ne)))
          | inr (inl (own, many, h)) ↦ inl (still_held m s t ts ss ws i _ own (know own) many h)
          | inr (inr (own, one, p)) ↦ inr (passed m s t ts ss ws i _ own (know own ∙ one) p)
        ]
]
