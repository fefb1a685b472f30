-- ===== src/Scheduler/Deadlines/Drain.antt =====
-- src/scheduler.rs: `drain_expired_timers` fires the deadlines that are due, and no others.
use flowd.Base.{
  ℕ, ◌≤◌, ◌<◌, ◌≡◌, refl, Bool, true, false, ◌&&◌, Option, none, some, List, [], ◌∷◌, arith, ltb,
  if◌then◌else◌, if_elim, Str, str_eq, str_eq_iff, HashMap, get, remove, get-remove, contains,
  contains-append, Bool-cases, inl, inr, ◌⊎◌, ltb→lt, subst, ◌∙◌,
}
use flowd.Scheduler.State.{Scheduler, TimerWake, enqueue, count_queue, raise_flag}
use flowd.Scheduler.Timers.{drain_timers, fire, is_latest, drain_expired_timers}
use flowd.Scheduler.Queue.{Paired, fire-Paired, raise_flag-Paired}
use flowd.Scheduler.Deadlines.{
  IsTimed, IsSorted, has_entry, first-le, pop_stale-IsTimed, pop_fired-IsTimed,
}

first_deadline-le :
    (n : Str) (w : ℕ) (t : TimerWake) (ts : List TimerWake)
    → IsSorted (t ∷ ts)
    → has_entry n w (t ∷ ts) ≡ true
    → t.when ≤ w
unfolding has_entry
first_deadline-le n w t ts o h = ground (arith, first-le n w t.when ts o.0)

stale_entry :
    (n : Str) (w : ℕ) (t : TimerWake) (ts : List TimerWake) (latest : HashMap ℕ)
    → has_entry n w (t ∷ ts) ≡ true
    → get n latest ≡ some w
    → is_latest latest t ≡ false
    → has_entry n w ts ≡ true
unfolding has_entry is_latest
stale_entry n w t ts latest h g stale = ground (arith, str_eq_iff t.node_id n)

module _ {C : Type 0} where
  latest-raise_flag :
      (o : Option ℕ) (s : Scheduler C)
      → (raise_flag o s).timer_latest_by_node ≡ s.timer_latest_by_node
  unfolding raise_flag
  latest-raise_flag none s = refl
  latest-raise_flag (some a) s = refl

  latest-enqueue :
      (n : Str) (s : Scheduler C) → (enqueue n s).timer_latest_by_node ≡ s.timer_latest_by_node
  unfolding enqueue
  latest-enqueue n s = ground arith

  pub latest-fire :
      (t : TimerWake) (s : Scheduler C)
      → (fire t s).timer_latest_by_node ≡ remove t.node_id s.timer_latest_by_node
  unfolding fire
  latest-fire t s = latest-enqueue t.node_id _ ∙ latest-raise_flag (get t.node_id s.ready_flags) _

  -- A queued node stays queued.
  abbrev IsReady : Str → Scheduler C → Type 0
  IsReady n s = contains s.ready_queue n ≡ true

  enqueue-IsReady : (n m : Str) (s : Scheduler C) → IsReady n s → IsReady n (enqueue m s)
  unfolding enqueue
  enqueue-IsReady n m s h = ground (arith, contains-append s.ready_queue m n)

  raise_flag-IsReady :
      (n : Str) (o : Option ℕ) (s : Scheduler C) → IsReady n s → IsReady n (raise_flag o s)
  unfolding raise_flag
  raise_flag-IsReady n none s h = h
  raise_flag-IsReady n (some a) s h = h

  fire-IsReady : (n : Str) (t : TimerWake) (s : Scheduler C) → IsReady n s → IsReady n (fire t s)
  unfolding fire
  fire-IsReady n t s h =
      enqueue-IsReady n t.node_id _ (raise_flag-IsReady n (get t.node_id s.ready_flags) _ h)

  drain_timers-IsReady :
      (n : Str) (now : ℕ) (ts : List TimerWake) (s : Scheduler C)
      → IsReady n s
      → IsReady n (drain_timers now ts s)
  unfolding drain_timers
  drain_timers-IsReady n now [] s h = h
  drain_timers-IsReady n now (t ∷ ts) s h =
      let valid : Bool = is_latest s.timer_latest_by_node t in
      let s' : Scheduler C = if valid then fire t s else s in
      if_elim (IsReady n) (valid && ltb now t.when) (record s { timers = t ∷ ts })
        (drain_timers now ts s') h
        (drain_timers-IsReady n now ts s'
          (if_elim (IsReady n) valid (fire t s) s (fire-IsReady n t s h) h))

  -- A fired node is in the queue, as the set holds no other nodes than the queue.
  enqueue_self-IsReady : (n : Str) (s : Scheduler C) → Paired s → IsReady n (enqueue n s)
  unfolding enqueue
  enqueue_self-IsReady n s v =
      ground (arith, v.in_sync n, contains-append s.ready_queue n n, str_eq_iff n n)

  fired-IsReady : (t : TimerWake) (s : Scheduler C) → Paired s → IsReady t.node_id (fire t s)
  unfolding fire
  fired-IsReady t s v =
      enqueue_self-IsReady t.node_id _ (raise_flag-Paired (get t.node_id s.ready_flags) _ v)

  -- A node with no deadline has none after the drain.
  drain_timers-none :
      (n : Str) (now : ℕ) (ts : List TimerWake) (s : Scheduler C)
      → get n s.timer_latest_by_node ≡ none
      → get n (drain_timers now ts s).timer_latest_by_node ≡ none
  unfolding drain_timers
  drain_timers-none n now [] s h = h
  drain_timers-none n now (t ∷ ts) s h =
      let valid : Bool = is_latest s.timer_latest_by_node t in
      let s' : Scheduler C = if valid then fire t s else s in
      let Absent : Scheduler C → Type 0 =
        λ (x : Scheduler C). get n x.timer_latest_by_node ≡ none in
      if_elim Absent (valid && ltb now t.when) (record s { timers = t ∷ ts })
        (drain_timers now ts s') h
        (drain_timers-none n now ts s' (if_elim Absent valid (fire t s) s gone h))
    where
      gone : get n (fire t s).timer_latest_by_node ≡ none
      gone = ground (arith, latest-fire t s, get-remove t.node_id n s.timer_latest_by_node)

  -- What became of a node with a deadline.
  abbrev pub Drained : Str → ℕ → ℕ → Scheduler C → Type 0
  Drained n w now d =
      ((now < w) × (get n d.timer_latest_by_node ≡ some w))
      ⊎ ((w ≤ now) × (get n d.timer_latest_by_node ≡ none) × (contains d.ready_queue n ≡ true))

  due_entry-Drained :
      (n : Str) (w now : ℕ) (t : TimerWake) (ts : List TimerWake) (s : Scheduler C)
      → Paired s
      → has_entry n w (t ∷ ts) ≡ true
      → get n s.timer_latest_by_node ≡ some w
      → ltb now t.when ≡ false
      → is_latest s.timer_latest_by_node t ≡ true
      → (has_entry n w ts ≡ true
          → get n (fire t s).timer_latest_by_node ≡ some w
          → Drained n w now (drain_timers now ts (fire t s)))
      → Drained n w now (drain_timers now ts (fire t s))
  unfolding has_entry is_latest
  due_entry-Drained n w now t ts s v h g due valid ih = elim (Bool-cases (str_eq t.node_id n)) [
    | inl same ↦ inr (
      ground (arith, str_eq_iff t.node_id n),
      drain_timers-none n now ts (fire t s)
          (ground (arith, latest-fire t s, get-remove t.node_id n s.timer_latest_by_node)),
      drain_timers-IsReady n now ts (fire t s) (
          subst (λ m. IsReady m (fire t s)) ((str_eq_iff t.node_id n).0 same)
            (fired-IsReady t s v)),
    )
    | inr other ↦
        ih (ground arith)
          (ground (arith, latest-fire t s, get-remove t.node_id n s.timer_latest_by_node))
  ]

  drain_timers-Drained :
      (n : Str) (w now : ℕ) (ts : List TimerWake) (s : Scheduler C)
      → Paired s
      → IsSorted ts
      → has_entry n w ts ≡ true
      → get n s.timer_latest_by_node ≡ some w
      → Drained n w now (drain_timers now ts s)
  unfolding drain_timers
  drain_timers-Drained n w now [] s v o h g = absurd (unfold has_entry in ground arith)
  drain_timers-Drained n w now (t ∷ ts) s v o h g =
      elim (Bool-cases (is_latest s.timer_latest_by_node t)) [
        | inr stale ↦ rw stale (
            drain_timers-Drained n w now ts s v o.1
              (stale_entry n w t ts s.timer_latest_by_node h g stale) g)
        | inl valid ↦ elim (Bool-cases (ltb now t.when)) [
          | inl early ↦ rw (valid, early) (inl (not_due early, g))
          | inr due ↦
              rw (valid, due)
                (due_entry-Drained n w now t ts s v h g due valid
                  (drain_timers-Drained n w now ts (fire t s) (fire-Paired t s v) o.1))
        ]
      ]
    where
      not_due : ltb now t.when ≡ true → now < w
      not_due early = omega (arith, ltb→lt now t.when early, first_deadline-le n w t ts o h)

  -- What a drain does to a node's deadline, in a heap that is sorted and has its entry.
  pub drain_expired_timers-Drained :
      (n : Str) (w now : ℕ) (s : Scheduler C)
      → Paired s
      → IsTimed s.timer_latest_by_node s.timers
      → get n s.timer_latest_by_node ≡ some w
      → Drained n w now (drain_expired_timers now s)
  unfolding drain_expired_timers count_queue
  drain_expired_timers-Drained n w now s v timed g =
      drain_timers-Drained n w now s.timers s v timed.sorted (timed.kept n w g) g

  drain_timers-IsTimed :
      (now : ℕ) (ts : List TimerWake) (s : Scheduler C)
      → IsTimed s.timer_latest_by_node ts
      → let d = drain_timers now ts s in IsTimed d.timer_latest_by_node d.timers
  unfolding drain_timers
  drain_timers-IsTimed now [] s v = v
  drain_timers-IsTimed now (t ∷ ts) s v = elim (Bool-cases (is_latest s.timer_latest_by_node t)) [
    | inr stale ↦
        rw stale
          (drain_timers-IsTimed now ts s (pop_stale-IsTimed t s.timer_latest_by_node ts stale v))
    | inl valid ↦ elim (Bool-cases (ltb now t.when)) [
      | inl early ↦ rw (valid, early) v
      | inr due ↦
          rw (valid, due)
            (drain_timers-IsTimed now ts (fire t s)
              (rw (latest-fire t s) (pop_fired-IsTimed t s.timer_latest_by_node ts v)))
    ]
  ]

  pub drain_expired_timers-IsTimed :
      (now : ℕ) (s : Scheduler C)
      → IsTimed s.timer_latest_by_node s.timers
      → let d = drain_expired_timers now s in IsTimed d.timer_latest_by_node d.timers
  unfolding drain_expired_timers count_queue
  drain_expired_timers-IsTimed now s v = drain_timers-IsTimed now s.timers s v
