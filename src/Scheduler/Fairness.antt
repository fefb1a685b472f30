-- ===== src/Scheduler/Fairness.antt =====
-- src/scheduler.rs: the ready queue is first in, first out: no node that is queued starves.
use flowd.Base.{
  ℕ, zero, suc, ◌+◌, ◌≤◌, ◌<◌, ◌≡◌, refl, Bool, true, false, ◌&&◌, ◌||◌, Option, none, some, List,
  [], ◌∷◌, arith, ltb, if◌then◌else◌, head?, tail, sym, Str, str_eq, str_eq_iff, contains, get,
  insert, contains_key, index, index-append, index-delete, Bool-cases, if_elim, ◌⊎◌, inl, inr,
}
use flowd.Api.Context.{Flags, NodeContext, take_wake_at, is_ready}
use flowd.Scheduler.State.{
  Scheduler, TimerWake, enqueue, enqueue_counted, count_queue, raise_flag, set_timer, add_node,
  add_component, signal_ready, signal_flagged, wake_at, stop,
}
use flowd.Scheduler.Timers.{
  drain_timers, fire, is_latest, drain_expired_timers, next_valid_timer_deadline,
}
use flowd.Scheduler.Execute.{Reply, Execution, execute_component}
use flowd.Scheduler.Run.{
  World, Phase, polling, executing, executed, halted, aborted, Event, polls, executes, completes,
  signals, wakes, adds_node, adds_component, stops, check_out, pick, poll, add_metrics, retire,
  put_back, take_in, set_wish, poll_phase, execute_phase, complete_phase, after_execution, step,
}

module _ {C : Type 0} (n : Str) (i : ℕ) where
  -- The node stands at place `i` of the ready queue.
  abbrev pub SitsAt : Scheduler C → Type 0
  SitsAt s = index n s.ready_queue ≡ some i

  enqueue-SitsAt : (m : Str) (s : Scheduler C) → SitsAt s → SitsAt (enqueue m s)
  unfolding enqueue
  enqueue-SitsAt m s h =
      if_elim SitsAt (contains s.ready_set m) s _ h (index-append n m s.ready_queue i h)

  enqueue_counted-SitsAt : (m : Str) (s : Scheduler C) → SitsAt s → SitsAt (enqueue_counted m s)
  unfolding enqueue_counted count_queue
  enqueue_counted-SitsAt m s h =
      if_elim SitsAt (contains s.ready_set m) s (count_queue (enqueue m s)) h (enqueue-SitsAt m s h)

  raise_flag-SitsAt : (o : Option ℕ) (s : Scheduler C) → SitsAt s → SitsAt (raise_flag o s)
  unfolding raise_flag
  raise_flag-SitsAt none s h = h
  raise_flag-SitsAt (some a) s h = h

  fire-SitsAt : (t : TimerWake) (s : Scheduler C) → SitsAt s → SitsAt (fire t s)
  unfolding fire
  fire-SitsAt t s h =
      enqueue-SitsAt t.node_id _ (raise_flag-SitsAt (get t.node_id s.ready_flags) _ h)

  drain_timers-SitsAt :
      (now : ℕ) (ts : List TimerWake) (s : Scheduler C) → SitsAt s → SitsAt (drain_timers now ts s)
  unfolding drain_timers
  drain_timers-SitsAt now [] s h = h
  drain_timers-SitsAt now (t ∷ ts) s h =
      let valid : Bool = is_latest s.timer_latest_by_node t in
      let s' : Scheduler C = if valid then fire t s else s in
      if_elim SitsAt (valid && ltb now t.when) (record s { timers = t ∷ ts })
        (drain_timers now ts s') h
        (drain_timers-SitsAt now ts s' (if_elim SitsAt valid (fire t s) s (fire-SitsAt t s h) h))

  drain_expired_timers-SitsAt :
      (now : ℕ) (s : Scheduler C) → SitsAt s → SitsAt (drain_expired_timers now s)
  unfolding drain_expired_timers count_queue
  drain_expired_timers-SitsAt now s h = drain_timers-SitsAt now s.timers s h

  signal_ready-SitsAt : (m : Str) (s : Scheduler C) → SitsAt s → SitsAt (signal_ready m s).0
  unfolding signal_ready
  signal_ready-SitsAt m s h = go (get m s.ready_flags)
    where
      go : (o : Option ℕ) → SitsAt (signal_flagged m o s).0
      go none = h
      go (some a) = enqueue_counted-SitsAt m (raise_flag (some a) s) h

  set_wish-SitsAt : (m : Str) (o : Option ℕ) (s : Scheduler C) → SitsAt s → SitsAt (set_wish m o s)
  unfolding set_wish set_timer
  set_wish-SitsAt m none s h = h
  set_wish-SitsAt m (some when) s h = h

  put_back-SitsAt :
      (m : Str) (e : Execution C) (s : Scheduler C) → SitsAt s → SitsAt (put_back m e s)
  unfolding put_back
  put_back-SitsAt m e s h =
      let timed : Scheduler C = set_wish m (take_wake_at e.context).1 s in
      let back : Scheduler C = record timed {
        components = insert m e.component timed.components;
        nodes = insert m (take_wake_at e.context).0 timed.nodes;
      } in
      let bh : SitsAt back = set_wish-SitsAt m (take_wake_at e.context).1 s h in
      if_elim SitsAt (e.outcome.worked || is_ready e.context s.flags) (enqueue_counted m back) back
        (enqueue_counted-SitsAt m back bh) bh

  -- Nearer to the front, or where it was.
  abbrev pub SitsWithin : Scheduler C → Type 0
  SitsWithin s = (j : ℕ) × (index n s.ready_queue ≡ some j) × (j ≤ i)

  take_in-SitsWithin :
      (m : Str) (e : Execution C) (s : Scheduler C)
      → e.outcome.finished && str_eq m n ≡ false
      → SitsAt s
      → SitsWithin (take_in m e s)
  unfolding take_in retire add_metrics count_queue
  take_in-SitsWithin m e s other h = elim (Bool-cases e.outcome.finished) [
    | inl over ↦ rw over (index-delete n m s.ready_queue i (ground arith) h)
    | inr goes ↦ rw goes (i, put_back-SitsAt m e _ h, omega arith)
  ]

abbrev pub turn_of : Option Str → ℕ
turn_of none = 0
turn_of (some m) = 1

front_or_next :
    (n : Str) (i : ℕ) (queue : List Str)
    → index n queue ≡ some i
    → (head? queue ≡ some n) ⊎ ((j : ℕ) × (index n (tail queue) ≡ some j) × (j + 1 ≤ i))
unfolding index
front_or_next n i [] h = absurd (ground arith)
front_or_next n zero (m ∷ queue) h = inl (ground (arith, str_eq_iff m n))
front_or_next n (suc i) (m ∷ queue) h = inr (i, ground arith, omega arith)

module _ {C : Type 0} where
  -- The node that an event takes off the queue, and the one that it retires.
  abbrev taken : Phase C → Scheduler C → Option Str
  taken polling s = if s.running then head? s.ready_queue else none
  taken _ s = none

  abbrev pub takes : World C → Event C → Option Str
  takes w (polls now) = taken w.phase (drain_expired_timers now w.scheduler)
  takes w _ = none

  abbrev retired : Phase C → Option Str
  retired (executed n e) = if e.outcome.finished then some n else none
  retired _ = none

  abbrev pub retires : World C → Event C → Option Str
  retires w completes = retired w.phase
  retires w _ = none

  queue-check_out :
      (m : Str) (c : Option C) (ctx : Option NodeContext) (s : Scheduler C)
      → (check_out m c ctx s).scheduler.ready_queue ≡ s.ready_queue
  unfolding check_out
  queue-check_out m none ctx s = refl
  queue-check_out m (some c) none s = refl
  queue-check_out m (some c) (some ctx) s = refl

  queue-pick :
      (queue : List Str) (s : Scheduler C)
      → queue ≡ s.ready_queue
      → (pick queue s).scheduler.ready_queue ≡ tail queue
  unfolding pick count_queue next_valid_timer_deadline
  queue-pick [] s e = sym e
  queue-pick (m ∷ queue) s e = queue-check_out m (get m s.components) (get m s.nodes) _

  -- What an event can do to a queued node: take it off, retire it, or leave it queued, one place
  -- nearer to the front if another node was taken off.
  abbrev Progress : Str → ℕ → World C → World C → Event C → Type 0
  Progress n i w w' e =
      (takes w e ≡ some n)
      ⊎ (retires w e ≡ some n)
      ⊎ ((j : ℕ) × (index n w'.scheduler.ready_queue ≡ some j) × (j + turn_of (takes w e) ≤ i))

  pick_progress :
      (n : Str) (i : ℕ) (queue : List Str) (s : Scheduler C)
      → queue ≡ s.ready_queue
      → index n queue ≡ some i
      → (head? queue ≡ some n)
        ⊎ ((j : ℕ) × (index n (pick queue s).scheduler.ready_queue ≡ some j)
            × (j + turn_of (head? queue) ≤ i))
  pick_progress n i [] s e h = inr (i, rw (queue-pick [] s e) h, omega arith)
  pick_progress n i (m ∷ queue) s e h = elim (front_or_next n i (m ∷ queue) h) [
    | inl front ↦ inl front
    | inr (j, p, q) ↦ inr (j, rw (queue-pick (m ∷ queue) s e) p, q)
  ]

  poll_progress :
      (n : Str) (i now : ℕ) (s : Scheduler C)
      → index n s.ready_queue ≡ some i
      → let d = drain_expired_timers now s in
        ((if d.running then head? d.ready_queue else none) ≡ some n)
        ⊎ ((j : ℕ) × (index n (poll now s).scheduler.ready_queue ≡ some j)
            × (j + turn_of (if d.running then head? d.ready_queue else none) ≤ i))
  unfolding poll
  poll_progress n i now s h =
      let d : Scheduler C = drain_expired_timers now s in
      let dh : SitsAt n i d = drain_expired_timers-SitsAt n i now s h in
      elim d.running
        as (λ b.
          ((if b then head? d.ready_queue else none) ≡ some n)
          ⊎ ((j : ℕ) × (index n
                  (if b
                    then pick d.ready_queue d
                    else record { scheduler = d; phase = halted }).scheduler.ready_queue
                ≡ some j)
              × (j + turn_of (if b then head? d.ready_queue else none) ≤ i))) [
                | true ↦ pick_progress n i d.ready_queue d refl dh
                | false ↦ inr (i, dh, omega arith)
              ]

  poll_phase_progress :
      (n : Str) (i now : ℕ) (p : Phase C) (s : Scheduler C)
      → index n s.ready_queue ≡ some i
      → (taken p (drain_expired_timers now s) ≡ some n)
        ⊎ ((j : ℕ) × (index n (poll_phase now p s).scheduler.ready_queue ≡ some j)
            × (j + turn_of (taken p (drain_expired_timers now s)) ≤ i))
  poll_phase_progress n i now polling s h = poll_progress n i now s h
  poll_phase_progress n i now (executing m c ctx) s h = inr (i, h, omega arith)
  poll_phase_progress n i now (executed m e) s h = inr (i, h, omega arith)
  poll_phase_progress n i now halted s h = inr (i, h, omega arith)
  poll_phase_progress n i now aborted s h = inr (i, h, omega arith)

  complete_phase_progress :
      (n : Str) (i : ℕ) (p : Phase C) (s : Scheduler C)
      → index n s.ready_queue ≡ some i
      → (retired p ≡ some n) ⊎ SitsWithin n i (complete_phase p s).scheduler
  complete_phase_progress n i (executed m e) s h =
      elim (Bool-cases (e.outcome.finished && str_eq m n)) [
        | inl over ↦ inl (ground (arith, str_eq_iff m n))
        | inr other ↦ inr (take_in-SitsWithin n i m e s other h)
      ]
  complete_phase_progress n i polling s h = inr (i, h, omega arith)
  complete_phase_progress n i (executing m c ctx) s h = inr (i, h, omega arith)
  complete_phase_progress n i halted s h = inr (i, h, omega arith)
  complete_phase_progress n i aborted s h = inr (i, h, omega arith)

module _ {C : Type 0} (process : C → NodeContext → Flags → Reply C) where
  queue-after_execution :
      (n : Str) (r : Option (Execution C)) (s : Scheduler C)
      → (after_execution n r s).scheduler.ready_queue ≡ s.ready_queue
  queue-after_execution n none s = refl
  queue-after_execution n (some e) s = refl

  queue-execute_phase :
      (p : Phase C) (s : Scheduler C)
      → (execute_phase process p s).scheduler.ready_queue ≡ s.ready_queue
  queue-execute_phase (executing n c ctx) s =
      queue-after_execution n (execute_component process c ctx s.flags) s
  queue-execute_phase polling s = refl
  queue-execute_phase (executed n e) s = refl
  queue-execute_phase halted s = refl
  queue-execute_phase aborted s = refl

  step-Progress :
      (n : Str) (i : ℕ) (w : World C) (e : Event C)
      → index n w.scheduler.ready_queue ≡ some i
      → Progress n i w (step process w e) e
  unfolding step wake_at set_timer add_node add_component stop
  step-Progress n i w (polls now) h = elim (poll_phase_progress n i now w.phase w.scheduler h) [
    | inl p ↦ inl p
    | inr q ↦ inr (inr q)
  ]
  step-Progress n i w executes h =
      inr (inr (i, rw (queue-execute_phase w.phase w.scheduler) h, omega arith))
  step-Progress n i w completes h = elim (complete_phase_progress n i w.phase w.scheduler h) [
    | inl p ↦ inr (inl p)
    | inr (j, p, q) ↦ inr (inr (j, p, omega arith))
  ]
  step-Progress n i w (signals m) h =
      inr (inr (i, signal_ready-SitsAt n i m w.scheduler h, omega arith))
  step-Progress n i w (wakes m when) h = inr (
      inr (
        i,
        if_elim (λ (r : Scheduler C × Bool). SitsAt n i r.0) (contains_key m w.scheduler.nodes)
            (set_timer m when w.scheduler, true) (w.scheduler, false) h h,
        omega arith,
      ))
  step-Progress n i w (adds_node m class now) h = inr (inr (i, h, omega arith))
  step-Progress n i w (adds_component c m) h = inr (inr (i, h, omega arith))
  step-Progress n i w stops h = inr (inr (i, h, omega arith))

  -- How often the events take a node off the queue.
  abbrev pub turns : World C → List (Event C) → ℕ
  turns w [] = 0
  turns w (e ∷ es) = turn_of (takes w e) + turns (step process w e) es

  -- Some event takes the node off the queue, or retires it.
  abbrev pub Served : Str → World C → List (Event C) → Type 0
  Served n w [] = ⊥
  Served n w (e ∷ es) =
      (takes w e ≡ some n) ⊎ (retires w e ≡ some n) ⊎ Served n (step process w e) es

  -- A node that stands at place `i` of the ready queue is taken off it, or retired as finished, by the
  -- time that the loop has taken off more than `i` nodes, whatever else happens in between.
  pub queued-Served :
      (n : Str) (i : ℕ) (w : World C) (es : List (Event C))
      → index n w.scheduler.ready_queue ≡ some i
      → i < turns w es
      → Served n w es
  queued-Served n i w [] h k = absurd (omega arith)
  queued-Served n i w (e ∷ es) h k = elim (step-Progress n i w e h) [
    | inl p ↦ inl p
    | inr (inl p) ↦ inr (inl p)
    | inr (inr (j, p, q)) ↦ inr (inr (queued-Served n j (step process w e) es p (omega arith)))
  ]
