-- ===== src/Scheduler/Queue.antt =====
-- src/scheduler.rs: the ready queue and the set beside it, over all events.
use flowd.Base.{
  ℕ, ◌≡◌, refl, Bool, true, false, ◌&&◌, ◌||◌, insert, contains_key, Option, none, some, List, [],
  ◌∷◌, ◌++◌, arith, ltb, if◌then◌else◌, length, Str, str_eq_iff, contains, delete, Distinct, get,
  contains-append, contains-delete, Distinct-append, Distinct-delete, Bool-cases, if_elim, inl, inr,
}
use flowd.Api.Context.{Flags, NodeContext, take_wake_at, is_ready}
use flowd.Scheduler.State.{
  Scheduler, TimerWake, enqueue, enqueue_counted, count_queue, raise_flag, set_timer, add_node,
  add_component, signal_ready, signal_flagged, wake_at, stop, new,
}
use flowd.Scheduler.Timers.{
  drain_timers, fire, is_latest, drain_expired_timers, next_valid_timer_deadline,
}
use flowd.Scheduler.Execute.{Reply, Execution, execute_component}
use flowd.Scheduler.Run.{
  World, Phase, polling, executing, executed, halted, aborted, Event, polls, executes, completes,
  signals, wakes, adds_node, adds_component, stops, check_out, pick, poll, add_metrics, retire,
  put_back, take_in, set_wish, poll_phase, execute_phase, complete_phase, after_execution, step,
  run, reached,
}

-- The queue and the set hold the same nodes, and the queue each of them once.
pub record IsPaired (queue set : List Str) : Type 0 where
  pub distinct : Distinct queue
  pub in_sync : (n : Str) → contains set n ≡ contains queue n

abbrev pub Paired : {C : Type 0} → Scheduler C → Type 0
Paired s = IsPaired s.ready_queue s.ready_set

-- And the metric is the length of the queue.
pub record IsQueued {C : Type 0} (s : Scheduler C) : Type 0 where
  pub paired : Paired s
  pub depth : s.metrics.queue_depth ≡ length s.ready_queue

push-IsPaired :
    (n : Str) (queue set : List Str)
    → contains set n ≡ false
    → IsPaired queue set
    → IsPaired (queue ++ n ∷ []) (n ∷ set)
unfolding contains
push-IsPaired n queue set new v = record {
  distinct = Distinct-append queue n v.distinct (ground (arith, v.in_sync n));
  in_sync = λ m. ground (arith, v.in_sync m, contains-append queue n m);
}

delete-IsPaired :
    (n : Str) (queue set : List Str) → IsPaired queue set → IsPaired (delete queue n) (delete set n)
delete-IsPaired n queue set v = record {
  distinct = Distinct-delete queue n v.distinct;
  in_sync = λ m. ground (arith, v.in_sync m, contains-delete queue n m, contains-delete set n m);
}

pop-IsPaired :
    (n : Str) (queue set : List Str) → IsPaired (n ∷ queue) set → IsPaired queue (delete set n)
unfolding contains
pop-IsPaired n queue set v = record {
  distinct = v.distinct.1;
  in_sync = λ m. ground (arith, v.in_sync m, v.distinct.0, contains-delete set n m, str_eq_iff n m);
}

module _ {C : Type 0} where
  pub enqueue-Paired : (n : Str) (s : Scheduler C) → Paired s → Paired (enqueue n s)
  unfolding enqueue
  enqueue-Paired n s v = elim (Bool-cases (contains s.ready_set n)) [
    | inl old ↦ rw old v
    | inr new ↦ rw new (push-IsPaired n s.ready_queue s.ready_set new v)
  ]

  enqueue_counted-IsQueued :
      (n : Str) (s : Scheduler C) → IsQueued s → IsQueued (enqueue_counted n s)
  unfolding enqueue_counted count_queue
  enqueue_counted-IsQueued n s v =
      if_elim IsQueued (contains s.ready_set n) s (count_queue (enqueue n s)) v
        (record { paired = enqueue-Paired n s v.paired; depth = refl })

  pub raise_flag-Paired : (o : Option ℕ) (s : Scheduler C) → Paired s → Paired (raise_flag o s)
  unfolding raise_flag
  raise_flag-Paired none s v = v
  raise_flag-Paired (some a) s v = v

  pub fire-Paired : (t : TimerWake) (s : Scheduler C) → Paired s → Paired (fire t s)
  unfolding fire
  fire-Paired t s v =
      enqueue-Paired t.node_id _ (raise_flag-Paired (get t.node_id s.ready_flags) _ v)

  drain_timers-Paired :
      (now : ℕ) (ts : List TimerWake) (s : Scheduler C) → Paired s → Paired (drain_timers now ts s)
  unfolding drain_timers
  drain_timers-Paired now [] s v = v
  drain_timers-Paired now (t ∷ ts) s v =
      let valid : Bool = is_latest s.timer_latest_by_node t in
      let s' : Scheduler C = if valid then fire t s else s in
      if_elim Paired (valid && ltb now t.when) (record s { timers = t ∷ ts })
        (drain_timers now ts s') v
        (drain_timers-Paired now ts s' (if_elim Paired valid (fire t s) s (fire-Paired t s v) v))

  pub drain_expired_timers-IsQueued :
      (now : ℕ) (s : Scheduler C) → Paired s → IsQueued (drain_expired_timers now s)
  unfolding drain_expired_timers count_queue
  drain_expired_timers-IsQueued now s v = record {
    paired = drain_timers-Paired now s.timers s v;
    depth = refl;
  }

  signal_ready-IsQueued : (n : Str) (s : Scheduler C) → IsQueued s → IsQueued (signal_ready n s).0
  unfolding signal_ready
  signal_ready-IsQueued n s v = go (get n s.ready_flags)
    where
      go : (o : Option ℕ) → IsQueued (signal_flagged n o s).0
      go none = v
      go (some a) =
          enqueue_counted-IsQueued n (raise_flag (some a) s)
            (record { paired = v.paired; depth = v.depth })

  set_timer-IsQueued :
      (n : Str) (o : Option ℕ) (s : Scheduler C) → IsQueued s → IsQueued (set_wish n o s)
  unfolding set_wish set_timer
  set_timer-IsQueued n none s v = v
  set_timer-IsQueued n (some when) s v = record { paired = v.paired; depth = v.depth }

  check_out-IsQueued :
      (n : Str) (c : Option C) (ctx : Option NodeContext) (s : Scheduler C)
      → IsQueued s
      → IsQueued (check_out n c ctx s).scheduler
  unfolding check_out
  check_out-IsQueued n none ctx s v = v
  check_out-IsQueued n (some c) none s v = record { paired = v.paired; depth = v.depth }
  check_out-IsQueued n (some c) (some ctx) s v = record { paired = v.paired; depth = v.depth }

  pick-IsQueued :
      (queue : List Str) (s : Scheduler C)
      → queue ≡ s.ready_queue
      → IsQueued s
      → IsQueued (pick queue s).scheduler
  unfolding pick count_queue next_valid_timer_deadline
  pick-IsQueued [] s e v = record { paired = v.paired; depth = v.depth }
  pick-IsQueued (n ∷ queue) s e v =
      check_out-IsQueued n (get n s.components) (get n s.nodes) _
        (record { paired = pop-IsPaired n queue s.ready_set (rw e v.paired); depth = refl })

  poll-IsQueued : (now : ℕ) (s : Scheduler C) → IsQueued s → IsQueued (poll now s).scheduler
  unfolding poll
  poll-IsQueued now s v =
      let d : Scheduler C = drain_expired_timers now s in
      let dv : IsQueued d = drain_expired_timers-IsQueued now s v.paired in
      if_elim (λ w. IsQueued w.scheduler) d.running (pick d.ready_queue d)
        (record { scheduler = d; phase = halted }) (pick-IsQueued d.ready_queue d refl dv) dv

  put_back-IsQueued :
      (n : Str) (e : Execution C) (s : Scheduler C) → IsQueued s → IsQueued (put_back n e s)
  unfolding put_back
  put_back-IsQueued n e s v =
      let timed : Scheduler C = set_wish n (take_wake_at e.context).1 s in
      let tv : IsQueued timed = set_timer-IsQueued n (take_wake_at e.context).1 s v in
      let back : Scheduler C = record timed {
        components = insert n e.component timed.components;
        nodes = insert n (take_wake_at e.context).0 timed.nodes;
      } in
      let bv : IsQueued back = record { paired = tv.paired; depth = tv.depth } in
      if_elim IsQueued (e.outcome.worked || is_ready e.context s.flags) (enqueue_counted n back)
        back (enqueue_counted-IsQueued n back bv) bv

  take_in-IsQueued :
      (n : Str) (e : Execution C) (s : Scheduler C) → IsQueued s → IsQueued (take_in n e s)
  unfolding take_in add_metrics retire count_queue
  take_in-IsQueued n e s v =
      if_elim IsQueued e.outcome.finished (retire n (add_metrics n e.outcome s))
        (put_back n e (add_metrics n e.outcome s))
        (record { paired = delete-IsPaired n s.ready_queue s.ready_set v.paired; depth = refl })
        (put_back-IsQueued n e (add_metrics n e.outcome s)
          (record { paired = v.paired; depth = v.depth }))

module _ {C : Type 0} (process : C → NodeContext → Flags → Reply C) where
  poll_phase-IsQueued :
      (now : ℕ) (p : Phase C) (s : Scheduler C)
      → IsQueued s
      → IsQueued (poll_phase now p s).scheduler
  poll_phase-IsQueued now polling s v = poll-IsQueued now s v
  poll_phase-IsQueued now (executing n c ctx) s v = v
  poll_phase-IsQueued now (executed n e) s v = v
  poll_phase-IsQueued now halted s v = v
  poll_phase-IsQueued now aborted s v = v

  after_execution-IsQueued :
      (n : Str) (r : Option (Execution C)) (s : Scheduler C)
      → IsQueued s
      → IsQueued (after_execution n r s).scheduler
  after_execution-IsQueued n none s v = v
  after_execution-IsQueued n (some e) s v = record { paired = v.paired; depth = v.depth }

  execute_phase-IsQueued :
      (p : Phase C) (s : Scheduler C) → IsQueued s → IsQueued (execute_phase process p s).scheduler
  execute_phase-IsQueued (executing n c ctx) s v =
      after_execution-IsQueued n (execute_component process c ctx s.flags) s v
  execute_phase-IsQueued polling s v = v
  execute_phase-IsQueued (executed n e) s v = v
  execute_phase-IsQueued halted s v = v
  execute_phase-IsQueued aborted s v = v

  complete_phase-IsQueued :
      (p : Phase C) (s : Scheduler C) → IsQueued s → IsQueued (complete_phase p s).scheduler
  complete_phase-IsQueued (executed n e) s v = take_in-IsQueued n e s v
  complete_phase-IsQueued polling s v = v
  complete_phase-IsQueued (executing n c ctx) s v = v
  complete_phase-IsQueued halted s v = v
  complete_phase-IsQueued aborted s v = v

  pub step-IsQueued :
      (w : World C) (e : Event C) → IsQueued w.scheduler → IsQueued (step process w e).scheduler
  unfolding step wake_at set_timer add_node add_component stop
  step-IsQueued w (polls now) v = poll_phase-IsQueued now w.phase w.scheduler v
  step-IsQueued w executes v = execute_phase-IsQueued w.phase w.scheduler v
  step-IsQueued w completes v = complete_phase-IsQueued w.phase w.scheduler v
  step-IsQueued w (signals n) v = signal_ready-IsQueued n w.scheduler v
  step-IsQueued w (wakes n when) v =
      if_elim (λ (r : Scheduler C × Bool). IsQueued r.0) (contains_key n w.scheduler.nodes)
        (set_timer n when w.scheduler, true) (w.scheduler, false)
        (record { paired = v.paired; depth = v.depth }) v
  step-IsQueued w (adds_node n class now) v = record { paired = v.paired; depth = v.depth }
  step-IsQueued w (adds_component c n) v = record { paired = v.paired; depth = v.depth }
  step-IsQueued w stops v = record { paired = v.paired; depth = v.depth }

  run-IsQueued :
      (w : World C) (es : List (Event C))
      → IsQueued w.scheduler
      → IsQueued (run process w es).scheduler
  unfolding run
  run-IsQueued w [] v = v
  run-IsQueued w (e ∷ es) v = run-IsQueued (step process w e) es (step-IsQueued w e v)

  -- From a new scheduler, whatever the events, the ready queue holds each node at most once, the
  -- ready set holds just the nodes of the queue, and the metric is the queue's length.
  pub run_new-IsQueued : (es : List (Event C)) → IsQueued (reached process es)
  run_new-IsQueued es = run-IsQueued _ es (
      unfold new contains in
      record { paired = record { distinct = tt; in_sync = λ n. refl }; depth = refl })
