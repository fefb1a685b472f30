-- ===== src/Scheduler/Deadlines/Events.antt =====
-- src/scheduler.rs: the timers over all events of a run.
use flowd.Base.{
  ℕ, ◌≡◌, Bool, true, false, ◌||◌, Option, none, some, List, [], ◌∷◌, arith, if_elim, Str, get,
  insert, contains, contains_key,
}
use flowd.Api.Context.{Flags, NodeContext, take_wake_at, is_ready}
use flowd.Scheduler.State.{
  Scheduler, enqueue, enqueue_counted, count_queue, raise_flag, set_timer, add_node, add_component,
  signal_ready, signal_flagged, wake_at, stop, new,
}
use flowd.Scheduler.Timers.{drain_expired_timers, next_valid_timer_deadline}
use flowd.Scheduler.Execute.{Reply, Execution, execute_component}
use flowd.Scheduler.Run.{
  World, Phase, polling, executing, executed, halted, aborted, Event, polls, executes, completes,
  signals, wakes, adds_node, adds_component, stops, check_out, pick, poll, add_metrics, retire,
  put_back, take_in, set_wish, poll_phase, execute_phase, complete_phase, after_execution, step,
  run, reached,
}
use flowd.Scheduler.Queue.{run_new-IsQueued}
use flowd.Scheduler.Deadlines.{IsTimed, push-IsTimed, remove-IsTimed, prune-IsTimed}
use flowd.Scheduler.Deadlines.Drain.{
  Drained, drain_expired_timers-Drained, drain_expired_timers-IsTimed,
}

module _ {C : Type 0} where
  abbrev Timed : Scheduler C → Type 0
  Timed s = IsTimed s.timer_latest_by_node s.timers

  enqueue_counted-Timed : (n : Str) (s : Scheduler C) → Timed s → Timed (enqueue_counted n s)
  unfolding enqueue_counted count_queue enqueue
  enqueue_counted-Timed n s v =
      if_elim Timed (contains s.ready_set n) s (count_queue (enqueue n s)) v
        (if_elim Timed (contains s.ready_set n) s _ v v)

  signal_ready-Timed : (n : Str) (s : Scheduler C) → Timed s → Timed (signal_ready n s).0
  unfolding signal_ready
  signal_ready-Timed n s v = go (get n s.ready_flags)
    where
      go : (o : Option ℕ) → Timed (signal_flagged n o s).0
      go none = v
      go (some a) = enqueue_counted-Timed n (raise_flag (some a) s) v

  set_timer-Timed : (n : Str) (when : ℕ) (s : Scheduler C) → Timed s → Timed (set_timer n when s)
  unfolding set_timer
  set_timer-Timed n when s v = push-IsTimed n when s.timer_latest_by_node s.timers v

  set_wish-Timed : (n : Str) (o : Option ℕ) (s : Scheduler C) → Timed s → Timed (set_wish n o s)
  unfolding set_wish
  set_wish-Timed n none s v = v
  set_wish-Timed n (some when) s v = set_timer-Timed n when s v

  check_out-Timed :
      (n : Str) (c : Option C) (ctx : Option NodeContext) (s : Scheduler C)
      → Timed s
      → Timed (check_out n c ctx s).scheduler
  unfolding check_out
  check_out-Timed n none ctx s v = v
  check_out-Timed n (some c) none s v = v
  check_out-Timed n (some c) (some ctx) s v = v

  pick-Timed : (queue : List Str) (s : Scheduler C) → Timed s → Timed (pick queue s).scheduler
  unfolding pick count_queue next_valid_timer_deadline
  pick-Timed [] s v = prune-IsTimed s.timer_latest_by_node s.timers v
  pick-Timed (n ∷ queue) s v = check_out-Timed n (get n s.components) (get n s.nodes) _ v

  poll_phase-Timed :
      (now : ℕ) (p : Phase C) (s : Scheduler C) → Timed s → Timed (poll_phase now p s).scheduler
  unfolding poll
  poll_phase-Timed now polling s v =
      let d : Scheduler C = drain_expired_timers now s in
      let dv : Timed d = drain_expired_timers-IsTimed now s v in
      if_elim (λ (w : World C). Timed w.scheduler) d.running (pick d.ready_queue d)
        (record { scheduler = d; phase = halted }) (pick-Timed d.ready_queue d dv) dv
  poll_phase-Timed now (executing n c ctx) s v = v
  poll_phase-Timed now (executed n e) s v = v
  poll_phase-Timed now halted s v = v
  poll_phase-Timed now aborted s v = v

  put_back-Timed : (n : Str) (e : Execution C) (s : Scheduler C) → Timed s → Timed (put_back n e s)
  unfolding put_back
  put_back-Timed n e s v =
      let timed : Scheduler C = set_wish n (take_wake_at e.context).1 s in
      let back : Scheduler C = record timed {
        components = insert n e.component timed.components;
        nodes = insert n (take_wake_at e.context).0 timed.nodes;
      } in
      let bv : Timed back = set_wish-Timed n (take_wake_at e.context).1 s v in
      if_elim Timed (e.outcome.worked || is_ready e.context s.flags) (enqueue_counted n back) back
        (enqueue_counted-Timed n back bv) bv

  complete_phase-Timed :
      (p : Phase C) (s : Scheduler C) → Timed s → Timed (complete_phase p s).scheduler
  unfolding take_in retire add_metrics count_queue
  complete_phase-Timed (executed n e) s v =
      if_elim Timed e.outcome.finished (retire n (add_metrics n e.outcome s))
        (put_back n e (add_metrics n e.outcome s))
        (remove-IsTimed n s.timer_latest_by_node s.timers v)
        (put_back-Timed n e (add_metrics n e.outcome s) v)
  complete_phase-Timed polling s v = v
  complete_phase-Timed (executing n c ctx) s v = v
  complete_phase-Timed halted s v = v
  complete_phase-Timed aborted s v = v

module _ {C : Type 0} (process : C → NodeContext → Flags → Reply C) where
  after_execution-Timed :
      (n : Str) (r : Option (Execution C)) (s : Scheduler C)
      → Timed s
      → Timed (after_execution n r s).scheduler
  after_execution-Timed n none s v = v
  after_execution-Timed n (some e) s v = v

  execute_phase-Timed :
      (p : Phase C) (s : Scheduler C) → Timed s → Timed (execute_phase process p s).scheduler
  execute_phase-Timed (executing n c ctx) s v =
      after_execution-Timed n (execute_component process c ctx s.flags) s v
  execute_phase-Timed polling s v = v
  execute_phase-Timed (executed n e) s v = v
  execute_phase-Timed halted s v = v
  execute_phase-Timed aborted s v = v

  step-Timed : (w : World C) (e : Event C) → Timed w.scheduler → Timed (step process w e).scheduler
  unfolding step wake_at add_node add_component stop
  step-Timed w (polls now) v = poll_phase-Timed now w.phase w.scheduler v
  step-Timed w executes v = execute_phase-Timed w.phase w.scheduler v
  step-Timed w completes v = complete_phase-Timed w.phase w.scheduler v
  step-Timed w (signals n) v = signal_ready-Timed n w.scheduler v
  step-Timed w (wakes n when) v =
      if_elim (λ (r : Scheduler C × Bool). Timed r.0) (contains_key n w.scheduler.nodes)
        (set_timer n when w.scheduler, true) (w.scheduler, false)
        (set_timer-Timed n when w.scheduler v) v
  step-Timed w (adds_node n class now) v = v
  step-Timed w (adds_component c n) v = v
  step-Timed w stops v = v

  run-Timed :
      (w : World C) (es : List (Event C)) → Timed w.scheduler → Timed (run process w es).scheduler
  unfolding run
  run-Timed w [] v = v
  run-Timed w (e ∷ es) v = run-Timed (step process w e) es (step-Timed w e v)

  new-Timed : Timed (new {C = C})
  unfolding new get
  new-Timed = record { kept = λ n w h. absurd (ground arith); sorted = tt }

  -- After any events from a new scheduler, draining the timers at an instant decides each node that has
  -- a deadline: one that lies after the instant stays, and one that does not is dropped with the node
  -- in the ready queue.
  pub run_new-Drained :
      (es : List (Event C)) (n : Str) (when now : ℕ)
      → get n (reached process es).timer_latest_by_node ≡ some when
      → Drained n when now (drain_expired_timers now (reached process es))
  run_new-Drained es n when now =
      drain_expired_timers-Drained n when now (reached process es)
        (run_new-IsQueued process es).paired
        (run-Timed (record { scheduler = new; phase = polling }) es new-Timed)
