-- ===== src/Scheduler/Run.antt =====
-- src/scheduler.rs: `Scheduler::run`. The loop holds the lock in two sections, one that picks a node
-- and one that takes the outcome in; a component is executed between them, with its component and
-- its context moved out of the maps. The calls of other threads come in where the lock is free, so a
-- run is a sequence of events: `polls` and `completes` are the loop's two sections, `executes` stands
-- between them.
use flowd.Base.{
  ℕ, Bool, not, ◌&&◌, ◌||◌, Option, none, some, List, [], ◌∷◌, is_empty, if◌then◌else◌, Str,
  HashMap, get, insert, remove, delete,
}
use flowd.Api.Context.{BudgetClass, Flags, NodeContext, is_ready, take_wake_at, add_u64}
use flowd.Scheduler.State.{
  Scheduler, new, enqueue_counted, count_queue, set_timer, add_node, add_component, signal_ready,
  wake_at, stop,
}
use flowd.Scheduler.Timers.{drain_expired_timers, next_valid_timer_deadline}
use flowd.Scheduler.Execute.{Reply, Execution, ExecutionOutcome, execute_component}

-- Where the loop's thread is. `halted` has returned, `aborted` has panicked by the contract check.
pub data Phase (C : Type 0) : Type 0 where
  polling : Phase C
  executing : Str → C → NodeContext → Phase C
  executed : Str → Execution C → Phase C
  halted aborted : Phase C

pub record World (C : Type 0) : Type 0 where
  pub scheduler : Scheduler C
  pub phase : Phase C

add_to : Str → ℕ → Option ℕ → HashMap ℕ → HashMap ℕ
add_to n k none m = m
add_to n k (some v) m = insert n (add_u64 v k) m

module _ {C : Type 0} where
  -- The two maps give up the node, or the round is skipped.
  unfoldable pub check_out : Str → Option C → Option NodeContext → Scheduler C → World C
  check_out n none ctx s = record { scheduler = s; phase = polling }
  -- The component is taken out and, as the context is missing, put back.
  check_out n (some c) none s = record {
    scheduler = record s { components = insert n c (remove n s.components) };
    phase = polling;
  }
  check_out n (some c) (some ctx) s = record {
    scheduler = record s { components = remove n s.components; nodes = remove n s.nodes };
    phase = executing n c ctx;
  }

  -- With the timers drained: nothing queued means to wait, else the front of the queue is taken.
  unfoldable pub pick : List Str → Scheduler C → World C
  unfolding check_out
  pick [] s = record { scheduler = (next_valid_timer_deadline s).0; phase = polling }
  pick (n ∷ queue) s =
      let taken : Scheduler C =
        count_queue (record s { ready_queue = queue; ready_set = delete s.ready_set n }) in
      let counted : Scheduler C = record taken {
        metrics = record (taken.metrics) {
          loop_iterations = add_u64 taken.metrics.loop_iterations 1;
        };
      } in
      check_out n (get n s.components) (get n s.nodes) counted

  unfoldable pub poll : ℕ → Scheduler C → World C
  unfolding pick count_queue
  poll now s =
      let drained : Scheduler C = drain_expired_timers now s in
      if drained.running
      then pick drained.ready_queue drained
      else record { scheduler = drained; phase = halted }

  -- The counts of the node, where it has them.
  unfoldable pub add_metrics : Str → ExecutionOutcome → Scheduler C → Scheduler C
  unfolding add_to
  add_metrics n o s = record s {
    metrics = record (s.metrics) {
      executions_per_node =
          add_to n o.executions (get n s.metrics.executions_per_node) s.metrics.executions_per_node;
      work_units_per_node =
          add_to n o.work_units (get n s.metrics.work_units_per_node) s.metrics.work_units_per_node;
    };
  }

  -- A finished node leaves every map and the queue; the last one stops the scheduler.
  unfoldable pub retire : Str → Scheduler C → Scheduler C
  retire n s =
      let gone : Scheduler C = count_queue (record s {
        ready_flags = remove n s.ready_flags;
        timer_latest_by_node = remove n s.timer_latest_by_node;
        ready_set = delete s.ready_set n;
        ready_queue = delete s.ready_queue n;
      }) in
      record gone {
        metrics = record (gone.metrics) {
          time_since_last_execution = remove n gone.metrics.time_since_last_execution;
        };
        running = gone.running && not (is_empty gone.nodes && is_empty gone.components);
      }

  unfoldable pub set_wish : Str → Option ℕ → Scheduler C → Scheduler C
  set_wish n none s = s
  set_wish n (some when) s = set_timer n when s

  -- A node that goes on: its wish to be woken, its place in the maps, and the queue again if it
  -- worked or was signalled meanwhile.
  unfoldable pub put_back : Str → Execution C → Scheduler C → Scheduler C
  unfolding set_wish enqueue_counted
  put_back n e s =
      let ready : Bool = is_ready e.context s.flags in
      let timed : Scheduler C = set_wish n (take_wake_at e.context).1 s in
      let back : Scheduler C = record timed {
        components = insert n e.component timed.components;
        nodes = insert n (take_wake_at e.context).0 timed.nodes;
      } in
      if e.outcome.worked || ready then enqueue_counted n back else back

  unfoldable pub take_in : Str → Execution C → Scheduler C → Scheduler C
  unfolding add_metrics retire put_back count_queue
  take_in n e s =
      let counted : Scheduler C = add_metrics n e.outcome s in
      if e.outcome.finished then retire n counted else put_back n e counted

  abbrev pub after_execution : Str → Option (Execution C) → Scheduler C → World C
  after_execution n none s = record { scheduler = s; phase = aborted }
  after_execution n (some e) s = record {
    scheduler = record s { flags = e.flags };
    phase = executed n e;
  }

  abbrev pub poll_phase : ℕ → Phase C → Scheduler C → World C
  poll_phase now polling s = poll now s
  poll_phase now p s = record { scheduler = s; phase = p }

  abbrev pub complete_phase : Phase C → Scheduler C → World C
  complete_phase (executed n e) s = record { scheduler = take_in n e s; phase = polling }
  complete_phase p s = record { scheduler = s; phase = p }

pub data Event (C : Type 0) : Type 0 where
  polls : ℕ → Event C
  executes completes : Event C
  signals : Str → Event C
  wakes : Str → ℕ → Event C
  adds_node : Str → BudgetClass → ℕ → Event C
  adds_component : C → Str → Event C
  stops : Event C

module _ {C : Type 0} (process : C → NodeContext → Flags → Reply C) where
  abbrev pub execute_phase : Phase C → Scheduler C → World C
  execute_phase (executing n c ctx) s =
      after_execution n (execute_component process c ctx s.flags) s
  execute_phase p s = record { scheduler = s; phase = p }

  unfoldable pub step : World C → Event C → World C
  step w (polls now) = poll_phase now w.phase w.scheduler
  step w executes = execute_phase w.phase w.scheduler
  step w completes = complete_phase w.phase w.scheduler
  step w (signals n) = record w { scheduler = (signal_ready n w.scheduler).0 }
  step w (wakes n when) = record w { scheduler = (wake_at n when w.scheduler).0 }
  step w (adds_node n class now) = record w { scheduler = add_node n class now w.scheduler }
  step w (adds_component c n) = record w { scheduler = add_component c n w.scheduler }
  step w stops = record w { scheduler = stop w.scheduler }

  unfoldable pub run : World C → List (Event C) → World C
  run w [] = w
  run w (e ∷ es) = run (step w e) es

  -- The scheduler after the events, from a new one.
  abbrev pub reached : List (Event C) → Scheduler C
  reached es = (run (record { scheduler = new; phase = polling }) es).scheduler
