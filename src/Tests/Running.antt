-- ===== src/Tests/Running.antt =====
-- src/scheduler.rs: the theorems on the scheduler, at a component that counts down.
use flowd.Base.{
  ℕ, zero, suc, ◌-◌, ◌<◌, ◌^◌, ◌≡◌, refl, false, none, some, List, [], ◌∷◌, arith, Str, bytes,
  index, get, length, contains, delete, insert, remove, str_eq,
}
use flowd.Api.Context.{did_work, no_work, normal, heavy, budget, new_context, NodeContext, Flags}
use flowd.Scheduler.State.{
  Scheduler, create_waker, new, add_node, add_component, signal_ready, wake_at, push_timer,
}
use flowd.Scheduler.Timers.{drain_expired_timers}
use flowd.Scheduler.Execute.{Reply, Execution, execute_component, start, Ends, breaks_contract}
use flowd.Scheduler.Run.{
  World, polling, executing, Event, polls, signals, wakes, adds_node, adds_component, step, run,
  reached, poll,
}
use flowd.Scheduler.Fairness.{Served, turns, queued-Served}
use flowd.Scheduler.Queue.{IsQueued, run_new-IsQueued}
use flowd.Scheduler.Execute.Budget.{Holds, execute_component-Ends}
use flowd.Scheduler.Execute.Outcome.{IsReported, execute_component-IsReported}
use flowd.Scheduler.Execute.Steady.{IsSteady, execute_component_steady}
use flowd.Scheduler.Execute.Counters.{IsCounted, execute_component-IsCounted}
use flowd.Scheduler.Deadlines.Drain.{Drained}
use flowd.Scheduler.Deadlines.Events.{run_new-Drained}
use flowd.Scheduler.Signals.{signalled-Served, wake_at_executing}

-- As many units of work as are left; each call does one and takes a millisecond.
abbrev counts_down : ℕ → NodeContext → Flags → Reply ℕ
counts_down zero ctx flags = record {
  result = some no_work;
  component = zero;
  context = ctx;
  flags = flags;
  elapsed = 1_000_000;
  now = 5;
}
counts_down (suc n) ctx flags = record {
  result = some (did_work 1);
  component = n;
  context = ctx;
  flags = flags;
  elapsed = 1_000_000;
  now = 5;
}

-- There is always one unit of work, and the call takes it off the budget.
abbrev works_on : ℕ → NodeContext → Flags → Reply ℕ
works_on n ctx flags = record {
  result = some (did_work 1);
  component = n;
  context = record ctx { remaining_budget = ctx.remaining_budget - 1 };
  flags = flags;
  elapsed = 1_000_000;
  now = 5;
}

abbrev a : Str
a = bytes "a"

abbrev b : Str
b = bytes "b"

abbrev ctx_a : NodeContext
ctx_a = record {
  node_id = a;
  budget_class = heavy;
  remaining_budget = 0;
  last_execution = 0;
  execution_count = 0;
  work_units_processed = 0;
  ready_signal = 0;
  wake_at = none;
  timer_fired_at = none;
}

abbrev no_flags : Flags
no_flags x = false

-- Two nodes, of which the second has its component already; the first is signalled, and waits for a
-- deadline too.
abbrev setup : List (Event ℕ)
setup =
    adds_node a heavy 0 ∷ adds_node b normal 0 ∷ adds_component 2 b ∷ signals a ∷ wakes a 70 ∷ []

abbrev ready : World ℕ
ready = run counts_down (record { scheduler = new; phase = polling }) setup

-- The second is signalled too.
abbrev both : World ℕ
both = step counts_down ready (signals b)

-- The loop picks a node twice: the first has no component, so the round is skipped.
abbrev rounds : List (Event ℕ)
rounds = polls 10 ∷ polls 20 ∷ []

second : index b both.scheduler.ready_queue ≡ some 1
unfolding run step get wake_at signal_ready add_component add_node insert new str_eq contains index
second = refl

two_turns : turns counts_down both rounds ≡ 2
unfolding run step get wake_at signal_ready add_component add_node insert new str_eq contains poll
    drain_expired_timers push_timer delete remove index new_context
two_turns = refl

queued-Served_example : Served counts_down b both rounds
queued-Served_example = queued-Served counts_down b 1 both rounds second (omega (arith, two_turns))

run_new-IsQueued_example : IsQueued (reached counts_down setup)
run_new-IsQueued_example = run_new-IsQueued counts_down setup

execute_component-Ends_example :
    Ends counts_down
      (start counts_down 3 ctx_a no_flags)
      (execute_component counts_down 3 ctx_a no_flags)
execute_component-Ends_example = execute_component-Ends counts_down 3 ctx_a no_flags

small_units :
    (c : ℕ) (ctx : NodeContext) (f : Flags) (u : ℕ)
    → (counts_down c ctx f).result ≡ some (did_work u)
    → u < 2 ^ 32
small_units zero ctx f u h = absurd (ground arith)
small_units (suc c) ctx f u h = ground arith

execute_component-IsReported_example :
    Holds (IsReported (budget heavy)) (execute_component counts_down 3 ctx_a no_flags)
execute_component-IsReported_example =
    execute_component-IsReported counts_down small_units 3 ctx_a no_flags

steady : IsSteady works_on
unfolding breaks_contract
steady = record { works = λ c x f. refl; in_time = λ c x f. refl; modest = λ c x f. omega arith }

execute_component_steady_example :
    (e : Execution ℕ) × (execute_component works_on 3 ctx_a no_flags ≡ some e)
    × (e.outcome.executions ≡ budget heavy)
    × (e.outcome.work_units ≡ budget heavy)
    × (e.context.remaining_budget ≡ 0)
execute_component_steady_example = execute_component_steady works_on steady 3 ctx_a no_flags

keeps_executions :
    (c : ℕ) (x : NodeContext) (f : Flags)
    → (counts_down c x f).context.execution_count ≡ x.execution_count
keeps_executions zero x f = refl
keeps_executions (suc c) x f = refl

keeps_units :
    (c : ℕ) (x : NodeContext) (f : Flags)
    → (counts_down c x f).context.work_units_processed ≡ x.work_units_processed
keeps_units zero x f = refl
keeps_units (suc c) x f = refl

zero_executions : ctx_a.execution_count < 2 ^ 64
zero_executions = ground arith

zero_units : ctx_a.work_units_processed < 2 ^ 64
zero_units = ground arith

execute_component-IsCounted_example :
    Holds (IsCounted 0 0) (execute_component counts_down 3 ctx_a no_flags)
execute_component-IsCounted_example =
    execute_component-IsCounted counts_down keeps_executions keeps_units 3 ctx_a no_flags
      zero_executions zero_units

deadline_a : get a (reached counts_down setup).timer_latest_by_node ≡ some 70
unfolding run step get wake_at signal_ready add_component add_node insert new str_eq contains
deadline_a = refl

run_new-Drained_example : Drained a 70 80 (drain_expired_timers 80 (reached counts_down setup))
run_new-Drained_example = run_new-Drained counts_down setup a 70 80 deadline_a

flag_b : get b ready.scheduler.ready_flags ≡ some 1
unfolding run step get wake_at signal_ready add_component add_node insert new str_eq contains
flag_b = refl

one_queued : length ready.scheduler.ready_queue ≡ 1
unfolding run step get wake_at signal_ready add_component add_node insert new str_eq contains
one_queued = refl

signalled-Served_example : Served counts_down b both rounds
signalled-Served_example =
    signalled-Served counts_down b 1 ready rounds (run_new-IsQueued counts_down setup) flag_b
      (omega (arith, one_queued, two_turns))

-- One node with its component, signalled.
abbrev single : Scheduler ℕ
single = reached counts_down (adds_node a heavy 0 ∷ adds_component 3 a ∷ signals a ∷ [])

picked : (poll 10 single).phase ≡ executing a 3 (new_context a heavy 0 0)
unfolding run step get wake_at signal_ready add_component add_node insert new str_eq contains poll
    drain_expired_timers push_timer delete remove index new_context
picked = refl

wake_at_executing_example :
    (wake_at a 90 (poll 10 single).scheduler ≡ ((poll 10 single).scheduler, false))
    × (create_waker a (poll 10 single).scheduler ≡ none)
wake_at_executing_example = wake_at_executing 10 90 a single 3 (new_context a heavy 0 0) picked
