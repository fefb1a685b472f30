-- ===== src/Scheduler/Execute.antt =====
-- src/scheduler.rs: `Scheduler::execute_component`. A component is a state with a `process`
-- function; a call may change the component, its context and the shared flags, and may panic.
-- The feature `enforce-process-non-blocking-contract` is on, as by default: a call that took longer
-- than the limit panics outside `catch_unwind`, which ends the scheduler's thread.
pub mod Budget
pub mod Counters
pub mod Outcome
pub mod Steady
use flowd.Base.{
  ℕ, zero, suc, ◌+◌, ◌-◌, ◌≤◌, ◌<◌, max, min, ◌≡◌, refl, Bool, true, false, Option, none, some,
  arith, ◌==◌, ltb, if◌then◌else◌,
}
use flowd.Api.Context.{
  ProcessResult, did_work, no_work, finished, Flags, NodeContext, budget, clear_ready, take_wake_at,
  add_u64,
}

-- `PROCESS_CALL_MAX_BLOCKING`, in nanoseconds.
abbrev pub process_call_max_blocking : ℕ
process_call_max_blocking = 10_000_000

-- What a call of `process` leaves, how long it took and the instant read after it; no result is a
-- panic.
pub record Reply (C : Type 0) : Type 0 where
  pub result : Option ProcessResult
  pub component : C
  pub context : NodeContext
  pub flags : Flags
  pub elapsed : ℕ
  pub now : ℕ

pub record ExecutionOutcome : Type 0 where
  pub worked : Bool
  pub finished : Bool
  pub executions : ℕ
  pub work_units : ℕ
  pub panicked : Bool

abbrev pub no_outcome : ExecutionOutcome
no_outcome = record {
  worked = false;
  finished = false;
  executions = 0;
  work_units = 0;
  panicked = false;
}

-- The local state of the loop.
pub record Execution (C : Type 0) : Type 0 where
  pub component : C
  pub context : NodeContext
  pub flags : Flags
  pub outcome : ExecutionOutcome

-- One round leaves the loop, goes on, or panics by the contract check.
pub data Round (C : Type 0) : Type 0 where
  stop again : Execution C → Round C
  aborts : Round C

-- `remaining_budget` after a call that reports `units`: what the component took off itself, but at
-- least the units, at least one.
unfoldable pub charge : ℕ → ℕ → ℕ → ℕ
charge before after units = before - max (before - min after before) (max units 1)

-- The match on the result of a call that was made with `before` of the budget left.
unfoldable pub account :
    {C : Type 0} → ℕ → ExecutionOutcome → Reply C → Option ProcessResult → Round C
unfolding charge clear_ready
account before o r none = stop (record {
  component = r.component;
  context = r.context;
  flags = clear_ready r.context r.flags;
  outcome = record o { panicked = true; finished = true };
})
account before o r (some (did_work units)) =
    let accounted : ℕ = max units 1 in
    again (record {
      component = r.component;
      context = record (r.context) {
        remaining_budget = charge before r.context.remaining_budget units;
        work_units_processed = add_u64 r.context.work_units_processed accounted;
        execution_count = add_u64 r.context.execution_count 1;
        last_execution = r.now;
      };
      flags = r.flags;
      outcome = record o {
        worked = true;
        executions = add_u64 o.executions 1;
        work_units = add_u64 o.work_units accounted;
      };
    })
account before o r (some no_work) =
    stop (record { component = r.component; context = r.context; flags = r.flags; outcome = o })
account before o r (some finished) = stop (record {
  component = r.component;
  context = r.context;
  flags = clear_ready r.context r.flags;
  outcome = record o { finished = true };
})

-- The assertion of `enforce_non_blocking_process_contract` fails.
unfoldable pub breaks_contract : ℕ → Bool
breaks_contract elapsed = ltb process_call_max_blocking elapsed

module _ {C : Type 0} (process : C → NodeContext → Flags → Reply C) where
  unfoldable pub round : Execution C → Round C
  unfolding account breaks_contract
  round e =
      if e.context.remaining_budget == 0
      then stop e
      else let r : Reply C = process e.component e.context e.flags in
        if breaks_contract r.elapsed
        then aborts
        else account e.context.remaining_budget e.outcome r r.result

  -- The loop on fuel; no result is the scheduler's own panic.
  unfoldable pub execute_loop : ℕ → Execution C → Option (Execution C)
  execute_loop zero e = some e
  execute_loop (suc fuel) e = elim (round e) [
    | stop e' ↦ some e'
    | again e' ↦ execute_loop fuel e'
    | aborts ↦ none
  ]

  -- The budget, the flag and the wish to be woken are reset before the loop.
  unfoldable pub start : C → NodeContext → Flags → Execution C
  unfolding budget clear_ready take_wake_at
  start c ctx flags =
      let filled : NodeContext = record ctx { remaining_budget = budget ctx.budget_class } in
      record {
        component = c;
        context = (take_wake_at filled).0;
        flags = clear_ready filled flags;
        outcome = no_outcome;
      }

  unfoldable pub execute_component : C → NodeContext → Flags → Option (Execution C)
  unfolding execute_loop start round
  execute_component c ctx flags = execute_loop (suc (budget ctx.budget_class)) (start c ctx flags)

  -- The loop as a relation: the rounds that lead from one state to the last.
  pub data Ends : Execution C → Option (Execution C) → Type 0 where
    last : {e e' : Execution C} → round e ≡ stop e' → Ends e (some e')
    broken : {e : Execution C} → round e ≡ aborts → Ends e none
    more :
        {e e' : Execution C} {r : Option (Execution C)} → round e ≡ again e' → Ends e' r → Ends e r
