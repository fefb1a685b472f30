-- ===== src/Scheduler/Execute/Counters.antt =====
-- src/scheduler.rs: the counters that `execute_component` keeps in the context of the node.
use flowd.Base.{ℕ, ◌<◌, ◌^◌, ◌≡◌, Option, none, some, arith}
use flowd.Api.Context.{ProcessResult, did_work, no_work, finished, Flags, NodeContext, add_u64}
use flowd.Scheduler.Execute.{
  Reply, Execution, stop, again, account, round, start, execute_component,
}
use flowd.Scheduler.Execute.Budget.{Holds, execute_component-Ends, Ends-Holds}

-- The counters of the context have advanced by what is reported, from `n` executions and `w` units.
pub record IsCounted {C : Type 0} (n w : ℕ) (e : Execution C) : Type 0 where
  pub executions : e.context.execution_count ≡ add_u64 n e.outcome.executions
  pub units : e.context.work_units_processed ≡ add_u64 w e.outcome.work_units

module _ {C : Type 0} (n w before : ℕ) (e : Execution C) (v : IsCounted n w e) (r : Reply C)
    (kept : r.context.execution_count ≡ e.context.execution_count)
    (kept' : r.context.work_units_processed ≡ e.context.work_units_processed) where
  account-again-IsCounted :
      (res : Option ProcessResult) (e' : Execution C)
      → account before e.outcome r res ≡ again e'
      → IsCounted n w e'
  unfolding account add_u64
  account-again-IsCounted none e' p = cc
  account-again-IsCounted (some (did_work u)) e' p = ground arith
  account-again-IsCounted (some no_work) e' p = cc
  account-again-IsCounted (some finished) e' p = cc

  account-stop-IsCounted :
      (res : Option ProcessResult) (e' : Execution C)
      → account before e.outcome r res ≡ stop e'
      → IsCounted n w e'
  unfolding account
  account-stop-IsCounted none e' p = ground arith
  account-stop-IsCounted (some (did_work u)) e' p = cc
  account-stop-IsCounted (some no_work) e' p = ground arith
  account-stop-IsCounted (some finished) e' p = ground arith

module _ {C : Type 0} (process : C → NodeContext → Flags → Reply C)
    (keeps_executions : (c : C) (x : NodeContext) (f : Flags)
      → (process c x f).context.execution_count ≡ x.execution_count)
    (keeps_units : (c : C) (x : NodeContext) (f : Flags)
      → (process c x f).context.work_units_processed ≡ x.work_units_processed) where
  round-again-IsCounted :
      (n w : ℕ) (e e' : Execution C)
      → round process e ≡ again e'
      → IsCounted n w e
      → IsCounted n w e'
  unfolding round
  round-again-IsCounted n w e e' p v = ground (
    arith,
    account-again-IsCounted n w e.context.remaining_budget e v
        (process e.component e.context e.flags) (keeps_executions e.component e.context e.flags)
        (keeps_units e.component e.context e.flags) (process e.component e.context e.flags).result
        e',
  )

  round-stop-IsCounted :
      (n w : ℕ) (e e' : Execution C)
      → round process e ≡ stop e'
      → IsCounted n w e
      → IsCounted n w e'
  unfolding round
  round-stop-IsCounted n w e e' p v = ground (
    arith,
    account-stop-IsCounted n w e.context.remaining_budget e v
        (process e.component e.context e.flags) (keeps_executions e.component e.context e.flags)
        (keeps_units e.component e.context e.flags) (process e.component e.context e.flags).result
        e',
  )

  start-IsCounted :
      (c : C) (ctx : NodeContext) (flags : Flags)
      → ctx.execution_count < 2 ^ 64
      → ctx.work_units_processed < 2 ^ 64
      → IsCounted ctx.execution_count ctx.work_units_processed (start process c ctx flags)
  unfolding start add_u64
  start-IsCounted c ctx flags h k = record { executions = omega arith; units = omega arith }

  -- If the component leaves the two counters of its context alone, then, unless the contract check
  -- panics, `execute_component` advances them, as `u64` numbers, by just the executions and the work
  -- units that it reports.
  pub execute_component-IsCounted :
      (c : C) (ctx : NodeContext) (flags : Flags)
      → ctx.execution_count < 2 ^ 64
      → ctx.work_units_processed < 2 ^ 64
      → Holds
          (IsCounted ctx.execution_count ctx.work_units_processed)
          (execute_component process c ctx flags)
  execute_component-IsCounted c ctx flags h k =
      let n : ℕ = ctx.execution_count in
      let w : ℕ = ctx.work_units_processed in
      Ends-Holds process (IsCounted n w) (IsCounted n w) (round-again-IsCounted n w)
        (round-stop-IsCounted n w) (execute_component-Ends process c ctx flags)
        (start-IsCounted c ctx flags h k)
