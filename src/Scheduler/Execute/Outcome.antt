-- ===== src/Scheduler/Execute/Outcome.antt =====
-- src/scheduler.rs: what `execute_component` reports, against the budget of the node's class.
use flowd.Base.{
  ℕ, ◌+◌, ◌*◌, ◌≤◌, ◌<◌, ◌^◌, max, ◌≡◌, refl, true, false, Option, none, some, arith, ltb,
}
use flowd.Api.Context.{
  ProcessResult, did_work, no_work, finished, Flags, NodeContext, BudgetClass, normal, heavy,
  realtime, budget, clear_ready, is_ready, add_u64_exact,
}
use flowd.Scheduler.Execute.{
  Reply, Execution, stop, again, account, round, start, execute_component,
}
use flowd.Scheduler.Execute.Budget.{charge-lt, Holds, execute_component-Ends, Ends-Holds}

-- The books of the loop under a budget `b`: each execution has spent some of the budget, is worth
-- at least one unit and, as the units of a call are a `u32`, at most 2^32 of them.
pub record IsAccounted {C : Type 0} (b : ℕ) (e : Execution C) : Type 0 where
  pub within : e.outcome.executions + e.context.remaining_budget ≤ b
  pub worth : e.outcome.executions ≤ e.outcome.work_units
  pub fits : e.outcome.work_units + e.context.remaining_budget * 2 ^ 32 ≤ b * 2 ^ 32
  pub worked_iff : e.outcome.worked ≡ ltb 0 e.outcome.executions
  pub running : e.outcome.finished ≡ false
  pub calm : e.outcome.panicked ≡ false

-- What is reported at the end, and the flag of the node: a finished node's flag is cleared, and a
-- panic counts as finished.
pub record IsReported {C : Type 0} (b : ℕ) (e : Execution C) : Type 0 where
  pub within : e.outcome.executions ≤ b
  pub worth : e.outcome.executions ≤ e.outcome.work_units
  pub fits : e.outcome.work_units ≤ b * 2 ^ 32
  pub worked_iff : e.outcome.worked ≡ ltb 0 e.outcome.executions
  pub cleared : e.outcome.finished ≡ true → is_ready e.context e.flags ≡ false
  pub panic_ends : e.outcome.panicked ≡ true → e.outcome.finished ≡ true

pub budget-le : (b : BudgetClass) → budget b ≤ 96
unfolding budget
budget-le normal = omega arith
budget-le heavy = omega arith
budget-le realtime = omega arith

module _ {C : Type 0} (b : ℕ) (small : b ≤ 96) (e : Execution C) (v : IsAccounted b e)
    (r : Reply C) where
  account-again-IsAccounted :
      (res : Option ProcessResult) (e' : Execution C)
      → ((u : ℕ) → res ≡ some (did_work u) → u < 2 ^ 32)
      → 0 < e.context.remaining_budget
      → account e.context.remaining_budget e.outcome r res ≡ again e'
      → IsAccounted b e'
  unfolding account
  account-again-IsAccounted none e' range h p = cc
  account-again-IsAccounted (some (did_work u)) e' range h p = ground (
    arith,
    range u refl,
    charge-lt e.context.remaining_budget r.context.remaining_budget u h,
    add_u64_exact e.outcome.executions 1,
    add_u64_exact e.outcome.work_units (max u 1),
  )
  account-again-IsAccounted (some no_work) e' range h p = cc
  account-again-IsAccounted (some finished) e' range h p = cc

  account-stop-IsReported :
      (before : ℕ) (res : Option ProcessResult) (e' : Execution C)
      → account before e.outcome r res ≡ stop e'
      → IsReported b e'
  unfolding account clear_ready is_ready
  account-stop-IsReported before none e' p = ground arith
  account-stop-IsReported before (some (did_work u)) e' p = cc
  account-stop-IsReported before (some no_work) e' p = ground arith
  account-stop-IsReported before (some finished) e' p = ground arith

start-IsAccounted :
    {C : Type 0} (process : C → NodeContext → Flags → Reply C) (c : C) (ctx : NodeContext)
    (flags : Flags)
    → IsAccounted (budget ctx.budget_class) (start process c ctx flags)
unfolding start
start-IsAccounted process c ctx flags = ground arith

module _ {C : Type 0} (process : C → NodeContext → Flags → Reply C)
    (in_range : (c : C) (ctx : NodeContext) (f : Flags) (u : ℕ)
      → (process c ctx f).result ≡ some (did_work u)
      → u < 2 ^ 32) where
  round-again-IsAccounted :
      (b : ℕ) (e e' : Execution C)
      → b ≤ 96
      → round process e ≡ again e'
      → IsAccounted b e
      → IsAccounted b e'
  unfolding round
  round-again-IsAccounted b e e' small p v = ground (
    arith,
    account-again-IsAccounted b small e v (process e.component e.context e.flags)
        (process e.component e.context e.flags).result e' (in_range e.component e.context e.flags),
  )

  round-stop-IsReported :
      (b : ℕ) (e e' : Execution C)
      → b ≤ 96
      → round process e ≡ stop e'
      → IsAccounted b e
      → IsReported b e'
  unfolding round
  round-stop-IsReported b e e' small p v = ground (
    arith,
    account-stop-IsReported b small e v (process e.component e.context e.flags)
        e.context.remaining_budget (process e.component e.context e.flags).result e',
  )

  -- Unless the contract check panics, `execute_component` reports at most as many executions as the
  -- budget of the node's class, at least one work unit for each and no more than 2^32 units for each of
  -- the budget, says that it worked exactly when it executed something, has the node's flag cleared if
  -- it says finished, and says finished if it caught a panic. A call reports a `u32` of units.
  pub execute_component-IsReported :
      (c : C) (ctx : NodeContext) (flags : Flags)
      → Holds (IsReported (budget ctx.budget_class)) (execute_component process c ctx flags)
  execute_component-IsReported c ctx flags =
      let b : ℕ = budget ctx.budget_class in
      Ends-Holds process (IsAccounted b) (IsReported b)
        (λ e e' p v. round-again-IsAccounted b e e' (budget-le ctx.budget_class) p v)
        (λ e e' p v. round-stop-IsReported b e e' (budget-le ctx.budget_class) p v)
        (execute_component-Ends process c ctx flags) (start-IsAccounted process c ctx flags)
