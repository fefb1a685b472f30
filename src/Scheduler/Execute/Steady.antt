-- ===== src/Scheduler/Execute/Steady.antt =====
-- src/scheduler.rs: `execute_component` on a component that always has work, and the counters that
-- it keeps in the context.
use flowd.Base.{
  ℕ, zero, suc, ◌+◌, ◌≤◌, ◌<◌, inl, inr, ◌≡◌, refl, true, false, some, arith, ◌==◌, Bool-cases,
}
use flowd.Api.Context.{did_work, Flags, NodeContext, budget, add_u64, add_u64_exact}
use flowd.Scheduler.Execute.{
  Reply, Execution, stop, again, charge, account, breaks_contract, round, execute_loop, start,
  execute_component,
}
use flowd.Scheduler.Execute.Budget.{round_spends}
use flowd.Scheduler.Execute.Outcome.{budget-le}

-- A component that always has one unit of work, takes at most that unit off its budget by itself,
-- and returns in time.
pub record IsSteady {C : Type 0} (process : C → NodeContext → Flags → Reply C) : Type 0 where
  pub works : (c : C) (x : NodeContext) (f : Flags) → (process c x f).result ≡ some (did_work 1)
  pub in_time :
      (c : C) (x : NodeContext) (f : Flags) → breaks_contract (process c x f).elapsed ≡ false
  pub modest :
      (c : C) (x : NodeContext) (f : Flags)
      → x.remaining_budget ≤ (process c x f).context.remaining_budget + 1

-- The books when each execution was worth one unit and took one unit off the budget.
pub record IsEven {C : Type 0} (b : ℕ) (e : Execution C) : Type 0 where
  pub spent : e.outcome.executions + e.context.remaining_budget ≡ b
  pub worth : e.outcome.work_units ≡ e.outcome.executions

module _ {C : Type 0} (process : C → NodeContext → Flags → Reply C) where
  round_empty : (e : Execution C) → e.context.remaining_budget ≡ 0 → round process e ≡ stop e
  unfolding round
  round_empty e h = ground arith

  module _ (s : IsSteady process) where
    round_steady :
        (b : ℕ) (e : Execution C)
        → b ≤ 96
        → 0 < e.context.remaining_budget
        → IsEven b e
        → (e' : Execution C) × (round process e ≡ again e') × IsEven b e'
    unfolding round account charge
    round_steady b e small h v = (
      e',
      ground
          (arith, s.works e.component e.context e.flags, s.in_time e.component e.context e.flags),
      ground (
        arith,
        s.modest e.component e.context e.flags,
        add_u64_exact e.outcome.executions 1,
        add_u64_exact e.outcome.work_units 1,
      ),
    )
      where
        r : Reply C
        r = process e.component e.context e.flags

        e' : Execution C
        e' = record {
          component = r.component;
          context = record (r.context) {
            remaining_budget = charge e.context.remaining_budget r.context.remaining_budget 1;
            work_units_processed = add_u64 r.context.work_units_processed 1;
            execution_count = add_u64 r.context.execution_count 1;
            last_execution = r.now;
          };
          flags = r.flags;
          outcome = record (e.outcome) {
            worked = true;
            executions = add_u64 e.outcome.executions 1;
            work_units = add_u64 e.outcome.work_units 1;
          };
        }

    loop_steady :
        (b fuel : ℕ) (e : Execution C)
        → b ≤ 96
        → e.context.remaining_budget < fuel
        → IsEven b e
        → (e' : Execution C) × (execute_loop process fuel e ≡ some e')
          × IsEven b e'
          × (e'.context.remaining_budget ≡ 0)
    unfolding execute_loop
    loop_steady b zero e small h v = absurd (omega arith)
    loop_steady b (suc fuel) e small h v = elim (Bool-cases (e.context.remaining_budget == 0)) [
      | inl done ↦ (e, rw (round_empty e (ground arith), execute_loop) refl, v, ground arith)
      | inr left ↦
          let (e', p, v') = round_steady b e small (ground arith) v in
          let (e'', q, v'', z) =
            loop_steady b fuel e' small (omega (arith, round_spends process e e' p)) v' in
          (e'', rw (p, execute_loop) q, v'', z)
    ]

    -- A component that always reports one unit of work, in time, and takes at most that unit off its
    -- budget by itself, is executed exactly as often as the budget of its class says, whether it
    -- takes units off or not: as many work units are reported, and the budget ends at 0.
    pub execute_component_steady :
        (c : C) (ctx : NodeContext) (flags : Flags)
        → (e : Execution C) × (execute_component process c ctx flags ≡ some e)
          × (e.outcome.executions ≡ budget ctx.budget_class)
          × (e.outcome.work_units ≡ budget ctx.budget_class)
          × (e.context.remaining_budget ≡ 0)
    unfolding execute_component start
    execute_component_steady c ctx flags =
        let (e, p, v, z) =
          loop_steady (budget ctx.budget_class) (suc (budget ctx.budget_class))
            (start process c ctx flags) (budget-le ctx.budget_class) (omega arith) (omega arith) in
        (e, p, omega arith, omega arith, z)
