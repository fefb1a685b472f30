-- ===== src/Scheduler/Execute/Budget.antt =====
-- src/scheduler.rs: `execute_component` ends, and stays within the budget of the node.
use flowd.Base.{ℕ, zero, suc, ◌<◌, ◌⊎◌, inl, inr, ◌≡◌, refl, Option, none, some, arith}
use flowd.Api.Context.{ProcessResult, did_work, no_work, finished, Flags, NodeContext, budget}
use flowd.Scheduler.Execute.{
  Reply, ExecutionOutcome, Execution, Round, stop, again, aborts, charge, account, round,
  execute_loop, start, execute_component, Ends, last, broken, more,
}

-- What is charged is at least one unit, and never more than there is.
pub charge-lt : (before after units : ℕ) → 0 < before → charge before after units < before
unfolding charge
charge-lt before after units h = omega arith

Round-cases :
    {C : Type 0} (r : Round C)
    → ((e : Execution C) × (r ≡ stop e)) ⊎ ((e : Execution C) × (r ≡ again e)) ⊎ (r ≡ aborts)
Round-cases (stop e) = inl (e, refl)
Round-cases (again e) = inr (inl (e, refl))
Round-cases aborts = inr (inr refl)

module _ {C : Type 0} where
  account-spends :
      (before : ℕ) (o : ExecutionOutcome) (r : Reply C) (res : Option ProcessResult)
      (e' : Execution C)
      → 0 < before
      → account before o r res ≡ again e'
      → e'.context.remaining_budget < before
  unfolding account
  account-spends before o r none e' h p = cc
  account-spends before o r (some (did_work u)) e' h p =
      ground (arith, charge-lt before r.context.remaining_budget u h)
  account-spends before o r (some no_work) e' h p = cc
  account-spends before o r (some finished) e' h p = cc

  -- What holds of an ended loop's last state, if it did not panic.
  abbrev pub Holds : (Execution C → Type 0) → Option (Execution C) → Type 0
  Holds P none = Unit
  Holds P (some e) = P e

module _ {C : Type 0} (process : C → NodeContext → Flags → Reply C) where
  -- A round that goes on has spent some of the budget.
  pub round_spends :
      (e e' : Execution C)
      → round process e ≡ again e'
      → e'.context.remaining_budget < e.context.remaining_budget
  unfolding round
  round_spends e e' h = ground (
    arith,
    account-spends e.context.remaining_budget e.outcome (process e.component e.context e.flags)
        (process e.component e.context e.flags).result e',
  )

  execute_loop-Ends :
      (fuel : ℕ) (e : Execution C)
      → e.context.remaining_budget < fuel
      → Ends process e (execute_loop process fuel e)
  unfolding execute_loop
  execute_loop-Ends zero e h = absurd (omega arith)
  execute_loop-Ends (suc fuel) e h = elim (Round-cases (round process e)) [
    | inl (e', p) ↦ rw (p, execute_loop) (last p)
    | inr (inl (e', p)) ↦
        rw (p, execute_loop)
          (more p (execute_loop-Ends fuel e' (omega (arith, round_spends e e' p))))
    | inr (inr p) ↦ rw (p, execute_loop) (broken p)
  ]

  -- The fuel of `execute_component` is enough: from the reset state the rounds of the loop lead to its
  -- result, by a return or by the panic of the contract check, and never by the end of the fuel.
  pub execute_component-Ends :
      (c : C) (ctx : NodeContext) (flags : Flags)
      → Ends process (start process c ctx flags) (execute_component process c ctx flags)
  unfolding execute_component start
  execute_component-Ends c ctx flags =
      execute_loop-Ends (suc (budget ctx.budget_class)) (start process c ctx flags) (omega arith)

  -- What each round keeps, and a return turns into `Q`, holds of the last state as `Q`.
  pub Ends-Holds :
      (P Q : Execution C → Type 0)
      → ((e e' : Execution C) → round process e ≡ again e' → P e → P e')
      → ((e e' : Execution C) → round process e ≡ stop e' → P e → Q e')
      → {e : Execution C} {r : Option (Execution C)} → Ends process e r
      → P e
      → Holds Q r
  Ends-Holds P Q goes stops (last {e} {e'} p) h = stops e e' p h
  Ends-Holds P Q goes stops (broken p) h = tt
  Ends-Holds P Q goes stops (more {e} {e'} p t) h = Ends-Holds P Q goes stops t (goes e e' p h)
