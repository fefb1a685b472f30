-- ===== src/Scheduler/Timers.antt =====
-- src/scheduler.rs: `next_valid_timer_deadline` and `drain_expired_timers`. The loops of both go
-- down the entries of the heap, as each round that is not the last pops one.
use flowd.Base.{
  ℕ, Bool, false, ◌&&◌, Option, none, some, List, [], ◌∷◌, ltb, ◌==◌, if◌then◌else◌, Str, HashMap,
  get, insert, remove,
}
use flowd.Api.Context.{NodeContext, mark_timer_fired}
use flowd.Scheduler.State.{Scheduler, TimerWake, enqueue, count_queue, raise_flag}

-- The entry is the one for the node's latest deadline.
unfoldable pub is_latest : HashMap ℕ → TimerWake → Bool
is_latest latest t = elim (get t.node_id latest) [ none ↦ false | some when ↦ when == t.when ]

-- Entries on top that are superseded are popped.
unfoldable pub prune : HashMap ℕ → List TimerWake → List TimerWake
prune latest [] = []
prune latest (t ∷ ts) = let rest = prune latest ts in if is_latest latest t then t ∷ ts else rest

deadline : List TimerWake → Option ℕ
deadline [] = none
deadline (t ∷ ts) = some t.when

mark_fired : Str → ℕ → Option NodeContext → HashMap NodeContext → HashMap NodeContext
mark_fired n when none nodes = nodes
mark_fired n when (some ctx) nodes = insert n (mark_timer_fired ctx when) nodes

module _ {C : Type 0} where
  unfoldable pub next_valid_timer_deadline : Scheduler C → Scheduler C × Option ℕ
  unfolding prune is_latest deadline
  next_valid_timer_deadline s =
      let ts : List TimerWake = prune s.timer_latest_by_node s.timers in
      (record s { timers = ts }, deadline ts)

  -- What is done for a due entry: the deadline is forgotten, the context told, the flag raised, and
  -- the node queued.
  unfoldable pub fire : TimerWake → Scheduler C → Scheduler C
  unfolding mark_fired raise_flag enqueue
  fire t s =
      let n : Str = t.node_id in
      let woken : Scheduler C = record s {
        timer_latest_by_node = remove n s.timer_latest_by_node;
        nodes = mark_fired n t.when (get n s.nodes) s.nodes;
      } in
      enqueue n (raise_flag (get n s.ready_flags) woken)

  unfoldable pub drain_timers : ℕ → List TimerWake → Scheduler C → Scheduler C
  unfolding is_latest
  drain_timers now [] s = record s { timers = [] }
  drain_timers now (t ∷ ts) s =
      let valid : Bool = is_latest s.timer_latest_by_node t in
      let rest = drain_timers now ts (if valid then fire t s else s) in
      if valid && ltb now t.when then record s { timers = t ∷ ts } else rest

  unfoldable pub drain_expired_timers : ℕ → Scheduler C → Scheduler C
  unfolding drain_timers fire count_queue
  drain_expired_timers now s = count_queue (drain_timers now s.timers s)
