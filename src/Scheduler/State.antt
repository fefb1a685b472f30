-- ===== src/Scheduler/State.antt =====
-- src/scheduler.rs: the state behind the scheduler's lock and the methods that other threads call.
-- The timers, a `BinaryHeap`, are the list of its entries in the order in which `pop` yields them.
-- `Scheduler` and `SchedulerState` are one record; the store of atomic flags stands beside them.
-- Notifying the condition variable changes no state: a waiting thread looks again at any time.
use flowd.Base.{
  ℕ, ◌+◌, Bool, true, false, ◌&&◌, ◌||◌, Option, none, some, List, [], ◌∷◌, ◌++◌, ltb, ◌==◌,
  if◌then◌else◌, length, Str, str_lt, HashMap, get, insert, contains_key, keys, contains,
}
use flowd.Api.Context.{BudgetClass, Flags, store, NodeContext, new_context}

pub record SchedulerMetrics : Type 0 where
  pub executions_per_node : HashMap ℕ
  pub work_units_per_node : HashMap ℕ
  pub time_since_last_execution : HashMap ℕ
  pub queue_depth : ℕ
  pub loop_iterations : ℕ

pub record TimerWake : Type 0 where
  pub when : ℕ
  pub node_id : Str

pub record Scheduler (C : Type 0) : Type 0 where
  pub nodes : HashMap NodeContext
  pub components : HashMap C
  pub ready_flags : HashMap ℕ
  pub ready_queue : List Str
  pub ready_set : List Str
  pub timers : List TimerWake
  pub timer_latest_by_node : HashMap ℕ
  pub metrics : SchedulerMetrics
  pub running : Bool
  pub flags : Flags
  pub next_flag : ℕ

-- `Ord for TimerWake`: the entry that the heap yields first is the one with the earlier deadline,
-- among equal deadlines the one with the greater node.
unfoldable pub comes_before : TimerWake → TimerWake → Bool
comes_before a b = ltb a.when b.when || ((a.when == b.when) && str_lt b.node_id a.node_id)

-- `BinaryHeap::push`.
unfoldable pub push_timer : TimerWake → List TimerWake → List TimerWake
push_timer t [] = t ∷ []
push_timer t (u ∷ us) = if comes_before u t then u ∷ push_timer t us else t ∷ u ∷ us

unfoldable pub new : {C : Type 0} → Scheduler C
new = record {
  nodes = [];
  components = [];
  ready_flags = [];
  ready_queue = [];
  ready_set = [];
  timers = [];
  timer_latest_by_node = [];
  metrics = record {
    executions_per_node = [];
    work_units_per_node = [];
    time_since_last_execution = [];
    queue_depth = 0;
    loop_iterations = 0;
  };
  running = true;
  flags = λ a. false;
  next_flag = 0;
}

module _ {C : Type 0} where
  unfoldable pub add_node : Str → BudgetClass → ℕ → Scheduler C → Scheduler C
  add_node n class now s = record s {
    nodes = insert n (new_context n class s.next_flag now) s.nodes;
    ready_flags = insert n s.next_flag s.ready_flags;
    metrics = record (s.metrics) {
      executions_per_node = insert n 0 s.metrics.executions_per_node;
      work_units_per_node = insert n 0 s.metrics.work_units_per_node;
      time_since_last_execution = insert n 0 s.metrics.time_since_last_execution;
    };
    flags = store s.flags s.next_flag false;
    next_flag = s.next_flag + 1;
  }

  unfoldable pub add_component : C → Str → Scheduler C → Scheduler C
  add_component c n s = record s { components = insert n c s.components }

  -- `if ready_set.insert(..) { ready_queue.push_back(..) }`.
  unfoldable pub enqueue : Str → Scheduler C → Scheduler C
  enqueue n s =
      if contains s.ready_set n
      then s
      else record s { ready_queue = s.ready_queue ++ n ∷ []; ready_set = n ∷ s.ready_set }

  -- `metrics.queue_depth = ready_queue.len()`.
  unfoldable pub count_queue : Scheduler C → Scheduler C
  count_queue s = record s { metrics = record (s.metrics) { queue_depth = length s.ready_queue } }

  unfoldable pub raise_flag : Option ℕ → Scheduler C → Scheduler C
  raise_flag none s = s
  raise_flag (some a) s = record s { flags = store s.flags a true }

  -- The depth is written only where the node is new in the queue.
  unfoldable pub enqueue_counted : Str → Scheduler C → Scheduler C
  enqueue_counted n s = if contains s.ready_set n then s else count_queue (enqueue n s)

  unfoldable pub signal_flagged : Str → Option ℕ → Scheduler C → Scheduler C × Bool
  signal_flagged n none s = (s, false)
  signal_flagged n (some a) s = (enqueue_counted n (raise_flag (some a) s), true)

  unfoldable pub signal_ready : Str → Scheduler C → Scheduler C × Bool
  unfolding signal_flagged enqueue_counted count_queue enqueue raise_flag
  signal_ready n s = signal_flagged n (get n s.ready_flags) s

  -- The deadline of a node is replaced, and an entry is pushed for it.
  unfoldable pub set_timer : Str → ℕ → Scheduler C → Scheduler C
  set_timer n when s = record s {
    timer_latest_by_node = insert n when s.timer_latest_by_node;
    timers = push_timer (record { when = when; node_id = n }) s.timers;
  }

  unfoldable pub wake_at : Str → ℕ → Scheduler C → Scheduler C × Bool
  unfolding set_timer
  wake_at n when s = if contains_key n s.nodes then (set_timer n when s, true) else (s, false)

  -- The waker that is handed out calls `signal_ready` for the node; none for an unknown node.
  unfoldable pub create_waker : Str → Scheduler C → Option (Scheduler C → Scheduler C × Bool)
  create_waker n s = if contains_key n s.nodes then some (signal_ready n) else none

  unfoldable pub node_ids : Scheduler C → List Str
  node_ids s = keys s.nodes

  unfoldable pub stop : Scheduler C → Scheduler C
  stop s = record s { running = false }
