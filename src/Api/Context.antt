-- ===== src/Api/Context.antt =====
-- component_api/src/lib.rs: the context that the scheduler hands to a component's `process`.
-- Instants are numbers of ticks of the monotonic clock. A context shares its `ready_signal` with the
-- scheduler's `ready_flags`: the field is the address of the atomic flag in a store of flags.
use flowd.Base.{
  ℕ, ◌+◌, ◌%◌, ◌^◌, ◌<◌, ◌≡◌, Bool, false, Option, none, arith, Str, ◌==◌, if◌then◌else◌,
}
use flowd.Base.{some}

pub data BudgetClass : Type 0 where
  normal heavy realtime : BudgetClass

-- `budget_class as u32`.
unfoldable pub budget : BudgetClass → ℕ
budget normal = 32
budget heavy = 8
budget realtime = 96

pub data ProcessResult : Type 0 where
  did_work : ℕ → ProcessResult
  no_work finished : ProcessResult

-- `Arc<AtomicBool>`: the flags by their addresses.
abbrev pub Flags : Type 0
Flags = ℕ → Bool

abbrev pub store : Flags → ℕ → Bool → Flags
store f a b x = if x == a then b else f x

pub record NodeContext : Type 0 where
  pub node_id : Str
  pub budget_class : BudgetClass
  pub remaining_budget : ℕ
  pub last_execution : ℕ
  pub execution_count : ℕ
  pub work_units_processed : ℕ
  pub ready_signal : ℕ
  pub wake_at : Option ℕ
  pub timer_fired_at : Option ℕ

unfoldable pub new_context : Str → BudgetClass → ℕ → ℕ → NodeContext
new_context id class signal now = record {
  node_id = id;
  budget_class = class;
  remaining_budget = 0;
  last_execution = now;
  execution_count = 0;
  work_units_processed = 0;
  ready_signal = signal;
  wake_at = none;
  timer_fired_at = none;
}

unfoldable pub clear_ready : NodeContext → Flags → Flags
clear_ready c f = store f c.ready_signal false

unfoldable pub is_ready : NodeContext → Flags → Bool
is_ready c f = f c.ready_signal

-- `Option::take`: the context without the wish, and the wish.
unfoldable pub take_wake_at : NodeContext → NodeContext × Option ℕ
take_wake_at c = (record c { wake_at = none }, c.wake_at)

unfoldable pub mark_timer_fired : NodeContext → ℕ → NodeContext
mark_timer_fired c at = record c { timer_fired_at = some at }

-- `u64` addition, as it wraps in a release build.
unfoldable pub add_u64 : ℕ → ℕ → ℕ
add_u64 a b = (a + b) % 2 ^ 64

pub add_u64_exact : (a b : ℕ) → a + b < 2 ^ 64 → add_u64 a b ≡ a + b
unfolding add_u64
add_u64_exact a b h = omega arith
