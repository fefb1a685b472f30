-- ===== src/Scheduler.antt =====
-- src/scheduler.rs: the ready queue, the timers and the budgeted execution of components.
pub mod Execute
pub mod State
pub mod Timers
pub mod Run
pub mod Queue
pub mod Fairness
pub mod Deadlines
pub mod Signals
