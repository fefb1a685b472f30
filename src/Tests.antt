-- ===== src/Tests.antt =====
-- Concrete runs of the theorems: a scheduler with two nodes, a small graph, a runtime, two edges.
mod Running
mod Editing
mod Starting
mod Serving
mod Dispatching
mod Flowing
mod Relaying
mod Routing
mod Splitting
mod Counting
