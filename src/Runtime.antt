-- ===== src/Runtime.antt =====
-- src/multi_graph.rs and parts of src/runtime.rs: the graphs of a runtime, the debug and trace
-- commands on it, the check of a client's secret, and what a start does with the graph.
pub mod Graphs
pub mod Commands
pub mod Secrets
pub mod Start
pub mod Packets
