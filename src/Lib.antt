-- ===== src/Lib.antt =====
-- flowd: a runtime for flow-based programming. A graph of nodes is edited by a client over a network
-- protocol; when it is started, each node is a component whose `process` is called, for a bounded
-- number of times, by a scheduler whenever the node was signalled or a deadline of it is due; nodes
-- exchange messages over bounded edges.
--
-- Files:
--   Base: shared names; the standard library's texts, hash maps and sets (`String`, `HashMap`,
--     `HashSet`), errors, and Boolean tests.
--   Api (component_api/src/lib.rs): messages in Message; the context, budget classes and results of
--     `process` in Context; the rings of the edges as an interface, `Rtrb`, in Rings;
--     the derived equality of messages in Equality;
--     `ProcessEdgeSink` in Sink, with what it brings about described in Brought and the proofs in
--     Laws; the check for signals that components begin with in Signals.
--   Scheduler (src/scheduler.rs): State has the state behind the lock and `add_node`,
--     `add_component`, `signal_ready`, `wake_at`, `create_waker` and `stop`; Timers the deadlines,
--     `next_valid_timer_deadline` and `drain_expired_timers`; Execute has `execute_component`; Run
--     has the loop `run`. Queue, Fairness, Signals, Deadlines and the children of Execute are
--     the proofs.
--   Graph (src/graph.rs): Nodes, Edges, Ports and Groups have the operations, Json the metadata of
--     nodes, Requests all operations as one function. Integrity, Effects, RoundTrips and the children
--     of Requests are the proofs.
--   Runtime: Graphs (src/multi_graph.rs); of src/runtime.rs, Commands and Secrets, Packets, which is
--     `Runtime::packet`, and Start, which is `Runtime::start`: Checks has the checks of the edges,
--     Channels and Wiring the connections, Processes the check of the ports and the whole. Attempts,
--     Joins, Steps, Panics, Occurrences, Conserved and Settled are the proofs.
--   Server (src/server.rs, src/protocol.rs): the dispatch of a client's messages in `handle_client`.
--     Payloads has the requests and answers, Graphs the handlers of graph messages, Control those of
--     the others, Started that of network:start, Messages the dispatch, Refines/Clients the
--     dispatch with network:start beside it. Carried, Cleared, Clients, Kept,
--     Outcomes, Reached, Readers, Refines, Refused and Stopped are the proofs. The
--     handlers call the operations of Graph and Runtime; the graphs behind locks are a store by
--     handles.
--   Components, each a record of its state and its `process`: Muxer and Demux
--     (components/muxer/src/muxer.rs), Repeat, SplitLines, Equals, Router, Drop and Count (in
--     components/repeat/src/repeat.rs and so on). Router has the rules, Router/Process the calls.
--     Delivery and Budget, Turns, Lossless and Progress, Lines and Delivery, Pushes, Loop, Flush and
--     Routing, Verdicts, FirstMatch, Compiling, Rounds, Loop and Delivery, Drains, Chunks, Reports and
--     Totals are the proofs.
--   Tests: the theorems at concrete inputs.
--
-- The model: a `HashMap` is an association list, the heap of timers a list in the order of `pop`, a
-- text the list of its UTF-8 bytes, an `io::Error` its kind, an instant a number of nanoseconds. The
-- atomic flags that contexts and scheduler share are a store of flags by their addresses. The
-- loop of the scheduler holds its lock in two sections with the execution between them; a run is a
-- sequence of events, the loop's sections and the calls of other threads in any order, on a state
-- that says where the loop is. Panics of `process` are a missing result; the contract check, a feature
-- that is on by default, ends the loop. Sums of counters wrap at 2^64.
--
-- Bounds: the loop of `execute_component` runs on fuel, one more than the budget of the node's class;
-- that this is enough is proved with the loop as a relation, `Ends`. The loop of `Runtime::packet` runs on
-- fuel, the number of attempts up to one that reads that the grace time is over. The loop of the router,
-- where a packet for no port takes nothing from the budget, runs at most as many rounds as packets wait,
-- which is enough since each round takes one. The other loops go down a list or the budget. While a
-- component is executed, nobody else works at its edges: one thread runs all components of a graph.
--
-- Parameters: what the code uses of the crates `serde_json` (`SerdeJson`) and `rtrb` (`Rtrb`), with
-- their documented laws, and of `serde_json` and `regex` in the router and `url` and `atoi` in the counter
-- (`Libraries`), without any; the components that the scheduler executes; the values in messages and
-- their equality.
--
-- Not modelled: runtime:packet, network:persist and component:getsource as messages (threads, files);
-- network:start is a handler of its own beside the dispatch, `handle`, since it may panic: statements on
-- `handle` and its messages are not about it, those on `handle_client` are. Nor web sockets and
-- JSON, the threads that a start spawns and a stop joins, the construction of components, the
-- other components, most of which wrap a library or a device, the environment of a graph's properties
-- and the flag `case_sensitive`, which never change, `metrics_snapshot`, and texts of errors.
pub mod Base
pub mod Api
pub mod Scheduler
pub mod Graph
pub mod Runtime
pub mod Components
pub mod Server
pub mod Tests
