-- ===== src/Runtime/Start/Wiring.antt =====
-- src/runtime.rs: `Runtime::start` joins the processes of a graph by channels. The `trace:connect`
-- notices that it sends meanwhile are not here.
use flowd.Base.{
  ℕ, true, false, none, some, List, [], ◌∷◌, ◌++◌, if◌then◌else◌, Str, bytes, HashMap, insert,
  contains_key, length, map,
}
use flowd.Graph.{Graph, GraphNode, GraphEdge, GraphPort}
use flowd.Runtime.Start.{Attempt, returns, panics, ◌>>=◌}
use flowd.Runtime.Start.Checks.{to_ascii_uppercase}
use flowd.Runtime.Start.Channels.{
  Channel, Sink, ProcPorts, no_ports, Wires, processedge_bufsize, processedge_iip_bufsize,
  push_expected, push_all_expected, with_ports, add_inport, add_outport, Iips, take_iips,
  iips_per_target,
}

-- The process that stands for the exported inports, and the one for the outports.
abbrev pub in_name : Str → Str
in_name graph = graph ++ bytes "-IN"

abbrev pub out_name : Str → Str
out_name graph = graph ++ bytes "-OUT"

unfoldable pub edge_id : GraphEdge → Str
edge_id e =
    e.source.process
    ++ bytes "."
    ++ e.source.port
    ++ bytes "-"
    ++ e.target.process
    ++ bytes "."
    ++ e.target.port

-- A new channel at the end of `channels`.
abbrev add_channel : Channel → Wires → Wires
add_channel c w = record w { channels = w.channels ++ c ∷ [] }

-- An edge between processes, with the initial packets for its inport.
unfoldable pub connect_edge : GraphEdge → Wires × Iips → Attempt (Wires × Iips)
unfolding with_ports push_all_expected take_iips to_ascii_uppercase edge_id
connect_edge e (w, t) =
    let id : ℕ = length w.channels in
    let sink : Sink = record {
      channel = id;
      target_node = e.target.process;
      signals = true;
      edge_id = some (edge_id e);
    } in
    let empty : Channel = record { capacity = processedge_bufsize; contents = [] } in
    let (iips, rest) = take_iips (e.target.process, e.target.port) t in
    elim e.payload [
      | some d ↦ returns (w, t)
      | none ↦ do
        w' ← with_ports e.target.process (add_inport (to_ascii_uppercase e.target.port) id) w
        w'' ← with_ports e.source.process (add_outport (to_ascii_uppercase e.source.port) sink) w'
        c ← push_all_expected iips empty
        returns (add_channel c w'', rest)
    ]

unfoldable pub connect_edges : List GraphEdge → Wires × Iips → Attempt (Wires × Iips)
unfolding connect_edge
connect_edges [] s = returns s
connect_edges (e ∷ es) s = do s' ← connect_edge e s; connect_edges es s'

-- An initial packet without an edge to its inport has a channel of its own.
unfoldable pub connect_iips : Str × Str → List Str → Wires → Attempt Wires
unfolding with_ports push_expected to_ascii_uppercase
connect_iips k [] w = returns w
connect_iips k (iip ∷ iips) w = do
  c ← push_expected iip (record { capacity = processedge_iip_bufsize; contents = [] })
  w' ← with_ports k.0 (add_inport (to_ascii_uppercase k.1) (length w.channels)) w
  connect_iips k iips (add_channel c w')

unfoldable pub connect_targets : Iips → Wires → Attempt Wires
unfolding connect_iips
connect_targets [] w = returns w
connect_targets ((k, iips) ∷ t) w = do w' ← connect_iips k iips w; connect_targets t w'

unfoldable pub connect_inports : Str → HashMap GraphPort → Wires → Attempt Wires
unfolding with_ports to_ascii_uppercase
connect_inports graph [] w = returns w
connect_inports graph ((public, p) ∷ ps) w =
    let id : ℕ = length w.channels in
    let sink : Sink = record {
      channel = id;
      target_node = p.process;
      signals = true;
      edge_id = none;
    } in
    do
      w' ← with_ports p.process (add_inport (to_ascii_uppercase p.port) id) w
      w'' ← with_ports (in_name graph) (add_outport public sink) w'
      connect_inports graph ps
          (add_channel (record { capacity = processedge_bufsize; contents = [] }) w'')

unfoldable pub connect_outports : Str → HashMap GraphPort → Wires → Attempt Wires
unfolding with_ports to_ascii_uppercase
connect_outports graph [] w = returns w
connect_outports graph ((public, p) ∷ ps) w =
    let id : ℕ = length w.channels in
    let sink : Sink = record {
      channel = id;
      target_node = out_name graph;
      signals = false;
      edge_id = none;
    } in
    do
      w' ← with_ports (out_name graph) (add_inport public id) w
      w'' ← with_ports p.process (add_outport (to_ascii_uppercase p.port) sink) w'
      connect_outports graph ps
          (add_channel (record { capacity = processedge_bufsize; contents = [] }) w'')

-- `try_insert` of a process that is expected to be new, if the graph exports ports.
unfoldable pub add_process :
    HashMap GraphPort → Str → HashMap ProcPorts → Attempt (HashMap ProcPorts)
add_process [] name m = returns m
add_process (p ∷ ps) name m =
    if contains_key name m then panics else returns (insert name no_ports m)

module _ {M : Type 0} where
  -- The names of the nodes differ, as the keys of a `HashMap` do.
  unfoldable pub node_ports : HashMap (GraphNode M) → HashMap ProcPorts
  node_ports nodes = map (λ n. (n.0, no_ports)) nodes

  unfoldable pub connect : Graph M → Attempt Wires
  unfolding node_ports add_process connect_edges connect_targets connect_inports connect_outports
      iips_per_target
  connect g = do
    m ← add_process g.inports (in_name g.properties.name) (node_ports g.nodes)
    m' ← add_process g.outports (out_name g.properties.name) m
    s ← connect_edges g.edges (record { channels = []; ports_all = m' }, iips_per_target g.edges [])
    w ← connect_targets s.1 s.0
    w' ← connect_inports g.properties.name g.inports w
    connect_outports g.properties.name g.outports w'
