-- ===== src/Server/Messages/Refused.antt =====
-- src/server.rs: a message whose secret is not accepted, and what a secret for reading can do.
use flowd.Base.{
  ℕ, ◌≡◌, refl, ap, Bool, true, false, not, Option, none, some, [], ◌∷◌, Str, Fallible, arith,
}
use flowd.Graph.Json.{SerdeJson}
use flowd.Runtime.Commands.{Runtime}
use flowd.Runtime.Secrets.{AccessLevel, read_only, read_write}
use flowd.Server.{Server, Handled, allows, on_graph}
use flowd.Server.Payloads.{
  AddnodePayload, Answer, Failure, invalid_secret, graph_error, trace_error, runtime_error,
  network_error,
}
use flowd.Server.Graphs.{handle_addnode}
use flowd.Server.Control.{Client, on_trace, on_network}
use flowd.Server.Messages.{
  Message, graph_message, trace_message, network_message, gets_runtime, lists_components,
  packet_was_sent, GraphMessage, clears_graph, adds_node, removes_node, renames_node, changes_node,
  adds_edge, removes_edge, changes_edge, adds_initial, removes_initial, adds_inport, adds_outport,
  removes_inport, removes_outport, renames_inport, renames_outport, adds_group, removes_group,
  renames_group, changes_group, TraceMessage, starts_trace, stops_trace, clears_trace, dumps_trace,
  NetworkMessage, selects_edges, sets_debug, stops_network, gets_status, handle, handle_graph,
  handle_trace, handle_network, with_client,
}

-- The graph that a graph message names.
unfoldable pub names : {M : Type 0} → GraphMessage M → Option Str
names (clears_graph p) = some p.name
names (adds_node p) = p.graph
names (removes_node p) = some p.graph
names (renames_node p) = some p.graph
names (changes_node p) = some p.graph
names (adds_edge p) = some p.graph
names (removes_edge p) = some p.graph
names (changes_edge p) = some p.graph
names (adds_initial p) = some p.graph
names (removes_initial p) = some p.graph
names (adds_inport p) = some p.graph
names (adds_outport p) = some p.graph
names (removes_inport p) = some p.graph
names (removes_outport p) = some p.graph
names (renames_inport p) = some p.graph
names (renames_outport p) = some p.graph
names (adds_group p) = some p.graph
names (removes_group p) = some p.graph
names (renames_group p) = some p.graph
names (changes_group p) = some p.graph

-- The access that a message needs to a graph: to the one that it names, or to the current one.
unfoldable pub needs_trace : TraceMessage → Str × AccessLevel
needs_trace (starts_trace graph size) = (graph, read_write)
needs_trace (stops_trace graph) = (graph, read_write)
needs_trace (clears_trace graph) = (graph, read_write)
needs_trace (dumps_trace graph) = (graph, read_only)

unfoldable pub needs_network : NetworkMessage → Str × AccessLevel
needs_network (selects_edges p) = (p.graph, read_write)
needs_network (sets_debug graph enable) = (graph, read_write)
needs_network (stops_network graph) = (graph, read_write)
needs_network (gets_status graph reads) = (graph, read_only)

unfoldable pub needs : {M : Type 0} → Message M → Server M → Option (Str × AccessLevel)
unfolding names needs_trace needs_network
needs (graph_message m) s = elim (names m) [ none ↦ none | some g ↦ some (g, read_write) ]
needs (trace_message m) s = some (needs_trace m)
needs (network_message m) s = some (needs_network m)
needs gets_runtime s = some (s.runtime.graph, read_only)
needs lists_components s = some (s.runtime.graph, read_only)
needs packet_was_sent s = none

-- The secret does not give the access that the message needs.
unfoldable pub denied : {M : Type 0} → Option Str → Message M → Server M → Bool
unfolding needs allows
denied secret m s = elim (needs m s) [
  | none ↦ false
  | some a ↦ not (allows a.1 secret a.0 s.secrets)
]

-- The answer to a message whose secret is not accepted.
unfoldable pub refusal : {M : Type 0} → Message M → Answer M
unfolding needs_network
refusal (graph_message m) = graph_error invalid_secret
refusal (trace_message m) = trace_error invalid_secret
refusal (network_message m) = network_error invalid_secret (needs_network m).0
refusal gets_runtime = runtime_error invalid_secret
refusal lists_components = graph_error invalid_secret
refusal packet_was_sent = runtime_error invalid_secret

module _ {M : Type 0} where
  on_graph_refused :
      (secret : Option Str) (name : Str) (missing : Failure) (f : ℕ → Handled M) (s : Server M)
      → not (allows read_write secret name s.secrets) ≡ true
      → on_graph secret name missing f s ≡ (s, graph_error invalid_secret ∷ [])
  unfolding on_graph
  on_graph_refused secret name missing f s h = ground arith

  on_trace_refused :
      {A : Type 0} (level : AccessLevel) (secret : Option Str) (graph : Str)
      (r : Fallible (Runtime ℕ) A) (f : A → Answer M) (s : Server M)
      → not (allows level secret graph s.secrets) ≡ true
      → on_trace level secret graph r f s ≡ (s, trace_error invalid_secret ∷ [])
  unfolding on_trace
  on_trace_refused level secret graph r f s h = ground arith

  on_network_refused :
      (level : AccessLevel) (secret : Option Str) (graph : Str) (handled : Handled M) (s : Server M)
      → not (allows level secret graph s.secrets) ≡ true
      → on_network level secret graph handled s ≡ (s, network_error invalid_secret graph ∷ [])
  unfolding on_network
  on_network_refused level secret graph handled s h = ground arith

  trace_refused :
      (secret : Option Str) (m : TraceMessage) (s : Server M)
      → not (allows (needs_trace m).1 secret (needs_trace m).0 s.secrets) ≡ true
      → handle_trace secret m s ≡ (s, trace_error invalid_secret ∷ [])
  unfolding handle_trace needs_trace
  trace_refused secret (starts_trace graph size) s h = on_trace_refused _ secret graph _ _ s h
  trace_refused secret (stops_trace graph) s h = on_trace_refused _ secret graph _ _ s h
  trace_refused secret (clears_trace graph) s h = on_trace_refused _ secret graph _ _ s h
  trace_refused secret (dumps_trace graph) s h = on_trace_refused _ secret graph _ _ s h

  network_refused :
      (secret : Option Str) (m : NetworkMessage) (s : Server M)
      → not (allows (needs_network m).1 secret (needs_network m).0 s.secrets) ≡ true
      → handle_network secret m s ≡ (s, network_error invalid_secret (needs_network m).0 ∷ [])
  unfolding handle_network needs_network
  network_refused secret (selects_edges p) s h = on_network_refused _ secret p.graph _ s h
  network_refused secret (sets_debug graph enable) s h = on_network_refused _ secret graph _ s h
  network_refused secret (stops_network graph) s h = on_network_refused _ secret graph _ s h
  network_refused secret (gets_status graph reads) s h = on_network_refused _ secret graph _ s h

module _ (json : SerdeJson) where
  open json use {Map}

  addnode_refused :
      (secret : Option Str) (p : AddnodePayload Map) (s : Server Map)
      → denied secret (graph_message (adds_node p)) s ≡ true
      → handle_addnode json secret p s ≡ (s, graph_error invalid_secret ∷ [])
  unfolding denied handle_addnode
  addnode_refused secret p s h = by_graph p.graph refl
    where
      by_graph :
          (o : Option Str)
          → p.graph ≡ o
          → handle_addnode json secret p s ≡ (s, graph_error invalid_secret ∷ [])
      by_graph none e = absurd (ground (arith, e, h))
      by_graph (some g) e =
          rw (e, handle_addnode) (on_graph_refused secret g _ _ s (ground (arith, e, h)))

  graph_refused :
      (secret : Option Str) (m : GraphMessage Map) (s : Server Map)
      → denied secret (graph_message m) s ≡ true
      → handle_graph json secret m s ≡ (s, graph_error invalid_secret ∷ [])
  unfolding denied handle_graph
  graph_refused secret (clears_graph p) s h = ground arith
  graph_refused secret (adds_node p) s h = addnode_refused secret p s h
  graph_refused secret (removes_node p) s h = on_graph_refused secret p.graph _ _ s h
  graph_refused secret (renames_node p) s h = on_graph_refused secret p.graph _ _ s h
  graph_refused secret (changes_node p) s h = on_graph_refused secret p.graph _ _ s h
  graph_refused secret (adds_edge p) s h = on_graph_refused secret p.graph _ _ s h
  graph_refused secret (removes_edge p) s h = on_graph_refused secret p.graph _ _ s h
  graph_refused secret (changes_edge p) s h = on_graph_refused secret p.graph _ _ s h
  graph_refused secret (adds_initial p) s h = on_graph_refused secret p.graph _ _ s h
  graph_refused secret (removes_initial p) s h = on_graph_refused secret p.graph _ _ s h
  graph_refused secret (adds_inport p) s h = on_graph_refused secret p.graph _ _ s h
  graph_refused secret (removes_inport p) s h = on_graph_refused secret p.graph _ _ s h
  graph_refused secret (renames_inport p) s h = on_graph_refused secret p.graph _ _ s h
  graph_refused secret (adds_outport p) s h = on_graph_refused secret p.graph _ _ s h
  graph_refused secret (removes_outport p) s h = on_graph_refused secret p.graph _ _ s h
  graph_refused secret (renames_outport p) s h = on_graph_refused secret p.graph _ _ s h
  graph_refused secret (adds_group p) s h = on_graph_refused secret p.graph _ _ s h
  graph_refused secret (removes_group p) s h = on_graph_refused secret p.graph _ _ s h
  graph_refused secret (renames_group p) s h = on_graph_refused secret p.graph _ _ s h
  graph_refused secret (changes_group p) s h = on_graph_refused secret p.graph _ _ s h

  -- A message whose secret does not give the access that it needs leaves the server and the connection
  -- as they were and is answered by one error that says so. A message that needs none is none.
  pub handle_refused :
      (secret : Option Str) (m : Message Map) (c : Client) (s : Server Map)
      → denied secret m s ≡ true
      → handle json secret m c s ≡ record { server = s; client = c; answers = refusal m ∷ [] }
  unfolding handle refusal
  handle_refused secret (graph_message m) c s h = ap (with_client c) (graph_refused secret m s h)
  handle_refused secret (trace_message m) c s h =
      unfold denied in ap (with_client c) (trace_refused secret m s h)
  handle_refused secret (network_message m) c s h =
      unfold denied in ap (with_client c) (network_refused secret m s h)
  handle_refused secret gets_runtime c s h = unfold denied in ground arith
  handle_refused secret lists_components c s h = unfold denied in ground arith
  handle_refused secret packet_was_sent c s h = absurd (unfold denied in ground (arith, h))
