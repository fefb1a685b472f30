-- ===== src/Server/Messages/Readers.antt =====
-- src/server.rs: only a client that may write changes the server.
use flowd.Base.{
  ℕ, ◌≡◌, refl, ap, Bool, true, false, Option, none, some, ◌∷◌, Str, str_eq_refl, get, arith,
}
use flowd.Graph.Json.{SerdeJson}
use flowd.Runtime.Secrets.{AccessLevel, read_only, read_write, validate_secret_with_access}
use flowd.Server.{Server, allows}
use flowd.Server.Control.{Client, handle_trace_dump}
use flowd.Server.Messages.{
  Message, graph_message, trace_message, network_message, gets_runtime, lists_components,
  packet_was_sent, GraphMessage, clears_graph, adds_node, removes_node, renames_node, changes_node,
  adds_edge, removes_edge, changes_edge, adds_initial, removes_initial, adds_inport, adds_outport,
  removes_inport, removes_outport, renames_inport, renames_outport, adds_group, removes_group,
  renames_group, changes_group, TraceMessage, starts_trace, stops_trace, clears_trace, dumps_trace,
  NetworkMessage, selects_edges, sets_debug, stops_network, gets_status, handle, handle_graph,
  handle_trace, handle_network,
}
use flowd.Server.Messages.Refused.{needs, names, denied, handle_refused}

-- The secret gives the right to write to the graph that the message is about.
unfoldable pub may_write : {M : Type 0} → Option Str → Message M → Server M → Bool
unfolding needs allows
may_write secret m s = elim (needs m s) [
  | none ↦ false
  | some a ↦ allows read_write secret a.0 s.secrets
]

module _ (json : SerdeJson) where
  open json use {Map}

  server_of_refused :
      (secret : Option Str) (m : Message Map) (c : Client) (s : Server Map)
      → denied secret m s ≡ true
      → (handle json secret m c s).server ≡ s
  server_of_refused secret m c s h = ap (λ o. o.server) (handle_refused json secret m c s h)

  dump_keeps :
      (secret : Option Str) (graph : Str) (s : Server Map)
      → (handle_trace_dump secret graph s).0 ≡ s
  unfolding handle_trace_dump
  dump_keeps secret graph s = ground arith

  unnamed_keeps :
      (secret : Option Str) (m : GraphMessage Map) (s : Server Map)
      → names m ≡ none
      → (handle_graph json secret m s).0 ≡ s
  unfolding names handle_graph
  unnamed_keeps secret (adds_node p) s h = rw (h, handle_graph) refl
  unnamed_keeps secret (clears_graph p) s h = absurd (ground (arith, h))
  unnamed_keeps secret (removes_node p) s h = absurd (ground (arith, h))
  unnamed_keeps secret (renames_node p) s h = absurd (ground (arith, h))
  unnamed_keeps secret (changes_node p) s h = absurd (ground (arith, h))
  unnamed_keeps secret (adds_edge p) s h = absurd (ground (arith, h))
  unnamed_keeps secret (removes_edge p) s h = absurd (ground (arith, h))
  unnamed_keeps secret (changes_edge p) s h = absurd (ground (arith, h))
  unnamed_keeps secret (adds_initial p) s h = absurd (ground (arith, h))
  unnamed_keeps secret (removes_initial p) s h = absurd (ground (arith, h))
  unnamed_keeps secret (adds_inport p) s h = absurd (ground (arith, h))
  unnamed_keeps secret (removes_inport p) s h = absurd (ground (arith, h))
  unnamed_keeps secret (renames_inport p) s h = absurd (ground (arith, h))
  unnamed_keeps secret (adds_outport p) s h = absurd (ground (arith, h))
  unnamed_keeps secret (removes_outport p) s h = absurd (ground (arith, h))
  unnamed_keeps secret (renames_outport p) s h = absurd (ground (arith, h))
  unnamed_keeps secret (adds_group p) s h = absurd (ground (arith, h))
  unnamed_keeps secret (removes_group p) s h = absurd (ground (arith, h))
  unnamed_keeps secret (renames_group p) s h = absurd (ground (arith, h))
  unnamed_keeps secret (changes_group p) s h = absurd (ground (arith, h))

  graph_keeps :
      (secret : Option Str) (m : GraphMessage Map) (c : Client) (s : Server Map)
      → may_write secret (graph_message m) s ≡ false
      → (handle_graph json secret m s).0 ≡ s
  unfolding may_write denied handle
  graph_keeps secret m c s h = by_name (names m) refl
    where
      by_name : (o : Option Str) → names m ≡ o → (handle_graph json secret m s).0 ≡ s
      by_name none e = unnamed_keeps secret m s e
      by_name (some g) e = server_of_refused secret (graph_message m) c s (ground (arith, e, h))

  trace_keeps :
      (secret : Option Str) (m : TraceMessage) (c : Client) (s : Server Map)
      → may_write secret (trace_message m) s ≡ false
      → (handle_trace secret m s).0 ≡ s
  unfolding may_write denied handle handle_trace
  trace_keeps secret (starts_trace graph size) c s h =
      server_of_refused secret (trace_message (starts_trace graph size)) c s (ground (arith, h))
  trace_keeps secret (stops_trace graph) c s h =
      server_of_refused secret (trace_message (stops_trace graph)) c s (ground (arith, h))
  trace_keeps secret (clears_trace graph) c s h =
      server_of_refused secret (trace_message (clears_trace graph)) c s (ground (arith, h))
  trace_keeps secret (dumps_trace graph) c s h = dump_keeps secret graph s

  network_keeps :
      (secret : Option Str) (m : NetworkMessage) (c : Client) (s : Server Map)
      → may_write secret (network_message m) s ≡ false
      → (handle_network secret m s).0 ≡ s
  unfolding may_write denied handle handle_network
  network_keeps secret (selects_edges p) c s h =
      server_of_refused secret (network_message (selects_edges p)) c s (ground (arith, h))
  network_keeps secret (sets_debug graph enable) c s h =
      server_of_refused secret (network_message (sets_debug graph enable)) c s (ground (arith, h))
  network_keeps secret (stops_network graph) c s h =
      server_of_refused secret (network_message (stops_network graph)) c s (ground (arith, h))
  network_keeps secret (gets_status graph reads) c s h = ground arith

  -- Whatever the message, the server is left as it was unless the message needs access to a graph and
  -- its secret gives the right to write to that graph.
  pub handle_keeps :
      (secret : Option Str) (m : Message Map) (c : Client) (s : Server Map)
      → may_write secret m s ≡ false
      → (handle json secret m c s).server ≡ s
  unfolding handle
  handle_keeps secret (graph_message m) c s h = graph_keeps secret m c s h
  handle_keeps secret (trace_message m) c s h = trace_keeps secret m c s h
  handle_keeps secret (network_message m) c s h = network_keeps secret m c s h
  handle_keeps secret gets_runtime c s h = refl
  handle_keeps secret lists_components c s h = refl
  handle_keeps secret packet_was_sent c s h = refl

  -- A client with a secret that is configured for reading only, for the graph that a message is about,
  -- does not change the server by any message.
  reader_keeps :
      (ch : ℕ) (rest name : Str) (level : AccessLevel) (m : Message Map) (c : Client)
      (s : Server Map)
      → needs m s ≡ some (name, level)
      → get name s.secrets ≡ some (ch ∷ rest, read_only)
      → (handle json (some (ch ∷ rest)) m c s).server ≡ s
  unfolding may_write allows validate_secret_with_access
  reader_keeps ch rest name level m c s about granted =
      handle_keeps (some (ch ∷ rest)) m c s
        (rw (about, may_write) (rw (granted, allows) (ground (arith, str_eq_refl (ch ∷ rest)))))
