-- ===== src/Server/Control.antt =====
-- src/server.rs: the handlers of the trace, network, runtime and component messages. What a
-- `network:start` and the files of `network:persist` and `component:getsource` do is not here.
pub mod Stopped
pub mod Started
use flowd.Base.{
  ℕ, zero, suc, ◌+◌, Bool, true, false, not, ◌&&◌, ◌||◌, Option, none, some, List, [], ◌∷◌, ◌++◌,
  map, if◌then◌else◌, Str, str_eq, is_empty, get, length, Result, ok, err, ErrorKind, Fallible,
}
use flowd.Graph.{Graph}
use flowd.Runtime.Commands.{
  Runtime, RuntimeStatus, GraphEdgeSpec, debug_mode, set_debug_edges, start_trace, stop_trace,
  clear_trace, dump_trace,
}
use flowd.Runtime.Secrets.{AccessLevel, read_only, read_write, Secrets}
use flowd.Server.{Server, Handled, allows, get_graph_by_name}
use flowd.Server.Payloads.{
  Failure, invalid_secret, graph_not_found, not_the_running_network, packetsent_from_client, failed,
  EdgesPayload, StatusPayload, Capability, network_status, network_control, graph_readonly, Answer,
  trace_error, network_error, runtime_error, graph_error, trace_started, trace_stopped,
  trace_cleared, trace_dump, network_edges, network_stopped, network_debug, broadcast_status,
  runtime_info, runtime_ports, component_info, components_ready, sent_status,
}

-- `ClientCapabilityHolder`: what a connection was told by `runtime:runtime`.
pub record Client : Type 0 where
  pub graph : Option Str
  pub capabilities : List Capability

unfoldable pub is_network_control : Capability → Bool
is_network_control network_control = true
is_network_control _ = false

unfoldable pub is_network_status : Capability → Bool
is_network_status network_status = true
is_network_status _ = false

unfoldable pub is_readonly : Capability → Bool
is_readonly graph_readonly = true
is_readonly _ = false

-- `capabilities.contains(..)`.
unfoldable pub has : (Capability → Bool) → List Capability → Bool
has p [] = false
has p (c ∷ cs) = if p c then true else has p cs

unfoldable pub can_receive_network_debug_for_graph : Str → Client → Bool
unfolding has is_network_control is_network_status
can_receive_network_debug_for_graph graph c = elim c.graph [
  | none ↦ false
  | some g ↦
      str_eq g graph
      && (has is_network_control c.capabilities || has is_network_status c.capabilities)
]

-- The secret is the one of the graph, and grants reading only.
unfoldable pub has_readonly_secret_for_graph : Option Str → Str → Secrets → Bool
has_readonly_secret_for_graph none graph secrets = false
has_readonly_secret_for_graph (some secret) graph secrets =
    if is_empty secret then false else elim (get graph secrets) [
      | none ↦ false
      | some grant ↦
          str_eq secret grant.0 && (elim grant.1 [ read_only ↦ true | read_write ↦ false ])
    ]

unfoldable pub snapshot : RuntimeStatus → StatusPayload
snapshot s = record { graph = s.graph; started = s.started; running = s.running; debug = s.debug }

-- The reads of the status while the handler waits for a network that may be about to end, `n` at
-- most; `reads` are the values that they see.
unfoldable pub wait_for_end : ℕ → ℕ → (ℕ → RuntimeStatus) → RuntimeStatus → RuntimeStatus
wait_for_end zero i reads s = s
wait_for_end (suc n) i reads s =
    let rest = wait_for_end n (i + 1) reads (reads i) in if (reads i).running then rest else reads i

-- A network that has started is reported as no longer running.
unfoldable pub reported_status : Str → RuntimeStatus → StatusPayload
unfolding snapshot
reported_status graph s =
    if str_eq s.graph graph
    then record (snapshot s) { running = s.running && not s.started }
    else record { graph = graph; started = false; running = false; debug = s.debug }

module _ {M : Type 0} where
  unfoldable pub finish_trace :
      {A : Type 0} → Fallible (Runtime ℕ) A → (A → Answer M) → Server M → Handled M
  finish_trace (r, ok a) answer s = (record s { runtime = r }, answer a ∷ [])
  finish_trace (r, err e) answer s = (record s { runtime = r }, trace_error (failed e) ∷ [])

  -- The check that the handlers of trace messages begin with.
  unfoldable pub on_trace :
      {A : Type 0}
      → AccessLevel
      → Option Str
      → Str
      → Fallible (Runtime ℕ) A
      → (A → Answer M)
      → Server M
      → Handled M
  unfolding allows finish_trace
  on_trace level secret graph r answer s =
      if allows level secret graph s.secrets
      then finish_trace r answer s
      else (s, trace_error invalid_secret ∷ [])

  unfoldable pub handle_trace_start : Option Str → Str → ℕ → Server M → Handled M
  unfolding on_trace start_trace
  handle_trace_start secret graph size s =
      on_trace read_write secret graph (start_trace graph size s.runtime) (λ u. trace_started graph)
        s

  unfoldable pub handle_trace_stop : Option Str → Str → Server M → Handled M
  unfolding on_trace stop_trace
  handle_trace_stop secret graph s =
      on_trace read_write secret graph (stop_trace graph s.runtime) (λ u. trace_stopped graph) s

  unfoldable pub handle_trace_clear : Option Str → Str → Server M → Handled M
  unfolding on_trace clear_trace
  handle_trace_clear secret graph s =
      on_trace read_write secret graph (clear_trace graph s.runtime) (λ u. trace_cleared graph) s

  unfoldable pub handle_trace_dump : Option Str → Str → Server M → Handled M
  unfolding on_trace dump_trace
  handle_trace_dump secret graph s =
      on_trace read_only secret graph (dump_trace graph s.runtime) (trace_dump graph) s

  -- The checks that the handlers of network messages begin with: the secret, then the graph.
  unfoldable pub on_network : AccessLevel → Option Str → Str → Handled M → Server M → Handled M
  unfolding allows get_graph_by_name
  on_network level secret graph handled s =
      if allows level secret graph s.secrets
      then elim (get_graph_by_name graph s) [
        | none ↦ (s, network_error graph_not_found graph ∷ [])
        | some h ↦ handled
      ]
      else (s, network_error invalid_secret graph ∷ [])

  unfoldable pub finish_network :
      {A : Type 0} → Str → Fallible (Runtime ℕ) A → Answer M → Server M → Handled M
  finish_network graph (r, ok a) answer s = (record s { runtime = r }, answer ∷ [])
  finish_network graph (r, err e) answer s =
      (record s { runtime = r }, network_error (failed e) graph ∷ [])

  unfoldable pub handle_network_edges : Option Str → EdgesPayload → Server M → Handled M
  unfolding on_network finish_network set_debug_edges
  handle_network_edges secret p s =
      on_network read_write secret p.graph
        (finish_network p.graph (set_debug_edges p.graph p.edges s.runtime) (network_edges p) s) s

  unfoldable pub handle_network_debug : Option Str → Str → Bool → Server M → Handled M
  unfolding on_network finish_network debug_mode
  handle_network_debug secret graph enable s =
      on_network read_write secret graph
        (finish_network graph (debug_mode graph enable s.runtime) (network_debug graph enable) s) s

  -- The status says at once that the network was stopped; if it ran, a thread tears it down.
  unfoldable pub stop_network : Str → Server M → Handled M
  unfolding snapshot
  stop_network graph s =
      let status : RuntimeStatus = record (s.runtime.status) {
        graph = graph;
        started = false;
        running = false;
      } in
      if str_eq s.runtime.status.graph graph
      then (
        record s {
          runtime = record (s.runtime) { status = status };
          teardowns = if s.runtime.status.running then s.teardowns + 1 else s.teardowns;
        },
        network_stopped (snapshot status) ∷ broadcast_status (snapshot status) ∷ [],
      )
      else (s, network_error not_the_running_network graph ∷ [])

  unfoldable pub handle_network_stop : Option Str → Str → Server M → Handled M
  unfolding on_network stop_network
  handle_network_stop secret graph s = on_network read_write secret graph (stop_network graph s) s

  unfoldable pub handle_network_getstatus :
      Option Str → Str → (ℕ → RuntimeStatus) → Server M → Handled M
  unfolding on_network wait_for_end reported_status
  handle_network_getstatus secret graph reads s =
      let now : RuntimeStatus = s.runtime.status in
      let seen : RuntimeStatus =
        if str_eq now.graph graph && now.started && now.running
        then wait_for_end 10 0 reads now
        else now in
      on_network read_only secret graph (s, sent_status (reported_status graph seen) ∷ []) s

  -- The description of the runtime, its status and its ports; a read-only secret adds a capability.
  unfoldable pub handle_getruntime : Option Str → Client → Server M → Client × List (Answer M)
  unfolding allows has_readonly_secret_for_graph has is_readonly snapshot
  handle_getruntime secret c s =
      let name : Str = s.runtime.graph in
      let capabilities : List Capability =
        if has_readonly_secret_for_graph secret name s.secrets
          && not (has is_readonly s.capabilities)
        then s.capabilities ++ graph_readonly ∷ []
        else s.capabilities in
      let g : Graph M = s.store s.graph in
      if allows read_only secret name s.secrets
      then (
        record { graph = some name; capabilities = capabilities },
        runtime_info name capabilities
            ∷ sent_status (record (snapshot s.runtime.status) { graph = name })
            ∷ runtime_ports name g.inports g.outports
            ∷ [],
      )
      else (c, runtime_error invalid_secret ∷ [])

  unfoldable pub handle_component_list : Option Str → Client → Server M → List (Answer M)
  unfolding allows can_receive_network_debug_for_graph
  handle_component_list secret c s =
      let name : Str = s.runtime.graph in
      let debugs : Bool = elim s.runtime.status.debug [ none ↦ false | some b ↦ b ] in
      if allows read_only secret name s.secrets
      then map component_info s.components
        ++ (components_ready (length s.components)
            ∷ (if can_receive_network_debug_for_graph name c
                then network_debug name debugs ∷ []
                else []))
      else graph_error invalid_secret ∷ []

  -- A client must not send this message.
  unfoldable pub handle_packetsent : Server M → Handled M
  handle_packetsent s = (s, runtime_error packetsent_from_client ∷ [])
