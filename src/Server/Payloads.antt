-- ===== src/Server/Payloads.antt =====
-- src/protocol.rs: what the requests of a client carry, without the secret, and the answers.
use flowd.Base.{ℕ, Bool, Option, List, Str, ErrorKind, HashMap}
use flowd.Graph.{GraphEdgeMetadata, GraphNodeMetadata, GraphGroupMetadata, GraphPort, NetworkSpec}
use flowd.Runtime.Commands.{GraphEdgeSpec}

pub record ClearPayload : Type 0 where
  pub name : Str
  pub label : Option Str
  pub library : Option Str
  pub main : Bool
  pub icon : Option Str
  pub description : Option Str

-- `metadata` is a map of `serde_json`.
pub record AddnodePayload (M : Type 0) : Type 0 where
  pub name : Str
  pub component : Str
  pub metadata : M
  pub graph : Option Str
  pub icon : Option Str

-- A node, a port or a group of a graph, by its name.
pub record NamedPayload : Type 0 where
  pub graph : Str
  pub name : Str

-- A new name for a node, a port or a group of a graph.
pub record RenamePayload : Type 0 where
  pub graph : Str
  pub old : Str
  pub new : Str

pub record ChangenodePayload (M : Type 0) : Type 0 where
  pub name : Str
  pub metadata : M
  pub graph : Str

pub record EdgePayload : Type 0 where
  pub graph : Str
  pub src : NetworkSpec
  pub tgt : NetworkSpec
  pub metadata : GraphEdgeMetadata

pub record RemoveedgePayload : Type 0 where
  pub graph : Str
  pub src : NetworkSpec
  pub tgt : NetworkSpec

pub record AddinitialPayload : Type 0 where
  pub graph : Str
  pub metadata : GraphEdgeMetadata
  pub src : Str
  pub tgt : NetworkSpec

pub record RemoveinitialPayload : Type 0 where
  pub graph : Str
  pub src : Option Str
  pub tgt : NetworkSpec

pub record AddportPayload : Type 0 where
  pub graph : Str
  pub public : Str
  pub node : Str
  pub port : Str
  pub metadata : Option GraphNodeMetadata

pub record GroupPayload : Type 0 where
  pub name : Str
  pub graph : Str
  pub nodes : List Str
  pub metadata : GraphGroupMetadata

pub record ChangegroupPayload : Type 0 where
  pub graph : Str
  pub name : Str
  pub metadata : GraphGroupMetadata

pub record EdgesPayload : Type 0 where
  pub edges : List GraphEdgeSpec
  pub graph : Str

-- The texts of error answers: the literals of the handlers, or what an operation failed with.
pub data Failure : Type 0 where
  invalid_secret graph_not_found no_graph_specified not_the_running_network : Failure
  packetsent_from_client : Failure
  failed : ErrorKind → Failure

pub data Capability : Type 0 where
  protocol_network network_persist network_status network_data network_control : Capability
  protocol_component component_getsource component_setsource protocol_runtime : Capability
  graph_readonly protocol_graph protocol_trace : Capability

-- `NetworkStatusPayload`, without the uptime and the metrics.
pub record StatusPayload : Type 0 where
  pub graph : Str
  pub started : Bool
  pub running : Bool
  pub debug : Option Bool

pub data Answer (M : Type 0) : Type 0 where
  graph_error trace_error runtime_error : Failure → Answer M
  network_error : Failure → Str → Answer M
  cleared : ClearPayload → Str → Answer M
  added_node : Str → Str → M → Str → Answer M
  removed_edge : Str → NetworkSpec → NetworkSpec → Answer M
  removed_node : NamedPayload → Answer M
  renamed_node : RenamePayload → Answer M
  changed_node : Str → M → Str → Answer M
  added_edge : EdgePayload → Answer M
  changed_edge : EdgePayload → Answer M
  added_initial : AddinitialPayload → Answer M
  removed_initial : Str → Str → NetworkSpec → Answer M
  added_inport added_outport : Str → Str → Str → Str → Answer M
  removed_inport renamed_inport renamed_outport : Answer M
  removed_outport : NamedPayload → Answer M
  added_group removed_group renamed_group changed_group : Answer M
  trace_started trace_stopped trace_cleared : Str → Answer M
  trace_dump : Str → Str → Answer M
  network_edges : EdgesPayload → Answer M
  network_started network_stopped : StatusPayload → Answer M
  sent_status : StatusPayload → Answer M
  -- Sent to all clients that are connected.
  broadcast_status : StatusPayload → Answer M
  network_debug : Str → Bool → Answer M
  runtime_info : Str → List Capability → Answer M
  runtime_ports : Str → HashMap GraphPort → HashMap GraphPort → Answer M
  component_info : Str → Answer M
  components_ready : ℕ → Answer M
