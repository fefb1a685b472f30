-- ===== src/Graph.antt =====
-- src/graph.rs: the graph that a client edits: its nodes, edges, initial packets, ports and groups.
-- The metadata of a node as the client sent it is a `serde_json` map, a type that is a parameter.
pub mod Json
pub mod Ports
pub mod Nodes
pub mod Edges
pub mod Groups
pub mod Integrity
pub mod Requests
pub mod RoundTrips
pub mod Effects
use flowd.Base.{
  ℕ, ◌≡◌, Bool, true, false, ◌&&◌, Option, none, some, List, [], if◌then◌else◌, Str, str_eq,
  str_eq_iff, str_eq_refl, HashMap, ℤ, pos, Result, ok, err, resource_busy, Fallible, arith, refl,
}

-- `GraphPropertiesEnvironment` is constant, and so is `case_sensitive`.
pub record GraphProperties : Type 0 where
  pub name : Str
  pub description : Str
  pub icon : Str

pub record GraphPortMetadata : Type 0 where
  pub x : ℤ
  pub y : ℤ

pub record GraphPort : Type 0 where
  pub process : Str
  pub port : Str
  pub metadata : GraphPortMetadata

pub record GraphGroupMetadata : Type 0 where
  pub description : Str

pub record GraphGroup : Type 0 where
  pub name : Str
  pub nodes : List Str
  pub metadata : GraphGroupMetadata

pub record GraphNodeMetadata : Type 0 where
  pub x : ℤ
  pub y : ℤ
  pub width : Option ℕ
  pub height : Option ℕ
  pub label : Option Str
  pub icon : Option Str

pub record GraphNode (M : Type 0) : Type 0 where
  pub component : Str
  pub metadata : GraphNodeMetadata
  pub protocol_metadata : M

pub record GraphNodeSpec : Type 0 where
  pub process : Str
  pub port : Str
  pub index : Option Str

pub record GraphEdgeMetadata : Type 0 where
  pub route : Option ℤ
  pub schema : Option Str
  pub secure : Option Bool

pub record GraphEdge : Type 0 where
  pub source : GraphNodeSpec
  pub payload : Option Str
  pub target : GraphNodeSpec
  pub metadata : GraphEdgeMetadata

pub record Graph (M : Type 0) : Type 0 where
  pub properties : GraphProperties
  pub inports : HashMap GraphPort
  pub outports : HashMap GraphPort
  pub groups : List GraphGroup
  pub nodes : HashMap (GraphNode M)
  pub edges : List GraphEdge

-- `GraphNodeSpecNetwork`.
pub record NetworkSpec : Type 0 where
  pub node : Str
  pub port : Str
  pub index : Option Str

unfoldable pub option_eq : Option Str → Option Str → Bool
option_eq none none = true
option_eq (some s) (some t) = str_eq s t
option_eq _ _ = false

-- `PartialEq<GraphNodeSpecNetwork> for GraphNodeSpec`.
unfoldable pub spec_eq : GraphNodeSpec → NetworkSpec → Bool
unfolding option_eq
spec_eq a b = str_eq a.process b.node && str_eq a.port b.port && option_eq a.index b.index

-- `From<GraphNodeSpecNetwork> for GraphNodeSpec`.
unfoldable pub from_network : NetworkSpec → GraphNodeSpec
from_network n = record { process = n.node; port = n.port; index = n.index }

unfoldable pub to_network : GraphNodeSpec → NetworkSpec
to_network s = record { node = s.process; port = s.port; index = s.index }

pub spec_eq-from_network : (n : NetworkSpec) → spec_eq (from_network n) n ≡ true
unfolding spec_eq from_network
spec_eq-from_network n =
    ground (arith, str_eq_refl n.node, str_eq_refl n.port, option_eq_refl n.index)
  where
    option_eq_refl : (o : Option Str) → option_eq o o ≡ true
    option_eq_refl none = refl
    option_eq_refl (some s) = str_eq_refl s

module _ {M : Type 0} where
  -- `Graph::new`.
  unfoldable pub new_graph : Str → Str → Str → Graph M
  new_graph name description icon = record {
    properties = record { name = name; description = description; icon = icon };
    inports = [];
    outports = [];
    groups = [];
    nodes = [];
    edges = [];
  }

  -- `Graph::clear`, with the name, description and icon of the request; it is refused while the
  -- network of the runtime runs.
  unfoldable pub clear :
      Str → Option Str → Option Str → Bool → Graph M → Fallible (Graph M) (Unit {0})
  clear name description icon running g = if running then (g, err resource_busy) else (
    record g {
      properties = record {
        name = name;
        description = elim description [ none ↦ [] | some d ↦ d ];
        icon = elim icon [ none ↦ [] | some i ↦ i ];
      };
      groups = [];
      edges = [];
      inports = [];
      outports = [];
      nodes = [];
    },
    ok tt,
  )

  -- The check of the graph's name, which most operations begin with.
  abbrev pub addressed : Str → Graph M → Bool
  addressed name g = str_eq name g.properties.name
