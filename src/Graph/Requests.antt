-- ===== src/Graph/Requests.antt =====
-- src/graph.rs: the editing requests of a client as one step function over all operations.
pub mod Safety
pub mod Closed
use flowd.Base.{ℕ, ◌≡◌, Bool, Option, List, Str, Result, ok, err, Fallible}
use flowd.Graph.{
  Graph, GraphEdge, GraphEdgeMetadata, GraphPort, GraphGroupMetadata, NetworkSpec, clear,
}
use flowd.Graph.Json.{SerdeJson}
use flowd.Graph.Ports.{
  add_inport, add_outport, remove_inport, remove_outport, rename_inport, rename_outport,
}
use flowd.Graph.Nodes.{add_node_from_payload, remove_node, rename_node, change_node}
use flowd.Graph.Edges.{add_edge, remove_edge, change_edge, add_initialip, remove_initialip}
use flowd.Graph.Groups.{add_group, remove_group, rename_group, change_group}

pub data Request (M : Type 0) : Type 0 where
  clears : Str → Option Str → Option Str → Bool → Request M
  adds_node : Str → Str → Str → M → Request M
  removes_node : Str → Str → Request M
  renames_node : Str → Str → Str → Request M
  changes_node : Str → Str → M → Request M
  adds_edge : Str → GraphEdge → Request M
  removes_edge : Str → NetworkSpec → NetworkSpec → Request M
  changes_edge : Str → NetworkSpec → NetworkSpec → GraphEdgeMetadata → Request M
  adds_initial : Str → NetworkSpec → GraphEdgeMetadata → Request M
  removes_initial : Option Str → NetworkSpec → Request M
  adds_inport adds_outport : Str → GraphPort → Request M
  removes_inport removes_outport : Str → Request M
  renames_inport renames_outport : Str → Str → Request M
  adds_group : Str → Str → List Str → GraphGroupMetadata → Request M
  removes_group : Str → Str → Request M
  renames_group : Str → Str → Str → Request M
  changes_group : Str → Str → GraphGroupMetadata → Request M

-- The answer without what it reports.
abbrev pub forget : {S A : Type 0} → Fallible S A → Fallible S (Unit {0})
forget (s, ok a) = (s, ok tt)
forget (s, err e) = (s, err e)

module _ (json : SerdeJson) where
  open json use {Map}

  unfoldable pub apply : Request Map → Graph Map → Fallible (Graph Map) (Unit {0})
  apply (clears name description icon running) g = clear name description icon running g
  apply (adds_node graph component name m) g =
      forget (add_node_from_payload json graph component name m g)
  apply (removes_node graph name) g = forget (remove_node graph name g)
  apply (renames_node graph old new) g = rename_node graph old new g
  apply (changes_node graph name m) g = forget (change_node json graph name m g)
  apply (adds_edge graph e) g = add_edge graph e g
  apply (removes_edge graph src tgt) g = remove_edge graph src tgt g
  apply (changes_edge graph src tgt d) g = change_edge graph src tgt d g
  apply (adds_initial content tgt d) g = add_initialip content tgt d g
  apply (removes_initial wanted tgt) g = forget (remove_initialip wanted tgt g)
  apply (adds_inport name port) g = add_inport name port g
  apply (adds_outport name port) g = add_outport name port g
  apply (removes_inport name) g = remove_inport name g
  apply (removes_outport name) g = remove_outport name g
  apply (renames_inport old new) g = rename_inport old new g
  apply (renames_outport old new) g = rename_outport old new g
  apply (adds_group graph name nodes d) g = add_group graph name nodes d g
  apply (removes_group graph name) g = remove_group graph name g
  apply (renames_group graph old new) g = rename_group graph old new g
  apply (changes_group graph name d) g = change_group graph name d g
