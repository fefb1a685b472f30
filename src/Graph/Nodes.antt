-- ===== src/Graph/Nodes.antt =====
-- src/graph.rs: the operations on nodes.
use flowd.Base.{
  Bool, not, ◌||◌, Option, none, some, List, [], ◌∷◌, map, if◌then◌else◌, ◌==◌, Str, str_eq, get,
  insert, remove, contains_key, retain, ok, err, not_found, already_exists, Fallible, bytes,
}
use flowd.Graph.{
  Graph, GraphNode, GraphNodeMetadata, GraphNodeSpec, GraphEdge, NetworkSpec, to_network, addressed,
}
use flowd.Graph.Json.{SerdeJson, from_payload, to_payload, number_at, read_int}

-- `component.rsplit('/').next()`: what follows the last '/', or all.
last_part : Str → Str → Str
last_part best [] = best
last_part best (c ∷ s) = last_part (if c == b'/' then s else best) s

unfoldable pub normalized : Str → Str
unfolding last_part
normalized s = last_part s s

-- `GraphRemoveedgeResponsePayload`.
pub record RemovedEdge : Type 0 where
  pub graph : Str
  pub src : NetworkSpec
  pub tgt : NetworkSpec

unfoldable pub touches : Str → GraphEdge → Bool
touches name e = str_eq e.source.process name || str_eq e.target.process name

unfoldable pub removed_edge : Str → GraphEdge → RemovedEdge
unfolding to_network
removed_edge graph e = record {
  graph = graph;
  src = to_network e.source;
  tgt = to_network e.target;
}

unfoldable pub rename_spec : Str → Str → GraphNodeSpec → GraphNodeSpec
rename_spec old new s = if str_eq s.process old then record s { process = new } else s

unfoldable pub rename_edge : Str → Str → GraphEdge → GraphEdge
unfolding rename_spec
rename_edge old new e = record e {
  source = rename_spec old new e.source;
  target = rename_spec old new e.target;
}

module _ {M : Type 0} where
  unfoldable pub drop_node :
      Str → Str → Option (GraphNode M) → Graph M → Fallible (Graph M) (List RemovedEdge)
  drop_node graph name none g = (g, err not_found)
  drop_node graph name (some n) g = (
    record g { nodes = remove name g.nodes; edges = retain (λ e. not (touches name e)) g.edges },
    ok (map (removed_edge graph) (retain (touches name) g.edges)),
  )

  -- The node goes, and with it each edge that it is an end of; those are reported.
  unfoldable pub remove_node : Str → Str → Graph M → Fallible (Graph M) (List RemovedEdge)
  unfolding drop_node touches removed_edge
  remove_node graph name g =
      if addressed graph g then drop_node graph name (get name g.nodes) g else (g, err not_found)

  unfoldable pub move_node :
      Str → Str → Option (GraphNode M) → Graph M → Fallible (Graph M) (Unit {0})
  move_node old new none g = (g, err not_found)
  move_node old new (some n) g = (
    record g {
      nodes = insert new n (remove old g.nodes);
      edges = map (rename_edge old new) g.edges;
    },
    ok tt,
  )

  -- The node moves to a free name, and its edges follow.
  unfoldable pub rename_node : Str → Str → Str → Graph M → Fallible (Graph M) (Unit {0})
  unfolding move_node rename_edge
  rename_node graph old new g =
      if addressed graph g
      then if contains_key new g.nodes
        then (g, err already_exists)
        else move_node old new (get old g.nodes) g
      else (g, err not_found)

module _ (json : SerdeJson) where
  open json use {Value, Map, is_null, put_value, drop_value, entries}

  -- `GraphAddnodeResponsePayload`.
  pub record AddedNode : Type 0 where
    pub name : Str
    pub component : Str
    pub metadata : Map
    pub graph : Str

  unfoldable pub add_node :
      Str → Str → Str → GraphNodeMetadata → Graph Map → Fallible (Graph Map) AddedNode
  unfolding to_payload
  add_node graph component name d g =
      let sent : Map = to_payload json d in
      let node : GraphNode Map = record {
        component = component;
        metadata = d;
        protocol_metadata = sent;
      } in
      if addressed graph g
      then if contains_key name g.nodes then (g, err already_exists) else (
        record g { nodes = insert name node g.nodes },
        ok (record { name = name; component = component; metadata = sent; graph = graph }),
      )
      else (g, err not_found)

  unfoldable pub set_protocol_metadata : Str → Map → Option (GraphNode Map) → Graph Map → Graph Map
  set_protocol_metadata name m none g = g
  set_protocol_metadata name m (some n) g = record g {
    nodes = insert name (record n { protocol_metadata = m }) g.nodes;
  }

  unfoldable pub answer_added :
      Str → Str → Map → Fallible (Graph Map) AddedNode → Fallible (Graph Map) AddedNode
  answer_added graph component m (g, err e) = (g, err e)
  answer_added graph component m (g, ok a) = (
    set_protocol_metadata a.name m (get a.name g.nodes) g,
    ok (record { name = a.name; component = component; metadata = m; graph = graph }),
  )

  -- The component goes in without its collection, the metadata as the client sent it; the answer has
  -- both as they came.
  unfoldable pub add_node_from_payload :
      Str → Str → Str → Map → Graph Map → Fallible (Graph Map) AddedNode
  unfolding answer_added set_protocol_metadata add_node normalized from_payload
  add_node_from_payload graph component name m g =
      answer_added graph component m
        (add_node graph (normalized component) name (from_payload json m) g)

  -- One entry of the request: null removes the key.
  unfoldable pub merge_entry : Str → Value → Map → Map
  merge_entry k v m = if is_null v then drop_value k m else put_value k v m

  unfoldable pub merge_entries : List (Str × Value) → Map → Map
  unfolding merge_entry
  merge_entries [] m = m
  merge_entries ((k, v) ∷ es) m = merge_entries es (merge_entry k v m)

  unfoldable pub changed_node : List (Str × Value) → GraphNode Map → GraphNode Map
  unfolding merge_entries number_at read_int
  changed_node es n =
      let m : Map = merge_entries es n.protocol_metadata in
      record n {
        protocol_metadata = m;
        metadata = record (n.metadata) {
          x = read_int json (number_at json (bytes "x") m) n.metadata.x;
          y = read_int json (number_at json (bytes "y") m) n.metadata.y;
        };
      }

  unfoldable pub merge_node :
      Str → List (Str × Value) → Option (GraphNode Map) → Graph Map → Fallible (Graph Map) Map
  merge_node name es none g = (g, err not_found)
  merge_node name es (some n) g = (
    record g { nodes = insert name (changed_node es n) g.nodes },
    ok (changed_node es n).protocol_metadata,
  )

  unfoldable pub change_node : Str → Str → Map → Graph Map → Fallible (Graph Map) Map
  unfolding merge_node changed_node
  change_node graph name m g =
      if addressed graph g
      then merge_node name (entries m) (get name g.nodes) g
      else (g, err not_found)
