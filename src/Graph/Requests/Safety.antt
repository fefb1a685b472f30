-- ===== src/Graph/Requests/Safety.antt =====
-- src/graph.rs: a request that fails changes nothing.
use flowd.Base.{
  refl, Bool, true, false, Option, none, some, List, Str, Result, ok, err, Fallible, KeepsOnError,
  HashMap, get, find, contains_key, if◌then◌else◌,
}
use flowd.Graph.{
  Graph, GraphNode, GraphEdge, GraphGroup, GraphPort, GraphNodeMetadata, GraphEdgeMetadata, clear,
  addressed,
}
use flowd.Graph.Json.{SerdeJson, from_payload}
use flowd.Graph.Ports.{
  try_insert, try_remove, try_rename, move_value, with_inports, with_outports, add_inport,
  add_outport, remove_inport, remove_outport, rename_inport, rename_outport,
}
use flowd.Graph.Nodes.{
  AddedNode, add_node, add_node_from_payload, answer_added, normalized, remove_node, drop_node,
  rename_node, move_node, change_node, merge_node,
}
use flowd.Graph.Edges.{
  add_edge, remove_edge, drop_edge, change_edge, mark_edge, add_initialip, remove_initialip,
  drop_initial, joins, is_initial,
}
use flowd.Graph.Groups.{add_group, remove_group, rename_group, change_group, if_found}
use flowd.Graph.Requests.{
  Request, clears, adds_node, removes_node, renames_node, changes_node, adds_edge, removes_edge,
  changes_edge, adds_initial, removes_initial, adds_inport, adds_outport, removes_inport,
  removes_outport, renames_inport, renames_outport, adds_group, removes_group, renames_group,
  changes_group, forget, apply,
}

-- A failure of either branch has changed nothing.
pub KeepsOnError-if :
    {S A : Type 0} (s : S) (b : Bool) (x y : Fallible S A)
    → KeepsOnError s x
    → KeepsOnError s y
    → KeepsOnError s (if b then x else y)
KeepsOnError-if s true x y p q = p
KeepsOnError-if s false x y p q = q

KeepsOnError-forget :
    {S A : Type 0} (s : S) (x : Fallible S A) → KeepsOnError s x → KeepsOnError s (forget x)
KeepsOnError-forget s (s', ok a) h = tt
KeepsOnError-forget s (s', err e) h = h

module _ {V : Type 0} where
  try_insert_keeps : (k : Str) (v : V) (m : HashMap V) → KeepsOnError m (try_insert k v m)
  unfolding try_insert
  try_insert_keeps k v m = KeepsOnError-if m (contains_key k m) _ _ refl tt

  try_remove_keeps : (k : Str) (m : HashMap V) → KeepsOnError m (try_remove k m)
  unfolding try_remove
  try_remove_keeps k m = KeepsOnError-if m (contains_key k m) _ _ tt refl

  move_value_keeps :
      (old new : Str) (o : Option V) (m : HashMap V) → KeepsOnError m (move_value old o new m)
  unfolding move_value
  move_value_keeps old new none m = refl
  move_value_keeps old new (some v) m = tt

  try_rename_keeps : (old new : Str) (m : HashMap V) → KeepsOnError m (try_rename old new m)
  unfolding try_rename
  try_rename_keeps old new m =
      KeepsOnError-if m (contains_key new m) _ _ refl (move_value_keeps old new (get old m) m)

module _ {M : Type 0} (g : Graph M) where
  inports_kept :
      (r : HashMap GraphPort × Result (Unit {0}))
      → KeepsOnError g.inports r
      → KeepsOnError g (with_inports g r)
  inports_kept (m, ok a) h = tt
  inports_kept (m, err e) h = λ i. record g { inports = h i }

  outports_kept :
      (r : HashMap GraphPort × Result (Unit {0}))
      → KeepsOnError g.outports r
      → KeepsOnError g (with_outports g r)
  outports_kept (m, ok a) h = tt
  outports_kept (m, err e) h = λ i. record g { outports = h i }

  drop_node_keeps :
      (graph name : Str) (o : Option (GraphNode M)) → KeepsOnError g (drop_node graph name o g)
  unfolding drop_node
  drop_node_keeps graph name none = refl
  drop_node_keeps graph name (some n) = tt

  move_node_keeps :
      (old new : Str) (o : Option (GraphNode M)) → KeepsOnError g (move_node old new o g)
  unfolding move_node
  move_node_keeps old new none = refl
  move_node_keeps old new (some n) = tt

  drop_edge_keeps : (p : GraphEdge → Bool) (o : Option GraphEdge) → KeepsOnError g (drop_edge p o g)
  unfolding drop_edge
  drop_edge_keeps p none = refl
  drop_edge_keeps p (some e) = tt

  mark_edge_keeps :
      (p : GraphEdge → Bool) (d : GraphEdgeMetadata) (o : Option GraphEdge)
      → KeepsOnError g (mark_edge p d o g)
  unfolding mark_edge
  mark_edge_keeps p d none = refl
  mark_edge_keeps p d (some e) = tt

  drop_initial_keeps :
      (p : GraphEdge → Bool) (o : Option GraphEdge) → KeepsOnError g (drop_initial p o g)
  unfolding drop_initial
  drop_initial_keeps p none = refl
  drop_initial_keeps p (some e) = tt

  if_found_keeps : (o : Option GraphGroup) (xs : List GraphGroup) → KeepsOnError g (if_found o xs g)
  unfolding if_found
  if_found_keeps none xs = refl
  if_found_keeps (some x) xs = tt

module _ (json : SerdeJson) where
  open json use {Map, entries}

  add_node_keeps :
      (graph component name : Str) (d : GraphNodeMetadata) (g : Graph Map)
      → KeepsOnError g (add_node json graph component name d g)
  unfolding add_node
  add_node_keeps graph component name d g =
      KeepsOnError-if g (addressed graph g) _ _
        (KeepsOnError-if g (contains_key name g.nodes) _ _ refl tt) refl

  answer_added_keeps :
      (graph component : Str) (m : Map) (g : Graph Map) (r : Fallible (Graph Map) (AddedNode json))
      → KeepsOnError g r
      → KeepsOnError g (answer_added json graph component m r)
  unfolding answer_added
  answer_added_keeps graph component m g (g', ok a) h = tt
  answer_added_keeps graph component m g (g', err e) h = h

  merge_node_keeps :
      (name : Str) (es : List (Str × json.Value)) (o : Option (GraphNode Map)) (g : Graph Map)
      → KeepsOnError g (merge_node json name es o g)
  unfolding merge_node
  merge_node_keeps name es none g = refl
  merge_node_keeps name es (some n) g = tt

  -- Whatever the request, if the answer is an error, the graph is as it was.
  pub apply_keeps : (q : Request Map) (g : Graph Map) → KeepsOnError g (apply json q g)
  unfolding apply clear add_node_from_payload remove_node rename_node change_node add_edge
      remove_edge change_edge add_initialip remove_initialip add_inport add_outport remove_inport
      remove_outport rename_inport rename_outport add_group remove_group rename_group change_group
  apply_keeps (clears name description icon running) g = KeepsOnError-if g running _ _ refl tt
  apply_keeps (adds_node graph component name m) g = KeepsOnError-forget g _ (
      answer_added_keeps graph component m g _
        (add_node_keeps graph (normalized component) name (from_payload json m) g))
  apply_keeps (removes_node graph name) g = KeepsOnError-forget g _ (
      KeepsOnError-if g (addressed graph g) _ _ (drop_node_keeps g graph name (get name g.nodes))
        refl)
  apply_keeps (renames_node graph old new) g =
      KeepsOnError-if g (addressed graph g) _ _
        (KeepsOnError-if g (contains_key new g.nodes) _ _ refl
          (move_node_keeps g old new (get old g.nodes)))
        refl
  apply_keeps (changes_node graph name m) g = KeepsOnError-forget g _ (
      KeepsOnError-if g (addressed graph g) _ _
        (merge_node_keeps name (entries m) (get name g.nodes) g) refl)
  apply_keeps (adds_edge graph e) g = KeepsOnError-if g (addressed graph g) _ _ tt refl
  apply_keeps (removes_edge graph src tgt) g =
      KeepsOnError-if g (addressed graph g) _ _
        (drop_edge_keeps g (joins src tgt) (find (joins src tgt) g.edges)) refl
  apply_keeps (changes_edge graph src tgt d) g =
      KeepsOnError-if g (addressed graph g) _ _
        (mark_edge_keeps g (joins src tgt) d (find (joins src tgt) g.edges)) refl
  apply_keeps (adds_initial content tgt d) g = tt
  apply_keeps (removes_initial wanted tgt) g =
      KeepsOnError-forget g _
        (drop_initial_keeps g (is_initial wanted tgt) (find (is_initial wanted tgt) g.edges))
  apply_keeps (adds_inport name port) g = inports_kept g _ (try_insert_keeps name port g.inports)
  apply_keeps (adds_outport name port) g = outports_kept g _ (try_insert_keeps name port g.outports)
  apply_keeps (removes_inport name) g = inports_kept g _ (try_remove_keeps name g.inports)
  apply_keeps (removes_outport name) g = outports_kept g _ (try_remove_keeps name g.outports)
  apply_keeps (renames_inport old new) g = inports_kept g _ (try_rename_keeps old new g.inports)
  apply_keeps (renames_outport old new) g = outports_kept g _ (try_rename_keeps old new g.outports)
  apply_keeps (adds_group graph name nodes d) g = KeepsOnError-if g (addressed graph g) _ _ tt refl
  apply_keeps (removes_group graph name) g =
      KeepsOnError-if g (addressed graph g) _ _ (if_found_keeps g _ _) refl
  apply_keeps (renames_group graph old new) g =
      KeepsOnError-if g (addressed graph g) _ _ (if_found_keeps g _ _) refl
  apply_keeps (changes_group graph name d) g =
      KeepsOnError-if g (addressed graph g) _ _ (if_found_keeps g _ _) refl
