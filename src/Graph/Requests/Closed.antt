-- ===== src/Graph/Requests/Closed.antt =====
-- src/graph.rs: the requests that keep every edge between nodes of the graph.
use flowd.Base.{
  ◌≡◌, Bool, true, false, Option, none, some, List, [], ◌∷◌, ◌++◌, Str, Result, ok, err, Fallible,
  HashMap, get, find, insert, contains_key, get-insert, if◌then◌else◌, arith, All, All-append,
  All-remove_first, change_first, Bool-cases, inl, inr,
}
use flowd.Graph.{
  Graph, GraphNode, GraphNodeMetadata, GraphEdge, GraphGroup, GraphPort, GraphEdgeMetadata, clear,
  addressed,
}
use flowd.Graph.Json.{SerdeJson, from_payload}
use flowd.Graph.Ports.{
  try_insert, try_remove, try_rename, with_inports, with_outports, add_inport, add_outport,
  remove_inport, remove_outport, rename_inport, rename_outport,
}
use flowd.Graph.Nodes.{
  AddedNode, add_node, add_node_from_payload, answer_added, set_protocol_metadata, normalized,
  change_node, merge_node,
}
use flowd.Graph.Edges.{
  add_edge, remove_edge, drop_edge, change_edge, mark_edge, add_initialip, initial_from_payload,
  remove_initialip, drop_initial, joins, is_initial,
}
use flowd.Graph.Groups.{add_group, remove_group, rename_group, change_group, if_found}
use flowd.Graph.Integrity.{EndsKnown, IsClosed, remove_node-IsClosed, rename_node-IsClosed}
use flowd.Graph.Requests.{
  Request, clears, adds_node, removes_node, renames_node, changes_node, adds_edge, removes_edge,
  changes_edge, adds_initial, removes_initial, adds_inport, adds_outport, removes_inport,
  removes_outport, renames_inport, renames_outport, adds_group, removes_group, renames_group,
  changes_group, forget, apply,
}

module _ {M : Type 0} where
  -- What a request leaves is closed.
  abbrev Leaves : {A : Type 0} → Fallible (Graph M) A → Type 0
  Leaves r = IsClosed r.0

  Leaves-forget : {A : Type 0} (r : Fallible (Graph M) A) → Leaves r → Leaves (forget r)
  Leaves-forget (s, ok a) h = h
  Leaves-forget (s, err e) h = h

  Leaves-if :
      {A : Type 0} (b : Bool) (x y : Fallible (Graph M) A)
      → Leaves x
      → Leaves y
      → Leaves (if b then x else y)
  Leaves-if true x y p q = p
  Leaves-if false x y p q = q

  known-insert :
      (k p : Str) (n : GraphNode M) (nodes : HashMap (GraphNode M))
      → contains_key p nodes ≡ true
      → contains_key p (insert k n nodes) ≡ true
  known-insert k p n nodes h = ground (arith, get-insert k p n nodes)

  ends-insert :
      (k : Str) (n : GraphNode M) (nodes : HashMap (GraphNode M)) (es : List GraphEdge)
      → All (EndsKnown nodes) es
      → All (EndsKnown (insert k n nodes)) es
  ends-insert k n nodes [] h = h
  ends-insert k n nodes (e ∷ es) h = (
    (
      λ q. known-insert k e.source.process n nodes (h.0.0 q),
      known-insert k e.target.process n nodes h.0.1,
    ),
    ends-insert k n nodes es h.1,
  )

  ends-mark :
      (p : GraphEdge → Bool) (d : GraphEdgeMetadata) (nodes : HashMap (GraphNode M))
      (es : List GraphEdge)
      → All (EndsKnown nodes) es
      → All (EndsKnown nodes) (change_first p (λ x. record x { metadata = d }) es)
  ends-mark p d nodes [] h = h
  ends-mark p d nodes (e ∷ es) h = elim (Bool-cases (p e)) [
    | inl hit ↦ rw hit h
    | inr miss ↦ rw miss (h.0, ends-mark p d nodes es h.1)
  ]

  -- A new edge must have known ends.
  append-IsClosed :
      (e : GraphEdge) (g : Graph M)
      → EndsKnown g.nodes e
      → IsClosed g
      → IsClosed (record g { edges = g.edges ++ e ∷ [] })
  append-IsClosed e g k v = record {
    ends = All-append (EndsKnown g.nodes) g.edges (e ∷ []) v.ends (k, tt);
  }

  drop_edge-IsClosed :
      (p : GraphEdge → Bool) (o : Option GraphEdge) (g : Graph M)
      → IsClosed g
      → Leaves (drop_edge p o g)
  unfolding drop_edge
  drop_edge-IsClosed p none g v = v
  drop_edge-IsClosed p (some e) g v = record {
    ends = All-remove_first (EndsKnown g.nodes) p g.edges v.ends;
  }

  mark_edge-IsClosed :
      (p : GraphEdge → Bool) (d : GraphEdgeMetadata) (o : Option GraphEdge) (g : Graph M)
      → IsClosed g
      → Leaves (mark_edge p d o g)
  unfolding mark_edge
  mark_edge-IsClosed p d none g v = v
  mark_edge-IsClosed p d (some e) g v = record { ends = ends-mark p d g.nodes g.edges v.ends }

  drop_initial-IsClosed :
      (p : GraphEdge → Bool) (o : Option GraphEdge) (g : Graph M)
      → IsClosed g
      → Leaves (drop_initial p o g)
  unfolding drop_initial
  drop_initial-IsClosed p none g v = v
  drop_initial-IsClosed p (some e) g v = record {
    ends = All-remove_first (EndsKnown g.nodes) p g.edges v.ends;
  }

  if_found-IsClosed :
      (o : Option GraphGroup) (xs : List GraphGroup) (g : Graph M)
      → IsClosed g
      → Leaves (if_found o xs g)
  unfolding if_found
  if_found-IsClosed none xs g v = v
  if_found-IsClosed (some x) xs g v = record { ends = v.ends }

  with_inports-IsClosed :
      (g : Graph M) (r : HashMap GraphPort × Result (Unit {0}))
      → IsClosed g
      → Leaves (with_inports g r)
  with_inports-IsClosed g (m, r) v = record { ends = v.ends }

  with_outports-IsClosed :
      (g : Graph M) (r : HashMap GraphPort × Result (Unit {0}))
      → IsClosed g
      → Leaves (with_outports g r)
  with_outports-IsClosed g (m, r) v = record { ends = v.ends }

module _ (json : SerdeJson) where
  open json use {Map, entries}

  add_node-IsClosed :
      (graph component name : Str) (d : GraphNodeMetadata) (g : Graph Map)
      → IsClosed g
      → Leaves (add_node json graph component name d g)
  unfolding add_node
  add_node-IsClosed graph component name d g v =
      Leaves-if (addressed graph g) _ _
        (Leaves-if (contains_key name g.nodes) _ _ v
          (record { ends = ends-insert name _ g.nodes g.edges v.ends }))
        v

  set_protocol_metadata-IsClosed :
      (name : Str) (m : Map) (o : Option (GraphNode Map)) (g : Graph Map)
      → IsClosed g
      → IsClosed (set_protocol_metadata json name m o g)
  unfolding set_protocol_metadata
  set_protocol_metadata-IsClosed name m none g v = v
  set_protocol_metadata-IsClosed name m (some n) g v = record {
    ends = ends-insert name _ g.nodes g.edges v.ends;
  }

  answer_added-IsClosed :
      (graph component : Str) (m : Map) (r : Fallible (Graph Map) (AddedNode json))
      → Leaves r
      → Leaves (answer_added json graph component m r)
  unfolding answer_added
  answer_added-IsClosed graph component m (g, ok a) v =
      set_protocol_metadata-IsClosed a.name m (get a.name g.nodes) g v
  answer_added-IsClosed graph component m (g, err e) v = v

  merge_node-IsClosed :
      (name : Str) (es : List (Str × json.Value)) (o : Option (GraphNode Map)) (g : Graph Map)
      → IsClosed g
      → Leaves (merge_node json name es o g)
  unfolding merge_node
  merge_node-IsClosed name es none g v = v
  merge_node-IsClosed name es (some n) g v = record {
    ends = ends-insert name _ g.nodes g.edges v.ends;
  }

  -- The nodes that a new edge or a new initial packet names are there.
  abbrev pub IsAdmissible : Request Map → Graph Map → Type 0
  IsAdmissible (adds_edge graph e) g = EndsKnown g.nodes e
  IsAdmissible (adds_initial content tgt d) g =
      EndsKnown g.nodes (initial_from_payload content tgt d)
  IsAdmissible _ g = Unit

  -- If each edge joins nodes of the graph and each initial packet goes to one, that is so after any
  -- request too, provided that the ends of an edge or packet that it adds are nodes: renaming a node
  -- takes its edges along, and removing one removes them.
  pub apply-IsClosed :
      (q : Request Map) (g : Graph Map)
      → IsAdmissible q g
      → IsClosed g
      → IsClosed (apply json q g).0
  unfolding apply clear add_node_from_payload change_node add_edge remove_edge change_edge
      add_initialip remove_initialip add_inport add_outport remove_inport remove_outport
      rename_inport rename_outport add_group remove_group rename_group change_group
  apply-IsClosed (clears name description icon running) g a v =
      Leaves-if running _ _ v (record { ends = tt })
  apply-IsClosed (adds_node graph component name m) g a v = Leaves-forget _ (
      answer_added-IsClosed graph component m _
        (add_node-IsClosed graph (normalized component) name (from_payload json m) g v))
  apply-IsClosed (removes_node graph name) g a v =
      Leaves-forget _ (remove_node-IsClosed graph name g v)
  apply-IsClosed (renames_node graph old new) g a v = rename_node-IsClosed graph old new g v
  apply-IsClosed (changes_node graph name m) g a v = Leaves-forget _ (
      Leaves-if (addressed graph g) _ _
        (merge_node-IsClosed name (entries m) (get name g.nodes) g v) v)
  apply-IsClosed (adds_edge graph e) g a v =
      Leaves-if (addressed graph g) _ _ (append-IsClosed e g a v) v
  apply-IsClosed (removes_edge graph src tgt) g a v =
      Leaves-if (addressed graph g) _ _
        (drop_edge-IsClosed (joins src tgt) (find (joins src tgt) g.edges) g v) v
  apply-IsClosed (changes_edge graph src tgt d) g a v =
      Leaves-if (addressed graph g) _ _
        (mark_edge-IsClosed (joins src tgt) d (find (joins src tgt) g.edges) g v) v
  apply-IsClosed (adds_initial content tgt d) g a v =
      append-IsClosed (initial_from_payload content tgt d) g a v
  apply-IsClosed (removes_initial wanted tgt) g a v =
      Leaves-forget _
        (drop_initial-IsClosed (is_initial wanted tgt) (find (is_initial wanted tgt) g.edges) g v)
  apply-IsClosed (adds_inport name port) g a v =
      with_inports-IsClosed g (try_insert name port g.inports) v
  apply-IsClosed (adds_outport name port) g a v =
      with_outports-IsClosed g (try_insert name port g.outports) v
  apply-IsClosed (removes_inport name) g a v = with_inports-IsClosed g (try_remove name g.inports) v
  apply-IsClosed (removes_outport name) g a v =
      with_outports-IsClosed g (try_remove name g.outports) v
  apply-IsClosed (renames_inport old new) g a v =
      with_inports-IsClosed g (try_rename old new g.inports) v
  apply-IsClosed (renames_outport old new) g a v =
      with_outports-IsClosed g (try_rename old new g.outports) v
  apply-IsClosed (adds_group graph name nodes d) g a v =
      Leaves-if (addressed graph g) _ _ (record { ends = v.ends }) v
  apply-IsClosed (removes_group graph name) g a v =
      Leaves-if (addressed graph g) _ _ (if_found-IsClosed _ _ g v) v
  apply-IsClosed (renames_group graph old new) g a v =
      Leaves-if (addressed graph g) _ _ (if_found-IsClosed _ _ g v) v
  apply-IsClosed (changes_group graph name d) g a v =
      Leaves-if (addressed graph g) _ _ (if_found-IsClosed _ _ g v) v
