-- ===== src/Graph/Edges.antt =====
-- src/graph.rs: the operations on edges. An initial packet is an edge with a payload and no source.
use flowd.Base.{
  Bool, true, false, ◌&&◌, Option, none, some, [], ◌∷◌, ◌++◌, if◌then◌else◌, Str, str_eq, find,
  remove_first, change_first, ok, err, not_found, Fallible, is_empty,
}
use flowd.Graph.{Graph, GraphEdge, GraphEdgeMetadata, NetworkSpec, spec_eq, from_network, addressed}

-- `From<GraphAddedgeRequestPayload> for GraphEdge`.
unfoldable pub edge_from_payload : NetworkSpec → NetworkSpec → GraphEdgeMetadata → GraphEdge
unfolding from_network
edge_from_payload src tgt d = record {
  source = from_network src;
  payload = none;
  target = from_network tgt;
  metadata = d;
}

-- `From<GraphAddinitialRequestPayload> for GraphEdge`: empty data are no payload.
unfoldable pub initial_from_payload : Str → NetworkSpec → GraphEdgeMetadata → GraphEdge
unfolding from_network
initial_from_payload content tgt d = record {
  source = record { process = []; port = []; index = some [] };
  payload = if is_empty content then none else some content;
  target = from_network tgt;
  metadata = d;
}

-- The edge with these ends.
unfoldable pub joins : NetworkSpec → NetworkSpec → GraphEdge → Bool
unfolding spec_eq
joins src tgt e = spec_eq e.source src && spec_eq e.target tgt

-- The initial packet for the target that a request means: with its data, or, if it names none, any.
unfoldable pub is_initial : Option Str → NetworkSpec → GraphEdge → Bool
unfolding spec_eq
is_initial wanted tgt e = elim e.payload [
  | none ↦ false
  | some content ↦ (elim wanted [ none ↦ true | some w ↦ str_eq content w ]) && spec_eq e.target tgt
]

module _ {M : Type 0} where
  unfoldable pub add_edge : Str → GraphEdge → Graph M → Fallible (Graph M) (Unit {0})
  add_edge graph e g =
      if addressed graph g
      then (record g { edges = g.edges ++ e ∷ [] }, ok tt)
      else (g, err not_found)

  unfoldable pub drop_edge :
      (GraphEdge → Bool) → Option GraphEdge → Graph M → Fallible (Graph M) (Unit {0})
  drop_edge p none g = (g, err not_found)
  drop_edge p (some e) g = (record g { edges = remove_first p g.edges }, ok tt)

  unfoldable pub remove_edge :
      Str → NetworkSpec → NetworkSpec → Graph M → Fallible (Graph M) (Unit {0})
  unfolding drop_edge joins
  remove_edge graph src tgt g =
      if addressed graph g
      then drop_edge (joins src tgt) (find (joins src tgt) g.edges) g
      else (g, err not_found)

  unfoldable pub mark_edge :
      (GraphEdge → Bool)
      → GraphEdgeMetadata
      → Option GraphEdge
      → Graph M
      → Fallible (Graph M) (Unit {0})
  mark_edge p d none g = (g, err not_found)
  mark_edge p d (some e) g =
      (record g { edges = change_first p (λ x. record x { metadata = d }) g.edges }, ok tt)

  unfoldable pub change_edge :
      Str → NetworkSpec → NetworkSpec → GraphEdgeMetadata → Graph M → Fallible (Graph M) (Unit {0})
  unfolding mark_edge joins
  change_edge graph src tgt d g =
      if addressed graph g
      then mark_edge (joins src tgt) d (find (joins src tgt) g.edges) g
      else (g, err not_found)

  -- The graph's name is not looked at.
  unfoldable pub add_initialip :
      Str → NetworkSpec → GraphEdgeMetadata → Graph M → Fallible (Graph M) (Unit {0})
  unfolding initial_from_payload
  add_initialip content tgt d g =
      (record g { edges = g.edges ++ initial_from_payload content tgt d ∷ [] }, ok tt)

  unfoldable pub drop_initial :
      (GraphEdge → Bool) → Option GraphEdge → Graph M → Fallible (Graph M) Str
  drop_initial p none g = (g, err not_found)
  drop_initial p (some e) g =
      (record g { edges = remove_first p g.edges }, ok (elim e.payload [ none ↦ [] | some c ↦ c ]))

  -- The first that fits goes, and its data are the answer.
  unfoldable pub remove_initialip : Option Str → NetworkSpec → Graph M → Fallible (Graph M) Str
  unfolding drop_initial is_initial
  remove_initialip wanted tgt g =
      drop_initial (is_initial wanted tgt) (find (is_initial wanted tgt) g.edges) g
