-- ===== src/Graph/Effects.antt =====
-- src/graph.rs: what removing and renaming a node changes, and what it leaves.
use flowd.Base.{
  ◌≡◌, refl, true, false, not, none, some, List, [], ◌∷◌, map, Str, str_eq, str_eq_iff, ok, get,
  insert, remove, contains_key, get-insert, get-remove, retain, if◌then◌else◌, arith, Bool-cases,
  inl, inr, ◌⊎◌, ◌≢◌,
}
use flowd.Graph.{to_network, Graph, GraphNode, GraphNodeSpec, GraphEdge, GraphPort, addressed}
use flowd.Graph.Nodes.{
  RemovedEdge, removed_edge, touches, remove_node, drop_node, rename_node, move_node, rename_spec,
  rename_edge,
}

-- How the removal of a node divides a list of edges: those that neither come from the node nor lead to
-- it stay, in their order; of each other one, the graph and the node, the port and the index at both
-- ends are reported, in their order.
pub data Divides (name graph : Str)
    : List GraphEdge → List GraphEdge → List RemovedEdge → Type 0 where
  done : Divides name graph [] [] []
  stays :
      (e : GraphEdge) {es left : List GraphEdge} {reports : List RemovedEdge}
      → e.source.process ≢ name
      → e.target.process ≢ name
      → Divides name graph es left reports
      → Divides name graph (e ∷ es) (e ∷ left) reports
  goes :
      (e : GraphEdge) {es left : List GraphEdge} {reports : List RemovedEdge}
      → (e.source.process ≡ name) ⊎ (e.target.process ≡ name)
      → Divides name graph es left reports
      → Divides name graph (e ∷ es) left (
          record {
            graph = graph;
            src = record { node = e.source.process; port = e.source.port; index = e.source.index };
            tgt = record { node = e.target.process; port = e.target.port; index = e.target.index };
          }
          ∷ reports)

touches_apart :
    (name : Str) (e : GraphEdge)
    → touches name e ≡ false
    → (e.source.process ≢ name) × (e.target.process ≢ name)
unfolding touches
touches_apart name e miss = (
  λ h. ground (arith, miss, h, str_eq_iff e.source.process name),
  λ h. ground (arith, miss, h, str_eq_iff e.target.process name),
)

touches_end :
    (name : Str) (e : GraphEdge)
    → touches name e ≡ true
    → (e.source.process ≡ name) ⊎ (e.target.process ≡ name)
unfolding touches
touches_end name e hit = elim (Bool-cases (str_eq e.source.process name)) [
  | inl s ↦ inl ((str_eq_iff e.source.process name).0 s)
  | inr s ↦ inr ((str_eq_iff e.target.process name).0 (ground (arith, hit, s)))
]

retain-Divides :
    (name graph : Str) (es : List GraphEdge)
    → Divides name graph es
        (retain (λ e. not (touches name e)) es)
        (map (removed_edge graph) (retain (touches name) es))
unfolding removed_edge to_network
retain-Divides name graph [] = done
retain-Divides name graph (e ∷ es) = elim (Bool-cases (touches name e)) [
  | inl hit ↦ rw hit (goes e (touches_end name e hit) (retain-Divides name graph es))
  | inr miss ↦
      let (source, target) = touches_apart name e miss in
      rw miss (stays e source target (retain-Divides name graph es))
]

-- How an end of an edge follows the new name of a node: an end at another node stays.
abbrev pub EndFollows : Str → Str → GraphNodeSpec → GraphNodeSpec → Type 0
EndFollows old new s s' =
    ((s.process ≡ old) × (s' ≡ record { process = new; port = s.port; index = s.index }))
    ⊎ ((s.process ≢ old) × (s' ≡ s))

-- The edges after the renaming, at the places of those before: both ends follow, and the data and the
-- metadata stay.
pub data Follow (old new : Str) : List GraphEdge → List GraphEdge → Type 0 where
  no_more : Follow old new [] []
  follows :
      (e e' : GraphEdge) {es es' : List GraphEdge}
      → EndFollows old new e.source e'.source
      → EndFollows old new e.target e'.target
      → e'.payload ≡ e.payload
      → e'.metadata ≡ e.metadata
      → Follow old new es es'
      → Follow old new (e ∷ es) (e' ∷ es')

rename_spec-EndFollows :
    (old new : Str) (s : GraphNodeSpec) → EndFollows old new s (rename_spec old new s)
unfolding rename_spec
rename_spec-EndFollows old new s = elim (Bool-cases (str_eq s.process old)) [
  | inl at ↦ rw at (inl ((str_eq_iff s.process old).0 at, refl))
  | inr off ↦ rw off (inr (λ h. ground (arith, off, h, str_eq_iff s.process old), refl))
]

rename_edge-Follow :
    (old new : Str) (es : List GraphEdge) → Follow old new es (map (rename_edge old new) es)
unfolding rename_edge
rename_edge-Follow old new [] = no_more
rename_edge-Follow old new (e ∷ es) =
    follows e (rename_edge old new e) (rename_spec-EndFollows old new e.source)
      (rename_spec-EndFollows old new e.target) refl refl (rename_edge-Follow old new es)

module _ {M : Type 0} (graph : Str) (g : Graph M) (right : addressed graph g ≡ true) where
  -- Removing a node that is there succeeds. The node is gone and every other node is as it was; the
  -- edges that neither come from it nor lead to it are left, in their order; and each other edge is
  -- reported once, in their order, with the graph and both of its ends.
  pub remove_node_effect :
      (name : Str) (n : GraphNode M)
      → get name g.nodes ≡ some n
      → let g' = (remove_node graph name g).0 in
        ((p : Str) → get p g'.nodes ≡ (if str_eq name p then none else get p g.nodes))
        × (reports : List RemovedEdge) × ((remove_node graph name g).1 ≡ ok reports)
        × Divides name graph g.edges g'.edges reports
  unfolding remove_node drop_node
  remove_node_effect name n found = rw right (
      rw found (
        λ p. get-remove name p g.nodes,
        map (removed_edge graph) (retain (touches name) g.edges),
        refl,
        retain-Divides name graph g.edges,
      ))

  rename_node_moves :
      (old new : Str) (n : GraphNode M)
      → get old g.nodes ≡ some n
      → get new g.nodes ≡ none
      → rename_node graph old new g ≡ (
        record g {
          nodes = insert new n (remove old g.nodes);
          edges = map (rename_edge old new) g.edges;
        },
        ok tt,
      )
  unfolding rename_node move_node
  rename_node_moves old new n found free =
      let free' : contains_key new g.nodes ≡ false = ground arith in
      rw right (rw free' (rw found refl))

  -- Renaming a node to a free name moves it, and every end of an edge at it follows, while all else of the
  -- edges stays; but a port that is exported from
  -- the node keeps the old name, which is then the name of no node.
  pub rename_node_strands_port :
      (old new name : Str) (n : GraphNode M) (port : GraphPort)
      → get old g.nodes ≡ some n
      → get new g.nodes ≡ none
      → get name g.inports ≡ some port
      → port.process ≡ old
      → let g' = (rename_node graph old new g).0 in
        (get new g'.nodes ≡ some n)
        × Follow old new g.edges g'.edges
        × (get name g'.inports ≡ some port)
        × (get port.process g'.nodes ≡ none)
  rename_node_strands_port old new name n port found free exported by =
      rw (rename_node_moves old new n found free) (
        ground (arith, get-insert new new n (remove old g.nodes), str_eq_iff new new),
        rename_edge-Follow old new g.edges,
        exported,
        ground (
          arith,
          get-insert new port.process n (remove old g.nodes),
          get-remove old port.process g.nodes,
          str_eq_iff new port.process,
          str_eq_iff old port.process,
        ),
      )
