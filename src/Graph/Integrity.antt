-- ===== src/Graph/Integrity.antt =====
-- src/graph.rs: which operations keep every edge between nodes of the graph.
use flowd.Base.{
  ◌≡◌, true, false, not, ◌||◌, Option, none, some, List, [], ◌∷◌, map, if◌then◌else◌, if_elim, Str,
  str_eq, str_eq_iff, HashMap, get, insert, remove, contains_key, get-insert, get-remove, retain,
  All, Fallible, arith, Bool-cases, inl, inr,
}
use flowd.Graph.{Graph, GraphNode, GraphEdge, GraphNodeSpec, addressed}
use flowd.Graph.Nodes.{
  touches, rename_spec, rename_edge, remove_node, drop_node, rename_node, move_node,
}

-- The ends of an edge are nodes; an initial packet has only a target.
abbrev pub EndsKnown : {M : Type 0} → HashMap (GraphNode M) → GraphEdge → Type 0
EndsKnown nodes e =
    ((e.payload ≡ none) → contains_key e.source.process nodes ≡ true)
    × (contains_key e.target.process nodes ≡ true)

pub record IsClosed {M : Type 0} (g : Graph M) : Type 0 where
  pub ends : All (EndsKnown g.nodes) g.edges

process-rename_spec :
    (old new : Str) (s : GraphNodeSpec)
    → (rename_spec old new s).process ≡ (if str_eq s.process old then new else s.process)
unfolding rename_spec
process-rename_spec old new s = ground arith

module _ {M : Type 0} where
  known_after_remove :
      (name p : Str) (nodes : HashMap (GraphNode M))
      → str_eq p name ≡ false
      → contains_key p nodes ≡ true
      → contains_key p (remove name nodes) ≡ true
  known_after_remove name p nodes other h =
      ground (arith, get-remove name p nodes, str_eq_iff name p, str_eq_iff p name)

  ends_after_remove :
      (name : Str) (nodes : HashMap (GraphNode M)) (es : List GraphEdge)
      → All (EndsKnown nodes) es
      → All (EndsKnown (remove name nodes)) (retain (λ e. not (touches name e)) es)
  unfolding touches
  ends_after_remove name nodes [] h = h
  ends_after_remove name nodes (e ∷ es) h =
      elim (Bool-cases (str_eq e.source.process name || str_eq e.target.process name)) [
        | inl hit ↦ rw hit (ends_after_remove name nodes es h.1)
        | inr miss ↦ rw miss (
          (
            λ q. known_after_remove name e.source.process nodes (ground arith) (h.0.0 q),
            known_after_remove name e.target.process nodes (ground arith) h.0.1,
          ),
          ends_after_remove name nodes es h.1,
        )
      ]

  drop_node-IsClosed :
      (graph name : Str) (o : Option (GraphNode M)) (g : Graph M)
      → IsClosed g
      → IsClosed (drop_node graph name o g).0
  unfolding drop_node
  drop_node-IsClosed graph name none g v = v
  drop_node-IsClosed graph name (some n) g v = record {
    ends = ends_after_remove name g.nodes g.edges v.ends;
  }

  pub remove_node-IsClosed :
      (graph name : Str) (g : Graph M) → IsClosed g → IsClosed (remove_node graph name g).0
  unfolding remove_node
  remove_node-IsClosed graph name g v = elim (Bool-cases (addressed graph g)) [
    | inl right ↦ rw right (drop_node-IsClosed graph name (get name g.nodes) g v)
    | inr wrong ↦ rw wrong v
  ]

  known_after_move :
      (old new p : Str) (n : GraphNode M) (nodes : HashMap (GraphNode M))
      → contains_key p nodes ≡ true
      → contains_key (if str_eq p old then new else p) (insert new n (remove old nodes)) ≡ true
  known_after_move old new p n nodes h = elim (Bool-cases (str_eq p old)) [
    | inl hit ↦ rw hit (ground (arith, get-insert new new n (remove old nodes), str_eq_iff new new))
    | inr miss ↦ rw miss (
        ground (
          arith,
          get-insert new p n (remove old nodes),
          get-remove old p nodes,
          str_eq_iff old p,
          str_eq_iff p old,
        ))
  ]

  ends_after_move :
      (old new : Str) (n : GraphNode M) (nodes : HashMap (GraphNode M)) (es : List GraphEdge)
      → All (EndsKnown nodes) es
      → All (EndsKnown (insert new n (remove old nodes))) (map (rename_edge old new) es)
  unfolding rename_edge
  ends_after_move old new n nodes [] h = h
  ends_after_move old new n nodes (e ∷ es) h = (
    (
      λ q.
          rw (process-rename_spec old new e.source)
            (known_after_move old new e.source.process n nodes (h.0.0 q)),
      rw (process-rename_spec old new e.target)
          (known_after_move old new e.target.process n nodes h.0.1),
    ),
    ends_after_move old new n nodes es h.1,
  )

  move_node-IsClosed :
      (old new : Str) (o : Option (GraphNode M)) (g : Graph M)
      → IsClosed g
      → IsClosed (move_node old new o g).0
  unfolding move_node
  move_node-IsClosed old new none g v = v
  move_node-IsClosed old new (some n) g v = record {
    ends = ends_after_move old new n g.nodes g.edges v.ends;
  }

  pub rename_node-IsClosed :
      (graph old new : Str) (g : Graph M) → IsClosed g → IsClosed (rename_node graph old new g).0
  unfolding rename_node
  rename_node-IsClosed graph old new g v = elim (Bool-cases (addressed graph g)) [
    | inl right ↦ rw right (
        if_elim (λ (r : Fallible (Graph M) (Unit {0})). IsClosed r.0) (contains_key new g.nodes) _ _
          v (move_node-IsClosed old new (get old g.nodes) g v))
    | inr wrong ↦ rw wrong v
  ]
