-- ===== src/Graph/RoundTrips.antt =====
-- src/graph.rs: what is added is found and removed again.
use flowd.Base.{
  ◌≡◌, ◌≢◌, refl, Bool, true, false, Option, none, some, [], ◌∷◌, ◌++◌, Str, str_eq_iff, ok, err,
  not_found, find, find-append, remove_first-append, arith, is_empty,
}
use flowd.Graph.{
  Graph, GraphEdge, GraphEdgeMetadata, NetworkSpec, spec_eq, from_network, spec_eq-from_network,
  addressed,
}
use flowd.Graph.Edges.{
  add_edge, remove_edge, drop_edge, edge_from_payload, initial_from_payload, joins, is_initial,
  add_initialip, remove_initialip, drop_initial,
}

joins-edge_from_payload :
    (src tgt : NetworkSpec) (d : GraphEdgeMetadata)
    → joins src tgt (edge_from_payload src tgt d) ≡ true
unfolding joins edge_from_payload
joins-edge_from_payload src tgt d =
    rw (spec_eq-from_network src) (rw (spec_eq-from_network tgt) refl)

-- The request that asks for just what was added, or for any packet to that target.
abbrev pub Asks : Option Str → Str → Type 0
Asks none content = Unit
Asks (some w) content = w ≡ content

is_initial-initial_from_payload :
    (wanted : Option Str) (content : Str) (tgt : NetworkSpec) (d : GraphEdgeMetadata)
    → is_empty content ≡ false
    → Asks wanted content
    → is_initial wanted tgt (initial_from_payload content tgt d) ≡ true
unfolding is_initial initial_from_payload
is_initial-initial_from_payload none content tgt d h a = rw h (spec_eq-from_network tgt)
is_initial-initial_from_payload (some w) content tgt d h a =
    rw h (ground (arith, str_eq_iff content w, spec_eq_lem tgt))
  where
    spec_eq_lem : (n : NetworkSpec) → spec_eq (from_network n) n ≡ true
    spec_eq_lem n = spec_eq-from_network n

module _ {M : Type 0} where
  -- The edge that was added goes, and the graph is as before, if it had no edge with those ends.
  pub remove_edge-add_edge :
      (graph : Str) (src tgt : NetworkSpec) (d : GraphEdgeMetadata) (g : Graph M)
      → addressed graph g ≡ true
      → find (joins src tgt) g.edges ≡ none
      → remove_edge graph src tgt (add_edge graph (edge_from_payload src tgt d) g).0 ≡ (g, ok tt)
  unfolding add_edge remove_edge drop_edge
  remove_edge-add_edge graph src tgt d g right fresh =
      let e : GraphEdge = edge_from_payload src tgt d in
      let p : GraphEdge → Bool = joins src tgt in
      let hit : p e ≡ true = joins-edge_from_payload src tgt d in
      rw right (
        rw right (
          rw (find-append p g.edges e fresh, hit)
            (λ i. (record g { edges = remove_first-append p g.edges e fresh hit i }, ok tt))))

  -- An initial packet with data goes again, and its data are the answer, if the request names them
  -- or none, and no packet before was one that the request means.
  pub remove_initialip-add_initialip :
      (wanted : Option Str) (content : Str) (tgt : NetworkSpec) (d : GraphEdgeMetadata)
      (g : Graph M)
      → content ≢ []
      → Asks wanted content
      → find (is_initial wanted tgt) g.edges ≡ none
      → remove_initialip wanted tgt (add_initialip content tgt d g).0 ≡ (g, ok content)
  unfolding add_initialip remove_initialip drop_initial
  remove_initialip-add_initialip wanted [] tgt d g some_data asks fresh = absurd (some_data refl)
  remove_initialip-add_initialip wanted (c ∷ cs) tgt d g some_data asks fresh =
      let e : GraphEdge = initial_from_payload (c ∷ cs) tgt d in
      let p : GraphEdge → Bool = is_initial wanted tgt in
      let hit : p e ≡ true = is_initial-initial_from_payload wanted (c ∷ cs) tgt d refl asks in
      rw (find-append p g.edges e fresh, hit)
        (λ i. (record g { edges = remove_first-append p g.edges e fresh hit i }, ok (c ∷ cs)))

  -- An initial packet with empty data is stored, and no request removes it again: whatever data and
  -- whatever target the request names, if nothing before fits, the answer is that there is none.
  remove_initialip_empty :
      (wanted : Option Str) (tgt tgt' : NetworkSpec) (d : GraphEdgeMetadata) (g : Graph M)
      → find (is_initial wanted tgt') g.edges ≡ none
      → let g' = (add_initialip [] tgt d g).0 in
        (g'.edges ≡ g.edges ++ initial_from_payload [] tgt d ∷ [])
        × (remove_initialip wanted tgt' g' ≡ (g', err not_found))
  unfolding add_initialip remove_initialip drop_initial
  remove_initialip_empty wanted tgt tgt' d g fresh =
      let e : GraphEdge = initial_from_payload [] tgt d in
      let p : GraphEdge → Bool = is_initial wanted tgt' in
      let missing : find p (g.edges ++ e ∷ []) ≡ none = rw (find-append p g.edges e fresh) refl in
      (refl, rw missing refl)
