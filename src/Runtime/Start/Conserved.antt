-- ===== src/Runtime/Start/Conserved.antt =====
-- src/runtime.rs: the initial packets that `Runtime::start` puts into the channels.
use flowd.Base.{
  ℕ, ◌+◌, ◌≡◌, refl, ap, ◌∙◌, subst, List, [], ◌∷◌, ◌++◌, Str, HashMap, get, arith, inl, inr,
  Option-cases,
}
use flowd.Graph.{Graph, GraphEdge, GraphPort}
use flowd.Runtime.Start.{returns}
use flowd.Runtime.Start.Attempts.{Holds, Holds-bind, Holds-weaken, Holds-any}
use flowd.Runtime.Start.Channels.{
  Channel, ProcPorts, Wires, processedge_bufsize, push_expected, with_ports, Iips, take_iips,
  iips_per_target,
}
use flowd.Runtime.Start.Occurrences.{
  payloads, hit, occurrences, held, total, Holding, Moving, held-append, total-take_iips,
  total-iips_per_target, push_all_expected_adds,
}
use flowd.Runtime.Start.Wiring.{
  in_name, out_name, connect_edge, connect_edges, connect_iips, connect_targets, connect_inports,
  connect_outports, add_process, node_ports, connect,
}

with_ports_keeps :
    (k : Str) (f : ProcPorts → ProcPorts) (w : Wires)
    → Holds (λ w'. w'.channels ≡ w.channels) (with_ports k f w)
unfolding with_ports
with_ports_keeps k f w = elim (Option-cases (get k w.ports_all)) [
  | inl lost ↦ rw (lost, Holds) tt
  | inr (p, found) ↦ rw (found, Holds) refl
]

module _ (x : Str) where
  connect_edge_moves :
      (e : GraphEdge) (w : Wires) (t : Iips)
      → Holds
          (λ s. held x s.0.channels + total x s.1 ≡ held x w.channels + total x t)
          (connect_edge e (w, t))
  unfolding connect_edge
  connect_edge_moves e w t = elim (Option-cases e.payload) [
    | inr (iip, here) ↦ rw (here, Holds) refl
    | inl none_here ↦ rw none_here (
        Holds-bind (λ w'. w'.channels ≡ w.channels) _ _ _ (with_ports_keeps e.target.process _ w)
          (λ w' k'.
            Holds-bind (λ w''. w''.channels ≡ w'.channels) _ _ _
              (with_ports_keeps e.source.process _ w')
              (λ w'' k''.
                Holds-bind
                  (λ c.
                    occurrences x c.contents
                    ≡ 0 + occurrences x (take_iips (e.target.process, e.target.port) t).0)
                  _ _ _
                  (push_all_expected_adds x (take_iips (e.target.process, e.target.port) t).0
                    (record { capacity = processedge_bufsize; contents = [] }))
                  (λ c d. omega (
                    arith,
                    d,
                    ap (held x) (k'' ∙ k'),
                    held-append x w''.channels (c ∷ []),
                    total-take_iips x (e.target.process, e.target.port) t,
                  )))))
  ]

  connect_edges_moves :
      (es : List GraphEdge) (s : Wires × Iips)
      → Holds
          (λ s'. held x s'.0.channels + total x s'.1 ≡ held x s.0.channels + total x s.1)
          (connect_edges es s)
  unfolding connect_edges
  connect_edges_moves [] s = refl
  connect_edges_moves (e ∷ es) s =
      Holds-bind (λ s'. held x s'.0.channels + total x s'.1 ≡ held x s.0.channels + total x s.1) _ _
        _ (connect_edge_moves e s.0 s.1)
        (λ s' m.
          Holds-weaken (Moving x (held x s'.0.channels + total x s'.1))
            (Moving x (held x s.0.channels + total x s.1)) (connect_edges es s')
            (connect_edges_moves es s') (λ s'' d. d ∙ m))

  connect_iips_adds :
      (k : Str × Str) (iips : List Str) (w : Wires)
      → Holds
          (λ w'. held x w'.channels ≡ held x w.channels + occurrences x iips)
          (connect_iips k iips w)
  unfolding connect_iips push_expected
  connect_iips_adds k [] w = omega arith
  connect_iips_adds k (iip ∷ iips) w =
      Holds-bind (λ w'. w'.channels ≡ w.channels) _ _ _ (with_ports_keeps k.0 _ w)
        (λ w' same.
          let c : Channel = record { capacity = 1; contents = iip ∷ [] } in
          let v : Wires = record w' { channels = w'.channels ++ c ∷ [] } in
          Holds-weaken (Holding x (held x v.channels + occurrences x iips))
            (Holding x (held x w.channels + (hit x iip + occurrences x iips)))
            (connect_iips k iips v) (connect_iips_adds k iips v)
            (λ w'' d. omega (arith, d, ap (held x) same, held-append x w'.channels (c ∷ []))))

  connect_targets_adds :
      (t : Iips) (w : Wires)
      → Holds (λ w'. held x w'.channels ≡ held x w.channels + total x t) (connect_targets t w)
  unfolding connect_targets
  connect_targets_adds [] w = omega arith
  connect_targets_adds ((k, iips) ∷ t) w =
      Holds-bind (λ w'. held x w'.channels ≡ held x w.channels + occurrences x iips) _ _ _
        (connect_iips_adds k iips w)
        (λ w' d.
          Holds-weaken (Holding x (held x w'.channels + total x t))
            (Holding x (held x w.channels + (occurrences x iips + total x t)))
            (connect_targets t w') (connect_targets_adds t w') (λ w'' d'. omega (arith, d, d')))

  -- A channel that is added empty.
  held-empty :
      (cs : List Channel) (n : ℕ)
      → held x (cs ++ record { capacity = n; contents = [] } ∷ []) ≡ held x cs
  held-empty cs n = omega (arith, held-append x cs (record { capacity = n; contents = [] } ∷ []))

  connect_inports_adds :
      (graph : Str) (ps : HashMap GraphPort) (w : Wires)
      → Holds (λ w'. held x w'.channels ≡ held x w.channels) (connect_inports graph ps w)
  unfolding connect_inports
  connect_inports_adds graph [] w = refl
  connect_inports_adds graph ((public, p) ∷ ps) w =
      Holds-bind (λ w'. w'.channels ≡ w.channels) _ _ _ (with_ports_keeps p.process _ w)
        (λ w' e.
          Holds-bind (λ w''. w''.channels ≡ w'.channels) _ _ _
            (with_ports_keeps (in_name graph) _ w')
            (λ w'' e'.
              let u : Wires = record w'' {
                channels =
                    w''.channels ++ record { capacity = processedge_bufsize; contents = [] } ∷ [];
              } in
              Holds-weaken (Holding x (held x u.channels)) (Holding x (held x w.channels))
                (connect_inports graph ps u) (connect_inports_adds graph ps u)
                (λ v d. d ∙ held-empty w''.channels processedge_bufsize ∙ ap (held x) (e' ∙ e))))

  connect_outports_adds :
      (graph : Str) (ps : HashMap GraphPort) (w : Wires)
      → Holds (λ w'. held x w'.channels ≡ held x w.channels) (connect_outports graph ps w)
  unfolding connect_outports
  connect_outports_adds graph [] w = refl
  connect_outports_adds graph ((public, p) ∷ ps) w =
      Holds-bind (λ w'. w'.channels ≡ w.channels) _ _ _ (with_ports_keeps (out_name graph) _ w)
        (λ w' e.
          Holds-bind (λ w''. w''.channels ≡ w'.channels) _ _ _ (with_ports_keeps p.process _ w')
            (λ w'' e'.
              let u : Wires = record w'' {
                channels =
                    w''.channels ++ record { capacity = processedge_bufsize; contents = [] } ∷ [];
              } in
              Holds-weaken (Holding x (held x u.channels)) (Holding x (held x w.channels))
                (connect_outports graph ps u) (connect_outports_adds graph ps u)
                (λ v d. d ∙ held-empty w''.channels processedge_bufsize ∙ ap (held x) (e' ∙ e))))

  connect-Holds :
      {M : Type 0} (g : Graph M)
      → Holds (λ w. held x w.channels ≡ occurrences x (payloads g.edges)) (connect g)
  unfolding connect
  connect-Holds g =
      let name : Str = g.properties.name in
      let t : Iips = iips_per_target g.edges [] in
      Holds-bind (λ m. Unit) _ _ _
        (Holds-any (add_process g.inports (in_name name) (node_ports g.nodes)))
        (λ m u.
          Holds-bind (λ m'. Unit) _ _ _ (Holds-any (add_process g.outports (out_name name) m))
            (λ m' v.
              Holds-bind (λ s. held x s.0.channels + total x s.1 ≡ 0 + total x t) _ _ _
                (connect_edges_moves g.edges (record { channels = []; ports_all = m' }, t))
                (λ s moved.
                  Holds-bind (λ w. held x w.channels ≡ held x s.0.channels + total x s.1) _ _ _
                    (connect_targets_adds s.1 s.0)
                    (λ w added.
                      Holds-bind (λ w'. held x w'.channels ≡ held x w.channels) _ _ _
                        (connect_inports_adds name g.inports w)
                        (λ w' same.
                          Holds-weaken (Holding x (held x w'.channels))
                            (Holding x (occurrences x (payloads g.edges)))
                            (connect_outports name g.outports w')
                            (connect_outports_adds name g.outports w')
                            (λ w'' same'. omega (
                              arith,
                              same',
                              same,
                              added,
                              moved,
                              total-iips_per_target x g.edges [],
                            )))))))

  -- When the processes of a graph have been joined, the channels hold each text just as often as an initial
  -- packet of the graph has it: none of them is lost, doubled or altered, whether an edge leads to its
  -- port too or not.
  pub held-connect :
      {M : Type 0} (g : Graph M) (w : Wires)
      → connect g ≡ returns w
      → held x w.channels ≡ occurrences x (payloads g.edges)
  held-connect g w e =
      subst (Holds (λ w. held x w.channels ≡ occurrences x (payloads g.edges))) e (connect-Holds g)
