-- ===== src/Runtime/Start/Panics.antt =====
-- src/runtime.rs: when `Runtime::start` does not panic.
use flowd.Base.{
  ◌≤◌, ◌≡◌, refl, sym, ◌∙◌, true, false, Option, none, some, List, [], ◌∷◌, Str, str_eq, str_eq_iff,
  str_eq_refl, is_empty, HashMap, get, remove, contains_key, keys, All, Distinct, contains, subst,
  if_elim, find, arith, inl, inr, Option-cases,
}
use flowd.Graph.{Graph, GraphNode, GraphPort}
use flowd.Graph.Integrity.{IsClosed, EndsKnown}
use flowd.Runtime.Start.{◌>>=◌, ComponentPayload}
use flowd.Runtime.Start.Checks.{has_payload, is_sourceless, check_sources, check_targets}
use flowd.Runtime.Start.Channels.{ProcPorts, no_ports, Wires, processedge_bufsize, iips_per_target}
use flowd.Runtime.Start.Wiring.{
  in_name, out_name, connect_edges, connect_targets, connect_inports, connect_outports, add_process,
  node_ports, connect,
}
use flowd.Runtime.Start.Processes.{
  check_component, check_process, check_processes, start_graph, is_missing,
}
use flowd.Runtime.Start.Attempts.{
  Returns, NoPanic, Returns-bind, NoPanic-bind, NoPanic-after, Returns-weaken, All-both, Lands,
  Lands-bind, Lands-after,
}
use flowd.Runtime.Start.Joins.{
  contains_key-insert, contains_key-remove, Keeps, Keeps-trans, total, known-iips_per_target,
  HasNodes, HasNodes-Keeps, Joined, connect_edges-Joined,
}
use flowd.Runtime.Start.Steps.{
  check_ends-NoPanic, has_source, has_target, connect_targets-Keeps, connect_inports-Keeps,
  connect_outports-Keeps,
}

-- A graph that can be started: its edges join nodes of it, its initial packets come from no node and
-- are not too many for one channel, its exported ports are of nodes of it, and no node has a
-- name that is kept for the exports.
pub record IsStartable {M : Type 0} (g : Graph M) : Type 0 where
  pub closed : IsClosed g
  pub sourceless : All (λ e. (has_payload e ≡ true) → is_empty e.source.process ≡ true) g.edges
  pub few : total (iips_per_target g.edges []) ≤ processedge_bufsize
  pub inports : All (λ p. contains_key p.1.process g.nodes ≡ true) g.inports
  pub outports : All (λ p. contains_key p.1.process g.nodes ≡ true) g.outports
  pub in_is_free : contains_key (in_name g.properties.name) g.nodes ≡ false
  pub out_is_free : contains_key (out_name g.properties.name) g.nodes ≡ false
  -- So it is in any `HashMap`.
  pub distinct : Distinct (keys g.nodes)

names_differ : (s : Str) → str_eq (in_name s) (out_name s) ≡ false
unfolding str_eq
names_differ [] = refl
names_differ (c ∷ s) = ground (arith, names_differ s)

contains_key-node_ports :
    {M : Type 0} (k : Str) (nodes : HashMap (GraphNode M))
    → contains_key k (node_ports nodes) ≡ contains_key k nodes
unfolding node_ports get
contains_key-node_ports k [] = refl
contains_key-node_ports k ((j, n) ∷ nodes) = ground (arith, contains_key-node_ports k nodes)

record Added (ps : HashMap GraphPort) (name : Str) (m m' : HashMap ProcPorts) : Type 0 where
  kept : (j : Str) → contains_key j m ≡ true → contains_key j m' ≡ true
  there : (is_empty ps ≡ false) → contains_key name m' ≡ true
  other : (j : Str) → str_eq name j ≡ false → contains_key j m ≡ false → contains_key j m' ≡ false

add_process-Added :
    (ps : HashMap GraphPort) (name : Str) (m : HashMap ProcPorts)
    → contains_key name m ≡ false
    → Returns (Added ps name m) (add_process ps name m)
unfolding add_process
add_process-Added [] name m free = record {
  kept = λ j h. h;
  there = λ e. absurd (ground (arith, e));
  other = λ j d h. h;
}
add_process-Added (p ∷ ps) name m free =
    rw (free, Returns)
      (record {
        kept = λ j h. ground (arith, contains_key-insert name j no_ports m, h);
        there = λ e. ground (arith, contains_key-insert name name no_ports m, str_eq_refl name);
        other = λ j d h. ground (arith, contains_key-insert name j no_ports m, d, h);
      })

known_entries :
    {V W : Type 0} (ns : HashMap V) (m : HashMap W)
    → ((k : Str) → contains_key k ns ≡ true → contains_key k m ≡ true)
    → All (λ n. contains_key n.0 m ≡ true) ns
unfolding get
known_entries [] m h = tt
known_entries ((k, v) ∷ ns) m h = (
  h k (ground (arith, str_eq_refl k)),
  known_entries ns m (λ j there. h j (ground (arith, there))),
)

entries_after_remove :
    {V W : Type 0} (name : Str) (ns : HashMap V) (m : HashMap W)
    → contains (keys ns) name ≡ false
    → All (λ n. contains_key n.0 m ≡ true) ns
    → All (λ n. contains_key n.0 (remove name m) ≡ true) ns
unfolding contains
entries_after_remove name [] m d h = tt
entries_after_remove name ((k, v) ∷ ns) m d h = (
  ground (arith, contains_key-remove name k m, str_eq_iff name k, str_eq_iff k name, d, h.0),
  entries_after_remove name ns m (ground (arith, d)) h.1,
)

module _ {M : Type 0} (available : List ComponentPayload) (g : Graph M) where
  check_component-NoPanic :
      (name : Str) (p : ProcPorts) (o : Option ComponentPayload)
      → NoPanic (check_component available g name p o)
  unfolding check_component
  check_component-NoPanic name p none = tt
  check_component-NoPanic name p (some c) =
      if_elim NoPanic (is_missing name g.inports p.inports c.in_ports) _ _ tt
        (if_elim NoPanic (is_missing name g.outports p.outports c.out_ports) _ _ tt tt)

  check_process-Lands :
      (name : Str) (node : GraphNode M) (m : HashMap ProcPorts)
      → contains_key name m ≡ true
      → Lands (λ m'. m' ≡ remove name m) (check_process available g name node m)
  unfolding check_process
  check_process-Lands name node m h = elim (Option-cases (get name m)) [
    | inl lost ↦ absurd (ground (arith, h, lost))
    | inr (p, found) ↦
        rw (found, Lands)
          (Lands-after _ _
            (check_component-NoPanic name p (find (λ c. str_eq c.name node.component) available)))
  ]

  check_processes-NoPanic :
      (ns : HashMap (GraphNode M)) (m : HashMap ProcPorts)
      → Distinct (keys ns)
      → All (λ n. contains_key n.0 m ≡ true) ns
      → NoPanic (check_processes available g ns m)
  unfolding check_processes
  check_processes-NoPanic [] m d h = tt
  check_processes-NoPanic ((name, node) ∷ ns) m d h =
      Lands-bind (λ m'. m' ≡ remove name m) (check_process available g name node m) _
        (check_process-Lands name node m h.0)
        (λ m' e. check_processes-NoPanic ns m' d.1 (
          subst (λ m'. All (λ n. contains_key n.0 m' ≡ true) ns) (sym e)
            (entries_after_remove name ns m d.0 h.1)))

module _ {M : Type 0} (g : Graph M) where
  join_all :
      (s : IsStartable g) (w0 : Wires)
      → HasNodes g w0
      → ((is_empty g.inports ≡ false)
          → contains_key (in_name g.properties.name) w0.ports_all ≡ true)
      → ((is_empty g.outports ≡ false)
          → contains_key (out_name g.properties.name) w0.ports_all ≡ true)
      → Returns (HasNodes g) (
          connect_edges g.edges (w0, iips_per_target g.edges []) >>= λ q.
          connect_targets q.1 q.0 >>= λ w. connect_inports g.properties.name g.inports w >>= λ w'.
          connect_outports g.properties.name g.outports w')
  join_all s w0 has in_there out_there =
      Returns-bind (Joined g w0 (iips_per_target g.edges [])) (HasNodes g) _ _
        (connect_edges-Joined g g.edges w0 (iips_per_target g.edges []) s.closed.ends has
          (known-iips_per_target g g.edges [] s.closed.ends tt) s.few)
        (λ q j.
          Returns-bind (Keeps q.0) (HasNodes g) _ _
            (connect_targets-Keeps g q.1 q.0 (HasNodes-Keeps g w0 q.0 has j.keeps) j.known)
            (λ w k.
              let k0 : Keeps w0 w = Keeps-trans w0 q.0 w j.keeps k in
              Returns-bind (Keeps w) (HasNodes g) _ _
                (connect_inports-Keeps g g.properties.name g.inports w
                  (HasNodes-Keeps g w0 w has k0) s.inports
                  (λ e. k0.kept (in_name g.properties.name) (in_there e)))
                (λ w' k'.
                  let k1 : Keeps w0 w' = Keeps-trans w0 w w' k0 k' in
                  Returns-weaken (Keeps w') (HasNodes g) _
                    (connect_outports-Keeps g g.properties.name g.outports w'
                      (HasNodes-Keeps g w0 w' has k1) s.outports
                      (λ e. k1.kept (out_name g.properties.name) (out_there e)))
                    (λ v k''. HasNodes-Keeps g w' v (HasNodes-Keeps g w0 w' has k1) k''))))

  connect-HasNodes : IsStartable g → Returns (HasNodes g) (connect g)
  unfolding connect
  connect-HasNodes s =
      let name : Str = g.properties.name in
      Returns-bind (Added g.inports (in_name name) (node_ports g.nodes)) (HasNodes g) _ _
        (add_process-Added g.inports (in_name name) (node_ports g.nodes)
          (contains_key-node_ports (in_name name) g.nodes ∙ s.in_is_free))
        (λ m a.
          Returns-bind (Added g.outports (out_name name) m) (HasNodes g) _ _
            (add_process-Added g.outports (out_name name) m (
              a.other (out_name name) (names_differ name)
                (contains_key-node_ports (out_name name) g.nodes ∙ s.out_is_free)))
            (λ m' b.
              join_all s (record { channels = []; ports_all = m' })
                (record {
                  nodes = λ k h. b.kept k (a.kept k (contains_key-node_ports k g.nodes ∙ h));
                })
                (λ e. b.kept (in_name name) (a.there e)) b.there))

-- The start of a graph that can be started ends with a network or with an error, whatever the
-- components are; it does not panic.
pub start_graph-NoPanic :
    {M : Type 0} (available : List ComponentPayload) (g : Graph M)
    → IsStartable g
    → NoPanic (start_graph available g)
unfolding start_graph check_sources check_targets
start_graph-NoPanic available g s =
    NoPanic-bind (check_sources available g) _
      (check_ends-NoPanic (λ c. c.out_ports) available g.nodes is_sourceless (λ e. e.source) g.edges
        [] (All-both (EndsKnown g.nodes) _ _ g.edges (has_source g) s.closed.ends s.sourceless))
      (λ u.
        NoPanic-bind (check_targets available g) _
          (check_ends-NoPanic (λ c. c.in_ports) available g.nodes has_payload (λ e. e.target)
            g.edges []
            (All-both (EndsKnown g.nodes) (EndsKnown g.nodes) _ g.edges
              (λ e ends same. has_target g e ends) s.closed.ends s.closed.ends))
          (λ v. NoPanic-after (HasNodes g) (connect g) _ (connect-HasNodes g s) (λ w has.
            NoPanic-bind (check_processes available g g.nodes w.ports_all) _
              (check_processes-NoPanic available g g.nodes w.ports_all s.distinct
                (known_entries g.nodes w.ports_all has.nodes))
              (λ rest. tt))))
