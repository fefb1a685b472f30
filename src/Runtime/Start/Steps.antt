-- ===== src/Runtime/Start/Steps.antt =====
-- src/runtime.rs: the checks and the loops of `Runtime::start` on a graph whose nodes are all there.
use flowd.Base.{
  ◌≡◌, refl, Bool, true, false, Option, none, some, List, [], ◌∷◌, Str, is_empty, HashMap, get,
  contains_key, All, contains, arith, inl, inr, Bool-cases, Option-cases, if_elim,
}
use flowd.Graph.{Graph, GraphNode, GraphNodeSpec, GraphEdge, GraphPort}
use flowd.Graph.Integrity.{EndsKnown}
use flowd.Runtime.Start.{ComponentPort, ComponentPayload}
use flowd.Runtime.Start.Checks.{
  has_payload, is_sourceless, use_again, use_port, is_single_in, check_ends,
}
use flowd.Runtime.Start.Channels.{Wires, push_expected, Iips}
use flowd.Runtime.Start.Wiring.{
  in_name, out_name, connect_iips, connect_targets, connect_inports, connect_outports,
}
use flowd.Runtime.Start.Attempts.{Returns, NoPanic, Returns-bind, NoPanic-bind, Returns-weaken}
use flowd.Runtime.Start.Joins.{
  Keeps, Keeps-trans, with_ports-Keeps, IsKnown, HasNodes, HasNodes-Keeps,
}

module _ {M : Type 0} (ports : ComponentPayload → List ComponentPort)
    (available : List ComponentPayload) (nodes : HashMap (GraphNode M)) where
  use_again-NoPanic :
      (port : Str) (o : Option (GraphNode M)) (known : HashMap (List Str))
      → (elim o [ none ↦ false | some n ↦ true ]) ≡ true
      → NoPanic (use_again ports available port o known)
  unfolding use_again
  use_again-NoPanic port none known h = absurd (ground (arith, h))
  use_again-NoPanic port (some node) known h =
      if_elim NoPanic (is_single_in ports available node.component port available) _ _ tt tt

  use_port-NoPanic :
      (s : GraphNodeSpec) (known : HashMap (List Str))
      → contains_key s.process nodes ≡ true
      → NoPanic (use_port ports available nodes s known)
  unfolding use_port
  use_port-NoPanic s known h = elim (Option-cases (get s.process known)) [
    | inl first ↦ rw (first, NoPanic) tt
    | inr (used, more) ↦
        rw (more, NoPanic)
          (if_elim NoPanic (contains used s.port) _ _
            (use_again-NoPanic s.port (get s.process nodes) known h) tt)
  ]

  pub check_ends-NoPanic :
      (skips : GraphEdge → Bool) (end : GraphEdge → GraphNodeSpec) (es : List GraphEdge)
      (known : HashMap (List Str))
      → All (λ e. (skips e ≡ false) → contains_key (end e).process nodes ≡ true) es
      → NoPanic (check_ends ports available nodes skips end es known)
  unfolding check_ends
  check_ends-NoPanic skips end [] known h = tt
  check_ends-NoPanic skips end (e ∷ es) known h = elim (Bool-cases (skips e)) [
    | inl skipped ↦ rw (skipped, NoPanic) (check_ends-NoPanic skips end es known h.1)
    | inr seen ↦
        rw (seen, NoPanic)
          (NoPanic-bind (use_port ports available nodes (end e) known) _
            (use_port-NoPanic (end e) known (h.0 seen))
            (λ known'. check_ends-NoPanic skips end es known' h.1))
  ]

module _ {M : Type 0} (g : Graph M) where
  pub has_source :
      (e : GraphEdge)
      → EndsKnown g.nodes e
      → ((has_payload e ≡ true) → is_empty e.source.process ≡ true)
      → is_sourceless e ≡ false
      → contains_key e.source.process g.nodes ≡ true
  unfolding is_sourceless has_payload
  has_source e ends free shown = elim (Option-cases e.payload) [
    | inl here ↦ ends.0 here
    | inr (iip, here) ↦ absurd (ground (arith, here, shown, free (rw here refl)))
  ]

  pub has_target :
      (e : GraphEdge)
      → EndsKnown g.nodes e
      → has_payload e ≡ false
      → contains_key e.target.process g.nodes ≡ true
  has_target e ends shown = ends.1

  connect_iips-Keeps :
      (k : Str × Str) (iips : List Str) (w : Wires)
      → contains_key k.0 w.ports_all ≡ true
      → Returns (Keeps w) (connect_iips k iips w)
  unfolding connect_iips push_expected
  connect_iips-Keeps k [] w h = record { kept = λ j there. there }
  connect_iips-Keeps k (iip ∷ iips) w h =
      Returns-bind (Keeps w) (Keeps w) _ _ (with_ports-Keeps k.0 _ w h) (λ w' k'.
        Returns-weaken (Keeps _) (Keeps w) _
          (connect_iips-Keeps k iips (record w' { channels = _ }) (k'.kept k.0 h))
          (λ w'' q. record { kept = λ j there. q.kept j (k'.kept j there) }))

  pub connect_targets-Keeps :
      (t : Iips) (w : Wires)
      → HasNodes g w
      → All (IsKnown g.nodes) t
      → Returns (Keeps w) (connect_targets t w)
  unfolding connect_targets
  connect_targets-Keeps [] w has known = record { kept = λ j there. there }
  connect_targets-Keeps ((k, iips) ∷ t) w has known =
      Returns-bind (Keeps w) (Keeps w) _ _ (connect_iips-Keeps k iips w (has.nodes k.0 known.0))
        (λ w' k'.
          Returns-weaken (Keeps w') (Keeps w) _
            (connect_targets-Keeps t w' (HasNodes-Keeps g w w' has k') known.1)
            (λ w'' q. Keeps-trans w w' w'' k' q))

  pub connect_inports-Keeps :
      (graph : Str) (ps : HashMap GraphPort) (w : Wires)
      → HasNodes g w
      → All (λ p. contains_key p.1.process g.nodes ≡ true) ps
      → ((is_empty ps ≡ false) → contains_key (in_name graph) w.ports_all ≡ true)
      → Returns (Keeps w) (connect_inports graph ps w)
  unfolding connect_inports
  connect_inports-Keeps graph [] w has known there = record { kept = λ j h. h }
  connect_inports-Keeps graph ((public, p) ∷ ps) w has known there =
      Returns-bind (Keeps w) (Keeps w) _ _
        (with_ports-Keeps p.process _ w (has.nodes p.process known.0))
        (λ w' k'.
          Returns-bind (Keeps w') (Keeps w) _ _
            (with_ports-Keeps (in_name graph) _ w' (k'.kept (in_name graph) (there refl)))
            (λ w'' k''.
              Returns-weaken (Keeps _) (Keeps w) _
                (connect_inports-Keeps graph ps (record w'' { channels = _ })
                  (record { nodes = λ j h. k''.kept j (k'.kept j (has.nodes j h)) }) known.1
                  (λ e. k''.kept (in_name graph) (k'.kept (in_name graph) (there refl))))
                (λ v q. record { kept = λ j h. q.kept j (k''.kept j (k'.kept j h)) })))

  pub connect_outports-Keeps :
      (graph : Str) (ps : HashMap GraphPort) (w : Wires)
      → HasNodes g w
      → All (λ p. contains_key p.1.process g.nodes ≡ true) ps
      → ((is_empty ps ≡ false) → contains_key (out_name graph) w.ports_all ≡ true)
      → Returns (Keeps w) (connect_outports graph ps w)
  unfolding connect_outports
  connect_outports-Keeps graph [] w has known there = record { kept = λ j h. h }
  connect_outports-Keeps graph ((public, p) ∷ ps) w has known there =
      Returns-bind (Keeps w) (Keeps w) _ _ (with_ports-Keeps (out_name graph) _ w (there refl))
        (λ w' k'.
          Returns-bind (Keeps w') (Keeps w) _ _
            (with_ports-Keeps p.process _ w' (k'.kept p.process (has.nodes p.process known.0)))
            (λ w'' k''.
              Returns-weaken (Keeps _) (Keeps w) _
                (connect_outports-Keeps graph ps (record w'' { channels = _ })
                  (record { nodes = λ j h. k''.kept j (k'.kept j (has.nodes j h)) }) known.1
                  (λ e. k''.kept (out_name graph) (k'.kept (out_name graph) (there refl))))
                (λ v q. record { kept = λ j h. q.kept j (k''.kept j (k'.kept j h)) })))
