-- ===== src/Runtime/Start/Joins.antt =====
-- src/runtime.rs: while `Runtime::start` joins the processes, none is lost, and the initial packets
-- that are left are for processes that there are.
use flowd.Base.{
  ℕ, ◌+◌, ◌≤◌, ◌≡◌, refl, true, false, List, [], ◌∷◌, ◌++◌, Str, str_eq, HashMap, get, insert,
  remove, contains_key, length, All, if◌then◌else◌, ltb, arith, get-insert, get-remove, inl, inr,
  Option-cases, length-append,
}
use flowd.Graph.{Graph, GraphEdge}
use flowd.Graph.Integrity.{EndsKnown}
use flowd.Runtime.Start.Channels.{
  Channel, ProcPorts, Wires, processedge_bufsize, push_expected, push_all_expected, with_ports,
  Iips, add_iip, take_iips, iips_per_target,
}
use flowd.Runtime.Start.Wiring.{connect_edge, connect_edges}
use flowd.Runtime.Start.Attempts.{Returns, Returns-bind, Returns-weaken}

pub contains_key-insert :
    {V : Type 0} (k j : Str) (v : V) (m : HashMap V)
    → contains_key j (insert k v m) ≡ (if str_eq k j then true else contains_key j m)
contains_key-insert k j v m = ground (arith, get-insert k j v m)

pub contains_key-remove :
    {V : Type 0} (k j : Str) (m : HashMap V)
    → contains_key j (remove k m) ≡ (if str_eq k j then false else contains_key j m)
contains_key-remove k j m = ground (arith, get-remove k j m)

-- The processes that there are, are there still.
pub record Keeps (w w' : Wires) : Type 0 where
  pub kept : (j : Str) → contains_key j w.ports_all ≡ true → contains_key j w'.ports_all ≡ true

pub Keeps-trans : (u v w : Wires) → Keeps u v → Keeps v w → Keeps u w
Keeps-trans u v w a b = record { kept = λ j h. b.kept j (a.kept j h) }

pub with_ports-Keeps :
    (k : Str) (f : ProcPorts → ProcPorts) (w : Wires)
    → contains_key k w.ports_all ≡ true
    → Returns (Keeps w) (with_ports k f w)
unfolding with_ports
with_ports-Keeps k f w h = elim (Option-cases (get k w.ports_all)) [
  | inl lost ↦ absurd (ground (arith, h, lost))
  | inr (p, found) ↦
      rw (found, Returns)
        (record {
          kept = λ j there. ground (arith, contains_key-insert k j (f p) w.ports_all, there);
        })
]

push_all_expected-Returns :
    (iips : List Str) (c : Channel)
    → length c.contents + length iips ≤ c.capacity
    → Returns (λ c'. Unit) (push_all_expected iips c)
unfolding push_all_expected push_expected
push_all_expected-Returns [] c room = tt
push_all_expected-Returns (iip ∷ iips) c room =
    rw (ltb_room, Returns)
      (push_all_expected-Returns iips (record c { contents = c.contents ++ iip ∷ [] })
        (omega (arith, length-append c.contents (iip ∷ []))))
  where
    ltb_room : ltb (length c.contents) c.capacity ≡ true
    ltb_room = ground arith

-- How many initial packets there are.
abbrev pub total : Iips → ℕ
total [] = 0
total ((k, iips) ∷ t) = length iips + total t

total-take_iips :
    (k : Str × Str) (t : Iips) → length (take_iips k t).0 + total (take_iips k t).1 ≡ total t
unfolding take_iips
total-take_iips k [] = refl
total-take_iips k ((j, iips) ∷ t) = ground (arith, total-take_iips k t)

abbrev pub IsKnown : {V : Type 0} → HashMap V → (Str × Str) × List Str → Type 0
IsKnown nodes r = contains_key r.0.0 nodes ≡ true

module _ {V : Type 0} (nodes : HashMap V) where
  known-take_iips :
      (k : Str × Str) (t : Iips) → All (IsKnown nodes) t → All (IsKnown nodes) (take_iips k t).1
  unfolding take_iips
  known-take_iips k [] h = tt
  known-take_iips k ((j, iips) ∷ t) h = ground (arith, known-take_iips k t h.1)

  known-add_iip :
      (k : Str × Str) (iip : Str) (t : Iips)
      → contains_key k.0 nodes ≡ true
      → All (IsKnown nodes) t
      → All (IsKnown nodes) (add_iip k iip t)
  unfolding add_iip
  known-add_iip k iip [] h hs = (h, tt)
  known-add_iip k iip ((j, iips) ∷ t) h hs = ground (arith, known-add_iip k iip t h hs.1)

module _ {M : Type 0} (g : Graph M) where
  pub known-iips_per_target :
      (es : List GraphEdge) (t : Iips)
      → All (EndsKnown g.nodes) es
      → All (IsKnown g.nodes) t
      → All (IsKnown g.nodes) (iips_per_target es t)
  unfolding iips_per_target
  known-iips_per_target [] t h hs = hs
  known-iips_per_target (e ∷ es) t h hs = elim (Option-cases e.payload) [
    | inl none_here ↦ rw none_here (known-iips_per_target es t h.1 hs)
    | inr (iip, here) ↦ rw here (
        known-iips_per_target es (add_iip (e.target.process, e.target.port) iip t) h.1
          (known-add_iip g.nodes (e.target.process, e.target.port) iip t h.0.1 hs))
  ]

  -- Each node has its ports.
  pub record HasNodes (w : Wires) : Type 0 where
    pub nodes : (k : Str) → contains_key k g.nodes ≡ true → contains_key k w.ports_all ≡ true

  pub HasNodes-Keeps : (w w' : Wires) → HasNodes w → Keeps w w' → HasNodes w'
  HasNodes-Keeps w w' h k = record { nodes = λ j there. k.kept j (h.nodes j there) }

  pub record Joined (w : Wires) (t : Iips) (s : Wires × Iips) : Type 0 where
    pub keeps : Keeps w s.0
    pub fewer : total s.1 ≤ total t
    pub known : All (IsKnown g.nodes) s.1

  connect_edge-Joined :
      (e : GraphEdge) (w : Wires) (t : Iips)
      → EndsKnown g.nodes e
      → HasNodes w
      → All (IsKnown g.nodes) t
      → total t ≤ processedge_bufsize
      → Returns (Joined w t) (connect_edge e (w, t))
  unfolding connect_edge
  connect_edge-Joined e w t ends has known few = elim (Option-cases e.payload) [
    | inr (iip, here) ↦
        rw (here, Returns)
          (record { keeps = record { kept = λ j h. h }; fewer = omega arith; known = known })
    | inl none_here ↦ rw none_here (
        Returns-bind (Keeps w) (Joined w t) _ _
          (with_ports-Keeps e.target.process _ w (has.nodes e.target.process ends.1))
          (λ w' k'.
            Returns-bind (Keeps w') (Joined w t) _ _
              (with_ports-Keeps e.source.process _ w'
                (k'.kept e.source.process (has.nodes e.source.process (ends.0 none_here))))
              (λ w'' k''.
                Returns-bind (λ c. Unit) (Joined w t) _ _
                  (push_all_expected-Returns (take_iips (e.target.process, e.target.port) t).0
                    (record { capacity = processedge_bufsize; contents = [] })
                    (omega (arith, total-take_iips (e.target.process, e.target.port) t)))
                  (λ c u. record {
                    keeps = record { kept = λ j h. k''.kept j (k'.kept j h) };
                    fewer = omega (arith, total-take_iips (e.target.process, e.target.port) t);
                    known = known-take_iips g.nodes (e.target.process, e.target.port) t known;
                  }))))
  ]

  pub connect_edges-Joined :
      (es : List GraphEdge) (w : Wires) (t : Iips)
      → All (EndsKnown g.nodes) es
      → HasNodes w
      → All (IsKnown g.nodes) t
      → total t ≤ processedge_bufsize
      → Returns (Joined w t) (connect_edges es (w, t))
  unfolding connect_edges
  connect_edges-Joined [] w t ends has known few = record {
    keeps = record { kept = λ j h. h };
    fewer = omega arith;
    known = known;
  }
  connect_edges-Joined (e ∷ es) w t ends has known few =
      Returns-bind (Joined w t) (Joined w t) (connect_edge e (w, t)) _
        (connect_edge-Joined e w t ends.0 has known few)
        (λ s j.
          Returns-weaken (Joined s.0 s.1) (Joined w t) (connect_edges es s)
            (connect_edges-Joined es s.0 s.1 ends.1 (HasNodes-Keeps w s.0 has j.keeps) j.known
              (omega (arith, j.fewer, few)))
            (λ r q. record {
              keeps = Keeps-trans w s.0 r.0 j.keeps q.keeps;
              fewer = omega (arith, j.fewer, q.fewer);
              known = q.known;
            }))
