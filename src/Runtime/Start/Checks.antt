-- ===== src/Runtime/Start/Checks.antt =====
-- src/runtime.rs: the checks in `Runtime::start` that only array ports have several edges, and that the
-- ports of the components are connected.
use flowd.Base.{
  ℕ, ◌+◌, ◌-◌, Bool, true, false, not, ◌&&◌, Option, none, some, List, [], ◌∷◌, ◌++◌, map,
  if◌then◌else◌, leb, Str, str_eq, is_empty, HashMap, get, insert, contains, invalid_input,
}
use flowd.Graph.{Graph, GraphNode, GraphNodeSpec, GraphEdge}
use flowd.Runtime.Start.{Attempt, returns, fails, panics, ◌>>=◌, ComponentPort, ComponentPayload}

unfoldable pub has_payload : GraphEdge → Bool
has_payload e = elim e.payload [ none ↦ false | some d ↦ true ]

-- One of the ports with this name is not an array port.
unfoldable pub is_single : Str → List ComponentPort → Bool
is_single port [] = false
is_single port (p ∷ ps) =
    let rest = is_single port ps in if str_eq p.name port && not p.is_arrayport then true else rest

module _ (ports : ComponentPayload → List ComponentPort) (available : List ComponentPayload) where
  unfoldable pub is_single_in : Str → Str → List ComponentPayload → Bool
  unfolding is_single
  is_single_in component port [] = false
  is_single_in component port (c ∷ cs) =
      let rest = is_single_in component port cs in
      if str_eq c.name component && is_single port (ports c) then true else rest

  -- The port is used again.
  unfoldable pub use_again :
      {M : Type 0} → Str → Option (GraphNode M) → HashMap (List Str) → Attempt (HashMap (List Str))
  unfolding is_single_in
  use_again port none known = panics
  use_again port (some node) known =
      if is_single_in node.component port available then fails invalid_input else returns known

  -- One end of an edge; `known` has the ports that were used, of each process, a `MultiMap`.
  unfoldable pub use_port :
      {M : Type 0}
      → HashMap (GraphNode M)
      → GraphNodeSpec
      → HashMap (List Str)
      → Attempt (HashMap (List Str))
  unfolding use_again
  use_port nodes s known = elim (get s.process known) [
    | none ↦ returns (insert s.process (s.port ∷ []) known)
    | some used ↦
        if contains used s.port
        then use_again s.port (get s.process nodes) known
        else returns (insert s.process (used ++ s.port ∷ []) known)
  ]

  unfoldable pub check_ends :
      {M : Type 0}
      → HashMap (GraphNode M)
      → (GraphEdge → Bool)
      → (GraphEdge → GraphNodeSpec)
      → List GraphEdge
      → HashMap (List Str)
      → Attempt (Unit {0})
  unfolding use_port
  check_ends nodes skips end [] known = returns tt
  check_ends nodes skips end (e ∷ es) known = elim (skips e) [
    | true ↦ check_ends nodes skips end es known
    | false ↦ do known' ← use_port nodes (end e) known; check_ends nodes skips end es known'
  ]

-- An initial packet; one that has a source process is not skipped.
unfoldable pub is_sourceless : GraphEdge → Bool
unfolding has_payload
is_sourceless e = has_payload e && is_empty e.source.process

module _ {M : Type 0} where
  unfoldable pub check_sources : List ComponentPayload → Graph M → Attempt (Unit {0})
  unfolding check_ends is_sourceless
  check_sources available g =
      check_ends (λ c. c.out_ports) available g.nodes is_sourceless (λ e. e.source) g.edges []

  unfoldable pub check_targets : List ComponentPayload → Graph M → Attempt (Unit {0})
  unfolding check_ends has_payload
  check_targets available g =
      check_ends (λ c. c.in_ports) available g.nodes has_payload (λ e. e.target) g.edges []

-- `to_ascii_lowercase` and `to_ascii_uppercase`.
abbrev lower_byte : ℕ → ℕ
lower_byte b = if leb 65 b && leb b 90 then b + 32 else b

abbrev upper_byte : ℕ → ℕ
upper_byte b = if leb 97 b && leb b 122 then b - 32 else b

unfoldable pub to_ascii_lowercase : Str → Str
to_ascii_lowercase s = map lower_byte s

unfoldable pub to_ascii_uppercase : Str → Str
to_ascii_uppercase s = map upper_byte s

unfoldable pub eq_ignore_ascii_case : Str → Str → Bool
unfolding to_ascii_lowercase
eq_ignore_ascii_case s t = str_eq (to_ascii_lowercase s) (to_ascii_lowercase t)
