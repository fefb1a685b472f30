-- ===== src/Server.antt =====
-- src/server.rs: the dispatch of a client's messages in `handle_client`. The graphs that are shared
-- behind locks are a store by handles; a handler runs to its end before another message is read.
pub mod Payloads
pub mod Graphs
pub mod Control
pub mod Messages
use flowd.Base.{
  ℕ, Bool, true, false, Option, none, some, List, [], ◌∷◌, if◌then◌else◌, Str, str_eq, ◌==◌, Result,
  ok, err, Fallible,
}
use flowd.Graph.{Graph}
use flowd.Runtime.Graphs.{get_graph}
use flowd.Runtime.Commands.{Runtime}
use flowd.Runtime.Secrets.{AccessLevel, read_only, read_write, Secrets, validate_secret_with_access}
use flowd.Server.Payloads.{Answer, Failure, failed, invalid_secret, Capability, graph_error}

-- `graph`, the graph that was there first, is the fallback of the lookup by name.
pub record Server (M : Type 0) : Type 0 where
  pub store : ℕ → Graph M
  pub graph : ℕ
  pub runtime : Runtime ℕ
  pub secrets : Secrets
  pub capabilities : List Capability
  pub components : List Str
  -- How many threads were started that tear a network down.
  pub teardowns : ℕ

abbrev pub put_graph : {M : Type 0} → ℕ → Graph M → (ℕ → Graph M) → ℕ → Graph M
put_graph h g store i = if i == h then g else store i

-- `is_err()` of a check of the secret, negated.
unfoldable pub allows : AccessLevel → Option Str → Str → Secrets → Bool
allows level secret name secrets = elim (validate_secret_with_access secret name level secrets) [
  | ok u ↦ true
  | err e ↦ false
]

-- What a handler leaves, and what it sends, in order.
abbrev pub Handled : Type 0 → Type 0
Handled M = Server M × List (Answer M)

module _ {M : Type 0} where
  unfoldable pub get_graph_by_name : Str → Server M → Option ℕ
  unfolding get_graph
  get_graph_by_name name s = elim (get_graph name s.runtime.graphs) [
    | some h ↦ some h
    | none ↦ if str_eq (s.store s.graph).properties.name name then some s.graph else none
  ]

  -- What the match on the result of an operation on the graph sends.
  unfoldable pub finish :
      {A : Type 0} → ℕ → Fallible (Graph M) A → (A → List (Answer M)) → Server M → Handled M
  finish h (g, ok a) answer s = (record s { store = put_graph h g s.store }, answer a)
  finish h (g, err e) answer s =
      (record s { store = put_graph h g s.store }, graph_error (failed e) ∷ [])

  -- The checks that the handlers of graph messages begin with: the secret, then the graph.
  unfoldable pub on_graph : Option Str → Str → Failure → (ℕ → Handled M) → Server M → Handled M
  unfolding allows get_graph_by_name
  on_graph secret name missing handler s =
      if allows read_write secret name s.secrets
      then elim (get_graph_by_name name s) [
        | none ↦ (s, graph_error missing ∷ [])
        | some h ↦ handler h
      ]
      else (s, graph_error invalid_secret ∷ [])
