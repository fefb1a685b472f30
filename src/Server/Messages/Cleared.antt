-- ===== src/Server/Messages/Cleared.antt =====
-- src/server.rs: which graphs are found by their names after `graph:clear`.
use flowd.Base.{
  ◌≡◌, refl, Bool, true, false, Option, none, some, Str, str_eq, str_eq_iff, if◌then◌else◌, get,
  get-insert, get-remove, arith, insert, ℕ, ok,
}
use flowd.Graph.{Graph, clear}
use flowd.Runtime.Graphs.{add_graph, remove_graph, set_active_graph, get_graph}
use flowd.Runtime.Commands.{Runtime}
use flowd.Runtime.Secrets.{read_write}
use flowd.Server.{Server, allows, get_graph_by_name}
use flowd.Server.Payloads.{ClearPayload}
use flowd.Server.Graphs.{handle_clear, finish_clear, reassign}

-- The graphs that the manager has: the cleared one under the new name, not the one that was current.
get-reassign :
    (name : Str) (h : ℕ) (r : Runtime ℕ) (n : Str)
    → get n (reassign name h r).graphs.graphs
      ≡ (if str_eq name n then some h else if str_eq r.graph n then none else get n r.graphs.graphs)
unfolding reassign add_graph remove_graph set_active_graph
get-reassign name h r n = ground (
  arith,
  get-insert name n h r.graphs.graphs,
  get-remove r.graph n (insert name h r.graphs.graphs),
  str_eq_iff name n,
  str_eq_iff r.graph n,
  str_eq_iff r.graph name,
)

module _ {M : Type 0} where
  clear_accepts :
      (p : ClearPayload) (running : Bool) (g : Graph M)
      → running ≡ false
      → (g' : Graph M) × (clear p.name p.description p.icon running g ≡ (g', ok tt))
        × (g'.properties.name ≡ p.name)
  unfolding clear
  clear_accepts p running g idle = rw idle (_, refl, refl)

  get_graph_by_name-finish_clear :
      (p : ClearPayload) (g : Graph M) (s : Server M) (n : Str)
      → g.properties.name ≡ p.name
      → get_graph_by_name n (finish_clear p (g, ok tt) s).0 ≡ (
          if str_eq p.name n
          then some s.graph
          else if str_eq s.runtime.graph n
          then none
          else get n s.runtime.graphs.graphs)
  unfolding finish_clear get_graph_by_name get_graph
  get_graph_by_name-finish_clear p g s n named =
      ground (arith, get-reassign p.name s.graph s.runtime n, named)

  -- If `graph:clear` is accepted, the fallback graph is found under the name of the request. The graph
  -- that was the current one is found no more, unless that name is its own. For any other name the
  -- lookup is the one in the manager as it was; so the fallback graph is still found under a former
  -- name that it is registered with.
  pub get_graph_by_name-handle_clear :
      (secret : Option Str) (p : ClearPayload) (s : Server M) (n : Str)
      → allows read_write secret p.name s.secrets ≡ true
      → s.runtime.status.running ≡ false
      → get_graph_by_name n (handle_clear secret p s).0 ≡ (
          if str_eq p.name n
          then some s.graph
          else if str_eq s.runtime.graph n
          then none
          else get n s.runtime.graphs.graphs)
  unfolding handle_clear
  get_graph_by_name-handle_clear secret p s n may idle =
      let (g, e, named) = clear_accepts p s.runtime.status.running (s.store s.graph) idle in
      rw (may, e) (get_graph_by_name-finish_clear p g s n named)
