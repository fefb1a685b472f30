-- ===== src/Runtime/Graphs.antt =====
-- src/multi_graph.rs: `MultiGraphManager`. A graph is shared behind a lock, so it is a handle.
use flowd.Base.{
  ◌≡◌, refl, Option, none, some, List, [], if◌then◌else◌, Str, bytes, str_eq, str_eq_iff, HashMap,
  get, insert, remove, contains_key, keys, get-insert, get-remove, ok, err, not_found, Fallible,
  arith,
}

pub record MultiGraphManager (G : Type 0) : Type 0 where
  pub graphs : HashMap G
  pub active_graph : Str

module _ {G : Type 0} where
  unfoldable pub new_manager : MultiGraphManager G
  new_manager = record { graphs = []; active_graph = bytes "main_graph" }

  unfoldable pub get_graph : Str → MultiGraphManager G → Option G
  get_graph id m = get id m.graphs

  unfoldable pub get_active_graph : MultiGraphManager G → Option G
  unfolding get_graph
  get_active_graph m = get_graph m.active_graph m

  unfoldable pub set_active_graph :
      Str → MultiGraphManager G → Fallible (MultiGraphManager G) (Unit {0})
  set_active_graph id m =
      if contains_key id m.graphs
      then (record m { active_graph = id }, ok tt)
      else (m, err not_found)

  unfoldable pub add_graph : Str → G → MultiGraphManager G → MultiGraphManager G
  add_graph id g m = record m { graphs = insert id g m.graphs }

  unfoldable pub remove_graph : Str → MultiGraphManager G → MultiGraphManager G × Option G
  remove_graph id m = (record m { graphs = remove id m.graphs }, get id m.graphs)

  unfoldable pub list_graphs : MultiGraphManager G → List Str
  list_graphs m = keys m.graphs

  unfoldable pub get_active_graph_id : MultiGraphManager G → Str
  get_active_graph_id m = m.active_graph

  -- A graph that was added can be made active, and is then the active graph, whatever was active
  -- before; every other graph is as it was.
  activate_added :
      (id : Str) (g : G) (m : MultiGraphManager G)
      → let r = set_active_graph id (add_graph id g m) in
        (r.1 ≡ ok tt)
        × (get_active_graph r.0 ≡ some g)
        × ((j : Str) → get_graph j r.0 ≡ (if str_eq id j then some g else get_graph j m))
  unfolding set_active_graph add_graph get_active_graph get_graph
  activate_added id g m = (
    ground (arith, get-insert id id g m.graphs, str_eq_iff id id),
    ground (arith, get-insert id id g m.graphs, str_eq_iff id id),
    λ j. ground (arith, get-insert id id g m.graphs, get-insert id j g m.graphs, str_eq_iff id id),
  )

  -- Removing the active graph hands it out and leaves its name active, with no graph to it; it cannot
  -- be made active again.
  remove_active :
      (g : G) (m : MultiGraphManager G)
      → get_active_graph m ≡ some g
      → let r = remove_graph (get_active_graph_id m) m in
        (r.1 ≡ some g)
        × (get_active_graph_id r.0 ≡ get_active_graph_id m)
        × (get_active_graph r.0 ≡ none)
        × (set_active_graph (get_active_graph_id m) r.0 ≡ (r.0, err not_found))
  unfolding remove_graph get_active_graph get_graph get_active_graph_id set_active_graph
  remove_active g m found = (
    found,
    refl,
    ground (
      arith,
      get-remove m.active_graph m.active_graph m.graphs,
      str_eq_iff m.active_graph m.active_graph,
    ),
    ground (
      arith,
      get-remove m.active_graph m.active_graph m.graphs,
      str_eq_iff m.active_graph m.active_graph,
    ),
  )
