-- ===== src/Server/Control/Started.antt =====
-- src/server.rs: `network:start`, with what `Runtime::start` does to the status; the threads that it
-- spawns are not here.
pub mod Outcomes
use flowd.Base.{
  Bool, true, false, ◌||◌, Option, none, some, List, [], ◌∷◌, if◌then◌else◌, Str, already_exists,
}
use flowd.Runtime.Commands.{Runtime, RuntimeStatus}
use flowd.Runtime.Secrets.{read_write}
use flowd.Runtime.Start.{Attempt, returns, fails, panics, ComponentPayload}
use flowd.Runtime.Start.Processes.{start_graph}
use flowd.Server.{Server, Handled, allows, get_graph_by_name}
use flowd.Server.Payloads.{
  invalid_secret, graph_not_found, failed, network_error, network_started, broadcast_status,
}
use flowd.Server.Control.{snapshot}

module _ {M : Type 0} where
  -- The graph becomes the current one before the start, and stays it if the start fails.
  unfoldable pub make_current : Str → Server M → Server M
  make_current graph s = record s { runtime = record (s.runtime) { graph = graph } }

  unfoldable pub mark_started : Str → Server M → Handled M
  unfolding snapshot
  mark_started graph s =
      let status : RuntimeStatus = record (s.runtime.status) {
        graph = graph;
        started = true;
        running = true;
      } in
      (
        record s { runtime = record (s.runtime) { status = status } },
        network_started (snapshot status) ∷ broadcast_status (snapshot status) ∷ [],
      )

  unfoldable pub finish_start : {A : Type 0} → Str → Attempt A → Server M → Attempt (Handled M)
  unfolding mark_started
  finish_start graph (returns a) s = returns (mark_started graph s)
  finish_start graph (fails e) s = returns (s, network_error (failed e) graph ∷ [])
  finish_start graph panics s = panics

  -- `is_left_over`: a thread of an earlier start has not been joined.
  unfoldable pub handle_network_start :
      Option Str → Str → List ComponentPayload → Bool → Server M → Attempt (Handled M)
  unfolding allows get_graph_by_name make_current finish_start start_graph
  handle_network_start secret graph available is_left_over s =
      let t : Server M = make_current graph s in
      if allows read_write secret graph s.secrets
      then elim (get_graph_by_name graph s) [
        | none ↦ returns (s, network_error graph_not_found graph ∷ [])
        | some h ↦
            if s.runtime.status.running || is_left_over
            then finish_start {A = Unit {0}} graph (fails already_exists) t
            else finish_start graph (start_graph available (s.store h)) t
      ]
      else returns (s, network_error invalid_secret graph ∷ [])
