-- ===== src/Server/Control/Started/Outcomes.antt =====
-- src/server.rs: what `network:start` leads to, and what the commands for another graph do to the network
-- that runs.
use flowd.Base.{
  ℕ, ◌+◌, ◌≡◌, refl, ap, ◌∙◌, Bool, true, false, ◌||◌, Option, some, List, [], ◌∷◌, Str, str_eq,
  str_eq_refl, contains_key, HashMap, if◌then◌else◌,
}
use flowd.Runtime.Commands.{debug_mode}
use flowd.Runtime.Secrets.{read_write}
use flowd.Runtime.Start.{Attempt, returns, ComponentPayload}
use flowd.Runtime.Start.Processes.{start_graph}
use flowd.Server.{Server, Handled, allows, get_graph_by_name}
use flowd.Server.Payloads.{
  StatusPayload, network_started, broadcast_status, network_debug, network_error,
  not_the_running_network,
}
use flowd.Server.Control.{
  on_network, handle_network_stop, stop_network, handle_network_debug, finish_network,
}
use flowd.Server.Messages.{has_error}
use flowd.Server.Control.Stopped.{handle_network_stop_passes}
use flowd.Runtime.Start.Channels.{Wires, ProcPorts}
use flowd.Server.Control.Started.{make_current, mark_started, finish_start, handle_network_start}

module _ {M : Type 0} where
  -- The server after `network:debug` for a graph.
  abbrev selected : Str → Bool → Server M → Server M
  selected other enable s = record s {
    runtime = record (s.runtime) {
      graph = other;
      status = record (s.runtime.status) { graph = other; debug = some enable };
    };
  }

  handle_network_debug_selects :
      (secret : Option Str) (other : Str) (enable : Bool) (k : ℕ) (s : Server M)
      → allows read_write secret other s.secrets ≡ true
      → get_graph_by_name other s ≡ some k
      → contains_key other s.runtime.graphs.graphs ≡ true
      → handle_network_debug secret other enable s
        ≡ (selected other enable s, network_debug other enable ∷ [])
  unfolding handle_network_debug on_network finish_network debug_mode
  handle_network_debug_selects secret other enable k s may found known = rw (may, found, known) refl

  lookup_selected :
      (graph other : Str) (enable : Bool) (s : Server M)
      → get_graph_by_name graph (selected other enable s) ≡ get_graph_by_name graph s
  unfolding get_graph_by_name
  lookup_selected graph other enable s = refl

  stop_network_refuses :
      (graph other : Str) (enable : Bool) (s : Server M)
      → str_eq other graph ≡ false
      → stop_network graph (selected other enable s)
        ≡ (selected other enable s, network_error not_the_running_network graph ∷ [])
  unfolding stop_network
  stop_network_refuses graph other enable s differ = rw differ refl

  -- If a client that may write to both of two graphs, which the server has, sends `network:debug` for
  -- one of them, which the manager knows, its `network:stop` for the other is refused, whether the
  -- network of the other runs or not.
  pub handle_network_stop-handle_network_debug :
      (secret : Option Str) (graph other : Str) (enable : Bool) (h k : ℕ) (s : Server M)
      → allows read_write secret graph s.secrets ≡ true
      → allows read_write secret other s.secrets ≡ true
      → get_graph_by_name graph s ≡ some h
      → get_graph_by_name other s ≡ some k
      → contains_key other s.runtime.graphs.graphs ≡ true
      → str_eq other graph ≡ false
      → let t = (handle_network_debug secret other enable s).0 in
        handle_network_stop secret graph t ≡ (t, network_error not_the_running_network graph ∷ [])
  handle_network_stop-handle_network_debug secret graph other enable h k s may may' found found'
        known differ =
      rw (handle_network_debug_selects secret other enable k s may' found' known) (
        handle_network_stop_passes secret graph (selected other enable s) h may
          (lookup_selected graph other enable s ∙ found)
        ∙ stop_network_refuses graph other enable s differ)

  -- The status and the count after a network was started and stopped.
  abbrev pub stopped_again : Str → Server M → Server M
  stopped_again graph s = record s {
    runtime = record (s.runtime) {
      graph = graph;
      status = record (s.runtime.status) { graph = graph; started = false; running = false };
    };
    teardowns = s.teardowns + 1;
  }

  stop_started :
      (graph : Str) (s : Server M)
      → (stop_network graph (mark_started graph (make_current graph s)).0).0 ≡ stopped_again graph s
  unfolding stop_network mark_started make_current
  stop_started graph s = rw (str_eq_refl graph) refl

  plain_stop :
      (graph : Str) (s : Server M)
      → has_error (stop_network graph (mark_started graph (make_current graph s)).0).1 ≡ false
  unfolding stop_network mark_started make_current has_error
  plain_stop graph s = rw (str_eq_refl graph) refl

  lookups_started :
      (secret : Option Str) (graph : Str) (s : Server M)
      → let t = (mark_started graph (make_current graph s)).0 in
        (allows read_write secret graph t.secrets ≡ allows read_write secret graph s.secrets)
        × (get_graph_by_name graph t ≡ get_graph_by_name graph s)
  unfolding mark_started make_current get_graph_by_name
  lookups_started secret graph s = (refl, refl)

  handle_network_start_passes :
      (secret : Option Str) (graph : Str) (available : List ComponentPayload) (h : ℕ) (s : Server M)
      (w : Wires × HashMap ProcPorts)
      → allows read_write secret graph s.secrets ≡ true
      → get_graph_by_name graph s ≡ some h
      → s.runtime.status.running ≡ false
      → start_graph available (s.store h) ≡ returns w
      → handle_network_start secret graph available false s
        ≡ returns (mark_started graph (make_current graph s))
  unfolding handle_network_start finish_start
  handle_network_start_passes secret graph available h s w may found idle starts =
      rw (may, found)
        (is_idle _ _ _ idle ∙ ap (λ r. finish_start graph r (make_current graph s)) starts)
    where
      is_idle :
          (b : Bool) (x y : Attempt (Handled M)) → b ≡ false → (if b || false then x else y) ≡ y
      is_idle b x y q = rw q refl

  -- The server after a network was started, and the status that its answers give.
  abbrev pub started_now : Str → Server M → Server M
  started_now graph s = record s {
    runtime = record (s.runtime) {
      graph = graph;
      status = record (s.runtime.status) { graph = graph; started = true; running = true };
    };
  }

  abbrev pub running_status : Str → Server M → StatusPayload
  running_status graph s = record {
    graph = graph;
    started = true;
    running = true;
    debug = s.runtime.status.debug;
  }

  -- A network that starts can be stopped: the start of a graph, while no network runs and no thread is
  -- left over, makes the graph current, marks it as started and running, and tells this status to the
  -- client and to all; and the stop that follows marks it as stopped and starts one
  -- thread that tears it down.
  pub handle_network_stop-handle_network_start :
      (secret : Option Str) (graph : Str) (available : List ComponentPayload) (h : ℕ) (s : Server M)
      (w : Wires × HashMap ProcPorts)
      → allows read_write secret graph s.secrets ≡ true
      → get_graph_by_name graph s ≡ some h
      → s.runtime.status.running ≡ false
      → start_graph available (s.store h) ≡ returns w
      → let t = started_now graph s in
        (handle_network_start secret graph available false s
          ≡ returns (
            t,
            network_started (running_status graph s)
                ∷ broadcast_status (running_status graph s)
                ∷ [],
          ))
        × ((handle_network_stop secret graph t).0 ≡ stopped_again graph s)
        × (has_error (handle_network_stop secret graph t).1 ≡ false)
  unfolding mark_started make_current
  handle_network_stop-handle_network_start secret graph available h s w may found idle starts =
      let t : Server M = (mark_started graph (make_current graph s)).0 in
      let looks = lookups_started secret graph s in
      let e = handle_network_stop_passes secret graph t h (looks.0 ∙ may) (looks.1 ∙ found) in
      (
        handle_network_start_passes secret graph available h s w may found idle starts,
        ap (λ o. o.0) e ∙ stop_started graph s,
        ap (λ o. has_error o.1) e ∙ plain_stop graph s,
      )
