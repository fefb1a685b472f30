-- ===== src/Tests/Dispatching.antt =====
-- src/server.rs: the theorems on a server with one graph that a reader's secret guards.
use flowd.Base.{
  Str, ℕ, ◌≡◌, refl, true, false, none, some, [], ◌∷◌, bytes, str_eq, HashMap, get, insert, remove,
  contains, contains_key, if◌then◌else◌,
}
use flowd.Graph.Requests as Requests
use flowd.Graph.Requests.{apply}
use flowd.Runtime.Commands.{Runtime}
use flowd.Runtime.Secrets.{read_only, read_write, validate_secret_with_access}
use flowd.Server.{Server, allows, get_graph_by_name}
use flowd.Server.Payloads.{
  ClearPayload, RenamePayload, network_control, network_started, broadcast_status, network_error,
  not_the_running_network,
}
use flowd.Server.Graphs.{handle_clear}
use flowd.Server.Control.{Client, handle_network_stop, handle_network_debug}
use flowd.Server.Control.Started.{make_current, handle_network_start}
use flowd.Server.Control.Started.Outcomes.{
  started_now, running_status, stopped_again, handle_network_stop-handle_network_start,
  handle_network_stop-handle_network_debug,
}
use flowd.Runtime.Start.{returns, fails, panics, ComponentPayload}
use flowd.Runtime.Start.Channels.{Wires, ProcPorts}
use flowd.Runtime.Start.Processes.{start_graph}
use flowd.Server.Messages.{
  Message, Outcome, graph_message, renames_node, handle, handle_graph, has_error, network_message,
  stops_network,
}
use flowd.Server.Messages.Refused.{denied, needs, refusal, handle_refused}
use flowd.Server.Messages.Readers.{may_write, handle_keeps}
use flowd.Server.Messages.Refines.{request_of, handle_graph-Carries}
use flowd.Server.Messages.Carried.{Carries}
use flowd.Server.Messages.Refines.Clients.{starts_network, handle_client}
use flowd.Server.Messages.Refines.Reached.{
  AllClosed, IsWellAimed, starts, handles, reached-AllClosed,
}
use flowd.Server.Messages.Cleared.{get_graph_by_name-handle_clear}
use flowd.Tests.Editing.{Value, small_json, main, reader, small, small-IsClosed}

abbrev runtime : Runtime ℕ
runtime = record {
  graph = main;
  status = record { graph = main; started = false; running = false; debug = none };
  tracing = false;
  graphs = record { graphs = (main, 0) ∷ []; active_graph = main };
  debug_edges = [];
}

abbrev server : Server (HashMap Value)
server = record {
  store = λ h. small;
  graph = 0;
  runtime = runtime;
  secrets = (main, (bytes "key", read_only)) ∷ [];
  capabilities = network_control ∷ [];
  components = bytes "Repeat" ∷ [];
  teardowns = 0;
}

abbrev client : Client
client = record { graph = none; capabilities = [] }

abbrev renaming : RenamePayload
renaming = record { graph = main; old = reader; new = bytes "source" }

abbrev rename_message : Message (HashMap Value)
rename_message = graph_message (renames_node renaming)

is_denied : denied (some (bytes "key")) rename_message server ≡ true
unfolding denied allows validate_secret_with_access str_eq get
is_denied = refl

may_not : may_write (some (bytes "wrong")) (network_message (stops_network main)) server ≡ false
unfolding may_write allows validate_secret_with_access str_eq get
may_not = refl

needs_main : needs rename_message server ≡ some (main, read_write)
unfolding needs
needs_main = refl

has_reader_key : get main server.secrets ≡ some (bytes "key", read_only)
unfolding get str_eq
has_reader_key = refl

stands :
    request_of small_json (renames_node renaming)
    ≡ some (main, Requests.renames_node main reader (bytes "source"))
unfolding request_of
stands = refl

may : allows read_write none main server.secrets ≡ true
unfolding allows validate_secret_with_access
may = refl

has_main : get_graph_by_name main server ≡ some 0
unfolding get_graph_by_name get str_eq
has_main = refl

handle_refused_example :
    handle small_json (some (bytes "key")) rename_message client server
    ≡ record { server = server; client = client; answers = refusal rename_message ∷ [] }
handle_refused_example =
    handle_refused small_json (some (bytes "key")) rename_message client server is_denied

handle_keeps_example :
    (handle small_json
      (some (bytes "wrong"))
      (network_message (stops_network main))
      client
      server).server
    ≡ server
handle_keeps_example =
    handle_keeps small_json (some (bytes "wrong")) (network_message (stops_network main)) client
      server may_not

handle_graph-Carries_example :
    Carries 0 server
      (apply small_json (Requests.renames_node main reader (bytes "source")) small)
      (handle_graph small_json none (renames_node renaming) server)
handle_graph-Carries_example =
    handle_graph-Carries small_json none (renames_node renaming) server main
      (Requests.renames_node main reader (bytes "source")) 0 stands may has_main

aimed : IsWellAimed small_json rename_message server
unfolding request_of
aimed = λ h found. tt

reached-AllClosed_example :
    AllClosed (handle small_json none rename_message client server).server.store
reached-AllClosed_example =
    reached-AllClosed small_json server (handle small_json none rename_message client server).server
      (handles none rename_message client server starts aimed)
      (record { closed = λ h. small-IsClosed })

abbrev clearing : ClearPayload
clearing = record {
  name = bytes "other";
  label = none;
  library = none;
  main = true;
  icon = none;
  description = none;
}

may_clear : allows read_write none (bytes "other") server.secrets ≡ true
unfolding allows validate_secret_with_access
may_clear = refl

get_graph_by_name-handle_clear_example :
    get_graph_by_name main (handle_clear none clearing server).0 ≡ (
      if str_eq (bytes "other") main
      then some 0
      else if str_eq main main
      then none
      else get main runtime.graphs.graphs)
get_graph_by_name-handle_clear_example =
    get_graph_by_name-handle_clear none clearing server main may_clear refl

abbrev repeat : ComponentPayload
repeat = record {
  name = bytes "Repeat";
  in_ports = record { name = bytes "IN"; is_arrayport = false } ∷ [];
  out_ports = [];
}

abbrev network : Wires × HashMap ProcPorts
unfolding start_graph get insert remove str_eq contains
network = elim (start_graph (repeat ∷ []) small) [
  | returns w ↦ w
  | fails e ↦ (record { channels = []; ports_all = [] }, [])
  | panics ↦ (record { channels = []; ports_all = [] }, [])
]

begins : start_graph (repeat ∷ []) small ≡ returns network
unfolding start_graph get insert remove str_eq contains
begins = refl

handle_network_stop-handle_network_start_example :
    let t = started_now main server in
    (handle_network_start none main (repeat ∷ []) false server
      ≡ returns (
        t,
        network_started (running_status main server)
            ∷ broadcast_status (running_status main server)
            ∷ [],
      ))
    × ((handle_network_stop none main t).0 ≡ stopped_again main server)
    × (has_error (handle_network_stop none main t).1 ≡ false)
handle_network_stop-handle_network_start_example =
    handle_network_stop-handle_network_start none main (repeat ∷ []) 0 server network may has_main
      refl begins

-- No graph is current, and the components that there are lack that of the node.
abbrev idle_server : Server (HashMap Value)
idle_server = record server { runtime = record runtime { graph = [] } }

abbrev start_refused : Outcome (HashMap Value)
unfolding handle_client handle_network_start start_graph allows validate_secret_with_access
    get_graph_by_name make_current get insert remove str_eq contains
start_refused =
    elim (handle_client small_json none [] false (starts_network main) client idle_server) [
      | returns out ↦ out
      | fails e ↦ record { server = idle_server; client = client; answers = [] }
      | panics ↦ record { server = idle_server; client = client; answers = [] }
    ]

abbrev side : Str
side = bytes "side"

-- Two graphs, the network of the first runs.
abbrev running_server : Server (HashMap Value)
running_server = record server {
  runtime = record runtime {
    graphs = record { graphs = (main, 0) ∷ (side, 1) ∷ []; active_graph = main };
    status = record { graph = main; started = true; running = true; debug = none };
  };
}

may_side : allows read_write none side running_server.secrets ≡ true
unfolding allows validate_secret_with_access
may_side = refl

runs_main : get_graph_by_name main running_server ≡ some 0
unfolding get_graph_by_name get str_eq
runs_main = refl

has_side : get_graph_by_name side running_server ≡ some 1
unfolding get_graph_by_name get str_eq
has_side = refl

knows_side : contains_key side running_server.runtime.graphs.graphs ≡ true
unfolding get str_eq
knows_side = refl

side_differs : str_eq side main ≡ false
unfolding str_eq
side_differs = refl

handle_network_stop-handle_network_debug_example :
    let t = (handle_network_debug none side true running_server).0 in
    handle_network_stop none main t ≡ (t, network_error not_the_running_network main ∷ [])
handle_network_stop-handle_network_debug_example =
    handle_network_stop-handle_network_debug none main side true 0 1 running_server may may_side
      runs_main has_side knows_side side_differs
