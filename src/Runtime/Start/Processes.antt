-- ===== src/Runtime/Start/Processes.antt =====
-- src/runtime.rs: `Runtime::start` takes the ports of each process and checks that those of its
-- component are connected. The components are constructed by generated code, which is not here.
use flowd.Base.{
  Bool, true, false, ◌&&◌, ◌||◌, Option, none, some, List, [], ◌∷◌, if◌then◌else◌, Str, str_eq,
  HashMap, get, remove, contains_key, find, not_found,
}
use flowd.Graph.{Graph, GraphNode, GraphPort}
use flowd.Runtime.Start.{
  Attempt, returns, fails, panics, ◌>>=◌, ◌>>◌, ComponentPort, ComponentPayload,
}
use flowd.Runtime.Start.Checks.{
  check_sources, check_targets, to_ascii_lowercase, eq_ignore_ascii_case,
}
use flowd.Runtime.Start.Channels.{ProcPorts, Wires}
use flowd.Runtime.Start.Wiring.{connect}

unfoldable pub is_exported : Str → Str → HashMap GraphPort → Bool
unfolding eq_ignore_ascii_case
is_exported process port [] = false
is_exported process port ((public, p) ∷ ps) =
    let rest = is_exported process port ps in
    if str_eq p.process process && eq_ignore_ascii_case p.port port then true else rest

-- A port of the component is neither connected nor exported.
unfoldable pub is_missing :
    {A : Type 0} → Str → HashMap GraphPort → HashMap A → List ComponentPort → Bool
unfolding is_exported to_ascii_lowercase
is_missing process exports connected [] = false
is_missing process exports connected (p ∷ ps) =
    let rest = is_missing process exports connected ps in
    if contains_key p.name connected
      || contains_key (to_ascii_lowercase p.name) connected
      || is_exported process p.name exports
    then rest
    else true

module _ {M : Type 0} (available : List ComponentPayload) (g : Graph M) where
  unfoldable pub check_component : Str → ProcPorts → Option ComponentPayload → Attempt (Unit {0})
  unfolding is_missing
  check_component process p none = fails not_found
  check_component process p (some c) =
      if is_missing process g.inports p.inports c.in_ports
      then fails not_found
      else if is_missing process g.outports p.outports c.out_ports
      then fails not_found
      else returns tt

  unfoldable pub check_process : Str → GraphNode M → HashMap ProcPorts → Attempt (HashMap ProcPorts)
  unfolding check_component
  check_process name node ports_all = elim (get name ports_all) [
    | none ↦ panics
    | some p ↦ do
      check_component name p (find (λ c. str_eq c.name node.component) available)
      returns (remove name ports_all)
  ]

  unfoldable pub check_processes :
      HashMap (GraphNode M) → HashMap ProcPorts → Attempt (HashMap ProcPorts)
  unfolding check_process
  check_processes [] ports_all = returns ports_all
  check_processes ((name, node) ∷ nodes) ports_all = do
    rest ← check_process name node ports_all
    check_processes nodes rest

  -- The wires, and the ports that are left for the exported inports and outports.
  unfoldable pub start_graph : Attempt (Wires × HashMap ProcPorts)
  unfolding check_sources check_targets connect check_processes
  start_graph = do
    check_sources available g
    check_targets available g
    w ← connect g
    rest ← check_processes g.nodes w.ports_all
    returns (w, rest)
