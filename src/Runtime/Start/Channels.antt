-- ===== src/Runtime/Start/Channels.antt =====
-- src/runtime.rs: the channels, the ports of the processes and the initial packets by their targets,
-- while `Runtime::start` joins the processes.
use flowd.Base.{
  ℕ, Bool, ◌&&◌, Option, none, some, List, [], ◌∷◌, ◌++◌, if◌then◌else◌, ltb, Str, str_eq, HashMap,
  get, insert, length,
}
use flowd.Graph.{GraphEdge}
use flowd.Runtime.Start.{Attempt, returns, panics, ◌>>=◌}

-- A ring buffer; while the network is built, nothing is taken out of it.
pub record Channel : Type 0 where
  pub capacity : ℕ
  pub contents : List Str

-- The sending end, with what it calls after a push and the label of its trace.
pub record Sink : Type 0 where
  pub channel : ℕ
  pub target_node : Str
  pub signals : Bool
  pub edge_id : Option Str

-- The channels by the names of the ports; a name may stand there several times.
pub record ProcPorts : Type 0 where
  pub inports : List (Str × ℕ)
  pub outports : List (Str × Sink)

abbrev pub no_ports : ProcPorts
no_ports = record { inports = []; outports = [] }

-- A channel is known by its place in `channels`.
pub record Wires : Type 0 where
  pub channels : List Channel
  pub ports_all : HashMap ProcPorts

abbrev pub processedge_bufsize : ℕ
processedge_bufsize = 2401

abbrev pub processedge_iip_bufsize : ℕ
processedge_iip_bufsize = 1

-- A push that is expected to find room.
unfoldable pub push_expected : Str → Channel → Attempt Channel
push_expected iip c =
    if ltb (length c.contents) c.capacity
    then returns (record c { contents = c.contents ++ iip ∷ [] })
    else panics

unfoldable pub push_all_expected : List Str → Channel → Attempt Channel
unfolding push_expected
push_all_expected [] c = returns c
push_all_expected (iip ∷ iips) c = do c' ← push_expected iip c; push_all_expected iips c'

-- `get_mut` of the ports of a process that is expected to be there.
unfoldable pub with_ports : Str → (ProcPorts → ProcPorts) → Wires → Attempt Wires
with_ports name f w = elim (get name w.ports_all) [
  | none ↦ panics
  | some p ↦ returns (record w { ports_all = insert name (f p) w.ports_all })
]

abbrev pub add_inport : Str → ℕ → ProcPorts → ProcPorts
add_inport port channel p = record p { inports = p.inports ++ (port, channel) ∷ [] }

abbrev pub add_outport : Str → Sink → ProcPorts → ProcPorts
add_outport port sink p = record p { outports = p.outports ++ (port, sink) ∷ [] }

-- `iips_per_target`: the initial packets by process and port.
abbrev pub Iips : Type 0
Iips = List ((Str × Str) × List Str)

abbrev pub same_target : Str × Str → Str × Str → Bool
same_target a b = str_eq a.0 b.0 && str_eq a.1 b.1

unfoldable pub add_iip : Str × Str → Str → Iips → Iips
add_iip k iip [] = (k, iip ∷ []) ∷ []
add_iip k iip ((j, iips) ∷ t) =
    let rest = add_iip k iip t in
    if same_target j k then (j, iips ++ iip ∷ []) ∷ t else (j, iips) ∷ rest

-- `remove`: the packets, none for a target without any, and the table without them.
unfoldable pub take_iips : Str × Str → Iips → List Str × Iips
take_iips k [] = ([], [])
take_iips k ((j, iips) ∷ t) =
    let (taken, rest) = take_iips k t in
    if same_target j k then (iips, t) else (taken, (j, iips) ∷ rest)

unfoldable pub iips_per_target : List GraphEdge → Iips → Iips
unfolding add_iip
iips_per_target [] t = t
iips_per_target (e ∷ es) t = elim e.payload [
  | none ↦ iips_per_target es t
  | some iip ↦ iips_per_target es (add_iip (e.target.process, e.target.port) iip t)
]
