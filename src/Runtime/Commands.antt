-- ===== src/Runtime/Commands.antt =====
-- src/runtime.rs: the debug and trace commands. Only the fields of `Runtime` that they use are here.
use flowd.Base.{
  ◌≡◌, refl, ℕ, Bool, true, false, Option, none, some, List, [], ◌∷◌, if◌then◌else◌, Str, str_eq,
  HashMap, get, insert, contains_key, ok, err, not_found, already_exists, Fallible, arith,
  get-insert,
}
use flowd.Graph.{NetworkSpec}
use flowd.Runtime.Graphs.{MultiGraphManager}

-- `GraphEdgeSpec`: the ends of an edge.
pub record GraphEdgeSpec : Type 0 where
  pub src : NetworkSpec
  pub tgt : NetworkSpec

pub record RuntimeStatus : Type 0 where
  pub graph : Str
  pub started : Bool
  pub running : Bool
  pub debug : Option Bool

pub record Runtime (G : Type 0) : Type 0 where
  pub graph : Str
  pub status : RuntimeStatus
  pub tracing : Bool
  pub graphs : MultiGraphManager G
  pub debug_edges : HashMap (List GraphEdgeSpec)

-- The last command that addresses the current graph decides.
unfoldable pub last_command : Str → List (Str × Bool) → Bool → Bool
last_command current [] on = on
last_command current ((graph, b) ∷ cs) on =
    last_command current cs (if str_eq graph current then b else on)

module _ {G : Type 0} where
  -- The graph becomes the current one.
  abbrev select : Str → Runtime G → Runtime G
  select graph r = record r { graph = graph; status = record (r.status) { graph = graph } }

  unfoldable pub debug_mode : Str → Bool → Runtime G → Fallible (Runtime G) (Unit {0})
  debug_mode graph mode r =
      let selected : Runtime G = select graph r in
      if contains_key graph r.graphs.graphs
      then (record selected { status = record (selected.status) { debug = some mode } }, ok tt)
      else (r, err not_found)

  unfoldable pub set_debug_edges :
      Str → List GraphEdgeSpec → Runtime G → Fallible (Runtime G) (Unit {0})
  set_debug_edges graph edges r =
      if contains_key graph r.graphs.graphs
      then (record (select graph r) { debug_edges = insert graph edges r.debug_edges }, ok tt)
      else (r, err not_found)

  unfoldable pub debug_edges_for_graph : Str → Runtime G → List GraphEdgeSpec
  debug_edges_for_graph graph r = elim (get graph r.debug_edges) [ none ↦ [] | some es ↦ es ]

  unfoldable pub start_trace : Str → ℕ → Runtime G → Fallible (Runtime G) (Unit {0})
  start_trace graph buffer_size r =
      if str_eq graph r.graph
      then if r.tracing then (r, err already_exists) else (record r { tracing = true }, ok tt)
      else (r, err not_found)

  unfoldable pub stop_trace : Str → Runtime G → Fallible (Runtime G) (Unit {0})
  stop_trace graph r =
      if str_eq graph r.graph
      then if r.tracing then (record r { tracing = false }, ok tt) else (r, err not_found)
      else (r, err not_found)

  unfoldable pub clear_trace : Str → Runtime G → Fallible (Runtime G) (Unit {0})
  clear_trace graph r = if str_eq graph r.graph then (r, ok tt) else (r, err not_found)

  unfoldable pub dump_trace : Str → Runtime G → Fallible (Runtime G) Str
  dump_trace graph r = if str_eq graph r.graph then (r, ok []) else (r, err not_found)

  -- Whether tracing is on, after a sequence of commands: `true` starts it, `false` stops it.
  pub trace_run : List (Str × Bool) → Runtime G → Runtime G
  trace_run [] r = r
  trace_run ((graph, true) ∷ cs) r = trace_run cs (start_trace graph 0 r).0
  trace_run ((graph, false) ∷ cs) r = trace_run cs (stop_trace graph r).0

  pub graph-trace_run : (cs : List (Str × Bool)) (r : Runtime G) → (trace_run cs r).graph ≡ r.graph
  unfolding trace_run start_trace stop_trace
  graph-trace_run [] r = refl
  graph-trace_run ((graph, true) ∷ cs) r =
      ground (arith, graph-trace_run cs (start_trace graph 0 r).0)
  graph-trace_run ((graph, false) ∷ cs) r =
      ground (arith, graph-trace_run cs (stop_trace graph r).0)

  -- After any sequence of starts and stops, failed ones included, tracing is on exactly if the last
  -- command that addressed the current graph was a start, or, if none did, it was on before.
  tracing-trace_run :
      (cs : List (Str × Bool)) (r : Runtime G)
      → (trace_run cs r).tracing ≡ last_command r.graph cs r.tracing
  unfolding trace_run last_command start_trace stop_trace
  tracing-trace_run [] r = refl
  tracing-trace_run ((graph, true) ∷ cs) r =
      ground (arith, tracing-trace_run cs (start_trace graph 0 r).0)
  tracing-trace_run ((graph, false) ∷ cs) r =
      ground (arith, tracing-trace_run cs (stop_trace graph r).0)

  -- The edges that were selected for a known graph are those that are reported for it, it is the
  -- current graph then, in the runtime and in its status, and the selections for other graphs stay.
  debug_edges-set_debug_edges :
      (graph other : Str) (edges : List GraphEdgeSpec) (r : Runtime G)
      → contains_key graph r.graphs.graphs ≡ true
      → let q = set_debug_edges graph edges r in
        (q.1 ≡ ok tt)
        × (debug_edges_for_graph other q.0
            ≡ (if str_eq graph other then edges else debug_edges_for_graph other r))
        × (q.0.graph ≡ graph)
        × (q.0.status.graph ≡ graph)
  unfolding set_debug_edges debug_edges_for_graph
  debug_edges-set_debug_edges graph other edges r known =
      rw known (refl, ground (arith, get-insert graph other edges r.debug_edges), refl, refl)
