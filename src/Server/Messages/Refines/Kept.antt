-- ===== src/Server/Messages/Refines/Kept.antt =====
-- src/server.rs: what the messages leave of the server when one is answered with an error.
use flowd.Base.{
  ℕ, ◌≡◌, refl, sym, ap, ◌∙◌, true, false, Option, none, some, [], ◌∷◌, Str, ok, err, Fallible,
  KeepsOnError, Bool-cases, Option-cases, inl, inr, str_eq, contains_key, if_elim,
}
use flowd.Graph.{Graph}
use flowd.Graph.Json.{SerdeJson}
use flowd.Graph.Requests.{Request, apply}
use flowd.Graph.Requests.Safety.{apply_keeps, KeepsOnError-if}
use flowd.Runtime.Secrets.{AccessLevel, read_only, read_write}
use flowd.Runtime.Commands.{
  Runtime, debug_mode, set_debug_edges, start_trace, stop_trace, clear_trace, dump_trace,
}
use flowd.Server.{Server, Handled, put_graph, allows, get_graph_by_name}
use flowd.Server.Payloads.{Answer}
use flowd.Server.Control.{
  Client, on_trace, finish_trace, on_network, finish_network, handle_network_stop, stop_network,
}
use flowd.Server.Messages.{
  Message, graph_message, trace_message, network_message, gets_runtime, lists_components,
  packet_was_sent, TraceMessage, starts_trace, stops_trace, clears_trace, dumps_trace,
  NetworkMessage, selects_edges, sets_debug, stops_network, gets_status, handle, handle_trace,
  handle_network, has_error,
}
use flowd.Server.Messages.Refines.{DoneFor, message_done, request_of}
use flowd.Server.Messages.Carried.{failed?, Carries, Calm, put_graph_same}

module _ {M : Type 0} where
  plain-Calm : (s : Server M) (out : Handled M) → has_error out.1 ≡ false → Calm s out
  plain-Calm s out plain e = absurd (true_is_false (sym e ∙ plain))
    where
      true_is_false : true ≡ false → ⊥
      true_is_false p = cc

  carried-Calm :
      (h : ℕ) (s : Server M) (r : Fallible (Graph M) (Unit {0})) (out : Handled M)
      → Carries h s r out
      → KeepsOnError (s.store h) r
      → Calm s out
  unfolding failed?
  carried-Calm h s (g, ok u) out c k e = plain-Calm s _ c.told e
  carried-Calm h s (g, err x) out c k e =
      c.server
      ∙ ap (λ st. record s { store = st })
          (ap (λ g. put_graph h g s.store) k ∙ put_graph_same h s.store)

  trace-Calm :
      {A : Type 0} (s : Server M) (r : Fallible (Runtime ℕ) A) (answer : A → Answer M)
      → KeepsOnError s.runtime r
      → ((a : A) → has_error (answer a ∷ []) ≡ false)
      → Calm s (finish_trace r answer s)
  unfolding finish_trace
  trace-Calm s (r, ok a) answer k plain e = plain-Calm s _ (plain a) e
  trace-Calm s (r, err x) answer k plain e = ap (λ r. record s { runtime = r }) k

  finish_network-Calm :
      {A : Type 0} (graph : Str) (s : Server M) (r : Fallible (Runtime ℕ) A) (answer : Answer M)
      → KeepsOnError s.runtime r
      → has_error (answer ∷ []) ≡ false
      → Calm s (finish_network graph r answer s)
  unfolding finish_network
  finish_network-Calm graph s (r, ok a) answer k plain e = plain-Calm s _ plain e
  finish_network-Calm graph s (r, err x) answer k plain e = ap (λ r. record s { runtime = r }) k

  on_trace-Calm :
      {A : Type 0} (level : AccessLevel) (secret : Option Str) (graph : Str) (s : Server M)
      (r : Fallible (Runtime ℕ) A) (answer : A → Answer M)
      → Calm s (finish_trace r answer s)
      → Calm s (on_trace level secret graph r answer s)
  unfolding on_trace
  on_trace-Calm level secret graph s r answer calm =
      elim (Bool-cases (allows level secret graph s.secrets)) [
        | inl may ↦ rw may calm
        | inr may_not ↦ rw may_not (λ e. refl)
      ]

  on_network-Calm :
      (level : AccessLevel) (secret : Option Str) (graph : Str) (s : Server M) (handled : Handled M)
      → Calm s handled
      → Calm s (on_network level secret graph handled s)
  unfolding on_network
  on_network-Calm level secret graph s handled calm =
      elim (Bool-cases (allows level secret graph s.secrets)) [
        | inl may ↦ elim (Option-cases (get_graph_by_name graph s)) [
          | inl lost ↦ rw (may, lost) (λ e. refl)
          | inr found ↦ rw (may, found.1) calm
        ]
        | inr may_not ↦ rw may_not (λ e. refl)
      ]

module _ (json : SerdeJson) where
  open json use {Map}

  request-Calm :
      (secret : Option Str) (s : Server Map) (o : Option (Str × Request Map)) (out : Handled Map)
      → DoneFor json secret s o out
      → Calm s out
  request-Calm secret s none out d e = d.calm e
  request-Calm secret s (some (name, q)) out d e =
      elim (Bool-cases (allows read_write secret name s.secrets)) [
        | inl may ↦ elim (Option-cases (get_graph_by_name name s)) [
          | inl lost ↦ d.missed may lost
          | inr found ↦
              carried-Calm found.0 s (apply json q (s.store found.0)) out
                (d.carried found.0 may found.1) (apply_keeps json q (s.store found.0)) e
        ]
        | inr may_not ↦ d.shut may_not
      ]

  stop-Calm : (graph : Str) (s : Server Map) → Calm s (stop_network graph s)
  unfolding stop_network has_error
  stop-Calm graph s =
      if_elim (Calm s) (str_eq s.runtime.status.graph graph) _ _ (λ e. absurd (false_is_true e))
        (λ e. refl)
    where
      false_is_true : false ≡ true → ⊥
      false_is_true q = cc

  handle_trace-Calm :
      (secret : Option Str) (m : TraceMessage) (s : Server Map) → Calm s (handle_trace secret m s)
  unfolding handle_trace start_trace stop_trace clear_trace dump_trace has_error
  handle_trace-Calm secret (starts_trace graph size) s =
      on_trace-Calm read_write secret graph s _ _ (
        trace-Calm s (start_trace graph size s.runtime) _
          (KeepsOnError-if _ (str_eq graph s.runtime.graph) _ _
            (KeepsOnError-if _ s.runtime.tracing _ _ refl tt) refl)
          (λ u. refl))
  handle_trace-Calm secret (stops_trace graph) s = on_trace-Calm read_write secret graph s _ _ (
      trace-Calm s (stop_trace graph s.runtime) _
        (KeepsOnError-if _ (str_eq graph s.runtime.graph) _ _
          (KeepsOnError-if _ s.runtime.tracing _ _ tt refl) refl)
        (λ u. refl))
  handle_trace-Calm secret (clears_trace graph) s = on_trace-Calm read_write secret graph s _ _ (
      trace-Calm s (clear_trace graph s.runtime) _
        (KeepsOnError-if _ (str_eq graph s.runtime.graph) _ _ tt refl) (λ u. refl))
  handle_trace-Calm secret (dumps_trace graph) s = on_trace-Calm read_only secret graph s _ _ (
      trace-Calm s (dump_trace graph s.runtime) _
        (KeepsOnError-if _ (str_eq graph s.runtime.graph) _ _ tt refl) (λ u. refl))

  handle_network-Calm :
      (secret : Option Str) (m : NetworkMessage) (s : Server Map)
      → Calm s (handle_network secret m s)
  unfolding handle_network debug_mode set_debug_edges has_error handle_network_stop stop_network
  handle_network-Calm secret (selects_edges p) s = on_network-Calm read_write secret p.graph s _ (
      finish_network-Calm p.graph s (set_debug_edges p.graph p.edges s.runtime) _
        (KeepsOnError-if _ (contains_key p.graph s.runtime.graphs.graphs) _ _ tt refl) refl)
  handle_network-Calm secret (sets_debug graph enable) s =
      on_network-Calm read_write secret graph s _ (
        finish_network-Calm graph s (debug_mode graph enable s.runtime) _
          (KeepsOnError-if _ (contains_key graph s.runtime.graphs.graphs) _ _ tt refl) refl)
  handle_network-Calm secret (stops_network graph) s =
      on_network-Calm read_write secret graph s _ (stop-Calm graph s)
  handle_network-Calm secret (gets_status graph reads) s =
      on_network-Calm read_only secret graph s _ (λ e. refl)

  -- A message of the dispatch, which network:start is not, that is answered with an error, among its
  -- answers, has left the server as it was.
  pub handle_calm :
      (secret : Option Str) (m : Message Map) (c : Client) (s : Server Map)
      → has_error (handle json secret m c s).answers ≡ true
      → (handle json secret m c s).server ≡ s
  unfolding handle
  handle_calm secret (graph_message m) c s e =
      request-Calm secret s (request_of json m) _ (message_done json secret m s) e
  handle_calm secret (trace_message m) c s e = handle_trace-Calm secret m s e
  handle_calm secret (network_message m) c s e = handle_network-Calm secret m s e
  handle_calm secret gets_runtime c s e = refl
  handle_calm secret lists_components c s e = refl
  handle_calm secret packet_was_sent c s e = refl
