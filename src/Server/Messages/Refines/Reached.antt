-- ===== src/Server/Messages/Refines/Reached.antt =====
-- src/server.rs: the servers that a sequence of messages reaches.
use flowd.Base.{
  ℕ, ◌≡◌, refl, sym, Option, none, some, Str, inl, inr, Bool-cases, Option-cases, ◌==◌, if_elim,
  subst, str_eq, Fallible, ok, err,
}
use flowd.Graph.{Graph}
use flowd.Graph.Json.{SerdeJson}
use flowd.Graph.Integrity.{IsClosed}
use flowd.Graph.Requests.{Request, clears}
use flowd.Graph.Requests.Closed.{IsAdmissible, apply-IsClosed}
use flowd.Runtime.Secrets.{AccessLevel, read_only, read_write}
use flowd.Runtime.Commands.{Runtime, debug_mode, set_debug_edges}
use flowd.Server.{Server, Handled, put_graph, allows, get_graph_by_name}
use flowd.Server.Payloads.{Answer}
use flowd.Server.Control.{
  Client, on_trace, finish_trace, on_network, finish_network, stop_network, handle_network_stop,
}
use flowd.Server.Messages.{
  Message, graph_message, trace_message, network_message, gets_runtime, lists_components,
  packet_was_sent, TraceMessage, starts_trace, stops_trace, clears_trace, dumps_trace,
  NetworkMessage, selects_edges, sets_debug, stops_network, gets_status, handle, handle_trace,
  handle_network,
}
use flowd.Server.Messages.Refines.{request_of, DoneFor, message_done}

module _ {M : Type 0} where
  store-finish_trace :
      {A : Type 0} (r : Fallible (Runtime ℕ) A) (answer : A → Answer M) (s : Server M)
      → (finish_trace r answer s).0.store ≡ s.store
  unfolding finish_trace
  store-finish_trace (r, ok a) answer s = refl
  store-finish_trace (r, err e) answer s = refl

  store-on_trace :
      {A : Type 0} (level : AccessLevel) (secret : Option Str) (graph : Str)
      (r : Fallible (Runtime ℕ) A) (answer : A → Answer M) (s : Server M)
      → (on_trace level secret graph r answer s).0.store ≡ s.store
  unfolding on_trace
  store-on_trace level secret graph r answer s =
      if_elim (λ (out : Handled M). out.0.store ≡ s.store) (allows level secret graph s.secrets) _ _
        (store-finish_trace r answer s) refl

  store-handle_trace :
      (secret : Option Str) (m : TraceMessage) (s : Server M)
      → (handle_trace secret m s).0.store ≡ s.store
  unfolding handle_trace
  store-handle_trace secret (starts_trace graph size) s =
      store-on_trace read_write secret graph _ _ s
  store-handle_trace secret (stops_trace graph) s = store-on_trace read_write secret graph _ _ s
  store-handle_trace secret (clears_trace graph) s = store-on_trace read_write secret graph _ _ s
  store-handle_trace secret (dumps_trace graph) s = store-on_trace read_only secret graph _ _ s

  store-finish_network :
      {A : Type 0} (graph : Str) (r : Fallible (Runtime ℕ) A) (answer : Answer M) (s : Server M)
      → (finish_network graph r answer s).0.store ≡ s.store
  unfolding finish_network
  store-finish_network graph (r, ok a) answer s = refl
  store-finish_network graph (r, err e) answer s = refl

  store-on_network :
      (level : AccessLevel) (secret : Option Str) (graph : Str) (handled : Handled M) (s : Server M)
      → handled.0.store ≡ s.store
      → (on_network level secret graph handled s).0.store ≡ s.store
  unfolding on_network
  store-on_network level secret graph handled s same =
      elim (Bool-cases (allows level secret graph s.secrets)) [
        | inl may ↦ elim (Option-cases (get_graph_by_name graph s)) [
          | inl lost ↦ rw (may, lost) refl
          | inr found ↦ rw (may, found.1) same
        ]
        | inr may_not ↦ rw may_not refl
      ]

  store-stop_network : (graph : Str) (s : Server M) → (stop_network graph s).0.store ≡ s.store
  unfolding stop_network
  store-stop_network graph s =
      if_elim (λ (out : Handled M). out.0.store ≡ s.store) (str_eq s.runtime.status.graph graph) _ _
        refl refl

  store-handle_network :
      (secret : Option Str) (m : NetworkMessage) (s : Server M)
      → (handle_network secret m s).0.store ≡ s.store
  unfolding handle_network handle_network_stop
  store-handle_network secret (selects_edges p) s =
      store-on_network read_write secret p.graph _ s
        (store-finish_network p.graph (set_debug_edges p.graph p.edges s.runtime) _ s)
  store-handle_network secret (sets_debug graph enable) s =
      store-on_network read_write secret graph _ s
        (store-finish_network graph (debug_mode graph enable s.runtime) _ s)
  store-handle_network secret (stops_network graph) s =
      store-on_network read_write secret graph _ s (store-stop_network graph s)
  store-handle_network secret (gets_status graph reads) s =
      store-on_network read_only secret graph _ s refl

  -- In each graph of the server, each edge joins nodes of the graph and each initial packet goes to one.
  pub record AllClosed (store : ℕ → Graph M) : Type 0 where
    pub closed : (h : ℕ) → IsClosed (store h)

  put_graph-AllClosed :
      (h : ℕ) (g : Graph M) (store : ℕ → Graph M)
      → IsClosed g
      → AllClosed store
      → AllClosed (put_graph h g store)
  put_graph-AllClosed h g store v vs = record {
    closed = λ i. if_elim IsClosed (i == h) g (store i) v (vs.closed i);
  }

module _ (json : SerdeJson) where
  open json use {Map}

  abbrev IsAimed : Option (Str × Request Map) → Server Map → Type 0
  IsAimed none s = Unit
  IsAimed (some (name, q)) s =
      (h : ℕ) → get_graph_by_name name s ≡ some h → IsAdmissible json q (s.store h)

  -- The ends of an edge or packet that the message adds are nodes of the graph that it names.
  abbrev pub IsWellAimed : Message Map → Server Map → Type 0
  IsWellAimed (graph_message m) s = IsAimed (request_of json m) s
  IsWellAimed _ s = Unit

  request-AllClosed :
      (secret : Option Str) (s : Server Map) (o : Option (Str × Request Map)) (out : Handled Map)
      → IsAimed o s
      → DoneFor json secret s o out
      → AllClosed s.store
      → AllClosed out.0.store
  request-AllClosed secret s none out aimed d vs = elim d.store [
    | inl same ↦ subst AllClosed (sym same) vs
    | inr (p, e) ↦ subst AllClosed (sym e) (
        put_graph-AllClosed s.graph _ s.store
          (apply-IsClosed json (clears p.name p.description p.icon s.runtime.status.running)
            (s.store s.graph) tt (vs.closed s.graph))
          vs)
  ]
  request-AllClosed secret s (some (name, q)) out aimed d vs =
      elim (Bool-cases (allows read_write secret name s.secrets)) [
        | inl may ↦ elim (Option-cases (get_graph_by_name name s)) [
          | inl lost ↦ subst (λ t. AllClosed t.store) (sym (d.missed may lost)) vs
          | inr (h, found) ↦
              subst (λ t. AllClosed t.store) (sym (d.carried h may found).server)
                (put_graph-AllClosed h _ s.store
                  (apply-IsClosed json q (s.store h) (aimed h found) (vs.closed h)) vs)
        ]
        | inr may_not ↦ subst (λ t. AllClosed t.store) (sym (d.shut may_not)) vs
      ]

  handle-AllClosed :
      (secret : Option Str) (m : Message Map) (c : Client) (s : Server Map)
      → IsWellAimed m s
      → AllClosed s.store
      → AllClosed (handle json secret m c s).server.store
  unfolding handle
  handle-AllClosed secret (graph_message m) c s a vs =
      request-AllClosed secret s (request_of json m) _ a (message_done json secret m s) vs
  handle-AllClosed secret (trace_message m) c s a vs =
      subst AllClosed (sym (store-handle_trace secret m s)) vs
  handle-AllClosed secret (network_message m) c s a vs =
      subst AllClosed (sym (store-handle_network secret m s)) vs
  handle-AllClosed secret gets_runtime c s a vs = vs
  handle-AllClosed secret lists_components c s a vs = vs
  handle-AllClosed secret packet_was_sent c s a vs = vs

  -- The servers that messages lead to, from clients with any secrets.
  pub data Reaches (s : Server Map) : Server Map → Type 0 where
    starts : Reaches s s
    handles :
        (secret : Option Str) (m : Message Map) (c : Client) (t : Server Map)
        → Reaches s t
        → IsWellAimed m t
        → Reaches s (handle json secret m c t).server

  -- After any sequence of messages from any clients, accepted or refused, in each graph each edge joins
  -- nodes of that graph and each initial packet goes to one, if that was so at the start and each
  -- message that adds an edge or a packet gives nodes of the graph that it names.
  pub reached-AllClosed : (s t : Server Map) → Reaches s t → AllClosed s.store → AllClosed t.store
  reached-AllClosed s _ starts vs = vs
  reached-AllClosed s _ (handles secret m c t r a) vs =
      handle-AllClosed secret m c t a (reached-AllClosed s t r vs)
