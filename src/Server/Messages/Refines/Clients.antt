-- ===== src/Server/Messages/Refines/Clients.antt =====
-- src/server.rs: a message of a client, `network:start` included, and what it leaves of the server when
-- it is answered with an error.
use flowd.Base.{◌≡◌, false, Bool, Option, List, Str, ◌⊎◌}
use flowd.Graph.Json.{SerdeJson}
use flowd.Runtime.Start.{Attempt, returns, fails, panics, ComponentPayload}
use flowd.Server.{Server, Handled}
use flowd.Server.Control.{Client}
use flowd.Server.Control.Started.{handle_network_start}
use flowd.Server.Messages.{Message, Outcome, handle, has_error}

-- A message that the dispatch answers at once, or the start of a network, which may also panic.
pub data ClientMessage (M : Type 0) : Type 0 where
  dispatched : Message M → ClientMessage M
  starts_network : Str → ClientMessage M

answered_to : {M : Type 0} → Client → Attempt (Handled M) → Attempt (Outcome M)
answered_to c (returns (s, sent)) = returns (record { server = s; client = c; answers = sent })
answered_to c (fails e) = fails e
answered_to c panics = panics

module _ (json : SerdeJson) where
  open json use {Map}

  -- `available` are the components that there are; `is_left_over`: a thread of an earlier start has not
  -- been joined.
  unfoldable pub handle_client :
      Option Str
      → List ComponentPayload
      → Bool
      → ClientMessage Map
      → Client
      → Server Map
      → Attempt (Outcome Map)
  unfolding handle handle_network_start answered_to
  handle_client secret available is_left_over (dispatched m) c s =
      returns (handle json secret m c s)
  handle_client secret available is_left_over (starts_network graph) c s =
      answered_to c (handle_network_start secret graph available is_left_over s)

  -- The server is as it was, but for its current graph if the message starts a network.
  abbrev pub Kept : ClientMessage Map → Server Map → Server Map → Type 0
  Kept m s s' =
      (s' ≡ s)
      ⊎ ((graph : Str) × (m ≡ starts_network graph)
          × (s' ≡ record s { runtime = record (s.runtime) { graph = graph } }))

  abbrev Refusing : ClientMessage Map → Server Map → Handled Map → Type 0
  Refusing m s out = (has_error out.1 ≡ false) ⊎ Kept m s out.0
