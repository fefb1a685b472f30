-- ===== src/Tests/Starting.antt =====
-- src/runtime.rs: the start of a graph of two nodes, and of the graph after one was renamed.
use flowd.Base.{
  ◌≡◌, refl, [], ◌∷◌, bytes, str_eq, get, insert, remove, contains, arith, ℕ, ◌*◌, ◌==◌,
  if◌then◌else◌, Option, some, none, HashMap, ok,
}
use flowd.Graph.{Graph}
use flowd.Graph.Edges.{initial_from_payload}
use flowd.Graph.Nodes.{rename_node}
use flowd.Runtime.Start.{returns, fails, panics}
use flowd.Runtime.Start.Checks.{has_payload}
use flowd.Runtime.Start.Channels.{Channel, Wires, iips_per_target}
use flowd.Runtime.Start.Processes.{start_graph}
use flowd.Runtime.Start.Attempts.{NoPanic}
use flowd.Runtime.Start.Panics.{IsStartable, start_graph-NoPanic}
use flowd.Runtime.Start.Conserved.{held-connect}
use flowd.Runtime.Start.Occurrences.{payloads, occurrences, held}
use flowd.Runtime.Start.Wiring.{connect}
use flowd.Runtime.Packets.{PacketPayload, packet}
use flowd.Runtime.Packets.Settled.{Settled, packet-Settled}
use flowd.Runtime.Secrets.{validate_secret}
use flowd.Tests.Editing.{Value, wire, inn, conf, plain, main, reader, small, small-IsClosed}

small-IsStartable : IsStartable small
unfolding get str_eq iips_per_target has_payload contains
small-IsStartable = record {
  closed = small-IsClosed;
  sourceless = (λ h. absurd (ground (arith, h)), tt);
  few = omega arith;
  inports = (refl, tt);
  outports = tt;
  in_is_free = refl;
  out_is_free = refl;
  distinct = (refl, (refl, tt));
}

start_graph-NoPanic_example : NoPanic (start_graph [] small)
start_graph-NoPanic_example = start_graph-NoPanic [] small small-IsStartable

-- The exported port is of a node that is no more.
renamed_panics : start_graph [] (rename_node main reader (bytes "source") small).0 ≡ panics
unfolding start_graph rename_node get str_eq insert remove
renamed_panics = refl

-- A packet for an inport with an edge and two for one without.
abbrev stocked : Graph (HashMap Value)
stocked = record small {
  edges =
      wire
      ∷ initial_from_payload (bytes "a") inn plain
      ∷ initial_from_payload (bytes "b") conf plain
      ∷ initial_from_payload (bytes "c") conf plain
      ∷ [];
}

abbrev wires : Wires
unfolding connect initial_from_payload get insert str_eq contains
wires = elim (connect stocked) [
  | returns w ↦ w
  | fails e ↦ record { channels = []; ports_all = [] }
  | panics ↦ record { channels = []; ports_all = [] }
]

connects : connect stocked ≡ returns wires
unfolding connect initial_from_payload get insert str_eq contains
connects = refl

held-connect_example :
    held (bytes "b") wires.channels ≡ occurrences (bytes "b") (payloads stocked.edges)
held-connect_example = held-connect (bytes "b") stocked wires connects

-- The first attempt finds the port full, the second finds room.
abbrev busy_inports : ℕ → Option (HashMap Channel)
busy_inports i =
    some
      ((bytes "in", record { capacity = 1; contents = if i == 0 then bytes "x" ∷ [] else [] }) ∷ [])

abbrev clock : ℕ → ℕ
clock i = i * 1500000000

abbrev sent : PacketPayload
sent = record { port = bytes "in"; graph = main; payload = some (bytes "y"); secret = none }

may_send : validate_secret none main [] ≡ ok tt
unfolding validate_secret
may_send = refl

packet-Settled_example :
    Settled busy_inports clock (bytes "in") (bytes "y") 0 2 (packet busy_inports clock 3 sent [])
packet-Settled_example =
    packet-Settled busy_inports clock 2 sent (bytes "y") [] may_send refl (omega arith)
