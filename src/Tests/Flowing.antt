-- ===== src/Tests/Flowing.antt =====
-- The theorems on edges that are lists: component_api/src/lib.rs and components/muxer/src/muxer.rs.
use flowd.Base.{none, some, ◌≤◌, ℕ, ◌≡◌, refl, false, [], ◌∷◌, bytes, arith}
use flowd.Api.Message.{FbpMessage, text}
use flowd.Api.Rings.{Rtrb, Ring, Inlet, list_rtrb}
use flowd.Api.Sink.{EdgeSink}
use flowd.Api.Sink.Laws.{Delivered, push_all, push_all-Delivered}
use flowd.Components.Muxer.{Muxer, mux_port, process}
use flowd.Components.Muxer.Budget.{units}
use flowd.Components.Demux.{Outputs, demux_loop}
use flowd.Components.Demux.Turns.{Output, to_a, to_b, to_c, port, Dealt, demux_loop-Dealt}
use flowd.Components.Muxer.Delivery.{Moved, mux_port-Moved}

abbrev rings : Rtrb (FbpMessage ℕ)
rings = list_rtrb (FbpMessage ℕ)

abbrev first : FbpMessage ℕ
first = text (bytes "1")

abbrev next : FbpMessage ℕ
next = text (bytes "2")

abbrev inlet : Inlet (FbpMessage ℕ)
inlet = record { waiting = first ∷ next ∷ []; abandoned = false }

abbrev wide : Ring (FbpMessage ℕ)
wide = record { out = []; free = 5 }

mux_port-Moved_example : Moved rings 4 inlet wide 0 (mux_port rings 4 inlet wide 0)
mux_port-Moved_example = mux_port-Moved rings 4 (first ∷ next ∷ []) inlet wide 0 refl (omega arith)

-- An edge with a waker and room for one.
abbrev narrow : EdgeSink ℕ ℕ rings
narrow = record {
  sink = record { out = []; free = 1 };
  wakeup = none;
  proc_name = none;
  signal_ready = some 7;
  tracing_enabled = false;
  address = record {
    edge_id = none;
    src_node = none;
    src_port = none;
    tgt_node = none;
    tgt_port = none;
    graph_name = none;
  };
  has_sender = false;
  done = [];
}

push_all-Delivered_example :
    Delivered ℕ ℕ rings 1 (first ∷ next ∷ []) narrow (push_all ℕ ℕ rings (first ∷ next ∷ []) narrow)
push_all-Delivered_example = push_all-Delivered ℕ ℕ rings (first ∷ next ∷ []) narrow

abbrev outputs : Outputs rings
outputs = record { out_a = wide; out_b = wide; out_c = wide }

room_for_two : (q : Output) → 2 ≤ rings.room (port rings q outputs)
unfolding port
room_for_two to_a = omega arith
room_for_two to_b = omega arith
room_for_two to_c = omega arith

demux_loop-Dealt_example : Dealt rings 2 inlet outputs 1 0 (demux_loop rings 2 inlet outputs 1 0)
demux_loop-Dealt_example = demux_loop-Dealt rings 2 inlet outputs 1 0 room_for_two (ground arith)

abbrev muxer : Muxer rings
muxer = record { inn = inlet ∷ []; out = wide; signals = record { incoming = []; outgoing = [] } }

two_sent : units (process rings muxer 5).2 ≡ some 2
unfolding process
two_sent = refl
