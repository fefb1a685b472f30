-- ===== src/Api/Sink.antt =====
-- component_api/src/lib.rs: `ProcessEdgeSink`, the output of a component: the producer of a ring with
-- the parties to wake after a push and the trace of what was pushed. A waker, the handle of a thread
-- and the receiver of the traces are reached through effects, which a sink lists in their order.
pub mod Brought
pub mod Laws
use flowd.Base.{
  ℕ, zero, suc, ◌+◌, ◌-◌, ◌/◌, ◌%◌, ◌<◌, ◌≡◌, refl, ap, ◌∙◌, sym, Bool, true, false, Option, none,
  some, List, [], ◌∷◌, ◌++◌, append-nil, append_assoc, if◌then◌else◌, ltb, length, length-append,
  take, arith, Str, bytes, Bool-cases, inl, inr,
}
use flowd.Api.Message.{
  FbpMessage, raw, text, value, control, trace_data, trace_connect, trace_disconnect, TraceEnd,
  TraceDataEvent,
}
use flowd.Api.Rings.{Rtrb}

-- `Display` of a `usize`, on fuel: a number has fewer digits than its value and one.
unfoldable pub digits : ℕ → ℕ → Str
digits zero n = []
digits (suc fuel) n =
    let front : Str = digits fuel (n / 10) in
    if ltb n 10 then (48 + n) ∷ [] else front ++ (48 + n % 10) ∷ []

-- What the trace says of a message.
unfoldable pub data_text : {V : Type 0} → FbpMessage V → Str
unfolding digits
data_text (raw b) = digits (suc (length b)) (length b) ++ bytes " bytes"
data_text (text t) = t
data_text (value v) = bytes "structured data"
data_text (control c) = bytes "control message"
data_text (trace_data t) = bytes "trace data"
data_text (trace_connect t) = bytes "trace connect"
data_text (trace_disconnect t) = bytes "trace disconnect"

pub data Effect (V W U : Type 0) : Type 0 where
  sends_trace : FbpMessage V → Effect V W U
  signals : W → Effect V W U
  unparks : U → Effect V W U

-- The address that a trace gives: the edge, the two ends, the graph.
pub record Address : Type 0 where
  pub edge_id : Option Str
  pub src_node : Option Str
  pub src_port : Option Str
  pub tgt_node : Option Str
  pub tgt_port : Option Str
  pub graph_name : Option Str

-- The `if let` on the fields of the address and the sender; then the message of the trace.
unfoldable pub trace_payload : {V : Type 0} → Bool → Address → FbpMessage V → Option (FbpMessage V)
unfolding data_text
trace_payload has_sender a m = elim a.edge_id [
  | none ↦ none
  | some id ↦ elim a.src_node [
    | none ↦ none
    | some src_node ↦ elim a.src_port [
      | none ↦ none
      | some src_port ↦ elim a.tgt_node [
        | none ↦ none
        | some tgt_node ↦ elim a.tgt_port [
          | none ↦ none
          | some tgt_port ↦ elim a.graph_name [
            | none ↦ none
            | some graph ↦
                if has_sender
                then some (
                    trace_data (record {
                      id = id;
                      src = record { node = src_node; port = src_port; index = none };
                      tgt = record { node = tgt_node; port = tgt_port; index = none };
                      graph = graph;
                      content = data_text m;
                    }))
                else none
          ]
        ]
      ]
    ]
  ]
]

module _ {V : Type 0} (W U : Type 0) (rings : Rtrb (FbpMessage V)) where
  open rings use {Producer, room, sent}

  -- `done` lists what a sink has brought about; `has_sender` says that there is a trace sender.
  pub record EdgeSink : Type 0 where
    pub sink : Producer
    pub wakeup : Option U
    pub proc_name : Option Str
    pub signal_ready : Option W
    pub tracing_enabled : Bool
    pub address : Address
    pub has_sender : Bool
    pub done : List (Effect V W U)

  unfoldable pub new_sink : Producer → Option U → Option Str → Option W → EdgeSink
  new_sink p wakeup name waker = record {
    sink = p;
    wakeup = wakeup;
    proc_name = name;
    signal_ready = waker;
    tracing_enabled = false;
    address = record {
      edge_id = none;
      src_node = none;
      src_port = none;
      tgt_node = none;
      tgt_port = none;
      graph_name = none;
    };
    has_sender = false;
    done = [];
  }

  unfoldable pub enable_tracing : Str → Str → Str → Str → Str → Str → EdgeSink → EdgeSink
  enable_tracing id src_node src_port tgt_node tgt_port graph s = record s {
    tracing_enabled = true;
    address = record {
      edge_id = some id;
      src_node = some src_node;
      src_port = some src_port;
      tgt_node = some tgt_node;
      tgt_port = some tgt_port;
      graph_name = some graph;
    };
    has_sender = true;
  }

  -- The trace of a message, if it is to be traced.
  unfoldable pub trace_message : EdgeSink → FbpMessage V → Option (FbpMessage V)
  unfolding trace_payload
  trace_message s m = if s.tracing_enabled then trace_payload s.has_sender s.address m else none

  -- What follows a push that was accepted: the trace, the scheduler's waker, the thread's handle.
  unfoldable pub effects : EdgeSink → FbpMessage V → List (Effect V W U)
  effects s m =
      (elim (trace_message s m) [ none ↦ [] | some t ↦ sends_trace t ∷ [] ])
      ++ (elim s.signal_ready [ none ↦ [] | some w ↦ signals w ∷ [] ])
      ++ (elim s.wakeup [ none ↦ [] | some u ↦ unparks u ∷ [] ])

  -- `ProcessEdgeSink::push`.
  unfoldable pub push_edge : FbpMessage V → EdgeSink → EdgeSink × Bool
  unfolding effects trace_message
  push_edge m s =
      let (p, accepted) = rings.push m s.sink in
      if accepted
      then (record s { sink = p; done = s.done ++ effects s m }, true)
      else (record s { sink = p }, false)
