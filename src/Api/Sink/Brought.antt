-- ===== src/Api/Sink/Brought.antt =====
-- component_api/src/lib.rs: what an accepted push of `ProcessEdgeSink` brings about, apart from how the
-- code computes it: by whom the message is traced, and who is woken.
use flowd.Base.{
  ◌≡◌, refl, Bool, true, false, Option, none, some, List, [], ◌∷◌, ◌++◌, Str, inl, inr, ◌⊎◌,
}
use flowd.Api.Message.{FbpMessage, trace_data}
use flowd.Api.Rings.{Rtrb}
use flowd.Api.Sink.{
  EdgeSink, Address, Effect, sends_trace, signals, unparks, effects, trace_message, trace_payload,
  data_text,
}

-- A part of the address of an edge is not known.
abbrev pub LacksPart : Address → Type 0
LacksPart a =
    (a.edge_id ≡ none)
    ⊎ ((a.src_node ≡ none)
        ⊎ ((a.src_port ≡ none)
            ⊎ ((a.tgt_node ≡ none) ⊎ ((a.tgt_port ≡ none) ⊎ (a.graph_name ≡ none)))))

abbrev address_at :
    Option Str → Option Str → Option Str → Option Str → Option Str → Option Str → Address
address_at i sn sp tn tp g = record {
  edge_id = i;
  src_node = sn;
  src_port = sp;
  tgt_node = tn;
  tgt_port = tp;
  graph_name = g;
}

module _ (V W U : Type 0) where
  -- A message is traced, by one trace with the whole address of the edge and the summary of the message,
  -- if tracing is on, there is a sender, and the whole address is known. Else it is not.
  pub data IsTraced (tracing has_sender : Bool) (a : Address) (m : FbpMessage V)
      : List (Effect V W U) → Type 0 where
    traced :
        (id src_node src_port tgt_node tgt_port graph : Str)
        → tracing ≡ true
        → has_sender ≡ true
        → a ≡ record {
          edge_id = some id;
          src_node = some src_node;
          src_port = some src_port;
          tgt_node = some tgt_node;
          tgt_port = some tgt_port;
          graph_name = some graph;
        }
        → IsTraced tracing has_sender a m (
            sends_trace (
              trace_data (record {
                id = id;
                src = record { node = src_node; port = src_port; index = none };
                tgt = record { node = tgt_node; port = tgt_port; index = none };
                graph = graph;
                content = data_text m;
              }))
            ∷ [])
    off : tracing ≡ false → IsTraced tracing has_sender a m []
    unheard : has_sender ≡ false → IsTraced tracing has_sender a m []
    unaddressed : LacksPart a → IsTraced tracing has_sender a m []

  -- One that is to be woken is woken once.
  pub data IsWoken {A : Type 0} (wakes : A → Effect V W U) (o : Option A)
      : List (Effect V W U) → Type 0 where
    woken : (a : A) → o ≡ some a → IsWoken wakes o (wakes a ∷ [])
    nobody : o ≡ none → IsWoken wakes o []

  abbrev sending : Option (FbpMessage V) → List (Effect V W U)
  sending o = elim o [ none ↦ [] | some t ↦ sends_trace t ∷ [] ]

  payload-IsTraced :
      (has_sender : Bool) (a : Address) (m : FbpMessage V)
      → IsTraced true has_sender a m (sending (trace_payload has_sender a m))
  unfolding trace_payload
  payload-IsTraced has_sender a m =
      by_parts has_sender a.edge_id a.src_node a.src_port a.tgt_node a.tgt_port a.graph_name
    where
      by_parts :
          (h : Bool) (i sn sp tn tp g : Option Str)
          → IsTraced true h
              (address_at i sn sp tn tp g)
              m
              (sending (trace_payload h (address_at i sn sp tn tp g) m))
      by_parts h none sn sp tn tp g = unaddressed (inl refl)
      by_parts h (some i) none sp tn tp g = unaddressed (inr (inl refl))
      by_parts h (some i) (some sn) none tn tp g = unaddressed (inr (inr (inl refl)))
      by_parts h (some i) (some sn) (some sp) none tp g = unaddressed (inr (inr (inr (inl refl))))
      by_parts h (some i) (some sn) (some sp) (some tn) none g =
          unaddressed (inr (inr (inr (inr (inl refl)))))
      by_parts h (some i) (some sn) (some sp) (some tn) (some tp) none =
          unaddressed (inr (inr (inr (inr (inr refl)))))
      by_parts true (some i) (some sn) (some sp) (some tn) (some tp) (some g) =
          traced i sn sp tn tp g refl refl refl
      by_parts false (some i) (some sn) (some sp) (some tn) (some tp) (some g) = unheard refl

  waking-IsWoken :
      {A : Type 0} (wakes : A → Effect V W U) (o : Option A)
      → IsWoken wakes o (elim o [ none ↦ [] | some a ↦ wakes a ∷ [] ])
  waking-IsWoken wakes none = nobody refl
  waking-IsWoken wakes (some a) = woken a refl

module _ {V : Type 0} (W U : Type 0) (rings : Rtrb (FbpMessage V)) where
  -- What one message brings about: its trace, then the scheduler's signal, then the waking of the thread.
  pub record BroughtBy (s : EdgeSink W U rings) (m : FbpMessage V) (es : List (Effect V W U))
      : Type 0 where
    pub trace : List (Effect V W U)
    pub signal : List (Effect V W U)
    pub unpark : List (Effect V W U)
    pub in_turn : es ≡ (trace ++ signal) ++ unpark
    pub trace_first : IsTraced V W U s.tracing_enabled s.has_sender s.address m trace
    pub then_signal : IsWoken V W U signals s.signal_ready signal
    pub then_unpark : IsWoken V W U unparks s.wakeup unpark

  -- What a list of messages brings about, each in its turn.
  pub data AllBrought (s : EdgeSink W U rings)
      : List (FbpMessage V) → List (Effect V W U) → Type 0 where
    nothing : AllBrought s [] []
    each :
        {m : FbpMessage V} {ms : List (FbpMessage V)} {es rest : List (Effect V W U)}
        → BroughtBy s m es
        → AllBrought s ms rest
        → AllBrought s (m ∷ ms) (es ++ rest)

  message-IsTraced :
      (tracing : Bool) (s : EdgeSink W U rings) (m : FbpMessage V)
      → s.tracing_enabled ≡ tracing
      → IsTraced V W U tracing s.has_sender s.address m
          (sending V W U (trace_message W U rings s m))
  unfolding trace_message
  message-IsTraced true s m e = rw e (payload-IsTraced V W U s.has_sender s.address m)
  message-IsTraced false s m e = rw e (off refl)

  pub effects-BroughtBy :
      (s : EdgeSink W U rings) (m : FbpMessage V) → BroughtBy s m (effects W U rings s m)
  unfolding effects
  effects-BroughtBy s m = record {
    trace = _;
    signal = _;
    unpark = _;
    in_turn = refl;
    trace_first = message-IsTraced s.tracing_enabled s m refl;
    then_signal = waking-IsWoken V W U signals s.signal_ready;
    then_unpark = waking-IsWoken V W U unparks s.wakeup;
  }
