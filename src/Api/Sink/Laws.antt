-- ===== src/Api/Sink/Laws.antt =====
-- component_api/src/lib.rs: `ProcessEdgeSink` meets what components rely on, and what it brings about.
use flowd.Base.{
  ℕ, zero, suc, ◌-◌, ◌<◌, ◌≡◌, refl, ap, ◌∙◌, sym, true, false, none, some, List, [], ◌∷◌, ◌++◌,
  append-nil, append_assoc, if◌then◌else◌, ltb, take, arith, Str, Bool-cases, inl, inr,
}
use flowd.Api.Message.{FbpMessage, trace_data}
use flowd.Api.Rings.{Rtrb}
use flowd.Api.Sink.Brought.{AllBrought, nothing, each, effects-BroughtBy}
use flowd.Api.Sink.{
  EdgeSink, Effect, sends_trace, signals, push_edge, effects, trace_message, enable_tracing,
  data_text,
}

module _ {V : Type 0} (W U : Type 0) (rings : Rtrb (FbpMessage V)) where
  open rings use {Producer, Consumer, push, room, sent, push_accepted, sent-push, room-push}

  pub push_edge_accepted :
      (m : FbpMessage V) (s : EdgeSink W U rings)
      → (push_edge W U rings m s).1 ≡ ltb 0 (room s.sink)
  unfolding push_edge
  push_edge_accepted m s = ground (arith, push_accepted m s.sink)

  push_edge_fits :
      (m : FbpMessage V) (s : EdgeSink W U rings)
      → 0 < room s.sink
      → (push_edge W U rings m s).0
        ≡ record s { sink = (push m s.sink).0; done = s.done ++ effects W U rings s m }
  unfolding push_edge
  push_edge_fits m s h =
      let taken : (push m s.sink).1 ≡ true = ground (arith, push_accepted m s.sink) in rw taken refl

  push_edge_full :
      (m : FbpMessage V) (s : EdgeSink W U rings)
      → room s.sink ≡ 0
      → (push_edge W U rings m s).0 ≡ record s { sink = (push m s.sink).0 }
  unfolding push_edge
  push_edge_full m s h =
      let refused : (push m s.sink).1 ≡ false = push_accepted m s.sink ∙ ap (ltb 0) h in
      rw refused refl

  sink-push_edge :
      (m : FbpMessage V) (s : EdgeSink W U rings)
      → (push_edge W U rings m s).0.sink ≡ (push m s.sink).0
  unfolding push_edge
  sink-push_edge m s = elim (Bool-cases (push m s.sink).1) [
    | inl taken ↦ rw taken refl
    | inr refused ↦ rw refused refl
  ]

  pub sent-push_edge :
      (m : FbpMessage V) (s : EdgeSink W U rings)
      → sent (push_edge W U rings m s).0.sink
        ≡ (if ltb 0 (room s.sink) then sent s.sink ++ m ∷ [] else sent s.sink)
  sent-push_edge m s = ap sent (sink-push_edge m s) ∙ sent-push m s.sink

  pub room-push_edge :
      (m : FbpMessage V) (s : EdgeSink W U rings)
      → room (push_edge W U rings m s).0.sink ≡ room s.sink - 1
  room-push_edge m s = ap room (sink-push_edge m s) ∙ room-push m s.sink

  -- The sinks in place of the producers: what holds of a component over rings holds over sinks.
  abbrev pub sink_rtrb : Rtrb (FbpMessage V)
  sink_rtrb = record rings {
    Producer = EdgeSink W U rings;
    push = push_edge W U rings;
    sent = λ s. sent s.sink;
    room = λ s. room s.sink;
    push_accepted = push_edge_accepted;
    sent-push = sent-push_edge;
    room-push = room-push_edge;
  }

  -- All messages of a list are pushed; what is refused is lost.
  unfoldable pub push_all : List (FbpMessage V) → EdgeSink W U rings → EdgeSink W U rings
  push_all [] s = s
  push_all (m ∷ ms) s = push_all ms (push_edge W U rings m s).0

  -- What a list of messages brings about if all are accepted.
  unfoldable pub all_effects : EdgeSink W U rings → List (FbpMessage V) → List (Effect V W U)
  all_effects s [] = []
  all_effects s (m ∷ ms) = effects W U rings s m ++ all_effects s ms

  all_effects_same :
      (p : Producer) (done : List (Effect V W U)) (s : EdgeSink W U rings)
      (ms : List (FbpMessage V))
      → all_effects (record s { sink = p; done = done }) ms ≡ all_effects s ms
  unfolding all_effects effects trace_message
  all_effects_same p done s [] = refl
  all_effects_same p done s (m ∷ ms) =
      ap (λ q. effects W U rings s m ++ q) (all_effects_same p done s ms)

  -- The state after messages of which the first `r` are accepted.
  pub record Delivered (r : ℕ) (ms : List (FbpMessage V)) (s s' : EdgeSink W U rings) : Type 0 where
    pub in_order : sent s'.sink ≡ sent s.sink ++ take r ms
    pub news : List (Effect V W U)
    pub brought : s'.done ≡ s.done ++ news
    pub by_each : AllBrought W U rings s (take r ms) news

  -- The same, in the code's words.
  record Sent (r : ℕ) (ms : List (FbpMessage V)) (s s' : EdgeSink W U rings) : Type 0 where
    in_order : sent s'.sink ≡ sent s.sink ++ take r ms
    brought : s'.done ≡ s.done ++ all_effects s (take r ms)

  all_effects-AllBrought :
      (s : EdgeSink W U rings) (ms : List (FbpMessage V))
      → AllBrought W U rings s ms (all_effects s ms)
  unfolding all_effects
  all_effects-AllBrought s [] = nothing
  all_effects-AllBrought s (m ∷ ms) =
      each (effects-BroughtBy W U rings s m) (all_effects-AllBrought s ms)

  push_none :
      (ms : List (FbpMessage V)) (s : EdgeSink W U rings)
      → room s.sink ≡ 0
      → Sent 0 ms s (push_all ms s)
  unfolding push_all all_effects
  push_none [] s h = record {
    in_order = sym (append-nil (sent s.sink));
    brought = sym (append-nil s.done);
  }
  push_none (m ∷ ms) s h =
      let next : EdgeSink W U rings = record s { sink = (push m s.sink).0 } in
      let still : room next.sink ≡ 0 = omega (arith, room-push m s.sink, h) in
      let d = push_none ms next still in
      let same : sent (push m s.sink).0 ≡ sent s.sink = ground (arith, sent-push m s.sink, h) in
      rw (push_edge_full m s h)
        (record { in_order = d.in_order ∙ ap (λ q. q ++ []) same; brought = d.brought })

  push_some :
      (r : ℕ) (ms : List (FbpMessage V)) (s : EdgeSink W U rings)
      → room s.sink ≡ r
      → Sent r ms s (push_all ms s)
  unfolding push_all all_effects
  push_some zero ms s h = push_none ms s h
  push_some (suc r) [] s h = record {
    in_order = sym (append-nil (sent s.sink));
    brought = sym (append-nil s.done);
  }
  push_some (suc r) (m ∷ ms) s h =
      let e : List (Effect V W U) = effects W U rings s m in
      let next : EdgeSink W U rings = record s { sink = (push m s.sink).0; done = s.done ++ e } in
      let left : room next.sink ≡ r = omega (arith, room-push m s.sink, h) in
      let d = push_some r ms next left in
      let more : sent (push m s.sink).0 ≡ sent s.sink ++ m ∷ [] =
        ground (arith, sent-push m s.sink, h) in
      rw (push_edge_fits m s (omega arith)) (record {
        in_order =
            d.in_order
            ∙ ap (λ q. q ++ take r ms) more
            ∙ append_assoc (sent s.sink) (m ∷ []) (take r ms);
        brought =
            d.brought
            ∙ ap (λ q. (s.done ++ e) ++ q)
                (all_effects_same (push m s.sink).0 (s.done ++ e) s (take r ms))
            ∙ append_assoc s.done e (all_effects s (take r ms));
      })

  -- Of the messages that are pushed, the first that there is room for are sent, in their order. For each
  -- of these, in turn, and for no other: one trace is sent, with the whole address of the edge and the
  -- summary of the message, if tracing is on, there is a sender and the whole address is known; then the
  -- scheduler is signalled, if there is a waker; then the waiting thread is woken, if there is one.
  pub push_all-Delivered :
      (ms : List (FbpMessage V)) (s : EdgeSink W U rings)
      → Delivered (room s.sink) ms s (push_all ms s)
  push_all-Delivered ms s =
      let d : Sent (room s.sink) ms s (push_all ms s) = push_some (room s.sink) ms s refl in
      record {
        in_order = d.in_order;
        news = all_effects s (take (room s.sink) ms);
        brought = d.brought;
        by_each = all_effects-AllBrought s (take (room s.sink) ms);
      }

  -- With tracing enabled, a message that is accepted brings about one trace, with the address that was
  -- given and the text of the message, before the scheduler is woken.
  effects-enable_tracing :
      (id src_node src_port tgt_node tgt_port graph : Str) (w : W) (m : FbpMessage V)
      (s : EdgeSink W U rings)
      → s.signal_ready ≡ some w
      → s.wakeup ≡ none
      → effects W U rings
          (enable_tracing W U rings id src_node src_port tgt_node tgt_port graph s)
          m
        ≡ sends_trace (
            trace_data (record {
              id = id;
              src = record { node = src_node; port = src_port; index = none };
              tgt = record { node = tgt_node; port = tgt_port; index = none };
              graph = graph;
              content = data_text m;
            }))
          ∷ signals w
          ∷ []
  unfolding effects enable_tracing trace_message
  effects-enable_tracing id src_node src_port tgt_node tgt_port graph w m s waker no_thread =
      rw waker (rw no_thread refl)
