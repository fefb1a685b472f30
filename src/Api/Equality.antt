-- ===== src/Api/Equality.antt =====
-- component_api/src/lib.rs: the derived `PartialEq` of `FbpMessage`. That of `FbpValue`, which compares
-- floating-point numbers, is a parameter.
use flowd.Base.{Bool, true, false, ◌&&◌, Option, none, some, str_eq}
use flowd.Api.Message.{
  FbpMessage, raw, text, value, control, trace_data, trace_connect, trace_disconnect, ControlEvent,
  begin_group, end_group, begin_bracket, end_bracket, disconnect, drain, discontinuity, custom,
  TraceEnd, TraceEvent, TraceDataEvent,
}

-- Of `Option`, with the equality of its values.
unfoldable pub maybe_eq {ℓ} : {A : Type ℓ} → (A → A → Bool) → Option A → Option A → Bool
maybe_eq eq none none = true
maybe_eq eq (some a) (some b) = eq a b
maybe_eq eq _ _ = false

unfoldable pub end_eq : TraceEnd → TraceEnd → Bool
unfolding maybe_eq
end_eq a b = str_eq a.node b.node && str_eq a.port b.port && maybe_eq str_eq a.index b.index

unfoldable pub event_eq : TraceEvent → TraceEvent → Bool
unfolding end_eq
event_eq a b =
    str_eq a.id b.id && end_eq a.src b.src && end_eq a.tgt b.tgt && str_eq a.graph b.graph

unfoldable pub data_event_eq : TraceDataEvent → TraceDataEvent → Bool
unfolding end_eq
data_event_eq a b =
    str_eq a.id b.id
    && end_eq a.src b.src
    && end_eq a.tgt b.tgt
    && str_eq a.graph b.graph
    && str_eq a.content b.content

module _ {V : Type 0} (value_eq : V → V → Bool) where
  unfoldable pub control_eq : ControlEvent V → ControlEvent V → Bool
  unfolding maybe_eq
  control_eq (begin_group s) (begin_group t) = str_eq s t
  control_eq (end_group s) (end_group t) = str_eq s t
  control_eq (begin_bracket s) (begin_bracket t) = str_eq s t
  control_eq (end_bracket s) (end_bracket t) = str_eq s t
  control_eq disconnect disconnect = true
  control_eq drain drain = true
  control_eq discontinuity discontinuity = true
  control_eq (custom s v) (custom t w) = str_eq s t && maybe_eq value_eq v w
  control_eq _ _ = false

  unfoldable pub message_eq : FbpMessage V → FbpMessage V → Bool
  unfolding control_eq event_eq data_event_eq
  message_eq (raw a) (raw b) = str_eq a b
  message_eq (text s) (text t) = str_eq s t
  message_eq (value v) (value w) = value_eq v w
  message_eq (control c) (control d) = control_eq c d
  message_eq (trace_data a) (trace_data b) = data_event_eq a b
  message_eq (trace_connect a) (trace_connect b) = event_eq a b
  message_eq (trace_disconnect a) (trace_disconnect b) = event_eq a b
  message_eq _ _ = false
