-- ===== src/Api/Message.antt =====
-- component_api/src/lib.rs: `FbpMessage`. Structured values hold floating-point numbers, so their type
-- is a parameter. `Arc` is sharing of values that do not change.
use flowd.Base.{
  ℕ, zero, suc, Bool, true, false, ◌&&◌, Option, none, some, List, [], ◌∷◌, if◌then◌else◌, leb, ltb,
  ◌==◌, Str,
}

pub data ControlEvent (V : Type 0) : Type 0 where
  begin_group end_group begin_bracket end_bracket : Str → ControlEvent V
  disconnect drain discontinuity : ControlEvent V
  custom : Str → Option V → ControlEvent V

-- `GraphNodeSpecNetwork` of the component API.
pub record TraceEnd : Type 0 where
  pub node : Str
  pub port : Str
  pub index : Option Str

-- `TraceConnectEventPayload` and `TraceDisconnectEventPayload`.
pub record TraceEvent : Type 0 where
  pub id : Str
  pub src : TraceEnd
  pub tgt : TraceEnd
  pub graph : Str

pub record TraceDataEvent : Type 0 where
  pub id : Str
  pub src : TraceEnd
  pub tgt : TraceEnd
  pub graph : Str
  pub content : Str

pub data FbpMessage (V : Type 0) : Type 0 where
  raw : List ℕ → FbpMessage V
  text : Str → FbpMessage V
  value : V → FbpMessage V
  control : ControlEvent V → FbpMessage V
  trace_data : TraceDataEvent → FbpMessage V
  trace_connect trace_disconnect : TraceEvent → FbpMessage V

module _ {V : Type 0} where
  unfoldable pub as_bytes : FbpMessage V → Option (List ℕ)
  as_bytes (raw b) = some b
  as_bytes _ = none

  unfoldable pub as_text : FbpMessage V → Option Str
  as_text (text s) = some s
  as_text _ = none

  unfoldable pub as_value : FbpMessage V → Option V
  as_value (value v) = some v
  as_value _ = none

  unfoldable pub as_control : FbpMessage V → Option (ControlEvent V)
  as_control (control e) = some e
  as_control _ = none

  unfoldable pub is_control : FbpMessage V → Bool
  is_control (control e) = true
  is_control _ = false

  -- `is_data`: bytes, text or a value.
  unfoldable pub is_payload : FbpMessage V → Bool
  is_payload (raw b) = true
  is_payload (text s) = true
  is_payload (value v) = true
  is_payload _ = false

  unfoldable pub is_trace : FbpMessage V → Bool
  is_trace (trace_data t) = true
  is_trace (trace_connect t) = true
  is_trace (trace_disconnect t) = true
  is_trace _ = false

-- `std::str::from_utf8`. What a leading byte asks for: how many bytes follow, and the range of the
-- first of them.
lead : ℕ → Option (ℕ × ℕ × ℕ)
lead b =
    if ltb b 0x80
    then some (0, 0, 0)
    else if ltb b 0xc2
    then none
    else if ltb b 0xe0
    then some (1, 0x80, 0xbf)
    else if b == 0xe0
    then some (2, 0xa0, 0xbf)
    else if b == 0xed
    then some (2, 0x80, 0x9f)
    else if ltb b 0xf0
    then some (2, 0x80, 0xbf)
    else if b == 0xf0
    then some (3, 0x90, 0xbf)
    else if ltb b 0xf4
    then some (3, 0x80, 0xbf)
    else if b == 0xf4
    then some (3, 0x80, 0x8f)
    else none

-- `need` more bytes must follow, the first of them from `lo` to `hi`.
valid_from : ℕ → ℕ → ℕ → List ℕ → Bool
valid_from zero lo hi [] = true
valid_from (suc need) lo hi [] = false
valid_from zero lo hi (b ∷ bs) = elim (lead b) [
  | none ↦ false
  | some (need, lo', hi') ↦ valid_from need lo' hi' bs
]
valid_from (suc need) lo hi (b ∷ bs) = leb lo b && leb b hi && valid_from need 0x80 0xbf bs

unfoldable pub from_utf8 : List ℕ → Option Str
unfolding valid_from lead
from_utf8 b = if valid_from 0 0 0 b then some b else none
