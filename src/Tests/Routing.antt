-- ===== src/Tests/Routing.antt =====
-- components/equals/src/equals.rs and components/router/src/router.rs: the theorems at components with
-- packets that wait, outports that are full and rules of two kinds.
use flowd.Base.{
  ℕ, ◌≡◌, refl, Bool, false, Option, none, some, List, [], ◌∷◌, ◌==◌, Str, bytes, ◌⊎◌, All, str_eq,
  if◌then◌else◌,
}
use flowd.Api.Context.{ProcessResult}
use flowd.Api.Message.{FbpMessage, text, as_text}
use flowd.Api.Rings.{Rtrb, list_rtrb}
use flowd.Api.Signals.{check_signal}
use flowd.Api.Signals.{signal_text}
use flowd.Components.Equals.{Equals}
use flowd.Components.Equals.Routing.{IsRouted, process-IsRouted}
use flowd.Components.Router.{
  Libraries, RoutingRule, RouterConfig, CompiledRule, compile_rules, starts_with, route_message,
  equals, starts,
}
use flowd.Components.Router.Compiling.{Compiling, compile_rules-Compiling}
use flowd.Components.Router.Delivery.{process-IsDelivered}
use flowd.Components.Router.FirstMatch.{IsFirst, FallsTo, route_message-IsFirst}
use flowd.Components.Router.Verdicts.{Skips}
use flowd.Components.Router.Process.{Router}
use flowd.Components.Router.Rounds.{said, IsDelivered}
use flowd.Components.Equals
use flowd.Components.Router.Process

abbrev rings : Rtrb (FbpMessage ℕ)
rings = list_rtrb (FbpMessage ℕ)

abbrev values_eq : ℕ → ℕ → Bool
values_eq a b = a == b

abbrev equals_now : Equals values_eq rings
equals_now = record {
  cmp = record { waiting = text (bytes "a") ∷ []; abandoned = false };
  inn = record {
    waiting = text (bytes "a") ∷ text (bytes "b") ∷ text (bytes "a") ∷ [];
    abandoned = false;
  };
  outports = record {
    out_true = record { out = []; free = 1 };
    out_false = record { out = []; free = 0 };
  };
  signals = record { incoming = text (bytes "ping") ∷ []; outgoing = [] };
  cmp_value = none;
  pending_packets = (text (bytes "c"), false) ∷ [];
}

process-IsRouted_example :
    let out = Equals.process values_eq rings equals_now 8 in
    IsRouted values_eq rings (text (bytes "a")) equals_now out.0 out.1
unfolding str_eq signal_text
process-IsRouted_example =
    process-IsRouted values_eq rings equals_now (text (bytes "a")) 8 refl (refl, tt)

-- A text is JSON if it begins with a brace, and has then one member, `kind`.
abbrev parse_kind : Str → Option Str
unfolding starts_with
parse_kind s = if starts_with s (bytes "{") then some (bytes "log") else none

abbrev log_rule : RoutingRule
log_rule = record {
  condition = record { field = bytes "kind"; operator = bytes "equals"; operand = bytes "log" };
  output_port = bytes "LOGS";
}

abbrev text_rule : RoutingRule
text_rule = record {
  condition = record {
    field = bytes "content";
    operator = bytes "starts_with";
    operand = bytes "hi";
  };
  output_port = bytes "HELLO";
}

abbrev bad_rule : RoutingRule
bad_rule = record {
  condition = record { field = bytes "content"; operator = bytes "regex"; operand = bytes "(" };
  output_port = bytes "HELLO";
}

abbrev config : RouterConfig
config = record { rules = log_rule ∷ text_rule ∷ []; default_output = none }

abbrev libs : Libraries
libs = record {
  Json = Str;
  Regex = Str;
  parse = parse_kind;
  parse_config = λ s. some config;
  member = λ j k. some j;
  null = [];
  as_str = λ j. some j;
  compile_regex = λ s. none;
  is_match = starts_with;
}

abbrev rules : List (CompiledRule libs)
rules =
    record {
      field = bytes "kind";
      operator = equals;
      operand = bytes "log";
      output_port = bytes "LOGS";
    }
    ∷ record {
      field = bytes "content";
      operator = starts;
      operand = bytes "hi";
      output_port = bytes "HELLO";
    }
    ∷ []

abbrev router : Router libs rings
router = record {
  conf = record { waiting = text (bytes "conf") ∷ []; abandoned = false };
  inn = record {
    waiting = text (bytes "{}") ∷ text (bytes "?") ∷ text (bytes "hi") ∷ text (bytes "hi!") ∷ [];
    abandoned = false;
  };
  out_ports =
      (bytes "LOGS", record { out = []; free = 2 })
      ∷ (bytes "HELLO", record { out = []; free = 1 })
      ∷ [];
  signals = record { incoming = []; outgoing = [] };
  config = none;
  compiled_rules = [];
}

route_message-IsFirst_example :
    let port = route_message libs rules (some config) (bytes "{}") in
    IsFirst libs (bytes "{}") rules port
    ⊎ (All (Skips libs (bytes "{}")) rules × FallsTo libs (some config) port)
route_message-IsFirst_example = route_message-IsFirst libs rules (some config) (bytes "{}")

compile_rules-Compiling_example :
    Compiling libs (log_rule ∷ bad_rule ∷ []) (compile_rules libs (log_rule ∷ bad_rule ∷ []))
compile_rules-Compiling_example = compile_rules-Compiling libs (log_rule ∷ bad_rule ∷ [])

process-IsDelivered_example :
    (out : Router libs rings × ℕ × ProcessResult) × (Process.process libs rings router 8 ≡ some out)
    × IsDelivered libs rings
        (route_message libs rules (some config))
        said
        router.inn
        out.0.inn
        router.out_ports
        out.0.out_ports
        out.1
unfolding as_text compile_rules str_eq check_signal
process-IsDelivered_example = process-IsDelivered libs rings router 8 config rules refl refl
