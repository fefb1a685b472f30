-- ===== src/Components/Router.antt =====
-- components/router/src/router.rs: the rules of `GenericRouterComponent`. The crates `serde_json` and
-- `regex` are not part of the repository: `Libraries` is what the code calls of them.
pub mod Process
pub mod Verdicts
pub mod FirstMatch
pub mod Compiling
pub mod Rounds
pub mod Loop
pub mod Delivery
use flowd.Base.{
  ◌≡◌, Bool, true, false, ◌&&◌, ◌||◌, ◌==◌, Option, none, some, List, [], ◌∷◌, Str, bytes, str_eq,
  if◌then◌else◌,
}
use flowd.Components.SplitLines.{split}

pub record Condition : Type 0 where
  pub field : Str
  pub operator : Str
  pub operand : Str

pub record RoutingRule : Type 0 where
  pub condition : Condition
  pub output_port : Str

pub record RouterConfig : Type 0 where
  pub rules : List RoutingRule
  pub default_output : Option Str

-- `parse` and `parse_config` are `from_str` at both types; `member` is `Map::get` of an object, and
-- nothing of any other value.
pub record Libraries : Type 1 where
  pub Json : Type 0
  pub Regex : Type 0
  pub parse : Str → Option Json
  pub parse_config : Str → Option RouterConfig
  pub member : Json → Str → Option Json
  pub null : Json
  pub as_str : Json → Option Str
  pub compile_regex : Str → Option Regex
  pub is_match : Regex → Str → Bool

-- `str::starts_with`, `str::contains`, `str::ends_with`.
unfoldable pub starts_with : Str → Str → Bool
starts_with s [] = true
starts_with [] (b ∷ t) = false
starts_with (a ∷ s) (b ∷ t) = (a == b) && starts_with s t

unfoldable pub contains_str : Str → Str → Bool
unfolding starts_with
contains_str [] t = starts_with [] t
contains_str (a ∷ s) t = starts_with (a ∷ s) t || contains_str s t

unfoldable pub ends_with : Str → Str → Bool
ends_with [] t = str_eq [] t
ends_with (a ∷ s) t = str_eq (a ∷ s) t || ends_with s t

-- The two errors, whose texts are left out.
pub data CompileError : Type 0 where
  invalid_regex unknown_operator : Str → CompileError

pub data Compiled (A : Type 0) : Type 0 where
  compiled : A → Compiled A
  rejected : CompileError → Compiled A

module _ (libs : Libraries) where
  open libs use {Json, Regex, parse, member, null, as_str, compile_regex, is_match}

  pub data RuleOperator : Type 0 where
    equals contains_text starts ends : RuleOperator
    matches : Regex → RuleOperator

  pub record CompiledRule : Type 0 where
    pub field : Str
    pub operator : RuleOperator
    pub operand : Str
    pub output_port : Str

  unfoldable pub compile_operator : Condition → Compiled RuleOperator
  compile_operator c =
      if str_eq c.operator (bytes "equals")
      then compiled equals
      else if str_eq c.operator (bytes "contains")
      then compiled contains_text
      else if str_eq c.operator (bytes "regex")
      then elim (compile_regex c.operand) [
        | some r ↦ compiled (matches r)
        | none ↦ rejected (invalid_regex c.operand)
      ]
      else if str_eq c.operator (bytes "starts_with")
      then compiled starts
      else if str_eq c.operator (bytes "ends_with")
      then compiled ends
      else rejected (unknown_operator c.operator)

  -- One rule in front of the rest; the error of the earlier rule is the one that is returned.
  unfoldable pub add_rule :
      RoutingRule
      → Compiled RuleOperator
      → Compiled (List CompiledRule)
      → Compiled (List CompiledRule)
  add_rule r (rejected e) rest = rejected e
  add_rule r (compiled op) (rejected e) = rejected e
  add_rule r (compiled op) (compiled cs) = compiled (
      record {
        field = r.condition.field;
        operator = op;
        operand = r.condition.operand;
        output_port = r.output_port;
      }
      ∷ cs)

  unfoldable pub compile_rules : List RoutingRule → Compiled (List CompiledRule)
  unfolding compile_operator add_rule
  compile_rules [] = compiled []
  compile_rules (r ∷ rs) = add_rule r (compile_operator r.condition) (compile_rules rs)

  -- The walk along the parts of a path.
  unfoldable pub walk : Json → List Str → Json
  walk j [] = j
  walk j (part ∷ parts) = elim (member j part) [ some next ↦ walk next parts | none ↦ null ]

  unfoldable pub get_nested_field : Json → Str → Json
  unfolding walk split
  get_nested_field j path = walk j (split b'.' path)

  unfoldable pub evaluate_text_condition : Str → CompiledRule → Bool
  unfolding starts_with contains_str ends_with
  evaluate_text_condition s r = elim r.operator [
    | equals ↦ str_eq s r.operand
    | contains_text ↦ contains_str s r.operand
    | matches regex ↦ is_match regex s
    | starts ↦ starts_with s r.operand
    | ends ↦ ends_with s r.operand
  ]

  unfoldable pub text_or_empty : Option Str → Str
  text_or_empty (some s) = s
  text_or_empty none = []

  unfoldable pub evaluate_condition : Json → CompiledRule → Bool
  unfolding get_nested_field evaluate_text_condition text_or_empty
  evaluate_condition j r =
      evaluate_text_condition (text_or_empty (as_str (get_nested_field j r.field))) r

  -- The port of the first rule that passes.
  unfoldable pub first_port : (CompiledRule → Bool) → List CompiledRule → Option Str
  first_port passes [] = none
  first_port passes (r ∷ rs) = if passes r then some r.output_port else first_port passes rs

  unfoldable pub default_port : Option RouterConfig → Str
  default_port none = bytes "default"
  default_port (some c) = elim c.default_output [ some p ↦ p | none ↦ bytes "default" ]

  -- The test that the loop over the rules makes: on a field of a text that is JSON, else on the text.
  unfoldable pub passes : Option Json → Str → CompiledRule → Bool
  unfolding evaluate_condition evaluate_text_condition
  passes (some j) input r = evaluate_condition j r
  passes none input r = str_eq r.field (bytes "content") && evaluate_text_condition input r

  unfoldable pub route_message : List CompiledRule → Option RouterConfig → Str → Str
  unfolding first_port passes default_port
  route_message rules config input = elim (first_port (passes (parse input) input) rules) [
    | some port ↦ port
    | none ↦ default_port config
  ]
