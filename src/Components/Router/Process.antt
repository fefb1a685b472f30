-- ===== src/Components/Router/Process.antt =====
-- components/router/src/router.rs: `process`.
use flowd.Base.{
  ℕ, zero, suc, ◌+◌, true, false, Option, none, some, List, Str, HashMap, get, insert, length,
  if◌then◌else◌,
}
use flowd.Api.Context.{ProcessResult, no_work, finished}
use flowd.Api.Message.{FbpMessage, text, as_text}
use flowd.Api.Rings.{Rtrb}
use flowd.Api.Signals.{Signals, check_signal}
use flowd.Components.Muxer.{report}
use flowd.Components.Router.{
  Libraries, RouterConfig, CompiledRule, compiled, rejected, compile_rules, route_message,
  text_or_empty,
}

module _ (libs : Libraries) {V : Type 0} (rings : Rtrb (FbpMessage V)) where
  open rings use {Producer, Consumer, push, pop, nothing_queued, is_abandoned, queued}

  pub record Router : Type 0 where
    pub conf : Consumer
    pub inn : Consumer
    pub out_ports : HashMap Producer
    pub signals : Signals V
    pub config : Option RouterConfig
    pub compiled_rules : List (CompiledRule libs)

  -- The variables of the loop.
  pub record Rounds : Type 0 where
    pub inport : Consumer
    pub out_ports : HashMap Producer
    pub budget : ℕ
    pub work : ℕ

  -- The text that is routed and sent on; of a packet that is no text, the empty one.
  unfoldable pub input_text : FbpMessage V → Str
  unfolding text_or_empty as_text
  input_text m = text_or_empty libs (as_text m)

  -- Some rounds of the loop. A packet for a port that is not connected takes nothing from the budget, so
  -- that the rounds are counted apart: there are at most as many as packets wait.
  unfoldable pub rounds : (Str → Str) → ℕ → ℕ → Consumer → HashMap Producer → ℕ → Rounds
  unfolding input_text get insert
  rounds route zero b c o work = record { inport = c; out_ports = o; budget = b; work = work }
  rounds route (suc n) zero c o work = record { inport = c; out_ports = o; budget = 0; work = work }
  rounds route (suc n) (suc b) c o work = elim (nothing_queued c) [
    | true ↦ record { inport = c; out_ports = o; budget = suc b; work = work }
    | false ↦ elim (pop c).1 [
      | none ↦ record { inport = (pop c).0; out_ports = o; budget = suc b; work = work }
      | some m ↦ elim (get (route (input_text m)) o) [
        | none ↦ rounds route n (suc b) (pop c).0 o work
        | some p ↦ elim (push (text (input_text m)) p).1 [
          | true ↦
              rounds route n b (pop c).0
                (insert (route (input_text m)) (push (text (input_text m)) p).0 o) (work + 1)
          | false ↦ record {
            inport = (pop c).0;
            out_ports = insert (route (input_text m)) (push (text (input_text m)) p).0 o;
            budget = suc b;
            work = work;
          }
        ]
      ]
    ]
  ]

  -- A call of a component that is configured.
  unfoldable pub route_inputs : Router → ℕ → ℕ → Router × ℕ × ProcessResult
  unfolding rounds route_message report
  route_inputs r budget work =
      let s : Rounds =
        rounds (route_message libs r.compiled_rules r.config) (length (queued r.inn)) budget r.inn
          r.out_ports work in
      let r' : Router = record r { inn = s.inport; out_ports = s.out_ports } in
      if is_abandoned s.inport then (r', s.budget, finished) else (r', s.budget, report s.work)

  -- The configuration is read: the call panics if it is no text, and ends if it cannot be used.
  unfoldable pub configure : FbpMessage V → Router → ℕ → Option (Router × ℕ × ProcessResult)
  unfolding route_inputs compile_rules as_text
  configure m r budget = elim (as_text m) [
    | none ↦ none
    | some t ↦ elim (libs.parse_config t) [
      | none ↦ some (r, budget, finished)
      | some config ↦ elim (compile_rules libs config.rules) [
        | rejected e ↦ some (r, budget, finished)
        | compiled rules ↦
            some (route_inputs (record r { config = some config; compiled_rules = rules }) budget 1)
      ]
    ]
  ]

  -- Nothing is a panic.
  unfoldable pub process : Router → ℕ → Option (Router × ℕ × ProcessResult)
  unfolding configure route_inputs check_signal
  process r budget =
      let (signals, stop) = check_signal r.signals in
      let r' : Router = record r { signals = signals } in
      if stop then some (r', budget, finished) else elim r.config [
        | some config ↦ some (route_inputs r' budget 0)
        | none ↦ elim (pop r.conf).1 [
          | none ↦ some (record r' { conf = (pop r.conf).0 }, budget, no_work)
          | some m ↦ configure m (record r' { conf = (pop r.conf).0 }) budget
        ]
      ]
