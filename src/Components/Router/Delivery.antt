-- ===== src/Components/Router/Delivery.antt =====
-- components/router/src/router.rs: what a call delivers.
use flowd.Base.{
  ℕ, ◌≡◌, refl, subst, fun_ext, false, Option, none, some, List, length, Str, if_elim, arith,
}
use flowd.Api.Context.{ProcessResult}
use flowd.Api.Message.{
  FbpMessage, raw, text, value, control, trace_data, trace_connect, trace_disconnect, as_text,
}
use flowd.Api.Rings.{Rtrb}
use flowd.Api.Signals.{check_signal}
use flowd.Components.Router.{
  Libraries, RouterConfig, CompiledRule, Compiled, compiled, rejected, compile_rules, route_message,
}
use flowd.Components.Router.Loop.{rounds-IsDelivered}
use flowd.Components.Router.Process.{input_text, Router, rounds, route_inputs, configure, process}
use flowd.Components.Router.Rounds.{said, IsDelivered, Delivers}

module _ (libs : Libraries) {V : Type 0} (rings : Rtrb (FbpMessage V)) where
  open rings use {
    Producer, Consumer, push, pop, nothing_queued, sent, room, queued, is_empty-queued, popped,
  }

  -- What a packet at the configuration port says, if it can be used.
  abbrev pub read_config : FbpMessage V → Option (RouterConfig × List (CompiledRule libs))
  read_config m = elim (as_text m) [
    | none ↦ none
    | some t ↦ elim (libs.parse_config t) [
      | none ↦ none
      | some config ↦ elim (compile_rules libs config.rules) [
        | rejected e ↦ none
        | compiled rules ↦ some (config, rules)
      ]
    ]
  ]

  -- The rules that a call routes by: those it has, or else those of the next configuration.
  abbrev pub in_use : Router libs rings → Option (RouterConfig × List (CompiledRule libs))
  in_use r = elim r.config [
    | some config ↦ some (config, r.compiled_rules)
    | none ↦ elim (pop r.conf).1 [ none ↦ none | some m ↦ read_config m ]
  ]

  input_text-said : input_text libs rings ≡ said {V = V}
  input_text-said = fun_ext same
    where
      same : (m : FbpMessage V) → input_text libs rings m ≡ said m
      same (text s) = unfold input_text in refl
      same (raw b) = unfold input_text in refl
      same (value v) = unfold input_text in refl
      same (control c) = unfold input_text in refl
      same (trace_data t) = unfold input_text in refl
      same (trace_connect t) = unfold input_text in refl
      same (trace_disconnect t) = unfold input_text in refl

  -- What a call did to the inport and the outports, under some rules.
  abbrev Routes :
      RouterConfig
      → List (CompiledRule libs)
      → Router libs rings
      → Router libs rings × ℕ × ProcessResult
      → Type 0
  Routes config rules r out =
      IsDelivered libs rings (route_message libs rules (some config)) said r.inn out.0.inn
        r.out_ports out.0.out_ports out.1

  route_inputs-Routes :
      (r : Router libs rings) (config : RouterConfig) (budget work : ℕ)
      → r.config ≡ some config
      → Routes config r.compiled_rules r (route_inputs libs rings r budget work)
  unfolding route_inputs
  route_inputs-Routes r config budget work h =
      let s =
        rounds libs rings (route_message libs r.compiled_rules r.config) (length (queued r.inn))
          budget r.inn r.out_ports work in
      let is =
        subst
          (λ read.
            Delivers libs rings (route_message libs r.compiled_rules (some config)) read r.inn
              r.out_ports s)
          input_text-said
          (subst
            (λ q.
              Delivers libs rings (route_message libs r.compiled_rules q) (input_text libs rings)
                r.inn r.out_ports s)
            h
            (rounds-IsDelivered libs rings (route_message libs r.compiled_rules r.config)
              (length (queued r.inn)) budget r.inn r.out_ports work (omega arith))) in
      if_elim (Routes config r.compiled_rules r) (rings.is_abandoned s.inport) _ _ is is

  -- A call that ends, with what it did.
  abbrev Ends :
      RouterConfig
      → List (CompiledRule libs)
      → Router libs rings
      → Option (Router libs rings × ℕ × ProcessResult)
      → Type 0
  Ends config rules r o =
      (out : Router libs rings × ℕ × ProcessResult) × (o ≡ some out) × Routes config rules r out

  configure-Ends :
      (m : FbpMessage V) (r : Router libs rings) (budget : ℕ) (config : RouterConfig)
      (rules : List (CompiledRule libs))
      → read_config m ≡ some (config, rules)
      → Ends config rules r (configure libs rings m r budget)
  unfolding configure
  configure-Ends m r budget config rules h = by_text (as_text m) refl
    where
      by_rules :
          (t : Str) (cf : RouterConfig) (cs : Compiled (List (CompiledRule libs)))
          → as_text m ≡ some t
          → libs.parse_config t ≡ some cf
          → compile_rules libs cf.rules ≡ cs
          → Ends config rules r (configure libs rings m r budget)
      by_rules t cf (rejected e) p q w = absurd (ground (arith, h, p, q, w))
      by_rules t cf (compiled cs) p q w =
          let same : (cf, cs) ≡ (config, rules) = ground (arith, h, p, q, w) in
          let r' : Router libs rings = record r { config = some cf; compiled_rules = cs } in
          rw (p, configure)
            (rw q (
              rw w (
                route_inputs libs rings r' budget 1,
                refl,
                subst
                    (λ (s : RouterConfig × List (CompiledRule libs)).
                      Routes s.0 s.1 r (route_inputs libs rings r' budget 1))
                    same (route_inputs-Routes r' cf budget 1 refl),
              )))

      by_config :
          (t : Str) (cf : Option RouterConfig)
          → as_text m ≡ some t
          → libs.parse_config t ≡ cf
          → Ends config rules r (configure libs rings m r budget)
      by_config t none p q = absurd (ground (arith, h, p, q))
      by_config t (some cf) p q = by_rules t cf _ p q refl

      by_text :
          (t : Option Str) → as_text m ≡ t → Ends config rules r (configure libs rings m r budget)
      by_text none p = absurd (ground (arith, h, p))
      by_text (some t) p = by_config t _ p refl

  -- A call under some rules, without a signal to stop, does not panic. It takes packets from the front of
  -- the inport, and of each it sends on the text, or the empty text if the packet is no text. Each text
  -- arrives at the port that the rules give it, in their order, or nowhere if that port is not connected.
  -- The text of one packet at most does not arrive though its port is connected, and only if that port
  -- is full. The call ends with no budget, with an empty inport or with such a loss.
  pub process-IsDelivered :
      (r : Router libs rings) (budget : ℕ) (config : RouterConfig)
      (rules : List (CompiledRule libs))
      → in_use r ≡ some (config, rules)
      → (check_signal r.signals).1 ≡ false
      → (out : Router libs rings × ℕ × ProcessResult) × (process libs rings r budget ≡ some out)
        × IsDelivered libs rings
            (route_message libs rules (some config))
            said
            r.inn
            out.0.inn
            r.out_ports
            out.0.out_ports
            out.1
  unfolding process
  process-IsDelivered r budget config rules h calm = by_config r.config refl
    where
      by_new :
          (m : Option (FbpMessage V))
          → r.config ≡ none
          → (pop r.conf).1 ≡ m
          → Ends config rules r (process libs rings r budget)
      by_new none e p = absurd (ground (arith, h, e, p))
      by_new (some m) e p =
          let r' : Router libs rings = record r {
            conf = (pop r.conf).0;
            signals = (check_signal r.signals).0;
          } in
          let said : read_config m ≡ some (config, rules) = ground (arith, h, e, p) in
          rw (calm, process) (rw e (rw p (configure-Ends m r' budget config rules said)))

      by_config :
          (cf : Option RouterConfig)
          → r.config ≡ cf
          → Ends config rules r (process libs rings r budget)
      by_config (some cf) e =
          let same : (cf, r.compiled_rules) ≡ (config, rules) = ground (arith, h, e) in
          let r' : Router libs rings = record r { signals = (check_signal r.signals).0 } in
          rw (calm, process)
            (rw e (
              route_inputs libs rings r' budget 0,
              refl,
              subst
                  (λ (s : RouterConfig × List (CompiledRule libs)).
                    Routes s.0 s.1 r (route_inputs libs rings r' budget 0))
                  same (route_inputs-Routes r' cf budget 0 e),
            ))
      by_config none e = by_new _ e refl
