-- ===== src/Components/Muxer.antt =====
-- components/muxer/src/muxer.rs: `MuxerComponent`.
pub mod Budget
pub mod Delivery
use flowd.Base.{
  ℕ, zero, suc, ◌+◌, Bool, true, false, Option, none, some, List, [], ◌∷◌, if◌then◌else◌, ◌==◌, ltb,
}
use flowd.Api.Context.{ProcessResult, did_work, no_work, finished}
use flowd.Api.Message.{FbpMessage}
use flowd.Api.Rings.{Rtrb}
use flowd.Api.Signals.{Signals, check_signal}

-- `if work_units > 0 { DidWork(work_units) } else { NoWork }`.
unfoldable pub report : ℕ → ProcessResult
report work = if ltb 0 work then did_work work else no_work

module _ {V : Type 0} (rings : Rtrb (FbpMessage V)) where
  open rings use {Producer, Consumer, push, pop, nothing_queued, is_abandoned}

  pub record Muxer : Type 0 where
    pub inn : List Consumer
    pub out : Producer
    pub signals : Signals V

  -- The variables of the loop at one inport.
  pub record PortState : Type 0 where
    pub inport : Consumer
    pub out : Producer
    pub budget : ℕ
    pub work : ℕ

  -- The loop at one inport; each round but the last takes one from the budget. A packet that is
  -- refused is not kept.
  unfoldable pub mux_port : ℕ → Consumer → Producer → ℕ → PortState
  mux_port zero c p work = record { inport = c; out = p; budget = 0; work = work }
  mux_port (suc b) c p work = elim (nothing_queued c) [
    | true ↦ record { inport = c; out = p; budget = suc b; work = work }
    | false ↦ elim (pop c).1 [
      | none ↦ record { inport = (pop c).0; out = p; budget = suc b; work = work }
      | some ip ↦ elim (push ip p).1 [
        | true ↦ mux_port b (pop c).0 (push ip p).0 (work + 1)
        | false ↦ record { inport = (pop c).0; out = (push ip p).0; budget = suc b; work = work }
      ]
    ]
  ]

  -- The variables of the loop over the inports.
  pub record MuxState : Type 0 where
    pub inn : List Consumer
    pub out : Producer
    pub budget : ℕ
    pub work : ℕ

  -- One more inport in front.
  abbrev put_inport : Consumer → MuxState → MuxState
  put_inport c s = record s { inn = c ∷ s.inn }

  unfoldable pub mux_ports : ℕ → List Consumer → Producer → ℕ → MuxState
  unfolding mux_port
  mux_ports b [] p work = record { inn = []; out = p; budget = b; work = work }
  mux_ports b (c ∷ cs) p work =
      let s : PortState = mux_port b c p work in
      let rest : MuxState = put_inport s.inport (mux_ports s.budget cs s.out s.work) in
      if s.budget == 0
      then record { inn = s.inport ∷ cs; out = s.out; budget = 0; work = s.work }
      else rest

  -- `all` on the inports.
  unfoldable pub all_abandoned : List Consumer → Bool
  all_abandoned [] = true
  all_abandoned (c ∷ cs) = if is_abandoned c then all_abandoned cs else false

  -- What a call leaves: the component, the budget and the result.
  unfoldable pub process : Muxer → ℕ → Muxer × ℕ × ProcessResult
  unfolding check_signal mux_ports all_abandoned report
  process m budget =
      let (signals, stop) = check_signal m.signals in
      let s : MuxState = mux_ports budget m.inn m.out 0 in
      let m' : Muxer = record { inn = s.inn; out = s.out; signals = signals } in
      if stop
      then (record m { signals = signals }, budget, finished)
      else if all_abandoned s.inn
      then (m', s.budget, finished)
      else (m', s.budget, report s.work)
