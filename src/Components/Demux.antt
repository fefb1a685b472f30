-- ===== src/Components/Demux.antt =====
-- components/muxer/src/muxer.rs: `Demux3Component`. The turn, a `usize`, is 64 bits wide and wraps.
pub mod Turns
use flowd.Base.{
  ℕ, zero, suc, ◌+◌, ◌%◌, Bool, true, false, Option, none, some, List, [], ◌∷◌, if◌then◌else◌,
}
use flowd.Api.Context.{ProcessResult, finished, add_u64}
use flowd.Api.Message.{FbpMessage}
use flowd.Api.Rings.{Rtrb}
use flowd.Api.Signals.{Signals, check_signal}
use flowd.Components.Muxer.{report}

module _ {V : Type 0} (rings : Rtrb (FbpMessage V)) where
  open rings use {Producer, Consumer, push, pop, nothing_queued, is_abandoned}

  pub record Outputs : Type 0 where
    pub out_a : Producer
    pub out_b : Producer
    pub out_c : Producer

  pub record Demux3 : Type 0 where
    pub inn : Consumer
    pub outputs : Outputs
    pub signals : Signals V
    pub branch : ℕ

  -- The match on `branch % 3`.
  unfoldable pub push_turn : ℕ → FbpMessage V → Outputs → Outputs × Bool
  push_turn zero ip o = let (p, taken) = push ip o.out_a in (record o { out_a = p }, taken)
  push_turn (suc zero) ip o = let (p, taken) = push ip o.out_b in (record o { out_b = p }, taken)
  push_turn (suc (suc n)) ip o = let (p, taken) = push ip o.out_c in (record o { out_c = p }, taken)

  -- The variables of the loop.
  pub record Demuxing : Type 0 where
    pub inport : Consumer
    pub outputs : Outputs
    pub branch : ℕ
    pub budget : ℕ
    pub work : ℕ

  -- Each round but the last takes one from the budget. A packet that is refused is not kept.
  unfoldable pub demux_loop : ℕ → Consumer → Outputs → ℕ → ℕ → Demuxing
  unfolding push_turn add_u64
  demux_loop zero c o branch work = record {
    inport = c;
    outputs = o;
    branch = branch;
    budget = 0;
    work = work;
  }
  demux_loop (suc b) c o branch work = elim (nothing_queued c) [
    | true ↦ record { inport = c; outputs = o; branch = branch; budget = suc b; work = work }
    | false ↦ elim (pop c).1 [
      | none ↦ record {
        inport = (pop c).0;
        outputs = o;
        branch = branch;
        budget = suc b;
        work = work;
      }
      | some ip ↦ elim (push_turn (branch % 3) ip o).1 [
        | true ↦
            demux_loop b (pop c).0 (push_turn (branch % 3) ip o).0 (add_u64 branch 1) (work + 1)
        | false ↦ record {
          inport = (pop c).0;
          outputs = (push_turn (branch % 3) ip o).0;
          branch = branch;
          budget = suc b;
          work = work;
        }
      ]
    ]
  ]

  -- What a call leaves: the component, the budget and the result.
  unfoldable pub process : Demux3 → ℕ → Demux3 × ℕ × ProcessResult
  unfolding check_signal demux_loop report
  process d budget =
      let (signals, stop) = check_signal d.signals in
      let s : Demuxing = demux_loop budget d.inn d.outputs d.branch 0 in
      let d' : Demux3 = record {
        inn = s.inport;
        outputs = s.outputs;
        signals = signals;
        branch = s.branch;
      } in
      if stop
      then (record d { signals = signals }, budget, finished)
      else if is_abandoned s.inport
      then (d', s.budget, finished)
      else (d', s.budget, report s.work)
