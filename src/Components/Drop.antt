-- ===== src/Components/Drop.antt =====
-- components/drop/src/drop.rs: `DropComponent`.
pub mod Drains
use flowd.Base.{
  ℕ, zero, suc, ◌+◌, ◌-◌, Bool, true, false, Option, none, some, List, min, if◌then◌else◌, ltb,
  length,
}
use flowd.Api.Context.{ProcessResult, did_work, no_work, finished}
use flowd.Api.Message.{FbpMessage}
use flowd.Api.Rings.{Rtrb}
use flowd.Api.Signals.{Signals}
use flowd.Components.Repeat.{check_text_signal}

module _ {V : Type 0} (rings : Rtrb (FbpMessage V)) where
  open rings use {Consumer, nothing_queued, is_abandoned, slots, read_chunk}

  pub record Drop : Type 0 where
    pub inn : Consumer
    pub signals : Signals V

  -- The variables of the loop.
  pub record Draining : Type 0 where
    pub inport : Consumer
    pub signals : Signals V
    pub budget : ℕ
    pub work : ℕ
    pub stopped : Bool

  -- Some rounds of the loop; each takes one from the budget at least, so that there are at most as many
  -- as the budget.
  unfoldable pub drain : ℕ → ℕ → Consumer → Signals V → ℕ → Draining
  unfolding check_text_signal
  drain zero b c sg work = record {
    inport = c;
    signals = sg;
    budget = b;
    work = work;
    stopped = false;
  }
  drain (suc n) b c sg work =
      let (sg', stop) = check_text_signal sg in
      let count = min (slots c) b in
      elim (ltb 0 b) [
        | false ↦ record { inport = c; signals = sg; budget = b; work = work; stopped = false }
        | true ↦ elim (nothing_queued c) [
          | true ↦ record { inport = c; signals = sg; budget = b; work = work; stopped = false }
          | false ↦ elim stop [
            | true ↦ record { inport = c; signals = sg'; budget = b; work = work; stopped = true }
            | false ↦ elim (ltb 0 count) [
              | false ↦ record {
                inport = c;
                signals = sg';
                budget = b;
                work = work;
                stopped = false;
              }
              | true ↦ elim (read_chunk count c) [
                | none ↦ record {
                  inport = c;
                  signals = sg';
                  budget = b;
                  work = work;
                  stopped = false;
                }
                | some (c', chunk) ↦ drain n (b - length chunk) c' sg' (work + length chunk)
              ]
            ]
          ]
        ]
      ]

  -- The end of a call, after the loop.
  unfoldable pub conclude : Draining → Drop × ℕ × ProcessResult
  conclude s =
      let d : Drop = record { inn = s.inport; signals = s.signals } in
      if s.stopped
      then (d, s.budget, finished)
      else if ltb 0 s.work
      then (d, s.budget, did_work s.work)
      else if is_abandoned s.inport
      then (d, s.budget, finished)
      else (d, s.budget, no_work)

  unfoldable pub process : Drop → ℕ → Drop × ℕ × ProcessResult
  unfolding drain conclude check_text_signal
  process d budget =
      let (signals, stop) = check_text_signal d.signals in
      if stop
      then (record d { signals = signals }, budget, finished)
      else conclude (drain budget budget d.inn signals 0)
