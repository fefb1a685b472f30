-- ===== src/Components/Equals.antt =====
-- components/equals/src/equals.rs: `EqualsComponent`.
pub mod Pushes
pub mod Loop
pub mod Flush
pub mod Routing
use flowd.Base.{
  ℕ, zero, suc, ◌+◌, Bool, true, false, Option, none, some, List, [], ◌∷◌, ◌++◌, if◌then◌else◌,
}
use flowd.Api.Context.{ProcessResult, no_work, finished}
use flowd.Api.Equality.{message_eq}
use flowd.Api.Message.{FbpMessage}
use flowd.Api.Rings.{Rtrb}
use flowd.Api.Signals.{Signals, check_signal}
use flowd.Components.Muxer.{report}

module _ {V : Type 0} (value_eq : V → V → Bool) (rings : Rtrb (FbpMessage V)) where
  open rings use {Producer, Consumer, push, pop, is_abandoned}

  pub record Outports : Type 0 where
    pub out_true : Producer
    pub out_false : Producer

  -- A packet that could not be sent, with the outport that it is for.
  abbrev pub Pending : Type 0
  Pending = List (FbpMessage V × Bool)

  pub record Equals : Type 0 where
    pub cmp : Consumer
    pub inn : Consumer
    pub outports : Outports
    pub signals : Signals V
    pub cmp_value : Option (FbpMessage V)
    pub pending_packets : Pending

  unfoldable pub push_route : Bool → FbpMessage V → Outports → Outports × Bool
  push_route true ip o = let (p, taken) = push ip o.out_true in (record o { out_true = p }, taken)
  push_route false ip o =
      let (p, taken) = push ip o.out_false in (record o { out_false = p }, taken)

  pub record FlushedPending : Type 0 where
    pub pending : Pending
    pub outports : Outports
    pub budget : ℕ
    pub work : ℕ

  -- The loop over the packets that wait; it ends at the first that is refused.
  unfoldable pub flush_pending : ℕ → Pending → Outports → ℕ → FlushedPending
  unfolding push_route
  flush_pending zero ps o work = record { pending = ps; outports = o; budget = 0; work = work }
  flush_pending (suc b) [] o work = record {
    pending = [];
    outports = o;
    budget = suc b;
    work = work;
  }
  flush_pending (suc b) ((ip, route) ∷ ps) o work = elim (push_route route ip o).1 [
    | true ↦ flush_pending b ps (push_route route ip o).0 (work + 1)
    | false ↦ record {
      pending = (ip, route) ∷ ps;
      outports = (push_route route ip o).0;
      budget = suc b;
      work = work;
    }
  ]

  -- The variables of the loop over the inport.
  pub record Routed : Type 0 where
    pub inport : Consumer
    pub outports : Outports
    pub signals : Signals V
    pub pending : Pending
    pub budget : ℕ
    pub work : ℕ
    pub stopped : Bool

  -- A packet that is refused is kept, and counts as work all the same.
  unfoldable pub route_packets :
      FbpMessage V → ℕ → Consumer → Outports → Signals V → Pending → ℕ → Routed
  unfolding push_route check_signal message_eq
  route_packets v zero c o sg ps work = record {
    inport = c;
    outports = o;
    signals = sg;
    pending = ps;
    budget = 0;
    work = work;
    stopped = false;
  }
  route_packets v (suc b) c o sg ps work = elim (check_signal sg).1 [
    | true ↦ record {
      inport = c;
      outports = o;
      signals = (check_signal sg).0;
      pending = ps;
      budget = suc b;
      work = work;
      stopped = true;
    }
    | false ↦ elim (pop c).1 [
      | none ↦ record {
        inport = (pop c).0;
        outports = o;
        signals = (check_signal sg).0;
        pending = ps;
        budget = suc b;
        work = work;
        stopped = false;
      }
      | some ip ↦
          let route = message_eq value_eq ip v in
          let (o', taken) = push_route route ip o in
          route_packets v b (pop c).0 o' (check_signal sg).0
            (if taken then ps else ps ++ (ip, route) ∷ []) (work + 1)
    ]
  ]

  -- A value at the inport for values replaces the one in use.
  unfoldable pub renew : Equals → Equals
  renew e = elim (pop e.cmp).1 [
    | some v ↦ record e { cmp = (pop e.cmp).0; cmp_value = some v }
    | none ↦ record e { cmp = (pop e.cmp).0 }
  ]

  -- A call with the value `v` to compare with.
  unfoldable pub process_with : FbpMessage V → Equals → ℕ → Equals × ℕ × ProcessResult
  unfolding flush_pending route_packets renew check_signal report
  process_with v e budget =
      let (signals, stop) = check_signal e.signals in
      let f : FlushedPending = flush_pending budget e.pending_packets e.outports 0 in
      let r : Routed = route_packets v f.budget e.inn f.outports signals f.pending f.work in
      let e' : Equals = record e {
        inn = r.inport;
        outports = r.outports;
        signals = r.signals;
        pending_packets = r.pending;
      } in
      if stop
      then (record e { signals = signals }, budget, finished)
      else if r.stopped
      then (e', r.budget, finished)
      else if is_abandoned r.inport
      then (renew e', r.budget, finished)
      else (renew e', r.budget, report r.work)

  unfoldable pub process : Equals → ℕ → Equals × ℕ × ProcessResult
  unfolding process_with
  process e budget = elim e.cmp_value [
    | some v ↦ process_with v e budget
    | none ↦ elim (pop e.cmp).1 [
      | some v ↦ process_with v (record e { cmp = (pop e.cmp).0; cmp_value = some v }) budget
      | none ↦ (record e { cmp = (pop e.cmp).0 }, budget, no_work)
    ]
  ]
