-- ===== src/Components/Repeat.antt =====
-- components/repeat/src/repeat.rs: `RepeatComponent`.
pub mod Lossless
pub mod Progress
use flowd.Base.{
  ℕ, zero, suc, ◌+◌, Bool, true, false, ◌&&◌, Option, none, some, List, [], ◌∷◌, ◌++◌, is_empty,
  if◌then◌else◌, Str, bytes, str_eq,
}
use flowd.Api.Context.{ProcessResult, finished}
use flowd.Api.Message.{FbpMessage, text, as_text}
use flowd.Api.Rings.{Rtrb}
use flowd.Api.Signals.{Signals}
use flowd.Components.Muxer.{report}

module _ {V : Type 0} where
  -- `signal_text` where bytes are not looked at.
  unfoldable pub plain_text : FbpMessage V → Str
  unfolding as_text
  plain_text m = elim (as_text m) [ none ↦ [] | some s ↦ s ]

  receive_text : List (FbpMessage V) → Signals V → Signals V × Bool
  unfolding plain_text
  receive_text [] s = (s, false)
  receive_text (m ∷ ms) s =
      if str_eq (plain_text m) (bytes "stop")
      then (record s { incoming = ms }, true)
      else if str_eq (plain_text m) (bytes "ping")
      then (record { incoming = ms; outgoing = s.outgoing ++ text (bytes "pong") ∷ [] }, false)
      else (record s { incoming = ms }, false)

  -- One signal, if there is one: whether it says to stop; a ping is answered.
  unfoldable pub check_text_signal : Signals V → Signals V × Bool
  unfolding receive_text
  check_text_signal s = receive_text s.incoming s

module _ {V : Type 0} (rings : Rtrb (FbpMessage V)) where
  open rings use {Producer, Consumer, push, pop, is_abandoned}

  pub record Repeat : Type 0 where
    pub inn : Consumer
    pub out : Producer
    pub signals : Signals V
    pub pending_out : List (FbpMessage V)

  pub record Flushed : Type 0 where
    pub pending : List (FbpMessage V)
    pub out : Producer
    pub budget : ℕ
    pub work : ℕ

  -- The loop over the packets that an earlier call could not send.
  unfoldable pub flush : ℕ → List (FbpMessage V) → Producer → ℕ → Flushed
  flush zero ps p work = record { pending = ps; out = p; budget = 0; work = work }
  flush (suc b) [] p work = record { pending = []; out = p; budget = suc b; work = work }
  flush (suc b) (ip ∷ ps) p work = elim (push ip p).1 [
    | true ↦ flush b ps (push ip p).0 (work + 1)
    | false ↦ record { pending = ip ∷ ps; out = (push ip p).0; budget = suc b; work = work }
  ]

  pub record Relayed : Type 0 where
    pub inport : Consumer
    pub out : Producer
    pub signals : Signals V
    pub pending : List (FbpMessage V)
    pub budget : ℕ
    pub work : ℕ
    pub stopped : Bool

  -- The loop over the inport, which looks for a signal in each round. A packet that is refused is kept.
  unfoldable pub relay : ℕ → Consumer → Producer → Signals V → List (FbpMessage V) → ℕ → Relayed
  unfolding check_text_signal
  relay zero c p sg ps work = record {
    inport = c;
    out = p;
    signals = sg;
    pending = ps;
    budget = 0;
    work = work;
    stopped = false;
  }
  relay (suc b) c p sg ps work = elim (check_text_signal sg).1 [
    | true ↦ record {
      inport = c;
      out = p;
      signals = (check_text_signal sg).0;
      pending = ps;
      budget = suc b;
      work = work;
      stopped = true;
    }
    | false ↦ elim (pop c).1 [
      | none ↦ record {
        inport = (pop c).0;
        out = p;
        signals = (check_text_signal sg).0;
        pending = ps;
        budget = suc b;
        work = work;
        stopped = false;
      }
      | some ip ↦ elim (push ip p).1 [
        | true ↦ relay b (pop c).0 (push ip p).0 (check_text_signal sg).0 ps (work + 1)
        | false ↦ record {
          inport = (pop c).0;
          out = (push ip p).0;
          signals = (check_text_signal sg).0;
          pending = ps ++ ip ∷ [];
          budget = suc b;
          work = work;
          stopped = false;
        }
      ]
    ]
  ]

  unfoldable pub process : Repeat → ℕ → Repeat × ℕ × ProcessResult
  unfolding flush relay check_text_signal report
  process r budget =
      let f : Flushed = flush budget r.pending_out r.out 0 in
      let (signals, stop) = check_text_signal r.signals in
      let s : Relayed = relay f.budget r.inn f.out signals f.pending f.work in
      let r' : Repeat = record {
        inn = s.inport;
        out = s.out;
        signals = s.signals;
        pending_out = s.pending;
      } in
      if stop
      then (
        record { inn = r.inn; out = f.out; signals = signals; pending_out = f.pending },
        f.budget,
        finished,
      )
      else if s.stopped
      then (r', s.budget, finished)
      else if is_abandoned s.inport && is_empty s.pending
      then (r', s.budget, finished)
      else (r', s.budget, report s.work)
