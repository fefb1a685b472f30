-- ===== src/Components/Repeat/Lossless.antt =====
-- components/repeat/src/repeat.rs: no packet is lost, doubled or overtaken.
use flowd.Base.{
  ℕ, zero, suc, ◌+◌, ◌≡◌, refl, sym, ap, ◌∙◌, Bool, true, false, ◌&&◌, Option, none, some, List, [],
  ◌∷◌, ◌++◌, append_assoc, if◌then◌else◌, is_empty, arith, Bool-cases, inl, inr, ◌⊎◌,
}
use flowd.Api.Context.{ProcessResult, finished}
use flowd.Api.Message.{FbpMessage}
use flowd.Api.Rings.{Rtrb}
use flowd.Api.Rings.Laws.{accepted, refused, pop_none, pop_some}
use flowd.Api.Signals.{Signals}
use flowd.Components.Muxer.{report}
use flowd.Components.Repeat.{Repeat, Flushed, Relayed, flush, relay, process, check_text_signal}

module _ {V : Type 0} (rings : Rtrb (FbpMessage V)) where
  open rings use {
    Producer, Consumer, push, pop, nothing_queued, sent, room, queued, push_accepted, sent-push,
    room-push, popped, queued-pop,
  }

  -- Nothing waits to be sent, or nothing can be.
  abbrev pub Settled : List (FbpMessage V) → Producer → Type 0
  Settled ps p = (ps ≡ []) ⊎ (room p ≡ 0)

  -- The first loop moves packets from those that wait to the output, and leaves none, or no budget, or
  -- no free slot.
  pub record IsFlushed (ps : List (FbpMessage V)) (p : Producer) (f : Flushed rings) : Type 0 where
    pub kept : sent f.out ++ f.pending ≡ sent p ++ ps
    pub settled : (f.budget ≡ 0) ⊎ Settled f.pending f.out

  pub flush-IsFlushed :
      (b : ℕ) (ps : List (FbpMessage V)) (p : Producer) (work : ℕ)
      → IsFlushed ps p (flush rings b ps p work)
  unfolding flush
  flush-IsFlushed zero ps p work = record { kept = refl; settled = inl refl }
  flush-IsFlushed (suc b) [] p work = record { kept = refl; settled = inr (inl refl) }
  flush-IsFlushed (suc b) (x ∷ ps) p work = elim (Bool-cases (push x p).1) [
    | inl taken ↦
        let ih = flush-IsFlushed b ps (push x p).0 (work + 1) in
        rw (taken, flush)
          (record {
            kept =
                ih.kept
                ∙ ap (λ q. q ++ ps) (accepted rings x p taken).1
                ∙ append_assoc (sent p) (x ∷ []) ps;
            settled = ih.settled;
          })
    | inr full ↦
        rw (full, flush)
          (record {
            kept = ap (λ q. q ++ x ∷ ps) (refused rings x p full).1;
            settled = inr (inr (refused rings x p full).0);
          })
  ]

  -- What was sent, what waits to be, and what waits at the inport, in this order.
  abbrev pub flow : Producer → List (FbpMessage V) → Consumer → List (FbpMessage V)
  flow p ps c = sent p ++ (ps ++ queued c)

  passes :
      (c : Consumer) (p : Producer) (ps : List (FbpMessage V)) (x : FbpMessage V)
      → Settled ps p
      → (pop c).1 ≡ some x
      → (push x p).1 ≡ true
      → (ps ≡ []) × (flow (push x p).0 ps (pop c).0 ≡ flow p ps c)
  passes c p ps x (inr full) e taken = absurd (omega (arith, (accepted rings x p taken).0, full))
  passes c p ps x (inl none_left) e taken = (
    none_left,
    ap (λ q. q ++ (ps ++ queued (pop c).0)) (accepted rings x p taken).1
        ∙ append_assoc (sent p) (x ∷ []) (ps ++ queued (pop c).0)
        ∙ ap (λ q. sent p ++ x ∷ (q ++ queued (pop c).0)) none_left
        ∙ ap (λ q. sent p ++ q) (sym (pop_some rings c x e))
        ∙ sym (ap (λ q. sent p ++ (q ++ queued c)) none_left),
  )

  waits :
      (c : Consumer) (p : Producer) (ps : List (FbpMessage V)) (x : FbpMessage V)
      → (pop c).1 ≡ some x
      → (push x p).1 ≡ false
      → flow (push x p).0 (ps ++ x ∷ []) (pop c).0 ≡ flow p ps c
  waits c p ps x e full =
      ap (λ q. q ++ ((ps ++ x ∷ []) ++ queued (pop c).0)) (refused rings x p full).1
      ∙ ap (λ q. sent p ++ q) (append_assoc ps (x ∷ []) (queued (pop c).0))
      ∙ ap (λ q. sent p ++ (ps ++ q)) (sym (pop_some rings c x e))

  abbrev relayed_flow : Relayed rings → List (FbpMessage V)
  relayed_flow s = flow s.out s.pending s.inport

  relay_keeps :
      (b : ℕ) (c : Consumer) (p : Producer) (sg : Signals V) (ps : List (FbpMessage V)) (work : ℕ)
      → (b ≡ 0) ⊎ Settled ps p
      → relayed_flow (relay rings b c p sg ps work) ≡ flow p ps c
  unfolding relay
  relay_keeps zero c p sg ps work s = refl
  relay_keeps (suc b) c p sg ps work (inl never) = absurd (omega arith)
  relay_keeps (suc b) c p sg ps work (inr settled) =
      by_signal
        (λ x none_left.
          relay_keeps b (pop c).0 (push x p).0 sg' ps (work + 1) (inr (inl none_left)))
        (check_text_signal sg).1 refl
    where
      sg' : Signals V
      sg' = (check_text_signal sg).0

      by_pushed :
          (x : FbpMessage V)
          → (ps ≡ []
              → relayed_flow (relay rings b (pop c).0 (push x p).0 sg' ps (work + 1))
                ≡ flow (push x p).0 ps (pop c).0)
          → (check_text_signal sg).1 ≡ false
          → (pop c).1 ≡ some x
          → (ok : Bool) → (push x p).1 ≡ ok
          → relayed_flow (relay rings (suc b) c p sg ps work) ≡ flow p ps c
      by_pushed x later calm e true t =
          rw (calm, relay)
            (rw e (rw t (later (passes c p ps x settled e t).0 ∙ (passes c p ps x settled e t).1)))
      by_pushed x later calm e false t = rw (calm, relay) (rw e (rw t (waits c p ps x e t)))

      by_popped :
          ((x : FbpMessage V)
            → ps ≡ []
            → relayed_flow (relay rings b (pop c).0 (push x p).0 sg' ps (work + 1))
              ≡ flow (push x p).0 ps (pop c).0)
          → (check_text_signal sg).1 ≡ false
          → (o : Option (FbpMessage V)) → (pop c).1 ≡ o
          → relayed_flow (relay rings (suc b) c p sg ps work) ≡ flow p ps c
      by_popped later calm none e =
          rw (calm, relay) (rw e (ap (λ q. sent p ++ (ps ++ q)) (pop_none rings c e)))
      by_popped later calm (some x) e = by_pushed x (later x) calm e (push x p).1 refl

      by_signal :
          ((x : FbpMessage V)
            → ps ≡ []
            → relayed_flow (relay rings b (pop c).0 (push x p).0 sg' ps (work + 1))
              ≡ flow (push x p).0 ps (pop c).0)
          → (stop : Bool) → (check_text_signal sg).1 ≡ stop
          → relayed_flow (relay rings (suc b) c p sg ps work) ≡ flow p ps c
      by_signal later true e = rw (e, relay) refl
      by_signal later false e = by_popped later e (pop c).1 refl

  flush_keeps :
      (b : ℕ) (ps : List (FbpMessage V)) (p : Producer) (c : Consumer)
      → flow (flush rings b ps p 0).out (flush rings b ps p 0).pending c ≡ flow p ps c
  flush_keeps b ps p c =
      let f : Flushed rings = flush rings b ps p 0 in
      sym (append_assoc (sent f.out) f.pending (queued c))
      ∙ ap (λ q. q ++ queued c) (flush-IsFlushed b ps p 0).kept
      ∙ append_assoc (sent p) ps (queued c)

  abbrev component_flow : Repeat rings → List (FbpMessage V)
  component_flow r = flow r.out r.pending_out r.inn

  -- The ways in which a call ends.
  abbrev ended :
      Bool
      → Bool
      → Bool
      → Repeat rings
      → Repeat rings
      → ℕ
      → ℕ
      → ℕ
      → Repeat rings × ℕ × ProcessResult
  ended stop stopped over r r' budget left work =
      if stop
      then (r, budget, finished)
      else if stopped
      then (r', left, finished)
      else if over
      then (r', left, finished)
      else (r', left, report work)

  ended_keeps :
      (stop stopped over : Bool) (r r' : Repeat rings) (budget left work : ℕ)
      (xs : List (FbpMessage V))
      → component_flow r ≡ xs
      → component_flow r' ≡ xs
      → component_flow (ended stop stopped over r r' budget left work).0 ≡ xs
  ended_keeps true stopped over r r' budget left work xs p q = p
  ended_keeps false true over r r' budget left work xs p q = q
  ended_keeps false false true r r' budget left work xs p q = q
  ended_keeps false false false r r' budget left work xs p q = q

  -- Whatever the free slots, the budget and the signals, a call of the component keeps the sequence of
  -- the packets that were sent, then those that wait in the component, then those at the inport: none is
  -- lost, doubled or overtaken.
  pub process_keeps :
      (r : Repeat rings) (budget : ℕ)
      → let r' = (process rings r budget).0 in
        sent r'.out ++ (r'.pending_out ++ queued r'.inn)
        ≡ sent r.out ++ (r.pending_out ++ queued r.inn)
  unfolding process
  process_keeps r budget =
      let f : Flushed rings = flush rings budget r.pending_out r.out 0 in
      let sg : Signals V = (check_text_signal r.signals).0 in
      let s : Relayed rings = relay rings f.budget r.inn f.out sg f.pending f.work in
      let first = flush_keeps budget r.pending_out r.out r.inn in
      let second =
        relay_keeps f.budget r.inn f.out sg f.pending f.work
          (flush-IsFlushed budget r.pending_out r.out 0).settled in
      ended_keeps (check_text_signal r.signals).1 s.stopped
        (rings.is_abandoned s.inport && is_empty s.pending)
        (record { inn = r.inn; out = f.out; signals = sg; pending_out = f.pending })
        (record { inn = s.inport; out = s.out; signals = s.signals; pending_out = s.pending })
        f.budget s.budget s.work (flow r.out r.pending_out r.inn) first (second ∙ first)
