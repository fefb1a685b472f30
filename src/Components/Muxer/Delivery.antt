-- ===== src/Components/Muxer/Delivery.antt =====
-- components/muxer/src/muxer.rs: what becomes of the packets in a call.
use flowd.Base.{
  ℕ, zero, suc, ◌+◌, ◌-◌, ◌≤◌, ◌<◌, ◌≡◌, refl, sym, ap, ◌∙◌, true, false, some, List, [], ◌∷◌, ◌++◌,
  append-nil, append_assoc, ltb, length, is_empty, head?, tail, take, drop, arith,
}
use flowd.Api.Message.{FbpMessage}
use flowd.Api.Rings.{Rtrb}
use flowd.Components.Muxer.{PortState, mux_port}

module _ {V : Type 0} (rings : Rtrb (FbpMessage V)) where
  open rings use {
    Producer, Consumer, push, pop, nothing_queued, is_abandoned, sent, room, queued, push_accepted,
    sent-push, room-push, popped, queued-pop, is_empty-queued,
  }

  -- With a free slot for each round, the loop moves as many packets as there are, up to the budget, in
  -- their order, and counts them.
  pub record Moved (b : ℕ) (c : Consumer) (p : Producer) (work : ℕ) (s : PortState rings)
      : Type 0 where
    pub delivered : sent s.out ≡ sent p ++ take b (queued c)
    pub left : queued s.inport ≡ drop b (queued c)
    pub counted : s.work ≡ work + length (take b (queued c))
    pub spent : s.budget + length (take b (queued c)) ≡ b
    pub used : room s.out ≡ room p - length (take b (queued c))

  push_into :
      (a : FbpMessage V) (p : Producer)
      → 0 < room p
      → ((push a p).1 ≡ true) × (sent (push a p).0 ≡ sent p ++ a ∷ [])
  push_into a p h = (ground (arith, push_accepted a p), ground (arith, sent-push a p))

  mux_port_empty :
      (b : ℕ) (c : Consumer) (p : Producer) (work : ℕ)
      → queued c ≡ []
      → mux_port rings b c p work ≡ record { inport = c; out = p; budget = b; work = work }
  unfolding mux_port
  mux_port_empty zero c p work e = refl
  mux_port_empty (suc b) c p work e =
      let none_left : nothing_queued c ≡ true = is_empty-queued c ∙ ap is_empty e in
      rw (none_left, mux_port) refl

  mux_port_step :
      (b : ℕ) (x : FbpMessage V) (xs : List (FbpMessage V)) (c : Consumer) (p : Producer) (work : ℕ)
      → queued c ≡ x ∷ xs
      → 0 < room p
      → mux_port rings (suc b) c p work ≡ mux_port rings b (pop c).0 (push x p).0 (work + 1)
  unfolding mux_port
  mux_port_step b x xs c p work e h =
      let some_left : nothing_queued c ≡ false = is_empty-queued c ∙ ap is_empty e in
      let first : (pop c).1 ≡ some x = popped c ∙ ap head? e in
      rw (some_left, mux_port) (rw (first) (rw ((push_into x p h).0) refl))

  more-Moved :
      (b : ℕ) (x : FbpMessage V) (xs : List (FbpMessage V)) (c : Consumer) (p : Producer) (work : ℕ)
      → queued c ≡ x ∷ xs
      → 0 < room p
      → (s : PortState rings) → Moved b (pop c).0 (push x p).0 (work + 1) s
      → Moved (suc b) c p work s
  more-Moved b x xs c p work e h s m = record {
    delivered =
        m.delivered
        ∙ ap (λ q. sent (push x p).0 ++ take b q) rest
        ∙ ap (λ q. q ++ take b xs) (push_into x p h).1
        ∙ append_assoc (sent p) (x ∷ []) (take b xs)
        ∙ sym (ap (λ q. sent p ++ take (suc b) q) e);
    left = m.left ∙ ap (drop b) rest ∙ sym (ap (drop (suc b)) e);
    counted = omega (arith, m.counted, later, now);
    spent = omega (arith, m.spent, later, now);
    used = omega (arith, m.used, later, now, room-push x p, h);
  }
    where
      rest : queued (pop c).0 ≡ xs
      rest = queued-pop c ∙ ap tail e

      later : length (take b (queued (pop c).0)) ≡ length (take b xs)
      later = ap (λ q. length (take b q)) rest

      now : length (take (suc b) (queued c)) ≡ suc (length (take b xs))
      now = ap (λ q. length (take (suc b) q)) e

  -- The loop at one inport, whose output has a free slot for each round of the budget, moves as many
  -- packets as wait, up to the budget, in their order: they end the output, the rest still waits, the
  -- work has grown and the budget and the free slots have shrunk by their number.
  pub mux_port-Moved :
      (b : ℕ) (xs : List (FbpMessage V)) (c : Consumer) (p : Producer) (work : ℕ)
      → queued c ≡ xs
      → b ≤ room p
      → Moved b c p work (mux_port rings b c p work)
  mux_port-Moved zero xs c p work e h =
      unfold mux_port in
      record {
        delivered = sym (append-nil (sent p));
        left = refl;
        counted = omega arith;
        spent = refl;
        used = omega arith;
      }
  mux_port-Moved (suc b) [] c p work e h = rw (mux_port_empty (suc b) c p work e) at_rest
    where
      none_moved : length (take (suc b) (queued c)) ≡ 0
      none_moved = ap (λ q. length (take (suc b) q)) e

      at_rest : Moved (suc b) c p work (record { inport = c; out = p; budget = suc b; work = work })
      at_rest = record {
        delivered = sym (append-nil (sent p)) ∙ sym (ap (λ q. sent p ++ take (suc b) q) e);
        left = e ∙ sym (ap (drop (suc b)) e);
        counted = omega (arith, none_moved);
        spent = omega (arith, none_moved);
        used = omega (arith, none_moved);
      }
  mux_port-Moved (suc b) (x ∷ xs) c p work e h =
      let rest : queued (pop c).0 ≡ xs = queued-pop c ∙ ap tail e in
      let ih =
        mux_port-Moved b xs (pop c).0 (push x p).0 (work + 1) rest (omega (arith, room-push x p)) in
      rw (mux_port_step b x xs c p work e (omega arith))
        (more-Moved b x xs c p work e (omega arith) _ ih)

  -- With no free slot, budget left and a packet waiting, the loop takes the packet from the inport and
  -- sends nothing: the packet is in neither place afterwards, and no work is counted.
  mux_port_full :
      (b : ℕ) (x : FbpMessage V) (xs : List (FbpMessage V)) (c : Consumer) (p : Producer) (work : ℕ)
      → queued c ≡ x ∷ xs
      → room p ≡ 0
      → let s = mux_port rings (suc b) c p work in
        (queued s.inport ≡ xs) × (sent s.out ≡ sent p) × (s.work ≡ work) × (s.budget ≡ suc b)
  unfolding mux_port
  mux_port_full b x xs c p work e full =
      let some_left : nothing_queued c ≡ false = is_empty-queued c ∙ ap is_empty e in
      let first : (pop c).1 ≡ some x = popped c ∙ ap head? e in
      let refused : (push x p).1 ≡ false = push_accepted x p ∙ ap (ltb 0) full in
      let unsent : sent (push x p).0 ≡ sent p = ground (arith, sent-push x p) in
      rw (some_left, mux_port)
        (rw (first) (rw (refused) ((queued-pop c ∙ ap tail e), unsent, refl, refl)))
