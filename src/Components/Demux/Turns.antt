-- ===== src/Components/Demux/Turns.antt =====
-- components/muxer/src/muxer.rs: the packets go to the three outputs in turn.
use flowd.Base.{
  ℕ, zero, suc, ◌+◌, ◌%◌, ◌^◌, ◌≤◌, ◌<◌, ◌≡◌, refl, sym, ap, ◌∙◌, Bool, true, false, some, List, [],
  ◌∷◌, ◌++◌, append-nil, append_assoc, if◌then◌else◌, ◌==◌, ltb, length, is_empty, head?, tail,
  take, drop, arith,
}
use flowd.Api.Context.{add_u64, add_u64_exact}
use flowd.Api.Message.{FbpMessage}
use flowd.Api.Rings.{Rtrb}
use flowd.Components.Demux.{Outputs, Demuxing, push_turn, demux_loop}

-- The outputs, and whose turn a number below three is.
pub data Output : Type 0 where
  to_a to_b to_c : Output

unfoldable pub is_turn : Output → ℕ → Bool
is_turn to_a n = n == 0
is_turn to_b n = n == 1
is_turn to_c n = ltb 1 n

-- The packets that fall to an output, if the first has the turn `t`.
unfoldable pub dealt {ℓ} : {A : Type ℓ} → Output → ℕ → List A → List A
unfolding is_turn
dealt q t [] = []
dealt q t (x ∷ xs) = let rest = dealt q (t + 1) xs in if is_turn q (t % 3) then x ∷ rest else rest

module _ {V : Type 0} (rings : Rtrb (FbpMessage V)) where
  open rings use {
    Producer, Consumer, push, pop, nothing_queued, sent, room, queued, push_accepted, sent-push,
    room-push, popped, queued-pop, is_empty-queued,
  }

  unfoldable pub port : Output → Outputs rings → Producer
  port to_a o = o.out_a
  port to_b o = o.out_b
  port to_c o = o.out_c

  push_turn_accepted :
      (n : ℕ) (x : FbpMessage V) (o : Outputs rings)
      → ((q : Output) → 0 < room (port q o))
      → (push_turn rings n x o).1 ≡ true
  unfolding push_turn port
  push_turn_accepted zero x o h = ground (arith, push_accepted x o.out_a, h to_a)
  push_turn_accepted (suc zero) x o h = ground (arith, push_accepted x o.out_b, h to_b)
  push_turn_accepted (suc (suc n)) x o h = ground (arith, push_accepted x o.out_c, h to_c)

  sent-push_turn :
      (q : Output) (n : ℕ) (x : FbpMessage V) (o : Outputs rings)
      → ((q : Output) → 0 < room (port q o))
      → sent (port q (push_turn rings n x o).0)
        ≡ (if is_turn q n then sent (port q o) ++ x ∷ [] else sent (port q o))
  unfolding push_turn port is_turn
  sent-push_turn to_a zero x o h = ground (arith, sent-push x o.out_a, h to_a)
  sent-push_turn to_a (suc zero) x o h = ground arith
  sent-push_turn to_a (suc (suc n)) x o h = ground arith
  sent-push_turn to_b zero x o h = ground arith
  sent-push_turn to_b (suc zero) x o h = ground (arith, sent-push x o.out_b, h to_b)
  sent-push_turn to_b (suc (suc n)) x o h = ground arith
  sent-push_turn to_c zero x o h = ground arith
  sent-push_turn to_c (suc zero) x o h = ground arith
  sent-push_turn to_c (suc (suc n)) x o h = ground (arith, sent-push x o.out_c, h to_c)

  room-push_turn :
      (q : Output) (n : ℕ) (x : FbpMessage V) (o : Outputs rings)
      → room (port q o) ≤ room (port q (push_turn rings n x o).0) + 1
  unfolding push_turn port
  room-push_turn to_a zero x o = omega (arith, room-push x o.out_a)
  room-push_turn to_a (suc zero) x o = omega arith
  room-push_turn to_a (suc (suc n)) x o = omega arith
  room-push_turn to_b zero x o = omega arith
  room-push_turn to_b (suc zero) x o = omega (arith, room-push x o.out_b)
  room-push_turn to_b (suc (suc n)) x o = omega arith
  room-push_turn to_c zero x o = omega arith
  room-push_turn to_c (suc zero) x o = omega arith
  room-push_turn to_c (suc (suc n)) x o = omega (arith, room-push x o.out_c)

  -- The loop has dealt the packets that waited, up to the budget, to the outputs in turn from `t` on,
  -- and has counted them.
  pub record Dealt (b : ℕ) (c : Consumer) (o : Outputs rings) (t work : ℕ) (s : Demuxing rings)
      : Type 0 where
    pub in_turn :
        (q : Output) → sent (port q s.outputs) ≡ sent (port q o) ++ dealt q t (take b (queued c))
    pub left : queued s.inport ≡ drop b (queued c)
    pub next_turn : s.branch ≡ t + length (take b (queued c))
    pub counted : s.work ≡ work + length (take b (queued c))
    pub spent : s.budget + length (take b (queued c)) ≡ b

  demux_empty :
      (b : ℕ) (c : Consumer) (o : Outputs rings) (t work : ℕ)
      → queued c ≡ []
      → demux_loop rings b c o t work
        ≡ record { inport = c; outputs = o; branch = t; budget = b; work = work }
  unfolding demux_loop
  demux_empty zero c o t work e = refl
  demux_empty (suc b) c o t work e =
      let none_left : nothing_queued c ≡ true = is_empty-queued c ∙ ap is_empty e in
      rw (none_left, demux_loop) refl

  demux_step :
      (b : ℕ) (x : FbpMessage V) (xs : List (FbpMessage V)) (c : Consumer) (o : Outputs rings)
      (t work : ℕ)
      → queued c ≡ x ∷ xs
      → ((q : Output) → 0 < room (port q o))
      → demux_loop rings (suc b) c o t work
        ≡ demux_loop rings b (pop c).0 (push_turn rings (t % 3) x o).0 (add_u64 t 1) (work + 1)
  unfolding demux_loop
  demux_step b x xs c o t work e h =
      let some_left : nothing_queued c ≡ false = is_empty-queued c ∙ ap is_empty e in
      let first : (pop c).1 ≡ some x = popped c ∙ ap head? e in
      rw (some_left, demux_loop) (rw first (rw (push_turn_accepted (t % 3) x o h) refl))

  more-Dealt :
      (b : ℕ) (x : FbpMessage V) (xs : List (FbpMessage V)) (c : Consumer) (o : Outputs rings)
      (t work : ℕ)
      → queued c ≡ x ∷ xs
      → ((q : Output) → 0 < room (port q o))
      → (s : Demuxing rings)
      → Dealt b (pop c).0 (push_turn rings (t % 3) x o).0 (t + 1) (work + 1) s
      → Dealt (suc b) c o t work s
  unfolding dealt
  more-Dealt b x xs c o t work e h s m = record {
    in_turn = λ q.
        m.in_turn q
        ∙ ap (λ r. sent (port q (push_turn rings (t % 3) x o).0) ++ dealt q (t + 1) (take b r)) rest
        ∙ one_more q (is_turn q (t % 3)) (sent-push_turn q (t % 3) x o h)
        ∙ sym (ap (λ r. sent (port q o) ++ dealt q t (take (suc b) r)) e);
    left = m.left ∙ ap (drop b) rest ∙ sym (ap (drop (suc b)) e);
    next_turn = omega (arith, m.next_turn, later, now);
    counted = omega (arith, m.counted, later, now);
    spent = omega (arith, m.spent, later, now);
  }
    where
      rest : queued (pop c).0 ≡ xs
      rest = queued-pop c ∙ ap tail e

      later : length (take b (queued (pop c).0)) ≡ length (take b xs)
      later = ap (λ r. length (take b r)) rest

      now : length (take (suc b) (queued c)) ≡ suc (length (take b xs))
      now = ap (λ r. length (take (suc b) r)) e

      one_more :
          (q : Output) (mine : Bool)
          → sent (port q (push_turn rings (t % 3) x o).0)
            ≡ (if mine then sent (port q o) ++ x ∷ [] else sent (port q o))
          → sent (port q (push_turn rings (t % 3) x o).0) ++ dealt q (t + 1) (take b xs)
            ≡ sent (port q o)
              ++ (if mine then x ∷ dealt q (t + 1) (take b xs) else dealt q (t + 1) (take b xs))
      one_more q true p =
          ap (λ r. r ++ dealt q (t + 1) (take b xs)) p
          ∙ append_assoc (sent (port q o)) (x ∷ []) (dealt q (t + 1) (take b xs))
      one_more q false p = ap (λ r. r ++ dealt q (t + 1) (take b xs)) p

  demux_by_queue :
      (b : ℕ) (xs : List (FbpMessage V)) (c : Consumer) (o : Outputs rings) (t work : ℕ)
      → queued c ≡ xs
      → ((q : Output) → b ≤ room (port q o))
      → t + b < 2 ^ 64
      → Dealt b c o t work (demux_loop rings b c o t work)
  demux_by_queue zero xs c o t work e h small =
      unfold demux_loop in
      unfold dealt in
      record {
        in_turn = λ q. sym (append-nil (sent (port q o)));
        left = refl;
        next_turn = omega arith;
        counted = omega arith;
        spent = refl;
      }
  demux_by_queue (suc b) [] c o t work e h small = rw (demux_empty (suc b) c o t work e) at_rest
    where
      none_moved : length (take (suc b) (queued c)) ≡ 0
      none_moved = ap (λ q. length (take (suc b) q)) e

      at_rest :
          Dealt
            (suc b)
            c
            o
            t
            work
            (record { inport = c; outputs = o; branch = t; budget = suc b; work = work })
      at_rest =
          unfold dealt in
          record {
            in_turn = λ q.
                sym (append-nil (sent (port q o)))
                ∙ sym (ap (λ r. sent (port q o) ++ dealt q t (take (suc b) r)) e);
            left = e ∙ sym (ap (drop (suc b)) e);
            next_turn = omega (arith, none_moved);
            counted = omega (arith, none_moved);
            spent = omega (arith, none_moved);
          }
  demux_by_queue (suc b) (x ∷ xs) c o t work e h small =
      let o' : Outputs rings = (push_turn rings (t % 3) x o).0 in
      let rest : queued (pop c).0 ≡ xs = queued-pop c ∙ ap tail e in
      let free : (q : Output) → 0 < room (port q o) = λ q. omega (arith, h q) in
      let next : add_u64 t 1 ≡ t + 1 = add_u64_exact t 1 (omega arith) in
      let ih =
        demux_by_queue b xs (pop c).0 o' (t + 1) (work + 1) rest
          (λ q. omega (arith, h q, room-push_turn q (t % 3) x o)) (omega arith) in
      rw (demux_step b x xs c o t work e free) (rw next (more-Dealt b x xs c o t work e free _ ih))

  -- The loop, whose outputs each have a free slot for each round of the budget and whose turn does not
  -- reach 2^64, deals the packets that wait, up to the budget, to the outputs in turn, each output
  -- getting its own in their order; the rest still waits, the turn and the work have grown and the
  -- budget has shrunk by the number of packets.
  pub demux_loop-Dealt :
      (b : ℕ) (c : Consumer) (o : Outputs rings) (t work : ℕ)
      → ((q : Output) → b ≤ room (port q o))
      → t + b < 2 ^ 64
      → Dealt b c o t work (demux_loop rings b c o t work)
  demux_loop-Dealt b c o t work h small = demux_by_queue b (queued c) c o t work refl h small
