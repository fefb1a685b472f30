-- ===== src/Components/Muxer/Budget.antt =====
-- components/muxer/src/muxer.rs: the budget against the work that a call reports.
use flowd.Base.{
  ℕ, zero, suc, ◌+◌, ◌<◌, ◌≡◌, refl, ◌∙◌, Bool, true, false, Option, none, some, List, [], ◌∷◌,
  if◌then◌else◌, arith,
}
use flowd.Api.Context.{ProcessResult, did_work, finished}
use flowd.Api.Message.{FbpMessage}
use flowd.Api.Rings.{Rtrb}
use flowd.Api.Signals.{check_signal}
use flowd.Components.Muxer.{
  Muxer, PortState, MuxState, mux_port, mux_ports, all_abandoned, report, process,
}

-- What a result says to have done.
abbrev pub units : ProcessResult → Option ℕ
units (did_work k) = some k
units _ = none

module _ {V : Type 0} (rings : Rtrb (FbpMessage V)) where
  open rings use {Producer, Consumer, push, pop, nothing_queued}

  mux_port_balanced :
      (b : ℕ) (c : Consumer) (p : Producer) (work : ℕ)
      → (mux_port rings b c p work).budget + (mux_port rings b c p work).work ≡ b + work
  unfolding mux_port
  mux_port_balanced zero c p work = refl
  mux_port_balanced (suc b) c p work =
      by_queued (λ ip. mux_port_balanced b (pop c).0 (push ip p).0 (work + 1)) (nothing_queued c)
        refl
    where
      by_pushed :
          (later : (ip : FbpMessage V)
            → (mux_port rings b (pop c).0 (push ip p).0 (work + 1)).budget
                + (mux_port rings b (pop c).0 (push ip p).0 (work + 1)).work
              ≡ b + (work + 1))
          → (ip : FbpMessage V) → nothing_queued c ≡ false
          → (pop c).1 ≡ some ip
          → (taken : Bool) → (push ip p).1 ≡ taken
          → (mux_port rings (suc b) c p work).budget + (mux_port rings (suc b) c p work).work
            ≡ suc b + work
      by_pushed later ip q e true t = rw (q, mux_port) (rw e (rw t (omega (arith, later ip))))
      by_pushed later ip q e false t = rw (q, mux_port) (rw e (rw t refl))

      by_popped :
          (later : (ip : FbpMessage V)
            → (mux_port rings b (pop c).0 (push ip p).0 (work + 1)).budget
                + (mux_port rings b (pop c).0 (push ip p).0 (work + 1)).work
              ≡ b + (work + 1))
          → nothing_queued c ≡ false
          → (o : Option (FbpMessage V)) → (pop c).1 ≡ o
          → (mux_port rings (suc b) c p work).budget + (mux_port rings (suc b) c p work).work
            ≡ suc b + work
      by_popped later q none e = rw (q, mux_port) (rw e refl)
      by_popped later q (some ip) e = by_pushed later ip q e (push ip p).1 refl

      by_queued :
          (later : (ip : FbpMessage V)
            → (mux_port rings b (pop c).0 (push ip p).0 (work + 1)).budget
                + (mux_port rings b (pop c).0 (push ip p).0 (work + 1)).work
              ≡ b + (work + 1))
          → (empty : Bool) → nothing_queued c ≡ empty
          → (mux_port rings (suc b) c p work).budget + (mux_port rings (suc b) c p work).work
            ≡ suc b + work
      by_queued later true e = rw (e, mux_port) refl
      by_queued later false e = by_popped later e (pop c).1 refl

  mux_ports_balanced :
      (b : ℕ) (cs : List Consumer) (p : Producer) (work : ℕ)
      → (mux_ports rings b cs p work).budget + (mux_ports rings b cs p work).work ≡ b + work
  unfolding mux_ports
  mux_ports_balanced b [] p work = refl
  mux_ports_balanced b (c ∷ cs) p work =
      let s : PortState rings = mux_port rings b c p work in
      ground (arith, mux_port_balanced b c p work, mux_ports_balanced s.budget cs s.out s.work)

  -- The three ways in which a call ends.
  abbrev ended :
      Bool → Bool → Muxer rings → Muxer rings → ℕ → ℕ → ℕ → Muxer rings × ℕ × ProcessResult
  ended stop gone m m' budget left work =
      if stop
      then (m, budget, finished)
      else if gone
      then (m', left, finished)
      else (m', left, report work)

  settle :
      (stop gone : Bool) (x y : Muxer rings) (budget left work k : ℕ)
      → left + work ≡ budget
      → units (ended stop gone x y budget left work).2 ≡ some k
      → (0 < k) × ((ended stop gone x y budget left work).1 + k ≡ budget)
  unfolding report
  settle true gone x y budget left work k e h = ground arith
  settle false true x y budget left work k e h = ground arith
  settle false false x y budget left work k e h = ground arith

  -- If a call of the muxer reports work, then it is some, and just as much as it has taken off the
  -- budget, whatever the edges did.
  process_balanced :
      (m : Muxer rings) (budget k : ℕ)
      → units (process rings m budget).2 ≡ some k
      → (0 < k) × ((process rings m budget).1 + k ≡ budget)
  unfolding process
  process_balanced m budget k h =
      let s : MuxState rings = mux_ports rings budget m.inn m.out 0 in
      settle (check_signal m.signals).1 (all_abandoned rings s.inn) _ _ budget s.budget s.work k
        (mux_ports_balanced budget m.inn m.out 0 ∙ omega arith) h
