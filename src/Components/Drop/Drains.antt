-- ===== src/Components/Drop/Drains.antt =====
-- components/drop/src/drop.rs: how much a call drops, and what it reports.
use flowd.Base.{
  ℕ, zero, suc, ◌+◌, ◌-◌, ◌≡◌, refl, sym, ap, ◌∙◌, true, false, List, [], min, length, take, drop,
  length-take, length-drop, drop_past, is_empty, if◌then◌else◌, ltb, leb, lt→ltb, arith, Bool-cases,
  inl, inr, ◌⊎◌,
}
use flowd.Api.Context.{ProcessResult, did_work, no_work, finished}
use flowd.Api.Message.{FbpMessage}
use flowd.Api.Rings.{Rtrb}
use flowd.Api.Rings.Laws.{nothing_left, something_left}
use flowd.Api.Signals.{Signals}
use flowd.Components.Drop.{Drop, Draining, drain, conclude, process}
use flowd.Components.Repeat.{check_text_signal}

module _ {V : Type 0} (rings : Rtrb (FbpMessage V)) where
  open rings use {
    Consumer, nothing_queued, is_abandoned, slots, read_chunk, queued, is_empty-queued,
    slots-queued, chunk-read_chunk,
  }

  -- What is left after some rounds, from `q` packets at the inport and `b` units of budget.
  record IsDrained (b : ℕ) (q : List (FbpMessage V)) (work : ℕ) (s : Draining rings) : Type 0 where
    left : queued s.inport ≡ drop b q
    unused : s.budget ≡ b - length q
    counted : s.work ≡ work + min (length q) b
    not_stopped : s.stopped ≡ false

  nothing-IsDrained :
      (b : ℕ) (c : Consumer) (sg : Signals V) (work : ℕ)
      → (b ≡ 0) ⊎ (nothing_queued c ≡ true)
      → IsDrained b
          (queued c)
          work
          (record { inport = c; signals = sg; budget = b; work = work; stopped = false })
  nothing-IsDrained b c sg work (inl e) = record {
    left = rw e refl;
    unused = omega (arith, e);
    counted = omega (arith, e);
    not_stopped = refl;
  }
  nothing-IsDrained b c sg work (inr q) =
      let e : queued c ≡ [] = nothing_left rings c q in
      record {
        left = e ∙ rw e (sym (drop_past b [] (omega arith)));
        unused = omega (arith, ap length e);
        counted = omega (arith, ap length e);
        not_stopped = refl;
      }

  -- Without budget or packets nothing is done.
  drain-ends :
      (n b : ℕ) (c : Consumer) (sg : Signals V) (work : ℕ)
      → (b ≡ 0) ⊎ (nothing_queued c ≡ true)
      → IsDrained b (queued c) work (drain rings n b c sg work)
  unfolding drain
  drain-ends zero b c sg work h = nothing-IsDrained b c sg work h
  drain-ends (suc n) b c sg work h = elim (Bool-cases (ltb 0 b)) [
    | inr none_left ↦ rw (none_left, drain) (nothing-IsDrained b c sg work h)
    | inl some_left ↦ elim h [
      | inl e ↦ absurd (ground (arith, some_left, e))
      | inr q ↦ rw (some_left, drain) (rw q (nothing-IsDrained b c sg work (inr q)))
    ]
  ]

  -- The rounds after the first: there is no budget left, or no packet.
  one_chunk :
      (b n : ℕ) (c c' : Consumer) (sg : Signals V)
      → n ≡ min (length (queued c)) (suc b)
      → queued c' ≡ drop n (queued c)
      → IsDrained (suc b) (queued c) 0 (
          drain rings b (suc b - length (take n (queued c))) c' sg (0 + length (take n (queued c))))
  one_chunk b n c c' sg e rest =
      let q = queued c in
      let k : length (take n q) ≡ n = omega (arith, length-take n q) in
      let some_left : length (queued c') ≡ length q - n = ap length rest ∙ length-drop n q in
      rw k (elim (Bool-cases (leb (suc b) (length q))) [
        | inl enough ↦
            let all : n ≡ suc b = ground (arith, enough, e) in
            let is = drain-ends b (suc b - n) c' sg (0 + n) (inl (omega (arith, all))) in
            let none_left : suc b - n ≡ 0 = omega (arith, all) in
            record {
              left =
                  is.left ∙ ap (λ m. drop m (queued c')) none_left ∙ rest ∙ ap (λ m. drop m q) all;
              unused = omega (arith, is.unused, some_left, all);
              counted = omega (arith, is.counted, some_left, all, e);
              not_stopped = is.not_stopped;
            }
        | inr few ↦
            let all : n ≡ length q = ground (arith, few, e) in
            let none_queued : queued c' ≡ [] =
              rest ∙ ap (λ m. drop m q) all ∙ drop_past (length q) q (omega arith) in
            let is =
              drain-ends b (suc b - n) c' sg (0 + n)
                (inr (is_empty-queued c' ∙ ap is_empty none_queued)) in
            record {
              left =
                  is.left
                  ∙ ap (drop (suc b - n)) none_queued
                  ∙ drop_past (suc b - n) [] (omega arith)
                  ∙ sym (drop_past (suc b) q (ground (arith, few)));
              unused = omega (arith, is.unused, some_left, all);
              counted = omega (arith, is.counted, some_left, all, e);
              not_stopped = is.not_stopped;
            }
      ])

  drain-IsDrained :
      (b : ℕ) (c : Consumer) (sg : Signals V)
      → (check_text_signal sg).1 ≡ false
      → IsDrained b (queued c) 0 (drain rings b b c sg 0)
  unfolding drain
  drain-IsDrained zero c sg calm = drain-ends 0 0 c sg 0 (inl refl)
  drain-IsDrained (suc b) c sg calm = elim (Bool-cases (nothing_queued c)) [
    | inl q ↦ drain-ends (suc b) (suc b) c sg 0 (inr q)
    | inr q ↦
        let n = min (slots c) (suc b) in
        let e : n ≡ min (length (queued c)) (suc b) = omega (arith, slots-queued c) in
        let (c', chunk, rest) = chunk-read_chunk n c (omega (arith, e)) in
        let some_left = something_left rings c q in
        let pos : ltb 0 n ≡ true = lt→ltb 0 n (omega (arith, some_left, e)) in
        let b_pos : ltb 0 (suc b) ≡ true = ground arith in
        rw (b_pos, drain) (rw q (rw calm (rw pos (rw chunk (one_chunk b n c c' _ e rest)))))
  ]

  -- What a call does to `q` packets, with `b` units of budget.
  abbrev Drained : ℕ → List (FbpMessage V) → Drop rings × ℕ × ProcessResult → Type 0
  Drained b q out =
      (queued out.0.inn ≡ drop b q)
      × (out.1 ≡ b - length q)
      × (out.2 ≡ (
          if ltb 0 (min (length q) b)
          then did_work (min (length q) b)
          else if is_abandoned out.0.inn
          then finished
          else no_work))

  conclude-Drained :
      (b : ℕ) (q : List (FbpMessage V)) (s : Draining rings)
      → IsDrained b q 0 s
      → Drained b q (conclude rings s)
  unfolding conclude
  conclude-Drained b q s is =
      let work : s.work ≡ min (length q) b = omega (arith, is.counted) in
      rw is.not_stopped (
        rw work (elim (Bool-cases (ltb 0 (min (length q) b))) [
          | inl some_dropped ↦ rw some_dropped (is.left, is.unused, refl)
          | inr none_dropped ↦ rw none_dropped (elim (Bool-cases (is_abandoned s.inport)) [
            | inl over ↦ rw over (is.left, is.unused, rw over refl)
            | inr more ↦ rw more (is.left, is.unused, rw more refl)
          ])
        ]))

  -- A call with no signal to stop drops packets up to its budget, takes their number from the budget and
  -- reports it. If there were none, it ends when no more can come.
  pub process-Drained :
      (d : Drop rings) (budget : ℕ)
      → (check_text_signal d.signals).1 ≡ false
      → (check_text_signal (check_text_signal d.signals).0).1 ≡ false
      → let out = process rings d budget in
        let dropped = min (length (queued d.inn)) budget in
        (queued out.0.inn ≡ drop budget (queued d.inn))
        × (out.1 ≡ budget - length (queued d.inn))
        × (out.2 ≡ (
            if ltb 0 dropped
            then did_work dropped
            else if is_abandoned out.0.inn
            then finished
            else no_work))
  unfolding process
  process-Drained d budget calm calm_again =
      rw (calm, process)
        (conclude-Drained budget (queued d.inn) _
          (drain-IsDrained budget d.inn (check_text_signal d.signals).0 calm_again))
