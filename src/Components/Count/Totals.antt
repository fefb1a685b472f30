-- ===== src/Components/Count/Totals.antt =====
-- components/count/src/count.rs: what a call counts, and when it reports.
use flowd.Base.{
  ℕ, ◌+◌, ◌%◌, ◌^◌, ◌<◌, ◌≡◌, refl, sym, ap, ◌∙◌, subst, true, false, not, ◌&&◌, some, List, [],
  ◌∷◌, ◌++◌, append-nil, length, is_empty, ltb, arith, Bool-cases, inl, inr, ◌⊎◌,
}
use flowd.Api.Context.{ProcessResult}
use flowd.Api.Message.{FbpMessage, text}
use flowd.Api.Rings.{Rtrb}
use flowd.Api.Signals.{check_signal, Calm, check_signal-Calm}
use flowd.Components.Count.{
  Libraries, Mode, Count, Counting, count_loop, total, display, emit_final_count, conclude,
  count_with, process_mode, process,
}
use flowd.Components.Count.Reports.{emit_keeps, emit_in_order, flush_budget, with_flushed}
use flowd.Components.Count.Chunks.{weights, IsLooped, count_loop-IsLooped}
use flowd.Components.Repeat.{Flushed, flush}
use flowd.Components.Repeat.Lossless.{Settled, flush-IsFlushed}

module _ (libs : Libraries) {V : Type 0} (rings : Rtrb (FbpMessage V)) where
  open rings use {Producer, Consumer, push, sent, room, queued, nothing_queued, is_abandoned}

  -- What a call did that counts by `mode`, and leaves `left` of its budget: the packets `taken` were
  -- counted, until the budget or the packets ended. The reports, one at most, follow all earlier ones, and
  -- say the new total. There is none only if more packets can come and nothing was counted or some wait,
  -- or if no more can come and earlier reports wait.
  pub record IsTotalled (mode : Mode) (k k' : Count libs rings) (left : ℕ) : Type 0 where
    pub taken : List (FbpMessage V)
    pub parts : queued k.inn ≡ taken ++ queued k'.inn
    pub ended : (left ≡ 0) ⊎ (queued k'.inn ≡ [])
    pub tally :
        total libs rings mode k' ≡ (total libs rings mode k + weights libs mode taken) % 2 ^ 64
    pub reports : List (FbpMessage V)
    pub in_order : sent k'.out ++ k'.pending_reports ≡ (sent k.out ++ k.pending_reports) ++ reports
    pub said :
        (reports ≡ text (display (total libs rings mode k')) ∷ [])
        ⊎ ((reports ≡ [])
            × (((is_abandoned k'.inn ≡ false) × ((taken ≡ []) ⊎ (nothing_queued k'.inn ≡ false)))
                ⊎ ((is_abandoned k'.inn ≡ true) × (0 < length k'.pending_reports))))

  -- From the state `k₁` before the loop, whose reports are those of `k`.
  module _ (mode : Mode) (k k₁ : Count libs rings) (work : ℕ) (s : Counting libs rings)
      (is : IsLooped libs rings mode k₁ work s) where
    reported :
        queued k.inn ≡ queued k₁.inn
        → total libs rings mode k₁ ≡ total libs rings mode k
        → sent k₁.out ++ k₁.pending_reports ≡ sent k.out ++ k.pending_reports
        → Settled rings k₁.pending_reports k₁.out
        → IsTotalled mode k (emit_final_count libs rings mode s.counter) s.budget
    reported q t kept settled =
        let (same_inn, same_total) = emit_keeps libs rings mode s.counter in
        record {
          taken = is.counted.taken;
          parts = q ∙ is.counted.parts ∙ ap (λ c. is.counted.taken ++ queued c) (sym same_inn);
          ended = subst (λ c. (s.budget ≡ 0) ⊎ (queued c ≡ [])) (sym same_inn) is.ended;
          tally =
              same_total
              ∙ is.counted.tally
              ∙ ap (λ n. (n + weights libs mode is.counted.taken) % 2 ^ 64) t;
          reports = text (display (total libs rings mode s.counter)) ∷ [];
          in_order =
              emit_in_order libs rings mode s.counter (
                subst (λ p. Settled rings p s.counter.out) (sym is.counted.same_pending)
                  (subst (Settled rings k₁.pending_reports) (sym is.counted.same_out) settled))
              ∙ ap (λ r. r ++ text (display (total libs rings mode s.counter)) ∷ [])
                  (ap (λ p. sent p ++ s.counter.pending_reports) is.counted.same_out
                    ∙ ap (λ r. sent k₁.out ++ r) is.counted.same_pending
                    ∙ kept);
          said = inl (ap (λ n. text (display n) ∷ []) (sym same_total));
        }

    unreported :
        queued k.inn ≡ queued k₁.inn
        → total libs rings mode k₁ ≡ total libs rings mode k
        → sent k₁.out ++ k₁.pending_reports ≡ sent k.out ++ k.pending_reports
        → ((is_abandoned s.counter.inn ≡ false)
            × ((is.counted.taken ≡ []) ⊎ (nothing_queued s.counter.inn ≡ false)))
          ⊎ ((is_abandoned s.counter.inn ≡ true) × (0 < length s.counter.pending_reports))
        → IsTotalled mode k s.counter s.budget
    unreported q t kept why = record {
      taken = is.counted.taken;
      parts = q ∙ is.counted.parts;
      ended = is.ended;
      tally = is.counted.tally ∙ ap (λ n. (n + weights libs mode is.counted.taken) % 2 ^ 64) t;
      reports = [];
      in_order =
          ap (λ p. sent p ++ s.counter.pending_reports) is.counted.same_out
          ∙ ap (λ r. sent k₁.out ++ r) is.counted.same_pending
          ∙ kept
          ∙ sym (append-nil (sent k.out ++ k.pending_reports));
      said = inr (refl, why);
    }

    why_silent :
        (ltb 0 s.work && nothing_queued s.counter.inn && not (is_abandoned s.counter.inn)) ≡ false
        → (is_abandoned s.counter.inn && is_empty s.counter.pending_reports) ≡ false
        → ((is_abandoned s.counter.inn ≡ false)
            × ((is.counted.taken ≡ []) ⊎ (nothing_queued s.counter.inn ≡ false)))
          ⊎ ((is_abandoned s.counter.inn ≡ true) × (0 < length s.counter.pending_reports))
    why_silent e unfinished = elim (Bool-cases (is_abandoned s.counter.inn)) [
      | inl over ↦
          inr (over, some_wait s.counter.pending_reports (ground (arith, over, unfinished)))
      | inr going_on ↦ elim (Bool-cases (nothing_queued s.counter.inn)) [
        | inr more ↦ inl (going_on, inr more)
        | inl q ↦
            let idle : ltb 0 s.work ≡ false = ground (arith, e, q, going_on) in
            let no_work : s.work ≡ 0 = ground (arith, idle) in
            inl (going_on, inl (none_taken is.counted.taken (omega (arith, is.worked, no_work))))
      ]
    ]
      where
        some_wait : (xs : List (FbpMessage V)) → is_empty xs ≡ false → 0 < length xs
        some_wait [] h = absurd (ground (arith, h))
        some_wait (x ∷ xs) h = omega arith

        none_taken : (xs : List (FbpMessage V)) → length xs ≡ 0 → xs ≡ []
        none_taken [] h = refl
        none_taken (x ∷ xs) h = absurd (omega (arith, h))

    abbrev Ends : Count libs rings × ℕ × ProcessResult → Type 0
    Ends out = IsTotalled mode k out.0 out.1

    conclude-IsTotalled :
        queued k.inn ≡ queued k₁.inn
        → total libs rings mode k₁ ≡ total libs rings mode k
        → sent k₁.out ++ k₁.pending_reports ≡ sent k.out ++ k.pending_reports
        → Settled rings k₁.pending_reports k₁.out
        → Ends (conclude libs rings mode s)
    unfolding conclude
    conclude-IsTotalled q t kept settled =
        let report_now = reported q t kept settled in
        elim (Bool-cases
          (ltb 0 s.work && nothing_queued s.counter.inn && not (is_abandoned s.counter.inn))) [
            | inl dry ↦
                let same_inn = (emit_keeps libs rings mode s.counter).0 in
                let going_on : is_abandoned s.counter.inn ≡ false = ground (arith, dry) in
                let still : is_abandoned (emit_final_count libs rings mode s.counter).inn ≡ false =
                  ap is_abandoned same_inn ∙ going_on in
                rw is.not_stopped (rw dry (rw still report_now))
            | inr not_dry ↦ rw is.not_stopped (
                rw not_dry
                  (elim (Bool-cases
                    (is_abandoned s.counter.inn && is_empty s.counter.pending_reports)) [
                      | inl final ↦ rw final report_now
                      | inr unfinished ↦
                          rw unfinished (unreported q t kept (why_silent not_dry unfinished))
                    ]))
          ]

  -- A configured component without a signal to stop, whose total is a number of 64 bits and which has
  -- more budget than reports that wait, does not panic. It counts packets until the budget or the
  -- packets end, modulo 2^64, and reports the new total behind all earlier reports. It does not report
  -- only if more packets can come and it counted nothing or left some, or if no more can come and
  -- earlier reports wait.
  pub process-IsTotalled :
      (k : Count libs rings) (mode : Mode) (budget : ℕ)
      → k.mode ≡ some mode
      → Calm k.signals
      → total libs rings mode k < 2 ^ 64
      → length k.pending_reports < budget
      → (out : Count libs rings × ℕ × ProcessResult) × (process libs rings k budget ≡ some out)
        × IsTotalled mode k out.0 out.1
  unfolding process process_mode
  process-IsTotalled k mode budget configured calm below enough =
      let f : Flushed rings = flush rings budget k.pending_reports k.out 0 in
      let (first, calm') = check_signal-Calm k.signals calm in
      let sg = (check_signal k.signals).0 in
      let k₁ : Count libs rings = record k {
        out = f.out;
        pending_reports = f.pending;
        signals = sg;
      } in
      let same = with_flushed libs rings mode k f.out f.pending sg in
      let flushed = flush-IsFlushed rings budget k.pending_reports k.out 0 in
      let settled : Settled rings f.pending f.out = elim flushed.settled [
        | inl used ↦
            absurd (
              omega (arith, used, enough, flush_budget libs rings budget k.pending_reports k.out 0))
        | inr s ↦ s
      ] in
      let looped =
        count_loop-IsLooped libs rings mode f.budget f.budget k₁ f.work (omega arith)
          (omega (arith, same, below)) calm' in
      let all : IsTotalled mode k (count_with libs rings mode k budget).0
          (count_with libs rings mode k budget).1 =
        rw (first, count_with)
          (conclude-IsTotalled mode k k₁ f.work
            (count_loop libs rings mode f.budget f.budget k₁ f.work) looped refl same flushed.kept
            settled) in
      (
        count_with libs rings mode k budget,
        ap (λ o. process_mode libs rings o k budget) configured,
        all,
      )
