-- ===== src/Components/Count/Reports.antt =====
-- components/count/src/count.rs: what a report changes, and what the flush leaves of the budget.
use flowd.Base.{
  ℕ, zero, suc, ◌+◌, ◌≤◌, ◌≡◌, refl, sym, ap, ◌∙◌, List, [], ◌∷◌, ◌++◌, append_assoc, append-nil,
  length, arith, Bool-cases, inl, inr,
}
use flowd.Api.Message.{FbpMessage, text}
use flowd.Api.Rings.{Rtrb}
use flowd.Api.Rings.Laws.{accepted, refused}
use flowd.Api.Signals.{Signals}
use flowd.Components.Count.{Libraries, Mode, size, Count, total, display, emit_final_count}
use flowd.Components.Repeat.{flush}
use flowd.Components.Repeat.Lossless.{Settled}

module _ (libs : Libraries) {V : Type 0} (rings : Rtrb (FbpMessage V)) where
  open rings use {Producer, Consumer, push, sent, room, queued, nothing_queued, is_abandoned}

  pub emit_keeps :
      (mode : Mode) (k : Count libs rings)
      → let k' = emit_final_count libs rings mode k in
        (k'.inn ≡ k.inn) × (total libs rings mode k' ≡ total libs rings mode k)
  unfolding emit_final_count total
  emit_keeps Mode.packets k = (refl, refl)
  emit_keeps size k = (refl, refl)
  emit_keeps Mode.sum k = (refl, refl)

  -- A report goes behind all earlier ones, if none waits or the outport is full.
  pub emit_in_order :
      (mode : Mode) (k : Count libs rings)
      → Settled rings k.pending_reports k.out
      → let k' = emit_final_count libs rings mode k in
        sent k'.out ++ k'.pending_reports
        ≡ (sent k.out ++ k.pending_reports) ++ text (display (total libs rings mode k)) ∷ []
  unfolding emit_final_count
  emit_in_order mode k settled =
      let m = text (display (total libs rings mode k)) in
      elim (Bool-cases (push m k.out).1) [
        | inr full ↦ rw full (
            ap (λ q. q ++ (k.pending_reports ++ m ∷ [])) (refused rings m k.out full).1
            ∙ sym (append_assoc (sent k.out) k.pending_reports (m ∷ [])))
        | inl taken ↦ elim settled [
          | inr no_room ↦ absurd (omega (arith, (accepted rings m k.out taken).0, no_room))
          | inl none_left ↦ rw taken (
              ap (λ q. q ++ k.pending_reports) (accepted rings m k.out taken).1
              ∙ ap (λ q. (sent k.out ++ m ∷ []) ++ q) none_left
              ∙ append-nil (sent k.out ++ m ∷ [])
              ∙ ap (λ q. q ++ m ∷ [])
                  (sym (append-nil (sent k.out)) ∙ ap (λ q. sent k.out ++ q) (sym none_left)))
        ]
      ]

  pub flush_budget :
      (b : ℕ) (ps : List (FbpMessage V)) (p : Producer) (work : ℕ)
      → b ≤ (flush rings b ps p work).budget + length ps
  unfolding flush
  flush_budget zero ps p work = omega arith
  flush_budget (suc b) [] p work = omega arith
  flush_budget (suc b) (x ∷ ps) p work = elim (Bool-cases (push x p).1) [
    | inl taken ↦ rw (taken, flush) (omega (arith, flush_budget b ps (push x p).0 (work + 1)))
    | inr full ↦ rw (full, flush) (omega arith)
  ]

  pub with_flushed :
      (mode : Mode) (k : Count libs rings) (p : Producer) (ps : List (FbpMessage V))
      (sg : Signals V)
      → total libs rings mode (record k { out = p; pending_reports = ps; signals = sg })
        ≡ total libs rings mode k
  unfolding total
  with_flushed Mode.packets k p ps sg = refl
  with_flushed size k p ps sg = refl
  with_flushed Mode.sum k p ps sg = refl
