-- ===== src/Components/SplitLines/Delivery.antt =====
-- components/splitlines/src/splitlines.rs: what a call sends, keeps and loses.
use mathlib.Core.List.{flat_map}
use flowd.Base.{
  tail, ℕ, zero, suc, ◌+◌, ◌<◌, ◌≤◌, ◌≡◌, refl, sym, ap, ◌∙◌, Option, none, some, List, [], ◌∷◌,
  ◌++◌, append_assoc, length, arith, Bool-cases, Option-cases, inl, inr, ◌⊎◌, if_elim, true,
}
use flowd.Api.Context.{ProcessResult}
use flowd.Api.Message.{FbpMessage}
use flowd.Api.Rings.{Rtrb}
use flowd.Api.Rings.Laws.{accepted, refused, refused_room, pop_none, pop_some}
use flowd.Api.Signals.{Signals, check_signal, Calm, check_signal-Calm}
use flowd.Components.SplitLines.{
  SplitLines, Sending, split_lines, refill, send_lines, send_iter, conclude, process,
}

module _ {V : Type 0} (rings : Rtrb (FbpMessage V)) where
  open rings use {room-push, queued-pop, Producer, Consumer, push, pop, sent, room, queued}

  -- The lines that an iterator still holds.
  abbrev pub lines_left : Option (List (FbpMessage V)) → List (FbpMessage V)
  lines_left none = []
  lines_left (some ls) = ls

  -- All lines in their order: sent, in the iterator, in the packets that wait.
  abbrev pub to_come : Option (List (FbpMessage V)) → Consumer → List (FbpMessage V)
  to_come iter c = lines_left iter ++ flat_map split_lines (queued c)

  refill_keeps :
      (iter : Option (List (FbpMessage V))) (c : Consumer)
      → to_come (refill rings iter c).1 (refill rings iter c).0 ≡ to_come iter c
  unfolding refill flat_map
  refill_keeps (some ls) c = refl
  refill_keeps none c = elim (Option-cases (pop c).1) [
    | inl e ↦ rw e (ap (flat_map split_lines) (pop_none rings c e))
    | inr (ip, e) ↦ rw e (sym (ap (flat_map split_lines) (pop_some rings c ip e)))
  ]

  -- From `ls` lines to send and an output with `b` units of budget.
  record IsSent (b : ℕ) (ls : List (FbpMessage V)) (p : Producer) (s : Sending rings) : Type 0 where
    lost : List (FbpMessage V)
    few : length lost ≤ 1
    kept : sent s.out ++ (lost ++ lines_left s.line_iter) ≡ sent p ++ ls
    none_lost : (lost ≡ []) ⊎ (room p < b)
    ended : (s.budget ≡ 0) ⊎ ((length lost ≡ 1) ⊎ (lines_left s.line_iter ≡ []))

  nothing_to_send :
      (b : ℕ) (ls : List (FbpMessage V)) (p : Producer) (s : Sending rings)
      → s.out ≡ p
      → lines_left s.line_iter ≡ ls
      → (s.budget ≡ 0) ⊎ (ls ≡ [])
      → IsSent b ls p s
  nothing_to_send b ls p s same left why = record {
    lost = [];
    few = omega arith;
    kept = ap (λ q. sent q ++ lines_left s.line_iter) same ∙ ap (λ q. sent p ++ q) left;
    none_lost = inl refl;
    ended = elim why [ inl z ↦ inl z | inr z ↦ inr (inr (left ∙ z)) ];
  }

  one_more :
      (b : ℕ) (l : FbpMessage V) (ls : List (FbpMessage V)) (p : Producer) (s : Sending rings)
      → (push l p).1 ≡ true
      → IsSent b ls (push l p).0 s
      → IsSent (suc b) (l ∷ ls) p s
  one_more b l ls p s taken is = record {
    lost = is.lost;
    few = is.few;
    kept =
        is.kept
        ∙ ap (λ q. q ++ ls) (accepted rings l p taken).1
        ∙ append_assoc (sent p) (l ∷ []) ls;
    none_lost = elim is.none_lost [
      | inl e ↦ inl e
      | inr full ↦ inr (omega (arith, full, room-push l p))
    ];
    ended = is.ended;
  }

  send_lines-IsSent :
      (b : ℕ) (ls : List (FbpMessage V)) (p : Producer) (n : ℕ)
      → IsSent b ls p (send_lines rings b ls p n)
  unfolding send_lines
  send_lines-IsSent zero ls p n = nothing_to_send 0 ls p _ refl refl (inl refl)
  send_lines-IsSent (suc b) [] p n = nothing_to_send (suc b) [] p _ refl refl (inr refl)
  send_lines-IsSent (suc b) (l ∷ ls) p n = elim (Bool-cases (push l p).1) [
    | inl taken ↦
        rw (taken, send_lines)
          (one_more b l ls p _ taken (send_lines-IsSent b ls (push l p).0 (n + 1)))
    | inr full ↦
        rw (full, send_lines)
          (record {
            lost = l ∷ [];
            few = omega arith;
            kept = ap (λ q. q ++ l ∷ ls) (refused rings l p full).1;
            none_lost = inr (omega (arith, refused_room rings l p full));
            ended = inr (inl refl);
          })
  ]

  send_iter-IsSent :
      (b : ℕ) (iter : Option (List (FbpMessage V))) (p : Producer)
      → IsSent b (lines_left iter) p (send_iter rings b iter p)
  unfolding send_iter
  send_iter-IsSent b none p = nothing_to_send b [] p _ refl refl (inr refl)
  send_iter-IsSent b (some ls) p = send_lines-IsSent b ls p 0

  regroup :
      (sent' lost left sent'' ls rest : List (FbpMessage V))
      → sent' ++ (lost ++ left) ≡ sent'' ++ ls
      → sent' ++ (lost ++ (left ++ rest)) ≡ sent'' ++ (ls ++ rest)
  regroup sent' lost left sent'' ls rest h =
      ap (λ q. sent' ++ q) (sym (append_assoc lost left rest))
      ∙ sym (append_assoc sent' (lost ++ left) rest)
      ∙ ap (λ q. q ++ rest) h
      ∙ append_assoc sent'' ls rest

  -- A packet is taken from the inport if no lines were left.
  abbrev pub next_queue : Option (List (FbpMessage V)) → List (FbpMessage V) → List (FbpMessage V)
  next_queue none q = tail q
  next_queue (some ls) q = q

  refill-queue :
      (iter : Option (List (FbpMessage V))) (c : Consumer)
      → queued (refill rings iter c).0 ≡ next_queue iter (queued c)
  unfolding refill
  refill-queue (some ls) c = refl
  refill-queue none c = queued-pop c

  -- What a call did, from one state to another, with the budget that it had and left.
  pub record IsSplit (s s' : SplitLines rings) (budget left : ℕ) : Type 0 where
    pub lost : List (FbpMessage V)
    pub few : length lost ≤ 1
    pub none_lost : (lost ≡ []) ⊎ (room s.out < budget)
    pub kept :
        sent s'.out ++ (lost ++ (lines_left s'.line_iter ++ flat_map split_lines (queued s'.inn)))
        ≡ sent s.out ++ (lines_left s.line_iter ++ flat_map split_lines (queued s.inn))
    pub taken : queued s'.inn ≡ next_queue s.line_iter (queued s.inn)
    pub ended : (left ≡ 0) ⊎ ((length lost ≡ 1) ⊎ (lines_left s'.line_iter ≡ []))

  abbrev Ends : SplitLines rings → ℕ → SplitLines rings × ℕ × ProcessResult → Type 0
  Ends s budget out = IsSplit s out.0 budget out.1

  sends :
      (s : SplitLines rings) (b : ℕ) (signals : Signals V)
      → let (c, iter) = refill rings s.line_iter s.inn in
        let sending = send_iter rings b iter s.out in
        IsSplit s
          (record { inn = c; out = sending.out; signals = signals; line_iter = sending.line_iter })
          b
          sending.budget
  sends s b signals =
      let c = (refill rings s.line_iter s.inn).0 in
      let iter = (refill rings s.line_iter s.inn).1 in
      let sending = send_iter rings b iter s.out in
      let is = send_iter-IsSent b iter s.out in
      record {
        lost = is.lost;
        few = is.few;
        none_lost = is.none_lost;
        kept =
            regroup (sent sending.out) is.lost (lines_left sending.line_iter) (sent s.out)
              (lines_left iter) (flat_map split_lines (queued c)) is.kept
            ∙ ap (λ q. sent s.out ++ q) (refill_keeps s.line_iter s.inn);
        taken = refill-queue s.line_iter s.inn;
        ended = is.ended;
      }

  -- A call with budget, and with no signal to stop, keeps the sequence of the lines that were sent, those
  -- that are left of the current packet and those of the packets at the inport, but for one line at
  -- most. That line is lost only where the outport has fewer free slots than the call has budget. The call
  -- takes a packet if no lines were left, and sends until its budget is used, a line is lost or none is
  -- left.
  pub process-IsSplit :
      (s : SplitLines rings) (budget : ℕ)
      → 0 < budget
      → Calm s.signals
      → let out = process rings s budget in IsSplit s out.0 budget out.1
  unfolding process conclude
  process-IsSplit s zero h calm = absurd (omega arith)
  process-IsSplit s (suc b) h calm =
      let (first, calm') = check_signal-Calm s.signals calm in
      let (second, calm'') = check_signal-Calm (check_signal s.signals).0 calm' in
      let all = sends s (suc b) (check_signal (check_signal s.signals).0).0 in
      rw (first, process)
        (rw second (
          if_elim (Ends s (suc b)) (rings.is_abandoned (refill rings s.line_iter s.inn).0) _ _ all
            all))
