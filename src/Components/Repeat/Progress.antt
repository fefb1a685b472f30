-- ===== src/Components/Repeat/Progress.antt =====
-- components/repeat/src/repeat.rs: a call goes on as long as it can.
use flowd.Base.{
  ℕ, zero, suc, ◌+◌, ◌≡◌, refl, ◌∙◌, false, ◌&&◌, List, [], ◌∷◌, All, if_elim, is_empty, bytes,
  str_eq, arith, Bool-cases, Option-cases, inl, inr, ◌⊎◌,
}
use flowd.Api.Context.{ProcessResult}
use flowd.Api.Message.{FbpMessage}
use flowd.Api.Rings.{Rtrb}
use flowd.Api.Rings.Laws.{drained, accepted, refused, pop_none}
use flowd.Api.Signals.{Signals}
use flowd.Components.Repeat.{
  Repeat, Flushed, Relayed, plain_text, receive_text, check_text_signal, flush, relay, process,
}
use flowd.Components.Repeat.Lossless.{Settled, flush-IsFlushed}

module _ {V : Type 0} where
  -- No signal that waits says to stop.
  abbrev pub CalmText : Signals V → Type 0
  CalmText s = All (λ m. str_eq (plain_text m) (bytes "stop") ≡ false) s.incoming

  check_text_signal-CalmText :
      (s : Signals V)
      → CalmText s
      → ((check_text_signal s).1 ≡ false) × CalmText (check_text_signal s).0
  unfolding check_text_signal
  check_text_signal-CalmText s calm = by_first s.incoming calm
    where
      by_first :
          (ms : List (FbpMessage V))
          → All (λ m. str_eq (plain_text m) (bytes "stop") ≡ false) ms
          → ((receive_text ms s).1 ≡ false) × CalmText (receive_text ms s).0
      by_first [] hs = (refl, calm)
      by_first (m ∷ ms) (h, hs) = rw h (elim (Bool-cases (str_eq (plain_text m) (bytes "ping"))) [
        | inl e ↦ rw e (refl, hs)
        | inr e ↦ rw e (refl, hs)
      ])

module _ {V : Type 0} (rings : Rtrb (FbpMessage V)) where
  open rings use {Producer, Consumer, push, pop, room, queued, popped}

  -- Nothing more can be done: without budget, without packets, or at a full outport.
  abbrev Over : ℕ → Consumer → List (FbpMessage V) → Producer → Type 0
  Over left c ps p = (left ≡ 0) ⊎ (((queued c ≡ []) × (ps ≡ [])) ⊎ (room p ≡ 0))

  relay_ends :
      (b : ℕ) (c : Consumer) (p : Producer) (sg : Signals V) (ps : List (FbpMessage V)) (work : ℕ)
      → CalmText sg
      → (b ≡ 0) ⊎ Settled rings ps p
      → let s = relay rings b c p sg ps work in
        (s.stopped ≡ false) × Over s.budget s.inport s.pending s.out
  unfolding relay
  relay_ends zero c p sg ps work calm settled = (refl, inl refl)
  relay_ends (suc b) c p sg ps work calm (inl never) = absurd (omega arith)
  relay_ends (suc b) c p sg ps work calm (inr settled) =
      let (first, calm') = check_text_signal-CalmText sg calm in
      elim (Option-cases (pop c).1) [
        | inl e ↦
            let dry = pop_none rings c e ∙ drained rings c e in
            rw (first, relay)
              (rw e (
                refl,
                elim settled [
                  | inl none_left ↦ inr (inl (dry, none_left))
                  | inr full ↦ inr (inr full)
                ],
              ))
        | inr (x, e) ↦ elim (Bool-cases (push x p).1) [
          | inr full ↦
              rw (first, relay) (rw e (rw full (refl, inr (inr (refused rings x p full).0))))
          | inl taken ↦ elim settled [
            | inr no_room ↦ absurd (omega (arith, (accepted rings x p taken).0, no_room))
            | inl none_left ↦
                rw (first, relay)
                  (rw e (
                    rw taken (
                      relay_ends b (pop c).0 (push x p).0 (check_text_signal sg).0 ps (work + 1)
                        calm' (inr (inl none_left)))))
          ]
        ]
      ]

  -- Without a signal to stop, a call goes on until its budget is used, until all packets were sent, those
  -- that waited in the component and those at the inport, or until the outport is full.
  pub process_ends :
      (r : Repeat rings) (budget : ℕ)
      → CalmText r.signals
      → let out = process rings r budget in
        (out.1 ≡ 0) ⊎ (((queued out.0.inn ≡ []) × (out.0.pending_out ≡ [])) ⊎ (room out.0.out ≡ 0))
  unfolding process
  process_ends r budget calm =
      let f : Flushed rings = flush rings budget r.pending_out r.out 0 in
      let (first, calm') = check_text_signal-CalmText r.signals calm in
      let s : Relayed rings =
        relay rings f.budget r.inn f.out (check_text_signal r.signals).0 f.pending f.work in
      let (going_on, over) =
        relay_ends f.budget r.inn f.out (check_text_signal r.signals).0 f.pending f.work calm'
          (flush-IsFlushed rings budget r.pending_out r.out 0).settled in
      rw first (
        rw going_on
          (if_elim Ends (rings.is_abandoned s.inport && is_empty s.pending) _ _ over over))
    where
      Ends : Repeat rings × ℕ × ProcessResult → Type 0
      Ends out = Over out.1 out.0.inn out.0.pending_out out.0.out
