-- ===== src/Components/Equals/Flush.antt =====
-- components/equals/src/equals.rs: the packets that wait are sent first.
use mathlib.Core.List.{Perm}
use flowd.Base.{
  Bool-cases, inl, inr, ℕ, zero, suc, ◌+◌, ◌≡◌, refl, ap, ◌∙◌, subst, Bool, [], ◌∷◌, ◌++◌,
  append_assoc, retain,
}
use flowd.Api.Message.{FbpMessage}
use flowd.Api.Rings.{Rtrb}
use flowd.Components.Equals.{Outports, Pending, push_route, flush_pending}
use flowd.Components.Equals.Loop.{IsDealt, routed, is_for}
use flowd.Components.Equals.Pushes.{
  outport, onto, parked, Orderly, route_taken, route_refused, sent-Orderly, blocked-Orderly,
}

module _ {V : Type 0} (value_eq : V → V → Bool) (rings : Rtrb (FbpMessage V)) where
  open rings use {Producer, Consumer, push, pop, sent, room, queued}

  -- The packets that wait are sent in their order, and past a full outport none.
  flush_pending-routed :
      (t : Bool) (b : ℕ) (ps : Pending value_eq rings) (o : Outports value_eq rings) (work : ℕ)
      → let f = flush_pending value_eq rings b ps o work in
        (routed value_eq rings t f.outports f.pending ≡ routed value_eq rings t o ps)
        × (Orderly value_eq rings t ps o → Orderly value_eq rings t f.pending f.outports)
  unfolding flush_pending
  flush_pending-routed t zero ps o work = (refl, λ s. s)
  flush_pending-routed t (suc b) [] o work = (refl, λ s. s)
  flush_pending-routed t (suc b) ((x, r) ∷ ps) o work =
      elim (Bool-cases (push_route value_eq rings r x o).1) [
        | inl e ↦
            let ih = flush_pending-routed t b ps (push_route value_eq rings r x o).0 (work + 1) in
            rw (e, flush_pending)
              (
                ih.0
                    ∙ ap (λ q. q ++ parked value_eq rings t ps)
                        (route_taken value_eq rings t r x o e)
                    ∙ append_assoc (sent (outport value_eq rings t o)) (onto value_eq rings t r x)
                        (parked value_eq rings t ps),
                λ s. ih.1 (sent-Orderly value_eq rings t r x o ps e s),
              )
        | inr e ↦
            rw (e, flush_pending)
              (
                ap (λ q. q ++ parked value_eq rings t ((x, r) ∷ ps))
                    (route_refused value_eq rings t r x o e),
                blocked-Orderly value_eq rings t r x o ((x, r) ∷ ps) e,
              )
      ]

  -- What is routed after the flush is routed from before it.
  pub flushed_first :
      (v : FbpMessage V) (b : ℕ) (c c' : Consumer) (o o' : Outports value_eq rings)
      (ps ps' : Pending value_eq rings)
      → let f = flush_pending value_eq rings b ps o 0 in
        IsDealt value_eq rings v c c' f.outports o' f.pending ps'
        → IsDealt value_eq rings v c c' o o' ps ps'
  flushed_first v b c c' o o' ps ps' is = record {
    taken = is.taken;
    parts = is.parts;
    dealt = λ t.
        subst
          (λ q.
            Perm (routed value_eq rings t o' ps')
              (q ++ retain (is_for value_eq rings t v) is.taken))
          (flush_pending-routed t b ps o 0).0 (is.dealt t);
    in_order = λ t s.
        is.in_order t ((flush_pending-routed t b ps o 0).1 s)
        ∙ ap (λ q. q ++ retain (is_for value_eq rings t v) is.taken)
            (flush_pending-routed t b ps o 0).0;
  }
