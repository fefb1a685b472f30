-- ===== src/Components/Equals/Loop.antt =====
-- components/equals/src/equals.rs: the loop over the inport.
use mathlib.Core.List.{Perm, perm_append_comm}
use mathlib.Core.List.Perm
use flowd.Base.{
  ◌⊎◌, ℕ, zero, suc, ◌+◌, ◌≡◌, refl, sym, ap, ◌∙◌, subst, Bool, true, false, not, some, List, [],
  ◌∷◌, ◌++◌, append_assoc, append-nil, retain, if◌then◌else◌, Bool-cases, Option-cases, inl, inr,
}
use flowd.Api.Equality.{message_eq}
use flowd.Api.Message.{FbpMessage}
use flowd.Api.Rings.{Rtrb}
use flowd.Api.Rings.Laws.{drained, pop_none, pop_some}
use flowd.Api.Signals.{Signals, check_signal, Calm, check_signal-Calm}
use flowd.Components.Equals.{Outports, Pending, Routed, push_route, route_packets}
use flowd.Components.Equals.Pushes.{
  outport, onto, parked, parked-append, Orderly, route_taken, route_refused, taken-Orderly,
  refused-Orderly,
}

-- Three lists in a row, the two in the middle exchanged, behind a fourth.
module _ {ℓ} {A : Type ℓ} where
  spread : (s o p m : List A) → ((s ++ o) ++ p) ++ m ≡ s ++ ((o ++ p) ++ m)
  spread s o p m = ap (λ q. q ++ m) (append_assoc s o p) ∙ append_assoc s (o ++ p) m

  gather : (s o p m : List A) → s ++ ((p ++ o) ++ m) ≡ (s ++ p) ++ (o ++ m)
  gather s o p m = ap (λ q. s ++ q) (append_assoc p o m) ∙ sym (append_assoc s p (o ++ m))

  exchanged : (s o p m : List A) → p ++ o ≡ o ++ p → ((s ++ o) ++ p) ++ m ≡ (s ++ p) ++ (o ++ m)
  exchanged s o p m h = spread s o p m ∙ ap (λ q. s ++ (q ++ m)) (sym h) ∙ gather s o p m

  exchange : (s o p m : List A) → Perm (((s ++ o) ++ p) ++ m) ((s ++ p) ++ (o ++ m))
  exchange s o p m =
      subst (λ q. Perm q ((s ++ p) ++ (o ++ m))) (sym (spread s o p m))
        (subst (λ q. Perm (s ++ ((o ++ p) ++ m)) q) (gather s o p m)
          (Perm.append_left s (Perm.append_right m (perm_append_comm o p))))

module _ {V : Type 0} (value_eq : V → V → Bool) (rings : Rtrb (FbpMessage V)) where
  open rings use {popped, Producer, Consumer, push, pop, sent, room, queued}

  -- Whether a packet is for this outport: that of the equal ones, or that of the others.
  abbrev pub is_for : Bool → FbpMessage V → FbpMessage V → Bool
  is_for true v x = message_eq value_eq x v
  is_for false v x = not (message_eq value_eq x v)

  -- What was sent and what waits, for this outport.
  abbrev pub routed : Bool → Outports value_eq rings → Pending value_eq rings → List (FbpMessage V)
  routed t o ps = sent (outport value_eq rings t o) ++ parked value_eq rings t ps

  retain-onto :
      (t : Bool) (v x : FbpMessage V) (xs : List (FbpMessage V))
      → onto value_eq rings t (message_eq value_eq x v) x ++ retain (is_for t v) xs
        ≡ retain (is_for t v) (x ∷ xs)
  retain-onto true v x xs = elim (Bool-cases (message_eq value_eq x v)) [
    | inl e ↦ rw e refl
    | inr e ↦ rw e refl
  ]
  retain-onto false v x xs = elim (Bool-cases (message_eq value_eq x v)) [
    | inl e ↦ rw e refl
    | inr e ↦ rw e refl
  ]

  -- The packets `taken` left the inport. At each outport, those that were sent and those that wait are
  -- those that were there and those that are for it, in another order at most; in the same order if
  -- none waited for the outport, or it was full.
  pub record IsDealt (v : FbpMessage V) (c c' : Consumer) (o o' : Outports value_eq rings)
      (ps ps' : Pending value_eq rings) : Type 0 where
    pub taken : List (FbpMessage V)
    pub parts : queued c ≡ taken ++ queued c'
    pub dealt : (t : Bool) → Perm (routed t o' ps') (routed t o ps ++ retain (is_for t v) taken)
    pub in_order :
        (t : Bool)
        → Orderly value_eq rings t ps o
        → routed t o' ps' ≡ routed t o ps ++ retain (is_for t v) taken

  pub nothing-IsDealt :
      (v : FbpMessage V) (c c' : Consumer) (o : Outports value_eq rings)
      (ps : Pending value_eq rings)
      → queued c' ≡ queued c
      → IsDealt v c c' o o ps ps
  nothing-IsDealt v c c' o ps e = record {
    taken = [];
    parts = sym e;
    dealt = λ t. subst (Perm (routed t o ps)) (sym (append-nil (routed t o ps))) (Perm.refl _);
    in_order = λ t s. sym (append-nil (routed t o ps));
  }

  -- One packet, sent or kept, at each outport.
  module _ (t r : Bool) (x : FbpMessage V) (o : Outports value_eq rings)
      (ps : Pending value_eq rings) (m : List (FbpMessage V)) where
    abbrev before : List (FbpMessage V)
    before = sent (outport value_eq rings t o)

    abbrev parks : List (FbpMessage V)
    parks = parked value_eq rings t ps

    abbrev this : List (FbpMessage V)
    this = onto value_eq rings t r x

    abbrev after : Bool → List (FbpMessage V)
    after taken =
        routed t (push_route value_eq rings r x o).0 (if taken then ps else ps ++ (x, r) ∷ []) ++ m

    after_taken :
        (push_route value_eq rings r x o).1 ≡ true → after true ≡ ((before ++ this) ++ parks) ++ m
    after_taken e = ap (λ q. (q ++ parks) ++ m) (route_taken value_eq rings t r x o e)

    after_refused :
        (push_route value_eq rings r x o).1 ≡ false → after false ≡ (before ++ parks) ++ (this ++ m)
    after_refused e =
        ap (λ q. (q ++ parked value_eq rings t (ps ++ (x, r) ∷ [])) ++ m)
          (route_refused value_eq rings t r x o e)
        ∙ ap (λ q. (before ++ q) ++ m) (parked-append value_eq rings t ps x r)
        ∙ append_assoc before (parks ++ this) m
        ∙ gather before this parks m

    after_perm :
        (taken : Bool)
        → (push_route value_eq rings r x o).1 ≡ taken
        → Perm (after taken) (routed t o ps ++ (this ++ m))
    after_perm true e = rw (after_taken e) (exchange before this parks m)
    after_perm false e = rw (after_refused e) Perm.rfl

    after_order :
        (taken : Bool)
        → (push_route value_eq rings r x o).1 ≡ taken
        → Orderly value_eq rings t ps o
        → Orderly value_eq rings t
            (if taken then ps else ps ++ (x, r) ∷ [])
            (push_route value_eq rings r x o).0
          × (after taken ≡ routed t o ps ++ (this ++ m))
    after_order true e s =
        let (s', swapped) = taken-Orderly value_eq rings t r x o ps e s in
        (s', after_taken e ∙ exchanged before this parks m swapped)
    after_order false e s = (refused-Orderly value_eq rings t r x o ps e s, after_refused e)

  one_more :
      (v x : FbpMessage V) (c c' : Consumer) (o o' : Outports value_eq rings)
      (ps ps' : Pending value_eq rings) (taken : Bool)
      → (push_route value_eq rings (message_eq value_eq x v) x o).1 ≡ taken
      → (pop c).1 ≡ some x
      → IsDealt v
          (pop c).0
          c'
          (push_route value_eq rings (message_eq value_eq x v) x o).0
          o'
          (if taken then ps else ps ++ (x, message_eq value_eq x v) ∷ [])
          ps'
      → IsDealt v c c' o o' ps ps'
  one_more v x c c' o o' ps ps' taken e popped ih =
      let r = message_eq value_eq x v in
      record {
        taken = x ∷ ih.taken;
        parts = pop_some rings c x popped ∙ ap (◌∷◌ x) ih.parts;
        dealt = λ t.
            subst (λ q. Perm (routed t o' ps') (routed t o ps ++ q)) (retain-onto t v x ih.taken)
              (Perm.trans (ih.dealt t)
                (after_perm t r x o ps (retain (is_for t v) ih.taken) taken e));
        in_order = λ t s.
            let (s', moved) = after_order t r x o ps (retain (is_for t v) ih.taken) taken e s in
            ih.in_order t s' ∙ moved ∙ ap (λ q. routed t o ps ++ q) (retain-onto t v x ih.taken);
      }

  abbrev RoutesAll :
      FbpMessage V
      → Consumer
      → Outports value_eq rings
      → Pending value_eq rings
      → Routed value_eq rings
      → Type 0
  RoutesAll v c o ps s = IsDealt v c s.inport o s.outports ps s.pending

  pub route_packets-IsDealt :
      (v : FbpMessage V) (b : ℕ) (c : Consumer) (o : Outports value_eq rings) (sg : Signals V)
      (ps : Pending value_eq rings) (work : ℕ)
      → RoutesAll v c o ps (route_packets value_eq rings v b c o sg ps work)
  unfolding route_packets
  route_packets-IsDealt v zero c o sg ps work = nothing-IsDealt v c c o ps refl
  route_packets-IsDealt v (suc b) c o sg ps work = elim (Bool-cases (check_signal sg).1) [
    | inl stop ↦ rw (stop, route_packets) (nothing-IsDealt v c c o ps refl)
    | inr calm ↦ elim (Option-cases (pop c).1) [
      | inl e ↦
          rw (calm, route_packets) (rw e (nothing-IsDealt v c (pop c).0 o ps (pop_none rings c e)))
      | inr (x, e) ↦
          rw (calm, route_packets)
            (rw e (
              one_more v x c _ o _ ps _ _ refl e
                (route_packets-IsDealt v b (pop c).0 _ _ _ (work + 1))))
    ]
  ]

  -- Without a signal to stop, the loop ends with its budget or with the packets.
  pub route_packets-ends :
      (v : FbpMessage V) (b : ℕ) (c : Consumer) (o : Outports value_eq rings) (sg : Signals V)
      (ps : Pending value_eq rings) (work : ℕ)
      → Calm sg
      → let s = route_packets value_eq rings v b c o sg ps work in
        (s.stopped ≡ false) × ((s.budget ≡ 0) ⊎ (queued s.inport ≡ []))
  unfolding route_packets
  route_packets-ends v zero c o sg ps work calm = (refl, inl refl)
  route_packets-ends v (suc b) c o sg ps work calm =
      let (first, calm') = check_signal-Calm sg calm in
      elim (Option-cases (pop c).1) [
        | inl e ↦
            rw (first, route_packets) (rw e (refl, inr (pop_none rings c e ∙ drained rings c e)))
        | inr (x, e) ↦
            rw (first, route_packets)
              (rw e (route_packets-ends v b (pop c).0 _ _ _ (work + 1) calm'))
      ]
