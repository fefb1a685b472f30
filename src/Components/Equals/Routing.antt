-- ===== src/Components/Equals/Routing.antt =====
-- components/equals/src/equals.rs: each packet goes to one of both outports, by its equality.
use mathlib.Core.List.{Perm}
use flowd.Base.{
  List, length, ltb, ltb→lt, ◌<◌, Bool-cases, Option-cases, sym, ◌⊎◌, inl, inr, ℕ, ◌≡◌, refl, ap,
  ◌∙◌, subst, Bool, Option, none, some, [], ◌∷◌, ◌++◌, retain, arith, if_elim,
}
use flowd.Api.Context.{ProcessResult, no_work}
use flowd.Api.Message.{FbpMessage}
use flowd.Api.Rings.{Rtrb}
use flowd.Api.Signals.{check_signal, Calm, check_signal-Calm}
use flowd.Components.Equals.{
  Outports, Pending, Equals, flush_pending, route_packets, renew, process_with, process,
}
use flowd.Components.Equals.Flush.{flushed_first}
use flowd.Components.Equals.Loop.{
  IsDealt, routed, is_for, nothing-IsDealt, route_packets-IsDealt, route_packets-ends,
}
use flowd.Components.Equals.Pushes.{outport, parked, Orderly}

module _ {V : Type 0} (value_eq : V → V → Bool) (rings : Rtrb (FbpMessage V)) where
  open rings use {Producer, Consumer, push, pop, sent, room, queued}

  abbrev RoutesTo : FbpMessage V → Equals value_eq rings → Equals value_eq rings → Type 0
  RoutesTo v e e' =
      IsDealt value_eq rings v e.inn e'.inn e.outports e'.outports e.pending_packets
        e'.pending_packets

  renew-RoutesTo :
      (v : FbpMessage V) (e e' : Equals value_eq rings)
      → RoutesTo v e e'
      → RoutesTo v e (renew value_eq rings e')
  unfolding renew
  renew-RoutesTo v e e' h = elim (Option-cases (pop e'.cmp).1) [
    | inl none_new ↦ rw (none_new, renew) h
    | inr (w, new) ↦ rw (new, renew) h
  ]

  process_with-RoutesTo :
      (v : FbpMessage V) (e : Equals value_eq rings) (budget : ℕ)
      → RoutesTo v e (process_with value_eq rings v e budget).0
  unfolding process_with
  process_with-RoutesTo v e budget =
      let sg = (check_signal e.signals).0 in
      let f = flush_pending value_eq rings budget e.pending_packets e.outports 0 in
      let s = route_packets value_eq rings v f.budget e.inn f.outports sg f.pending f.work in
      let all =
        flushed_first value_eq rings v budget e.inn s.inport e.outports s.outports e.pending_packets
          s.pending
          (route_packets-IsDealt value_eq rings v f.budget e.inn f.outports sg f.pending f.work) in
      let e' : Equals value_eq rings = record e {
        inn = s.inport;
        outports = s.outports;
        signals = s.signals;
        pending_packets = s.pending;
      } in
      if_elim Ends (check_signal e.signals).1 _ _
        (nothing-IsDealt value_eq rings v e.inn e.inn e.outports e.pending_packets refl)
        (if_elim Ends s.stopped _ _ all (
          if_elim Ends (rings.is_abandoned s.inport) _ _ (renew-RoutesTo v e e' all)
            (renew-RoutesTo v e e' all)))
    where
      Ends : Equals value_eq rings × ℕ × ProcessResult → Type 0
      Ends r = RoutesTo v e r.0

  -- What a call that compares with `v` did: it took packets from the front of the inport, up to its
  -- budget. At each outport, those that were sent and those that wait are those that were there and the
  -- packets taken that are for it, in another order at most; in this order, unless packets waited for the
  -- outport although it had room.
  pub record IsRouted (v : FbpMessage V) (e e' : Equals value_eq rings) (left : ℕ) : Type 0 where
    pub taken : List (FbpMessage V)
    pub parts : queued e.inn ≡ taken ++ queued e'.inn
    pub ended : (left ≡ 0) ⊎ (queued e'.inn ≡ [])
    pub dealt :
        (t : Bool)
        → Perm (routed value_eq rings t e'.outports e'.pending_packets) (
            routed value_eq rings t e.outports e.pending_packets
            ++ retain (is_for value_eq rings t v) taken)
    pub in_order :
        (t : Bool)
        → ((0 < length (parked value_eq rings t e.pending_packets))
            × (0 < room (outport value_eq rings t e.outports)))
          ⊎ (routed value_eq rings t e'.outports e'.pending_packets
              ≡ routed value_eq rings t e.outports e.pending_packets
                ++ retain (is_for value_eq rings t v) taken)

  decide-Orderly :
      (t : Bool) (ps : Pending value_eq rings) (o : Outports value_eq rings)
      → ((0 < length (parked value_eq rings t ps)) × (0 < room (outport value_eq rings t o)))
        ⊎ Orderly value_eq rings t ps o
  decide-Orderly t ps o = by_parked (parked value_eq rings t ps)
    where
      by_parked :
          (xs : List (FbpMessage V))
          → ((0 < length xs) × (0 < room (outport value_eq rings t o)))
            ⊎ ((xs ≡ []) ⊎ (room (outport value_eq rings t o) ≡ 0))
      by_parked [] = inr (inl refl)
      by_parked (x ∷ xs) = elim (Bool-cases (ltb 0 (room (outport value_eq rings t o)))) [
        | inl free ↦ inl (omega arith, ltb→lt 0 _ free)
        | inr full ↦ inr (inr (ground (arith, full)))
      ]

  as_IsRouted :
      (v : FbpMessage V) (e e' : Equals value_eq rings) (left : ℕ)
      → RoutesTo v e e'
      → (left ≡ 0) ⊎ (queued e'.inn ≡ [])
      → IsRouted v e e' left
  as_IsRouted v e e' left is ended = record {
    taken = is.taken;
    parts = is.parts;
    ended = ended;
    dealt = is.dealt;
    in_order = λ t. elim (decide-Orderly t e.pending_packets e.outports) [
      | inl passed ↦ inl passed
      | inr ordered ↦ inr (is.in_order t ordered)
    ];
  }

  abbrev Used : Equals value_eq rings × ℕ × ProcessResult → Type 0
  Used out = (out.1 ≡ 0) ⊎ (queued out.0.inn ≡ [])

  renew-inn : (e : Equals value_eq rings) → (renew value_eq rings e).inn ≡ e.inn
  unfolding renew
  renew-inn e = elim (Option-cases (pop e.cmp).1) [
    | inl none_new ↦ rw (none_new, renew) refl
    | inr (w, new) ↦ rw (new, renew) refl
  ]

  process_with-Used :
      (v : FbpMessage V) (e : Equals value_eq rings) (budget : ℕ)
      → Calm e.signals
      → Used (process_with value_eq rings v e budget)
  unfolding process_with
  process_with-Used v e budget calm =
      let (first, calm') = check_signal-Calm e.signals calm in
      let f = flush_pending value_eq rings budget e.pending_packets e.outports 0 in
      let s =
        route_packets value_eq rings v f.budget e.inn f.outports (check_signal e.signals).0
          f.pending f.work in
      let (going_on, ended) =
        route_packets-ends value_eq rings v f.budget e.inn f.outports (check_signal e.signals).0
          f.pending f.work calm' in
      let e' : Equals value_eq rings = record e {
        inn = s.inport;
        outports = s.outports;
        signals = s.signals;
        pending_packets = s.pending;
      } in
      let used : (s.budget ≡ 0) ⊎ (queued (renew value_eq rings e').inn ≡ []) =
        subst (λ q. (s.budget ≡ 0) ⊎ (queued q ≡ [])) (sym (renew-inn e')) ended in
      rw first (rw going_on (if_elim Used (rings.is_abandoned s.inport) _ _ used used))

  -- The value that a call compares with: the one that was kept, or else the next one.
  abbrev pub in_use : Equals value_eq rings → Option (FbpMessage V)
  in_use e = elim e.cmp_value [ some v ↦ some v | none ↦ (pop e.cmp).1 ]

  -- The choice of the value at the begin of a call.
  abbrev dispatch :
      Equals value_eq rings
      → ℕ
      → Option (FbpMessage V)
      → Option (FbpMessage V)
      → Equals value_eq rings × ℕ × ProcessResult
  dispatch e budget o p = elim o [
    | some v ↦ process_with value_eq rings v e budget
    | none ↦ elim p [
      | some v ↦
          process_with value_eq rings v (record e { cmp = (pop e.cmp).0; cmp_value = some v })
            budget
      | none ↦ (record e { cmp = (pop e.cmp).0 }, budget, no_work)
    ]
  ]

  -- A call with the value `v` to compare with, and no signal to stop, takes packets from the front of the
  -- inport until the budget or the packets end. At each outport there are afterwards, sent or waiting,
  -- those that were, and those of the packets taken that are equal to the value, or for the other outport
  -- those that are not. They are in this order, unless packets waited for the outport although it had
  -- room.
  pub process-IsRouted :
      (e : Equals value_eq rings) (v : FbpMessage V) (budget : ℕ)
      → in_use e ≡ some v
      → Calm e.signals
      → let out = process value_eq rings e budget in IsRouted v e out.0 out.1
  unfolding process
  process-IsRouted e v budget h calm = by_kept e.cmp_value refl
    where
      routed_by :
          (e₁ : Equals value_eq rings)
          → process value_eq rings e budget ≡ process_with value_eq rings v e₁ budget
          → RoutesTo v e (process_with value_eq rings v e₁ budget).0
          → Used (process_with value_eq rings v e₁ budget)
          → IsRouted v e (process value_eq rings e budget).0 (process value_eq rings e budget).1
      routed_by e₁ runs is used =
          let out = process_with value_eq rings v e₁ budget in
          subst (λ (r : Equals value_eq rings × ℕ × ProcessResult). IsRouted v e r.0 r.1) (sym runs)
            (as_IsRouted v e out.0 out.1 is used)

      by_kept :
          (o : Option (FbpMessage V))
          → e.cmp_value ≡ o
          → let out = process value_eq rings e budget in IsRouted v e out.0 out.1
      by_kept (some w) k =
          let same : w ≡ v = ground (arith, h, k) in
          let runs : process value_eq rings e budget ≡ process_with value_eq rings v e budget =
            ap (λ o. dispatch e budget o (pop e.cmp).1) k
            ∙ ap (λ u. process_with value_eq rings u e budget) same in
          routed_by e runs (process_with-RoutesTo v e budget) (process_with-Used v e budget calm)
      by_kept none k =
          let new : (pop e.cmp).1 ≡ some v = ground (arith, h, k) in
          let e' : Equals value_eq rings = record e { cmp = (pop e.cmp).0; cmp_value = some v } in
          let runs : process value_eq rings e budget ≡ process_with value_eq rings v e' budget =
            ap (λ o. dispatch e budget o (pop e.cmp).1) k ∙ ap (dispatch e budget none) new in
          routed_by e' runs (process_with-RoutesTo v e' budget) (process_with-Used v e' budget calm)
