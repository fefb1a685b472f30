-- ===== src/Components/Equals/Pushes.antt =====
-- components/equals/src/equals.rs: what one push does to each of both outports.
use flowd.Base.{
  ◌≡◌, refl, sym, ap, ◌∙◌, Bool, true, false, List, [], ◌∷◌, ◌++◌, append_assoc, append-nil, arith,
  ◌⊎◌, inl, inr,
}
use flowd.Api.Message.{FbpMessage}
use flowd.Api.Rings.{Rtrb}
use flowd.Api.Rings.Laws.{accepted, refused}
use flowd.Components.Equals.{Outports, Pending, push_route}

module _ {V : Type 0} (value_eq : V → V → Bool) (rings : Rtrb (FbpMessage V)) where
  open rings use {Producer, push, sent, room}

  abbrev pub outport : Bool → Outports value_eq rings → Producer
  outport true o = o.out_true
  outport false o = o.out_false

  -- The packet, if it goes to this outport.
  abbrev pub onto : Bool → Bool → FbpMessage V → List (FbpMessage V)
  onto true true x = x ∷ []
  onto true false x = []
  onto false true x = []
  onto false false x = x ∷ []

  -- The packets that wait for this outport.
  abbrev pub parked : Bool → Pending value_eq rings → List (FbpMessage V)
  parked t [] = []
  parked t ((x, r) ∷ ps) = onto t r x ++ parked t ps

  pub parked-append :
      (t : Bool) (ps : Pending value_eq rings) (x : FbpMessage V) (r : Bool)
      → parked t (ps ++ (x, r) ∷ []) ≡ parked t ps ++ onto t r x
  parked-append t [] x r = append-nil (onto t r x)
  parked-append t ((y, q) ∷ ps) x r =
      ap (λ l. onto t q y ++ l) (parked-append t ps x r)
      ∙ sym (append_assoc (onto t q y) (parked t ps) (onto t r x))

  -- Nothing waits for this outport, or it is full.
  abbrev pub Orderly : Bool → Pending value_eq rings → Outports value_eq rings → Type 0
  Orderly t ps o = (parked t ps ≡ []) ⊎ (room (outport t o) ≡ 0)

  pub route_taken :
      (t r : Bool) (x : FbpMessage V) (o : Outports value_eq rings)
      → (push_route value_eq rings r x o).1 ≡ true
      → sent (outport t (push_route value_eq rings r x o).0) ≡ sent (outport t o) ++ onto t r x
  unfolding push_route
  route_taken true true x o h = (accepted rings x o.out_true h).1
  route_taken true false x o h = sym (append-nil (sent o.out_true))
  route_taken false true x o h = sym (append-nil (sent o.out_false))
  route_taken false false x o h = (accepted rings x o.out_false h).1

  pub route_refused :
      (t r : Bool) (x : FbpMessage V) (o : Outports value_eq rings)
      → (push_route value_eq rings r x o).1 ≡ false
      → sent (outport t (push_route value_eq rings r x o).0) ≡ sent (outport t o)
  unfolding push_route
  route_refused true true x o h = (refused rings x o.out_true h).1
  route_refused true false x o h = refl
  route_refused false true x o h = refl
  route_refused false false x o h = (refused rings x o.out_false h).1

  -- What is sent past packets that wait goes to an outport that none of them is for.
  pub taken-Orderly :
      (t r : Bool) (x : FbpMessage V) (o : Outports value_eq rings) (ps : Pending value_eq rings)
      → (push_route value_eq rings r x o).1 ≡ true
      → Orderly t ps o
      → Orderly t ps (push_route value_eq rings r x o).0
        × (parked t ps ++ onto t r x ≡ onto t r x ++ parked t ps)
  unfolding push_route
  taken-Orderly true true x o ps h (inl none_left) = (inl none_left, rw none_left refl)
  taken-Orderly true true x o ps h (inr full) =
      absurd (omega (arith, (accepted rings x o.out_true h).0, full))
  taken-Orderly true false x o ps h s = (s, append-nil (parked true ps))
  taken-Orderly false true x o ps h s = (s, append-nil (parked false ps))
  taken-Orderly false false x o ps h (inl none_left) = (inl none_left, rw none_left refl)
  taken-Orderly false false x o ps h (inr full) =
      absurd (omega (arith, (accepted rings x o.out_false h).0, full))

  pub refused-Orderly :
      (t r : Bool) (x : FbpMessage V) (o : Outports value_eq rings) (ps : Pending value_eq rings)
      → (push_route value_eq rings r x o).1 ≡ false
      → Orderly t ps o
      → Orderly t (ps ++ (x, r) ∷ []) (push_route value_eq rings r x o).0
  unfolding push_route
  refused-Orderly true true x o ps h s = inr (refused rings x o.out_true h).0
  refused-Orderly true false x o ps h (inl none_left) =
      inl (parked-append true ps x false ∙ append-nil (parked true ps) ∙ none_left)
  refused-Orderly true false x o ps h (inr full) = inr full
  refused-Orderly false true x o ps h (inl none_left) =
      inl (parked-append false ps x true ∙ append-nil (parked false ps) ∙ none_left)
  refused-Orderly false true x o ps h (inr full) = inr full
  refused-Orderly false false x o ps h s = inr (refused rings x o.out_false h).0

  pub sent-Orderly :
      (t r : Bool) (x : FbpMessage V) (o : Outports value_eq rings) (ps : Pending value_eq rings)
      → (push_route value_eq rings r x o).1 ≡ true
      → Orderly t ((x, r) ∷ ps) o
      → Orderly t ps (push_route value_eq rings r x o).0
  unfolding push_route
  sent-Orderly true true x o ps h (inl never) = absurd (ground (arith, never))
  sent-Orderly true true x o ps h (inr full) =
      absurd (omega (arith, (accepted rings x o.out_true h).0, full))
  sent-Orderly true false x o ps h s = s
  sent-Orderly false true x o ps h s = s
  sent-Orderly false false x o ps h (inl never) = absurd (ground (arith, never))
  sent-Orderly false false x o ps h (inr full) =
      absurd (omega (arith, (accepted rings x o.out_false h).0, full))

  pub blocked-Orderly :
      (t r : Bool) (x : FbpMessage V) (o : Outports value_eq rings) (ps : Pending value_eq rings)
      → (push_route value_eq rings r x o).1 ≡ false
      → Orderly t ps o
      → Orderly t ps (push_route value_eq rings r x o).0
  unfolding push_route
  blocked-Orderly true true x o ps h s = inr (refused rings x o.out_true h).0
  blocked-Orderly true false x o ps h s = s
  blocked-Orderly false true x o ps h s = s
  blocked-Orderly false false x o ps h s = inr (refused rings x o.out_false h).0
