-- ===== src/Components/Router/Rounds.antt =====
-- components/router/src/router.rs: the loop of `process`, round by round.
use flowd.Base.{
  ℕ, ◌≤◌, ◌≡◌, refl, sym, ap, ◌∙◌, Bool, true, false, Option, none, some, List, [], ◌∷◌, ◌++◌,
  append_assoc, append-nil, map, retain, length, All, Str, str_eq, str_eq_iff, str_eq_refl, HashMap,
  get, insert, get-insert, if◌then◌else◌, arith, Bool-cases, inl, inr, ◌⊎◌,
}
use flowd.Api.Message.{FbpMessage, text}
use flowd.Api.Rings.{Rtrb}
use flowd.Api.Rings.Laws.{accepted, refused}
use flowd.Components.Router.{Libraries}
use flowd.Components.Router.Process.{Rounds}

-- The text of a packet; that of a packet that is no text is empty.
abbrev pub said : {V : Type 0} → FbpMessage V → Str
said (text s) = s
said _ = []

-- `read` is what is routed by and sent on of a packet.
module _ (libs : Libraries) {V : Type 0} (rings : Rtrb (FbpMessage V)) (route : Str → Str)
    (read : FbpMessage V → Str) where
  open rings use {
    Producer, Consumer, push, pop, nothing_queued, sent, room, queued, is_empty-queued,
  }

  unfoldable pub port_of : FbpMessage V → Str
  port_of m = route (read m)

  unfoldable pub sent_as : FbpMessage V → FbpMessage V
  sent_as m = text (read m)

  -- What was sent through a port that is connected, with more behind it.
  abbrev pub sent_of : Option Producer → Option (List (FbpMessage V))
  sent_of none = none
  sent_of (some p) = some (sent p)

  abbrev pub extended :
      Option (List (FbpMessage V)) → List (FbpMessage V) → Option (List (FbpMessage V))
  extended none xs = none
  extended (some ys) xs = some (ys ++ xs)

  abbrev pub room_of : Option Producer → Option ℕ
  room_of none = none
  room_of (some p) = some (room p)

  -- At each port, what was read of the packets that are routed to it was sent, in their order.
  abbrev pub Reach : HashMap Producer → HashMap Producer → List (FbpMessage V) → Type 0
  Reach o o' ms =
      (k : Str)
      → sent_of (get k o')
        ≡ extended (sent_of (get k o))
            (map (λ m. text (read m)) (retain (λ m. str_eq (route (read m)) k) ms))

  -- `delivered` left the inport, and what was read of them reached the ports that it is routed to, in their
  -- order, if the port is connected. `lost` is the packet that found its port full, if there was one.
  pub record IsDelivered (c c' : Consumer) (o o' : HashMap Producer) (left : ℕ) : Type 0 where
    pub delivered : List (FbpMessage V)
    pub lost : List (FbpMessage V)
    pub parts : queued c ≡ delivered ++ (lost ++ queued c')
    pub few : length lost ≤ 1
    pub at_port : Reach o o' delivered
    pub full : All (λ m. room_of (get (route (read m)) o') ≡ some 0) lost
    pub stopped : (left ≡ 0) ⊎ ((queued c' ≡ []) ⊎ (length lost ≡ 1))

  same_entry :
      (r k : Str) (o : HashMap Producer) (found : Option Producer)
      → get r o ≡ found
      → str_eq r k ≡ true
      → get k o ≡ found
  same_entry r k o found g e = ground (arith, str_eq_iff r k)

  get-after :
      (r k : Str) (o : HashMap Producer) (p' : Producer) (same : Bool)
      → str_eq r k ≡ same
      → get k (insert r p' o) ≡ (if same then some p' else get k o)
  get-after r k o p' same e = get-insert r k p' o ∙ rw e refl

  extended_nil : (x : Option (List (FbpMessage V))) → x ≡ extended x []
  extended_nil none = refl
  extended_nil (some xs) = ap some (sym (append-nil xs))

  lost-Reach :
      (o : HashMap Producer) (m : FbpMessage V) (p₀ : Producer)
      → get (port_of m) o ≡ some p₀
      → (push (sent_as m) p₀).1 ≡ false
      → Reach o (insert (port_of m) (push (sent_as m) p₀).0 o) []
  lost-Reach o m p₀ g h k = elim (Bool-cases (str_eq (port_of m) k)) [
    | inl same ↦
        ap sent_of (get-after (port_of m) k o (push (sent_as m) p₀).0 true same)
        ∙ ap some ((refused rings (sent_as m) p₀ h).1)
        ∙ extended_nil (some (sent p₀))
        ∙ ap (λ q. extended (sent_of q) []) (sym (same_entry (port_of m) k o (some p₀) g same))
    | inr other ↦
        ap sent_of (get-after (port_of m) k o (push (sent_as m) p₀).0 false other)
        ∙ extended_nil (sent_of (get k o))
  ]

  -- What is routed to a port.
  abbrev routed_to : Str → List (FbpMessage V) → List (FbpMessage V)
  routed_to k ms = map (λ m. text (read m)) (retain (λ m. str_eq (route (read m)) k) ms)

  pub delivered-Reach :
      (o o' : HashMap Producer) (m : FbpMessage V) (p₀ : Producer) (ms : List (FbpMessage V))
      → get (port_of m) o ≡ some p₀
      → (push (sent_as m) p₀).1 ≡ true
      → Reach (insert (port_of m) (push (sent_as m) p₀).0 o) o' ms
      → Reach o o' (m ∷ ms)
  unfolding port_of sent_as
  delivered-Reach o o' m p₀ ms g h reach k = elim (Bool-cases (str_eq (port_of m) k)) [
    | inl same ↦
        reach k
        ∙ ap (λ q. extended (sent_of q) (routed_to k ms))
            (get-after (port_of m) k o (push (sent_as m) p₀).0 true same)
        ∙ ap (λ q. some (q ++ routed_to k ms)) (accepted rings (sent_as m) p₀ h).1
        ∙ ap some (append_assoc (sent p₀) (sent_as m ∷ []) (routed_to k ms))
        ∙ ap (λ q. extended (sent_of q) (sent_as m ∷ routed_to k ms))
            (sym (same_entry (port_of m) k o (some p₀) g same))
        ∙ rw same refl
    | inr other ↦
        reach k
        ∙ ap (λ q. extended (sent_of q) (routed_to k ms))
            (get-after (port_of m) k o (push (sent_as m) p₀).0 false other)
        ∙ rw other refl
  ]

  pub dropped-Reach :
      (o o' : HashMap Producer) (m : FbpMessage V) (ms : List (FbpMessage V))
      → get (port_of m) o ≡ none
      → Reach o o' ms
      → Reach o o' (m ∷ ms)
  unfolding port_of
  dropped-Reach o o' m ms g reach k = elim (Bool-cases (str_eq (port_of m) k)) [
    | inl same ↦
        let none_there = same_entry (port_of m) k o none g same in
        reach k
        ∙ ap (λ q. extended (sent_of q) (routed_to k ms)) none_there
        ∙ ap (λ q. extended (sent_of q) (routed_to k (m ∷ ms))) (sym none_there)
    | inr other ↦ reach k ∙ rw other refl
  ]

  abbrev pub Delivers : Consumer → HashMap Producer → Rounds libs rings → Type 0
  Delivers c o s = IsDelivered c s.inport o s.out_ports s.budget

  pub nothing-IsDelivered :
      (c c' : Consumer) (o : HashMap Producer) (left : ℕ)
      → queued c' ≡ queued c
      → (left ≡ 0) ⊎ (queued c' ≡ [])
      → IsDelivered c c' o o left
  nothing-IsDelivered c c' o left q why = record {
    delivered = [];
    lost = [];
    parts = sym q;
    few = omega arith;
    at_port = λ k. extended_nil (sent_of (get k o));
    full = tt;
    stopped = elim why [ inl z ↦ inl z | inr z ↦ inr (inl z) ];
  }

  pub one_lost :
      (c c' : Consumer) (o : HashMap Producer) (m : FbpMessage V) (p₀ : Producer) (left : ℕ)
      → queued c ≡ m ∷ queued c'
      → get (port_of m) o ≡ some p₀
      → (push (sent_as m) p₀).1 ≡ false
      → IsDelivered c c' o (insert (port_of m) (push (sent_as m) p₀).0 o) left
  unfolding port_of
  one_lost c c' o m p₀ left q g h = record {
    delivered = [];
    lost = m ∷ [];
    parts = q;
    few = omega arith;
    at_port = lost-Reach o m p₀ g h;
    full = (
      ap room_of (
            get-after (port_of m) (port_of m) o (push (sent_as m) p₀).0 true
              (str_eq_refl (port_of m)))
          ∙ ap some (refused rings (sent_as m) p₀ h).0,
      tt,
    );
    stopped = inr (inr refl);
  }

  -- What the rest of the loop delivers, behind one packet more.
  pub one_more :
      (c c₁ c' : Consumer) (o o₁ o' : HashMap Producer) (m : FbpMessage V) (left : ℕ)
      → queued c ≡ m ∷ queued c₁
      → ((ms : List (FbpMessage V)) → Reach o₁ o' ms → Reach o o' (m ∷ ms))
      → IsDelivered c₁ c' o₁ o' left
      → IsDelivered c c' o o' left
  one_more c c₁ c' o o₁ o' m left q reach is = record {
    delivered = m ∷ is.delivered;
    lost = is.lost;
    parts = q ∙ ap (◌∷◌ m) is.parts;
    few = is.few;
    at_port = reach is.delivered is.at_port;
    full = is.full;
    stopped = is.stopped;
  }
