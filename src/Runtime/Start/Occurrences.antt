-- ===== src/Runtime/Start/Occurrences.antt =====
-- src/runtime.rs: how often the channels and the table of `Runtime::start` hold a text.
use flowd.Base.{
  ℕ, ◌+◌, ◌≡◌, refl, none, some, List, [], ◌∷◌, ◌++◌, Str, length, str_eq, if◌then◌else◌, arith,
  inl, inr, Option-cases, if_elim, ltb,
}
use flowd.Graph.{GraphEdge}
use flowd.Runtime.Start.Attempts.{Holds, Holds-bind, Holds-weaken}
use flowd.Runtime.Start.Channels.{
  Channel, Wires, push_expected, push_all_expected, Iips, add_iip, take_iips, iips_per_target,
}

-- The initial packets of a graph.
abbrev pub payloads : List GraphEdge → List Str
payloads [] = []
payloads (e ∷ es) = elim e.payload [ none ↦ payloads es | some iip ↦ iip ∷ payloads es ]

module _ (x : Str) where
  -- How often a text is `x`, and how often a list of texts has it.
  unfoldable pub hit : Str → ℕ
  hit s = if str_eq s x then 1 else 0

  abbrev pub occurrences : List Str → ℕ
  occurrences [] = 0
  occurrences (s ∷ ss) = hit s + occurrences ss

  -- How often the channels hold the text.
  abbrev pub held : List Channel → ℕ
  held [] = 0
  held (c ∷ cs) = occurrences c.contents + held cs

  -- How often the packets that are not joined yet have the text.
  abbrev pub total : Iips → ℕ
  total [] = 0
  total ((k, iips) ∷ t) = occurrences iips + total t

  pub occurrences-append :
      (ss ts : List Str) → occurrences (ss ++ ts) ≡ occurrences ss + occurrences ts
  occurrences-append [] ts = omega arith
  occurrences-append (s ∷ ss) ts = omega (arith, occurrences-append ss ts)

  pub total-take_iips :
      (k : Str × Str) (t : Iips) → occurrences (take_iips k t).0 + total (take_iips k t).1 ≡ total t
  unfolding take_iips
  total-take_iips k [] = refl
  total-take_iips k ((j, iips) ∷ t) = ground (arith, total-take_iips k t)

  abbrev pub Holding : ℕ → Wires → Type 0
  Holding n w = held w.channels ≡ n

  abbrev pub Moving : ℕ → Wires × Iips → Type 0
  Moving n s = held s.0.channels + total s.1 ≡ n

  pub held-append : (cs ds : List Channel) → held (cs ++ ds) ≡ held cs + held ds
  held-append [] ds = omega arith
  held-append (c ∷ cs) ds = omega (arith, held-append cs ds)

  total-add_iip :
      (k : Str × Str) (iip : Str) (t : Iips) → total (add_iip k iip t) ≡ hit iip + total t
  unfolding add_iip
  total-add_iip k iip [] = omega arith
  total-add_iip k iip ((j, iips) ∷ t) =
      ground (arith, total-add_iip k iip t, occurrences-append iips (iip ∷ []))

  pub total-iips_per_target :
      (es : List GraphEdge) (t : Iips)
      → total (iips_per_target es t) ≡ occurrences (payloads es) + total t
  unfolding iips_per_target
  total-iips_per_target [] t = omega arith
  total-iips_per_target (e ∷ es) t = elim (Option-cases e.payload) [
    | inl none_here ↦ rw none_here (total-iips_per_target es t)
    | inr (iip, here) ↦
        let k : Str × Str = (e.target.process, e.target.port) in
        rw here (omega (arith, total-iips_per_target es (add_iip k iip t), total-add_iip k iip t))
  ]

  push_expected_adds :
      (iip : Str) (c : Channel)
      → Holds
          (λ c'. occurrences c'.contents ≡ hit iip + occurrences c.contents)
          (push_expected iip c)
  unfolding push_expected
  push_expected_adds iip c =
      if_elim (Holds (λ c'. occurrences c'.contents ≡ hit iip + occurrences c.contents))
        (ltb (length c.contents) c.capacity) _ _
        (omega (arith, occurrences-append c.contents (iip ∷ []))) tt

  pub push_all_expected_adds :
      (iips : List Str) (c : Channel)
      → Holds
          (λ c'. occurrences c'.contents ≡ occurrences c.contents + occurrences iips)
          (push_all_expected iips c)
  unfolding push_all_expected
  push_all_expected_adds [] c = omega arith
  push_all_expected_adds (iip ∷ iips) c =
      Holds-bind (λ c'. occurrences c'.contents ≡ hit iip + occurrences c.contents) _
        (push_expected iip c) _ (push_expected_adds iip c)
        (λ c' e.
          Holds-weaken (λ y. occurrences y.contents ≡ occurrences c'.contents + occurrences iips) _
            _ (push_all_expected_adds iips c') (λ y d. omega (arith, d, e)))
