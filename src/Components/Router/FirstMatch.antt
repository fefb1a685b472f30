-- ===== src/Components/Router/FirstMatch.antt =====
-- components/router/src/router.rs: `route_message` takes the first rule that passes.
use flowd.Base.{
  ◌≡◌, refl, sym, ap, subst, Bool, Option, none, some, List, [], ◌∷◌, ◌++◌, All, Str, bytes, inl,
  inr, ◌⊎◌,
}
use flowd.Components.Router.{
  Libraries, RouterConfig, CompiledRule, passes, first_port, default_port, route_message,
}
use flowd.Components.Router.Verdicts.{Takes, Skips, passes-Decides}

module _ (libs : Libraries) where
  -- A rule that takes the input, behind rules that do not.
  pub record IsFirst (input : Str) (rules : List (CompiledRule libs)) (port : Str) : Type 0 where
    pub before : List (CompiledRule libs)
    pub rule : CompiledRule libs
    pub after : List (CompiledRule libs)
    pub placed : rules ≡ before ++ rule ∷ after
    pub skipped : All (Skips libs input) before
    pub passed : Takes libs input rule
    pub sent_to : rule.output_port ≡ port

  -- The port for what no rule takes: the one that the configuration names, or else `default`.
  abbrev pub FallsTo : Option RouterConfig → Str → Type 0
  FallsTo none port = port ≡ bytes "default"
  FallsTo (some c) port =
      (c.default_output ≡ some port) ⊎ ((c.default_output ≡ none) × (port ≡ bytes "default"))

  abbrev Chosen : Str → List (CompiledRule libs) → Str → Str → Type 0
  Chosen input rules fallback port =
      IsFirst input rules port ⊎ (All (Skips libs input) rules × (port ≡ fallback))

  abbrev port_or : Str → Option Str → Str
  port_or fallback o = elim o [ some port ↦ port | none ↦ fallback ]

  one_before :
      (input : Str) (r : CompiledRule libs) (rules : List (CompiledRule libs)) (fallback port : Str)
      → Skips libs input r
      → Chosen input rules fallback port
      → Chosen input (r ∷ rules) fallback port
  one_before input r rules fallback port h (inl first) = inl (record {
    before = r ∷ first.before;
    rule = first.rule;
    after = first.after;
    placed = ap (◌∷◌ r) first.placed;
    skipped = (h, first.skipped);
    passed = first.passed;
    sent_to = first.sent_to;
  })
  one_before input r rules fallback port h (inr (none_passes, e)) = inr ((h, none_passes), e)

  abbrev test : Str → CompiledRule libs → Bool
  test input = passes libs (libs.parse input) input

  first_port-Chosen :
      (input : Str) (rules : List (CompiledRule libs)) (fallback : Str)
      → Chosen input rules fallback (port_or fallback (first_port libs (test input) rules))
  unfolding first_port
  first_port-Chosen input [] fallback = inr (tt, refl)
  first_port-Chosen input (r ∷ rules) fallback = elim (passes-Decides libs input r) [
    | inl (e, takes) ↦ rw e (
        inl (record {
          before = [];
          rule = r;
          after = rules;
          placed = refl;
          skipped = tt;
          passed = takes;
          sent_to = refl;
        }))
    | inr (e, skips) ↦
        let later : first_port libs (test input) (r ∷ rules) ≡ first_port libs (test input) rules =
          rw (e, first_port) refl in
        subst (λ q. Chosen input (r ∷ rules) fallback (port_or fallback q)) (sym later)
          (one_before input r rules fallback _ skips (first_port-Chosen input rules fallback))
  ]

  default_port-FallsTo : (config : Option RouterConfig) → FallsTo config (default_port libs config)
  unfolding default_port
  default_port-FallsTo none = refl
  default_port-FallsTo (some c) = by_output c.default_output
    where
      by_output :
          (o : Option Str)
          → (o ≡ some (port_or (bytes "default") o))
            ⊎ ((o ≡ none) × (port_or (bytes "default") o ≡ bytes "default"))
      by_output (some port) = inl refl
      by_output none = inr (refl, refl)

  -- A text goes to the port of the first rule that takes it; if none does, it goes to the port that the
  -- configuration names for this, or else to `default`. A rule takes a text if what it is tested on is
  -- equal to its operand, holds it, begins or ends with it, or matches the regular expression, as its
  -- operator says. It is tested on the text that the dotted path of its field leads to if the input is
  -- JSON, and that is empty if there is no text. If the input is not JSON, it is tested on the whole input
  -- if its field is `content`, and else it does not take the input.
  pub route_message-IsFirst :
      (rules : List (CompiledRule libs)) (config : Option RouterConfig) (input : Str)
      → let port = route_message libs rules config input in
        IsFirst input rules port ⊎ (All (Skips libs input) rules × FallsTo config port)
  unfolding route_message
  route_message-IsFirst rules config input =
      elim (first_port-Chosen input rules (default_port libs config)) [
        | inl first ↦ inl first
        | inr (none_passes, e) ↦
            inr (none_passes, subst (FallsTo config) (sym e) (default_port-FallsTo config))
      ]
