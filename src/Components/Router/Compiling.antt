-- ===== src/Components/Router/Compiling.antt =====
-- components/router/src/router.rs: `compile_rules` compiles all rules or none.
use flowd.Base.{
  ◌≡◌, ◌≢◌, refl, ap, false, none, some, List, [], ◌∷◌, ◌++◌, Str, bytes, str_eq, str_eq_iff,
  Bool-cases, Option-cases, inl, inr, arith,
}
use flowd.Components.Router.{
  Libraries, Condition, RoutingRule, invalid_regex, unknown_operator, equals, contains_text, starts,
  ends, matches, CompiledRule, Compiled, compiled, rejected, CompileError, RuleOperator,
  compile_operator, add_rule, compile_rules,
}

module _ (libs : Libraries) where
  -- The operators that there are, by the names of a configuration.
  pub data Means (c : Condition) : RuleOperator libs → Type 0 where
    means_equals : c.operator ≡ bytes "equals" → Means c equals
    means_contains : c.operator ≡ bytes "contains" → Means c contains_text
    means_starts : c.operator ≡ bytes "starts_with" → Means c starts
    means_ends : c.operator ≡ bytes "ends_with" → Means c ends
    means_regex :
        (r : libs.Regex)
        → c.operator ≡ bytes "regex"
        → libs.compile_regex c.operand ≡ some r
        → Means c (matches r)

  -- A condition that names no operator, or whose operand is no regular expression.
  pub data Wrong (c : Condition) : CompileError → Type 0 where
    not_regex :
        c.operator ≡ bytes "regex"
        → libs.compile_regex c.operand ≡ none
        → Wrong c (invalid_regex c.operand)
    not_known :
        c.operator ≢ bytes "equals"
        → c.operator ≢ bytes "contains"
        → c.operator ≢ bytes "regex"
        → c.operator ≢ bytes "starts_with"
        → c.operator ≢ bytes "ends_with"
        → Wrong c (unknown_operator c.operator)

  abbrev Stands : Condition → Compiled (RuleOperator libs) → Type 0
  Stands c (compiled op) = Means c op
  Stands c (rejected e) = Wrong c e

  differs : (s t : Str) → str_eq s t ≡ false → s ≢ t
  differs s t h e = ground (arith, h, str_eq_iff s t, e)

  compile_regex-Stands :
      (c : Condition)
      → c.operator ≡ bytes "regex"
      → Stands c (elim (libs.compile_regex c.operand) [
        | some r ↦ compiled (matches r)
        | none ↦ rejected (invalid_regex c.operand)
      ])
  compile_regex-Stands c named = elim (Option-cases (libs.compile_regex c.operand)) [
    | inl e ↦ rw e (not_regex named e)
    | inr (r, e) ↦ rw e (means_regex r named e)
  ]

  compile_operator-Stands : (c : Condition) → Stands c (compile_operator libs c)
  unfolding compile_operator
  compile_operator-Stands c =
      let named = λ (t : Str). (str_eq_iff c.operator t).0 in
      let differ = differs c.operator in
      elim (Bool-cases (str_eq c.operator (bytes "equals"))) [
        | inl a ↦ rw a (means_equals (named _ a))
        | inr a ↦ rw a (elim (Bool-cases (str_eq c.operator (bytes "contains"))) [
          | inl b ↦ rw b (means_contains (named _ b))
          | inr b ↦ rw b (elim (Bool-cases (str_eq c.operator (bytes "regex"))) [
            | inl d ↦ rw d (compile_regex-Stands c (named _ d))
            | inr d ↦ rw d (elim (Bool-cases (str_eq c.operator (bytes "starts_with"))) [
              | inl e ↦ rw e (means_starts (named _ e))
              | inr e ↦ rw e (elim (Bool-cases (str_eq c.operator (bytes "ends_with"))) [
                | inl f ↦ rw f (means_ends (named _ f))
                | inr f ↦
                    rw f
                      (not_known (differ _ a) (differ _ b) (differ _ d) (differ _ e) (differ _ f))
              ])
            ])
          ])
        ])
      ]

  -- A compiled rule says what its rule does.
  pub record Compiles (r : RoutingRule) (c : CompiledRule libs) : Type 0 where
    pub field : c.field ≡ r.condition.field
    pub operand : c.operand ≡ r.condition.operand
    pub output_port : c.output_port ≡ r.output_port
    pub operator : Means r.condition c.operator

  abbrev pub AllCompile : List RoutingRule → List (CompiledRule libs) → Type 0
  AllCompile [] [] = Unit
  AllCompile (r ∷ rs) (c ∷ cs) = Compiles r c × AllCompile rs cs
  AllCompile _ _ = ⊥

  -- The first rule that cannot be compiled, and why.
  pub record FailsAt (rules : List RoutingRule) (e : CompileError) : Type 0 where
    pub before : List RoutingRule
    pub rule : RoutingRule
    pub after : List RoutingRule
    pub done : List (CompiledRule libs)
    pub placed : rules ≡ before ++ rule ∷ after
    pub all_before : AllCompile before done
    pub fails : Wrong rule.condition e

  abbrev pub Compiling : List RoutingRule → Compiled (List (CompiledRule libs)) → Type 0
  Compiling rules (compiled cs) = AllCompile rules cs
  Compiling rules (rejected e) = FailsAt rules e

  add_rule-Compiling :
      (r : RoutingRule) (rules : List RoutingRule) (op : Compiled (RuleOperator libs))
      → Stands r.condition op
      → (rest : Compiled (List (CompiledRule libs))) → Compiling rules rest
      → Compiling (r ∷ rules) (add_rule libs r op rest)
  unfolding add_rule
  add_rule-Compiling r rules (rejected e) h rest c = record {
    before = [];
    rule = r;
    after = rules;
    done = [];
    placed = refl;
    all_before = tt;
    fails = h;
  }
  add_rule-Compiling r rules (compiled op) h (rejected e) f = record {
    before = r ∷ f.before;
    rule = f.rule;
    after = f.after;
    done =
        record {
          field = r.condition.field;
          operator = op;
          operand = r.condition.operand;
          output_port = r.output_port;
        }
        ∷ f.done;
    placed = ap (◌∷◌ r) f.placed;
    all_before =
        (record { field = refl; operand = refl; output_port = refl; operator = h }, f.all_before);
    fails = f.fails;
  }
  add_rule-Compiling r rules (compiled op) h (compiled cs) all =
      (record { field = refl; operand = refl; output_port = refl; operator = h }, all)

  -- If the rules compile, there is a compiled rule for each, in their order, with its field, its operand,
  -- its port, and the operator that its condition names. If not, the error is that of the first rule
  -- which names no operator, or `regex` with an operand that is no regular expression.
  pub compile_rules-Compiling :
      (rules : List RoutingRule) → Compiling rules (compile_rules libs rules)
  unfolding compile_rules
  compile_rules-Compiling [] = tt
  compile_rules-Compiling (r ∷ rules) =
      add_rule-Compiling r rules (compile_operator libs r.condition)
        (compile_operator-Stands r.condition) (compile_rules libs rules)
        (compile_rules-Compiling rules)
