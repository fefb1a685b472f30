-- ===== src/Components/Router/Verdicts.antt =====
-- components/router/src/router.rs: what the test of a rule means, apart from how it is computed. The
-- texts of `str::starts_with`, `str::contains` and `str::ends_with` are cut out of the whole.
use flowd.Base.{
  ◌≡◌, ◌≢◌, refl, ap, Bool, true, false, ◌||◌, Option, none, some, List, [], ◌∷◌, ◌++◌, All, Str,
  bytes, str_eq, str_eq_iff, Bool-cases, Option-cases, inl, inr, ◌⊎◌, ◌↔◌, arith,
}
use flowd.Components.Router.{
  Libraries, CompiledRule, RuleOperator, equals, contains_text, starts, ends, matches, starts_with,
  contains_str, ends_with, evaluate_text_condition, text_or_empty, walk, get_nested_field,
  evaluate_condition, passes,
}
use flowd.Components.SplitLines.{split}
use flowd.Components.SplitLines.Lines.{join, Lacks, join-split, split-Lacks, split-ne-nil}

starts_with_iff : (s t : Str) → (starts_with s t ≡ true) ↔ ((b : Str) × (s ≡ t ++ b))
unfolding starts_with
starts_with_iff s [] = (λ h. (s, refl), λ h. refl)
starts_with_iff [] (y ∷ t) = (λ h. absurd (ground (arith, h)), λ h. absurd (cc h.1))
starts_with_iff (x ∷ s) (y ∷ t) = (
  λ h.
      let same : x ≡ y = ground (arith, h) in
      let (b, e) = (starts_with_iff s t).0 (ground (arith, h)) in (b, cc (same, e)),
  λ h.
      let same : x ≡ y = cc h.1 in
      let tails : s ≡ t ++ h.0 = cc h.1 in
      ground (arith, same, (starts_with_iff s t).1 (h.0, tails)),
)

contains_str_iff :
    (s t : Str) → (contains_str s t ≡ true) ↔ ((a : Str) × (b : Str) × (s ≡ a ++ (t ++ b)))
unfolding contains_str
contains_str_iff [] t =
    (λ h. let (b, e) = (starts_with_iff [] t).0 h in ([], b, e), λ (a, b, e). at_front a b e)
  where
    at_front : (a b : Str) → [] ≡ a ++ (t ++ b) → starts_with [] t ≡ true
    at_front [] b e = (starts_with_iff [] t).1 (b, e)
    at_front (x ∷ a) b e = absurd (cc e)
contains_str_iff (x ∷ s) t = (
  λ h. elim (Bool-cases (starts_with (x ∷ s) t)) [
    | inl here ↦ let (b, e) = (starts_with_iff (x ∷ s) t).0 here in ([], b, e)
    | inr not_here ↦
        let (a, b, e) = (contains_str_iff s t).0 (ground (arith, h, not_here)) in
        (x ∷ a, b, ap (◌∷◌ x) e)
  ],
  λ (a, b, e). somewhere (λ a b e. (contains_str_iff s t).1 (a, b, e)) a b e,
)
  where
    somewhere :
        ((a b : Str) → s ≡ a ++ (t ++ b) → contains_str s t ≡ true)
        → (a b : Str) → x ∷ s ≡ a ++ (t ++ b)
        → (starts_with (x ∷ s) t || contains_str s t) ≡ true
    somewhere later [] b e = ground (arith, (starts_with_iff (x ∷ s) t).1 (b, e))
    somewhere later (y ∷ a) b e =
        let tails : s ≡ a ++ (t ++ b) = cc e in ground (arith, later a b tails)

ends_with_iff : (s t : Str) → (ends_with s t ≡ true) ↔ ((a : Str) × (s ≡ a ++ t))
unfolding ends_with
ends_with_iff [] t = (λ h. ([], (str_eq_iff [] t).0 h), λ (a, e). at_front a e)
  where
    at_front : (a : Str) → [] ≡ a ++ t → str_eq [] t ≡ true
    at_front [] e = (str_eq_iff [] t).1 e
    at_front (x ∷ a) e = absurd (cc e)
ends_with_iff (x ∷ s) t = (
  λ h. elim (Bool-cases (str_eq (x ∷ s) t)) [
    | inl here ↦ ([], (str_eq_iff (x ∷ s) t).0 here)
    | inr not_here ↦
        let (a, e) = (ends_with_iff s t).0 (ground (arith, h, not_here)) in (x ∷ a, ap (◌∷◌ x) e)
  ],
  λ (a, e). somewhere (λ a e. (ends_with_iff s t).1 (a, e)) a e,
)
  where
    somewhere :
        ((a : Str) → s ≡ a ++ t → ends_with s t ≡ true)
        → (a : Str) → x ∷ s ≡ a ++ t
        → (str_eq (x ∷ s) t || ends_with s t) ≡ true
    somewhere later [] e = ground (arith, (str_eq_iff (x ∷ s) t).1 e)
    somewhere later (y ∷ a) e = let tails : s ≡ a ++ t = cc e in ground (arith, later a tails)

module _ (libs : Libraries) where
  open libs use {Json, parse, member, null, as_str, is_match}

  -- A text meets an operator with an operand.
  abbrev pub Meets : RuleOperator libs → Str → Str → Type 0
  Meets equals operand s = s ≡ operand
  Meets contains_text operand s = (a : Str) × (b : Str) × (s ≡ a ++ (operand ++ b))
  Meets starts operand s = (b : Str) × (s ≡ operand ++ b)
  Meets ends operand s = (a : Str) × (s ≡ a ++ operand)
  Meets (matches r) operand s = is_match r s ≡ true

  evaluate_text_condition_iff :
      (r : CompiledRule libs) (s : Str)
      → (evaluate_text_condition libs s r ≡ true) ↔ Meets r.operator r.operand s
  unfolding evaluate_text_condition
  evaluate_text_condition_iff r s = by_operator r.operator refl
    where
      by_operator :
          (op : RuleOperator libs)
          → r.operator ≡ op
          → (evaluate_text_condition libs s r ≡ true) ↔ Meets op r.operand s
      by_operator equals e = rw e (str_eq_iff s r.operand)
      by_operator contains_text e = rw e (contains_str_iff s r.operand)
      by_operator starts e = rw e (starts_with_iff s r.operand)
      by_operator ends e = rw e (ends_with_iff s r.operand)
      by_operator (matches regex) e = rw e (λ h. h, λ h. h)

  -- The value that a path leads to in a JSON value: null from where a member is missing.
  pub data LeadsTo : Json → List Str → Json → Type 0 where
    here : {j : Json} → LeadsTo j [] j
    inside :
        {j next v : Json} {part : Str} {parts : List Str}
        → member j part ≡ some next
        → LeadsTo next parts v
        → LeadsTo j (part ∷ parts) v
    missing :
        {j : Json} {part : Str} {parts : List Str}
        → member j part ≡ none
        → LeadsTo j (part ∷ parts) null

  walk-LeadsTo : (parts : List Str) (j : Json) → LeadsTo j parts (walk libs j parts)
  unfolding walk
  walk-LeadsTo [] j = here
  walk-LeadsTo (part ∷ parts) j = elim (Option-cases (member j part)) [
    | inl e ↦ rw (e, walk) (missing e)
    | inr (next, e) ↦ rw (e, walk) (inside e (walk-LeadsTo parts next))
  ]

  -- The text at a field of a JSON value: the parts of the field, which dots part, lead to it; a value
  -- that is no text counts as the empty one.
  pub record HasText (j : Json) (field s : Str) : Type 0 where
    pub parts : List Str
    pub some_parts : parts ≢ []
    pub joined : join b'.' parts ≡ field
    pub apart : All (Lacks b'.') parts
    pub found : Json
    pub leads : LeadsTo j parts found
    pub says : (as_str found ≡ some s) ⊎ ((as_str found ≡ none) × (s ≡ []))

  -- The text that a rule is tested on: of an input that is JSON the text at its field, and else, if the
  -- field is `content`, the input.
  pub data TestedOn (input field : Str) : Str → Type 0 where
    at_field :
        {s : Str} (j : Json) → parse input ≡ some j → HasText j field s → TestedOn input field s
    as_content : parse input ≡ none → field ≡ bytes "content" → TestedOn input field input

  pub record Takes (input : Str) (r : CompiledRule libs) : Type 0 where
    pub tested : Str
    pub on : TestedOn input r.field tested
    pub met : Meets r.operator r.operand tested

  -- A rule that does not pass: its text does not meet it, or there is nothing to test it on.
  pub data Skips (input : Str) (r : CompiledRule libs) : Type 0 where
    fails_on : (s : Str) → TestedOn input r.field s → ¬ Meets r.operator r.operand s → Skips input r
    untested : parse input ≡ none → r.field ≢ bytes "content" → Skips input r

  says_text :
      (o : Option Str)
      → (o ≡ some (text_or_empty libs o)) ⊎ ((o ≡ none) × (text_or_empty libs o ≡ []))
  unfolding text_or_empty
  says_text (some s) = inl refl
  says_text none = inr (refl, refl)

  has_text :
      (j : Json) (field : Str)
      → HasText j field (text_or_empty libs (as_str (get_nested_field libs j field)))
  unfolding get_nested_field
  has_text j field = record {
    parts = split b'.' field;
    some_parts = split-ne-nil b'.' field;
    joined = join-split b'.' field;
    apart = split-Lacks b'.' field;
    found = walk libs j (split b'.' field);
    leads = walk-LeadsTo (split b'.' field) j;
    says = says_text (as_str (walk libs j (split b'.' field)));
  }

  abbrev Decides : Str → CompiledRule libs → Bool → Type 0
  Decides input r b = ((b ≡ true) × Takes input r) ⊎ ((b ≡ false) × Skips input r)

  evaluate_text_condition-Decides :
      (input : Str) (r : CompiledRule libs) (s : Str)
      → TestedOn input r.field s
      → Decides input r (evaluate_text_condition libs s r)
  evaluate_text_condition-Decides input r s on =
      elim (Bool-cases (evaluate_text_condition libs s r)) [
        | inl e ↦
            inl (e, record { tested = s; on = on; met = (evaluate_text_condition_iff r s).0 e })
        | inr e ↦
            inr (e, fails_on s on (λ m. ground (arith, e, (evaluate_text_condition_iff r s).1 m)))
      ]

  -- The test of the code passes the rules that take the input, and no others.
  pub passes-Decides :
      (input : Str) (r : CompiledRule libs) → Decides input r (passes libs (parse input) input r)
  unfolding passes evaluate_condition
  passes-Decides input r = elim (Option-cases (parse input)) [
    | inr (j, e) ↦
        rw e (evaluate_text_condition-Decides input r _ (at_field j e (has_text j r.field)))
    | inl e ↦ elim (Bool-cases (str_eq r.field (bytes "content"))) [
      | inl named ↦ rw e (
          rw named (
            evaluate_text_condition-Decides input r input
              (as_content e ((str_eq_iff r.field (bytes "content")).0 named))))
      | inr other ↦ rw e (
          rw other (
            inr (
              refl,
              untested e (λ h. ground (arith, other, (str_eq_iff r.field (bytes "content")).1 h)),
            )))
    ]
  ]
