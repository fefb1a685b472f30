-- ===== src/Runtime/Secrets.antt =====
-- src/runtime.rs: `validate_secret` and `validate_secret_with_access`.
use flowd.Base.{
  ◌≡◌, refl, Bool, true, false, Option, none, some, [], ◌∷◌, if◌then◌else◌, Str, str_eq, str_eq_iff,
  HashMap, get, is_empty, Result, ok, err, permission_denied, arith, ◌↔◌, ◌⊎◌, inl, inr,
}

pub data AccessLevel : Type 0 where
  read_only read_write : AccessLevel

-- The secret and the access that it grants, for each graph.
abbrev pub Secrets : Type 0
Secrets = HashMap (Str × AccessLevel)

-- A read-only secret does not allow to write.
unfoldable pub insufficient : AccessLevel → AccessLevel → Bool
insufficient read_only read_write = true
insufficient _ _ = false

check_secret : Str → AccessLevel → Option (Str × AccessLevel) → Result (Unit {0})
check_secret secret required none = err permission_denied
check_secret secret required (some (expected, level)) =
    if str_eq secret expected
    then if insufficient level required then err permission_denied else ok tt
    else err permission_denied

unfoldable pub validate_secret_with_access :
    Option Str → Str → AccessLevel → Secrets → Result (Unit {0})
unfolding check_secret insufficient
validate_secret_with_access none graph required secrets = ok tt
validate_secret_with_access (some secret) graph required secrets =
    if is_empty secret then ok tt else check_secret secret required (get graph secrets)

unfoldable pub validate_secret : Option Str → Str → Secrets → Result (Unit {0})
unfolding validate_secret_with_access
validate_secret secret graph secrets = validate_secret_with_access secret graph read_write secrets

-- What a request shows, to act on a graph with an access: no secret at all, an empty one, or the one
-- that is configured for the graph, with an access that is enough: any is to read, and one that is
-- read-write is to write.
pub data Accepts (secret : Option Str) (graph : Str) (required : AccessLevel) (secrets : Secrets)
    : Type 0 where
  unnamed : secret ≡ none → Accepts secret graph required secrets
  blank : secret ≡ some [] → Accepts secret graph required secrets
  granted :
      (s : Str) (level : AccessLevel)
      → secret ≡ some s
      → get graph secrets ≡ some (s, level)
      → (required ≡ read_only) ⊎ (level ≡ read_write)
      → Accepts secret graph required secrets

insufficient_iff :
    (level required : AccessLevel)
    → (insufficient level required ≡ false) ↔ ((required ≡ read_only) ⊎ (level ≡ read_write))
unfolding insufficient
insufficient_iff read_only read_only = (λ h. inl refl, λ h. refl)
insufficient_iff read_only read_write =
    (λ h. absurd (ground (arith, h)), λ h. elim h [ inl e ↦ absurd (cc e) | inr e ↦ absurd (cc e) ])
insufficient_iff read_write read_only = (λ h. inl refl, λ h. refl)
insufficient_iff read_write read_write = (λ h. inr refl, λ h. refl)

check_secret_iff :
    (secret : Str) (required : AccessLevel) (o : Option (Str × AccessLevel))
    → (check_secret secret required o ≡ ok tt) ↔ (
        (level : AccessLevel) × (o ≡ some (secret, level))
        × ((required ≡ read_only) ⊎ (level ≡ read_write)))
unfolding check_secret
check_secret_iff secret required none = (λ h. absurd (cc h), λ h. absurd (cc h.1))
check_secret_iff secret required (some (expected, level)) = (
  λ h. (
    level,
    ground (arith, h, str_eq_iff secret expected),
    (insufficient_iff level required).0 (ground (arith, h, str_eq_iff secret expected)),
  ),
  λ (l, e, enough).
      ground (arith, e, str_eq_iff secret expected, (insufficient_iff l required).1 enough),
)

-- A request is accepted exactly if it gives no secret or an empty one, whatever is configured for
-- the graph, or if it gives the secret that is configured for the graph and its access level suffices:
-- any level does to read, and to write it must be read-write.
pub validate_secret_iff :
    (secret : Option Str) (graph : Str) (required : AccessLevel) (secrets : Secrets)
    → (validate_secret_with_access secret graph required secrets ≡ ok tt)
      ↔ Accepts secret graph required secrets
unfolding validate_secret_with_access
validate_secret_iff none graph required secrets = (λ h. unnamed refl, λ h. refl)
validate_secret_iff (some []) graph required secrets = (λ h. blank refl, λ h. refl)
validate_secret_iff (some (c ∷ cs)) graph required secrets =
    let both = check_secret_iff (c ∷ cs) required (get graph secrets) in
    (
      λ h. let (level, found, enough) = both.0 h in granted (c ∷ cs) level refl found enough,
      λ h. elim h [
        | unnamed e ↦ absurd (cc e)
        | blank e ↦ absurd (cc e)
        | granted s level same found enough ↦ both.1 (level, cc (same, found), enough)
      ],
    )
