-- ===== src/Components/SplitLines/Lines.antt =====
-- components/splitlines/src/splitlines.rs: the lines of a packet.
use flowd.Base.{
  ℕ, ◌≡◌, refl, sym, ap, subst, ◌∙◌, ◌≢◌, Bool, true, false, none, some, List, [], ◌∷◌, ◌++◌, map,
  Str, All, if◌then◌else◌, newline, arith,
}
use flowd.Api.Message.{FbpMessage, raw, text, from_utf8}
use flowd.Components.SplitLines.{on_first, split, bytes_line, split_lines}

-- The parts with a separator between every two.
unfoldable pub join : ℕ → List Str → Str
join sep [] = []
join sep (p ∷ []) = p
join sep (p ∷ (q ∷ ps)) = p ++ sep ∷ join sep (q ∷ ps)

-- The text does not hold the byte.
abbrev pub Lacks : ℕ → Str → Type 0
Lacks sep = All (λ c. c ≢ sep)

join-on_first : (sep c : ℕ) (ps : List Str) → join sep (on_first c ps) ≡ c ∷ join sep ps
unfolding join on_first
join-on_first sep c [] = refl
join-on_first sep c (p ∷ []) = refl
join-on_first sep c (p ∷ (q ∷ ps)) = refl

join-nil : (sep : ℕ) (ps : List Str) → ps ≢ [] → join sep ([] ∷ ps) ≡ sep ∷ join sep ps
unfolding join
join-nil sep [] h = absurd (h refl)
join-nil sep (p ∷ ps) h = refl

on_first-ne-nil : (c : ℕ) (ps : List Str) → on_first c ps ≢ []
unfolding on_first
on_first-ne-nil c [] = ground arith
on_first-ne-nil c (p ∷ ps) = ground arith

pub split-ne-nil : (sep : ℕ) (s : Str) → split sep s ≢ []
unfolding split
split-ne-nil sep [] = ground arith
split-ne-nil sep (c ∷ s) = ground (arith, on_first-ne-nil c (split sep s))

pub join-split : (sep : ℕ) (s : Str) → join sep (split sep s) ≡ s
unfolding split
join-split sep [] = unfold join in refl
join-split sep (c ∷ s) = ground (
  arith,
  join-split sep s,
  join-nil sep (split sep s) (split-ne-nil sep s),
  join-on_first sep c (split sep s),
)

on_first-Lacks :
    (sep c : ℕ) (ps : List Str) → c ≢ sep → All (Lacks sep) ps → All (Lacks sep) (on_first c ps)
unfolding on_first
on_first-Lacks sep c [] h hs = ((h, tt), tt)
on_first-Lacks sep c (p ∷ ps) h (hp, hps) = ((h, hp), hps)

pub split-Lacks : (sep : ℕ) (s : Str) → All (Lacks sep) (split sep s)
unfolding split
split-Lacks sep [] = (tt, tt)
split-Lacks sep (c ∷ s) = ground (arith, split-Lacks sep s, on_first-Lacks sep c (split sep s))

module _ {V : Type 0} where
  -- The bytes of a packet that has some.
  unfoldable pub content : FbpMessage V → Str
  content (raw b) = b
  content (text s) = s
  content _ = []

content-bytes_line : (V : Type 0) (x : List ℕ) → content {V = V} (bytes_line x) ≡ x
unfolding content bytes_line from_utf8
content-bytes_line V x = by_valid _
  where
    by_valid :
        (valid : Bool)
        → content {V = V} (elim (if valid then some x else none) [ some s ↦ text s | none ↦ raw x ])
          ≡ x
    by_valid true = refl
    by_valid false = refl

module _ {V : Type 0} where
  -- The bytes of the lines, where each line has the bytes of its part.
  contents :
      (line : List ℕ → FbpMessage V)
      → ((x : List ℕ) → content (line x) ≡ x)
      → (ps : List Str) → map content (map line ps) ≡ ps
  contents line h [] = refl
  contents line h (p ∷ ps) = cc (h p, contents line h ps)

  lines_Lack :
      (line : List ℕ → FbpMessage V)
      → ((x : List ℕ) → content (line x) ≡ x)
      → (sep : ℕ) (ps : List Str) → All (Lacks sep) ps
      → All (λ l. Lacks sep (content l)) (map line ps)
  lines_Lack line h sep [] hs = tt
  lines_Lack line h sep (p ∷ ps) (hp, hps) =
      (subst (Lacks sep) (sym (h p)) hp, lines_Lack line h sep ps hps)

  -- The lines of a packet, joined by newlines, are its bytes, and no line holds a newline.
  pub split_lines_lem :
      (m : FbpMessage V)
      → (join newline (map content (split_lines m)) ≡ content m)
        × All (λ l. Lacks newline (content l)) (split_lines m)
  unfolding split_lines content
  split_lines_lem (text s) = (
    ap (join newline) (contents text (λ x. refl) (split newline s)) ∙ join-split newline s,
    lines_Lack text (λ x. refl) newline (split newline s) (split-Lacks newline s),
  )
  split_lines_lem (raw b) = (
    ap (join newline) (contents bytes_line (content-bytes_line V) (split newline b))
        ∙ join-split newline b,
    lines_Lack bytes_line (content-bytes_line V) newline (split newline b) (split-Lacks newline b),
  )
  split_lines_lem _ = (unfold join in refl, tt)
