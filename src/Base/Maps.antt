-- ===== src/Base/Maps.antt =====
-- `HashMap<String, V>` as an association list, and `HashSet<String>` as a list. A key that is
-- inserted again keeps its place; the order of iteration is not specified by the library.
use Prim.Native.Nat.{ℕ, zero, suc, ◌≤◌, ◌<◌}
use mathlib.Core.Logic.{inl, inr}
use mathlib.Core.Path.{◌≡◌, refl}
use mathlib.Core.Bool.{Bool, true, false}
use mathlib.Core.Option.{Option, none, some}
use mathlib.Core.List.{List, [], ◌∷◌, ◌++◌}
use native.Mathlib.Omega.{arith}
use flowd.Base.Tests.{if◌then◌else◌, Bool-cases}
use flowd.Base.Lists.{length}
use flowd.Base.Texts.{Str, str_eq, str_eq_iff}

abbrev pub HashMap {ℓ} : Type ℓ → Type ℓ
HashMap V = List (Str × V)

module _ {ℓ} {V : Type ℓ} where
  unfoldable pub get : Str → HashMap V → Option V
  get k [] = none
  get k ((j, v) ∷ m) = if str_eq j k then some v else get k m

  unfoldable pub insert : Str → V → HashMap V → HashMap V
  insert k v [] = (k, v) ∷ []
  insert k v ((j, w) ∷ m) = if str_eq j k then (k, v) ∷ m else (j, w) ∷ insert k v m

  unfoldable pub remove : Str → HashMap V → HashMap V
  remove k [] = []
  remove k ((j, v) ∷ m) = let rest = remove k m in if str_eq j k then rest else (j, v) ∷ rest

  abbrev pub contains_key : Str → HashMap V → Bool
  contains_key k m = elim (get k m) [ none ↦ false | some v ↦ true ]

  abbrev pub keys : HashMap V → List Str
  keys [] = []
  keys ((k, v) ∷ m) = k ∷ keys m

  abbrev pub is_none : Option V → Bool
  is_none none = true
  is_none (some v) = false

  pub get-insert :
      (k j : Str) (v : V) (m : HashMap V)
      → get j (insert k v m) ≡ (if str_eq k j then some v else get j m)
  unfolding get insert
  get-insert k j v [] = refl
  get-insert k j v ((i, w) ∷ m) =
      ground (arith, str_eq_iff k j, str_eq_iff i k, str_eq_iff i j, get-insert k j v m)

  pub get-remove :
      (k j : Str) (m : HashMap V) → get j (remove k m) ≡ (if str_eq k j then none else get j m)
  unfolding get remove
  get-remove k j [] = ground arith
  get-remove k j ((i, w) ∷ m) =
      ground (arith, str_eq_iff k j, str_eq_iff i k, str_eq_iff i j, get-remove k j m)

pub ruleset map_laws = (get-insert, get-remove)

-- `HashSet<String>`: `contains`, `insert` (with the answer whether the value is new), `remove`.
unfoldable pub contains : List Str → Str → Bool
contains [] k = false
contains (j ∷ s) k = if str_eq j k then true else contains s k

unfoldable pub delete : List Str → Str → List Str
delete [] k = []
delete (j ∷ s) k = let rest = delete s k in if str_eq j k then rest else j ∷ rest

pub contains-delete :
    (s : List Str) (k j : Str)
    → contains (delete s k) j ≡ (if str_eq k j then false else contains s j)
unfolding contains delete
contains-delete [] k j = ground arith
contains-delete (i ∷ s) k j =
    ground (arith, str_eq_iff k j, str_eq_iff i k, str_eq_iff i j, contains-delete s k j)

pub contains-append :
    (s : List Str) (k j : Str)
    → contains (s ++ k ∷ []) j ≡ (if contains s j then true else str_eq k j)
unfolding contains
contains-append [] k j = ground arith
contains-append (i ∷ s) k j = ground (arith, contains-append s k j)

-- No text stands twice.
abbrev pub Distinct : List Str → Type 0
Distinct [] = Unit
Distinct (k ∷ s) = (contains s k ≡ false) × Distinct s

pub Distinct-append :
    (s : List Str) (k : Str) → Distinct s → contains s k ≡ false → Distinct (s ++ k ∷ [])
unfolding contains
Distinct-append [] k d h = (refl, tt)
Distinct-append (j ∷ s) k d h =
    ground (arith, contains-append s k j, str_eq_iff k j, str_eq_iff j k, Distinct-append s k d.1)

pub Distinct-delete : (s : List Str) (k : Str) → Distinct s → Distinct (delete s k)
unfolding delete
Distinct-delete [] k d = tt
Distinct-delete (j ∷ s) k d = ground (arith, contains-delete s k j, Distinct-delete s k d.1)

-- The place of a text in a list, from the front.
unfoldable pub index : Str → List Str → Option ℕ
index k [] = none
index k (j ∷ s) =
    let rest : Option ℕ = elim (index k s) [ none ↦ none | some i ↦ some (suc i) ] in
    if str_eq j k then some 0 else rest

pub index-append :
    (k j : Str) (s : List Str) (i : ℕ) → index k s ≡ some i → index k (s ++ j ∷ []) ≡ some i
unfolding index
index-append k j [] i h = ground arith
index-append k j (l ∷ s) zero h = ground arith
index-append k j (l ∷ s) (suc i) h = ground (arith, index-append k j s i)

-- A text that stands in a list has a place.
pub index_of_contains :
    (k : Str) (s : List Str) → contains s k ≡ true → (i : ℕ) × (index k s ≡ some i)
unfolding contains index
index_of_contains k [] h = absurd (ground arith)
index_of_contains k (j ∷ s) h = elim (Bool-cases (str_eq j k)) [
  | inl hit ↦ (0, rw hit)
  | inr miss ↦ let (i, p) = index_of_contains k s (ground arith) in (suc i, rw miss (rw p))
]

pub index-delete :
    (k j : Str) (s : List Str) (i : ℕ)
    → str_eq j k ≡ false
    → index k s ≡ some i
    → (i' : ℕ) × (index k (delete s j) ≡ some i') × (i' ≤ i)
unfolding index delete
index-delete k j [] i ne h = absurd (ground arith)
index-delete k j (l ∷ s) zero ne h =
    (0, ground (arith, str_eq_iff l j, str_eq_iff j k, str_eq_iff l k), omega arith)
index-delete k j (l ∷ s) (suc i) ne h =
    let (i', p, q) = index-delete k j s i ne (ground arith) in
    elim (Bool-cases (str_eq l j)) [
      | inl gone ↦ (i', ground arith, omega arith)
      | inr stays ↦ (suc i', ground arith, omega arith)
    ]

pub index-lt-length : (k : Str) (s : List Str) (i : ℕ) → index k s ≡ some i → i < length s
unfolding index
index-lt-length k [] i h = absurd (ground arith)
index-lt-length k (j ∷ s) zero h = omega arith
index-lt-length k (j ∷ s) (suc i) h = ground (arith, index-lt-length k s i)
