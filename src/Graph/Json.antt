-- ===== src/Graph/Json.antt =====
-- src/graph.rs: the metadata of a node, as a `serde_json` map and as the fields that the runtime
-- reads from it. `serde_json` is not part of the repository: `SerdeJson` is what the code uses of it.
use flowd.Base.{
  ℕ, ◌%◌, ◌^◌, ◌≡◌, Bool, Option, none, some, List, if◌then◌else◌, Str, bytes, str_eq, ℤ, pos,
  as_i32,
}
use flowd.Graph.{GraphNodeMetadata}

-- Values and numbers, the variants that the code asks for, and maps by their methods; a map's laws are
-- those that its documentation states of `insert`, `remove` and `get`.
pub record SerdeJson : Type 1 where
  pub Value : Type 0
  pub Number : Type 0
  pub Map : Type 0
  pub is_null : Value → Bool
  pub as_number : Value → Option Number
  pub as_text : Value → Option Str
  pub as_i64 : Number → Option ℤ
  pub as_u64 : Number → Option ℕ
  pub from_int : ℤ → Value
  pub from_text : Str → Value
  pub empty : Map
  pub get_value : Str → Map → Option Value
  pub put_value : Str → Value → Map → Map
  pub drop_value : Str → Map → Map
  pub entries : Map → List (Str × Value)
  pub get-put :
      (k j : Str) (v : Value) (m : Map)
      → get_value j (put_value k v m) ≡ (if str_eq k j then some v else get_value j m)
  pub get-drop :
      (k j : Str) (m : Map)
      → get_value j (drop_value k m) ≡ (if str_eq k j then none else get_value j m)

-- `x as u32`.
abbrev as_u32 : ℕ → ℕ
as_u32 n = n % 2 ^ 32

module _ (json : SerdeJson) where
  open json use {
    Value, Number, Map, as_number, as_text, as_i64, as_u64, from_int, from_text, empty, get_value,
    put_value,
  }

  -- The number under a key, if there is a value and it is a number.
  unfoldable pub number_at : Str → Map → Option Number
  number_at k m = elim (get_value k m) [ none ↦ none | some v ↦ as_number v ]

  pub text_at : Str → Map → Option Str
  text_at k m = elim (get_value k m) [ none ↦ none | some v ↦ as_text v ]

  -- A coordinate is overwritten by a number that is an `i64`.
  unfoldable pub read_int : Option Number → ℤ → ℤ
  read_int none old = old
  read_int (some n) old = elim (as_i64 n) [ none ↦ old | some z ↦ as_i32 z ]

  -- A size is overwritten by any number, by nothing if that is not a `u64`.
  read_size : Option Number → Option ℕ → Option ℕ
  read_size none old = old
  read_size (some n) old = elim (as_u64 n) [ none ↦ none | some u ↦ some (as_u32 u) ]

  read_text : Option Str → Option Str → Option Str
  read_text none old = old
  read_text (some s) old = some s

  -- `graph_node_metadata_from_payload`, from the default metadata.
  unfoldable pub from_payload : Map → GraphNodeMetadata
  unfolding number_at text_at read_int read_size read_text
  from_payload m = record {
    x = read_int (number_at (bytes "x") m) (pos 0);
    y = read_int (number_at (bytes "y") m) (pos 0);
    width = read_size (number_at (bytes "width") m) (some 72);
    height = read_size (number_at (bytes "height") m) (some 72);
    label = read_text (text_at (bytes "label") m) none;
    icon = read_text (text_at (bytes "icon") m) none;
  }

  put_size : Str → Option ℕ → Map → Map
  put_size k none m = m
  put_size k (some n) m = put_value k (from_int (pos n)) m

  put_text : Str → Option Str → Map → Map
  put_text k none m = m
  put_text k (some s) m = put_value k (from_text s) m

  -- `graph_node_metadata_to_payload`.
  unfoldable pub to_payload : GraphNodeMetadata → Map
  unfolding put_size put_text
  to_payload d =
      let placed : Map =
        put_value (bytes "y") (from_int d.y) (put_value (bytes "x") (from_int d.x) empty) in
      let sized : Map =
        put_size (bytes "height") d.height (put_size (bytes "width") d.width placed) in
      put_text (bytes "icon") d.icon (put_text (bytes "label") d.label sized)
