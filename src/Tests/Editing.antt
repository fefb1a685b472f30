-- ===== src/Tests/Editing.antt =====
-- src/graph.rs: the theorems on a graph of two nodes with one edge.
use flowd.Base.{
  ℕ, ◌≡◌, ◌≢◌, refl, Bool, true, false, Option, none, some, List, [], ◌∷◌, arith, Str, bytes,
  str_eq, HashMap, get, insert, remove, get-insert, get-remove, ℤ, pos, ok, find, if◌then◌else◌,
  KeepsOnError,
}
use flowd.Graph.{
  Graph, GraphNode, GraphEdge, GraphPort, GraphEdgeMetadata, NetworkSpec, addressed, spec_eq,
  option_eq,
}
use flowd.Graph.Json.{SerdeJson}
use flowd.Graph.Nodes.{RemovedEdge, remove_node, rename_node}
use flowd.Graph.Edges.{
  edge_from_payload, add_edge, remove_edge, add_initialip, remove_initialip, joins, is_initial,
}
use flowd.Graph.Integrity.{IsClosed}
use flowd.Graph.Requests.{apply, renames_node}
use flowd.Graph.Requests.Closed.{apply-IsClosed}
use flowd.Graph.Requests.Safety.{apply_keeps}
use flowd.Graph.Effects.{Divides, Follow, remove_node_effect, rename_node_strands_port}
use flowd.Graph.RoundTrips.{remove_edge-add_edge, remove_initialip-add_initialip}

-- JSON with integers and texts only.
pub data Value : Type 0 where
  null : Value
  number : ℤ → Value
  string : Str → Value

abbrev as_number : Value → Option ℤ
as_number null = none
as_number (number z) = some z
as_number (string s) = none

abbrev as_text : Value → Option Str
as_text null = none
as_text (number z) = none
as_text (string s) = some s

abbrev is_null : Value → Bool
is_null null = true
is_null (number z) = false
is_null (string s) = false

abbrev as_u64 : ℤ → Option ℕ
as_u64 (pos n) = some n
as_u64 _ = none

abbrev pub small_json : SerdeJson
small_json = record {
  Value = Value;
  Number = ℤ;
  Map = HashMap Value;
  is_null = is_null;
  as_number = as_number;
  as_text = as_text;
  as_i64 = some;
  as_u64 = as_u64;
  from_int = number;
  from_text = string;
  empty = [];
  get_value = get;
  put_value = insert;
  drop_value = remove;
  entries = λ m. m;
  get-put = get-insert;
  get-drop = get-remove;
}

abbrev pub main : Str
main = bytes "main"

abbrev pub reader : Str
reader = bytes "reader"

abbrev pub writer : Str
writer = bytes "writer"

abbrev node : GraphNode (HashMap Value)
node = record {
  component = bytes "Repeat";
  metadata = record {
    x = pos 0;
    y = pos 0;
    width = some 72;
    height = some 72;
    label = none;
    icon = none;
  };
  protocol_metadata = [];
}

abbrev pub out : NetworkSpec
out = record { node = reader; port = bytes "OUT"; index = none }

abbrev pub inn : NetworkSpec
inn = record { node = writer; port = bytes "IN"; index = none }

abbrev pub conf : NetworkSpec
conf = record { node = writer; port = bytes "CONF"; index = none }

abbrev pub plain : GraphEdgeMetadata
plain = record { route = none; schema = none; secure = none }

abbrev pub wire : GraphEdge
wire = record {
  source = record { process = reader; port = bytes "OUT"; index = none };
  payload = none;
  target = record { process = writer; port = bytes "IN"; index = none };
  metadata = plain;
}

abbrev exported : GraphPort
exported = record {
  process = reader;
  port = bytes "IN";
  metadata = record { x = pos 0; y = pos 0 };
}

abbrev pub small : Graph (HashMap Value)
small = record {
  properties = record { name = main; description = []; icon = [] };
  inports = (bytes "in", exported) ∷ [];
  outports = [];
  groups = [];
  nodes = (reader, node) ∷ (writer, node) ∷ [];
  edges = wire ∷ [];
}

right : addressed main small ≡ true
unfolding str_eq
right = refl

has_reader : get reader small.nodes ≡ some node
unfolding get str_eq
has_reader = refl

is_free : get (bytes "source") small.nodes ≡ none
unfolding get str_eq
is_free = refl

has_port : get (bytes "in") small.inports ≡ some exported
unfolding get str_eq
has_port = refl

pub small-IsClosed : IsClosed small
unfolding get str_eq
small-IsClosed = record { ends = (((λ h. refl), refl), tt) }

apply-IsClosed_example :
    IsClosed (apply small_json (renames_node main reader (bytes "source")) small).0
apply-IsClosed_example =
    apply-IsClosed small_json (renames_node main reader (bytes "source")) small tt small-IsClosed

apply_keeps_example : KeepsOnError small (apply small_json (renames_node main reader writer) small)
apply_keeps_example = apply_keeps small_json (renames_node main reader writer) small

remove_node_effect_example :
    let g' = (remove_node main reader small).0 in
    ((p : Str) → get p g'.nodes ≡ (if str_eq reader p then none else get p small.nodes))
    × (reports : List RemovedEdge) × ((remove_node main reader small).1 ≡ ok reports)
    × Divides reader main small.edges g'.edges reports
remove_node_effect_example = remove_node_effect main small right reader node has_reader

rename_node_strands_port_example :
    let g' = (rename_node main reader (bytes "source") small).0 in
    (get (bytes "source") g'.nodes ≡ some node)
    × Follow reader (bytes "source") small.edges g'.edges
    × (get (bytes "in") g'.inports ≡ some exported)
    × (get reader g'.nodes ≡ none)
rename_node_strands_port_example =
    rename_node_strands_port main small right reader (bytes "source") (bytes "in") node exported
      has_reader is_free has_port refl

fresh_edge : find (joins out conf) small.edges ≡ none
unfolding joins spec_eq str_eq option_eq
fresh_edge = refl

remove_edge-add_edge_example :
    remove_edge main out conf (add_edge main (edge_from_payload out conf plain) small).0
    ≡ (small, ok tt)
remove_edge-add_edge_example = remove_edge-add_edge main out conf plain small right fresh_edge

fresh_packet : (wanted : Option Str) → find (is_initial wanted conf) small.edges ≡ none
unfolding is_initial
fresh_packet wanted = refl

some_content : bytes "x" ≢ []
some_content e = absurd (ground (arith, e))

remove_initialip-add_initialip_example :
    remove_initialip none conf (add_initialip (bytes "x") conf plain small).0
    ≡ (small, ok (bytes "x"))
remove_initialip-add_initialip_example =
    remove_initialip-add_initialip none (bytes "x") conf plain small some_content tt
      (fresh_packet none)
