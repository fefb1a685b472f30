-- ===== src/Tests/Serving.antt =====
-- src/multi_graph.rs and src/runtime.rs: the theorems on a runtime with one graph.
use flowd.Base.{
  ◌≡◌, ◌↔◌, refl, true, false, none, some, [], ◌∷◌, Str, bytes, str_eq, HashMap, get, contains_key,
  ok, ℕ,
}
use flowd.Runtime.Graphs.{MultiGraphManager, get_active_graph}
use flowd.Runtime.Commands.{Runtime}
use flowd.Runtime.Secrets.{
  AccessLevel, read_only, read_write, validate_secret_with_access, Accepts, validate_secret_iff,
}

abbrev main : Str
main = bytes "main_graph"

abbrev side : Str
side = bytes "side"

-- The handle of a graph is a number.
abbrev manager : MultiGraphManager ℕ
manager = record { graphs = (main, 1) ∷ []; active_graph = main }

active : get_active_graph manager ≡ some 1
unfolding get_active_graph get str_eq
active = refl

abbrev runtime : Runtime ℕ
runtime = record {
  graph = main;
  status = record { graph = main; started = false; running = false; debug = none };
  tracing = false;
  graphs = manager;
  debug_edges = [];
}

known : contains_key main runtime.graphs.graphs ≡ true
unfolding get str_eq
known = refl

abbrev secrets : HashMap (Str × AccessLevel)
secrets = (main, (bytes "key", read_only)) ∷ []

validate_secret_iff_example :
    (validate_secret_with_access (some (bytes "key")) main read_write secrets ≡ ok tt)
    ↔ Accepts (some (bytes "key")) main read_write secrets
validate_secret_iff_example = validate_secret_iff (some (bytes "key")) main read_write secrets
