-- ===== src/Graph/Ports.antt =====
-- src/graph.rs: the exported ports of a graph. The operations on inports and on outports are the
-- same, on two maps.
use flowd.Base.{
  Option, none, some, if◌then◌else◌, Str, HashMap, get, insert, remove, contains_key, pos, Result,
  ok, err, not_found, already_exists, Fallible,
}
use flowd.Graph.{Graph, GraphPort, GraphNodeMetadata}

-- `HashMap::try_insert`, as the operations report it.
unfoldable pub try_insert {ℓ} : {V : Type ℓ} → Str → V → HashMap V → HashMap V × Result (Unit {0})
try_insert k v m = if contains_key k m then (m, err already_exists) else (insert k v m, ok tt)

unfoldable pub try_remove {ℓ} : {V : Type ℓ} → Str → HashMap V → HashMap V × Result (Unit {0})
try_remove k m = if contains_key k m then (remove k m, ok tt) else (m, err not_found)

unfoldable pub move_value {ℓ} :
    {V : Type ℓ} → Str → Option V → Str → HashMap V → HashMap V × Result (Unit {0})
move_value old none new m = (m, err not_found)
move_value old (some v) new m = (insert new v (remove old m), ok tt)

-- The new name must be free; the entry is taken out and put in under it.
unfoldable pub try_rename {ℓ} : {V : Type ℓ} → Str → Str → HashMap V → HashMap V × Result (Unit {0})
unfolding move_value
try_rename old new m =
    if contains_key new m then (m, err already_exists) else move_value old (get old m) new m

-- `From<GraphAddinportRequestPayload>` and `From<GraphAddoutportRequestPayload>` for `GraphPort`.
unfoldable pub port_from_payload : Str → Str → Option GraphNodeMetadata → GraphPort
port_from_payload node port none = record {
  process = node;
  port = port;
  metadata = record { x = pos 0; y = pos 0 };
}
port_from_payload node port (some d) = record {
  process = node;
  port = port;
  metadata = record { x = d.x; y = d.y };
}

module _ {M : Type 0} where
  abbrev pub with_inports :
      Graph M → HashMap GraphPort × Result (Unit {0}) → Fallible (Graph M) (Unit {0})
  with_inports g (m, r) = (record g { inports = m }, r)

  abbrev pub with_outports :
      Graph M → HashMap GraphPort × Result (Unit {0}) → Fallible (Graph M) (Unit {0})
  with_outports g (m, r) = (record g { outports = m }, r)

  unfoldable pub add_inport : Str → GraphPort → Graph M → Fallible (Graph M) (Unit {0})
  unfolding try_insert
  add_inport name port g = with_inports g (try_insert name port g.inports)

  unfoldable pub add_outport : Str → GraphPort → Graph M → Fallible (Graph M) (Unit {0})
  unfolding try_insert
  add_outport name port g = with_outports g (try_insert name port g.outports)

  unfoldable pub remove_inport : Str → Graph M → Fallible (Graph M) (Unit {0})
  unfolding try_remove
  remove_inport name g = with_inports g (try_remove name g.inports)

  unfoldable pub remove_outport : Str → Graph M → Fallible (Graph M) (Unit {0})
  unfolding try_remove
  remove_outport name g = with_outports g (try_remove name g.outports)

  unfoldable pub rename_inport : Str → Str → Graph M → Fallible (Graph M) (Unit {0})
  unfolding try_rename
  rename_inport old new g = with_inports g (try_rename old new g.inports)

  unfoldable pub rename_outport : Str → Str → Graph M → Fallible (Graph M) (Unit {0})
  unfolding try_rename
  rename_outport old new g = with_outports g (try_rename old new g.outports)
