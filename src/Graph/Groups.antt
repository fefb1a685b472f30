-- ===== src/Graph/Groups.antt =====
-- src/graph.rs: the operations on groups of nodes.
use flowd.Base.{
  Bool, Option, none, some, List, [], ◌∷◌, ◌++◌, if◌then◌else◌, Str, str_eq, find, remove_first,
  change_first, ok, err, not_found, Fallible,
}
use flowd.Graph.{Graph, GraphGroup, GraphGroupMetadata, addressed}

abbrev named : Str → GraphGroup → Bool
named name x = str_eq x.name name

module _ {M : Type 0} where
  unfoldable pub add_group :
      Str → Str → List Str → GraphGroupMetadata → Graph M → Fallible (Graph M) (Unit {0})
  add_group graph name nodes d g =
      let group : GraphGroup = record { name = name; nodes = nodes; metadata = d } in
      if addressed graph g
      then (record g { groups = g.groups ++ group ∷ [] }, ok tt)
      else (g, err not_found)

  -- The groups are as given if the group was found.
  unfoldable pub if_found :
      Option GraphGroup → List GraphGroup → Graph M → Fallible (Graph M) (Unit {0})
  if_found none groups g = (g, err not_found)
  if_found (some x) groups g = (record g { groups = groups }, ok tt)

  unfoldable pub remove_group : Str → Str → Graph M → Fallible (Graph M) (Unit {0})
  unfolding if_found
  remove_group graph name g =
      if addressed graph g
      then if_found (find (named name) g.groups) (remove_first (named name) g.groups) g
      else (g, err not_found)

  unfoldable pub rename_group : Str → Str → Str → Graph M → Fallible (Graph M) (Unit {0})
  unfolding if_found
  rename_group graph old new g =
      if addressed graph g
      then if_found (find (named old) g.groups)
          (change_first (named old) (λ x. record x { name = new }) g.groups) g
      else (g, err not_found)

  unfoldable pub change_group :
      Str → Str → GraphGroupMetadata → Graph M → Fallible (Graph M) (Unit {0})
  unfolding if_found
  change_group graph name d g =
      if addressed graph g
      then if_found (find (named name) g.groups)
          (change_first (named name) (λ x. record x { metadata = d }) g.groups) g
      else (g, err not_found)
