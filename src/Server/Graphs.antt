-- ===== src/Server/Graphs.antt =====
-- src/server.rs: the handlers of the graph messages, one for each, in the order of the source.
use flowd.Base.{
  ℕ, Option, none, some, [], ◌∷◌, ◌++◌, map, if◌then◌else◌, Str, bytes, str_eq, ok, err, ErrorKind,
  not_found, Fallible,
}
use flowd.Graph.{Graph, clear}
use flowd.Graph.Json.{SerdeJson}
use flowd.Graph.Nodes.{AddedNode, add_node_from_payload, remove_node, rename_node, change_node}
use flowd.Graph.Edges.{
  add_edge, remove_edge, change_edge, add_initialip, remove_initialip, edge_from_payload,
}
use flowd.Graph.Ports.{
  add_inport, add_outport, remove_inport, remove_outport, rename_inport, rename_outport,
  port_from_payload,
}
use flowd.Graph.Groups.{add_group, remove_group, rename_group, change_group}
use flowd.Runtime.Graphs.{MultiGraphManager, add_graph, remove_graph, set_active_graph}
use flowd.Runtime.Commands.{Runtime}
use flowd.Runtime.Secrets.{read_write}
use flowd.Server.{Server, Handled, put_graph, allows, on_graph, finish}
use flowd.Server.Payloads.{
  ClearPayload, AddnodePayload, NamedPayload, RenamePayload, ChangenodePayload, EdgePayload,
  RemoveedgePayload, AddinitialPayload, RemoveinitialPayload, AddportPayload, GroupPayload,
  ChangegroupPayload, Failure, invalid_secret, graph_not_found, no_graph_specified, failed, Answer,
  graph_error, cleared, added_node, removed_edge, removed_node, renamed_node, changed_node,
  added_edge, changed_edge, added_initial, removed_initial, added_inport, added_outport,
  removed_inport, renamed_inport, removed_outport, renamed_outport, added_group, removed_group,
  renamed_group, changed_group,
}

-- The label of a cleared graph is its name unless the request has one.
unfoldable pub clear_response : {M : Type 0} → ClearPayload → Answer M
clear_response p = cleared p (elim p.label [ none ↦ p.name | some l ↦ l ])

unfoldable pub addport_response :
    {M : Type 0} → (Str → Str → Str → Str → Answer M) → AddportPayload → Answer M
addport_response answer p = answer p.graph p.public p.node p.port

-- The text for an error of `add_node`.
unfoldable pub addnode_failure : ErrorKind → Failure
addnode_failure not_found = graph_not_found
addnode_failure e = failed e

-- The runtime after the fallback graph was cleared: it is registered under its new name, the graph
-- that was active is taken out, and the new name is active.
unfoldable pub reassign : Str → ℕ → Runtime ℕ → Runtime ℕ
unfolding add_graph remove_graph set_active_graph
reassign name h r =
    let added : MultiGraphManager ℕ = add_graph name h r.graphs in
    let left : MultiGraphManager ℕ =
      if str_eq r.graph name then added else (remove_graph r.graph added).0 in
    record r { graph = name; graphs = (set_active_graph name left).0 }

module _ {M : Type 0} where
  unfoldable pub finish_clear : ClearPayload → Fallible (Graph M) (Unit {0}) → Server M → Handled M
  unfolding clear_response reassign
  finish_clear p (g, ok u) s = (
    record s { store = put_graph s.graph g s.store; runtime = reassign p.name s.graph s.runtime },
    clear_response p ∷ [],
  )
  finish_clear p (g, err e) s =
      (record s { store = put_graph s.graph g s.store }, graph_error (failed e) ∷ [])

  -- `graph:clear` is for the fallback graph, whatever name it gives.
  unfoldable pub handle_clear : Option Str → ClearPayload → Server M → Handled M
  unfolding finish_clear allows clear
  handle_clear secret p s =
      if allows read_write secret p.name s.secrets
      then finish_clear p
          (clear p.name p.description p.icon s.runtime.status.running (s.store s.graph)) s
      else (s, graph_error invalid_secret ∷ [])

  unfoldable pub handle_removenode : Option Str → NamedPayload → Server M → Handled M
  unfolding on_graph finish remove_node
  handle_removenode secret p s =
      on_graph secret p.graph (failed not_found)
        (λ h.
          finish h (remove_node p.graph p.name (s.store h))
            (λ es. map (λ e. removed_edge e.graph e.src e.tgt) es ++ removed_node p ∷ []) s)
        s

  unfoldable pub handle_renamenode : Option Str → RenamePayload → Server M → Handled M
  unfolding on_graph finish rename_node
  handle_renamenode secret p s =
      on_graph secret p.graph (failed not_found)
        (λ h. finish h (rename_node p.graph p.old p.new (s.store h)) (λ u. renamed_node p ∷ []) s) s

  unfoldable pub handle_addedge : Option Str → EdgePayload → Server M → Handled M
  unfolding on_graph finish add_edge edge_from_payload
  handle_addedge secret p s =
      on_graph secret p.graph (failed not_found)
        (λ h.
          finish h (add_edge p.graph (edge_from_payload p.src p.tgt p.metadata) (s.store h))
            (λ u. added_edge p ∷ []) s)
        s

  unfoldable pub handle_removeedge : Option Str → RemoveedgePayload → Server M → Handled M
  unfolding on_graph finish remove_edge
  handle_removeedge secret p s =
      on_graph secret p.graph (failed not_found)
        (λ h.
          finish h (remove_edge p.graph p.src p.tgt (s.store h))
            (λ u. removed_edge p.graph p.src p.tgt ∷ []) s)
        s

  unfoldable pub handle_changeedge : Option Str → EdgePayload → Server M → Handled M
  unfolding on_graph finish change_edge
  handle_changeedge secret p s =
      on_graph secret p.graph (failed not_found)
        (λ h.
          finish h (change_edge p.graph p.src p.tgt p.metadata (s.store h))
            (λ u. changed_edge p ∷ []) s)
        s

  unfoldable pub handle_addinitial : Option Str → AddinitialPayload → Server M → Handled M
  unfolding on_graph finish add_initialip
  handle_addinitial secret p s =
      on_graph secret p.graph (failed not_found)
        (λ h.
          finish h (add_initialip p.src p.tgt p.metadata (s.store h)) (λ u. added_initial p ∷ []) s)
        s

  unfoldable pub handle_removeinitial : Option Str → RemoveinitialPayload → Server M → Handled M
  unfolding on_graph finish remove_initialip
  handle_removeinitial secret p s =
      on_graph secret p.graph (failed not_found)
        (λ h.
          finish h (remove_initialip p.src p.tgt (s.store h))
            (λ src. removed_initial p.graph src p.tgt ∷ []) s)
        s

  unfoldable pub handle_addinport : Option Str → AddportPayload → Server M → Handled M
  unfolding on_graph finish add_inport port_from_payload addport_response
  handle_addinport secret p s =
      on_graph secret p.graph (failed not_found)
        (λ h.
          finish h (add_inport p.public (port_from_payload p.node p.port p.metadata) (s.store h))
            (λ u. addport_response added_inport p ∷ []) s)
        s

  unfoldable pub handle_removeinport : Option Str → NamedPayload → Server M → Handled M
  unfolding on_graph finish remove_inport
  handle_removeinport secret p s =
      on_graph secret p.graph (failed not_found)
        (λ h. finish h (remove_inport p.name (s.store h)) (λ u. removed_inport ∷ []) s) s

  unfoldable pub handle_renameinport : Option Str → RenamePayload → Server M → Handled M
  unfolding on_graph finish rename_inport
  handle_renameinport secret p s =
      on_graph secret p.graph (failed not_found)
        (λ h. finish h (rename_inport p.old p.new (s.store h)) (λ u. renamed_inport ∷ []) s) s

  unfoldable pub handle_addoutport : Option Str → AddportPayload → Server M → Handled M
  unfolding on_graph finish add_outport port_from_payload addport_response
  handle_addoutport secret p s =
      on_graph secret p.graph (failed not_found)
        (λ h.
          finish h (add_outport p.public (port_from_payload p.node p.port p.metadata) (s.store h))
            (λ u. addport_response added_outport p ∷ []) s)
        s

  unfoldable pub handle_removeoutport : Option Str → NamedPayload → Server M → Handled M
  unfolding on_graph finish remove_outport
  handle_removeoutport secret p s =
      on_graph secret p.graph (failed not_found)
        (λ h. finish h (remove_outport p.name (s.store h)) (λ u. removed_outport p ∷ []) s) s

  unfoldable pub handle_renameoutport : Option Str → RenamePayload → Server M → Handled M
  unfolding on_graph finish rename_outport
  handle_renameoutport secret p s =
      on_graph secret p.graph (failed not_found)
        (λ h. finish h (rename_outport p.old p.new (s.store h)) (λ u. renamed_outport ∷ []) s) s

  unfoldable pub handle_addgroup : Option Str → GroupPayload → Server M → Handled M
  unfolding on_graph finish add_group
  handle_addgroup secret p s =
      on_graph secret p.graph (failed not_found)
        (λ h.
          finish h (add_group p.graph p.name p.nodes p.metadata (s.store h)) (λ u. added_group ∷ [])
            s)
        s

  unfoldable pub handle_removegroup : Option Str → NamedPayload → Server M → Handled M
  unfolding on_graph finish remove_group
  handle_removegroup secret p s =
      on_graph secret p.graph (failed not_found)
        (λ h. finish h (remove_group p.graph p.name (s.store h)) (λ u. removed_group ∷ []) s) s

  unfoldable pub handle_renamegroup : Option Str → RenamePayload → Server M → Handled M
  unfolding on_graph finish rename_group
  handle_renamegroup secret p s =
      on_graph secret p.graph (failed not_found)
        (λ h. finish h (rename_group p.graph p.old p.new (s.store h)) (λ u. renamed_group ∷ []) s) s

  unfoldable pub handle_changegroup : Option Str → ChangegroupPayload → Server M → Handled M
  unfolding on_graph finish change_group
  handle_changegroup secret p s =
      on_graph secret p.graph (failed not_found)
        (λ h.
          finish h (change_group p.graph p.name p.metadata (s.store h)) (λ u. changed_group ∷ []) s)
        s

module _ (json : SerdeJson) where
  open json use {Map, put_value, from_text}

  -- The icon of the request goes into the metadata.
  unfoldable pub with_icon : Option Str → Map → Map
  with_icon none m = m
  with_icon (some icon) m = put_value (bytes "icon") (from_text icon) m

  unfoldable pub finish_addnode :
      ℕ → Fallible (Graph Map) (AddedNode json) → Server Map → Handled Map
  unfolding addnode_failure
  finish_addnode h (g, ok a) s = (
    record s { store = put_graph h g s.store },
    added_node a.name a.component a.metadata a.graph ∷ [],
  )
  finish_addnode h (g, err e) s =
      (record s { store = put_graph h g s.store }, graph_error (addnode_failure e) ∷ [])

  unfoldable pub handle_addnode : Option Str → AddnodePayload Map → Server Map → Handled Map
  unfolding on_graph finish_addnode add_node_from_payload with_icon
  handle_addnode secret p s = elim p.graph [
    | none ↦ (s, graph_error no_graph_specified ∷ [])
    | some name ↦
        on_graph secret name graph_not_found
          (λ h.
            finish_addnode h
              (add_node_from_payload json name p.component p.name (with_icon p.icon p.metadata)
                (s.store h))
              s)
          s
  ]

  unfoldable pub handle_changenode : Option Str → ChangenodePayload Map → Server Map → Handled Map
  unfolding on_graph finish change_node
  handle_changenode secret p s =
      on_graph secret p.graph (failed not_found)
        (λ h.
          finish h (change_node json p.graph p.name p.metadata (s.store h))
            (λ m. changed_node p.name m p.graph ∷ []) s)
        s
