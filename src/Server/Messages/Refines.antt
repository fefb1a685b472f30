-- ===== src/Server/Messages/Refines.antt =====
-- src/server.rs and src/graph.rs: the graph messages do to the graph that they name what the
-- operations of the graph do, and nothing to anything else.
pub mod Kept
pub mod Clients
pub mod Reached
use flowd.Base.{
  ℕ, ◌≡◌, refl, sym, ap, ◌∙◌, Bool, true, false, Option, none, some, List, [], ◌∷◌, ◌++◌, map,
  if◌then◌else◌, Str, bytes, Result, ok, err, ErrorKind, Fallible, arith, not_found, ◌||◌, subst,
  fun_ext, KeepsOnError, Bool-cases, inl, inr, ◌⊎◌,
}
use flowd.Graph.{Graph}
use flowd.Graph.Json.{SerdeJson}
use flowd.Graph.Nodes.{
  add_node_from_payload, remove_node, rename_node, change_node, RemovedEdge, AddedNode,
}
use flowd.Graph.Edges.{
  add_edge, remove_edge, change_edge, add_initialip, remove_initialip, edge_from_payload,
}
use flowd.Graph.Ports.{
  add_inport, add_outport, remove_inport, remove_outport, rename_inport, rename_outport,
  port_from_payload,
}
use flowd.Graph.Groups.{add_group, remove_group, rename_group, change_group}
use flowd.Graph.Requests.{Request, forget, apply}
use flowd.Graph.Requests as Requests
use flowd.Graph.Requests.Safety.{apply_keeps}
use flowd.Runtime.Secrets.{read_write}
use flowd.Server.{Server, Handled, put_graph, allows, get_graph_by_name, on_graph, finish}
use flowd.Server.Payloads.{
  Answer, Failure, failed, invalid_secret, graph_error, removed_edge, AddnodePayload, ClearPayload,
}
use flowd.Server.Graphs.{
  handle_clear, finish_clear, clear_response, with_icon, finish_addnode, handle_addnode,
  addport_response,
}
use flowd.Server.Messages.{
  GraphMessage, clears_graph, adds_node, removes_node, renames_node, changes_node, adds_edge,
  removes_edge, changes_edge, adds_initial, removes_initial, adds_inport, adds_outport,
  removes_inport, removes_outport, renames_inport, renames_outport, adds_group, removes_group,
  renames_group, changes_group, handle_graph, has_error,
}
use flowd.Server.Messages.Carried.{
  failed?, Carries, Calm, put_graph_same, no_error_in, finish-Carries, finish_plain-Carries,
  on_graph_reaches, on_graph_misses, on_graph_shuts,
}

module _ (json : SerdeJson) where
  open json use {Map}

  -- The graph that a message names and the operation that it asks of it; `graph:clear` is for another
  -- graph than the one it names, and is left out.
  unfoldable pub request_of : GraphMessage Map → Option (Str × Request Map)
  unfolding with_icon edge_from_payload port_from_payload
  request_of (clears_graph p) = none
  request_of (adds_node p) = elim p.graph [
    | none ↦ none
    | some g ↦ some (g, Requests.adds_node g p.component p.name (with_icon json p.icon p.metadata))
  ]
  request_of (removes_node p) = some (p.graph, Requests.removes_node p.graph p.name)
  request_of (renames_node p) = some (p.graph, Requests.renames_node p.graph p.old p.new)
  request_of (changes_node p) = some (p.graph, Requests.changes_node p.graph p.name p.metadata)
  request_of (adds_edge p) =
      some (p.graph, Requests.adds_edge p.graph (edge_from_payload p.src p.tgt p.metadata))
  request_of (removes_edge p) = some (p.graph, Requests.removes_edge p.graph p.src p.tgt)
  request_of (changes_edge p) = some (p.graph, Requests.changes_edge p.graph p.src p.tgt p.metadata)
  request_of (adds_initial p) = some (p.graph, Requests.adds_initial p.src p.tgt p.metadata)
  request_of (removes_initial p) = some (p.graph, Requests.removes_initial p.src p.tgt)
  request_of (adds_inport p) =
      some (p.graph, Requests.adds_inport p.public (port_from_payload p.node p.port p.metadata))
  request_of (removes_inport p) = some (p.graph, Requests.removes_inport p.name)
  request_of (renames_inport p) = some (p.graph, Requests.renames_inport p.old p.new)
  request_of (adds_outport p) =
      some (p.graph, Requests.adds_outport p.public (port_from_payload p.node p.port p.metadata))
  request_of (removes_outport p) = some (p.graph, Requests.removes_outport p.name)
  request_of (renames_outport p) = some (p.graph, Requests.renames_outport p.old p.new)
  request_of (adds_group p) = some (p.graph, Requests.adds_group p.graph p.name p.nodes p.metadata)
  request_of (removes_group p) = some (p.graph, Requests.removes_group p.graph p.name)
  request_of (renames_group p) = some (p.graph, Requests.renames_group p.graph p.old p.new)
  request_of (changes_group p) = some (p.graph, Requests.changes_group p.graph p.name p.metadata)

  finish_addnode-Carries :
      (h : ℕ) (s : Server Map) (r : Fallible (Graph Map) (AddedNode json))
      → Carries h s (forget r) (finish_addnode json h r s)
  unfolding finish_addnode failed? has_error
  finish_addnode-Carries h s (g, ok a) = record { server = refl; told = refl }
  finish_addnode-Carries h s (g, err e) = record { server = refl; told = refl }

  -- What a handler does for an operation on a graph: it carries it out, if the client may write and
  -- the graph is there; if it is not there, nothing changes.
  pub record Done (secret : Option Str) (s : Server Map) (name : Str) (q : Request Map)
      (out : Handled Map) : Type 0 where
    pub carried :
        (h : ℕ)
        → allows read_write secret name s.secrets ≡ true
        → get_graph_by_name name s ≡ some h
        → Carries h s (apply json q (s.store h)) out
    pub missed :
        allows read_write secret name s.secrets ≡ true → get_graph_by_name name s ≡ none → out.0 ≡ s
    pub shut : allows read_write secret name s.secrets ≡ false → out.0 ≡ s

  -- What a handler does for any other message: if it changes a graph, it clears the fallback graph.
  pub record Aside (s : Server Map) (out : Handled Map) : Type 0 where
    pub calm : Calm s out
    pub store :
        (out.0.store ≡ s.store)
        ⊎ ((p : ClearPayload) × (out.0.store
              ≡ put_graph s.graph
                  (apply json
                    (Requests.clears p.name p.description p.icon s.runtime.status.running)
                    (s.store s.graph)).0
                  s.store))

  abbrev pub DoneFor : Option Str → Server Map → Option (Str × Request Map) → Handled Map → Type 0
  DoneFor secret s none out = Aside s out
  DoneFor secret s (some (name, q)) out = Done secret s name q out

  on_graph-Done :
      (secret : Option Str) (name : Str) (missing : Failure) (f : ℕ → Handled Map) (s : Server Map)
      (q : Request Map)
      → ((h : ℕ) → Carries h s (apply json q (s.store h)) (f h))
      → Done secret s name q (on_graph secret name missing f s)
  on_graph-Done secret name missing f s q each = record {
    carried = λ h may found. rw (on_graph_reaches secret name missing f s h may found) (each h);
    missed = λ may lost. ap (λ o. o.0) (on_graph_misses secret name missing f s may lost);
    shut = λ no_right. ap (λ o. o.0) (on_graph_shuts secret name missing f s no_right);
  }

  addnode_done :
      (secret : Option Str) (p : AddnodePayload Map) (s : Server Map) (o : Option Str)
      → p.graph ≡ o
      → DoneFor secret s (request_of (adds_node p)) (handle_addnode json secret p s)
  unfolding request_of handle_addnode apply
  addnode_done secret p s none e =
      rw (e, request_of, handle_addnode) (record { calm = λ x. refl; store = inl refl })
  addnode_done secret p s (some g) e =
      rw (e, request_of, handle_addnode)
        (on_graph-Done secret g _ _ s _ (λ h. finish_addnode-Carries h s (
          add_node_from_payload json g p.component p.name (with_icon json p.icon p.metadata)
            (s.store h))))

  finish_clear-Calm :
      (p : ClearPayload) (s : Server Map) (r : Fallible (Graph Map) (Unit {0}))
      → KeepsOnError (s.store s.graph) r
      → Calm s (finish_clear p r s)
  unfolding finish_clear clear_response has_error
  finish_clear-Calm p s (g, ok u) k e = absurd (false_is_true e)
    where
      false_is_true : false ≡ true → ⊥
      false_is_true q = cc
  finish_clear-Calm p s (g, err x) k e =
      ap (λ st. record s { store = st })
        (ap (λ g. put_graph s.graph g s.store) k ∙ put_graph_same s.graph s.store)

  store-finish_clear :
      (p : ClearPayload) (s : Server Map) (r : Fallible (Graph Map) (Unit {0}))
      → (finish_clear p r s).0.store ≡ put_graph s.graph r.0 s.store
  unfolding finish_clear
  store-finish_clear p s (g, ok u) = refl
  store-finish_clear p s (g, err x) = refl

  clear-Aside :
      (secret : Option Str) (p : ClearPayload) (s : Server Map) → Aside s (handle_clear secret p s)
  unfolding handle_clear apply
  clear-Aside secret p s =
      let q : Request Map = Requests.clears p.name p.description p.icon s.runtime.status.running in
      let r : Fallible (Graph Map) (Unit {0}) = apply json q (s.store s.graph) in
      elim (Bool-cases (allows read_write secret p.name s.secrets)) [
        | inl may ↦ rw may (record {
          calm = finish_clear-Calm p s r (apply_keeps json q (s.store s.graph));
          store = inr (p, store-finish_clear p s r);
        })
        | inr may_not ↦ rw may_not (record { calm = λ e. refl; store = inl refl })
      ]

  pub message_done :
      (secret : Option Str) (m : GraphMessage Map) (s : Server Map)
      → DoneFor secret s (request_of m) (handle_graph json secret m s)
  unfolding request_of handle_graph apply has_error
  message_done secret (clears_graph p) s = clear-Aside secret p s
  message_done secret (adds_node p) s = addnode_done secret p s p.graph refl
  message_done secret (removes_node p) s = on_graph-Done secret p.graph _ _ s _ (λ h.
      finish-Carries h s (remove_node p.graph p.name (s.store h)) _ (λ es. no_error_in es _ refl))
  message_done secret (renames_node p) s =
      on_graph-Done secret p.graph _ _ s _
        (λ h. finish_plain-Carries h s (rename_node p.graph p.old p.new (s.store h)) _ refl)
  message_done secret (changes_node p) s = on_graph-Done secret p.graph _ _ s _ (λ h.
      finish-Carries h s (change_node json p.graph p.name p.metadata (s.store h)) _ (λ m. refl))
  message_done secret (adds_edge p) s = on_graph-Done secret p.graph _ _ s _ (λ h.
      finish_plain-Carries h s
        (add_edge p.graph (edge_from_payload p.src p.tgt p.metadata) (s.store h)) _ refl)
  message_done secret (removes_edge p) s =
      on_graph-Done secret p.graph _ _ s _
        (λ h. finish_plain-Carries h s (remove_edge p.graph p.src p.tgt (s.store h)) _ refl)
  message_done secret (changes_edge p) s = on_graph-Done secret p.graph _ _ s _ (λ h.
      finish_plain-Carries h s (change_edge p.graph p.src p.tgt p.metadata (s.store h)) _ refl)
  message_done secret (adds_initial p) s =
      on_graph-Done secret p.graph _ _ s _
        (λ h. finish_plain-Carries h s (add_initialip p.src p.tgt p.metadata (s.store h)) _ refl)
  message_done secret (removes_initial p) s =
      on_graph-Done secret p.graph _ _ s _
        (λ h. finish-Carries h s (remove_initialip p.src p.tgt (s.store h)) _ (λ src. refl))
  message_done secret (adds_inport p) s = on_graph-Done secret p.graph _ _ s _ (λ h.
      finish_plain-Carries h s
        (add_inport p.public (port_from_payload p.node p.port p.metadata) (s.store h)) _ refl)
  message_done secret (removes_inport p) s =
      on_graph-Done secret p.graph _ _ s _
        (λ h. finish_plain-Carries h s (remove_inport p.name (s.store h)) _ refl)
  message_done secret (renames_inport p) s =
      on_graph-Done secret p.graph _ _ s _
        (λ h. finish_plain-Carries h s (rename_inport p.old p.new (s.store h)) _ refl)
  message_done secret (adds_outport p) s = on_graph-Done secret p.graph _ _ s _ (λ h.
      finish_plain-Carries h s
        (add_outport p.public (port_from_payload p.node p.port p.metadata) (s.store h)) _ refl)
  message_done secret (removes_outport p) s =
      on_graph-Done secret p.graph _ _ s _
        (λ h. finish_plain-Carries h s (remove_outport p.name (s.store h)) _ refl)
  message_done secret (renames_outport p) s =
      on_graph-Done secret p.graph _ _ s _
        (λ h. finish_plain-Carries h s (rename_outport p.old p.new (s.store h)) _ refl)
  message_done secret (adds_group p) s = on_graph-Done secret p.graph _ _ s _ (λ h.
      finish_plain-Carries h s (add_group p.graph p.name p.nodes p.metadata (s.store h)) _ refl)
  message_done secret (removes_group p) s =
      on_graph-Done secret p.graph _ _ s _
        (λ h. finish_plain-Carries h s (remove_group p.graph p.name (s.store h)) _ refl)
  message_done secret (renames_group p) s =
      on_graph-Done secret p.graph _ _ s _
        (λ h. finish_plain-Carries h s (rename_group p.graph p.old p.new (s.store h)) _ refl)
  message_done secret (changes_group p) s =
      on_graph-Done secret p.graph _ _ s _
        (λ h. finish_plain-Carries h s (change_group p.graph p.name p.metadata (s.store h)) _ refl)

  done :
      (secret : Option Str) (m : GraphMessage Map) (s : Server Map) (name : Str) (q : Request Map)
      → request_of m ≡ some (name, q)
      → Done secret s name q (handle_graph json secret m s)
  done secret m s name q stands =
      subst (λ o. DoneFor secret s o (handle_graph json secret m s)) stands
        (message_done secret m s)

  -- A graph message, other than `graph:clear`, with the right to write, whose graph there is, does to
  -- that graph what the operation of the graph does, to nothing else anything, and its answers have an
  -- error exactly if the operation failed.
  pub handle_graph-Carries :
      (secret : Option Str) (m : GraphMessage Map) (s : Server Map) (name : Str) (q : Request Map)
      (h : ℕ)
      → request_of m ≡ some (name, q)
      → allows read_write secret name s.secrets ≡ true
      → get_graph_by_name name s ≡ some h
      → Carries h s (apply json q (s.store h)) (handle_graph json secret m s)
  handle_graph-Carries secret m s name q h stands may found =
      (done secret m s name q stands).carried h may found
