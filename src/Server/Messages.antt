-- ===== src/Server/Messages.antt =====
-- src/protocol.rs and src/server.rs: the messages of a client and their dispatch. A message carries
-- its secret beside its payload.
pub mod Refused
pub mod Readers
pub mod Carried
pub mod Refines
pub mod Cleared
use flowd.Base.{
  ℕ, Bool, true, false, Option, none, some, List, [], ◌∷◌, if◌then◌else◌, Str, ◌||◌, ErrorKind,
  Result, ok, err, Fallible,
}
use flowd.Graph.Json.{SerdeJson}
use flowd.Runtime.Commands.{RuntimeStatus}
use flowd.Server.{Server, Handled}
use flowd.Server.Payloads.{
  ClearPayload, AddnodePayload, NamedPayload, RenamePayload, ChangenodePayload, EdgePayload,
  RemoveedgePayload, AddinitialPayload, RemoveinitialPayload, AddportPayload, GroupPayload,
  ChangegroupPayload, EdgesPayload, Answer, graph_error, trace_error, runtime_error, network_error,
}
use flowd.Server.Graphs.{
  handle_clear, handle_addnode, handle_removenode, handle_renamenode, handle_changenode,
  handle_addedge, handle_removeedge, handle_changeedge, handle_addinitial, handle_removeinitial,
  handle_addinport, handle_removeinport, handle_renameinport, handle_addoutport,
  handle_removeoutport, handle_renameoutport, handle_addgroup, handle_removegroup,
  handle_renamegroup, handle_changegroup,
}
use flowd.Server.Control.{
  Client, handle_trace_start, handle_trace_stop, handle_trace_clear, handle_trace_dump,
  handle_network_edges, handle_network_debug, handle_network_stop, handle_network_getstatus,
  handle_getruntime, handle_component_list, handle_packetsent,
}

pub data GraphMessage (M : Type 0) : Type 0 where
  clears_graph : ClearPayload → GraphMessage M
  adds_node : AddnodePayload M → GraphMessage M
  removes_node : NamedPayload → GraphMessage M
  renames_node : RenamePayload → GraphMessage M
  changes_node : ChangenodePayload M → GraphMessage M
  adds_edge : EdgePayload → GraphMessage M
  removes_edge : RemoveedgePayload → GraphMessage M
  changes_edge : EdgePayload → GraphMessage M
  adds_initial : AddinitialPayload → GraphMessage M
  removes_initial : RemoveinitialPayload → GraphMessage M
  adds_inport adds_outport : AddportPayload → GraphMessage M
  removes_inport removes_outport : NamedPayload → GraphMessage M
  renames_inport renames_outport : RenamePayload → GraphMessage M
  adds_group : GroupPayload → GraphMessage M
  removes_group : NamedPayload → GraphMessage M
  renames_group : RenamePayload → GraphMessage M
  changes_group : ChangegroupPayload → GraphMessage M

pub data TraceMessage : Type 0 where
  starts_trace : Str → ℕ → TraceMessage
  stops_trace clears_trace dumps_trace : Str → TraceMessage

pub data NetworkMessage : Type 0 where
  selects_edges : EdgesPayload → NetworkMessage
  sets_debug : Str → Bool → NetworkMessage
  stops_network : Str → NetworkMessage
  -- With the statuses that the handler reads while it waits.
  gets_status : Str → (ℕ → RuntimeStatus) → NetworkMessage

pub data Message (M : Type 0) : Type 0 where
  graph_message : GraphMessage M → Message M
  trace_message : TraceMessage → Message M
  network_message : NetworkMessage → Message M
  gets_runtime lists_components packet_was_sent : Message M

-- What a message leaves of the server and of the connection, and the answers.
pub record Outcome (M : Type 0) : Type 0 where
  pub server : Server M
  pub client : Client
  pub answers : List (Answer M)

abbrev pub with_client : {M : Type 0} → Client → Handled M → Outcome M
with_client c (s, sent) = record { server = s; client = c; answers = sent }

unfoldable pub is_error : {M : Type 0} → Answer M → Bool
is_error (graph_error f) = true
is_error (trace_error f) = true
is_error (runtime_error f) = true
is_error (network_error f graph) = true
is_error _ = false

unfoldable pub has_error : {M : Type 0} → List (Answer M) → Bool
unfolding is_error
has_error [] = false
has_error (a ∷ sent) = is_error a || has_error sent

module _ {M : Type 0} where
  unfoldable pub handle_trace : Option Str → TraceMessage → Server M → Handled M
  unfolding handle_trace_start handle_trace_stop handle_trace_clear handle_trace_dump
  handle_trace secret (starts_trace graph size) s = handle_trace_start secret graph size s
  handle_trace secret (stops_trace graph) s = handle_trace_stop secret graph s
  handle_trace secret (clears_trace graph) s = handle_trace_clear secret graph s
  handle_trace secret (dumps_trace graph) s = handle_trace_dump secret graph s

  unfoldable pub handle_network : Option Str → NetworkMessage → Server M → Handled M
  unfolding handle_network_edges handle_network_debug handle_network_stop handle_network_getstatus
  handle_network secret (selects_edges p) s = handle_network_edges secret p s
  handle_network secret (sets_debug graph enable) s = handle_network_debug secret graph enable s
  handle_network secret (stops_network graph) s = handle_network_stop secret graph s
  handle_network secret (gets_status graph reads) s = handle_network_getstatus secret graph reads s

module _ (json : SerdeJson) where
  open json use {Map}

  unfoldable pub handle_graph : Option Str → GraphMessage Map → Server Map → Handled Map
  unfolding handle_clear handle_addnode handle_removenode handle_renamenode handle_changenode
      handle_addedge handle_removeedge handle_changeedge handle_addinitial handle_removeinitial
      handle_addinport handle_removeinport handle_renameinport handle_addoutport
      handle_removeoutport handle_renameoutport handle_addgroup handle_removegroup
      handle_renamegroup handle_changegroup
  handle_graph secret (clears_graph p) s = handle_clear secret p s
  handle_graph secret (adds_node p) s = handle_addnode json secret p s
  handle_graph secret (removes_node p) s = handle_removenode secret p s
  handle_graph secret (renames_node p) s = handle_renamenode secret p s
  handle_graph secret (changes_node p) s = handle_changenode json secret p s
  handle_graph secret (adds_edge p) s = handle_addedge secret p s
  handle_graph secret (removes_edge p) s = handle_removeedge secret p s
  handle_graph secret (changes_edge p) s = handle_changeedge secret p s
  handle_graph secret (adds_initial p) s = handle_addinitial secret p s
  handle_graph secret (removes_initial p) s = handle_removeinitial secret p s
  handle_graph secret (adds_inport p) s = handle_addinport secret p s
  handle_graph secret (removes_inport p) s = handle_removeinport secret p s
  handle_graph secret (renames_inport p) s = handle_renameinport secret p s
  handle_graph secret (adds_outport p) s = handle_addoutport secret p s
  handle_graph secret (removes_outport p) s = handle_removeoutport secret p s
  handle_graph secret (renames_outport p) s = handle_renameoutport secret p s
  handle_graph secret (adds_group p) s = handle_addgroup secret p s
  handle_graph secret (removes_group p) s = handle_removegroup secret p s
  handle_graph secret (renames_group p) s = handle_renamegroup secret p s
  handle_graph secret (changes_group p) s = handle_changegroup secret p s

  -- The match on the message that a connection has read.
  unfoldable pub handle : Option Str → Message Map → Client → Server Map → Outcome Map
  unfolding handle_graph handle_trace handle_network handle_getruntime handle_component_list
      handle_packetsent
  handle secret (graph_message m) c s = with_client c (handle_graph secret m s)
  handle secret (trace_message m) c s = with_client c (handle_trace secret m s)
  handle secret (network_message m) c s = with_client c (handle_network secret m s)
  handle secret gets_runtime c s =
      let (c', sent) = handle_getruntime secret c s in
      record { server = s; client = c'; answers = sent }
  handle secret lists_components c s = record {
    server = s;
    client = c;
    answers = handle_component_list secret c s;
  }
  handle secret packet_was_sent c s = with_client c (handle_packetsent s)
