-- ===== src/Ribd.antt =====
-- components/Ipcp/Modules/ribd.c: the RIB daemon, with its tables of pending responses and of
-- application connections. nanopb and the modules that it calls are outside: a call is returned as
-- a value, which is what the operation does last. A read through NULL, or a call of a function
-- pointer that no one has set, returns `none`.
pub mod Transfer
pub mod Handle
pub mod Request
pub mod Exchange
pub mod Lifecycle
pub mod Kept
pub mod Reach
use rinasensev.Prelude.{
  ℕ, ◌+◌, ◌-◌, ◌%◌, ◌^◌, Bool, true, false, not, if◌then◌else◌, ◌==◌, Option, none, some, List, [],
  ◌∷◌, ◌>>=◌,
}
use rinasensev.Strings.{CString}
use rinasensev.Names.{Name}
use rinasensev.Gpha.{Bytes, bytes_eq}
use rinasensev.Table.{Slot, insert, find, update}
use rinasensev.Rib.{RibObject, ObjFunction}
use rinasensev.Cdap
use rinasensev.Cdap.{Cdap, OpCode}

abbrev pub app_connection_table_size : ℕ
app_connection_table_size = 5

abbrev pub response_handler_table_size : ℕ
response_handler_table_size = 10

-- connectionStatus_t.
pub data Status : Type 0 where
  connection_in_progress connected released : Status

-- appConnection_t, without the two versions, which nothing reads.
pub record AppConnection : Type 0 where
  pub source : Name
  pub destination : Name
  pub status : Status

-- A row of the table of connections.
pub record ConnectionEntry : Type 0 where
  pub n1_port : ℕ
  pub connection : AppConnection

-- The functions that wait for a response.
pub data ResponseFunction : Type 0 where
  enrollment_handle_start_r enrollment_handle_stop_r flow_allocator_handle_create_r :
      ResponseFunction

-- struct ribCallbackOps_t.
pub record Callback : Type 0 where
  pub start_response : Option ResponseFunction
  pub stop_response : Option ResponseFunction
  pub create_response : Option ResponseFunction

-- A row of the table of pending responses.
pub record HandlerEntry : Type 0 where
  pub invoke_id : ℕ
  pub callback : Callback

pub record Ribd : Type 0 where
  pub objects : List (Slot RibObject)
  pub handlers : List (Slot HandlerEntry)
  pub connections : List (Slot ConnectionEntry)
  pub next_invoke_id : ℕ

-- get_next_invoke_id: the id, and the one kept.
abbrev pub int_max : ℕ
int_max = 2 ^ 31 - 1

unfoldable pub get_next_invoke_id : ℕ → ℕ × ℕ
get_next_invoke_id id = if id % int_max == 0 then (1, 1) else (id, id + 1)

-- vRibdAddResponseHandler.
unfoldable pub add_response_handler : Ribd → ℕ → Option Callback → Ribd
add_response_handler s id none = s
add_response_handler s id (some cb) = record s {
  handlers = insert (record { invoke_id = id; callback = cb }) s.handlers;
}

abbrev pub waits_for : ℕ → HandlerEntry → Bool
waits_for id h = h.invoke_id == id

abbrev pub callback_of : Option HandlerEntry → Option Callback
callback_of none = none
callback_of (some h) = some h.callback

-- pxRibdFindPendingResponseHandler: the row stays valid.
unfoldable pub find_pending_response_handler : Ribd → ℕ → Option Callback
find_pending_response_handler s id = callback_of (find (waits_for id) s.handlers)

-- vRibdAddAppConnectionEntry.
unfoldable pub add_app_connection_entry : Ribd → AppConnection → ℕ → Ribd
add_app_connection_entry s c port = record s {
  connections = insert (record { n1_port = port; connection = c }) s.connections;
}

abbrev pub is_at : ℕ → ConnectionEntry → Bool
is_at port e = e.n1_port == port

abbrev pub connection_of : Option ConnectionEntry → Option AppConnection
connection_of none = none
connection_of (some e) = some e.connection

-- pxRibdFindAppConnection.
unfoldable pub find_app_connection : Ribd → ℕ → Option AppConnection
find_app_connection s port = connection_of (find (is_at port) s.connections)

-- A write to the connection that the search finds.
unfoldable pub write_connection : Ribd → ℕ → (AppConnection → AppConnection) → Ribd
write_connection s port f = record s {
  connections = update (is_at port) (λ e. record e { connection = f e.connection }) s.connections;
}

-- The strdup of a field that must not be NULL.
abbrev pub strdup : Option CString → Option (Option CString)
strdup none = none
strdup (some s) = some (some s)

-- A side of a new connection in blocks that hold `held`: the process name goes to the entity
-- instance, over the copy that stands there, and the field of the process name is left as it was.
abbrev pub copy_side : Name → Name → Option Name
copy_side n held = do
  ei ← strdup n.entity_instance
  en ← strdup n.entity_name
  pi ← strdup n.process_instance
  pn ← strdup n.process_name
  some (record held { entity_name = en; process_instance = pi; entity_instance = pn })

-- prvRibCreateConnection.
unfoldable pub create_connection : Name → Name → Name → Name → Option AppConnection
create_connection source dest held_source held_dest = do
  source' ← copy_side source held_source
  dest' ← copy_side dest held_dest
  some (record { source = source'; destination = dest'; status = connection_in_progress })

-- pxRibdCreateCdapCallback in a block that holds `held`.
abbrev pub create_cdap_callback : OpCode → Callback → Callback
create_cdap_callback op held = elim op [
  | OpCode.m_start ↦ record held { start_response = some enrollment_handle_start_r }
  | OpCode.m_stop ↦ record held { stop_response = some enrollment_handle_stop_r }
  | OpCode.m_create ↦ record held { create_response = some flow_allocator_handle_create_r }
  | _ ↦ held
]
