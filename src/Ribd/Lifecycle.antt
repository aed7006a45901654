-- ===== src/Ribd/Lifecycle.antt =====
-- The life of an application connection: xRibdConnectToIpcp and vRibHandleMessage in
-- components/Ipcp/Modules/ribd.c.
use rinasensev.Prelude.{ℕ, ◌≡◌, refl, ap, ◌∙◌, true, Option, none, some}
use rinasensev.Strings.{CString}
use rinasensev.Table.{find}
use rinasensev.Table.Search.{find-update, find-fits}
use rinasensev.Rib.{RibObject, find_object}
use rinasensev.Cdap.{Cdap, OpCode}
use rinasensev.Ribd.{
  Ribd, AppConnection, ConnectionEntry, connected, connection_in_progress, find_app_connection,
  connection_of, write_connection, is_at,
}
use rinasensev.Ribd.Handle.{
  Codec, enrollment_handle_connect_r, handle_message, handle_op, accepted, connect_r_in,
  handle_connect_r,
}

no_entry : (c : AppConnection) → none ≡ some c → ⊥
no_entry c h = cc

connection_injective : (a b : AppConnection) → some a ≡ some b → a ≡ b
connection_injective a b h = cc

find_entry :
    (o : Option ConnectionEntry) (c : AppConnection)
    → connection_of o ≡ some c
    → (e : ConnectionEntry) × (o ≡ some e) × (e.connection ≡ c)
find_entry none c h = absurd (no_entry c h)
find_entry (some e) c h = (e, refl, connection_injective e.connection c h)

-- A write to the connection of a port is what the next search finds.
pub find_app_connection-write :
    (s : Ribd) (port : ℕ) (f : AppConnection → AppConnection) (c : AppConnection)
    → find_app_connection s port ≡ some c
    → find_app_connection (write_connection s port f) port ≡ some (f c)
unfolding find_app_connection write_connection
find_app_connection-write s port f c h =
    let (e, found, same) = find_entry (find (is_at port) s.connections) c h in
    ap connection_of (
      find-update (is_at port) (λ z. record z { connection = f z.connection }) s.connections e found
        (find-fits (is_at port) s.connections e found))
    ∙ ap (λ z. some (f z)) same

objects-write :
    (s : Ribd) (port : ℕ) (f : AppConnection → AppConnection) (name : Option CString)
    → find_object (write_connection s port f).objects name ≡ find_object s.objects name
unfolding write_connection
objects-write s port f name = refl

-- M_CONNECT_R on the port of a connection in progress connects it, under the name of the peer, and
-- calls the enrollment; when it comes again, it changes nothing and calls nothing. The search for
-- the object that the message names returns, which it does not for a message without an object name
-- when there is an object.
pub connect_r_connects_once :
    (k : Codec) (held : Cdap) (s : Ribd) (m : Cdap) (port : ℕ) (c : AppConnection)
    (object : Option RibObject)
    → find_app_connection s port ≡ some c
    → c.status ≡ connection_in_progress
    → find_object s.objects m.obj_name ≡ some object
    → (s' : Ribd) × (handle_message k held s (record m { op_code = OpCode.m_connect_r }) port
        ≡ some (true, s', some (enrollment_handle_connect_r m.source.process_name port)))
      × (find_app_connection s' port
          ≡ some (record c {
            destination = record c.destination { process_name = m.source.process_name };
            status = connected;
          }))
      × (handle_message k held s' (record m { op_code = OpCode.m_connect_r }) port
          ≡ some (true, s', none))
unfolding handle_message handle_op handle_connect_r
connect_r_connects_once k held s m port c object at_port waiting named =
    let peer = m.source.process_name in
    let s' = write_connection s port (accepted peer) in
    let kept_objects = objects-write s port (accepted peer) m.obj_name ∙ named in
    let after = find_app_connection-write s port (accepted peer) c at_port in
    (
      s',
      rw (named, at_port) (ap (connect_r_in s m port) waiting),
      after,
      rw (kept_objects, after) refl,
    )
