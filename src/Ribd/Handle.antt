-- ===== src/Ribd/Handle.antt =====
-- vRibHandleMessage, prvRibdHandledAData and xRibdProcessLayerManagementPDU in
-- components/Ipcp/Modules/ribd.c.
use rinasensev.Prelude.{
  ℕ, ◌%◌, ◌^◌, Bool, true, false, not, if◌then◌else◌, ◌==◌, Option, none, some, [], ◌∷◌, ◌>>=◌,
}
use rinasensev.Strings.{CString}
use rinasensev.Gpha.{Bytes, bytes_eq}
use rinasensev.Rib.{RibObject, ObjFunction, enrollment, find_object, create_object}
use rinasensev.Cdap.{Cdap, Wire, OpCode, fill_decode_message}
use rinasensev.Ribd.{
  Ribd, AppConnection, Status, connection_in_progress, connected, released, ResponseFunction,
  find_app_connection, find_pending_response_handler, write_connection,
}

-- The last call of the handling of a message, to enrollment.c or flowAllocator.c.
pub data Call : Type 0 where
  enrollment_handle_connect_r : Option CString → ℕ → Call
  object_call :
      ObjFunction → RibObject → Option Bytes → Option CString → Option CString → ℕ → ℕ → Call
  object_delete : ObjFunction → RibObject → ℕ → Call
  start_response : ResponseFunction → Option CString → Option Bytes → Call
  stop_response : ResponseFunction → Option CString → Call
  create_response : ResponseFunction → Option Bytes → ℕ → Call

-- rina_messages_a_data_t as pb_decode leaves it, `none` for what is not in the message.
pub record ADataWire : Type 0 where
  pub dest_address : Option ℕ
  pub cdap_message : Option Bytes

-- nanopb: the structs of the bytes of a message and of an a_data message. `held_destination` is what
-- the block of a decoded a_data message held before for its destination.
pub record Codec : Type 0 where
  pub pb_decode : Bytes → Option Wire
  pub pb_decode_a_data : Bytes → Option ADataWire
  pub held_destination : ℕ

abbrev pub destination_of : (held : ℕ) → Option ℕ → ℕ
destination_of held none = held
destination_of held (some n) = n % 2 ^ 32

-- pxSerdesMsgDecodeAData: the destination, and the inner message, whose pointer is wild where the
-- message has none. `none` where nanopb refuses; the blocks of memory are there.
unfoldable pub decode_a_data : Codec → Bytes → Option (ℕ × Option Bytes)
decode_a_data k value = do
  w ← k.pb_decode_a_data value
  some (destination_of k.held_destination w.dest_address, w.cdap_message)

-- LOCAL_ADDRESS.
abbrev pub local_address : ℕ
local_address = 1

-- The text "a_data".
abbrev pub a_data : CString
a_data = 97 ∷ 95 ∷ 100 ∷ 97 ∷ 116 ∷ 97 ∷ []

-- prvRibdHandledAData. A message that does not decode is printed through NULL, and one with a wrong
-- code is used after it was freed.
unfoldable pub handled_a_data : Codec → Ribd → Cdap → Bytes → Option (Option Call)
handled_a_data k s held value = do
  w ← k.pb_decode value
  let m = fill_decode_message w held
  elim m.op_code [
    | OpCode.above_max n ↦ none
    | OpCode.m_create_r ↦ do
      object ← find_object s.objects m.obj_name
      cb ← find_pending_response_handler s m.invoke_id
      f ← cb.create_response
      some (some (create_response f m.obj_value m.result))
    | OpCode.m_delete ↦ do
      found ← find_object s.objects m.obj_name
      object ← found
      f ← object.ops.delete
      some (some (object_delete f object m.invoke_id))
    | _ ↦ do object ← find_object s.objects m.obj_name; some none
  ]

-- The cases of vRibHandleMessage, with the connection of the port and the object of the name.
unfoldable pub handle_connect : Ribd → Option AppConnection → Option (Bool × Ribd × Option Call)
handle_connect s none = none
handle_connect s (some c) = some (true, s, none)

abbrev pub accepted : Option CString → AppConnection → AppConnection
accepted peer c = record c {
  destination = record c.destination { process_name = peer };
  status = connected;
}

abbrev pub connect_r_in : Ribd → Cdap → ℕ → Status → Option (Bool × Ribd × Option Call)
connect_r_in s m port connection_in_progress =
    let peer = m.source.process_name in
    some
      (true, write_connection s port (accepted peer), some (enrollment_handle_connect_r peer port))
connect_r_in s m port connected = some (true, s, none)
connect_r_in s m port released = some (true, s, none)

unfoldable pub handle_connect_r :
    Ribd → Cdap → ℕ → Option AppConnection → Option (Bool × Ribd × Option Call)
handle_connect_r s m port none = none
handle_connect_r s m port (some c) = connect_r_in s m port c.status

abbrev pub release_r_in : Ribd → ℕ → Status → Option (Bool × Ribd × Option Call)
release_r_in s port connection_in_progress = some (true, s, none)
release_r_in s port connected = some (true, s, none)
release_r_in s port released =
    some (true, write_connection s port (λ e. record e { status = released }), none)

unfoldable pub handle_release_r :
    Ribd → ℕ → Option AppConnection → Option (Bool × Ribd × Option Call)
handle_release_r s port none = none
handle_release_r s port (some c) = release_r_in s port c.status

-- The call of an operation of an object, `start` or `stop`.
unfoldable pub handle_object :
    Ribd
    → Cdap
    → ℕ
    → Option AppConnection
    → Option RibObject
    → (RibObject → Option ObjFunction)
    → Option (Bool × Ribd × Option Call)
handle_object s m port conn object op = do
  o ← object
  f ← op o
  c ← conn
  some (
    true,
    s,
    some (
        object_call f o m.obj_value c.destination.process_name c.source.process_name m.invoke_id
          port),
  )

unfoldable pub handle_write : Codec → Ribd → Cdap → Cdap → Option (Bool × Ribd × Option Call)
handle_write k s held m = do
  name ← m.obj_name
  if not (bytes_eq name a_data) then some (true, s, none) else do
    value ← m.obj_value
    (destination, inner) ← decode_a_data k value
    if destination == local_address
        then (do bytes ← inner; call ← handled_a_data k s held bytes; some (true, s, call))
        else some (true, s, none)

-- The switch, on the code of the message.
unfoldable pub handle_op :
    Codec → Cdap → Ribd → Cdap → ℕ → OpCode → Option (Bool × Ribd × Option Call)
handle_op k held s m port op =
    let conn = find_app_connection s port in
    elim op [
      | OpCode.above_max n ↦ some (true, s, none)
      | OpCode.m_connect ↦ do object ← find_object s.objects m.obj_name; handle_connect s conn
      | OpCode.m_connect_r ↦ do
        object ← find_object s.objects m.obj_name
        handle_connect_r s m port conn
      | OpCode.m_release_r ↦ do
        object ← find_object s.objects m.obj_name
        handle_release_r s port conn
      | OpCode.m_create ↦ do
        object ← find_object s.objects m.obj_name
        (o, objects) ← create_object s.objects m.obj_name m.obj_inst m.obj_name enrollment
        some (true, record s { objects = objects }, none)
      | OpCode.m_stop ↦ do
        object ← find_object s.objects m.obj_name
        handle_object s m port conn object (λ o. o.ops.stop)
      | OpCode.m_start ↦ do
        object ← find_object s.objects m.obj_name
        handle_object s m port conn object (λ o. o.ops.start)
      | OpCode.m_start_r ↦ do
        object ← find_object s.objects m.obj_name
        cb ← find_pending_response_handler s m.invoke_id
        c ← conn
        f ← cb.start_response
        some (true, s, some (start_response f c.destination.process_name m.obj_value))
      | OpCode.m_stop_r ↦ do
        object ← find_object s.objects m.obj_name
        cb ← find_pending_response_handler s m.invoke_id
        c ← conn
        f ← cb.stop_response
        some (true, s, some (stop_response f c.destination.process_name))
      | OpCode.m_create_r ↦ do
        object ← find_object s.objects m.obj_name
        cb ← find_pending_response_handler s m.invoke_id
        f ← cb.create_response
        some (true, s, some (create_response f m.obj_value m.result))
      | OpCode.m_write ↦ do object ← find_object s.objects m.obj_name; handle_write k s held m
      | OpCode.m_delete ↦ do object ← find_object s.objects m.obj_name; some (true, s, none)
      | _ ↦ do object ← find_object s.objects m.obj_name; some (false, s, none)
    ]

-- vRibHandleMessage.
unfoldable pub handle_message : Codec → Cdap → Ribd → Cdap → ℕ → Option (Bool × Ribd × Option Call)
handle_message k held s m port = handle_op k held s m port m.op_code

-- xRibdProcessLayerManagementPDU on the bytes of the data unit, which is then destroyed. A message
-- that does not decode is printed through NULL before it is tested.
unfoldable pub process_layer_management_pdu :
    Codec → Cdap → Ribd → Bytes → ℕ → Option (Bool × Ribd × Option Call)
process_layer_management_pdu k held s bytes port = do
  w ← k.pb_decode bytes
  (ret, s', call) ← handle_message k held s (fill_decode_message w held) port
  some (true, s', call)
