-- ===== src/Enrollment/Handlers.antt =====
-- The handlers of components/Ipcp/Modules/enrollment.c and vEnrollmentInit.
use rinasensev.Prelude.{ℕ, ◌%◌, ◌^◌, Bool, true, false, Option, none, some, List, [], ◌>>=◌}
use rinasensev.Strings.{CString}
use rinasensev.Names.{Name, name_of}
use rinasensev.Gpha.{Bytes}
use rinasensev.Table.{Slot}
use rinasensev.Rib.{RibObject, enrollment, operational, create_object}
use rinasensev.Cdap.{OpCode, minus_one_64}
use rinasensev.Ribd.{Ribd, Callback}
use rinasensev.Ribd.Request.{Sender, management_ae, send_request, send_response, connect}
use rinasensev.Ribd.Handle.{local_address}
use rinasensev.Enrollment.{
  enr_name, ops_name, enrollment_text, operational_text, enrollment_class, normal_process_name,
  remote_address_ap_name, normal_process_instance, auth_none, EnrollmentState, enrollment_none,
  enrollment_in_progress, enrolled, NeighborInfo, Neighbors, EnrollmentMessage, Nanopb,
  enrollment_encode, enrollment_decode, neighbor_encode, find_neighbor, find_or_create,
  write_neighbor, in_state, Outcome,
}

-- vEnrollmentInit, in the build where ieee802154_COORDINATOR is 0.
unfoldable pub enrollment_init : List (Slot RibObject) → Option (List (Slot RibObject))
enrollment_init objects = do
  (_, objects1) ← create_object objects (some enr_name) 0 (some enrollment_text) enrollment
  (_, objects2) ← create_object objects1 (some ops_name) 1 (some operational_text) operational
  some objects2

-- What is left of the sending of a message, with the neighbours as they are.
abbrev pub with_neighbors : Neighbors → Option (Bool × Option (ℕ × Bytes) × Ribd) → Option Outcome
with_neighbors rows none = none
with_neighbors rows (some (ok, out, s)) = some (ok, out, s, rows)

-- The enroller on a neighbour in a state: the response to M_START is encoded and not sent.
abbrev pub enroller_in :
    Nanopb
    → EnrollmentMessage
    → Neighbors
    → NeighborInfo
    → Option Bytes
    → EnrollmentState
    → Option Neighbors
enroller_in z held rows n value enrollment_none = some rows
enroller_in z held rows n value enrolled = some rows
enroller_in z held rows n value enrollment_in_progress = do
  bytes ← value
  m ← enrollment_decode z held bytes
  some (write_neighbor rows n (λ e. record e { neighbor_address = m.address % 2 ^ 8 }))

-- xEnrollmentEnroller.
unfoldable pub enroller :
    Nanopb
    → EnrollmentMessage
    → Neighbors
    → Option Bytes
    → Option CString
    → ℕ
    → Option (Bool × Neighbors)
enroller z held rows value name port = do
  (n, rows1) ← find_or_create rows name port
  rows2 ← enroller_in z held rows1 n value n.enrollment_state
  some (true, rows2)

abbrev pub own_name : Name
own_name =
    name_of (some normal_process_name) (some normal_process_instance) (some management_ae) (some [])

abbrev pub remote_name : Name
remote_name =
    name_of (some remote_address_ap_name) (some normal_process_instance) (some management_ae)
      (some [])

-- The answer of the connection is not looked at.
abbrev pub answers_true : Neighbors → Option (Bool × Option (ℕ × Bytes) × Ribd) → Option Outcome
answers_true rows none = none
answers_true rows (some (_, out, s)) = some (true, out, s, rows)

-- xEnrollmentHandleConnect, with blocks for the connection that hold the two names.
unfoldable pub handle_connect :
    Sender → Name → Name → Ribd → Neighbors → Option CString → ℕ → Option Outcome
handle_connect k held_source held_dest s rows name port = do
  (n, rows1) ← find_or_create rows name port
  answers_true (write_neighbor rows1 n (in_state enrollment_in_progress)) (
      connect k OpCode.m_connect_r held_source held_dest s own_name remote_name port
        (some auth_none) (some normal_process_instance))

-- xEnrollmentHandleConnectR, with a block for the callback that holds `held`.
unfoldable pub handle_connect_r :
    Nanopb → Sender → Callback → Ribd → Neighbors → Option CString → ℕ → Option Outcome
handle_connect_r z k held s rows name port = do
  (n, rows1) ← find_or_create rows name port
  with_neighbors (write_neighbor rows1 n (in_state enrollment_in_progress)) (
      send_request k held s (some enrollment_class) (some enr_name) minus_one_64 OpCode.m_start port
        (enrollment_encode z local_address))

-- xEnrollmentHandleStartR: the address that came is not read.
abbrev pub handle_start_r : Neighbors → Option CString → Option Bytes → Bool × Neighbors
handle_start_r rows name value = (true, rows)

abbrev pub is_known : Option NeighborInfo → Bool
is_known none = false
is_known (some n) = true

-- xEnrollmentHandleStopR.
unfoldable pub handle_stop_r : Neighbors → Option CString → Option Bool
handle_stop_r rows none = some false
handle_stop_r rows (some name) = do found ← find_neighbor rows (some name); some (is_known found)

-- xEnrollmentHandleStop on the neighbour that is found.
abbrev pub stop_in :
    Nanopb
    → Sender
    → EnrollmentMessage
    → Ribd
    → Neighbors
    → RibObject
    → Option Bytes
    → ℕ
    → ℕ
    → Option NeighborInfo
    → Option Outcome
stop_in z k held s rows object value id port none = some (false, none, s, rows)
stop_in z k held s rows object value id port (some n) = do
  bytes ← value
  m ← enrollment_decode z held bytes
  let rows1 = write_neighbor rows n (λ e. record (in_state enrolled e) { token = m.token })
  with_neighbors rows1
      (send_response k s (some object.name) object.inst 0 OpCode.m_stop_r id port none)

-- xEnrollmentHandleStop.
unfoldable pub handle_stop :
    Nanopb
    → Sender
    → EnrollmentMessage
    → Ribd
    → Neighbors
    → RibObject
    → Option Bytes
    → Option CString
    → ℕ
    → ℕ
    → Option Outcome
handle_stop z k held s rows object value name id port = do
  found ← find_neighbor rows name
  stop_in z k held s rows object value id port found

-- xEnrollmentHandleOperationalStart: a neighbour that is not found is read through NULL.
unfoldable pub handle_operational_start :
    Nanopb → Sender → Ribd → Neighbors → RibObject → Option CString → ℕ → ℕ → Option Outcome
handle_operational_start z k s rows object name id port = do
  found ← find_neighbor rows name
  n ← found
  value ← neighbor_encode z (record {
    ae_instance = n.token;
    ae_name = some management_ae;
    ap_instance = some normal_process_instance;
    ap_name = some normal_process_name;
  })
  with_neighbors rows
      (send_response k s (some object.name) object.inst 0 OpCode.m_start_r id port value)
