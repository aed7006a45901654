-- ===== src/Enrollment/Complete.antt =====
-- The enrollment with a new neighbour: xEnrollmentHandleConnectR and then xEnrollmentHandleStop in
-- components/Ipcp/Modules/enrollment.c.
use rinasensev.Prelude.{ℕ, ◌-◌, ◌^◌, ◌≡◌, refl, ap, Bool, true, Option, none, some, ◌>>=◌, arith}
use rinasensev.Strings.{CString}
use rinasensev.Gpha.{Bytes}
use rinasensev.Table.{insert, find, has_free}
use rinasensev.Table.Search.{find-insert_new, find-update}
use rinasensev.Rib.{RibObject}
use rinasensev.Cdap.{OpCode, minus_one_64}
use rinasensev.Cdap.Roundtrip.{Fits, ValueFits}
use rinasensev.Ribd.{Ribd, Callback, get_next_invoke_id}
use rinasensev.Ribd.Request.{Sender, send_request, send_response, sent, fill_enroll_msg}
use rinasensev.Arp.Learn.{bytes_eq_refl}
use rinasensev.Ribd.Exchange.{requested, encode_cdap-IsSendable, enroll_msg-IsSendable}
use rinasensev.Ribd.Handle.{local_address}
use rinasensev.Enrollment.{
  enr_name, enrollment_class, enrollment_in_progress, enrolled, NeighborInfo, Neighbors,
  EnrollmentMessage, EnrollmentWire, Nanopb, enrollment_encode, decode_fields, find_neighbor,
  get_neighbor_address, create_neigh_info, new_neighbor, write_neighbor, in_state, is_called,
  address_of,
}
use rinasensev.Enrollment.Handlers.{handle_connect_r, handle_stop}

-- A request of M_START with a value that fits is handled without a fault.
send_request_runs :
    (k : Sender) (held : Callback) (s : Ribd) (cls name : Option CString) (inst port : ℕ)
    (value : Option Bytes)
    → k.has_buffer ≡ true
    → Fits 40 name
    → ValueFits value
    → (r : Bool × Option (ℕ × Bytes) × Ribd) × (send_request k held s cls name inst OpCode.m_start
          port value
        ≡ some r)
unfolding send_request
send_request_runs k held s cls name inst port value buffer hn hv =
    let id = (get_next_invoke_id s.next_invoke_id).0 in
    let (bytes, e) =
      encode_cdap-IsSendable k (fill_enroll_msg name inst OpCode.m_start value id) buffer
        (enroll_msg-IsSendable name inst OpCode.m_start value id hn hv) in
    (sent port (requested s OpCode.m_start held) bytes, rw e refl)

-- A response of M_STOP_R without a value is handled without a fault.
send_response_runs :
    (k : Sender) (s : Ribd) (name : Option CString) (inst id port : ℕ)
    → k.has_buffer ≡ true
    → Fits 40 name
    → (r : Bool × Option (ℕ × Bytes) × Ribd) × (send_response k s name inst 0 OpCode.m_stop_r id
          port none
        ≡ some r)
unfolding send_response
send_response_runs k s name inst id port buffer hn =
    let next = (get_next_invoke_id s.next_invoke_id).1 in
    let m = fill_enroll_msg name inst OpCode.m_stop_r none id in
    let (bytes, e) =
      encode_cdap-IsSendable k m buffer
        (enroll_msg-IsSendable name inst OpCode.m_stop_r none id hn tt) in
    (sent port (record s { next_invoke_id = next }) bytes, rw e refl)

-- The neighbours after the connection to a new one.
abbrev connected_rows : Neighbors → CString → ℕ → Neighbors
connected_rows rows name port =
    let n = new_neighbor name port in
    write_neighbor (insert n rows) n (in_state enrollment_in_progress)

found_connected :
    (rows : Neighbors) (name : CString) (port : ℕ)
    → has_free rows ≡ true
    → find (is_called name) rows ≡ none
    → find (is_called name) (connected_rows rows name port)
      ≡ some (in_state enrollment_in_progress (new_neighbor name port))
found_connected rows name port free absent =
    let n = new_neighbor name port in
    find-update (is_called name) (in_state enrollment_in_progress) (insert n rows) n
      (find-insert_new (is_called name) n rows free absent (bytes_eq_refl name))
      (bytes_eq_refl name)

handle_connect_r-new :
    (z : Nanopb) (k : Sender) (held : Callback) (s : Ribd) (rows : Neighbors) (name : CString)
    (port : ℕ)
    → k.has_buffer ≡ true
    → ValueFits (enrollment_encode z local_address)
    → find (is_called name) rows ≡ none
    → (ok : Bool) × (out : Option (ℕ × Bytes)) × (s' : Ribd) × (handle_connect_r z k held s rows
          (some name)
          port
        ≡ some (ok, out, s', connected_rows rows name port))
unfolding handle_connect_r find_neighbor create_neigh_info
handle_connect_r-new z k held s rows name port buffer hv absent =
    let ((ok, out, s'), e) =
      send_request_runs k held s (some enrollment_class) (some enr_name) minus_one_64 port
        (enrollment_encode z local_address) buffer (omega arith) hv in
    (ok, out, s', rw (absent, e) refl)

-- The write of xEnrollmentHandleStop, with the message that came.
abbrev stopped : EnrollmentMessage → NeighborInfo → NeighborInfo
stopped m n = record (in_state enrolled n) { token = m.token }

handle_stop-known :
    (z : Nanopb) (k : Sender) (held : EnrollmentMessage) (s : Ribd) (rows : Neighbors)
    (object : RibObject) (value : Bytes) (w : EnrollmentWire) (name : CString) (id port : ℕ)
    (n : NeighborInfo)
    → k.has_buffer ≡ true
    → Fits 40 (some object.name)
    → find (is_called name) rows ≡ some n
    → z.decode_enrollment value ≡ some w
    → (ok : Bool) × (out : Option (ℕ × Bytes)) × (s' : Ribd) × (handle_stop z k held s rows object
          (some value)
          (some name)
          id
          port
        ≡ some (ok, out, s', write_neighbor rows n (stopped (decode_fields w held))))
unfolding handle_stop find_neighbor
handle_stop-known z k held s rows object value w name id port n buffer hn found decoded =
    let ((ok, out, s'), e) =
      send_response_runs k s (some object.name) object.inst id port buffer hn in
    (ok, out, s', rw (found, decoded, e) refl)

-- The two messages of an enrollment: what is sent for each is left to the N-1 port.
abbrev pub enroll :
    Nanopb
    → Sender
    → Callback
    → EnrollmentMessage
    → Ribd
    → Neighbors
    → RibObject
    → CString
    → Bytes
    → ℕ
    → ℕ
    → Option Neighbors
enroll z k cb held s rows object name value id port = do
  (_, _, s1, rows1) ← handle_connect_r z k cb s rows (some name) port
  (_, _, s2, rows2) ← handle_stop z k held s1 rows1 object (some value) (some name) id port
  some rows2

-- The neighbour that an enrollment leaves.
abbrev pub enrolled_neighbor : CString → ℕ → Option CString → NeighborInfo
enrolled_neighbor name port token = record {
  enrollment_state = enrolled;
  ap_name = name;
  n1_port = port;
  neighbor_address = 2 ^ 8 - 1;
  token = token;
}

-- M_CONNECT_R from a peer that is not in the table of neighbours, and then M_STOP from it: both are
-- handled without a fault, and the peer is then found as enrolled, with the token that came; its
-- address is still 255, the -1 of a new neighbour. The table has a free row, there is a network
-- buffer for each message, the value of M_START has at most 1024 bytes, the name of the object fits
-- its array, and nanopb decodes the value of M_STOP to a message with a token.
pub enrollment_completes :
    (z : Nanopb) (k : Sender) (cb : Callback) (held : EnrollmentMessage) (s : Ribd)
    (rows : Neighbors) (object : RibObject) (name : CString) (value : Bytes) (address : Option ℕ)
    (token : CString) (id port : ℕ)
    → has_free rows ≡ true
    → find_neighbor rows (some name) ≡ some none
    → k.has_buffer ≡ true
    → ValueFits (enrollment_encode z local_address)
    → Fits 40 (some object.name)
    → z.decode_enrollment value ≡ some (record { address = address; token = some token })
    → (rows' : Neighbors) × (enroll z k cb held s rows object name value id port ≡ some rows')
      × (find_neighbor rows' (some name) ≡ some (some (enrolled_neighbor name port (some token))))
      × (get_neighbor_address rows' (some name) ≡ 255)
unfolding find_neighbor get_neighbor_address decode_fields
enrollment_completes z k cb held s rows object name value address token id port free absent buffer
      hv hn dec =
    let w : EnrollmentWire = record { address = address; token = some token } in
    let none_found : find (is_called name) rows ≡ none = cc in
    let rows1 = connected_rows rows name port in
    let n1 = in_state enrollment_in_progress (new_neighbor name port) in
    let found1 = found_connected rows name port free none_found in
    let (ok1, out1, s1, e1) = handle_connect_r-new z k cb s rows name port buffer hv none_found in
    let (ok2, out2, s2, e2) =
      handle_stop-known z k held s1 rows1 object value w name id port n1 buffer hn found1 dec in
    let change = stopped (decode_fields w held) in
    let found2 = find-update (is_called name) change rows1 n1 found1 (bytes_eq_refl name) in
    (write_neighbor rows1 n1 change, rw (e1, e2) refl, ap some found2, ap address_of found2)
