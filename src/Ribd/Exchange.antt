-- ===== src/Ribd/Exchange.antt =====
-- A request and its response: xRibdSendRequest and vRibHandleMessage in
-- components/Ipcp/Modules/ribd.c.
use rinasensev.Prelude.{
  ℕ, ◌≡◌, refl, ap, ◌∙◌, Bool, true, false, ==_refl, Option-cases, inl, inr, arith, Option, none,
  some, ◌>>=◌,
}
use rinasensev.Strings.{CString}
use rinasensev.Gpha.{Bytes}
use rinasensev.Table.{find, has_free}
use rinasensev.Table.Search.{find-insert_new, insert-full}
use rinasensev.Rib.{RibObject, find_object}
use rinasensev.Cdap.{Cdap, OpCode}
use rinasensev.Cdap.Roundtrip.{
  Fits, ValueFits, IsSendable, NameFits, IsSendable-ser_to_rina_message,
}
use rinasensev.Ribd.{
  Ribd, AppConnection, Callback, enrollment_handle_start_r, waits_for, get_next_invoke_id,
  add_response_handler, find_pending_response_handler, callback_of, find_app_connection,
  create_cdap_callback,
}
use rinasensev.Ribd.Request.{
  Sender, send_request, encode_cdap, fill_enroll_msg, sent, management_name,
}
use rinasensev.Ribd.Handle.{Codec, Call, start_response, handle_message, handle_op}

-- The id that the next request takes.
abbrev pub next_id : Ribd → ℕ
next_id s = (get_next_invoke_id s.next_invoke_id).0

-- The bytes of a message that fits are there or not, but nothing faults.
pub encode_cdap-IsSendable :
    (k : Sender) (m : Cdap)
    → k.has_buffer ≡ true
    → IsSendable m
    → (bytes : Option Bytes) × (encode_cdap k m ≡ some bytes)
unfolding encode_cdap
encode_cdap-IsSendable k m buffer h =
    let (w, run) = IsSendable-ser_to_rina_message m h in
    elim (Option-cases (k.pb_encode w)) [
      | inl refused ↦ (none, rw (run, refused) refl)
      | inr (bytes, encoded) ↦ (some bytes, rw (run, encoded, buffer) refl)
    ]

-- The state that a request leaves.
abbrev pub requested : Ribd → OpCode → Callback → Ribd
requested s op held =
    add_response_handler (record s { next_invoke_id = (get_next_invoke_id s.next_invoke_id).1 })
      (next_id s) (some (create_cdap_callback op held))

pub management_fits : NameFits management_name
management_fits = record {
  process_name = tt;
  process_instance = tt;
  entity_name = omega arith;
  entity_instance = omega arith;
}

pub enroll_msg-IsSendable :
    (name : Option CString) (inst : ℕ) (op : OpCode) (value : Option Bytes) (id : ℕ)
    → Fits 40 name
    → ValueFits value
    → IsSendable (fill_enroll_msg name inst op value id)
enroll_msg-IsSendable name inst op value id hn hv = record {
  destination = management_fits;
  source = management_fits;
  auth = tt;
  obj_class = tt;
  obj_name = hn;
  obj_value = hv;
}

-- xRibdSendRequest of the code on a port, and vRibHandleMessage of what comes back from it.
pub answered :
    Sender
    → Callback
    → Codec
    → Cdap
    → Ribd
    → Option CString
    → ℕ
    → OpCode
    → ℕ
    → Option Bytes
    → Cdap
    → Option (Bool × Ribd × Option Call)
answered k held c held' s name inst op port value r = do
  (ok, out, s') ← send_request k held s none name inst op port value
  handle_message c held' s' r port

sent_state :
    (c : Codec) (held' : Cdap) (port : ℕ) (s : Ribd) (bytes : Option Bytes) (r : Cdap)
    → (some (sent port s bytes) >>= λ p. handle_message c held' p.2 r port)
      ≡ handle_message c held' s r port
sent_state c held' port s none r = refl
sent_state c held' port s (some bytes) r = refl

-- The request of M_START leads to the handling of the response in the state that it leaves.
answered_start :
    (k : Sender) (held : Callback) (c : Codec) (held' : Cdap) (s : Ribd) (name : Option CString)
    (inst port : ℕ) (value : Option Bytes) (r : Cdap)
    → k.has_buffer ≡ true
    → Fits 40 name
    → ValueFits value
    → answered k held c held' s name inst OpCode.m_start port value r
      ≡ handle_message c held' (requested s OpCode.m_start held) r port
unfolding answered send_request
answered_start k held c held' s name inst port value r buffer hn hv =
    let (bytes, run) =
      encode_cdap-IsSendable k (fill_enroll_msg name inst OpCode.m_start value (next_id s)) buffer
        (enroll_msg-IsSendable name inst OpCode.m_start value (next_id s) hn hv) in
    rw run (sent_state c held' port (requested s OpCode.m_start held) bytes r)

-- The handler that a request registers is the one that its id finds.
pub find_pending-add_response :
    (s : Ribd) (id : ℕ) (cb : Callback)
    → has_free s.handlers ≡ true
    → find (waits_for id) s.handlers ≡ none
    → find_pending_response_handler (add_response_handler s id (some cb)) id ≡ some cb
unfolding find_pending_response_handler add_response_handler
find_pending-add_response s id cb free absent = ap callback_of (
    find-insert_new (waits_for id) (record { invoke_id = id; callback = cb }) s.handlers free absent
      (==_refl id))

find_app_connection-requested :
    (s : Ribd) (op : OpCode) (held : Callback) (port : ℕ)
    → find_app_connection (requested s op held) port ≡ find_app_connection s port
unfolding find_app_connection add_response_handler
find_app_connection-requested s op held port = refl

-- xRibdSendRequest of M_START on a port with a connection, and then M_START_R with the id that the
-- request took: the response goes to the start handler of the enrollment, with the peer's name and
-- the value that came. The table of pending responses has a free row and no row of that id, the
-- name of the object has at most 39 bytes and the value at most 1024, a network buffer is there,
-- and the search for the object that the response names returns, which it does not for a response
-- without an object name when there is an object. nanopb may refuse the message.
pub request_is_answered :
    (k : Sender) (held : Callback) (c : Codec) (held' : Cdap) (s : Ribd) (name : Option CString)
    (inst port : ℕ) (value : Option Bytes) (r : Cdap) (conn : AppConnection)
    (object : Option RibObject)
    → has_free s.handlers ≡ true
    → find (waits_for (next_id s)) s.handlers ≡ none
    → k.has_buffer ≡ true
    → Fits 40 name
    → ValueFits value
    → find_app_connection s port ≡ some conn
    → find_object s.objects r.obj_name ≡ some object
    → (s' : Ribd) × (answered k held c held' s name inst OpCode.m_start port value
          (record r { op_code = OpCode.m_start_r; invoke_id = next_id s })
        ≡ some (
          true,
          s',
          some (start_response enrollment_handle_start_r conn.destination.process_name r.obj_value),
        ))
unfolding handle_message handle_op add_response_handler
request_is_answered k held c held' s name inst port value r conn object free absent buffer hn hv
      at_port named =
    let waiting =
      find_pending-add_response
        (record s { next_invoke_id = (get_next_invoke_id s.next_invoke_id).1 }) (next_id s)
        (create_cdap_callback OpCode.m_start held) free absent in
    (
      requested s OpCode.m_start held,
      answered_start k held c held' s name inst port value
            (record r { op_code = OpCode.m_start_r; invoke_id = next_id s }) buffer hn hv
          ∙ rw (named, waiting, find_app_connection-requested s OpCode.m_start held port, at_port)
              refl,
    )

find_pending-full :
    (s : Ribd) (id : ℕ) (cb : Callback)
    → has_free s.handlers ≡ false
    → find (waits_for id) s.handlers ≡ none
    → find_pending_response_handler (add_response_handler s id (some cb)) id ≡ none
unfolding find_pending_response_handler add_response_handler
find_pending-full s id cb full absent =
    ap (λ rows. callback_of (find (waits_for id) rows))
      (insert-full (record { invoke_id = id; callback = cb }) s.handlers full)
    ∙ ap callback_of absent

-- When the table of pending responses has no free row, and no row of the id that the request takes,
-- the handling of the response to a request of M_START reads through NULL. A network buffer is
-- there, the name of the object has at most 39 bytes and the value at most 1024, and the search for
-- the object of the response returns.
pub full_table_faults :
    (k : Sender) (held : Callback) (c : Codec) (held' : Cdap) (s : Ribd) (name : Option CString)
    (inst port : ℕ) (value : Option Bytes) (r : Cdap) (object : Option RibObject)
    → has_free s.handlers ≡ false
    → find (waits_for (next_id s)) s.handlers ≡ none
    → k.has_buffer ≡ true
    → Fits 40 name
    → ValueFits value
    → find_object s.objects r.obj_name ≡ some object
    → answered k held c held' s name inst OpCode.m_start port value
        (record r { op_code = OpCode.m_start_r; invoke_id = next_id s })
      ≡ none
unfolding handle_message handle_op add_response_handler
full_table_faults k held c held' s name inst port value r object full absent buffer hn hv named =
    let lost =
      find_pending-full (record s { next_invoke_id = (get_next_invoke_id s.next_invoke_id).1 })
        (next_id s) (create_cdap_callback OpCode.m_start held) full absent in
    answered_start k held c held' s name inst port value
      (record r { op_code = OpCode.m_start_r; invoke_id = next_id s }) buffer hn hv
    ∙ rw (named, lost) refl
