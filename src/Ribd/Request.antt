-- ===== src/Ribd/Request.antt =====
-- The sending side of components/Ipcp/Modules/ribd.c: xRibdSendRequest, xRibdSendResponse,
-- xRibdConnectToIpcp and the messages they fill.
use rinasensev.Prelude.{ℕ, Bool, true, false, if◌then◌else◌, Option, none, some, [], ◌∷◌, ◌>>=◌}
use rinasensev.Strings.{CString}
use rinasensev.Names.{Name}
use rinasensev.Gpha.{Bytes}
use rinasensev.Cdap.{Cdap, Wire, OpCode, minus_one_32, minus_one_64, ser_to_rina_message}
use rinasensev.Ribd.{
  Ribd, Callback, get_next_invoke_id, add_response_handler, add_app_connection_entry,
  create_connection, create_cdap_callback, strdup,
}

-- The text "Management".
abbrev pub management_ae : CString
management_ae = 77 ∷ 97 ∷ 110 ∷ 97 ∷ 103 ∷ 101 ∷ 109 ∷ 101 ∷ 110 ∷ 116 ∷ []

abbrev pub management_name : Name
management_name = record {
  process_name = none;
  process_instance = none;
  entity_name = some management_ae;
  entity_instance = some [];
}

-- prvRibMessageCdapInit, whose code is -1.
abbrev pub message_cdap_init : Cdap
message_cdap_init = record {
  op_code = OpCode.above_max minus_one_32;
  version = 1;
  invoke_id = 1;
  result = 0;
  destination = management_name;
  source = management_name;
  auth_name = none;
  auth_version = none;
  obj_class = none;
  obj_name = none;
  obj_inst = minus_one_64;
  obj_value = none;
}

-- prvRibdFillEnrollMsg with the invoke id that it takes: the class is left out.
abbrev pub fill_enroll_msg : Option CString → ℕ → OpCode → Option Bytes → ℕ → Cdap
fill_enroll_msg name inst op value id = record message_cdap_init {
  invoke_id = id;
  op_code = op;
  obj_inst = inst;
  obj_name = name;
  obj_value = value;
}

-- prvRibdFillCommon.
abbrev pub fill_common : Option CString → Option CString → ℕ → OpCode → Option Bytes → ℕ → Cdap
fill_common cls name inst op value id = record message_cdap_init {
  invoke_id = id;
  op_code = op;
  obj_inst = inst;
  obj_class = cls;
  obj_name = name;
  obj_value = value;
}

-- What the sending asks of nanopb and of the pool of network buffers.
pub record Sender : Type 0 where
  pub pb_encode : Wire → Option Bytes
  pub has_buffer : Bool

-- prvRibdEncodeCDAP: no bytes when nanopb refuses; a buffer that is not there is written to.
unfoldable pub encode_cdap : Sender → Cdap → Option (Option Bytes)
encode_cdap k m = do
  w ← ser_to_rina_message m
  elim (k.pb_encode w) [
    | none ↦ some none
    | some bytes ↦ if k.has_buffer then some (some bytes) else none
  ]

-- The message that xRibdSendRequest fills, for the codes that it takes.
abbrev pub request_message :
    Option CString → Option CString → ℕ → OpCode → Option Bytes → ℕ → Option Cdap
request_message cls name inst op value id = elim op [
  | OpCode.m_start ↦ some (fill_enroll_msg name inst OpCode.m_start value id)
  | OpCode.m_stop ↦ some (fill_enroll_msg name inst OpCode.m_stop value id)
  | OpCode.m_create ↦ some (fill_common cls name inst OpCode.m_create value id)
  | OpCode.m_delete ↦ some (fill_common cls name inst OpCode.m_delete value id)
  | _ ↦ none
]

-- The bytes of a message to a port, when there are any: vRibdSentCdapMsg hands them to the RMT.
abbrev pub sent : ℕ → Ribd → Option Bytes → Bool × Option (ℕ × Bytes) × Ribd
sent port s none = (false, none, s)
sent port s (some bytes) = (true, some (port, bytes), s)

-- What xRibdSendRequest does with its message: the handler is registered and the message is sent.
abbrev pub send_message :
    Sender
    → Callback
    → Ribd
    → OpCode
    → ℕ
    → ℕ
    → ℕ
    → Option Cdap
    → Option (Bool × Option (ℕ × Bytes) × Ribd)
send_message k held s op id next port none = some (false, none, s)
send_message k held s op id next port (some m) =
    let s1 = record s { next_invoke_id = next } in
    let s2 = add_response_handler s1 id (some (create_cdap_callback op held)) in
    do bytes ← encode_cdap k m; some (sent port s2 bytes)

-- xRibdSendRequest, with a block for the callback that holds `held`.
unfoldable pub send_request :
    Sender
    → Callback
    → Ribd
    → Option CString
    → Option CString
    → ℕ
    → OpCode
    → ℕ
    → Option Bytes
    → Option (Bool × Option (ℕ × Bytes) × Ribd)
send_request k held s cls name inst op port value =
    let (id, next) = get_next_invoke_id s.next_invoke_id in
    send_message k held s op id next port (request_message cls name inst op value id)

-- The message of xRibdSendResponse: the case of M_START_R falls through to that of M_STOP_R, which
-- fills the message again and takes another invoke id. No other code has a message, and NULL is
-- read.
abbrev pub response_message :
    Option CString → ℕ → ℕ → OpCode → Option Bytes → ℕ → ℕ → Option (Cdap × ℕ)
response_message name inst result op value id next = elim op [
  | OpCode.m_start_r ↦
      let (_, next1) = get_next_invoke_id next in
      let (_, next2) = get_next_invoke_id next1 in
      some (record (fill_enroll_msg name inst OpCode.m_start_r value id) { result = result }, next2)
  | OpCode.m_stop_r ↦
      let (_, next1) = get_next_invoke_id next in
      some (record (fill_enroll_msg name inst OpCode.m_stop_r value id) { result = result }, next1)
  | _ ↦ none
]

-- xRibdSendResponse.
unfoldable pub send_response :
    Sender
    → Ribd
    → Option CString
    → ℕ
    → ℕ
    → OpCode
    → ℕ
    → ℕ
    → Option Bytes
    → Option (Bool × Option (ℕ × Bytes) × Ribd)
send_response k s name inst result op id port value = do
  (m, next) ← response_message name inst result op value id s.next_invoke_id
  bytes ← encode_cdap k m
  some (sent port (record s { next_invoke_id = next }) bytes)

-- The three fields of a side of a connection request, each of which must be there.
abbrev pub connect_side : Name → Option Name
connect_side n = do
  en ← strdup n.entity_name
  pi ← strdup n.process_instance
  pn ← strdup n.process_name
  some (record management_name { entity_name = en; process_instance = pi; process_name = pn })

-- xRibdConnectToIpcp and, with the code M_CONNECT_R, xRibdConnectRToIpcp.
unfoldable pub connect :
    Sender
    → OpCode
    → Name
    → Name
    → Ribd
    → Name
    → Name
    → ℕ
    → Option CString
    → Option CString
    → Option (Bool × Option (ℕ × Bytes) × Ribd)
connect k op held_source held_dest s source dest port auth_name auth_version = do
  dest' ← connect_side dest
  source' ← connect_side source
  name ← strdup auth_name
  version ← strdup auth_version
  c ← create_connection source dest held_source held_dest
  let s1 = add_app_connection_entry s c port
  bytes ← encode_cdap k (record message_cdap_init {
    op_code = op;
    destination = dest';
    source = source';
    auth_name = name;
    auth_version = version;
  })
  some (sent port s1 bytes)
