-- ===== src/Cdap.antt =====
-- CDAP messages in components/Ipcp/Modules/ribd.c: the message of the RIB daemon and the struct
-- that nanopb encodes. A string is the list of its bytes, a NULL pointer is `none`; an int is its
-- value modulo 2 ^ 32 or 2 ^ 64.  No allocation of ribd.c is tested, so the blocks are taken to be
-- there; a block from pvRsMemAlloc holds what it held before.
pub mod Roundtrip
use rinasensev.Prelude.{
  ℕ, ◌+◌, ◌-◌, ◌*◌, ◌^◌, Bool, true, false, not, if◌then◌else◌, ◌==◌, ltb, Option, none, some, List,
  [], ◌∷◌, length, ◌>>=◌,
}
use rinasensev.Strings.{CString}
use rinasensev.Names.{Name}
use rinasensev.Gpha.{Bytes}

abbrev pub minus_one_32 : ℕ
minus_one_32 = 2 ^ 32 - 1

abbrev pub minus_one_64 : ℕ
minus_one_64 = 2 ^ 64 - 1

-- opCode_t, and the values above MAX_CDAP_OPCODE.
pub data OpCode : Type 0 where
  m_connect m_connect_r m_release m_release_r m_create m_create_r m_delete m_delete_r : OpCode
  m_read m_read_r m_cancelread m_cancelread_r m_write m_write_r : OpCode
  m_start m_start_r m_stop m_stop_r : OpCode
  above_max : ℕ → OpCode

-- messageCdap_t, its authPolicy_t and its serialised value.
pub record Cdap : Type 0 where
  pub op_code : OpCode
  pub version : ℕ
  pub invoke_id : ℕ
  pub result : ℕ
  pub destination : Name
  pub source : Name
  pub auth_name : Option CString
  pub auth_version : Option CString
  pub obj_class : Option CString
  pub obj_name : Option CString
  pub obj_inst : ℕ
  pub obj_value : Option Bytes

-- The authentication policy of a wire message: the name if it has one, and the version.
pub record WireAuth : Type 0 where
  pub name : Option CString
  pub versions : CString

-- rina_messages_CDAPMessage: `none` where the has_ flag is not set.
pub record Wire : Type 0 where
  pub op_code : OpCode
  pub version : Option ℕ
  pub invoke_id : Option ℕ
  pub result : Option ℕ
  pub dest_ae_inst : Option CString
  pub dest_ae_name : Option CString
  pub dest_ap_inst : Option CString
  pub dest_ap_name : Option CString
  pub src_ae_inst : Option CString
  pub src_ae_name : Option CString
  pub src_ap_inst : Option CString
  pub src_ap_name : Option CString
  pub auth_policy : Option WireAuth
  pub obj_class : Option CString
  pub obj_name : Option CString
  pub obj_inst : Option ℕ
  pub obj_value : Option Bytes

-- strcpy of a string that is not NULL into an array of `size` bytes: the terminator must fit.
abbrev pub put : ℕ → Option CString → Option (Option CString)
put size none = some none
put size (some s) = if ltb (length s) size then some (some s) else none

-- memcpy of a value into the array of 1024 bytes.
abbrev pub put_value : Option Bytes → Option (Option Bytes)
put_value none = some none
put_value (some bytes) = if ltb 1024 (length bytes) then none else some (some bytes)

abbrev pub unless : ℕ → ℕ → Option ℕ
unless wrong n = if n == wrong then none else some n

-- A policy with a name must have a version, which is copied without a test.
abbrev pub put_auth : Option CString → Option CString → Option (Option WireAuth)
put_auth none version = some none
put_auth (some name) none = none
put_auth (some name) (some version) = do
  name' ← put 40 (some name)
  version' ← put 40 (some version)
  some (some (record { name = name'; versions = version }))

-- prvRibdSerToRinaMessage.
unfoldable pub ser_to_rina_message : Cdap → Option Wire
ser_to_rina_message m = do
  dest_ae_inst ← put 20 m.destination.entity_instance
  dest_ae_name ← put 20 m.destination.entity_name
  dest_ap_inst ← put 20 m.destination.process_instance
  dest_ap_name ← put 20 m.destination.process_name
  src_ae_inst ← put 20 m.source.entity_instance
  src_ae_name ← put 20 m.source.entity_name
  src_ap_inst ← put 20 m.source.process_instance
  src_ap_name ← put 20 m.source.process_name
  auth_policy ← put_auth m.auth_name m.auth_version
  obj_class ← put 40 m.obj_class
  obj_name ← put 40 m.obj_name
  obj_value ← put_value m.obj_value
  some (record {
    op_code = m.op_code;
    version = some m.version;
    invoke_id = some m.invoke_id;
    result = unless minus_one_32 m.result;
    dest_ae_inst = dest_ae_inst;
    dest_ae_name = dest_ae_name;
    dest_ap_inst = dest_ap_inst;
    dest_ap_name = dest_ap_name;
    src_ae_inst = src_ae_inst;
    src_ae_name = src_ae_name;
    src_ap_inst = src_ap_inst;
    src_ap_name = src_ap_name;
    auth_policy = auth_policy;
    obj_class = obj_class;
    obj_name = obj_name;
    obj_inst = unless minus_one_64 m.obj_inst;
    obj_value = obj_value;
  })

-- A field that is written when the message has it.
abbrev pub or_held {ℓ} : {A : Type ℓ} → Option A → Option A → Option A
or_held none held = held
or_held (some a) held = some a

abbrev pub or_zero : Option ℕ → ℕ
or_zero none = 0
or_zero (some n) = n

abbrev pub auth_name_of : Option WireAuth → Option CString → Option CString
auth_name_of none held = held
auth_name_of (some a) held = or_held a.name held

abbrev pub auth_version_of : Option WireAuth → Option CString → Option CString
auth_version_of none held = held
auth_version_of (some a) held = some a.versions

abbrev pub number_or : Option ℕ → ℕ → ℕ
number_or none held = held
number_or (some n) held = n

-- prvRibdFillDecodeMessage into blocks that hold `held`: a field that the message does not have
-- keeps what is there. The fields without a flag of their own read as 0 when they were not on the
-- wire.
unfoldable pub fill_decode_message : Wire → Cdap → Cdap
fill_decode_message w held = record {
  op_code = w.op_code;
  version = or_zero w.version;
  invoke_id = or_zero w.invoke_id;
  result = or_zero w.result;
  destination = record {
    process_name = or_held w.dest_ap_name held.destination.process_name;
    process_instance = or_held w.dest_ap_inst held.destination.process_instance;
    entity_name = or_held w.dest_ae_name held.destination.entity_name;
    entity_instance = or_held w.dest_ae_inst held.destination.entity_instance;
  };
  source = record {
    process_name = or_held w.src_ap_name held.source.process_name;
    process_instance = or_held w.src_ap_inst held.source.process_instance;
    entity_name = or_held w.src_ae_name held.source.entity_name;
    entity_instance = or_held w.src_ae_inst held.source.entity_instance;
  };
  auth_name = auth_name_of w.auth_policy held.auth_name;
  auth_version = auth_version_of w.auth_policy held.auth_version;
  obj_class = or_held w.obj_class held.obj_class;
  obj_name = or_held w.obj_name held.obj_name;
  obj_inst = number_or w.obj_inst held.obj_inst;
  obj_value = or_held w.obj_value held.obj_value;
}
