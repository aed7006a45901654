-- ===== src/Enrollment.antt =====
-- components/Ipcp/Modules/enrollment.c with the table of neighbours, and the messages of enrollment
-- of components/Ipcp/Modules/serdesMsg.c. nanopb is a parameter, and each block that is asked for
-- is there. A read through NULL returns `none`. A message that goes out is the port and its bytes.
pub mod Handlers
pub mod Complete
use rinasensev.Prelude.{
  ℕ, ◌-◌, ◌^◌, Bool, if◌then◌else◌, ◌==◌, Option, none, some, List, [], ◌∷◌, ◌>>=◌,
}
use rinasensev.Strings.{CString}
use rinasensev.Gpha.{Bytes, bytes_eq}
use rinasensev.Table.{Slot, insert, find, update, has_valid}
use rinasensev.Cdap
use rinasensev.Ribd.{Ribd}

-- The texts "/difm/enr", "/difm/ops", "enrollment", "OperationalStatus" and "Enrollment".
abbrev pub enr_name : CString
enr_name = 47 ∷ 100 ∷ 105 ∷ 102 ∷ 109 ∷ 47 ∷ 101 ∷ 110 ∷ 114 ∷ []

abbrev pub ops_name : CString
ops_name = 47 ∷ 100 ∷ 105 ∷ 102 ∷ 109 ∷ 47 ∷ 111 ∷ 112 ∷ 115 ∷ []

abbrev pub enrollment_text : CString
enrollment_text = 101 ∷ 110 ∷ 114 ∷ 111 ∷ 108 ∷ 108 ∷ 109 ∷ 101 ∷ 110 ∷ 116 ∷ []

abbrev pub operational_text : CString
operational_text =
    79 ∷ 112 ∷ 101 ∷ 114 ∷ 97 ∷ 116 ∷ 105 ∷ 111 ∷ 110 ∷ 97 ∷ 108 ∷ 83 ∷ 116 ∷ 97 ∷ 116 ∷ 117 ∷ 115
    ∷ []

abbrev pub enrollment_class : CString
enrollment_class = 69 ∷ 110 ∷ 114 ∷ 111 ∷ 108 ∷ 108 ∷ 109 ∷ 101 ∷ 110 ∷ 116 ∷ []

-- NORMAL_PROCESS_NAME, "st1.slice1", and REMOTE_ADDRESS_AP_NAME, "st2.slice1".
abbrev pub normal_process_name : CString
normal_process_name = 115 ∷ 116 ∷ 49 ∷ 46 ∷ 115 ∷ 108 ∷ 105 ∷ 99 ∷ 101 ∷ 49 ∷ []

abbrev pub remote_address_ap_name : CString
remote_address_ap_name = 115 ∷ 116 ∷ 50 ∷ 46 ∷ 115 ∷ 108 ∷ 105 ∷ 99 ∷ 101 ∷ 49 ∷ []

-- NORMAL_PROCESS_INSTANCE, "1".
abbrev pub normal_process_instance : CString
normal_process_instance = 49 ∷ []

-- "PSOC_authentication-none" and its version "1".
abbrev pub auth_none : CString
auth_none =
    80 ∷ 83 ∷ 79 ∷ 67 ∷ 95 ∷ 97 ∷ 117 ∷ 116 ∷ 104 ∷ 101 ∷ 110 ∷ 116 ∷ 105 ∷ 99 ∷ 97 ∷ 116 ∷ 105
    ∷ 111 ∷ 110 ∷ 45 ∷ 110 ∷ 111 ∷ 110 ∷ 101 ∷ []

-- enrollmentState_t.
pub data EnrollmentState : Type 0 where
  enrollment_none enrollment_in_progress enrolled : EnrollmentState

-- neighborInfo_t; an address is a uint8_t.
pub record NeighborInfo : Type 0 where
  pub enrollment_state : EnrollmentState
  pub ap_name : CString
  pub n1_port : ℕ
  pub neighbor_address : ℕ
  pub token : Option CString

abbrev pub Neighbors : Type 0
Neighbors = List (Slot NeighborInfo)

-- enrollmentMessage_t, in the fields that are used.
pub record EnrollmentMessage : Type 0 where
  pub address : ℕ
  pub token : Option CString

-- rina_messages_enrollmentInformation_t: a field that has_ says is not there is `none`.
pub record EnrollmentWire : Type 0 where
  pub address : Option ℕ
  pub token : Option CString

-- rina_messages_neighbor_t.
pub record NeighborWire : Type 0 where
  pub ae_instance : Option CString
  pub ae_name : Option CString
  pub ap_instance : Option CString
  pub ap_name : Option CString

-- nanopb on the two messages.
pub record Nanopb : Type 0 where
  pub encode_enrollment : EnrollmentWire → Option Bytes
  pub decode_enrollment : Bytes → Option EnrollmentWire
  pub encode_neighbor : NeighborWire → Option Bytes

-- pxSerdesMsgEnrollmentEncode.
unfoldable pub enrollment_encode : Nanopb → ℕ → Option Bytes
enrollment_encode z address =
    z.encode_enrollment
      (record { address = if address == 0 then none else some address; token = none })

-- A field that stays as it was when the message has none.
abbrev pub given_address : Option ℕ → ℕ → ℕ
given_address none held = held
given_address (some a) held = a

abbrev pub given_text : Option CString → Option CString → Option CString
given_text none held = held
given_text (some t) held = some t

-- prvSerdesMsgDecodeEnrollment in a block that holds `held`.
unfoldable pub decode_fields : EnrollmentWire → EnrollmentMessage → EnrollmentMessage
decode_fields w held = record {
  address = given_address w.address held.address;
  token = given_text w.token held.token;
}

-- pxSerdesMsgEnrollmentDecode: NULL when nanopb refuses.
abbrev pub enrollment_decode : Nanopb → EnrollmentMessage → Bytes → Option EnrollmentMessage
enrollment_decode z held bytes = do w ← z.decode_enrollment bytes; some (decode_fields w held)

-- pxSerdesMsgNeighborEncode: a string that does not fit is written past its array.
unfoldable pub neighbor_encode : Nanopb → NeighborWire → Option (Option Bytes)
neighbor_encode z m = do
  ae_instance ← Cdap.put 20 m.ae_instance
  ae_name ← Cdap.put 20 m.ae_name
  ap_instance ← Cdap.put 20 m.ap_instance
  ap_name ← Cdap.put 20 m.ap_name
  some (
      z.encode_neighbor (record {
        ae_instance = ae_instance;
        ae_name = ae_name;
        ap_instance = ap_instance;
        ap_name = ap_name;
      }))

abbrev pub is_called : CString → NeighborInfo → Bool
is_called name n = bytes_eq n.ap_name name

-- pxEnrollmentFindNeighbor. strcmp with a NULL name is a fault at the first valid row.
unfoldable pub find_neighbor : Neighbors → Option CString → Option (Option NeighborInfo)
find_neighbor rows none = if has_valid rows then none else some none
find_neighbor rows (some name) = some (find (is_called name) rows)

abbrev pub address_of : Option NeighborInfo → ℕ
address_of none = 3
address_of (some n) = n.neighbor_address

-- xEnrollmentGetNeighborAddress.
unfoldable pub get_neighbor_address : Neighbors → Option CString → ℕ
get_neighbor_address rows none = 0
get_neighbor_address rows (some name) = address_of (find (is_called name) rows)

-- The neighbour that pxEnrollmentCreateNeighInfo fills.
abbrev pub new_neighbor : CString → ℕ → NeighborInfo
new_neighbor name port = record {
  enrollment_state = enrollment_none;
  ap_name = name;
  n1_port = port;
  neighbor_address = 2 ^ 8 - 1;
  token = none;
}

-- pxEnrollmentCreateNeighInfo and vEnrollmentAddNeighborEntry. strdup of a NULL name is a fault.
unfoldable pub create_neigh_info :
    Neighbors → Option CString → ℕ → Option (NeighborInfo × Neighbors)
create_neigh_info rows none port = none
create_neigh_info rows (some name) port = let n = new_neighbor name port in some (n, insert n rows)

abbrev pub found_or_created :
    Neighbors → Option CString → ℕ → Option NeighborInfo → Option (NeighborInfo × Neighbors)
found_or_created rows name port none = create_neigh_info rows name port
found_or_created rows name port (some n) = some (n, rows)

-- The neighbour of the name, which is created when there is none.
abbrev pub find_or_create : Neighbors → Option CString → ℕ → Option (NeighborInfo × Neighbors)
find_or_create rows name port = do
  found ← find_neighbor rows name
  found_or_created rows name port found

-- A write to the block of a neighbour, which a row points at unless the table was full.
abbrev pub write_neighbor : Neighbors → NeighborInfo → (NeighborInfo → NeighborInfo) → Neighbors
write_neighbor rows n f = update (is_called n.ap_name) f rows

abbrev pub in_state : EnrollmentState → NeighborInfo → NeighborInfo
in_state e n = record n { enrollment_state = e }

-- What a handler returns: the answer, the message that goes out, the daemon and the neighbours.
abbrev pub Outcome : Type 0
Outcome = Bool × Option (ℕ × Bytes) × Ribd × Neighbors
