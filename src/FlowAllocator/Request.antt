-- ===== src/FlowAllocator/Request.antt =====
-- vFlowAllocatorFlowRequest of components/Ipcp/Modules/flowAllocator.c and pxSerdesMsgFlowEncode of
-- components/Ipcp/Modules/serdesMsg.c. Each block that is asked for is there, but where an argument
-- says otherwise; nanopb is a parameter.
use rinasensev.Prelude.{
  ℕ, zero, suc, ◌+◌, ◌/◌, ◌%◌, ltb, Bool, true, false, if◌then◌else◌, Option, none, some, List, [],
  ◌∷◌, ◌++◌, ◌>>=◌, length,
}
use rinasensev.Buffers.{Buffers}
use rinasensev.Gpha.{Bytes}
use rinasensev.Strings.{CString}
use rinasensev.Stack.{World}
use rinasensev.Table.{Slot}
use rinasensev.Cdap.{OpCode, minus_one_64}
use rinasensev.Rib
use rinasensev.Ribd.{Ribd, Callback}
use rinasensev.Ribd.Request.{Sender, send_request}
use rinasensev.Enrollment.{Neighbors, NeighborInfo, find_neighbor}
use rinasensev.Normal.{NormalFlow, connection_create_request, update_cep_id_flow}
use rinasensev.FlowAllocator.{Fai, fai_none, add_flow_request_entry}

-- The texts "st2.slice1" (REMOTE_ADDRESS_AP_NAME), "Flow", "unreliable", "default" and "0".
abbrev pub remote_ap_name : CString
remote_ap_name = 115 ∷ 116 ∷ 50 ∷ 46 ∷ 115 ∷ 108 ∷ 105 ∷ 99 ∷ 101 ∷ 49 ∷ []

abbrev pub flow_class : CString
flow_class = 70 ∷ 108 ∷ 111 ∷ 119 ∷ []

abbrev pub qos_cube_name : CString
qos_cube_name = 117 ∷ 110 ∷ 114 ∷ 101 ∷ 108 ∷ 105 ∷ 97 ∷ 98 ∷ 108 ∷ 101 ∷ []

abbrev pub dtp_policy_set_name : CString
dtp_policy_set_name = 100 ∷ 101 ∷ 102 ∷ 97 ∷ 117 ∷ 108 ∷ 116 ∷ []

abbrev pub dtp_policy_set_version : CString
dtp_policy_set_version = 48 ∷ []

-- QoS_CUBE_ID.
abbrev pub qos_cube_id : ℕ
qos_cube_id = 3

-- The decimal digits of a number below 10 ^ fuel.
abbrev pub decimal : ℕ → ℕ → CString
decimal zero n = []
decimal (suc fuel) n =
    let front = decimal fuel (n / 10) in
    if ltb n 10 then (48 + n) ∷ [] else front ++ ((48 + n % 10) ∷ [])

-- The name "/fa/flows/key=1-" and the port id, of 32 bits, which has at most ten digits. It must
-- fit an array of 24 bytes.
abbrev pub flow_obj_name : ℕ → CString
flow_obj_name port =
    47
    ∷ 102
    ∷ 97
    ∷ 47
    ∷ 102
    ∷ 108
    ∷ 111
    ∷ 119
    ∷ 115
    ∷ 47
    ∷ 107
    ∷ 101
    ∷ 121
    ∷ 61
    ∷ 49
    ∷ 45
    ∷ decimal 10 port

abbrev pub flow_obj : ℕ → Option CString
flow_obj port = if ltb (length (flow_obj_name port)) 24 then some (flow_obj_name port) else none

-- rina_messages_Flow, in the fields that are set.
pub record FlowWire : Type 0 where
  pub source_name : CString
  pub destination_name : CString
  pub source_port_id : ℕ
  pub source_address : ℕ
  pub hop_count : ℕ
  pub source_cep_id : ℕ
  pub destination_cep_id : ℕ
  pub connection_qos_id : ℕ
  pub qos_id : ℕ
  pub qos_name : CString
  pub partial_delivery : Bool
  pub order : Bool
  pub policy_name : CString
  pub policy_version : CString
  pub initial_a_timer : ℕ
  pub dtcp_present : Bool

-- The names of the two applications, and the state of their handle.
pub record FlowHandle : Type 0 where
  pub local : CString
  pub remote : CString
  pub fai : Fai

-- The message that prvFlowAllocatorNewFlow, vFlowAllocatorFlowRequest and pxSerdesMsgFlowEncode
-- fill; a name must fit its array.
unfoldable pub flow_message : FlowHandle → ℕ → ℕ → Option FlowWire
flow_message handle port cep =
    if ltb (length handle.local) 20
    then (if ltb (length handle.remote) 20
        then some (record {
          source_name = handle.local;
          destination_name = handle.remote;
          source_port_id = port;
          source_address = 1;
          hop_count = 4;
          source_cep_id = cep;
          destination_cep_id = 0;
          connection_qos_id = qos_cube_id;
          qos_id = qos_cube_id;
          qos_name = qos_cube_name;
          partial_delivery = false;
          order = true;
          policy_name = dtp_policy_set_name;
          policy_version = dtp_policy_set_version;
          initial_a_timer = 300;
          dtcp_present = false;
        })
        else none)
    else none

-- The instance that is added for a port.
abbrev pub new_fai : FlowHandle → ℕ → Fai
new_fai handle port = record handle.fai { port_id = port; state = fai_none }

-- What the request leaves: the table of instances, the flows, the data path, the RIB daemon, and
-- the message that goes out.
pub record Requested (bm : Buffers) : Type 0 where
  pub rows : List (Slot Fai)
  pub flows : List NormalFlow
  pub world : World bm
  pub ribd : Ribd
  pub sent : Option (ℕ × Bytes)

module _ (bm : Buffers) where
  -- The rest of the request once the connection has its CEP-id. What fails here is only logged.
  abbrev pub announce :
      (FlowWire → Option Bytes)
      → Sender
      → Callback
      → FlowHandle
      → ℕ
      → NeighborInfo
      → ℕ
      → List (Slot Fai)
      → List NormalFlow
      → World bm
      → Ribd
      → Option (Requested bm)
  announce encode k held handle port n cep rows flows w s = do
    m ← flow_message handle port cep
    name ← flow_obj port
    (_, objects) ←
        Rib.create_object s.objects (some name) minus_one_64 (some flow_class) Rib.ObjectType.flow
    (_, out, s1) ←
        send_request k held (record s { objects = objects }) (some flow_class) (some name)
          minus_one_64 OpCode.m_create n.n1_port (encode m)
    let done : Requested bm = record {
      rows = rows;
      flows = (update_cep_id_flow flows port cep).1;
      world = w;
      ribd = s1;
      sent = out;
    }
    some done

  -- vFlowAllocatorFlowRequest.
  unfoldable pub flow_request :
      (FlowWire → Option Bytes)
      → Sender
      → Callback
      → Neighbors
      → (has_memory has_dtp dtcp_word : Bool) → FlowHandle
      → ℕ
      → List (Slot Fai)
      → List NormalFlow
      → World bm
      → Ribd
      → Option (Requested bm)
  flow_request encode k held neighbors has_memory has_dtp dtcp_word handle port rows flows w s = do
    let rows1 = add_flow_request_entry (new_fai handle port) rows
    let unserved : Requested bm = record {
      rows = rows1;
      flows = flows;
      world = w;
      ribd = s;
      sent = none;
    }
    found ← find_neighbor neighbors (some remote_ap_name)
    elim found [
      | none ↦ some unserved
      | some n ↦ do
        (cep, w1) ←
            connection_create_request bm w port n.neighbor_address qos_cube_id has_memory has_dtp
              dtcp_word
        announce encode k held handle port n cep rows1 flows w1 s
    ]
