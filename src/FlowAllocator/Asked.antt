-- ===== src/FlowAllocator/Asked.antt =====
-- vFlowAllocatorFlowRequest of components/Ipcp/Modules/flowAllocator.c where it goes through.
use rinasensev.Prelude.{
  ℕ, ◌<◌, ◌≡◌, refl, Bool, true, false, lt→ltb, Option, some, List, ◌∷◌, length, arith,
}
use rinasensev.Buffers.{Buffers}
use rinasensev.Ids.{is_port_id_ok, cep_id_wrong}
use rinasensev.Efcp.{local_address}
use rinasensev.Efcp.Imap.{Entry, Represents}
use rinasensev.Efcp.Changes.{HasConnection, connection_create-HasConnection}
use rinasensev.Gpha.{Bytes}
use rinasensev.Strings.{CString}
use rinasensev.Stack.{Connection, World}
use rinasensev.Table.{Slot, insert}
use rinasensev.Rib
use rinasensev.Cdap.{OpCode, minus_one_64}
use rinasensev.Cdap.Roundtrip.{Fits, ValueFits}
use rinasensev.Ribd.{Ribd, Callback, get_next_invoke_id}
use rinasensev.Ribd.Request.{Sender, send_request, sent, fill_common}
use rinasensev.Ribd.Exchange.{requested, management_fits, encode_cdap-IsSendable}
use rinasensev.Enrollment.{Neighbors, NeighborInfo, find_neighbor}
use rinasensev.Normal.{NormalFlow, write_flow, connection_create_request, update_cep_id_flow}
use rinasensev.Normal.Flows.{set_active}
use rinasensev.FlowAllocator.{Fai}
use rinasensev.FlowAllocator.First.{filled}
use rinasensev.FlowAllocator.Request.{
  remote_ap_name, qos_cube_id, flow_class, flow_obj, flow_obj_name, FlowWire, FlowHandle,
  flow_message, new_fai, Requested, flow_request,
}

-- A request of M_CREATE whose texts and value fit goes through.
create_request-runs :
    (k : Sender) (held : Callback) (s : Ribd) (cls name : Option CString) (inst port : ℕ)
    (value : Option Bytes)
    → k.has_buffer ≡ true
    → Fits 40 cls
    → Fits 40 name
    → ValueFits value
    → (r : Bool × Option (ℕ × Bytes) × Ribd) × (send_request k held s cls name inst OpCode.m_create
          port value
        ≡ some r)
unfolding send_request
create_request-runs k held s cls name inst port value buffer hc hn hv =
    let id = (get_next_invoke_id s.next_invoke_id).0 in
    let (bytes, e) =
      encode_cdap-IsSendable k (fill_common cls name inst OpCode.m_create value id) buffer (record {
        destination = management_fits;
        source = management_fits;
        auth = tt;
        obj_class = hc;
        obj_name = hn;
        obj_value = hv;
      }) in
    (sent port (requested s OpCode.m_create held) bytes, rw e refl)

module _ (bm : Buffers) where
  -- What the request leaves when the connection was made.
  abbrev pub outcome :
      FlowHandle
      → ℕ
      → ℕ
      → List (Slot Fai)
      → List NormalFlow
      → World bm
      → Bool × Option (ℕ × Bytes) × Ribd
      → Requested bm
  outcome handle port cep rows flows w r = record {
    rows = filled (new_fai handle port) ∷ rows;
    flows = write_flow (set_active cep) flows port;
    world = w;
    ribd = r.2;
    sent = r.1;
  }

  pub flow_request-runs :
      (encode : FlowWire → Option Bytes) (k : Sender) (held : Callback) (neighbors : Neighbors)
      (dtcp_word : Bool) (handle : FlowHandle) (port : ℕ) (first : Slot Fai)
      (rows : List (Slot Fai)) (flows : List NormalFlow) (w w1 : World bm) (s : Ribd)
      (n : NeighborInfo) (cep : ℕ) (m : FlowWire)
      → find_neighbor neighbors (some remote_ap_name) ≡ some (some n)
      → connection_create_request bm w port n.neighbor_address qos_cube_id true true dtcp_word
        ≡ some (cep, w1)
      → flow_message handle port cep ≡ some m
      → length (flow_obj_name port) < 24
      → ValueFits (encode m)
      → k.has_buffer ≡ true
      → first.valid ≡ false
      → (r : Bool × Option (ℕ × Bytes) × Ribd) × (flow_request bm encode k held neighbors true true
            dtcp_word handle port
            (first ∷ rows)
            flows
            w
            s
          ≡ some (outcome handle port cep rows flows w1 r))
  unfolding flow_request Rib.create_object update_cep_id_flow
  flow_request-runs encode k held neighbors dtcp_word handle port first rows flows w w1 s n cep m
        known made message named fits buffer unused =
      let object : Rib.RibObject = record {
        name = flow_obj_name port;
        inst = minus_one_64;
        displayable_value = some flow_class;
        ops = Rib.ops_of Rib.ObjectType.flow;
      } in
      let named_obj : flow_obj port ≡ some (flow_obj_name port) =
        rw (lt→ltb (length (flow_obj_name port)) 24 named) refl in
      let (r, e) =
        create_request-runs k held (record s { objects = insert object s.objects })
          (some flow_class) (some (flow_obj_name port)) minus_one_64 n.n1_port (encode m) buffer
          (omega arith) (omega (arith, named)) fits in
      (r, rw (known, made, message, named_obj, e, unused) refl)

-- The connection that the request makes for a port to a neighbour.
abbrev pub connection_to : ℕ → NeighborInfo → Connection
connection_to port n = record {
  port_id = port;
  source_address = local_address;
  destination_address = n.neighbor_address;
  source_cep_id = 1;
  destination_cep_id = cep_id_wrong;
  qos_id = qos_cube_id;
}

module _ (bm : Buffers) where
  pub connection_create_request-HasConnection :
      (w : World bm) (entry : Entry) (port : ℕ) (n : NeighborInfo) (dtcp_word : Bool)
      → is_port_id_ok port ≡ true
      → Represents w.imap entry
      → (w1 : World bm) × (connection_create_request bm w port n.neighbor_address qos_cube_id true
            true dtcp_word
          ≡ some (1, w1))
        × HasConnection bm w1 1 (connection_to port n)
  unfolding connection_create_request
  connection_create_request-HasConnection w entry port n dtcp_word good table =
      let (w1, made, has) =
        connection_create-HasConnection bm w entry n.neighbor_address port qos_cube_id cep_id_wrong
          dtcp_word good table in
      (w1, rw made refl, has)
