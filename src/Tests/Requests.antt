-- ===== src/Tests/Requests.antt =====
-- A flow from the application "a" to "b" on port 6, through the neighbour "st2.slice1" of address
-- 2.
use rinasensev.Prelude.{◌≡◌, refl, true, false, none, some, List, [], ◌∷◌, arith}
use rinasensev.Ids.{cep_id_wrong}
use rinasensev.Efcp.{imap_create}
use rinasensev.Efcp.Changes.{HasConnection}
use rinasensev.Stack.{Connection}
use rinasensev.Table.{Slot}
use rinasensev.Enrollment.{Neighbors, new_neighbor, find_neighbor}
use rinasensev.Normal.{NormalFlow, FlowState, pending, find_flow}
use rinasensev.FlowAllocator.{Fai, find_instance, du_post}
use rinasensev.FlowAllocator.Response.{FlowReply, FlowMessage, Bound, handle_create_r}
use rinasensev.FlowAllocator.Request.{
  remote_ap_name, FlowWire, FlowHandle, Requested, flow_message, flow_request,
}
use rinasensev.FlowAllocator.Life.{requested_flow_delivers}
use rinasensev.Tests.{counting, started, frame}
use rinasensev.Tests.Enrolling.{sender, unset, daemon}
use rinasensev.Tests.Flows.{allocated, free}

abbrev neighbors : Neighbors
neighbors =
    record { valid = true; item = record (new_neighbor remote_ap_name 1) { neighbor_address = 2 } }
    ∷ []

abbrev handle : FlowHandle
handle = record { local = 97 ∷ []; remote = 98 ∷ []; fai = allocated 0 }

abbrev flow : NormalFlow
flow = record { port_id = 6; active = 0; state = pending }

-- A response from address 2, and blocks that held zeros.
abbrev reply : FlowReply
reply = record {
  destination_address = some 2;
  destination_port_id = some 6;
  source_address = 1;
  destination_cep_id = some 1;
  source_cep_id = some 1;
}

abbrev zeros : FlowMessage
zeros = record {
  remote_address = 0;
  destination_port = 0;
  source_address = 0;
  connection_destination = 0;
  connection_source = 0;
}

abbrev created : Connection
created = record {
  port_id = 6;
  source_address = 1;
  destination_address = 2;
  source_cep_id = 1;
  destination_cep_id = cep_id_wrong;
  qos_id = 3;
}

abbrev wire : FlowWire
wire = record {
  source_name = 97 ∷ [];
  destination_name = 98 ∷ [];
  source_port_id = 6;
  source_address = 1;
  hop_count = 4;
  source_cep_id = 1;
  destination_cep_id = 0;
  connection_qos_id = 3;
  qos_id = 3;
  qos_name = 117 ∷ 110 ∷ 114 ∷ 101 ∷ 108 ∷ 105 ∷ 97 ∷ 98 ∷ 108 ∷ 101 ∷ [];
  partial_delivery = false;
  order = true;
  policy_name = 100 ∷ 101 ∷ 102 ∷ 97 ∷ 117 ∷ 108 ∷ 116 ∷ [];
  policy_version = 48 ∷ [];
  initial_a_timer = 300;
  dtcp_present = false;
}

requested_flow_delivers_example :
    (q : Requested counting) × (r : Bound counting) × (rows3 : List (Slot Fai)) × (fai : Fai)
    × (flow_request counting
          (λ m. some (1 ∷ []))
          sender
          unset
          neighbors
          true
          true
          false
          handle
          6
          (free ∷ [])
          (flow ∷ [])
          started
          daemon
        ≡ some q)
    × HasConnection counting q.world 1 created
    × (find_flow q.flows 6 ≡ some (record flow { active = 1 }))
    × (du_post q.rows 6 (record { buffer = some frame; pci_at = none }) ≡ some (false, q.rows))
    × (handle_create_r counting
          (λ bytes. some reply)
          true
          zeros
          q.world
          q.flows
          q.rows
          (some (1 ∷ []))
          0
        ≡ some r)
    × (r.answer ≡ true)
    × HasConnection counting r.world 1
        (record created { source_address = 2; destination_address = 1; destination_cep_id = 1 })
    × (find_flow r.flows 6 ≡ some (record flow { active = 1; state = FlowState.allocated }))
    × (du_post r.rows 6 (record { buffer = some frame; pci_at = none }) ≡ some (true, rows3))
    × (find_instance rows3 6 ≡ some (some fai))
    × (fai.waiting ≡ frame ∷ [])
unfolding find_neighbor flow_message imap_create
requested_flow_delivers_example =
    requested_flow_delivers counting (λ m. some (1 ∷ [])) sender unset neighbors false handle 6 free
      [] (flow ∷ []) started none daemon
      (record (new_neighbor remote_ap_name 1) { neighbor_address = 2 }) wire flow
      (λ bytes. some reply) zeros (1 ∷ []) 2 1 frame none refl
      ((refl, refl), ((refl, refl), ((refl, refl), tt)), refl) refl (omega arith) (omega arith) refl
      refl refl refl (omega arith) refl (omega arith) (omega arith)
