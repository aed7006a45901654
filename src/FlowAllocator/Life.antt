-- ===== src/FlowAllocator/Life.antt =====
-- The life of a flow in components/Ipcp/Modules/flowAllocator.c: vFlowAllocatorFlowRequest, then
-- xFlowAllocatorHandleCreateR, and xFlowAllocatorDuPost before and after.
use rinasensev.Prelude.{
  ℕ, ◌<◌, ◌^◌, ◌≡◌, refl, ap, ◌∙◌, Bool, true, false, Option, some, List, ◌∷◌, length,
}
use rinasensev.Buffers.{Buffers}
use rinasensev.Ids.{is_port_id_ok}
use rinasensev.Efcp.Imap.{Entry, Represents}
use rinasensev.Efcp.Changes.{HasConnection}
use rinasensev.Gpha.{Bytes}
use rinasensev.Stack.{World}
use rinasensev.Du.{NetBuffer}
use rinasensev.Table.{Slot}
use rinasensev.RsList.{insert_behind}
use rinasensev.Cdap.Roundtrip.{ValueFits}
use rinasensev.Ribd.{Ribd, Callback}
use rinasensev.Ribd.Request.{Sender}
use rinasensev.Enrollment.{Neighbors, NeighborInfo, find_neighbor}
use rinasensev.Normal.{NormalFlow, FlowState, find_flow, write_flow}
use rinasensev.Normal.Flows.{set_active, find_flow-write_flow}
use rinasensev.FlowAllocator.{Fai, find_instance, post, du_post}
use rinasensev.FlowAllocator.First.{filled}
use rinasensev.FlowAllocator.Response.{FlowReply, FlowMessage, Bound, bind_flow, handle_create_r}
use rinasensev.FlowAllocator.Request.{
  remote_ap_name, flow_obj_name, FlowWire, FlowHandle, flow_message, new_fai, Requested,
  flow_request,
}
use rinasensev.FlowAllocator.Asked.{
  outcome, connection_to, flow_request-runs, connection_create_request-HasConnection,
}
use rinasensev.FlowAllocator.Answered.{
  reply_for, find_instance-first, du_post-new, handle_create_r-new, du_post-bound,
}

module _ (bm : Buffers) where
  -- A flow that is requested for a port that is not wrong, over a table of connections that holds
  -- at most one, when the first row of the table of flow instances is free, the neighbour is known,
  -- the blocks of memory are given, the port has a flow, the message can be built, its object's
  -- name is shorter than 24 bytes and its value and the message fit their arrays and a network
  -- buffer: the request goes through and makes a connection of CEP-id 1 for the port to the
  -- neighbour's address, and the port's flow has that CEP-id; a data unit for the port is still
  -- destroyed, with the answer false. The response, with result 0, whose message decodes to the
  -- port, of 32 bits, to two addresses of 8 bits and to CEP-id 1 on both sides, is then accepted:
  -- the connection goes from the one address to the other and to CEP-id 1, the port's flow is
  -- allocated, and a data unit for the port is put into the list of packets that wait.
  pub requested_flow_delivers :
      (encode : FlowWire → Option Bytes) (k : Sender) (held : Callback) (neighbors : Neighbors)
      (dtcp_word : Bool) (handle : FlowHandle) (port : ℕ) (first : Slot Fai)
      (rows : List (Slot Fai)) (flows : List NormalFlow) (w : World bm) (entry : Entry) (s : Ribd)
      (n : NeighborInfo) (m : FlowWire) (f : NormalFlow) (decode : Bytes → Option FlowReply)
      (held_message : FlowMessage) (value : Bytes) (there back : ℕ) (b : NetBuffer) (at : Option ℕ)
      → find_neighbor neighbors (some remote_ap_name) ≡ some (some n)
      → Represents w.imap entry
      → flow_message handle port 1 ≡ some m
      → length (flow_obj_name port) < 24
      → ValueFits (encode m)
      → k.has_buffer ≡ true
      → first.valid ≡ false
      → find_flow flows port ≡ some f
      → is_port_id_ok port ≡ true
      → port < 2 ^ 32
      → decode value ≡ some (reply_for port there back)
      → there < 2 ^ 8
      → back < 2 ^ 8
      → (q : Requested bm) × (r : Bound bm) × (rows3 : List (Slot Fai)) × (fai : Fai)
        × (flow_request bm encode k held neighbors true true dtcp_word handle port
              (first ∷ rows)
              flows
              w
              s
            ≡ some q)
        × HasConnection bm q.world 1 (connection_to port n)
        × (find_flow q.flows port ≡ some (record f { active = 1 }))
        × (du_post q.rows port (record { buffer = some b; pci_at = at }) ≡ some (false, q.rows))
        × (handle_create_r bm decode true held_message q.world q.flows q.rows (some value) 0
            ≡ some r)
        × (r.answer ≡ true)
        × HasConnection bm r.world 1 (record (connection_to port n) {
          source_address = there;
          destination_address = back;
          destination_cep_id = 1;
        })
        × (find_flow r.flows port ≡ some (record f { active = 1; state = FlowState.allocated }))
        × (du_post r.rows port (record { buffer = some b; pci_at = at }) ≡ some (true, rows3))
        × (find_instance rows3 port ≡ some (some fai))
        × (fai.waiting ≡ insert_behind b handle.fai.waiting)
  requested_flow_delivers encode k held neighbors dtcp_word handle port first rows flows w entry s n
        m f decode held_message value there back b at known table message named fits buffer unused
        has_flow good small decoded small1 small2 =
      let (w1, made, has) =
        connection_create_request-HasConnection bm w entry port n dtcp_word good table in
      let (r, run) =
        flow_request-runs bm encode k held neighbors dtcp_word handle port first rows flows w w1 s n
          1 m known made message named fits buffer unused in
      let new = new_fai handle port in
      let active = find_flow-write_flow (set_active 1) flows port f (λ f. refl) has_flow in
      let (done, response, answer, rows_are, allocated, changed) =
        handle_create_r-new bm decode held_message w1 (write_flow (set_active 1) flows port)
          (connection_to port n) handle port rows value (set_active 1 f) there back decoded small
          small1 small2 has active in
      (
        outcome bm handle port 1 rows flows w1 r,
        done,
        filled (post b (bind_flow new)) ∷ rows,
        post b (bind_flow new),
        run,
        has,
        active,
        du_post-new handle port rows b at good,
        response,
        answer,
        changed,
        allocated,
        ap (λ rs. du_post rs port (record { buffer = some b; pci_at = at })) rows_are
            ∙ du_post-bound handle port rows b at good,
        find_instance-first (post b (bind_flow new)) rows,
        refl,
      )
