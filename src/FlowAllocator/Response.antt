-- ===== src/FlowAllocator/Response.antt =====
-- components/Ipcp/Modules/flowAllocator.c: the response to the creation of a flow, with the flow
-- message that it carries, as components/Ipcp/Modules/serdesMsg.c reads it.
use rinasensev.Prelude.{
  ℕ, ◌%◌, ◌^◌, Bool, true, false, not, ◌==◌, if◌then◌else◌, Option, none, some, List, ◌>>=◌,
}
use rinasensev.Buffers.{Buffers}
use rinasensev.Gpha.{Bytes}
use rinasensev.Stack.{World}
use rinasensev.Table.{Slot}
use rinasensev.Normal.{NormalFlow, connection_modify, connection_update}
use rinasensev.FlowAllocator.{Fai, fai_allocated, find_instance, write_instance}

-- The fields of rina_messages_Flow, as pb_decode leaves them, that the response reads on; `none`
-- where a field that may be left out is not in the message.
pub record FlowReply : Type 0 where
  pub destination_address : Option ℕ
  pub destination_port_id : Option ℕ
  pub source_address : ℕ
  pub destination_cep_id : Option ℕ
  pub source_cep_id : Option ℕ

-- What xFlowAllocatorHandleCreateR reads of flow_t and of its connectionId_t.
pub record FlowMessage : Type 0 where
  pub remote_address : ℕ
  pub destination_port : ℕ
  pub source_address : ℕ
  pub connection_destination : ℕ
  pub connection_source : ℕ

-- A field of a number of bits: what its block held before where the message does not have it.
abbrev pub given_number : (bits held : ℕ) → Option ℕ → ℕ
given_number bits held none = held
given_number bits held (some n) = n % 2 ^ bits

-- prvSerdesMsgDecodeFlow, in blocks that held `held`: an address and a CEP-id have 8 bits, a port
-- 32. The names and the QoS of the message are not read after it.
unfoldable pub decode_flow_fields : FlowReply → (held : FlowMessage) → FlowMessage
decode_flow_fields r held = record {
  remote_address = given_number 8 held.remote_address r.destination_address;
  destination_port = given_number 32 held.destination_port r.destination_port_id;
  source_address = r.source_address % 2 ^ 8;
  connection_destination = given_number 8 held.connection_destination r.destination_cep_id;
  connection_source = given_number 8 held.connection_source r.source_cep_id;
}

abbrev pub bind_flow : Fai → Fai
bind_flow fai = record fai { state = fai_allocated; flow_bound = true }

module _ (bm : Buffers) where
  -- What the response answers, and the table of instances, the flows and the data path it leaves.
  pub record Bound : Type 0 where
    pub answer : Bool
    pub rows : List (Slot Fai)
    pub flows : List NormalFlow
    pub world : World bm

  abbrev pub failed : List (Slot Fai) → List NormalFlow → World bm → Bound
  failed rows flows w = record { answer = false; rows = rows; flows = flows; world = w }

  -- The end of the response, behind the answer of xNormalConnectionUpdate.
  abbrev pub bound_of : List (Slot Fai) → Bool × List NormalFlow × World bm → Bound
  bound_of rows (false, flows, w) = failed rows flows w
  bound_of rows (true, flows, w) = record {
    answer = true;
    rows = write_instance bind_flow rows;
    flows = flows;
    world = w;
  }

  -- The same behind the answer of xNormalConnectionModify.
  abbrev pub update_of :
      List (Slot Fai) → List NormalFlow → FlowMessage → Bool × World bm → Option Bound
  update_of rows flows m (false, w) = some (failed rows flows w)
  update_of rows flows m (true, w) = do
    r ← connection_update bm w flows m.destination_port m.connection_source m.connection_destination
    some (bound_of rows r)

  -- The same behind the search for the instance.
  abbrev pub create_r_of :
      World bm → List NormalFlow → List (Slot Fai) → FlowMessage → Option Fai → Option Bound
  create_r_of w flows rows m none = some (failed rows flows w)
  create_r_of w flows rows m (some fai) = do
    r ← connection_modify bm w m.connection_destination m.remote_address m.source_address
    update_of rows flows m r

  -- xFlowAllocatorHandleCreateR with pxSerdesMsgDecodeFlow in it. `decode` is pb_decode of a flow
  -- message, `has_memory` whether the four blocks of the message are given: they are written to
  -- untested. `none`: a fault.
  unfoldable pub handle_create_r :
      (Bytes → Option FlowReply)
      → (has_memory : Bool) → (held : FlowMessage) → World bm
      → List NormalFlow
      → List (Slot Fai)
      → Option Bytes
      → ℕ
      → Option Bound
  unfolding decode_flow_fields
  handle_create_r decode has_memory held w flows rows none result = some (failed rows flows w)
  handle_create_r decode has_memory held w flows rows (some value) result =
      if not (result == 0) then some (failed rows flows w) else elim (decode value) [
        | none ↦ some (failed rows flows w)
        | some reply ↦
            let m = decode_flow_fields reply held in
            let response =
              find_instance rows m.destination_port
              >>= (λ found. create_r_of w flows rows m found) in
            if has_memory then response else none
      ]
