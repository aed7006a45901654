-- ===== src/Tests/Managing.antt =====
-- A normal IPC process above the shim that writes on port 3.
use rinasensev.Prelude.{ℕ, ◌≡◌, refl, true, false, ◌==◌, none, some, List, [], ◌∷◌, arith}
use rinasensev.Memory.{plenty}
use rinasensev.Pci
use rinasensev.Du.{Du, NetBuffer}
use rinasensev.Du.Decap.{arrived, decapsulated}
use rinasensev.Dtp.{discard}
use rinasensev.Efcp
use rinasensev.Outbound.{container_write}
use rinasensev.Stack.{N1Port, World, managed, written, freed}
use rinasensev.Shim.{with_memory}
use rinasensev.Shim.Frames.{sdu_write, process_ethernet_packet}
use rinasensev.Normal.{
  NormalFlow, pending, find_flow, mgmt_du_write, du_enqueue, stack_rx, data_of, flow_prebind,
  is_flow_allocated, du_write, update_cep_id_flow, connection_update,
}
use rinasensev.Normal.Delivery.{mgmt_du_arrives}
use rinasensev.Normal.Events.{stack_rx_twice}
use rinasensev.Normal.Flows.{connected_flow_writes}
use rinasensev.Tests.{counting, agreeing, running, n1, connected}
use rinasensev.Tests.Shims.{shim, writer, known, mac_of, surroundings}

abbrev message : NetBuffer
message = record {
  ethernet = 10 ∷ 20 ∷ 30 ∷ [];
  rina_offset = none;
  data_offset = 0;
  rina_length = 0;
  data_length = 3;
}

abbrev below : N1Port
below = record n1 { port_id = 3 }

abbrev bound : World counting
bound = record running { n1_port = some below }

mgmt_du_arrives_example :
    (w1 : World counting) × (sdu : Du) × (frame : NetBuffer) × (unit : Du) × (w2 : World counting)
    × (du : Du) × (c : NetBuffer) × (mgmt_du_write counting agreeing bound true 2
          (some (record { buffer = some message; pci_at = none }))
        ≡ some (true, w1))
    × (w1.log ≡ written 3 sdu ∷ [])
    × (sdu_write counting true w1.pool writer 3 sdu
        ≡ some (true, some frame, 3, with_memory [] writer))
    × (process_ethernet_packet counting (surroundings true) 3 shim frame frame.data_length
        ≡ some (
          record { delivered = some unit; announced = false },
          3,
          with_memory (plenty 8 []) shim,
        ))
    × (du_enqueue counting agreeing running true 1 unit ≡ some (true, w2))
    × (w2.log ≡ managed 1 du ∷ [])
    × (du.buffer ≡ some c)
    × (data_of c ≡ message.ethernet)
mgmt_du_arrives_example =
    mgmt_du_arrives counting agreeing bound 2 message none 2 2 below writer [] known (mac_of 2)
      (surroundings true) agreeing running 2 n1 shim (plenty 8 []) refl refl refl (refl, refl, refl)
      (omega arith) refl refl (refl, refl, refl) refl refl refl refl refl

-- A data PDU whose QoS id is not valid.
abbrev bad : NetBuffer
bad = record {
  ethernet = 1 ∷ 1 ∷ 2 ∷ 255 ∷ 1 ∷ 1 ∷ 128 ∷ 128 ∷ 16 ∷ 0 ∷ 5 ∷ 0 ∷ 0 ∷ 0 ∷ 7 ∷ 8 ∷ [];
  rina_offset = some 0;
  data_offset = 0;
  rina_length = 16;
  data_length = 16;
}

stack_rx_twice_example :
    (w1 : World counting) × (w2 : World counting) × (du_enqueue counting agreeing running true 1
        (arrived bad 0)
      ≡ some (false, w1))
    × (w1.log ≡ freed (decapsulated bad 0) ∷ [])
    × (stack_rx counting agreeing running true (arrived bad 0) ≡ some w2)
    × (w2.log ≡ freed (arrived bad 0) ∷ freed (decapsulated bad 0) ∷ [])
unfolding Pci.pdu_type_is_ok Pci.cast
stack_rx_twice_example = stack_rx_twice counting agreeing running n1 bad 0 2 refl refl refl refl

-- The state once the connection has a peer's CEP-id.
abbrev updated : World counting
updated =
    let c = connected.connection in
    record running {
      instances = some (record connected { connection = record c { destination_cep_id = 7 } }) ∷ [];
    }

abbrev flows : List NormalFlow
flows = record { port_id = 8; active = 4; state = pending } ∷ []

connected_flow_writes_example :
    (flows1 : List NormalFlow) × (flows2 : List NormalFlow) × (flows3 : List NormalFlow)
    × (flow_prebind flows 6 true 0 ≡ (true, flows1))
    × (is_flow_allocated flows1 6 ≡ false)
    × (du_write counting agreeing running true flows1 6 message
        ≡ some (false, discard counting running (record { buffer = some message; pci_at = none })))
    × (update_cep_id_flow flows1 6 1 ≡ (true, flows2))
    × (connection_update counting running flows2 6 1 7 ≡ some (true, flows3, updated))
    × (is_flow_allocated flows3 6 ≡ true)
    × (du_write counting agreeing updated true flows3 6 message
        ≡ container_write counting agreeing updated true 1
            (record { buffer = some message; pci_at = none }))
    × ((other : ℕ) → (6 == other) ≡ false → find_flow flows3 other ≡ find_flow flows other)
unfolding Efcp.connection_update Efcp.with_connection Efcp.find
connected_flow_writes_example =
    connected_flow_writes counting agreeing running updated true flows 6 1 0 1 7 message refl refl
