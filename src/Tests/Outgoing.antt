-- ===== src/Tests/Outgoing.antt =====
-- Data units that are sent, and headers written and read.
use rinasensev.Prelude.{◌≡◌, refl, true, none, some, [], ◌∷◌, take, drop, arith}
use rinasensev.Pci
use rinasensev.Pci.{Pci, pci_size, pdu_type_dt}
use rinasensev.Du.{NetBuffer}
use rinasensev.Rmt.Send.{IsSendable, Sent, send_all, send_all-Sent}
use rinasensev.Outbound.{write}
use rinasensev.Outbound.Wire.{data_pdu, write_wire}
use rinasensev.Outbound.Loopback.{write_loopback_fault}
use rinasensev.Stack.{World, written}
use rinasensev.Tests.{
  counting, agreeing, data_header, frame, connected, n1, running, one_differs, looping,
  connected-IsInByte, data_unit, data_unit-header,
}

sendable : IsSendable data_unit
unfolding Pci.is_ok Pci.pdu_type_is_ok
sendable = (data_header, data_unit-header, refl)

send_all-Sent_example :
    Sent counting agreeing n1
      (data_unit ∷ data_unit ∷ [])
      running
      (send_all counting agreeing running (data_unit ∷ data_unit ∷ []))
send_all-Sent_example =
    send_all-Sent counting agreeing running n1 (data_unit ∷ data_unit ∷ []) refl (refl, refl, refl)
      (omega arith) (omega arith) (sendable, (sendable, tt))

write_wire_example :
    (c : NetBuffer) × (w' : World counting) × (write counting agreeing running true 0 connected
        (record { buffer = some frame; pci_at = none })
      ≡ some (true, w'))
    × (w'.log ≡ written 4 (record { buffer = some c; pci_at = some 0 }) ∷ [])
    × (Pci.cast c.ethernet ≡ data_pdu connected.connection true 16 1)
    × (drop pci_size c.ethernet ≡ take 16 frame.ethernet)
    × (w'.instances
        ≡ some (record connected { sv = record connected.sv { next_seq_number_to_send = 1 } }) ∷ [])
write_wire_example =
    write_wire counting agreeing running 0 connected frame none 2 n1 refl refl (refl, refl, refl)
      connected-IsInByte one_differs

write_loopback_fault_example :
    write counting agreeing running true 0 looping (record { buffer = some frame; pci_at = none })
    ≡ none
write_loopback_fault_example =
    write_loopback_fault counting agreeing running true 0 looping frame none 2 refl refl
