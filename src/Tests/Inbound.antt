-- ===== src/Tests/Inbound.antt =====
-- Data units that arrive.
use rinasensev.Prelude.{◌≡◌, refl, true, none, [], ◌∷◌, arith}
use rinasensev.Pci
use rinasensev.Pci.{Pci, pci_size, pdu_type_dt}
use rinasensev.Du.Decap.{arrived, header_at, decapsulated}
use rinasensev.Dtp.Window.{
  delivered, after, numbered, AllAbove, delivered_in_order, delivered_above_edge,
}
use rinasensev.Efcp.{imap_find, container_receive}
use rinasensev.Efcp.Receive.{Ends}
use rinasensev.Efcp.Connections.{HasDestination, container_receive-HasDestination}
use rinasensev.Rmt.{receive}
use rinasensev.Rmt.Receive.{
  course, drained, LeavesAvailable, receive_fault, receive-Ends, receive-LeavesAvailable,
}
use rinasensev.Tests.{
  counting, agreeing, data_header, frame, connected, n1, running, exhausted, running-IsLive,
  nine_differs, awaiting-flag, begun, data_unit, data_unit-header,
}

receive-Ends_example :
    Ends
      (decapsulated frame 0)
      (course counting running 4 (header_at frame 0))
      (record running { pool = 2 })
      (receive counting agreeing running true (arrived frame 0) 4)
unfolding Pci.cast Pci.pdu_type_is_ok
receive-Ends_example =
    receive-Ends counting agreeing running n1 frame 0 4 2 running-IsLive refl refl refl refl

receive-LeavesAvailable_example :
    LeavesAvailable counting 3
      (drained counting (course counting running 4 (header_at frame 0)))
      (receive counting agreeing running true (arrived frame 0) 4)
unfolding Pci.cast Pci.pdu_type_is_ok
receive-LeavesAvailable_example =
    receive-LeavesAvailable counting agreeing running n1 frame 0 4 2 running-IsLive refl refl refl
      refl

receive_fault_example : receive counting agreeing exhausted true (arrived frame 0) 4 ≡ none
unfolding Pci.cast Pci.pdu_type_is_ok
receive_fault_example = receive_fault counting agreeing exhausted n1 frame 0 4 refl refl refl refl

delivered_in_order_example :
    (delivered connected.sv (numbered data_header 5 3) ≡ 5 ∷ 6 ∷ 7 ∷ [])
    × ((after connected.sv (numbered data_header 5 3)).rcv_left_window_edge ≡ 7)
delivered_in_order_example =
    delivered_in_order connected.sv data_header 5 2 refl awaiting-flag (omega arith)

delivered_above_edge_example : AllAbove 5 (delivered begun (numbered data_header 4 3))
delivered_above_edge_example =
    delivered_above_edge begun (numbered data_header 4 3) refl
      (omega arith, (omega arith, (omega arith, tt)))

container_receive-HasDestination_example :
    HasDestination counting 0 1 (container_receive counting agreeing running 1 data_unit)
unfolding imap_find
container_receive-HasDestination_example =
    container_receive-HasDestination counting agreeing running 1 0 connected data_unit data_header
      running-IsLive refl refl refl refl data_unit-header refl nine_differs
