-- ===== src/Tests/Applications.antt =====
-- The start of the stack, and an application that writes on port 6.
use rinasensev.Prelude.{ℕ, ◌≡◌, ◌≢◌, refl, true, none, some, List, [], ◌∷◌, drop, arith}
use rinasensev.Memory.{plenty}
use rinasensev.Pci
use rinasensev.Pci.{pci_size}
use rinasensev.Du.{NetBuffer}
use rinasensev.Efcp
use rinasensev.Outbound.Wire.{data_pdu}
use rinasensev.Stack.{World, written}
use rinasensev.Normal.{NormalFlow, allocated, stack_tx}
use rinasensev.Manager.{
  Manager, normal, shim_802154, init, init_rina_stack, find_instance_by_id, active_normal_instance,
  active_shim_instance,
}
use rinasensev.Manager.Start.{stack_is_found}
use rinasensev.Api.{Event, flow_write}
use rinasensev.Api.Write.{written_data_goes_out}
use rinasensev.Tests.{
  counting, agreeing, running, n1, connected, rows, frame, connected-IsInByte, one_differs,
}

stack_is_found_example :
    (mgr : Manager) × (mgr' : Manager) × (i : ℕ) × (j : ℕ) × (init true true true true true true
      ≡ some (some mgr))
    × ((id : ℕ) → find_instance_by_id mgr id ≡ none)
    × (init_rina_stack true true true true (plenty 9 []) mgr ≡ some (true, [], mgr'))
    × (i ≢ j)
    × (active_normal_instance mgr' ≡ some (record { id = i; type = normal }))
    × (active_shim_instance mgr' ≡ some (record { id = j; type = shim_802154 }))
    × (find_instance_by_id mgr' i ≡ active_normal_instance mgr')
    × (find_instance_by_id mgr' j ≡ active_shim_instance mgr')
    × ((id : ℕ) → i ≢ id → j ≢ id → find_instance_by_id mgr' id ≡ none)
stack_is_found_example = stack_is_found [] true

abbrev flows : List NormalFlow
flows = record { port_id = 6; active = 1; state = allocated } ∷ []

written_data_goes_out_example :
    (b : NetBuffer) × (w2 : World counting) × (c : NetBuffer) × (flow_write counting true true true
        3 6
        (10 ∷ 20 ∷ [])
        2
        frame
      ≡ some (2, some (Event.transmit 6 b), 2))
    × (stack_tx counting agreeing (record running { pool = 2 }) true flows 6 b ≡ some w2)
    × (w2.log ≡ written 4 (record { buffer = some c; pci_at = some 0 }) ∷ [])
    × (Pci.cast c.ethernet ≡ data_pdu connected.connection true 2 1)
    × (drop pci_size c.ethernet ≡ 10 ∷ 20 ∷ [])
unfolding Efcp.imap_find
written_data_goes_out_example =
    written_data_goes_out counting agreeing running flows 6 1 (10 ∷ 20 ∷ []) 2 frame 2 1
      (record { port_id = 6; active = 1; state = allocated }) 0 connected rows n1 (omega arith) refl
      refl refl refl refl refl refl refl refl connected-IsInByte one_differs refl refl
      (refl, refl, refl)
