-- ===== src/Outbound/Loopback.antt =====
-- Connections of this IPC process to itself, and data units for which there is no buffer.
use rinasensev.Prelude.{ℕ, ◌≡◌, refl, Bool, true, false, ◌==◌, ==_refl, Option, none, some}
use rinasensev.Buffers.{Buffers}
use rinasensev.Pci
use rinasensev.Pci.{pci_size}
use rinasensev.Du
use rinasensev.Du.{NetBuffer, Du, closed, store_pci, add_size}
use rinasensev.Dtp.{discard}
use rinasensev.Outbound.{header, sealed, pdu_send, loop_back, after_encap, write}
use rinasensev.Outbound.Wire.{encap-closed}
use rinasensev.Stack.{Efcp, World, Env}

module _ (bm : Buffers) where
  -- A data unit that is written on a connection of this IPC process to itself makes the code read a
  -- header through a NULL pointer, whenever there is a buffer for its encapsulation: the frame that
  -- xDuEncap builds has no pucRinaBuffer, from which xDuDecap takes the header.
  pub write_loopback_fault :
      (env : Env) (w : World bm) (has_rmt : Bool) (i : ℕ) (e : Efcp) (b : NetBuffer) (at : Option ℕ)
      (pool : bm.Pool)
      → bm.get w.pool (add_size b.data_length pci_size) ≡ some pool
      → e.connection.source_address ≡ e.connection.destination_address
      → write bm env w has_rmt i e (record { buffer = some b; pci_at = at }) ≡ none
  unfolding write after_encap pdu_send loop_back closed sealed store_pci header Pci.is_ok
      Pci.pdu_type_is_ok Du.decap
  write_loopback_fault env w has_rmt i e b at pool memory same =
      rw (encap-closed bm w.pool pool b at memory) (rw (same_test e same) refl)
    where
      same_test :
          (e : Efcp)
          → e.connection.source_address ≡ e.connection.destination_address
          → (e.connection.source_address == e.connection.destination_address) ≡ true
      same_test e s = rw s (==_refl e.connection.destination_address)

  -- Without a buffer for its encapsulation the data unit is destroyed and nothing is sent.
  pub write_no_memory :
      (env : Env) (w : World bm) (has_rmt : Bool) (i : ℕ) (e : Efcp) (b : NetBuffer) (at : Option ℕ)
      → bm.get w.pool (add_size b.data_length pci_size) ≡ none
      → write bm env w has_rmt i e (record { buffer = some b; pci_at = at })
        ≡ some (false, discard bm w (record { buffer = some b; pci_at = at }))
  unfolding write after_encap Du.encap
  write_no_memory env w has_rmt i e b at no_memory = rw (no_memory, Du.encap) refl
