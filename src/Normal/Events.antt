-- ===== src/Normal/Events.antt =====
-- The case of eStackRxEvent in components/Ipcp/IPCP_task.c, over xNormalDuEnqueue of
-- components/Ipcp/IPCP_ops.c.
use rinasensev.Prelude.{ℕ, ◌≡◌, refl, ◌∙◌, true, false, some, ◌∷◌}
use rinasensev.Buffers.{Buffers}
use rinasensev.Pci
use rinasensev.Pci.{Pci, pci_size}
use rinasensev.Du.{NetBuffer, sub_size}
use rinasensev.Du.Decap.{arrived, header_at, decapsulated}
use rinasensev.Dtp.{discard}
use rinasensev.Rmt.{dispatch, receive}
use rinasensev.Rmt.Receive.{is_valid, counted, receive-dispatch}
use rinasensev.Stack.{N1Port, World, Env, freed}
use rinasensev.Normal.{du_enqueue, stack_rx}

module _ (bm : Buffers) where
  -- A data unit that the task takes from its queue, of a known type but with an address or a QoS id
  -- that is not valid, where an N-1 port is bound and there is a buffer for xDuDecap, is destroyed
  -- in the RMT, which answers `false`; the task then destroys the same data unit again.
  pub stack_rx_twice :
      (env : Env) (w : World bm) (port : N1Port) (b : NetBuffer) (at : ℕ) (pool : bm.Pool)
      → w.n1_port ≡ some port
      → Pci.pdu_type_is_ok (header_at b at).pdu_type ≡ true
      → is_valid (header_at b at) ≡ false
      → bm.get w.pool (sub_size b.rina_length pci_size) ≡ some pool
      → (w1 : World bm) × (w2 : World bm) × (du_enqueue bm env w true 1 (arrived b at)
          ≡ some (false, w1))
        × (w1.log ≡ freed (decapsulated b at) ∷ w.log)
        × (stack_rx bm env w true (arrived b at) ≡ some w2)
        × (w2.log ≡ freed (arrived b at) ∷ freed (decapsulated b at) ∷ w.log)
  unfolding stack_rx du_enqueue dispatch discard
  stack_rx_twice env w port b at pool bound known bad memory =
      let start = counted bm w port b pool in
      let went : receive bm env w true (arrived b at) 1
          ≡ some (false, discard bm start (decapsulated b at)) =
        receive-dispatch bm env w port b at 1 pool bound refl known memory ∙ rw bad refl in
      (
        discard bm start (decapsulated b at),
        discard bm (discard bm start (decapsulated b at)) (arrived b at),
        went,
        refl,
        rw went refl,
        refl,
      )
