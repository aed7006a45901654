-- ===== src/Normal/Delivery.antt =====
-- A management PDU from one IPC process to the RIB daemon of another: xNormalMgmtDuWrite and
-- xNormalDuEnqueue in components/Ipcp/IPCP_ops.c, and the two shims between them.
use rinasensev.Prelude.{
  ℕ, ◌+◌, ◌≤◌, ◌≡◌, refl, ap, ◌∙◌, true, false, ◌==◌, Option, some, ◌∷◌, length, take, arith,
}
use rinasensev.Memory.{Memory, plenty}
use rinasensev.Buffers.{Buffers}
use rinasensev.Gpha.{Gha, Bytes}
use rinasensev.Pci
use rinasensev.Pci.{Pci, pci_size}
use rinasensev.Du.{NetBuffer, Du, opened, add_size, sub_size}
use rinasensev.Du.Decap.{arrived}
use rinasensev.Rmt.{process_mgmt_pdu, dispatch}
use rinasensev.Rmt.Send.{IsReady, sent}
use rinasensev.Rmt.Receive.{counted, receive-dispatch}
use rinasensev.Stack.{N1Port, World, Env, managed, written}
use rinasensev.Shim.{ShimFlow, Shim, with_memory, find_in}
use rinasensev.Shim.Flow.{Outside}
use rinasensev.Shim.Frames.{
  mtu, ethernet_header_size, frame_buffer, sdu_write, process_ethernet_packet,
}
use rinasensev.Shim.Wire.{
  CanWrite, sdu_write-CanWrite, process_rina_frame, network_field-frame_bytes,
}
use rinasensev.Normal.{mgmt_header, mgmt_du_write, du_enqueue, data_of}
use rinasensev.Normal.Management.{
  framed, outgoing_du, mgmt_du_write-IsReady, delivered_frame, opened_frame, header_lem, data_lem,
}

-- The data unit of a management PDU once it is through xDuDecap.
abbrev pub opened_du : Gha → Bytes → NetBuffer → Du
opened_du h phy b = record {
  buffer = some (opened_frame h phy b);
  pci_at = some ethernet_header_size;
}

module _ (bm : Buffers) where
  dispatch-mgmt_header :
      (env : Env) (w : World bm) (from size : ℕ) (du : Du)
      → dispatch bm env w from (mgmt_header size) du ≡ some (process_mgmt_pdu bm env w from du)
  unfolding dispatch mgmt_header Pci.pdu_type_is_ok
  dispatch-mgmt_header env w from size du = refl

  -- The IPC process that gets the frame of a management PDU, once it is through the RMT.
  abbrev pub managing : World bm → N1Port → bm.Pool → Gha → Bytes → NetBuffer → World bm
  managing w port pool h phy b = record (counted bm w port (delivered_frame h phy b) pool) {
    log = managed 1 (opened_du h phy b) ∷ w.log;
  }

  du_enqueue-mgmt :
      (env : Env) (w : World bm) (port : N1Port) (pool : bm.Pool) (h : Gha) (phy : Bytes)
      (b : NetBuffer)
      → length h.mac ≡ 6
      → length phy ≡ 6
      → b.data_length + pci_size ≤ mtu
      → w.n1_port ≡ some port
      → bm.get w.pool b.data_length ≡ some pool
      → du_enqueue bm env w true 1 (arrived (delivered_frame h phy b) ethernet_header_size)
        ≡ some (env.normal_mgmt_du_post 1 (opened_du h phy b), managing w port pool h phy b)
  unfolding du_enqueue process_mgmt_pdu opened mgmt_header Pci.pdu_type_is_ok
  du_enqueue-mgmt env w port pool h phy b six phy6 small bound memory =
      let d = delivered_frame h phy b in
      let header = header_lem h phy b six phy6 small in
      let known = ap (λ p. Pci.pdu_type_is_ok (Pci.pdu_type p)) header in
      let len : sub_size d.rina_length pci_size ≡ b.data_length = omega (arith, small) in
      receive-dispatch bm env w port d ethernet_header_size 1 pool bound refl known
        (ap (bm.get w.pool) len ∙ memory)
      ∙ ap (λ p. dispatch bm env (counted bm w port d pool) 1 p (opened_du h phy b)) header
      ∙ dispatch-mgmt_header env (counted bm w port d pool) 1 _ (opened_du h phy b)

  delivered_lem :
      (o : Outside) (pool : bm.Pool) (s : Shim) (m : Memory) (h : Gha) (phy : Bytes) (b : NetBuffer)
      → length h.mac ≡ 6
      → length phy ≡ 6
      → s.arp.memory ≡ true ∷ m
      → process_ethernet_packet bm o pool s
          (frame_buffer h.mac phy (add_size b.data_length pci_size) (framed b).ethernet)
          (ethernet_header_size + add_size b.data_length pci_size)
        ≡ some (
          record {
            delivered = some (arrived (delivered_frame h phy b) ethernet_header_size);
            announced = false;
          },
          pool,
          with_memory m s,
        )
  delivered_lem o pool s m h phy b six phy6 memory =
      let size = add_size b.data_length pci_size in
      let bytes = (framed b).ethernet in
      process_rina_frame bm o pool s m (frame_buffer h.mac phy size bytes)
        (ethernet_header_size + size) memory (omega arith)
        (network_field-frame_bytes h.mac phy size bytes six phy6)

  -- A buffer that is handed to mgmt_du_write for an N-1 port other than 0, where a buffer of its
  -- size and the header's is at hand, the N-1 port has nothing queued, is not busy and not disabled
  -- and the frame is at most MTU bytes, is written to the N-1 port once, and the call answers
  -- `true`. The shim below it, with two blocks, a MAC address of six bytes, a buffer for the frame
  -- and a flow of that port that can be written and whose destination is known, makes a frame of
  -- it. The shim that gets the frame, with a block, delivers a data unit; the normal IPC process
  -- above that one, with an N-1 port and a buffer for xDuDecap, hands it to layer management once,
  -- and answers what that answers. What layer management finds in the data of the buffer is the
  -- bytes that were handed to mgmt_du_write.
  pub mgmt_du_arrives :
      (env : Env) (w : World bm) (n1 : ℕ) (b : NetBuffer) (at : Option ℕ) (pool pool1 : bm.Pool)
      (port : N1Port) (s : Shim) (m : Memory) (f : ShimFlow) (h : Gha) (o : Outside) (env' : Env)
      (w' : World bm) (pool' : bm.Pool) (port' : N1Port) (s' : Shim) (m' : Memory)
      → (n1 == 0) ≡ false
      → bm.get w.pool (add_size b.data_length pci_size) ≡ some pool
      → w.n1_port ≡ some port
      → IsReady port
      → b.data_length + pci_size ≤ mtu
      → s.arp.memory ≡ plenty 2 m
      → find_in s.flows port.port_id ≡ some (some f)
      → CanWrite f h
      → length s.phy_dev ≡ 6
      → bm.get (bm.release pool) (ethernet_header_size + add_size b.data_length pci_size)
        ≡ some pool1
      → s'.arp.memory ≡ true ∷ m'
      → w'.n1_port ≡ some port'
      → bm.get w'.pool b.data_length ≡ some pool'
      → (w1 : World bm) × (sdu : Du) × (frame : NetBuffer) × (unit : Du) × (w2 : World bm)
        × (du : Du) × (c : NetBuffer) × (mgmt_du_write bm env w true n1
              (some (record { buffer = some b; pci_at = at }))
            ≡ some (true, w1))
        × (w1.log ≡ written port.port_id sdu ∷ w.log)
        × (sdu_write bm true w1.pool s port.port_id sdu
            ≡ some (true, some frame, bm.release pool1, with_memory m s))
        × (process_ethernet_packet bm o w'.pool s' frame frame.data_length
            ≡ some
                (record { delivered = some unit; announced = false }, w'.pool, with_memory m' s'))
        × (du_enqueue bm env' w' true 1 unit ≡ some (env'.normal_mgmt_du_post 1 du, w2))
        × (w2.log ≡ managed 1 du ∷ w'.log)
        × (du.buffer ≡ some c)
        × (data_of c ≡ take b.data_length b.ethernet)
  mgmt_du_arrives env w n1 b at pool pool1 port s m f h o env' w' pool' port' s' m' real memory
        bound ready small mem found can phy got mem' bound' memory' =
      let six = can.2 in
      let fits : add_size b.data_length pci_size ≤ mtu = omega (arith, small) in
      (
        record w {
          pool = bm.release pool;
          n1_port = some (sent bm env port (outgoing_du b));
          log = written port.port_id (outgoing_du b) ∷ w.log;
        },
        outgoing_du b,
        frame_buffer h.mac s.phy_dev (add_size b.data_length pci_size) (framed b).ethernet,
        arrived (delivered_frame h s.phy_dev b) ethernet_header_size,
        managing w' port' pool' h s.phy_dev b,
        opened_du h s.phy_dev b,
        opened_frame h s.phy_dev b,
        mgmt_du_write-IsReady bm env w n1 b at pool port memory bound ready real,
        refl,
        sdu_write-CanWrite bm (bm.release pool) pool1 s m port.port_id f h (framed b) (some 0) mem
            fits found can got,
        delivered_lem o w'.pool s' m' h s.phy_dev b six phy mem',
        du_enqueue-mgmt env' w' port' pool' h s.phy_dev b six phy small bound' memory',
        refl,
        refl,
        data_lem h s.phy_dev b six phy small,
      )
