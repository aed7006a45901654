-- ===== src/Normal/Management.antt =====
-- xNormalMgmtDuWrite in components/Ipcp/IPCP_ops.c on a port that takes a data unit at once, and
-- the bytes of the PDU in the frame that the shim at the other end gets.
use rinasensev.Prelude.{
  ℕ, ◌+◌, ◌-◌, ◌≤◌, ◌≡◌, refl, ap, ◌∙◌, true, false, ◌==◌, Option, none, some, ◌∷◌, ◌++◌, length,
  take, drop, take-take, take-append_above, drop-drop, arith,
}
use rinasensev.Buffers.{Buffers}
use rinasensev.Gpha.{Gha, Bytes}
use rinasensev.Pci
use rinasensev.Pci.{Pci, pci_size}
use rinasensev.Pci.Roundtrip.{IsInRange, cast-to_bytes}
use rinasensev.Du.{NetBuffer, Du, closed, store_pci, add_size, sub_size}
use rinasensev.Du.Decap.{header_at}
use rinasensev.Outbound.Wire.{encap-closed}
use rinasensev.Rmt.Send.{IsReady, sent, send_port_id_ready}
use rinasensev.Stack.{N1Port, World, Env, written}
use rinasensev.Shim.Frames.{mtu, ethernet_header_size, frame_buffer}
use rinasensev.Shim.Wire.{payload-frame_bytes}
use rinasensev.Normal.{mgmt_header, mgmt_du_write, data_of}

pub mgmt_header-IsInRange : (size : ℕ) → IsInRange (mgmt_header size)
unfolding mgmt_header
mgmt_header-IsInRange size = record {
  version = omega arith;
  destination = omega arith;
  source = omega arith;
  qos_id = omega arith;
  cep_destination = omega arith;
  cep_source = omega arith;
  pdu_type = omega arith;
  flags = omega arith;
  pdu_len = omega arith;
  sequence_number = omega arith;
}

-- The header of a management PDU with the data of a buffer, and what goes out.
abbrev pub outgoing : NetBuffer → Pci
outgoing b = mgmt_header (add_size b.data_length pci_size)

abbrev pub framed : NetBuffer → NetBuffer
framed b = record {
  ethernet = Pci.to_bytes (outgoing b) ++ take b.data_length b.ethernet;
  rina_offset = none;
  data_offset = 0;
  rina_length = 0;
  data_length = add_size b.data_length pci_size;
}

abbrev pub outgoing_du : NetBuffer → Du
outgoing_du b = record { buffer = some (framed b); pci_at = some 0 }

module _ (bm : Buffers) where
  pub mgmt_du_write-IsReady :
      (env : Env) (w : World bm) (n1 : ℕ) (b : NetBuffer) (at : Option ℕ) (pool : bm.Pool)
      (port : N1Port)
      → bm.get w.pool (add_size b.data_length pci_size) ≡ some pool
      → w.n1_port ≡ some port
      → IsReady port
      → (n1 == 0) ≡ false
      → mgmt_du_write bm env w true n1 (some (record { buffer = some b; pci_at = at }))
        ≡ some (
          true,
          record w {
            pool = bm.release pool;
            n1_port = some (sent bm env port (outgoing_du b));
            log = written port.port_id (outgoing_du b) ∷ w.log;
          },
        )
  unfolding mgmt_du_write closed store_pci
  mgmt_du_write-IsReady env w n1 b at pool port memory bound ready real =
      rw (encap-closed bm w.pool pool b at memory, real)
        (ap some (
          send_port_id_ready bm env (record w { pool = bm.release pool }) port (outgoing_du b) bound
            ready))

-- The data unit that the shim at the other end delivers, from the frame of `outgoing_du b`.
abbrev pub delivered_frame : Gha → Bytes → NetBuffer → NetBuffer
delivered_frame h phy b =
    record (frame_buffer h.mac phy (add_size b.data_length pci_size) (framed b).ethernet) {
      rina_offset = some ethernet_header_size;
      rina_length = ethernet_header_size + add_size b.data_length pci_size - ethernet_header_size;
    }

size_of_to_bytes : (p : Pci) → pci_size ≡ length (Pci.to_bytes p)
unfolding Pci.to_bytes
size_of_to_bytes p = refl

-- The RINA part of that frame is the whole PDU.
pub rina_part_lem :
    (h : Gha) (phy : Bytes) (b : NetBuffer)
    → length h.mac ≡ 6
    → length phy ≡ 6
    → b.data_length + pci_size ≤ mtu
    → drop ethernet_header_size (delivered_frame h phy b).ethernet
      ≡ Pci.to_bytes (outgoing b) ++ take b.data_length b.ethernet
rina_part_lem h phy b six phy6 small =
    let head = Pci.to_bytes (outgoing b) in
    let body = take b.data_length b.ethernet in
    let total : add_size b.data_length pci_size ≡ pci_size + b.data_length = omega (arith, small) in
    payload-frame_bytes h.mac phy (add_size b.data_length pci_size) (framed b).ethernet six phy6
    ∙ ap (λ n. take n (head ++ body)) total
    ∙ take-append_above pci_size b.data_length head body (size_of_to_bytes (outgoing b))
    ∙ ap (λ t. head ++ t) (take-take b.data_length b.ethernet)

pub header_lem :
    (h : Gha) (phy : Bytes) (b : NetBuffer)
    → length h.mac ≡ 6
    → length phy ≡ 6
    → b.data_length + pci_size ≤ mtu
    → header_at (delivered_frame h phy b) ethernet_header_size ≡ outgoing b
header_lem h phy b six phy6 small =
    ap Pci.cast (rina_part_lem h phy b six phy6 small)
    ∙ (cast-to_bytes (outgoing b) (take b.data_length b.ethernet) (mgmt_header-IsInRange _)).0

-- The buffer once xDuDecap is through.
abbrev pub opened_frame : Gha → Bytes → NetBuffer → NetBuffer
opened_frame h phy b = record (delivered_frame h phy b) {
  data_offset = ethernet_header_size + pci_size;
  data_length = sub_size (delivered_frame h phy b).rina_length pci_size;
}

pub data_lem :
    (h : Gha) (phy : Bytes) (b : NetBuffer)
    → length h.mac ≡ 6
    → length phy ≡ 6
    → b.data_length + pci_size ≤ mtu
    → data_of (opened_frame h phy b) ≡ take b.data_length b.ethernet
data_lem h phy b six phy6 small =
    let len : (opened_frame h phy b).data_length ≡ b.data_length = omega (arith, small) in
    let bytes = (delivered_frame h phy b).ethernet in
    ap (λ n. take n (drop (ethernet_header_size + pci_size) bytes)) len
    ∙ ap (take b.data_length) (
        drop-drop ethernet_header_size pci_size bytes
        ∙ ap (drop pci_size) (rina_part_lem h phy b six phy6 small)
        ∙ (cast-to_bytes (outgoing b) _ (mgmt_header-IsInRange _)).1)
    ∙ take-take b.data_length b.ethernet
