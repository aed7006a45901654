-- ===== src/Shim/Wire.antt =====
-- From one shim to another: a data unit that xShimSDUWrite in components/Shim/WiFi/wifi_IPCP_ops.c
-- puts into a frame, and prvProcessEthernetPacket in components/Shim/WiFi/wifi_IPCP_ethernet.c on
-- it.
use rinasensev.Prelude.{
  ℕ, ◌+◌, ◌-◌, ◌≤◌, ◌≡◌, refl, ap, ◌∙◌, sym, true, false, le→ltb, Option, some, ◌∷◌, ◌++◌, length,
  take, drop, get_or, get_or-append_above, drop-append, length-append, append_assoc, take-append,
  take-take, ◌>>=◌, arith,
}
use rinasensev.Memory.{Memory, plenty}
use rinasensev.Buffers.{Buffers}
use rinasensev.Gpha.{Gha, Bytes}
use rinasensev.Arp.Packet.{eth_p_rina}
use rinasensev.Du.{Du, NetBuffer, destroy}
use rinasensev.Shim.{to, allocated, ShimFlow, Shim, with_memory, find_in, find_flow_by_port_id}
use rinasensev.Shim.Flow.{Outside}
use rinasensev.Shim.Frames.{
  mtu, ethernet_header_size, network_bytes, network_field, frame_bytes, frame_buffer, unit_of,
  sdu_write, process_ethernet_packet,
}

-- The RINA part of a data unit: what the RMT reads.
abbrev pub rina_part : Du → Option Bytes
rina_part du = do b ← du.buffer; at ← b.rina_offset; some (take b.rina_length (drop at b.ethernet))

-- The type of a frame and its payload, behind two addresses of six bytes.
pub network_field-frame_bytes :
    (dest src : Bytes) (len : ℕ) (bytes : Bytes)
    → length dest ≡ 6
    → length src ≡ 6
    → network_field 12 (frame_bytes dest src len bytes) ≡ eth_p_rina
network_field-frame_bytes dest src len bytes hd hs =
    let behind = network_bytes eth_p_rina ++ take len bytes in
    let field = λ (i : ℕ) (k : ℕ). get_or (dest ++ (src ++ behind)) (12 + i) 0 in
    let at12 =
      get_or-append_above 12 6 dest (src ++ behind) 0 (omega (arith, hd))
      ∙ get_or-append_above 6 0 src behind 0 (omega (arith, hs)) in
    let at13 =
      get_or-append_above 13 7 dest (src ++ behind) 0 (omega (arith, hd))
      ∙ get_or-append_above 7 1 src behind 0 (omega (arith, hs)) in
    rw (at12, at13) refl

pub payload-frame_bytes :
    (dest src : Bytes) (len : ℕ) (bytes : Bytes)
    → length dest ≡ 6
    → length src ≡ 6
    → drop ethernet_header_size (frame_bytes dest src len bytes) ≡ take len bytes
payload-frame_bytes dest src len bytes hd hs =
    let type = network_bytes eth_p_rina in
    let regrouped : frame_bytes dest src len bytes ≡ ((dest ++ src) ++ type) ++ take len bytes =
      simp append_assoc in
    ap (drop ethernet_header_size) regrouped
    ∙ drop-append ethernet_header_size ((dest ++ src) ++ type) (take len bytes)
        (omega (arith, length-append (dest ++ src) type, length-append dest src, hd, hs))

-- A flow that can be written to: its destination is known.
abbrev pub CanWrite : ShimFlow → Gha → Type 0
CanWrite f h = (f.state ≡ allocated) × (f.dest_ha ≡ to h) × (length h.mac ≡ 6)

module _ (bm : Buffers) where
  open bm use {Pool, get, release}

  -- The frame of a data unit and what is left where it was written.
  pub sdu_write-CanWrite :
      (pool pool1 : Pool) (s : Shim) (m : Memory) (port : ℕ) (f : ShimFlow) (h : Gha)
      (b : NetBuffer) (at : Option ℕ)
      → s.arp.memory ≡ plenty 2 m
      → b.data_length ≤ mtu
      → find_in s.flows port ≡ some (some f)
      → CanWrite f h
      → get pool (ethernet_header_size + b.data_length) ≡ some pool1
      → sdu_write bm true pool s port (record { buffer = some b; pci_at = at })
        ≡ some (
          true,
          some (frame_buffer h.mac s.phy_dev b.data_length b.ethernet),
          release pool1,
          with_memory m s,
        )
  unfolding sdu_write find_flow_by_port_id destroy
  sdu_write-CanWrite pool pool1 s m port f h b at memory small found (state, ha, _) got =
      rw (le→ltb mtu b.data_length small, memory, found, state, ha, got) refl

  pub process_rina_frame :
      (o : Outside) (pool : Pool) (s : Shim) (m : Memory) (b : NetBuffer) (n : ℕ)
      → s.arp.memory ≡ true ∷ m
      → ethernet_header_size ≤ n
      → network_field 12 b.ethernet ≡ eth_p_rina
      → process_ethernet_packet bm o pool s b n
        ≡ some (record { delivered = some (unit_of b n); announced = false }, pool, with_memory m s)
  unfolding process_ethernet_packet
  process_rina_frame o pool s m b n memory long type =
      rw (le→ltb n ethernet_header_size long, type, memory) refl

  -- A data unit of at most MTU bytes that is written to an allocated flow, whose destination is
  -- known, leaves in a frame to the flow's MAC address, with two blocks and a buffer at hand and
  -- where the task takes the event; the data unit's own buffer is given back. The shim that gets
  -- the frame, with a block at hand, delivers a data unit whose RINA part is the bytes that were
  -- written; it takes no buffer for it and announces no flow.
  pub written_is_received :
      (pool pool1 : Pool) (s : Shim) (m : Memory) (port : ℕ) (f : ShimFlow) (h : Gha)
      (b : NetBuffer) (at : Option ℕ) (o : Outside) (pool' : Pool) (s' : Shim) (m' : Memory)
      → s.arp.memory ≡ plenty 2 m
      → b.data_length ≤ mtu
      → find_in s.flows port ≡ some (some f)
      → CanWrite f h
      → length s.phy_dev ≡ 6
      → get pool (ethernet_header_size + b.data_length) ≡ some pool1
      → s'.arp.memory ≡ true ∷ m'
      → (frame : NetBuffer) × (du : Du) × (sdu_write bm true pool s port
            (record { buffer = some b; pci_at = at })
          ≡ some (true, some frame, release pool1, with_memory m s))
        × (take 6 frame.ethernet ≡ h.mac)
        × (process_ethernet_packet bm o pool' s' frame frame.data_length
            ≡ some (record { delivered = some du; announced = false }, pool', with_memory m' s'))
        × (rina_part du ≡ some (take b.data_length b.ethernet))
  written_is_received pool pool1 s m port f h b at o pool' s' m' mem small found can phy got mem' =
      let len = b.data_length in
      let frame = frame_buffer h.mac s.phy_dev len b.ethernet in
      let six = can.2 in
      let type = network_field-frame_bytes h.mac s.phy_dev len b.ethernet six phy in
      let payload = payload-frame_bytes h.mac s.phy_dev len b.ethernet six phy in
      let whole : ethernet_header_size + len - ethernet_header_size ≡ len = omega arith in
      (
        frame,
        unit_of frame (ethernet_header_size + len),
        sdu_write-CanWrite pool pool1 s m port f h b at mem small found can got,
        take-append 6 h.mac (s.phy_dev ++ (network_bytes eth_p_rina ++ take len b.ethernet))
            (sym six),
        process_rina_frame o pool' s' m' frame (ethernet_header_size + len) mem' (omega arith) type,
        rw (payload, whole) (ap some (take-take len b.ethernet)),
      )
