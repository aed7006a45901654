-- ===== src/Shim/Frames.antt =====
-- The frames of the shim IPC process: xShimSDUWrite in components/Shim/WiFi/wifi_IPCP_ops.c, and
-- components/Shim/WiFi/wifi_IPCP_ethernet.c in the build without linked messages. The pool of
-- network buffers is a parameter.
use rinasensev.Prelude.{
  ℕ, ◌+◌, ◌-◌, ◌*◌, ◌/◌, ◌%◌, Bool, true, false, not, ◌||◌, ◌==◌, ltb, if◌then◌else◌, Option, none,
  some, [], ◌∷◌, ◌++◌, take, drop, get_or, ◌>>=◌,
}
use rinasensev.Memory.{alloc}
use rinasensev.Buffers.{Buffers}
use rinasensev.Gpha.{Gha, Bytes}
use rinasensev.Arp.Packet.{
  Frame, FrameResult, release_buffer, process_buffer, return_ethernet_frame, eth_p_rina,
  eth_p_rina_arp, process_packet,
}
use rinasensev.Du.{Du, NetBuffer, destroy}
use rinasensev.Shim.{Pointer, null, wild, to, ShimFlow, Shim, with_memory, find_flow_by_port_id}
use rinasensev.Shim.Flow.{Outside, is_pending, flow_allocate_response}

abbrev pub mtu : ℕ
mtu = 1500

-- sizeof(EthernetHeader_t) and sizeof(ARPPacket_t).
abbrev pub ethernet_header_size : ℕ
ethernet_header_size = 14

abbrev pub arp_packet_size : ℕ
arp_packet_size = 22

-- The two bytes of a field of 16 bits in network order.
abbrev pub network_bytes : ℕ → Bytes
network_bytes n = n / 256 % 256 ∷ n % 256 ∷ []

-- RsNtoHS of the field of 16 bits at an offset.
abbrev pub network_field : ℕ → Bytes → ℕ
network_field at bytes = get_or bytes at 0 * 256 + get_or bytes (at + 1) 0

-- The same field as the processor reads it.
abbrev pub host_field : ℕ → Bytes → ℕ
host_field at bytes = get_or bytes at 0 + get_or bytes (at + 1) 0 * 256

-- The frame around the first `len` bytes of a data unit.
abbrev pub frame_bytes : Bytes → Bytes → ℕ → Bytes → Bytes
frame_bytes dest src len bytes = dest ++ (src ++ (network_bytes eth_p_rina ++ take len bytes))

abbrev pub frame_buffer : Bytes → Bytes → ℕ → Bytes → NetBuffer
frame_buffer dest src len bytes = record {
  ethernet = frame_bytes dest src len bytes;
  rina_offset = none;
  data_offset = 0;
  rina_length = 0;
  data_length = ethernet_header_size + len;
}

-- ARPPacket_t over the bytes of a buffer.
abbrev pub cast_arp : Bytes → Frame
cast_arp bytes = record {
  destination = take 6 bytes;
  source = take 6 (drop 6 bytes);
  frame_type = host_field 12 bytes;
  htype = host_field 14 bytes;
  ptype = host_field 16 bytes;
  ha_length = get_or bytes 18 0;
  pa_length = get_or bytes 19 0;
  operation = host_field 20 bytes;
  body = drop 22 bytes;
}

-- eConsiderFrameForProcessing: whether the frame is for the stack.
unfoldable pub consider_frame_for_processing : Bytes → Bool
consider_frame_for_processing bytes =
    let type = network_field 12 bytes in type == eth_p_rina_arp || type == eth_p_rina

-- What a frame that has arrived leads to: a data unit for the task of the IPC process, and whether
-- the allocation of a flow is announced.
pub record Arrival : Type 0 where
  pub delivered : Option Du
  pub announced : Bool

abbrev pub nothing : Arrival
nothing = record { delivered = none; announced = false }

-- prxHandleAllocateResponse: always for port 1, and the answer is lost.
unfoldable pub handle_allocate_response : Outside → Shim → Option Shim
handle_allocate_response o s =
    let s1 = with_memory (alloc s.arp.memory).1 s in
    if not o.has_instance then none else do (_, s2) ← flow_allocate_response o s1 1; some s2

-- The data unit of a RINA frame: the storage with its RINA part behind the header.
abbrev pub unit_of : NetBuffer → ℕ → Du
unit_of b n = record {
  buffer = some (record b {
    rina_offset = some ethernet_header_size;
    rina_length = n - ethernet_header_size;
  });
  pci_at = none;
}

module _ (bm : Buffers) where
  open bm use {Pool, get, release}

  -- The frame in the buffer that was asked for goes to the task, or the buffer back to the pool.
  abbrev pub put_frame :
      Bool
      → Pool
      → Shim
      → ℕ
      → Gha
      → Du
      → NetBuffer
      → Option Pool
      → Bool × Option NetBuffer × Pool × Shim
  put_frame event_sent pool s len ha du b none = (false, none, destroy bm pool du, s)
  put_frame event_sent pool s len ha du b (some pool1) =
      let pool2 = destroy bm pool1 du in
      if event_sent
      then (true, some (frame_buffer ha.mac s.phy_dev len b.ethernet), pool2, s)
      else (false, none, release pool2, s)

  -- The part of xShimSDUWrite behind the checks.
  abbrev pub write_frame :
      Bool → Pool → Shim → ℕ → Gha → Du → NetBuffer → Bool × Option NetBuffer × Pool × Shim
  write_frame event_sent pool s len ha du b =
      put_frame event_sent pool s len ha du b (get pool (ethernet_header_size + len))

  -- The destination of the flow must be known.
  abbrev pub write_to :
      Bool
      → Pool
      → Shim
      → ℕ
      → Pointer Gha
      → Du
      → NetBuffer
      → Option (Bool × Option NetBuffer × Pool × Shim)
  write_to event_sent pool s len null du b = some (false, none, destroy bm pool du, s)
  write_to event_sent pool s len wild du b = none
  write_to event_sent pool s len (to ha) du b = some (write_frame event_sent pool s len ha du b)

  -- xShimSDUWrite on the flow that was found. The block of the source's address is lost.
  abbrev pub write_on :
      Bool
      → Pool
      → Shim
      → ℕ
      → Option ShimFlow
      → Du
      → NetBuffer
      → Option (Bool × Option NetBuffer × Pool × Shim)
  write_on event_sent pool s len none du b = some (false, none, destroy bm pool du, s)
  write_on event_sent pool s len (some f) du b =
      let (ok, m) = alloc s.arp.memory in
      let s1 = with_memory m s in
      if is_pending f.state
      then some (false, none, destroy bm pool du, s)
      else if not ok
      then some (false, none, destroy bm pool du, s1)
      else write_to event_sent pool s1 len f.dest_ha du b

  -- xShimSDUWrite: the answer, the frame that goes to the task, the pool and the shim.
  unfoldable pub sdu_write :
      Bool → Pool → Shim → ℕ → Du → Option (Bool × Option NetBuffer × Pool × Shim)
  sdu_write event_sent pool s port du = do
    b ← du.buffer
    if ltb mtu b.data_length then some (false, none, destroy bm pool du, s) else do
      (found, s1) ← find_flow_by_port_id s port
      write_on event_sent pool s1 b.data_length found du b

  -- What prvProcessEthernetPacket does after an ARP packet.
  abbrev pub after_arp : Outside → Pool → Shim → FrameResult → Option (Arrival × Pool × Shim)
  after_arp o pool s release_buffer = some (nothing, release pool, s)
  after_arp o pool s return_ethernet_frame = some (nothing, pool, s)
  after_arp o pool s process_buffer = do
    s1 ← handle_allocate_response o s
    some (record nothing { announced = true }, release pool, s1)

  abbrev pub process_arp : Outside → Pool → Shim → Bytes → Option (Arrival × Pool × Shim)
  process_arp o pool s bytes = do
    (result, _, arp) ← process_packet s.arp (cast_arp bytes)
    after_arp o pool (record s { arp = arp }) result

  -- A RINA frame: without a block for the data unit the buffer is kept by nobody.
  abbrev pub process_rina : Pool → Shim → NetBuffer → ℕ → Arrival × Pool × Shim
  process_rina pool s b n =
      let (ok, m) = alloc s.arp.memory in
      let s1 = with_memory m s in
      if ok
      then (record nothing { delivered = some (unit_of b n) }, pool, s1)
      else (nothing, pool, s1)

  -- prvProcessEthernetPacket and prvHandleEthernetPacket on a buffer with a frame of `n` bytes. One
  -- that is shorter than a header counts as consumed.
  unfoldable pub process_ethernet_packet :
      Outside → Pool → Shim → NetBuffer → ℕ → Option (Arrival × Pool × Shim)
  process_ethernet_packet o pool s b n =
      let type = network_field 12 b.ethernet in
      if ltb n ethernet_header_size
      then some (nothing, pool, s)
      else if type == eth_p_rina_arp
      then (if ltb n arp_packet_size
          then some (nothing, release pool, s)
          else process_arp o pool s b.ethernet)
      else if type == eth_p_rina
      then some (process_rina pool s b n)
      else some (nothing, release pool, s)
