-- ===== src/Arp/Packet.antt =====
-- The packets of components/Shim/Arp826/Arp826.c: prvARPGeneratePacket, vARPSendRequest,
-- xARPResolveGPA and eARPProcessPacket, over the layout of include/Arp826_defs.h.
use rinasensev.Prelude.{
  ℕ, ◌+◌, ◌*◌, ◌/◌, ◌%◌, Bool, true, false, not, ◌&&◌, ◌||◌, ◌==◌, if◌then◌else◌, ltb, Option, none,
  some, ◌++◌, length, take, drop, set, ◌>>=◌,
}
use rinasensev.Memory.{alloc}
use rinasensev.Gpha.{Gpa, Gha, mac_802_3, Bytes, content, is_gpa_ok, is_gha_ok, grow, shrink}
use rinasensev.Arp.{
  Arp, gpa_at, gha_at, new_gpa, new_gha, create_gha_unknown, gpa_destroy, gha_destroy, lookup_gpa,
}
use rinasensev.Arp.Update.{add_cache_entry, is_miss}
use rinasensev.Arp.Refresh.{refresh_cache_entry}

-- RsHtoNS, which swaps the two bytes.
abbrev pub htons : ℕ → ℕ
htons n = n % 256 * 256 + n / 256 % 256

abbrev pub arp_request : ℕ
arp_request = 256

abbrev pub arp_reply : ℕ
arp_reply = 512

abbrev pub hardware_type_ethernet : ℕ
hardware_type_ethernet = 1

-- ETH_P_RINA and ETH_P_RINA_ARP.
abbrev pub eth_p_rina : ℕ
eth_p_rina = 53744

abbrev pub eth_p_rina_arp : ℕ
eth_p_rina_arp = 17157

-- ARPPacket_t, its fields of 16 bits as the processor reads them, and the bytes of the buffer
-- behind the header.
pub record Frame : Type 0 where
  pub destination : Bytes
  pub source : Bytes
  pub frame_type : ℕ
  pub htype : ℕ
  pub ptype : ℕ
  pub ha_length : ℕ
  pub pa_length : ℕ
  pub operation : ℕ
  pub body : Bytes

-- The frame for a MAC address of the sender, the protocol addresses and the unknown MAC address.
abbrev pub frame_of : Bytes → Gpa → Gpa → Bytes → ℕ → Frame
frame_of sha spa tpa tha op = record {
  destination = tha;
  source = sha;
  frame_type = htons eth_p_rina_arp;
  htype = htons hardware_type_ethernet;
  ptype = htons eth_p_rina;
  ha_length = 6;
  pa_length = spa.size % 256;
  operation = op;
  body = sha ++ (content spa ++ (tha ++ content tpa));
}

-- prvARPGeneratePacket. Its first block for the unknown address is lost at once.
unfoldable pub generate_packet : Arp → Gha → Gpa → Gpa → ℕ → Option (Frame × Arp)
generate_packet s sha spa tpa op =
    let (ok, m) = alloc s.memory in
    let (tha, s1) = create_gha_unknown (record s { memory = m }) mac_802_3 in
    do unknown ← gha_at s1 tha; some (frame_of sha.mac spa tpa unknown.mac op, s1)

abbrev pub set_gpa : Arp → Option ℕ → Option Gpa → Arp
set_gpa s (some p) (some g) = record s { gpas = set s.gpas p g }
set_gpa s _ _ = s

abbrev pub grow_at : Arp → Option ℕ → ℕ → Bool × Arp
grow_at s p n =
    let (ok, g, m) = grow (gpa_at s.gpas p) n 0 s.memory in
    (ok, set_gpa (record s { memory = m }) p g)

unfoldable pub shrink_at : Arp → Option ℕ → Bool × Arp
shrink_at s p =
    let (ok, g, m) = shrink (gpa_at s.gpas p) 0 s.memory in
    (ok, set_gpa (record s { memory = m }) p g)

abbrev pub larger : ℕ → ℕ → ℕ
larger a b = if ltb b a then a else b

-- What vARPSendRequest asks of its surroundings: whether there is a network buffer, whether the
-- task of the IPC process calls, and whether its queue takes the event.
pub record Outside : Type 0 where
  pub has_buffer : Bool
  pub from_ipcp_task : Bool
  pub event_sent : Bool

-- vARPSendRequest: the answer, the frame handed to the network interface or to the queue, the
-- cache.
unfoldable pub send_request :
    Outside → Arp → Option ℕ → Option ℕ → Option ℕ → Option (Bool × Option Frame × Arp)
send_request o s tpa spa sha = do
  spa_gpa ← gpa_at s.gpas spa
  tpa_gpa ← gpa_at s.gpas tpa
  let longest = larger spa_gpa.size tpa_gpa.size
  let (grew_spa, s1) = grow_at s spa longest
  let (grew_tpa, s2) = grow_at s1 tpa longest
  if not grew_spa
      then some (false, none, s1)
      else if not grew_tpa
      then some (false, none, s2)
      else if not o.has_buffer
      then some (false, none, s2)
      else do
        sha_gha ← gha_at s2 sha
        padded_spa ← gpa_at s2.gpas spa
        padded_tpa ← gpa_at s2.gpas tpa
        (frame, s3) ← generate_packet s2 sha_gha padded_spa padded_tpa arp_request
        if o.from_ipcp_task
            then some (true, some frame, s3)
            else if o.event_sent
            then some (true, some frame, s3)
            else some (false, none, s3)

-- xARPResolveGPA.
unfoldable pub resolve_gpa :
    Outside → Arp → Option ℕ → Option ℕ → Option ℕ → Option (Bool × Option Frame × Arp)
resolve_gpa o s tpa spa sha =
    if not (is_gpa_ok (gpa_at s.gpas tpa))
      || not (is_gha_ok (gha_at s sha))
      || not (is_gpa_ok (gpa_at s.gpas spa))
    then some (false, none, s)
    else send_request o s tpa spa sha

-- The values of eFrameProcessingResult_t that eARPProcessPacket returns.
pub data FrameResult : Type 0 where
  release_buffer process_buffer return_ethernet_frame : FrameResult

-- The four addresses that a packet is taken apart into.
pub record Parties : Type 0 where
  pub spa : Option ℕ
  pub sha : Option ℕ
  pub tpa : Option ℕ
  pub tha : Option ℕ

-- Reading behind the bytes of the frame is a fault.
unfoldable pub take_apart : Arp → Frame → Option (Parties × Arp)
take_apart s f =
    let hlen = f.ha_length in
    let plen = f.pa_length in
    let at_spa = drop hlen f.body in
    let at_tha = drop plen at_spa in
    let at_tpa = drop hlen at_tha in
    if ltb (length f.body) (hlen + plen + (hlen + plen)) then none else do
      (spa, s1) ← new_gpa s (some at_spa) plen
      let (sha, s2) = new_gha s1 mac_802_3 (take 6 f.body)
      (tpa, s3) ← new_gpa s2 (some at_tpa) plen
      let (tha, s4) = new_gha s3 mac_802_3 (take 6 at_tha)
      some (record { spa = spa; sha = sha; tpa = tpa; tha = tha }, s4)

abbrev pub destroy_parties : Arp → Parties → Arp
destroy_parties s q =
    gha_destroy (gha_destroy (gpa_destroy (gpa_destroy s q.spa) q.tpa) q.sha) q.tha

-- The case of ARP_REQUEST. The refresh gets a NULL MAC address when there was no memory for it.
unfoldable pub process_request : Arp → Frame → Parties → Option (FrameResult × Frame × Arp)
process_request s f q =
    if is_miss (lookup_gpa s (gpa_at s.gpas q.spa))
    then some (release_buffer, f, destroy_parties s q)
    else do
      p ← q.spa
      s1 ← refresh_cache_entry s p (elim (gha_at s q.sha) [ none ↦ none | some h ↦ some h.mac ])
      some (return_ethernet_frame, record f { operation = arp_reply }, s1)

-- The case of ARP_REPLY: the handle is written before it is tested.
unfoldable pub process_reply : Arp → Frame → Parties → Option (FrameResult × Frame × Arp)
process_reply s f q =
    let (ok, m) = alloc s.memory in
    if not ok then none else do
      s1 ← add_cache_entry (record s { memory = m }) q.spa q.sha 3
      some (process_buffer, f, gha_destroy (gpa_destroy s1 q.tpa) q.tha)

-- eARPProcessPacket.
unfoldable pub process_packet : Arp → Frame → Option (FrameResult × Frame × Arp)
process_packet s f =
    if not (f.htype == htons hardware_type_ethernet)
    then some (release_buffer, f, s)
    else if not (f.ha_length == 6)
    then some (release_buffer, f, s)
    else if not (f.operation == arp_reply) && not (f.operation == arp_request)
    then some (release_buffer, f, s)
    else do
      (q, s1) ← take_apart s f
      let (shrank_spa, s2) = shrink_at s1 q.spa
      let (shrank_tpa, s3) = shrink_at s2 q.tpa
      if not shrank_spa
          then some (release_buffer, f, destroy_parties s2 q)
          else if not shrank_tpa
          then some (release_buffer, f, destroy_parties s3 q)
          else if f.operation == arp_request
          then process_request s3 f q
          else process_reply s3 f q
