-- ===== src/Tests/Shims.antt =====
-- A shim IPC process that registered the name "a" and is asked for a flow to the name "b".
use rinasensev.Prelude.{
  ℕ, ◌≡◌, refl, Bool, true, false, none, some, List, [], ◌∷◌, replicate, if◌then◌else◌,
}
use rinasensev.Memory.{Memory, plenty}
use rinasensev.Names.{Name, name_of, name_to_string}
use rinasensev.Gpha.{Gpa, Gha, mac_802_3, name_to_gpa, create_gpa, create_gha, grow}
use rinasensev.Arp.{Arp, broadcast, lookup_gha}
use rinasensev.Arp.Packet.{Frame, frame_of, resolve_gpa, send_request, generate_packet, arp_request}
use rinasensev.Shim.{null, to, Handle, Shim, ShimFlow, find_in}
use rinasensev.Shim.Flow.{Outside, allocate, flow_allocate_request, flow_allocate_response}
use rinasensev.Shim.Flow.Allocate.{asked_flow, Asks, request_then_response, failed_request_dangles}
use rinasensev.Shim.Frames.{sdu_write}
use rinasensev.Shim.Live.{Writes, sdu_write_accounts}
use rinasensev.Tests.{counting, frame}

abbrev called : ℕ → Name
called c = name_of (some (c ∷ [])) none none none

abbrev text_of : ℕ → Gpa
text_of c = record { address = some (c ∷ 47 ∷ 47 ∷ 47 ∷ 0 ∷ []); size = 4 }

abbrev pub mac_of : ℕ → Gha
mac_of c = record { type = mac_802_3; mac = replicate 6 c }

abbrev cache_of : List Gpa → List Gha → Memory → Arp
cache_of gpas ghas m = record { gpas = gpas; ghas = ghas; cache = []; memory = m }

abbrev pub shim : Shim
shim = record {
  app_name = to (called 97);
  daf_name = null;
  phy_dev = replicate 6 1;
  app_handle = some (record { pa = some 0; ha = some 0 });
  daf_handle = none;
  flows = [];
  arp = cache_of (text_of 97 ∷ []) (mac_of 1 ∷ []) (plenty 9 []);
}

abbrev handle : Handle
handle = record { pa = some 0; ha = some 0 }

abbrev pub surroundings : Bool → Outside
surroundings sends = record {
  arp = record { has_buffer = true; from_ipcp_task = sends; event_sent = false };
  queue_made = true;
  has_instance = true;
  flow_binding_ipcp = λ user port. true;
}

-- The cache with the destination's address, and after the ARP request.
abbrev named : Arp
named = cache_of (text_of 97 ∷ text_of 98 ∷ []) (mac_of 1 ∷ []) (plenty 4 [])

abbrev asking : Arp
asking =
    cache_of (text_of 97 ∷ text_of 98 ∷ [])
      (mac_of 1 ∷ record { type = mac_802_3; mac = broadcast } ∷ []) (plenty 1 [])

abbrev request : Frame
request = frame_of (replicate 6 1) (text_of 97) (text_of 98) broadcast arp_request

abbrev answered : Arp
answered = record asking {
  ghas = mac_of 1 ∷ mac_of 2 ∷ [];
  cache = record { pa = some 1; ha = some 1; age = 3; valid = 1 } ∷ [];
  memory = plenty 2 [];
}

asks :
    (sends : Bool)
    → Asks
        (surroundings sends)
        null
        null
        shim
        (plenty 7 [])
        (plenty 3 [])
        named
        asking
        5
        3
        (called 97)
        (called 98)
        (some 1)
        handle
        sends
        (if sends then some request else none)
unfolding name_to_gpa name_to_string create_gpa create_gha resolve_gpa send_request grow
    generate_packet
asks true = record {
  memory = refl;
  good_port = refl;
  new_port = refl;
  named = refl;
  good_address = refl;
  memory_left = refl;
  queue = refl;
  handle = refl;
  resolves = refl;
}
asks false = record {
  memory = refl;
  good_port = refl;
  new_port = refl;
  named = refl;
  good_address = refl;
  memory_left = refl;
  queue = refl;
  handle = refl;
  resolves = refl;
}

request_then_response_example :
    (s2 : Shim) × (s3 : Shim) × (flow_allocate_request
        (surroundings true)
        null
        null
        shim
        5
        (some (called 97))
        (some (called 98))
        3
      ≡ some (true, some request, s2))
    × (flow_allocate_response (surroundings true) (record s2 { arp = answered }) 3
        ≡ some (true, s3))
    × (find_in s3.flows 3
        ≡ some (some (allocate (some (mac_of 2)) (asked_flow null null 5 3 (some 1)))))
unfolding lookup_gha
request_then_response_example =
    request_then_response (surroundings true) null null shim (plenty 7 []) (plenty 3 []) named
      asking 5 3 (called 97) (called 98) (some 1) handle true (some request) answered (plenty 1 [])
      (mac_of 2) (asks true) refl refl refl refl refl

failed_request_dangles_example :
    (s2 : Shim) × (flow_allocate_request
        (surroundings false)
        null
        null
        shim
        5
        (some (called 97))
        (some (called 98))
        3
      ≡ some (false, none, s2))
    × (flow_allocate_request
          (surroundings true)
          null
          null
          s2
          5
          (some (called 97))
          (some (called 98))
          3
        ≡ none)
failed_request_dangles_example =
    failed_request_dangles (surroundings false) null null shim (plenty 7 []) (plenty 3 []) named
      asking 5 3 (called 97) (called 98) (some 1) handle false none (surroundings true) [] null null
      5 3 (called 97) (called 98) (asks false) refl refl refl refl refl

abbrev pub known : ShimFlow
known = allocate (some (mac_of 2)) (asked_flow null null 5 3 (some 1))

abbrev pub writer : Shim
writer = record shim { flows = some known ∷ []; arp = answered }

sdu_write_accounts_example :
    Writes counting 4
      (sdu_write counting true 4 writer 9 (record { buffer = some frame; pci_at = none }))
sdu_write_accounts_example = sdu_write_accounts counting true 4 writer 9 frame none ((λ _. tt), tt)
