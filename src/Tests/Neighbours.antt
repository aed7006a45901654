-- ===== src/Tests/Neighbours.antt =====
-- The ARP cache: a node with the address "a" whose cache is empty, and a neighbour with the address
-- "bc".
use rinasensev.Prelude.{◌≡◌, refl, some, [], ◌∷◌, replicate, arith}
use rinasensev.Memory.{plenty}
use rinasensev.Gpha.{Gha, mac_802_3, Bytes}
use rinasensev.Gpha.Padding.{padded}
use rinasensev.Arp.{Row, Arp, cache_hit, lookup_gpa}
use rinasensev.Arp.Packet.{Frame, process_buffer}
use rinasensev.Arp.Reply.{exchanged, reply_is_learned}

-- After vARPInitCache.
abbrev empty_row : Row
empty_row = record { pa = some 0; ha = some 0; age = 0; valid = 0 }

abbrev node : Arp
node = record {
  gpas = record { address = some (replicate 6 0); size = 5 } ∷ [];
  ghas = record { type = mac_802_3; mac = replicate 6 255 } ∷ [];
  cache = replicate 4 empty_row;
  memory = [];
}

abbrev mac : Gha
mac = record { type = mac_802_3; mac = replicate 6 7 }

abbrev bc : Bytes
bc = 98 ∷ 99 ∷ []

reply_is_learned_example :
    (frame : Frame) × (s' : Arp) × (exchanged
        (record node { memory = plenty 2 [] })
        (record node { memory = plenty 11 [] })
        mac
        (record { address = some (padded bc 2 0); size = 2 })
        (record { address = some (padded (97 ∷ []) 2 0); size = 2 })
      ≡ some (process_buffer, frame, s'))
    × (lookup_gpa s' (some (record { address = some bc; size = 2 })) ≡ cache_hit)
reply_is_learned_example =
    reply_is_learned node node [] [] 0 mac bc (97 ∷ []) 2 refl refl (omega arith) (omega arith)
      (omega arith) ((λ e. absurd (omega (arith, e))), ((λ e. absurd (omega (arith, e))), tt))
      (omega arith) (omega arith) ((λ e. absurd (omega (arith, e))), tt)
