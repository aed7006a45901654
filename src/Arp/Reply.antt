-- ===== src/Arp/Reply.antt =====
-- A reply on its way: prvARPGeneratePacket at the sender, eARPProcessPacket at the receiver
-- (components/Shim/Arp826/Arp826.c).
use rinasensev.Prelude.{
  ℕ, suc, ◌%◌, ◌≤◌, ◌<◌, ◌≡◌, refl, sym, ap, inr, ◌∙◌, ==_ne, Option, some, List, [], ◌∷◌, ◌++◌,
  length, take-all, get_or-append_one, arith, ◌>>=◌,
}
use rinasensev.Memory.{Memory, plenty}
use rinasensev.Gpha.{Gpa, Gha, Bytes, mac_802_3, create_gha}
use rinasensev.Gpha.Padding.{Without, padded, length-padded}
use rinasensev.Arp.{Row, Arp, gone_gha, cache_hit, lookup_gpa}
use rinasensev.Arp.Update.{free_row}
use rinasensev.Arp.Learn.{process_reply-hit}
use rinasensev.Arp.Packet.{
  Frame, FrameResult, process_buffer, process_packet, generate_packet, frame_of, arp_reply,
}
use rinasensev.Arp.{broadcast}
use rinasensev.Arp.Framed.{framed, parties_of, process_packet-framed}

address_of : Bytes → ℕ → Gpa
address_of bytes n = record { address = some bytes; size = n }

frame_of-framed :
    (sha spa tha tpa : Bytes) (n : ℕ)
    → n < 256
    → n ≡ length spa
    → n ≡ length tpa
    → frame_of sha (address_of spa n) (address_of tpa n) tha arp_reply
      ≡ framed arp_reply sha spa tha tpa n
unfolding framed address_of
frame_of-framed sha spa tha tpa n small h2 h4 =
    let byte : n % 256 ≡ n = omega arith in rw (byte, take-all n spa h2, take-all n tpa h4) refl

-- A reply that one node generates, with its answers of memory, and another processes.
pub exchanged : Arp → Arp → Gha → Gpa → Gpa → Option (FrameResult × Frame × Arp)
exchanged sender receiver sha spa tpa = do
  (frame, _) ← generate_packet sender sha spa tpa arp_reply
  process_packet receiver frame

generate_packet-frame :
    (gpas : List Gpa) (ghas : List Gha) (cache : List Row) (m : Memory) (sha : Gha) (spa tpa : Gpa)
    → (s' : Arp) × (generate_packet
          (record { gpas = gpas; ghas = ghas; cache = cache; memory = plenty 2 m })
          sha
          spa
          tpa
          arp_reply
        ≡ some (frame_of sha.mac spa tpa broadcast arp_reply, s'))
unfolding generate_packet create_gha
generate_packet-frame gpas ghas cache m sha spa tpa = (
  record {
    gpas = gpas;
    ghas = ghas ++ record { type = mac_802_3; mac = broadcast } ∷ [];
    cache = cache;
    memory = m;
  },
  rw (get_or-append_one ghas (record { type = mac_802_3; mac = broadcast }) gone_gha) refl,
)

pub reply_is_learned :
    (sender receiver : Arp) (m0 m : Memory) (x : ℕ) (sha : Gha) (spa tpa : Bytes) (n : ℕ)
    → free_row receiver.cache ≡ some x
    → 6 ≡ length sha.mac
    → n < 256
    → 0 < length spa
    → length spa ≤ n
    → Without 0 spa
    → 0 < length tpa
    → length tpa ≤ n
    → Without 0 tpa
    → (frame : Frame) × (s' : Arp) × (exchanged
          (record sender { memory = plenty 2 m0 })
          (record receiver { memory = plenty 11 m })
          sha
          (record { address = some (padded spa n 0); size = n })
          (record { address = some (padded tpa n 0); size = n })
        ≡ some (process_buffer, frame, s'))
      × (lookup_gpa s' (some (record { address = some spa; size = length spa })) ≡ cache_hit)
unfolding exchanged address_of parties_of
reply_is_learned sender receiver m0 m x sha spa tpa n free h1 small ps ls ws pt lt wt =
    let (gpas', ghas', m', left, staged, sized, at_i, kept, _) =
      process_packet-framed receiver.gpas receiver.ghas receiver.cache m arp_reply sha.mac broadcast
        spa tpa n (inr refl) h1 refl ps ls ws pt lt wt in
    let (s', run, found) =
      process_reply-hit gpas' ghas' receiver.cache m'
        (framed arp_reply sha.mac (padded spa n 0) broadcast (padded tpa n 0) n)
        (length receiver.gpas) (suc (length receiver.gpas)) x (some (length receiver.ghas))
        (some (suc (length receiver.ghas))) left spa (length spa) at_i
        (==_ne (length spa) 0 (λ z. absurd (omega (arith, z, ps)))) (sym (ap length kept))
        (kept ∙ sym (take-all (length spa) spa refl)) (omega (arith, sized)) free in
    let (s0, made) =
      generate_packet-frame sender.gpas sender.ghas sender.cache m0 sha
        (address_of (padded spa n 0) n) (address_of (padded tpa n 0) n) in
    let same =
      frame_of-framed sha.mac (padded spa n 0) broadcast (padded tpa n 0) n small
        (sym (length-padded spa n 0 ls)) (sym (length-padded tpa n 0 lt)) in
    (
      framed arp_reply sha.mac (padded spa n 0) broadcast (padded tpa n 0) n,
      s',
      ap (λ o. o >>= λ p. process_packet (record receiver { memory = plenty 11 m }) p.0) made
          ∙ ap (process_packet (record receiver { memory = plenty 11 m })) same
          ∙ staged
          ∙ run,
      found,
    )
