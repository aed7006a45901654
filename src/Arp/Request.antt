-- ===== src/Arp/Request.antt =====
-- A request from a node that the cache does not hold: eARPProcessPacket and eARPLookupGPA in
-- components/Shim/Arp826/Arp826.c.
use rinasensev.Prelude.{
  ℕ, suc, ◌≤◌, ◌<◌, ◌≡◌, refl, sym, ap, ◌∙◌, not, inl, inr, ◌==◌, ◌&&◌, Option, none, some, List,
  [], ◌∷◌, length, take, take-all, get_or, Bool-cases,
}
use rinasensev.Memory.{Memory, plenty}
use rinasensev.Gpha.{Gpa, Bytes, content, gpa_cmp, is_gpa_ok, is_gha_ok, bytes_eq}
use rinasensev.Gpha.Padding.{Without, padded}
use rinasensev.Arp.{
  Row, Arp, gpa_at, gha_at, gone_gpa, cache_miss, lookup_gpa, lookup_rows, gpa_destroy, gha_destroy,
}
use rinasensev.Arp.Learn.{gpa_destroy-cache}
use rinasensev.Arp.Framed.{framed, parties_of, process_packet-framed}
use rinasensev.Arp.Packet.{
  release_buffer, process_packet, process_request, destroy_parties, arp_request,
}

abbrev pub PointsBelow : ℕ → Option ℕ → Type 0
PointsBelow k none = Unit {0}
PointsBelow k (some p) = p < k

-- Every row points at a stored protocol address, or at none.
abbrev pub AllStored : ℕ → List Row → Type 0
AllStored k [] = Unit {0}
AllStored k (r ∷ rows) = PointsBelow k r.pa × AllStored k rows

gpa_at_below :
    (gpas gpas' : List Gpa) (o : Option ℕ)
    → ((p : ℕ) → p < length gpas → get_or gpas' p gone_gpa ≡ get_or gpas p gone_gpa)
    → PointsBelow (length gpas) o
    → gpa_at gpas' o ≡ gpa_at gpas o
gpa_at_below gpas gpas' none same h = refl
gpa_at_below gpas gpas' (some p) same h = ap some (same p h)

gpa_cmp_content :
    (o : Option Gpa) (a b : Bytes) (n : ℕ)
    → take n a ≡ take n b
    → gpa_cmp o (some (record { address = some a; size = n }))
      ≡ gpa_cmp o (some (record { address = some b; size = n }))
gpa_cmp_content none a b n e = refl
gpa_cmp_content (some g) a b n e =
    ap (λ t. is_gpa_ok (some g) && not (n == 0) && (g.size == n) && bytes_eq (content g) t) e

lookup_rows_same :
    (gpas gpas' : List Gpa) (rows : List Row) (a b : Bytes) (n : ℕ)
    → ((p : ℕ) → p < length gpas → get_or gpas' p gone_gpa ≡ get_or gpas p gone_gpa)
    → AllStored (length gpas) rows
    → take n a ≡ take n b
    → lookup_rows gpas' rows (some (record { address = some a; size = n }))
      ≡ lookup_rows gpas rows (some (record { address = some b; size = n }))
lookup_rows_same gpas gpas' [] a b n same h e = refl
lookup_rows_same gpas gpas' (r ∷ rows) a b n same (h, hs) e =
    rw
      (
        lookup_rows_same gpas gpas' rows a b n same hs e,
        gpa_at_below gpas gpas' r.pa same h,
        gpa_cmp_content (gpa_at gpas r.pa) a b n e,
      )
      refl

gha_destroy-cache : (s : Arp) (p : ℕ) → (gha_destroy s (some p)).cache ≡ s.cache
gha_destroy-cache s p = elim (Bool-cases (is_gha_ok (gha_at s (some p)))) [
  | inl ok ↦ rw ok refl
  | inr bad ↦ rw bad refl
]

destroy_parties-cache :
    (s : Arp) (i j k l : ℕ)
    → (destroy_parties s (record { spa = some i; sha = some j; tpa = some k; tha = some l })).cache
      ≡ s.cache
destroy_parties-cache s i j k l =
    let s1 = gpa_destroy s (some i) in
    let s2 = gpa_destroy s1 (some k) in
    gha_destroy-cache (gha_destroy s2 (some j)) l
    ∙ gha_destroy-cache s2 j
    ∙ gpa_destroy-cache s1 k
    ∙ gpa_destroy-cache s i

-- A request whose sender is not in the cache, with padded addresses that hold no zero byte, is
-- given back for release and unchanged, and leaves the rows of the cache as they are. The rows
-- point at stored addresses, and there is memory.
pub unknown_is_released :
    (s : Arp) (m : Memory) (sha tha spa tpa : Bytes) (n : ℕ)
    → AllStored (length s.gpas) s.cache
    → lookup_gpa s (some (record { address = some spa; size = length spa })) ≡ cache_miss
    → 6 ≡ length sha
    → 6 ≡ length tha
    → 0 < length spa
    → length spa ≤ n
    → Without 0 spa
    → 0 < length tpa
    → length tpa ≤ n
    → Without 0 tpa
    → (s' : Arp) × (process_packet
          (record s { memory = plenty 11 m })
          (framed arp_request sha (padded spa n 0) tha (padded tpa n 0) n)
        ≡ some (release_buffer, framed arp_request sha (padded spa n 0) tha (padded tpa n 0) n, s'))
      × (s'.cache ≡ s.cache)
unfolding lookup_gpa process_request parties_of
unknown_is_released s m sha tha spa tpa n stored miss h1 h3 ps ls ws pt lt wt =
    let (gpas', ghas', m', left, staged, sized, at_i, kept, below) =
      process_packet-framed s.gpas s.ghas s.cache m arp_request sha tha spa tpa n (inl refl) h1 h3
        ps ls ws pt lt wt in
    let still : lookup_rows gpas' s.cache (some (record { address = some left; size = length spa }))
        ≡ cache_miss =
      lookup_rows_same s.gpas gpas' s.cache left spa (length spa) below stored
        (kept ∙ sym (take-all (length spa) spa refl))
      ∙ miss in
    let s1 : Arp = record { gpas = gpas'; ghas = ghas'; cache = s.cache; memory = plenty 3 m' } in
    (
      destroy_parties s1 (parties_of s.gpas s.ghas),
      staged ∙ rw (at_i, still) refl,
      destroy_parties-cache s1 (length s.gpas) (length s.ghas) (suc (length s.gpas))
          (suc (length s.ghas)),
    )
