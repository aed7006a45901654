-- ===== src/Arp/Framed.antt =====
-- The first half of eARPProcessPacket in components/Shim/Arp826/Arp826.c on a packet of two padded
-- protocol addresses: it is taken apart and the addresses are shrunk.
use rinasensev.Prelude.{
  ℕ, suc, ◌+◌, ◌-◌, ◌≤◌, ◌<◌, ◌≡◌, refl, sym, ap, ◌∙◌, subst, ◌⊎◌, not, ◌&&◌, if◌then◌else◌, false,
  true, false, ◌==◌, ==_ne, Option, some, List, [], ◌∷◌, ◌++◌, length, length-append_one,
  length-append, take, take-all, take-append, drop-append, get_or-append_one, get_or-append_below,
  drop, set, get_or, get_or-set_ne, get_or-set_self, length-set, replicate, arith, ltb, le→ltb,
}
use rinasensev.Memory.{Memory, plenty}
use rinasensev.Gpha.{Gpa, Gha, Bytes, mac_802_3, content, create_gha, shrink}
use rinasensev.Gpha.Padding.{Without, padded, length-padded, shrink-padded}
use rinasensev.Arp.{Row, Arp, gone_gpa}
use rinasensev.Arp.Learn.{copied, create_gpa-copied}
use rinasensev.Arp.Packet.{
  Frame, Parties, FrameResult, process_packet, take_apart, shrink_at, arp_reply, arp_request,
  process_request, process_reply,
}

unfoldable pub ethernet : Bytes → Gha
ethernet mac = record { type = mac_802_3; mac = mac }

-- What the four addresses of a frame become.
unfoldable pub parties_of : List Gpa → List Gha → Parties
parties_of gpas ghas = record {
  spa = some (length gpas);
  sha = some (length ghas);
  tpa = some (suc (length gpas));
  tha = some (suc (length ghas));
}

unfoldable pub arrived : List Gpa → List Gha → List Row → Memory → Gpa → Gpa → Bytes → Bytes → Arp
arrived gpas ghas cache m spa tpa sha tha = record {
  gpas = (gpas ++ spa ∷ []) ++ tpa ∷ [];
  ghas = (ghas ++ ethernet sha ∷ []) ++ ethernet tha ∷ [];
  cache = cache;
  memory = m;
}

-- The frame with a body of four addresses of the lengths it names.
unfoldable pub framed : ℕ → Bytes → Bytes → Bytes → Bytes → ℕ → Frame
framed op sha spa tha tpa n = record {
  destination = tha;
  source = sha;
  frame_type = 1347;
  htype = 256;
  ptype = 61649;
  ha_length = 6;
  pa_length = n;
  operation = op;
  body = sha ++ (spa ++ (tha ++ tpa));
}

take_apart-framed :
    (gpas : List Gpa) (ghas : List Gha) (cache : List Row) (m : Memory) (op : ℕ)
    (sha spa tha tpa : Bytes) (n : ℕ)
    → (n == 0) ≡ false
    → 6 ≡ length sha
    → n ≡ length spa
    → 6 ≡ length tha
    → n ≡ length tpa
    → take_apart
        (record { gpas = gpas; ghas = ghas; cache = cache; memory = plenty 11 m })
        (framed op sha spa tha tpa n)
      ≡ some (
        parties_of gpas ghas,
        arrived gpas ghas cache
            (plenty 5 m)
            (copied (spa ++ (tha ++ tpa)) n)
            (copied tpa n)
            sha
            tha,
      )
unfolding take_apart framed arrived parties_of ethernet create_gha
take_apart-framed gpas ghas cache m op sha spa tha tpa n positive h1 h2 h3 h4 =
    let long : ltb (length (sha ++ (spa ++ (tha ++ tpa)))) (6 + n + (6 + n)) ≡ false =
      le→ltb (length (sha ++ (spa ++ (tha ++ tpa)))) (6 + n + (6 + n)) (
        omega (
          arith,
          length-append sha (spa ++ (tha ++ tpa)),
          length-append spa (tha ++ tpa),
          length-append tha tpa,
          h1,
          h2,
          h3,
          h4,
        )) in
    rw
      (
        long,
        drop-append 6 sha (spa ++ (tha ++ tpa)) h1,
        take-append 6 sha (spa ++ (tha ++ tpa)) h1,
        drop-append n spa (tha ++ tpa) h2,
        drop-append 6 tha tpa h3,
        take-append 6 tha tpa h3,
        create_gpa-copied (spa ++ (tha ++ tpa)) n (plenty 9 m) positive,
        create_gpa-copied tpa n (plenty 6 m) positive,
        length-append_one gpas (copied (spa ++ (tha ++ tpa)) n),
        length-append_one ghas (record { type = mac_802_3; mac = sha }),
      )
      refl

shrink_at-stored :
    (gpas : List Gpa) (ghas : List Gha) (cache : List Row) (m m' : Memory) (p : ℕ) (g g' : Gpa)
    → get_or gpas p gone_gpa ≡ g
    → shrink (some g) 0 m ≡ (true, some g', m')
    → shrink_at (record { gpas = gpas; ghas = ghas; cache = cache; memory = m }) (some p)
      ≡ (true, record { gpas = set gpas p g'; ghas = ghas; cache = cache; memory = m' })
unfolding shrink_at
shrink_at-stored gpas ghas cache m m' p g g' at_p run = rw (at_p, run) refl

content-copied :
    (bytes : Bytes) (n : ℕ) → n ≡ length (take n bytes) → content (copied bytes n) ≡ take n bytes
content-copied bytes n h = take-append n (take n bytes) (drop n (replicate (n + 1) 0)) h

known_operation :
    (op : ℕ)
    → (op ≡ arp_request) ⊎ (op ≡ arp_reply)
    → (not (op == arp_reply) && not (op == arp_request)) ≡ false
known_operation op known = ground (arith, known)

-- The second half, of a packet for the operation.
abbrev pub handle : ℕ → Arp → Frame → Parties → Option (FrameResult × Frame × Arp)
handle op s f q = if op == arp_request then process_request s f q else process_reply s f q

pub process_packet-framed :
    (gpas : List Gpa) (ghas : List Gha) (cache : List Row) (m : Memory) (op : ℕ)
    (sha tha spa tpa : Bytes) (n : ℕ)
    → (op ≡ arp_request) ⊎ (op ≡ arp_reply)
    → 6 ≡ length sha
    → 6 ≡ length tha
    → 0 < length spa
    → length spa ≤ n
    → Without 0 spa
    → 0 < length tpa
    → length tpa ≤ n
    → Without 0 tpa
    → (gpas' : List Gpa) × (ghas' : List Gha) × (m' : Memory) × (left : Bytes) × (process_packet
          (record { gpas = gpas; ghas = ghas; cache = cache; memory = plenty 11 m })
          (framed op sha (padded spa n 0) tha (padded tpa n 0) n)
        ≡ handle op
            (record { gpas = gpas'; ghas = ghas'; cache = cache; memory = plenty 3 m' })
            (framed op sha (padded spa n 0) tha (padded tpa n 0) n)
            (parties_of gpas ghas))
      × (length gpas' ≡ suc (suc (length gpas)))
      × (get_or gpas' (length gpas) gone_gpa ≡ record { address = some left; size = length spa })
      × (take (length spa) left ≡ spa)
      × ((p : ℕ) → p < length gpas → get_or gpas' p gone_gpa ≡ get_or gpas p gone_gpa)
unfolding framed arrived parties_of process_packet
process_packet-framed gpas ghas cache m op sha tha spa tpa n known h1 h3 ps ls ws pt lt wt =
    let spa' = padded spa n 0 in
    let tpa' = padded tpa n 0 in
    let behind = spa' ++ (tha ++ tpa') in
    let h2 = sym (length-padded spa n 0 ls) in
    let h4 = sym (length-padded tpa n 0 lt) in
    let positive : (n == 0) ≡ false = ==_ne n 0 (λ z. absurd (omega (arith, z, ps, ls))) in
    let spa_bytes : take n behind ≡ spa' = take-append n spa' (tha ++ tpa') h2 in
    let tpa_bytes : take n tpa' ≡ tpa' = take-all n tpa' h4 in
    let a = copied behind n in
    let b = copied tpa' n in
    let gpas' = (gpas ++ a ∷ []) ++ b ∷ [] in
    let (left_spa, m1, run_spa, kept_spa) =
      shrink-padded (take n behind ++ drop n (replicate (n + 1) 0)) spa n (n - length spa) 0 4 m
        (content-copied behind n (h2 ∙ ap length (sym spa_bytes)) ∙ spa_bytes) (omega (arith, ls))
        ps ws in
    let (left_tpa, m2, run_tpa, kept_tpa) =
      shrink-padded (take n tpa' ++ drop n (replicate (n + 1) 0)) tpa n (n - length tpa) 0 3 m1
        (content-copied tpa' n (h4 ∙ ap length (sym tpa_bytes)) ∙ tpa_bytes) (omega (arith, lt)) pt
        wt in
    let i = length gpas in
    let j = suc (length gpas) in
    let g_spa : Gpa = record { address = some left_spa; size = length spa } in
    let g_tpa : Gpa = record { address = some left_tpa; size = length tpa } in
    let ghas' = (ghas ++ ethernet sha ∷ []) ++ ethernet tha ∷ [] in
    let sized : length gpas' ≡ suc (suc (length gpas)) =
      length-append_one (gpas ++ a ∷ []) b ∙ ap suc (length-append_one gpas a) in
    let at_i : get_or gpas' i gone_gpa ≡ a =
      get_or-append_below (gpas ++ a ∷ []) (b ∷ []) i gone_gpa
        (omega (arith, length-append_one gpas a))
      ∙ get_or-append_one gpas a gone_gpa in
    let at_j : get_or (set gpas' i g_spa) j gone_gpa ≡ b =
      get_or-set_ne gpas' i j g_spa gone_gpa (λ e. absurd (omega (arith, e)))
      ∙ subst (λ k. get_or gpas' k gone_gpa ≡ b) (length-append_one gpas a)
          (get_or-append_one (gpas ++ a ∷ []) b gone_gpa) in
    let kept_i : get_or (set (set gpas' i g_spa) j g_tpa) i gone_gpa ≡ g_spa =
      get_or-set_ne (set gpas' i g_spa) j i g_tpa gone_gpa (λ e. absurd (omega (arith, e)))
      ∙ get_or-set_self gpas' i g_spa gone_gpa (omega (arith, sized)) in
    let below : (p : ℕ)
        → p < length gpas
        → get_or (set (set gpas' i g_spa) j g_tpa) p gone_gpa ≡ get_or gpas p gone_gpa =
      λ p h.
        get_or-set_ne (set gpas' i g_spa) j p g_tpa gone_gpa (λ e. absurd (omega (arith, e, h)))
        ∙ get_or-set_ne gpas' i p g_spa gone_gpa (λ e. absurd (omega (arith, e, h)))
        ∙ get_or-append_below (gpas ++ a ∷ []) (b ∷ []) p gone_gpa
            (omega (arith, h, length-append_one gpas a))
        ∙ get_or-append_below gpas (a ∷ []) p gone_gpa h in
    (
      set (set gpas' i g_spa) j g_tpa,
      ghas',
      m2,
      left_spa,
      rw
          (
            known_operation op known,
            take_apart-framed gpas ghas cache m op sha spa' tha tpa' n positive h1 h2 h3 h4,
            shrink_at-stored gpas' ghas' cache (plenty 5 m) (plenty 4 m1) i a g_spa at_i run_spa,
            shrink_at-stored (set gpas' i g_spa) ghas' cache (plenty 4 m1) (plenty 3 m2) j b g_tpa
                at_j run_tpa,
          )
          refl,
      length-set (set gpas' i g_spa) j g_tpa ∙ length-set gpas' i g_spa ∙ sized,
      kept_i,
      kept_spa,
      below,
    )
