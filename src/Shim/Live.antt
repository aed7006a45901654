-- ===== src/Shim/Live.antt =====
-- The list of flows while each of its items points at a flow: the search in
-- components/Shim/shim_IPCP_flow.c then ends without a fault, and xShimSDUWrite in
-- components/Shim/WiFi/wifi_IPCP_ops.c accounts for the buffers.
use rinasensev.Prelude.{
  ℕ, suc, ◌+◌, ◌≡◌, refl, ◌∙◌, sym, Bool, true, false, ◌==◌, ltb, if◌then◌else◌, Bool-cases, inl,
  inr, Option, none, some, List, [], ◌∷◌, is_some, arith,
}
use rinasensev.Memory.{alloc}
use rinasensev.Buffers.{Buffers}
use rinasensev.Gpha.{Gha}
use rinasensev.Du.{Du, NetBuffer, destroy}
use rinasensev.Shim.{
  Pointer, null, wild, to, ShimFlow, Shim, with_memory, find_in, find_flow_by_port_id,
}
use rinasensev.Shim.Flow.{is_pending}
use rinasensev.Shim.Frames.{
  sdu_write, write_on, write_to, put_frame, frame_buffer, mtu, ethernet_header_size,
}

-- The destination of a flow may be followed.
abbrev pub IsKnown : Pointer Gha → Type 0
IsKnown null = Unit {0}
IsKnown wild = ⊥
IsKnown (to h) = Unit {0}

abbrev pub IsLive : ShimFlow → Type 0
IsLive f = is_pending f.state ≡ false → IsKnown f.dest_ha

abbrev pub AllLive : List (Option ShimFlow) → Type 0
AllLive [] = Unit {0}
AllLive (none ∷ flows) = ⊥
AllLive (some f ∷ flows) = IsLive f × AllLive flows

abbrev pub FoundLive : Option ShimFlow → Type 0
FoundLive none = Unit {0}
FoundLive (some f) = IsLive f

pub find_in-AllLive :
    (flows : List (Option ShimFlow)) (port : ℕ)
    → AllLive flows
    → (found : Option ShimFlow) × (find_in flows port ≡ some found) × FoundLive found
find_in-AllLive [] port live = (none, refl, tt)
find_in-AllLive (none ∷ flows) port live = absurd live
find_in-AllLive (some f ∷ flows) port (here, live) = elim (Bool-cases (f.port_id == port)) [
  | inl same ↦ (some f, rw same refl, here)
  | inr other ↦ let (found, e, l) = find_in-AllLive flows port live in (found, rw other e, l)
]

pub find_flow-AllLive :
    (s : Shim) (port : ℕ)
    → AllLive s.flows
    → (found : Option ShimFlow) × (find_flow_by_port_id s port
        ≡ some (found, with_memory (alloc s.arp.memory).1 s))
      × FoundLive found
unfolding find_flow_by_port_id
find_flow-AllLive s port live = elim (Bool-cases (alloc s.arp.memory).0) [
  | inr full ↦ (none, rw full refl, tt)
  | inl ok ↦ let (found, e, l) = find_in-AllLive s.flows port live in (found, rw (ok, e) refl, l)
]

module _ (bm : Buffers) where
  open bm use {Pool, get, release, available, available-get, available-release}

  -- A data unit that was taken over: its buffer is given back, and a frame that was sent took
  -- another.
  pub record Accounted (pool : Pool) (ok : Bool) (sent : Option NetBuffer) (pool' : Pool)
      : Type 0 where
    pub answered : is_some sent ≡ ok
    pub counted : available pool' ≡ (if ok then available pool else suc (available pool))

  -- What a write of a data unit with a buffer comes to.
  abbrev pub Writes : Pool → Option (Bool × Option NetBuffer × Pool × Shim) → Type 0
  Writes pool o =
      (ok : Bool) × (sent : Option NetBuffer) × (pool' : Pool) × (s' : Shim) × (o
        ≡ some (ok, sent, pool', s'))
      × Accounted pool ok sent pool'

  refused :
      (pool : Pool) (b : NetBuffer) (at : Option ℕ) (s : Shim)
      → Writes pool
          (some (false, none, destroy bm pool (record { buffer = some b; pci_at = at }), s))
  unfolding destroy
  refused pool b at s = (
    false,
    none,
    release pool,
    s,
    refl,
    record { answered = refl; counted = available-release pool },
  )

  framed :
      (event_sent : Bool) (pool : Pool) (s : Shim) (len : ℕ) (ha : Gha) (b : NetBuffer)
      (at : Option ℕ) (o : Option Pool)
      → get pool (ethernet_header_size + len) ≡ o
      → Writes pool (
          some
            (put_frame bm event_sent pool s len ha (record { buffer = some b; pci_at = at }) b o))
  unfolding destroy
  framed event_sent pool s len ha b at none e = refused pool b at s
  framed true pool s len ha b at (some pool1) e =
      let counted = available-get pool (ethernet_header_size + len) e in
      (
        true,
        some (frame_buffer ha.mac s.phy_dev len b.ethernet),
        release pool1,
        s,
        refl,
        record { answered = refl; counted = available-release pool1 ∙ sym counted },
      )
  framed false pool s len ha b at (some pool1) e =
      let counted = available-get pool (ethernet_header_size + len) e in
      (
        false,
        none,
        release (release pool1),
        s,
        refl,
        record {
          answered = refl;
          counted =
              omega (arith, available-release (release pool1), available-release pool1, counted);
        },
      )

  written_to :
      (event_sent : Bool) (pool : Pool) (s : Shim) (len : ℕ) (p : Pointer Gha) (b : NetBuffer)
      (at : Option ℕ)
      → IsKnown p
      → Writes pool
          (write_to bm event_sent pool s len p (record { buffer = some b; pci_at = at }) b)
  written_to event_sent pool s len null b at known = refused pool b at s
  written_to event_sent pool s len wild b at known = absurd known
  written_to event_sent pool s len (to ha) b at known =
      framed event_sent pool s len ha b at (get pool (ethernet_header_size + len)) refl

  written_on :
      (event_sent : Bool) (pool : Pool) (s : Shim) (len : ℕ) (found : Option ShimFlow)
      (b : NetBuffer) (at : Option ℕ)
      → FoundLive found
      → Writes pool
          (write_on bm event_sent pool s len found (record { buffer = some b; pci_at = at }) b)
  written_on event_sent pool s len none b at live = refused pool b at s
  written_on event_sent pool s len (some f) b at live =
      let s1 = with_memory (alloc s.arp.memory).1 s in
      let du : Du = record { buffer = some b; pci_at = at } in
      elim (Bool-cases (is_pending f.state)) [
        | inl waits ↦ rw waits (refused pool b at s)
        | inr ready ↦ elim (Bool-cases (alloc s.arp.memory).0) [
          | inr full ↦ rw (ready, full) (refused pool b at s1)
          | inl ok ↦ rw (ready, ok) (written_to event_sent pool s1 len f.dest_ha b at (live ready))
        ]
      ]

  -- While every item of the list of flows points at a flow, and no flow that is not pending has a
  -- wild pointer for its destination, xShimSDUWrite of a data unit with a buffer returns, whatever
  -- the port: it answers whether a frame went out, and the pool has as many buffers as before when
  -- one did, and one more, that of the data unit, when none did.
  pub sdu_write_accounts :
      (event_sent : Bool) (pool : Pool) (s : Shim) (port : ℕ) (b : NetBuffer) (at : Option ℕ)
      → AllLive s.flows
      → Writes pool (sdu_write bm event_sent pool s port (record { buffer = some b; pci_at = at }))
  unfolding sdu_write
  sdu_write_accounts event_sent pool s port b at live = elim (Bool-cases (ltb mtu b.data_length)) [
    | inl large ↦ rw large (refused pool b at s)
    | inr fits ↦
        let (found, e, l) = find_flow-AllLive s port live in
        let s1 = with_memory (alloc s.arp.memory).1 s in
        rw (fits, e) (written_on event_sent pool s1 b.data_length found b at l)
  ]
