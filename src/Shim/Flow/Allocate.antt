-- ===== src/Shim/Flow/Allocate.antt =====
-- The life of a flow of the shim: xShimFlowAllocateRequest and xShimFlowAllocateResponse in
-- components/Shim/WiFi/wifi_IPCP_ops.c, and what a request that fails leaves in the list of
-- components/Shim/shim_IPCP_flow.c.
use rinasensev.Prelude.{
  ℕ, ◌≡◌, refl, ap, ◌∙◌, sym, Bool, true, false, ◌==◌, ==_refl, Bool-cases, inl, inr, Option, none,
  some, List, [], ◌∷◌, arith,
}
use rinasensev.Memory.{Memory, plenty}
use rinasensev.Ids.{is_port_id_ok}
use rinasensev.RsList.{insert_behind}
use rinasensev.Names.{Name}
use rinasensev.Gpha.{Gha, is_gpa_ok}
use rinasensev.Arp.{Row, Arp, gpa_at, gpa_destroy, lookup_gha, row_of_age}
use rinasensev.Arp.Packet.{Frame, resolve_gpa}
use rinasensev.Shim.{
  Pointer, null, allocated, to, ShimFlow, Handle, Shim, with_memory, find_in, find_flow_by_port_id,
  write_in, flow_destroy, put_added, create_queue, name_gpa,
}
use rinasensev.Shim.Flow.{
  Outside, new_flow, set_queue, allocate, request_new, flow_allocate_request,
  flow_allocate_response, copied_row, copied_gha, resolved,
}

some-none {ℓ} : {A : Type ℓ} (a : A) → some a ≡ none → ⊥
some-none a h = cc

-- What stands behind the first item when a search came to nothing.
absent_later :
    (f : ShimFlow) (flows : List (Option ShimFlow)) (port : ℕ)
    → find_in (some f ∷ flows) port ≡ some none
    → (f.port_id == port) ≡ false
absent_later f flows port h = elim (Bool-cases (f.port_id == port)) [
  | inl same ↦ absurd (ground (arith, same, h))
  | inr other ↦ other
]

find_in-insert_behind :
    (f : ShimFlow) (flows : List (Option ShimFlow)) (port : ℕ)
    → f.port_id ≡ port
    → find_in flows port ≡ some none
    → find_in (insert_behind (some f) flows) port ≡ some (some f)
find_in-insert_behind f [] port e h = rw (e, ==_refl port) refl
find_in-insert_behind f (none ∷ flows) port e h = absurd (some-none none (sym h))
find_in-insert_behind f (some g ∷ flows) port e h =
    rw (absent_later g flows port h, e, ==_refl port) refl

-- A freed item in that place is read by every search that comes to nothing before it.
find_in-freed :
    (flows : List (Option ShimFlow)) (port : ℕ)
    → find_in flows port ≡ some none
    → find_in (insert_behind none flows) port ≡ none
find_in-freed [] port h = refl
find_in-freed (none ∷ flows) port h = refl
find_in-freed (some g ∷ flows) port h = rw (absent_later g flows port h) refl

write_in-insert_behind :
    (change : ShimFlow → ShimFlow) (f : ShimFlow) (flows : List (Option ShimFlow)) (port : ℕ)
    → f.port_id ≡ port
    → find_in flows port ≡ some none
    → write_in change (insert_behind (some f) flows) port ≡ insert_behind (some (change f)) flows
write_in-insert_behind change f [] port e h = rw (e, ==_refl port) refl
write_in-insert_behind change f (none ∷ flows) port e h = absurd (some-none none (sym h))
write_in-insert_behind change f (some g ∷ flows) port e h =
    rw (absent_later g flows port h, e, ==_refl port) refl

put_added-insert_behind :
    (a b : Option ShimFlow) (flows : List (Option ShimFlow))
    → put_added a (insert_behind b flows) ≡ insert_behind a flows
put_added-insert_behind a b [] = refl
put_added-insert_behind a b (x ∷ flows) = refl

gpa_destroy-memory : (arp : Arp) (pa : Option ℕ) → (gpa_destroy arp pa).memory ≡ arp.memory
gpa_destroy-memory arp none = refl
gpa_destroy-memory arp (some p) = elim (Bool-cases (is_gpa_ok (gpa_at arp.gpas (some p)))) [
  | inl good ↦ rw good refl
  | inr bad ↦ rw bad refl
]

copied_row-flows : (arp : Arp) (t : Shim) (r : Option Row) → (copied_row arp t r).flows ≡ t.flows
copied_row-flows arp t none = refl
copied_row-flows arp t (some r) = refl

-- The flow of a request, once it has its queue.
abbrev pub asked_flow : Pointer Gha → Pointer (Unit {0}) → ℕ → ℕ → Option ℕ → ShimFlow
asked_flow held_ha held_queue user port pa =
    set_queue (to tt) (new_flow held_ha held_queue user port pa)

-- A request for a new port that gets as far as the question for the address.
module _ (o : Outside) (held_ha : Pointer Gha) (held_queue : Pointer (Unit {0})) (s : Shim)
    (m m1 : Memory) (arp1 arp' : Arp) (user port : ℕ) (source dest : Name) (pa : Option ℕ)
    (h : Handle) (asked : Bool) (sent : Option Frame) where
  abbrev pub requested_flow : ShimFlow
  requested_flow = asked_flow held_ha held_queue user port pa

  pub record Asks : Type 0 where
    pub memory : s.arp.memory ≡ plenty 2 m
    pub good_port : is_port_id_ok port ≡ true
    pub new_port : find_in s.flows port ≡ some none
    pub named : name_gpa (with_memory m s) (some dest) ≡ some (pa, record s { arp = arp1 })
    pub good_address : is_gpa_ok (gpa_at arp1.gpas pa) ≡ true
    pub memory_left : arp1.memory ≡ true ∷ m1
    pub queue : o.queue_made ≡ true
    pub handle : s.app_handle ≡ some h
    pub resolves :
        resolve_gpa o.arp (record arp1 { memory = m1 }) pa h.pa h.ha ≡ some (asked, sent, arp')

  -- The shim with the new flow in the list.
  abbrev pub with_flow : Arp → Option ShimFlow → Shim
  with_flow arp f = record s { flows = insert_behind f s.flows; arp = arp }

  request_new-Asks :
      Asks
      → request_new o held_ha held_queue (with_memory (true ∷ m) s) user dest port
        ≡ resolved requested_flow
            (with_flow (record arp1 { memory = m1 }) (some requested_flow))
            (asked, sent, arp')
  unfolding request_new create_queue
  request_new-Asks a =
      let f = new_flow held_ha held_queue user port pa in
      rw
        (
          a.named,
          a.good_address,
          a.memory_left,
          a.queue,
          put_added-insert_behind (some requested_flow) (some f) s.flows,
          a.handle,
          a.resolves,
        )
        refl

  flow_allocate_request-Asks :
      Asks
      → flow_allocate_request o held_ha held_queue s user (some source) (some dest) port
        ≡ resolved requested_flow
            (with_flow (record arp1 { memory = m1 }) (some requested_flow))
            (asked, sent, arp')
  unfolding flow_allocate_request find_flow_by_port_id
  flow_allocate_request-Asks a = rw (a.good_port, a.memory, a.new_port) (request_new-Asks a)

  respond_to-pending :
      (arp2 : Arp) (m2 : Memory) (ha : Gha)
      → find_in s.flows port ≡ some none
      → is_port_id_ok port ≡ true
      → o.has_instance ≡ true
      → o.flow_binding_ipcp user port ≡ true
      → arp2.memory ≡ true ∷ m2
      → lookup_gha (record arp2 { memory = m2 }) (gpa_at arp2.gpas pa) ≡ some (some ha)
      → flow_allocate_response o (with_flow arp2 (some requested_flow)) port
        ≡ some (
          true,
          copied_gha
              (record arp2 { memory = m2 })
              (with_flow (record arp2 { memory = m2 }) (some (allocate (some ha) requested_flow))),
        )
  unfolding flow_allocate_response find_flow_by_port_id
  respond_to-pending arp2 m2 ha absent good instance_there binds memory found =
      let listed = find_in-insert_behind requested_flow s.flows port refl absent in
      let written =
        write_in-insert_behind (allocate (some ha)) requested_flow s.flows port refl absent in
      rw (good, instance_there, memory, listed, binds, found)
        (ap
          (λ flows. some (
            true,
            copied_gha (record arp2 { memory = m2 })
                (record s { flows = flows; arp = record arp2 { memory = m2 } }),
          ))
          written)

  -- A request for a port that no flow has, in a shim with an application registered, with memory, a
  -- queue and a good address for the destination, whose ARP request goes out; and the response for
  -- that port, once ARP holds an address for the destination and has a block for the search, where
  -- the shim has an instance and the user binds the flow. Both succeed, the request is what ARP
  -- sends, and the flow of the port is then allocated, with the address that ARP holds.
  pub request_then_response :
      (arp2 : Arp) (m2 : Memory) (ha : Gha)
      → Asks
      → asked ≡ true
      → o.has_instance ≡ true
      → o.flow_binding_ipcp user port ≡ true
      → arp2.memory ≡ true ∷ m2
      → lookup_gha (record arp2 { memory = m2 }) (gpa_at arp2.gpas pa) ≡ some (some ha)
      → (s2 : Shim) × (s3 : Shim) × (flow_allocate_request o held_ha held_queue s user
            (some source)
            (some dest)
            port
          ≡ some (true, sent, s2))
        × (flow_allocate_response o (record s2 { arp = arp2 }) port ≡ some (true, s3))
        × (find_in s3.flows port
            ≡ some (some (record requested_flow { state = allocated; dest_ha = to ha })))
  request_then_response arp2 m2 ha a went instance_there binds memory found =
      let t = with_flow (record arp2 { memory = m2 }) (some (allocate (some ha) requested_flow)) in
      let arp_left : Arp = record arp2 { memory = m2 } in
      (
        with_flow arp' (some requested_flow),
        copied_gha arp_left t,
        rw went at (flow_allocate_request-Asks a),
        respond_to-pending arp2 m2 ha a.new_port a.good_port instance_there binds memory found,
        ap (λ flows. find_in flows port) (copied_row-flows arp_left t (row_of_age 3 arp2.cache))
            ∙ find_in-insert_behind (allocate (some ha) requested_flow) s.flows port refl
                a.new_port,
      )

  request-stuck :
      Asks
      → asked ≡ false
      → held_ha ≡ null
      → flow_allocate_request o held_ha held_queue s user (some source) (some dest) port
        ≡ some (false, sent, with_flow (gpa_destroy arp' pa) none)
  unfolding flow_destroy
  request-stuck a stuck blank =
      flow_allocate_request-Asks a
      ∙ rw (stuck, blank)
          (ap (λ flows. some (false, sent, record s { flows = flows; arp = gpa_destroy arp' pa }))
            (put_added-insert_behind none (some (record requested_flow { dest_ha = null }))
              s.flows))

  request-dangling :
      (o' : Outside) (arp2 : Arp) (m2 : Memory) (ha : Pointer Gha) (queue : Pointer (Unit {0}))
      (user' other : ℕ) (source' dest' : Name)
      → arp2.memory ≡ true ∷ m2
      → is_port_id_ok other ≡ true
      → find_in s.flows other ≡ some none
      → flow_allocate_request o' ha queue
          (with_flow arp2 none)
          user'
          (some source')
          (some dest')
          other
        ≡ none
  unfolding flow_allocate_request find_flow_by_port_id
  request-dangling o' arp2 m2 ha queue user' other source' dest' memory good absent =
      rw (good, memory, find_in-freed s.flows other absent) refl

  -- A request for a port that no flow has, in a shim with an application registered, with memory, a
  -- queue and a good address for the destination, where the ARP request does not go out, in a block
  -- that held NULL for the destination's MAC address: it answers false and frees the flow, whose
  -- item stays in the list. With memory for the search, every later request for a port that is not
  -- wrong and that no flow had, this one's port among them, then reads the freed flow.
  pub failed_request_dangles :
      (o' : Outside) (m2 : Memory) (held_ha' : Pointer Gha) (held_queue' : Pointer (Unit {0}))
      (user' other : ℕ) (source' dest' : Name)
      → Asks
      → asked ≡ false
      → held_ha ≡ null
      → arp'.memory ≡ true ∷ m2
      → is_port_id_ok other ≡ true
      → find_in s.flows other ≡ some none
      → (s2 : Shim) × (flow_allocate_request o held_ha held_queue s user
            (some source)
            (some dest)
            port
          ≡ some (false, sent, s2))
        × (flow_allocate_request o' held_ha' held_queue' s2 user' (some source') (some dest') other
            ≡ none)
  failed_request_dangles o' m2 held_ha' held_queue' user' other source' dest' a stuck blank mem good
        absent =
      (
        with_flow (gpa_destroy arp' pa) none,
        request-stuck a stuck blank,
        request-dangling o' (gpa_destroy arp' pa) m2 held_ha' held_queue' user' other source' dest'
            (gpa_destroy-memory arp' pa ∙ mem) good absent,
      )
