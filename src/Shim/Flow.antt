-- ===== src/Shim/Flow.antt =====
-- xShimFlowAllocateRequest and xShimFlowAllocateResponse in components/Shim/WiFi/wifi_IPCP_ops.c,
-- on an instance that is there.
pub mod Allocate
use rinasensev.Prelude.{
  ℕ, Bool, true, false, not, if◌then◌else◌, Option, none, some, ◌>>=◌, is_some,
}
use rinasensev.Memory.{alloc}
use rinasensev.Ids.{is_port_id_ok}
use rinasensev.Names.{Name}
use rinasensev.Gpha.{Gha, is_gpa_ok}
use rinasensev.Arp.{Row, Arp, gpa_at, lookup_gha, row_of_age}
use rinasensev.Arp.Packet
use rinasensev.Arp.Packet.{Frame, resolve_gpa}
use rinasensev.Shim.{
  Pointer, to, pointer_of, PortState, pending, allocated, ShimFlow, Handle, Shim, with_memory,
  flow_add, find_flow_by_port_id, write_in, flow_destroy, put_added, create_queue, name_gpa,
}

-- What the surroundings answer: to ARP, to the creation of a queue, to the search for the active
-- shim instance, and to flowBindingIpcp of a user on a port.
pub record Outside : Type 0 where
  pub arp : Packet.Outside
  pub queue_made : Bool
  pub has_instance : Bool
  pub flow_binding_ipcp : ℕ → ℕ → Bool

-- The answer, the frame of an ARP request that goes out, and the shim.
abbrev pub Outcome : Type 0
Outcome = Bool × Option Frame × Shim

-- The new flow, whose block held two pointers.
abbrev pub new_flow : Pointer Gha → Pointer (Unit {0}) → ℕ → ℕ → Option ℕ → ShimFlow
new_flow held_ha held_queue user port pa = record {
  dest_ha = held_ha;
  dest_pa = pa;
  port_id = port;
  state = pending;
  user_ipcp = user;
  sdu_queue = held_queue;
}

-- The flow that was just added is destroyed; its item stays.
abbrev pub drop_added : Shim → ShimFlow → Option Frame → Option Outcome
drop_added s f sent = do
  s1 ← flow_destroy s f
  some (false, sent, record s1 { flows = put_added none s1.flows })

abbrev pub resolved : ShimFlow → Shim → Bool × Option Frame × Arp → Option Outcome
resolved f s (ok, sent, arp) =
    let s1 = record s { arp = arp } in if ok then some (true, sent, s1) else drop_added s1 f sent

-- A flow that is in the list, with its queue: its address is asked for.
abbrev pub resolve_flow : Outside → Shim → ShimFlow → Option Outcome
resolve_flow o s f = do
  handle ← s.app_handle
  r ← resolve_gpa o.arp s.arp f.dest_pa handle.pa handle.ha
  resolved f s r

abbrev pub set_queue : Pointer (Unit {0}) → ShimFlow → ShimFlow
set_queue q f = record f { sdu_queue = q }

abbrev pub queue_flow : Outside → Shim → ShimFlow → Option Outcome
queue_flow o s f = do
  (q, s1) ← create_queue (flow_add f s) o.queue_made
  let f1 = set_queue q f
  let s2 = record s1 { flows = put_added (some f1) s1.flows }
  if not o.queue_made then drop_added s2 f1 none else resolve_flow o s2 f1

-- The request for a port that no flow has.
unfoldable pub request_new :
    Outside → Pointer Gha → Pointer (Unit {0}) → Shim → ℕ → Name → ℕ → Option Outcome
request_new o held_ha held_queue s user dest port =
    let (ok, m) = alloc s.arp.memory in
    if not ok then some (false, none, with_memory m s) else do
      (pa, s1) ← name_gpa (with_memory m s) (some dest)
      let f = new_flow held_ha held_queue user port pa
      if not (is_gpa_ok (gpa_at s1.arp.gpas pa))
          then (do s2 ← flow_destroy s1 f; some (false, none, s2))
          else queue_flow o s1 f

abbrev pub is_pending : PortState → Bool
is_pending pending = true
is_pending allocated = false

-- xShimFlowAllocateRequest for a user, the names of the two applications and a port.
unfoldable pub flow_allocate_request :
    Outside
    → Pointer Gha
    → Pointer (Unit {0})
    → Shim
    → ℕ
    → Option Name
    → Option Name
    → ℕ
    → Option Outcome
flow_allocate_request o held_ha held_queue s user none dest port = some (false, none, s)
flow_allocate_request o held_ha held_queue s user (some source) none port = some (false, none, s)
flow_allocate_request o held_ha held_queue s user (some source) (some dest) port =
    if not (is_port_id_ok port) then some (false, none, s) else do
      (found, s1) ← find_flow_by_port_id s port
      elim found [
        | none ↦ request_new o held_ha held_queue s1 user dest port
        | some f ↦ some (is_pending f.state, none, s1)
      ]

abbrev pub allocate : Option Gha → ShimFlow → ShimFlow
allocate ha f = record f { state = allocated; dest_ha = pointer_of ha }

-- The block of the copy that pxARPLookupGHA makes of the address in a row.
abbrev pub copied_row : Arp → Shim → Option Row → Shim
copied_row arp s none = s
copied_row arp s (some r) = with_memory (alloc arp.memory).1 s

abbrev pub copied_gha : Arp → Shim → Shim
copied_gha arp s = copied_row arp s (row_of_age 3 arp.cache)

-- xShimFlowAllocateResponse on the flow that was found.
abbrev pub respond_to : Outside → Shim → ShimFlow → ℕ → Option (Bool × Shim)
respond_to o s f port =
    if not (is_pending f.state)
    then some (false, s)
    else if not (o.flow_binding_ipcp f.user_ipcp port)
    then some (false, s)
    else do
      ha ← lookup_gha s.arp (gpa_at s.arp.gpas f.dest_pa)
      some (true, copied_gha s.arp (record s { flows = write_in (allocate ha) s.flows port }))

-- xShimFlowAllocateResponse.
unfoldable pub flow_allocate_response : Outside → Shim → ℕ → Option (Bool × Shim)
flow_allocate_response o s port =
    if not (is_port_id_ok port)
    then some (false, s)
    else if not o.has_instance
    then some (false, s)
    else do
      (found, s1) ← find_flow_by_port_id s port
      elim found [ none ↦ some (false, s1) | some f ↦ respond_to o s1 f port ]
