-- ===== src/Shim.antt =====
-- components/Shim/shim_IPCP_flow.c and the state of components/Shim/WiFi/wifi_IPCP_ops.c: the flows
-- of the shim IPC process and what it registered with ARP.  A pointer that was never set, or whose
-- block was given back, is `wild`; a read through it, like one through NULL, returns `none`. The
-- platform answers whether there is a block for each call (Memory) and for a queue.

pub mod Register
pub mod Flow
pub mod Frames
pub mod Live
pub mod Wire
use rinasensev.Prelude.{
  ℕ, Bool, true, false, not, if◌then◌else◌, ◌==◌, Option, none, some, List, [], ◌∷◌, is_some, ◌>>=◌,
}
use rinasensev.Memory.{Memory, alloc}
use rinasensev.RsList.{insert_behind}
use rinasensev.Names.{Name}
use rinasensev.Gpha.{Gha, Bytes, name_to_gpa}
use rinasensev.Arp.{Arp, store_gpa, gpa_destroy}

pub data Pointer {ℓ} (A : Type ℓ) : Type ℓ where
  null wild : Pointer A
  to : A → Pointer A

abbrev pub is_set {ℓ} : {A : Type ℓ} → Pointer A → Bool
is_set null = false
is_set wild = true
is_set (to a) = true

abbrev pub pointer_of {ℓ} : {A : Type ℓ} → Option A → Pointer A
pointer_of none = null
pointer_of (some a) = to a

-- ePortidState_t without eNULL, which nothing sets.
pub data PortState : Type 0 where
  pending allocated : PortState

-- shimFlow_t. The destination's protocol address stands in the store of ARP; its MAC address is a
-- copy of its own.
pub record ShimFlow : Type 0 where
  pub dest_ha : Pointer Gha
  pub dest_pa : Option ℕ
  pub port_id : ℕ
  pub state : PortState
  pub user_ipcp : ℕ
  pub sdu_queue : Pointer (Unit {0})

-- What pxARPAdd returns: the two addresses that it was given.
pub record Handle : Type 0 where
  pub pa : Option ℕ
  pub ha : Option ℕ

-- struct ipcpInstanceData_t, with the list of flows, whose items point at flows or at memory that
-- was given back (`none`), and the ARP cache.
pub record Shim : Type 0 where
  pub app_name : Pointer Name
  pub daf_name : Pointer Name
  pub phy_dev : Bytes
  pub app_handle : Option Handle
  pub daf_handle : Option Handle
  pub flows : List (Option ShimFlow)
  pub arp : Arp

abbrev pub with_memory : Memory → Shim → Shim
with_memory m s = record s { arp = record s.arp { memory = m } }

-- vShimFlowAdd.
abbrev pub flow_add : ShimFlow → Shim → Shim
flow_add f s = record s { flows = insert_behind (some f) s.flows }

-- The loop of prvShimFindFlowByPortId.
abbrev pub find_in : List (Option ShimFlow) → ℕ → Option (Option ShimFlow)
find_in [] port = some none
find_in (none ∷ flows) port = none
find_in (some f ∷ flows) port =
    let rest = find_in flows port in if f.port_id == port then some (some f) else rest

-- prvShimFindFlowByPortId: without a block, which it leaks, it finds nothing.
unfoldable pub find_flow_by_port_id : Shim → ℕ → Option (Option ShimFlow × Shim)
find_flow_by_port_id s port =
    let (ok, m) = alloc s.arp.memory in
    let s1 = with_memory m s in
    if not ok then some (none, s1) else do found ← find_in s.flows port; some (found, s1)

-- A write through the pointer that the search returns.
abbrev pub write_in : (ShimFlow → ShimFlow) → List (Option ShimFlow) → ℕ → List (Option ShimFlow)
write_in g [] port = []
write_in g (none ∷ flows) port = none ∷ flows
write_in g (some f ∷ flows) port =
    let rest = write_in g flows port in
    if f.port_id == port then some (g f) ∷ flows else some f ∷ rest

-- prvShimFindFlow: the owner of the first item.
abbrev pub find_flow : List (Option ShimFlow) → Option (Option ShimFlow)
find_flow [] = some none
find_flow (none ∷ flows) = none
find_flow (some f ∷ flows) = some (some f)

abbrev pub gives_back {ℓ} : {A : Type ℓ} → Pointer A → Option (Unit {0})
gives_back null = some tt
gives_back wild = none
gives_back (to a) = some tt

-- prvShimFlowDestroy and prvShimUnbindDestroyFlow, but for the item of the flow, which they leave
-- in the list. Both pointers are tested and followed.
unfoldable pub flow_destroy : Shim → ShimFlow → Option Shim
flow_destroy s f = do
  _ ← gives_back f.dest_ha
  _ ← gives_back f.sdu_queue
  some (record s { arp = gpa_destroy s.arp f.dest_pa })

-- A write to the flow that was just added, which is the only one or the second one of the list.
abbrev pub put_added : Option ShimFlow → List (Option ShimFlow) → List (Option ShimFlow)
put_added a [] = []
put_added a (f ∷ []) = a ∷ []
put_added a (f ∷ g ∷ flows) = f ∷ a ∷ flows

-- prvShimCreateQueue: the block for it is written before anyone tests it. The last argument is
-- whether the platform creates a queue.
unfoldable pub create_queue : Shim → Bool → Option (Pointer (Unit {0}) × Shim)
create_queue s made =
    let (ok, m) = alloc s.arp.memory in
    if not ok then none else some (if made then to tt else null, with_memory m s)

-- pxNameToGPA, whose address goes to the store of ARP.
abbrev pub name_gpa : Shim → Option Name → Option (Option ℕ × Shim)
name_gpa s n = do
  (g, m) ← name_to_gpa n s.arp.memory
  let (p, arp) = store_gpa s.arp g m
  some (p, record s { arp = arp })
