-- ===== src/Manager.antt =====
-- components/Rina-manager/IPCP_manager.c: the table of IPC processes and the numbers that name them
-- and their ports, in the build with SHIM_802154_MODULE.
pub mod Start
use rinasensev.Prelude.{
  ℕ, ◌%◌, ◌^◌, Bool, true, false, not, ◌&&◌, ◌==◌, if◌then◌else◌, Option, none, some, is_some, List,
  replicate, ◌>>=◌,
}
use rinasensev.Memory.{Memory, alloc}
use rinasensev.NumMgr
use rinasensev.NumMgr.{NumMgr}
use rinasensev.Table
use rinasensev.Table.{Slot}
use rinasensev.Normal.{ipcp_create}

-- ipcpInstanceType_t.
pub data IpcpType : Type 0 where
  shim_wifi normal shim_802154 : IpcpType

abbrev pub same_type : IpcpType → IpcpType → Bool
same_type shim_wifi shim_wifi = true
same_type normal normal = true
same_type shim_802154 shim_802154 = true
same_type a b = false

-- struct ipcpInstance_t: what the manager reads of it. A row of the table repeats the two.
pub record Instance : Type 0 where
  pub id : ℕ
  pub type : IpcpType

-- ipcManager_t, with xInstanceTable.
pub record Manager : Type 0 where
  pub pidm : NumMgr
  pub ipcp_idm : NumMgr
  pub instances : List (Slot Instance)

abbrev pub instances_ipcp_entries : ℕ
instances_ipcp_entries = 5

-- portId_t has 32 bits, ipcProcessId_t has 16.
abbrev pub max_port_id : ℕ
max_port_id = 2047

abbrev pub max_ipcp_id : ℕ
max_ipcp_id = 1023

-- xInstanceTable before anything is added.
abbrev pub blank_table : List (Slot Instance)
blank_table =
    replicate instances_ipcp_entries
      (record { valid = false; item = record { id = 0; type = shim_wifi } })

-- prvIpcpMngrAddInstanceEntry.
unfoldable pub add_instance_entry : Instance → Manager → Manager
add_instance_entry i mgr = record mgr { instances = Table.insert i mgr.instances }

-- pxIpcManagerFindInstanceById.
unfoldable pub find_instance_by_id : Manager → ℕ → Option Instance
find_instance_by_id mgr id = Table.find (λ i. i.id == id) mgr.instances

-- pxIpcManagerFindInstanceByType.
unfoldable pub find_instance_by_type : Manager → IpcpType → Option Instance
find_instance_by_type mgr type = Table.find (λ i. same_type i.type type) mgr.instances

-- pxIpcManagerActiveNormalInstance and pxIpcManagerActiveShimInstance.
unfoldable pub active_normal_instance : Manager → Option Instance
active_normal_instance mgr = find_instance_by_type mgr normal

unfoldable pub active_shim_instance : Manager → Option Instance
active_shim_instance mgr = find_instance_by_type mgr shim_802154

-- xIpcMngrInit: the block, what pvRsMemAlloc answers for the two number managers, and whether the
-- network buffers are initialised. Without a block the code writes through NULL.
unfoldable pub init :
    (has_block struct1 bits1 struct2 bits2 has_buffers : Bool) → Option (Option Manager)
init has_block struct1 bits1 struct2 bits2 has_buffers =
    if has_block
    then some (do
      ports ← NumMgr.create struct1 bits1 max_port_id
      ids ← NumMgr.create struct2 bits2 max_ipcp_id
      if has_buffers
          then some (record { pidm = ports; ipcp_idm = ids; instances = blank_table })
          else none)
    else none

-- xIpcMngrAllocatePortId: `none` where the search does not end.
unfoldable pub allocate_port_id : Manager → Option (ℕ × Manager)
allocate_port_id mgr = do
  (id, ports) ← NumMgr.allocate mgr.pidm
  some (id, record mgr { pidm = ports })

-- pxIpcMngrCreateNormal.
unfoldable pub create_normal :
    (efcp rmt : Bool) → Memory → Manager → Option (Option Instance × Memory × Manager)
create_normal efcp rmt m mgr = do
  (id, ids) ← NumMgr.allocate mgr.ipcp_idm
  let (flows, m1) = ipcp_create m efcp rmt
  let made : Instance = record { id = id % 2 ^ 16; type = normal }
  some (if is_some flows then some made else none, m1, record mgr { ipcp_idm = ids })

-- pxShim802154Create of components/Shim/ieee802154/ieee802154_IPCP_ops.c: the flow specification
-- and the name are written to without a test.
unfoldable pub shim_create : ℕ → Memory → Option (Option Instance × Memory)
shim_create id m =
    let (dev, m1) = alloc m in
    let (inst, m2) = alloc m1 in
    let (inst_data, m3) = alloc m2 in
    let (spec, m4) = alloc m3 in
    let (name, m5) = alloc m4 in
    if not dev
    then some (none, m1)
    else if not inst
    then some (none, m2)
    else if not inst_data
    then some (none, m3)
    else if spec && name
    then some (some (record { id = id; type = shim_802154 }), m5)
    else none

-- pxIpcMngrCreateShim.
unfoldable pub create_shim : Memory → Manager → Option (Option Instance × Memory × Manager)
create_shim m mgr = do
  (id, ids) ← NumMgr.allocate mgr.ipcp_idm
  (made, m1) ← shim_create (id % 2 ^ 16) m
  some (made, m1, record mgr { ipcp_idm = ids })

-- xIpcMngrInitRinaStack. The answers of xIpcpInit and xShim802154EnrollToDIF are arguments; an
-- instance that was not made is read through NULL.
unfoldable pub init_rina_stack :
    (efcp rmt task enrolled : Bool) → Memory → Manager → Option (Bool × Memory × Manager)
init_rina_stack efcp rmt task enrolled m mgr = do
  (made, m1, mgr1) ← create_normal efcp rmt m mgr
  n ← made
  let mgr2 = add_instance_entry n mgr1
  if not task then some (false, m1, mgr2) else do
    (shim_made, m2, mgr3) ← create_shim m1 mgr2
    s ← shim_made
    some (enrolled, m2, add_instance_entry s mgr3)
