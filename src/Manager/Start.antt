-- ===== src/Manager/Start.antt =====
-- The start of the stack in components/Rina-manager/IPCP_manager.c.
use rinasensev.Prelude.{
  ℕ, ◌≤◌, ◌<◌, ◌≡◌, ◌≢◌, refl, sym, ◌∙◌, Bool, true, false, ◌==◌, ==_ne, ==_refl, ==_iff, none,
  some, arith, ◌%◌, ◌^◌, Bool-cases, inl, inr,
}
use rinasensev.Memory.{Memory, plenty}
use rinasensev.NumMgr
use rinasensev.NumMgr.{NumMgr}
use rinasensev.NumMgr.Invariant.{IsValid, create_lem}
use rinasensev.NumMgr.Exhausted.{Allocated, allocate_succeeds}
use rinasensev.Table
use rinasensev.Normal.{ipcp_create}
use rinasensev.Manager.{
  create_normal, create_shim, shim_create, normal, shim_802154, Instance, Manager, max_port_id,
  max_ipcp_id, blank_table, init, add_instance_entry, init_rina_stack, find_instance_by_type,
  find_instance_by_id, active_normal_instance, active_shim_instance,
}

another : (k : ℕ) → (n : ℕ) × (0 < n) × (n < 3) × (n ≢ k)
another k = elim (Bool-cases (k == 1)) [
  | inl one ↦ (2, omega arith, omega arith, λ e. ground (arith, one, e))
  | inr other ↦ (1, omega arith, omega arith, λ e. ground (arith, other, e))
]

allocated_twice : (im : NumMgr) (i j : ℕ) → Allocated im i → Allocated (NumMgr.taken im i) j → i ≢ j
allocated_twice im i j a b e =
    let marked : NumMgr.is_allocated (NumMgr.taken im i) j ≡ true =
      a.marks j ∙ rw ((==_iff i j).1 e) refl in
    let was_free = b.was_free in absurd (ground (arith, marked, was_free))

next :
    (im : NumMgr) (i : ℕ)
    → 3 ≤ im.num_cnt
    → ((n : ℕ) → NumMgr.is_allocated im n ≡ false)
    → Allocated im i
    → (j : ℕ) × Allocated (NumMgr.taken im i) j
unfolding NumMgr.taken
next im i room free a =
    let (n, pos, low, ne) = another i in
    let unmarked : NumMgr.is_allocated (NumMgr.taken im i) n ≡ false =
      a.marks n ∙ rw (==_ne i n (λ e. ne (sym e))) (free n) in
    allocate_succeeds (NumMgr.taken im i) n a.valid pos (omega (arith, low, room)) ne unmarked

two :
    (im : NumMgr)
    → IsValid im
    → 3 ≤ im.num_cnt
    → ((n : ℕ) → NumMgr.is_allocated im n ≡ false)
    → (i : ℕ) × (j : ℕ) × Allocated im i × Allocated (NumMgr.taken im i) j
two im v room free =
    let (n, pos, low, ne) = another im.last_allocated in
    let (i, a) = allocate_succeeds im n v pos (omega (arith, low, room)) ne (free n) in
    let (j, b) = next im i room free a in (i, j, a, b)

abbrev normal_of : ℕ → Instance
normal_of i = record { id = i; type = normal }

abbrev shim_of : ℕ → Instance
shim_of j = record { id = j; type = shim_802154 }

-- The manager with the two instances.
abbrev pub started : Manager → ℕ → ℕ → Manager
started mgr i j = record mgr {
  ipcp_idm = NumMgr.taken (NumMgr.taken mgr.ipcp_idm i) j;
  instances = Table.insert (shim_of j) (Table.insert (normal_of i) blank_table);
}

init_rina_stack-two :
    (mgr : Manager) (i j : ℕ) (m : Memory) (enrolled : Bool)
    → Allocated mgr.ipcp_idm i
    → Allocated (NumMgr.taken mgr.ipcp_idm i) j
    → mgr.ipcp_idm.num_cnt ≤ 2 ^ 16
    → mgr.instances ≡ blank_table
    → init_rina_stack true true true enrolled (plenty 9 m) mgr ≡ some (enrolled, m, started mgr i j)
unfolding init_rina_stack create_normal ipcp_create create_shim shim_create add_instance_entry
    NumMgr.taken
init_rina_stack-two mgr i j m enrolled a b small blank =
    let first = a.returns in
    let second = b.returns in
    let i_fits : i % 2 ^ 16 ≡ i = omega (arith, a.in_range, small) in
    let j_fits : j % 2 ^ 16 ≡ j = omega (arith, b.in_range, small) in
    rw (first, second, i_fits, j_fits, blank) refl

found_by_id :
    (mgr : Manager) (i j : ℕ)
    → i ≢ j
    → (find_instance_by_id (started mgr i j) i ≡ some (normal_of i))
      × (find_instance_by_id (started mgr i j) j ≡ some (shim_of j))
unfolding find_instance_by_id
found_by_id mgr i j ne = (rw (==_refl i) refl, rw (==_ne i j ne, ==_refl j) refl)

-- xIpcMngrInit, where every block is there and the network buffers are initialised, gives a manager
-- with an empty table. xIpcMngrInitRinaStack then, where its nine blocks are there and the EFCP
-- container, the RMT and the task are made, answers what the shim's enrollment answers. The two IPC
-- processes have different numbers, and each is found by its number and as the active one of its
-- kind; no other number is found.
pub stack_is_found :
    (m : Memory) (enrolled : Bool)
    → (mgr : Manager) × (mgr' : Manager) × (i : ℕ) × (j : ℕ) × (init true true true true true true
        ≡ some (some mgr))
      × ((id : ℕ) → find_instance_by_id mgr id ≡ none)
      × (init_rina_stack true true true enrolled (plenty 9 m) mgr ≡ some (enrolled, m, mgr'))
      × (i ≢ j)
      × (active_normal_instance mgr' ≡ some (record { id = i; type = normal }))
      × (active_shim_instance mgr' ≡ some (record { id = j; type = shim_802154 }))
      × (find_instance_by_id mgr' i ≡ active_normal_instance mgr')
      × (find_instance_by_id mgr' j ≡ active_shim_instance mgr')
      × ((id : ℕ) → i ≢ id → j ≢ id → find_instance_by_id mgr' id ≡ none)
unfolding init active_normal_instance active_shim_instance find_instance_by_type find_instance_by_id
stack_is_found m enrolled =
    let (ports, made_ports, _, _, _) = (create_lem max_port_id (omega arith)).0 (omega arith) in
    let (ids, made_ids, count, valid, free) =
      (create_lem max_ipcp_id (omega arith)).0 (omega arith) in
    let mgr : Manager = record { pidm = ports; ipcp_idm = ids; instances = blank_table } in
    let (i, j, a, b) = two ids valid (omega (arith, count)) free in
    let ne = allocated_twice ids i j a b in
    let by_id = found_by_id mgr i j ne in
    (
      mgr,
      started mgr i j,
      i,
      j,
      rw (made_ports, made_ids) refl,
      λ id. refl,
      init_rina_stack-two mgr i j m enrolled a b (omega (arith, count)) refl,
      ne,
      refl,
      refl,
      by_id.0,
      by_id.1,
      λ id not_i not_j. rw (==_ne i id not_i, ==_ne j id not_j) refl,
    )
