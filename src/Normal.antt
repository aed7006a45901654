-- ===== src/Normal.antt =====
-- components/Ipcp/IPCP_ops.c: the normal IPC process, with the flows of its applications over the
-- EFCP container and the RMT, and the way of management PDUs between the RIB daemon and the RMT.
-- The block of a data unit is there when it is asked for.
pub mod Management
pub mod Delivery
pub mod Events
pub mod Flows
use rinasensev.Prelude.{
  ℕ, ◌%◌, ◌^◌, Bool, true, false, not, ◌&&◌, ◌||◌, ◌==◌, if◌then◌else◌, Option, none, some, List,
  [], ◌∷◌, take, drop, is_some, ◌>>=◌,
}
use rinasensev.Memory.{Memory, alloc}
use rinasensev.Buffers.{Buffers}
use rinasensev.Ids.{is_port_id_ok, is_cep_id_ok, cep_id_wrong}
use rinasensev.RsList.{insert_behind}
use rinasensev.Gpha.{Bytes}
use rinasensev.Pci.{Pci, pdu_type_mgmt}
use rinasensev.Du
use rinasensev.Du.{NetBuffer, Du, store_pci}
use rinasensev.Dtp.{discard}
use rinasensev.Efcp
use rinasensev.Rmt
use rinasensev.Rmt.{send_port_id}
use rinasensev.Outbound.{container_write}
use rinasensev.Stack.{World, Env}
use rinasensev.Cdap.{Cdap}
use rinasensev.Ribd.{Ribd}
use rinasensev.Ribd.Handle.{Codec, Call, process_layer_management_pdu}

-- eNormalFlowState_t.
pub data FlowState : Type 0 where
  null pending allocated deallocated disabled : FlowState

-- struct normalFlow_t, without the list of CEP-ids, which nothing fills, and the handle, which
-- nothing sets.
pub record NormalFlow : Type 0 where
  pub port_id : ℕ
  pub active : ℕ
  pub state : FlowState

abbrev pub is_allocated : FlowState → Bool
is_allocated null = false
is_allocated pending = false
is_allocated allocated = true
is_allocated deallocated = false
is_allocated disabled = false

-- prvNormalFindFlow.
abbrev pub find_flow : List NormalFlow → ℕ → Option NormalFlow
find_flow [] port = none
find_flow (f ∷ flows) port =
    let rest = find_flow flows port in if f.port_id == port then some f else rest

-- A write through the pointer that it returns.
abbrev pub write_flow : (NormalFlow → NormalFlow) → List NormalFlow → ℕ → List NormalFlow
write_flow g [] port = []
write_flow g (f ∷ flows) port =
    let rest = write_flow g flows port in if f.port_id == port then g f ∷ flows else f ∷ rest

-- xNormalFlowPrebind: the block of the flow held `held_active` for its CEP-id.
unfoldable pub flow_prebind : List NormalFlow → ℕ → (has_memory : Bool) → ℕ → Bool × List NormalFlow
flow_prebind flows port has_memory held_active =
    if has_memory
    then (
      true,
      insert_behind (record { port_id = port; active = held_active; state = pending }) flows,
    )
    else (false, flows)

-- The changes of a flow that is found, and the answer whether it is.
abbrev pub change_flow : (NormalFlow → NormalFlow) → List NormalFlow → ℕ → Bool × List NormalFlow
change_flow g flows port = (is_some (find_flow flows port), write_flow g flows port)

-- xNormalUpdateFlowStatus.
unfoldable pub update_flow_status : List NormalFlow → ℕ → FlowState → Bool × List NormalFlow
update_flow_status flows port state = change_flow (λ f. record f { state = state }) flows port

-- xNormalUpdateCepIdFlow.
unfoldable pub update_cep_id_flow : List NormalFlow → ℕ → ℕ → Bool × List NormalFlow
update_cep_id_flow flows port cep = change_flow (λ f. record f { active = cep }) flows port

abbrev pub has_allocated : Option NormalFlow → Bool
has_allocated none = false
has_allocated (some f) = is_allocated f.state

-- xNormalIsFlowAllocated.
unfoldable pub is_flow_allocated : List NormalFlow → ℕ → Bool
is_flow_allocated flows port = has_allocated (find_flow flows port)

-- prvFindFlowCepid.
abbrev pub find_flow_cepid : List NormalFlow → ℕ → Option NormalFlow
find_flow_cepid [] cep = none
find_flow_cepid (f ∷ flows) cep =
    let rest = find_flow_cepid flows cep in if f.active == cep then some f else rest

-- pxIpcpCreate: the four blocks, and whether the EFCP container and the RMT are made. `none` is
-- NULL; a new IPC process has no flow.
unfoldable pub ipcp_create : Memory → (efcp rmt : Bool) → Option (List NormalFlow) × Memory
ipcp_create m efcp rmt =
    let (ok1, m1) = alloc m in
    let (ok2, m2) = alloc m1 in
    let (ok3, m3) = alloc m2 in
    let (ok4, m4) = alloc m3 in
    (if ok1 && ok2 && ok3 && ok4 && efcp && rmt then some [] else none, m4)

-- The header of a management PDU around a buffer of `size` bytes.
unfoldable pub mgmt_header : ℕ → Pci
mgmt_header size = record {
  version = 1;
  destination = 0;
  source = Efcp.local_address;
  qos_id = 1;
  cep_destination = 0;
  cep_source = 0;
  pdu_type = pdu_type_mgmt;
  flags = 0;
  pdu_len = size % 2 ^ 16;
  sequence_number = 0;
}

-- pucDataBuffer and xDataLength of a buffer.
abbrev pub data_of : NetBuffer → Bytes
data_of b = take b.data_length (drop b.data_offset b.ethernet)

module _ (bm : Buffers) where
  -- xNormalDuWrite of a buffer, on the flow of the port.
  abbrev pub write_on :
      Env → World bm → (has_rmt : Bool) → Option NormalFlow → Du → Option (Bool × World bm)
  write_on env w has_rmt none du = some (false, discard bm w du)
  write_on env w has_rmt (some f) du =
      if is_allocated f.state
      then container_write bm env w has_rmt f.active du
      else some (false, discard bm w du)

  unfoldable pub du_write :
      Env → World bm → (has_rmt : Bool) → List NormalFlow → ℕ → NetBuffer → Option (Bool × World bm)
  du_write env w has_rmt flows port b =
      write_on env w has_rmt (find_flow flows port) (record { buffer = some b; pci_at = none })

  -- xNormalDuEnqueue.
  unfoldable pub du_enqueue : Env → World bm → (has_rmt : Bool) → ℕ → Du → Option (Bool × World bm)
  du_enqueue env w has_rmt port du = Rmt.receive bm env w has_rmt du port

  -- xNormalConnectionCreateRequest: CEP_ID_WRONG when there is no connection.
  unfoldable pub connection_create_request :
      World bm
      → (port destination qos : ℕ) → (has_memory has_dtp dtcp_word : Bool) → Option (ℕ × World bm)
  connection_create_request w port destination qos has_memory has_dtp dtcp_word = do
    (cep, w1) ←
        Efcp.connection_create bm w destination port qos cep_id_wrong has_memory has_dtp dtcp_word
    some (if is_cep_id_ok cep then cep else cep_id_wrong, w1)

  -- xNormalConnectionModify.
  unfoldable pub connection_modify :
      World bm → ℕ → (source destination : ℕ) → Option (Bool × World bm)
  connection_modify w cep source destination = Efcp.connection_modify bm w cep source destination

  -- xNormalConnectionUpdate: the flow of the application's port is then allocated.
  unfoldable pub connection_update :
      World bm → List NormalFlow → ℕ → (from to : ℕ) → Option (Bool × List NormalFlow × World bm)
  connection_update w flows port from to = do
    (ok, w1) ← Efcp.connection_update bm w from to
    let (found, flows1) = change_flow (λ f. record f { state = allocated }) flows port
    some (if ok then (found, flows1, w1) else (false, flows, w1))

  -- xNormalConnectionDestroy: the answer is whether a flow has the CEP-id.
  unfoldable pub connection_destroy : World bm → List NormalFlow → ℕ → Bool × World bm
  connection_destroy w flows cep =
      (is_some (find_flow_cepid flows cep), (Efcp.connection_destroy bm w cep).1)

  -- xNormalMgmtDuWrite behind the answer of xDuEncap.
  abbrev pub after_encap :
      Env → World bm → ℕ → Option (Bool × bm.Pool × Du) → Option (Bool × World bm)
  after_encap env w port none = none
  after_encap env w port (some (false, pool, du)) =
      some (false, discard bm (record w { pool = pool }) du)
  after_encap env w port (some (true, pool, du)) = do
    b ← du.buffer
    at ← du.pci_at
    let sealed : Du = record {
      buffer = some (store_pci (mgmt_header b.data_length) b at);
      pci_at = some at;
    }
    let w1 : World bm = record w { pool = pool }
    some (if port == 0 then (false, discard bm w1 sealed) else send_port_id bm env w1 sealed)

  -- xNormalMgmtDuWrite of a data unit, or NULL, to an N-1 port.
  unfoldable pub mgmt_du_write :
      Env → World bm → (has_rmt : Bool) → ℕ → Option Du → Option (Bool × World bm)
  mgmt_du_write env w has_rmt port none = some (false, w)
  mgmt_du_write env w has_rmt port (some du) =
      if has_rmt then after_encap env w port (Du.encap bm w.pool du) else some (false, w)

  -- vRibdSentCdapMsg, whose failure is only logged.
  unfoldable pub sent_cdap_msg :
      Env → World bm → (has_rmt : Bool) → ℕ → NetBuffer → Option (World bm)
  sent_cdap_msg env w has_rmt port b = do
    (_, w1) ← mgmt_du_write env w has_rmt port (some (record { buffer = some b; pci_at = none }))
    some w1

  -- xNormalMgmtDuPost: the RIB daemon reads the data, and the data unit is destroyed.
  unfoldable pub mgmt_du_post :
      Codec → Cdap → Ribd → World bm → ℕ → Du → Option (Bool × Ribd × Option Call × World bm)
  mgmt_du_post k held s w port du =
      if is_port_id_ok port
      then (do
        b ← du.buffer
        (ok, s1, call) ← process_layer_management_pdu k held s (data_of b) port
        some (ok, s1, call, discard bm w du))
      else some (false, s, none, discard bm w du)

  -- The case of eStackRxEvent in the task of components/Ipcp/IPCP_task.c: a data unit that is not
  -- taken is destroyed.
  unfoldable pub stack_rx : Env → World bm → (has_rmt : Bool) → Du → Option (World bm)
  stack_rx env w has_rmt du = do
    (ok, w1) ← du_enqueue env w has_rmt 1 du
    some (if ok then w1 else discard bm w1 du)

  -- The case of eStackTxEvent there: the answer of the write is not used.
  unfoldable pub stack_tx :
      Env → World bm → (has_rmt : Bool) → List NormalFlow → ℕ → NetBuffer → Option (World bm)
  stack_tx env w has_rmt flows port b = do (_, w1) ← du_write env w has_rmt flows port b; some w1
