-- ===== src/Rmt.antt =====
-- components/Ipcp/Modules/rmt.c: the relaying and multiplexing task between the EFCP container and
-- the one N-1 port.
pub mod Receive
pub mod Send
use rinasensev.Prelude.{
  ℕ, ◌+◌, ◌%◌, ◌^◌, ltb, Bool, true, false, not, ◌&&◌, ◌||◌, ◌==◌, if◌then◌else◌, Option, none,
  some,
}
use rinasensev.Buffers.{Buffers}
use rinasensev.Ids.{is_port_id_ok, is_cep_id_ok, is_address_ok, is_qos_id_ok}
use rinasensev.Pci
use rinasensev.Pci.{
  Pci, pdu_type_mgmt, pdu_type_cack, pdu_type_sack, pdu_type_nack, pdu_type_fc, pdu_type_ack,
  pdu_type_ack_and_fc, pdu_type_rendezvous, pdu_type_dt,
}
use rinasensev.Du
use rinasensev.Du.{Du}
use rinasensev.Dtp.{discard}
use rinasensev.Efcp
use rinasensev.Efcp.{local_address}
use rinasensev.Stack.{N1Port, PortState, World, Env, Event, emit, managed, written}

-- pxRmtN1PortCreate
unfoldable pub n1_port_create : ℕ → N1Port
n1_port_create id = record {
  port_id = id;
  state = PortState.enabled;
  busy = false;
  plen = 0;
  drop_pdus = 0;
  err_pdus = 0;
  tx_pdus = 0;
  tx_bytes = 0;
  rx_pdus = 0;
  rx_bytes = 0;
}

-- stats_inc(rx, …) and stats_inc(tx, …) on counters of 32 bits.
abbrev pub count_rx : N1Port → ℕ → N1Port
count_rx port bytes = record port {
  rx_pdus = (port.rx_pdus + 1) % 2 ^ 32;
  rx_bytes = (port.rx_bytes + bytes) % 2 ^ 32;
}

abbrev pub count_tx : N1Port → ℕ → N1Port
count_tx port bytes = record port {
  tx_pdus = (port.tx_pdus + 1) % 2 ^ 32;
  tx_bytes = (port.tx_bytes + bytes) % 2 ^ 32;
}

-- The types that the switch of xRmtReceive hands to xRmtProcessDtPdu.
unfoldable pub is_data_transfer : ℕ → Bool
is_data_transfer t =
    t == pdu_type_cack
    || t == pdu_type_sack
    || t == pdu_type_nack
    || t == pdu_type_fc
    || t == pdu_type_ack
    || t == pdu_type_ack_and_fc
    || t == pdu_type_rendezvous
    || t == pdu_type_dt

abbrev to_nat : Bool → ℕ
to_nat true = 1
to_nat false = 0

abbrev is_disabled : PortState → Bool
is_disabled PortState.disabled = true
is_disabled s = false

module _ (bm : Buffers) where
  -- xRmtN1PortBind. `word` says whether pxN1Port of the RMT holds something other than NULL
  -- before; pxRmtCreate does not set it. `has_memory` is the answer of pvRsMemAlloc.
  unfoldable pub n1_port_bind :
      World bm → (id : ℕ) → (has_ipcp word has_memory : Bool) → Bool × World bm
  unfolding n1_port_create
  n1_port_bind w id has_ipcp word has_memory =
      if is_port_id_ok id && has_ipcp && word && has_memory
      then (
        true,
        record w { n1_port = some (record (n1_port_create id) { state = PortState.allocated }) },
      )
      else (false, w)

  -- xRmtProcessMgmtPdu
  unfoldable pub process_mgmt_pdu : Env → World bm → ℕ → Du → Bool × World bm
  process_mgmt_pdu env w port du = (env.normal_mgmt_du_post port du, emit (managed port du) w)

  unfoldable pub process_dt_pdu : Env → World bm → Pci → Du → Option (Bool × World bm)
  process_dt_pdu env w p du =
      if is_address_ok p.destination
        && not (p.pdu_type == pdu_type_mgmt)
        && is_cep_id_ok p.cep_destination
      then Efcp.container_receive bm env w p.cep_destination du
      else some (false, discard bm w du)

  -- xRmtReceive behind the decapsulation, on the header `p`.
  unfoldable pub dispatch : Env → World bm → ℕ → Pci → Du → Option (Bool × World bm)
  unfolding process_mgmt_pdu process_dt_pdu is_data_transfer
  dispatch env w from p du =
      if Pci.pdu_type_is_ok p.pdu_type && is_address_ok p.destination && is_qos_id_ok p.qos_id
      then (if p.destination == local_address
          then (if p.pdu_type == pdu_type_mgmt
              then some (process_mgmt_pdu env w from du)
              else (if is_data_transfer p.pdu_type
                  then process_dt_pdu env w p du
                  else some (false, discard bm w du)))
          else (if p.destination == 0
              then some (process_mgmt_pdu env w from du)
              else some (false, w)))
      else some (false, discard bm w du)

  -- xRmtReceive behind the answer of xDuDecap.
  unfoldable pub after_decap :
      Env → World bm → ℕ → Option (Bool × bm.Pool × Du) → Option (Bool × World bm)
  unfolding dispatch
  after_decap env w from none = none
  after_decap env w from (some (true, pool, du)) =
      some (false, discard bm (record w { pool = pool }) du)
  after_decap env w from (some (false, pool, du)) = elim (Du.pci_of du) [
    | none ↦ none
    | some p ↦ dispatch env (record w { pool = pool }) from p du
  ]

  -- xRmtReceive. `has_rmt` is the test of pxData->pxRmt. `none`: a header that is not there is
  -- read.
  unfoldable pub receive :
      Env → World bm → (has_rmt : Bool) → Du → (from : ℕ) → Option (Bool × World bm)
  unfolding after_decap
  receive env w has_rmt du from =
      if has_rmt && is_port_id_ok from
      then elim (Du.len du) [
        | none ↦ none
        | some bytes ↦ elim w.n1_port [
          | none ↦ some (false, discard bm w du)
          | some port ↦
              after_decap env (record w { n1_port = some (count_rx port bytes) }) from
                (Du.decap bm w.pool du)
        ]
      ]
      else some (false, discard bm w du)

  -- xRmtN1PortWriteDu: behind its first `return false` the code for a failed write is dead.
  unfoldable pub n1_port_write_du : Env → World bm → N1Port → Du → Bool × World bm
  n1_port_write_du env w port du = (env.du_write port.port_id du, emit (written port.port_id du) w)

  -- xRmtSendPortId under the one policy that there is, RMT_PS_ENQ_SEND.
  unfoldable pub send_port_id : Env → World bm → Du → Bool × World bm
  unfolding n1_port_write_du
  send_port_id env w du = elim w.n1_port [
    | none ↦ (false, discard bm w du)
    | some port ↦
        let must_enqueue = ltb 0 port.plen || port.busy || is_disabled port.state in
        let refused = record port { err_pdus = (port.err_pdus + 1) % 2 ^ 32 } in
        let (ret, w') =
          n1_port_write_du env (record w { n1_port = some (record port { busy = true }) }) port
            du in
        if must_enqueue then (false, record (discard bm w du) { n1_port = some refused }) else (
          true,
          record w' { n1_port = some (count_tx (record port { busy = false }) (to_nat ret)) },
        )
  ]

  -- xRmtSend. `none`: the header or the N-1 port is read and is not there.
  unfoldable pub send : Env → World bm → (has_rmt : Bool) → Du → Option (Bool × World bm)
  unfolding send_port_id
  send env w has_rmt du =
      if has_rmt
      then elim (Du.pci_of du) [
        | none ↦ none
        | some p ↦
            if Pci.is_ok p
            then elim w.n1_port [ none ↦ none | some port ↦ some (send_port_id env w du) ]
            else some (false, discard bm w du)
      ]
      else some (false, discard bm w du)
