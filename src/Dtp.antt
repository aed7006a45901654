-- ===== src/Dtp.antt =====
-- components/Ipcp/Modules/dtp.c: the data transfer protocol, receiving side.
pub mod Window
use rinasensev.Prelude.{
  ℕ, ◌+◌, ◌-◌, ◌%◌, ◌^◌, Bool, true, false, ltb, leb, ◌==◌, if◌then◌else◌, Option, none, some,
  bit_and,
}
use rinasensev.Buffers.{Buffers}
use rinasensev.Pci.{Pci, pdu_flags_data_run}
use rinasensev.Du
use rinasensev.Du.{Du}
use rinasensev.Stack.{DtpSv, Efcp, World, Env, Event, emit, freed, posted, set_instance}

-- pxDtpStateVectorInit; UINT_MAX for the two sizes.
unfoldable pub state_vector_init : DtpSv
state_vector_init = record {
  next_seq_number_to_send = 0;
  max_seq_number_to_send = 0;
  seq_number_rollover_threshold = 0;
  max_seq_number_rcvd = 0;
  rexmsn_ctrl = false;
  rate_based = false;
  window_based = false;
  drf_required = true;
  rate_fulfiled = false;
  max_flow_pdu_size = 2 ^ 32 - 1;
  max_flow_sdu_size = 2 ^ 32 - 1;
  rcv_left_window_edge = 0;
  window_closed = false;
  drf_flag = true;
}

-- What xDtpReceive does with the data unit.
pub data Action : Type 0 where
  post destroy : Action

-- The decisions of xDtpReceive on the header: the state vector afterwards, what happens to the
-- data unit, and the result.
unfoldable pub decide : DtpSv → Pci → DtpSv × Action × Bool
decide sv p =
    if sv.drf_required
    then (if ltb 0 (bit_and p.flags pdu_flags_data_run)
        then (
          record sv { drf_required = false; rcv_left_window_edge = p.sequence_number },
          post,
          true,
        )
        else (sv, destroy, true))
    else (if leb p.sequence_number sv.rcv_left_window_edge then (sv, destroy, false) else (
      (if p.sequence_number == (sv.rcv_left_window_edge + 1) % 2 ^ 32
          then record sv { rcv_left_window_edge = p.sequence_number }
          else sv),
      post,
      true,
    ))

module _ (bm : Buffers) where
  -- xDuDestroy in the state of the data path.
  unfoldable pub discard : World bm → Du → World bm
  unfolding Du.destroy
  discard w du = emit (freed du) (record w { pool = Du.destroy bm w.pool du })

  -- xDtpPduPost and xEfcpEnqueue: the answer of the flow allocator is not used further up.
  unfoldable pub pdu_post : Env → World bm → Efcp → Du → Bool × World bm
  pdu_post env w e du =
      (env.flow_allocator_du_post e.connection.port_id du, emit (posted e.connection.port_id du) w)

  unfoldable pub perform : Env → World bm → Efcp → Du → Action → World bm
  unfolding pdu_post discard
  perform env w e du post = (pdu_post env w e du).1
  perform env w e du destroy = discard w du

  -- xDtpReceive for the instance `e` at place `i`. `none`: pxPci is not set.
  unfoldable pub receive : Env → World bm → ℕ → Efcp → Du → Option (Bool × World bm)
  unfolding decide perform
  receive env w i e du = elim (Du.pci_of du) [
    | none ↦ none
    | some p ↦
        let (sv, action, result) = decide e.sv p in
        let e' = record e { sv = sv } in
        some (result, perform env (set_instance w i e') e' du action)
  ]
