-- ===== src/Outbound.antt =====
-- The sending side: xDtpWrite and xDtpPduSend of components/Ipcp/Modules/dtp.c, and xEfcpWrite and
-- xEfcpContainerWrite of efcp.c.
pub mod Wire
pub mod Loopback
use rinasensev.Prelude.{
  ℕ, ◌+◌, ◌%◌, ◌^◌, Bool, true, false, not, ◌&&◌, ◌||◌, ◌==◌, if◌then◌else◌, Option, none, some,
  bit_or,
}
use rinasensev.Buffers.{Buffers}
use rinasensev.Ids.{is_cep_id_ok}
use rinasensev.Pci
use rinasensev.Pci.{Pci, pdu_type_dt, pdu_flags_data_run}
use rinasensev.Du
use rinasensev.Du.{NetBuffer, Du, store_pci}
use rinasensev.Dtp.{discard}
use rinasensev.Efcp
use rinasensev.Rmt
use rinasensev.Stack.{DtpSv, Efcp, EfcpState, World, Env, instance_at, set_instance}

-- The header that xDtpWrite fills in, for the sequence number `csn` and a buffer of `size` bytes.
unfoldable pub header : Efcp → (csn size : ℕ) → Pci
header e csn size = record {
  version = 1;
  destination = e.connection.destination_address;
  source = e.connection.source_address;
  qos_id = e.connection.qos_id;
  cep_destination = e.connection.destination_cep_id;
  cep_source = e.connection.source_cep_id;
  pdu_type = pdu_type_dt;
  flags = if e.sv.drf_flag then bit_or 0 pdu_flags_data_run else 0;
  pdu_len = size % 2 ^ 16;
  sequence_number = csn;
}

-- The sequence number is counted up before it is used.
unfoldable pub next_sv : DtpSv → DtpSv
next_sv sv = record sv { next_seq_number_to_send = (sv.next_seq_number_to_send + 1) % 2 ^ 32 }

-- The data unit with the header written into its buffer.
unfoldable pub sealed : Efcp → NetBuffer → ℕ → Du
unfolding header store_pci
sealed e b at = record {
  buffer = some (store_pci (header e e.sv.next_seq_number_to_send b.data_length) b at);
  pci_at = some at;
}

module _ (bm : Buffers) where
  -- The local flow of xDtpPduSend. A successful delivery is taken for a failure.
  unfoldable pub loop_back :
      Env → World bm → ℕ → Option (Bool × bm.Pool × Du) → Option (Bool × World bm)
  loop_back env w cep none = none
  loop_back env w cep (some (failed, pool, du)) =
      let w' : World bm = record w { pool = pool } in
      if failed || not (Du.is_ok du)
      then some (false, discard bm w' du)
      else elim (Efcp.container_receive bm env w' cep du) [
        | none ↦ none
        | some (received, w'') ↦ some (not received, w'')
      ]

  -- xDtpPduSend of a data unit with the header `p`.
  unfoldable pub pdu_send : Env → World bm → (has_rmt : Bool) → Pci → Du → Option (Bool × World bm)
  unfolding loop_back
  pdu_send env w has_rmt p du =
      if not (p.source == p.destination)
      then Rmt.send bm env w has_rmt du
      else loop_back env w p.cep_destination (Du.decap bm w.pool du)

  -- xDtpWrite behind the answer of xDuEncap, for the instance `e` at place `i`.
  unfoldable pub after_encap :
      Env
      → World bm
      → (has_rmt : Bool) → ℕ
      → Efcp
      → Option (Bool × bm.Pool × Du)
      → Option (Bool × World bm)
  unfolding pdu_send next_sv
  after_encap env w has_rmt i e none = none
  after_encap env w has_rmt i e (some (false, pool, du)) =
      some (false, discard bm (record w { pool = pool }) du)
  after_encap env w has_rmt i e (some (true, pool, du)) =
      let e' = record e { sv = next_sv e.sv } in
      let w' : World bm = set_instance (record w { pool = pool }) i e' in
      elim du.buffer [
        | none ↦ none
        | some b ↦ elim du.pci_at [
          | none ↦ none
          | some at ↦
              let p = header e' e'.sv.next_seq_number_to_send b.data_length in
              if Pci.is_ok p
              then pdu_send env w' has_rmt p (sealed e' b at)
              else some (false, discard bm w' (sealed e' b at))
        ]
      ]

  unfoldable pub write :
      Env → World bm → (has_rmt : Bool) → ℕ → Efcp → Du → Option (Bool × World bm)
  unfolding after_encap
  write env w has_rmt i e du = after_encap env w has_rmt i e (Du.encap bm w.pool du)

  -- xEfcpContainerWrite; xEfcpWrite only calls xDtpWrite.
  unfoldable pub container_write :
      Env → World bm → (has_rmt : Bool) → ℕ → Du → Option (Bool × World bm)
  unfolding write
  container_write env w has_rmt cep du =
      if is_cep_id_ok cep
      then (let (found, w') = Efcp.find bm w cep in
          elim found [
            | none ↦ some (false, discard bm w' du)
            | some i ↦ elim (instance_at w' i) [
              | none ↦ none
              | some e ↦ elim e.state [
                | EfcpState.deallocated ↦ some (false, discard bm w' du)
                | EfcpState.allocated ↦ write env w' has_rmt i e du
              ]
            ]
          ])
      else some (false, discard bm w du)
