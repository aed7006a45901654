-- ===== src/Api/Write.antt =====
-- From RINA_flow_write in components/Rina-api/rina_api.c through the task of the IPC process to the
-- N-1 port.
use rinasensev.Prelude.{
  ℕ, ◌≤◌, ◌≡◌, ◌≢◌, refl, ap, ◌∙◌, true, le→ltb, none, some, List, ◌∷◌, ◌++◌, length, take, drop,
  take-append, take-all, get_or,
}
use rinasensev.Buffers.{Buffers}
use rinasensev.Gpha.{Bytes}
use rinasensev.Ids.{is_cep_id_ok}
use rinasensev.Pci
use rinasensev.Pci.{pci_size}
use rinasensev.Du.{NetBuffer, Du, add_size}
use rinasensev.Efcp
use rinasensev.Efcp.{imap_find}
use rinasensev.Outbound.{write, container_write}
use rinasensev.Outbound.Wire.{IsInByte, data_pdu, next_number, write_wire}
use rinasensev.Rmt.Send.{IsReady}
use rinasensev.Stack.{Efcp, EfcpState, N1Port, ImapRow, World, Env, written}
use rinasensev.Normal.{NormalFlow, allocated, find_flow, du_write, stack_tx}
use rinasensev.Api.{Event, max_sdu_size, filled, flow_write}

module _ (bm : Buffers) where
  -- An instance that the table finds for a CEP-id writes the data unit.
  container_write-found :
      (env : Env) (w : World bm) (cep i : ℕ) (e : Efcp) (imap : List ImapRow) (du : Du)
      → is_cep_id_ok cep ≡ true
      → imap_find cep w.imap ≡ (some i, imap)
      → get_or w.instances i none ≡ some e
      → e.state ≡ EfcpState.allocated
      → container_write bm env w true cep du ≡ write bm env (record w { imap = imap }) true i e du
  unfolding container_write Efcp.find
  container_write-found env w cep i e imap du ok found there in_use =
      let at : Efcp.find bm w cep ≡ (some i, record w { imap = imap }) =
        ap (λ r. (r.0, record w { imap = r.1 })) found in
      simp (ok, at, there, in_use) (ap (λ r. write bm env r.1 true i e du) at)

  -- The buffer that an application's bytes travel in holds those bytes in front.
  filled-take :
      (held : NetBuffer) (bytes : Bytes) (len : ℕ)
      → len ≡ length bytes
      → take len (filled held bytes len).ethernet ≡ bytes
  filled-take held bytes len whole =
      ap (λ front. take len (front ++ drop len held.ethernet)) (take-all len bytes whole)
      ∙ take-append len bytes (drop len held.ethernet) whole

  -- What an application writes, at most max_sdu_size bytes with a buffer for them and where the
  -- task takes the event, on an allocated flow whose CEP-id is not wrong and is found in the EFCP
  -- table: flow_write answers the length. When the task handles the event, the instance in use of a
  -- connection to another address, whose addresses, CEP-ids and QoS id have 8 bits, with a buffer
  -- for the header and an N-1 port that has nothing queued, is not busy and not disabled, writes
  -- one PDU to that port. It is read back as the header of the connection, with the next sequence
  -- number, the length of header and data and the type of a data PDU, and then the bytes of the
  -- application.
  pub written_data_goes_out :
      (env : Env) (w : World bm) (flows : List NormalFlow) (port cep : ℕ) (bytes : Bytes) (len : ℕ)
      (held : NetBuffer) (pool1 pool2 : bm.Pool) (f : NormalFlow) (i : ℕ) (e : Efcp)
      (imap : List ImapRow) (n1 : N1Port)
      → len ≤ max_sdu_size
      → len ≡ length bytes
      → bm.get w.pool len ≡ some pool1
      → find_flow flows port ≡ some f
      → f.state ≡ allocated
      → f.active ≡ cep
      → is_cep_id_ok cep ≡ true
      → imap_find cep w.imap ≡ (some i, imap)
      → get_or w.instances i none ≡ some e
      → e.state ≡ EfcpState.allocated
      → IsInByte e.connection
      → e.connection.source_address ≢ e.connection.destination_address
      → bm.get pool1 (add_size len pci_size) ≡ some pool2
      → w.n1_port ≡ some n1
      → IsReady n1
      → (b : NetBuffer) × (w2 : World bm) × (c : NetBuffer) × (flow_write bm true true true w.pool
            port bytes len held
          ≡ some (len, some (Event.transmit port b), pool1))
        × (stack_tx bm env (record w { pool = pool1 }) true flows port b ≡ some w2)
        × (w2.log ≡ written n1.port_id (record { buffer = some c; pci_at = some 0 }) ∷ w.log)
        × (Pci.cast c.ethernet ≡ data_pdu e.connection e.sv.drf_flag len (next_number e.sv))
        × (drop pci_size c.ethernet ≡ bytes)
  unfolding flow_write stack_tx du_write
  written_data_goes_out env w flows port cep bytes len held pool1 pool2 f i e imap n1 small whole
        got found open_flow active ok at there in_use r ne got2 bound ready =
      let b = filled held bytes len in
      let start : World bm = record w { pool = pool1 } in
      let searched : World bm = record start { imap = imap } in
      let du : Du = record { buffer = some b; pci_at = none } in
      let (c, w2, went, log, header, payload, _) =
        write_wire bm env searched i e b none pool2 n1 got2 bound ready r ne in
      let passed : container_write bm env start true f.active du ≡ some (true, w2) =
        ap (λ k. container_write bm env start true k du) active
        ∙ container_write-found env start cep i e imap du ok at there in_use
        ∙ went in
      (
        b,
        w2,
        c,
        rw (le→ltb max_sdu_size len small, got) refl,
        rw (found, open_flow) (rw passed refl),
        log,
        header,
        payload ∙ filled-take held bytes len whole,
      )
